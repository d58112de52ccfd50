-- ===== src/Tests/Channels.antt =====
-- Two sources of one channel, one of another.
use iptv_sniffer_web.Base.{
  ◌≡◌, refl, Bool, true, false, none, some, [], ◌∷◌, arith, nat_eq, string_eq, pair_eq, list_eq,
  Text,
}
use iptv_sniffer_web.Base.Dict.{lookup}
use iptv_sniffer_web.Channels.{
  Fields, Channel, Store, patch_metadata, original, edited, restore_metadata, with_category,
  patch_group_primary,
}
use iptv_sniffer_web.Channels.Metadata.{restore_metadata-patch_metadata}
use iptv_sniffer_web.Channels.Primary.{marked, map_option, patch_group_primary-marked}

abbrev fields : Text → Fields
fields name = record { name = name; category = []; tvg_id = []; is_hd = false }

abbrev channel : Text → Bool → Channel
channel name primary = record {
  fields = fields name;
  original_metadata = none;
  edited_metadata = none;
  is_primary = primary;
  updated_at = 0;
  rest = [];
}

abbrev one : Text
one = b'1' ∷ []

abbrev two : Text
two = b'2' ∷ []

abbrev store : Store
store = record {
  rows =
      (one, channel (b'a' ∷ []) true)
      ∷ (two, channel (b'a' ∷ []) false)
      ∷ (b'3' ∷ [], channel (b'b' ∷ []) true)
      ∷ [];
  writes = 0;
}

abbrev group_of : Channel → Text
group_of c = (c.fields).name

patch_group_primary-marked_example :
    lookup one ((patch_group_primary group_of (b'a' ∷ []) two store).0).rows
    ≡ map_option (marked group_of (b'a' ∷ []) two one) (lookup one store.rows)
unfolding lookup
patch_group_primary-marked_example =
    patch_group_primary-marked group_of (b'a' ∷ []) two one store (channel (b'a' ∷ []) false) refl
      refl

restore_metadata-patch_metadata_example :
    let patched = (patch_metadata (b'o' ∷ []) 5 one (fields (b'x' ∷ [])) store).0 in
    let restored = (restore_metadata 6 one original patched).0 in
    let again = (restore_metadata 7 one edited restored).0 in
    ((d : Channel) × (lookup one restored.rows ≡ some d) × (d.fields ≡ fields (b'a' ∷ [])))
    × ((d : Channel) × (lookup one again.rows ≡ some d)
        × (d.fields ≡ with_category (b'o' ∷ []) (fields (b'x' ∷ []))))
unfolding lookup
restore_metadata-patch_metadata_example =
    restore_metadata-patch_metadata (b'o' ∷ []) 5 6 7 one (fields (b'x' ∷ [])) store
      (channel (b'a' ∷ []) true) refl refl (omega arith) (omega arith)
