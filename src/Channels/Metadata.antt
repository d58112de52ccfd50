-- ===== src/Channels/Metadata.antt =====
-- Edits and what brings the recognised values back.
use iptv_sniffer_web.Base.{
  ℕ, ◌<◌, ◌≡◌, refl, none, some, arith, nat_eq, string_eq, pair_eq, list_eq, length, ==_refl, Text,
}
use iptv_sniffer_web.Base.Dict.{lookup, lookup-insert}
use iptv_sniffer_web.Channels.{
  Fields, Channel, Store, updated, or_fields, with_category, edit_channel, write_channel,
  patch_metadata, Source, original, edited, metadata_of, restore_channel, restore_fields,
  restore_metadata,
}

lookup-write_channel :
    (key : Text) (c : Channel) (s : Store) → lookup key (write_channel key c s).rows ≡ some c
unfolding write_channel
lookup-write_channel key c s = rw (lookup-insert key key c s.rows, ==_refl key)

patch_metadata-some :
    (other : Text) (now : ℕ) (key : Text) (values : Fields) (s : Store) (c : Channel)
    → lookup key s.rows ≡ some c
    → 0 < length values.name
    → patch_metadata other now key values s ≡ (
      write_channel key (edit_channel other now values c) s,
      updated (edit_channel other now values c),
    )
unfolding patch_metadata
patch_metadata-some other now key values s c h n = ground arith

restore_metadata-some :
    (now : ℕ) (key : Text) (source : Source) (s : Store) (c : Channel) (values : Fields)
    → lookup key s.rows ≡ some c
    → metadata_of source c ≡ some values
    → 0 < length values.name
    → restore_metadata now key source s
      ≡ (write_channel key (restore_channel now values c) s, updated (restore_channel now values c))
unfolding restore_metadata restore_fields
restore_metadata-some now key source s c values h m n = ground arith

-- Whatever a user enters for a channel that was never edited, restoring the original brings its
-- recognised name, category, identifier and quality back, and restoring the edit brings the entered
-- ones back.
pub restore_metadata-patch_metadata :
    (other : Text) (now later last : ℕ) (key : Text) (values : Fields) (s : Store) (c : Channel)
    → lookup key s.rows ≡ some c
    → c.original_metadata ≡ none
    → 0 < length values.name
    → 0 < length (c.fields).name
    → let patched = (patch_metadata other now key values s).0 in
      let restored = (restore_metadata later key original patched).0 in
      let again = (restore_metadata last key edited restored).0 in
      ((d : Channel) × (lookup key restored.rows ≡ some d) × (d.fields ≡ c.fields))
      × ((d : Channel) × (lookup key again.rows ≡ some d) × (d.fields ≡ with_category other values))
unfolding edit_channel restore_channel metadata_of or_fields
restore_metadata-patch_metadata other now later last key values s c h fresh n m =
    let c1 = edit_channel other now values c in
    let s1 = write_channel key c1 s in
    let c2 = restore_channel later c.fields c1 in
    let s2 = write_channel key c2 s1 in
    let c3 = restore_channel last (with_category other values) c2 in
    let s3 = write_channel key c3 s2 in
    let first : restore_metadata later key original s1 ≡ (s2, updated c2) =
      restore_metadata-some later key original s1 c1 c.fields (lookup-write_channel key c1 s)
        (rw fresh) m in
    let second : restore_metadata last key edited s2 ≡ (s3, updated c3) =
      restore_metadata-some last key edited s2 c2 (with_category other values)
        (lookup-write_channel key c2 s1) refl (unfold with_category in ground arith) in
    rw (patch_metadata-some other now key values s c h n, first, second)
      ((c2, lookup-write_channel key c2 s1, refl), (c3, lookup-write_channel key c3 s2, refl))
