-- ===== src/Channels.antt =====
-- services/storage_service.py, `ChannelStore`: the user's edits of stored channels, the primary source
-- of a group, and deletions. The store is the dict that its file holds; `writes` counts how often the
-- file is written. A channel has the fields that these operations touch; texts are stripped already,
-- and `group_of` is `channel_group_key` of utils.py.
pub mod Metadata
pub mod Primary
use iptv_sniffer_web.Base.{
  ℕ, zero, suc, ◌+◌, ◌-◌, ◌*◌, ◌/◌, ◌%◌, ◌^◌, ◌≤◌, ◌<◌, min, max, String, ◌≡◌, refl, sym, ap, ◌∙◌,
  ◌≢◌, ◌↔◌, ◌⊎◌, inl, inr, Bool, true, false, not, ◌&&◌, ◌||◌, Option, none, some, List, [], ◌∷◌,
  ◌++◌, map, arith, ◌>>=◌, >>=-eq-some, ltb, leb, if◌then◌else◌, Comparable, ◌==◌, nat_eq,
  string_eq, pair_eq, list_eq, Bool-cases, Option-cases, ltb→lt, ltb→le, lt→ltb, le→ltb, leb→le,
  le→leb, length, get_or, get_elem?, take, drop, last_n, length-append, length-take, length-drop,
  take-append-drop, take-append, drop-append, take_all, take-append_le, drop-append_le,
  slice-append, get_or-append, All, All-append, byte_at, slice, be16, be32, le16, le32, IsByte,
  AreBytes, put_be16, put_be32, put_le16, put_le32, ==_iff, ==_refl, Text, str_nat, is_digit,
  digits_value, digits_value-str_nat,
}
use iptv_sniffer_web.Base.Dict.{Dict, lookup, insert, erase, contains}

-- `_metadata_fields`: what a user may override.
pub record Fields : Type 0 where
  pub name : Text
  pub category : Text
  pub tvg_id : Text
  pub is_hd : Bool

pub record Channel : Type 0 where
  pub fields : Fields
  pub original_metadata : Option Fields
  pub edited_metadata : Option Fields
  pub is_primary : Bool
  pub updated_at : ℕ
  -- What else the row holds.
  pub rest : Dict Text Text

pub record Store : Type 0 where
  pub rows : Dict Text Channel
  pub writes : ℕ

-- What an operation answers: no such channel, a ValueError, or the channel as it is now.
pub data Answer : Type 0 where
  missing : Answer
  refused : Answer
  updated : Channel → Answer

unfoldable pub or_fields : Option Fields → Fields → Fields
or_fields none f = f
or_fields (some o) f = o

-- "其它频道", for an empty category.
unfoldable pub with_category : Text → Fields → Fields
with_category other f = if length f.category == 0 then record f { category = other } else f

-- The channel after an edit.
unfoldable pub edit_channel : Text → ℕ → Fields → Channel → Channel
edit_channel other now values c = record c {
  fields = with_category other values;
  original_metadata = some (or_fields c.original_metadata c.fields);
  edited_metadata = some (with_category other values);
  updated_at = now;
}

unfoldable pub write_channel : Text → Channel → Store → Store
write_channel key c s = record { rows = insert key c s.rows; writes = s.writes + 1 }

-- `ChannelStore.patch_metadata`.
unfoldable pub patch_metadata : Text → ℕ → Text → Fields → Store → Store × Answer
patch_metadata other now key values s = elim (lookup key s.rows) [
  | none ↦ (s, missing)
  | some c ↦ if length values.name == 0 then (s, refused) else (
    write_channel key (edit_channel other now values c) s,
    updated (edit_channel other now values c),
  )
]

pub data Source : Type 0 where
  original edited : Source

unfoldable pub metadata_of : Source → Channel → Option Fields
metadata_of original c = c.original_metadata
metadata_of edited c = c.edited_metadata

unfoldable pub restore_channel : ℕ → Fields → Channel → Channel
restore_channel now values c = record c { fields = values; updated_at = now }

-- The rest of `restore_metadata`, for a channel that is there.
unfoldable pub restore_fields : ℕ → Text → Option Fields → Channel → Store → Store × Answer
restore_fields now key none c s = (s, refused)
restore_fields now key (some values) c s = if length values.name == 0 then (s, refused) else (
  write_channel key (restore_channel now values c) s,
  updated (restore_channel now values c),
)

-- `ChannelStore.restore_metadata`.
unfoldable pub restore_metadata : ℕ → Text → Source → Store → Store × Answer
unfolding restore_fields
restore_metadata now key source s = elim (lookup key s.rows) [
  | none ↦ (s, missing)
  | some c ↦ restore_fields now key (metadata_of source c) c s
]

-- The loop of `patch_group_primary`, and how many channels it touched.
unfoldable pub mark_primary :
    (Channel → Text) → Text → Text → Dict Text Channel → Dict Text Channel × ℕ
mark_primary group_of group primary [] = ([], 0)
mark_primary group_of group primary ((k, c) ∷ rest) =
    let more = mark_primary group_of group primary rest in
    if group_of c == group
    then ((k, record c { is_primary = k == primary }) ∷ more.0, more.1 + 1)
    else ((k, c) ∷ more.0, more.1)

unfoldable pub write_if : Bool → Dict Text Channel → Store → Store
write_if changed rows s = if changed then record { rows = rows; writes = s.writes + 1 } else s

-- `ChannelStore.patch_group_primary`.
unfoldable pub patch_group_primary : (Channel → Text) → Text → Text → Store → Store × ℕ
unfolding write_if
patch_group_primary group_of group primary s = elim (lookup primary s.rows) [
  | none ↦ (s, 0)
  | some target ↦
      let marked = mark_primary group_of group primary s.rows in
      if not (group_of target == group)
      then (s, 0)
      else (write_if (ltb 0 marked.1) marked.0 s, marked.1)
]

unfoldable pub erase_keys : List Text → Dict Text Channel → Dict Text Channel × ℕ
erase_keys [] rows = (rows, 0)
erase_keys (k ∷ ks) rows =
    let present = erase_keys ks (erase k rows) in
    let absent = erase_keys ks rows in
    if contains k rows then (present.0, present.1 + 1) else absent

-- `ChannelStore.delete_keys`.
unfoldable pub delete_keys : List Text → Store → Store × ℕ
unfolding write_if
delete_keys keys s = let left = erase_keys keys s.rows in (write_if (ltb 0 left.1) left.0 s, left.1)
