-- ===== src/Stores.antt =====
-- services/storage_service.py, the stores besides the channels: `ChannelSnapshotStore`,
-- `SubscriptionStore` and `OperatorChannelStore`. A file holds a value or, before the first write and
-- when it cannot be read, none; values are those of the file's JSON that the store looks at.
pub mod Coherence
use iptv_sniffer_web.Base.{
  ℕ, zero, suc, ◌+◌, ◌-◌, ◌*◌, ◌/◌, ◌%◌, ◌^◌, ◌≤◌, ◌<◌, min, max, String, ◌≡◌, refl, sym, ap, ◌∙◌,
  ◌≢◌, ◌↔◌, ◌⊎◌, inl, inr, Bool, true, false, not, ◌&&◌, ◌||◌, Option, none, some, List, [], ◌∷◌,
  ◌++◌, map, arith, ◌>>=◌, >>=-eq-some, ltb, leb, if◌then◌else◌, Comparable, ◌==◌, nat_eq,
  string_eq, pair_eq, list_eq, Bool-cases, Option-cases, ltb→lt, ltb→le, lt→ltb, le→ltb, leb→le,
  le→leb, length, get_or, get_elem?, take, drop, last_n, length-append, length-take, length-drop,
  take-append-drop, take-append, drop-append, take_all, take-append_le, drop-append_le,
  slice-append, get_or-append, All, All-append, byte_at, slice, be16, be32, le16, le32, IsByte,
  AreBytes, put_be16, put_be32, put_le16, put_le32, ==_iff, ==_refl, Text, str_nat, is_digit,
  digits_value, digits_value-str_nat,
}
use iptv_sniffer_web.Base.Dict.{Dict, lookup, insert, erase, contains}

-- A saved list of channels; the channels are one value here.
pub record Snapshot {ℓ} (C : Type ℓ) : Type ℓ where
  pub name : Text
  pub created_at : ℕ
  pub count : ℕ
  pub channels : C

module _ {ℓ} {C : Type ℓ} where
  -- `ChannelSnapshotStore.save`, with the identifier made of the clock.
  unfoldable pub save_snapshot : ℕ → Text → ℕ → ℕ → C → Dict ℕ (Snapshot C) → Dict ℕ (Snapshot C)
  save_snapshot id name now count channels d =
      insert id (record { name = name; created_at = now; count = count; channels = channels }) d

  -- `ChannelSnapshotStore.get`, and `delete` with what it answers.
  unfoldable pub get_snapshot : ℕ → Dict ℕ (Snapshot C) → Option (Snapshot C)
  get_snapshot id d = lookup id d

  unfoldable pub delete_snapshot : ℕ → Dict ℕ (Snapshot C) → Dict ℕ (Snapshot C) × Bool
  delete_snapshot id d = if contains id d then (erase id d, true) else (d, false)

pub record Subscription : Type 0 where
  pub initialized : Bool
  pub candidate_ids : List Text
  pub updated_at : ℕ

unfoldable pub is_one_of : Text → List Text → Bool
is_one_of id [] = false
is_one_of id (i ∷ is) = if i == id then true else is_one_of id is

-- The loop of `SubscriptionStore.save`, over texts that are stripped: `seen` and `normalized`.
unfoldable pub normalize : List Text → List Text → List Text
normalize seen [] = []
normalize seen (id ∷ ids) =
    let fresh = normalize (id ∷ seen) ids in
    let known = normalize seen ids in
    if not (length id == 0) && not (is_one_of id seen) then id ∷ fresh else known

unfoldable pub save_subscription : ℕ → List Text → Subscription
save_subscription now ids = record {
  initialized = true;
  candidate_ids = normalize [] ids;
  updated_at = now;
}

-- The filter of `SubscriptionStore.load`.
unfoldable pub non_empty : List Text → List Text
non_empty [] = []
non_empty (id ∷ ids) = if length id == 0 then non_empty ids else id ∷ non_empty ids

unfoldable pub load_subscription : Option Subscription → Subscription
load_subscription none = record { initialized = false; candidate_ids = []; updated_at = 0 }
load_subscription (some s) = record s { candidate_ids = non_empty s.candidate_ids }

-- `OperatorChannelStore`: a table of channels, cached; a copy is what the caller gets.
pub record Operator {ℓ} (T : Type ℓ) : Type ℓ where
  pub file : Option T
  pub cache : Option T

module _ {ℓ} {T : Type ℓ} (nothing : T) where
  unfoldable pub read_file : Operator T → T
  read_file s = elim s.file [ none ↦ nothing | some t ↦ t ]

  -- `load`.
  unfoldable pub load_channels : Operator T → Operator T × T
  unfolding read_file
  load_channels s = elim s.cache [
    | none ↦ (record s { cache = some (read_file s) }, read_file s)
    | some t ↦ (s, t)
  ]

  -- `_atomic_dump_json`: it replaces the file, or raises and leaves it as it was.
  unfoldable pub dump_json : Bool → T → Operator T → Operator T × Bool
  dump_json writes t s = if writes then (record s { file = some t }, true) else (s, false)

  -- `save_dict`, whose statements end an import too, and `clear`: the cache is set before the file is
  -- written, and `false` is the exception of a write that fails.
  unfoldable pub save_dict : Bool → T → Operator T → Operator T × Bool
  unfolding dump_json
  save_dict writes t s = dump_json writes t (record s { cache = some t })

  unfoldable pub clear : Bool → Operator T → Operator T × Bool
  unfolding dump_json
  clear writes s = dump_json writes nothing (record s { cache = some nothing })

  unfoldable pub invalidate : Operator T → Operator T
  invalidate s = record s { cache = none }

  -- A restore of files writes behind the store's back.
  unfoldable pub rewrite_file : T → Operator T → Operator T
  rewrite_file t s = record s { file = some t }

  -- `save_if_unchanged`, with a test of equality; `false` is RuntimeError or the exception of the
  -- write.
  unfoldable pub save_if_unchanged : (T → T → Bool) → Bool → T → T → Operator T → Operator T × Bool
  unfolding load_channels save_dict
  save_if_unchanged same writes expected updated s =
      if same (load_channels s).1 expected
      then save_dict writes updated (load_channels s).0
      else ((load_channels s).0, false)
