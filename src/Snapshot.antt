-- ===== src/Snapshot.antt =====
-- services/snapshot_service.py, `SnapshotService`: the bounded cache of previews. The clock is an
-- argument, ffmpeg's answer too; the capacity that a preview needs is Media's.
pub mod Bounds
use iptv_sniffer_web.Base.{
  ℕ, zero, suc, ◌+◌, ◌-◌, ◌*◌, ◌/◌, ◌%◌, ◌^◌, ◌≤◌, ◌<◌, min, max, String, ◌≡◌, refl, sym, ap, ◌∙◌,
  ◌≢◌, ◌↔◌, ◌⊎◌, inl, inr, Bool, true, false, not, ◌&&◌, ◌||◌, Option, none, some, List, [], ◌∷◌,
  ◌++◌, map, arith, ◌>>=◌, >>=-eq-some, ltb, leb, if◌then◌else◌, Comparable, ◌==◌, nat_eq,
  string_eq, pair_eq, list_eq, Bool-cases, Option-cases, ltb→lt, ltb→le, lt→ltb, le→ltb, leb→le,
  le→leb, length, get_or, get_elem?, take, drop, last_n, length-append, length-take, length-drop,
  take-append-drop, take-append, drop-append, take_all, take-append_le, drop-append_le,
  slice-append, get_or-append, All, All-append, byte_at, slice, be16, be32, le16, le32, IsByte,
  AreBytes, put_be16, put_be32, put_le16, put_le32, ==_iff, ==_refl, Text, str_nat, is_digit,
  digits_value, digits_value-str_nat,
}

-- `(host, port, mode, local_ip)`, as one text.
abbrev pub Key : Type 0
Key = Text

-- When it was made, and the image.
abbrev pub Item : Type 0
Item = Key × ℕ × List ℕ

-- The cache is an OrderedDict, the oldest first; `pending` are the keys that are being made.
pub record Service : Type 0 where
  pub ttl : ℕ
  pub max_entries : ℕ
  pub max_bytes : ℕ
  pub cache : List Item
  pub pending : List Key

-- The stale entries are dropped: `now-at >= self.ttl`.
unfoldable pub drop_stale : ℕ → ℕ → List Item → List Item
drop_stale now ttl [] = []
drop_stale now ttl ((k, at, image) ∷ is) =
    if leb ttl (now - at) then drop_stale now ttl is else (k, at, image) ∷ drop_stale now ttl is

unfoldable pub find : Key → List Item → Option Item
find key [] = none
find key ((k, at, image) ∷ is) = if k == key then some (k, at, image) else find key is

unfoldable pub without : Key → List Item → List Item
without key [] = []
without key ((k, at, image) ∷ is) =
    if k == key then without key is else (k, at, image) ∷ without key is

unfoldable pub has_key : Key → List Key → Bool
has_key key [] = false
has_key key (k ∷ ks) = if k == key then true else has_key key ks

unfoldable pub discard : Key → List Key → List Key
discard key [] = []
discard key (k ∷ ks) = if k == key then discard key ks else k ∷ discard key ks

-- What the first locked part of `get` finds: an image, a preview in the making, or work to do.
pub data Found : Type 0 where
  cached : List ℕ → Found
  in_progress : Found
  to_make : Found

unfoldable pub look_up : ℕ → Key → Service → Service × Found
look_up now key s =
    let fresh = drop_stale now s.ttl s.cache in
    elim (find key fresh) [
      | some (k, at, image) ↦
          (record s { cache = without key fresh ++ (k, at, image) ∷ [] }, cached image)
      | none ↦
          if has_key key s.pending
          then (record s { cache = fresh }, in_progress)
          else (record s { cache = fresh; pending = key ∷ s.pending }, to_make)
    ]

-- `sum(len(v[1]) for v in self.cache.values())`.
unfoldable pub total_bytes : List Item → ℕ
total_bytes [] = 0
total_bytes ((k, at, image) ∷ is) = length image + total_bytes is

-- The loop that drops the oldest.
unfoldable pub shrink : ℕ → ℕ → List Item → List Item
shrink max_entries max_bytes [] = []
shrink max_entries max_bytes (i ∷ is) =
    let smaller = shrink max_entries max_bytes is in
    if ltb max_entries (length (i ∷ is)) || ltb max_bytes (total_bytes (i ∷ is))
    then smaller
    else i ∷ is

-- `self.cache[key] = …`: an old key keeps its place.
unfoldable pub put : Item → List Item → List Item
put i [] = i ∷ []
put i (j ∷ js) = if j.0 == i.0 then i ∷ js else j ∷ put i js

-- What ffmpeg comes to: its return code and what it wrote, or an exception on the way.
pub data Made : Type 0 where
  exits : ℕ → List ℕ → Made
  fails : Made

unfoldable pub is_jpeg : List ℕ → Bool
is_jpeg image = take 2 image == 0xFF ∷ 0xD8 ∷ [] && last_n 2 image == 0xFF ∷ 0xD9 ∷ []

unfoldable pub store_image : ℕ → Key → List ℕ → Service → Service
store_image now key image s = record s {
  cache = shrink s.max_entries s.max_bytes (put (key, now, image) s.cache);
}

-- The tests of the image.
unfoldable pub accept : Made → Service → Option (List ℕ)
unfolding is_jpeg
accept fails s = none
accept (exits code image) s =
    if not (code == 0) || not (is_jpeg image)
    then none
    else if ltb s.max_bytes (length image)
    then none
    else some image

-- The `finally` of `get`.
unfoldable pub end_make : Key → Service → Service
end_make key s = record s { pending = discard key s.pending }

-- The part of `get` after `look_up`.
unfoldable pub make : ℕ → Key → Made → Service → Service × Option (List ℕ)
make now key made s = elim (accept made s) [
  | none ↦ (end_make key s, none)
  | some image ↦ (end_make key (store_image now key image s), some image)
]
