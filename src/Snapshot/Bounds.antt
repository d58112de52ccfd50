-- ===== src/Snapshot/Bounds.antt =====
-- The cache stays within its bounds, and an image that was made can be had again.
use iptv_sniffer_web.Base.{
  ℕ, ◌+◌, ◌-◌, ◌≤◌, ◌<◌, ◌≡◌, refl, inl, inr, none, some, List, [], ◌∷◌, ◌++◌, arith, nat_eq,
  string_eq, pair_eq, list_eq, Option-cases, length, ==_refl,
}
use iptv_sniffer_web.Snapshot.{
  Key, Item, Service, drop_stale, find, cached, look_up, total_bytes, shrink, put, Made,
  store_image, accept, end_make, make,
}

shrink-bounds :
    (max_entries max_bytes : ℕ) (is : List Item)
    → (length (shrink max_entries max_bytes is) ≤ max_entries)
      × (total_bytes (shrink max_entries max_bytes is) ≤ max_bytes)
unfolding shrink total_bytes
shrink-bounds max_entries max_bytes [] = (omega arith, omega arith)
shrink-bounds max_entries max_bytes (i ∷ is) =
    ground (arith, shrink-bounds max_entries max_bytes is)

-- Whatever is in the cache, after a preview was made it holds at most its limits of entries and bytes.
make-bounds :
    (now : ℕ) (key : Key) (made : Made) (s : Service) (image : List ℕ)
    → (make now key made s).1 ≡ some image
    → let t = (make now key made s).0 in
      (length t.cache ≤ s.max_entries) × (total_bytes t.cache ≤ s.max_bytes)
unfolding make store_image end_make
make-bounds now key made s image h = elim (Option-cases (accept made s)) [
  | inl rejected ↦ ground (arith, rejected)
  | inr (i, e) ↦ rw (make, e) (shrink-bounds s.max_entries s.max_bytes (put (key, now, i) s.cache))
]

put-absent : (i : Item) (is : List Item) → find i.0 is ≡ none → put i is ≡ is ++ i ∷ []
unfolding put find
put-absent i [] h = refl
put-absent i ((k, at, image) ∷ is) h = ground (arith, put-absent i is)

find-append :
    (key : Key) (now : ℕ) (image : List ℕ) (is : List Item)
    → find key is ≡ none
    → find key (is ++ (key, now, image) ∷ []) ≡ some (key, now, image)
unfolding find
find-append key now image [] h = rw (==_refl key)
find-append key now image ((k, at, other) ∷ is) h = ground (arith, find-append key now image is)

find-drop_stale :
    (key : Key) (later ttl at : ℕ) (image : List ℕ) (is : List Item)
    → find key is ≡ some (key, at, image)
    → later - at < ttl
    → find key (drop_stale later ttl is) ≡ some (key, at, image)
unfolding find drop_stale
find-drop_stale key later ttl at image [] h k = cc
find-drop_stale key later ttl at image ((j, t, other) ∷ is) h k =
    ground (arith, find-drop_stale key later ttl at image is)

find-last :
    (max_entries max_bytes : ℕ) (key : Key) (now : ℕ) (image : List ℕ) (is : List Item)
    → 1 ≤ max_entries
    → length image ≤ max_bytes
    → find key is ≡ none
    → find key (shrink max_entries max_bytes (is ++ (key, now, image) ∷ []))
      ≡ some (key, now, image)
unfolding shrink find total_bytes
find-last max_entries max_bytes key now image [] m b h = ground (arith, ==_refl key)
find-last max_entries max_bytes key now image ((k, at, other) ∷ is) m b h =
    ground
      (arith, find-append key now image is, find-last max_entries max_bytes key now image is m b)

accept-fits :
    (made : Made) (s : Service) (image : List ℕ)
    → accept made s ≡ some image
    → length image ≤ s.max_bytes
unfolding accept
accept-fits made s image h = ground arith

-- A preview that was just made is found in the cache for the time to live, without another one being
-- made, if the cache has room for an entry and had none of that key.
pub look_up-make :
    (now later : ℕ) (key : Key) (made : Made) (s : Service) (image : List ℕ)
    → (make now key made s).1 ≡ some image
    → 1 ≤ s.max_entries
    → find key s.cache ≡ none
    → now ≤ later
    → later < now + s.ttl
    → (look_up later key (make now key made s).0).1 ≡ cached image
unfolding look_up make store_image end_make
look_up-make now later key made s image h m f c t = elim (Option-cases (accept made s)) [
  | inl rejected ↦ absurd (ground (arith, rejected))
  | inr (i, e) ↦
      let same : i ≡ image = ground (arith, e) in
      let fits : length i ≤ s.max_bytes = accept-fits made s i e in
      let there =
        find-drop_stale key later s.ttl now i
          (shrink s.max_entries s.max_bytes (s.cache ++ (key, now, i) ∷ []))
          (find-last s.max_entries s.max_bytes key now i s.cache m fits f) (omega arith) in
      rw (make, e, store_image, end_make, put-absent (key, now, i) s.cache f)
        (rw (look_up, there, same))
]
