-- ===== src/Exports/Rows.antt =====
-- The rows of a playlist: one channel for each key, in the order of their first rows.
use iptv_sniffer_web.Base.{
  ℕ, ◌+◌, ◌≡◌, refl, ◌⊎◌, inl, inr, Bool, true, false, not, ◌&&◌, ◌||◌, none, some, List, [], ◌∷◌,
  arith, if◌then◌else◌, ◌==◌, nat_eq, string_eq, pair_eq, list_eq, Bool-cases, Option-cases, length,
  ==_iff, Text,
}
use iptv_sniffer_web.Ranking.{is_one_of}
use iptv_sniffer_web.Exports.{
  Channel, Row, key_of, channel_of, normalize_rows, normalize_channels, insert_sorted,
  sort_channels,
}

-- Whether a row has a name and gives a channel with this key.
abbrev pub gives : Text → Row → Bool
gives k r = elim r.port [
  | none ↦ false
  | some port ↦ not (length r.name == 0) && key_of r port == k
]

abbrev pub given : Text → List Row → Bool
given k [] = false
given k (r ∷ rs) = gives k r || given k rs

abbrev pub count_key : Text → List Channel → ℕ
count_key k [] = 0
count_key k (c ∷ cs) = (if c.key == k then 1 else 0) + count_key k cs

-- What one more row does.
record IsTaken (r : Row) (rs : List Row) (seen : List Text) (cs : List Channel) : Type 0 where
  port : ℕ
  packets : ℕ
  rest : List Channel
  parsed : r.port ≡ some port
  named : (length r.name == 0) ≡ false
  fresh : is_one_of (key_of r port) seen ≡ false
  later : normalize_rows rs (key_of r port ∷ seen) ≡ some rest
  result : cs ≡ channel_of r port packets ∷ rest

record IsSkipped (r : Row) (rs : List Row) (seen : List Text) (cs : List Channel) : Type 0 where
  later : normalize_rows rs seen ≡ some cs
  useless : (k : Text) → gives k r ≡ true → is_one_of k seen ≡ true

gives-named : (k : Text) (r : Row) → gives k r ≡ true → (length r.name == 0) ≡ true → ⊥
gives-named k r g e = ground (arith, g, e)

gives-old :
    (k : Text) (r : Row) (port : ℕ) (seen : List Text)
    → r.port ≡ some port
    → gives k r ≡ true
    → is_one_of (key_of r port) seen ≡ true
    → is_one_of k seen ≡ true
gives-old k r port seen parsed g old =
    let same : (key_of r port == k) ≡ true = ground (arith, parsed, g) in
    rw (← (==_iff (key_of r port) k).0 same) old

taken-count :
    (k : Text) (r : Row) (port packets : ℕ) (rs : List Row) (seen : List Text)
    → r.port ≡ some port
    → (length r.name == 0) ≡ false
    → is_one_of (key_of r port) seen ≡ false
    → (if (channel_of r port packets).key == k then 1 else 0)
        + (if given k rs && not (is_one_of k (key_of r port ∷ seen)) then 1 else 0)
      ≡ (if given k (r ∷ rs) && not (is_one_of k seen) then 1 else 0)
unfolding channel_of is_one_of
taken-count k r port packets rs seen parsed named fresh = elim (Bool-cases (key_of r port == k)) [
  | inl same ↦
      let unseen : is_one_of k seen ≡ false = rw (← (==_iff (key_of r port) k).0 same) fresh in
      ground (arith, parsed, named, same, unseen)
  | inr other ↦ ground (arith, parsed, named, other)
]

normalize_rows-cases :
    (r : Row) (rs : List Row) (seen : List Text) (cs : List Channel)
    → normalize_rows (r ∷ rs) seen ≡ some cs
    → IsTaken r rs seen cs ⊎ IsSkipped r rs seen cs
unfolding normalize_rows
normalize_rows-cases r rs seen cs h = elim (Bool-cases (length r.name == 0)) [
  | inl nameless ↦
      inr (record { later = ground arith; useless = λ k g. absurd (gives-named k r g nameless) })
  | inr named ↦ elim (Option-cases r.port) [
    | inl bad ↦ absurd (ground arith)
    | inr (port, parsed) ↦ elim (Option-cases r.packets) [
      | inl bad ↦ absurd (ground arith)
      | inr (packets, counted) ↦ elim (Bool-cases (is_one_of (key_of r port) seen)) [
        | inl old ↦
            inr (record {
              later = ground arith;
              useless = λ k g. gives-old k r port seen parsed g old;
            })
        | inr fresh ↦ elim (Option-cases (normalize_rows rs (key_of r port ∷ seen))) [
          | inl failed ↦ absurd (ground arith)
          | inr (rest, later) ↦ inl (record {
            port = port;
            packets = packets;
            rest = rest;
            parsed = parsed;
            named = named;
            fresh = fresh;
            later = later;
            result = ground arith;
          })
        ]
      ]
    ]
  ]
]

count-normalize_rows :
    (rows : List Row) (seen : List Text) (cs : List Channel) (k : Text)
    → normalize_rows rows seen ≡ some cs
    → count_key k cs ≡ (if given k rows && not (is_one_of k seen) then 1 else 0)
unfolding normalize_rows is_one_of
count-normalize_rows [] seen cs k h = ground arith
count-normalize_rows (r ∷ rs) seen cs k h = elim (normalize_rows-cases r rs seen cs h) [
  | inl v ↦
      rw (v.result, count-normalize_rows rs (key_of r v.port ∷ seen) v.rest k v.later)
        (taken-count k r v.port v.packets rs seen v.parsed v.named v.fresh)
  | inr v ↦ rw (count-normalize_rows rs seen cs k v.later) (ground (arith, v.useless k))
]

count-insert_sorted :
    (before : Channel → Channel → Bool) (k : Text) (c : Channel) (ds : List Channel)
    → count_key k (insert_sorted before c ds) ≡ count_key k (c ∷ ds)
unfolding insert_sorted
count-insert_sorted before k c [] = refl
count-insert_sorted before k c (d ∷ ds) = elim (Bool-cases (before d c)) [
  | inl first ↦ rw first (omega (arith, count-insert_sorted before k c ds))
  | inr second ↦ rw second refl
]

count-sort_channels :
    (before : Channel → Channel → Bool) (k : Text) (cs : List Channel)
    → count_key k (sort_channels before cs) ≡ count_key k cs
unfolding sort_channels
count-sort_channels before k [] = refl
count-sort_channels before k (c ∷ cs) = omega (
  arith,
  count-insert_sorted before k c (sort_channels before cs),
  count-sort_channels before k cs,
)

-- Rows that are accepted give exactly one channel for each key that a row with a name has, and no
-- other channel, in whatever order the channels are sorted.
pub count-normalize_channels :
    (before : Channel → Channel → Bool) (rows : List Row) (cs : List Channel) (k : Text)
    → normalize_channels before rows ≡ some cs
    → count_key k cs ≡ (if given k rows then 1 else 0)
unfolding normalize_channels is_one_of
count-normalize_channels before rows cs k h = elim (Option-cases (normalize_rows rows [])) [
  | inl failed ↦ absurd (ground (arith, failed))
  | inr (ds, done) ↦
      let sorted : sort_channels before ds ≡ cs = ground (arith, done) in
      rw (← sorted, count-sort_channels before k ds, count-normalize_rows rows [] ds k done)
        (ground arith)
]
