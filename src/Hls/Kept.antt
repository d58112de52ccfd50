-- ===== src/Hls/Kept.antt =====
-- The invariant of the streams under the steps of `Hls.Sections`, and what a step of one lease must
-- show to keep it.
use iptv_sniffer_web.Base.{
  ℕ, ◌≡◌, refl, sym, ◌∙◌, ◌≢◌, ◌⊎◌, inl, inr, true, false, ◌||◌, none, some, [], ◌∷◌, arith, ◌==◌,
  nat_eq, string_eq, pair_eq, list_eq, Bool-cases, Option-cases, All, ==_iff, Text,
}
use mathlib.Core.Path.{subst}
use iptv_sniffer_web.Base.Dict.{Dict, lookup, insert, erase, All-lookup, All-insert, All-erase}
use iptv_sniffer_web.Media.{cleans}
use iptv_sniffer_web.Media.Capacity.{IsWithin}
use iptv_sniffer_web.Hls.{Stream, remove_stream, put_stream, run_cleanups}
use iptv_sniffer_web.Hls.Stops.{leases_of, Apart, Distinct, run_cleanups_one, run_cleanups_unknown}
use iptv_sniffer_web.Hls.Sound.{Distinct-erase}
use iptv_sniffer_web.Hls.Steps.{leases_of-insert}
use iptv_sniffer_web.Hls.Sections.{World}
use iptv_sniffer_web.Hls.Held.{Held, Waiting, IsClosed, Same, Held-Same, Waiting-Same, IsKept}

-- Each stream keeps its task, the streams have leases of their own, and the starts that go on have
-- leases without a cleanup.
pub record IsKeeping (w : World) : Type 0 where
  pub kept : All (IsKept w) w.service.streams
  pub distinct : Distinct (leases_of w.service.streams)
  pub waiting : (id : ℕ) → (w.granted id || w.entering id) ≡ true → Waiting id w
  pub apart : (id : ℕ) → w.granted id ≡ true → w.entering id ≡ false
  pub closed : (id c : ℕ) → w.cleaning id ≡ some c → IsClosed id w
  pub within : IsWithin w.service.manager

-- A step about one lease, which leaves the streams.
pub record Only (id : ℕ) (w v : World) : Type 0 where
  pub streams : v.service.streams ≡ w.service.streams
  pub cleanups : (j : ℕ) → j ≢ id → lookup j v.service.cleanups ≡ lookup j w.service.cleanups
  pub others : (j : ℕ) → j ≢ id → Same j w v
  pub grants : (j : ℕ) → j ≢ id → v.granted j ≡ w.granted j
  pub within : IsWithin w.service.manager → IsWithin v.service.manager

-- What such a step shows for its own lease.
pub record Own (id : ℕ) (w v : World) : Type 0 where
  pub held :
      Apart id (leases_of w.service.streams)
      ⊎ ((lookup id v.service.cleanups ≡ lookup id w.service.cleanups)
          × (w.granted id ≡ false → Held id w → (v.granted id ≡ false) × Held id v))
  pub waiting : (v.granted id || v.entering id) ≡ true → Waiting id v
  pub apart : v.granted id ≡ true → v.entering id ≡ false
  pub closed : (c : ℕ) → v.cleaning id ≡ some c → IsClosed id v

not_same : (j id : ℕ) → (j == id) ≡ false → j ≢ id
not_same j id h e = ground (arith, h, (==_iff j id).1 e)

IsKept-Only :
    (id : ℕ) (w v : World) (xs : Dict Text Stream)
    → Only id w v
    → (Apart id (leases_of xs)
        ⊎ ((lookup id v.service.cleanups ≡ lookup id w.service.cleanups)
            × (w.granted id ≡ false → Held id w → (v.granted id ≡ false) × Held id v)))
    → All (IsKept w) xs
    → All (IsKept v) xs
IsKept-Only id w v [] o own h = tt
IsKept-Only id w v ((key, t) ∷ xs) o own h =
    let rest : Apart id (leases_of xs)
        ⊎ ((lookup id v.service.cleanups ≡ lookup id w.service.cleanups)
            × (w.granted id ≡ false → Held id w → (v.granted id ≡ false) × Held id v)) =
      elim own [ inl a ↦ inl a.1 | inr f ↦ inr f ] in
    (
      elim (Bool-cases (t.lease == id)) [
        | inr other ↦
            let apart = not_same t.lease id other in
            record {
              target = o.cleanups t.lease apart ∙ (h.0).target;
              left = o.grants t.lease apart ∙ (h.0).left;
              held = Held-Same t.lease w v (o.others t.lease apart) (h.0).held;
            }
        | inl same ↦
            let e : t.lease ≡ id = (==_iff t.lease id).0 same in
            elim own [
              | inl a ↦ absurd (a.0 e)
              | inr (same_key, f) ↦
                  let done = f (rw (← e) (h.0).left) (rw (← e) (h.0).held) in
                  let target : lookup id v.service.cleanups ≡ some key =
                    same_key ∙ rw (← e) (h.0).target in
                  record { target = rw e target; left = rw e done.0; held = rw e done.1 }
            ]
      ],
      IsKept-Only id w v xs o rest h.1,
    )

pub Only-IsKeeping : (id : ℕ) (w v : World) → Only id w v → Own id w v → IsKeeping w → IsKeeping v
Only-IsKeeping id w v o own k = record {
  kept =
      subst (λ xs. All (IsKept v) xs) (sym o.streams)
        (IsKept-Only id w v w.service.streams o own.held k.kept);
  distinct = rw o.streams k.distinct;
  waiting = λ j h. elim (Bool-cases (j == id)) [
    | inl same ↦ rw ((==_iff j id).0 same) (own.waiting (rw (← (==_iff j id).0 same) h))
    | inr other ↦
        let n = not_same j id other in
        let s = o.others j n in
        Waiting-Same j w v s (k.waiting j (rw (← o.grants j n, ← s.entry) h))
  ];
  apart = λ j h. elim (Bool-cases (j == id)) [
    | inl same ↦ rw ((==_iff j id).0 same) (own.apart (rw (← (==_iff j id).0 same) h))
    | inr other ↦
        let n = not_same j id other in (o.others j n).entry ∙ k.apart j (sym (o.grants j n) ∙ h)
  ];
  closed = λ j c h. elim (Bool-cases (j == id)) [
    | inl same ↦ rw ((==_iff j id).0 same) (own.closed c (rw (← (==_iff j id).0 same) h))
    | inr other ↦
        let s = o.others j (not_same j id other) in
        let (l, found, shut) = k.closed j c (sym s.clean ∙ h) in (l, s.lease ∙ found, shut)
  ];
  within = o.within k.within;
}

-- The table may change where its streams stay kept.
pub table-IsKeeping :
    (w v : World) (xs : Dict Text Stream)
    → v ≡ record w { service = record w.service { streams = xs } }
    → All (IsKept w) xs
    → Distinct (leases_of xs)
    → IsKeeping w
    → IsKeeping v
table-IsKeeping w v xs e a d k = rw e (record {
  kept = same_kept xs a;
  distinct = d;
  waiting = λ j h.
      Waiting-Same j w (record w { service = record w.service { streams = xs } })
        (record { lease = refl; task = λ t. t; entry = refl; clean = refl; drop = refl })
        (k.waiting j h);
  apart = k.apart;
  closed = k.closed;
  within = k.within;
})
  where
    same_kept :
        (ys : Dict Text Stream)
        → All (IsKept w) ys
        → All (IsKept (record w { service = record w.service { streams = xs } })) ys
    same_kept [] h = tt
    same_kept (y ∷ ys) h = (
      record {
        target = (h.0).target;
        left = (h.0).left;
        held =
            Held-Same _ w (record w { service = record w.service { streams = xs } })
              (record { lease = refl; task = λ t. t; entry = refl; clean = refl; drop = refl })
              (h.0).held;
      },
      same_kept ys h.1,
    )

abbrev pub without_stream : Text → World → World
without_stream key w = record w { service = remove_stream key w.service }

pub without_stream-IsKeeping :
    (key : Text) (w : World) → IsKeeping w → IsKeeping (without_stream key w)
unfolding remove_stream
without_stream-IsKeeping key w k =
    table-IsKeeping w (without_stream key w) (erase key w.service.streams) refl
      (All-erase (IsKept w) key w.service.streams k.kept)
      (Distinct-erase key w.service.streams k.distinct) k

-- A stream that changes but for its lease.
pub put_stream-IsKeeping :
    (key : Text) (t u : Stream) (w : World)
    → lookup key w.service.streams ≡ some t
    → u.lease ≡ t.lease
    → IsKeeping w
    → IsKeeping (record w { service = put_stream key u w.service })
unfolding put_stream
put_stream-IsKeeping key t u w found e k =
    let h = All-lookup (IsKept w) key t w.service.streams k.kept found in
    table-IsKeeping w _ (insert key u w.service.streams) refl
      (All-insert (IsKept w) key u w.service.streams k.kept
        (record { target = rw e h.target; left = rw e h.left; held = rw e h.held }))
      (rw (leases_of-insert key t u w.service.streams found e) k.distinct) k

-- The cleanup of a lease takes out the stream that has it, if there is one.
Apart-without_stream :
    (id : ℕ) (key : Text) (w : World) (xs : Dict Text Stream)
    → lookup id w.service.cleanups ≡ some key
    → All (IsKept w) xs
    → Apart id (leases_of (erase key xs))
unfolding erase
Apart-without_stream id key w [] h a = tt
Apart-without_stream id key w ((j, t) ∷ xs) h a = elim (Bool-cases (j == key)) [
  | inl hit ↦ rw hit (Apart-without_stream id key w xs h a.1)
  | inr miss ↦ rw miss (
    λ same.
        let both : lookup t.lease w.service.cleanups ≡ some key = rw same h in
        let keys : j ≡ key = ground (arith, (a.0).target, both) in
        absurd (ground (arith, miss, (==_iff j key).1 keys)),
    Apart-without_stream id key w xs h a.1,
  )
]

Apart-unknown :
    (id : ℕ) (w : World) (xs : Dict Text Stream)
    → lookup id w.service.cleanups ≡ none
    → All (IsKept w) xs
    → Apart id (leases_of xs)
Apart-unknown id w [] h a = tt
Apart-unknown id w ((j, t) ∷ xs) h a = (
  λ same.
      let there : lookup id w.service.cleanups ≡ some j = rw (← same) (a.0).target in
      absurd (ground (arith, h, there)),
  Apart-unknown id w xs h a.1,
)

abbrev pub cleaned : ℕ → World → World
cleaned c w = record w { service = run_cleanups remove_stream (cleans c ∷ []) w.service }

pub cleaned-IsKeeping :
    (c : ℕ) (w : World)
    → IsKeeping w
    → IsKeeping (cleaned c w) × Apart c (leases_of (cleaned c w).service.streams)
unfolding remove_stream
cleaned-IsKeeping c w k = elim (Option-cases (lookup c w.service.cleanups)) [
  | inl unknown ↦
      rw (run_cleanups_unknown remove_stream c w.service unknown)
        (k, Apart-unknown c w w.service.streams unknown k.kept)
  | inr (key, known) ↦ rw (run_cleanups_one remove_stream c key w.service known) (
    without_stream-IsKeeping key w k,
    Apart-without_stream c key w w.service.streams known k.kept,
  )
]
