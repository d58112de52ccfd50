-- ===== src/Exports/Groups.antt =====
-- The groups that the export collects: members, and each group's best line.
use iptv_sniffer_web.Base.{
  ℕ, ◌+◌, ◌≤◌, max, ◌≡◌, refl, sym, ap, ◌⊎◌, inl, inr, false, List, [], ◌∷◌, ◌++◌, arith,
  if◌then◌else◌, ◌==◌, nat_eq, string_eq, pair_eq, list_eq, Bool-cases, Option-cases, All, ==_iff,
  Text,
}
use iptv_sniffer_web.Base.Dict.{Dict, lookup, insert, lookup-insert, All-insert, All-lookup}
use iptv_sniffer_web.Ranking.{Characters, channel_primary_score, exceeds}
use iptv_sniffer_web.Ranking.Scores.{exceeds_irrefl, exceeds_trans, exceeds_asym}
use mathlib.Core.Path.{subst}
use iptv_sniffer_web.Exports.{Channel, group_of, or_none, group_channels, better, best_of}

-- Membership in a list of channels.
abbrev pub In : Channel → List Channel → Type 0
In c [] = ⊥
In c (d ∷ ds) = (d ≡ c) ⊎ In c ds

pub In-append : (c : Channel) (xs ys : List Channel) → In c (xs ++ ys) → In c xs ⊎ In c ys
In-append c [] ys h = inr h
In-append c (x ∷ xs) ys (inl e) = inl (inl e)
In-append c (x ∷ xs) ys (inr h) = elim (In-append c xs ys h) [
  | inl left ↦ inl (inr left)
  | inr right ↦ inr right
]

pub In-append_left : (c : Channel) (xs ys : List Channel) → In c xs → In c (xs ++ ys)
In-append_left c [] ys h = absurd h
In-append_left c (x ∷ xs) ys (inl e) = inl e
In-append_left c (x ∷ xs) ys (inr h) = inr (In-append_left c xs ys h)

pub In-append_right : (c : Channel) (xs ys : List Channel) → In c ys → In c (xs ++ ys)
In-append_right c [] ys h = h
In-append_right c (x ∷ xs) ys h = inr (In-append_right c xs ys h)

abbrev pub NotOver : Channel → Channel → Type 0
NotOver d b = exceeds (channel_primary_score d.line) (channel_primary_score b.line) ≡ false

better-In : (b c x : Channel) → better b c ≡ x → (b ≡ x) ⊎ (c ≡ x)
unfolding better
better-In b c x h = ground arith

pub best_of-In : (b : Channel) (cs : List Channel) (x : Channel) → best_of b cs ≡ x → In x (b ∷ cs)
unfolding best_of
best_of-In b [] x e = inl e
best_of-In b (c ∷ cs) x e = elim (best_of-In (better b c) cs x e) [
  | inl first ↦ elim (better-In b c x first) [ inl old ↦ inl old | inr new ↦ inr (inl new) ]
  | inr later ↦ inr (inr later)
]

better-NotOver : (b c : Channel) → NotOver b (better b c) × NotOver c (better b c)
unfolding better
better-NotOver b c =
    elim (Bool-cases (exceeds (channel_primary_score c.line) (channel_primary_score b.line))) [
      | inl over ↦ rw over (
        exceeds_asym (channel_primary_score c.line) (channel_primary_score b.line) over,
        exceeds_irrefl (channel_primary_score c.line),
      )
      | inr under ↦ rw under (exceeds_irrefl (channel_primary_score b.line), under)
    ]

best_of-first : (b : Channel) (cs : List Channel) → NotOver b (best_of b cs)
unfolding best_of
best_of-first b [] = exceeds_irrefl (channel_primary_score b.line)
best_of-first b (c ∷ cs) =
    exceeds_trans (channel_primary_score b.line) (channel_primary_score (better b c).line)
      (channel_primary_score (best_of (better b c) cs).line) (better-NotOver b c).0
      (best_of-first (better b c) cs)

-- No line of a group exceeds its best one.
pub best_of-top :
    (b : Channel) (cs : List Channel) (d : Channel) → In d (b ∷ cs) → NotOver d (best_of b cs)
unfolding best_of
best_of-top b cs d (inl e) = rw (← e) (best_of-first b cs)
best_of-top b [] d (inr h) = absurd h
best_of-top b (c ∷ cs) d (inr (inl e)) = rw (← e) (
    exceeds_trans (channel_primary_score c.line) (channel_primary_score (better b c).line)
      (channel_primary_score (best_of (better b c) cs).line) (better-NotOver b c).1
      (best_of-first (better b c) cs))
best_of-top b (c ∷ cs) d (inr (inr h)) = best_of-top (better b c) cs d (inr h)

-- The groups built so far from the channels seen.
module _ (chars : Characters) where
  -- A group's members have its key and are among the channels.
  abbrev pub IsMembers : List Channel → Text × List Channel → Type 0
  IsMembers all entry = (c : Channel) → In c entry.1 → (group_of chars c ≡ entry.0) × In c all

  abbrev pub occurs : Text → Dict Text (List Channel) → ℕ
  occurs g [] = 0
  occurs g ((k, ms) ∷ d) = (if k == g then 1 else 0) + occurs g d

  -- The groups when the channels `rest` of `all` are still to come.
  pub record AreGroups (all rest : List Channel) (d : Dict Text (List Channel)) : Type 0 where
    pub members : All (IsMembers all) d
    pub once : (g : Text) → occurs g d ≤ 1
    pub covers : (c : Channel) → In c all → In c rest ⊎ In c (or_none (lookup (group_of chars c) d))

  occurs-insert :
      (g k : Text) (ms : List Channel) (d : Dict Text (List Channel))
      → occurs g (insert k ms d) ≡ (if k == g then max 1 (occurs g d) else occurs g d)
  unfolding insert
  occurs-insert g k ms [] = ground arith
  occurs-insert g k ms ((j, ns) ∷ d) =
      ground (arith, occurs-insert g k ms d, ==_iff j k, ==_iff j g, ==_iff k g)

  old-IsMembers :
      (g : Text) (all : List Channel) (d : Dict Text (List Channel))
      → All (IsMembers all) d
      → IsMembers all (g, or_none (lookup g d))
  unfolding or_none
  old-IsMembers g all d a c h = elim (Option-cases (lookup g d)) [
    | inl gone ↦ absurd (subst (λ o. In c (or_none o)) gone h)
    | inr (ms, found) ↦
        All-lookup (IsMembers all) g ms d a found c (subst (λ o. In c (or_none o)) found h)
  ]

  -- Where a channel's group has it after one more was appended.
  In-inserted :
      (c x : Channel) (d : Dict Text (List Channel))
      → (c ≡ x) ⊎ In x (or_none (lookup (group_of chars x) d))
      → In x (
          or_none (
            lookup
              (group_of chars x)
              (insert (group_of chars c) (or_none (lookup (group_of chars c) d) ++ c ∷ []) d)))
  unfolding or_none
  In-inserted c x d h =
      let g = group_of chars c in
      let ms = or_none (lookup g d) in
      elim (Bool-cases (g == group_of chars x)) [
        | inl same ↦
            let e : g ≡ group_of chars x = (==_iff g (group_of chars x)).0 same in
            rw (lookup-insert g (group_of chars x) (ms ++ c ∷ []) d, same)
              (elim h [
                | inl new ↦ In-append_right x ms (c ∷ []) (inl new)
                | inr old ↦
                    In-append_left x ms (c ∷ [])
                      (subst (λ k. In x (or_none (lookup k d))) (sym e) old)
              ])
        | inr other ↦
            rw (lookup-insert g (group_of chars x) (ms ++ c ∷ []) d, other)
              (elim h [
                | inl new ↦ absurd (
                    ground
                      (arith, other, (==_iff g (group_of chars x)).1 (ap (group_of chars) new)))
                | inr old ↦ old
              ])
      ]

  insert-AreGroups :
      (all rest : List Channel) (c : Channel) (d : Dict Text (List Channel))
      → In c all
      → AreGroups all (c ∷ rest) d
      → AreGroups all rest
          (insert (group_of chars c) (or_none (lookup (group_of chars c) d) ++ c ∷ []) d)
  insert-AreGroups all rest c d there v =
      let g = group_of chars c in
      let ms = or_none (lookup g d) in
      record {
        members = All-insert (IsMembers all) g (ms ++ c ∷ []) d v.members (λ x h.
            elim (In-append x ms (c ∷ []) h) [
              | inl old ↦ old-IsMembers g all d v.members x old
              | inr (inl e) ↦ rw (← e) (refl, there)
              | inr (inr none_left) ↦ absurd none_left
            ]);
        once = λ k. ground (arith, occurs-insert k g (ms ++ c ∷ []) d, v.once k);
        covers = λ x h. elim (v.covers x h) [
          | inl (inl now) ↦ inr (In-inserted c x d (inl now))
          | inl (inr later) ↦ inl later
          | inr old ↦ inr (In-inserted c x d (inr old))
        ];
      }

  pub group_channels-AreGroups :
      (all cs : List Channel) (d : Dict Text (List Channel))
      → ((c : Channel) → In c cs → In c all)
      → AreGroups all cs d
      → AreGroups all [] (group_channels chars cs d)
  unfolding group_channels
  group_channels-AreGroups all [] d sub v = v
  group_channels-AreGroups all (c ∷ cs) d sub v =
      group_channels-AreGroups all cs _ (λ x h. sub x (inr h))
        (insert-AreGroups all cs c d (sub c (inl refl)) v)
