-- ===== src/Exports/Best.antt =====
-- The chosen lines: exactly one for each group, from the channels, and none of its group is better.
use iptv_sniffer_web.Base.{
  ℕ, ◌+◌, ◌≤◌, ◌≡◌, refl, ◌∙◌, ◌↔◌, inl, inr, Bool, some, List, [], ◌∷◌, arith, if◌then◌else◌, ◌==◌,
  nat_eq, string_eq, pair_eq, list_eq, Bool-cases, All, ==_iff, Text,
}
use iptv_sniffer_web.Base.Dict.{Dict, lookup}
use iptv_sniffer_web.Ranking.{Characters}
use mathlib.Core.Path.{subst}
use iptv_sniffer_web.Exports.{
  Channel, insert_sorted, sort_channels, group_of, or_none, group_channels, best_of, best_members,
  select_best_channels,
}
use iptv_sniffer_web.Exports.Groups.{
  In, NotOver, best_of-In, best_of-top, IsMembers, occurs, AreGroups, group_channels-AreGroups,
}

module _ (chars : Characters) where
  -- How many channels of a list are of a group.
  abbrev pub count_group : Text → List Channel → ℕ
  count_group g [] = 0
  count_group g (c ∷ cs) = (if group_of chars c == g then 1 else 0) + count_group g cs

  count-best_members :
      (all : List Channel) (g : Text) (d : Dict Text (List Channel))
      → All (IsMembers chars all) d
      → count_group g (best_members d) ≤ occurs chars g d
  unfolding best_members
  count-best_members all g [] a = omega arith
  count-best_members all g ((k, []) ∷ d) a = ground (arith, count-best_members all g d a.1)
  count-best_members all g ((k, c ∷ cs) ∷ d) a =
      let own = (a.0 (best_of c cs) (best_of-In c cs (best_of c cs) refl)).0 in
      rw own (omega (arith, count-best_members all g d a.1))

  best_members-In :
      (all : List Channel) (b : Channel) (d : Dict Text (List Channel))
      → All (IsMembers chars all) d
      → In b (best_members d)
      → In b all
  unfolding best_members
  best_members-In all b [] a h = absurd h
  best_members-In all b ((k, []) ∷ d) a h = best_members-In all b d a.1 h
  best_members-In all b ((k, c ∷ cs) ∷ d) a (inl e) = (a.0 b (best_of-In c cs b e)).1
  best_members-In all b ((k, c ∷ cs) ∷ d) a (inr h) = best_members-In all b d a.1 h

  -- The chosen line of a channel's group.
  pub record IsChosen (best : List Channel) (c : Channel) : Type 0 where
    pub line : Channel
    pub listed : In line best
    pub same_group : group_of chars line ≡ group_of chars c
    pub top : NotOver c line

  IsChosen-cons : (b c : Channel) (best : List Channel) → IsChosen best c → IsChosen (b ∷ best) c
  IsChosen-cons b c best v = record {
    line = v.line;
    listed = inr v.listed;
    same_group = v.same_group;
    top = v.top;
  }

  best_members-IsChosen :
      (all : List Channel) (c : Channel) (k : Text) (d : Dict Text (List Channel))
      → All (IsMembers chars all) d
      → k ≡ group_of chars c
      → In c (or_none (lookup k d))
      → IsChosen (best_members d) c
  unfolding best_members lookup or_none
  best_members-IsChosen all c k [] a e h = absurd h
  best_members-IsChosen all c k ((j, []) ∷ d) a e h = elim (Bool-cases (j == k)) [
    | inl hit ↦ absurd (subst (λ b. In c (or_none (if b then some [] else lookup k d))) hit h)
    | inr miss ↦
        best_members-IsChosen all c k d a.1 e
          (subst (λ b. In c (or_none (if b then some [] else lookup k d))) miss h)
  ]
  best_members-IsChosen all c k ((j, x ∷ xs) ∷ d) a e h = elim (Bool-cases (j == k)) [
    | inl hit ↦ record {
      line = best_of x xs;
      listed = inl refl;
      same_group =
          (a.0 (best_of x xs) (best_of-In x xs (best_of x xs) refl)).0 ∙ (==_iff j k).0 hit ∙ e;
      top =
          best_of-top x xs c
            (subst (λ b. In c (or_none (if b then some (x ∷ xs) else lookup k d))) hit h);
    }
    | inr miss ↦ IsChosen-cons (best_of x xs) c (best_members d) (
        best_members-IsChosen all c k d a.1 e
          (subst (λ b. In c (or_none (if b then some (x ∷ xs) else lookup k d))) miss h))
  ]

  -- Sorting changes no group's count and no membership.
  module _ (before : Channel → Channel → Bool) where
    count-insert_sorted :
        (g : Text) (c : Channel) (ds : List Channel)
        → count_group g (insert_sorted before c ds) ≡ count_group g (c ∷ ds)
    unfolding insert_sorted
    count-insert_sorted g c [] = refl
    count-insert_sorted g c (d ∷ ds) = elim (Bool-cases (before d c)) [
      | inl first ↦ rw first (omega (arith, count-insert_sorted g c ds))
      | inr second ↦ rw second refl
    ]

    count-sort_channels :
        (g : Text) (cs : List Channel) → count_group g (sort_channels before cs) ≡ count_group g cs
    unfolding sort_channels
    count-sort_channels g [] = refl
    count-sort_channels g (c ∷ cs) =
        omega (arith, count-insert_sorted g c (sort_channels before cs), count-sort_channels g cs)

    In-insert_sorted :
        (x c : Channel) (ds : List Channel) → In x (insert_sorted before c ds) ↔ In x (c ∷ ds)
    unfolding insert_sorted
    In-insert_sorted x c [] = (λ h. h, λ h. h)
    In-insert_sorted x c (d ∷ ds) = elim (Bool-cases (before d c)) [
      | inl first ↦
          let rest = In-insert_sorted x c ds in
          rw first (
            λ h. elim h [
              | inl e ↦ inr (inl e)
              | inr k ↦ elim (rest.0 k) [ inl e ↦ inl e | inr l ↦ inr (inr l) ]
            ],
            λ h. elim h [
              | inl e ↦ inr (rest.1 (inl e))
              | inr k ↦ elim k [ inl e ↦ inl e | inr l ↦ inr (rest.1 (inr l)) ]
            ],
          )
      | inr second ↦ rw second (λ h. h, λ h. h)
    ]

    In-sort_channels : (x : Channel) (cs : List Channel) → In x (sort_channels before cs) ↔ In x cs
    unfolding sort_channels
    In-sort_channels x [] = (λ h. h, λ h. h)
    In-sort_channels x (c ∷ cs) =
        let head = In-insert_sorted x c (sort_channels before cs) in
        let rest = In-sort_channels x cs in
        (
          λ h. elim (head.0 h) [ inl e ↦ inl e | inr k ↦ inr (rest.0 k) ],
          λ h. head.1 (elim h [ inl e ↦ inl e | inr k ↦ inr (rest.1 k) ]),
        )

  -- One line for each group that has channels, none of the group above it.
  pub record IsBest (all best : List Channel) : Type 0 where
    pub within : (b : Channel) → In b best → In b all
    pub chosen : (c : Channel) → In c all → IsChosen best c
    pub once : (g : Text) → count_group g best ≤ 1

-- Whatever order the list is sorted by, the selection takes its lines from the channels, for each
-- channel it has a line of the same group whose score is not exceeded by the channel's, and it has at
-- most one line of each group.
pub select_best_channels-IsBest :
    (chars : Characters) (before : Channel → Channel → Bool) (all : List Channel)
    → IsBest chars all (select_best_channels chars before all)
unfolding select_best_channels
select_best_channels-IsBest chars before all =
    let start : AreGroups chars all all [] = record {
      members = tt;
      once = λ g. omega arith;
      covers = λ c h. inl h;
    } in
    let v = group_channels-AreGroups chars all all [] (λ c h. h) start in
    let groups = group_channels chars all [] in
    record {
      within = λ b h.
          best_members-In chars all b groups v.members
            ((In-sort_channels chars before b (best_members groups)).0 h);
      chosen = λ c h.
          let k =
            best_members-IsChosen chars all c (group_of chars c) groups v.members refl
              (elim (v.covers c h) [ inl pending ↦ absurd pending | inr found ↦ found ]) in
          record {
            line = k.line;
            listed = (In-sort_channels chars before k.line (best_members groups)).1 k.listed;
            same_group = k.same_group;
            top = k.top;
          };
      once = λ g. omega (
        arith,
        count-sort_channels chars before g (best_members groups),
        count-best_members chars all g groups v.members,
        v.once g,
      );
    }
