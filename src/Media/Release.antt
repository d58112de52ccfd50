-- ===== src/Media/Release.antt =====
-- What closing a lease releases.
use iptv_sniffer_web.Base.{
  ℕ, ◌≡◌, refl, inl, inr, Bool, true, false, none, some, List, [], ◌∷◌, ◌++◌, arith, if◌then◌else◌,
  ◌==◌, nat_eq, string_eq, pair_eq, list_eq, Bool-cases, Option-cases, ==_refl,
}
use iptv_sniffer_web.Base.Dict.{Dict, lookup, insert, lookup-insert}
use iptv_sniffer_web.Media.{
  Task, Lease, Manager, remove_task, cleans, quiet, attach, mark_closed, drop_task, close, has_task,
}

pub has_task-remove_task :
    (j id : ℕ) (ts : List Task)
    → has_task j (remove_task id ts) ≡ (if id == j then false else has_task j ts)
unfolding has_task remove_task
has_task-remove_task j id [] = ground arith
has_task-remove_task j id (t ∷ ts) = ground (arith, has_task-remove_task j id ts)

-- The lease is closed, or there never was one.
is_closed : ℕ → Manager → Bool
is_closed id m = elim (lookup id m.leases) [ none ↦ true | some l ↦ l.closed ]

lookup-insert_self : (k : ℕ) (l : Lease) (d : Dict ℕ Lease) → lookup k (insert k l d) ≡ some l
lookup-insert_self k l d = rw (lookup-insert k k l d, ==_refl k)

is_closed-false :
    (id : ℕ) (m : Manager)
    → is_closed id m ≡ false
    → (l : Lease) × (lookup id m.leases ≡ some l) × (l.closed ≡ false)
unfolding is_closed
is_closed-false id m h = elim (Option-cases (lookup id m.leases)) [
  | inl missing ↦ absurd (ground arith)
  | inr (l, e) ↦ (l, e, ground arith)
]

mark_closed-lookup :
    (id : ℕ) (l : Lease) (m : Manager)
    → lookup id (drop_task id (mark_closed id l m)).leases
      ≡ some (record l { closed = true; cleanup = none })
unfolding drop_task mark_closed
mark_closed-lookup id l m = lookup-insert_self id _ m.leases

mark_closed-is_closed :
    (id : ℕ) (l : Lease) (m : Manager) → is_closed id (drop_task id (mark_closed id l m)) ≡ true
unfolding is_closed
mark_closed-is_closed id l m = ground (arith, mark_closed-lookup id l m)

module _ (raises : ℕ → Bool) where
  attach_open :
      (id c : ℕ) (m : Manager) (l : Lease)
      → lookup id m.leases ≡ some l
      → l.closed ≡ false
      → attach raises id c m
        ≡ quiet (record m { leases = insert id (record l { cleanup = some c }) m.leases })
  unfolding attach
  attach_open id c m l h k = ground arith

  attach_closed :
      (id c : ℕ) (m : Manager) (l : Lease)
      → lookup id m.leases ≡ some l
      → l.closed ≡ true
      → (attach raises id c m).calls ≡ cleans c ∷ []
  unfolding attach
  attach_closed id c m l h k = ground arith

  close-quiet : (id : ℕ) (m : Manager) → is_closed id m ≡ true → close raises id m ≡ quiet m
  unfolding close is_closed
  close-quiet id m h = ground arith

  close_open :
      (id : ℕ) (m : Manager) (l : Lease)
      → lookup id m.leases ≡ some l
      → l.closed ≡ false
      → ((close raises id m).manager ≡ drop_task id (mark_closed id l m))
        × ((close raises id m).calls ≡ elim l.cleanup [ none ↦ [] | some c ↦ cleans c ∷ [] ])
  unfolding close quiet
  close_open id m l h k = (ground arith, ground arith)

  close-is_closed : (id : ℕ) (m : Manager) → is_closed id (close raises id m).manager ≡ true
  unfolding quiet
  close-is_closed id m = elim (Bool-cases (is_closed id m)) [
    | inl shut ↦ rw (close-quiet id m shut) shut
    | inr not_shut ↦
        let (l, e, open_lease) = is_closed-false id m not_shut in
        rw (close_open id m l e open_lease).0 (mark_closed-is_closed id l m)
  ]

  -- A second close does nothing, whatever the first one raised: no cleanup runs twice, and no task
  -- is dropped twice.
  close-close :
      (id : ℕ) (m : Manager)
      → close raises id (close raises id m).manager ≡ quiet (close raises id m).manager
  close-close id m = close-quiet id (close raises id m).manager (close-is_closed id m)

  -- A cleanup attached to an open lease runs exactly once: at the close, or, if the close came
  -- first, when it is attached.
  attach-close_once :
      (id c : ℕ) (m : Manager) (l : Lease)
      → lookup id m.leases ≡ some l
      → l.closed ≡ false
      → l.cleanup ≡ none
      → ((attach raises id c m).calls ++ (close raises id (attach raises id c m).manager).calls
          ≡ cleans c ∷ [])
        × ((close raises id m).calls ++ (attach raises id c (close raises id m).manager).calls
            ≡ cleans c ∷ [])
  unfolding quiet mark_closed
  attach-close_once id c m l h open_lease empty =
      let l' = record l { cleanup = some c } in
      let m' = record m { leases = insert id l' m.leases } in
      let after = close_open id m' l' (lookup-insert_self id l' m.leases) open_lease in
      let first = close_open id m l h open_lease in
      let shut = record l { closed = true; cleanup = none } in
      (
        rw (attach_open id c m l h open_lease) after.1,
        rw (first.1, first.0, empty)
            (attach_closed id c (drop_task id (mark_closed id l m)) shut (mark_closed-lookup id l m)
              refl),
      )
