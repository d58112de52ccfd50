-- ===== src/Media/Shutdown.antt =====
-- What a shutdown does to every task.
use iptv_sniffer_web.Base.{
  ℕ, String, ◌≡◌, refl, ◌∙◌, ◌⊎◌, inl, inr, Bool, true, false, not, ◌&&◌, Option, none, some, List,
  [], ◌∷◌, ◌++◌, arith, ◌==◌, nat_eq, string_eq, pair_eq, list_eq, Bool-cases, Option-cases, ==_iff,
  ==_refl, Text,
}
use iptv_sniffer_web.Base.Dict.{lookup, insert, lookup-insert, lookup-insert_same}
use iptv_sniffer_web.Media.{
  Task, Lease, Manager, Call, Outcome, cleans, calls_back, acquire, quiet, mark_closed, drop_task,
  close, mark_cancelled, request_cancel, has_task, cancel_all, shutdown,
}
use iptv_sniffer_web.Media.Release.{has_task-remove_task}

-- The call is among these.
abbrev pub HasCall : Call → List Call → Type 0
HasCall c [] = ⊥
HasCall c (x ∷ xs) = (x ≡ c) ⊎ HasCall c xs

HasCall-left : (c : Call) (xs ys : List Call) → HasCall c xs → HasCall c (xs ++ ys)
HasCall-left c [] ys h = absurd h
HasCall-left c (x ∷ xs) ys (inl e) = inl e
HasCall-left c (x ∷ xs) ys (inr h) = inr (HasCall-left c xs ys h)

HasCall-right : (c : Call) (xs ys : List Call) → HasCall c ys → HasCall c (xs ++ ys)
HasCall-right c [] ys h = h
HasCall-right c (x ∷ xs) ys h = inr (HasCall-right c xs ys h)

-- The lease's cleanup, if it has one, is among the calls.
abbrev pub Cleaned : Option ℕ → List Call → Type 0
Cleaned none calls = Unit
Cleaned (some c) calls = HasCall (cleans c) calls

Cleaned-left : (o : Option ℕ) (xs ys : List Call) → Cleaned o xs → Cleaned o (xs ++ ys)
Cleaned-left none xs ys h = tt
Cleaned-left (some c) xs ys h = HasCall-left (cleans c) xs ys h

Cleaned-right : (o : Option ℕ) (xs ys : List Call) → Cleaned o ys → Cleaned o (xs ++ ys)
Cleaned-right none xs ys h = tt
Cleaned-right (some c) xs ys h = HasCall-right (cleans c) xs ys h

-- The lease is closed and its task is gone.
unfoldable pub is_shut : ℕ → Manager → Bool
is_shut id m = elim (lookup id m.leases) [
  | none ↦ false
  | some l ↦ l.closed && not (has_task id m.tasks)
]

-- The lease is marked as cancelled.
unfoldable pub is_marked : ℕ → Manager → Bool
is_marked id m = elim (lookup id m.leases) [ none ↦ false | some l ↦ l.cancel_requested ]

-- What a cancellation owes to a task whose lease was `l`: without a callback the lease is closed, its
-- cleanup was called, and the task is gone; with one, the callback was called, and the worker finds
-- its lease marked.
pub data IsReleased (id : ℕ) (l : Lease) (o : Outcome) : Type 0 where
  shut :
      l.cancel_callback ≡ none
      → is_shut id o.manager ≡ true
      → Cleaned l.cleanup o.calls
      → IsReleased id l o
  asked :
      (c : ℕ)
      → l.cancel_callback ≡ some c
      → is_marked id o.manager ≡ true
      → HasCall (calls_back c) o.calls
      → IsReleased id l o

module _ (raises : ℕ → Bool) where
  request_cancel-other :
      (id j : ℕ) (m : Manager)
      → (id == j) ≡ false
      → lookup j (request_cancel raises id m).manager.leases ≡ lookup j m.leases
  unfolding request_cancel close mark_closed mark_cancelled drop_task quiet
  request_cancel-other id j m ne = elim (Option-cases (lookup id m.leases)) [
    | inl missing ↦ ground arith
    | inr (l, e) ↦
        let marked = record l { cancel_requested = true } in
        ground (
          arith,
          lookup-insert id j marked m.leases,
          lookup-insert id id marked m.leases,
          ==_refl id,
          lookup-insert id j (record marked { closed = true; cleanup = none })
              (insert id marked m.leases),
        )
  ]

  request_cancel-IsReleased :
      (id : ℕ) (m : Manager) (l : Lease)
      → lookup id m.leases ≡ some l
      → l.closed ≡ false
      → IsReleased id l (request_cancel raises id m)
  unfolding request_cancel close mark_closed mark_cancelled drop_task quiet is_shut is_marked
  request_cancel-IsReleased id m l e open_lease =
      let marked = record l { cancel_requested = true } in
      let own = lookup-insert_same id marked m.leases in
      elim (Option-cases l.cancel_callback) [
        | inl alone ↦
            let gone : is_shut id (request_cancel raises id m).manager ≡ true = ground (
              arith,
              own,
              has_task-remove_task id id m.tasks,
              ==_refl id,
              lookup-insert_same id (record marked { closed = true; cleanup = none })
                  (insert id marked m.leases),
            ) in
            shut alone gone (elim (Option-cases l.cleanup) [
              | inl empty ↦ rw (empty, Cleaned) tt
              | inr (d, full) ↦
                  let made : (request_cancel raises id m).calls ≡ cleans d ∷ [] =
                    ground (arith, own) in
                  rw (full, made) (inl refl)
            ])
        | inr (c, worker) ↦
            let made : (request_cancel raises id m).calls ≡ calls_back c ∷ [] = ground arith in
            let marks : is_marked id (request_cancel raises id m).manager ≡ true =
              ground (arith, own) in
            asked c worker marks (rw made (inl refl))
      ]

  request_cancel-is_shut :
      (j id : ℕ) (m : Manager)
      → is_shut j m ≡ true
      → is_shut j (request_cancel raises id m).manager ≡ true
  unfolding request_cancel is_shut close mark_closed mark_cancelled drop_task quiet
  request_cancel-is_shut j id m h = elim (Option-cases (lookup id m.leases)) [
    | inl missing ↦ ground arith
    | inr (l, e) ↦
        let marked = record l { cancel_requested = true } in
        ground (
          arith,
          lookup-insert id j marked m.leases,
          lookup-insert id id marked m.leases,
          ==_refl id,
          lookup-insert id j (record marked { closed = true; cleanup = none })
              (insert id marked m.leases),
          has_task-remove_task j id m.tasks,
          ==_iff id j,
        )
  ]

  request_cancel-is_marked :
      (j id : ℕ) (m : Manager)
      → is_marked j m ≡ true
      → is_marked j (request_cancel raises id m).manager ≡ true
  unfolding request_cancel is_marked close mark_closed mark_cancelled drop_task quiet
  request_cancel-is_marked j id m h = elim (Option-cases (lookup id m.leases)) [
    | inl missing ↦ ground arith
    | inr (l, e) ↦
        let marked = record l { cancel_requested = true } in
        ground (
          arith,
          lookup-insert id j marked m.leases,
          lookup-insert id id marked m.leases,
          ==_refl id,
          lookup-insert id j (record marked { closed = true; cleanup = none })
              (insert id marked m.leases),
          ==_iff id j,
        )
  ]

  cancel_all-is_shut :
      (j : ℕ) (ts : List Task) (m : Manager)
      → is_shut j m ≡ true
      → is_shut j (cancel_all raises ts m).manager ≡ true
  unfolding cancel_all quiet
  cancel_all-is_shut j [] m h = h
  cancel_all-is_shut j (t ∷ ts) m h =
      cancel_all-is_shut j ts (request_cancel raises t.id m).manager
        (request_cancel-is_shut j t.id m h)

  cancel_all-is_marked :
      (j : ℕ) (ts : List Task) (m : Manager)
      → is_marked j m ≡ true
      → is_marked j (cancel_all raises ts m).manager ≡ true
  unfolding cancel_all quiet
  cancel_all-is_marked j [] m h = h
  cancel_all-is_marked j (t ∷ ts) m h =
      cancel_all-is_marked j ts (request_cancel raises t.id m).manager
        (request_cancel-is_marked j t.id m h)

  -- What the first cancellation has done, the later ones leave.
  IsReleased-first :
      (id : ℕ) (l : Lease) (t : Task) (ts : List Task) (m : Manager)
      → IsReleased id l (request_cancel raises t.id m)
      → IsReleased id l (cancel_all raises (t ∷ ts) m)
  unfolding cancel_all
  IsReleased-first id l t ts m (shut alone gone cleaned) =
      shut alone (cancel_all-is_shut id ts _ gone) (Cleaned-left l.cleanup _ _ cleaned)
  IsReleased-first id l t ts m (asked c worker marked called) =
      asked c worker (cancel_all-is_marked id ts _ marked) (HasCall-left (calls_back c) _ _ called)

  IsReleased-later :
      (id : ℕ) (l : Lease) (t : Task) (ts : List Task) (m : Manager)
      → IsReleased id l (cancel_all raises ts (request_cancel raises t.id m).manager)
      → IsReleased id l (cancel_all raises (t ∷ ts) m)
  unfolding cancel_all
  IsReleased-later id l t ts m (shut alone gone cleaned) =
      shut alone gone (Cleaned-right l.cleanup (request_cancel raises t.id m).calls _ cleaned)
  IsReleased-later id l t ts m (asked c worker marked called) =
      asked c worker marked
        (HasCall-right (calls_back c) (request_cancel raises t.id m).calls _ called)

  cancel_all-IsReleased :
      (id : ℕ) (l : Lease) (ts : List Task) (m : Manager)
      → has_task id ts ≡ true
      → lookup id m.leases ≡ some l
      → l.closed ≡ false
      → IsReleased id l (cancel_all raises ts m)
  unfolding has_task
  cancel_all-IsReleased id l [] m h e open_lease = absurd cc
  cancel_all-IsReleased id l (t ∷ ts) m h e open_lease = elim (Bool-cases (t.id == id)) [
    | inl hit ↦
        IsReleased-first id l t ts m
          (rw ((==_iff t.id id).0 hit) (request_cancel-IsReleased id m l e open_lease))
    | inr miss ↦ IsReleased-later id l t ts m (
        cancel_all-IsReleased id l ts (request_cancel raises t.id m).manager (ground (arith, miss))
          (request_cancel-other t.id id m miss ∙ e) open_lease)
  ]

  request_cancel-closed :
      (id : ℕ) (m : Manager) → (request_cancel raises id m).manager.closed ≡ m.closed
  unfolding request_cancel close mark_closed mark_cancelled drop_task quiet
  request_cancel-closed id m = ground arith

  cancel_all-closed :
      (ts : List Task) (m : Manager) → (cancel_all raises ts m).manager.closed ≡ m.closed
  unfolding cancel_all quiet
  cancel_all-closed [] m = refl
  cancel_all-closed (t ∷ ts) m =
      cancel_all-closed ts (request_cancel raises t.id m).manager ∙ request_cancel-closed t.id m

  -- A shutdown, whichever cleanups and callbacks raise, deals with each task whose lease is open: when
  -- the lease has no callback, it is closed, its cleanup is called and the task is gone; when it has
  -- one, the callback is called and the lease is marked as cancelled. Nothing can be acquired after.
  pub shutdown-IsReleased :
      (m : Manager) (id : ℕ) (l : Lease)
      → has_task id m.tasks ≡ true
      → lookup id m.leases ≡ some l
      → l.closed ≡ false
      → IsReleased id l (shutdown raises m)
        × ((j : ℕ) (kind : String) (key : Text)
            → acquire j kind key (shutdown raises m).manager ≡ none)
  unfolding shutdown acquire
  shutdown-IsReleased m id l h e open_lease =
      let m' = record m { closed = true } in
      (
        cancel_all-IsReleased id l m.tasks m' h e open_lease,
        λ j kind key. ground (arith, cancel_all-closed m.tasks m'),
      )
