-- ===== src/Media/Capacity.antt =====
-- The limits hold under every interleaving of the locked sections of concurrent threads.
use iptv_sniffer_web.Base.{
  ℕ, ◌+◌, ◌≤◌, ◌<◌, String, ◌≡◌, refl, inl, inr, true, false, some, List, [], ◌∷◌, ◌++◌, arith,
  ◌==◌, nat_eq, string_eq, pair_eq, list_eq, Bool-cases, length, length-append, ==_iff, ==_refl,
  Text,
}
use iptv_sniffer_web.Base.Dict.{Dict, insert}
use iptv_sniffer_web.Media.{
  Task, Lease, Manager, init, count_kind, limit_of, new_lease, acquire, remove_task, set_callback,
  mark_closed, drop_task, mark_cancelled,
}

-- One locked section of some thread. `close` is two of them, with the cleanup between.
pub data Step (m : Manager) : Manager → Type 0 where
  acquires :
      (id : ℕ) (kind : String) (key : Text) (m' : Manager)
      → acquire id kind key m ≡ some m'
      → Step m m'
  attaches :
      (id c : ℕ) (l : Lease)
      → Step m (record m { leases = insert id (record l { cleanup = some c }) m.leases })
  sets_callback : (id c : ℕ) → Step m (set_callback id c m)
  marks_cancelled : (id : ℕ) (l : Lease) → Step m (mark_cancelled id l m)
  marks_closed : (id : ℕ) (l : Lease) → Step m (mark_closed id l m)
  drops_task : (id : ℕ) → Step m (drop_task id m)
  shuts_down : Step m (record m { closed = true })

pub data Reach (m : Manager) : Manager → Type 0 where
  here : Reach m m
  next : {n o : Manager} → Reach m n → Step n o → Reach m o

pub record IsWithin (m : Manager) : Type 0 where
  pub total : length m.tasks ≤ m.limit
  pub each : (kind : String) → count_kind kind m.tasks ≤ limit_of kind m

count_kind-append :
    (kind : String) (xs ys : List Task)
    → count_kind kind (xs ++ ys) ≡ count_kind kind xs + count_kind kind ys
unfolding count_kind
count_kind-append kind [] ys = omega arith
count_kind-append kind (x ∷ xs) ys = omega (arith, count_kind-append kind xs ys)

pub count_kind-remove_task :
    (kind : String) (id : ℕ) (ts : List Task)
    → count_kind kind (remove_task id ts) ≤ count_kind kind ts
unfolding count_kind remove_task
count_kind-remove_task kind id [] = omega arith
count_kind-remove_task kind id (t ∷ ts) = ground (arith, count_kind-remove_task kind id ts)

length-remove_task : (id : ℕ) (ts : List Task) → length (remove_task id ts) ≤ length ts
unfolding remove_task
length-remove_task id [] = omega arith
length-remove_task id (t ∷ ts) = ground (arith, length-remove_task id ts)

module _ (id : ℕ) (kind : String) (key : Text) (m : Manager) where
  -- The manager with one lease more.
  abbrev pub acquired : Manager
  acquired = record m {
    tasks = m.tasks ++ record { id = id; kind = kind; key = key } ∷ [];
    leases = insert id new_lease m.leases;
  }

  -- What a granted request tells.
  pub record IsGranted (m' : Manager) : Type 0 where
    pub open_manager : m.closed ≡ false
    pub room : length m.tasks < m.limit
    pub kind_room : count_kind kind m.tasks < limit_of kind m
    pub result : m' ≡ acquired

  pub acquire-IsGranted : (m' : Manager) → acquire id kind key m ≡ some m' → IsGranted m'
  unfolding acquire
  acquire-IsGranted m' h = ground arith

  count_acquired :
      (k : String)
      → count_kind kind m.tasks < limit_of kind m
      → count_kind k m.tasks ≤ limit_of k m
      → count_kind k acquired.tasks ≤ limit_of k acquired
  unfolding limit_of count_kind
  count_acquired k h v = elim (Bool-cases (kind == k)) [
    | inl hit ↦
        let same : kind ≡ k = (==_iff kind k).0 hit in
        rw (count_kind-append k m.tasks (record { id = id; kind = kind; key = key } ∷ []), ← same)
          (rw (==_refl kind) (omega arith))
    | inr miss ↦ rw count_kind-append (rw miss (omega (arith, v)))
  ]

  pub acquire-IsWithin : (m' : Manager) → IsWithin m → acquire id kind key m ≡ some m' → IsWithin m'
  acquire-IsWithin m' v h =
      let g = acquire-IsGranted m' h in
      rw g.result (record {
        total = omega (
          arith,
          g.room,
          length-append m.tasks (record { id = id; kind = kind; key = key } ∷ []),
        );
        each = λ k. count_acquired k g.kind_room (v.each k);
      })

-- The bounds are about the tasks and the limits alone.
abbrev pub SameTasks : Manager → Manager → Type 0
SameTasks m n = (n.tasks ≡ m.tasks) × (n.limit ≡ m.limit) × (n.limits ≡ m.limits)

pub IsWithin-same : (m n : Manager) → SameTasks m n → IsWithin m → IsWithin n
unfolding limit_of
IsWithin-same m n (t, l, ls) v = record {
  total = rw (t, l) v.total;
  each = λ k. rw (t, l, ls) (v.each k);
}

set_callback-same : (id c : ℕ) (m : Manager) → SameTasks m (set_callback id c m)
unfolding set_callback
set_callback-same id c m = (ground arith, ground arith, ground arith)

pub drop_task-IsWithin : (id : ℕ) (m : Manager) → IsWithin m → IsWithin (drop_task id m)
unfolding drop_task limit_of
drop_task-IsWithin id m v = record {
  total = omega (arith, v.total, length-remove_task id m.tasks);
  each = λ k. omega (arith, v.each k, count_kind-remove_task k id m.tasks);
}

Step-IsWithin : {m m' : Manager} → IsWithin m → Step m m' → IsWithin m'
unfolding mark_cancelled mark_closed
Step-IsWithin {m} v (acquires id kind key m' h) = acquire-IsWithin id kind key m m' v h
Step-IsWithin {m} v (attaches id c l) = IsWithin-same m _ (refl, refl, refl) v
Step-IsWithin {m} v (sets_callback id c) = IsWithin-same m _ (set_callback-same id c m) v
Step-IsWithin {m} v (marks_cancelled id l) = IsWithin-same m _ (refl, refl, refl) v
Step-IsWithin {m} v (marks_closed id l) = IsWithin-same m _ (refl, refl, refl) v
Step-IsWithin {m} v (drops_task id) = drop_task-IsWithin id m v
Step-IsWithin {m} v shuts_down = IsWithin-same m _ (refl, refl, refl) v

Reach-from : {m n : Manager} → IsWithin m → Reach m n → IsWithin n
Reach-from v here = v
Reach-from v (next r s) = Step-IsWithin (Reach-from v r) s

-- From a new manager, however the locked sections of any number of threads interleave, there are
-- never more tasks than the limit, nor more of any kind than that kind's limit.
pub Reach-IsWithin :
    (limit : ℕ) (limits : Dict String ℕ) (m : Manager) → Reach (init limit limits) m → IsWithin m
unfolding init count_kind
Reach-IsWithin limit limits m r =
    Reach-from (record { total = omega arith; each = λ k. omega arith }) r
