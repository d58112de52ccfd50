-- ===== src/Media.antt =====
-- services/media_task_service.py: leases on bounded media capacity. A lease's kind and key never
-- change, so a task in the manager carries them; what changes stands in `leases`, one entry for each
-- lease that was ever made. Cleanups and callbacks are the caller's: a number names one, `raises`
-- says which of them fail, and the calls made are part of each result.
pub mod Capacity
pub mod Release
pub mod Shutdown
use iptv_sniffer_web.Base.{
  ℕ, zero, suc, ◌+◌, ◌-◌, ◌*◌, ◌/◌, ◌%◌, ◌^◌, ◌≤◌, ◌<◌, min, max, String, ◌≡◌, refl, sym, ap, ◌∙◌,
  ◌≢◌, ◌↔◌, ◌⊎◌, inl, inr, Bool, true, false, not, ◌&&◌, ◌||◌, Option, none, some, List, [], ◌∷◌,
  ◌++◌, map, arith, ◌>>=◌, >>=-eq-some, ltb, leb, if◌then◌else◌, Comparable, ◌==◌, nat_eq,
  string_eq, pair_eq, list_eq, Bool-cases, Option-cases, ltb→lt, ltb→le, lt→ltb, le→ltb, leb→le,
  le→leb, length, get_or, get_elem?, take, drop, last_n, length-append, length-take, length-drop,
  take-append-drop, take-append, drop-append, take_all, take-append_le, drop-append_le,
  slice-append, get_or-append, All, All-append, byte_at, slice, be16, be32, le16, le32, IsByte,
  AreBytes, put_be16, put_be32, put_le16, put_le32, ==_iff, ==_refl, Text, str_nat, is_digit,
  digits_value, digits_value-str_nat,
}
use iptv_sniffer_web.Base.Dict.{Dict, lookup, insert}

pub record Task : Type 0 where
  pub id : ℕ
  pub kind : String
  pub key : Text

pub record Lease : Type 0 where
  pub cleanup : Option ℕ
  pub closed : Bool
  pub cancel_callback : Option ℕ
  pub cancel_requested : Bool

pub record Manager : Type 0 where
  pub limit : ℕ
  pub limits : Dict String ℕ
  pub tasks : List Task
  pub closed : Bool
  pub leases : Dict ℕ Lease

unfoldable pub default_limits : Dict String ℕ
default_limits = ("hls", 2) ∷ ("catchup", 2) ∷ ("snapshot", 1) ∷ ("diagnose", 1) ∷ []

-- `MediaTaskManager.__init__`; no limits, or an empty dict, stand for the default.
unfoldable pub init : ℕ → Dict String ℕ → Manager
init limit limits = record {
  limit = max 1 limit;
  limits = elim limits [ [] ↦ default_limits | l ∷ ls ↦ l ∷ ls ];
  tasks = [];
  closed = false;
  leases = [];
}

unfoldable pub count_kind : String → List Task → ℕ
count_kind kind [] = 0
count_kind kind (t ∷ ts) = (if t.kind == kind then 1 else 0) + count_kind kind ts

-- `self.limits.get(kind, self.limit)`.
unfoldable pub limit_of : String → Manager → ℕ
limit_of kind m = elim (lookup kind m.limits) [ none ↦ m.limit | some n ↦ n ]

unfoldable pub new_lease : Lease
new_lease = record {
  cleanup = none;
  closed = false;
  cancel_callback = none;
  cancel_requested = false;
}

-- `MediaTaskManager.acquire`, with the identifier that `uuid4` gives; `none` is MediaCapacityError.
unfoldable pub acquire : ℕ → String → Text → Manager → Option Manager
acquire id kind key m =
    if m.closed || (leb m.limit (length m.tasks) || leb (limit_of kind m) (count_kind kind m.tasks))
    then none
    else some (record m {
      tasks = m.tasks ++ record { id = id; kind = kind; key = key } ∷ [];
      leases = insert id new_lease m.leases;
    })

-- `tasks.pop(id, None)`.
unfoldable pub remove_task : ℕ → List Task → List Task
remove_task id [] = []
remove_task id (t ∷ ts) = if t.id == id then remove_task id ts else t ∷ remove_task id ts

pub data Call : Type 0 where
  cleans calls_back : ℕ → Call

-- The manager afterwards, the calls made, and whether an exception leaves the operation.
pub record Outcome : Type 0 where
  pub manager : Manager
  pub calls : List Call
  pub raised : Bool

unfoldable pub quiet : Manager → Outcome
quiet m = record { manager = m; calls = []; raised = false }

-- `MediaLease.attach`: a cleanup that comes after the close runs at once.
unfoldable pub attach : (ℕ → Bool) → ℕ → ℕ → Manager → Outcome
unfolding quiet
attach raises id cleanup m = elim (lookup id m.leases) [
  | none ↦ quiet m
  | some l ↦
      if l.closed
      then record { manager = m; calls = cleans cleanup ∷ []; raised = raises cleanup }
      else quiet (record m { leases = insert id (record l { cleanup = some cleanup }) m.leases })
]

-- The assignment `lease.cancel_callback = …` of a worker.
unfoldable pub set_callback : ℕ → ℕ → Manager → Manager
set_callback id callback m = elim (lookup id m.leases) [
  | none ↦ m
  | some l ↦ record m { leases = insert id (record l { cancel_callback = some callback }) m.leases }
]

-- The first locked part of `MediaLease.close`, for a lease that is open.
unfoldable pub mark_closed : ℕ → Lease → Manager → Manager
mark_closed id l m = record m {
  leases = insert id (record l { closed = true; cleanup = none }) m.leases;
}

-- Its last locked part, which runs in a `finally`.
unfoldable pub drop_task : ℕ → Manager → Manager
drop_task id m = record m { tasks = remove_task id m.tasks }

unfoldable pub close : (ℕ → Bool) → ℕ → Manager → Outcome
unfolding quiet
close raises id m = elim (lookup id m.leases) [
  | none ↦ quiet m
  | some l ↦ if l.closed then quiet m else (elim l.cleanup [
    | none ↦ quiet (drop_task id (mark_closed id l m))
    | some c ↦ record {
      manager = drop_task id (mark_closed id l m);
      calls = cleans c ∷ [];
      raised = raises c;
    }
  ])
]

unfoldable pub mark_cancelled : ℕ → Lease → Manager → Manager
mark_cancelled id l m = record m {
  leases = insert id (record l { cancel_requested = true }) m.leases;
}

-- `MediaLease.request_cancel`: a worker with a callback keeps its capacity until it closes.
unfoldable pub request_cancel : (ℕ → Bool) → ℕ → Manager → Outcome
unfolding quiet
request_cancel raises id m = elim (lookup id m.leases) [
  | none ↦ quiet m
  | some l ↦ elim l.cancel_callback [
    | none ↦ close raises id (mark_cancelled id l m)
    | some c ↦ record {
      manager = mark_cancelled id l m;
      calls = calls_back c ∷ [];
      raised = raises c;
    }
  ]
]

unfoldable pub has_task : ℕ → List Task → Bool
has_task id [] = false
has_task id (t ∷ ts) = if t.id == id then true else has_task id ts

-- `MediaTaskManager.cancel`, and whether there was such a task.
unfoldable pub cancel : (ℕ → Bool) → ℕ → Manager → Outcome × Bool
unfolding quiet
cancel raises id m =
    if has_task id m.tasks then (request_cancel raises id m, true) else (quiet m, false)

-- The loop of `MediaTaskManager.shutdown`: what one cancellation raises does not stop the others.
unfoldable pub cancel_all : (ℕ → Bool) → List Task → Manager → Outcome
unfolding quiet
cancel_all raises [] m = quiet m
cancel_all raises (t ∷ ts) m =
    let first = request_cancel raises t.id m in
    let rest = cancel_all raises ts first.manager in
    record { manager = rest.manager; calls = first.calls ++ rest.calls; raised = false }

unfoldable pub shutdown : (ℕ → Bool) → Manager → Outcome
shutdown raises m = cancel_all raises m.tasks (record m { closed = true })
