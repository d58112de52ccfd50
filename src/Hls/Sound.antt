-- ===== src/Hls/Sound.antt =====
-- The invariant of `IsSound` under the operations of the service.
use iptv_sniffer_web.Base.{
  ℕ, ◌≡◌, refl, sym, ◌∙◌, ◌≢◌, inl, inr, Bool, true, none, some, List, [], ◌∷◌, arith, ◌==◌, nat_eq,
  string_eq, pair_eq, list_eq, Bool-cases, Option-cases, length, All, Text,
}
use iptv_sniffer_web.Base.Dict.{Dict, lookup, erase, lookup-insert, All-erase}
use iptv_sniffer_web.Media.{Task, Lease, Manager, quiet, close, mark_closed, drop_task, remove_task}
use iptv_sniffer_web.Media.Capacity.{IsWithin, IsWithin-same, drop_task-IsWithin}
use iptv_sniffer_web.Hls.{Stream, Service, quietly, remove_stream, with_manager, stop}
use iptv_sniffer_web.Hls.Stops.{
  holds, IsHeld, leases_of, Apart, Distinct, IsSound, stopped, stop_locked-stopped, held-Targets,
}

pub holds-remove_task : (i j : ℕ) (ts : List Task) → j ≢ i → holds j (remove_task i ts) ≡ holds j ts
unfolding remove_task
holds-remove_task i j [] n = refl
holds-remove_task i j (t ∷ ts) n = ground (arith, holds-remove_task i j ts n)

-- Closing a lease leaves the other leases and their tasks alone, and the limits hold.
pub record IsOnly (id : ℕ) (m n : Manager) : Type 0 where
  pub others : (j : ℕ) → j ≢ id → lookup j n.leases ≡ lookup j m.leases
  pub tasks : (j : ℕ) → j ≢ id → holds j m.tasks ≡ true → holds j n.tasks ≡ true
  pub within : IsWithin m → IsWithin n

IsOnly-refl : (id : ℕ) (m : Manager) → IsOnly id m m
IsOnly-refl id m = record { others = λ j n. refl; tasks = λ j n h. h; within = λ w. w }

pub closed-IsOnly :
    (id : ℕ) (l : Lease) (m : Manager) → IsOnly id m (drop_task id (mark_closed id l m))
unfolding drop_task mark_closed
closed-IsOnly id l m = record {
  others = λ j n.
      ground (arith, lookup-insert id j (record l { closed = true; cleanup = none }) m.leases);
  tasks = λ j n h. holds-remove_task id j m.tasks n ∙ h;
  within = λ w. drop_task-IsWithin id _ (IsWithin-same m _ (refl, refl, refl) w);
}

pub close-IsOnly :
    (raises : ℕ → Bool) (id : ℕ) (m : Manager) → IsOnly id m (close raises id m).manager
unfolding quiet close
close-IsOnly raises id m = elim (Option-cases (lookup id m.leases)) [
  | inl gone ↦ rw (close, gone) (IsOnly-refl id m)
  | inr (l, found) ↦ elim (Bool-cases l.closed) [
    | inl shut ↦ rw (close, found, shut) (IsOnly-refl id m)
    | inr open_lease ↦ elim (Option-cases l.cleanup) [
      | inl bare ↦ rw (close, found, open_lease, bare) (closed-IsOnly id l m)
      | inr (c, attached) ↦ rw (close, found, open_lease, attached) (closed-IsOnly id l m)
    ]
  ]
]

-- Cleanups but that of one lease.
abbrev pub SameBut : ℕ → Dict ℕ Text → Dict ℕ Text → Type 0
SameBut id d d' = (j : ℕ) → j ≢ id → lookup j d' ≡ lookup j d

pub All-held-only :
    (id : ℕ) (m n : Manager) (d d' : Dict ℕ Text) (xs : Dict Text Stream)
    → IsOnly id m n
    → SameBut id d d'
    → Apart id (leases_of xs)
    → All (IsHeld m d) xs
    → All (IsHeld n d') xs
All-held-only id m n d d' [] o b a h = tt
All-held-only id m n d d' (x ∷ xs) o b a h = (
  record {
    task = o.tasks (x.1).lease a.0 (h.0).task;
    lease = (h.0).lease;
    found = o.others (x.1).lease a.0 ∙ (h.0).found;
    open_lease = (h.0).open_lease;
    cleanup = (h.0).cleanup;
    target = b (x.1).lease a.0 ∙ (h.0).target;
  },
  All-held-only id m n d d' xs o b a.1 h.1,
)

pub Apart-erase :
    (i : ℕ) (key : Text) (d : Dict Text Stream)
    → Apart i (leases_of d)
    → Apart i (leases_of (erase key d))
unfolding erase
Apart-erase i key [] a = tt
Apart-erase i key ((j, t) ∷ d) a = elim (Bool-cases (j == key)) [
  | inl hit ↦ rw hit (Apart-erase i key d a.1)
  | inr miss ↦ rw miss (a.0, Apart-erase i key d a.1)
]

pub Distinct-erase :
    (key : Text) (d : Dict Text Stream)
    → Distinct (leases_of d)
    → Distinct (leases_of (erase key d))
unfolding erase
Distinct-erase key [] a = tt
Distinct-erase key ((j, t) ∷ d) a = elim (Bool-cases (j == key)) [
  | inl hit ↦ rw hit (Distinct-erase key d a.1)
  | inr miss ↦ rw miss (Apart-erase t.lease key d a.0, Distinct-erase key d a.1)
]

Apart-lookup :
    (i : ℕ) (key : Text) (t : Stream) (d : Dict Text Stream)
    → Apart i (leases_of d)
    → lookup key d ≡ some t
    → t.lease ≢ i
unfolding lookup
Apart-lookup i key t [] a h = absurd (ground arith)
Apart-lookup i key t ((j, u) ∷ d) a h = elim (Bool-cases (j == key)) [
  | inl hit ↦ let same : u ≡ t = ground arith in rw (← same) a.0
  | inr miss ↦ Apart-lookup i key t d a.1 (ground arith)
]

-- With the stream gone, no other has its lease.
pub Apart-erased :
    (key : Text) (t : Stream) (d : Dict Text Stream)
    → Distinct (leases_of d)
    → lookup key d ≡ some t
    → Apart t.lease (leases_of (erase key d))
unfolding lookup erase
Apart-erased key t [] a h = absurd (ground arith)
Apart-erased key t ((j, u) ∷ d) a h = elim (Bool-cases (j == key)) [
  | inl hit ↦ let same : u ≡ t = ground arith in rw (hit, ← same) (Apart-erase u.lease key d a.0)
  | inr miss ↦
      let rest : lookup key d ≡ some t = ground arith in
      rw miss (λ e. Apart-lookup u.lease key t d a.0 rest (sym e), Apart-erased key t d a.1 rest)
]

pub stopped-IsSound : (key : Text) (s : Service) → IsSound s → IsSound (stopped key s)
unfolding with_manager remove_stream
stopped-IsSound key s v = elim (Option-cases (lookup key s.streams)) [
  | inl gone ↦ rw (stopped, gone) v
  | inr (t, found) ↦
      let only = close-IsOnly quietly t.lease s.manager in
      rw (stopped, found)
        (record {
          held =
              All-held-only t.lease s.manager _ s.cleanups s.cleanups (erase key s.streams) only
                (λ j n. refl) (Apart-erased key t s.streams v.distinct found)
                (All-erase (IsHeld s.manager s.cleanups) key s.streams v.held);
          distinct = Distinct-erase key s.streams v.distinct;
          within = only.within v.within;
        })
]

pub stop-stopped : (key : Text) (s : Service) → IsSound s → stop key s ≡ stopped key s
unfolding stop
stop-stopped key s v = stop_locked-stopped (length s.streams) key s (held-Targets key s v)

pub stop-IsSound : (key : Text) (s : Service) → IsSound s → IsSound (stop key s)
stop-IsSound key s v = rw (stop-stopped key s v) (stopped-IsSound key s v)
