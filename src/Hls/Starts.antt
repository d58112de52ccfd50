-- ===== src/Hls/Starts.antt =====
-- `ensure` under the invariant: a started stream has its lease, and a failed start leaves none.
use iptv_sniffer_web.Base.{
  ℕ, String, ◌≡◌, refl, sym, ap, ◌∙◌, ◌≢◌, ◌⊎◌, inl, inr, Bool, true, false, ◌||◌, some, List, [],
  ◌∷◌, ◌++◌, arith, ◌==◌, nat_eq, string_eq, pair_eq, list_eq, Bool-cases, Option-cases, ==_refl,
  Text,
}
use iptv_sniffer_web.Base.Dict.{
  Dict, lookup, insert, lookup-insert_same, lookup-insert_other, All-insert,
}
use iptv_sniffer_web.Media.{Task, Lease, Manager, quiet, new_lease, acquire, attach, close}
use iptv_sniffer_web.Media.Capacity.{IsWithin-same, acquired, acquire-IsGranted, acquire-IsWithin}
use iptv_sniffer_web.Hls.{
  Stream, Service, Request, streaming, full, not_launched, quietly, with_manager, run_cleanups,
  put_stream, new_stream, attach_stop, launch, start_stream,
}
use iptv_sniffer_web.Hls.Stops.{holds, IsHeld, leases_of, Apart, Distinct, IsSound, close-calls}
use iptv_sniffer_web.Hls.Sound.{IsOnly, close-IsOnly, All-held-only}

pub holds-append : (j : ℕ) (xs ys : List Task) → holds j (xs ++ ys) ≡ holds j xs || holds j ys
holds-append j [] ys = refl
holds-append j (x ∷ xs) ys = ground (arith, holds-append j xs ys)

-- The manager after the lease has its cleanup.
abbrev pub with_cleanup : ℕ → Text → Manager → Manager
with_cleanup id key m = record (acquired id "hls" key m) {
  leases = insert id (record new_lease { cleanup = some id }) (insert id new_lease m.leases);
}

abbrev pub started : ℕ → ℕ → Text → Request → Service → Service
started id now key r s = record {
  streams = insert key (new_stream id now r) s.streams;
  waiters = s.waiters;
  cleanups = insert id key s.cleanups;
  manager = with_cleanup id key s.manager;
}

attach-open :
    (id c : ℕ) (l : Lease) (m : Manager)
    → lookup id m.leases ≡ some l
    → l.closed ≡ false
    → attach quietly id c m
      ≡ quiet (record m { leases = insert id (record l { cleanup = some c }) m.leases })
unfolding attach
attach-open id c l m found open_lease = rw (attach, found, open_lease) refl

lookup-acquired :
    (id : ℕ) (key : Text) (m : Manager)
    → lookup id (acquired id "hls" key m).leases ≡ some new_lease
lookup-acquired id key m = lookup-insert_same id new_lease m.leases

attach_stop-started :
    (id now : ℕ) (key : Text) (r : Request) (s : Service)
    → attach_stop id key
        (put_stream key (new_stream id now r) (with_manager (acquired id "hls" key s.manager) s))
      ≡ started id now key r s
unfolding attach_stop put_stream with_manager quiet run_cleanups
attach_stop-started id now key r s =
    rw
      (
        attach_stop,
        attach-open id id new_lease (acquired id "hls" key s.manager)
            (lookup-acquired id key s.manager) (unfold new_lease in refl),
      )
      refl

-- A lease that was just acquired has no cleanup to call.
close-acquired :
    (id : ℕ) (key : Text) (m : Manager) → (close quietly id (acquired id "hls" key m)).calls ≡ []
unfolding new_lease
close-acquired id key m = elim (close-calls id (acquired id "hls" key m)) [
  | inl silent ↦ silent
  | inr c ↦
      let same : c.lease ≡ new_lease = ground (arith, c.found, lookup-acquired id key m) in
      let bare : new_lease.cleanup ≡ some c.call = sym (ap (λ l. l.cleanup) same) ∙ c.attached in
      absurd (ground (arith, bare))
]

-- What a start gives: nothing new when the manager is full, else a stream or a closed lease.
pub start_stream-cases :
    (launches : Bool) (id now : ℕ) (key : Text) (r : Request) (s : Service)
    → ((start_stream launches id now key r s ≡ (s, full))
        ⊎ ((acquire id "hls" key s.manager ≡ some (acquired id "hls" key s.manager))
            × ((start_stream launches id now key r s ≡ (started id now key r s, streaming))
                ⊎ (start_stream launches id now key r s ≡ (
                  with_manager (close quietly id (acquired id "hls" key s.manager)).manager s,
                  not_launched,
                )))))
unfolding start_stream launch run_cleanups with_manager
start_stream-cases launches id now key r s = elim (Option-cases (acquire id "hls" key s.manager)) [
  | inl none_free ↦ inl (rw (start_stream, none_free) refl)
  | inr (m, granted) ↦
      let g = acquire-IsGranted id "hls" key s.manager m granted in
      let exact : acquire id "hls" key s.manager ≡ some (acquired id "hls" key s.manager) =
        granted ∙ ap some g.result in
      inr (
        exact,
        elim (Bool-cases launches) [
          | inl up ↦ inl (
              rw (start_stream, exact, up)
                (ap (λ x. (x, streaming)) (attach_stop-started id now key r s)))
          | inr down ↦ inr (
              rw (start_stream, exact, down)
                (rw (close-acquired id key s.manager) (unfold run_cleanups in refl)))
        ],
      )
]

pub acquired-IsOnly :
    (id : ℕ) (kind : String) (key : Text) (m n : Manager)
    → acquire id kind key m ≡ some (acquired id kind key m)
    → n.tasks ≡ (acquired id kind key m).tasks
    → n.limit ≡ m.limit
    → n.limits ≡ m.limits
    → ((j : ℕ) → j ≢ id → lookup j n.leases ≡ lookup j m.leases)
    → IsOnly id m n
acquired-IsOnly id kind key m n granted ts l ls same = record {
  others = same;
  tasks = λ j a h.
      rw (ts, holds-append j m.tasks (record { id = id; kind = kind; key = key } ∷ []), h) refl;
  within = λ w.
      IsWithin-same (acquired id kind key m) n (ts, l, ls)
        (acquire-IsWithin id kind key m _ w granted);
}

Apart-insert :
    (i : ℕ) (key : Text) (t : Stream) (d : Dict Text Stream)
    → t.lease ≢ i
    → Apart i (leases_of d)
    → Apart i (leases_of (insert key t d))
unfolding insert
Apart-insert i key t [] n a = (n, tt)
Apart-insert i key t ((j, u) ∷ d) n a = elim (Bool-cases (j == key)) [
  | inl hit ↦ rw hit (n, a.1)
  | inr miss ↦ rw miss (a.0, Apart-insert i key t d n a.1)
]

pub Distinct-insert :
    (key : Text) (t : Stream) (d : Dict Text Stream)
    → Apart t.lease (leases_of d)
    → Distinct (leases_of d)
    → Distinct (leases_of (insert key t d))
unfolding insert
Distinct-insert key t [] a h = (tt, tt)
Distinct-insert key t ((j, u) ∷ d) a h = elim (Bool-cases (j == key)) [
  | inl hit ↦ rw hit (a.1, h.1)
  | inr miss ↦
      rw miss (Apart-insert u.lease key t d (λ e. a.0 (sym e)) h.0, Distinct-insert key t d a.1 h.1)
]

holds-acquired :
    (id : ℕ) (key : Text) (m : Manager) → holds id (acquired id "hls" key m).tasks ≡ true
holds-acquired id key m =
    rw (holds-append id m.tasks (record { id = id; kind = "hls"; key = key } ∷ []))
      (ground (arith, ==_refl id, ==_refl {A = String} "hls"))

pub started-IsSound :
    (id now : ℕ) (key : Text) (r : Request) (s : Service)
    → Apart id (leases_of s.streams)
    → acquire id "hls" key s.manager ≡ some (acquired id "hls" key s.manager)
    → IsSound s
    → IsSound (started id now key r s)
unfolding new_stream
started-IsSound id now key r s a granted v =
    let only : IsOnly id s.manager (with_cleanup id key s.manager) =
      acquired-IsOnly id "hls" key s.manager (with_cleanup id key s.manager) granted refl refl refl
        (λ j n.
          lookup-insert_other id j _ (insert id new_lease s.manager.leases) n
          ∙ lookup-insert_other id j new_lease s.manager.leases n) in
    record {
      held =
          All-insert (IsHeld (with_cleanup id key s.manager) (insert id key s.cleanups)) key
            (new_stream id now r) s.streams
            (All-held-only id s.manager (with_cleanup id key s.manager) s.cleanups
              (insert id key s.cleanups) s.streams only
              (λ j n. lookup-insert_other id j key s.cleanups n) a v.held)
            (record {
              task = holds-acquired id key s.manager;
              lease = record new_lease { cleanup = some id };
              found = lookup-insert_same id _ (insert id new_lease s.manager.leases);
              open_lease = unfold new_lease in refl;
              cleanup = refl;
              target = lookup-insert_same id key s.cleanups;
            });
      distinct = Distinct-insert key (new_stream id now r) s.streams a v.distinct;
      within = only.within v.within;
    }

pub start_stream-IsSound :
    (launches : Bool) (id now : ℕ) (key : Text) (r : Request) (s : Service)
    → Apart id (leases_of s.streams)
    → IsSound s
    → IsSound (start_stream launches id now key r s).0
unfolding with_manager
start_stream-IsSound launches id now key r s a v =
    elim (start_stream-cases launches id now key r s) [
      | inl none_free ↦ rw none_free v
      | inr (granted, inl up) ↦ rw up (started-IsSound id now key r s a granted v)
      | inr (granted, inr down) ↦
          let only =
            acquired-IsOnly id "hls" key s.manager (acquired id "hls" key s.manager) granted refl
              refl refl (λ j n. lookup-insert_other id j new_lease s.manager.leases n) in
          let shut = close-IsOnly quietly id (acquired id "hls" key s.manager) in
          rw down (record {
            held =
                All-held-only id _ _ s.cleanups s.cleanups s.streams shut (λ j n. refl) a
                  (All-held-only id s.manager _ s.cleanups s.cleanups s.streams only (λ j n. refl) a
                    v.held);
            distinct = v.distinct;
            within = shut.within (only.within v.within);
          })
    ]
