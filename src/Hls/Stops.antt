-- ===== src/Hls/Stops.antt =====
-- Stopping a stream: what its lease's cleanup does to the service once the stream is gone, and the
-- invariant that each stream has a lease of its own.
use iptv_sniffer_web.Base.{
  ℕ, zero, suc, ◌≡◌, refl, ◌∙◌, ◌≢◌, ◌⊎◌, inl, inr, Bool, true, false, ◌&&◌, ◌||◌, none, some, List,
  [], ◌∷◌, arith, ◌==◌, nat_eq, string_eq, pair_eq, list_eq, Bool-cases, Option-cases, All, ==_refl,
  Text,
}
use iptv_sniffer_web.Base.Dict.{Dict, lookup, lookup-erase, All-lookup}
use iptv_sniffer_web.Media.{Task, Lease, Manager, Call, cleans, quiet, close}
use iptv_sniffer_web.Media.Capacity.{IsWithin}
use iptv_sniffer_web.Hls.{
  Stream, Service, quietly, remove_stream, with_manager, run_cleanups, stop_locked, stop,
}

-- A task of kind "hls" for the lease.
abbrev pub holds : ℕ → List Task → Bool
holds id [] = false
holds id (t ∷ ts) = t.id == id && t.kind == "hls" || holds id ts

-- The stream of a key: its lease has a task and is open, and its cleanup stops this key.
pub record IsHeld (m : Manager) (cleanups : Dict ℕ Text) (entry : Text × Stream) : Type 0 where
  pub task : holds (entry.1).lease m.tasks ≡ true
  pub lease : Lease
  pub found : lookup (entry.1).lease m.leases ≡ some lease
  pub open_lease : lease.closed ≡ false
  pub cleanup : lease.cleanup ≡ some (entry.1).lease
  pub target : lookup (entry.1).lease cleanups ≡ some entry.0

abbrev pub leases_of : Dict Text Stream → List ℕ
leases_of [] = []
leases_of ((k, t) ∷ d) = t.lease ∷ leases_of d

abbrev pub Apart : ℕ → List ℕ → Type 0
Apart i ids = All (λ j. j ≢ i) ids

abbrev pub Distinct : List ℕ → Type 0
Distinct [] = Unit
Distinct (i ∷ ids) = Apart i ids × Distinct ids

pub record IsSound (s : Service) : Type 0 where
  pub held : All (IsHeld s.manager s.cleanups) s.streams
  pub distinct : Distinct (leases_of s.streams)
  pub within : IsWithin s.manager

-- The service without a stream, its lease closed, and nothing else.
abbrev pub stopped : Text → Service → Service
stopped key s = elim (lookup key s.streams) [
  | none ↦ s
  | some t ↦ with_manager (close quietly t.lease s.manager).manager (remove_stream key s)
]

stop_locked_gone :
    (f : ℕ) (key : Text) (s : Service) → lookup key s.streams ≡ none → stop_locked f key s ≡ s
unfolding stop_locked
stop_locked_gone zero key s h = refl
stop_locked_gone (suc f) key s h = rw (stop_locked, h) refl

-- What a close calls: nothing, or the lease's cleanup.
pub record IsCleanup (id : ℕ) (m : Manager) (calls : List Call) : Type 0 where
  pub lease : Lease
  pub call : ℕ
  pub found : lookup id m.leases ≡ some lease
  pub attached : lease.cleanup ≡ some call
  pub made : calls ≡ cleans call ∷ []

pub close-calls :
    (id : ℕ) (m : Manager)
    → ((close quietly id m).calls ≡ []) ⊎ IsCleanup id m (close quietly id m).calls
unfolding close quiet
close-calls id m = elim (Option-cases (lookup id m.leases)) [
  | inl none_found ↦ inl (ground arith)
  | inr (l, found) ↦ elim (Bool-cases l.closed) [
    | inl shut ↦ inl (ground arith)
    | inr open_lease ↦ elim (Option-cases l.cleanup) [
      | inl bare ↦ inl (ground arith)
      | inr (c, attached) ↦
          inr (record {
            lease = l;
            call = c;
            found = found;
            attached = attached;
            made = ground arith;
          })
    ]
  ]
]

pub run_cleanups_one :
    (stop : Text → Service → Service) (c : ℕ) (key : Text) (s : Service)
    → lookup c s.cleanups ≡ some key
    → run_cleanups stop (cleans c ∷ []) s ≡ stop key s
unfolding run_cleanups
run_cleanups_one stop c key s h = rw (run_cleanups, h) refl

pub run_cleanups_unknown :
    (stop : Text → Service → Service) (c : ℕ) (s : Service)
    → lookup c s.cleanups ≡ none
    → run_cleanups stop (cleans c ∷ []) s ≡ s
unfolding run_cleanups
run_cleanups_unknown stop c s h = rw (run_cleanups, h) refl

-- A cleanup of the lease under a key stops this very key.
abbrev pub Targets : Text → Service → Type 0
Targets key s =
    (t : Stream) (l : Lease) (c : ℕ)
    → lookup key s.streams ≡ some t
    → lookup t.lease s.manager.leases ≡ some l
    → l.cleanup ≡ some c
    → lookup c s.cleanups ≡ some key

-- A stop takes the stream away and closes its lease, whatever fuel is left: the cleanup that the
-- lease calls finds no stream under its key.
pub stop_locked-stopped :
    (f : ℕ) (key : Text) (s : Service) → Targets key s → stop_locked (suc f) key s ≡ stopped key s
unfolding stop_locked
stop_locked-stopped f key s v = elim (Option-cases (lookup key s.streams)) [
  | inl gone ↦ rw (stop_locked, stopped, gone) refl
  | inr (t, found) ↦
      rw (stop_locked, stopped, found)
        (elim (close-calls t.lease s.manager) [
          | inl silent ↦ rw silent (unfold run_cleanups in refl)
          | inr c ↦ rw c.made (
              run_cleanups_one (stop_locked f) c.call key
                (with_manager (close quietly t.lease s.manager).manager (remove_stream key s))
                (unfold with_manager remove_stream in v t c.lease c.call found c.found c.attached)
              ∙ stop_locked_gone f key _ (
                  unfold with_manager remove_stream in
                  rw (lookup-erase key key s.streams, ==_refl key) refl))
        ])
]

pub held-Targets : (key : Text) (s : Service) → IsSound s → Targets key s
held-Targets key s v t l c found lease cleanup =
    let h = All-lookup (IsHeld s.manager s.cleanups) key t s.streams v.held found in
    let same : h.lease ≡ l = ground (arith, h.found) in
    let own : c ≡ t.lease = ground (arith, h.cleanup, same) in rw own h.target
