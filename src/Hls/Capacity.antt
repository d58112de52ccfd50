-- ===== src/Hls/Capacity.antt =====
-- However the locked sections of the service, of the manager and of its other users interleave, each
-- stream has a task of its own, so that there are never more streams than the manager allows.
use iptv_sniffer_web.Base.{
  ℕ, ◌≤◌, ◌<◌, ◌≡◌, refl, ◌∙◌, true, false, List, [], ◌∷◌, arith, nat_eq, string_eq, pair_eq,
  list_eq, length, All, Text,
}
use iptv_sniffer_web.Base.Dict.{Dict}
use iptv_sniffer_web.Media.{Task, Manager, mark_cancelled, remove_task, count_kind, limit_of}
use iptv_sniffer_web.Media.Capacity.{IsWithin, count_kind-remove_task}
use iptv_sniffer_web.Hls.{
  Stream, Service, Request, quietly, remove_stream, with_manager, run_cleanups, put_stream,
  new_stream, touched, touch, process_ends, existing_directory, claim_waiter, release_waiter,
  parse_key,
}
use iptv_sniffer_web.Hls.Stops.{holds, leases_of, Apart, Distinct}
use iptv_sniffer_web.Hls.Sound.{holds-remove_task}
use iptv_sniffer_web.Hls.Sections.{
  World, at, start_world, Step, takes_out, touches, reads, ends, claims, releases, is_granted,
  enters, attaches, others_acquire, others_attach, sets_callback, marks_cancelled, marks_closed,
  takes_cleanup, runs_cleanup, drops_task, shuts_down, Reach, here, next,
}
use iptv_sniffer_web.Hls.Held.{Held, open_lease, closed_lease, new_entry, IsKept}
use iptv_sniffer_web.Hls.Kept.{IsKeeping, without_stream-IsKeeping}
use iptv_sniffer_web.Hls.Moves.{at_other, replaced-IsKeeping}
use iptv_sniffer_web.Hls.Moves.{
  acquired-IsKeeping, enters-IsKeeping, replaced-IsKeeping, not_granted, at_other,
}
use iptv_sniffer_web.Hls.Closes.{
  marks_closed-IsKeeping, takes_cleanup-IsKeeping, runs_cleanup-IsKeeping, drops_task-IsKeeping,
}
use iptv_sniffer_web.Hls.Touches.{
  touches-IsKeeping, ends-IsKeeping, sets_callback-IsKeeping, shuts_down-IsKeeping,
  waiters-IsKeeping, claims-IsKeeping, reads-IsKeeping,
}
use iptv_sniffer_web.Hls.Attaches.{attaches-IsKeeping, others_attach-IsKeeping}
use iptv_sniffer_web.Hls

Step-IsKeeping : {w v : World} → IsKeeping w → Step w v → IsKeeping v
unfolding mark_cancelled release_waiter
Step-IsKeeping {w} k (reads now key) = reads-IsKeeping now key w k
Step-IsKeeping {w} k (claims key s h) = claims-IsKeeping key s w h k
Step-IsKeeping {w} k (releases key) = waiters-IsKeeping _ w k
Step-IsKeeping {w} k (takes_out key) = without_stream-IsKeeping key w k
Step-IsKeeping {w} k (touches now key) = touches-IsKeeping now key w k
Step-IsKeeping {w} k (ends key) = ends-IsKeeping key w k
Step-IsKeeping {w} k (is_granted id key m fresh calm h) =
    acquired-IsKeeping id "hls" key m (at id true w.granted) w h fresh
      (λ j n. at_other id j true w.granted n) (λ x. refl) calm k
Step-IsKeeping {w} k (enters id now key r h) = enters-IsKeeping id now key r w h k
Step-IsKeeping {w} k (attaches id h) = attaches-IsKeeping id w h k
Step-IsKeeping {w} k (others_acquire id kind key m fresh calm h) =
    acquired-IsKeeping id kind key m w.granted w h fresh (λ j n. refl)
      (λ x. absurd (ground (arith, x, not_granted id w k fresh))) calm k
Step-IsKeeping {w} k (others_attach raises id c a g e) =
    others_attach-IsKeeping raises id c w a g e k
Step-IsKeeping {w} k (sets_callback id c) = sets_callback-IsKeeping id c w k
Step-IsKeeping {w} k (marks_cancelled id l found) =
    replaced-IsKeeping id l (record l { cancel_requested = true }) w found refl refl k
Step-IsKeeping {w} k (marks_closed id l found o c) = marks_closed-IsKeeping id l w found o c k
Step-IsKeeping {w} k (takes_cleanup id c l found o f) = takes_cleanup-IsKeeping id c l w found o f k
Step-IsKeeping {w} k (runs_cleanup id c h) = runs_cleanup-IsKeeping id c w h k
Step-IsKeeping {w} k (drops_task id h) = drops_task-IsKeeping id w h k
Step-IsKeeping {w} k shuts_down = shuts_down-IsKeeping w k

Reach-from : {w v : World} → IsKeeping w → Reach w v → IsKeeping v
Reach-from k here = k
Reach-from k (next r st) = Step-IsKeeping (Reach-from k r) st

count-remove_task :
    (id : ℕ) (ts : List Task)
    → holds id ts ≡ true
    → count_kind "hls" (remove_task id ts) < count_kind "hls" ts
unfolding count_kind remove_task
count-remove_task id [] h = absurd (ground arith)
count-remove_task id (t ∷ ts) h =
    let rest : holds id ts ≡ true → count_kind "hls" (remove_task id ts) < count_kind "hls" ts =
      count-remove_task id ts in
    ground (arith, rest, count_kind-remove_task "hls" id ts)

holds_all-remove_task :
    (id : ℕ) (ts : List Task) (ids : List ℕ)
    → Apart id ids
    → All (λ j. holds j ts ≡ true) ids
    → All (λ j. holds j (remove_task id ts) ≡ true) ids
holds_all-remove_task id ts [] a h = tt
holds_all-remove_task id ts (j ∷ ids) a h =
    (holds-remove_task id j ts a.0 ∙ h.0, holds_all-remove_task id ts ids a.1 h.1)

-- Leases that differ and have tasks of a kind are no more than those tasks.
length-Distinct :
    (ids : List ℕ) (ts : List Task)
    → Distinct ids
    → All (λ j. holds j ts ≡ true) ids
    → length ids ≤ count_kind "hls" ts
length-Distinct [] ts d h = omega arith
length-Distinct (i ∷ ids) ts d h = omega (
  arith,
  count-remove_task i ts h.0,
  length-Distinct ids (remove_task i ts) d.1 (holds_all-remove_task i ts ids d.0 h.1),
)

length-leases_of : (d : Dict Text Stream) → length (leases_of d) ≡ length d
length-leases_of [] = refl
length-leases_of (x ∷ d) = omega (arith, length-leases_of d)

Held-holds :
    (id : ℕ) (w : World)
    → w.entering id ≡ false
    → Held id w
    → holds id w.service.manager.tasks ≡ true
Held-holds id w calm (open_lease l f o c s) = s.0
Held-holds id w calm (closed_lease l f o c s) = s.0
Held-holds id w calm (new_entry e) = absurd (ground (arith, calm, e))

kept-holds :
    (w : World) (xs : Dict Text Stream)
    → ((id : ℕ) → w.entering id ≡ false)
    → All (IsKept w) xs
    → All (λ j. holds j w.service.manager.tasks ≡ true) (leases_of xs)
kept-holds w [] calm h = tt
kept-holds w (x ∷ xs) calm h =
    (Held-holds (x.1).lease w (calm (x.1).lease) (h.0).held, kept-holds w xs calm h.1)

-- From a service without streams, on a manager whose tasks are within their limits, however the locked
-- sections of its threads and of other users of the manager interleave, cancellations and closes of
-- its own leases by others included: whenever no start is between entering its stream and attaching to
-- its lease, which is all under the service's lock, there are at most as many streams as the manager's
-- limit for the kind "hls".
pub Reach-within_limit :
    (m : Manager) (w : World)
    → IsWithin m
    → Reach (start_world m) w
    → ((id : ℕ) → w.entering id ≡ false)
    → length w.service.streams ≤ limit_of "hls" w.service.manager
unfolding Hls.init
Reach-within_limit m w within r calm =
    let first : IsKeeping (start_world m) = record {
      kept = tt;
      distinct = tt;
      waiting = λ id h. absurd (ground (arith, h));
      apart = λ id h. absurd (ground (arith, h));
      closed = λ id c h. absurd (ground (arith, h));
      within = within;
    } in
    let k : IsKeeping w = Reach-from first r in
    omega (
      arith,
      length-leases_of w.service.streams,
      length-Distinct (leases_of w.service.streams) w.service.manager.tasks k.distinct
          (kept-holds w w.service.streams calm k.kept),
      (k.within).each "hls",
    )
