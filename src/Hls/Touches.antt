-- ===== src/Hls/Touches.antt =====
-- The steps that touch a stream, a waiter or a label keep the invariant of the streams.
use iptv_sniffer_web.Base.{
  ℕ, ◌≡◌, refl, sym, ◌∙◌, inl, inr, true, false, some, List, ◌∷◌, arith, nat_eq, string_eq, pair_eq,
  list_eq, Bool-cases, Option-cases, Text,
}
use iptv_sniffer_web.Base.Dict.{lookup}
use iptv_sniffer_web.Media.{set_callback}
use iptv_sniffer_web.Media.Capacity.{IsWithin, IsWithin-same}
use iptv_sniffer_web.Hls.{
  Service, with_manager, touched, touch, process_ends, existing_directory, claim_waiter, parse_key,
}
use iptv_sniffer_web.Hls.Sections.{World, on_manager}
use iptv_sniffer_web.Hls.Held.{Same, Held-Same, Waiting-Same}
use iptv_sniffer_web.Hls.Kept.{IsKeeping, Only-IsKeeping, put_stream-IsKeeping}
use iptv_sniffer_web.Hls.Moves.{replaced-IsKeeping}

pub touches-IsKeeping :
    (now : ℕ) (key : Text) (w : World)
    → IsKeeping w
    → IsKeeping (record w { service = touch now key w.service })
unfolding touch touched
touches-IsKeeping now key w k = elim (Option-cases (lookup key w.service.streams)) [
  | inl gone ↦ rw (touch, gone) k
  | inr (t, found) ↦ rw (touch, found) (put_stream-IsKeeping key t (touched now t) w found refl k)
]

pub ends-IsKeeping :
    (key : Text) (w : World)
    → IsKeeping w
    → IsKeeping (record w { service = process_ends key w.service })
unfolding process_ends
ends-IsKeeping key w k = elim (Option-cases (lookup key w.service.streams)) [
  | inl gone ↦ rw (process_ends, gone) k
  | inr (t, found) ↦
      rw (process_ends, found)
        (put_stream-IsKeeping key t (record t { running = false }) w found refl k)
]

pub sets_callback-IsKeeping :
    (id c : ℕ) (w : World)
    → IsKeeping w
    → IsKeeping (on_manager (set_callback id c w.service.manager) w)
unfolding set_callback with_manager
sets_callback-IsKeeping id c w k = elim (Option-cases (lookup id w.service.manager.leases)) [
  | inl gone ↦ rw (set_callback, gone) k
  | inr (l, found) ↦
      rw (set_callback, found)
        (replaced-IsKeeping id l (record l { cancel_callback = some c }) w found refl refl k)
]

-- A step that leaves the streams, the cleanups and every lease.
Same-IsKeeping :
    (w v : World)
    → v.service.streams ≡ w.service.streams
    → v.service.cleanups ≡ w.service.cleanups
    → ((j : ℕ) → Same j w v)
    → ((j : ℕ) → v.granted j ≡ w.granted j)
    → (IsWithin w.service.manager → IsWithin v.service.manager)
    → IsKeeping w
    → IsKeeping v
Same-IsKeeping w v streams cleanups same grants within k =
    Only-IsKeeping 0 w v
      (record {
        streams = streams;
        cleanups = λ j n. rw cleanups refl;
        others = λ j n. same j;
        grants = λ j n. grants j;
        within = within;
      })
      (record {
        held = inr (rw cleanups refl, λ left h. (grants 0 ∙ left, Held-Same 0 w v (same 0) h));
        waiting =
            λ h. Waiting-Same 0 w v (same 0) (k.waiting 0 (rw (← grants 0, ← (same 0).entry) h));
        apart = λ h. (same 0).entry ∙ k.apart 0 (sym (grants 0) ∙ h);
        closed = λ c h.
            let (l, found, shut) = k.closed 0 c (sym (same 0).clean ∙ h) in
            (l, (same 0).lease ∙ found, shut);
      })
      k

pub shuts_down-IsKeeping :
    (w : World)
    → IsKeeping w
    → IsKeeping (on_manager (record w.service.manager { closed = true }) w)
unfolding with_manager
shuts_down-IsKeeping w k =
    Same-IsKeeping w (on_manager (record w.service.manager { closed = true }) w) refl refl
      (λ j. record { lease = refl; task = λ t. t; entry = refl; clean = refl; drop = refl })
      (λ j. refl) (λ x. IsWithin-same w.service.manager _ (refl, refl, refl) x) k

pub waiters-IsKeeping :
    (ws : List Text) (w : World)
    → IsKeeping w
    → IsKeeping (record w { service = record w.service { waiters = ws } })
waiters-IsKeeping ws w k =
    Same-IsKeeping w (record w { service = record w.service { waiters = ws } }) refl refl
      (λ j. record { lease = refl; task = λ t. t; entry = refl; clean = refl; drop = refl })
      (λ j. refl) (λ x. x) k

pub claims-IsKeeping :
    (key : Text) (s : Service) (w : World)
    → claim_waiter key w.service ≡ some s
    → IsKeeping w
    → IsKeeping (record w { service = s })
unfolding claim_waiter
claims-IsKeeping key s w h k =
    let e : s ≡ record w.service { waiters = key ∷ w.service.waiters } = ground arith in
    rw e (waiters-IsKeeping (key ∷ w.service.waiters) w k)

pub reads-IsKeeping :
    (now : ℕ) (key : Text) (w : World)
    → IsKeeping w
    → IsKeeping (record w { service = (existing_directory now key w.service).0 })
unfolding existing_directory touched
reads-IsKeeping now key w k = elim (Option-cases (parse_key key)) [
  | inl bad ↦ rw (existing_directory, bad) k
  | inr (p, parsed) ↦ elim (Option-cases (lookup key w.service.streams)) [
    | inl gone ↦ rw (existing_directory, parsed, gone) k
    | inr (t, found) ↦ elim (Bool-cases t.running) [
      | inl up ↦
          rw (existing_directory, parsed, found, up) (put_stream-IsKeeping key t _ w found refl k)
      | inr down ↦ rw (existing_directory, parsed, found, down) k
    ]
  ]
]
