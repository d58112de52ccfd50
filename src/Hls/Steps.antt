-- ===== src/Hls/Steps.antt =====
-- The invariant of `IsSound` under `ensure`, the touches and the watchdog.
use iptv_sniffer_web.Base.{
  ℕ, ◌≡◌, refl, ap, inl, inr, Bool, some, List, [], ◌∷◌, arith, ◌==◌, nat_eq, string_eq, pair_eq,
  list_eq, Bool-cases, Option-cases, Text,
}
use iptv_sniffer_web.Base.Dict.{Dict, lookup, insert, All-lookup, All-insert}
use iptv_sniffer_web.Hls.{
  Stream, Service, Request, remove_stream, with_manager, stop, put_stream, reuses, touched,
  ensure_locked, ensure, make_key, parse_key, existing_directory, touch, process_ends,
  stop_if_stale, is_stale, stop_each,
}
use iptv_sniffer_web.Hls.Stops.{IsHeld, leases_of, Apart, IsSound, stopped}
use iptv_sniffer_web.Hls.Sound.{Apart-erase, stop-IsSound, stop-stopped}
use iptv_sniffer_web.Hls.Starts.{start_stream-IsSound}

pub leases_of-insert :
    (key : Text) (t u : Stream) (d : Dict Text Stream)
    → lookup key d ≡ some t
    → u.lease ≡ t.lease
    → leases_of (insert key u d) ≡ leases_of d
unfolding lookup insert
leases_of-insert key t u [] h e = absurd (ground arith)
leases_of-insert key t u ((j, w) ∷ d) h e = elim (Bool-cases (j == key)) [
  | inl hit ↦ let same : w ≡ t = ground arith in rw (hit, e, same) refl
  | inr miss ↦ rw miss (ap (◌∷◌ w.lease) (leases_of-insert key t u d (ground arith) e))
]

-- A stream that changes but for its lease.
pub put_stream-IsSound :
    (key : Text) (t u : Stream) (s : Service)
    → lookup key s.streams ≡ some t
    → u.lease ≡ t.lease
    → IsSound s
    → IsSound (put_stream key u s)
unfolding put_stream
put_stream-IsSound key t u s found e v =
    let h = All-lookup (IsHeld s.manager s.cleanups) key t s.streams v.held found in
    record {
      held = All-insert (IsHeld s.manager s.cleanups) key u s.streams v.held (record {
        task = rw e h.task;
        lease = h.lease;
        found = rw e h.found;
        open_lease = h.open_lease;
        cleanup = rw e h.cleanup;
        target = rw e h.target;
      });
      distinct = rw (leases_of-insert key t u s.streams found e) v.distinct;
      within = v.within;
    }

pub touch-IsSound : (now : ℕ) (key : Text) (s : Service) → IsSound s → IsSound (touch now key s)
unfolding touched touch
touch-IsSound now key s v = elim (Option-cases (lookup key s.streams)) [
  | inl gone ↦ rw (touch, gone) v
  | inr (t, found) ↦ rw (touch, found) (put_stream-IsSound key t _ s found refl v)
]

pub process_ends-IsSound : (key : Text) (s : Service) → IsSound s → IsSound (process_ends key s)
unfolding process_ends
process_ends-IsSound key s v = elim (Option-cases (lookup key s.streams)) [
  | inl gone ↦ rw (process_ends, gone) v
  | inr (t, found) ↦ rw (process_ends, found) (put_stream-IsSound key t _ s found refl v)
]

pub existing_directory-IsSound :
    (now : ℕ) (key : Text) (s : Service) → IsSound s → IsSound (existing_directory now key s).0
unfolding touched existing_directory
existing_directory-IsSound now key s v = elim (Option-cases (parse_key key)) [
  | inl bad ↦ rw (existing_directory, bad) v
  | inr (p, parsed) ↦ elim (Option-cases (lookup key s.streams)) [
    | inl gone ↦ rw (existing_directory, parsed, gone) v
    | inr (t, found) ↦ elim (Bool-cases t.running) [
      | inl up ↦
          rw (existing_directory, parsed, found, up) (put_stream-IsSound key t _ s found refl v)
      | inr down ↦ rw (existing_directory, parsed, found, down) v
    ]
  ]
]

Apart-stop :
    (id : ℕ) (key : Text) (s : Service)
    → IsSound s
    → Apart id (leases_of s.streams)
    → Apart id (leases_of (stop key s).streams)
unfolding with_manager remove_stream
Apart-stop id key s v a = rw (stop-stopped key s v) (elim (Option-cases (lookup key s.streams)) [
  | inl gone ↦ rw (stopped, gone) a
  | inr (t, found) ↦ rw (stopped, found) (Apart-erase id key s.streams a)
])

pub ensure-IsSound :
    (launches : Bool) (id now : ℕ) (r : Request) (s : Service)
    → Apart id (leases_of s.streams)
    → IsSound s
    → IsSound (ensure launches id now r s).0
unfolding touched ensure ensure_locked
ensure-IsSound launches id now r s a v =
    let key = make_key r.host r.port in
    elim (Option-cases (parse_key key)) [
      | inl bad ↦ rw (ensure, bad) v
      | inr (p, parsed) ↦ elim (Option-cases (lookup key s.streams)) [
        | inl gone ↦
            rw (ensure, parsed, ensure_locked, gone)
              (start_stream-IsSound launches id now key r s a v)
        | inr (t, found) ↦ elim (Bool-cases (reuses r.path_mode r.localaddr t)) [
          | inl same ↦
              rw (ensure, parsed, ensure_locked, found, same)
                (put_stream-IsSound key t _ s found refl v)
          | inr other ↦
              rw (ensure, parsed, ensure_locked, found, other)
                (start_stream-IsSound launches id now key r (stop key s) (Apart-stop id key s v a)
                  (stop-IsSound key s v))
        ]
      ]
    ]

pub stop_if_stale-IsSound :
    (now : ℕ) (key : Text) (s : Service) → IsSound s → IsSound (stop_if_stale now key s)
unfolding stop_if_stale
stop_if_stale-IsSound now key s v = elim (Option-cases (lookup key s.streams)) [
  | inl gone ↦ rw (stop_if_stale, gone) v
  | inr (t, found) ↦ elim (Bool-cases (is_stale now t)) [
    | inl stale ↦ rw (stop_if_stale, found, stale) (stop-IsSound key s v)
    | inr fresh ↦ rw (stop_if_stale, found, fresh) v
  ]
]

pub stop_each-IsSound : (ks : List Text) (s : Service) → IsSound s → IsSound (stop_each ks s)
unfolding stop_each
stop_each-IsSound [] s v = v
stop_each-IsSound (k ∷ ks) s v = stop_each-IsSound ks (stop k s) (stop-IsSound k s v)
