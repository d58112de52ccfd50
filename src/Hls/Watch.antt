-- ===== src/Hls/Watch.antt =====
-- What the watchdog and `stop_all` leave behind.
use iptv_sniffer_web.Base.{
  ℕ, ◌+◌, ◌≤◌, ◌≡◌, refl, inl, inr, true, false, none, some, List, [], ◌∷◌, arith, if◌then◌else◌,
  ◌==◌, nat_eq, string_eq, pair_eq, list_eq, Bool-cases, Option-cases, ==_iff, ==_refl, Text,
}
use iptv_sniffer_web.Base.Dict.{Dict, lookup}
use iptv_sniffer_web.Hls.{
  Stream, Service, stop, stop_if_stale, is_stale, stale_keys, idle_timeout, stop_each, stop_all,
  keys_of, is_waiting, watch_keys, watch_round,
}
use iptv_sniffer_web.Hls.Stops.{IsSound}
use iptv_sniffer_web.Hls.Sound.{stop-IsSound}
use iptv_sniffer_web.Hls.Steps.{stop_if_stale-IsSound}
use iptv_sniffer_web.Hls.Refines.{lookup-stop}

-- What a second look leaves under a key: the stream that was there, fresh if it was the key looked at.
lookup-stop_if_stale :
    (now : ℕ) (key j : Text) (s : Service) (t : Stream)
    → IsSound s
    → lookup j (stop_if_stale now key s).streams ≡ some t
    → (lookup j s.streams ≡ some t) × ((key == j) ≡ true → is_stale now t ≡ false)
unfolding stop_if_stale
lookup-stop_if_stale now key j s t v = elim (Option-cases (lookup key s.streams)) [
  | inl gone ↦
      rw (stop_if_stale, gone) (λ h. (h, λ e. absurd (ground (arith, gone, h, (==_iff key j).0 e))))
  | inr (u, found) ↦ elim (Bool-cases (is_stale now u)) [
    | inl stale ↦
        rw (stop_if_stale, found, stale)
          (rw (lookup-stop key j s v) (λ h. (ground arith, λ e. ground arith)))
    | inr fresh ↦
        rw (stop_if_stale, found, fresh)
          (λ h. (h, λ e. ground (arith, found, h, fresh, (==_iff key j).0 e)))
  ]
]

lookup-watch_keys :
    (later : Text → ℕ) (ks : List Text) (j : Text) (s : Service) (t : Stream)
    → IsSound s
    → lookup j (watch_keys later ks s).streams ≡ some t
    → (lookup j s.streams ≡ some t) × (is_waiting j ks ≡ true → is_stale (later j) t ≡ false)
unfolding watch_keys is_waiting
lookup-watch_keys later [] j s t v h = (h, λ e. ground arith)
lookup-watch_keys later (k ∷ ks) j s t v h =
    let rest =
      lookup-watch_keys later ks j (stop_if_stale (later k) k s) t
        (stop_if_stale-IsSound (later k) k s v) h in
    let first = lookup-stop_if_stale (later k) k j s t v rest.0 in
    (
      first.0,
      λ e. elim (Bool-cases (k == j)) [
        | inl same ↦ rw (← (==_iff k j).0 same) (first.1 same)
        | inr other ↦ rest.1 (ground (arith, e, other))
      ],
    )

stale_keys-lookup :
    (now : ℕ) (j : Text) (d : Dict Text Stream) (t : Stream)
    → lookup j d ≡ some t
    → is_stale now t ≡ true
    → is_waiting j (stale_keys now d) ≡ true
unfolding lookup stale_keys is_waiting
stale_keys-lookup now j [] t h stale = ground arith
stale_keys-lookup now j ((k, u) ∷ d) t h stale = ground (arith, stale_keys-lookup now j d t)

is_stale-later :
    (now later : ℕ) (t : Stream) → now ≤ later → is_stale later t ≡ false → is_stale now t ≡ false
unfolding is_stale
is_stale-later now later t le fresh = ground arith

-- On a service whose streams each have a lease of their own, after a round of the watchdog every
-- stream that is left has a running process and was asked for within the timeout, seen from the
-- round's start, provided that the second looks come later.
pub watch_round-fresh :
    (now : ℕ) (later : Text → ℕ) (s : Service) (j : Text) (t : Stream)
    → IsSound s
    → ((k : Text) → now ≤ later k)
    → lookup j (watch_round now later s).streams ≡ some t
    → (t.running ≡ true) × (now ≤ t.last_access + idle_timeout)
unfolding watch_round
watch_round-fresh now later s j t v le h =
    let kept = lookup-watch_keys later (stale_keys now s.streams) j s t v h in
    let fresh : is_stale now t ≡ false = elim (Bool-cases (is_stale now t)) [
      | inl stale ↦
          is_stale-later now (later j) t (le j)
            (kept.1 (stale_keys-lookup now j s.streams t kept.0 stale))
      | inr fresh ↦ fresh
    ] in
    unfold is_stale in (ground (arith, fresh), ground (arith, fresh))

lookup-stop_each :
    (ks : List Text) (j : Text) (s : Service)
    → IsSound s
    → lookup j (stop_each ks s).streams ≡ (if is_waiting j ks then none else lookup j s.streams)
unfolding stop_each is_waiting
lookup-stop_each [] j s v = refl
lookup-stop_each (k ∷ ks) j s v =
    ground (arith, lookup-stop_each ks j (stop k s) (stop-IsSound k s v), lookup-stop k j s v)

is_waiting-keys_of :
    (j : Text) (d : Dict Text Stream) → is_waiting j (keys_of d) ≡ false → lookup j d ≡ none
unfolding lookup keys_of is_waiting
is_waiting-keys_of j [] h = refl
is_waiting-keys_of j ((k, u) ∷ d) h = ground (arith, is_waiting-keys_of j d)

lookup-none-empty : (d : Dict Text Stream) → ((j : Text) → lookup j d ≡ none) → d ≡ []
unfolding lookup
lookup-none-empty [] h = refl
lookup-none-empty ((k, u) ∷ d) h = absurd (ground (arith, h k, ==_refl k))

-- Stopping all streams leaves none, on a service whose streams each have a lease of their own.
pub stop_all-empty : (s : Service) → IsSound s → (stop_all s).streams ≡ []
unfolding stop_all
stop_all-empty s v = lookup-none-empty (stop_all s).streams (λ j.
    ground (arith, lookup-stop_each (keys_of s.streams) j s v, is_waiting-keys_of j s.streams))
