-- ===== src/Tests/Hls.antt =====
-- Witnesses for the HLS service.
use iptv_sniffer_web.Base.{
  ℕ, ◌+◌, ◌≤◌, ◌≡◌, false, Text, refl, ◌↔◌, true, some, [], ◌∷◌, arith, nat_eq, string_eq, pair_eq,
  list_eq, length,
}
use iptv_sniffer_web.Base.Dict.{lookup, insert}
use iptv_sniffer_web.Media
use iptv_sniffer_web.Media.{Manager, acquire, limit_of, count_kind, default_limits, new_lease}
use iptv_sniffer_web.Media.Capacity.{here as still, acquired, IsWithin, Reach-IsWithin}
use iptv_sniffer_web.Hls
use iptv_sniffer_web.Hls.{
  Stream, Service, Request, with_manager, ensure, make_key, parse_key, new_stream, idle_timeout,
  is_stale, stale_keys, watch_keys, watch_round,
}
use iptv_sniffer_web.Hls.Stops.{IsSound}
use iptv_sniffer_web.Hls.Starts.{started, started-IsSound}
use iptv_sniffer_web.Hls.Sections
use iptv_sniffer_web.Hls.Sections.{
  World, at, entered, attached, is_granted, enters, attaches, here, next,
}
use iptv_sniffer_web.Hls.Capacity.{Reach-within_limit}
use iptv_sniffer_web.Hls.Keys.{IsPlace, parse_key_iff}
use iptv_sniffer_web.Hls.Refines.{view, table_after, view-ensure}
use iptv_sniffer_web.Hls.Watch.{watch_round-fresh}

abbrev manager : Manager
manager = Media.init 4 []

abbrev service : Service
service = Hls.init manager

-- 239.1.1.1, port 5000.
abbrev request : Request
request = record {
  host = 50 ∷ 51 ∷ 57 ∷ 46 ∷ 49 ∷ 46 ∷ 49 ∷ 46 ∷ 49 ∷ [];
  port = 5000;
  path_mode = "rtp";
  localaddr = "";
}

manager-IsWithin : IsWithin manager
manager-IsWithin = Reach-IsWithin 4 [] manager still

service-IsSound : IsSound service
unfolding Hls.init
service-IsSound = record { held = tt; distinct = tt; within = manager-IsWithin }

abbrev place : Text
place = 65 ∷ []

-- A start: its lease, its stream, and the attachment of the stop.
abbrev with_grant : World
with_grant = record (Hls.Sections.start_world manager) {
  service = with_manager (acquired 7 "hls" place manager) service;
  granted = at 7 true (λ j. false);
}

abbrev with_entry : World
with_entry = record with_grant {
  service = entered 7 100 place request with_grant.service;
  granted = at 7 false with_grant.granted;
  entering = at 7 true with_grant.entering;
}

abbrev with_stream : World
with_stream = record with_entry {
  service = attached 7 with_entry.service;
  entering = at 7 false with_entry.entering;
}

calm : (id : ℕ) → with_stream.entering id ≡ false
calm id = ground arith

Reach-within_limit_example :
    length with_stream.service.streams ≤ limit_of "hls" with_stream.service.manager
unfolding Hls.init Media.init acquire limit_of count_kind default_limits lookup with_manager
Reach-within_limit_example =
    Reach-within_limit manager with_stream manager-IsWithin
      (next
        (next (next here (is_granted 7 place (acquired 7 "hls" place manager) refl refl refl))
          (enters 7 100 place request refl))
        (attaches 7 refl))
      calm

view-ensure_example :
    view (ensure true 7 100 request service).0 []
    ≡ table_after (ensure true 7 100 request service).1 request (view service) []
view-ensure_example = view-ensure true 7 100 request service [] service-IsSound

abbrev running : Service
running = started 7 100 (65 ∷ []) request service

running-IsSound : IsSound running
unfolding Hls.init Media.init acquire limit_of count_kind default_limits lookup
running-IsSound = started-IsSound 7 100 (65 ∷ []) request service tt refl service-IsSound

watch_round-fresh_example :
    ((new_stream 7 100 request).running ≡ true)
    × (110 ≤ (new_stream 7 100 request).last_access + idle_timeout)
unfolding Hls.init watch_round watch_keys stale_keys is_stale new_stream lookup insert idle_timeout
watch_round-fresh_example =
    watch_round-fresh 110 (λ k. 120) running (65 ∷ []) (new_stream 7 100 request) running-IsSound
      (λ k. omega arith) refl

parse_key_iff_example :
    (parse_key (65 ∷ []) ≡ some ([], 5000)) ↔ (IsPlace [] 5000 × (make_key [] 5000 ≡ 65 ∷ []))
parse_key_iff_example = parse_key_iff (65 ∷ []) [] 5000
