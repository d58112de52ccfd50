-- ===== src/Tests/Exports.antt =====
-- Witnesses for addresses, groups and exports.
use iptv_sniffer_web.Base.{
  ℕ, ◌≡◌, refl, ◌↔◌, Bool, true, false, none, some, [], ◌∷◌, arith, ltb, if◌then◌else◌, ◌==◌,
  nat_eq, string_eq, pair_eq, list_eq, is_digit,
}
use iptv_sniffer_web.Address.{is_probable_iptv_stream}
use iptv_sniffer_web.Address.Filter.{dotted, IsStream, is_probable_iptv_stream-dotted}
use iptv_sniffer_web.Ranking.{Characters, Names, Line, is_one_of, is_scan, drop_quality}
use iptv_sniffer_web.Exports.{
  Channel, Row, or_text, key_of, channel_of, normalize_rows, insert_sorted, sort_channels,
  normalize_channels, select_best_channels,
}
use iptv_sniffer_web.Exports.Best.{IsBest, select_best_channels-IsBest}
use iptv_sniffer_web.Exports.Rows.{count_key, given, count-normalize_channels}

is_probable_iptv_stream-dotted_example :
    (is_probable_iptv_stream (λ w. false) (dotted 239 1 1 7) 5000 90 20 ≡ true)
    ↔ IsStream 239 1 1 7 5000 90 20
is_probable_iptv_stream-dotted_example =
    is_probable_iptv_stream-dotted (λ w. false) 239 1 1 7 5000 90 20 (omega arith) (omega arith)
      (omega arith) (omega arith)

abbrev chars : Characters
chars = record { upper = λ w. w; is_space = λ c. c == 32; is_decimal = λ c. is_digit c }

abbrev names : Names
names = record {
  name = [];
  tvg_name = [];
  auto_name = [];
  detected_name = [];
  tvg_id = [];
  key = 75 ∷ [];
}

abbrev line : ℕ → Line
line packets = record {
  export_health_status = "ok";
  is_primary = false;
  probe_status = "ok";
  fcc_ip = [];
  fcc_port = none;
  fec_port = none;
  export_health_speed = 0;
  packets = packets;
}

abbrev row : ℕ → Row
row key = record {
  name = 65 ∷ [];
  host = [];
  port = some 5000;
  packets = some key;
  key = key ∷ [];
  category = [];
  tvg_id = [];
  line = line 0;
  rest = [];
}

abbrev by_port : Channel → Channel → Bool
by_port a b = ltb a.port b.port

select_best_channels-IsBest_example :
    IsBest chars (channel_of (row 1) 5000 1 ∷ channel_of (row 2) 5000 2 ∷ []) (
      select_best_channels chars by_port
        (channel_of (row 1) 5000 1 ∷ channel_of (row 2) 5000 2 ∷ []))
select_best_channels-IsBest_example =
    select_best_channels-IsBest chars by_port
      (channel_of (row 1) 5000 1 ∷ channel_of (row 2) 5000 2 ∷ [])

count-normalize_channels_example :
    count_key (1 ∷ []) (channel_of (row 1) 5000 1 ∷ channel_of (row 2) 5000 2 ∷ [])
    ≡ (if given (1 ∷ []) (row 1 ∷ row 2 ∷ row 1 ∷ []) then 1 else 0)
unfolding normalize_channels normalize_rows sort_channels insert_sorted is_one_of key_of or_text
    channel_of
count-normalize_channels_example =
    count-normalize_channels by_port (row 1 ∷ row 2 ∷ row 1 ∷ [])
      (channel_of (row 1) 5000 1 ∷ channel_of (row 2) 5000 2 ∷ []) (1 ∷ []) refl
