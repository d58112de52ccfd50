-- ===== src/Tests/Fcc.antt =====
-- Requests of both kinds, and a channel table that learns a server.
use iptv_sniffer_web.Base.{
  ℕ, ◌≤◌, ◌≡◌, ◌↔◌, none, some, List, [], ◌∷◌, arith, nat_eq, string_eq, pair_eq, list_eq, Text,
}
use iptv_sniffer_web.Base.Dict.{Dict, lookup}
use iptv_sniffer_web.Packet.{parse_ip}
use iptv_sniffer_web.Fcc.{huawei, Request, parse_fcc_request}
use iptv_sniffer_web.Fcc.Requests.{
  Group, group_bytes, telecom_bytes, huawei_bytes, parse_fcc_request-huawei_bytes,
}
use iptv_sniffer_web.Fcc.Merge.{Channel, merge_fcc_requests}
use iptv_sniffer_web.Fcc.Merge.Kept.{Kept}
use iptv_sniffer_web.Fcc.Merge.Idempotent.{merge_fcc_requests_idem}

abbrev group : Group
group = record { g0 = 239; g1 = 3; g2 = 1; g3 = 7 }

abbrev sixteen : List ℕ
sixteen = 0 ∷ 0 ∷ 0 ∷ 0 ∷ 0 ∷ 0 ∷ 0 ∷ 0 ∷ 0 ∷ 0 ∷ 0 ∷ 0 ∷ 0 ∷ 0 ∷ 0 ∷ 0 ∷ []

abbrev table : Dict Text (List ℕ)
table = (parse_ip (group_bytes group) 0, 8000 ∷ []) ∷ []

abbrev heard : Request
heard = record { ip = parse_ip (group_bytes group) 0; port = 8000; fcc_protocol = huawei }

abbrev twenty : List ℕ
twenty = 0 ∷ 0 ∷ 0 ∷ 0 ∷ sixteen

parse_fcc_request-huawei_bytes_example :
    (parse_fcc_request (huawei_bytes 1 group twenty) table ≡ some heard) ↔ (
      (lookup (parse_ip (group_bytes group) 0) table ≡ some (heard.port ∷ []))
      × ((1 ≤ heard.port) × (heard.port ≤ 65535))
      × (heard.ip ≡ parse_ip (group_bytes group) 0)
      × (heard.fcc_protocol ≡ huawei))
parse_fcc_request-huawei_bytes_example =
    parse_fcc_request-huawei_bytes 1 group twenty table (omega arith) (omega arith, omega arith)
      heard

abbrev channel : Channel
channel = record {
  ip = b'2' ∷ b'3' ∷ b'9' ∷ b'.' ∷ b'3' ∷ b'.' ∷ b'1' ∷ b'.' ∷ b'7' ∷ [];
  port = 8000;
  fcc_ip = [];
  fcc_port = none;
  fcc_protocol = none;
  sources = [];
  fields = [];
}

abbrev stream : Text
stream =
    b'2' ∷ b'3' ∷ b'9' ∷ b'.' ∷ b'3' ∷ b'.' ∷ b'1' ∷ b'.' ∷ b'7' ∷ b':' ∷ b'8' ∷ b'0' ∷ b'0' ∷ b'0'
    ∷ []

abbrev channels : Dict Text Channel
channels = (stream, channel) ∷ []

-- An Ethernet frame from 10.0.0.2 to 10.0.0.9 that carries the Telecom request.
abbrev request_frame : List ℕ
request_frame =
    0
    ∷ 1
    ∷ 2
    ∷ 3
    ∷ 4
    ∷ 5
    ∷ 6
    ∷ 7
    ∷ 8
    ∷ 9
    ∷ 10
    ∷ 11
    ∷ 8
    ∷ 0
    ∷ 0x45
    ∷ 0
    ∷ 0
    ∷ 68
    ∷ 0
    ∷ 0
    ∷ 0
    ∷ 0
    ∷ 64
    ∷ 17
    ∷ 0
    ∷ 0
    ∷ 10
    ∷ 0
    ∷ 0
    ∷ 2
    ∷ 10
    ∷ 0
    ∷ 0
    ∷ 9
    ∷ 0x40
    ∷ 0
    ∷ 0x1F
    ∷ 0x43
    ∷ 0
    ∷ 48
    ∷ 0
    ∷ 0
    ∷ telecom_bytes 9 1 2 3 0 8000 group sixteen

abbrev box : Text
box = b'1' ∷ b'0' ∷ b'.' ∷ b'0' ∷ b'.' ∷ b'0' ∷ b'.' ∷ b'2' ∷ []

merge_fcc_requests_idem_example :
    merge_fcc_requests "a.pcap"
      ((1, request_frame) ∷ [])
      box
      (merge_fcc_requests "a.pcap" ((1, request_frame) ∷ []) box channels)
    ≡ merge_fcc_requests "a.pcap" ((1, request_frame) ∷ []) box channels
merge_fcc_requests_idem_example =
    merge_fcc_requests_idem "a.pcap" ((1, request_frame) ∷ []) box channels
