-- ===== src/Fcc/Merge.antt =====
-- services/stb_discovery_service.py, `_merge_fcc_requests`: the FCC server of a channel is the
-- destination of a request for it that the set-top box sent.
pub mod Kept
pub mod Idempotent
use iptv_sniffer_web.Base.{
  ℕ, zero, suc, ◌+◌, ◌-◌, ◌*◌, ◌/◌, ◌%◌, ◌^◌, ◌≤◌, ◌<◌, min, max, String, ◌≡◌, refl, sym, ap, ◌∙◌,
  ◌≢◌, ◌↔◌, ◌⊎◌, inl, inr, Bool, true, false, not, ◌&&◌, ◌||◌, Option, none, some, List, [], ◌∷◌,
  ◌++◌, map, arith, ◌>>=◌, >>=-eq-some, ltb, leb, if◌then◌else◌, Comparable, ◌==◌, nat_eq,
  string_eq, pair_eq, list_eq, Bool-cases, Option-cases, ltb→lt, ltb→le, lt→ltb, le→ltb, leb→le,
  le→leb, length, get_or, get_elem?, take, drop, last_n, length-append, length-take, length-drop,
  take-append-drop, take-append, drop-append, take_all, take-append_le, drop-append_le,
  slice-append, get_or-append, All, All-append, byte_at, slice, be16, be32, le16, le32, IsByte,
  AreBytes, put_be16, put_be32, put_le16, put_le32, Text, str_nat, is_digit, digits_value,
  digits_value-str_nat,
}
use iptv_sniffer_web.Base.Dict.{Dict, lookup, insert}
use iptv_sniffer_web.Packet.{parse_ip, header_length, View}
use iptv_sniffer_web.Tcp.{iter_ipv4_packets}
use iptv_sniffer_web.Fcc.{Protocol, Request, is_multicast, parse_fcc_request}

pub record Source : Type 0 where
  pub pcap : String
  pub parser : String
  pub parser_version : String
  pub protocol : String

pub record Channel : Type 0 where
  pub ip : Text
  pub port : ℕ
  pub fcc_ip : Text
  pub fcc_port : Option ℕ
  pub fcc_protocol : Option Protocol
  pub sources : List Source
  pub fields : Dict String ℕ

-- `f"{ip}:{port}"`.
unfoldable pub stream_key : Text → ℕ → Text
stream_key ip port = ip ++ b':' ∷ str_nat port

unfoldable pub add_to_set : ℕ → List ℕ → List ℕ
add_to_set p [] = p ∷ []
add_to_set p (q ∷ qs) = if q == p then q ∷ qs else q ∷ add_to_set p qs

-- `ports.setdefault(channel["ip"], set()).add(channel["port"])`.
unfoldable pub add_port : Text → ℕ → Dict Text (List ℕ) → Dict Text (List ℕ)
add_port ip port ports = elim (lookup ip ports) [
  | none ↦ insert ip (port ∷ []) ports
  | some known ↦ insert ip (add_to_set port known) ports
]

unfoldable pub channel_ports : Dict Text (List ℕ) → Dict Text Channel → Dict Text (List ℕ)
channel_ports ports [] = ports
channel_ports ports ((k, c) ∷ cs) = channel_ports (add_port c.ip c.port ports) cs

-- `channel.get("fcc_ip") and channel.get("fcc_port")`.
unfoldable pub has_fcc : Channel → Bool
has_fcc c = not (length c.fcc_ip == 0) && elim c.fcc_port [ none ↦ false | some p ↦ not (p == 0) ]

-- `address.is_multicast or address.is_loopback or address.is_unspecified`, of four bytes.
unfoldable pub is_special : List ℕ → ℕ → Bool
unfolding is_multicast
is_special ip off =
    is_multicast (byte_at ip off)
    || (byte_at ip off == 127
        || (byte_at ip off == 0
            && (byte_at ip (off + 1) == 0
                && (byte_at ip (off + 2) == 0 && byte_at ip (off + 3) == 0))))

-- The request in a packet with the server it went to: the part of the loop up to `parse_fcc_request`.
unfoldable pub request_of : Text → Dict Text (List ℕ) → List ℕ → Option (Request × Text × ℕ × Bool)
request_of stb_ip ports ip =
    let udp = drop (header_length ip) ip in
    let size = be16 udp 4 in
    if ltb (length ip) 28 || (not (byte_at ip 9 == 17) || not (parse_ip ip 12 == stb_ip))
    then none
    else if ltb (header_length ip) 20 || (ltb (length udp) 8 || not (be16 ip 6 % 0x4000 == 0))
    then none
    else if ltb size 8 || ltb (length udp) size
    then none
    else elim (parse_fcc_request (slice udp 8 size) ports) [
      | none ↦ none
      | some found ↦ some (found, parse_ip ip 16, be16 udp 2, is_special ip 16)
    ]

-- `channel.update(…)` with its provenance.
unfoldable pub record_server : String → Protocol → Text → ℕ → Channel → Channel
record_server pcap protocol server port c =
    let index = length c.sources in
    record c {
      fcc_ip = server;
      fcc_port = some port;
      fcc_protocol = some protocol;
      sources =
          c.sources
          ++ record {
            pcap = pcap;
            parser = "fcc-rtcp-request";
            parser_version = "1";
            protocol = "UDP/RTCP";
          }
            ∷ [];
      fields =
          insert "fcc_protocol" index (insert "fcc_port" index (insert "fcc_ip" index c.fields));
    }

-- The rest of the loop's body.
unfoldable pub apply_request :
    String → Dict Text Channel → Request × Text × ℕ × Bool → Dict Text Channel
apply_request pcap channels (found, server, port, special) =
    let key = stream_key found.ip found.port in
    elim (lookup key channels) [
      | none ↦ channels
      | some c ↦
          if not (leb 1 port && leb port 65535) || special
          then channels
          else if has_fcc c
          then channels
          else insert key (record_server pcap found.fcc_protocol server port c) channels
    ]

unfoldable pub merge_packet :
    String → Text → Dict Text (List ℕ) → Dict Text Channel → List ℕ → Dict Text Channel
merge_packet pcap stb_ip ports channels ip = elim (request_of stb_ip ports ip) [
  | none ↦ channels
  | some r ↦ apply_request pcap channels r
]

unfoldable pub merge_packets :
    String → Text → Dict Text (List ℕ) → Dict Text Channel → List View → Dict Text Channel
merge_packets pcap stb_ip ports channels [] = channels
merge_packets pcap stb_ip ports channels (v ∷ vs) =
    merge_packets pcap stb_ip ports (merge_packet pcap stb_ip ports channels v.ip) vs

unfoldable pub merge_fcc_requests :
    String → List (ℕ × List ℕ) → Text → Dict Text Channel → Dict Text Channel
merge_fcc_requests pcap frames stb_ip channels =
    merge_packets pcap stb_ip (channel_ports [] channels) channels (iter_ipv4_packets frames)
