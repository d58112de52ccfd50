-- ===== src/Tcp.antt =====
-- services/stb_discovery_service.py, `iter_ipv4_packets` and `_tcp_segments`: the TCP payloads of a
-- capture. Addresses are the texts of `_parse_ip`.
pub mod Segments
pub mod Reassembly
use iptv_sniffer_web.Base.{
  ℕ, zero, suc, ◌+◌, ◌-◌, ◌*◌, ◌/◌, ◌%◌, ◌^◌, ◌≤◌, ◌<◌, min, max, String, ◌≡◌, refl, sym, ap, ◌∙◌,
  ◌≢◌, ◌↔◌, ◌⊎◌, inl, inr, Bool, true, false, not, ◌&&◌, ◌||◌, Option, none, some, List, [], ◌∷◌,
  ◌++◌, map, arith, ◌>>=◌, >>=-eq-some, ltb, leb, if◌then◌else◌, Comparable, ◌==◌, nat_eq,
  string_eq, pair_eq, list_eq, Bool-cases, Option-cases, ltb→lt, ltb→le, lt→ltb, le→ltb, leb→le,
  le→leb, length, get_or, get_elem?, take, drop, last_n, length-append, length-take, length-drop,
  take-append-drop, take-append, drop-append, take_all, get_or-append, All, All-append, byte_at,
  slice, be16, be32, le16, le32, IsByte, AreBytes, put_be16, put_be32, put_le16, put_le32,
}
use iptv_sniffer_web.Packet.{parse_ip, header_length, View, unwrap_ipv4_packet}

-- The 4-tuple `(src, src_port, dst, dst_port)`, as two end points.
abbrev pub Key : Type 0
Key = (List ℕ × ℕ) × (List ℕ × ℕ)

pub record Segment : Type 0 where
  pub key : Key
  pub seq : ℕ
  pub payload : List ℕ

-- `iter_ipv4_packets` over the records of `iter_pcap_packets`.
unfoldable pub iter_ipv4_packets : List (ℕ × List ℕ) → List View
iter_ipv4_packets [] = []
iter_ipv4_packets ((linktype, packet) ∷ rest) = elim (unwrap_ipv4_packet linktype packet) [
  | none ↦ iter_ipv4_packets rest
  | some v ↦ v ∷ iter_ipv4_packets rest
]

-- From the TCP header on, between two addresses.
unfoldable pub tcp_part : List ℕ → List ℕ → List ℕ → Option Segment
tcp_part src dst tcp =
    let tcp_len = byte_at tcp 12 / 16 * 4 in
    if ltb (length tcp) 20 || (ltb tcp_len 20 || ltb (length tcp) tcp_len)
    then none
    else elim (drop tcp_len tcp) [
      | [] ↦ none
      | b ∷ bs ↦ some (record {
        key = ((src, be16 tcp 0), (dst, be16 tcp 2));
        seq = be32 tcp 4;
        payload = b ∷ bs;
      })
    ]

-- The body of the loop in `_tcp_segments`; `ip[off:]` is the TCP packet.
unfoldable pub tcp_segment : List ℕ → Option Segment
tcp_segment ip =
    if ltb (length ip) 20 || not (byte_at ip 9 == 6)
    then none
    else if ltb (header_length ip) 20
    then none
    else tcp_part (parse_ip ip 12) (parse_ip ip 16) (drop (header_length ip) ip)

unfoldable pub segments_of : List View → List Segment
segments_of [] = []
segments_of (v ∷ vs) = elim (tcp_segment v.ip) [
  | none ↦ segments_of vs
  | some s ↦ s ∷ segments_of vs
]

unfoldable pub tcp_segments : List (ℕ × List ℕ) → List Segment
tcp_segments frames = segments_of (iter_ipv4_packets frames)
