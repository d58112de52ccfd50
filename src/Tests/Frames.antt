-- ===== src/Tests/Frames.antt =====
-- A tagged PPPoE frame with a TCP packet in it.
use iptv_sniffer_web.Base.{
  ℕ, ◌≡◌, refl, inl, true, false, some, List, [], ◌∷◌, ◌++◌, arith, nat_eq, string_eq, pair_eq,
  list_eq,
}
use iptv_sniffer_web.Packet.{View, unwrap_ipv4_packet, colon_hex, parse_ip}
use iptv_sniffer_web.Packet.Frames.{
  Mac, mac_bytes, Carrier, session, frame, IsWhole, unwrap_ipv4_packet-frame,
}
use iptv_sniffer_web.Tcp.{Segment, tcp_segments}
use iptv_sniffer_web.Tcp.Segments.{TcpHeader, tcp_bytes, IsTcpHeader, tcp_segments-frame}

abbrev box : Mac
box = record { b0 = 0x48; b1 = 0x57; b2 = 2; b3 = 0x25; b4 = 0xBB; b5 = 0xE3 }

abbrev router : Mac
router = record { b0 = 0; b1 = 1; b2 = 2; b3 = 3; b4 = 4; b5 = 5 }

abbrev vlan : List (ℕ × ℕ)
vlan = (0x8100, 85) ∷ []

abbrev pppoe : Carrier
pppoe = session 17 45 true false

abbrev ip_header : List ℕ
ip_header =
    0x45 ∷ 0 ∷ 0 ∷ 43 ∷ 0 ∷ 1 ∷ 0 ∷ 0 ∷ 64 ∷ 6 ∷ 0 ∷ 0 ∷ 10 ∷ 0 ∷ 0 ∷ 2 ∷ 10 ∷ 0 ∷ 0 ∷ 1 ∷ []

abbrev tcp_header : TcpHeader
tcp_header = record {
  src_port = 49152;
  dst_port = 8080;
  seq = 1000;
  ack = 2000;
  flags = 24;
  window = 512;
  checksum = 0;
  urgent = 0;
  options = [];
}

abbrev ip_packet : List ℕ
ip_packet = ip_header ++ tcp_bytes tcp_header (b'G' ∷ b'E' ∷ b'T' ∷ [])

abbrev view : View
view = record {
  linktype = 1;
  link_layer = "Ethernet";
  src_mac = colon_hex (mac_bytes box);
  dst_mac = colon_hex (mac_bytes router);
  vlan_depth = 1;
  pppoe = true;
  ip = ip_packet;
}

abbrev segment : Segment
segment = record {
  key = ((parse_ip ip_header 12, 49152), (parse_ip ip_header 16, 8080));
  seq = 1000;
  payload = b'G' ∷ b'E' ∷ b'T' ∷ [];
}

whole : IsWhole ip_packet
whole = record {
  ipv4 = record { version = refl; header = omega arith; whole = omega arith };
  total = refl;
}

header_ok : IsTcpHeader tcp_header
header_ok = record {
  src_port = omega arith;
  dst_port = omega arith;
  seq = omega arith;
  words = refl;
  size = omega arith;
}

unwrap_ipv4_packet-frame_example :
    unwrap_ipv4_packet 1 (frame router box vlan pppoe (ip_packet ++ 0 ∷ 0 ∷ [])) ≡ some view
unwrap_ipv4_packet-frame_example =
    unwrap_ipv4_packet-frame router box vlan pppoe ip_packet (0 ∷ 0 ∷ []) (inl refl, tt)
      (omega arith, omega arith) whole

tcp_segments-frame_example :
    tcp_segments ((1, frame router box vlan pppoe (ip_packet ++ 0 ∷ 0 ∷ [])) ∷ []) ≡ segment ∷ []
tcp_segments-frame_example =
    tcp_segments-frame router box vlan pppoe ip_header (0 ∷ 0 ∷ []) tcp_header b'G'
      (b'E' ∷ b'T' ∷ []) (inl refl, tt) (omega arith, omega arith)
      (record { size = refl; minimum = omega arith; protocol = refl }) header_ok whole
