-- ===== src/Tcp/Segments.antt =====
-- A TCP packet as a sender lays it out, and the segment that is read from it.
use iptv_sniffer_web.Base.{
  ℕ, suc, ◌+◌, ◌*◌, ◌/◌, ◌%◌, ◌≤◌, ◌<◌, ◌≡◌, refl, some, List, [], ◌∷◌, ◌++◌, arith, nat_eq,
  string_eq, pair_eq, list_eq, le→ltb, length, drop, length-append, drop-append, get_or-append, All,
  byte_at, put_be16, put_be32,
}
use iptv_sniffer_web.Packet.{parse_ip, header_length}
use iptv_sniffer_web.Packet.Bounds.{parse_ip-append}
use iptv_sniffer_web.Packet.Frames.{
  Mac, Carrier, IsTag, IsCarrier, IsWhole, frame, unwrap_ipv4_packet-frame,
}
use iptv_sniffer_web.Tcp.{iter_ipv4_packets, tcp_part, tcp_segment, segments_of, tcp_segments}

pub record TcpHeader : Type 0 where
  pub src_port : ℕ
  pub dst_port : ℕ
  pub seq : ℕ
  pub ack : ℕ
  pub flags : ℕ
  pub window : ℕ
  pub checksum : ℕ
  pub urgent : ℕ
  pub options : List ℕ

-- The header's length in words, at the top of byte 12.
abbrev pub data_offset : TcpHeader → ℕ
data_offset t = (20 + length t.options) / 4

abbrev pub tcp_bytes : TcpHeader → List ℕ → List ℕ
tcp_bytes t payload =
    put_be16 t.src_port
    ++ (put_be16 t.dst_port
        ++ (put_be32 t.seq
            ++ (put_be32 t.ack
                ++ (data_offset t * 16 ∷ t.flags ∷ put_be16 t.window
                    ++ (put_be16 t.checksum ++ (put_be16 t.urgent ++ (t.options ++ payload)))))))

pub record IsTcpHeader (t : TcpHeader) : Type 0 where
  pub src_port : t.src_port < 65536
  pub dst_port : t.dst_port < 65536
  pub seq : t.seq < 4294967296
  pub words : length t.options % 4 ≡ 0
  pub size : length t.options ≤ 40

-- An IPv4 header for TCP, options included.
pub record IsTcpIp (hdr : List ℕ) : Type 0 where
  pub size : header_length hdr ≡ length hdr
  pub minimum : 20 ≤ length hdr
  pub protocol : byte_at hdr 9 ≡ 6

length-tcp_bytes :
    (t : TcpHeader) (payload : List ℕ)
    → length (tcp_bytes t payload) ≡ 20 + (length t.options + length payload)
length-tcp_bytes t payload = omega (arith, length-append t.options payload)

drop-tcp_bytes :
    (t : TcpHeader) (payload : List ℕ) (n : ℕ)
    → n ≡ 20 + length t.options
    → drop n (tcp_bytes t payload) ≡ payload
drop-tcp_bytes t payload n h =
    let e : n
        ≡ suc (
            suc (
              suc (
                suc (
                  suc (
                    suc (
                      suc (
                        suc (
                          suc (
                            suc (
                              suc (
                                suc (
                                  suc (
                                    suc (
                                      suc (
                                        suc (
                                          suc (suc (suc (suc (length t.options)))))))))))))))))))) =
      omega arith in
    rw e (drop-append (length t.options) t.options payload refl)

tcp_part-tcp_bytes :
    (src dst : List ℕ) (t : TcpHeader) (b : ℕ) (bs : List ℕ)
    → IsTcpHeader t
    → tcp_part src dst (tcp_bytes t (b ∷ bs))
      ≡ some
          (record { key = ((src, t.src_port), (dst, t.dst_port)); seq = t.seq; payload = b ∷ bs })
unfolding tcp_part
tcp_part-tcp_bytes src dst t b bs k =
    ground
      (arith, length-tcp_bytes t (b ∷ bs), drop-tcp_bytes t (b ∷ bs) (data_offset t * 16 / 16 * 4))

tcp_segment-tcp_bytes :
    (hdr : List ℕ) (t : TcpHeader) (b : ℕ) (bs : List ℕ)
    → IsTcpIp hdr
    → IsTcpHeader t
    → tcp_segment (hdr ++ tcp_bytes t (b ∷ bs))
      ≡ some (record {
        key = ((parse_ip hdr 12, t.src_port), (parse_ip hdr 16, t.dst_port));
        seq = t.seq;
        payload = b ∷ bs;
      })
unfolding tcp_segment
tcp_segment-tcp_bytes hdr t b bs h k =
    let rest = tcp_bytes t (b ∷ bs) in
    let e : header_length (hdr ++ rest) ≡ length hdr = omega (arith, get_or-append hdr rest 0 0) in
    let p : byte_at (hdr ++ rest) 9 ≡ 6 = omega (arith, get_or-append hdr rest 9 0) in
    rw (
      p,
      e,
      drop-append (length hdr) hdr rest refl,
      parse_ip-append hdr rest 12 (omega arith),
      parse_ip-append hdr rest 16 (omega arith),
      tcp_part-tcp_bytes (parse_ip hdr 12) (parse_ip hdr 16) t b bs k,
      le→ltb (length (hdr ++ rest)) 20 (omega (arith, length-append hdr rest)),
      le→ltb (length hdr) 20 (omega arith),
    )

-- A TCP packet in an Ethernet frame yields one segment: the addresses, ports and sequence number of
-- its headers and its whole payload, whatever tags, PPPoE session, options and padding are there.
pub tcp_segments-frame :
    (dst src : Mac) (ts : List (ℕ × ℕ)) (c : Carrier) (hdr pad : List ℕ) (t : TcpHeader) (b : ℕ)
    (bs : List ℕ)
    → All IsTag ts
    → IsCarrier c
    → IsTcpIp hdr
    → IsTcpHeader t
    → IsWhole (hdr ++ tcp_bytes t (b ∷ bs))
    → tcp_segments ((1, frame dst src ts c ((hdr ++ tcp_bytes t (b ∷ bs)) ++ pad)) ∷ [])
      ≡ record {
        key = ((parse_ip hdr 12, t.src_port), (parse_ip hdr 16, t.dst_port));
        seq = t.seq;
        payload = b ∷ bs;
      }
        ∷ []
unfolding tcp_segments iter_ipv4_packets segments_of
tcp_segments-frame dst src ts c hdr pad t b bs tags ok h k w = rw (
  unwrap_ipv4_packet-frame dst src ts c (hdr ++ tcp_bytes t (b ∷ bs)) pad tags ok w,
  iter_ipv4_packets,
  tcp_segment-tcp_bytes hdr t b bs h k,
  segments_of,
)
