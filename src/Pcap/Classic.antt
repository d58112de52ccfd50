-- ===== src/Pcap/Classic.antt =====
-- Classic captures as a writer lays them out.
use iptv_sniffer_web.Base.{
  ℕ, zero, suc, ◌+◌, ◌≤◌, ◌<◌, ◌≡◌, refl, ◌∙◌, ◌⊎◌, true, List, [], ◌∷◌, ◌++◌, arith, nat_eq,
  string_eq, pair_eq, list_eq, length, drop, length-append, take-append, drop-append, All, put_be32,
  put_le32,
}
use mathlib.Core.List.{append_assoc}
use iptv_sniffer_web.Pcap.Ng.{iter_pcap_packets}
use iptv_sniffer_web.Pcap.{
  max_offline_bytes, max_packet_bytes, Endian, little, big, u32, finished, stop, yield, records,
  byte_order, is_supported, classic,
}

abbrev pub put_u32 : Endian → ℕ → List ℕ
put_u32 little = put_le32
put_u32 big = put_be32

-- A record: eight bytes of time, the captured and the original length, and the packet.
pub record Record : Type 0 where
  pub seconds : ℕ
  pub fraction : ℕ
  pub original : ℕ
  pub packet : List ℕ

abbrev pub record_bytes : Endian → Record → List ℕ
record_bytes e r =
    put_u32 e r.seconds
    ++ (put_u32 e r.fraction ++ (put_u32 e (length r.packet) ++ (put_u32 e r.original ++ r.packet)))

abbrev pub records_bytes : Endian → List Record → List ℕ
records_bytes e [] = []
records_bytes e (r ∷ rs) = record_bytes e r ++ records_bytes e rs

abbrev pub IsRecord : ℕ → Record → Type 0
IsRecord snaplen r =
    (length r.packet ≤ max_packet_bytes) × ((snaplen ≡ 0) ⊎ (length r.packet ≤ snaplen))

abbrev pub yielded : ℕ → List Record → List (ℕ × List ℕ)
yielded linktype [] = []
yielded linktype (r ∷ rs) = (linktype, r.packet) ∷ yielded linktype rs

u32-put_u32 :
    (e : Endian) (r : Record) (rest : List ℕ)
    → length r.packet ≤ max_packet_bytes
    → u32 e (record_bytes e r ++ rest) 8 ≡ length r.packet
u32-put_u32 little r rest h = omega arith
u32-put_u32 big r rest h = omega arith

drop-record_bytes :
    (e : Endian) (r : Record) (rest : List ℕ)
    → drop 16 (record_bytes e r ++ rest) ≡ r.packet ++ rest
drop-record_bytes little r rest = refl
drop-record_bytes big r rest = refl

length-record_bytes : (e : Endian) (r : Record) → length (record_bytes e r) ≡ 16 + length r.packet
length-record_bytes little r = omega arith
length-record_bytes big r = omega arith

records-records_bytes :
    (fuel : ℕ) (e : Endian) (snaplen linktype consumed : ℕ) (rs : List Record) (tail : List ℕ)
    → length (records_bytes e rs) < fuel
    → All (IsRecord snaplen) rs
    → length tail < 16
    → consumed + length (records_bytes e rs) ≤ max_offline_bytes
    → records fuel e snaplen linktype consumed (records_bytes e rs ++ tail)
      ≡ record { packets = yielded linktype rs; ending = finished }
unfolding records stop yield
records-records_bytes zero e snaplen linktype consumed rs tail f h t c = absurd (omega arith)
records-records_bytes (suc fuel) e snaplen linktype consumed [] tail f h t c = ground arith
records-records_bytes (suc fuel) e snaplen linktype consumed (r ∷ rs) tail f h t c =
    let rest = records_bytes e rs ++ tail in
    let n = length-append (record_bytes e r) (records_bytes e rs) in
    let m = length-append (record_bytes e r) rest in
    let k = length-record_bytes e r in
    rw
      (
        append_assoc (record_bytes e r) (records_bytes e rs) tail,
        u32-put_u32 e r rest (h.0).0,
        drop-record_bytes e r rest,
        take-append (length r.packet) r.packet rest refl,
        drop-append (length r.packet) r.packet rest refl,
        records-records_bytes fuel e snaplen linktype (consumed + 16 + length r.packet) rs tail
            (omega arith) h.1 t (omega arith),
      )
      (ground (arith, m, k, h.0))

-- The file's header: the magic of microseconds, version 2.4, eight bytes of time zone and accuracy.
abbrev pub header_bytes : Endian → ℕ → ℕ → List ℕ
header_bytes little snaplen linktype =
    0xD4 ∷ 0xC3 ∷ 0xB2 ∷ 0xA1 ∷ 2 ∷ 0 ∷ 4 ∷ 0 ∷ 0 ∷ 0 ∷ 0 ∷ 0 ∷ 0 ∷ 0 ∷ 0 ∷ 0 ∷ put_le32 snaplen
    ++ put_le32 linktype
header_bytes big snaplen linktype =
    0xA1 ∷ 0xB2 ∷ 0xC3 ∷ 0xD4 ∷ 0 ∷ 2 ∷ 0 ∷ 4 ∷ 0 ∷ 0 ∷ 0 ∷ 0 ∷ 0 ∷ 0 ∷ 0 ∷ 0 ∷ put_be32 snaplen
    ++ put_be32 linktype

is_supported-lt : (linktype : ℕ) → is_supported linktype ≡ true → linktype < 65536
unfolding is_supported
is_supported-lt linktype h = ground arith

classic-header_bytes :
    (e : Endian) (snaplen linktype : ℕ) (rest : List ℕ)
    → snaplen < 4294967296
    → is_supported linktype ≡ true
    → classic (header_bytes e snaplen linktype ++ rest)
      ≡ records (24 + length rest) e snaplen linktype 24 rest
unfolding classic byte_order
classic-header_bytes little snaplen linktype rest h k = ground (arith, is_supported-lt linktype k)
classic-header_bytes big snaplen linktype rest h k = ground (arith, is_supported-lt linktype k)

iter_pcap_packets-classic :
    (e : Endian) (snaplen linktype : ℕ) (rest : List ℕ)
    → 24 + length rest ≤ max_offline_bytes
    → iter_pcap_packets (header_bytes e snaplen linktype ++ rest)
      ≡ classic (header_bytes e snaplen linktype ++ rest)
unfolding iter_pcap_packets
iter_pcap_packets-classic little snaplen linktype rest h = ground arith
iter_pcap_packets-classic big snaplen linktype rest h = ground arith

-- A classic capture of either byte order is read back packet for packet, and a last record that is
-- not all there yet, up to its header, is passed over without an error.
pub iter_pcap_packets-records_bytes :
    (e : Endian) (snaplen linktype : ℕ) (rs : List Record) (tail : List ℕ)
    → snaplen < 4294967296
    → is_supported linktype ≡ true
    → All (IsRecord snaplen) rs
    → length tail < 16
    → 24 + length (records_bytes e rs) + length tail ≤ max_offline_bytes
    → iter_pcap_packets (header_bytes e snaplen linktype ++ (records_bytes e rs ++ tail))
      ≡ record { packets = yielded linktype rs; ending = finished }
iter_pcap_packets-records_bytes e snaplen linktype rs tail s k h t c =
    let rest = records_bytes e rs ++ tail in
    let n = length-append (records_bytes e rs) tail in
    let read =
      records-records_bytes (24 + length rest) e snaplen linktype 24 rs tail (omega (arith, n)) h t
        (omega arith) in
    iter_pcap_packets-classic e snaplen linktype rest (omega (arith, n))
    ∙ (classic-header_bytes e snaplen linktype rest s k ∙ read)
