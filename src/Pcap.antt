-- ===== src/Pcap.antt =====
-- services/io_limits.py, `iter_pcap_packets` for classic captures. A generator is the packets that
-- it yields and how it ends. `stuck` is out of fuel.
pub mod Classic
pub mod Ng
pub mod Bounds
use iptv_sniffer_web.Base.{
  ℕ, zero, suc, ◌+◌, ◌-◌, ◌*◌, ◌/◌, ◌%◌, ◌^◌, ◌≤◌, ◌<◌, min, max, String, ◌≡◌, refl, sym, ap, ◌∙◌,
  ◌≢◌, ◌↔◌, ◌⊎◌, inl, inr, Bool, true, false, not, ◌&&◌, ◌||◌, Option, none, some, List, [], ◌∷◌,
  ◌++◌, map, arith, ◌>>=◌, >>=-eq-some, ltb, leb, if◌then◌else◌, Comparable, ◌==◌, nat_eq,
  string_eq, pair_eq, list_eq, Bool-cases, Option-cases, ltb→lt, ltb→le, lt→ltb, le→ltb, leb→le,
  le→leb, length, get_or, get_elem?, take, drop, last_n, length-append, length-take, length-drop,
  take-append-drop, take-append, drop-append, take_all, take-append_le, drop-append_le,
  slice-append, get_or-append, All, All-append, byte_at, slice, be16, be32, le16, le32, IsByte,
  AreBytes, put_be16, put_be32, put_le16, put_le32, ==_iff, ==_refl, Text, str_nat, is_digit,
  digits_value, digits_value-str_nat,
}

abbrev pub max_offline_bytes : ℕ
max_offline_bytes = 536870912

abbrev pub max_packet_bytes : ℕ
max_packet_bytes = 1048576

pub data Endian : Type 0 where
  little big : Endian

abbrev pub u16 : Endian → List ℕ → ℕ → ℕ
u16 little = le16
u16 big = be16

abbrev pub u32 : Endian → List ℕ → ℕ → ℕ
u32 little = le32
u32 big = be32

-- The source's ValueErrors, one for each text.
pub data Error : Type 0 where
  file_too_large not_a_capture bad_link_type bad_packet_length too_many_bytes : Error
  short_block_header bad_byte_order no_section bad_block_length short_block bad_trailer : Error
  short_interface short_enhanced short_simple short_packet no_such_interface : Error
  packet_too_long packet_incomplete no_interfaces no_supported_interface : Error

pub data Ending : Type 0 where
  finished stuck : Ending
  raised : Error → Ending

pub record Yielded : Type 0 where
  pub packets : List (ℕ × List ℕ)
  pub ending : Ending

unfoldable pub stop : Ending → Yielded
stop e = record { packets = []; ending = e }

unfoldable pub yield : ℕ × List ℕ → Yielded → Yielded
yield p y = record y { packets = p ∷ y.packets }

-- The loop over the records of a classic capture; `rest` is what the stream has left.
unfoldable pub records : ℕ → Endian → ℕ → ℕ → ℕ → List ℕ → Yielded
unfolding stop yield
records zero endian snaplen linktype consumed rest = stop stuck
records (suc fuel) endian snaplen linktype consumed rest =
    let size = u32 endian rest 8 in
    let consumed' = consumed + 16 + size in
    let packet = take size (drop 16 rest) in
    let more = records fuel endian snaplen linktype consumed' (drop size (drop 16 rest)) in
    if ltb (length rest) 16
    then stop finished
    else if ltb max_packet_bytes size || (not (snaplen == 0) && ltb snaplen size)
    then stop (raised bad_packet_length)
    else if ltb max_offline_bytes consumed'
    then stop (raised too_many_bytes)
    else if ltb (length packet) size
    then stop finished
    else yield (linktype, packet) more

-- `orders.get(header[:4])`.
unfoldable pub byte_order : List ℕ → Option Endian
byte_order header =
    if take 4 header == 0xD4 ∷ 0xC3 ∷ 0xB2 ∷ 0xA1 ∷ []
    then some little
    else if take 4 header == 0xA1 ∷ 0xB2 ∷ 0xC3 ∷ 0xD4 ∷ []
    then some big
    else if take 4 header == 0x4D ∷ 0x3C ∷ 0xB2 ∷ 0xA1 ∷ []
    then some little
    else if take 4 header == 0xA1 ∷ 0xB2 ∷ 0x3C ∷ 0x4D ∷ []
    then some big
    else none

-- The link types that the parser understands.
unfoldable pub is_supported : ℕ → Bool
is_supported linktype = linktype == 1 || (linktype == 113 || linktype == 276)

-- The classic branch of `iter_pcap_packets`.
unfoldable pub classic : List ℕ → Yielded
unfolding stop byte_order is_supported
classic file = if ltb (length file) 24 then stop finished else elim (byte_order file) [
  | none ↦ stop (raised not_a_capture)
  | some endian ↦
      if not (is_supported (u32 endian file 20))
      then stop (raised bad_link_type)
      else records (length file) endian (u32 endian file 16) (u32 endian file 20) 24 (drop 24 file)
]
