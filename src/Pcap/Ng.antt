-- ===== src/Pcap/Ng.antt =====
-- services/io_limits.py, `_iter_pcapng_packets` and the choice between the two formats.
use iptv_sniffer_web.Base.{
  ℕ, zero, suc, ◌+◌, ◌-◌, ◌%◌, min, Bool, true, false, not, ◌&&◌, ◌||◌, Option, none, some, List,
  [], ◌∷◌, ◌++◌, ltb, if◌then◌else◌, ◌==◌, nat_eq, string_eq, pair_eq, list_eq, length, get_elem?,
  take, drop, slice,
}
use iptv_sniffer_web.Pcap.{
  max_offline_bytes, max_packet_bytes, Endian, little, big, u16, u32, Error, file_too_large,
  too_many_bytes, short_block_header, bad_byte_order, no_section, bad_block_length, short_block,
  bad_trailer, short_interface, short_enhanced, short_simple, short_packet, no_such_interface,
  packet_too_long, packet_incomplete, no_interfaces, no_supported_interface, finished, stuck,
  raised, Yielded, stop, yield, is_supported, classic,
}

-- An interface: its link type and snap length.
abbrev pub Interface : Type 0
Interface = ℕ × ℕ

-- The byte order of a section, from its magic.
unfoldable pub section_order : List ℕ → Option Endian
section_order bom =
    if bom == 0x4D ∷ 0x3C ∷ 0x2B ∷ 0x1A ∷ []
    then some little
    else if bom == 0x1A ∷ 0x2B ∷ 0x3C ∷ 0x4D ∷ []
    then some big
    else none

abbrev pub is_section : List ℕ → Bool
is_section prefix = take 4 prefix == 0x0A ∷ 0x0D ∷ 0x0D ∷ 0x0A ∷ []

-- What a block asks of the loop.
pub data Block : Type 0 where
  fails : Error → Block
  describes : Interface → Block
  ignored : Block
  -- The interface, the captured length, and where the packet starts in the body.
  carries : ℕ → ℕ → ℕ → Block

-- `snaplen or original_len`.
unfoldable pub or_length : ℕ → ℕ → ℕ
or_length snaplen original = if snaplen == 0 then original else snaplen

unfoldable pub first_snaplen : List Interface → ℕ
first_snaplen [] = 0
first_snaplen ((linktype, snaplen) ∷ is) = snaplen

-- The body of a block, by its type.
unfoldable pub read_block : Endian → ℕ → List Interface → List ℕ → Block
unfolding or_length first_snaplen
read_block endian block_type interfaces body =
    if block_type == 1
    then (if ltb (length body) 8
        then fails short_interface
        else describes (u16 endian body 0, u32 endian body 4))
    else if block_type == 6
    then (if ltb (length body) 20
        then fails short_enhanced
        else carries (u32 endian body 0) (u32 endian body 12) 20)
    else if block_type == 3
    then (if ltb (length body) 4
        then fails short_simple
        else let original = u32 endian body 0 in
          carries 0
            (min (min original (or_length (first_snaplen interfaces) original)) (length body - 4))
            4)
    else if block_type == 2
    then (if ltb (length body) 20
        then fails short_packet
        else carries (u16 endian body 0) (u32 endian body 12) 20)
    else ignored

-- The state of the loop: the section's byte order and interfaces, the bytes read, and whether a
-- packet was yielded.
pub record Reader : Type 0 where
  pub endian : Option Endian
  pub interfaces : List Interface
  pub consumed : ℕ
  pub yielded : Bool

unfoldable pub any_supported : List Interface → Bool
any_supported [] = false
any_supported ((linktype, snaplen) ∷ is) = is_supported linktype || any_supported is

-- The two tests behind the loop.
unfoldable pub finish : Reader → Yielded
unfolding stop
finish r = elim r.interfaces [
  | [] ↦ stop (raised no_interfaces)
  | i ∷ is ↦
      if not r.yielded && not (any_supported r.interfaces)
      then stop (raised no_supported_interface)
      else stop finished
]

-- The order and interfaces in which a block is read: a section header starts anew.
unfoldable pub open_block : List ℕ → Reader → Option Endian × List Interface
unfolding section_order
open_block prefix r =
    if is_section prefix then (section_order (slice prefix 8 12), []) else (r.endian, r.interfaces)

unfoldable pub order_error : List ℕ → Error
order_error prefix = if is_section prefix then bad_byte_order else no_section

unfoldable pub block_type_of : Endian → List ℕ → ℕ
block_type_of endian prefix = if is_section prefix then 0x0A0D0D0A else u32 endian prefix 0

-- The packet of a block that carries one: an error, a packet of an interface that is passed over,
-- or a packet to yield.
pub data Picked : Type 0 where
  wrong : Error → Picked
  passed : Picked
  picked : ℕ × List ℕ → Picked

unfoldable pub pick_packet : List Interface → List ℕ → ℕ → ℕ → ℕ → Picked
pick_packet interfaces body id captured start = elim (get_elem? interfaces id) [
  | none ↦ wrong no_such_interface
  | some (linktype, snaplen) ↦
      let packet = slice body start (start + captured) in
      if ltb max_packet_bytes captured
      then wrong packet_too_long
      else if not (length packet == captured)
      then wrong packet_incomplete
      else if is_supported linktype
      then picked (linktype, packet)
      else passed
]

-- What one round of the loop comes to: an error, or the packet that is yielded, if any, the reader
-- and the rest of the stream.
pub data Round : Type 0 where
  halts : Error → Round
  goes : Option (ℕ × List ℕ) → Reader → List ℕ → Round

-- A block that carries a packet.
unfoldable pub carry_packet : Picked → Reader → List ℕ → Round
carry_packet (wrong e) r rest = halts e
carry_packet passed r rest = goes none r rest
carry_packet (picked p) r rest = goes (some p) (record r { yielded = true }) rest

-- The block's body read, with the reader that has consumed it.
unfoldable pub enter_block : Block → Reader → List ℕ → List ℕ → Round
enter_block (fails e) r body rest = halts e
enter_block (describes i) r body rest =
    goes none (record r { interfaces = r.interfaces ++ i ∷ [] }) rest
enter_block ignored r body rest = goes none r rest
enter_block (carries id captured start) r body rest =
    carry_packet (pick_packet r.interfaces body id captured start) r rest

-- A block of known byte order: its length and trailer, then its body.
unfoldable pub sized_block : Endian → List Interface → Reader → List ℕ → Round
unfolding enter_block carry_packet
sized_block endian interfaces r rest =
    let block_len = u32 endian rest 4 in
    let block = take block_len rest in
    let consumed = r.consumed + block_len in
    if ltb block_len 12 || (not (block_len % 4 == 0) || ltb (max_packet_bytes + 65536) block_len)
    then halts bad_block_length
    else if ltb (length rest) block_len
    then halts short_block
    else if not (u32 endian block (block_len - 4) == block_len)
    then halts bad_trailer
    else if ltb max_offline_bytes consumed
    then halts too_many_bytes
    else enter_block
        (read_block endian (block_type_of endian rest) interfaces (slice block 8 (block_len - 4)))
        (record {
          endian = some endian;
          interfaces = interfaces;
          consumed = consumed;
          yielded = r.yielded;
        })
        (slice block 8 (block_len - 4)) (drop block_len rest)

unfoldable pub next_block : Reader → List ℕ → Round
next_block r rest =
    if ltb (length rest) 12 then halts short_block_header else elim (open_block rest r).0 [
      | none ↦ halts (order_error rest)
      | some endian ↦ sized_block endian (open_block rest r).1 r rest
    ]

unfoldable pub emit : Option (ℕ × List ℕ) → Yielded → Yielded
unfolding yield
emit none y = y
emit (some p) y = yield p y

-- `_iter_pcapng_packets`; `rest` is what the stream has left.
unfoldable pub blocks : ℕ → Reader → List ℕ → Yielded
unfolding stop emit
blocks zero r rest = stop stuck
blocks (suc fuel) r [] = finish r
blocks (suc fuel) r (b ∷ bs) = elim (next_block r (b ∷ bs)) [
  | halts e ↦ stop (raised e)
  | goes p r' rest ↦ emit p (blocks fuel r' rest)
]

unfoldable pub new_reader : Reader
new_reader = record { endian = none; interfaces = []; consumed = 0; yielded = false }

-- `iter_pcap_packets` over the bytes of a file.
unfoldable pub iter_pcap_packets : List ℕ → Yielded
unfolding stop
iter_pcap_packets file =
    if ltb max_offline_bytes (length file)
    then stop (raised file_too_large)
    else if is_section file
    then blocks (suc (length file)) new_reader file
    else classic file
