-- ===== src/Pcap/Bounds.antt =====
-- What holds of every capture file, well formed or not: the readers come to an end, and what they
-- yield is bounded and of a known link type.
use iptv_sniffer_web.Base.{
  ℕ, zero, suc, ◌+◌, ◌-◌, ◌≤◌, ◌<◌, ◌≡◌, refl, ◌≢◌, inl, inr, true, Option, none, some, List, [],
  ◌∷◌, arith, ltb, nat_eq, string_eq, pair_eq, list_eq, Bool-cases, Option-cases, length, get_elem?,
  take, drop, length-take, length-drop, All, slice,
}
use iptv_sniffer_web.Pcap.{
  max_packet_bytes, Endian, u32, stuck, raised, Yielded, stop, yield, records, byte_order,
  is_supported, classic,
}
use iptv_sniffer_web.Pcap.Ng.{
  Interface, Block, describes, ignored, fails, carries, block_type_of, open_block, read_block,
  Reader, finish, open_block, Round, halts, goes, Picked, wrong, passed, picked, pick_packet,
  carry_packet, enter_block, sized_block, next_block, emit, blocks, new_reader, iter_pcap_packets,
}

-- A packet that a reader may yield.
abbrev pub IsPacket : ℕ × List ℕ → Type 0
IsPacket p = (is_supported p.0 ≡ true) × (length p.1 ≤ max_packet_bytes)

records-packets :
    (fuel : ℕ) (endian : Endian) (snaplen linktype consumed : ℕ) (rest : List ℕ)
    → is_supported linktype ≡ true
    → All IsPacket (records fuel endian snaplen linktype consumed rest).packets
unfolding records
records-packets zero endian snaplen linktype consumed rest h = tt
records-packets (suc fuel) endian snaplen linktype consumed rest h = ground (
  arith,
  length-take (u32 endian rest 8) (drop 16 rest),
  records-packets fuel endian snaplen linktype (consumed + 16 + u32 endian rest 8)
      (drop (u32 endian rest 8) (drop 16 rest)) h,
)

-- Each record takes sixteen bytes at least.
records-ends :
    (fuel : ℕ) (endian : Endian) (snaplen linktype consumed : ℕ) (rest : List ℕ)
    → length rest < fuel
    → (records fuel endian snaplen linktype consumed rest).ending ≢ stuck
unfolding records
records-ends zero endian snaplen linktype consumed rest h = absurd (omega arith)
records-ends (suc fuel) endian snaplen linktype consumed rest h = ground (
  arith,
  length-drop 16 rest,
  length-drop (u32 endian rest 8) (drop 16 rest),
  records-ends fuel endian snaplen linktype (consumed + 16 + u32 endian rest 8)
      (drop (u32 endian rest 8) (drop 16 rest)),
)

pick_packet-IsPacket :
    (interfaces : List Interface) (body : List ℕ) (id captured start : ℕ) (p : ℕ × List ℕ)
    → pick_packet interfaces body id captured start ≡ picked p
    → IsPacket p
unfolding pick_packet
pick_packet-IsPacket interfaces body id captured start p h =
    elim (Option-cases (get_elem? interfaces id)) [
      | inl e ↦ ground (arith, e)
      | inr (i, e) ↦ ground (arith, e)
    ]

-- A round yields a packet that is allowed, and takes bytes from the stream.
abbrev IsRound : ℕ → Round → Type 0
IsRound n (halts e) = Unit
IsRound n (goes none r rest) = length rest < n
IsRound n (goes (some p) r rest) = IsPacket p × (length rest < n)

carry_packet-IsRound :
    (n : ℕ) (c : Picked) (r : Reader) (rest : List ℕ)
    → ((p : ℕ × List ℕ) → c ≡ picked p → IsPacket p)
    → length rest < n
    → IsRound n (carry_packet c r rest)
unfolding carry_packet
carry_packet-IsRound n (wrong e) r rest h l = tt
carry_packet-IsRound n passed r rest h l = l
carry_packet-IsRound n (picked p) r rest h l = (h p refl, l)

enter_block-IsRound :
    (n : ℕ) (b : Block) (r : Reader) (body rest : List ℕ)
    → length rest < n
    → IsRound n (enter_block b r body rest)
unfolding enter_block
enter_block-IsRound n (fails e) r body rest l = tt
enter_block-IsRound n (describes i) r body rest l = l
enter_block-IsRound n ignored r body rest l = l
enter_block-IsRound n (carries id captured start) r body rest l =
    carry_packet-IsRound n (pick_packet r.interfaces body id captured start) r rest
      (pick_packet-IsPacket r.interfaces body id captured start) l

sized_block-IsRound :
    (endian : Endian) (interfaces : List Interface) (r : Reader) (rest : List ℕ)
    → 12 ≤ length rest
    → IsRound (length rest) (sized_block endian interfaces r rest)
unfolding sized_block
sized_block-IsRound endian interfaces r rest h = ground (
  arith,
  length-drop (u32 endian rest 4) rest,
  enter_block-IsRound (length rest)
      (read_block endian (block_type_of endian rest) interfaces
        (slice (take (u32 endian rest 4) rest) 8 (u32 endian rest 4 - 4)))
      (record {
        endian = some endian;
        interfaces = interfaces;
        consumed = r.consumed + u32 endian rest 4;
        yielded = r.yielded;
      })
      (slice (take (u32 endian rest 4) rest) 8 (u32 endian rest 4 - 4))
      (drop (u32 endian rest 4) rest),
)

next_block-IsRound : (r : Reader) (rest : List ℕ) → IsRound (length rest) (next_block r rest)
unfolding next_block
next_block-IsRound r rest = elim (Bool-cases (ltb (length rest) 12)) [
  | inl e ↦ rw e tt
  | inr e ↦ rw e (elim (Option-cases (open_block rest r).0) [
    | inl f ↦ rw f tt
    | inr (endian, f) ↦
        rw f (sized_block-IsRound endian (open_block rest r).1 r rest (ground (arith)))
  ])
]

-- What `blocks` promises of the packets and of the end.
abbrev IsRead : Yielded → Type 0
IsRead y = All IsPacket y.packets × (y.ending ≢ stuck)

emit-IsRead :
    (n : ℕ) (p : Option (ℕ × List ℕ)) (r : Reader) (rest : List ℕ) (y : Yielded)
    → IsRound n (goes p r rest)
    → IsRead y
    → IsRead (emit p y)
unfolding emit yield
emit-IsRead n none r rest y h i = i
emit-IsRead n (some p) r rest y h i = ((h.0, i.0), i.1)

finish-IsRead : (r : Reader) → IsRead (finish r)
unfolding finish stop
finish-IsRead r = ground arith

IsRound-shorter :
    (n : ℕ) (p : Option (ℕ × List ℕ)) (r : Reader) (rest : List ℕ)
    → IsRound n (goes p r rest)
    → length rest < n
IsRound-shorter n none r rest h = h
IsRound-shorter n (some p) r rest h = h.1

-- What follows a round.
abbrev after : ℕ → Round → Yielded
after fuel (halts e) = stop (raised e)
after fuel (goes p r rest) = emit p (blocks fuel r rest)

after-IsRead :
    (n fuel : ℕ) (o : Round)
    → IsRound n o
    → ((r : Reader) (rest : List ℕ) → length rest < n → IsRead (blocks fuel r rest))
    → IsRead (after fuel o)
unfolding stop
after-IsRead n fuel (halts e) h i = (tt, ground arith)
after-IsRead n fuel (goes p r rest) h i =
    emit-IsRead n p r rest (blocks fuel r rest) h (i r rest (IsRound-shorter n p r rest h))

blocks-after :
    (fuel : ℕ) (r : Reader) (b : ℕ) (bs : List ℕ)
    → blocks (suc fuel) r (b ∷ bs) ≡ after fuel (next_block r (b ∷ bs))
unfolding blocks
blocks-after fuel r b bs = ground arith

blocks-empty : (fuel : ℕ) (r : Reader) → IsRead (blocks (suc fuel) r [])
unfolding blocks
blocks-empty fuel r = finish-IsRead r

-- Every round takes bytes from the stream.
blocks-IsRead :
    (fuel : ℕ) (r : Reader) (rest : List ℕ) → length rest < fuel → IsRead (blocks fuel r rest)
blocks-IsRead zero r rest h = absurd (omega arith)
blocks-IsRead (suc fuel) r [] h = blocks-empty fuel r
blocks-IsRead (suc fuel) r (b ∷ bs) h = rw (blocks-after fuel r b bs) (
    after-IsRead (length (b ∷ bs)) fuel (next_block r (b ∷ bs)) (next_block-IsRound r (b ∷ bs))
      (λ r' rest l. blocks-IsRead fuel r' rest (omega arith)))

classic-IsRead : (file : List ℕ) → IsRead (classic file)
unfolding classic stop
classic-IsRead file = elim (Option-cases (byte_order file)) [
  | inl e ↦ ground (arith, e)
  | inr (endian, e) ↦ ground (
    arith,
    e,
    length-drop 24 file,
    records-packets (length file) endian (u32 endian file 16) (u32 endian file 20) 24
        (drop 24 file),
    records-ends (length file) endian (u32 endian file 16) (u32 endian file 20) 24 (drop 24 file),
  )
]

-- The reader of a capture file comes to an end on every file, and every packet that it yields is of
-- a link type that the parser understands and of at most a mebibyte.
pub iter_pcap_packets-IsRead :
    (file : List ℕ)
    → All IsPacket (iter_pcap_packets file).packets × ((iter_pcap_packets file).ending ≢ stuck)
unfolding iter_pcap_packets stop
iter_pcap_packets-IsRead file =
    ground
      (arith, classic-IsRead file, blocks-IsRead (suc (length file)) new_reader file (omega arith))
