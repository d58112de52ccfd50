-- ===== src/Packet.antt =====
-- services/stb_discovery_service.py, `_parse_ip`, `_pppoe_ipv4_start`, `_unwrap_ipv4_packet` and
-- `_tcp_segments`: from a captured frame to the IPv4 packet and the TCP payload in it.
-- Where the source keeps an index into the frame, the model keeps the bytes from that index on.
pub mod Bounds
pub mod Frames
use iptv_sniffer_web.Base.{
  ℕ, zero, suc, ◌+◌, ◌-◌, ◌*◌, ◌/◌, ◌%◌, ◌^◌, ◌≤◌, ◌<◌, min, max, String, ◌≡◌, refl, sym, ap, ◌∙◌,
  ◌≢◌, ◌↔◌, ◌⊎◌, inl, inr, Bool, true, false, not, ◌&&◌, ◌||◌, Option, none, some, List, [], ◌∷◌,
  ◌++◌, map, arith, ◌>>=◌, ltb, leb, if◌then◌else◌, Comparable, ◌==◌, nat_eq, string_eq, pair_eq,
  list_eq, Bool-cases, Option-cases, ltb→lt, ltb→le, lt→ltb, le→ltb, leb→le, le→leb, length, get_or,
  get_elem?, take, drop, last_n, length-append, length-take, length-drop, take-append-drop,
  take-append, drop-append, take_all, All, All-append, byte_at, slice, be16, be32, le16, le32,
  IsByte, AreBytes, put_be16, put_be32, put_le16, put_le32,
}

-- `str(b)` for a byte.
unfoldable pub str_byte : ℕ → List ℕ
str_byte b =
    if ltb b 10
    then (48 + b) ∷ []
    else if ltb b 100
    then (48 + b / 10) ∷ (48 + b % 10) ∷ []
    else (48 + b / 100) ∷ (48 + b / 10 % 10) ∷ (48 + b % 10) ∷ []

unfoldable pub join : List ℕ → List (List ℕ) → List ℕ
join sep [] = []
join sep (x ∷ []) = x
join sep (x ∷ y ∷ xs) = x ++ (sep ++ join sep (y ∷ xs))

-- `".".join(str(b) for b in data[off:off+4])`.
unfoldable pub parse_ip : List ℕ → ℕ → List ℕ
parse_ip bs off = join (b'.' ∷ []) (map str_byte (slice bs off (off + 4)))

unfoldable pub hex_digit : ℕ → ℕ
hex_digit n = if ltb n 10 then 48 + n else 87 + n

-- `f"{b:02x}"` for a byte.
unfoldable pub hex_byte : ℕ → List ℕ
hex_byte b = hex_digit (b / 16) ∷ hex_digit (b % 16) ∷ []

unfoldable pub colon_hex : List ℕ → List ℕ
colon_hex bs = join (b':' ∷ []) (map hex_byte bs)

-- `ether_type in _VLAN_ETYPES`.
unfoldable pub is_vlan : ℕ → Bool
is_vlan e = e == 0x8100 || (e == 0x88A8 || e == 0x9100)

-- What the loop over the VLAN tags comes to; `stuck` is out of fuel.
pub data Tags : Type 0 where
  stuck short : Tags
  found : ℕ → List ℕ → ℕ → Tags

-- `rest` is `packet[protocol_pos:]`.
unfoldable pub skip_tags : ℕ → List ℕ → ℕ → Tags
skip_tags zero rest depth = stuck
skip_tags (suc fuel) rest depth =
    let deeper = skip_tags fuel (drop 4 rest) (depth + 1) in
    if is_vlan (be16 rest 0)
    then (if ltb (length (drop 4 rest)) 2 then short else deeper)
    else found (be16 rest 0) (drop 2 rest) depth

pub record Link : Type 0 where
  pub link_layer : String
  pub src_mac : List ℕ
  pub dst_mac : List ℕ
  pub vlan_depth : ℕ
  pub ether_type : ℕ
  pub payload : List ℕ

unfoldable pub untagged : String → ℕ → List ℕ → Link
untagged name e p = record {
  link_layer = name;
  src_mac = [];
  dst_mac = [];
  vlan_depth = 0;
  ether_type = e;
  payload = p;
}

unfoldable pub ethernet : List ℕ → Option Link
ethernet packet =
    if ltb (length packet) 14 then none else elim (skip_tags (length packet) (drop 12 packet) 0) [
      | stuck ↦ none
      | short ↦ none
      | found e p depth ↦ some (record {
        link_layer = "Ethernet";
        src_mac = colon_hex (slice packet 6 12);
        dst_mac = colon_hex (take 6 packet);
        vlan_depth = depth;
        ether_type = e;
        payload = p;
      })
    ]

-- The first part of `_unwrap_ipv4_packet`, by the capture's link type.
unfoldable pub link : ℕ → List ℕ → Option Link
link linktype packet =
    if linktype == 1
    then ethernet packet
    else if linktype == 113
    then (if ltb (length packet) 16
        then none
        else some (untagged "Linux SLL" (be16 packet 14) (drop 16 packet)))
    else if linktype == 276
    then (if ltb (length packet) 20
        then none
        else some (untagged "Linux SLL2" (be16 packet 0) (drop 20 packet)))
    else none

-- `_pppoe_ipv4_start` from the protocol field on.
unfoldable pub ppp_protocol : List ℕ → Option (List ℕ)
ppp_protocol ppp =
    if length ppp == 0
    then none
    else if byte_at ppp 0 % 2 == 1
    then (if byte_at ppp 0 == 0x21 then some (drop 1 ppp) else none)
    else if ltb (length ppp) 2
    then none
    else if be16 ppp 0 == 0x21
    then some (drop 2 ppp)
    else none

-- `_pppoe_ipv4_start`, over the bytes from `payload_start` on.
unfoldable pub pppoe_ipv4_start : List ℕ → Option (List ℕ)
unfolding ppp_protocol
pppoe_ipv4_start p =
    if ltb (length p) 7
    then none
    else if not (byte_at p 0 / 16 == 1) || not (byte_at p 1 == 0)
    then none
    else if ltb (be16 p 4) 1
    then none
    else ppp_protocol (if take 2 (drop 6 p) == 0xFF ∷ 0x03 ∷ [] then drop 8 p else drop 6 p)

-- The encapsulation of the IPv4 packet: whether there is a PPPoE session, and the packet's start.
unfoldable pub ip_start : Link → Option (Bool × List ℕ)
ip_start l =
    if l.ether_type == 0x8864
    then elim (pppoe_ipv4_start l.payload) [ none ↦ none | some ip ↦ some (true, ip) ]
    else if l.ether_type == 0x0800
    then some (false, l.payload)
    else none

-- `(ip[0] & 0x0F) * 4`.
abbrev pub header_length : List ℕ → ℕ
header_length ip = byte_at ip 0 % 16 * 4

-- The checks of the IPv4 header, and the cut at the packet's total length.
unfoldable pub trim_ipv4 : List ℕ → Option (List ℕ)
trim_ipv4 ip =
    if ltb (length ip) 20 || not (byte_at ip 0 / 16 == 4)
    then none
    else if ltb (header_length ip) 20 || ltb (length ip) (header_length ip)
    then none
    else some (if leb (header_length ip) (be16 ip 2) then take (be16 ip 2) ip else ip)

pub record View : Type 0 where
  pub linktype : ℕ
  pub link_layer : String
  pub src_mac : List ℕ
  pub dst_mac : List ℕ
  pub vlan_depth : ℕ
  pub pppoe : Bool
  pub ip : List ℕ

unfoldable pub unwrap_ipv4_packet : ℕ → List ℕ → Option View
unwrap_ipv4_packet linktype packet = do
  l ← link linktype packet
  (tunnelled, start) ← ip_start l
  ip ← trim_ipv4 start
  some (record {
    linktype = linktype;
    link_layer = l.link_layer;
    src_mac = l.src_mac;
    dst_mac = l.dst_mac;
    vlan_depth = l.vlan_depth;
    pppoe = tunnelled;
    ip = ip;
  })
