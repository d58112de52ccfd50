-- ===== src/Packet/Frames.antt =====
-- Frames as a sender lays them out, and what decoding gives back.
use iptv_sniffer_web.Base.{
  ℕ, zero, suc, ◌+◌, ◌*◌, ◌/◌, ◌%◌, ◌≤◌, ◌<◌, ◌≡◌, refl, ◌⊎◌, Bool, true, false, some, List, [],
  ◌∷◌, ◌++◌, arith, nat_eq, string_eq, pair_eq, list_eq, length, length-append, take-append,
  get_or-append, All, be16,
}
use iptv_sniffer_web.Packet.{
  found, skip_tags, is_vlan, colon_hex, ppp_protocol, pppoe_ipv4_start, link, ethernet, ip_start,
  trim_ipv4, unwrap_ipv4_packet,
}
use iptv_sniffer_web.Packet.Bounds.{IsIpv4}

-- A hardware address.
pub record Mac : Type 0 where
  pub b0 : ℕ
  pub b1 : ℕ
  pub b2 : ℕ
  pub b3 : ℕ
  pub b4 : ℕ
  pub b5 : ℕ

abbrev pub mac_bytes : Mac → List ℕ
mac_bytes m = m.b0 ∷ m.b1 ∷ m.b2 ∷ m.b3 ∷ m.b4 ∷ m.b5 ∷ []

-- VLAN tags: a protocol identifier and the tag's control bytes.
abbrev pub tag_bytes : List (ℕ × ℕ) → List ℕ
tag_bytes [] = []
tag_bytes ((tpid, tci) ∷ ts) =
    tpid / 256 % 256 ∷ tpid % 256 ∷ tci / 256 % 256 ∷ tci % 256 ∷ tag_bytes ts

abbrev pub IsTag : ℕ × ℕ → Type 0
IsTag t = (t.0 ≡ 0x8100) ⊎ ((t.0 ≡ 0x88A8) ⊎ (t.0 ≡ 0x9100))

-- What stands between the Ethernet header and the IPv4 packet.
pub data Carrier : Type 0 where
  plain : Carrier
  -- The session's number and declared length, whether the address and control bytes are there,
  -- and whether the protocol field is compressed.
  session : ℕ → ℕ → Bool → Bool → Carrier

abbrev pub IsCarrier : Carrier → Type 0
IsCarrier plain = Unit {0}
IsCarrier (session number declared address compressed) = (0 < declared) × (declared < 65536)

abbrev pub ppp_bytes : Bool → Bool → List ℕ → List ℕ
ppp_bytes true true ip = 0xFF ∷ 0x03 ∷ 0x21 ∷ ip
ppp_bytes true false ip = 0xFF ∷ 0x03 ∷ 0 ∷ 0x21 ∷ ip
ppp_bytes false true ip = 0x21 ∷ ip
ppp_bytes false false ip = 0 ∷ 0x21 ∷ ip

abbrev pub carry : Carrier → List ℕ → List ℕ
carry plain ip = 0x08 ∷ 0x00 ∷ ip
carry (session number declared address compressed) ip =
    0x88
    ∷ 0x64
    ∷ 0x11
    ∷ 0
    ∷ number / 256 % 256
    ∷ number % 256
    ∷ declared / 256 % 256
    ∷ declared % 256
    ∷ ppp_bytes address compressed ip

abbrev pub tunnelled : Carrier → Bool
tunnelled plain = false
tunnelled (session number declared address compressed) = true

abbrev pub frame : Mac → Mac → List (ℕ × ℕ) → Carrier → List ℕ → List ℕ
frame dst src ts c ip = mac_bytes dst ++ (mac_bytes src ++ (tag_bytes ts ++ carry c ip))

-- A whole IPv4 packet: its header is there, and its total length is its length.
pub record IsWhole (ip : List ℕ) : Type 0 where
  pub ipv4 : IsIpv4 ip
  pub total : be16 ip 2 ≡ length ip

skip_tags-tag_bytes :
    (fuel : ℕ) (ts : List (ℕ × ℕ)) (x y : ℕ) (p : List ℕ) (depth : ℕ)
    → length ts < fuel
    → All IsTag ts
    → is_vlan (x * 256 + y) ≡ false
    → skip_tags fuel (tag_bytes ts ++ x ∷ y ∷ p) depth ≡ found (x * 256 + y) p (depth + length ts)
unfolding skip_tags is_vlan
skip_tags-tag_bytes zero ts x y p depth h tags e = absurd (omega arith)
skip_tags-tag_bytes (suc fuel) [] x y p depth h tags e = ground arith
skip_tags-tag_bytes (suc fuel) ((tpid, tci) ∷ ts) x y p depth h tags e = ground (
  arith,
  length-append (tag_bytes ts) (x ∷ y ∷ p),
  skip_tags-tag_bytes fuel ts x y p (depth + 1) (omega arith) tags.1 e,
)

trim_ipv4-append : (ip pad : List ℕ) → IsWhole ip → trim_ipv4 (ip ++ pad) ≡ some ip
unfolding trim_ipv4
trim_ipv4-append ip pad w = ground (
  arith,
  get_or-append ip pad 0 0,
  get_or-append ip pad 2 0,
  get_or-append ip pad 3 0,
  length-append ip pad,
  take-append (be16 ip 2) ip pad,
)

length-tag_bytes : (ts : List (ℕ × ℕ)) → length (tag_bytes ts) ≡ 4 * length ts
length-tag_bytes [] = omega arith
length-tag_bytes (t ∷ ts) = omega (arith, length-tag_bytes ts)

-- The link layer of a frame: both addresses, the number of tags, and the carried protocol.
ethernet-frame :
    (dst src : Mac) (ts : List (ℕ × ℕ)) (x y : ℕ) (p : List ℕ)
    → All IsTag ts
    → is_vlan (x * 256 + y) ≡ false
    → ethernet (mac_bytes dst ++ (mac_bytes src ++ (tag_bytes ts ++ x ∷ y ∷ p)))
      ≡ some (record {
        link_layer = "Ethernet";
        src_mac = colon_hex (mac_bytes src);
        dst_mac = colon_hex (mac_bytes dst);
        vlan_depth = length ts;
        ether_type = x * 256 + y;
        payload = p;
      })
unfolding ethernet
ethernet-frame dst src ts x y p tags e = ground (
  arith,
  length-append (tag_bytes ts) (x ∷ y ∷ p),
  length-tag_bytes ts,
  skip_tags-tag_bytes (length (mac_bytes dst ++ (mac_bytes src ++ (tag_bytes ts ++ x ∷ y ∷ p)))) ts
      x y p 0,
  tags,
  e,
)

ppp_bytes-start :
    (number declared : ℕ) (address compressed : Bool) (ip : List ℕ)
    → 0 < declared
    → declared < 65536
    → 20 ≤ length ip
    → pppoe_ipv4_start (
        0x11
        ∷ 0
        ∷ number / 256 % 256
        ∷ number % 256
        ∷ declared / 256 % 256
        ∷ declared % 256
        ∷ ppp_bytes address compressed ip)
      ≡ some ip
unfolding pppoe_ipv4_start
ppp_bytes-start number declared true true ip h k l = ground arith
ppp_bytes-start number declared true false ip h k l = ground arith
ppp_bytes-start number declared false true ip h k l = ground arith
ppp_bytes-start number declared false false ip h k l = ground arith

-- Decoding an Ethernet frame gives back the IPv4 packet that was framed, byte for byte and without
-- the padding, through any number of VLAN tags and any form of PPPoE session, with both addresses
-- and the depth of tags; no other packet is made up.
pub unwrap_ipv4_packet-frame :
    (dst src : Mac) (ts : List (ℕ × ℕ)) (c : Carrier) (ip pad : List ℕ)
    → All IsTag ts
    → IsCarrier c
    → IsWhole ip
    → unwrap_ipv4_packet 1 (frame dst src ts c (ip ++ pad))
      ≡ some (record {
        linktype = 1;
        link_layer = "Ethernet";
        src_mac = colon_hex (mac_bytes src);
        dst_mac = colon_hex (mac_bytes dst);
        vlan_depth = length ts;
        pppoe = tunnelled c;
        ip = ip;
      })
unfolding unwrap_ipv4_packet link ip_start is_vlan ppp_protocol
unwrap_ipv4_packet-frame dst src ts plain ip pad tags ok w =
    rw (ethernet-frame dst src ts 8 0 (ip ++ pad) tags refl, trim_ipv4-append ip pad w)
unwrap_ipv4_packet-frame dst src ts (session n d a z) ip pad tags ok w = rw (
  ethernet-frame dst src ts 0x88 0x64 _ tags refl,
  ppp_bytes-start n d a z (ip ++ pad) ok.0 ok.1 (omega (arith, length-append ip pad)),
  trim_ipv4-append ip pad w,
)
