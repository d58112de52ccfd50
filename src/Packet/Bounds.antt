-- ===== src/Packet/Bounds.antt =====
-- The VLAN loop always ends, and what a decoded frame is known to be.
use iptv_sniffer_web.Base.{
  ℕ, zero, suc, ◌+◌, ◌/◌, ◌≤◌, ◌<◌, ◌≡◌, refl, ◌≢◌, some, List, [], ◌∷◌, ◌++◌, arith, >>=-eq-some,
  nat_eq, string_eq, pair_eq, list_eq, length, take, drop, length-take, length-drop, slice-append,
  byte_at, be16,
}
use iptv_sniffer_web.Packet.{
  parse_ip, stuck, skip_tags, link, ip_start, trim_ipv4, header_length, View, unwrap_ipv4_packet,
}

-- Each round drops four bytes, so as many rounds as bytes are enough.
pub skip_tags-ne-stuck :
    (fuel : ℕ) (rest : List ℕ) (depth : ℕ) → length rest < fuel → skip_tags fuel rest depth ≢ stuck
unfolding skip_tags
skip_tags-ne-stuck zero rest depth h = absurd (omega arith)
skip_tags-ne-stuck (suc fuel) rest depth h =
    ground (arith, length-drop 4 rest, skip_tags-ne-stuck fuel (drop 4 rest) (depth + 1))

-- An IPv4 header whose options are all there.
pub record IsIpv4 (ip : List ℕ) : Type 0 where
  pub version : byte_at ip 0 / 16 ≡ 4
  pub header : 20 ≤ header_length ip
  pub whole : header_length ip ≤ length ip

-- The text of an address depends on its four bytes alone.
pub parse_ip-append :
    (bs cs : List ℕ) (off : ℕ) → off + 4 ≤ length bs → parse_ip (bs ++ cs) off ≡ parse_ip bs off
unfolding parse_ip
parse_ip-append bs cs off h = rw (slice-append bs cs off (off + 4) (omega arith) h)

byte_at-take : (n : ℕ) (bs : List ℕ) → 0 < n → byte_at (take n bs) 0 ≡ byte_at bs 0
byte_at-take zero bs h = absurd (omega arith)
byte_at-take (suc n) [] h = refl
byte_at-take (suc n) (x ∷ bs) h = refl

pub trim_ipv4-IsIpv4 : (start : List ℕ) {ip : List ℕ} → trim_ipv4 start ≡ some ip → IsIpv4 ip
unfolding trim_ipv4
trim_ipv4-IsIpv4 start h =
    ground (arith, byte_at-take (be16 start 2) start, length-take (be16 start 2) start)

-- Whatever frame is captured, on whatever link, a decoded packet has IPv4's version and a whole
-- header of at least twenty bytes, so that the later reads of the header stay inside it.
unwrap_ipv4_packet-IsIpv4 :
    (linktype : ℕ) (packet : List ℕ) (v : View)
    → unwrap_ipv4_packet linktype packet ≡ some v
    → IsIpv4 v.ip
unfolding unwrap_ipv4_packet
unwrap_ipv4_packet-IsIpv4 linktype packet v h =
    let (l, _, h1) = >>=-eq-some (link linktype packet) _ h in
    let (s, _, h2) = >>=-eq-some (ip_start l) _ h1 in
    let (ip, trimmed, h3) = >>=-eq-some (trim_ipv4 s.1) _ h2 in
    let same : ip ≡ v.ip = cc h3 in rw (← same) (trim_ipv4-IsIpv4 s.1 trimmed)
