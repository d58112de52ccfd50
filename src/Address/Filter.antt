-- ===== src/Address/Filter.antt =====
-- A written address is read back, and which streams pass the filter.
use iptv_sniffer_web.Base.{
  ℕ, ◌≤◌, ◌<◌, ◌≡◌, refl, ap, ◌∙◌, ◌≢◌, ◌↔◌, Bool, true, false, not, some, [], ◌∷◌, ◌++◌, arith,
  ltb, nat_eq, string_eq, pair_eq, list_eq, All, Text, str_nat, digits_value-str_nat,
}
use iptv_sniffer_web.Base.Numerals.{IsDigit, str_nat-digits, str_nat-IsShort}
use iptv_sniffer_web.Address.{
  cons_first, split_on, Ip, octet, octets, four, parse_ipv4, is_multicast, noise_hosts, noise_ports,
  is_noise_host, same_ip, is_noise_port, is_link_local, keeps, ip_reason,
  stream_static_filter_reason, stream_filter_reason, is_probable_iptv_stream,
}

-- What stands before a separator that it does not hold is the first part.
pub split_on-append :
    (sep : ℕ) (xs ys : Text)
    → sep < 48
    → All IsDigit xs
    → split_on sep (xs ++ sep ∷ ys) ≡ xs ∷ split_on sep ys
unfolding split_on cons_first
split_on-append sep [] ys h a = ground arith
split_on-append sep (x ∷ xs) ys h a = rw (split_on-append sep xs ys h a.1) (ground arith)

pub split_on_none : (sep : ℕ) (xs : Text) → sep < 48 → All IsDigit xs → split_on sep xs ≡ xs ∷ []
unfolding split_on cons_first
split_on_none sep [] h a = ground arith
split_on_none sep (x ∷ xs) h a = rw (split_on_none sep xs h a.1) (ground arith)

pub octet-str_nat : (n : ℕ) → n < 256 → octet (str_nat n) ≡ some n
unfolding octet
octet-str_nat n h =
    let s = str_nat-IsShort n (omega arith) in
    rw (octet, digits_value-str_nat n) (ground (arith, s.0, s.1, s.2))

abbrev pub join_dots : Text → Text → Text → Text → Text
join_dots a b c d = a ++ 46 ∷ (b ++ 46 ∷ (c ++ 46 ∷ d))

split_on-join_dots :
    (a b c d : Text)
    → All IsDigit a
    → All IsDigit b
    → All IsDigit c
    → All IsDigit d
    → split_on 46 (join_dots a b c d) ≡ a ∷ b ∷ c ∷ d ∷ []
split_on-join_dots a b c d ha hb hc hd =
    split_on-append 46 a (b ++ 46 ∷ (c ++ 46 ∷ d)) (omega arith) ha
    ∙ ap (◌∷◌ a) (
        split_on-append 46 b (c ++ 46 ∷ d) (omega arith) hb
        ∙ ap (◌∷◌ b) (
            split_on-append 46 c d (omega arith) hc
            ∙ ap (◌∷◌ c) (split_on_none 46 d (omega arith) hd)))

octets-octet :
    (u v w x : Text) (a b c d : ℕ)
    → octet u ≡ some a
    → octet v ≡ some b
    → octet w ≡ some c
    → octet x ≡ some d
    → octets (u ∷ v ∷ w ∷ x ∷ []) ≡ some (a ∷ b ∷ c ∷ d ∷ [])
unfolding octets
octets-octet u v w x a b c d p q r s = rw (p, q, r, s) refl

abbrev pub dotted : ℕ → ℕ → ℕ → ℕ → Text
dotted a b c d = join_dots (str_nat a) (str_nat b) (str_nat c) (str_nat d)

pub parse_ipv4-dotted :
    (a b c d : ℕ)
    → a < 256
    → b < 256
    → c < 256
    → d < 256
    → parse_ipv4 (dotted a b c d) ≡ some (a, b, c, d)
unfolding parse_ipv4
parse_ipv4-dotted a b c d ha hb hc hd =
    rw
      (
        parse_ipv4,
        split_on-join_dots (str_nat a) (str_nat b) (str_nat c) (str_nat d) (str_nat-digits a)
            (str_nat-digits b) (str_nat-digits c) (str_nat-digits d),
        octets-octet (str_nat a) (str_nat b) (str_nat c) (str_nat d) a b c d (octet-str_nat a ha)
            (octet-str_nat b hb) (octet-str_nat c hc) (octet-str_nat d hd),
      )
      (unfold four in refl)

-- A stream that is kept: multicast, outside 224.0.0.0/24, not SSDP's group or port nor another
-- discovery port, and with packets enough.
pub record IsStream (a b c d port packets min_packets : ℕ) : Type 0 where
  pub multicast : (224 ≤ a) × (a ≤ 239)
  pub not_local : (a ≡ 224) → (b ≡ 0) → c ≢ 0
  pub not_ssdp : (a ≡ 239) → (b ≡ 255) → (c ≡ 255) → d ≢ 250
  pub port_free : (port ≢ 1900) × (port ≢ 3702) × (port ≢ 5353) × (port ≢ 5355)
  pub enough : min_packets ≤ packets

-- The test, once the address is parsed.
abbrev passes : Ip → ℕ → ℕ → ℕ → Bool
passes ip port packets min_packets = elim (ip_reason ip port) [
  | keeps ↦ not (ltb packets min_packets)
  | _ ↦ false
]

is_probable_iptv_stream-ip :
    (is_ipv6 : Text → Bool) (host : Text) (port packets min_packets : ℕ) (ip : Ip)
    → parse_ipv4 host ≡ some ip
    → is_probable_iptv_stream is_ipv6 host port packets min_packets
      ≡ passes ip port packets min_packets
unfolding is_probable_iptv_stream stream_filter_reason stream_static_filter_reason
is_probable_iptv_stream-ip is_ipv6 host port packets min_packets ip e = ground (arith, e)

passes-IsStream :
    (a b c d port packets min_packets : ℕ)
    → (passes (a, b, c, d) port packets min_packets ≡ true)
      ↔ IsStream a b c d port packets min_packets
unfolding ip_reason is_multicast is_noise_host is_noise_port same_ip is_link_local noise_hosts
    noise_ports
passes-IsStream a b c d port packets min_packets = (
  λ h. record {
    multicast = ground arith;
    not_local = ground arith;
    not_ssdp = ground arith;
    port_free = ground arith;
    enough = ground arith;
  },
  λ s. ground (arith, s.multicast, s.not_local, s.not_ssdp, s.port_free, s.enough),
)

-- A stream whose host is written as four octets, with any port, is taken for a television channel
-- exactly if it is a stream to keep in the words of `IsStream`, however IPv6 is recognised.
pub is_probable_iptv_stream-dotted :
    (is_ipv6 : Text → Bool) (a b c d port packets min_packets : ℕ)
    → a < 256
    → b < 256
    → c < 256
    → d < 256
    → (is_probable_iptv_stream is_ipv6 (dotted a b c d) port packets min_packets ≡ true)
      ↔ IsStream a b c d port packets min_packets
is_probable_iptv_stream-dotted is_ipv6 a b c d port packets min_packets ha hb hc hd =
    rw
      (is_probable_iptv_stream-ip is_ipv6 (dotted a b c d) port packets min_packets (a, b, c, d)
        (parse_ipv4-dotted a b c d ha hb hc hd))
      (passes-IsStream a b c d port packets min_packets)
