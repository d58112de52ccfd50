-- ===== src/Address.antt =====
-- utils.py: which addresses are IPv4 multicast, and why a stream is no television channel. An IPv4
-- address is what `ipaddress` reads: four decimal octets without leading zeros. Whether a text is an
-- IPv6 address is the parameter `is_ipv6`, since it decides only between two refusals.
pub mod Filter
use iptv_sniffer_web.Base.{
  ℕ, zero, suc, ◌+◌, ◌-◌, ◌*◌, ◌/◌, ◌%◌, ◌^◌, ◌≤◌, ◌<◌, min, max, String, ◌≡◌, refl, sym, ap, ◌∙◌,
  ◌≢◌, ◌↔◌, ◌⊎◌, inl, inr, Bool, true, false, not, ◌&&◌, ◌||◌, Option, none, some, List, [], ◌∷◌,
  ◌++◌, map, arith, ◌>>=◌, >>=-eq-some, ltb, leb, if◌then◌else◌, ◌==◌, nat_eq, string_eq, pair_eq,
  list_eq, Bool-cases, Option-cases, ltb→lt, ltb→le, lt→ltb, le→ltb, leb→le, le→leb, length, get_or,
  get_elem?, take, drop, last_n, length-append, length-take, length-drop, take-append-drop,
  take-append, drop-append, take_all, take-append_le, drop-append_le, slice-append, get_or-append,
  All, All-append, byte_at, slice, be16, be32, le16, le32, IsByte, AreBytes, put_be16, put_be32,
  put_le16, put_le32, ==_iff, ==_refl, Text, str_nat, is_digit, digits_value, digits_value-str_nat,
}

-- `value.split(sep)`.
unfoldable pub cons_first : ℕ → List Text → List Text
cons_first c [] = (c ∷ []) ∷ []
cons_first c (w ∷ ws) = (c ∷ w) ∷ ws

unfoldable pub split_on : ℕ → Text → List Text
split_on sep [] = [] ∷ []
split_on sep (c ∷ cs) =
    let rest = split_on sep cs in if c == sep then [] ∷ rest else cons_first c rest

abbrev pub Ip : Type 0
Ip = ℕ × ℕ × ℕ × ℕ

-- One octet: at most three digits, no leading zero, at most 255.
unfoldable pub octet : Text → Option ℕ
octet w = elim (digits_value 0 w) [
  | none ↦ none
  | some n ↦
      if length w == 0
        || (ltb 3 (length w) || (ltb 1 (length w) && get_or w 0 0 == 48 || ltb 255 n))
      then none
      else some n
]

unfoldable pub octets : List Text → Option (List ℕ)
octets [] = some []
octets (w ∷ ws) = let rest = octets ws in octet w >>= λ n. rest >>= λ ns. some (n ∷ ns)

unfoldable pub four : List ℕ → Option Ip
four (a ∷ b ∷ c ∷ d ∷ []) = some (a, b, c, d)
four ns = none

unfoldable pub parse_ipv4 : Text → Option Ip
parse_ipv4 value = octets (split_on 46 value) >>= four

-- `IPv4Address.is_multicast`: 224.0.0.0/4.
unfoldable pub is_multicast : Ip → Bool
is_multicast (a, b, c, d) = leb 224 a && leb a 239

unfoldable pub valid_ipv4_multicast : Text → Bool
valid_ipv4_multicast value = elim (parse_ipv4 value) [ none ↦ false | some ip ↦ is_multicast ip ]

unfoldable pub noise_hosts : List Ip
noise_hosts =
    (224, 0, 0, 1)
    ∷ (224, 0, 0, 2)
    ∷ (224, 0, 0, 22)
    ∷ (224, 0, 0, 251)
    ∷ (224, 0, 0, 252)
    ∷ (239, 255, 255, 250)
    ∷ []

unfoldable pub noise_ports : List ℕ
noise_ports = 1900 ∷ 3702 ∷ 5353 ∷ 5355 ∷ []

unfoldable pub same_ip : Ip → Ip → Bool
same_ip (a, b, c, d) (a', b', c', d') = a == a' && (b == b' && (c == c' && d == d'))

unfoldable pub is_noise_host : Ip → List Ip → Bool
is_noise_host ip [] = false
is_noise_host ip (h ∷ hs) = same_ip h ip || is_noise_host ip hs

unfoldable pub is_noise_port : ℕ → List ℕ → Bool
is_noise_port port [] = false
is_noise_port port (p ∷ ps) = p == port || is_noise_port port ps

-- `ip in ip_network("224.0.0.0/24")`.
unfoldable pub is_link_local : Ip → Bool
is_link_local (a, b, c, d) = a == 224 && (b == 0 && c == 0)

-- The texts that name why a stream is filtered out; `keeps` is the empty one.
pub data Reason : Type 0 where
  keeps invalid_address not_multicast discovery_host link_local discovery_port too_few : Reason

-- The reasons that a parsed address and the port give, in the source's order.
unfoldable pub ip_reason : Ip → ℕ → Reason
ip_reason ip port =
    if not (is_multicast ip)
    then not_multicast
    else if is_noise_host ip noise_hosts
    then discovery_host
    else if is_link_local ip
    then link_local
    else if is_noise_port port noise_ports
    then discovery_port
    else keeps

unfoldable pub stream_static_filter_reason : (Text → Bool) → Text → ℕ → Reason
stream_static_filter_reason is_ipv6 host port = elim (parse_ipv4 host) [
  | none ↦ if is_ipv6 host then not_multicast else invalid_address
  | some ip ↦ ip_reason ip port
]

unfoldable pub stream_filter_reason : (Text → Bool) → Text → ℕ → ℕ → ℕ → Reason
stream_filter_reason is_ipv6 host port packets min_packets =
    elim (stream_static_filter_reason is_ipv6 host port) [
      | keeps ↦ if ltb packets min_packets then too_few else keeps
      | reason ↦ reason
    ]

unfoldable pub is_probable_iptv_stream : (Text → Bool) → Text → ℕ → ℕ → ℕ → Bool
is_probable_iptv_stream is_ipv6 host port packets min_packets =
    elim (stream_filter_reason is_ipv6 host port packets min_packets) [ keeps ↦ true | _ ↦ false ]
