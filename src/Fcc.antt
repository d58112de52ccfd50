-- ===== src/Fcc.antt =====
-- Fast channel change: services/parsers/fcc.py, `parse_fcc_request`.
pub mod Requests
pub mod Merge
use iptv_sniffer_web.Base.{
  ℕ, zero, suc, ◌+◌, ◌-◌, ◌*◌, ◌/◌, ◌%◌, ◌^◌, ◌≤◌, ◌<◌, min, max, String, ◌≡◌, refl, sym, ap, ◌∙◌,
  ◌≢◌, ◌↔◌, ◌⊎◌, inl, inr, Bool, true, false, not, ◌&&◌, ◌||◌, Option, none, some, List, [], ◌∷◌,
  ◌++◌, map, arith, ◌>>=◌, >>=-eq-some, ltb, leb, if◌then◌else◌, Comparable, ◌==◌, nat_eq,
  string_eq, pair_eq, list_eq, Bool-cases, Option-cases, ltb→lt, ltb→le, lt→ltb, le→ltb, leb→le,
  le→leb, length, get_or, get_elem?, take, drop, last_n, length-append, length-take, length-drop,
  take-append-drop, take-append, drop-append, take_all, get_or-append, All, All-append, byte_at,
  slice, be16, be32, le16, le32, IsByte, AreBytes, put_be16, put_be32, put_le16, put_le32,
}
use iptv_sniffer_web.Base.Dict.{Dict, lookup}
use iptv_sniffer_web.Packet.{parse_ip}

pub data Protocol : Type 0 where
  telecom huawei : Protocol

pub record Request : Type 0 where
  pub ip : List ℕ
  pub port : ℕ
  pub fcc_protocol : Protocol

-- `ipaddress.IPv4Address(…).is_multicast`, by the first byte: 224.0.0.0/4.
unfoldable pub is_multicast : ℕ → Bool
is_multicast b = leb 224 b && leb b 239

-- The last test of `parse_fcc_request`, for the group whose four bytes start at `off`.
unfoldable pub accept : List ℕ → ℕ → ℕ → Protocol → Option Request
unfolding is_multicast
accept payload off port protocol =
    if is_multicast (byte_at payload off) && (leb 1 port && leb port 65535)
    then some (record { ip = parse_ip payload off; port = port; fcc_protocol = protocol })
    else none

-- Huawei's request carries no port: the channel table must give exactly one.
unfoldable pub only_port : Option (List ℕ) → Option ℕ
only_port (some (p ∷ [])) = some p
only_port (some _) = none
only_port none = none

-- `(int.from_bytes(payload[2:4], "big") + 1) * 4`.
abbrev pub rtcp_size : List ℕ → ℕ
rtcp_size payload = (be16 payload 2 + 1) * 4

-- A set of ports is a list without repetitions.
unfoldable pub parse_fcc_request : List ℕ → Dict (List ℕ) (List ℕ) → Option Request
unfolding accept
parse_fcc_request payload channel_ports =
    if ltb (length payload) 12
      || (not (byte_at payload 0 / 64 == 2) || not (byte_at payload 1 == 205))
    then none
    else if ltb (length payload) (rtcp_size payload)
        || (ltb (rtcp_size payload) 12 || byte_at payload 0 / 32 % 2 == 1)
    then none
    else if byte_at payload 0 % 32 == 2 && leb 40 (rtcp_size payload)
    then accept payload 20 (be16 payload 18) telecom
    else if byte_at payload 0 % 32 == 5 && rtcp_size payload == 32
    then (elim (only_port (lookup (parse_ip payload 8) channel_ports)) [
      | none ↦ none
      | some port ↦ accept payload 8 port huawei
    ])
    else none
