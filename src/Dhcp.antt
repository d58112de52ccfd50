-- ===== src/Dhcp.antt =====
-- services/stb_discovery_service.py, `_parse_dhcp_options`, `_parse_dhcp_packet`, the transactions of
-- `_extract_dhcp_from_pcap` and `_capture_identity`: which set-top box a capture belongs to. The
-- options that are only shown (names, vendor texts) are left out of the result.
pub mod Lease
pub mod Options
pub mod Owner
use iptv_sniffer_web.Base.{
  ℕ, zero, suc, ◌+◌, ◌-◌, ◌*◌, ◌/◌, ◌%◌, ◌^◌, ◌≤◌, ◌<◌, min, max, String, ◌≡◌, refl, sym, ap, ◌∙◌,
  ◌≢◌, ◌↔◌, ◌⊎◌, inl, inr, Bool, true, false, not, ◌&&◌, ◌||◌, Option, none, some, List, [], ◌∷◌,
  ◌++◌, map, arith, ◌>>=◌, >>=-eq-some, ltb, leb, if◌then◌else◌, Comparable, ◌==◌, nat_eq,
  string_eq, pair_eq, list_eq, Bool-cases, Option-cases, ltb→lt, ltb→le, lt→ltb, le→ltb, leb→le,
  le→leb, length, get_or, get_elem?, take, drop, last_n, length-append, length-take, length-drop,
  take-append-drop, take-append, drop-append, take_all, take-append_le, drop-append_le,
  slice-append, get_or-append, All, All-append, byte_at, slice, be16, be32, le16, le32, IsByte,
  AreBytes, put_be16, put_be32, put_le16, put_le32, ==_iff, ==_refl, Text, str_nat, is_digit,
  digits_value, digits_value-str_nat,
}
use iptv_sniffer_web.Base.Dict.{Dict, lookup, insert}
use iptv_sniffer_web.Packet.{parse_ip, colon_hex, header_length, View}

-- The loop of `_parse_dhcp_options`; the fuel is the number of bytes.
unfoldable pub options_loop : ℕ → Dict ℕ (List ℕ) → List ℕ → Dict ℕ (List ℕ)
options_loop zero opts rest = opts
options_loop (suc fuel) opts [] = opts
options_loop (suc fuel) opts (code ∷ rest) =
    let size = byte_at rest 0 in
    let padded = options_loop fuel opts rest in
    let more =
      options_loop fuel (insert code (take size (drop 1 rest)) opts) (drop (suc size) rest) in
    if code == 0
    then padded
    else if code == 255 || (length rest == 0 || ltb (length rest) (suc size))
    then opts
    else more

unfoldable pub parse_dhcp_options : List ℕ → Dict ℕ (List ℕ)
parse_dhcp_options bs = options_loop (length bs) [] bs

pub record Message : Type 0 where
  pub op : ℕ
  pub xid : ℕ
  pub yiaddr : Text
  pub mac : Text
  pub ciaddr : Text
  pub msg_type : ℕ
  pub options : Dict ℕ (List ℕ)
  pub observed_order : ℕ

-- `(options.get(53) or b"\x00")[0]`.
unfoldable pub message_type : Dict ℕ (List ℕ) → ℕ
message_type options = elim (lookup 53 options) [ none ↦ 0 | some v ↦ byte_at v 0 ]

-- `_parse_dhcp_packet`, with the packet's place in the capture.
unfoldable pub parse_dhcp_packet : ℕ → List ℕ → Option Message
unfolding message_type
parse_dhcp_packet order payload =
    let hlen = min (byte_at payload 2) 16 in
    let options = parse_dhcp_options (drop 240 payload) in
    if ltb (length payload) 240
    then none
    else if not (slice payload 236 240 == 0x63 ∷ 0x82 ∷ 0x53 ∷ 0x63 ∷ [])
    then none
    else some (record {
      op = byte_at payload 0;
      xid = be32 payload 4;
      yiaddr = parse_ip payload 16;
      mac = if leb 6 hlen then colon_hex (slice payload 28 (28 + hlen)) else [];
      ciaddr = parse_ip payload 12;
      msg_type = message_type options;
      options = options;
      observed_order = order;
    })

abbrev pub is_dhcp_port : ℕ → Bool
is_dhcp_port p = p == 67 || p == 68

-- The part of the loop up to the test of the address: a DHCP message of an IPv4 packet.
unfoldable pub message_of : ℕ → List ℕ → Option Message
message_of order ip =
    let udp = drop (header_length ip) ip in
    if ltb (length ip) 20 || not (byte_at ip 9 == 17)
    then none
    else if ltb (length udp) 8 || not (is_dhcp_port (be16 udp 0) || is_dhcp_port (be16 udp 2))
    then none
    else parse_dhcp_packet order (drop 8 udp)

-- A transaction is told apart by its number and the client's address.
abbrev pub Exchange : Type 0
Exchange = ℕ × Text

pub record Exchanges : Type 0 where
  pub requests : Dict Exchange Message
  pub responses : Dict Exchange Message

-- `if not previous or …`.
unfoldable pub keep : Bool → Exchange → Message → Dict Exchange Message → Dict Exchange Message
keep wins xid m d = elim (lookup xid d) [
  | none ↦ insert xid m d
  | some previous ↦ if wins then insert xid m d else d
]

unfoldable pub record_message : Text → Message → Exchanges → Exchanges
unfolding keep
record_message stb_mac m s =
    let xid : Exchange = (m.xid, m.mac) in
    if not (length stb_mac == 0) && not (m.mac == stb_mac)
    then s
    else if m.op == 1
    then record s { requests = keep (m.msg_type == 3) xid m s.requests }
    else if m.op == 2
    then record s { responses = keep (m.msg_type == 5 || m.msg_type == 6) xid m s.responses }
    else s

unfoldable pub record_messages : ℕ → Text → List View → Exchanges → Exchanges
record_messages order stb_mac [] s = s
record_messages order stb_mac (v ∷ vs) s = elim (message_of order v.ip) [
  | none ↦ record_messages (order + 1) stb_mac vs s
  | some m ↦ record_messages (order + 1) stb_mac vs (record_message stb_mac m s)
]

abbrev pub zero_ip : Text
zero_ip = b'0' ∷ b'.' ∷ b'0' ∷ b'.' ∷ b'0' ∷ b'.' ∷ b'0' ∷ []

-- `".".join(str(b) for b in requested)` of option 50.
unfoldable pub requested_ip : Dict ℕ (List ℕ) → Text
requested_ip options = elim (lookup 50 options) [
  | none ↦ []
  | some v ↦ if length v == 4 then parse_ip v 0 else []
]

unfoldable pub or_else : Text → Text → Text
or_else [] other = other
or_else (c ∷ cs) other = c ∷ cs

-- The address that the exchange is about.
unfoldable pub known_ip : Message → Option Message → Text
known_ip req none = or_else (requested_ip req.options) req.ciaddr
known_ip req (some resp) =
    if length resp.yiaddr == 0 || resp.yiaddr == zero_ip
    then or_else (requested_ip req.options) req.ciaddr
    else resp.yiaddr

-- `resp["msg_type"] == 6`, or another terminal's address.
unfoldable pub is_candidate : Text → Text → Message → Option Message → Bool
is_candidate stb_ip stb_mac req resp =
    not (elim resp [ none ↦ false | some r ↦ r.msg_type == 6 ])
    && not (length stb_mac == 0 && (not (length stb_ip == 0) && not (known_ip req resp == stb_ip)))

unfoldable pub candidates :
    Text → Text → Dict Exchange Message → Dict Exchange Message → List (Message × Option Message)
candidates stb_ip stb_mac responses [] = []
candidates stb_ip stb_mac responses ((xid, req) ∷ rest) =
    let found = lookup xid responses in
    let more = candidates stb_ip stb_mac responses rest in
    if is_candidate stb_ip stb_mac req found then (req, found) ∷ more else more

-- `len({req["mac"] for req, _ in candidates}) != 1`.
unfoldable pub same_mac : Text → List (Message × Option Message) → Bool
same_mac mac [] = true
same_mac mac ((req, resp) ∷ rest) = req.mac == mac && same_mac mac rest

-- The key of `max`: confirmed by the server, then the later.
unfoldable pub rank : Message × Option Message → ℕ × ℕ
rank (req, none) = (0, req.observed_order)
rank (req, some resp) = (if resp.msg_type == 5 then 1 else 0, resp.observed_order)

unfoldable pub outranks : ℕ × ℕ → ℕ × ℕ → Bool
outranks (a, b) (c, d) = ltb c a || (a == c && ltb d b)

unfoldable pub best_of :
    Message × Option Message → List (Message × Option Message) → Message × Option Message
best_of best [] = best
best_of best (c ∷ cs) = best_of (if outranks (rank c) (rank best) then c else best) cs

-- The result's first fields.
pub record Identity : Type 0 where
  pub mac : Text
  pub assigned_ip : Text
  pub lease_confirmed : Bool

unfoldable pub assigned : Option Message → Text
assigned none = []
assigned (some resp) = if resp.yiaddr == zero_ip then [] else resp.yiaddr

unfoldable pub confirmed : Option Message → Bool
unfolding assigned
confirmed none = false
confirmed (some resp) = resp.msg_type == 5 && not (length (assigned (some resp)) == 0)

unfoldable pub identity_of : Message × Option Message → Identity
unfolding assigned confirmed
identity_of (req, resp) = record {
  mac = req.mac;
  assigned_ip = assigned resp;
  lease_confirmed = confirmed resp;
}

unfoldable pub choose : List (Message × Option Message) → Option Identity
choose [] = none
choose (c ∷ cs) = if same_mac (c.0).mac cs then some (identity_of (best_of c cs)) else none

-- `_extract_dhcp_from_pcap`; `none` is the empty dict.
unfoldable pub extract_dhcp : List View → Text → Text → Option Identity
extract_dhcp views stb_ip stb_mac =
    let s = record_messages 0 stb_mac views (record { requests = []; responses = [] }) in
    choose (candidates stb_ip stb_mac s.responses s.requests)

-- `_capture_identity`: the address to look for, and the identity.
unfoldable pub capture_identity : List View → Text → Text → Text × Option Identity
capture_identity views requested mac =
    let auth = extract_dhcp views requested mac in
    (
      elim auth [
        | none ↦ requested
        | some a ↦ if not (length mac == 0) && a.lease_confirmed then a.assigned_ip else requested
      ],
      auth,
    )
