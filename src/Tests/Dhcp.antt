-- ===== src/Tests/Dhcp.antt =====
-- A request of a set-top box, and the server's answer.
use iptv_sniffer_web.Base.{
  ℕ, zero, suc, ◌<◌, ◌≡◌, refl, ◌⊎◌, true, false, some, List, [], ◌∷◌, ◌++◌, arith, nat_eq,
  string_eq, pair_eq, list_eq, length, Text,
}
use iptv_sniffer_web.Base.Dict.{lookup, insert}
use iptv_sniffer_web.Packet.{View, parse_ip, join, str_byte, colon_hex, hex_byte, hex_digit}
use iptv_sniffer_web.Dhcp.{
  options_loop, parse_dhcp_options, message_type, parse_dhcp_packet, message_of, keep,
  record_message, record_messages, candidates, is_candidate, known_ip, same_mac, best_of, Identity,
  assigned, confirmed, identity_of, choose, extract_dhcp, capture_identity,
}
use iptv_sniffer_web.Dhcp.Options.{
  pad, option, item_bytes, options_of, parse_dhcp_options-item_bytes,
}
use iptv_sniffer_web.Dhcp.Lease.{IsLeased, capture_identity-IsLeased}

parse_dhcp_options-item_bytes_example :
    parse_dhcp_options
      (item_bytes (option 53 (3 ∷ []) ∷ pad ∷ option 50 (10 ∷ 0 ∷ 0 ∷ 2 ∷ []) ∷ []) ++ 255 ∷ 9 ∷ [])
    ≡ options_of [] (option 53 (3 ∷ []) ∷ pad ∷ option 50 (10 ∷ 0 ∷ 0 ∷ 2 ∷ []) ∷ [])
parse_dhcp_options-item_bytes_example =
    parse_dhcp_options-item_bytes (option 53 (3 ∷ []) ∷ pad ∷ option 50 (10 ∷ 0 ∷ 0 ∷ 2 ∷ []) ∷ [])
      (9 ∷ [])
      ((omega arith, omega arith, omega arith), (tt, ((omega arith, omega arith, omega arith), tt)))

unfoldable zeros : ℕ → List ℕ
zeros zero = []
zeros (suc n) = 0 ∷ zeros n

-- A DHCP message over UDP and IPv4: the operation, the address that the server gives, and the type.
abbrev packet : ℕ → List ℕ → ℕ → List ℕ
packet op yours type =
    (0x45 ∷ zeros 8)
    ++ (17 ∷ zeros 10
        ++ (0 ∷ 68 ∷ 0 ∷ 67 ∷ 0 ∷ 0 ∷ 0 ∷ 0 ∷ op ∷ 1 ∷ 6 ∷ 0 ∷ 0 ∷ 0 ∷ 0 ∷ 7 ∷ zeros 8
            ++ (yours
                ++ (zeros 8
                    ++ (0x48 ∷ 0x57 ∷ 2 ∷ 0x25 ∷ 0xBB ∷ 0xE3 ∷ zeros 202
                        ++ (0x63 ∷ 0x82 ∷ 0x53 ∷ 0x63 ∷ 53 ∷ 1 ∷ type ∷ 255 ∷ []))))))

abbrev view : List ℕ → View
view ip = record {
  linktype = 1;
  link_layer = "Ethernet";
  src_mac = [];
  dst_mac = [];
  vlan_depth = 0;
  pppoe = false;
  ip = ip;
}

abbrev views : List View
views = view (packet 1 (0 ∷ 0 ∷ 0 ∷ 0 ∷ []) 3) ∷ view (packet 2 (10 ∷ 0 ∷ 0 ∷ 2 ∷ []) 5) ∷ []

abbrev box : Text
box = colon_hex (0x48 ∷ 0x57 ∷ 2 ∷ 0x25 ∷ 0xBB ∷ 0xE3 ∷ [])

abbrev identity : Identity
identity = record {
  mac = box;
  assigned_ip = parse_ip (10 ∷ 0 ∷ 0 ∷ 2 ∷ []) 0;
  lease_confirmed = true;
}

found : extract_dhcp views [] box ≡ some identity
unfolding extract_dhcp record_messages message_of parse_dhcp_packet parse_dhcp_options options_loop
    message_type record_message keep candidates is_candidate known_ip choose same_mac best_of
    identity_of assigned confirmed parse_ip join str_byte colon_hex hex_byte hex_digit lookup insert
    zeros
found = refl

capture_identity-IsLeased_example :
    ((capture_identity views [] box).0 ≡ [])
    ⊎ ((0 < length box) × (IsLeased views box (capture_identity views [] box).0))
capture_identity-IsLeased_example = capture_identity-IsLeased views [] box
