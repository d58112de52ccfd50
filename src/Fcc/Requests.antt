-- ===== src/Fcc/Requests.antt =====
-- Requests as clients send them, and what `parse_fcc_request` makes of them.
use iptv_sniffer_web.Base.{
  ℕ, ◌+◌, ◌*◌, ◌≤◌, ◌<◌, ◌≡◌, refl, ◌↔◌, inl, inr, true, Option, none, some, List, [], ◌∷◌, ◌++◌,
  arith, nat_eq, string_eq, pair_eq, list_eq, Option-cases, length, byte_at, put_be16, put_be32,
}
use iptv_sniffer_web.Base.Dict.{Dict, lookup}
use iptv_sniffer_web.Packet.{parse_ip}
use iptv_sniffer_web.Fcc.{
  Protocol, telecom, huawei, Request, is_multicast, only_port, parse_fcc_request,
}

-- Where the four bytes of the group stand.
abbrev pub group_offset : Protocol → ℕ
group_offset telecom = 20
group_offset huawei = 8

-- What a recognised request is known to be.
pub record IsRequest (payload : List ℕ) (ports : Dict (List ℕ) (List ℕ)) (r : Request)
    : Type 0 where
  pub group : r.ip ≡ parse_ip payload (group_offset r.fcc_protocol)
  pub multicast : is_multicast (byte_at payload (group_offset r.fcc_protocol)) ≡ true
  pub port_low : 1 ≤ r.port
  pub port_high : r.port ≤ 65535
  pub whole : group_offset r.fcc_protocol + 4 ≤ length payload
  pub known : r.fcc_protocol ≡ huawei → lookup r.ip ports ≡ some (r.port ∷ [])

only_port-eq-some : (o : Option (List ℕ)) (p : ℕ) → only_port o ≡ some p → o ≡ some (p ∷ [])
unfolding only_port
only_port-eq-some none p h = cc
only_port-eq-some (some []) p h = cc
only_port-eq-some (some (q ∷ [])) p h = cc
only_port-eq-some (some (q ∷ r ∷ qs)) p h = cc

-- Whatever arrives on the wire, a recognised request names a multicast group that stands in the
-- payload and a port in range, and a Huawei request, which carries no port, is tied to a group for
-- which the channel table knows exactly that one port.
parse_fcc_request-IsRequest :
    (payload : List ℕ) (ports : Dict (List ℕ) (List ℕ)) (r : Request)
    → parse_fcc_request payload ports ≡ some r
    → IsRequest payload ports r
unfolding parse_fcc_request
parse_fcc_request-IsRequest payload ports r h =
    elim (Option-cases (only_port (lookup (parse_ip payload 8) ports))) [
      | inl unknown ↦ ground arith
      | inr (p, e) ↦ ground (arith, only_port-eq-some (lookup (parse_ip payload 8) ports) p e)
    ]

-- An IPv4 multicast group, and a request's fields besides it.
pub record Group : Type 0 where
  pub g0 : ℕ
  pub g1 : ℕ
  pub g2 : ℕ
  pub g3 : ℕ

abbrev pub group_bytes : Group → List ℕ
group_bytes g = g.g0 ∷ g.g1 ∷ g.g2 ∷ g.g3 ∷ []

abbrev pub IsGroup : Group → Type 0
IsGroup g = (224 ≤ g.g0) × (g.g0 ≤ 239)

-- The RTCP header of a feedback packet with format `fmt`, whose length field is `words`.
abbrev pub rtcp_header : ℕ → ℕ → List ℕ
rtcp_header fmt words = (0x80 + fmt) ∷ 205 ∷ put_be16 words

-- Telecom's request: fourteen bytes of identifiers, the port, the group, and the rest.
abbrev pub telecom_bytes : ℕ → ℕ → ℕ → ℕ → ℕ → ℕ → Group → List ℕ → List ℕ
telecom_bytes words sender media name flags port g rest =
    rtcp_header 2 words
    ++ (put_be32 sender
        ++ (put_be32 media
            ++ (put_be32 name ++ (put_be16 flags ++ (put_be16 port ++ (group_bytes g ++ rest))))))

-- Huawei's request: the sender, the group, and twenty bytes of further fields.
abbrev pub huawei_bytes : ℕ → Group → List ℕ → List ℕ
huawei_bytes sender g rest = rtcp_header 5 7 ++ (put_be32 sender ++ (group_bytes g ++ rest))

-- Every Telecom request of at least forty bytes is recognised with its own group and port, whatever
-- the identifiers and the channel table are; what follows the packet does not matter.
parse_fcc_request-telecom_bytes :
    (words sender media name flags port : ℕ) (g : Group) (rest : List ℕ)
    (ports : Dict (List ℕ) (List ℕ))
    → 9 ≤ words
    → words < 65536
    → (words + 1) * 4 ≤ 24 + length rest
    → 1 ≤ port
    → port ≤ 65535
    → IsGroup g
    → parse_fcc_request (telecom_bytes words sender media name flags port g rest) ports
      ≡ some (record { ip = parse_ip (group_bytes g) 0; port = port; fcc_protocol = telecom })
unfolding parse_fcc_request parse_ip
parse_fcc_request-telecom_bytes words sender media name flags port g rest ports w v size lo hi m =
    ground arith

parse_ip-huawei_bytes :
    (sender : ℕ) (g : Group) (rest : List ℕ)
    → parse_ip (huawei_bytes sender g rest) 8 ≡ parse_ip (group_bytes g) 0
unfolding parse_ip
parse_ip-huawei_bytes sender g rest = refl

-- With at least twenty bytes after the group, a Huawei request is recognised exactly when the channel
-- table gives its group one port and that port is in range, and then with that port; a group that the
-- table does not have, or has with no port or several, is passed over.
pub parse_fcc_request-huawei_bytes :
    (sender : ℕ) (g : Group) (rest : List ℕ) (ports : Dict (List ℕ) (List ℕ))
    → 20 ≤ length rest
    → IsGroup g
    → (r : Request)
    → (parse_fcc_request (huawei_bytes sender g rest) ports ≡ some r) ↔ (
        (lookup (parse_ip (group_bytes g) 0) ports ≡ some (r.port ∷ []))
        × ((1 ≤ r.port) × (r.port ≤ 65535))
        × (r.ip ≡ parse_ip (group_bytes g) 0)
        × (r.fcc_protocol ≡ huawei))
unfolding parse_fcc_request only_port
parse_fcc_request-huawei_bytes sender g rest ports size m r =
    let given = parse_ip-huawei_bytes sender g rest in
    elim (Option-cases (lookup (parse_ip (group_bytes g) 0) ports)) [
      | inl unknown ↦ ground (arith, given)
      | inr ([], e) ↦ ground (arith, given)
      | inr (p ∷ [], e) ↦ ground (arith, given)
      | inr (p ∷ q ∷ qs, e) ↦ ground (arith, given)
    ]
