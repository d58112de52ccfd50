-- ===== src/Fcc/Merge/Kept.antt =====
-- What merging does to the channel table: it only fills in what is missing.
use iptv_sniffer_web.Base.{
  ℕ, ◌+◌, ◌-◌, ◌≤◌, ◌<◌, String, ◌≡◌, refl, ◌⊎◌, inl, inr, Bool, true, false, not, ◌&&◌, ◌||◌,
  Option, none, some, List, [], ◌∷◌, ◌++◌, map, arith, leb, ◌==◌, nat_eq, string_eq, pair_eq,
  list_eq, Bool-cases, Option-cases, length, drop, length-append, length-take, length-drop, slice,
  ==_iff, Text,
}
use iptv_sniffer_web.Base.Dict.{Dict, lookup, insert, lookup-insert}
use iptv_sniffer_web.Packet.{parse_ip, join, str_byte}
use iptv_sniffer_web.Fcc.{Protocol, Request}
use iptv_sniffer_web.Fcc.Merge.{
  Source, Channel, stream_key, has_fcc, request_of, record_server, apply_request, merge_packet,
}

join-ne-nil : (bs : List ℕ) → 2 ≤ length bs → 0 < length (join (b'.' ∷ []) (map str_byte bs))
unfolding join
join-ne-nil [] h = absurd (omega arith)
join-ne-nil (a ∷ []) h = absurd (omega arith)
join-ne-nil (a ∷ b ∷ bs) h =
    omega
      (arith, length-append (str_byte a) ((b'.' ∷ []) ++ join (b'.' ∷ []) (map str_byte (b ∷ bs))))

parse_ip-ne-nil : (bs : List ℕ) (off : ℕ) → off + 4 ≤ length bs → 0 < length (parse_ip bs off)
unfolding parse_ip
parse_ip-ne-nil bs off h =
    join-ne-nil (slice bs off (off + 4))
      (omega (arith, length-take (off + 4 - off) (drop off bs), length-drop off bs))

-- The server of a request is written out.
pub request_of-server :
    (stb_ip : Text) (ports : Dict Text (List ℕ)) (ip : List ℕ) (found : Request) (server : Text)
    (port : ℕ) (special : Bool)
    → request_of stb_ip ports ip ≡ some (found, server, port, special)
    → 0 < length server
unfolding request_of
request_of-server stb_ip ports ip found server port special h =
    ground (arith, parse_ip-ne-nil ip 16)

-- A channel that had no FCC server has one now; its end point is the same, and what was recorded
-- about its sources stands before the new record.
pub record Learns (c c' : Channel) : Type 0 where
  pub before : has_fcc c ≡ false
  pub after : has_fcc c' ≡ true
  pub ip : c'.ip ≡ c.ip
  pub port : c'.port ≡ c.port
  pub recorded : (s : Source) × (c'.sources ≡ c.sources ++ s ∷ [])

abbrev pub Kept : Option Channel → Option Channel → Type 0
Kept o o' =
    (o' ≡ o) ⊎ ((c : Channel) × (c' : Channel) × (o ≡ some c) × (o' ≡ some c') × Learns c c')

pub record_server-Learns :
    (pcap : String) (protocol : Protocol) (server : Text) (port : ℕ) (c : Channel)
    → 0 < length server
    → 1 ≤ port
    → has_fcc c ≡ false
    → Learns c (record_server pcap protocol server port c)
unfolding record_server has_fcc
record_server-Learns pcap protocol server port c s p h = record {
  before = h;
  after = ground arith;
  ip = refl;
  port = refl;
  recorded = (_, refl);
}

-- The request leads to no change: no channel, a server that cannot be, or a server known already.
unfoldable pub settled : Dict Text Channel → Request × Text × ℕ × Bool → Bool
settled channels (found, server, port, special) =
    elim (lookup (stream_key found.ip found.port) channels) [
      | none ↦ true
      | some c ↦ not (leb 1 port && leb port 65535) || special || has_fcc c
    ]

abbrev pub Updates : String → Dict Text Channel → Request × Text × ℕ × Bool → Channel → Type 0
Updates pcap channels (found, server, port, special) c =
    (lookup (stream_key found.ip found.port) channels ≡ some c)
    × (has_fcc c ≡ false)
    × (1 ≤ port)
    × (apply_request pcap channels (found, server, port, special)
        ≡ insert (stream_key found.ip found.port)
            (record_server pcap found.fcc_protocol server port c) channels)

pub apply_request-cases :
    (pcap : String) (channels : Dict Text Channel) (r : Request × Text × ℕ × Bool)
    → ((settled channels r ≡ true) × (apply_request pcap channels r ≡ channels))
      ⊎ ((c : Channel) × Updates pcap channels r c)
unfolding apply_request settled
apply_request-cases pcap channels (found, server, port, special) =
    elim (Option-cases (lookup (stream_key found.ip found.port) channels)) [
      | inl missing ↦ inl (ground arith, ground arith)
      | inr (c, e) ↦
          elim (Bool-cases (not (leb 1 port && leb port 65535) || special || has_fcc c)) [
            | inl stays ↦ inl (ground arith, ground arith)
            | inr moves ↦ inr (c, (e, ground arith, ground arith, ground arith))
          ]
    ]

pub settled-apply_request :
    (pcap : String) (channels : Dict Text Channel) (r : Request × Text × ℕ × Bool)
    → settled channels r ≡ true
    → apply_request pcap channels r ≡ channels
unfolding apply_request settled
settled-apply_request pcap channels (found, server, port, special) h = ground arith

module _ (pcap : String) (channels : Dict Text Channel) (r : Request × Text × ℕ × Bool)
    (named : 0 < length r.1) where
  key : Text
  key = stream_key (r.0).ip (r.0).port

  apply_request-Kept :
      (k : Text) → Kept (lookup k channels) (lookup k (apply_request pcap channels r))
  unfolding key
  apply_request-Kept k = elim (apply_request-cases pcap channels r) [
    | inl (_, same) ↦ inl (rw same)
    | inr (c, (held, before, port, e)) ↦
        rw (e, lookup-insert key k (record_server pcap (r.0).fcc_protocol r.1 r.2 c) channels)
          (elim (Bool-cases (key == k)) [
            | inl hit ↦ rw hit (
                inr (
                  c,
                  _,
                  rw (← (==_iff key k).0 hit) held,
                  refl,
                  record_server-Learns pcap (r.0).fcc_protocol r.1 r.2 c named port before,
                ))
            | inr miss ↦ rw miss (inl refl)
          ])
  ]

pub merge_packet-Kept :
    (pcap : String) (stb_ip : Text) (ports : Dict Text (List ℕ)) (channels : Dict Text Channel)
    (ip : List ℕ) (k : Text)
    → Kept (lookup k channels) (lookup k (merge_packet pcap stb_ip ports channels ip))
unfolding merge_packet
merge_packet-Kept pcap stb_ip ports channels ip k =
    elim (Option-cases (request_of stb_ip ports ip)) [
      | inl silent ↦ rw (silent, merge_packet) (inl refl)
      | inr ((found, server, port, special), e) ↦
          rw (e, merge_packet)
            (apply_request-Kept pcap channels (found, server, port, special)
              (request_of-server stb_ip ports ip found server port special e) k)
    ]
