-- ===== src/Fcc/Merge/Idempotent.antt =====
-- Merging the requests of a capture twice is merging them once.
use iptv_sniffer_web.Base.{
  ℕ, ◌<◌, String, ◌≡◌, refl, ◌∙◌, inl, inr, Bool, true, none, some, List, [], ◌∷◌, arith, nat_eq,
  string_eq, pair_eq, list_eq, Option-cases, length, All, ==_refl, Text,
}
use iptv_sniffer_web.Base.Dict.{Dict, lookup, insert, lookup-insert}
use iptv_sniffer_web.Packet.{View}
use iptv_sniffer_web.Tcp.{iter_ipv4_packets}
use iptv_sniffer_web.Fcc.{Request}
use iptv_sniffer_web.Fcc.Merge.{
  Channel, stream_key, add_port, channel_ports, has_fcc, request_of, record_server, apply_request,
  merge_packet, merge_packets, merge_fcc_requests,
}
use iptv_sniffer_web.Fcc.Merge.Kept.{
  Kept, apply_request-cases, merge_packet-Kept, record_server-Learns, request_of-server, settled,
  settled-apply_request,
}

-- A request that leads to no change leads to none later either.
settled-Kept :
    (channels later : Dict Text Channel) (r : Request × Text × ℕ × Bool)
    → Kept
        (lookup (stream_key (r.0).ip (r.0).port) channels)
        (lookup (stream_key (r.0).ip (r.0).port) later)
    → settled channels r ≡ true
    → settled later r ≡ true
unfolding settled
settled-Kept channels later (found, server, port, special) (inl same) h = rw (same, settled) h
settled-Kept channels later (found, server, port, special) (inr (c, c', p, q, l)) h =
    ground (arith, l.after)

settled-of_lookup :
    (channels : Dict Text Channel) (r : Request × Text × ℕ × Bool) (c : Channel)
    → lookup (stream_key (r.0).ip (r.0).port) channels ≡ some c
    → has_fcc c ≡ true
    → settled channels r ≡ true
unfolding settled
settled-of_lookup channels (found, server, port, special) c h k = ground arith

lookup-insert_self :
    (k : Text) (c : Channel) (d : Dict Text Channel) → lookup k (insert k c d) ≡ some c
lookup-insert_self k c d = rw (lookup-insert k k c d, ==_refl k)

settled-apply_request_self :
    (pcap : String) (channels : Dict Text Channel) (r : Request × Text × ℕ × Bool)
    → 0 < length r.1
    → settled (apply_request pcap channels r) r ≡ true
settled-apply_request_self pcap channels r named = elim (apply_request-cases pcap channels r) [
  | inl (quiet, same) ↦ rw same quiet
  | inr (c, (held, before, port, e)) ↦
      let c' = record_server pcap (r.0).fcc_protocol r.1 r.2 c in
      rw e (
        settled-of_lookup _ r c' (lookup-insert_self (stream_key (r.0).ip (r.0).port) c' channels)
          (record_server-Learns pcap (r.0).fcc_protocol r.1 r.2 c named port before).after)
]

-- Filling in a server leaves the table of ports as it was.
channel_ports-insert :
    (ports : Dict Text (List ℕ)) (k : Text) (c c' : Channel) (channels : Dict Text Channel)
    → lookup k channels ≡ some c
    → c'.ip ≡ c.ip
    → c'.port ≡ c.port
    → channel_ports ports (insert k c' channels) ≡ channel_ports ports channels
unfolding channel_ports lookup insert
channel_ports-insert ports k c c' [] h i p = cc
channel_ports-insert ports k c c' ((j, d) ∷ ds) h i p =
    ground (arith, channel_ports-insert (add_port d.ip d.port ports) k c c' ds)

-- The requests of a list of packets.
abbrev Quiet : Text → Dict Text (List ℕ) → Dict Text Channel → List ℕ → Type 0
Quiet stb_ip ports channels ip = elim (request_of stb_ip ports ip) [
  | none ↦ Unit {0}
  | some r ↦ settled channels r ≡ true
]

merge_packet-some :
    (pcap : String) (stb_ip : Text) (ports : Dict Text (List ℕ)) (channels : Dict Text Channel)
    (ip : List ℕ) (r : Request × Text × ℕ × Bool)
    → request_of stb_ip ports ip ≡ some r
    → merge_packet pcap stb_ip ports channels ip ≡ apply_request pcap channels r
unfolding merge_packet
merge_packet-some pcap stb_ip ports channels ip r e = rw (e, merge_packet)

merge_packet-Quiet :
    (pcap : String) (stb_ip : Text) (ports : Dict Text (List ℕ)) (channels : Dict Text Channel)
    (ip : List ℕ)
    → Quiet stb_ip ports (merge_packet pcap stb_ip ports channels ip) ip
merge_packet-Quiet pcap stb_ip ports channels ip =
    elim (Option-cases (request_of stb_ip ports ip)) [
      | inl silent ↦ rw (silent, Quiet) tt
      | inr (r, e) ↦ rw (merge_packet-some pcap stb_ip ports channels ip r e) (
          rw (e, Quiet)
            (settled-apply_request_self pcap channels r
              (request_of-server stb_ip ports ip r.0 r.1 r.2 r.3 e)))
    ]

Quiet-merge_packet :
    (pcap : String) (stb_ip : Text) (ports : Dict Text (List ℕ)) (channels : Dict Text Channel)
    (ip other : List ℕ)
    → Quiet stb_ip ports channels other
    → Quiet stb_ip ports (merge_packet pcap stb_ip ports channels ip) other
Quiet-merge_packet pcap stb_ip ports channels ip other h =
    elim (Option-cases (request_of stb_ip ports other)) [
      | inl silent ↦ rw (silent, Quiet) tt
      | inr (r, e) ↦
          rw (e, Quiet)
            (settled-Kept channels _ r (merge_packet-Kept pcap stb_ip ports channels ip _)
              (rw (e, Quiet) at h))
    ]

Quiet-same :
    (pcap : String) (stb_ip : Text) (ports : Dict Text (List ℕ)) (channels : Dict Text Channel)
    (ip : List ℕ)
    → Quiet stb_ip ports channels ip
    → merge_packet pcap stb_ip ports channels ip ≡ channels
unfolding merge_packet
Quiet-same pcap stb_ip ports channels ip h = elim (Option-cases (request_of stb_ip ports ip)) [
  | inl silent ↦ rw (silent, merge_packet)
  | inr (r, e) ↦ rw (e, merge_packet) (settled-apply_request pcap channels r (rw (e, Quiet) at h))
]

Quiet-merge_packets :
    (pcap : String) (stb_ip : Text) (ports : Dict Text (List ℕ)) (channels : Dict Text Channel)
    (vs : List View) (other : List ℕ)
    → Quiet stb_ip ports channels other
    → Quiet stb_ip ports (merge_packets pcap stb_ip ports channels vs) other
unfolding merge_packets
Quiet-merge_packets pcap stb_ip ports channels [] other h = h
Quiet-merge_packets pcap stb_ip ports channels (v ∷ vs) other h =
    Quiet-merge_packets pcap stb_ip ports (merge_packet pcap stb_ip ports channels v.ip) vs other
      (Quiet-merge_packet pcap stb_ip ports channels v.ip other h)

merge_packets-Quiet :
    (pcap : String) (stb_ip : Text) (ports : Dict Text (List ℕ)) (channels : Dict Text Channel)
    (vs : List View)
    → All (λ (v : View). Quiet stb_ip ports (merge_packets pcap stb_ip ports channels vs) v.ip) vs
unfolding merge_packets
merge_packets-Quiet pcap stb_ip ports channels [] = tt
merge_packets-Quiet pcap stb_ip ports channels (v ∷ vs) =
    let next = merge_packet pcap stb_ip ports channels v.ip in
    (
      Quiet-merge_packets pcap stb_ip ports next vs v.ip
          (merge_packet-Quiet pcap stb_ip ports channels v.ip),
      merge_packets-Quiet pcap stb_ip ports next vs,
    )

merge_packets_unchanged :
    (pcap : String) (stb_ip : Text) (ports : Dict Text (List ℕ)) (channels : Dict Text Channel)
    (vs : List View)
    → All (λ (v : View). Quiet stb_ip ports channels v.ip) vs
    → merge_packets pcap stb_ip ports channels vs ≡ channels
unfolding merge_packets
merge_packets_unchanged pcap stb_ip ports channels [] h = refl
merge_packets_unchanged pcap stb_ip ports channels (v ∷ vs) h =
    rw (Quiet-same pcap stb_ip ports channels v.ip h.0)
      (merge_packets_unchanged pcap stb_ip ports channels vs h.1)

channel_ports-merge_packet :
    (pcap : String) (stb_ip : Text) (ports init : Dict Text (List ℕ)) (channels : Dict Text Channel)
    (ip : List ℕ)
    → channel_ports init (merge_packet pcap stb_ip ports channels ip) ≡ channel_ports init channels
unfolding merge_packet channel_ports
channel_ports-merge_packet pcap stb_ip ports init channels ip =
    elim (Option-cases (request_of stb_ip ports ip)) [
      | inl silent ↦ rw (silent, merge_packet)
      | inr (r, e) ↦
          rw (e, merge_packet)
            (elim (apply_request-cases pcap channels r) [
              | inl (_, same) ↦ rw same
              | inr (c, (held, before, port, e')) ↦
                  let l =
                    record_server-Learns pcap (r.0).fcc_protocol r.1 r.2 c
                      (request_of-server stb_ip ports ip r.0 r.1 r.2 r.3 e) port before in
                  rw e' (channel_ports-insert init _ c _ channels held l.ip l.port)
            ])
    ]

channel_ports-merge_packets :
    (pcap : String) (stb_ip : Text) (ports init : Dict Text (List ℕ)) (channels : Dict Text Channel)
    (vs : List View)
    → channel_ports init (merge_packets pcap stb_ip ports channels vs) ≡ channel_ports init channels
unfolding merge_packets
channel_ports-merge_packets pcap stb_ip ports init channels [] = refl
channel_ports-merge_packets pcap stb_ip ports init channels (v ∷ vs) =
    channel_ports-merge_packets pcap stb_ip ports init
      (merge_packet pcap stb_ip ports channels v.ip) vs
    ∙ channel_ports-merge_packet pcap stb_ip ports init channels v.ip

-- Analysing the same capture a second time changes nothing more: merging is idempotent.
pub merge_fcc_requests_idem :
    (pcap : String) (frames : List (ℕ × List ℕ)) (stb_ip : Text) (channels : Dict Text Channel)
    → merge_fcc_requests pcap frames stb_ip (merge_fcc_requests pcap frames stb_ip channels)
      ≡ merge_fcc_requests pcap frames stb_ip channels
unfolding merge_fcc_requests
merge_fcc_requests_idem pcap frames stb_ip channels =
    let vs = iter_ipv4_packets frames in
    let ports = channel_ports [] channels in
    rw (channel_ports-merge_packets pcap stb_ip ports [] channels vs) (
      merge_packets_unchanged pcap stb_ip ports (merge_packets pcap stb_ip ports channels vs) vs
        (merge_packets-Quiet pcap stb_ip ports channels vs))
