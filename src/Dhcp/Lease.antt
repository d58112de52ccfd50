-- ===== src/Dhcp/Lease.antt =====
-- Which message of a capture a leased address comes from.
use iptv_sniffer_web.Base.{
  ℕ, ◌+◌, ◌<◌, ◌≡◌, ◌≢◌, refl, sym, ◌∙◌, ◌⊎◌, inl, inr, Bool, true, not, ◌&&◌, Option, none, some,
  List, [], ◌∷◌, arith, ◌==◌, nat_eq, string_eq, pair_eq, list_eq, Bool-cases, Option-cases, length,
  All, ==_iff, Text,
}
use iptv_sniffer_web.Base.Dict.{Dict, lookup, insert, All-insert, All-lookup}
use iptv_sniffer_web.Packet.{View}
use iptv_sniffer_web.Dhcp.{
  Message, Exchange, Exchanges, message_of, keep, record_message, record_messages, is_candidate,
  candidates, same_mac, best_of, assigned, confirmed, Identity, identity_of, choose, extract_dhcp,
  capture_identity, zero_ip,
}
use iptv_sniffer_web.Dhcp.Owner.{best_of-All, extract_dhcp-mac}

-- One of these packets, counted from `order`, carries the message.
abbrev pub Captured : ℕ → List View → Message → Type 0
Captured order [] m = ⊥
Captured order (v ∷ vs) m = (message_of order v.ip ≡ some m) ⊎ Captured (order + 1) vs m

module _ (views : List View) where
  -- A message of the capture, in one direction, under its own transaction.
  record IsFrom (op : ℕ) (x : Exchange) (m : Message) : Type 0 where
    sent : Captured 0 views m
    direction : m.op ≡ op
    xid : m.xid ≡ x.0
    client : m.mac ≡ x.1

  abbrev AllFrom : ℕ → Dict Exchange Message → Type 0
  AllFrom op = All (λ (p : Exchange × Message). IsFrom op p.0 p.1)

  keep-AllFrom :
      (op : ℕ) (wins : Bool) (x : Exchange) (m : Message) (d : Dict Exchange Message)
      → IsFrom op x m
      → AllFrom op d
      → AllFrom op (keep wins x m d)
  unfolding keep
  keep-AllFrom op wins x m d f h =
      let new : AllFrom op (insert x m d) =
        All-insert (λ (p : Exchange × Message). IsFrom op p.0 p.1) x m d h f in
      elim (Option-cases (lookup x d)) [
        | inl first ↦ rw (keep, first) new
        | inr (old, e) ↦
            rw (keep, e)
              (elim (Bool-cases wins) [ inl better ↦ rw better new | inr worse ↦ rw worse h ])
      ]

  abbrev AreFrom : Exchanges → Type 0
  AreFrom s = AllFrom 1 s.requests × AllFrom 2 s.responses

  record_message-AreFrom :
      (mac : Text) (m : Message) (s : Exchanges)
      → Captured 0 views m
      → AreFrom s
      → AreFrom (record_message mac m s)
  unfolding record_message
  record_message-AreFrom mac m s h f =
      let x : Exchange = (m.xid, m.mac) in
      elim (Bool-cases (not (length mac == 0) && not (m.mac == mac))) [
        | inl other ↦ rw (record_message, other) f
        | inr own ↦
            rw (record_message, own)
              (elim (Bool-cases (m.op == 1)) [
                | inl asks ↦
                    let one : IsFrom 1 x m = record {
                      sent = h;
                      direction = (==_iff m.op 1).0 asks;
                      xid = refl;
                      client = refl;
                    } in
                    rw asks (keep-AllFrom 1 _ x m s.requests one f.0, f.1)
                | inr isnt ↦ rw isnt (elim (Bool-cases (m.op == 2)) [
                  | inl answers ↦
                      let two : IsFrom 2 x m = record {
                        sent = h;
                        direction = (==_iff m.op 2).0 answers;
                        xid = refl;
                        client = refl;
                      } in
                      rw answers (f.0, keep-AllFrom 2 _ x m s.responses two f.1)
                  | inr neither ↦ rw neither f
                ])
              ])
      ]

  record_messages-AreFrom :
      (order : ℕ) (mac : Text) (vs : List View) (s : Exchanges)
      → ((m : Message) → Captured order vs m → Captured 0 views m)
      → AreFrom s
      → AreFrom (record_messages order mac vs s)
  unfolding record_messages
  record_messages-AreFrom order mac [] s f h = h
  record_messages-AreFrom order mac (v ∷ vs) s f h = elim (Option-cases (message_of order v.ip)) [
    | inl silent ↦
        rw (record_messages, silent)
          (record_messages-AreFrom (order + 1) mac vs s (λ m c. f m (inr c)) h)
    | inr (m, e) ↦
        rw (record_messages, e)
          (record_messages-AreFrom (order + 1) mac vs (record_message mac m s) (λ n c. f n (inr c))
            (record_message-AreFrom mac m s (f m (inl e)) h))
  ]

  -- A request and the answer to it, if there is one, in the same transaction.
  abbrev Answered : Message × Option Message → Type 0
  Answered (req, none) = Unit
  Answered (req, some resp) = (x : Exchange) × (IsFrom 1 x req) × (IsFrom 2 x resp)

  candidates-Answered :
      (ip mac : Text) (responses requests : Dict Exchange Message)
      → AllFrom 1 requests
      → AllFrom 2 responses
      → All Answered (candidates ip mac responses requests)
  unfolding candidates
  candidates-Answered ip mac responses [] h k = tt
  candidates-Answered ip mac responses ((x, req) ∷ rest) h k =
      let more = candidates-Answered ip mac responses rest h.1 k in
      elim (Bool-cases (is_candidate ip mac req (lookup x responses))) [
        | inr isnt ↦ rw isnt more
        | inl taken ↦ rw taken (elim (Option-cases (lookup x responses)) [
          | inl alone ↦ rw (alone, Answered) (tt, more)
          | inr (resp, e) ↦ rw e (
            (
              x,
              h.0,
              All-lookup (λ (p : Exchange × Message). IsFrom 2 p.0 p.1) x resp responses k e,
            ),
            more,
          )
        ])
      ]

-- An acknowledgement in the capture: the terminal's request and the server's answer to it, in one
-- transaction of one hardware address, the answer being of type ACK and giving this address.
pub record IsLeased (views : List View) (mac ip : Text) : Type 0 where
  pub request : Message
  pub reply : Message
  pub asked : Captured 0 views request
  pub answered : Captured 0 views reply
  pub from_client : request.op ≡ 1
  pub from_server : reply.op ≡ 2
  pub same_transaction : reply.xid ≡ request.xid
  pub client : request.mac ≡ mac
  pub to_client : reply.mac ≡ mac
  pub acknowledged : reply.msg_type ≡ 5
  pub address : reply.yiaddr ≡ ip
  pub some_address : ip ≢ zero_ip

module _ (views : List View) where
  identity_of-IsLeased :
      (c : Message × Option Message)
      → Answered views c
      → (identity_of c).lease_confirmed ≡ true
      → IsLeased views (identity_of c).mac (identity_of c).assigned_ip
  unfolding identity_of confirmed assigned
  identity_of-IsLeased (req, none) a h = absurd cc
  identity_of-IsLeased (req, some resp) (x, q, r) h = elim (Bool-cases (resp.yiaddr == zero_ip)) [
    | inl nowhere ↦ absurd (ground (arith, nowhere))
    | inr somewhere ↦
        let given : (identity_of (req, some resp)).assigned_ip ≡ resp.yiaddr =
          ground (arith, somewhere) in
        record {
          request = req;
          reply = resp;
          asked = q.sent;
          answered = r.sent;
          from_client = q.direction;
          from_server = r.direction;
          same_transaction = r.xid ∙ sym q.xid;
          client = refl;
          to_client = r.client ∙ sym q.client;
          acknowledged = ground (arith, ==_iff resp.msg_type 5);
          address = sym given;
          some_address =
              λ e. ground (arith, somewhere, (==_iff resp.yiaddr zero_ip).1 (sym given ∙ e));
        }
  ]

  choose-IsLeased :
      (cs : List (Message × Option Message)) (i : Identity)
      → All (Answered views) cs
      → choose cs ≡ some i
      → i.lease_confirmed ≡ true
      → IsLeased views i.mac i.assigned_ip
  unfolding choose
  choose-IsLeased [] i a h k = absurd cc
  choose-IsLeased (c ∷ cs) i a h k = elim (Bool-cases (same_mac (c.0).mac cs)) [
    | inl same ↦
        let chosen : identity_of (best_of c cs) ≡ i = ground (arith, same) in
        rw (← chosen) (
          identity_of-IsLeased (best_of c cs) (best_of-All (Answered views) c cs a.0 a.1)
            (rw chosen k))
    | inr differ ↦ absurd (ground arith)
  ]

  extract_dhcp-IsLeased :
      (ip mac : Text) (i : Identity)
      → extract_dhcp views ip mac ≡ some i
      → i.lease_confirmed ≡ true
      → IsLeased views i.mac i.assigned_ip
  unfolding extract_dhcp
  extract_dhcp-IsLeased ip mac i h k =
      let nothing : Exchanges = record { requests = []; responses = [] } in
      let s = record_messages 0 mac views nothing in
      let from = record_messages-AreFrom views 0 mac views nothing (λ m c. c) (tt, tt) in
      choose-IsLeased (candidates ip mac s.responses s.requests) i
        (candidates-Answered views ip mac s.responses s.requests from.0 from.1) h k

  -- The address of a capture differs from the requested one only when a hardware address was given,
  -- and then the capture holds a request of that address and, in the same transaction, a server's
  -- answer to it of type ACK that gives the address, which is not 0.0.0.0.
  pub capture_identity-IsLeased :
      (requested mac : Text)
      → let ip = (capture_identity views requested mac).0 in
        (ip ≡ requested) ⊎ ((0 < length mac) × (IsLeased views mac ip))
  unfolding capture_identity
  capture_identity-IsLeased requested mac = elim (Option-cases (extract_dhcp views requested mac)) [
    | inl nobody ↦ inl (rw (capture_identity, nobody))
    | inr (i, e) ↦ elim (Bool-cases (not (length mac == 0) && i.lease_confirmed)) [
      | inl leased ↦
          let given : 0 < length mac = ground arith in
          let own : i.mac ≡ mac = extract_dhcp-mac views requested mac i given e in
          inr (
            given,
            rw (capture_identity, e, leased, ← own)
                (extract_dhcp-IsLeased requested mac i e (ground arith)),
          )
      | inr other ↦ inl (rw (capture_identity, e, other))
    ]
  ]
