-- ===== src/Dhcp/Owner.antt =====
-- Which terminal an identity belongs to.
use iptv_sniffer_web.Base.{
  ℕ, ◌+◌, ◌<◌, ◌≡◌, refl, sym, ◌∙◌, inl, inr, true, Option, some, List, [], ◌∷◌, arith, nat_eq,
  string_eq, pair_eq, list_eq, Bool-cases, Option-cases, length, All, ==_iff, Text,
}
use iptv_sniffer_web.Base.Dict.{Dict, insert}
use iptv_sniffer_web.Packet.{View}
use iptv_sniffer_web.Dhcp.{
  Message, Exchange, Exchanges, message_of, keep, record_message, record_messages, candidates,
  same_mac, rank, outranks, best_of, Identity, identity_of, choose, extract_dhcp,
}

-- A dict all of whose messages have a client's address.
abbrev AllFrom : Text → Dict Exchange Message → Type 0
AllFrom mac = All (λ (p : Exchange × Message). p.1.mac ≡ mac)

insert-AllFrom :
    (mac : Text) (xid : Exchange) (m : Message) (d : Dict Exchange Message)
    → m.mac ≡ mac
    → AllFrom mac d
    → AllFrom mac (insert xid m d)
unfolding insert
insert-AllFrom mac xid m [] h k = (h, tt)
insert-AllFrom mac xid m ((x, n) ∷ d) h k = ground (arith, insert-AllFrom mac xid m d)

record_message-AllFrom :
    (mac : Text) (m : Message) (s : Exchanges)
    → 0 < length mac
    → AllFrom mac s.requests
    → AllFrom mac (record_message mac m s).requests
unfolding record_message keep
record_message-AllFrom mac m s h k =
    ground (arith, ==_iff m.mac mac, insert-AllFrom mac (m.xid, m.mac) m s.requests)

record_messages-AllFrom :
    (order : ℕ) (mac : Text) (vs : List View) (s : Exchanges)
    → 0 < length mac
    → AllFrom mac s.requests
    → AllFrom mac (record_messages order mac vs s).requests
unfolding record_messages
record_messages-AllFrom order mac [] s h k = k
record_messages-AllFrom order mac (v ∷ vs) s h k = elim (Option-cases (message_of order v.ip)) [
  | inl silent ↦ rw (silent, record_messages) (record_messages-AllFrom (order + 1) mac vs s h k)
  | inr (m, e) ↦
      rw (e, record_messages)
        (record_messages-AllFrom (order + 1) mac vs (record_message mac m s) h
          (record_message-AllFrom mac m s h k))
]

abbrev Pair : Type 0
Pair = Message × Option Message

abbrev From : Text → Pair → Type 0
From mac c = (c.0).mac ≡ mac

candidates-From :
    (stb_ip stb_mac mac : Text) (responses requests : Dict Exchange Message)
    → AllFrom mac requests
    → All (From mac) (candidates stb_ip stb_mac responses requests)
unfolding candidates
candidates-From stb_ip stb_mac mac responses [] h = tt
candidates-From stb_ip stb_mac mac responses ((xid, req) ∷ rest) h =
    ground (arith, candidates-From stb_ip stb_mac mac responses rest)

pub best_of-All :
    (P : Pair → Type 0) (best : Pair) (cs : List Pair) → P best → All P cs → P (best_of best cs)
unfolding best_of
best_of-All P best [] h k = h
best_of-All P best (c ∷ cs) h k = elim (Bool-cases (outranks (rank c) (rank best))) [
  | inl wins ↦ rw wins (best_of-All P c cs k.0 k.1)
  | inr loses ↦ rw loses (best_of-All P best cs h k.1)
]

same_mac-From :
    (mac own : Text) (cs : List Pair) → own ≡ mac → same_mac mac cs ≡ true → All (From own) cs
unfolding same_mac
same_mac-From mac own [] e h = tt
same_mac-From mac own ((req, resp) ∷ cs) e h =
    ground (arith, ==_iff req.mac mac, same_mac-From mac own cs e)

identity_of-mac : (c : Pair) → (identity_of c).mac ≡ (c.0).mac
unfolding identity_of
identity_of-mac c = refl

-- The candidates agree with what is chosen.
choose-From : (cs : List Pair) (i : Identity) → choose cs ≡ some i → All (From i.mac) cs
unfolding choose
choose-From [] i h = tt
choose-From (c ∷ cs) i h = elim (Bool-cases (same_mac (c.0).mac cs)) [
  | inl same ↦
      let chosen : identity_of (best_of c cs) ≡ i = ground (arith, same) in
      let mac : i.mac ≡ (c.0).mac = rw (← chosen) (
        identity_of-mac (best_of c cs)
        ∙ best_of-All (From (c.0).mac) c cs refl
            (same_mac-From (c.0).mac (c.0).mac cs refl same)) in
      (sym mac, same_mac-From (c.0).mac i.mac cs mac same)
  | inr differ ↦ absurd (ground arith)
]

choose-mac :
    (mac : Text) (cs : List Pair) (i : Identity)
    → All (From mac) cs
    → choose cs ≡ some i
    → i.mac ≡ mac
unfolding choose
choose-mac mac [] i h e = cc
choose-mac mac (c ∷ cs) i h e = let own = choose-From (c ∷ cs) i e in sym own.0 ∙ h.0

-- An identity is taken from a capture only if every exchange that may be the terminal's has the same
-- hardware address, and then it has that address.
extract_dhcp-unanimous :
    (views : List View) (stb_ip stb_mac : Text) (i : Identity)
    → extract_dhcp views stb_ip stb_mac ≡ some i
    → let s = record_messages 0 stb_mac views (record { requests = []; responses = [] }) in
      All
        (λ (c : Message × Option Message). (c.0).mac ≡ i.mac)
        (candidates stb_ip stb_mac s.responses s.requests)
unfolding extract_dhcp
extract_dhcp-unanimous views stb_ip stb_mac i h = choose-From _ i h

-- With a terminal's hardware address given, an identity that is found is that terminal's, whatever
-- other clients are in the capture.
pub extract_dhcp-mac :
    (views : List View) (stb_ip stb_mac : Text) (i : Identity)
    → 0 < length stb_mac
    → extract_dhcp views stb_ip stb_mac ≡ some i
    → i.mac ≡ stb_mac
unfolding extract_dhcp
extract_dhcp-mac views stb_ip stb_mac i given h =
    let s = record_messages 0 stb_mac views (record { requests = []; responses = [] }) in
    let from = candidates-From stb_ip stb_mac stb_mac s.responses s.requests (
      record_messages-AllFrom 0 stb_mac views (record { requests = []; responses = [] }) given
        tt) in
    choose-mac stb_mac (candidates stb_ip stb_mac s.responses s.requests) i from h
