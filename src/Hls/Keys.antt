-- ===== src/Hls/Keys.antt =====
-- The key of a stream names its host and port, and nothing else is a key.
use iptv_sniffer_web.Base.{
  ℕ, ◌≤◌, ◌≡◌, refl, ap, ◌↔◌, inl, inr, true, false, none, some, [], ◌∷◌, ◌++◌, arith, ◌==◌, nat_eq,
  string_eq, pair_eq, list_eq, Option-cases, length, All, ==_iff, ==_refl, Text, str_nat,
  digits_value-str_nat,
}
use iptv_sniffer_web.Base.Numerals.{IsDigit, str_nat-digits, str_nat-nonempty}
use iptv_sniffer_web.Address.{valid_ipv4_multicast, parse_ipv4, octets, octet, split_on}
use iptv_sniffer_web.Hls.{make_key, parse_key, split_last, int_of, parse_port}

split_last-none : (w : Text) → All IsDigit w → split_last w ≡ none
unfolding split_last
split_last-none [] a = refl
split_last-none (c ∷ w) a = rw (split_last-none w a.1) (ground (arith, a.0))

split_last-append : (h w : Text) → All IsDigit w → split_last (h ++ 95 ∷ w) ≡ some (h, w)
unfolding split_last
split_last-append [] w a = rw (split_last-none w a) refl
split_last-append (c ∷ h) w a = rw (split_last-append h w a) refl

int_of-str_nat : (n : ℕ) → int_of (str_nat n) ≡ some n
unfolding int_of
int_of-str_nat n = rw (int_of, digits_value-str_nat n) (ground (arith, str_nat-nonempty n))

multicast-nonempty : (host : Text) → valid_ipv4_multicast host ≡ true → (length host == 0) ≡ false
unfolding valid_ipv4_multicast parse_ipv4 octets octet split_on
multicast-nonempty [] ok = absurd (ground arith)
multicast-nonempty (c ∷ host) ok = ground arith

-- A valid host and port.
pub record IsPlace (host : Text) (port : ℕ) : Type 0 where
  pub multicast : valid_ipv4_multicast host ≡ true
  pub positive : 1 ≤ port
  pub bounded : port ≤ 65535

parse_port-make_key :
    (host : Text) (port : ℕ)
    → IsPlace host port
    → parse_port (make_key host port) host port ≡ some (host, port)
unfolding parse_port
parse_port-make_key host port v =
    ground (arith, v.multicast, v.positive, v.bounded, ==_refl (make_key host port))

parse_key-make_key :
    (host : Text) (port : ℕ)
    → IsPlace host port
    → parse_key (make_key host port) ≡ some (host, port)
unfolding parse_key
parse_key-make_key host port v =
    let split : split_last (make_key host port) ≡ some (host, str_nat port) =
      unfold make_key in split_last-append host (str_nat port) (str_nat-digits port) in
    rw
      (
        parse_key,
        split,
        multicast-nonempty host v.multicast,
        int_of-str_nat port,
        parse_port-make_key host port v,
      )
      refl

parse_port-IsPlace :
    (key host : Text) (n : ℕ) (p : Text × ℕ)
    → parse_port key host n ≡ some p
    → (p ≡ (host, n)) × IsPlace host n × (make_key host n ≡ key)
unfolding parse_port
parse_port-IsPlace key host n p h = (
  ground arith,
  record { multicast = ground arith; positive = ground arith; bounded = ground arith },
  (==_iff (make_key host n) key).0 (ground arith),
)

parse_key-IsPlace :
    (key host : Text) (port : ℕ)
    → parse_key key ≡ some (host, port)
    → IsPlace host port × (make_key host port ≡ key)
unfolding parse_key
parse_key-IsPlace key host port h = elim (Option-cases (split_last key)) [
  | inl whole ↦ absurd (ground (arith, whole))
  | inr (q, parts) ↦ elim (Option-cases (int_of q.1)) [
    | inl bad ↦ absurd (ground (arith, parts, bad))
    | inr (n, number) ↦
        let parsed : parse_port key q.0 n ≡ some (host, port) = ground (arith, parts, number) in
        let v = parse_port-IsPlace key q.0 n (host, port) parsed in
        rw (ap (λ x. x.0) v.0, ap (λ x. x.1) v.0) (v.1, v.2)
  ]
]

-- A text is parsed to a host and port exactly if the host is an IPv4 multicast address, the port is
-- from 1 to 65535, and the text is the key that is made of them.
pub parse_key_iff :
    (key host : Text) (port : ℕ)
    → (parse_key key ≡ some (host, port)) ↔ (IsPlace host port × (make_key host port ≡ key))
unfolding parse_key
parse_key_iff key host port =
    (parse_key-IsPlace key host port, λ v. rw (← v.1) (parse_key-make_key host port v.0))
