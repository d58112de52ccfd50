-- ===== src/Tcp/Reassembly/Limits.antt =====
-- The limits on memory hold at every point of the reassembly, and the counters count what is stored.
use iptv_sniffer_web.Base.{
  ℕ, ◌+◌, ◌≤◌, ◌≡◌, refl, false, List, [], ◌∷◌, arith, if◌then◌else◌, Comparable, nat_eq, string_eq,
  pair_eq, list_eq, length,
}
use iptv_sniffer_web.Base.Dict.{Dict, lookup, insert, contains, contains-lookup}
use iptv_sniffer_web.Tcp.{Key, Segment}
use iptv_sniffer_web.Tcp.Reassembly.{
  Piece, max_streams, max_payload, max_segments, State, empty, Result, ok, too_many_streams,
  too_large, stored, seqs_of, store_piece, store_pieces, collect, ◌>>=◌,
}

-- All the payload of a dict of segments, and of all streams.
unfoldable pub payload_size : Dict ℕ (List ℕ) → ℕ
payload_size [] = 0
payload_size ((seq, p) ∷ d) = length p + payload_size d

unfoldable pub all_payload : Dict Key (Dict ℕ (List ℕ)) → ℕ
all_payload [] = 0
all_payload ((key, seqs) ∷ rest) = payload_size seqs + all_payload rest

unfoldable pub all_segments : Dict Key (Dict ℕ (List ℕ)) → ℕ
all_segments [] = 0
all_segments ((key, seqs) ∷ rest) = length seqs + all_segments rest

pub record IsBounded (s : State) : Type 0 where
  pub payload : s.total_payload ≡ all_payload s.stream_seqs
  pub segments : s.total_segments ≡ all_segments s.stream_seqs
  pub payload_limit : s.total_payload ≤ max_payload
  pub segments_limit : s.total_segments ≤ max_segments
  pub streams_limit : length s.stream_seqs ≤ max_streams

pub >>=-eq-ok {ℓ κ} :
    {A : Type ℓ} {B : Type κ} (m : Result A) (f : A → Result B) (b : B)
    → (m >>= f) ≡ ok b
    → (a : A) × (m ≡ ok a) × (f a ≡ ok b)
>>=-eq-ok (ok a) f b h = (a, refl, h)
>>=-eq-ok too_many_streams f b h = cc
>>=-eq-ok too_large f b h = cc

payload_size-insert :
    (seq : ℕ) (p : List ℕ) (d : Dict ℕ (List ℕ))
    → payload_size (insert seq p d) + length (stored seq d) ≡ payload_size d + length p
unfolding payload_size insert stored lookup
payload_size-insert seq p [] = omega arith
payload_size-insert seq p ((j, q) ∷ d) = ground (arith, payload_size-insert seq p d)

length-insert {ℓ κ} :
    {K : Type ℓ} {V : Type κ} ⦃e : Comparable K⦄ (k : K) (v : V) (d : Dict K V)
    → length (insert k v d) ≡ length d + (if contains k d then 0 else 1)
unfolding insert contains
length-insert k v [] = omega arith
length-insert k v ((j, w) ∷ d) = ground (arith, length-insert k v d)

all_payload-insert :
    (key : Key) (seqs : Dict ℕ (List ℕ)) (d : Dict Key (Dict ℕ (List ℕ)))
    → all_payload (insert key seqs d) + payload_size (seqs_of key d)
      ≡ all_payload d + payload_size seqs
unfolding all_payload insert seqs_of lookup payload_size
all_payload-insert key seqs [] = omega arith
all_payload-insert key seqs ((j, q) ∷ d) = ground (arith, all_payload-insert key seqs d)

all_segments-insert :
    (key : Key) (seqs : Dict ℕ (List ℕ)) (d : Dict Key (Dict ℕ (List ℕ)))
    → all_segments (insert key seqs d) + length (seqs_of key d) ≡ all_segments d + length seqs
unfolding all_segments insert seqs_of lookup
all_segments-insert key seqs [] = omega arith
all_segments-insert key seqs ((j, q) ∷ d) = ground (arith, all_segments-insert key seqs d)

stored_absent : (seq : ℕ) (d : Dict ℕ (List ℕ)) → contains seq d ≡ false → stored seq d ≡ []
unfolding stored
stored_absent seq d h = ground (arith, contains-lookup seq d)

store_piece-IsBounded :
    (key : Key) (s : State) (p : Piece) (s' : State)
    → IsBounded s
    → store_piece key s p ≡ ok s'
    → IsBounded s'
unfolding store_piece
store_piece-IsBounded key s (seq, payload) s' v h =
    let seqs = seqs_of key s.stream_seqs in
    ground (
      arith,
      payload_size-insert seq payload seqs,
      length-insert seq payload seqs,
      length-insert key (insert seq payload seqs) s.stream_seqs,
      length-insert key seqs s.stream_seqs,
      all_payload-insert key (insert seq payload seqs) s.stream_seqs,
      all_payload-insert key seqs s.stream_seqs,
      all_segments-insert key (insert seq payload seqs) s.stream_seqs,
      all_segments-insert key seqs s.stream_seqs,
      stored_absent seq seqs,
    )

store_pieces-IsBounded :
    (key : Key) (ps : List Piece) (s s' : State)
    → IsBounded s
    → store_pieces key s ps ≡ ok s'
    → IsBounded s'
unfolding store_pieces
store_pieces-IsBounded key [] s s' v h = let e : s ≡ s' = cc in rw (← e) v
store_pieces-IsBounded key (p ∷ ps) s s' v h =
    let (m, stored_ok, rest) = >>=-eq-ok (store_piece key s p) _ s' h in
    store_pieces-IsBounded key ps m s' (store_piece-IsBounded key s p m v stored_ok) rest

collect_from-IsBounded :
    (ranges : Dict Key (List (ℕ × ℕ))) (gs : List Segment) (s s' : State)
    → IsBounded s
    → collect ranges s gs ≡ ok s'
    → IsBounded s'
unfolding collect
collect_from-IsBounded ranges [] s s' v h = let e : s ≡ s' = cc in rw (← e) v
collect_from-IsBounded ranges (g ∷ gs) s s' v h =
    let (m, stored_ok, rest) = >>=-eq-ok (store_pieces g.key s _) _ s' h in
    collect_from-IsBounded ranges gs m s' (store_pieces-IsBounded g.key _ s m v stored_ok) rest

-- Whatever segments and media ranges come, a reassembly that does not fail holds at most 4096
-- streams, 32 MiB of payload and 262144 segments, and its counters are the true sums of what it holds.
pub collect-IsBounded :
    (ranges : Dict Key (List (ℕ × ℕ))) (gs : List Segment) (s : State)
    → collect ranges empty gs ≡ ok s
    → IsBounded s
unfolding empty all_payload all_segments
collect-IsBounded ranges gs s h = collect_from-IsBounded ranges gs empty s (omega arith) h
