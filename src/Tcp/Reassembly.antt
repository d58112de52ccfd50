-- ===== src/Tcp/Reassembly.antt =====
-- services/stb_discovery_service.py, `_reassemble_tcp_streams`: segments sorted by key and sequence
-- number, without the media ranges, under limits on streams, bytes and segments.
pub mod Cut
pub mod Limits
pub mod Merge
use iptv_sniffer_web.Base.{
  ℕ, zero, suc, ◌+◌, ◌-◌, ◌*◌, ◌/◌, ◌%◌, ◌^◌, ◌≤◌, ◌<◌, min, max, String, ◌≡◌, refl, sym, ap, ◌∙◌,
  ◌≢◌, ◌↔◌, ◌⊎◌, inl, inr, Bool, true, false, not, ◌&&◌, ◌||◌, Option, none, some, List, [], ◌∷◌,
  ◌++◌, map, arith, ltb, leb, if◌then◌else◌, Comparable, ◌==◌, nat_eq, string_eq, pair_eq, list_eq,
  Bool-cases, Option-cases, ltb→lt, ltb→le, lt→ltb, le→ltb, leb→le, le→leb, length, get_or,
  get_elem?, take, drop, last_n, length-append, length-take, length-drop, take-append-drop,
  take-append, drop-append, take_all, take-append_le, drop-append_le, slice-append, get_or-append,
  All, All-append, byte_at, slice, be16, be32, le16, le32, IsByte, AreBytes, put_be16, put_be32,
  put_le16, put_le32, ==_iff, ==_refl, Text, str_nat, is_digit, digits_value, digits_value-str_nat,
}
use iptv_sniffer_web.Base.Dict.{Dict, lookup, insert, contains}
use iptv_sniffer_web.Tcp.{Key, Segment}

-- A run of bytes with the sequence number of its first.
abbrev pub Piece : Type 0
Piece = ℕ × List ℕ

-- What is left of a piece outside one range `[lo, hi)`.
unfoldable pub cut_piece : ℕ → ℕ → Piece → List Piece
cut_piece lo hi (start, chunk) =
    let end = start + length chunk in
    if leb end lo || leb hi start
    then (start, chunk) ∷ []
    else (if ltb start lo then (start, take (lo - start) chunk) ∷ [] else [])
      ++ (if ltb hi end then (hi, drop (hi - start) chunk) ∷ [] else [])

unfoldable pub cut_range : ℕ → ℕ → List Piece → List Piece
cut_range lo hi [] = []
cut_range lo hi (p ∷ ps) = cut_piece lo hi p ++ cut_range lo hi ps

-- The loop over the media ranges of a stream.
unfoldable pub cut_ranges : List (ℕ × ℕ) → List Piece → List Piece
cut_ranges [] pieces = pieces
cut_ranges ((lo, hi) ∷ rs) pieces = cut_ranges rs (cut_range lo hi pieces)

abbrev pub max_streams : ℕ
max_streams = 4096

abbrev pub max_payload : ℕ
max_payload = 33554432

abbrev pub max_segments : ℕ
max_segments = 262144

pub record State : Type 0 where
  pub stream_seqs : Dict Key (Dict ℕ (List ℕ))
  pub total_payload : ℕ
  pub total_segments : ℕ

unfoldable pub empty : State
empty = record { stream_seqs = []; total_payload = 0; total_segments = 0 }

pub data Result {ℓ} (A : Type ℓ) : Type ℓ where
  ok : A → Result A
  -- "TCP 流数量超过 4096 上限" and "TCP 重组超过 32 MiB 或 262144 段上限".
  too_many_streams too_large : Result A

infixl 5 ◌>>=◌
abbrev pub ◌>>=◌ {ℓ κ} : {A : Type ℓ} {B : Type κ} → Result A → (A → Result B) → Result B
ok a >>= f = f a
too_many_streams >>= f = too_many_streams
too_large >>= f = too_large

-- `seqs.get(seq, b"")`, and `stream_seqs.setdefault(key, {})`.
unfoldable pub stored : ℕ → Dict ℕ (List ℕ) → List ℕ
stored seq seqs = elim (lookup seq seqs) [ none ↦ [] | some p ↦ p ]

unfoldable pub seqs_of : Key → Dict Key (Dict ℕ (List ℕ)) → Dict ℕ (List ℕ)
seqs_of key streams = elim (lookup key streams) [ none ↦ [] | some seqs ↦ seqs ]

-- The inner loop's body, for one piece.
unfoldable pub store_piece : Key → State → Piece → Result State
store_piece key s (seq, payload) =
    let seqs = seqs_of key s.stream_seqs in
    let payload_total = s.total_payload + (length payload - length (stored seq seqs)) in
    let segments_total = s.total_segments + (if contains seq seqs then 0 else 1) in
    if not (contains key s.stream_seqs) && leb max_streams (length s.stream_seqs)
    then too_many_streams
    else if not (contains seq seqs) || ltb (length (stored seq seqs)) (length payload)
    then (if ltb max_payload payload_total || ltb max_segments segments_total
        then too_large
        else ok (record {
          stream_seqs = insert key (insert seq payload seqs) s.stream_seqs;
          total_payload = payload_total;
          total_segments = segments_total;
        }))
    else ok (record s { stream_seqs = insert key seqs s.stream_seqs })

unfoldable pub store_pieces : Key → State → List Piece → Result State
store_pieces key s [] = ok s
store_pieces key s (p ∷ ps) = store_piece key s p >>= λ s'. store_pieces key s' ps

-- `media_ranges.get(key, ())`.
unfoldable pub ranges_of : Key → Dict Key (List (ℕ × ℕ)) → List (ℕ × ℕ)
ranges_of key ranges = elim (lookup key ranges) [ none ↦ [] | some r ↦ r ]

-- The first loop: each segment without the media ranges of its stream.
unfoldable pub collect : Dict Key (List (ℕ × ℕ)) → State → List Segment → Result State
collect ranges s [] = ok s
collect ranges s (g ∷ gs) =
    store_pieces g.key s (cut_ranges (ranges_of g.key ranges) ((g.seq, g.payload) ∷ [])) >>= λ s'.
    collect ranges s' gs

-- `sorted(seq_map.items())`: the sequence numbers of a dict are distinct.
unfoldable pub insert_sorted : Piece → List Piece → List Piece
insert_sorted p [] = p ∷ []
insert_sorted p (q ∷ qs) = if leb p.0 q.0 then p ∷ q ∷ qs else q ∷ insert_sorted p qs

unfoldable pub sort_pieces : List Piece → List Piece
sort_pieces [] = []
sort_pieces (p ∷ ps) = insert_sorted p (sort_pieces ps)

-- The last loop: `merged` and `next_seq`.
unfoldable pub merge_pieces : List ℕ → Option ℕ → List Piece → List ℕ
merge_pieces merged next [] = merged
merge_pieces merged none ((seq, payload) ∷ ps) =
    merge_pieces (merged ++ payload) (some (seq + length payload)) ps
merge_pieces merged (some next) ((seq, payload) ∷ ps) =
    let overlap = next - seq in
    let appended = merge_pieces (merged ++ payload) (some (seq + length payload)) ps in
    let extended = merge_pieces (merged ++ drop overlap payload) (some (seq + length payload)) ps in
    let skipped = merge_pieces merged (some next) ps in
    if leb next seq then appended else if ltb overlap (length payload) then extended else skipped

unfoldable pub merge_streams : Dict Key (Dict ℕ (List ℕ)) → Dict Key (List ℕ)
merge_streams [] = []
merge_streams ((key, seqs) ∷ rest) =
    (key, merge_pieces [] none (sort_pieces seqs)) ∷ merge_streams rest

unfoldable pub reassemble_tcp_streams :
    Dict Key (List (ℕ × ℕ)) → List Segment → Result (Dict Key (List ℕ))
reassemble_tcp_streams ranges segments =
    collect ranges empty segments >>= λ s. ok (merge_streams s.stream_seqs)
