-- ===== src/Tests/Streams.antt =====
-- A stream of four bytes in two segments that overlap, stored out of order.
use iptv_sniffer_web.Base.{
  ℕ, ◌+◌, ◌≤◌, ◌<◌, ◌≡◌, refl, none, List, [], ◌∷◌, arith, if◌then◌else◌, nat_eq, string_eq,
  pair_eq, list_eq,
}
use iptv_sniffer_web.Base.Dict.{lookup, insert, contains}
use iptv_sniffer_web.Tcp.{Key, Segment}
use iptv_sniffer_web.Tcp.Reassembly.{
  Piece, cut_ranges, State, empty, collect, sort_pieces, merge_pieces, store_pieces, store_piece,
  ranges_of, seqs_of, stored,
}
use iptv_sniffer_web.Tcp.Reassembly.Cut.{bytes_at, in_ranges, bytes_at-cut_ranges}
use iptv_sniffer_web.Tcp.Reassembly.Limits.{IsBounded, collect-IsBounded}
use iptv_sniffer_web.Tcp.Reassembly.Merge.{read, Covered, merge_pieces-sort_pieces}

abbrev stream : ℕ → ℕ
stream pos = pos + 7

abbrev pieces : List Piece
pieces = (102, 109 ∷ 110 ∷ []) ∷ (100, 107 ∷ 108 ∷ 109 ∷ []) ∷ []

covered : (pos : ℕ) → 100 ≤ pos → pos < 104 → Covered pos pieces
covered pos h k = ground arith

merge_pieces-sort_pieces_example : merge_pieces [] none (sort_pieces pieces) ≡ read stream 100 4
unfolding read
merge_pieces-sort_pieces_example =
    merge_pieces-sort_pieces stream 100 104 pieces (omega arith)
      ((refl, omega arith, omega arith), ((refl, omega arith, omega arith), tt)) covered

bytes_at-cut_ranges_example :
    bytes_at (cut_ranges ((101, 103) ∷ []) ((100, 1 ∷ 2 ∷ 3 ∷ 4 ∷ []) ∷ [])) 103 ≡ (
      if in_ranges ((101, 103) ∷ []) 103 then [] else bytes_at ((100, 1 ∷ 2 ∷ 3 ∷ 4 ∷ []) ∷ []) 103)
bytes_at-cut_ranges_example =
    bytes_at-cut_ranges ((101, 103) ∷ []) ((100, 1 ∷ 2 ∷ 3 ∷ 4 ∷ []) ∷ []) 103 (omega arith, tt)

abbrev key : Key
key = ((b'a' ∷ [], 1), (b'b' ∷ [], 2))

abbrev segments : List Segment
segments =
    record { key = key; seq = 5; payload = 1 ∷ 2 ∷ [] }
    ∷ record { key = key; seq = 5; payload = 1 ∷ 2 ∷ 3 ∷ [] }
    ∷ []

abbrev held : State
held = record {
  stream_seqs = (key, (5, 1 ∷ 2 ∷ 3 ∷ []) ∷ []) ∷ [];
  total_payload = 3;
  total_segments = 1;
}

collect-IsBounded_example : IsBounded held
unfolding collect empty store_pieces store_piece ranges_of seqs_of stored cut_ranges lookup insert
    contains
collect-IsBounded_example = collect-IsBounded [] segments held refl
