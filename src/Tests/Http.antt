-- ===== src/Tests/Http.antt =====
-- Witnesses for chunked bodies.
use iptv_sniffer_web.Base.{
  ◌≡◌, refl, inl, none, some, [], ◌∷◌, arith, nat_eq, string_eq, pair_eq, list_eq,
}
use iptv_sniffer_web.Exports.Urls.{strip, strip_left, strip_right}
use iptv_sniffer_web.Http.{hex_digit, hex_run, hex_number, is_blank, signed_hex, hex_int, unchunk}
use iptv_sniffer_web.Http.Chunks.{stuck_body, Chunk, chunked, unchunk-chunked, unchunk_stuck}

-- "2" and two bytes.
abbrev two : Chunk
two = record {
  line = 50 ∷ [];
  bytes = 7 ∷ 8 ∷ [];
  size = 1;
  sized = refl;
  named =
      unfold hex_int strip strip_left strip_right is_blank signed_hex hex_number hex_run
        hex_digit in
      refl;
  plain_line = (ground arith, tt);
}

unchunk-chunked_example : unchunk 3 (chunked (two ∷ two ∷ []) []) ≡ some (7 ∷ 8 ∷ 7 ∷ 8 ∷ [])
unchunk-chunked_example = unchunk-chunked (two ∷ two ∷ []) [] (inl refl)

unchunk_stuck_example : unchunk 5 (stuck_body (1 ∷ 2 ∷ 3 ∷ [])) ≡ none
unchunk_stuck_example = unchunk_stuck 5 (1 ∷ 2 ∷ 3 ∷ [])
