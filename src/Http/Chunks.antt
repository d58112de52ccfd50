-- ===== src/Http/Chunks.antt =====
-- Chunked bodies are read back, and a negative size keeps the loop where it is.
use iptv_sniffer_web.Base.{
  ℕ, zero, suc, ◌+◌, ◌-◌, ◌≡◌, refl, sym, ap, ◌∙◌, ◌≢◌, ◌⊎◌, inl, inr, true, false, none, some,
  List, [], ◌∷◌, ◌++◌, arith, leb, nat_eq, string_eq, pair_eq, list_eq, length, take, drop,
  length-append, take-append, drop-append, All,
}
use mathlib.Core.List.{append_assoc, append-nil}
use iptv_sniffer_web.Exports.Urls.{strip, strip_left, strip_right}
use iptv_sniffer_web.Http.{
  starts_lf, find_crlf, plus, hex_digit, hex_run, hex_number, is_blank, signed_hex, hex_int,
  sized_chunk, next_chunk, unchunk_loop, unchunk,
}

-- A body whose first size line is -6.
abbrev pub stuck_body : List ℕ → List ℕ
stuck_body rest = 45 ∷ 54 ∷ 13 ∷ 10 ∷ rest

stuck_chunk :
    (rest : List ℕ)
    → next_chunk (stuck_body rest) 0
      ≡ some (drop 4 (take (length (stuck_body rest) - 2) (stuck_body rest)), 0)
unfolding next_chunk find_crlf starts_lf hex_int strip strip_left strip_right is_blank signed_hex
    hex_number hex_run hex_digit sized_chunk
stuck_chunk rest =
    let more : leb (length (stuck_body rest)) 0 ≡ false = ground arith in rw (next_chunk, more) refl

unchunk_loop_stuck :
    (fuel : ℕ) (rest out : List ℕ) → unchunk_loop fuel (stuck_body rest) 0 out ≡ none
unfolding unchunk_loop
unchunk_loop_stuck zero rest out = refl
unchunk_loop_stuck (suc fuel) rest out =
    rw (unchunk_loop, stuck_chunk rest) (unchunk_loop_stuck fuel rest _)

-- A body whose first size line is -6 is never read to its end, whatever follows and however many
-- rounds the loop is given.
pub unchunk_stuck : (fuel : ℕ) (rest : List ℕ) → unchunk fuel (stuck_body rest) ≡ none
unfolding unchunk
unchunk_stuck fuel rest = unchunk_loop_stuck fuel rest []

-- A chunk: its size line names the size of its bytes.
pub record Chunk : Type 0 where
  pub line : List ℕ
  pub bytes : List ℕ
  pub size : ℕ
  pub sized : length bytes ≡ suc size
  pub named : hex_int line ≡ some (plus (suc size))
  pub plain_line : All (λ c. c ≢ 13) line

abbrev pub chunk_bytes : Chunk → List ℕ → List ℕ
chunk_bytes c rest = c.line ++ 13 ∷ (10 ∷ (c.bytes ++ 13 ∷ (10 ∷ rest)))

abbrev pub chunked : List Chunk → List ℕ → List ℕ
chunked [] end = end
chunked (c ∷ cs) end = chunk_bytes c (chunked cs end)

abbrev pub contents : List Chunk → List ℕ
contents [] = []
contents (c ∷ cs) = c.bytes ++ contents cs

find_crlf-line :
    (line rest : List ℕ)
    → All (λ c. c ≢ 13) line
    → find_crlf (line ++ 13 ∷ (10 ∷ rest)) ≡ some (length line)
unfolding find_crlf starts_lf
find_crlf-line [] rest a = ground arith
find_crlf-line (c ∷ line) rest a = rw (find_crlf-line line rest a.1) (ground (arith, a.0))

length-chunk_bytes :
    (c : Chunk) (rest : List ℕ)
    → length (chunk_bytes c rest) ≡ length c.line + 2 + length c.bytes + 2 + length rest
length-chunk_bytes c rest = omega (
  arith,
  length-append c.line (13 ∷ (10 ∷ (c.bytes ++ 13 ∷ (10 ∷ rest)))),
  length-append c.bytes (13 ∷ (10 ∷ rest)),
)

drop-chunk_bytes :
    (pre : List ℕ) (c : Chunk) (rest : List ℕ)
    → drop (length pre + length c.line + 2) (pre ++ chunk_bytes c rest)
      ≡ c.bytes ++ 13 ∷ (10 ∷ rest)
drop-chunk_bytes pre c rest =
    let after = c.bytes ++ 13 ∷ (10 ∷ rest) in
    let head = pre ++ (c.line ++ 13 ∷ (10 ∷ [])) in
    let whole : pre ++ chunk_bytes c rest ≡ head ++ after =
      ap (◌++◌ pre) (sym (append_assoc c.line (13 ∷ (10 ∷ [])) after))
      ∙ sym (append_assoc pre (c.line ++ 13 ∷ (10 ∷ [])) after) in
    rw whole (
      drop-append (length pre + length c.line + 2) head after (
        omega (
          arith,
          length-append pre (c.line ++ 13 ∷ (10 ∷ [])),
          length-append c.line (13 ∷ (10 ∷ [])),
        )))

sized_chunk-chunk :
    (pre : List ℕ) (c : Chunk) (rest : List ℕ)
    → sized_chunk (pre ++ chunk_bytes c rest) (length pre + length c.line) (plus (suc c.size))
      ≡ some (c.bytes, length (pre ++ chunk_bytes c []))
unfolding sized_chunk
sized_chunk-chunk pre c rest =
    let place : length pre + length c.line + 2 + suc c.size + 2 ≡ length (pre ++ chunk_bytes c []) =
      omega (arith, c.sized, length-append pre (chunk_bytes c []), length-chunk_bytes c []) in
    rw
      (
        drop-chunk_bytes pre c rest,
        take-append (suc c.size) c.bytes (13 ∷ (10 ∷ rest)) (sym c.sized),
        place,
      )
      refl

more_bytes :
    (pre : List ℕ) (c : Chunk) (rest : List ℕ)
    → leb (length (pre ++ chunk_bytes c rest)) (length pre) ≡ false
more_bytes pre c rest =
    ground (arith, length-append pre (chunk_bytes c rest), length-chunk_bytes c rest)

-- One round reads one chunk.
next_chunk-chunk :
    (pre : List ℕ) (c : Chunk) (rest : List ℕ)
    → next_chunk (pre ++ chunk_bytes c rest) (length pre)
      ≡ some (c.bytes, length (pre ++ chunk_bytes c []))
unfolding next_chunk
next_chunk-chunk pre c rest =
    let more : leb (length (pre ++ chunk_bytes c rest)) (length pre) ≡ false =
      more_bytes pre c rest in
    rw
      (
        next_chunk,
        more,
        drop-append (length pre) pre (chunk_bytes c rest) refl,
        find_crlf-line c.line (c.bytes ++ 13 ∷ (10 ∷ rest)) c.plain_line,
        take-append (length c.line) c.line (13 ∷ (10 ∷ (c.bytes ++ 13 ∷ (10 ∷ rest)))) refl,
        c.named,
      )
      (sized_chunk-chunk pre c rest)

-- Where the chunks end: at a size of zero, or at the end of the bytes.
abbrev pub IsEnd : List ℕ → Type 0
IsEnd end =
    (end ≡ [])
    ⊎ ((line rest : List ℕ) × All (λ c. c ≢ 13) line
        × (hex_int line ≡ some (plus 0))
        × (end ≡ line ++ 13 ∷ (10 ∷ rest)))

next_chunk-end : (pre end : List ℕ) → IsEnd end → next_chunk (pre ++ end) (length pre) ≡ none
unfolding next_chunk sized_chunk
next_chunk-end pre end (inl e) =
    let over : leb (length (pre ++ end)) (length pre) ≡ true =
      rw (e, append-nil pre) (ground arith) in
    rw (next_chunk, over) refl
next_chunk-end pre end (inr (line, rest, plain, zero_size, e)) =
    let more : leb (length (pre ++ (line ++ 13 ∷ (10 ∷ rest)))) (length pre) ≡ false = ground (
      arith,
      length-append pre (line ++ 13 ∷ (10 ∷ rest)),
      length-append line (13 ∷ (10 ∷ rest)),
    ) in
    rw
      (
        e,
        next_chunk,
        more,
        drop-append (length pre) pre (line ++ 13 ∷ (10 ∷ rest)) refl,
        find_crlf-line line rest plain,
        take-append (length line) line (13 ∷ (10 ∷ rest)) refl,
        zero_size,
      )
      refl

chunk_bytes-append : (c : Chunk) (rest : List ℕ) → chunk_bytes c rest ≡ chunk_bytes c [] ++ rest
chunk_bytes-append c rest =
    ap (λ x. c.line ++ 13 ∷ (10 ∷ x)) (sym (append_assoc c.bytes (13 ∷ (10 ∷ [])) rest))
    ∙ sym (append_assoc c.line (13 ∷ (10 ∷ (c.bytes ++ 13 ∷ (10 ∷ [])))) rest)

unchunk_loop-next :
    (fuel : ℕ) (input : List ℕ) (i : ℕ) (out bytes : List ℕ) (j : ℕ)
    → next_chunk input i ≡ some (bytes, j)
    → unchunk_loop (suc fuel) input i out ≡ unchunk_loop fuel input j (out ++ bytes)
unfolding unchunk_loop
unchunk_loop-next fuel input i out bytes j h = rw (unchunk_loop, h) refl

unchunk_loop-chunked :
    (pre : List ℕ) (cs : List Chunk) (end out : List ℕ)
    → IsEnd end
    → unchunk_loop (suc (length cs)) (pre ++ chunked cs end) (length pre) out
      ≡ some (out ++ contents cs)
unfolding unchunk_loop
unchunk_loop-chunked pre [] end out e =
    rw (unchunk_loop, next_chunk-end pre end e) (ap some (sym (append-nil out)))
unchunk_loop-chunked pre (c ∷ cs) end out e =
    let after = pre ++ chunk_bytes c [] in
    let whole : pre ++ chunk_bytes c (chunked cs end) ≡ after ++ chunked cs end =
      ap (◌++◌ pre) (chunk_bytes-append c (chunked cs end))
      ∙ sym (append_assoc pre (chunk_bytes c []) (chunked cs end)) in
    unchunk_loop-next (suc (length cs)) (pre ++ chunk_bytes c (chunked cs end)) (length pre) out
      c.bytes (length after) (next_chunk-chunk pre c (chunked cs end))
    ∙ ap (λ x. unchunk_loop (suc (length cs)) x (length after) (out ++ c.bytes)) whole
    ∙ unchunk_loop-chunked after cs end (out ++ c.bytes) e
    ∙ ap some (append_assoc out c.bytes (contents cs))

-- Chunks whose size lines are hexadecimal numbers, with a chunk of size zero or nothing behind them,
-- are read to exactly their bytes, one round for each of them and one for the end.
pub unchunk-chunked :
    (cs : List Chunk) (end : List ℕ)
    → IsEnd end
    → unchunk (suc (length cs)) (chunked cs end) ≡ some (contents cs)
unfolding unchunk
unchunk-chunked cs end e = unchunk_loop-chunked [] cs end [] e
