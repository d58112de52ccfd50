-- ===== src/Http.antt =====
-- services/stb_discovery_service.py, `_unchunk`: the body of a captured HTTP response without its
-- chunked encoding. A position may be set back by a negative size; Python reads a negative position
-- from the end, so it is kept as the index that it stands for. The loop runs on fuel, and `none` is
-- a loop that has not ended.
pub mod Chunks
use iptv_sniffer_web.Base.{
  ℕ, zero, suc, ◌+◌, ◌-◌, ◌*◌, ◌/◌, ◌%◌, ◌^◌, ◌≤◌, ◌<◌, min, max, String, ◌≡◌, refl, sym, ap, ◌∙◌,
  ◌≢◌, ◌↔◌, ◌⊎◌, inl, inr, Bool, true, false, not, ◌&&◌, ◌||◌, Option, none, some, List, [], ◌∷◌,
  ◌++◌, map, arith, ◌>>=◌, >>=-eq-some, ltb, leb, if◌then◌else◌, ◌==◌, nat_eq, string_eq, pair_eq,
  list_eq, Bool-cases, Option-cases, ltb→lt, ltb→le, lt→ltb, le→ltb, leb→le, le→leb, length, get_or,
  get_elem?, take, drop, last_n, length-append, length-take, length-drop, take-append-drop,
  take-append, drop-append, take_all, take-append_le, drop-append_le, slice-append, get_or-append,
  All, All-append, byte_at, slice, be16, be32, le16, le32, IsByte, AreBytes, put_be16, put_be32,
  put_le16, put_le32, ==_iff, ==_refl, Text, str_nat, is_digit, digits_value, digits_value-str_nat,
}
use iptv_sniffer_web.Exports.Urls.{strip}

-- Where the first carriage return with a line feed stands.
unfoldable pub starts_lf : List ℕ → Bool
starts_lf [] = false
starts_lf (c ∷ cs) = c == 10

unfoldable pub find_crlf : List ℕ → Option ℕ
find_crlf [] = none
find_crlf (c ∷ cs) =
    let rest = find_crlf cs in
    if c == 13 && starts_lf cs then some 0 else (rest >>= λ n. some (suc n))

pub data Size : Type 0 where
  plus minus : ℕ → Size

unfoldable pub hex_digit : ℕ → Option ℕ
hex_digit c =
    if leb 48 c && leb c 57
    then some (c - 48)
    else if leb 97 c && leb c 102
    then some (c - 87)
    else if leb 65 c && leb c 70
    then some (c - 55)
    else none

-- Digits with single underscores between them; `after` says that a digit stands before.
unfoldable pub hex_run : ℕ → Bool → List ℕ → Option ℕ
hex_run acc after [] = if after then some acc else none
hex_run acc after (c ∷ cs) =
    let skipped = hex_run acc false cs in
    elim (hex_digit c) [
      | none ↦ if c == 95 && after then skipped else none
      | some d ↦ hex_run (acc * 16 + d) true cs
    ]

-- An underscore may follow the prefix `0x`.
unfoldable pub hex_body : List ℕ → Option ℕ
hex_body [] = none
hex_body (c ∷ cs) = if c == 95 then hex_run 0 false cs else hex_run 0 false (c ∷ cs)

unfoldable pub hex_number : List ℕ → Option ℕ
hex_number (c ∷ x ∷ cs) =
    if c == 48 && (x == 120 || x == 88) then hex_body cs else hex_run 0 false (c ∷ x ∷ cs)
hex_number cs = hex_run 0 false cs

unfoldable pub is_blank : ℕ → Bool
is_blank c = c == 32 || leb 9 c && leb c 13

unfoldable pub signed_hex : List ℕ → Option Size
signed_hex [] = none
signed_hex (c ∷ cs) =
    if c == 45
    then (hex_number cs >>= λ n. some (minus n))
    else if c == 43
    then (hex_number cs >>= λ n. some (plus n))
    else (hex_number (c ∷ cs) >>= λ n. some (plus n))

-- `int(line, 16)`.
unfoldable pub hex_int : List ℕ → Option Size
hex_int line = signed_hex (strip is_blank line)

-- A chunk's bytes and the position behind it, where `nl` is the end of its size line.
unfoldable pub sized_chunk : List ℕ → ℕ → Size → Option (List ℕ × ℕ)
sized_chunk data_bytes nl (plus zero) = none
sized_chunk data_bytes nl (plus (suc n)) =
    some (take (suc n) (drop (nl + 2) data_bytes), nl + 2 + suc n + 2)
sized_chunk data_bytes nl (minus zero) = none
sized_chunk data_bytes nl (minus (suc m)) = some (
  if leb (suc m) (nl + 2)
      then []
      else drop (nl + 2) (take (length data_bytes - (suc m - (nl + 2))) data_bytes),
  if leb (suc m) (nl + 4) then nl + 4 - suc m else length data_bytes - (suc m - (nl + 4)),
)

-- One round of the loop; `none` is its end, at the end of the bytes or by a `break`.
unfoldable pub next_chunk : List ℕ → ℕ → Option (List ℕ × ℕ)
next_chunk data_bytes i =
    if leb (length data_bytes) i
    then none
    else (find_crlf (drop i data_bytes) >>= λ off.
        hex_int (take off (drop i data_bytes)) >>= λ size. sized_chunk data_bytes (i + off) size)

unfoldable pub unchunk_loop : ℕ → List ℕ → ℕ → List ℕ → Option (List ℕ)
unchunk_loop zero data_bytes i out = none
unchunk_loop (suc fuel) data_bytes i out = elim (next_chunk data_bytes i) [
  | none ↦ some out
  | some chunk ↦ unchunk_loop fuel data_bytes chunk.1 (out ++ chunk.0)
]

unfoldable pub unchunk : ℕ → List ℕ → Option (List ℕ)
unchunk fuel data_bytes = unchunk_loop fuel data_bytes 0 []
