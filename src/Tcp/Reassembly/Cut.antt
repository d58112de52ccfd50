-- ===== src/Tcp/Reassembly/Cut.antt =====
-- Cutting the media ranges out of a piece drops exactly the bytes in them.
use iptv_sniffer_web.Base.{
  ℕ, zero, suc, ◌+◌, ◌-◌, ◌≤◌, ◌<◌, ◌≡◌, refl, ◌⊎◌, Bool, false, ◌&&◌, ◌||◌, List, [], ◌∷◌, ◌++◌,
  arith, ltb, leb, if◌then◌else◌, ◌==◌, nat_eq, string_eq, pair_eq, list_eq, length, take, drop,
  All,
}
use mathlib.Core.List.{append-nil, append_assoc}
use iptv_sniffer_web.Tcp.Reassembly.{Piece, cut_piece, cut_range, cut_ranges}

-- The byte that a piece holds at a position of the stream, and all that a list of pieces holds there.
unfoldable pub byte_of : ℕ → List ℕ → ℕ → List ℕ
byte_of start [] pos = []
byte_of start (b ∷ bs) pos = if pos == start then b ∷ [] else byte_of (start + 1) bs pos

unfoldable pub bytes_at : List Piece → ℕ → List ℕ
bytes_at [] pos = []
bytes_at ((start, chunk) ∷ ps) pos = byte_of start chunk pos ++ bytes_at ps pos

-- Whether a position lies in one of the ranges.
unfoldable pub in_ranges : List (ℕ × ℕ) → ℕ → Bool
in_ranges [] pos = false
in_ranges ((lo, hi) ∷ rs) pos = (leb lo pos && ltb pos hi) || in_ranges rs pos

byte_of_out :
    (start : ℕ) (bs : List ℕ) (pos : ℕ)
    → (pos < start) ⊎ (start + length bs ≤ pos)
    → byte_of start bs pos ≡ []
unfolding byte_of
byte_of_out start [] pos h = refl
byte_of_out start (b ∷ bs) pos h = ground (arith, byte_of_out (start + 1) bs pos)

byte_of-take :
    (n start : ℕ) (bs : List ℕ) (pos : ℕ)
    → byte_of start (take n bs) pos ≡ (if ltb pos (start + n) then byte_of start bs pos else [])
unfolding byte_of
byte_of-take zero start bs pos = ground (arith, byte_of_out start bs pos)
byte_of-take (suc n) start [] pos = ground arith
byte_of-take (suc n) start (b ∷ bs) pos = ground (arith, byte_of-take n (start + 1) bs pos)

byte_of-drop :
    (n start hi : ℕ) (bs : List ℕ) (pos : ℕ)
    → hi ≡ start + n
    → byte_of hi (drop n bs) pos ≡ (if leb hi pos then byte_of start bs pos else [])
unfolding byte_of
byte_of-drop zero start hi bs pos h =
    let e : hi ≡ start = omega arith in rw e (ground (arith, byte_of_out start bs pos))
byte_of-drop (suc n) start hi [] pos h = ground arith
byte_of-drop (suc n) start hi (b ∷ bs) pos h = ground (arith, byte_of-drop n (start + 1) hi bs pos)

bytes_at-append :
    (ps qs : List Piece) (pos : ℕ) → bytes_at (ps ++ qs) pos ≡ bytes_at ps pos ++ bytes_at qs pos
unfolding bytes_at
bytes_at-append [] qs pos = refl
bytes_at-append ((start, chunk) ∷ ps) qs pos = simp (bytes_at-append ps qs pos, append_assoc)

bytes_at-cut_piece :
    (lo hi start : ℕ) (chunk : List ℕ) (pos : ℕ)
    → lo ≤ hi
    → bytes_at (cut_piece lo hi (start, chunk)) pos
      ≡ (if leb lo pos && ltb pos hi then [] else byte_of start chunk pos)
unfolding bytes_at cut_piece
bytes_at-cut_piece lo hi start chunk pos h = ground (
  arith,
  byte_of_out start chunk pos,
  byte_of-take (lo - start) start chunk pos,
  byte_of-drop (hi - start) start hi chunk pos,
  append-nil (byte_of start chunk pos),
  append-nil (byte_of start (take (lo - start) chunk) pos),
  append-nil (byte_of hi (drop (hi - start) chunk) pos),
)

bytes_at-cut_range :
    (lo hi : ℕ) (ps : List Piece) (pos : ℕ)
    → lo ≤ hi
    → bytes_at (cut_range lo hi ps) pos ≡ (if leb lo pos && ltb pos hi then [] else bytes_at ps pos)
unfolding bytes_at cut_range
bytes_at-cut_range lo hi [] pos h = ground arith
bytes_at-cut_range lo hi ((start, chunk) ∷ ps) pos h =
    rw
      (
        bytes_at-append (cut_piece lo hi (start, chunk)) (cut_range lo hi ps) pos,
        bytes_at-cut_piece lo hi start chunk pos h,
        bytes_at-cut_range lo hi ps pos h,
      )
      (ground arith)

-- Cutting the media ranges out of any pieces keeps, at each position of the stream, all the bytes
-- that the pieces hold there if the position lies in no range, and none if it lies in one.
pub bytes_at-cut_ranges :
    (rs : List (ℕ × ℕ)) (ps : List Piece) (pos : ℕ)
    → All (λ r. r.0 ≤ r.1) rs
    → bytes_at (cut_ranges rs ps) pos ≡ (if in_ranges rs pos then [] else bytes_at ps pos)
unfolding cut_ranges in_ranges
bytes_at-cut_ranges [] ps pos h = refl
bytes_at-cut_ranges ((lo, hi) ∷ rs) ps pos h = ground (
  arith,
  bytes_at-cut_ranges rs (cut_range lo hi ps) pos h.1,
  bytes_at-cut_range lo hi ps pos h.0,
)
