-- ===== src/Base/Bytes.antt =====
-- Byte strings as lists of numbers below 256: what `struct.unpack` and slices read.
use Prim.Native.Nat.{ℕ, ◌+◌, ◌-◌, ◌*◌, ◌/◌, ◌%◌, ◌≤◌, ◌<◌}
use mathlib.Core.List.{List, [], ◌∷◌}
use mathlib.Core.Path.{◌≡◌}
use mathlib.Core.List.{◌++◌}
use native.Mathlib.Omega.{arith}
use iptv_sniffer_web.Base.Lists.{
  get_or, take, drop, All, length, length-drop, take-append_le, drop-append_le,
}

-- `bs[i]`; the source tests the length before each read.
abbrev pub byte_at : List ℕ → ℕ → ℕ
byte_at bs i = get_or bs i 0

-- `bs[i:j]`.
abbrev pub slice : List ℕ → ℕ → ℕ → List ℕ
slice bs i j = take (j - i) (drop i bs)

pub slice-append :
    (bs cs : List ℕ) (i j : ℕ) → i ≤ j → j ≤ length bs → slice (bs ++ cs) i j ≡ slice bs i j
slice-append bs cs i j h k =
    rw (drop-append_le i bs cs (omega arith))
      (take-append_le (j - i) (drop i bs) cs (omega (arith, length-drop i bs)))

-- `struct.unpack(">H", bs[i:i+2])`, and `">I"`.
abbrev pub be16 : List ℕ → ℕ → ℕ
be16 bs i = byte_at bs i * 256 + byte_at bs (i + 1)

abbrev pub be32 : List ℕ → ℕ → ℕ
be32 bs i =
    byte_at bs i * 16777216
    + byte_at bs (i + 1) * 65536
    + byte_at bs (i + 2) * 256
    + byte_at bs (i + 3)

-- `struct.unpack("<H", …)`, and `"<I"`.
abbrev pub le16 : List ℕ → ℕ → ℕ
le16 bs i = byte_at bs i + byte_at bs (i + 1) * 256

abbrev pub le32 : List ℕ → ℕ → ℕ
le32 bs i =
    byte_at bs i
    + byte_at bs (i + 1) * 256
    + byte_at bs (i + 2) * 65536
    + byte_at bs (i + 3) * 16777216

abbrev pub IsByte : ℕ → Type 0
IsByte b = b < 256

abbrev pub AreBytes : List ℕ → Type 0
AreBytes = All IsByte

-- `struct.pack(">H", n)` and its kin, which the round trips read back.
abbrev pub put_be16 : ℕ → List ℕ
put_be16 n = n / 256 % 256 ∷ n % 256 ∷ []

abbrev pub put_be32 : ℕ → List ℕ
put_be32 n = n / 16777216 % 256 ∷ n / 65536 % 256 ∷ n / 256 % 256 ∷ n % 256 ∷ []

abbrev pub put_le16 : ℕ → List ℕ
put_le16 n = n % 256 ∷ n / 256 % 256 ∷ []

abbrev pub put_le32 : ℕ → List ℕ
put_le32 n = n % 256 ∷ n / 256 % 256 ∷ n / 65536 % 256 ∷ n / 16777216 % 256 ∷ []
