-- ===== src/Base/Numerals.antt =====
-- Text as lists of code points, and the decimal numerals that keys are made of.
use Prim.Native.Nat.{ℕ, zero, suc, ◌+◌, ◌-◌, ◌*◌, ◌/◌, ◌%◌, ◌<◌, ◌≤◌}
use mathlib.Core.Path.{◌≡◌}
use mathlib.Core.Logic.{◌≢◌, inl, inr}
use mathlib.Core.Bool.{Bool, true, ◌&&◌}
use mathlib.Core.Option.{Option, none, some}
use mathlib.Core.List.{List, [], ◌∷◌, ◌++◌}
use native.Mathlib.Omega.{arith}
use iptv_sniffer_web.Base.Tests.{ltb, leb, if◌then◌else◌, Bool-cases, lt→ltb}
use iptv_sniffer_web.Base.Lists.{length, get_or, All, All-append, length-append}

abbrev pub Text : Type 0
Text = List ℕ

-- `str(n)`. A number has fewer digits than its successor counts.
unfoldable pub str_fuel : ℕ → ℕ → Text
str_fuel zero n = []
str_fuel (suc fuel) n =
    let front = str_fuel fuel (n / 10) in
    if ltb n 10 then (48 + n) ∷ [] else front ++ (48 + n % 10) ∷ []

unfoldable pub str_nat : ℕ → Text
unfolding str_fuel
str_nat n = str_fuel (suc n) n

abbrev pub is_digit : ℕ → Bool
is_digit c = leb 48 c && leb c 57

-- The value of a run of decimal digits, `none` at any other character.
unfoldable pub digits_value : ℕ → Text → Option ℕ
digits_value acc [] = some acc
digits_value acc (c ∷ cs) =
    let rest = digits_value (acc * 10 + (c - 48)) cs in if is_digit c then rest else none

digits_value-append :
    (acc : ℕ) (xs ys : Text) (m : ℕ)
    → digits_value acc xs ≡ some m
    → digits_value acc (xs ++ ys) ≡ digits_value m ys
unfolding digits_value
digits_value-append acc [] ys m h = ground arith
digits_value-append acc (c ∷ cs) ys m h =
    ground (arith, digits_value-append (acc * 10 + (c - 48)) cs ys m)

digits_value-str_fuel : (fuel n : ℕ) → n < fuel → digits_value 0 (str_fuel fuel n) ≡ some n
unfolding str_fuel
digits_value-str_fuel zero n h = absurd (omega arith)
digits_value-str_fuel (suc fuel) n h = elim (Bool-cases (ltb n 10)) [
  | inl small ↦ rw small (one n small)
  | inr large ↦
      rw
        (
          large,
          digits_value-append 0 (str_fuel fuel (n / 10)) ((48 + n % 10) ∷ []) (n / 10)
              (digits_value-str_fuel fuel (n / 10) (ground arith)),
        )
        (last n)
]
  where
    one : (n : ℕ) → ltb n 10 ≡ true → digits_value 0 ((48 + n) ∷ []) ≡ some n
    one n small = unfold digits_value in ground arith

    last : (n : ℕ) → digits_value (n / 10) ((48 + n % 10) ∷ []) ≡ some n
    last n = unfold digits_value in ground arith

-- A numeral names its number.
pub digits_value-str_nat : (n : ℕ) → digits_value 0 (str_nat n) ≡ some n
unfolding str_nat
digits_value-str_nat n = digits_value-str_fuel (suc n) n (omega arith)

abbrev pub IsDigit : ℕ → Type 0
IsDigit c = (48 ≤ c) × (c ≤ 57)

str_fuel-digits : (fuel n : ℕ) → All IsDigit (str_fuel fuel n)
unfolding str_fuel
str_fuel-digits zero n = tt
str_fuel-digits (suc fuel) n = elim (Bool-cases (ltb n 10)) [
  | inl small ↦ rw small ((omega arith, ground arith), tt)
  | inr large ↦ rw large (
      All-append IsDigit (str_fuel fuel (n / 10)) ((48 + n % 10) ∷ [])
        (str_fuel-digits fuel (n / 10)) ((omega arith, omega arith), tt))
]

-- A numeral is made of digits.
pub str_nat-digits : (n : ℕ) → All IsDigit (str_nat n)
unfolding str_nat
str_nat-digits n = str_fuel-digits (suc n) n

-- The shape of the numeral of an octet.
abbrev pub IsShort : Text → Type 0
IsShort w = (0 < length w) × (length w ≤ 3) × (1 < length w → get_or w 0 0 ≢ 48)

str_fuel-IsShort : (f n : ℕ) → n < 1000 → IsShort (str_fuel (suc (suc (suc f))) n)
unfolding str_fuel
str_fuel-IsShort f n h = elim (Bool-cases (ltb n 10)) [
  | inl small ↦ rw small (omega arith, omega arith, λ l. absurd (omega arith))
  | inr large ↦ rw large (elim (Bool-cases (ltb (n / 10) 10)) [
    | inl two ↦ rw two (omega arith, omega arith, λ l e. ground arith)
    | inr three ↦
        rw (three, lt→ltb (n / 10 / 10) 10 (omega arith))
          (omega arith, omega arith, λ l e. ground arith)
  ])
]

-- The numeral of a small number is short and starts with no zero of its own.
pub str_nat-IsShort : (n : ℕ) → n < 1000 → IsShort (str_nat n)
unfolding str_nat
str_nat-IsShort zero h = (omega arith, omega arith, λ l. absurd (omega arith))
str_nat-IsShort (suc zero) h = (omega arith, omega arith, λ l. absurd (omega arith))
str_nat-IsShort (suc (suc n)) h = str_fuel-IsShort n (suc (suc n)) h

pub str_nat-nonempty : (n : ℕ) → 0 < length (str_nat n)
unfolding str_nat str_fuel
str_nat-nonempty n = elim (Bool-cases (ltb n 10)) [
  | inl small ↦ rw small (omega arith)
  | inr large ↦ rw large (omega (arith, length-append (str_fuel n (n / 10)) ((48 + n % 10) ∷ [])))
]
