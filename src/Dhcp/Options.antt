-- ===== src/Dhcp/Options.antt =====
-- Options as a client writes them, and what is read from them.
use iptv_sniffer_web.Base.{
  ℕ, zero, suc, ◌≤◌, ◌<◌, ◌≡◌, refl, false, ◌||◌, List, [], ◌∷◌, ◌++◌, arith, ltb, ◌==◌, nat_eq,
  string_eq, pair_eq, list_eq, length, length-append, take-append, drop-append, All,
}
use mathlib.Core.List.{append_assoc}
use iptv_sniffer_web.Base.Dict.{Dict, insert}
use iptv_sniffer_web.Dhcp.{options_loop, parse_dhcp_options}

-- An option with its value, or a byte of padding.
pub data Item : Type 0 where
  pad : Item
  option : ℕ → List ℕ → Item

abbrev pub IsItem : Item → Type 0
IsItem pad = Unit {0}
IsItem (option code value) = (0 < code) × (code < 255) × (length value < 256)

abbrev pub item_bytes : List Item → List ℕ
item_bytes [] = []
item_bytes (pad ∷ is) = 0 ∷ item_bytes is
item_bytes (option code value ∷ is) = code ∷ length value ∷ value ++ item_bytes is

-- The options of a list of items: of two with one code, the later holds.
unfoldable pub options_of : Dict ℕ (List ℕ) → List Item → Dict ℕ (List ℕ)
options_of opts [] = opts
options_of opts (pad ∷ is) = options_of opts is
options_of opts (option code value ∷ is) = options_of (insert code value opts) is

nonzero : (code : ℕ) → 0 < code → (code == 0) ≡ false
nonzero code h = ground arith

ordinary : (code : ℕ) → code < 255 → (code == 255) ≡ false
ordinary code h = ground arith

fits :
    (n : ℕ) (bs : List ℕ)
    → n ≤ length bs
    → (length (n ∷ bs) == 0 || ltb (length (n ∷ bs)) (suc n)) ≡ false
fits n bs h = ground arith

options_loop-item_bytes :
    (fuel : ℕ) (opts : Dict ℕ (List ℕ)) (is : List Item) (junk : List ℕ)
    → length (item_bytes is) < fuel
    → All IsItem is
    → options_loop fuel opts (item_bytes is ++ 255 ∷ junk) ≡ options_of opts is
unfolding options_loop options_of
options_loop-item_bytes zero opts is junk h k = absurd (omega arith)
options_loop-item_bytes (suc fuel) opts [] [] h k = refl
options_loop-item_bytes (suc fuel) opts [] (j ∷ junk) h k = refl
options_loop-item_bytes (suc fuel) opts (pad ∷ is) junk h k =
    options_loop-item_bytes fuel opts is junk (omega arith) k.1
options_loop-item_bytes (suc fuel) opts (option code value ∷ is) junk h k =
    let rest = item_bytes is ++ 255 ∷ junk in
    rw (append_assoc value (item_bytes is) (255 ∷ junk)) (
      rw
        (
          nonzero code (k.0).0,
          ordinary code (k.0).1,
          fits (length value) (value ++ rest) (omega (arith, length-append value rest)),
          take-append (length value) value rest refl,
          drop-append (length value) value rest refl,
        )
        (options_loop-item_bytes fuel (insert code value opts) is junk
          (omega (arith, length-append value (item_bytes is))) k.1))

-- Any options that a client writes, padded anywhere and ended by END, are read back, each code with
-- its last value, whatever bytes follow the end.
pub parse_dhcp_options-item_bytes :
    (is : List Item) (junk : List ℕ)
    → All IsItem is
    → parse_dhcp_options (item_bytes is ++ 255 ∷ junk) ≡ options_of [] is
unfolding parse_dhcp_options
parse_dhcp_options-item_bytes is junk h =
    options_loop-item_bytes (length (item_bytes is ++ 255 ∷ junk)) [] is junk
      (omega (arith, length-append (item_bytes is) (255 ∷ junk))) h
