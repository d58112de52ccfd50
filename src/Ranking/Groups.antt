-- ===== src/Ranking/Groups.antt =====
-- Names that differ in case, punctuation and a quality at the end are lines of one channel.
use iptv_sniffer_web.Base.{
  ℕ, ◌≡◌, refl, ◌⊎◌, inl, inr, true, false, List, [], ◌∷◌, ◌++◌, arith, nat_eq, string_eq, pair_eq,
  list_eq, Text,
}
use iptv_sniffer_web.Ranking.{
  Characters, drop_punctuation, letter_of, spelled, is_scan, is_quality, is_one_of, is_lines,
  quality_words,
}

-- A name as it is compared: in upper case, without spaces and punctuation.
abbrev pub plain : Characters → Text → Text
plain chars name = drop_punctuation chars (chars.upper name)

-- A quality, as it is written at the end of a name: 4K, SUPER4K, UHD, 超高清, 高清, 标清, HD or SD in
-- letters of any case, or three or four decimals and a P or I.
pub data Quality (chars : Characters) (w : Text) : Type 0 where
  four_k : spelled w ≡ b'4' ∷ b'K' ∷ [] → Quality chars w
  super_4k : spelled w ≡ b'S' ∷ b'U' ∷ b'P' ∷ b'E' ∷ b'R' ∷ b'4' ∷ b'K' ∷ [] → Quality chars w
  uhd : spelled w ≡ b'U' ∷ b'H' ∷ b'D' ∷ [] → Quality chars w
  ultra_high : spelled w ≡ 36229 ∷ 39640 ∷ 28165 ∷ [] → Quality chars w
  high : spelled w ≡ 39640 ∷ 28165 ∷ [] → Quality chars w
  standard : spelled w ≡ 26631 ∷ 28165 ∷ [] → Quality chars w
  hd : spelled w ≡ b'H' ∷ b'D' ∷ [] → Quality chars w
  sd : spelled w ≡ b'S' ∷ b'D' ∷ [] → Quality chars w
  three_digits :
      (a b c p : ℕ)
      → w ≡ a ∷ b ∷ c ∷ p ∷ []
      → chars.is_decimal a ≡ true
      → chars.is_decimal b ≡ true
      → chars.is_decimal c ≡ true
      → (letter_of p ≡ b'P') ⊎ (letter_of p ≡ b'I')
      → Quality chars w
  four_digits :
      (a b c d p : ℕ)
      → w ≡ a ∷ b ∷ c ∷ d ∷ p ∷ []
      → chars.is_decimal a ≡ true
      → chars.is_decimal b ≡ true
      → chars.is_decimal c ≡ true
      → chars.is_decimal d ≡ true
      → (letter_of p ≡ b'P') ⊎ (letter_of p ≡ b'I')
      → Quality chars w

scans : (p : ℕ) → (letter_of p ≡ b'P') ⊎ (letter_of p ≡ b'I') → is_scan p ≡ true
unfolding is_scan
scans p (inl e) = rw e refl
scans p (inr e) = rw e refl

one_of_words :
    (chars : Characters) (w v : Text)
    → spelled w ≡ v
    → is_one_of v quality_words ≡ true
    → is_quality chars w ≡ true
unfolding is_quality
one_of_words chars w v e h = rw (e, h) refl

digits_and_scan :
    (chars : Characters) (w v : Text) → w ≡ v → is_lines chars v ≡ true → is_quality chars w ≡ true
unfolding is_quality
digits_and_scan chars w v e h = rw e (ground arith)

is_quality-Quality : (chars : Characters) (w : Text) → Quality chars w → is_quality chars w ≡ true
unfolding is_one_of quality_words is_lines
is_quality-Quality chars w (four_k e) = one_of_words chars w _ e refl
is_quality-Quality chars w (super_4k e) = one_of_words chars w _ e refl
is_quality-Quality chars w (uhd e) = one_of_words chars w _ e refl
is_quality-Quality chars w (ultra_high e) = one_of_words chars w _ e refl
is_quality-Quality chars w (high e) = one_of_words chars w _ e refl
is_quality-Quality chars w (standard e) = one_of_words chars w _ e refl
is_quality-Quality chars w (hd e) = one_of_words chars w _ e refl
is_quality-Quality chars w (sd e) = one_of_words chars w _ e refl
is_quality-Quality chars w (three_digits a b c p e da db dc s) =
    digits_and_scan chars w _ e (rw (da, db, dc, scans p s) refl)
is_quality-Quality chars w (four_digits a b c d p e da db dc dd s) =
    digits_and_scan chars w _ e (rw (da, db, dc, dd, scans p s) refl)

-- The text is one of these.
abbrev Listed : Text → List Text → Type 0
Listed w [] = ⊥
Listed w (x ∷ xs) = (w ≡ x) ⊎ Listed w xs

pub not-Quality : (chars : Characters) (w : Text) → is_quality chars w ≡ false → ¬ Quality chars w
not-Quality chars w h q = absurd (ground (arith, is_quality-Quality chars w q))

-- No end of the name is a quality.
abbrev pub NoQuality : Characters → Text → Type 0
NoQuality chars [] = Unit
NoQuality chars (c ∷ cs) = (¬ Quality chars (c ∷ cs)) × NoQuality chars cs

-- No end of the name makes a longer quality with what follows it.
abbrev pub NoLonger : Characters → Text → Text → Type 0
NoLonger chars [] q = Unit
NoLonger chars (c ∷ cs) q = (¬ Quality chars (c ∷ (cs ++ q))) × NoLonger chars cs q
