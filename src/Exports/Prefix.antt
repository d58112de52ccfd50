-- ===== src/Exports/Prefix.antt =====
-- A path prefix that was accepted is accepted again as it is.
use iptv_sniffer_web.Base.{
  ℕ, ◌≡◌, refl, ap, ◌∙◌, inl, inr, Bool, true, false, ◌&&◌, ◌||◌, some, [], ◌∷◌, arith, ◌==◌,
  nat_eq, string_eq, pair_eq, list_eq, Bool-cases, length, Text,
}
use iptv_sniffer_web.Exports.Urls.{
  strip_left, strip_right, strip, is_path_char, all_path_chars, is_slash, with_slash, check_prefix,
  normalize_path_prefix,
}

strip_right_idem :
    (drops : ℕ → Bool) (w : Text) → strip_right drops (strip_right drops w) ≡ strip_right drops w
unfolding strip_right
strip_right_idem drops [] = refl
strip_right_idem drops (c ∷ cs) =
    elim (Bool-cases (length (strip_right drops cs) == 0 && drops c)) [
      | inl gone ↦ rw gone refl
      | inr kept ↦ rw (kept, strip_right_idem drops cs, kept) refl
    ]

abbrev Keeps : (ℕ → Bool) → Type 0
Keeps is_space = (c : ℕ) → is_path_char c ≡ true → is_space c ≡ false

strip_right-path :
    (is_space : ℕ → Bool) (w : Text)
    → Keeps is_space
    → all_path_chars w ≡ true
    → strip_right is_space w ≡ w
unfolding strip_right all_path_chars
strip_right-path is_space [] k h = refl
strip_right-path is_space (c ∷ cs) k h =
    let here : is_path_char c ≡ true = ground arith in
    let rest : all_path_chars cs ≡ true = ground arith in
    rw (strip_right-path is_space cs k rest) (ground (arith, k c here))

-- The shape that `check_prefix` asks for.
abbrev IsPrefix : Text → Type 0
IsPrefix [] = ⊥
IsPrefix (c ∷ cs) = (c ≡ 47) × ((length cs == 0) ≡ false) × (all_path_chars (c ∷ cs) ≡ true)

check_prefix-IsPrefix : (q p : Text) → check_prefix q ≡ some p → (p ≡ q) × IsPrefix q
unfolding check_prefix all_path_chars is_path_char
check_prefix-IsPrefix [] p h = absurd (ground arith)
check_prefix-IsPrefix (c ∷ cs) p h = (ground arith, (ground arith, ground arith, ground arith))

-- Such a text goes through the normalisation unchanged up to the last check.
prefix-again :
    (is_space : ℕ → Bool) (q : Text)
    → Keeps is_space
    → IsPrefix q
    → strip_right is_slash q ≡ q
    → normalize_path_prefix is_space q ≡ check_prefix q
unfolding normalize_path_prefix strip strip_left with_slash
prefix-again is_space [] k h e = absurd h
prefix-again is_space (c ∷ []) k h e = absurd (ground (arith, h.1))
prefix-again is_space (c ∷ d ∷ ds) k h e =
    let cs = d ∷ ds in
    let blank : is_space c ≡ false = k c (rw h.0 (unfold is_path_char in refl)) in
    let same : strip is_space (c ∷ cs) ≡ c ∷ cs =
      rw (strip, strip_left, blank) (strip_right-path is_space (c ∷ cs) k h.2) in
    let long : (c ∷ cs == 47 ∷ []) ≡ false = rw h.0 refl in
    let slash : with_slash (c ∷ cs) ≡ c ∷ cs = rw (with_slash, h.0) refl in
    rw (normalize_path_prefix, same, long, slash, e) (ground arith)

normalize_empty : (is_space : ℕ → Bool) → normalize_path_prefix is_space [] ≡ some []
unfolding normalize_path_prefix strip strip_left strip_right
normalize_empty is_space = refl

-- With `is_space` true of no character of a path, a prefix that was accepted in any form is accepted
-- again and stays as it is.
normalize_path_prefix-again :
    (is_space : ℕ → Bool) (value p : Text)
    → ((c : ℕ) → is_path_char c ≡ true → is_space c ≡ false)
    → normalize_path_prefix is_space value ≡ some p
    → normalize_path_prefix is_space p ≡ some p
unfolding normalize_path_prefix
normalize_path_prefix-again is_space value p k h =
    let text = strip is_space value in
    let q = strip_right is_slash (with_slash text) in
    elim (Bool-cases (length text == 0 || text == 47 ∷ [])) [
      | inl none_given ↦
          let empty : p ≡ [] = ground (arith, none_given) in rw empty (normalize_empty is_space)
      | inr given ↦
          let checked : check_prefix q ≡ some p = ground (arith, given) in
          let v = check_prefix-IsPrefix q p checked in
          rw (v.0) (
            prefix-again is_space q k v.1 (strip_right_idem is_slash (with_slash text))
            ∙ checked
            ∙ ap some v.0)
    ]
