-- ===== src/Tokens/History.antt =====
-- The history of tokens, and what else the file keeps while tokens are saved.
use iptv_sniffer_web.Base.{
  ℕ, zero, suc, ◌+◌, ◌-◌, ◌≡◌, refl, sym, ap, ◌∙◌, inl, inr, ◌||◌, Option, some, List, [], ◌∷◌,
  ◌++◌, arith, if◌then◌else◌, ◌==◌, nat_eq, string_eq, pair_eq, list_eq, Bool-cases, length, drop,
  last_n, length-append, length-drop, drop-append_le,
}
use mathlib.Core.List.{append_assoc, append-nil}
use iptv_sniffer_web.Tokens.{
  Token, Capture, TokenStore, read_file, kept_tokens, load, load_auth_info, or_empty, is_latest,
  payload, add_token, save_token,
}

drop_empty {ℓ} : {A : Type ℓ} (n : ℕ) → drop {A = A} n [] ≡ []
drop_empty zero = refl
drop_empty (suc n) = refl

the_sum : (b a : ℕ) → suc (b + a) ≡ suc b + a
the_sum b a = omega arith

drop-drop {ℓ} : {A : Type ℓ} (a b : ℕ) (xs : List A) → drop a (drop b xs) ≡ drop (b + a) xs
drop-drop a zero xs = ground arith
drop-drop a (suc b) [] = drop_empty a ∙ sym (drop_empty (suc b + a))
drop-drop a (suc b) (x ∷ xs) = drop-drop a b xs ∙ ap (λ n. drop n (x ∷ xs)) (the_sum b a)

-- Keeping the last ones before more come makes no difference.
last_n-append {ℓ} :
    {A : Type ℓ} (n : ℕ) (xs ys : List A) → last_n n (last_n n xs ++ ys) ≡ last_n n (xs ++ ys)
last_n-append n xs ys =
    let k = length xs - n in
    rw (sym (drop-append_le k xs ys (omega arith))) (
      rw (drop-drop (length (drop k (xs ++ ys)) - n) k (xs ++ ys)) (
        ap (λ i. drop i (xs ++ ys)) (omega (arith, length-drop k (xs ++ ys), length-append xs ys))))

-- The tokens that a list of captures adds: each that is not empty and not the latest already.
abbrev pub additions : Option Token → List Capture → List Token
additions latest [] = []
additions latest (r ∷ rs) =
    if length r.token == 0 || is_latest r latest
    then additions latest rs
    else payload r ∷ additions (some (payload r)) rs

abbrev pub save_tokens : List Capture → TokenStore → TokenStore
save_tokens [] s = s
save_tokens (r ∷ rs) s = save_tokens rs (save_token r s).0

history-save_tokens :
    (rs : List Capture) (s : TokenStore)
    → last_n kept_tokens (read_file (save_tokens rs s).file).history
      ≡ last_n kept_tokens ((read_file s.file).history ++ additions (read_file s.file).latest rs)
unfolding save_token add_token read_file
history-save_tokens [] s = ap (last_n kept_tokens) (sym (append-nil (read_file s.file).history))
history-save_tokens (r ∷ rs) s =
    let f = read_file s.file in
    elim (Bool-cases (length r.token == 0 || is_latest r f.latest)) [
      | inl same ↦ rw (save_tokens, save_token, same) (history-save_tokens rs s)
      | inr new ↦
          let p = payload r in
          let next : TokenStore = record s { file = some (add_token p f) } in
          rw (save_tokens, save_token, new)
            (history-save_tokens rs next
              ∙ last_n-append kept_tokens (f.history ++ p ∷ []) (additions (some p) rs)
              ∙ ap (last_n kept_tokens) (append_assoc f.history (p ∷ []) (additions (some p) rs)))
    ]

auth_info-save_tokens :
    (rs : List Capture) (s : TokenStore)
    → (read_file (save_tokens rs s).file).auth_info ≡ (read_file s.file).auth_info
unfolding save_token add_token read_file
auth_info-save_tokens [] s = refl
auth_info-save_tokens (r ∷ rs) s =
    let f = read_file s.file in
    elim (Bool-cases (length r.token == 0 || is_latest r f.latest)) [
      | inl same ↦ rw (save_tokens, save_token, same) (auth_info-save_tokens rs s)
      | inr new ↦
          let next : TokenStore = record s { file = some (add_token (payload r) f) } in
          rw (save_tokens, save_token, new) (auth_info-save_tokens rs next)
    ]

-- After any captures, a load gives the last hundred of the old tokens and those that the captures
-- added, in order, and the terminal's identity is what it was.
pub load-save_tokens :
    (rs : List Capture) (s : TokenStore)
    → ((load (save_tokens rs s)).history
        ≡ last_n kept_tokens ((read_file s.file).history ++ additions (read_file s.file).latest rs))
      × (load_auth_info (save_tokens rs s) ≡ load_auth_info s)
unfolding load load_auth_info
load-save_tokens rs s = (history-save_tokens rs s, ap or_empty (auth_info-save_tokens rs s))
