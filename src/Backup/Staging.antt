-- ===== src/Backup/Staging.antt =====
-- What staging files for a restore prepares.
use iptv_sniffer_web.Base.{
  ℕ, ◌+◌, ◌≤◌, ◌<◌, ◌≡◌, refl, sym, ◌∙◌, inl, inr, true, false, ◌||◌, Option, some, List, [], ◌∷◌,
  ◌++◌, arith, ◌>>=◌, if◌then◌else◌, ◌==◌, nat_eq, string_eq, pair_eq, list_eq, Bool-cases, length,
  length-append, All, ==_iff,
}
use mathlib.Core.List.{append_assoc, append-nil}
use iptv_sniffer_web.Base.Dict.{insert, contains}
use iptv_sniffer_web.Backup.{Entries, Transaction, new_transaction, has, stage}
use iptv_sniffer_web.Backup.Atomic.{IsStaged}

contains-insert :
    (t u : ℕ) (c : List ℕ) (es : Entries)
    → contains u (insert t c es) ≡ (if t == u then true else contains u es)
unfolding insert contains
contains-insert t u c [] = refl
contains-insert t u c ((j, d) ∷ es) =
    ground (arith, ==_iff j t, ==_iff j u, ==_iff t u, contains-insert t u c es)

insert-IsStaged : (t : ℕ) (c : List ℕ) (es : Entries) → IsStaged es → IsStaged (insert t c es)
unfolding insert contains
insert-IsStaged t c [] h = (refl, tt)
insert-IsStaged t c ((j, d) ∷ es) h = elim (Bool-cases (j == t)) [
  | inl hit ↦ rw hit h
  | inr miss ↦ rw miss (
    rw (contains-insert t j c es) (ground (arith, ==_iff j t, ==_iff t j)),
    insert-IsStaged t c es h.1,
  )
]

-- Staging keeps one entry for each target, also when a target is staged again, so that what is
-- committed is always of that form.
stage-IsStaged :
    (t : ℕ) (c : List ℕ) (s s' : Transaction)
    → IsStaged s.entries
    → stage t c s ≡ some s'
    → IsStaged s'.entries
unfolding stage
stage-IsStaged t c s s' h e = ground (arith, insert-IsStaged t c s.entries)

-- The files of a restore, staged one after the other.
unfoldable pub stage_all : Transaction → List (ℕ × List ℕ) → Option Transaction
stage_all s [] = some s
stage_all s ((t, c) ∷ es) = stage t c s >>= λ s'. stage_all s' es

-- The names in use are below the number of entries.
abbrev Below : Transaction → Type 0
Below s = All (λ n. n < length s.entries) s.names

has-below : (k : ℕ) (ns : List ℕ) → All (λ n. n < k) ns → has k ns ≡ false
unfolding has
has-below k [] h = refl
has-below k (n ∷ ns) h = ground (arith, has-below k ns h.1)

below_mono : (k m : ℕ) (ns : List ℕ) → k ≤ m → All (λ n. n < k) ns → All (λ n. n < m) ns
below_mono k m [] e h = tt
below_mono k m (n ∷ ns) e h = (omega arith, below_mono k m ns e h.1)

insert-absent :
    (t : ℕ) (c : List ℕ) (es : Entries) → contains t es ≡ false → insert t c es ≡ es ++ (t, c) ∷ []
unfolding insert contains
insert-absent t c [] h = refl
insert-absent t c ((j, d) ∷ es) h = ground (arith, insert-absent t c es)

contains-append : (t : ℕ) (es fs : Entries) → contains t (es ++ fs) ≡ contains t es || contains t fs
unfolding contains
contains-append t [] fs = refl
contains-append t ((j, d) ∷ es) fs = ground (arith, contains-append t es fs)

-- Targets that none of the entries has, each once.
abbrev pub Fresh : Entries → Entries → Type 0
Fresh es [] = Unit {0}
Fresh es ((t, c) ∷ fs) = (contains t es ≡ false) × Fresh (es ++ (t, c) ∷ []) fs

stage-fresh :
    (t : ℕ) (c : List ℕ) (s : Transaction)
    → Below s
    → contains t s.entries ≡ false
    → stage t c s
      ≡ some (record { entries = s.entries ++ (t, c) ∷ []; names = length s.entries ∷ s.names })
unfolding stage
stage-fresh t c s b h =
    ground (arith, has-below (length s.entries) s.names b, insert-absent t c s.entries h)

stage_all-from :
    (es : Entries) (s : Transaction)
    → Below s
    → Fresh s.entries es
    → (s' : Transaction) × (stage_all s es ≡ some s') × (s'.entries ≡ s.entries ++ es)
unfolding stage_all
stage_all-from [] s b h = (s, refl, sym (append-nil s.entries))
stage_all-from ((t, c) ∷ es) s b h =
    let s' : Transaction = record {
      entries = s.entries ++ (t, c) ∷ [];
      names = length s.entries ∷ s.names;
    } in
    let n : length s'.entries ≡ length s.entries + 1 =
      omega (arith, length-append s.entries ((t, c) ∷ [])) in
    let b' : Below s' = (
      omega (arith, n),
      below_mono (length s.entries) (length s'.entries) s.names (omega (arith, n)) b,
    ) in
    let (r, e, f) = stage_all-from es s' b' h.1 in
    (r, (rw (stage-fresh t c s b h.0) e), f ∙ append_assoc s.entries ((t, c) ∷ []) es)

-- Files for targets that are all different are staged without a refusal, and the entries are these
-- files in their order.
stage_all-Fresh :
    (es : Entries)
    → Fresh [] es
    → (s : Transaction) × (stage_all new_transaction es ≡ some s) × (s.entries ≡ es)
unfolding new_transaction
stage_all-Fresh es h = stage_all-from es new_transaction tt h
