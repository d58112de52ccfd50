-- ===== src/Tcp/Reassembly/Merge.antt =====
-- Merging the stored segments gives back the stream they were taken from.
use iptv_sniffer_web.Base.{
  ℕ, zero, suc, ◌+◌, ◌-◌, ◌≤◌, ◌<◌, ◌≡◌, refl, ap, ◌⊎◌, inl, inr, none, some, List, [], ◌∷◌, ◌++◌,
  arith, ltb, leb, nat_eq, string_eq, pair_eq, list_eq, Bool-cases, ltb→lt, ltb→le, leb→le, length,
  drop, All,
}
use iptv_sniffer_web.Tcp.Reassembly.{Piece, insert_sorted, sort_pieces, merge_pieces}

-- `n` bytes of a stream from a position on.
unfoldable pub read : (ℕ → ℕ) → ℕ → ℕ → List ℕ
read stream pos zero = []
read stream pos (suc n) = stream pos ∷ read stream (pos + 1) n

read-append :
    (stream : ℕ → ℕ) (pos m n p t : ℕ)
    → p ≡ pos + m
    → t ≡ m + n
    → read stream pos m ++ read stream p n ≡ read stream pos t
unfolding read
read-append stream pos zero n p t e f =
    let e' : p ≡ pos = omega arith in let f' : t ≡ n = omega arith in rw (e', f')
read-append stream pos (suc m) n p zero e f = absurd (omega arith)
read-append stream pos (suc m) n p (suc t) e f =
    ap (◌∷◌ (stream pos)) (read-append stream (pos + 1) m n p t (omega arith) (omega arith))

length-read : (stream : ℕ → ℕ) (pos n : ℕ) → length (read stream pos n) ≡ n
unfolding read
length-read stream pos zero = refl
length-read stream pos (suc n) = omega (arith, length-read stream (pos + 1) n)

drop-read :
    (stream : ℕ → ℕ) (pos k n : ℕ)
    → k ≤ n
    → drop k (read stream pos n) ≡ read stream (pos + k) (n - k)
unfolding read
drop-read stream pos zero n h = ground arith
drop-read stream pos (suc k) zero h = absurd (omega arith)
drop-read stream pos (suc k) (suc n) h = ground (arith, drop-read stream (pos + 1) k n)

-- A piece is a run of the stream.
abbrev pub IsRun : (ℕ → ℕ) → Piece → Type 0
IsRun stream p = p.1 ≡ read stream p.0 (length p.1)

-- Some piece reaches over a position.
abbrev pub Covered : ℕ → List Piece → Type 0
Covered pos [] = ⊥
Covered pos (p ∷ ps) = ((p.0 ≤ pos) × (pos < p.0 + length p.1)) ⊎ Covered pos ps

-- Sorted by sequence number.
abbrev IsSorted : List Piece → Type 0
IsSorted [] = Unit {0}
IsSorted (p ∷ ps) = All (λ (q : Piece). p.0 ≤ q.0) ps × IsSorted ps

All-insert_sorted :
    (P : Piece → Type 0) (p : Piece) (ps : List Piece) → P p → All P ps → All P (insert_sorted p ps)
unfolding insert_sorted
All-insert_sorted P p [] h k = (h, tt)
All-insert_sorted P p (q ∷ qs) h k = ground (arith, All-insert_sorted P p qs h)

All-sort_pieces : (P : Piece → Type 0) (ps : List Piece) → All P ps → All P (sort_pieces ps)
unfolding sort_pieces
All-sort_pieces P [] h = tt
All-sort_pieces P (p ∷ ps) h = All-insert_sorted P p (sort_pieces ps) h.0 (All-sort_pieces P ps h.1)

Covered-insert_sorted :
    (pos : ℕ) (p : Piece) (ps : List Piece)
    → Covered pos (p ∷ ps)
    → Covered pos (insert_sorted p ps)
unfolding insert_sorted
Covered-insert_sorted pos p [] h = h
Covered-insert_sorted pos p (q ∷ qs) h = ground (arith, Covered-insert_sorted pos p qs)

Covered-sort_pieces : (pos : ℕ) (ps : List Piece) → Covered pos ps → Covered pos (sort_pieces ps)
unfolding sort_pieces
Covered-sort_pieces pos [] h = h
Covered-sort_pieces pos (p ∷ ps) (inl h) = Covered-insert_sorted pos p (sort_pieces ps) (inl h)
Covered-sort_pieces pos (p ∷ ps) (inr h) =
    Covered-insert_sorted pos p (sort_pieces ps) (inr (Covered-sort_pieces pos ps h))

All-ge_trans :
    (a b : ℕ) (ps : List Piece)
    → a ≤ b
    → All (λ (q : Piece). b ≤ q.0) ps
    → All (λ (q : Piece). a ≤ q.0) ps
All-ge_trans a b [] h k = tt
All-ge_trans a b (p ∷ ps) h k = (omega arith, All-ge_trans a b ps h k.1)

insert_sorted-IsSorted : (p : Piece) (ps : List Piece) → IsSorted ps → IsSorted (insert_sorted p ps)
unfolding insert_sorted
insert_sorted-IsSorted p [] h = (tt, tt)
insert_sorted-IsSorted p (q ∷ qs) h = elim (Bool-cases (leb p.0 q.0)) [
  | inl le ↦ rw le ((leb→le p.0 q.0 le, All-ge_trans p.0 q.0 qs (leb→le p.0 q.0 le) h.0), h)
  | inr gt ↦ rw gt (
    All-insert_sorted (λ (r : Piece). q.0 ≤ r.0) p qs (ground arith) h.0,
    insert_sorted-IsSorted p qs h.1,
  )
]

sort_pieces-IsSorted : (ps : List Piece) → IsSorted (sort_pieces ps)
unfolding sort_pieces
sort_pieces-IsSorted [] = tt
sort_pieces-IsSorted (p ∷ ps) = insert_sorted-IsSorted p (sort_pieces ps) (sort_pieces-IsSorted ps)

-- No piece of a sorted list that starts later covers an earlier position.
Covered-ge :
    (pos : ℕ) (ps : List Piece) (a : ℕ) → All (λ (q : Piece). a ≤ q.0) ps → Covered pos ps → a ≤ pos
Covered-ge pos [] a h c = absurd c
Covered-ge pos (p ∷ ps) a h (inl c) = omega arith
Covered-ge pos (p ∷ ps) a h (inr c) = Covered-ge pos ps a h.1 c

module _ (stream : ℕ → ℕ) (base end : ℕ) where
  -- Pieces of the stream between `base` and `end`.
  abbrev Within : Piece → Type 0
  Within p = IsRun stream p × (base ≤ p.0) × (p.0 + length p.1 ≤ end)

  abbrev Reaches : ℕ → List Piece → Type 0
  Reaches next ps = (pos : ℕ) → next ≤ pos → pos < end → Covered pos ps

  -- Sorted pieces that reach over all that is left leave no gap before the first.
  no_gap :
      (next : ℕ) (p : Piece) (ps : List Piece)
      → next ≤ end
      → Within p
      → All (λ (q : Piece). p.0 ≤ q.0) ps
      → Reaches next (p ∷ ps)
      → p.0 ≤ next
  no_gap next p ps h w sorted r = elim (Bool-cases (ltb next end)) [
    | inl more ↦
        Covered-ge next (p ∷ ps) p.0 (omega arith, sorted)
          (r next (omega arith) (ltb→lt next end more))
    | inr done ↦ let e : end ≤ next = ltb→le next end done in omega arith
  ]

  Reaches-tail :
      (next next' : ℕ) (p : Piece) (ps : List Piece)
      → next ≤ next'
      → p.0 + length p.1 ≤ next'
      → Reaches next (p ∷ ps)
      → Reaches next' ps
  Reaches-tail next next' p ps h k r pos a b = ground (arith, r pos)

  run_append :
      (merged tail : List ℕ) (next k next' : ℕ)
      → base ≤ next
      → merged ≡ read stream base (next - base)
      → tail ≡ read stream next k
      → next' ≡ next + k
      → merged ++ tail ≡ read stream base (next' - base)
  run_append merged tail next k next' lo m t e =
      rw (m, t)
        (read-append stream base (next - base) k next (next' - base) (omega arith) (omega arith))

  run_drop :
      (payload : List ℕ) (seq next n : ℕ)
      → payload ≡ read stream seq n
      → seq ≤ next
      → next ≤ seq + n
      → drop (next - seq) payload ≡ read stream next (seq + n - next)
  run_drop payload seq next n p h k =
      let at : seq + (next - seq) ≡ next = omega arith in
      let left : n - (next - seq) ≡ seq + n - next = omega arith in
      rw p (let d = drop-read stream seq (next - seq) n (omega arith) in rw (at, left) at d)

  merge_from :
      (ps : List Piece) (merged : List ℕ) (next : ℕ)
      → merged ≡ read stream base (next - base)
      → base ≤ next
      → next ≤ end
      → All Within ps
      → IsSorted ps
      → Reaches next ps
      → merge_pieces merged (some next) ps ≡ read stream base (end - base)
  unfolding merge_pieces
  merge_from [] merged next m lo hi w s r = elim (Bool-cases (ltb next end)) [
    | inl more ↦ absurd (r next (omega arith) (ltb→lt next end more))
    | inr done ↦
        let h : end ≤ next = ltb→le next end done in let e : next ≡ end = omega arith in rw (← e) m
  ]
  merge_from ((seq, payload) ∷ ps) merged next m lo hi w s r =
      let first : seq ≤ next = no_gap next (seq, payload) ps hi w.0 s.0 r in
      let next' = seq + length payload in
      let rest : next ≤ next' → Reaches next' ps =
        λ h. Reaches-tail next next' (seq, payload) ps h (omega arith) r in
      elim (Bool-cases (leb next seq)) [
        | inl at_end ↦
            let same : seq ≡ next = omega (arith, leb→le next seq at_end) in
            rw at_end (
              merge_from ps (merged ++ payload) next'
                (run_append merged payload next (length payload) next' lo m
                  (let p = (w.0).0 in rw same at p) (omega arith))
                (omega arith) ((w.0).2) w.1 s.1 (rest (omega arith)))
        | inr behind ↦ elim (Bool-cases (ltb (next - seq) (length payload))) [
          | inl partial ↦
              let h : next - seq < length payload = ltb→lt (next - seq) (length payload) partial in
              rw (behind, partial)
                (merge_from ps (merged ++ drop (next - seq) payload) next'
                  (run_append merged (drop (next - seq) payload) next (next' - next) next' lo m
                    (run_drop payload seq next (length payload) ((w.0).0) first (omega arith))
                    (omega arith))
                  (omega arith) ((w.0).2) w.1 s.1 (rest (omega arith)))
          | inr whole ↦
              let h : length payload ≤ next - seq = ltb→le (next - seq) (length payload) whole in
              rw (behind, whole)
                (merge_from ps merged next m lo hi w.1 s.1
                  (Reaches-tail next next (seq, payload) ps (omega arith) (omega arith) r))
        ]
      ]

  merge_sorted :
      (ps : List Piece)
      → base < end
      → All Within ps
      → IsSorted ps
      → Reaches base ps
      → merge_pieces [] none ps ≡ read stream base (end - base)
  unfolding merge_pieces
  merge_sorted [] h w s r = absurd (r base (omega arith) h)
  merge_sorted ((seq, payload) ∷ ps) h w s r =
      let first : seq ≤ base = no_gap base (seq, payload) ps (omega arith) w.0 s.0 r in
      let from_base : seq ≡ base = omega arith in
      let next = seq + length payload in
      let left : length payload ≡ next - base = omega arith in
      merge_from ps payload next (cc ((w.0).0)) (omega arith) ((w.0).2) w.1 s.1
        (Reaches-tail base next (seq, payload) ps (omega arith) (omega arith) r)

  -- Reassembly is right: if every stored segment is a run of one byte stream, and together they
  -- reach over all positions from `base` to `end`, then in whatever order they were stored, and
  -- however they overlap, they merge to exactly the bytes of the stream from `base` to `end`.
  pub merge_pieces-sort_pieces :
      (ps : List Piece)
      → base < end
      → All Within ps
      → ((pos : ℕ) → base ≤ pos → pos < end → Covered pos ps)
      → merge_pieces [] none (sort_pieces ps) ≡ read stream base (end - base)
  merge_pieces-sort_pieces ps h w r =
      merge_sorted (sort_pieces ps) h (All-sort_pieces Within ps w) (sort_pieces-IsSorted ps)
        λ pos a b. Covered-sort_pieces pos ps (r pos a b)
