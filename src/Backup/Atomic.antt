-- ===== src/Backup/Atomic.antt =====
-- A restore happens as a whole or not at all.
use iptv_sniffer_web.Base.{
  ℕ, ◌+◌, ◌≡◌, refl, ◌≢◌, inl, inr, true, false, Option, none, some, List, [], ◌∷◌, arith,
  if◌then◌else◌, ◌==◌, nat_eq, string_eq, pair_eq, list_eq, Bool-cases, Option-cases, ==_iff,
}
use iptv_sniffer_web.Base.Dict.{
  Dict, lookup, insert, contains, lookup-insert, lookup-erase, contains-lookup,
}
use iptv_sniffer_web.Backup.{
  Disk, Entries, Faults, committed, rolled_back, unfinished, has, originals_of, write_entries,
  put_back, roll_back, commit,
}

-- The original of a target, or what is there now.
abbrev original_or : Dict ℕ (Option (List ℕ)) → ℕ → Option (List ℕ) → Option (List ℕ)
original_or originals k now = elim (lookup k originals) [ none ↦ now | some o ↦ o ]

lookup-put_back :
    (originals : Dict ℕ (Option (List ℕ))) (t k : ℕ) (disk : Disk)
    → lookup k (put_back originals t disk)
      ≡ (if t == k then original_or originals k (lookup k disk) else lookup k disk)
unfolding put_back
lookup-put_back originals t k disk = elim (Option-cases (lookup t originals)) [
  | inl missing ↦ ground (arith, ==_iff t k)
  | inr (none, e) ↦ ground (arith, ==_iff t k, lookup-erase t k disk)
  | inr (some old, e) ↦ ground (arith, ==_iff t k, lookup-insert t k old disk)
]

lookup-roll_back :
    (faults : Faults) (originals : Dict ℕ (Option (List ℕ))) (ts : List ℕ) (disk : Disk) (k : ℕ)
    → (roll_back faults originals ts disk).1 ≡ true
    → lookup k (roll_back faults originals ts disk).0
      ≡ (if has k ts then original_or originals k (lookup k disk) else lookup k disk)
unfolding roll_back has
lookup-roll_back faults originals [] disk k h = refl
lookup-roll_back faults originals (t ∷ ts) disk k h = ground (
  arith,
  lookup-roll_back faults originals ts (put_back originals t disk) k,
  lookup-put_back originals t k disk,
)

lookup-originals_of :
    (es : Entries) (disk : Disk) (k : ℕ)
    → lookup k (originals_of es disk) ≡ (if contains k es then some (lookup k disk) else none)
unfolding originals_of lookup contains
lookup-originals_of [] disk k = refl
lookup-originals_of ((t, c) ∷ es) disk k = ground (arith, lookup-originals_of es disk k)

-- Staged targets, each once, as `stage` makes them.
abbrev pub IsStaged : Entries → Type 0
IsStaged [] = Unit {0}
IsStaged ((t, c) ∷ es) = (contains t es ≡ false) × IsStaged es

module _ (faults : Faults) where
  -- What is written is a staged target, and nothing else changes.
  written_mono :
      (n : ℕ) (es : Entries) (disk : Disk) (w : List ℕ) (k : ℕ)
      → has k w ≡ true
      → has k (write_entries faults n es disk w).1 ≡ true
  unfolding write_entries has
  written_mono n [] disk w k h = h
  written_mono n ((t, c) ∷ es) disk w k h =
      ground (arith, written_mono (n + 1) es (insert t c disk) (t ∷ w) k)

  written-staged :
      (n : ℕ) (es : Entries) (disk : Disk) (w : List ℕ) (k : ℕ)
      → has k w ≡ false
      → contains k es ≡ false
      → has k (write_entries faults n es disk w).1 ≡ false
  unfolding write_entries has contains
  written-staged n [] disk w k h e = h
  written-staged n ((t, c) ∷ es) disk w k h e =
      ground (arith, written-staged (n + 1) es (insert t c disk) (t ∷ w) k)

  unwritten-same :
      (n : ℕ) (es : Entries) (disk : Disk) (w : List ℕ) (k : ℕ)
      → has k (write_entries faults n es disk w).1 ≡ false
      → lookup k (write_entries faults n es disk w).0 ≡ lookup k disk
  unfolding write_entries has
  unwritten-same n [] disk w k h = refl
  unwritten-same n ((t, c) ∷ es) disk w k h = ground (
    arith,
    unwritten-same (n + 1) es (insert t c disk) (t ∷ w) k,
    written_mono (n + 1) es (insert t c disk) (t ∷ w) k,
    lookup-insert t k c disk,
  )

  -- A rollback that puts every file back gives the disk as it was.
  rolled_back-same :
      (es : Entries) (disk : Disk) (k : ℕ)
      → let outcome = write_entries faults 0 es disk [] in
        let back = roll_back faults (originals_of es disk) outcome.1 outcome.0 in
        back.1 ≡ true → lookup k back.0 ≡ lookup k disk
  rolled_back-same es disk k h =
      let outcome = write_entries faults 0 es disk [] in
      let l = lookup-roll_back faults (originals_of es disk) outcome.1 outcome.0 k h in
      elim (Bool-cases (has k outcome.1)) [
        | inl touched ↦ elim (Bool-cases (contains k es)) [
          | inl staged ↦ ground (arith, l, lookup-originals_of es disk k)
          | inr unstaged ↦
              let w = written-staged 0 es disk [] k (unfold has in refl) unstaged in
              absurd (ground arith)
        ]
        | inr untouched ↦ ground (arith, l, unwritten-same 0 es disk [] k untouched)
      ]

  -- A restore that is refused, at whatever write, and whose rollback goes through, has changed no
  -- file: every path holds what it held before, or is absent as before.
  pub commit-rolled_back :
      (es : Entries) (disk : Disk) (k : ℕ)
      → (commit faults es disk).1 ≡ rolled_back
      → lookup k (commit faults es disk).0 ≡ lookup k disk
  unfolding commit
  commit-rolled_back es disk k h = ground (arith, rolled_back-same es disk k)

  lookup-write_entries :
      (n : ℕ) (es : Entries) (disk : Disk) (w : List ℕ) (k : ℕ)
      → IsStaged es
      → (write_entries faults n es disk w).2 ≡ true
      → lookup k (write_entries faults n es disk w).0
        ≡ elim (lookup k es) [ none ↦ lookup k disk | some c ↦ some c ]
  unfolding write_entries lookup
  lookup-write_entries n [] disk w k s h = refl
  lookup-write_entries n ((t, c) ∷ es) disk w k s h = ground (
    arith,
    lookup-write_entries (n + 1) es (insert t c disk) (t ∷ w) k s.1,
    lookup-insert t k c disk,
    contains-lookup t es,
    ==_iff t k,
  )

  -- A restore that is committed has written every staged file, and no other path has changed.
  pub commit-committed :
      (es : Entries) (disk : Disk) (k : ℕ)
      → IsStaged es
      → (commit faults es disk).1 ≡ committed
      → lookup k (commit faults es disk).0
        ≡ elim (lookup k es) [ none ↦ lookup k disk | some c ↦ some c ]
  unfolding commit
  commit-committed es disk k s h = ground (arith, lookup-write_entries 0 es disk [] k s)

  roll_back-restored :
      (originals : Dict ℕ (Option (List ℕ))) (ts : List ℕ) (disk : Disk)
      → ((t : ℕ) → faults.put_back t ≡ false)
      → (roll_back faults originals ts disk).1 ≡ true
  unfolding roll_back
  roll_back-restored originals [] disk h = refl
  roll_back-restored originals (t ∷ ts) disk h =
      rw (h t) (roll_back-restored originals ts (put_back originals t disk) h)

  -- Only a failure to put a file back can leave a restore half done: if the disk takes back what
  -- it held, the restore is committed or rolled back, whatever else fails.
  pub commit-ne-unfinished :
      (es : Entries) (disk : Disk)
      → ((t : ℕ) → faults.put_back t ≡ false)
      → (commit faults es disk).1 ≢ unfinished
  unfolding commit
  commit-ne-unfinished es disk h =
      let outcome = write_entries faults 0 es disk [] in
      ground (arith, roll_back-restored (originals_of es disk) outcome.1 outcome.0 h)
