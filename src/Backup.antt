-- ===== src/Backup.antt =====
-- services/backup_service.py, `RestoreTransaction`: staged files replace their targets, all of them
-- or none. A path is a number, a content a list of bytes; `Faults` says at which write the disk gives
-- an error, and the rollback's own writes may fail too.
pub mod Atomic
pub mod Staging
use iptv_sniffer_web.Base.{
  ℕ, zero, suc, ◌+◌, ◌-◌, ◌*◌, ◌/◌, ◌%◌, ◌^◌, ◌≤◌, ◌<◌, min, max, String, ◌≡◌, refl, sym, ap, ◌∙◌,
  ◌≢◌, ◌↔◌, ◌⊎◌, inl, inr, Bool, true, false, not, ◌&&◌, ◌||◌, Option, none, some, List, [], ◌∷◌,
  ◌++◌, map, arith, ◌>>=◌, >>=-eq-some, ltb, leb, if◌then◌else◌, Comparable, ◌==◌, nat_eq,
  string_eq, pair_eq, list_eq, Bool-cases, Option-cases, ltb→lt, ltb→le, lt→ltb, le→ltb, leb→le,
  le→leb, length, get_or, get_elem?, take, drop, last_n, length-append, length-take, length-drop,
  take-append-drop, take-append, drop-append, take_all, take-append_le, drop-append_le,
  slice-append, get_or-append, All, All-append, byte_at, slice, be16, be32, le16, le32, IsByte,
  AreBytes, put_be16, put_be32, put_le16, put_le32, ==_iff, ==_refl, Text, str_nat, is_digit,
  digits_value, digits_value-str_nat,
}
use iptv_sniffer_web.Base.Dict.{Dict, lookup, insert, erase}

-- The files outside the transaction's directory.
abbrev pub Disk : Type 0
Disk = Dict ℕ (List ℕ)

-- `self.entries`: targets with their staged contents, in the order of staging.
abbrev pub Entries : Type 0
Entries = Dict ℕ (List ℕ)

-- `self.entries` and the names `new-…` that the transaction's directory holds, by their numbers.
pub record Transaction : Type 0 where
  pub entries : Entries
  pub names : List ℕ

unfoldable pub new_transaction : Transaction
new_transaction = record { entries = []; names = [] }

unfoldable pub has : ℕ → List ℕ → Bool
has k [] = false
has k (t ∷ ts) = if t == k then true else has k ts

-- `RestoreTransaction.stage`: the staged file is made with mode "xb", which refuses a name in use.
unfoldable pub stage : ℕ → List ℕ → Transaction → Option Transaction
stage target content s =
    let name = length s.entries in
    if has name s.names
    then none
    else some (record { entries = insert target content s.entries; names = name ∷ s.names })

-- What the operating system refuses: the preparation, the n-th replacement (with the directory made
-- for it), and putting back a target.
pub record Faults : Type 0 where
  -- Copying the originals, or writing the journal.
  pub prepare : Bool
  pub replace : ℕ → Bool
  pub put_back : ℕ → Bool

-- How `commit` ends. The transaction's directory is removed but in `unfinished`.
pub data Ending : Type 0 where
  committed rolled_back unfinished : Ending

-- The backups taken before the first write: `None` where there was no file.
unfoldable pub originals_of : Entries → Disk → Dict ℕ (Option (List ℕ))
originals_of [] disk = []
originals_of ((target, content) ∷ es) disk = (target, lookup target disk) ∷ originals_of es disk

-- The loop of replacements: the disk, what was written (last first), and whether all went well.
unfoldable pub write_entries : Faults → ℕ → Entries → Disk → List ℕ → Disk × List ℕ × Bool
write_entries faults n [] disk written = (disk, written, true)
write_entries faults n ((target, content) ∷ es) disk written =
    let next = write_entries faults (n + 1) es (insert target content disk) (target ∷ written) in
    if faults.replace n then (disk, written, false) else next

-- `originals[target]`, put back or unlinked.
unfoldable pub put_back : Dict ℕ (Option (List ℕ)) → ℕ → Disk → Disk
put_back originals target disk = elim (lookup target originals) [
  | none ↦ disk
  | some none ↦ erase target disk
  | some (some old) ↦ insert target old disk
]

-- The rollback, over `reversed(written)`; the flag tells whether every file came back.
unfoldable pub roll_back : Faults → Dict ℕ (Option (List ℕ)) → List ℕ → Disk → Disk × Bool
roll_back faults originals [] disk = (disk, true)
roll_back faults originals (t ∷ ts) disk =
    if faults.put_back t
    then ((roll_back faults originals ts disk).0, false)
    else roll_back faults originals ts (put_back originals t disk)

-- `RestoreTransaction.commit`.
unfoldable pub commit : Faults → Entries → Disk → Disk × Ending
commit faults entries disk =
    let originals = originals_of entries disk in
    let outcome = write_entries faults 0 entries disk [] in
    let back = roll_back faults originals outcome.1 outcome.0 in
    if faults.prepare
    then (disk, rolled_back)
    else if outcome.2
    then (outcome.0, committed)
    else (back.0, if back.1 then rolled_back else unfinished)
