-- ===== src/Log/Rotation.antt =====
-- How large the log files get.
use iptv_sniffer_web.Base.{
  ℕ, zero, suc, ◌+◌, ◌-◌, ◌≤◌, ◌≡◌, inl, inr, none, some, List, ◌++◌, arith, nat_eq, string_eq,
  pair_eq, list_eq, Option-cases, length, length-append,
}
use iptv_sniffer_web.Base.Dict.{Dict, lookup, insert, lookup-insert, lookup-erase}
use iptv_sniffer_web.Log.{Logger, shift, rotate, make_room, add_line, write_line}

-- No file is longer than the limit.
abbrev pub AreSmall : ℕ → Dict ℕ (List ℕ) → Type 0
AreSmall limit files = (k : ℕ) (c : List ℕ) → lookup k files ≡ some c → length c ≤ limit

shift-AreSmall :
    (limit index : ℕ) (files : Dict ℕ (List ℕ))
    → AreSmall limit files
    → AreSmall limit (shift index files)
unfolding shift
shift-AreSmall limit index files h k c e = elim (Option-cases (lookup (index - 1) files)) [
  | inl missing ↦ ground (arith, h k c)
  | inr (content, found) ↦ ground (
    arith,
    h k c,
    h (index - 1) content,
    lookup-insert index k content files,
    lookup-erase (index - 1) k (insert index content files),
  )
]

rotate-AreSmall :
    (limit index : ℕ) (files : Dict ℕ (List ℕ))
    → AreSmall limit files
    → AreSmall limit (rotate index files)
unfolding rotate
rotate-AreSmall limit zero files h = h
rotate-AreSmall limit (suc index) files h =
    rotate-AreSmall limit index (shift (suc index) files) (shift-AreSmall limit (suc index) files h)

-- A rotation leaves no log file of that name.
rotate-lookup : (index : ℕ) (files : Dict ℕ (List ℕ)) → lookup 0 (rotate (suc index) files) ≡ none
unfolding rotate shift
rotate-lookup zero files = elim (Option-cases (lookup 0 files)) [
  | inl missing ↦ ground arith
  | inr (content, found) ↦ ground (arith, lookup-erase 0 0 (insert 1 content files))
]
rotate-lookup (suc index) files = rotate-lookup index (shift (suc (suc index)) files)

rotate_once-lookup :
    (index : ℕ) (files : Dict ℕ (List ℕ)) → 1 ≤ index → lookup 0 (rotate index files) ≡ none
rotate_once-lookup zero files h = absurd (omega arith)
rotate_once-lookup (suc index) files h = rotate-lookup index files

make_room-AreSmall :
    (l : Logger) (line : List ℕ)
    → AreSmall l.max_bytes l.files
    → AreSmall l.max_bytes (make_room l line)
unfolding make_room
make_room-AreSmall l line h k c e =
    ground (arith, h k c, rotate-AreSmall l.max_bytes l.backups l.files h k c)

make_room-fits :
    (l : Logger) (line content : List ℕ)
    → 1 ≤ l.backups
    → lookup 0 (make_room l line) ≡ some content
    → length content + length line ≤ l.max_bytes
unfolding make_room
make_room-fits l line content b e = ground (arith, rotate_once-lookup l.backups l.files b)

-- With at least one backup, and lines that fit into a file, no log file and no backup ever gets
-- longer than the limit.
write_line-AreSmall :
    (l : Logger) (line : List ℕ)
    → 1 ≤ l.backups
    → length line ≤ l.max_bytes
    → AreSmall l.max_bytes l.files
    → AreSmall l.max_bytes (write_line l line)
unfolding write_line add_line
write_line-AreSmall l line b s h k c e = elim (Option-cases (lookup 0 (make_room l line))) [
  | inl missing ↦
      ground (arith, lookup-insert 0 k line (make_room l line), make_room-AreSmall l line h k c)
  | inr (content, found) ↦ ground (
    arith,
    lookup-insert 0 k (content ++ line) (make_room l line),
    make_room-AreSmall l line h k c,
    make_room-fits l line content b found,
    length-append content line,
  )
]
