-- ===== src/Log.antt =====
-- services/log_service.py, `AppLogger`: the entries in memory and the rotation of the log file. The
-- clock and the redaction of a message are the caller's; a line is given by its bytes.
pub mod Ring
pub mod Rotation
use iptv_sniffer_web.Base.{
  ℕ, zero, suc, ◌+◌, ◌-◌, ◌*◌, ◌/◌, ◌%◌, ◌^◌, ◌≤◌, ◌<◌, min, max, String, ◌≡◌, refl, sym, ap, ◌∙◌,
  ◌≢◌, ◌↔◌, ◌⊎◌, inl, inr, Bool, true, false, not, ◌&&◌, ◌||◌, Option, none, some, List, [], ◌∷◌,
  ◌++◌, map, arith, ◌>>=◌, >>=-eq-some, ltb, leb, if◌then◌else◌, Comparable, ◌==◌, nat_eq,
  string_eq, pair_eq, list_eq, Bool-cases, Option-cases, ltb→lt, ltb→le, lt→ltb, le→ltb, leb→le,
  le→leb, length, get_or, get_elem?, take, drop, last_n, length-append, length-take, length-drop,
  take-append-drop, take-append, drop-append, take_all, take-append_le, drop-append_le,
  slice-append, get_or-append, All, All-append, byte_at, slice, be16, be32, le16, le32, IsByte,
  AreBytes, put_be16, put_be32, put_le16, put_le32, ==_iff, ==_refl, Text, str_nat, is_digit,
  digits_value, digits_value-str_nat,
}
use iptv_sniffer_web.Base.Dict.{Dict, lookup, insert, erase}

pub record Entry : Type 0 where
  pub id : ℕ
  pub timestamp : ℕ
  pub level : Text
  pub message : Text

-- The log file is number 0, its backups are 1, 2 and so on.
pub record Logger : Type 0 where
  pub memory_limit : ℕ
  pub max_bytes : ℕ
  pub backups : ℕ
  pub entries : List Entry
  pub seq : ℕ
  pub files : Dict ℕ (List ℕ)

unfoldable pub new_logger : ℕ → ℕ → ℕ → Dict ℕ (List ℕ) → Logger
new_logger memory_limit max_bytes backups files = record {
  memory_limit = memory_limit;
  max_bytes = max_bytes;
  backups = backups;
  entries = [];
  seq = 0;
  files = files;
}

-- A deque with a limit drops its first element.
unfoldable pub push : ℕ → Entry → List Entry → List Entry
push limit e es = last_n limit (es ++ e ∷ [])

-- `source.replace(target)`, if there is a source.
unfoldable pub shift : ℕ → Dict ℕ (List ℕ) → Dict ℕ (List ℕ)
shift index files = elim (lookup (index - 1) files) [
  | none ↦ files
  | some content ↦ erase (index - 1) (insert index content files)
]

-- `for index in range(self.backups, 0, -1)`.
unfoldable pub rotate : ℕ → Dict ℕ (List ℕ) → Dict ℕ (List ℕ)
rotate zero files = files
rotate (suc index) files = rotate index (shift (suc index) files)

-- The part of `append` that writes the line: the rotation, and the write at the end.
unfoldable pub make_room : Logger → List ℕ → Dict ℕ (List ℕ)
make_room l line = elim (lookup 0 l.files) [
  | none ↦ l.files
  | some content ↦
      if ltb l.max_bytes (length content + length line) then rotate l.backups l.files else l.files
]

unfoldable pub add_line : List ℕ → Dict ℕ (List ℕ) → Dict ℕ (List ℕ)
add_line line files = elim (lookup 0 files) [
  | none ↦ insert 0 line files
  | some content ↦ insert 0 (content ++ line) files
]

unfoldable pub write_line : Logger → List ℕ → Dict ℕ (List ℕ)
write_line l line = add_line line (make_room l line)

-- `AppLogger.append`; `line_of` formats the entry, with the local time that the source puts in.
unfoldable pub append : (Entry → List ℕ) → ℕ → Text → Text → Logger → Logger
append line_of now level message l =
    let entry : Entry = record {
      id = l.seq + 1;
      timestamp = now;
      level = level;
      message = message;
    } in
    record l {
      seq = l.seq + 1;
      entries = push l.memory_limit entry l.entries;
      files = write_line l (line_of entry);
    }

unfoldable pub after : ℕ → List Entry → List Entry
after id [] = []
after id (e ∷ es) = if ltb id e.id then e ∷ after id es else after id es

-- `AppLogger.read`: the entries and the latest identifier.
unfoldable pub read : ℕ → ℕ → Logger → List Entry × ℕ
read after_id limit l =
    let found = after after_id l.entries in
    (if ltb 0 limit then last_n limit found else found, l.seq)

unfoldable pub clear_memory : Logger → Logger
clear_memory l = record l { entries = [] }
