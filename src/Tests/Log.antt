-- ===== src/Tests/Log.antt =====
-- A log of two entries at most, with a file that is nearly full.
use iptv_sniffer_web.Base.{
  ℕ, ◌+◌, ◌-◌, ◌≡◌, List, [], ◌∷◌, arith, nat_eq, string_eq, pair_eq, list_eq, length, drop, Text,
}
use iptv_sniffer_web.Log.{Entry, Logger, read}
use iptv_sniffer_web.Log.Ring.{append_all, entries_of, read-append_all}

abbrev info : Text
info = b'I' ∷ b'N' ∷ b'F' ∷ b'O' ∷ []

abbrev logger : Logger
logger = record {
  memory_limit = 2;
  max_bytes = 4;
  backups = 1;
  entries = record { id = 5; timestamp = 9; level = info; message = [] } ∷ [];
  seq = 5;
  files = (0, 1 ∷ 2 ∷ 3 ∷ []) ∷ [];
}

abbrev messages : List (ℕ × Text × Text)
messages = (10, info, b'a' ∷ []) ∷ (11, info, b'b' ∷ []) ∷ []

abbrev line_of : Entry → List ℕ
line_of e = e.message

read-append_all_example :
    read logger.seq 1 (append_all line_of messages logger)
    ≡ (drop (length messages - 1) (entries_of logger.seq messages), logger.seq + length messages)
read-append_all_example =
    read-append_all line_of messages 1 logger (omega arith, tt) (omega arith) (omega arith)
