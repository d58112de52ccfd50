-- ===== src/Log/Ring.antt =====
-- What a reader that polls the log gets.
use iptv_sniffer_web.Base.{
  ℕ, zero, suc, ◌+◌, ◌-◌, ◌≤◌, ◌<◌, ◌≡◌, refl, sym, ◌∙◌, List, [], ◌∷◌, ◌++◌, arith, nat_eq,
  string_eq, pair_eq, list_eq, length, drop, lt→ltb, length-append, length-drop, drop-append_le,
  All, All-append, Text,
}
use mathlib.Core.List.{append_assoc, append-nil}
use iptv_sniffer_web.Log.{Entry, Logger, push, append, after, read}

unfoldable pub append_all : (Entry → List ℕ) → List (ℕ × Text × Text) → Logger → Logger
append_all line_of [] l = l
append_all line_of ((now, level, message) ∷ ms) l =
    append_all line_of ms (append line_of now level message l)

-- The entries of these messages, when the last identifier given out was `seq`.
unfoldable pub entries_of : ℕ → List (ℕ × Text × Text) → List Entry
entries_of seq [] = []
entries_of seq ((now, level, message) ∷ ms) =
    record { id = seq + 1; timestamp = now; level = level; message = message }
    ∷ entries_of (seq + 1) ms

-- Only identifiers that were given out are in memory.
abbrev pub IsLogger : Logger → Type 0
IsLogger l = All (λ (e : Entry). e.id ≤ l.seq) l.entries

All-drop : (P : Entry → Type 0) (n : ℕ) (es : List Entry) → All P es → All P (drop n es)
All-drop P zero es h = h
All-drop P (suc n) [] h = tt
All-drop P (suc n) (e ∷ es) h = All-drop P n es h.1

weaken :
    (n : ℕ) (es : List Entry)
    → All (λ (e : Entry). e.id ≤ n) es
    → All (λ (e : Entry). e.id ≤ n + 1) es
weaken n [] h = tt
weaken n (e ∷ es) h = (omega arith, weaken n es h.1)

after_old :
    (s : ℕ) (olds news : List Entry)
    → All (λ (e : Entry). e.id ≤ s) olds
    → after s (olds ++ news) ≡ after s news
unfolding after
after_old s [] news h = refl
after_old s (e ∷ olds) news h = ground (arith, after_old s olds news h.1)

after_new : (s : ℕ) (news : List Entry) → All (λ (e : Entry). s < e.id) news → after s news ≡ news
unfolding after
after_new s [] h = refl
after_new s (e ∷ news) h = ground (arith, after_new s news h.1)

push_fits :
    (limit : ℕ) (e : Entry) (olds news : List Entry)
    → length news < limit
    → push limit e (olds ++ news)
      ≡ drop (length (olds ++ (news ++ e ∷ [])) - limit) olds ++ (news ++ e ∷ [])
unfolding push
push_fits limit e olds news h =
    let fits : length (olds ++ (news ++ e ∷ [])) - limit ≤ length olds =
      omega (arith, length-append olds (news ++ e ∷ []), length-append news (e ∷ [])) in
    rw (append_assoc olds news (e ∷ [])) (drop-append_le _ olds (news ++ e ∷ []) fits)

module _ (line_of : Entry → List ℕ) (s : ℕ) where
  polled :
      (ms : List (ℕ × Text × Text)) (l : Logger) (olds news : List Entry)
      → l.entries ≡ olds ++ news
      → All (λ (e : Entry). e.id ≤ s) olds
      → All (λ (e : Entry). s < e.id) news
      → s ≤ l.seq
      → length news + length ms ≤ l.memory_limit
      → after s (append_all line_of ms l).entries ≡ news ++ entries_of l.seq ms
  unfolding append_all entries_of append
  polled [] l olds news e o n q k =
      rw (e, after_old s olds news o, after_new s news n) (sym (append-nil news))
  polled ((now, level, message) ∷ ms) l olds news e o n q k =
      let entry : Entry = record {
        id = l.seq + 1;
        timestamp = now;
        level = level;
        message = message;
      } in
      let kept = drop (length (olds ++ (news ++ entry ∷ [])) - l.memory_limit) olds in
      let pushed : push l.memory_limit entry l.entries ≡ kept ++ (news ++ entry ∷ []) =
        rw e (push_fits l.memory_limit entry olds news (omega arith)) in
      polled ms (append line_of now level message l) kept (news ++ entry ∷ []) pushed
        (All-drop _ _ olds o) (All-append _ news (entry ∷ []) n (omega arith, tt)) (omega arith)
        (omega (arith, length-append news (entry ∷ [])))
      ∙ append_assoc news (entry ∷ []) (entries_of (l.seq + 1) ms)

length-entries_of : (seq : ℕ) (ms : List (ℕ × Text × Text)) → length (entries_of seq ms) ≡ length ms
unfolding entries_of
length-entries_of seq [] = refl
length-entries_of seq (m ∷ ms) = omega (arith, length-entries_of (seq + 1) ms)

append_all-seq :
    (line_of : Entry → List ℕ) (ms : List (ℕ × Text × Text)) (l : Logger)
    → (append_all line_of ms l).seq ≡ l.seq + length ms
unfolding append_all append
append_all-seq line_of [] l = omega arith
append_all-seq line_of ((now, level, message) ∷ ms) l =
    omega (arith, append_all-seq line_of ms (append line_of now level message l))

-- A reader that polls with the latest identifier it saw and a limit of at least one, when at most as
-- many entries were logged since as memory holds, gets the newest of these, as many as its limit
-- allows, in their order and with nothing in between, and the identifier to ask with next.
pub read-append_all :
    (line_of : Entry → List ℕ) (ms : List (ℕ × Text × Text)) (limit : ℕ) (l : Logger)
    → IsLogger l
    → length ms ≤ l.memory_limit
    → 0 < limit
    → read l.seq limit (append_all line_of ms l)
      ≡ (drop (length ms - limit) (entries_of l.seq ms), l.seq + length ms)
unfolding read append_all
read-append_all line_of ms limit l h k some_limit =
    let fresh : after l.seq (append_all line_of ms l).entries ≡ entries_of l.seq ms =
      polled line_of l.seq ms l l.entries [] (sym (append-nil l.entries)) h tt (omega arith)
        (omega arith) in
    rw (fresh, append_all-seq line_of ms l, length-entries_of l.seq ms, lt→ltb 0 limit some_limit)
      refl

last_ids :
    (limit : ℕ) (e : Entry) (l : Logger)
    → IsLogger l
    → e.id ≡ l.seq + 1
    → All (λ (x : Entry). x.id ≤ l.seq + 1) (push limit e l.entries)
unfolding push
last_ids limit e l h q =
    All-drop _ _ (l.entries ++ e ∷ [])
      (All-append _ l.entries (e ∷ []) (weaken l.seq l.entries h) (omega arith, tt))

-- Logging keeps to this: memory holds at most its limit of entries, all with identifiers given out.
append-IsLogger :
    (line_of : Entry → List ℕ) (now : ℕ) (level message : Text) (l : Logger)
    → IsLogger l
    → IsLogger (append line_of now level message l)
      × (length (append line_of now level message l).entries ≤ l.memory_limit)
unfolding append push
append-IsLogger line_of now level message l h =
    let entry : Entry = record {
      id = l.seq + 1;
      timestamp = now;
      level = level;
      message = message;
    } in
    (
      last_ids l.memory_limit entry l h refl,
      omega (
        arith,
        length-drop (length (l.entries ++ entry ∷ []) - l.memory_limit) (l.entries ++ entry ∷ []),
      ),
    )
