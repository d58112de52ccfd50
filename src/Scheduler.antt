-- ===== src/Scheduler.antt =====
-- services/catchup_scheduler.py, `CatchupScheduler`: when the catch-up addresses are refreshed. Times
-- are whole seconds, as `int(time.time())`; the clock's readings are arguments, and a write of the
-- state to disk is counted in `writes`.
pub mod Times
use iptv_sniffer_web.Base.{
  ℕ, zero, suc, ◌+◌, ◌-◌, ◌*◌, ◌/◌, ◌%◌, ◌^◌, ◌≤◌, ◌<◌, min, max, String, ◌≡◌, refl, sym, ap, ◌∙◌,
  ◌≢◌, ◌↔◌, ◌⊎◌, inl, inr, Bool, true, false, not, ◌&&◌, ◌||◌, Option, none, some, List, [], ◌∷◌,
  ◌++◌, map, arith, ◌>>=◌, >>=-eq-some, ltb, leb, if◌then◌else◌, Comparable, ◌==◌, nat_eq,
  string_eq, pair_eq, list_eq, Bool-cases, Option-cases, ltb→lt, ltb→le, lt→ltb, le→ltb, leb→le,
  le→leb, length, get_or, get_elem?, take, drop, last_n, length-append, length-take, length-drop,
  take-append-drop, take-append, drop-append, take_all, take-append_le, drop-append_le,
  slice-append, get_or-append, All, All-append, byte_at, slice, be16, be32, le16, le32, IsByte,
  AreBytes, put_be16, put_be32, put_le16, put_le32, ==_iff, ==_refl, Text, str_nat, is_digit,
  digits_value, digits_value-str_nat,
}

-- The settings that the scheduler reads, as `int` and `bool` see them; no hours is 0, and negative
-- hours, which count as one, are left out.
pub record Settings : Type 0 where
  pub auto_refresh_hours : ℕ
  pub catchup_enabled : Bool
  pub auto_refresh_enabled : Bool

-- `self.state`; `none` is a missing key or None.
pub record State : Type 0 where
  pub running : Bool
  pub next_run_at : Option ℕ
  pub schedule_interval : Option ℕ
  pub last_run_at : Option ℕ
  pub last_success_at : Option ℕ
  pub last_error : Text
  pub writes : ℕ

unfoldable pub interval : Settings → ℕ
interval s = max 1 (min 168 (if s.auto_refresh_hours == 0 then 12 else s.auto_refresh_hours)) * 3600

unfoldable pub enabled : Settings → Bool
enabled s = s.catchup_enabled && s.auto_refresh_enabled

-- What `load` finds under the four keys of the file, where it is a whole number.
pub record Saved : Type 0 where
  pub next_run_at : Option ℕ
  pub schedule_interval : Option ℕ
  pub last_run_at : Option ℕ
  pub last_success_at : Option ℕ

unfoldable pub or_old : Option ℕ → Option ℕ → Option ℕ
or_old none old = old
or_old (some n) old = some n

-- `CatchupScheduler.load`; `none` is no file, or one that cannot be read.
unfoldable pub load : Option Saved → State → State
load none s = s
load (some d) s = record s {
  running = false;
  next_run_at = or_old d.next_run_at s.next_run_at;
  schedule_interval = or_old d.schedule_interval s.schedule_interval;
  last_run_at = or_old d.last_run_at s.last_run_at;
  last_success_at = or_old d.last_success_at s.last_success_at;
}

unfoldable pub persist : State → State
persist s = record s { writes = s.writes + 1 }

-- `int(value or 0)`, and whether a value is there.
unfoldable pub or_zero : Option ℕ → ℕ
or_zero none = 0
or_zero (some n) = n

unfoldable pub is_set : Option ℕ → Bool
is_set none = false
is_set (some n) = true

unfoldable pub is_interval : ℕ → Option ℕ → Bool
is_interval n none = false
is_interval n (some m) = m == n

-- The plan from the last run, or from now on.
unfoldable pub plan : Settings → ℕ → State → ℕ
plan settings now s =
    let last = max (or_zero s.last_run_at) (or_zero s.last_success_at) in
    (if last == 0 then now else last) + interval settings

-- `CatchupScheduler.next_run`.
unfoldable pub next_run : Settings → ℕ → State → State × Option ℕ
unfolding persist
next_run settings now s =
    let cleared = record s { next_run_at = none; schedule_interval = none } in
    let planned = record s {
      next_run_at = some (plan settings now s);
      schedule_interval = some (interval settings);
    } in
    if not (enabled settings)
    then (
      if is_set s.next_run_at || is_set s.schedule_interval then persist cleared else cleared,
      none,
    )
    else if not (is_set s.next_run_at) || not (is_interval (interval settings) s.schedule_interval)
    then (persist planned, planned.next_run_at)
    else (s, s.next_run_at)

-- How `refresh` ends: with a result, at a time, or with an exception, whose text is sanitised.
pub data Refreshed : Type 0 where
  succeeds : ℕ → Refreshed
  raises : Text → Refreshed

pub data Ran : Type 0 where
  refused : Ran
  ran : Refreshed → State → Ran

unfoldable pub record_result : Refreshed → State → State
record_result (succeeds now) s = record s { last_success_at = some now }
record_result (raises text) s = record s { last_error = text }

-- The `finally` of `run`.
unfoldable pub settle : Settings → ℕ → State → State
unfolding persist
settle settings now s = persist (record s {
  running = false;
  schedule_interval = some (interval settings);
  next_run_at = if enabled settings then some (now + interval settings) else none;
})

unfoldable pub start : ℕ → State → State
start now s = record s { running = true; last_run_at = some now; last_error = [] }

-- `CatchupScheduler.run`, from `begun` to `ended`.
unfoldable pub run : Settings → Refreshed → ℕ → ℕ → State → Ran
unfolding start
run settings refreshed begun ended s =
    if s.running
    then refused
    else ran refreshed (settle settings ended (record_result refreshed (start begun s)))
