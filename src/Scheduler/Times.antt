-- ===== src/Scheduler/Times.antt =====
-- When the next refresh is due.
use iptv_sniffer_web.Base.{
  ℕ, ◌+◌, ◌≤◌, ◌≡◌, false, none, some, arith, if◌then◌else◌, nat_eq, string_eq, pair_eq, list_eq,
}
use iptv_sniffer_web.Scheduler.{
  Settings, State, interval, enabled, next_run, is_set, is_interval, Refreshed, ran, run, settle,
  record_result, start, persist,
}

-- An interval is between an hour and a week, whatever the setting is.
interval-bounds : (s : Settings) → (3600 ≤ interval s) × (interval s ≤ 604800)
unfolding interval
interval-bounds s = ground arith

-- After a run, however it ended: nothing is running, the time of its start is kept, and the next run
-- is at least an hour and at most a week after its end if the refresh is enabled, and none otherwise.
pub run-State :
    (settings : Settings) (refreshed : Refreshed) (begun ended : ℕ) (s s' : State)
    → run settings refreshed begun ended s ≡ ran refreshed s'
    → (s'.running ≡ false)
      × (s'.last_run_at ≡ some begun)
      × (s'.schedule_interval ≡ some (interval settings))
      × (if enabled settings
          then ((n : ℕ) × (s'.next_run_at ≡ some n) × (ended + 3600 ≤ n) × (n ≤ ended + 604800))
          else s'.next_run_at ≡ none)
unfolding run settle record_result start persist
run-State settings refreshed begun ended s s' h = ground (arith, interval-bounds settings)

-- Asking for the next run a second time, at whatever time, gives the same answer, changes nothing and
-- writes nothing.
next_run-next_run :
    (settings : Settings) (now later : ℕ) (s : State)
    → next_run settings later (next_run settings now s).0 ≡ next_run settings now s
unfolding next_run is_set is_interval persist
next_run-next_run settings now later s = ground (arith, interval-bounds settings)

-- The next run after a run is the one that it planned: it is not planned anew from the clock. While
-- the refresh is enabled, asking for it writes nothing.
run-next_run :
    (settings : Settings) (refreshed : Refreshed) (begun ended now : ℕ) (s s' : State)
    → run settings refreshed begun ended s ≡ ran refreshed s'
    → if enabled settings
      then next_run settings now s' ≡ (s', some (ended + interval settings))
      else (next_run settings now s').1 ≡ none
unfolding run next_run settle record_result start persist is_set is_interval
run-next_run settings refreshed begun ended now s s' h = ground arith
