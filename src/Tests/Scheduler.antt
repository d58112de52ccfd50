-- ===== src/Tests/Scheduler.antt =====
-- A daily refresh.
use iptv_sniffer_web.Base.{
  ℕ, ◌+◌, ◌≤◌, ◌≡◌, refl, true, false, none, some, [], if◌then◌else◌, nat_eq, string_eq, pair_eq,
  list_eq,
}
use iptv_sniffer_web.Scheduler.{
  Settings, State, interval, enabled, succeeds, run, start, record_result, settle, persist,
}
use iptv_sniffer_web.Scheduler.Times.{run-State}

abbrev daily : Settings
daily = record { auto_refresh_hours = 24; catchup_enabled = true; auto_refresh_enabled = true }

abbrev idle : State
idle = record {
  running = false;
  next_run_at = none;
  schedule_interval = none;
  last_run_at = none;
  last_success_at = none;
  last_error = [];
  writes = 0;
}

abbrev done : State
done = record {
  running = false;
  next_run_at = some 86500;
  schedule_interval = some 86400;
  last_run_at = some 90;
  last_success_at = some 99;
  last_error = [];
  writes = 1;
}

run-State_example :
    (done.running ≡ false)
    × (done.last_run_at ≡ some 90)
    × (done.schedule_interval ≡ some (interval daily))
    × (if enabled daily
        then ((n : ℕ) × (done.next_run_at ≡ some n) × (100 + 3600 ≤ n) × (n ≤ 100 + 604800))
        else done.next_run_at ≡ none)
unfolding run start record_result settle persist interval enabled
run-State_example = run-State daily (succeeds 99) 90 100 idle done refl
