-- ===== src/CrashBackoff/Tests.antt =====
-- The crash backoff theorems at concrete inputs, and a run of a pool that fails to boot.
use php_fpm_ng.Base.{ℕ, ◌≡◌, refl, true, Option, none, some, arith}
use php_fpm_ng.CrashBackoff.Time.{Timeval}
use php_fpm_ng.CrashBackoff.Entry.{Entry, fresh, Exit, child_exited, may_spawn}
use php_fpm_ng.CrashBackoff.Entry.Waits.{queue, Step, Steps, AllBounded}
use php_fpm_ng.CrashBackoff.Entry.Timer.{Asked, fresh-Asked}

abbrev at_second : ℕ → Timeval
at_second s = record { tv_sec = s; tv_usec = 5 }

abbrev crash : ℕ → Exit
crash s = record {
  can_spawn = true;
  requests = 0;
  now = at_second s;
  started = record { tv_sec = s; tv_usec = 1 };
  pid = 4242;
  max_failures = 2;
}

abbrev crashed_once : Option Entry
crashed_once = child_exited (some fresh) (crash 100)

-- The delay of a pool that gave up is 53,911 ms here.
abbrev failing : Entry
failing = record fresh {
  consecutive_failures = 2;
  gave_up = true;
  respawn_delay_ms = 53911;
  next_spawn = record { tv_sec = 153; tv_usec = 911005 };
}

gate_runs :
    ((may_spawn (some failing) (at_second 120)).armed ≡ some 33911)
    × ((may_spawn (some failing) (at_second 154)).may ≡ true)
    × ((may_spawn none (at_second 154)).may ≡ true)
unfolding may_spawn
gate_runs = (refl, refl, refl)

-- The gate timer is set for the end of the delay, and is queued when the master asks again.
abbrev waiting : Option Entry
waiting = (may_spawn crashed_once (at_second 101)).entry

abbrev gate : Option ℕ
gate = queue (at_second 101) (may_spawn crashed_once (at_second 101)).armed none

fresh-Asked_example : AllBounded (at_second 101) waiting × Asked (at_second 101) waiting gate
fresh-Asked_example =
    fresh-Asked (at_second 100) (at_second 101) (at_second 101) waiting gate
      (Steps.then_steps (omega arith) (omega arith)
        (Step.exits fresh (crash 100) none refl (omega arith))
        (Steps.then_steps (omega arith) (omega arith) (Step.asks crashed_once none)
          (Steps.stay (at_second 101) waiting gate)))
      (omega arith) (omega arith)
