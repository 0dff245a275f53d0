-- ===== src/CrashBackoff/Entry.antt =====
-- The state of one pool and the entry points of sapi/fpmng/fpm/fpm_crash_backoff.c. A pool with no
-- state has the entry `none`. The timers of the event loop are outside: a call of `fpm_event_add`
-- is the number of milliseconds handed to it.
pub mod Exits
pub mod Gate
pub mod Waits
pub mod Timer
use php_fpm_ng.Base.{
  ℕ, ◌+◌, ◌*◌, ◌/◌, ◌%◌, ◌^◌, Bool, true, false, not, ◌&&◌, ◌||◌, Option, none, some, ltb, leb,
  ◌==◌, if◌then◌else◌,
}
use php_fpm_ng.CrashBackoff.Time.{Timeval, cleared, timerisset, earlier, timeradd, timersub}
use php_fpm_ng.CrashBackoff.Delay.{delay_ms}

-- The shared block and the master's own fields.
pub record Entry : Type 0 where
  pub consecutive_failures : ℕ
  pub gave_up : Bool
  pub respawn_delay_ms : ℕ
  pub next_spawn : Timeval
  pub gate_due : Timeval
  pub gate_armed : Bool
  pub survive_armed : Bool
  pub watch_pid : ℕ
  pub watch_started : Timeval

-- What `calloc` and `fpm_shm_alloc` leave.
abbrev pub fresh : Entry
fresh = record {
  consecutive_failures = 0;
  gave_up = false;
  respawn_delay_ms = 0;
  next_spawn = cleared;
  gate_due = cleared;
  gate_armed = false;
  survive_armed = false;
  watch_pid = 0;
  watch_started = cleared;
}

-- `fpm_crash_backoff_init`, where memory is available.
abbrev pub init : Bool → Option Entry
init respawn_backoff = if respawn_backoff then some fresh else none

abbrev pub clear : Entry → Entry
clear e = record e {
  consecutive_failures = 0;
  gave_up = false;
  respawn_delay_ms = 0;
  next_spawn = cleared;
}

-- A child that exited: whether the master may spawn, the requests that its scoreboard slot counts
-- (0 with no slot), the clock, its start, the pid of the master, and pm.max_consecutive_failures.
pub record Exit : Type 0 where
  pub can_spawn : Bool
  pub requests : ℕ
  pub now : Timeval
  pub started : Timeval
  pub pid : ℕ
  pub max_failures : ℕ

abbrev pub window_s : ℕ
window_s = 10

-- The child served a request, or lived a whole window.
abbrev pub is_healthy : Exit → Bool
is_healthy x = ltb 0 x.requests || leb window_s (timersub x.now x.started).tv_sec

abbrev pub of_ms : ℕ → Timeval
of_ms ms = record { tv_sec = ms / 1000; tv_usec = ms % 1000 * 1000 }

pub fast_failure : Entry → Exit → Entry
fast_failure e x =
    let failures = (e.consecutive_failures + 1) % 2 ^ 32 in
    let up =
      if ltb 0 x.max_failures && leb x.max_failures failures && not e.gave_up
      then true
      else e.gave_up in
    let delay = delay_ms failures up x.now x.pid in
    record e {
      consecutive_failures = failures;
      gave_up = up;
      respawn_delay_ms = delay;
      next_spawn = timeradd x.now (of_ms delay);
    }

unfoldable pub child_exited : Option Entry → Exit → Option Entry
unfolding fast_failure delay_ms timeradd timersub
child_exited none x = none
child_exited (some e) x =
    if not x.can_spawn
    then some e
    else if is_healthy x
    then some (clear e)
    else some (fast_failure e x)

-- Whether the fork may happen now, the new state, and the timer that is armed.
pub record Answer : Type 0 where
  pub may : Bool
  pub entry : Option Entry
  pub armed : Option ℕ

-- Milliseconds, rounded up.
abbrev pub ms_up : Timeval → ℕ
ms_up left = left.tv_sec * 1000 + (left.tv_usec + 999) / 1000

pub wait : Entry → Timeval → Answer
wait e now =
    if not e.gate_armed || earlier e.next_spawn e.gate_due
    then record {
      may = false;
      entry = some (record e { gate_due = e.next_spawn; gate_armed = true });
      armed = some (ms_up (timersub e.next_spawn now));
    }
    else record { may = false; entry = some e; armed = none }

unfoldable pub may_spawn : Option Entry → Timeval → Answer
unfolding timerisset earlier timersub wait
may_spawn none now = record { may = true; entry = none; armed = none }
may_spawn (some e) now =
    if not (timerisset e.next_spawn)
    then record { may = true; entry = some e; armed = none }
    else if not (earlier now e.next_spawn)
    then record { may = true; entry = some (record e { next_spawn = cleared }); armed = none }
    else wait e now

-- The new state, and the survive timer that is armed.
unfoldable pub child_spawned : Option Entry → ℕ → Timeval → Option Entry × Option ℕ
child_spawned none pid started = (none, none)
child_spawned (some e) pid started =
    if e.consecutive_failures == 0 then (some (record e { respawn_delay_ms = 0 }), none) else (
      some (record e {
        respawn_delay_ms = 0;
        watch_pid = pid;
        watch_started = started;
        survive_armed = true;
      }),
      some (window_s * 1000),
    )

-- `fpm_child_find(e->watch_pid)`: the start of the pool's child with that pid, if there is one.
-- `true` calls `fpm_children_make`.
unfoldable pub survive_fire : Entry → Option Timeval → Bool × Entry
survive_fire e none = (false, record e { survive_armed = false })
survive_fire e (some started) =
    if e.consecutive_failures == 0
    then (false, record e { survive_armed = false })
    else if not
        (started.tv_sec == e.watch_started.tv_sec && started.tv_usec == e.watch_started.tv_usec)
    then (false, record e { survive_armed = false })
    else (true, clear (record e { survive_armed = false }))

-- It calls `fpm_children_make`, which asks `may_spawn` again.
abbrev pub gate_fire : Entry → Entry
gate_fire e = record e { gate_armed = false }
