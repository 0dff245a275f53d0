-- ===== src/Supervisor/Policy.antt =====
-- `fpm_pool_supervisor_one_shot_maybe_finish` and `fpm_pool_supervisor_apply_policy` of
-- sapi/fpmng/fpm/fpm_pool_supervisor.c, and the checks with which a new process of the pool begins.
-- Here no other process writes while a function runs, so the scan sees the bytes as they are.
pub mod Backoff
pub mod Copies
pub mod Pool
pub mod Once
use php_fpm_ng.Base.{
  ℕ, zero, suc, ◌+◌, ◌-◌, ◌*◌, ◌%◌, ◌^◌, Bool, true, false, not, ◌&&◌, Option, none, some, ltb, leb,
  ◌==◌, if◌then◌else◌, set, get_or, equal,
}
use php_fpm_ng.Supervisor.State.{Shared, Config, Run, bump, bump_long, copies, wants_retry}
use php_fpm_ng.Supervisor.Scan.{count_from}

-- The scan of the bytes when nothing else writes.
abbrev pub done_total : Shared → ℕ → ℕ
done_total s n = s.one_shot_done_no_slot + count_from s.one_shot_done_by_slot n 0

unfoldable pub maybe_finish : Shared → ℕ → Shared
maybe_finish s n =
    if leb n (done_total s n) && not s.terminal
    then record s { terminal = true; gave_up = false; failures = 0 }
    else s

-- This copy's one run is over. `none` is a slot below 0.
pub mark_done : Option ℕ → ℕ → Shared → Shared
mark_done none n s = record s { one_shot_done_no_slot = bump_long s.one_shot_done_no_slot }
mark_done (some slot) n s =
    if ltb slot n
    then record s { one_shot_done_by_slot = set s.one_shot_done_by_slot slot true }
    else record s { one_shot_done_no_slot = bump_long s.one_shot_done_no_slot }

abbrev pub fast_run_ms : ℕ
fast_run_ms = 5

abbrev pub fast_run_streak : ℕ
fast_run_streak = 1000

-- A streak of runs that are over at once is warned of once.
pub count_fast : Shared → Run → Shared
count_fast s r =
    if ltb r.duration_ms fast_run_ms
    then (let runs = bump_long s.fast_runs in
        record s {
          fast_started_ms = if s.fast_runs == 0 then r.now_ms else s.fast_started_ms;
          fast_runs = runs;
          fast_warned = if leb fast_run_streak runs then true else s.fast_warned;
        })
    else record s { fast_runs = 0; fast_warned = false }

pub succeed : Shared → Run → Shared
unfolding count_fast
succeed s r = count_fast (record s { failures = 0; next_allowed_start = 0 }) r

-- The loop that doubles the delay, n rounds of it.
pub backoff_loop : ℕ → ℕ → ℕ → ℕ
backoff_loop most zero delay = delay
backoff_loop most (suc n) delay =
    let rest = backoff_loop most n (delay * 2) in if leb most delay then most else rest

pub backoff : Config → ℕ → ℕ
unfolding backoff_loop
backoff c failures =
    let delay = backoff_loop c.restart_delay_max (failures - 1) c.restart_delay in
    if ltb c.restart_delay_max delay then c.restart_delay_max else delay

-- The number of failures with this one.
abbrev pub failed : Config → Shared → Run → ℕ
failed c s r = bump (if leb c.restart_delay_max r.duration then 0 else s.failures)

-- The first of the two stores with which a pool gives up.
abbrev pub store_terminal : Config → Shared → Run → Shared
store_terminal c s r = record s { failures = failed c s r; terminal = true }

abbrev pub reaches_max : Config → Shared → Run → Bool
reaches_max c s r = ltb 0 c.restart_max && leb c.restart_max (failed c s r)

pub fall : Config → Shared → Run → Shared
unfolding backoff
fall c s r =
    let n = failed c s r in
    if reaches_max c s r then record (store_terminal c s r) { gave_up = true } else record s {
      failures = n;
      last_deterministic_delay = backoff c n;
      next_allowed_start = r.now + backoff c n;
    }

-- The result 1, `true`, parks the copy.
unfoldable pub apply_policy : Config → Shared → Run → Option ℕ → Bool × Shared
unfolding wants_retry equal maybe_finish count_from mark_done succeed fall
apply_policy c s r slot =
    if not (wants_retry c r.exit_code)
    then (true, maybe_finish (mark_done slot (copies c) s) (copies c))
    else if r.exit_code == 0
    then (false, succeed s r)
    else (false, fall c s r)

-- What a process does: run the script, or park for good, after a signal to the master or not.
pub data Start : Type 0 where
  runs parks parks_fatal : Start

-- `supervisor.fatal` asks the master to shut down, once.
pub start_terminal : Config → Shared → Start × Shared
start_terminal c s =
    if s.gave_up && c.fatal && not s.fatal_signaled
    then (parks_fatal, record s { fatal_signaled = true })
    else (parks, s)

pub slot_done : Config → Shared → Option ℕ → Bool
slot_done c s none = false
slot_done c s (some slot) = ltb slot (copies c) && get_or s.one_shot_done_by_slot slot false

-- The front of `fpm_pool_supervisor_child_main`.
unfoldable pub child_start : Config → Shared → Option ℕ → Start × Shared
unfolding start_terminal slot_done maybe_finish count_from
child_start c s slot =
    if s.terminal
    then start_terminal c s
    else if slot_done c s slot
    then (parks, maybe_finish s (copies c))
    else (runs, s)
