-- ===== src/Supervisor/State.antt =====
-- `struct fpm_supervisor_shared_s` of sapi/fpmng/fpm/fpm_pool_supervisor.c, the fields that the
-- policy uses, and the directives that it reads. A time is a number of seconds.
use php_fpm_ng.Base.{
  ℕ, ◌+◌, ◌%◌, ◌^◌, Bool, true, false, not, List, Bytes, codes, equal, ◌==◌, if◌then◌else◌,
}

pub record Shared : Type 0 where
  pub failures : ℕ
  pub next_allowed_start : ℕ
  pub terminal : Bool
  pub gave_up : Bool
  pub fatal_signaled : Bool
  pub one_shot_done_no_slot : ℕ
  pub last_deterministic_delay : ℕ
  pub fast_runs : ℕ
  pub fast_started_ms : ℕ
  pub fast_warned : Bool
  pub one_shot_done_by_slot : List Bool

-- The parser of the configuration lets no negative value through.
pub record Config : Type 0 where
  pub restart : Bytes
  pub processes : ℕ
  pub restart_max : ℕ
  pub restart_delay : ℕ
  pub restart_delay_max : ℕ
  pub fatal : Bool

-- One run of the script that is over, and the clocks read behind it.
pub record Run : Type 0 where
  pub exit_code : ℕ
  pub duration : ℕ
  pub duration_ms : ℕ
  pub now : ℕ
  pub now_ms : ℕ

-- `unsigned` is 32 bits wide.
abbrev pub bump : ℕ → ℕ
bump n = (n + 1) % 2 ^ 32

-- `unsigned long` is 64 bits wide.
abbrev pub bump_long : ℕ → ℕ
bump_long n = (n + 1) % 2 ^ 64

-- The copies of the pool: at least one.
abbrev pub copies : Config → ℕ
copies c = if c.processes == 0 then 1 else c.processes

unfoldable pub wants_retry : Config → ℕ → Bool
unfolding equal
wants_retry c exit_code =
    if equal c.restart (codes "never")
    then false
    else if equal c.restart (codes "on-failure")
    then not (exit_code == 0)
    else true
