-- ===== src/Cron/Next.antt =====
-- `fpm_cron_schedule_matches` and `fpm_cron_schedule_next` of
-- sapi/fpmng/fpm/fpm_cron_schedule.c. A time is a number of seconds since the epoch, so it is not
-- negative here.
pub mod First
use php_fpm_ng.Base.{
  ℕ, zero, suc, ◌+◌, ◌*◌, ◌/◌, Bool, true, false, not, ◌&&◌, ◌||◌, Option, none, some, [], ◌∷◌,
  Bytes, ltb, if◌then◌else◌, get_or,
}
use php_fpm_ng.Cron.Schedule.{Schedule}

-- The fields of `struct tm` that the match reads.
pub record Tm : Type 0 where
  pub tm_min : ℕ
  pub tm_hour : ℕ
  pub tm_mday : ℕ
  pub tm_mon : ℕ
  pub tm_wday : ℕ

-- The union rule of crontab(5), for two restricted day fields.
pub day_match : Schedule → Tm → Bool
day_match s t =
    if s.mday_is_star && s.wday_is_star
    then true
    else if s.mday_is_star
    then get_or s.wday t.tm_wday false
    else if s.wday_is_star
    then get_or s.mday t.tm_mday false
    else get_or s.mday t.tm_mday false || get_or s.wday t.tm_wday false

unfoldable pub matches : Schedule → Tm → Bool
unfolding day_match
matches s t =
    if not (get_or s.minute t.tm_min false)
    then false
    else if not (get_or s.hour t.tm_hour false)
    then false
    else if not (get_or s.month (t.tm_mon + 1) false)
    then false
    else day_match s t

-- The loop `while (t < limit)`, on fuel; `to_tm` is `localtime_r` or `gmtime_r`. `none` is
-- `(time_t) -1`.
pub scan : ℕ → (ℕ → Tm) → Schedule → ℕ → ℕ → Option ℕ
scan zero to_tm s t limit = none
scan (suc f) to_tm s t limit =
    let rest = scan f to_tm s (t + 60) limit in
    if ltb t limit then if matches s (to_tm t) then some t else rest else none

-- `4 * 366 * 24 * 60 * 60` seconds, and its minutes.
abbrev pub horizon : ℕ
horizon = 126489600

abbrev pub horizon_minutes : ℕ
horizon_minutes = 2108160

-- The value of the environment variable TZ.
abbrev pub Env : Type 0
Env = Option Bytes

-- The new environment, and the value that was there before.
pub tz_push : Bytes → Env → Env × Option Bytes
tz_push tz cur = (some tz, cur)

pub tz_pop : Option Bytes → Env → Env
tz_pop (some saved) env = some saved
tz_pop none env = none

-- `(after / 60 + 1) * 60`.
abbrev pub first_minute : ℕ → ℕ
first_minute after = (after / 60 + 1) * 60

-- The C library's `gmtime_r`, and its `localtime_r` under a value of TZ.
module _ (gmtime : ℕ → Tm) (localtime : Env → ℕ → Tm) where
  pub next_local : Schedule → ℕ → Bytes → Env → Option ℕ × Env
  next_local s after tz env =
      let (env', saved) = tz_push tz env in
      let t = first_minute after in
      (scan (suc horizon_minutes) (localtime env') s t (t + horizon), tz_pop saved env')

  pub next_utc : Schedule → ℕ → Env → Option ℕ × Env
  next_utc s after env =
      let t = first_minute after in (scan (suc horizon_minutes) gmtime s t (t + horizon), env)

  -- A zone name that is NULL or empty is UTC.
  unfoldable pub schedule_next : Schedule → ℕ → Option Bytes → Env → Option ℕ × Env
  unfolding next_local next_utc tz_push tz_pop scan matches
  schedule_next s after none env = next_utc s after env
  schedule_next s after (some []) env = next_utc s after env
  schedule_next s after (some (c ∷ tz)) env = next_local s after (c ∷ tz) env
