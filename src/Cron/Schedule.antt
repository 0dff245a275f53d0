-- ===== src/Cron/Schedule.antt =====
-- `struct fpm_cron_schedule_s` and `fpm_cron_schedule_parse` of
-- sapi/fpmng/fpm/fpm_cron_schedule.c.
pub mod Meaning
use php_fpm_ng.Base.{
  ℕ, Bool, true, false, ◌||◌, List, [], ◌∷◌, Option, none, some, Bytes, codes, equal, leb, ◌==◌,
  if◌then◌else◌, length, get_or, set, take,
}
use php_fpm_ng.Cron.Outcome.{
  Reason, empty_schedule, unknown_shorthand, expression_too_long, field_count, Outcome, ok, fail,
  undefined, ◌>>=◌,
}
use php_fpm_ng.Base.Tokens.{tokens}
use php_fpm_ng.Cron.Field.{parse_field}

pub record Schedule : Type 0 where
  pub minute : List Bool
  pub hour : List Bool
  pub mday : List Bool
  pub month : List Bool
  pub wday : List Bool
  pub mday_is_star : Bool
  pub wday_is_star : Bool

-- `fpm_cron_shorthands`.
abbrev pub shorthands : List (Bytes × Bytes)
shorthands =
    (codes "@hourly", codes "0 * * * *")
    ∷ (codes "@daily", codes "0 0 * * *")
    ∷ (codes "@weekly", codes "0 0 * * 0")
    ∷ (codes "@monthly", codes "0 0 1 * *")
    ∷ (codes "@yearly", codes "0 0 1 1 *")
    ∷ []

pub find_shorthand : Bytes → List (Bytes × Bytes) → Option Bytes
find_shorthand expr [] = none
find_shorthand expr ((name, expansion) ∷ rest) =
    if equal expr name then some expansion else find_shorthand expr rest

abbrev pub is_blank : ℕ → Bool
is_blank c = c == b' ' || c == b'\t'

-- Both 0 and 7 mean Sunday: the temporary bitmap of eight days is folded.
pub fold_wday : List Bool → List Bool
fold_wday tmp = if get_or tmp 7 false then set (take 7 tmp) 0 true else take 7 tmp

-- `fields` and `n` at the end of the `strtok_r` loop.
pub parse_fields : List Bytes → Outcome Schedule
unfolding fold_wday
parse_fields (a ∷ b ∷ c ∷ d ∷ e ∷ []) = do
  (minute, _) ← parse_field 0 59 60 a
  (hour, _) ← parse_field 0 23 24 b
  (mday, mday_star) ← parse_field 1 31 32 c
  (month, _) ← parse_field 1 12 13 d
  (wday_tmp, wday_star) ← parse_field 0 7 8 e
  ok (record {
    minute = minute;
    hour = hour;
    mday = mday;
    month = month;
    wday = fold_wday wday_tmp;
    mday_is_star = mday_star;
    wday_is_star = wday_star;
  })
parse_fields _ = fail field_count

-- `char buf[256]`.
abbrev pub expression_size : ℕ
expression_size = 256

-- The function behind the shorthands.
pub parse_expression : Bytes → Outcome Schedule
unfolding parse_fields tokens
parse_expression expr =
    if leb expression_size (length expr)
    then fail expression_too_long
    else parse_fields (tokens is_blank expr)

-- The recursive call on an expansion: none of them is empty or begins with `@`.
pub parse_expansion : Option Bytes → Outcome Schedule
unfolding parse_expression
parse_expansion none = fail unknown_shorthand
parse_expansion (some expansion) = parse_expression expansion

-- `none` is a NULL pointer.
unfoldable pub schedule_parse : Option Bytes → Outcome Schedule
unfolding parse_expansion parse_expression find_shorthand
schedule_parse none = fail empty_schedule
schedule_parse (some []) = fail empty_schedule
schedule_parse (some (c ∷ s)) =
    if c == b'@'
    then parse_expansion (find_shorthand (c ∷ s) shorthands)
    else parse_expression (c ∷ s)
