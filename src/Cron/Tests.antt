-- ===== src/Cron/Tests.antt =====
-- The cron theorems at concrete inputs, and runs of the parser and of the search.
use php_fpm_ng.Base.{
  ℕ, ◌+◌, ◌/◌, ◌%◌, ◌≤◌, ◌<◌, Bool, true, false, List, [], ◌∷◌, ◌++◌, ◌≡◌, refl, none, some, arith,
  Bytes, codes, replicate,
}
use php_fpm_ng.Cron.Outcome.{
  Outcome, ok, fail, undefined, bad_step, out_of_range, bad_range, trailing, field_count,
  unknown_shorthand, empty_field,
}
use php_fpm_ng.Cron.Item.{parse_item}
use php_fpm_ng.Cron.Item.Read.{IsNumeral, Form, star, single, span, Every, each, by_step, IsValid}
use php_fpm_ng.Cron.Item.Read.Overflow.{parse_item_overflow}
use php_fpm_ng.Cron.Field.{parse_field}
use php_fpm_ng.Cron.Field.Meaning.{Field}
use php_fpm_ng.Cron.Schedule.{Schedule, schedule_parse}
use php_fpm_ng.Cron.Schedule.Meaning.{
  Line, line_text, FieldIsValid, LineIsValid, Denotes, schedule_parse-line_text,
}
use php_fpm_ng.Cron.Next.{Tm, schedule_next, first_minute, horizon}
use php_fpm_ng.Cron.Next.First.{IsFirst, schedule_next-IsFirst}

-- The numbers of the set bits.
abbrev set_bits : ℕ → List Bool → List ℕ
set_bits i [] = []
set_bits i (true ∷ b) = i ∷ set_bits (i + 1) b
set_bits i (false ∷ b) = set_bits (i + 1) b

abbrev bits : Outcome (List Bool) → Outcome (List ℕ)
bits (ok b) = ok (set_bits 0 b)
bits (fail r) = fail r
bits undefined = undefined

abbrev minutes : List Bool
minutes = replicate 60 false

item_runs :
    (bits (parse_item 0 59 (codes "10-30/7") minutes) ≡ ok (10 ∷ 17 ∷ 24 ∷ []))
    × (bits (parse_item 0 59 (codes "50/4") minutes) ≡ ok (50 ∷ 54 ∷ 58 ∷ []))
    × (bits (parse_item 0 59 (codes "*/20") minutes) ≡ ok (0 ∷ 20 ∷ 40 ∷ []))
    × (bits (parse_item 0 59 (codes "7") minutes) ≡ ok (7 ∷ []))
    × (parse_item 0 59 (codes "5-3") minutes ≡ fail bad_range)
    × (parse_item 0 59 (codes "60") minutes ≡ fail out_of_range)
    × (parse_item 0 59 (codes "*/0") minutes ≡ fail bad_step)
    × (parse_item 0 59 (codes "1x") minutes ≡ fail trailing)
    × (parse_item 0 59 (codes "4294967301") minutes ≡ undefined)
unfolding parse_item
item_runs = (refl, refl, refl, refl, refl, refl, refl, refl, refl)

ten : IsNumeral (codes "10") 10
ten = record { ne_nil = λ e. cc; digits = ground arith; value = refl; fits = omega arith }

thirty : IsNumeral (codes "30") 30
thirty = record { ne_nil = λ e. cc; digits = ground arith; value = refl; fits = omega arith }

seven : IsNumeral (codes "7") 7
seven = record { ne_nil = λ e. cc; digits = ground arith; value = refl; fits = omega arith }

six : IsNumeral (codes "6") 6
six = record { ne_nil = λ e. cc; digits = ground arith; value = refl; fits = omega arith }

abbrev tens : Form
tens = span (codes "10") 10 (codes "30") 30

abbrev sevens : Every
sevens = by_step (codes "7") 7

tens-IsValid : IsValid 0 59 tens sevens
tens-IsValid = record {
  domain = record {
    form = (ten, thirty);
    every = (seven, omega arith);
    above = omega arith;
    ordered = omega arith;
    below = omega arith;
  };
  no_overflow = omega arith;
}

abbrev huge : Every
huge = by_step (codes "2147483647") 2147483647

parse_item_overflow_example : parse_item 0 59 (codes "7/2147483647") minutes ≡ undefined
parse_item_overflow_example =
    parse_item_overflow 0 59 (single (codes "7") 7) huge minutes
      (record {
        form = seven;
        every = (
          record { ne_nil = λ e. cc; digits = ground arith; value = refl; fits = omega arith },
          omega arith,
        );
        above = omega arith;
        ordered = omega arith;
        below = omega arith;
      })
      (omega arith) (omega arith)

abbrev any_time : Field
any_time = record { head = record { form = star; every = each }; more = [] }

abbrev week_end : Field
week_end = record {
  head = record { form = single (codes "7") 7; every = each };
  more = record { form = single (codes "6") 6; every = each } ∷ [];
}

abbrev nightly : Line
nightly = record {
  minute = record { head = record { form = tens; every = sevens }; more = [] };
  hour = any_time;
  mday = any_time;
  month = any_time;
  wday = week_end;
}

star-FieldIsValid : (min max : ℕ) → min ≤ max → max ≤ 59 → FieldIsValid min max any_time
star-FieldIsValid min max h k = record {
  valid = (
    record {
      domain = record {
        form = tt;
        every = tt;
        above = omega arith;
        ordered = omega arith;
        below = omega arith;
      };
      no_overflow = omega arith;
    },
    tt,
  );
  short = omega arith;
}

day-IsValid : (ds : Bytes) (n : ℕ) → IsNumeral ds n → n ≤ 7 → IsValid 0 7 (single ds n) each
day-IsValid ds n i h = record {
  domain = record {
    form = i;
    every = tt;
    above = omega arith;
    ordered = omega arith;
    below = omega arith;
  };
  no_overflow = omega arith;
}

nightly-LineIsValid : LineIsValid nightly
nightly-LineIsValid = record {
  minute = record { valid = (tens-IsValid, tt); short = omega arith };
  hour = star-FieldIsValid 0 23 (omega arith) (omega arith);
  mday = star-FieldIsValid 1 31 (omega arith) (omega arith);
  month = star-FieldIsValid 1 12 (omega arith) (omega arith);
  wday = record {
    valid = (
      day-IsValid (codes "7") 7 seven (omega arith),
      (day-IsValid (codes "6") 6 six (omega arith), tt),
    );
    short = omega arith;
  };
  short = omega arith;
}

nightly_text : line_text nightly ≡ codes "10-30/7 * * * 7,6"
nightly_text = refl

schedule_parse-line_text_example :
    (s : Schedule) × (schedule_parse (some (codes "10-30/7 * * * 7,6")) ≡ ok s) × Denotes nightly s
schedule_parse-line_text_example = schedule_parse-line_text nightly nightly-LineIsValid

schedule_runs :
    (schedule_parse (some (codes "@daily")) ≡ schedule_parse (some (codes "0\t0  * * *")))
    × (schedule_parse (some (codes "* * * *")) ≡ fail field_count)
    × (schedule_parse (some (codes "@never")) ≡ fail unknown_shorthand)
    × (schedule_parse (some (codes ", * * * *")) ≡ fail empty_field)
unfolding schedule_parse parse_field parse_item
schedule_runs = (refl, refl, refl, refl)

-- A clock that knows minutes and hours only.
abbrev clock : ℕ → Tm
clock t = record {
  tm_min = t / 60 % 60;
  tm_hour = t / 3600 % 24;
  tm_mday = 1;
  tm_mon = 0;
  tm_wday = 4;
}

-- At minute 17 of hour 1.
abbrev hourly_17 : Schedule
hourly_17 = record {
  minute = replicate 17 false ++ true ∷ replicate 42 false;
  hour = replicate 24 true;
  mday = replicate 32 true;
  month = replicate 13 true;
  wday = replicate 7 true;
  mday_is_star = true;
  wday_is_star = true;
}

schedule_next_runs : schedule_next clock (λ e. clock) hourly_17 4620 none none ≡ (some 8220, none)
unfolding schedule_next
schedule_next_runs = refl

schedule_next-IsFirst_example :
    IsFirst clock hourly_17
      (first_minute 4620)
      (first_minute 4620 + horizon)
      (schedule_next clock (λ e. clock) hourly_17 4620 none none).0
    × ((schedule_next clock (λ e. clock) hourly_17 4620 none none).1 ≡ none)
    × (4620 < first_minute 4620)
    × (first_minute 4620 ≤ 4620 + 60)
schedule_next-IsFirst_example = schedule_next-IsFirst clock (λ e. clock) hourly_17 4620 none none
