-- ===== src/Cron/Item.antt =====
-- `fpm_cron_parse_uint` and `fpm_cron_parse_item` of sapi/fpmng/fpm/fpm_cron_schedule.c.
pub mod Fill
pub mod Read
pub mod Safe
use php_fpm_ng.Base.{
  ℕ, zero, suc, ◌+◌, ◌-◌, ◌*◌, Bool, true, false, not, ◌&&◌, ◌||◌, List, [], ◌∷◌, Bytes, peek,
  is_digit, ltb, leb, ◌==◌, if◌then◌else◌, length, set, drop,
}
use php_fpm_ng.Cron.Outcome.{
  Reason, expected_number, expected_high, expected_step, bad_step, trailing, out_of_range,
  bad_range, Outcome, ok, fail, undefined, ◌>>=◌, ◌>>◌, guard,
}

-- INT_MAX of a 32-bit `int`.
abbrev pub int_max : ℕ
int_max = 2147483647

-- The loop of `fpm_cron_parse_uint`. `v * 10 + (*s - '0')` is an `int`, and its overflow is
-- undefined.
pub uint_loop : ℕ → Bytes → Outcome (ℕ × Bytes)
uint_loop v [] = ok (v, [])
uint_loop v (c ∷ s) =
    let v' = v * 10 + (c - b'0') in
    let more = uint_loop v' s in
    if is_digit c then if ltb int_max v' then undefined else more else ok (v, c ∷ s)

-- The caller's message is the argument: it is written when there is no digit.
unfoldable pub parse_uint : Reason → Bytes → Outcome (ℕ × Bytes)
unfolding uint_loop
parse_uint r s = if is_digit (peek s) then uint_loop 0 s else fail r

-- What an item says: the variables of `fpm_cron_parse_item`, and `p` as `rest`.
pub record Spec : Type 0 where
  pub low : ℕ
  pub high : ℕ
  pub step : ℕ
  pub has_range : Bool
  pub is_star : Bool
  pub rest : Bytes

-- Behind the first number.
parse_high : ℕ → Bytes → Outcome Spec
unfolding parse_uint
parse_high low p =
    if peek p == b'-'
    then (do
      (high, q) ← parse_uint expected_high (drop 1 p)
      ok (record { low = low; high = high; step = 1; has_range = true; is_star = false; rest = q }))
    else ok
        (record { low = low; high = low; step = 1; has_range = false; is_star = false; rest = p })

parse_range : ℕ → ℕ → Bytes → Outcome Spec
unfolding parse_uint parse_high
parse_range min max item =
    if peek item == b'*'
    then ok (record {
      low = min;
      high = max;
      step = 1;
      has_range = false;
      is_star = true;
      rest = drop 1 item;
    })
    else (do (low, p) ← parse_uint expected_number item; parse_high low p)

-- `/S`: without a range the item runs to the end of the field's domain.
parse_step : ℕ → Spec → Outcome Spec
unfolding parse_uint
parse_step max s =
    if peek s.rest == b'/'
    then (do
      (step, q) ← parse_uint expected_step (drop 1 s.rest)
      guard (not (ltb step 1)) bad_step
      ok (record s {
        high = if not s.has_range && not s.is_star then max else s.high;
        step = step;
        rest = q;
      }))
    else ok s

abbrev outside : ℕ → ℕ → Spec → Bool
outside min max s = ltb s.low min || ltb max s.low || ltb s.high min || ltb max s.high

-- The tests before the loop: the item has ended, and its bounds lie in the field's domain.
check_spec : ℕ → ℕ → Spec → Outcome Spec
check_spec min max s = do
  guard (not (ltb 0 (length s.rest))) trailing
  guard (not (outside min max s)) out_of_range
  guard (not (ltb s.high s.low)) bad_range
  ok s

-- `for (i = low; i <= high; i += step) bitmap[i] = 1;` with one round of fuel more than the loop
-- can make. A write past the array and an overflow of `i += step` are undefined.
pub fill : ℕ → ℕ → ℕ → ℕ → List Bool → Outcome (List Bool)
fill zero i high step b = undefined
fill (suc f) i high step b =
    let rest = fill f (i + step) high step (set b i true) in
    if ltb high i
    then ok b
    else if leb (length b) i
    then undefined
    else if ltb int_max (i + step)
    then undefined
    else rest

pub read_spec : ℕ → ℕ → Bytes → Outcome Spec
unfolding parse_range parse_step check_spec
read_spec min max item = do s ← parse_range min max item; t ← parse_step max s; check_spec min max t

unfoldable pub parse_item : ℕ → ℕ → Bytes → List Bool → Outcome (List Bool)
unfolding read_spec fill
parse_item min max item b = do s ← read_spec min max item; fill (s.high + 2) s.low s.high s.step b
