-- ===== src/Cron/Item/Read/Overflow.antt =====
-- Where the loop over the bits of `fpm_cron_parse_item` overflows.
use php_fpm_ng.Base.{ℕ, suc, ◌+◌, ◌≤◌, ◌<◌, Bool, List, ◌≡◌, arith, length}
use php_fpm_ng.Cron.Outcome.{undefined}
use php_fpm_ng.Cron.Item.{int_max, fill, parse_item}
use php_fpm_ng.Cron.Item.Read.{
  Form, Every, print, first, last, stride, InDomain, complete_low, read_spec-print,
}

fill_overflow :
    (f low high step : ℕ) (b : List Bool)
    → low ≤ high
    → low < length b
    → int_max < low + step
    → fill (suc f) low high step b ≡ undefined
unfolding fill
fill_overflow f low high step b h l o = ground arith

add-two : (n : ℕ) → n + 2 ≡ suc (suc n)
add-two n = omega arith

-- An item in its domain whose step takes the first value past INT_MAX has undefined behaviour.
pub parse_item_overflow :
    (min max : ℕ) (f : Form) (e : Every) (b : List Bool)
    → InDomain min max f e
    → max < length b
    → int_max < first min f + stride e
    → parse_item min max (print f e) b ≡ undefined
unfolding parse_item
parse_item_overflow min max f e b v l o =
    rw (read_spec-print min max f e v, complete_low, add-two (last max f e))
      (fill_overflow (suc (last max f e)) (first min f) (last max f e) (stride e) b v.ordered
        (omega (arith, v)) o)
