-- ===== src/Cron/Item/Read.antt =====
-- What an item's text means: an independent reading of the six forms of `fpm_cron_parse_item`, and
-- the proof that an item in the domain of its field sets exactly the bits that it names.
pub mod Overflow
use php_fpm_ng.Base.{
  ℕ, suc, ◌+◌, ◌-◌, ◌*◌, ◌≤◌, ◌<◌, Bool, true, false, List, [], ◌∷◌, ◌++◌, ◌≡◌, ◌≢◌, refl, ap, sym,
  ◌∙◌, append-nil, append_assoc, arith, Bytes, peek, is_digit, ◌==◌, length,
}
use php_fpm_ng.Base.Numeral.{decimal, AllDigits, decimal-le}
use php_fpm_ng.Cron.Outcome.{Reason, expected_number, expected_high, expected_step, ok, undefined}
use php_fpm_ng.Cron.Item.{
  int_max, uint_loop, parse_uint, Spec, parse_high, parse_range, parse_step, check_spec, read_spec,
  fill, parse_item,
}
use php_fpm_ng.Cron.Item.Fill.{Marks, fill-Marks}

-- A decimal number, as it is written in an item.
pub record IsNumeral (ds : Bytes) (n : ℕ) : Type 0 where
  pub ne_nil : ds ≢ []
  pub digits : AllDigits ds
  pub value : decimal 0 ds ≡ n
  pub fits : n ≤ int_max

uint_loop-decimal :
    (v : ℕ) (ds rest : Bytes)
    → AllDigits ds
    → is_digit (peek rest) ≡ false
    → decimal v ds ≤ int_max
    → uint_loop v (ds ++ rest) ≡ ok (decimal v ds, rest)
unfolding uint_loop
uint_loop-decimal v [] [] a e l = refl
uint_loop-decimal v [] (c ∷ rest) a e l = rw e refl
uint_loop-decimal v (c ∷ ds) rest (d, a) e l =
    ground
      (arith, decimal-le (v * 10 + (c - b'0')) ds, uint_loop-decimal (v * 10 + (c - b'0')) ds rest)

pub parse_uint-IsNumeral :
    (r : Reason) (ds rest : Bytes) {n : ℕ}
    → IsNumeral ds n
    → is_digit (peek rest) ≡ false
    → parse_uint r (ds ++ rest) ≡ ok (n, rest)
unfolding parse_uint
parse_uint-IsNumeral r [] rest i e = absurd (i.ne_nil refl)
parse_uint-IsNumeral r (c ∷ ds) rest i e =
    let l : decimal 0 (c ∷ ds) ≤ int_max = omega (arith, i.value, i.fits) in
    ground (arith, i, uint_loop-decimal 0 (c ∷ ds) rest i.digits e l)

-- `parts` of an item: what stands before a slash, and the step behind it.
pub data Form : Type 0 where
  star : Form
  single : Bytes → ℕ → Form
  span : Bytes → ℕ → Bytes → ℕ → Form

pub data Every : Type 0 where
  each : Every
  by_step : Bytes → ℕ → Every

abbrev pub print_form : Form → Bytes
print_form star = b'*' ∷ []
print_form (single ds n) = ds
print_form (span ds n es m) = ds ++ (b'-' ∷ es)

abbrev pub print_every : Every → Bytes
print_every each = []
print_every (by_step ds n) = b'/' ∷ ds

-- The item's text.
abbrev pub print : Form → Every → Bytes
print f e = print_form f ++ print_every e

abbrev pub first : ℕ → Form → ℕ
first min star = min
first min (single ds n) = n
first min (span ds n es m) = n

-- crontab(5): `N/S` runs to the end of the domain, a plain `N` is one value.
abbrev pub last : ℕ → Form → Every → ℕ
last max star e = max
last max (single ds n) each = n
last max (single ds n) (by_step es k) = max
last max (span ds n es m) e = m

abbrev pub stride : Every → ℕ
stride each = 1
stride (by_step ds n) = n

abbrev pub FormIsValid : Form → Type 0
FormIsValid star = Unit
FormIsValid (single ds n) = IsNumeral ds n
FormIsValid (span ds n es m) = IsNumeral ds n × IsNumeral es m

abbrev pub EveryIsValid : Every → Type 0
EveryIsValid each = Unit
EveryIsValid (by_step ds n) = IsNumeral ds n × (1 ≤ n)

-- A well-formed item whose bounds lie in the field's domain.
pub record InDomain (min max : ℕ) (f : Form) (e : Every) : Type 0 where
  pub form : FormIsValid f
  pub every : EveryIsValid e
  pub above : min ≤ first min f
  pub ordered : first min f ≤ last max f e
  pub below : last max f e ≤ max

-- One whose step cannot overflow the loop variable, too.
pub record IsValid (min max : ℕ) (f : Form) (e : Every) : Type 0 where
  pub domain : InDomain min max f e
  pub open domain use *
  pub no_overflow : max + stride e ≤ int_max

stride-pos : (e : Every) → EveryIsValid e → 1 ≤ stride e
stride-pos each v = omega arith
stride-pos (by_step ds n) v = v.1

-- What the first half of the function has read when it comes to the slash.
abbrev begun : ℕ → ℕ → Form → Bytes → Spec
begun min max star rest = record {
  low = min;
  high = max;
  step = 1;
  has_range = false;
  is_star = true;
  rest = rest;
}
begun min max (single ds n) rest = record {
  low = n;
  high = n;
  step = 1;
  has_range = false;
  is_star = false;
  rest = rest;
}
begun min max (span ds n es m) rest = record {
  low = n;
  high = m;
  step = 1;
  has_range = true;
  is_star = false;
  rest = rest;
}

abbrev complete : ℕ → ℕ → Form → Every → Spec
complete min max f e = record (begun min max f []) { high = last max f e; step = stride e }

not-digit-every : (e : Every) → is_digit (peek (print_every e)) ≡ false
not-digit-every each = refl
not-digit-every (by_step ds n) = refl

not-dash-every : (e : Every) → (peek (print_every e) == b'-') ≡ false
not-dash-every each = refl
not-dash-every (by_step ds n) = refl

IsNumeral-not_star :
    (ds rest : Bytes) {n : ℕ} → IsNumeral ds n → (peek (ds ++ rest) == b'*') ≡ false
IsNumeral-not_star [] rest i = absurd (i.ne_nil refl)
IsNumeral-not_star (c ∷ ds) rest i = ground (arith, i.digits)

parse_range-print :
    (min max : ℕ) (f : Form) (e : Every)
    → FormIsValid f
    → parse_range min max (print f e) ≡ ok (begun min max f (print_every e))
unfolding parse_range parse_high
parse_range-print min max star e v = refl
parse_range-print min max (single ds n) e v =
    rw
      (
        IsNumeral-not_star ds (print_every e) v,
        parse_uint-IsNumeral expected_number ds (print_every e) v (not-digit-every e),
        not-dash-every e,
      )
      refl
parse_range-print min max (span ds n es m) e (v, w) =
    rw
      (
        append_assoc ds (b'-' ∷ es) (print_every e),
        IsNumeral-not_star ds (b'-' ∷ (es ++ print_every e)) v,
        parse_uint-IsNumeral expected_number ds (b'-' ∷ (es ++ print_every e)) v refl,
        parse_uint-IsNumeral expected_high es (print_every e) w (not-digit-every e),
      )
      refl

parse_uint_end : (r : Reason) (ds : Bytes) {n : ℕ} → IsNumeral ds n → parse_uint r ds ≡ ok (n, [])
parse_uint_end r ds i =
    ap (parse_uint r) (sym (append-nil ds)) ∙ parse_uint-IsNumeral r ds [] i refl

parse_step-begun :
    (min max : ℕ) (f : Form) (e : Every)
    → EveryIsValid e
    → parse_step max (begun min max f (print_every e)) ≡ ok (complete min max f e)
unfolding parse_step
parse_step-begun min max star each v = refl
parse_step-begun min max (single ds n) each v = refl
parse_step-begun min max (span ds n es m) each v = refl
parse_step-begun min max star (by_step ds k) (v, h) =
    rw (parse_uint_end expected_step ds v) (ground arith)
parse_step-begun min max (single bs n) (by_step ds k) (v, h) =
    rw (parse_uint_end expected_step ds v) (ground arith)
parse_step-begun min max (span bs n es m) (by_step ds k) (v, h) =
    rw (parse_uint_end expected_step ds v) (ground arith)

check_spec-ok :
    (min max : ℕ) (s : Spec)
    → s.rest ≡ []
    → min ≤ s.low
    → s.low ≤ s.high
    → s.high ≤ max
    → check_spec min max s ≡ ok s
unfolding check_spec
check_spec-ok min max s e a b c = ground arith

complete-rest : (min max : ℕ) (f : Form) (e : Every) → (complete min max f e).rest ≡ []
complete-rest min max star e = refl
complete-rest min max (single ds n) e = refl
complete-rest min max (span ds n es m) e = refl

complete_low : (min max : ℕ) (f : Form) (e : Every) → (complete min max f e).low ≡ first min f
complete_low min max star e = refl
complete_low min max (single ds n) e = refl
complete_low min max (span ds n es m) e = refl

read_spec-print :
    (min max : ℕ) (f : Form) (e : Every)
    → InDomain min max f e
    → read_spec min max (print f e) ≡ ok (complete min max f e)
unfolding read_spec
read_spec-print min max f e v =
    rw (parse_range-print min max f e v.form, parse_step-begun min max f e v.every)
      (check_spec-ok min max (complete min max f e) (complete-rest min max f e)
        (rw complete_low v.above) (rw complete_low v.ordered) v.below)

-- An item in the domain of its field is accepted, without undefined behaviour, and sets exactly
-- the bits from its first value to its last in steps of its stride.
pub parse_item-print :
    (min max : ℕ) (f : Form) (e : Every) (b : List Bool)
    → IsValid min max f e
    → max < length b
    → (b' : List Bool) × (parse_item min max (print f e) b ≡ ok b')
      × Marks (first min f) (last max f e) (stride e) b b'
unfolding parse_item
parse_item-print min max f e b v l =
    rw (read_spec-print min max f e v.domain, complete_low)
      (fill-Marks (last max f e + 2) (first min f) (last max f e) (stride e) b
        (stride-pos e v.every) (omega (arith, v)) (omega (arith, v)) (omega arith) (omega arith))
