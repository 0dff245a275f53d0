-- ===== src/Http/Range.antt =====
-- `Range` and `If-Range` of static files (sapi/fpmng/fpm/fpm_http_static_range.c).
pub mod Safe
pub mod Answer
use php_fpm_ng.Base.{
  ℕ, ◌+◌, ◌-◌, ◌*◌, ◌/◌, Bool, true, false, not, ◌&&◌, ◌||◌, Option, none, some, [], ◌∷◌, Bytes,
  codes, peek, is_digit, ltb, leb, ◌==◌, if◌then◌else◌, equal, starts_with_case, drop,
}

-- LLONG_MAX.
abbrev pub llong_max : ℕ
llong_max = 9223372036854775807

-- One digit more, with the clamp.
abbrev pub push_digit : ℕ → ℕ → ℕ
push_digit v c = if ltb ((llong_max - (c - b'0')) / 10) v then llong_max else v * 10 + (c - b'0')

-- The value and the number of the digits, and what stands behind them.
pub record Digits : Type 0 where
  pub value : ℕ
  pub count : ℕ
  pub behind : Bytes

pub digits_loop : ℕ → ℕ → Bytes → Digits
digits_loop v n [] = record { value = v; count = n; behind = [] }
digits_loop v n (c ∷ p) =
    let more = digits_loop (push_digit v c) (n + 1) p in
    if is_digit c then more else record { value = v; count = n; behind = c ∷ p }

unfoldable pub digits : Bytes → Digits
unfolding digits_loop
digits p = digits_loop 0 0 p

-- FPM_HTTP_STATIC_RANGE_PARTIAL has the first and the last position.
pub data Range : Type 0 where
  ignore unsatisfiable : Range
  partial : ℕ → ℕ → Range

abbrev pub at_end : Bytes → Bool
at_end [] = true
at_end (c ∷ p) = false

-- `-n`: the last n bytes.
pub suffix_range : Digits → ℕ → Range
suffix_range a len =
    if a.count == 0 || not (at_end a.behind)
    then ignore
    else if a.value == 0 || len == 0
    then unsatisfiable
    else partial (len - (if ltb len a.value then len else a.value)) (len - 1)

-- Behind the `-` of `a-b`.
pub closed_range : ℕ → Digits → ℕ → Range
closed_range a b len =
    if not (at_end b.behind)
    then ignore
    else if not (b.count == 0) && ltb b.value a
    then ignore
    else if leb len a
    then unsatisfiable
    else partial a (if not (b.count == 0) && ltb b.value len then b.value else len - 1)

pub first_range : Digits → ℕ → Range
unfolding digits closed_range
first_range a len =
    if a.count == 0 || not (peek a.behind == b'-')
    then ignore
    else closed_range a.value (digits (drop 1 a.behind)) len

pub spec_range : Bytes → ℕ → Range
unfolding digits suffix_range first_range
spec_range p len =
    if peek p == b'-' then suffix_range (digits (drop 1 p)) len else first_range (digits p) len

unfoldable pub parse_range : Option Bytes → ℕ → Range
unfolding spec_range starts_with_case
parse_range none len = ignore
parse_range (some value) len =
    if not (starts_with_case (codes "bytes=") value) then ignore else spec_range (drop 6 value) len

unfoldable pub if_range_matches : Bytes → Bytes → Bytes → Bool
unfolding equal
if_range_matches value etag last_modified =
    if peek value == b'"'
    then equal value etag
    else if peek value == b'W' && peek (drop 1 value) == b'/'
    then false
    else not (at_end last_modified) && equal value last_modified
