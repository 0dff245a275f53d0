-- ===== src/Http/Range/Answer.antt =====
-- What a byte range asks for, and that the parser answers it.
use php_fpm_ng.Base.{
  ℕ, ◌+◌, ◌-◌, ◌*◌, ◌≤◌, ◌≡◌, ◌≢◌, refl, ◌∙◌, ap, true, false, ◌||◌, inl, inr, some, [], ◌∷◌, ◌++◌,
  arith, Bytes, codes, is_digit, length, ltb, leb, ◌==◌, if◌then◌else◌, Bool-cases,
  starts_with_case,
}
use php_fpm_ng.Base.{sym, append-nil}
use Prim.Native.Nat.{min}
use php_fpm_ng.Base.Numeral.{decimal, AllDigits}
use php_fpm_ng.Http.Range.{
  llong_max, push_digit, digits_loop, digits, Range, ignore, unsatisfiable, partial, suffix_range,
  closed_range, first_range, spec_range, parse_range,
}

push_digit-min :
    (v c : ℕ)
    → is_digit c ≡ true
    → push_digit (min v llong_max) c ≡ min (v * 10 + (c - b'0')) llong_max
push_digit-min v c d = ground arith

-- A number ends before a byte that is no digit, or with the value.
abbrev Stops : Bytes → Type 0
Stops [] = Unit
Stops (c ∷ p) = is_digit c ≡ false

digits_loop-decimal :
    (v n k : ℕ) (ds tail : Bytes)
    → AllDigits ds
    → Stops tail
    → k ≡ n + length ds
    → digits_loop (min v llong_max) n (ds ++ tail)
      ≡ record { value = min (decimal v ds) llong_max; count = k; behind = tail }
unfolding digits_loop
digits_loop-decimal v n k [] [] a s e = let e' : k ≡ n = omega arith in rw e' refl
digits_loop-decimal v n k [] (c ∷ tail) a s e = let e' : k ≡ n = omega arith in rw (s, e') refl
digits_loop-decimal v n k (c ∷ ds) tail (d, a) s e =
    rw (d, push_digit-min v c d)
      (digits_loop-decimal (v * 10 + (c - b'0')) (n + 1) k ds tail a s (omega arith))

digits-decimal :
    (ds tail : Bytes)
    → AllDigits ds
    → Stops tail
    → digits (ds ++ tail)
      ≡ record { value = min (decimal 0 ds) llong_max; count = length ds; behind = tail }
unfolding digits
digits-decimal ds tail a s = digits_loop-decimal 0 0 (length ds) ds tail a s (omega arith)

-- A range as RFC 9110 writes it: `a-b`, `a-` and `-n`, in decimal digits.
pub data Spec : Type 0 where
  closed : (ds es : Bytes) → Spec
  open_end : (ds : Bytes) → Spec
  suffix : (ds : Bytes) → Spec

abbrev pub print : Spec → Bytes
print (closed ds es) = ds ++ (b'-' ∷ es)
print (open_end ds) = ds ++ (b'-' ∷ [])
print (suffix ds) = b'-' ∷ ds

-- The first position is one that a `long long` holds.
abbrev pub IsSpec : Spec → Type 0
IsSpec (closed ds es) =
    AllDigits ds × (ds ≢ []) × (decimal 0 ds ≤ llong_max) × AllDigits es × (es ≢ [])
IsSpec (open_end ds) = AllDigits ds × (ds ≢ []) × (decimal 0 ds ≤ llong_max)
IsSpec (suffix ds) = AllDigits ds × (ds ≢ [])

-- The answer of RFC 9110 for a file of len bytes.
abbrev pub from_first : ℕ → ℕ → ℕ → Range
from_first a b len = if leb len a then unsatisfiable else partial a (min b (len - 1))

abbrev pub answer : Spec → ℕ → Range
answer (closed ds es) len =
    if ltb (decimal 0 es) (decimal 0 ds)
    then ignore
    else from_first (decimal 0 ds) (decimal 0 es) len
answer (open_end ds) len = from_first (decimal 0 ds) (len - 1) len
answer (suffix ds) len =
    if decimal 0 ds == 0 || len == 0 then unsatisfiable else partial (len - decimal 0 ds) (len - 1)

length-pos : (ds : Bytes) → ds ≢ [] → (length ds == 0) ≡ false
length-pos [] n = absurd (n refl)
length-pos (c ∷ ds) n = ground arith

suffix-clamp :
    (v len : ℕ)
    → len ≤ llong_max
    → len - (if ltb len (min v llong_max) then len else min v llong_max) ≡ len - v
suffix-clamp v len l = ground arith

zero-clamp : (v : ℕ) → (min v llong_max == 0) ≡ (v == 0)
zero-clamp v = ground arith

below-clamp : (v a : ℕ) → a ≤ llong_max → ltb (min v llong_max) a ≡ ltb v a
below-clamp v a l = ground arith

last-clamp :
    (v len : ℕ)
    → len ≤ llong_max
    → (if ltb (min v llong_max) len then min v llong_max else len - 1) ≡ min v (len - 1)
last-clamp v len l = ground arith

suffix-answer :
    (ds : Bytes) (len : ℕ)
    → AllDigits ds
    → ds ≢ []
    → len ≤ llong_max
    → suffix_range (digits (ds ++ [])) len ≡ answer (suffix ds) len
unfolding suffix_range
suffix-answer ds len a n l =
    rw
      (
        digits-decimal ds [] a tt,
        length-pos ds n,
        suffix-clamp (decimal 0 ds) len l,
        zero-clamp (decimal 0 ds),
      )
      refl

closed-answer :
    (a : ℕ) (es : Bytes) (len : ℕ)
    → a ≤ llong_max
    → AllDigits es
    → es ≢ []
    → len ≤ llong_max
    → closed_range a (digits (es ++ [])) len
      ≡ (if ltb (decimal 0 es) a then ignore else from_first a (decimal 0 es) len)
unfolding closed_range
closed-answer a es len b d n l =
    rw
      (
        digits-decimal es [] d tt,
        length-pos es n,
        below-clamp (decimal 0 es) a b,
        last-clamp (decimal 0 es) len l,
      )
      refl

open-answer : (a len : ℕ) → closed_range a (digits []) len ≡ from_first a (len - 1) len
unfolding closed_range digits digits_loop
open-answer a len = elim (Bool-cases (leb len a)) [
  | inl y ↦ rw y refl
  | inr x ↦ let e : min (len - 1) (len - 1) ≡ len - 1 = omega arith in rw (x, e) refl
]

first-closed :
    (ds es : Bytes) (len : ℕ)
    → IsSpec (closed ds es)
    → len ≤ llong_max
    → first_range (digits (ds ++ (b'-' ∷ es))) len ≡ answer (closed ds es) len
unfolding first_range
first-closed ds es len (a, n, b, d, m) l =
    let v : min (decimal 0 ds) llong_max ≡ decimal 0 ds = omega arith in
    rw (digits-decimal ds (b'-' ∷ es) a refl, length-pos ds n, v)
      (ap (λ z. closed_range (decimal 0 ds) (digits z) len) (sym (append-nil es))
        ∙ closed-answer (decimal 0 ds) es len b d m l)

first-open :
    (ds : Bytes) (len : ℕ)
    → IsSpec (open_end ds)
    → first_range (digits (ds ++ (b'-' ∷ []))) len ≡ answer (open_end ds) len
unfolding first_range
first-open ds len (a, n, b) =
    let v : min (decimal 0 ds) llong_max ≡ decimal 0 ds = omega arith in
    rw (digits-decimal ds (b'-' ∷ []) a refl, length-pos ds n, v) (open-answer (decimal 0 ds) len)

-- A value that starts with a digit is no suffix.
spec-first :
    (ds tail : Bytes) (len : ℕ)
    → AllDigits ds
    → ds ≢ []
    → spec_range (ds ++ tail) len ≡ first_range (digits (ds ++ tail)) len
unfolding spec_range
spec-first [] tail len a n = absurd (n refl)
spec-first (c ∷ ds) tail len (d, a) n = let e : (c == b'-') ≡ false = ground arith in rw e refl

spec-answer :
    (s : Spec) (len : ℕ) → IsSpec s → len ≤ llong_max → spec_range (print s) len ≡ answer s len
unfolding spec_range
spec-answer (closed ds es) len h l =
    spec-first ds (b'-' ∷ es) len h.0 h.1 ∙ first-closed ds es len h l
spec-answer (open_end ds) len h l = spec-first ds (b'-' ∷ []) len h.0 h.1 ∙ first-open ds len h
spec-answer (suffix ds) len h l =
    ap (λ z. suffix_range (digits z) len) (sym (append-nil ds)) ∙ suffix-answer ds len h.0 h.1 l

-- A single byte range of RFC 9110 whose first position fits a `long long` is answered as the RFC
-- says for every file: ignored if its positions are out of order, unsatisfiable if it selects
-- nothing, and cut to the file if not. The clamp of the other numbers changes nothing.
pub parse_range-answer :
    (s : Spec) (len : ℕ)
    → IsSpec s
    → len ≤ llong_max
    → parse_range (some (codes "bytes=" ++ print s)) len ≡ answer s len
unfolding parse_range starts_with_case
parse_range-answer s len h l = spec-answer s len h l
