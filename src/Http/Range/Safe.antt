-- ===== src/Http/Range/Safe.antt =====
-- The positions that a range is answered with lie in the file.
use php_fpm_ng.Base.{
  ℕ, ◌≤◌, ◌<◌, not, ◌&&◌, ◌||◌, inl, inr, Option, none, some, arith, Bytes, codes, peek, drop, ltb,
  leb, ◌==◌, Bool-cases, starts_with_case,
}
use php_fpm_ng.Http.Range.{
  Digits, digits, Range, ignore, unsatisfiable, partial, at_end, suffix_range, closed_range,
  first_range, spec_range, parse_range,
}

-- The positions of an answer lie in the file.
abbrev pub IsServable : ℕ → Range → Type 0
IsServable len ignore = Unit
IsServable len unsatisfiable = Unit
IsServable len (partial a b) = (a ≤ b) × (b < len)

suffix-IsServable : (a : Digits) (len : ℕ) → IsServable len (suffix_range a len)
unfolding suffix_range
suffix-IsServable a len = elim (Bool-cases (a.count == 0 || not (at_end a.behind))) [
  | inl y ↦ rw y tt
  | inr x ↦ elim (Bool-cases (a.value == 0 || len == 0)) [
    | inl z ↦ rw (x, z) tt
    | inr n ↦ rw (x, n) (ground arith)
  ]
]

closed-IsServable : (a : ℕ) (b : Digits) (len : ℕ) → IsServable len (closed_range a b len)
unfolding closed_range
closed-IsServable a b len = elim (Bool-cases (not (at_end b.behind))) [
  | inl y ↦ rw y tt
  | inr x ↦ elim (Bool-cases (not (b.count == 0) && ltb b.value a)) [
    | inl z ↦ rw (x, z) tt
    | inr n ↦ elim (Bool-cases (leb len a)) [
      | inl p ↦ rw (x, n, p) tt
      | inr q ↦ rw (x, n, q) (ground arith)
    ]
  ]
]

first-IsServable : (a : Digits) (len : ℕ) → IsServable len (first_range a len)
unfolding first_range
first-IsServable a len = elim (Bool-cases (a.count == 0 || not (peek a.behind == b'-'))) [
  | inl y ↦ rw y tt
  | inr x ↦ rw x (closed-IsServable a.value (digits (drop 1 a.behind)) len)
]

spec-IsServable : (p : Bytes) (len : ℕ) → IsServable len (spec_range p len)
unfolding spec_range
spec-IsServable p len = elim (Bool-cases (peek p == b'-')) [
  | inl y ↦ rw y (suffix-IsServable (digits (drop 1 p)) len)
  | inr x ↦ rw x (first-IsServable (digits p) len)
]

-- Whatever the header holds, the positions of a partial answer are in order and inside the file.
pub parse_range-IsServable :
    (value : Option Bytes) (len : ℕ) → IsServable len (parse_range value len)
unfolding parse_range
parse_range-IsServable none len = tt
parse_range-IsServable (some value) len =
    elim (Bool-cases (not (starts_with_case (codes "bytes=") value))) [
      | inl y ↦ rw y tt
      | inr x ↦ rw x (spec-IsServable (drop 6 value) len)
    ]
