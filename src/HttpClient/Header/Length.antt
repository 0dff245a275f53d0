-- ===== src/HttpClient/Header/Length.antt =====
-- A Content-Length is a decimal number that fits a size_t, and nothing else.
use php_fpm_ng.Base.{
  ℕ, ◌+◌, ◌-◌, ◌*◌, ◌/◌, ◌≤◌, ◌<◌, true, false, none, some, [], ◌∷◌, ◌≡◌, ◌≢◌, refl, inl, inr,
  arith, Bytes, is_digit, ltb, leb, if◌then◌else◌, Bool-cases,
}
use php_fpm_ng.Base.Numeral.{decimal, AllDigits, decimal-le}
use php_fpm_ng.HttpClient.Size.{size_max}
use php_fpm_ng.HttpClient.Header.{content_length_loop, content_length}

digit_fits :
    (v c : ℕ)
    → is_digit c ≡ true
    → v * 10 + (c - b'0') ≤ size_max
    → ltb ((size_max - (c - b'0')) / 10) v ≡ false
digit_fits v c d h = ground arith

digit_wraps :
    (v c : ℕ)
    → is_digit c ≡ true
    → size_max < v * 10 + (c - b'0')
    → ltb ((size_max - (c - b'0')) / 10) v ≡ true
digit_wraps v c d h = ground arith

content_length_loop-decimal :
    (v : ℕ) (ds : Bytes)
    → v ≤ size_max
    → AllDigits ds
    → content_length_loop v ds ≡ (if leb (decimal v ds) size_max then some (decimal v ds) else none)
unfolding content_length_loop
content_length_loop-decimal v [] h a = let e : leb v size_max ≡ true = ground arith in rw e refl
content_length_loop-decimal v (c ∷ ds) h (d, a) =
    elim (Bool-cases (leb (v * 10 + (c - b'0')) size_max)) [
      | inl y ↦
          rw (d, digit_fits v c d (ground arith))
            (content_length_loop-decimal (v * 10 + (c - b'0')) ds (ground arith) a)
      | inr n ↦
          let big : leb (decimal (v * 10 + (c - b'0')) ds) size_max ≡ false =
            ground (arith, decimal-le (v * 10 + (c - b'0')) ds) in
          rw (d, digit_wraps v c d (ground arith), big) refl
    ]

content_length_loop-AllDigits :
    (v : ℕ) (s : Bytes) (n : ℕ) → content_length_loop v s ≡ some n → AllDigits s
unfolding content_length_loop
content_length_loop-AllDigits v [] n e = tt
content_length_loop-AllDigits v (c ∷ s) n e =
    ground (arith, content_length_loop-AllDigits (v * 10 + (c - b'0')) s n)

-- A run of digits is its number if that fits a size_t, and is refused if it does not; a value that
-- is accepted is such a run of digits.
pub content_length-decimal :
    (v : Bytes)
    → (AllDigits v
        → v ≢ []
        → content_length v ≡ (if leb (decimal 0 v) size_max then some (decimal 0 v) else none))
      × ((n : ℕ) → content_length v ≡ some n → AllDigits v × (v ≢ []))
unfolding content_length
content_length-decimal [] = ((λ a n. absurd (n refl)), (λ n e. cc))
content_length-decimal (c ∷ v) = (
  (λ a n. content_length_loop-decimal 0 (c ∷ v) (omega arith) a),
  (λ n e. (content_length_loop-AllDigits 0 (c ∷ v) n e, (λ p. cc))),
)
