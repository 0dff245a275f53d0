-- ===== src/Http/Negotiate/Pieces.antt =====
-- Text that is cut at a separator, and the value of a weight.
use php_fpm_ng.Base.{
  ℕ, ◌+◌, ◌-◌, ◌*◌, ◌≤◌, ◌≡◌, refl, Bool, true, false, inl, inr, List, [], ◌∷◌, ◌++◌, append-nil,
  arith, Bytes, is_digit, ◌==◌, Option, none, some, Bool-cases,
}
use php_fpm_ng.Base.Numeral.{decimal, AllDigits, decimal-le}
use php_fpm_ng.Base.Tokens.{IsClean, joined}
use php_fpm_ng.Http.Host.Parse.{All}
use php_fpm_ng.Http.Negotiate.{zero_loop, qvalue_is_zero, pieces}

-- No byte is `d`.
abbrev pub Without : ℕ → Bytes → Type 0
Without d t = IsClean (λ c. c == d) t

abbrev pub AllWithout : ℕ → List Bytes → Type 0
AllWithout d [] = Unit
AllWithout d (t ∷ ts) = Without d t × AllWithout d ts

pub Without-All :
    (d : ℕ) (f : ℕ → Bool) (t : Bytes)
    → ((c : ℕ) → f c ≡ true → (c == d) ≡ false)
    → All f t
    → Without d t
Without-All d f [] g h = tt
Without-All d f (c ∷ t) g (x, h) = (g c x, Without-All d f t g h)

pub pieces_all : (d : ℕ) (t : Bytes) → Without d t → pieces d t ≡ t ∷ []
unfolding pieces
pieces_all d [] h = refl
pieces_all d (c ∷ t) (e, h) = rw (e, pieces_all d t h) refl

pub pieces-append :
    (d : ℕ) (t rest : Bytes) → Without d t → pieces d (t ++ d ∷ rest) ≡ t ∷ pieces d rest
unfolding pieces
pieces-append d [] rest h = let e : (d == d) ≡ true = ground arith in rw e refl
pieces-append d (c ∷ t) rest (e, h) = rw (e, pieces-append d t rest h) refl

pub pieces-joined :
    (d : ℕ) (t : Bytes) (ts : List Bytes)
    → Without d t
    → AllWithout d ts
    → pieces d (t ++ joined d ts) ≡ t ∷ ts
pieces-joined d t [] h k = rw append-nil (pieces_all d t h)
pieces-joined d t (u ∷ ts) h (x, k) =
    rw (pieces-append d t (u ++ joined d ts) h, pieces-joined d u ts x k) refl

decimal-ne_zero :
    (c : ℕ) (s : Bytes) → is_digit c ≡ true → (c == b'0') ≡ false → (decimal 0 (c ∷ s) == 0) ≡ false
decimal-ne_zero c s d x =
    let l = decimal-le (0 * 10 + (c - b'0')) s in
    let m : 1 ≤ c - b'0' = ground arith in ground arith

zero_loop-decimal : (s : Bytes) → AllDigits s → zero_loop true s ≡ (decimal 0 s == 0)
unfolding zero_loop
zero_loop-decimal [] a = refl
zero_loop-decimal (c ∷ s) (d, a) = elim (Bool-cases (c == b'0')) [
  | inl y ↦ let e : c ≡ b'0' = ground arith in rw e (zero_loop-decimal s a)
  | inr x ↦ let p : (c == b'.') ≡ false = ground arith in rw (x, p, decimal-ne_zero c s d x) refl
]

-- The digits behind the point, if there is one.
abbrev pub fraction_text : Option Bytes → Bytes
fraction_text none = []
fraction_text (some ds) = b'.' ∷ ds

abbrev pub digits_of : Option Bytes → Bytes
digits_of none = []
digits_of (some ds) = ds

zero_loop-fraction :
    (f : Option Bytes) → zero_loop true (fraction_text f) ≡ zero_loop true (digits_of f)
unfolding zero_loop
zero_loop-fraction none = refl
zero_loop-fraction (some ds) = refl

-- The number of the digits, wherever the point stands.
pub qvalue_is_zero-decimal :
    (w : ℕ) (f : Option Bytes)
    → is_digit w ≡ true
    → AllDigits (digits_of f)
    → qvalue_is_zero (w ∷ fraction_text f) ≡ (decimal 0 (w ∷ digits_of f) == 0)
unfolding qvalue_is_zero zero_loop
qvalue_is_zero-decimal w f d a = elim (Bool-cases (w == b'0')) [
  | inl y ↦
      let e : w ≡ b'0' = ground arith in
      rw e (rw (zero_loop-fraction f) (zero_loop-decimal (digits_of f) a))
  | inr x ↦
      let p : (w == b'.') ≡ false = ground arith in
      rw (x, p, decimal-ne_zero w (digits_of f) d x) refl
]
