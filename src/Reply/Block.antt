-- ===== src/Reply/Block.antt =====
-- The search for the end of a CGI header block, when the block grows.
use php_fpm_ng.Base.{
  ℕ, suc, ◌+◌, ◌-◌, ◌≤◌, ◌<◌, ◌≡◌, refl, sym, ap, ◌∙◌, Bool, true, false, inl, inr, none, some, [],
  ◌∷◌, ◌++◌, arith, Bytes, starts_with, length, drop, ◌==◌, Bool-cases, ltb_cases,
}
use php_fpm_ng.Reply.{blank_lf, blank_crlf, find_end}

-- A prefix that is short enough does not see what is appended.
starts_with-append :
    (p s d : Bytes) → length p ≤ length s → starts_with p (s ++ d) ≡ starts_with p s
unfolding starts_with
starts_with-append [] s d l = refl
starts_with-append (x ∷ p) [] d l = absurd (omega arith)
starts_with-append (x ∷ p) (y ∷ s) d l = rw (starts_with-append p s d (omega arith)) refl

starts_with-grow : (p s d : Bytes) → starts_with p s ≡ true → starts_with p (s ++ d) ≡ true
unfolding starts_with
starts_with-grow [] s d e = refl
starts_with-grow (x ∷ p) [] d e = absurd (cc)
starts_with-grow (x ∷ p) (y ∷ s) d e =
    let k = starts_with-grow p s d (ground (arith, e)) in
    let h : (x == y) ≡ true = ground (arith, e) in rw (h, k) refl

starts_with-length : (p s : Bytes) → starts_with p s ≡ true → length p ≤ length s
unfolding starts_with
starts_with-length [] s e = omega arith
starts_with-length (x ∷ p) [] e = absurd (cc)
starts_with-length (x ∷ p) (y ∷ s) e =
    let k = starts_with-length p s (ground (arith, e)) in omega (arith, k)

pair_of : (a b : ℕ × ℕ) → some a ≡ some b → a ≡ b
pair_of a b e = cc

-- What the search finds at the first place of a text, or behind it.
pub data Found (i c : ℕ) (s : Bytes) (r : ℕ × ℕ) : Type 0 where
  lf : starts_with blank_lf (c ∷ s) ≡ true → r ≡ (i + 1, i + 2) → Found i c s r
  crlf :
      starts_with blank_lf (c ∷ s) ≡ false
      → starts_with blank_crlf (c ∷ s) ≡ true
      → r ≡ (i + 2, i + 4)
      → Found i c s r
  later :
      starts_with blank_lf (c ∷ s) ≡ false
      → starts_with blank_crlf (c ∷ s) ≡ false
      → find_end (i + 1) s ≡ some r
      → Found i c s r

found : (i c : ℕ) (s : Bytes) (r : ℕ × ℕ) → find_end i (c ∷ s) ≡ some r → Found i c s r
unfolding find_end
found i c s r e = elim (Bool-cases (starts_with blank_lf (c ∷ s))) [
  | inl y ↦ lf y (pair_of r (i + 1, i + 2) (sym (rw y at e)))
  | inr x ↦ elim (Bool-cases (starts_with blank_crlf (c ∷ s))) [
    | inl y ↦ crlf x y (pair_of r (i + 2, i + 4) (sym (rw (x, y) at e)))
    | inr z ↦ later x z (rw (x, z) at e)
  ]
]

at_lf :
    (i c : ℕ) (s : Bytes)
    → starts_with blank_lf (c ∷ s) ≡ true
    → find_end i (c ∷ s) ≡ some (i + 1, i + 2)
unfolding find_end
at_lf i c s y = rw y refl

pub at_crlf :
    (i c : ℕ) (s : Bytes)
    → starts_with blank_lf (c ∷ s) ≡ false
    → starts_with blank_crlf (c ∷ s) ≡ true
    → find_end i (c ∷ s) ≡ some (i + 2, i + 4)
unfolding find_end
at_crlf i c s x y = rw (x, y) refl

pub later_on :
    (i c : ℕ) (s : Bytes)
    → starts_with blank_lf (c ∷ s) ≡ false
    → starts_with blank_crlf (c ∷ s) ≡ false
    → find_end i (c ∷ s) ≡ find_end (i + 1) s
unfolding find_end
later_on i c s x y = rw (x, y) refl

-- The place behind a blank line lies in the text, with the line in front of it.
pub find_end-bounds :
    (i : ℕ) (s : Bytes) (r : ℕ × ℕ)
    → find_end i s ≡ some r
    → (i + 2 ≤ r.1) × (r.0 ≤ r.1) × (r.1 ≤ i + length s)
unfolding find_end
find_end-bounds i [] r e = absurd (cc)
find_end-bounds i (c ∷ s) r e = elim (found i c s r e) [
  | lf y q ↦
      let l = starts_with-length blank_lf (c ∷ s) y in
      rw q (omega arith, omega arith, omega (arith, l))
  | crlf x y q ↦
      let l = starts_with-length blank_crlf (c ∷ s) y in
      rw q (omega arith, omega arith, omega (arith, l))
  | later x y f ↦
      let (a, b, l) = find_end-bounds (i + 1) s r f in (omega (arith, a), b, omega (arith, l))
]

-- A CR behind the second byte is no LF.
third_byte :
    (i a b c : ℕ) (d : Bytes) (r : ℕ × ℕ)
    → find_end i (b ∷ c ∷ []) ≡ some r
    → starts_with blank_crlf (a ∷ b ∷ c ∷ d) ≡ false
unfolding find_end starts_with
third_byte i a b c d r e = elim (Bool-cases (b'\r' == c)) [
  | inl y ↦ let n : (b'\n' == c) ≡ false = ground (arith, y) in absurd (ground (arith, e, n))
  | inr x ↦ rw x (ground arith)
]

not_crlf :
    (i c : ℕ) (s d : Bytes) (r : ℕ × ℕ)
    → starts_with blank_crlf (c ∷ s) ≡ false
    → find_end (i + 1) s ≡ some r
    → starts_with blank_crlf (c ∷ (s ++ d)) ≡ false
unfolding find_end
not_crlf i c [] d r x f = absurd (cc)
not_crlf i c (b ∷ []) d r x f =
    let (p, q, l) = find_end-bounds (i + 1) (b ∷ []) r f in absurd (omega (arith, p, l))
not_crlf i c (b ∷ a ∷ []) d r x f = third_byte (i + 1) c b a d r f
not_crlf i c (b ∷ a ∷ e ∷ s) d r x f =
    starts_with-append blank_crlf (c ∷ b ∷ a ∷ e ∷ s) d (omega arith) ∙ x

pub find_end-append :
    (i : ℕ) (s d : Bytes) (r : ℕ × ℕ) → find_end i s ≡ some r → find_end i (s ++ d) ≡ some r
find_end-append i [] d r e =
    let (a, b, l) = find_end-bounds i [] r e in absurd (omega (arith, a, l))
find_end-append i (c ∷ s) d r e = elim (found i c s r e) [
  | lf y q ↦ at_lf i c (s ++ d) (starts_with-grow blank_lf (c ∷ s) d y) ∙ ap some (sym q)
  | crlf x y q ↦
      let l = starts_with-length blank_crlf (c ∷ s) y in
      at_crlf i c (s ++ d) (starts_with-append blank_lf (c ∷ s) d (omega (arith, l)) ∙ x)
        (starts_with-grow blank_crlf (c ∷ s) d y)
      ∙ ap some (sym q)
  | later x y f ↦
      let (a, b, l) = find_end-bounds (i + 1) s r f in
      later_on i c (s ++ d) (starts_with-append blank_lf (c ∷ s) d (omega (arith, a, l)) ∙ x)
        (not_crlf i c s d r y f)
      ∙ find_end-append (i + 1) s d r f
]

-- No blank line starts at the first place, and none behind it.
Nothing : (i c : ℕ) (s : Bytes) → Type 0
Nothing i c s =
    (starts_with blank_lf (c ∷ s) ≡ false)
    × (starts_with blank_crlf (c ∷ s) ≡ false)
    × (find_end (i + 1) s ≡ none)

nothing : (i c : ℕ) (s : Bytes) → find_end i (c ∷ s) ≡ none → Nothing i c s
unfolding find_end Nothing
nothing i c s n = elim (Bool-cases (starts_with blank_lf (c ∷ s))) [
  | inl y ↦ absurd (let z : some (i + 1, i + 2) ≡ none = rw y at n in cc)
  | inr x ↦ elim (Bool-cases (starts_with blank_crlf (c ∷ s))) [
    | inl y ↦ absurd (let z : some (i + 2, i + 4) ≡ none = rw (x, y) at n in cc)
    | inr z ↦ (x, z, rw (x, z) at n)
  ]
]

both_values : {A : Type 0} (b c : Bool) → b ≡ c → b ≡ true → c ≡ false → A
both_values b c e t f = absurd (let z : true ≡ false = sym t ∙ (e ∙ f) in cc)

-- With nothing found in `s`, what is found when `d` stands behind it ends in `d`.
pub find_end-new :
    (i : ℕ) (s d : Bytes) (r : ℕ × ℕ)
    → find_end i s ≡ none
    → find_end i (s ++ d) ≡ some r
    → i + length s < r.1
unfolding Nothing
find_end-new i [] d r n e = let (a, b, l) = find_end-bounds i d r e in omega (arith, a)
find_end-new i (c ∷ s) d r n e =
    let (x, y, m) = nothing i c s n in
    elim (found i c (s ++ d) r e) [
      | lf u q ↦ elim (ltb_cases 0 (length s)) [
        | inl (o, h) ↦
            both_values _ _ (starts_with-append blank_lf (c ∷ s) d (omega (arith, h))) u x
        | inr (o, h) ↦ rw q (omega (arith, h))
      ]
      | crlf v u q ↦ elim (ltb_cases 2 (length s)) [
        | inl (o, h) ↦
            both_values _ _ (starts_with-append blank_crlf (c ∷ s) d (omega (arith, h))) u y
        | inr (o, h) ↦ rw q (omega (arith, h))
      ]
      | later v u f ↦ omega (arith, find_end-new (i + 1) s d r m f)
    ]

from_place : (i j : ℕ) (s t : Bytes) → i ≡ j → s ≡ t → find_end i s ≡ find_end j t
from_place i j s t e f = ap (λ k. find_end k s) e ∙ ap (find_end j) f

-- The search may start three bytes before the end of a text in which nothing was found.
pub find_end-skip :
    (i : ℕ) (s d : Bytes)
    → find_end i s ≡ none
    → find_end i (s ++ d) ≡ find_end (i + (length s - 3)) (drop (length s - 3) (s ++ d))
unfolding Nothing
find_end-skip i [] d n = from_place i (i + 0) d d (omega arith) refl
find_end-skip i (c ∷ s) d n = elim (ltb_cases 2 (length s)) [
  | inl (o, h) ↦
      let (x, y, m) = nothing i c s n in
      let k : length (c ∷ s) - 3 ≡ suc (length s - 3) = omega (arith, h) in
      later_on i c (s ++ d) (starts_with-append blank_lf (c ∷ s) d (omega (arith, h)) ∙ x)
        (starts_with-append blank_crlf (c ∷ s) d (omega (arith, h)) ∙ y)
      ∙ find_end-skip (i + 1) s d m
      ∙ from_place (i + 1 + (length s - 3)) (i + (length (c ∷ s) - 3))
          (drop (length s - 3) (s ++ d)) (drop (length (c ∷ s) - 3) (c ∷ (s ++ d)))
          (omega (arith, h)) (rw k refl)
  | inr (o, h) ↦
      let k : length (c ∷ s) - 3 ≡ 0 = omega (arith, h) in
      from_place i (i + (length (c ∷ s) - 3)) (c ∷ (s ++ d))
        (drop (length (c ∷ s) - 3) (c ∷ (s ++ d))) (omega (arith, h)) (rw k refl)
]
