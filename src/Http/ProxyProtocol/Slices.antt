-- ===== src/Http/ProxyProtocol/Slices.antt =====
-- What the first bytes of a buffer settle, whatever comes behind them.
use php_fpm_ng.Base.{
  ℕ, zero, suc, ◌+◌, ◌-◌, ◌≤◌, ◌<◌, ◌≡◌, refl, ap, true, false, ◌&&◌, none, some, [], ◌∷◌, ◌++◌,
  arith, Bytes, length, get_or, take, drop, ◌==◌,
}
use php_fpm_ng.Http.ProxyProtocol.{agrees, find_lf}

pub get_or-append : (a b : Bytes) (i d : ℕ) → i < length a → get_or (a ++ b) i d ≡ get_or a i d
get_or-append [] b i d h = elim h [ ]
get_or-append (x ∷ a) b zero d h = refl
get_or-append (x ∷ a) b (suc i) d h = get_or-append a b i d (omega arith)

pub take-append : (n : ℕ) (a b : Bytes) → take n (a ++ b) ≡ take n a ++ take (n - length a) b
take-append zero a b = let e : 0 - length a ≡ 0 = omega arith in rw e refl
take-append (suc n) [] b = let e : suc n - 0 ≡ suc n = omega arith in rw e refl
take-append (suc n) (x ∷ a) b =
    let e : suc n - suc (length a) ≡ n - length a = omega arith in
    rw e (ap (x ∷◌) (take-append n a b))

take_within : (n : ℕ) (a b : Bytes) → n ≤ length a → take n (a ++ b) ≡ take n a
take_within zero a b h = refl
take_within (suc n) [] b h = elim h [ ]
take_within (suc n) (x ∷ a) b h = ap (x ∷◌) (take_within n a b (omega arith))

pub slice-append :
    (k n : ℕ) (a b : Bytes) → k + n ≤ length a → take n (drop k (a ++ b)) ≡ take n (drop k a)
slice-append zero n a b h = take_within n a b (omega arith)
slice-append (suc k) n [] b h = absurd (omega arith)
slice-append (suc k) n (x ∷ a) b h = slice-append k n a b (omega arith)

-- A buffer that has the whole constant decides the comparison; a shorter one refuses for good.
pub agrees_within : (p a b : Bytes) → length p ≤ length a → agrees p (a ++ b) ≡ agrees p a
unfolding agrees
agrees_within [] a b h = refl
agrees_within (y ∷ p) [] b h = absurd (omega arith)
agrees_within (y ∷ p) (x ∷ a) b h = ap (λ t. y == x && t) (agrees_within p a b (omega arith))

pub agrees_refused : (p a b : Bytes) → agrees p a ≡ false → agrees p (a ++ b) ≡ false
unfolding agrees
agrees_refused [] a b h = h
agrees_refused (y ∷ p) [] b h = cc
agrees_refused (y ∷ p) (x ∷ a) b h = ground (arith, h, agrees_refused p a b)

-- A constant without LF in front moves the first LF behind itself.
pub find_lf-agrees :
    (p a : Bytes) (n i : ℕ)
    → length p ≤ length a
    → find_lf p ≡ none
    → agrees p a ≡ true
    → find_lf (take n a) ≡ some i
    → length p ≤ i
unfolding find_lf agrees
find_lf-agrees [] a n i l e g h = omega arith
find_lf-agrees (y ∷ p) [] n i l e g h = absurd (omega arith)
find_lf-agrees (y ∷ p) (x ∷ a) zero i l e g h = cc
find_lf-agrees (y ∷ p) (x ∷ a) (suc n) i l e g h =
    ground (arith, e, g, h, find_lf-agrees p a n (i - 1))

pub find_lf-append : (a b : Bytes) (i : ℕ) → find_lf a ≡ some i → find_lf (a ++ b) ≡ some i
unfolding find_lf
find_lf-append [] b i h = cc
find_lf-append (c ∷ a) b i h = ground (arith, h, find_lf-append a b (i - 1))

pub find_lf-lt : (a : Bytes) (i : ℕ) → find_lf a ≡ some i → i < length a
unfolding find_lf
find_lf-lt [] i h = cc
find_lf-lt (c ∷ a) i h = ground (arith, h, find_lf-lt a (i - 1))

-- A first LF behind a part without one is not in that part.
pub find_lf-ge : (a b : Bytes) (i : ℕ) → find_lf a ≡ none → find_lf (a ++ b) ≡ some i → length a ≤ i
unfolding find_lf
find_lf-ge [] b i n h = omega arith
find_lf-ge (c ∷ a) b i n h = ground (arith, n, h, find_lf-ge a b (i - 1))
