-- ===== src/Handoff/Groups.antt =====
-- Only the group of a pool itself is taken for it.
use php_fpm_ng.Base.{
  ℕ, suc, ◌+◌, ◌≡◌, refl, true, false, [], ◌∷◌, ◌++◌, arith, Bytes, drop, length, ◌==◌, ==_iff,
}
use php_fpm_ng.Base.Tokens.{IsClean}
use php_fpm_ng.Handoff.{name_ok, is_mark, is_group_of}

pub name_ok-cons :
    (c : ℕ) (s : Bytes) → name_ok (c ∷ s) ≡ true → (is_mark c ≡ false) × (name_ok s ≡ true)
unfolding name_ok
name_ok-cons c s h = (ground (arith, h), ground (arith, h))

pub name_ok-IsClean : (s : Bytes) → name_ok s ≡ true → IsClean (λ c. c == b';') s
name_ok-IsClean [] h = tt
name_ok-IsClean (c ∷ s) h =
    let (m, k) = name_ok-cons c s h in (ground (arith, m), name_ok-IsClean s k)

is_group_of-cons :
    (x y : ℕ) (a t : Bytes)
    → is_group_of (x ∷ a) (y ∷ t) ≡ true
    → ((x == y) ≡ true) × (is_group_of a t ≡ true)
unfolding is_group_of
is_group_of-cons x y a t h = (ground (arith, h), ground (arith, h))

pub same_name :
    (a b s : Bytes)
    → name_ok a ≡ true
    → name_ok b ≡ true
    → is_group_of a (b ++ b':' ∷ s) ≡ true
    → a ≡ b
unfolding is_group_of
same_name [] [] s h k e = refl
same_name [] (y ∷ b) s h k e = let (m, _) = name_ok-cons y b k in absurd (ground (arith, m, e))
same_name (x ∷ a) [] s h k e = let (m, _) = name_ok-cons x a h in absurd (ground (arith, m, e))
same_name (x ∷ a) (y ∷ b) s h k e =
    let (m, t) = is_group_of-cons x y a (b ++ b':' ∷ s) e in
    let z : x ≡ y = (==_iff x y).0 m in
    let q : a ≡ b = same_name a b s (name_ok-cons x a h).1 (name_ok-cons y b k).1 t in cc (z, q)

-- The group of the pool itself, and what stands in it.
pub is_group_of_self : (name s : Bytes) → is_group_of name (name ++ b':' ∷ s) ≡ true
unfolding is_group_of
is_group_of_self [] s = refl
is_group_of_self (c ∷ name) s =
    let e : (c == c) ≡ true = ground arith in rw e (is_group_of_self name s)

pub drop-name : (name s : Bytes) → drop (length name + 1) (name ++ b':' ∷ s) ≡ s
drop-name [] s = refl
drop-name (c ∷ name) s =
    let e : suc (length name) + 1 ≡ suc (length name + 1) = omega arith in rw e (drop-name name s)
