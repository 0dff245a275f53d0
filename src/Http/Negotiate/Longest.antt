-- ===== src/Http/Negotiate/Longest.antt =====
-- The Cache-Control rule of a path.
use php_fpm_ng.Base.{
  ℕ, suc, ◌<◌, ◌≤◌, ◌≡◌, refl, ap, true, ◌&&◌, inl, inr, Option, none, some, List, [], ◌∷◌, ◌++◌,
  arith, Bytes, starts_with, length, ltb, Bool-cases,
}
use php_fpm_ng.Http.Negotiate.{Rule, rules_loop, cache_control_for}

-- Every key that starts the path is shorter than `n`.
abbrev pub Below : Bytes → ℕ → List Rule → Type 0
Below path n [] = Unit
Below path n (r ∷ rs) = (starts_with r.key path ≡ true → length r.key < n) × Below path n rs

-- What stands after the rules when `best` had a key of `len` bytes before them.
pub data Chosen (path : Bytes) (best : Option Bytes) (len : ℕ) (rules : List Rule)
    (o : Option Bytes) : Type 0 where
  kept : Below path (suc len) rules → o ≡ best → Chosen path best len rules o
  chosen :
      (before : List Rule) (r : Rule) (after : List Rule)
      → rules ≡ before ++ r ∷ after
      → starts_with r.key path ≡ true
      → len < length r.key
      → Below path (length r.key) before
      → Below path (suc (length r.key)) after
      → o ≡ some r.value
      → Chosen path best len rules o

module _ (path : Bytes) (best : Option Bytes) (len : ℕ) (r : Rule) (rules : List Rule) where
  taken :
      (o : Option Bytes)
      → starts_with r.key path ≡ true
      → len < length r.key
      → Chosen path (some r.value) (length r.key) rules o
      → Chosen path best len (r ∷ rules) o
  taken o s l (kept b e) = chosen [] r rules refl s l tt b e
  taken o s l (chosen before x after e t k b c v) =
      chosen (r ∷ before) x after (ap (r ∷◌) e) t (omega arith) (λ _. k, b) c v

  passed_by :
      (o : Option Bytes)
      → (starts_with r.key path ≡ true → length r.key ≤ len)
      → Chosen path best len rules o
      → Chosen path best len (r ∷ rules) o
  passed_by o n (kept b e) = kept (λ s. let i = n s in omega arith, b) e
  passed_by o n (chosen before x after e t k b c v) =
      chosen (r ∷ before) x after (ap (r ∷◌) e) t k (λ s. let i = n s in omega arith, b) c v

rules_loop-Chosen :
    (path : Bytes) (best : Option Bytes) (len : ℕ) (rules : List Rule)
    → Chosen path best len rules (rules_loop path best len rules)
unfolding rules_loop
rules_loop-Chosen path best len [] = kept tt refl
rules_loop-Chosen path best len (r ∷ rules) =
    elim (Bool-cases (ltb len (length r.key) && starts_with r.key path)) [
      | inl y ↦ rw y (
          taken path best len r rules _ (ground arith) (ground arith)
            (rules_loop-Chosen path (some r.value) (length r.key) rules))
      | inr x ↦ rw x (
          passed_by path best len r rules _ (λ s. ground arith)
            (rules_loop-Chosen path best len rules))
    ]

-- The value is that of the first rule among those with the longest key that starts the path; there
-- is none only if no key that is not empty does.
pub cache_control_for-Chosen :
    (rules : List Rule) (path : Bytes) → Chosen path none 0 rules (cache_control_for rules path)
unfolding cache_control_for
cache_control_for-Chosen rules path = rules_loop-Chosen path none 0 rules
