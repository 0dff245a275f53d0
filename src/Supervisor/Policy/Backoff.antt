-- ===== src/Supervisor/Policy/Backoff.antt =====
-- The delay before the next run of a script that fails.
use php_fpm_ng.Base.{
  ℕ, zero, suc, ◌+◌, ◌-◌, ◌*◌, ◌^◌, ◌≤◌, ◌<◌, ◌≡◌, refl, ◌∙◌, true, false, Option, inl, inr, arith,
  ◌&&◌, ap, ltb, leb, ◌==◌, if◌then◌else◌, Bool-cases,
}
use php_fpm_ng.Base.{◌≢◌, ◌⊎◌}
use Prim.Native.Nat.{min}
use php_fpm_ng.Base.{sym}
use native.Mathlib.Nat.{pow-succ', mul_assoc}
use php_fpm_ng.Supervisor.State.{Shared, Config, Run, wants_retry}
use php_fpm_ng.Supervisor.Policy.{backoff_loop, backoff, failed, fall, apply_policy}

backoff_loop-suc :
    (most n d : ℕ)
    → backoff_loop most (suc n) d ≡ (if leb most d then most else backoff_loop most n (d * 2))
unfolding backoff_loop
backoff_loop-suc most n d = refl

backoff_loop-zero : (most d : ℕ) → backoff_loop most zero d ≡ d
unfolding backoff_loop
backoff_loop-zero most d = refl

pow_pos : (n : ℕ) → 1 ≤ 2 ^ n
pow_pos zero = omega arith
pow_pos (suc n) = omega (arith, pow_pos n)

scale-le : (d p : ℕ) → 1 ≤ p → d ≤ d * p
scale-le d p h = let m : d * 1 ≤ d * p = grind arith in omega arith

-- Where the loop stops early the bound holds already.
backoff_loop-min :
    (most n delay : ℕ) → min (backoff_loop most n delay) most ≡ min (delay * 2 ^ n) most
backoff_loop-min most zero delay = rw (backoff_loop-zero most delay) (omega arith)
backoff_loop-min most (suc n) delay =
    rw (backoff_loop-suc most n delay) (elim (Bool-cases (leb most delay)) [
      | inl y ↦
          let h : most ≤ delay = ground arith in
          rw y (omega (arith, scale-le delay (2 ^ suc n) (pow_pos (suc n))))
      | inr x ↦
          let e : delay * 2 ^ suc n ≡ delay * 2 * 2 ^ n =
            ap (delay *◌) (pow-succ' 2 n) ∙ sym (mul_assoc delay 2 (2 ^ n)) in
          rw (x, e) (backoff_loop-min most n (delay * 2))
    ])

-- The delay is the first one, doubled for each failure behind the first, up to the most.
backoff-min :
    (c : Config) (n : ℕ) → backoff c n ≡ min (c.restart_delay * 2 ^ (n - 1)) c.restart_delay_max
unfolding backoff
backoff-min c n =
    let h = backoff_loop-min c.restart_delay_max (n - 1) c.restart_delay in ground (arith, h)

-- A run that fails, or that ends under `restart = always`.
abbrev pub IsRetried : Config → Run → Type 0
IsRetried c r = wants_retry c r.exit_code ≡ true

apply_policy-fall :
    (c : Config) (s : Shared) (r : Run) (slot : Option ℕ)
    → IsRetried c r
    → r.exit_code ≢ 0
    → apply_policy c s r slot ≡ (false, fall c s r)
unfolding apply_policy
apply_policy-fall c s r slot w n =
    let z : (r.exit_code == 0) ≡ false = ground arith in rw (w, z) refl

-- What stands in the shared state behind a failure.
abbrev pub Delayed : Config → Run → ℕ → Shared → Type 0
Delayed c r n s =
    (s.failures ≡ n)
    × (s.next_allowed_start ≡ r.now + min (c.restart_delay * 2 ^ (n - 1)) c.restart_delay_max)

abbrev pub GaveUp : ℕ → Shared → Type 0
GaveUp n s = (s.failures ≡ n) × (s.terminal ≡ true) × (s.gave_up ≡ true)

fall-gives_up :
    (c : Config) (s : Shared) (r : Run)
    → 0 < c.restart_max
    → c.restart_max ≤ failed c s r
    → GaveUp (failed c s r) (fall c s r)
unfolding fall
fall-gives_up c s r p l =
    let a : ltb 0 c.restart_max ≡ true = ground arith in
    let b : leb c.restart_max (failed c s r) ≡ true = ground arith in rw (a, b) (refl, refl, refl)

fall-waits :
    (c : Config) (s : Shared) (r : Run)
    → (c.restart_max ≡ 0) ⊎ (failed c s r < c.restart_max)
    → Delayed c r (failed c s r) (fall c s r) × ((fall c s r).terminal ≡ s.terminal)
unfolding fall
fall-waits c s r o =
    let a : (ltb 0 c.restart_max && leb c.restart_max (failed c s r)) ≡ false = ground arith in
    rw a ((refl, ap (r.now +◌) (backoff-min c (failed c s r))), refl)

-- What a failure leads to: the pool gives up, or the next run waits.
abbrev pub Verdict : Config → Shared → Run → ℕ → Shared → Type 0
Verdict c s r n s' =
    ((0 < c.restart_max) × (c.restart_max ≤ n) × GaveUp n s')
    ⊎ (((c.restart_max ≡ 0) ⊎ (n < c.restart_max)) × Delayed c r n s' × (s'.terminal ≡ s.terminal))

fall-Verdict : (c : Config) (s : Shared) (r : Run) → Verdict c s r (failed c s r) (fall c s r)
fall-Verdict c s r = elim (Bool-cases (ltb 0 c.restart_max && leb c.restart_max (failed c s r))) [
  | inl y ↦
      let p : 0 < c.restart_max = ground arith in
      let l : c.restart_max ≤ failed c s r = ground arith in inl (p, l, fall-gives_up c s r p l)
  | inr x ↦
      let o : (c.restart_max ≡ 0) ⊎ (failed c s r < c.restart_max) = ground arith in
      let (d, t) = fall-waits c s r o in inr (o, d, t)
]

-- A run that fails and is retried keeps its copy running. When the failures in a row reach
-- supervisor.restart_max the pool gives up; below it, or with no maximum, the next run waits the
-- first delay doubled for each failure behind the first, at most supervisor.restart_delay_max.
pub apply_policy-Verdict :
    (c : Config) (s : Shared) (r : Run) (slot : Option ℕ)
    → IsRetried c r
    → r.exit_code ≢ 0
    → ((apply_policy c s r slot).0 ≡ false)
      × Verdict c s r (failed c s r) (apply_policy c s r slot).1
apply_policy-Verdict c s r slot w n =
    rw (apply_policy-fall c s r slot w n) (refl, fall-Verdict c s r)
