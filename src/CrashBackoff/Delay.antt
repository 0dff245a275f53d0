-- ===== src/CrashBackoff/Delay.antt =====
-- `fpm_crash_backoff_jitter` and `fpm_crash_backoff_delay_ms`
-- (sapi/fpmng/fpm/fpm_crash_backoff.c).
use php_fpm_ng.Base.{
  ℕ, zero, suc, ◌+◌, ◌-◌, ◌*◌, ◌/◌, ◌%◌, ◌^◌, ◌≤◌, ◌<◌, ◌≡◌, refl, Bool, true, false, inl, inr,
  arith, ltb, ◌==◌, ◌⊎◌, if◌then◌else◌, Bool-cases,
}
use Prim.Native.Nat.{min, bit_xor}
use php_fpm_ng.CrashBackoff.Time.{Timeval}

-- Arithmetic on `uint64_t`.
abbrev wrap : ℕ → ℕ
wrap x = x % 2 ^ 64

-- The clock and the pid that the hash reads.
pub seed : Timeval → ℕ → ℕ
seed now pid =
    bit_xor (bit_xor (wrap (now.tv_sec * 2 ^ 32)) (wrap now.tv_usec)) (wrap (pid * 2 ^ 48))

-- The mixing step of splitmix64.
pub mix : ℕ → ℕ
mix x0 =
    let x1 = wrap (x0 + 11400714819323198485) in
    let x2 = wrap (bit_xor x1 (x1 / 2 ^ 30) * 13787848793156543929) in
    let x3 = wrap (bit_xor x2 (x2 / 2 ^ 27) * 10723151780598845931) in bit_xor x3 (x3 / 2 ^ 31)

unfoldable pub jitter : ℕ → Timeval → ℕ → ℕ
unfolding seed mix
jitter most now pid = if most == 0 then 0 else mix (seed now pid) % (most + 1)

abbrev pub cap_ms : ℕ
cap_ms = 60000

-- `1000UL << shift`, with the cap.
abbrev pub window_ms : ℕ → ℕ
window_ms failures =
    let shift = if ltb 6 (failures - 2) then 6 else failures - 2 in
    let window = 1000 * 2 ^ shift in if ltb cap_ms window then cap_ms else window

abbrev pub draw : ℕ → Timeval → ℕ → ℕ
draw window now pid = window / 2 + jitter (window - window / 2) now pid

unfoldable pub delay_ms : ℕ → Bool → Timeval → ℕ → ℕ
unfolding jitter
delay_ms failures gave_up now pid =
    if gave_up
    then draw cap_ms now pid
    else if ltb failures 2
    then 0
    else draw (window_ms failures) now pid

pub jitter-le : (most : ℕ) (now : Timeval) (pid : ℕ) → jitter most now pid ≤ most
unfolding jitter
jitter-le most now pid = elim (Bool-cases (most == 0)) [
  | inl z ↦ rw z (omega arith)
  | inr n ↦ rw n (omega arith)
]

draw-le : (w : ℕ) (now : Timeval) (pid : ℕ) → (w / 2 ≤ draw w now pid) × (draw w now pid ≤ w)
draw-le w now pid = let h = jitter-le (w - w / 2) now pid in (omega arith, omega arith)

-- The window that the header describes: 1 s, doubled for each failure behind the second, at most
-- the cap, and the cap for a pool that gave up.
abbrev pub window_of : ℕ → Bool → ℕ
window_of failures true = cap_ms
window_of failures false = min (1000 * 2 ^ (failures - 2)) cap_ms

pow-ge : (j k : ℕ) → k ≡ 6 + j → 64 ≤ 2 ^ k
pow-ge zero k e = let e' : k ≡ 6 = omega arith in rw e' (omega arith)
pow-ge (suc j) zero e = absurd (omega arith)
pow-ge (suc j) (suc k) e = omega (arith, pow-ge j k (omega arith))

window_ms-min : (n : ℕ) → window_ms n ≡ min (1000 * 2 ^ (n - 2)) cap_ms
window_ms-min n = elim (Bool-cases (ltb 6 (n - 2))) [
  | inl y ↦
      let big : 64 ≤ 2 ^ (n - 2) = pow-ge (n - 2 - 6) (n - 2) (ground arith) in rw y (omega arith)
  | inr x ↦ rw x (ground arith)
]

abbrev pub IsFirstFailure : ℕ → Bool → Type 0
IsFirstFailure failures gave_up = (failures < 2) × (gave_up ≡ false)

abbrev pub InWindow : ℕ → ℕ → Type 0
InWindow w d = (w / 2 ≤ d) × (d ≤ w)

-- The first failure of a streak is followed at once by the next child. Behind a later one the
-- delay is in the upper half of a window that starts at 1 s and doubles up to the cap, and is the
-- cap once the pool gave up.
pub delay_ms-window :
    (failures : ℕ) (gave_up : Bool) (now : Timeval) (pid : ℕ)
    → (IsFirstFailure failures gave_up × (delay_ms failures gave_up now pid ≡ 0))
      ⊎ (((2 ≤ failures) ⊎ (gave_up ≡ true))
          × InWindow (window_of failures gave_up) (delay_ms failures gave_up now pid))
unfolding delay_ms
delay_ms-window failures true now pid = inr (inr refl, draw-le cap_ms now pid)
delay_ms-window zero false now pid = inl ((omega arith, refl), refl)
delay_ms-window (suc zero) false now pid = inl ((omega arith, refl), refl)
delay_ms-window (suc (suc k)) false now pid =
    let e : ltb (suc (suc k)) 2 ≡ false = ground arith in
    inr (
      inl (omega arith),
      rw (e, ← window_ms-min (suc (suc k))) (draw-le (window_ms (suc (suc k))) now pid),
    )

pub delay_ms-le :
    (failures : ℕ) (gave_up : Bool) (now : Timeval) (pid : ℕ)
    → delay_ms failures gave_up now pid ≤ cap_ms
delay_ms-le failures true now pid = elim (delay_ms-window failures true now pid) [
  | inl (first, z) ↦ omega arith
  | inr (later, w) ↦ w.1
]
delay_ms-le failures false now pid = elim (delay_ms-window failures false now pid) [
  | inl (first, z) ↦ omega arith
  | inr (later, w) ↦ let h = w.1 in omega arith
]
