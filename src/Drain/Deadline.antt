-- ===== src/Drain/Deadline.antt =====
-- The deadline, and the timer of the window.
use php_fpm_ng.Base.{
  ℕ, ◌+◌, ◌-◌, ◌*◌, ◌≤◌, ◌<◌, ◌≡◌, refl, true, false, ◌&&◌, ◌||◌, ◌⊎◌, inl, inr, some, arith,
  Bool-cases, ltb_cases,
}
use php_fpm_ng.CrashBackoff.Time.{Timeval, micros, IsNormal, earlier, earlier-lt, timersub-micros}
use php_fpm_ng.Drain.{
  Gateway, grace_ms, deadline_at, remaining_ms, Env, wait_of, drain_soft_start, sigquit,
}

pub deadline_at-micros :
    (timeout : ℕ) (now : Timeval)
    → IsNormal now
    → (micros (deadline_at timeout now) ≡ micros now + grace_ms timeout * 1000)
      × IsNormal (deadline_at timeout now)
unfolding deadline_at
deadline_at-micros timeout now n = (ground arith, ground arith)

not_earlier :
    (a now : Timeval) → IsNormal a → IsNormal now → earlier now a ≡ false → micros a ≤ micros now
unfolding earlier
not_earlier a now d n x = ground arith

remaining_ms-micros :
    (deadline now : Timeval)
    → IsNormal deadline
    → IsNormal now
    → (micros now + remaining_ms deadline now * 1000 ≤ micros now + (micros deadline - micros now))
      × (micros deadline < micros now + remaining_ms deadline now * 1000 + 1000)
unfolding remaining_ms
remaining_ms-micros deadline now d n = elim (Bool-cases (earlier now deadline)) [
  | inl y ↦
      let l = (earlier-lt now deadline n d).0 y in
      let m = timersub-micros deadline now d n (omega arith) in
      rw y (omega (arith, m, l), omega (arith, m, l))
  | inr x ↦ let l = not_earlier deadline now d n x in rw x (omega (arith, l), omega (arith, l))
]

-- While the gateway serves, SIGUSR1 leaves the listeners as they are and arms a timer, which fires
-- no later than the grace after the signal, or at once if that time is over, and less than a
-- millisecond before its end; until then SIGQUIT changes nothing.
pub drain_soft_start-window :
    (env hard quit : Env) (gw : Gateway)
    → IsNormal env.now
    → IsNormal env.later
    → micros env.now ≤ micros env.later
    → (gw.stopping || gw.soft_draining) ≡ false
    → (env.made && env.added) ≡ true
    → (wait : Timeval) × (drain_soft_start env hard gw ≡ record gw {
      soft_draining = true;
      drain_deadline = deadline_at env.timeout env.now;
      soft_timer = some wait;
    })
      × ((micros env.later + micros wait ≤ micros env.now + grace_ms env.timeout * 1000)
          ⊎ (micros wait ≡ 0))
      × (micros env.now + grace_ms env.timeout * 1000 < micros env.later + micros wait + 1000)
      × (sigquit quit (drain_soft_start env hard gw) ≡ drain_soft_start env hard gw)
unfolding drain_soft_start sigquit
drain_soft_start-window env hard quit gw n m l s t =
    let deadline = deadline_at env.timeout env.now in
    let (e, d) = deadline_at-micros env.timeout env.now n in
    let left = remaining_ms deadline env.later in
    let (a, b) = remaining_ms-micros deadline env.later d m in
    let w : micros (wait_of left) ≡ left * 1000 = omega arith in
    let c : gw.stopping ≡ false = ground arith in
    (
      wait_of left,
      rw (s, t) refl,
      elim (ltb_cases (micros deadline) (micros env.later)) [
        | inl (f, g) ↦ inr (omega (arith, a, w, g))
        | inr (f, g) ↦ inl (omega (arith, a, e, w, g))
      ],
      omega (arith, e, b, w),
      rw (s, t, c) refl,
    )
