-- ===== src/CrashBackoff/Entry/Exits.antt =====
-- What the exit of a child does to the streak of its pool.
use php_fpm_ng.Base.{Option, Bool-cases, inl, inr}
use php_fpm_ng.Base.{
  ℕ, ◌+◌, ◌*◌, ◌%◌, ◌^◌, ◌<◌, ◌≡◌, refl, ◌∙◌, ap, Bool, true, false, not, ◌&&◌, ◌||◌, ◌⊎◌, some,
  arith, ltb, leb, if◌then◌else◌,
}
use php_fpm_ng.CrashBackoff.Time.{micros, timeradd-micros}
use php_fpm_ng.CrashBackoff.Delay.{delay_ms}
use php_fpm_ng.CrashBackoff.Entry.{
  Entry, Exit, clear, is_healthy, of_ms, fast_failure, child_exited,
}

pub of_ms-micros : (ms : ℕ) → micros (of_ms ms) ≡ ms * 1000
of_ms-micros ms = omega arith

-- The pool gives up when the streak reaches a maximum above 0.
abbrev pub gives_up : Entry → Exit → Bool
gives_up e x =
    e.gave_up || (ltb 0 x.max_failures && leb x.max_failures (e.consecutive_failures + 1))

abbrev pub Fast : Entry → Exit → Entry → Type 0
Fast e x e' =
    (e'.consecutive_failures ≡ e.consecutive_failures + 1)
    × (e'.gave_up ≡ gives_up e x)
    × (e'.respawn_delay_ms ≡ delay_ms (e.consecutive_failures + 1) (gives_up e x) x.now x.pid)
    × (micros e'.next_spawn ≡ micros x.now + e'.respawn_delay_ms * 1000)

-- The number of failures in a row fits an `unsigned`.
abbrev pub Fits : Entry → Type 0
Fits e = e.consecutive_failures + 1 < 4294967296

up-gives : (a b g : Bool) → (if a && b && not g then true else g) ≡ (g || (a && b))
up-gives a b g = ground arith

pub fast_failure-Fast : (e : Entry) (x : Exit) → Fits e → Fast e x (fast_failure e x)
unfolding fast_failure
fast_failure-Fast e x h =
    let m : (e.consecutive_failures + 1) % 2 ^ 32 ≡ e.consecutive_failures + 1 = omega arith in
    let d = delay_ms (e.consecutive_failures + 1) (gives_up e x) x.now x.pid in
    rw
      (
        m,
        up-gives (ltb 0 x.max_failures) (leb x.max_failures (e.consecutive_failures + 1)) e.gave_up,
      )
      (refl, refl, refl, timeradd-micros x.now (of_ms d) ∙ ap (micros x.now +◌) (of_ms-micros d))

-- The three ways in which an exit is taken.
abbrev pub Taken : Entry → Exit → Option Entry → Type 0
Taken e x o =
    ((x.can_spawn ≡ false) × (o ≡ some e))
    ⊎ (((x.can_spawn ≡ true) × (is_healthy x ≡ true) × (o ≡ some (clear e)))
        ⊎ ((x.can_spawn ≡ true)
            × (is_healthy x ≡ false)
            × (e' : Entry) × (o ≡ some e')
            × Fast e x e'))

-- The exit of a child while the master stops says nothing of the pool. A child that served a
-- request or lived a whole window ends the streak. Any other child makes it longer by one, gives
-- the pool up at a maximum, and the next child waits the delay that belongs to the new streak.
pub child_exited-Taken : (e : Entry) (x : Exit) → Fits e → Taken e x (child_exited (some e) x)
unfolding child_exited
child_exited-Taken e x h = elim (Bool-cases x.can_spawn) [
  | inr stops ↦ inl (stops, rw stops refl)
  | inl c ↦ elim (Bool-cases (is_healthy x)) [
    | inl y ↦ inr (inl (c, y, rw (c, y) refl))
    | inr n ↦ inr (inr (c, n, fast_failure e x, rw (c, n) refl, fast_failure-Fast e x h))
  ]
]
