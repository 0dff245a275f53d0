-- ===== src/CrashBackoff/Entry/Gate.antt =====
-- When the next child of a pool may be forked, and the timer that asks again.
use php_fpm_ng.Base.{
  ℕ, ◌+◌, ◌-◌, ◌*◌, ◌≤◌, ◌<◌, ◌≡◌, refl, Bool, true, false, not, ◌||◌, ◌⊎◌, inl, inr, none, some,
  arith, Bool-cases,
}
use php_fpm_ng.CrashBackoff.Time.{
  Timeval, micros, IsNormal, timerisset, earlier, timersub, earlier-lt, timersub-micros,
}
use php_fpm_ng.CrashBackoff.Entry.{Entry, Answer, ms_up, wait, may_spawn}

ms_up-bounds : (t : Timeval) → (micros t ≤ ms_up t * 1000) × (ms_up t * 1000 < micros t + 1000)
ms_up-bounds t = (omega arith, omega arith)

-- The timer is set to a time at or behind `next_spawn`, by less than a millisecond; a timer that
-- was armed before is kept only if it is due no later.
abbrev pub Waiting : Entry → Timeval → Answer → Type 0
Waiting e now a =
    (e' : Entry) × (a.entry ≡ some e')
    × (e'.gate_armed ≡ true)
    × (e'.next_spawn ≡ e.next_spawn)
    × (((a.armed ≡ none)
          × (e.gate_armed ≡ true)
          × (e'.gate_due ≡ e.gate_due)
          × (micros e.gate_due ≤ micros e.next_spawn))
        ⊎ ((ms : ℕ) × (a.armed ≡ some ms)
            × (e'.gate_due ≡ e.next_spawn)
            × (micros e.next_spawn ≤ micros now + ms * 1000)
            × (micros now + ms * 1000 < micros e.next_spawn + 1000)))

or-false : (a b : Bool) → (not a || b) ≡ false → (a ≡ true) × (b ≡ false)
or-false a b h = ground arith

earlier-ge : (a b : Timeval) → IsNormal a → IsNormal b → earlier a b ≡ false → micros b ≤ micros a
unfolding earlier
earlier-ge a b h k e = ground arith

pub wait-Waiting :
    (e : Entry) (now : Timeval)
    → IsNormal now
    → IsNormal e.next_spawn
    → IsNormal e.gate_due
    → micros now < micros e.next_spawn
    → Waiting e now (wait e now)
unfolding wait
wait-Waiting e now n s g l =
    let left = timersub e.next_spawn now in
    let m : micros left ≡ micros e.next_spawn - micros now =
      timersub-micros e.next_spawn now s n (omega arith) in
    let (low, high) = ms_up-bounds left in
    elim (Bool-cases (not e.gate_armed || earlier e.next_spawn e.gate_due)) [
      | inl y ↦ rw y (
        record e { gate_due = e.next_spawn; gate_armed = true },
        refl,
        refl,
        refl,
        inr (ms_up left, refl, refl, omega arith, omega arith),
      )
      | inr x ↦
          let (armed, late) = or-false e.gate_armed (earlier e.next_spawn e.gate_due) x in
          rw x (
            e,
            refl,
            armed,
            refl,
            inl (refl, armed, refl, earlier-ge e.next_spawn e.gate_due s g late),
          )
    ]

wait-may : (e : Entry) (now : Timeval) → (wait e now).may ≡ false
unfolding wait
wait-may e now = elim (Bool-cases (not e.gate_armed || earlier e.next_spawn e.gate_due)) [
  | inl y ↦ rw y refl
  | inr x ↦ rw x refl
]

-- The two answers.
abbrev pub Answered : Entry → Timeval → Answer → Type 0
Answered e now a =
    ((a.may ≡ true) × ((timerisset e.next_spawn ≡ false) ⊎ (micros e.next_spawn ≤ micros now)))
    ⊎ ((a.may ≡ false)
        × (timerisset e.next_spawn ≡ true)
        × (micros now < micros e.next_spawn)
        × Waiting e now a)

-- The next child may be forked exactly when no wait is set or the wait is over. Until then the
-- gate timer is armed: it fires no earlier than the wait ends and less than a millisecond later,
-- or it was armed before for a time that is not later.
pub may_spawn-Answered :
    (e : Entry) (now : Timeval)
    → IsNormal now
    → IsNormal e.next_spawn
    → IsNormal e.gate_due
    → Answered e now (may_spawn (some e) now)
unfolding may_spawn
may_spawn-Answered e now n s g = elim (Bool-cases (timerisset e.next_spawn)) [
  | inr unset ↦ inl (rw unset refl, inl unset)
  | inl is_set ↦ elim (Bool-cases (earlier now e.next_spawn)) [
    | inr late ↦ inl (rw (is_set, late) refl, inr (earlier-ge now e.next_spawn n s late))
    | inl early ↦
        let l : micros now < micros e.next_spawn = (earlier-lt now e.next_spawn n s).0 early in
        inr (
          rw (is_set, early) (wait-may e now),
          is_set,
          l,
          rw (is_set, early) (wait-Waiting e now n s g l),
        )
  ]
]
