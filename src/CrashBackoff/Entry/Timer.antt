-- ===== src/CrashBackoff/Entry/Timer.antt =====
-- While the master may not fork the next child of a pool, the timer that asks again is queued.
use php_fpm_ng.Base.{
  ℕ, ◌+◌, ◌*◌, ◌≤◌, ◌<◌, ◌≡◌, refl, ap, ◌∙◌, true, false, not, ◌&&◌, ◌⊎◌, inl, inr, Option, none,
  some, arith, ◌==◌, Bool-cases,
}
use php_fpm_ng.CrashBackoff.Time.{Timeval, micros, IsNormal, timerisset, earlier, earlier-lt}
use php_fpm_ng.CrashBackoff.Entry.{
  Entry, fresh, Exit, is_healthy, fast_failure, child_exited, wait, may_spawn, child_spawned,
  survive_fire,
}
use php_fpm_ng.CrashBackoff.Entry.Gate.{wait-Waiting, may_spawn-Answered}
use php_fpm_ng.CrashBackoff.Entry.Waits.{
  queue, Step, Steps, IsBounded, AllBounded, later-IsBounded, Step-AllBounded, fresh-IsBounded,
  fresh-AllBounded,
}

-- `gate_armed` says that the timer is queued, for `gate_due` rounded up to a millisecond.
abbrev IsTimed : Entry → Option ℕ → Type 0
IsTimed e g =
    IsNormal e.gate_due
    × (e.gate_armed ≡ true → (due : ℕ) × (g ≡ some due) × (due < micros e.gate_due + 1000))

abbrev AllTimed : Option Entry → Option ℕ → Type 0
AllTimed none g = Unit
AllTimed (some e) g = IsTimed e g

exited-AllTimed :
    (e : Entry) (x : Exit) (g : Option ℕ) → IsTimed e g → AllTimed (child_exited (some e) x) g
unfolding child_exited fast_failure
exited-AllTimed e x g h = elim (Bool-cases x.can_spawn) [
  | inr stops ↦ rw stops h
  | inl c ↦ elim (Bool-cases (is_healthy x)) [ inl y ↦ rw (c, y) h | inr fast ↦ rw (c, fast) h ]
]

spawned-AllTimed :
    (e : Option Entry) (pid : ℕ) (started : Timeval) (g : Option ℕ)
    → AllTimed e g
    → AllTimed (child_spawned e pid started).0 g
unfolding child_spawned
spawned-AllTimed none pid started g h = h
spawned-AllTimed (some e) pid started g h = elim (Bool-cases (e.consecutive_failures == 0)) [
  | inl y ↦ rw y h
  | inr x ↦ rw x h
]

survives-IsTimed :
    (e : Entry) (found : Option Timeval) (g : Option ℕ)
    → IsTimed e g
    → IsTimed (survive_fire e found).1 g
unfolding survive_fire
survives-IsTimed e none g h = h
survives-IsTimed e (some started) g h = elim (Bool-cases (e.consecutive_failures == 0)) [
  | inl y ↦ rw y h
  | inr x ↦
      elim (Bool-cases (
        not (
          started.tv_sec == e.watch_started.tv_sec
          && started.tv_usec == e.watch_started.tv_usec))) [
            | inl other ↦ rw (x, other) h
            | inr same ↦ rw (x, same) h
          ]
]

-- The answer to the master: it may fork, or the gate timer is queued behind the call, for less than a
-- millisecond past the end of the wait.
abbrev pub Asked : Timeval → Option Entry → Option ℕ → Type 0
Asked now none g = (may_spawn none now).may ≡ true
Asked now (some e) g =
    ((may_spawn (some e) now).may ≡ true)
    ⊎ (((may_spawn (some e) now).may ≡ false)
        × (due : ℕ) × (queue now (may_spawn (some e) now).armed g ≡ some due)
        × (due < micros e.next_spawn + 1000)
        × (due < micros now + 60001000))

asks-Asked :
    (now : Timeval) (e : Entry) (g : Option ℕ)
    → IsNormal now
    → IsBounded now e
    → IsTimed e g
    → Asked now (some e) g
asks-Asked now e g n (s, b, shown, idle) (d, q) = elim (may_spawn-Answered e now n s d) [
  | inl (y, w) ↦ inl y
  | inr (f, y, l, (e', i, a, k, o)) ↦ elim o [
    | inl (kept, armed, same, before) ↦
        let (due, z, m) = q armed in
        inr (f, due, ap (λ o. queue now o g) kept ∙ z, omega arith, omega arith)
    | inr (ms, set, same, low, high) ↦
        inr (f, micros now + ms * 1000, ap (λ o. queue now o g) set, omega arith, omega arith)
  ]
]

wait-AllTimed :
    (now : Timeval) (e : Entry) (g : Option ℕ)
    → IsNormal now
    → IsNormal e.next_spawn
    → micros now < micros e.next_spawn
    → IsTimed e g
    → AllTimed (wait e now).entry (queue now (wait e now).armed g)
wait-AllTimed now e g n s l (d, q) =
    let (e', i, a, k, o) = wait-Waiting e now n s d l in
    elim o [
      | inl (kept, armed, same, before) ↦
          rw (i, kept) (rw same d, λ z. let (due, f, m) = q armed in (due, f, rw same m))
      | inr (ms, set, same, low, high) ↦
          rw (i, set) (rw same s, λ z. (micros now + ms * 1000, refl, rw same high))
    ]

asks-AllTimed :
    (now : Timeval) (e : Option Entry) (g : Option ℕ)
    → IsNormal now
    → AllBounded now e
    → AllTimed e g
    → AllTimed (may_spawn e now).entry (queue now (may_spawn e now).armed g)
unfolding may_spawn
asks-AllTimed now none g n b h = h
asks-AllTimed now (some e) g n b h = elim (Bool-cases (timerisset e.next_spawn)) [
  | inr unset ↦ rw unset h
  | inl is_set ↦ elim (Bool-cases (earlier now e.next_spawn)) [
    | inr late ↦ rw (is_set, late) h
    | inl early ↦
        rw (is_set, early)
          (wait-AllTimed now e g n b.0 ((earlier-lt now e.next_spawn n b.0).0 early) h)
  ]
]

Step-AllTimed :
    (now : Timeval) {e e' : Option Entry} {g g' : Option ℕ}
    → IsNormal now
    → Step now e g e' g'
    → AllBounded now e
    → AllTimed e g
    → AllTimed e' g'
Step-AllTimed now n (Step.exits e x g c f) b h = exited-AllTimed e x g h
Step-AllTimed now n (Step.asks e g) b h = asks-AllTimed now e g n b h
Step-AllTimed now n (Step.spawns e pid started g) b h = spawned-AllTimed e pid started g h
Step-AllTimed now n (Step.survives e found g) b h = survives-IsTimed e found g h
Step-AllTimed now n (Step.opens e due l) b (d, q) = (d, λ z. absurd (cc))

Steps-AllTimed :
    {t u : Timeval} {e e' : Option Entry} {g g' : Option ℕ}
    → Steps t e g u e' g'
    → AllBounded t e
    → AllTimed e g
    → AllTimed e' g'
Steps-AllTimed (Steps.stay t e g) b h = h
Steps-AllTimed (Steps.then_steps {t} {t'} {u} {e} {e'} {e''} {g} {g'} {g''} n l p q) b h =
    let c = later-IsBounded t t' e l b in
    Steps-AllTimed q (Step-AllBounded t' n p c) (Step-AllTimed t' n p c h)

answers-Asked :
    (now : Timeval) (e : Option Entry) (g : Option ℕ)
    → IsNormal now
    → AllBounded now e
    → AllTimed e g
    → Asked now e g
unfolding may_spawn
answers-Asked now none g n b h = refl
answers-Asked now (some e) g n b h = asks-Asked now e g n b h

-- From a fresh pool on, while the clock does not run backwards and fewer than 2^32 - 1 children in a
-- row fail fast: if the master asks at `now` for the next child and may not fork it, the gate timer
-- that asks again is queued, less than a millisecond past the end of the wait at the latest, and less
-- than 60.001 seconds away. The delay that is shown is at most a minute, and while no streak runs
-- there is no wait, no delay and the pool has not given up.
pub fresh-Asked :
    (t u now : Timeval) (e : Option Entry) (g : Option ℕ)
    → Steps t (some fresh) none u e g
    → IsNormal now
    → micros u ≤ micros now
    → AllBounded now e × Asked now e g
fresh-Asked t u now e g p n l =
    let b = later-IsBounded u now e l (fresh-AllBounded t u e g p) in
    (
      b,
      answers-Asked now e g n b
          (Steps-AllTimed p (fresh-IsBounded t) (omega arith, λ z. absurd (cc))),
    )
