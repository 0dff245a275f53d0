-- ===== src/CrashBackoff/Entry/Waits.antt =====
-- A pool over time, under a clock that does not run backwards.
use php_fpm_ng.Base.{
  ℕ, ◌+◌, ◌*◌, ◌≤◌, ◌≡◌, refl, false, not, ◌&&◌, ◌||◌, inl, inr, Option, none, some, arith, ◌==◌,
  Bool-cases,
}
use php_fpm_ng.CrashBackoff.Time.{
  Timeval, cleared, micros, IsNormal, timerisset, earlier, timeradd-IsNormal,
}
use php_fpm_ng.CrashBackoff.Delay.{delay_ms-le}
use php_fpm_ng.CrashBackoff.Entry.{
  Entry, fresh, clear, Exit, is_healthy, of_ms, fast_failure, child_exited, wait, may_spawn,
  child_spawned, survive_fire, gate_fire,
}
use php_fpm_ng.CrashBackoff.Entry.Exits.{Fits, gives_up, fast_failure-Fast}

-- The event loop holds at most one gate timer, due at a time in microseconds; arming it again only
-- sets a new time.
abbrev pub queue : Timeval → Option ℕ → Option ℕ → Option ℕ
queue now none g = g
queue now (some ms) g = some (micros now + ms * 1000)

-- The state of a pool and its gate timer before and behind a call at the time `now`.
pub data Step (now : Timeval) : Option Entry → Option ℕ → Option Entry → Option ℕ → Type 0 where
  exits :
      (e : Entry) (x : Exit) (g : Option ℕ)
      → x.now ≡ now
      → Fits e
      → Step now (some e) g (child_exited (some e) x) g
  asks :
      (e : Option Entry) (g : Option ℕ)
      → Step now e g (may_spawn e now).entry (queue now (may_spawn e now).armed g)
  spawns :
      (e : Option Entry) (pid : ℕ) (started : Timeval) (g : Option ℕ)
      → Step now e g (child_spawned e pid started).0 g
  survives :
      (e : Entry) (found : Option Timeval) (g : Option ℕ)
      → Step now (some e) g (some (survive_fire e found).1) g
  opens :
      (e : Entry) (due : ℕ)
      → due ≤ micros now
      → Step now (some e) (some due) (some (gate_fire e)) none

-- From the time of the last call and its state, with the time of the last call behind.
pub data Steps
    : Timeval → Option Entry → Option ℕ → Timeval → Option Entry → Option ℕ → Type 0 where
  stay : (t : Timeval) (e : Option Entry) (g : Option ℕ) → Steps t e g t e g
  then_steps :
      {t t' u : Timeval} {e e' e'' : Option Entry} {g g' g'' : Option ℕ}
      → IsNormal t'
      → micros t ≤ micros t'
      → Step t' e g e' g'
      → Steps t' e' g' u e'' g''
      → Steps t e g u e'' g''

-- The wait that is left is at most a minute, and where no streak runs there is none.
abbrev pub IsBounded : Timeval → Entry → Type 0
IsBounded now e =
    IsNormal e.next_spawn
    × (micros e.next_spawn ≤ micros now + 60000000)
    × (e.respawn_delay_ms ≤ 60000)
    × (e.consecutive_failures ≡ 0
        → (e.gave_up ≡ false) × (e.respawn_delay_ms ≡ 0) × (e.next_spawn ≡ cleared))

abbrev pub AllBounded : Timeval → Option Entry → Type 0
AllBounded now none = Unit
AllBounded now (some e) = IsBounded now e

pub later-IsBounded :
    (t u : Timeval) (e : Option Entry) → micros t ≤ micros u → AllBounded t e → AllBounded u e
later-IsBounded t u none l h = h
later-IsBounded t u (some e) l (n, b, d, z) = (n, omega arith, d, z)

clear-IsBounded : (now : Timeval) (e : Entry) → IsBounded now (clear e)
clear-IsBounded now e = (omega arith, omega arith, omega arith, λ h. (refl, refl, refl))

of_ms-IsNormal : (ms : ℕ) → IsNormal (of_ms ms)
of_ms-IsNormal ms = omega arith

fast-IsNormal : (e : Entry) (x : Exit) → IsNormal x.now → IsNormal (fast_failure e x).next_spawn
unfolding fast_failure
fast-IsNormal e x n =
    let d = (fast_failure e x).respawn_delay_ms in
    timeradd-IsNormal x.now (of_ms d) n (of_ms-IsNormal d)

fast-IsBounded :
    (e : Entry) (x : Exit) → IsNormal x.now → Fits e → IsBounded x.now (fast_failure e x)
fast-IsBounded e x n f =
    let (failures, up, delay, spawn) = fast_failure-Fast e x f in
    let most = delay_ms-le (e.consecutive_failures + 1) (gives_up e x) x.now x.pid in
    (fast-IsNormal e x n, omega arith, omega arith, λ h. absurd (omega arith))

exited-IsBounded :
    (e : Entry) (x : Exit)
    → IsNormal x.now
    → Fits e
    → IsBounded x.now e
    → AllBounded x.now (child_exited (some e) x)
unfolding child_exited
exited-IsBounded e x n f h = elim (Bool-cases x.can_spawn) [
  | inr stops ↦ rw stops h
  | inl c ↦ elim (Bool-cases (is_healthy x)) [
    | inl y ↦ rw (c, y) (clear-IsBounded x.now e)
    | inr fast ↦ rw (c, fast) (fast-IsBounded e x n f)
  ]
]

wait-IsBounded : (now : Timeval) (e : Entry) → IsBounded now e → AllBounded now (wait e now).entry
unfolding wait
wait-IsBounded now e h = elim (Bool-cases (not e.gate_armed || earlier e.next_spawn e.gate_due)) [
  | inl y ↦ rw y h
  | inr x ↦ rw x h
]

asks-IsBounded :
    (now : Timeval) (e : Option Entry) → AllBounded now e → AllBounded now (may_spawn e now).entry
unfolding may_spawn
asks-IsBounded now none h = h
asks-IsBounded now (some e) (n, b, d, z) = elim (Bool-cases (timerisset e.next_spawn)) [
  | inr unset ↦ rw unset (n, b, d, z)
  | inl is_set ↦ elim (Bool-cases (earlier now e.next_spawn)) [
    | inl early ↦ rw (is_set, early) (wait-IsBounded now e (n, b, d, z))
    | inr late ↦ rw (is_set, late) (omega arith, omega arith, d, λ h. ((z h).0, (z h).1, refl))
  ]
]

spawns-IsBounded :
    (now : Timeval) (e : Option Entry) (pid : ℕ) (started : Timeval)
    → AllBounded now e
    → AllBounded now (child_spawned e pid started).0
unfolding child_spawned
spawns-IsBounded now none pid started h = h
spawns-IsBounded now (some e) pid started (n, b, d, z) =
    elim (Bool-cases (e.consecutive_failures == 0)) [
      | inl y ↦ rw y (n, b, omega arith, λ h. ((z h).0, refl, (z h).2))
      | inr x ↦ rw x (n, b, omega arith, λ h. ((z h).0, refl, (z h).2))
    ]

survives-IsBounded :
    (now : Timeval) (e : Entry) (found : Option Timeval)
    → IsBounded now e
    → IsBounded now (survive_fire e found).1
unfolding survive_fire
survives-IsBounded now e none h = h
survives-IsBounded now e (some started) h = elim (Bool-cases (e.consecutive_failures == 0)) [
  | inl y ↦ rw y h
  | inr x ↦
      elim (Bool-cases (
        not (
          started.tv_sec == e.watch_started.tv_sec
          && started.tv_usec == e.watch_started.tv_usec))) [
            | inl other ↦ rw (x, other) h
            | inr same ↦ rw (x, same) (clear-IsBounded now (record e { survive_armed = false }))
          ]
]

pub Step-AllBounded :
    (now : Timeval) {e e' : Option Entry} {g g' : Option ℕ}
    → IsNormal now
    → Step now e g e' g'
    → AllBounded now e
    → AllBounded now e'
Step-AllBounded now n (Step.exits e x g c f) h =
    let b : AllBounded x.now (child_exited (some e) x) = exited-IsBounded e x (rw c n) f (rw c h) in
    rw⁻¹ c b
Step-AllBounded now n (Step.asks e g) h = asks-IsBounded now e h
Step-AllBounded now n (Step.spawns e pid started g) h = spawns-IsBounded now e pid started h
Step-AllBounded now n (Step.survives e found g) h = survives-IsBounded now e found h
Step-AllBounded now n (Step.opens e due l) h = h

Steps-AllBounded :
    {t u : Timeval} {e e' : Option Entry} {g g' : Option ℕ}
    → Steps t e g u e' g'
    → AllBounded t e
    → AllBounded u e'
Steps-AllBounded (Steps.stay t e g) h = h
Steps-AllBounded (Steps.then_steps {t} {t'} {u} {e} {e'} {e''} {g} {g'} {g''} n l p q) h =
    Steps-AllBounded q (Step-AllBounded t' n p (later-IsBounded t t' e l h))

pub fresh-IsBounded : (t : Timeval) → IsBounded t fresh
fresh-IsBounded t = (omega arith, omega arith, omega arith, λ h. (refl, refl, refl))

pub fresh-AllBounded :
    (t u : Timeval) (e : Option Entry) (g : Option ℕ)
    → Steps t (some fresh) none u e g
    → AllBounded u e
fresh-AllBounded t u e g p = Steps-AllBounded p (fresh-IsBounded t)
