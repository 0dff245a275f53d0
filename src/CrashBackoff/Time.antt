-- ===== src/CrashBackoff/Time.antt =====
-- `struct timeval` and the macros of sys/time.h, on times that are not negative.
use php_fpm_ng.Base.{
  ℕ, ◌+◌, ◌-◌, ◌*◌, ◌≤◌, ◌<◌, ◌≡◌, Bool, true, false, ◌↔◌, arith, ltb, leb, ◌==◌, if◌then◌else◌,
}

pub record Timeval : Type 0 where
  pub tv_sec : ℕ
  pub tv_usec : ℕ

abbrev pub million : ℕ
million = 1000000

abbrev pub cleared : Timeval
cleared = record { tv_sec = 0; tv_usec = 0 }

unfoldable pub timerisset : Timeval → Bool
timerisset t = if t.tv_sec == 0 then (if t.tv_usec == 0 then false else true) else true

-- `timercmp(a, b, <)`.
unfoldable pub earlier : Timeval → Timeval → Bool
earlier a b = if a.tv_sec == b.tv_sec then ltb a.tv_usec b.tv_usec else ltb a.tv_sec b.tv_sec

unfoldable pub timeradd : Timeval → Timeval → Timeval
timeradd a b =
    if leb million (a.tv_usec + b.tv_usec)
    then record { tv_sec = a.tv_sec + b.tv_sec + 1; tv_usec = a.tv_usec + b.tv_usec - million }
    else record { tv_sec = a.tv_sec + b.tv_sec; tv_usec = a.tv_usec + b.tv_usec }

-- For `a` no earlier than `b`.
unfoldable pub timersub : Timeval → Timeval → Timeval
timersub a b =
    if ltb a.tv_usec b.tv_usec
    then record { tv_sec = a.tv_sec - b.tv_sec - 1; tv_usec = a.tv_usec + million - b.tv_usec }
    else record { tv_sec = a.tv_sec - b.tv_sec; tv_usec = a.tv_usec - b.tv_usec }

-- Microseconds.
abbrev pub micros : Timeval → ℕ
micros t = t.tv_sec * million + t.tv_usec

abbrev pub IsNormal : Timeval → Type 0
IsNormal t = t.tv_usec < million

pub timeradd-micros : (a b : Timeval) → micros (timeradd a b) ≡ micros a + micros b
unfolding timeradd
timeradd-micros a b = ground arith

pub timeradd-IsNormal : (a b : Timeval) → IsNormal a → IsNormal b → IsNormal (timeradd a b)
unfolding timeradd
timeradd-IsNormal a b h k = ground arith

pub earlier-lt :
    (a b : Timeval) → IsNormal a → IsNormal b → (earlier a b ≡ true) ↔ (micros a < micros b)
unfolding earlier
earlier-lt a b h k = ground arith

pub timersub-micros :
    (a b : Timeval)
    → IsNormal a
    → IsNormal b
    → micros b ≤ micros a
    → micros (timersub a b) ≡ micros a - micros b
unfolding timersub
timersub-micros a b h k l = ground arith

pub timersub-IsNormal : (a b : Timeval) → IsNormal a → IsNormal b → IsNormal (timersub a b)
unfolding timersub
timersub-IsNormal a b h k = ground arith
