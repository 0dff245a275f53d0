-- ===== src/Cron/Next/First.antt =====
-- The search finds the first minute after the given time that the schedule matches.
use native.Mathlib.Decide.{ℕ_discrete}
use php_fpm_ng.Base.{
  ℕ, zero, suc, ◌+◌, ◌*◌, ◌%◌, ◌≤◌, ◌<◌, true, false, Option, none, some, [], ◌∷◌, ◌≡◌, refl, inl,
  inr, arith, Bytes, ltb, Bool-cases,
}
use php_fpm_ng.Cron.Schedule.{Schedule}
use php_fpm_ng.Cron.Next.{
  Tm, matches, scan, horizon, horizon_minutes, Env, tz_push, tz_pop, first_minute, schedule_next,
}

-- No full minute from `low` up to `high` matches.
abbrev pub NoneBetween : (ℕ → Tm) → Schedule → ℕ → ℕ → Type 0
NoneBetween to_tm s low high =
    (u : ℕ) → low ≤ u → u < high → u % 60 ≡ 0 → matches s (to_tm u) ≡ false

-- The result is the first full minute from `low` on that matches, or none up to `high` does.
abbrev pub IsFirst : (ℕ → Tm) → Schedule → ℕ → ℕ → Option ℕ → Type 0
IsFirst to_tm s low high none = NoneBetween to_tm s low high
IsFirst to_tm s low high (some t) =
    (low ≤ t) × (t < high) × (t % 60 ≡ 0) × (matches s (to_tm t) ≡ true) × NoneBetween to_tm s low t

none-grows :
    (to_tm : ℕ → Tm) (s : Schedule) (t high : ℕ)
    → t % 60 ≡ 0
    → matches s (to_tm t) ≡ false
    → NoneBetween to_tm s (t + 60) high
    → NoneBetween to_tm s t high
none-grows to_tm s t high z m h u l k e = elim (ℕ_discrete t u) [
  | yes p ↦ rw (← p) m
  | no n ↦ h u (omega arith) k e
]

IsFirst-grows :
    (to_tm : ℕ → Tm) (s : Schedule) (t high : ℕ) (r : Option ℕ)
    → t % 60 ≡ 0
    → matches s (to_tm t) ≡ false
    → IsFirst to_tm s (t + 60) high r
    → IsFirst to_tm s t high r
IsFirst-grows to_tm s t high none z m h = none-grows to_tm s t high z m h
IsFirst-grows to_tm s t high (some r) z m (a, b, c, d, h) =
    (omega arith, b, c, d, none-grows to_tm s t r z m h)

-- With fuel for every minute up to the limit, and one round more to see that it is reached.
scan-IsFirst :
    (f : ℕ) (to_tm : ℕ → Tm) (s : Schedule) (t limit : ℕ)
    → t % 60 ≡ 0
    → limit < t + 60 * f
    → IsFirst to_tm s t limit (scan f to_tm s t limit)
unfolding scan
scan-IsFirst zero to_tm s t limit z h = λ u a b e. absurd (omega arith)
scan-IsFirst (suc f) to_tm s t limit z h = elim (Bool-cases (ltb t limit)) [
  | inr over ↦ rw over (λ u a b e. absurd (ground arith))
  | inl more ↦ rw more (elim (Bool-cases (matches s (to_tm t))) [
    | inl m ↦ rw m (omega arith, ground arith, z, m, (λ u a b e. absurd (omega arith)))
    | inr m ↦ rw m (
        IsFirst-grows to_tm s t limit (scan f to_tm s (t + 60) limit) z m
          (scan-IsFirst f to_tm s (t + 60) limit (omega arith) (omega arith)))
  ])
]

-- The zone that the search converts instants in.
abbrev pub zone : (ℕ → Tm) → (Env → ℕ → Tm) → Option Bytes → ℕ → Tm
zone gmtime localtime none = gmtime
zone gmtime localtime (some []) = gmtime
zone gmtime localtime (some (c ∷ tz)) = localtime (some (c ∷ tz))

module _ (gmtime : ℕ → Tm) (localtime : Env → ℕ → Tm) where
  scan_all :
      (to_tm : ℕ → Tm) (s : Schedule) (after : ℕ)
      → IsFirst to_tm s
          (first_minute after)
          (first_minute after + horizon)
          (scan (suc horizon_minutes) to_tm s (first_minute after) (first_minute after + horizon))
  scan_all to_tm s after =
      scan-IsFirst (suc horizon_minutes) to_tm s (first_minute after) (first_minute after + horizon)
        (omega arith) (omega arith)

  tz_pop-tz_push : (tz : Bytes) (env : Env) → tz_pop (tz_push tz env).1 (tz_push tz env).0 ≡ env
  unfolding tz_pop tz_push
  tz_pop-tz_push tz none = refl
  tz_pop-tz_push tz (some v) = refl

  -- The result is the first full minute strictly after `after` that the schedule matches in its
  -- zone, or there is none in the horizon, and TZ has its old value again.
  pub schedule_next-IsFirst :
      (s : Schedule) (after : ℕ) (tz : Option Bytes) (env : Env)
      → IsFirst
          (zone gmtime localtime tz)
          s
          (first_minute after)
          (first_minute after + horizon)
          (schedule_next gmtime localtime s after tz env).0
        × ((schedule_next gmtime localtime s after tz env).1 ≡ env)
        × (after < first_minute after)
        × (first_minute after ≤ after + 60)
  unfolding schedule_next
  schedule_next-IsFirst s after none env = (scan_all gmtime s after, refl, omega arith, omega arith)
  schedule_next-IsFirst s after (some []) env =
      (scan_all gmtime s after, refl, omega arith, omega arith)
  schedule_next-IsFirst s after (some (c ∷ tz)) env = (
    scan_all (localtime (some (c ∷ tz))) s after,
    tz_pop-tz_push (c ∷ tz) env,
    omega arith,
    omega arith,
  )
