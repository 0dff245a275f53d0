-- ===== src/Supervisor/Tests.antt =====
-- The supervisor theorems at concrete inputs, and runs of the policy.
use php_fpm_ng.Base.{
  ℕ, zero, suc, ◌+◌, ◌≡◌, ◌≢◌, refl, true, false, [], ◌∷◌, some, arith, inr, codes, get_or,
}
use php_fpm_ng.Supervisor.State.{Shared, Config, Run, wants_retry}
use php_fpm_ng.Supervisor.Scan.{World, done_count, IsSnapshot, done_count-IsSnapshot}
use php_fpm_ng.Supervisor.Policy.{
  apply_policy, child_start, runs, parks, parks_fatal, store_terminal,
}
use php_fpm_ng.Supervisor.Policy.Copies.{AllDone, IsSound}
use php_fpm_ng.Supervisor.Policy.Pool.{Step, Steps, stay, then_steps, initial, pool-IsSound}
use php_fpm_ng.Supervisor.Policy.Once.{last_run-once, child_start-recovers}

abbrev two_copies : Config
two_copies = record {
  restart = codes "never";
  processes = 2;
  restart_max = 3;
  restart_delay = 2;
  restart_delay_max = 60;
  fatal = true;
}

abbrev always : Config
always = record two_copies { restart = codes "always" }

abbrev failing : Run
failing = record { exit_code = 255; duration = 1; duration_ms = 900; now = 1000; now_ms = 1000000 }

abbrev good : Run
good = record failing { exit_code = 0 }

abbrev failed_once : Shared
failed_once = (apply_policy always (initial always) failing (some 0)).1

policy_runs :
    ((apply_policy always (initial always) failing (some 0)).1.next_allowed_start ≡ 1002)
    × ((apply_policy always failed_once failing (some 0)).1.next_allowed_start ≡ 1004)
    × ((apply_policy two_copies (initial two_copies) good (some 1)).0 ≡ true)
    × ((apply_policy two_copies (initial two_copies) good (some 1)).1.one_shot_done_by_slot
        ≡ false ∷ true ∷ [])
unfolding apply_policy
policy_runs = (refl, refl, refl, refl)

-- The third failure in a row gives up. Killed between the two stores of that, the pool looks
-- finished, with no copy done, and `supervisor.fatal` does not come to the master.
abbrev killed_giving_up : Shared
killed_giving_up = store_terminal always (record failed_once { failures = 2 }) failing

torn_runs :
    (killed_giving_up.terminal ≡ true)
    × (killed_giving_up.gave_up ≡ false)
    × (get_or killed_giving_up.one_shot_done_by_slot 0 false ≡ false)
    × ((child_start always killed_giving_up (some 0)).0 ≡ parks)
    × ((child_start always (record killed_giving_up { gave_up = true }) (some 0)).0 ≡ parks_fatal)
unfolding apply_policy child_start
torn_runs = (refl, refl, refl, refl, refl)

abbrev one_done : Shared
one_done = (apply_policy two_copies (initial two_copies) good (some 0)).1

abbrev both_done : Shared
both_done = (apply_policy two_copies one_done good (some 1)).1

abbrev both_steps : Steps two_copies false (initial two_copies) both_done
both_steps =
    then_steps (Step.ends (initial two_copies) 0 good (omega arith))
      (then_steps (Step.ends one_done 1 good (omega arith)) (stay both_done))

pool-IsSound_example : IsSound two_copies false both_done
pool-IsSound_example = pool-IsSound two_copies false both_done both_steps

last_run-once_example : (child_start two_copies both_done (some 0)).0 ≢ runs
unfolding wants_retry
last_run-once_example =
    last_run-once two_copies false (initial two_copies) both_done 0 (omega arith)
      (pool-IsSound two_copies false (initial two_copies) (stay (initial two_copies)))
      (inr (good, refl, then_steps (Step.ends one_done 1 good (omega arith)) (stay both_done)))

-- Both processes were killed before their scans.
abbrev all_killed : Shared
all_killed = record (initial two_copies) { one_shot_done_by_slot = true ∷ true ∷ [] }

all_killed-AllDone : AllDone two_copies all_killed
all_killed-AllDone zero u = refl
all_killed-AllDone (suc zero) u = refl
all_killed-AllDone (suc (suc i)) u = absurd (omega arith)

child_start-recovers_example : (child_start two_copies all_killed (some 0)).1.terminal ≡ true
child_start-recovers_example =
    child_start-recovers two_copies all_killed 0 (omega arith) all_killed-AllDone

-- The second byte is set while the scan runs.
abbrev late : World
late zero = true ∷ false ∷ []
late (suc zero) = true ∷ false ∷ []
late (suc (suc t)) = true ∷ true ∷ []

late-grows : (t i : ℕ) → get_or (late t) i false ≡ true → get_or (late (t + 1)) i false ≡ true
late-grows zero i h = h
late-grows (suc zero) zero h = refl
late-grows (suc zero) (suc zero) h = refl
late-grows (suc zero) (suc (suc i)) h = h
late-grows (suc (suc t)) i h = let e : suc (suc t) + 1 ≡ suc (suc (t + 1)) = omega arith in rw e h

done_count-IsSnapshot_example : (d : ℕ) × (done_count late 2 0 0 ≡ some d) × IsSnapshot late 2 0 0 d
done_count-IsSnapshot_example = done_count-IsSnapshot late 2 0 0 late-grows
