-- ===== src/Supervisor/Policy/Pool.antt =====
-- A pool over time: the processes of its copies start, run the script and end, in any order.
use mathlib.Core.Path.{subst}
use php_fpm_ng.Base.{
  ℕ, ◌<◌, ◌≡◌, refl, sym, Bool, true, false, leb, some, inl, inr, ◌⊎◌, ◌==◌, Bool-cases, replicate,
  length-replicate,
}
use php_fpm_ng.Supervisor.State.{Shared, Config, Run, wants_retry, copies}
use php_fpm_ng.Supervisor.Policy.{
  done_total, store_terminal, reaches_max, maybe_finish, mark_done, succeed, fall, apply_policy,
  runs, parks, start_terminal, slot_done, child_start,
}
use php_fpm_ng.Supervisor.Policy.Copies.{
  IsSound, finish-IsSound, mark-IsSound, succeed-Same, fall-Same, start_terminal-Same, Same-IsSound,
  finishing-IsSound, torn-IsSound,
}

-- A process of the copy `slot` starts, or a run of it ends, or it is killed between two stores.
-- The scoreboard has a slot for each copy. `torn` is whether a kill may fall between the two stores
-- of giving up.
pub data Step (c : Config) (torn : Bool) : Shared → Shared → Type 0 where
  starts : (s : Shared) (slot : ℕ) → slot < copies c → Step c torn s (child_start c s (some slot)).1
  ends :
      (s : Shared) (slot : ℕ) (r : Run)
      → slot < copies c
      → Step c torn s (apply_policy c s r (some slot)).1
  -- Killed behind the store of its byte, before its scan.
  dies :
      (s : Shared) (slot : ℕ) (r : Run)
      → slot < copies c
      → wants_retry c r.exit_code ≡ false
      → Step c torn s (mark_done (some slot) (copies c) s)
  -- Killed behind the first store of the finish.
  dies_finishing :
      (s : Shared)
      → leb (copies c) (done_total s (copies c)) ≡ true
      → s.terminal ≡ false
      → Step c torn s (record s { terminal = true })
  -- Killed among the stores of the counters and the times, which may be anything.
  dies_counting :
      (s s' : Shared)
      → s'.one_shot_done_by_slot ≡ s.one_shot_done_by_slot
      → s'.one_shot_done_no_slot ≡ s.one_shot_done_no_slot
      → s'.terminal ≡ s.terminal
      → s'.gave_up ≡ s.gave_up
      → Step c torn s s'
  dies_giving_up :
      (s : Shared) (r : Run)
      → torn ≡ true
      → wants_retry c r.exit_code ≡ true
      → (r.exit_code == 0) ≡ false
      → reaches_max c s r ≡ true
      → Step c torn s (store_terminal c s r)

-- A run of the copy ends for good.
abbrev pub IsLast : Config → Run → Type 0
IsLast c r = wants_retry c r.exit_code ≡ false

pub data Steps (c : Config) (torn : Bool) : Shared → Shared → Type 0 where
  stay : (s : Shared) → Steps c torn s s
  then_steps : {s s' s'' : Shared} → Step c torn s s' → Steps c torn s' s'' → Steps c torn s s''

-- The three ways in which a process begins.
abbrev pub Beginning : Config → Shared → ℕ → Type 0
Beginning c s slot =
    ((s.terminal ≡ true) × (child_start c s (some slot) ≡ start_terminal c s))
    ⊎ (((slot_done c s (some slot) ≡ true)
          × (child_start c s (some slot) ≡ (parks, maybe_finish s (copies c))))
        ⊎ ((slot_done c s (some slot) ≡ false) × (child_start c s (some slot) ≡ (runs, s))))

pub child_start-Beginning : (c : Config) (s : Shared) (slot : ℕ) → Beginning c s slot
unfolding child_start
child_start-Beginning c s slot = elim (Bool-cases s.terminal) [
  | inl y ↦ inl (y, rw y refl)
  | inr x ↦ elim (Bool-cases (slot_done c s (some slot))) [
    | inl d ↦ inr (inl (d, rw (x, d) refl))
    | inr n ↦ inr (inr (n, rw (x, n) refl))
  ]
]

start-IsSound :
    (c : Config) (torn : Bool) (s : Shared) (slot : ℕ)
    → IsSound c torn s
    → IsSound c torn (child_start c s (some slot)).1
start-IsSound c torn s slot h = elim (child_start-Beginning c s slot) [
  | inl (y, e) ↦ rw e (Same-IsSound c torn s (start_terminal c s).1 (start_terminal-Same c s) h)
  | inr (inl (d, e)) ↦ rw e (finish-IsSound c torn s h)
  | inr (inr (n, e)) ↦ rw e h
]

pub end-IsSound :
    (c : Config) (torn : Bool) (s : Shared) (r : Run) (slot : ℕ)
    → slot < copies c
    → IsSound c torn s
    → IsSound c torn (apply_policy c s r (some slot)).1
unfolding apply_policy
end-IsSound c torn s r slot l h = elim (Bool-cases (wants_retry c r.exit_code)) [
  | inr x ↦
      rw x (
        finish-IsSound c torn (mark_done (some slot) (copies c) s) (mark-IsSound c torn s slot l h))
  | inl y ↦ elim (Bool-cases (r.exit_code == 0)) [
    | inl z ↦ rw (y, z) (Same-IsSound c torn s (succeed s r) (succeed-Same s r) h)
    | inr n ↦ rw (y, n) (Same-IsSound c torn s (fall c s r) (fall-Same c s r) h)
  ]
]

pub Step-IsSound :
    (c : Config) (torn : Bool) {s s' : Shared}
    → Step c torn s s'
    → IsSound c torn s
    → IsSound c torn s'
Step-IsSound c torn (Step.starts s slot l) h = start-IsSound c torn s slot h
Step-IsSound c torn (Step.ends s slot r l) h = end-IsSound c torn s r slot l h
Step-IsSound c torn (Step.dies s slot r l e) h = mark-IsSound c torn s slot l h
Step-IsSound c torn (Step.dies_finishing s d n) h = finishing-IsSound c torn s d h
Step-IsSound c torn (Step.dies_counting s s' p q t g) h =
    Same-IsSound c torn s s' (p, q, inl (t, g)) h
Step-IsSound c torn (Step.dies_giving_up s r e w x g) h =
    subst (λ b. IsSound c b (store_terminal c s r)) (sym e)
      (torn-IsSound c s r (subst (λ b. IsSound c b s) e h))

Steps-IsSound :
    (c : Config) (torn : Bool) {s s' : Shared}
    → Steps c torn s s'
    → IsSound c torn s
    → IsSound c torn s'
Steps-IsSound c torn (stay s) h = h
Steps-IsSound c torn (then_steps p q) h = Steps-IsSound c torn q (Step-IsSound c torn p h)

-- The shared memory is zero-filled, with a byte for each copy.
abbrev pub initial : Config → Shared
initial c = record {
  failures = 0;
  next_allowed_start = 0;
  terminal = false;
  gave_up = false;
  fatal_signaled = false;
  one_shot_done_no_slot = 0;
  last_deterministic_delay = 0;
  fast_runs = 0;
  fast_started_ms = 0;
  fast_warned = false;
  one_shot_done_by_slot = replicate (copies c) false;
}

initial-IsSound : (c : Config) (torn : Bool) → IsSound c torn (initial c)
initial-IsSound c torn = (length-replicate (copies c) false, refl, (λ e. cc), λ e. cc)

-- However the processes of a pool start, end and are killed between two stores to the shared
-- memory, a pool that gave up is terminal; and unless a process is killed between the two stores
-- with which a pool gives up, the pool is terminal without having given up only when every copy has
-- had its last run.
pub pool-IsSound :
    (c : Config) (torn : Bool) (s : Shared) → Steps c torn (initial c) s → IsSound c torn s
pool-IsSound c torn s p = Steps-IsSound c torn p (initial-IsSound c torn)
