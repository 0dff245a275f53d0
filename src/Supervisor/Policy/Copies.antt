-- ===== src/Supervisor/Policy/Copies.antt =====
-- What the shared state says of the copies of a pool, and that each operation keeps it sound.
use php_fpm_ng.Base.{
  ℕ, zero, suc, ◌+◌, ◌≤◌, ◌<◌, ◌≡◌, refl, ◌∙◌, ap, Bool, true, false, ◌⊎◌, some, inl, inr, arith,
  ltb, leb, not, ◌&&◌, Bool-cases, get_or, set, length, List, get_or-set_self, get_or-set_ne,
  length-set, sym,
}
use native.Mathlib.Decide.{ℕ_discrete}
use php_fpm_ng.Supervisor.State.{Shared, Config, Run, copies}
use php_fpm_ng.Supervisor.Scan.{count_from}
use php_fpm_ng.Supervisor.Policy.{
  done_total, maybe_finish, mark_done, count_fast, succeed, reaches_max, fall, fast_run_ms,
  start_terminal, store_terminal,
}

-- All copies are done, as far as the bytes say.
abbrev pub AllDone : Config → Shared → Type 0
AllDone c s = (i : ℕ) → i < copies c → get_or s.one_shot_done_by_slot i false ≡ true

-- FINISHED is terminal without having given up: then each copy is done, if `torn` is false.
abbrev pub IsSound : Config → Bool → Shared → Type 0
IsSound c torn s =
    (length s.one_shot_done_by_slot ≡ copies c)
    × (s.one_shot_done_no_slot ≡ 0)
    × (s.gave_up ≡ true → s.terminal ≡ true)
    × (s.terminal ≡ true → s.gave_up ≡ false → torn ≡ false → AllDone c s)

count_from-le_size : (b : List Bool) (n i : ℕ) → count_from b n i ≤ n
unfolding count_from
count_from-le_size b zero i = omega arith
count_from-le_size b (suc n) i = elim (Bool-cases (get_or b i false)) [
  | inl y ↦ rw y (omega (arith, count_from-le_size b n (i + 1)))
  | inr x ↦ rw x (omega (arith, count_from-le_size b n (i + 1)))
]

-- A count as large as the number of bytes is a count of set bytes only.
count_from-full :
    (b : List Bool) (n i : ℕ)
    → n ≤ count_from b n i
    → (k : ℕ) → k < n
    → get_or b (i + k) false ≡ true
unfolding count_from
count_from-full b zero i h k u = absurd (omega arith)
count_from-full b (suc n) i h k u = elim (Bool-cases (get_or b i false)) [
  | inr x ↦ absurd (ground (arith, x, count_from-le_size b n (i + 1)))
  | inl y ↦ full_at b n i y (count_from-full b n (i + 1) (ground (arith, y))) k u
]
  where
    full_at :
        (b : List Bool) (n i : ℕ)
        → get_or b i false ≡ true
        → ((k : ℕ) → k < n → get_or b (i + 1 + k) false ≡ true)
        → (k : ℕ) → k < suc n
        → get_or b (i + k) false ≡ true
    full_at b n i y f zero u = let e : i + 0 ≡ i = omega arith in rw e y
    full_at b n i y f (suc k) u =
        let e : i + suc k ≡ i + 1 + k = omega arith in rw e (f k (omega arith))

pub count_from-all :
    (b : List Bool) (n i : ℕ)
    → ((k : ℕ) → k < n → get_or b (i + k) false ≡ true)
    → count_from b n i ≡ n
unfolding count_from
count_from-all b zero i h = refl
count_from-all b (suc n) i h =
    let e : i + 0 ≡ i = omega arith in
    let y : get_or b i false ≡ true = ap (λ j. get_or b j false) (sym e) ∙ h 0 (omega arith) in
    let r : count_from b n (i + 1) ≡ n =
      count_from-all b n (i + 1)
        (λ k u. let p : i + 1 + k ≡ i + suc k = omega arith in rw p (h (suc k) (omega arith))) in
    rw (y, r) (omega arith)

pub count-AllDone :
    (c : Config) (s : Shared)
    → copies c ≤ count_from s.one_shot_done_by_slot (copies c) 0
    → AllDone c s
count-AllDone c s full i u =
    let e : i ≡ 0 + i = omega arith in
    ap (λ j. get_or s.one_shot_done_by_slot j false) e
    ∙ count_from-full s.one_shot_done_by_slot (copies c) 0 full i u

pub finish-IsSound :
    (c : Config) (torn : Bool) (s : Shared)
    → IsSound c torn s
    → IsSound c torn (maybe_finish s (copies c))
unfolding maybe_finish
finish-IsSound c torn s (a, b, g, t) =
    elim (Bool-cases (leb (copies c) (done_total s (copies c)) && not s.terminal)) [
      | inr x ↦ rw x (a, b, g, t)
      | inl y ↦
          let full : copies c ≤ count_from s.one_shot_done_by_slot (copies c) 0 = ground arith in
          rw y (a, b, (λ e. refl), λ e n w. count-AllDone c s full)
    ]

-- Storing a byte keeps those that are set.
pub set-keeps :
    (b : List Bool) (slot i : ℕ)
    → slot < length b
    → get_or b i false ≡ true
    → get_or (set b slot true) i false ≡ true
set-keeps b slot i l h = elim (ℕ_discrete slot i) [
  | yes e ↦ rw (← e) (get_or-set_self b slot true false l)
  | no n ↦ get_or-set_ne b slot i true false n ∙ h
]

pub mark-IsSound :
    (c : Config) (torn : Bool) (s : Shared) (slot : ℕ)
    → slot < copies c
    → IsSound c torn s
    → IsSound c torn (mark_done (some slot) (copies c) s)
unfolding mark_done
mark-IsSound c torn s slot l (a, b, g, t) =
    let y : ltb slot (copies c) ≡ true = ground arith in
    rw y (
      length-set s.one_shot_done_by_slot slot true ∙ a,
      b,
      g,
      λ e n w i u. set-keeps s.one_shot_done_by_slot slot i (rw a l) (t e n w i u),
    )

-- The fields that a state and a later one share while no copy ends for good.
abbrev pub Same : Shared → Shared → Type 0
Same s s' =
    (s'.one_shot_done_by_slot ≡ s.one_shot_done_by_slot)
    × (s'.one_shot_done_no_slot ≡ s.one_shot_done_no_slot)
    × (((s'.terminal ≡ s.terminal) × (s'.gave_up ≡ s.gave_up))
        ⊎ ((s'.terminal ≡ true) × (s'.gave_up ≡ true)))

pub succeed-Same : (s : Shared) (r : Run) → Same s (succeed s r)
unfolding succeed count_fast
succeed-Same s r = elim (Bool-cases (ltb r.duration_ms fast_run_ms)) [
  | inl y ↦ rw y (refl, refl, inl (refl, refl))
  | inr x ↦ rw x (refl, refl, inl (refl, refl))
]

pub fall-Same : (c : Config) (s : Shared) (r : Run) → Same s (fall c s r)
unfolding fall
fall-Same c s r = elim (Bool-cases (reaches_max c s r)) [
  | inl y ↦ rw y (refl, refl, inr (refl, refl))
  | inr x ↦ rw x (refl, refl, inl (refl, refl))
]

pub start_terminal-Same : (c : Config) (s : Shared) → Same s (start_terminal c s).1
unfolding start_terminal
start_terminal-Same c s = elim (Bool-cases (s.gave_up && c.fatal && not s.fatal_signaled)) [
  | inl y ↦ rw y (refl, refl, inl (refl, refl))
  | inr x ↦ rw x (refl, refl, inl (refl, refl))
]

pub Same-IsSound :
    (c : Config) (torn : Bool) (s s' : Shared) → Same s s' → IsSound c torn s → IsSound c torn s'
Same-IsSound c torn s s' (p, q, inl (r, u)) (a, b, g, t) = (
  ap length p ∙ a,
  q ∙ b,
  (λ e. r ∙ g (sym u ∙ e)),
  λ e n w i l. ap (λ z. get_or z i false) p ∙ t (sym r ∙ e) (sym u ∙ n) w i l,
)
Same-IsSound c torn s s' (p, q, inr (r, u)) (a, b, g, t) =
    (ap length p ∙ a, q ∙ b, (λ e. r), λ e n w i l. absurd (cc))

-- Killed between the stores of the finish: the bytes say that each copy is done.
pub finishing-IsSound :
    (c : Config) (torn : Bool) (s : Shared)
    → leb (copies c) (done_total s (copies c)) ≡ true
    → IsSound c torn s
    → IsSound c torn (record s { terminal = true })
finishing-IsSound c torn s d (a, b, g, t) =
    let full : copies c ≤ count_from s.one_shot_done_by_slot (copies c) 0 = ground arith in
    (a, b, (λ e. refl), λ e n w. count-AllDone c s full)

-- Killed between the two stores of giving up.
pub torn-IsSound :
    (c : Config) (s : Shared) (r : Run) → IsSound c true s → IsSound c true (store_terminal c s r)
torn-IsSound c s r (a, b, g, t) = (a, b, (λ e. refl), λ e n w. absurd (cc))
