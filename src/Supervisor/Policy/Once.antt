-- ===== src/Supervisor/Policy/Once.antt =====
-- A copy whose one run is over stays over, and the pool is finished by whoever looks next.
use php_fpm_ng.Base.{
  ℕ, ◌+◌, ◌<◌, ◌≡◌, ◌≢◌, refl, ◌∙◌, Bool, true, false, some, inl, inr, arith, ◌⊎◌, ltb, leb, ◌==◌,
  not, ◌&&◌, Bool-cases, get_or, length, get_or-set_self, length-set,
}
use php_fpm_ng.Supervisor.State.{Shared, Config, Run, wants_retry, copies}
use php_fpm_ng.Supervisor.Scan.{count_from}
use php_fpm_ng.Supervisor.Policy.{
  done_total, maybe_finish, mark_done, succeed, fall, apply_policy, runs, start_terminal, slot_done,
  child_start,
}
use php_fpm_ng.Supervisor.Policy.Pool.{
  Step, Steps, stay, then_steps, child_start-Beginning, end-IsSound, Step-IsSound,
}
use php_fpm_ng.Supervisor.Policy.Copies.{
  AllDone, IsSound, count_from-all, set-keeps, mark-IsSound, Same, succeed-Same, fall-Same,
  start_terminal-Same,
}

-- The byte of a copy is set, and there is one.
abbrev IsOver : Config → Shared → ℕ → Type 0
IsOver c s slot =
    (slot < length s.one_shot_done_by_slot) × (get_or s.one_shot_done_by_slot slot false ≡ true)

Same-IsOver : (c : Config) (s s' : Shared) (i : ℕ) → Same s s' → IsOver c s i → IsOver c s' i
Same-IsOver c s s' i (p, q, o) (l, h) = rw p (l, h)

finish-Same :
    (s : Shared) (n : ℕ) → (maybe_finish s n).one_shot_done_by_slot ≡ s.one_shot_done_by_slot
unfolding maybe_finish
finish-Same s n = elim (Bool-cases (leb n (done_total s n) && not s.terminal)) [
  | inl y ↦ rw y refl
  | inr x ↦ rw x refl
]

mark-IsOver :
    (c : Config) (s : Shared) (slot i : ℕ)
    → slot < copies c
    → length s.one_shot_done_by_slot ≡ copies c
    → IsOver c s i
    → IsOver c (mark_done (some slot) (copies c) s) i
unfolding mark_done
mark-IsOver c s slot i l a (b, h) =
    let y : ltb slot (copies c) ≡ true = ground arith in
    rw y (
      rw (length-set s.one_shot_done_by_slot slot true) b,
      set-keeps s.one_shot_done_by_slot slot i (rw a l) h,
    )

mark-IsOver_self :
    (c : Config) (s : Shared) (slot : ℕ)
    → slot < copies c
    → length s.one_shot_done_by_slot ≡ copies c
    → IsOver c (mark_done (some slot) (copies c) s) slot
unfolding mark_done
mark-IsOver_self c s slot l a =
    let y : ltb slot (copies c) ≡ true = ground arith in
    rw y (
      rw (length-set s.one_shot_done_by_slot slot true, a) l,
      get_or-set_self s.one_shot_done_by_slot slot true false (rw a l),
    )

finish-IsOver :
    (c : Config) (s : Shared) (i : ℕ) → IsOver c s i → IsOver c (maybe_finish s (copies c)) i
finish-IsOver c s i h = rw (finish-Same s (copies c)) h

start-IsOver :
    (c : Config) (s : Shared) (slot i : ℕ)
    → IsOver c s i
    → IsOver c (child_start c s (some slot)).1 i
start-IsOver c s slot i h = elim (child_start-Beginning c s slot) [
  | inl (y, e) ↦ rw e (Same-IsOver c s (start_terminal c s).1 i (start_terminal-Same c s) h)
  | inr (inl (d, e)) ↦ rw e (finish-IsOver c s i h)
  | inr (inr (n, e)) ↦ rw e h
]

end-IsOver :
    (c : Config) (s : Shared) (r : Run) (slot i : ℕ)
    → slot < copies c
    → length s.one_shot_done_by_slot ≡ copies c
    → IsOver c s i
    → IsOver c (apply_policy c s r (some slot)).1 i
unfolding apply_policy
end-IsOver c s r slot i l a h = elim (Bool-cases (wants_retry c r.exit_code)) [
  | inr x ↦
      rw x (finish-IsOver c (mark_done (some slot) (copies c) s) i (mark-IsOver c s slot i l a h))
  | inl y ↦ elim (Bool-cases (r.exit_code == 0)) [
    | inl z ↦ rw (y, z) (Same-IsOver c s (succeed s r) i (succeed-Same s r) h)
    | inr n ↦ rw (y, n) (Same-IsOver c s (fall c s r) i (fall-Same c s r) h)
  ]
]

Step-IsOver :
    (c : Config) (torn : Bool) {s s' : Shared} (i : ℕ)
    → Step c torn s s'
    → IsSound c torn s
    → IsOver c s i
    → IsOver c s' i
Step-IsOver c torn i (Step.starts s slot l) w h = start-IsOver c s slot i h
Step-IsOver c torn i (Step.ends s slot r l) w h = end-IsOver c s r slot i l w.0 h
Step-IsOver c torn i (Step.dies s slot r l e) w h = mark-IsOver c s slot i l w.0 h
Step-IsOver c torn i (Step.dies_finishing s d n) w h = h
Step-IsOver c torn i (Step.dies_counting s s' p q t g) w h =
    Same-IsOver c s s' i (p, q, inl (t, g)) h
Step-IsOver c torn i (Step.dies_giving_up s r e p x g) w h = h

Steps-IsOver :
    (c : Config) (torn : Bool) {s s' : Shared} (i : ℕ)
    → Steps c torn s s'
    → IsSound c torn s
    → IsOver c s i
    → IsOver c s' i
Steps-IsOver c torn i (stay s) w h = h
Steps-IsOver c torn i (then_steps p q) w h =
    Steps-IsOver c torn i q (Step-IsSound c torn p w) (Step-IsOver c torn i p w h)

start_terminal-parks : (c : Config) (s : Shared) → (start_terminal c s).0 ≢ runs
unfolding start_terminal
start_terminal-parks c s = elim (Bool-cases (s.gave_up && c.fatal && not s.fatal_signaled)) [
  | inl z ↦ rw z (λ e. cc)
  | inr n ↦ rw n (λ e. cc)
]

over-slot_done :
    (c : Config) (s : Shared) (i : ℕ)
    → i < copies c
    → get_or s.one_shot_done_by_slot i false ≡ true
    → slot_done c s (some i) ≡ true
unfolding slot_done
over-slot_done c s i l h = let d : ltb i (copies c) ≡ true = ground arith in rw (d, h) refl

over-parks :
    (c : Config) (s : Shared) (i : ℕ)
    → i < copies c
    → IsOver c s i
    → (child_start c s (some i)).0 ≢ runs
over-parks c s i l (b, h) = elim (child_start-Beginning c s i) [
  | inl (y, e) ↦ rw e (start_terminal-parks c s)
  | inr (inl (d, e)) ↦ rw e (λ r. cc)
  | inr (inr (n, e)) ↦ absurd (cc (n, over-slot_done c s i l h))
]

end-last :
    (c : Config) (s : Shared) (r : Run) (slot : ℕ)
    → wants_retry c r.exit_code ≡ false
    → (apply_policy c s r (some slot)).1
      ≡ maybe_finish (mark_done (some slot) (copies c) s) (copies c)
unfolding apply_policy
end-last c s r slot e = rw e refl

-- A copy whose last run is over never runs the script again, whatever the pool does from then on,
-- whether its process stored that by the policy or was killed between the store and the scan.
pub last_run-once :
    (c : Config) (torn : Bool) (s s' : Shared) (slot : ℕ)
    → slot < copies c
    → IsSound c torn s
    → Steps c torn (mark_done (some slot) (copies c) s) s'
      ⊎ ((r : Run) × (wants_retry c r.exit_code ≡ false)
          × Steps c torn (apply_policy c s r (some slot)).1 s')
    → (child_start c s' (some slot)).0 ≢ runs
last_run-once c torn s s' slot l w (inl p) =
    over-parks c s' slot l (
      Steps-IsOver c torn slot p (mark-IsSound c torn s slot l w) (mark-IsOver_self c s slot l w.0))
last_run-once c torn s s' slot l w (inr (r, e, p)) = over-parks c s' slot l (
    Steps-IsOver c torn slot p (end-IsSound c torn s r slot l w) (
      rw (end-last c s r slot e) (
        finish-IsOver c (mark_done (some slot) (copies c) s) slot
          (mark-IsOver_self c s slot l w.0))))

parks-terminal :
    (c : Config) (s : Shared) → s.terminal ≡ true → (start_terminal c s).1.terminal ≡ true
parks-terminal c s y =
    let (p, q, o) = start_terminal-Same c s in elim o [ inl (r, u) ↦ r ∙ y | inr (r, u) ↦ r ]

finish-terminal :
    (c : Config) (s : Shared)
    → count_from s.one_shot_done_by_slot (copies c) 0 ≡ copies c
    → (maybe_finish s (copies c)).terminal ≡ true
unfolding maybe_finish
finish-terminal c s e = elim (Bool-cases s.terminal) [
  | inl y ↦ elim (Bool-cases (leb (copies c) (done_total s (copies c)) && not s.terminal)) [
    | inl z ↦ rw z refl
    | inr n ↦ rw n y
  ]
  | inr x ↦
      let d : (leb (copies c) (done_total s (copies c)) && not s.terminal) ≡ true = ground arith in
      rw d refl
]

-- A pool all of whose copies are done is terminal as soon as the process of any of them starts
-- again, also when the last of them was killed before its scan.
pub child_start-recovers :
    (c : Config) (s : Shared) (slot : ℕ)
    → slot < copies c
    → AllDone c s
    → (child_start c s (some slot)).1.terminal ≡ true
child_start-recovers c s slot l a =
    let full : count_from s.one_shot_done_by_slot (copies c) 0 ≡ copies c =
      count_from-all s.one_shot_done_by_slot (copies c) 0
        (λ k u. let e : 0 + k ≡ k = omega arith in rw e (a k u)) in
    elim (child_start-Beginning c s slot) [
      | inl (y, e) ↦ rw e (parks-terminal c s y)
      | inr (inl (d, e)) ↦ rw e (finish-terminal c s full)
      | inr (inr (n, e)) ↦ absurd (cc (n, over-slot_done c s slot l (a slot l)))
    ]
