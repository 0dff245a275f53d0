-- ===== src/Supervisor/Scan.antt =====
-- `fpm_pool_supervisor_one_shot_done_count`: the bytes are scanned again until a pass adds nothing,
-- while other processes set more of them.
use php_fpm_ng.Base.{
  ℕ, zero, suc, ◌+◌, ◌-◌, ◌≤◌, ◌<◌, ◌≡◌, refl, Bool, true, false, Option, none, some, List, arith,
  ◌==◌, if◌then◌else◌, get_or, inl, inr, Bool-cases,
}

-- The bytes that the read number t sees are `world t`.
abbrev pub World : Type 0
World = ℕ → List Bool

-- The `for` loop: n more bytes, from the byte i, which is read at the time t.
unfoldable pub pass : World → ℕ → ℕ → ℕ → ℕ → ℕ
pass w zero i t done = done
pass w (suc n) i t done = pass w n (i + 1) (t + 1) (if get_or (w t) i false then done + 1 else done)

-- The `do` loop on fuel; `none` is fuel that ran out.
unfoldable pub rescan : World → ℕ → ℕ → ℕ → ℕ → ℕ → Option ℕ
unfolding pass
rescan w processes no_slot zero t previous = none
rescan w processes no_slot (suc f) t previous =
    let done = pass w processes 0 t no_slot in
    let rest = rescan w processes no_slot f (t + processes) done in
    if done == previous then some done else rest

-- Each pass but the last adds a byte.
unfoldable pub done_count : World → ℕ → ℕ → ℕ → Option ℕ
unfolding rescan
done_count w processes no_slot t = rescan w processes no_slot (suc (suc processes)) t 0

-- The set bytes among the n from i.
unfoldable pub count_from : List Bool → ℕ → ℕ → ℕ
count_from b zero i = 0
count_from b (suc n) i = (if get_or b i false then 1 else 0) + count_from b n (i + 1)

-- A byte that is set stays set.
abbrev pub Monotone : World → Type 0
Monotone w = (t i : ℕ) → get_or (w t) i false ≡ true → get_or (w (t + 1)) i false ≡ true

Monotone-plus :
    (w : World) (m : Monotone w) (k t u i : ℕ)
    → u ≡ t + k
    → get_or (w t) i false ≡ true
    → get_or (w u) i false ≡ true
Monotone-plus w m zero t u i e h = let e' : u ≡ t = omega arith in rw e' h
Monotone-plus w m (suc k) t u i e h = Monotone-plus w m k (t + 1) u i (omega arith) (m t i h)

Monotone-later :
    (w : World) (m : Monotone w) (t u i : ℕ)
    → t ≤ u
    → get_or (w t) i false ≡ true
    → get_or (w u) i false ≡ true
Monotone-later w m t u i l h = Monotone-plus w m (u - t) t u i (omega arith) h

count_from-le : (b : List Bool) (n i : ℕ) → count_from b n i ≤ n
unfolding count_from
count_from-le b zero i = omega arith
count_from-le b (suc n) i = elim (Bool-cases (get_or b i false)) [
  | inl y ↦ rw y (omega (arith, count_from-le b n (i + 1)))
  | inr x ↦ rw x (omega (arith, count_from-le b n (i + 1)))
]

-- A pass counts at least what was set before it began, and at most what is set when it is over.
pass-ge :
    (w : World) (m : Monotone w) (n i s t done : ℕ)
    → s ≤ t
    → done + count_from (w s) n i ≤ pass w n i t done
unfolding pass count_from
pass-ge w m zero i s t done l = omega arith
pass-ge w m (suc n) i s t done l = elim (Bool-cases (get_or (w s) i false)) [
  | inl y ↦
      rw (y, Monotone-later w m s t i l y)
        (omega (arith, pass-ge w m n (i + 1) s (t + 1) (done + 1) (omega arith)))
  | inr x ↦ elim (Bool-cases (get_or (w t) i false)) [
    | inl y ↦ rw (x, y) (omega (arith, pass-ge w m n (i + 1) s (t + 1) (done + 1) (omega arith)))
    | inr z ↦ rw (x, z) (omega (arith, pass-ge w m n (i + 1) s (t + 1) done (omega arith)))
  ]
]

pass-le :
    (w : World) (m : Monotone w) (n i t u done : ℕ)
    → t + n ≤ u
    → pass w n i t done ≤ done + count_from (w u) n i
unfolding pass count_from
pass-le w m zero i t u done l = omega arith
pass-le w m (suc n) i t u done l = elim (Bool-cases (get_or (w t) i false)) [
  | inl y ↦
      rw (y, Monotone-later w m t u i (omega arith) y)
        (omega (arith, pass-le w m n (i + 1) (t + 1) u (done + 1) (omega arith)))
  | inr x ↦ elim (Bool-cases (get_or (w u) i false)) [
    | inl y ↦ rw (x, y) (omega (arith, pass-le w m n (i + 1) (t + 1) u done (omega arith)))
    | inr z ↦ rw (x, z) (omega (arith, pass-le w m n (i + 1) (t + 1) u done (omega arith)))
  ]
]

-- A count that the pool had at some time from t on.
abbrev pub IsSnapshot : World → ℕ → ℕ → ℕ → ℕ → Type 0
IsSnapshot w processes no_slot t d =
    (s : ℕ) × (t ≤ s) × (d ≡ no_slot + count_from (w s) processes 0)

-- The count of a pass is kept if the next pass repeats it: it was exact between the two.
rescan-IsSnapshot :
    (w : World) (m : Monotone w) (n c f t previous : ℕ)
    → c ≤ previous
    → previous ≤ c + count_from (w t) n 0
    → c + n < previous + f
    → (d : ℕ) × (rescan w n c f t previous ≡ some d) × IsSnapshot w n c t d
unfolding rescan
rescan-IsSnapshot w m n c zero t previous l h e = absurd (omega (arith, count_from-le (w t) n 0))
rescan-IsSnapshot w m n c (suc f) t previous l h e =
    let done = pass w n 0 t c in
    let low : c + count_from (w t) n 0 ≤ done = pass-ge w m n 0 t t c (omega arith) in
    let high : done ≤ c + count_from (w (t + n)) n 0 = pass-le w m n 0 t (t + n) c (omega arith) in
    elim (Bool-cases (done == previous)) [
      | inl same ↦
          let eq : done ≡ previous = ground arith in
          (done, rw same refl, (t, omega arith, omega arith))
      | inr differs ↦
          let ne : previous < done = ground arith in
          let (d, r, (s, after, exact)) =
            rescan-IsSnapshot w m n c f (t + n) done (omega arith) high (omega arith) in
          (d, rw differs r, (s, omega arith, exact))
    ]

-- While other processes only ever set bytes, the scan ends within its fuel, and its count is the
-- exact count of the pool at a moment since the scan began.
pub done_count-IsSnapshot :
    (w : World) (n c t : ℕ)
    → Monotone w
    → (d : ℕ) × (done_count w n c t ≡ some d) × IsSnapshot w n c t d
unfolding done_count rescan
done_count-IsSnapshot w n c t m =
    let done = pass w n 0 t c in
    let low : c + count_from (w t) n 0 ≤ done = pass-ge w m n 0 t t c (omega arith) in
    let high : done ≤ c + count_from (w (t + n)) n 0 = pass-le w m n 0 t (t + n) c (omega arith) in
    elim (Bool-cases (done == 0)) [
      | inl same ↦
          let eq : done ≡ 0 = ground arith in (done, rw same refl, (t, omega arith, omega arith))
      | inr differs ↦
          let (d, r, (s, after, exact)) =
            rescan-IsSnapshot w m n c (suc n) (t + n) done (omega arith) high (omega arith) in
          (d, rw differs r, (s, omega arith, exact))
    ]
