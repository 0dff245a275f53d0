-- ===== src/Cron/Item/Fill.antt =====
-- The loop that marks the values of one item in a field's bitmap.
use native.Mathlib.Nat.{mod-eq_of_lt, mod-eq-sub-mod}
use native.Mathlib.Decide.{dec_le, ℕ_discrete}
use php_fpm_ng.Base.{
  ℕ, zero, suc, ◌+◌, ◌-◌, ◌%◌, ◌≤◌, ◌<◌, Bool, true, false, ◌&&◌, ◌||◌, List, ◌≡◌, refl, ◌∙◌, inl,
  inr, arith, ltb, leb, ◌==◌, length, get_or, set, Bool-cases, length-set, get_or-set_self,
  get_or-set_ne,
}
use php_fpm_ng.Cron.Outcome.{ok}
use php_fpm_ng.Cron.Item.{int_max, fill}

-- `j` is one of low, low + step, low + 2 * step, … up to high.
abbrev pub covers : ℕ → ℕ → ℕ → ℕ → Bool
covers low high step j = leb low j && leb j high && (j - low) % step == 0

-- The bitmap `b'` is `b` with the values of the item added.
pub record Marks (low high step : ℕ) (b b' : List Bool) : Type 0 where
  pub same_length : length b' ≡ length b
  pub bit : (j : ℕ) → get_or b' j false ≡ (get_or b j false || covers low high step j)

covers_step :
    (i high step j : ℕ)
    → 1 ≤ step
    → i ≤ high
    → covers i high step j ≡ (i == j || covers (i + step) high step j)
covers_step i high step j h k = elim (dec_le (i + step) j) [
  | yes p ↦
      let a : step ≤ j - i = omega arith in
      let e : j - i - step ≡ j - (i + step) = omega arith in ground (arith, mod-eq-sub-mod a, e)
  | no p ↦ elim (dec_le i j) [
    | yes q ↦ let a : j - i < step = omega arith in ground (arith, mod-eq_of_lt a)
    | no q ↦ ground arith
  ]
]

Marks-over : (i high step : ℕ) (b : List Bool) → high < i → Marks i high step b b
Marks-over i high step b h = record { same_length = refl; bit = λ j. ground arith }

Marks-step :
    (i high step : ℕ) (b b' : List Bool)
    → 1 ≤ step
    → i ≤ high
    → i < length b
    → Marks (i + step) high step (set b i true) b'
    → Marks i high step b b'
Marks-step i high step b b' s h l m = record {
  same_length = m.same_length ∙ length-set b i true;
  bit = λ j.
      rw (covers_step i high step j s h, m.bit j)
        (elim (ℕ_discrete i j) [
          | yes e ↦ rw (← e, get_or-set_self b i true false l) (ground arith)
          | no n ↦ rw (get_or-set_ne b i j true false n) (ground arith)
        ]);
}

-- The loop ends, with no write past the array and no overflow, and marks what it should.
pub fill-Marks :
    (f i high step : ℕ) (b : List Bool)
    → 1 ≤ step
    → high < length b
    → high + step ≤ int_max
    → high + 2 ≤ i + f
    → 1 ≤ f
    → (b' : List Bool) × (fill f i high step b ≡ ok b') × Marks i high step b b'
unfolding fill
fill-Marks zero i high step b s l o e p = absurd (omega arith)
fill-Marks (suc f) i high step b s l o e p = elim (Bool-cases (ltb high i)) [
  | inl over ↦ (b, rw over refl, Marks-over i high step b (ground arith))
  | inr more ↦
      let h : i ≤ high = ground arith in
      let (b', e', m) =
        fill-Marks f (i + step) high step (set b i true) s (omega (arith, length-set b i true)) o
          (omega arith) (omega arith) in
      (b', ground (arith, e'), Marks-step i high step b b' s h (omega arith) m)
]
