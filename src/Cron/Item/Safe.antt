-- ===== src/Cron/Item/Safe.antt =====
-- Where `fpm_cron_parse_item` has defined behaviour.
use php_fpm_ng.Base.{
  ℕ, zero, suc, ◌+◌, ◌-◌, ◌*◌, ◌≤◌, ◌<◌, ◌≡◌, refl, Bool, true, false, List, [], ◌∷◌, arith, Bytes,
  peek, is_digit, ltb, length, drop, not, inl, inr, Bool-cases, ◌==◌,
}
use php_fpm_ng.Cron.Outcome.{
  Reason, expected_number, expected_high, expected_step, Ensures, >>=-Ensures, guard, guard-Ensures,
  bad_step,
}
use php_fpm_ng.Cron.Item.{
  int_max, uint_loop, parse_uint, Spec, parse_high, parse_range, parse_step, outside, check_spec,
  read_spec, parse_item,
}
use php_fpm_ng.Cron.Item.Fill.{fill-Marks}

-- What a run of n digits can write is below this number.
room : ℕ → ℕ
room zero = 1
room (suc n) = 10 * room n

room-pos : (n : ℕ) → 1 ≤ room n
unfolding room
room-pos zero = omega arith
room-pos (suc n) = omega (arith, room-pos n)

room-le_nine : (k n : ℕ) → n + k ≡ 9 → room n ≤ 1000000000
unfolding room
room-le_nine zero n e = let e' : n ≡ 9 = omega arith in rw e' (omega arith)
room-le_nine (suc k) n e = omega (arith, room-le_nine k (suc n))

abbrev billion : ℕ
billion = 1000000000

digit_bound :
    (v c n : ℕ)
    → is_digit c ≡ true
    → (v + 1) * (10 * n) ≤ billion
    → (v * 10 + (c - b'0') + 1) * n ≤ billion
digit_bound v c n d h =
    let a : c - b'0' ≤ 9 = ground arith in
    let m : (c - b'0') * n ≤ 9 * n = grind arith in omega arith

ltb-false : (a b : ℕ) → b ≤ a → ltb a b ≡ false
ltb-false a b h = ground arith

-- A number read, and what stands behind it.
abbrev IsShort : ℕ × Bytes → Type 0
IsShort p = (p.0 < billion) × (length p.1 ≤ 9)

uint_loop-IsShort :
    (v : ℕ) (s : Bytes)
    → (v + 1) * room (length s) ≤ billion
    → length s ≤ 9
    → Ensures IsShort (uint_loop v s)
unfolding uint_loop room
uint_loop-IsShort v [] h l = omega arith
uint_loop-IsShort v (c ∷ s) h l = elim (Bool-cases (is_digit c)) [
  | inl d ↦
      let b = digit_bound v c (room (length s)) d h in
      let small : v * 10 + (c - b'0') + 1 ≤ billion = grind (arith, b, room-pos (length s)) in
      rw (d, ltb-false int_max (v * 10 + (c - b'0')) (omega arith))
        (uint_loop-IsShort (v * 10 + (c - b'0')) s b (omega arith))
  | inr n ↦ rw n (grind (arith, room-pos (length s)), l)
]

parse_uint-IsShort : (r : Reason) (s : Bytes) → length s ≤ 9 → Ensures IsShort (parse_uint r s)
unfolding parse_uint
parse_uint-IsShort r s l = elim (Bool-cases (is_digit (peek s))) [
  | inl d ↦ rw d (
      uint_loop-IsShort 0 s (omega (arith, room-le_nine (9 - length s) (length s) (omega arith))) l)
  | inr n ↦ rw n tt
]

-- What `parse_range` hands to `parse_step`, and what that hands on.
record Begun (s : Spec) : Type 0 where
  short : length s.rest ≤ 9
  one : s.step ≡ 1

record Stepped (s : Spec) : Type 0 where
  positive : 1 ≤ s.step
  small : s.step < billion

record Checked (max : ℕ) (s : Spec) : Type 0 where
  stepped : Stepped s
  below : s.high ≤ max
  ordered : s.low ≤ s.high

drop-le : (s : Bytes) → length s ≤ 9 → length (drop 1 s) ≤ 9
drop-le [] h = h
drop-le (c ∷ s) h = omega arith

parse_high_short : (low : ℕ) (p : Bytes) → length p ≤ 9 → Ensures Begun (parse_high low p)
unfolding parse_high
parse_high_short low p l = elim (Bool-cases (peek p == b'-')) [
  | inl d ↦ rw d (
      >>=-Ensures IsShort Begun (parse_uint expected_high (drop 1 p)) _
        (parse_uint-IsShort expected_high (drop 1 p) (drop-le p l))
        (λ a e h. record { short = h.1; one = refl }))
  | inr n ↦ rw n (record { short = l; one = refl })
]

parse_range_short :
    (min max : ℕ) (item : Bytes) → length item ≤ 9 → Ensures Begun (parse_range min max item)
unfolding parse_range
parse_range_short min max item l = elim (Bool-cases (peek item == b'*')) [
  | inl d ↦ rw d (record { short = drop-le item l; one = refl })
  | inr n ↦ rw n (
      >>=-Ensures IsShort Begun (parse_uint expected_number item) _
        (parse_uint-IsShort expected_number item l) (λ a e h. parse_high_short a.0 a.1 h.1))
]

parse_step_short : (max : ℕ) (s : Spec) → Begun s → Ensures Stepped (parse_step max s)
unfolding parse_step
parse_step_short max s b = elim (Bool-cases (peek s.rest == b'/')) [
  | inl d ↦ rw d (
      >>=-Ensures IsShort Stepped (parse_uint expected_step (drop 1 s.rest)) _
        (parse_uint-IsShort expected_step (drop 1 s.rest) (drop-le s.rest b.short))
        (λ a e h.
          >>=-Ensures (λ _. 1 ≤ a.0) Stepped (guard (not (ltb a.0 1)) bad_step) _
            (guard-Ensures (1 ≤ a.0) (not (ltb a.0 1)) bad_step (λ t. ground arith))
            (λ _ _ p. record { positive = p; small = h.0 })))
  | inr n ↦ rw n (record { positive = omega (arith, b.one); small = omega (arith, b.one) })
]

check_spec_short :
    (min max : ℕ) (s : Spec) → Stepped s → Ensures (Checked max) (check_spec min max s)
unfolding check_spec
check_spec_short min max s h = elim (Bool-cases (ltb 0 (length s.rest))) [
  | inl a ↦ rw a tt
  | inr a ↦ rw a (elim (Bool-cases (outside min max s)) [
    | inl o ↦ rw o tt
    | inr o ↦ rw o (elim (Bool-cases (ltb s.high s.low)) [
      | inl r ↦ rw r tt
      | inr r ↦ rw r (record { stepped = h; below = ground arith; ordered = ground arith })
    ])
  ])
]

read_spec_short :
    (min max : ℕ) (item : Bytes) → length item ≤ 9 → Ensures (Checked max) (read_spec min max item)
unfolding read_spec
read_spec_short min max item l =
    >>=-Ensures Begun (Checked max) (parse_range min max item) _ (parse_range_short min max item l)
      (λ s _ b.
        >>=-Ensures Stepped (Checked max) (parse_step max s) _ (parse_step_short max s b)
          (λ t _ h. check_spec_short min max t h))

pub parse_item_short :
    (min max : ℕ) (item : Bytes) (b : List Bool)
    → length item ≤ 9
    → max ≤ 59
    → max < length b
    → Ensures (λ b'. length b' ≡ length b) (parse_item min max item b)
unfolding parse_item
parse_item_short min max item b l m n =
    >>=-Ensures (Checked max) (λ b'. length b' ≡ length b) (read_spec min max item) _
      (read_spec_short min max item l)
      (λ s _ c.
        let (b', e, k) =
          fill-Marks (s.high + 2) s.low s.high s.step b c.stepped.positive (omega (arith, c.below))
            (omega (arith, c.below, c.stepped.small)) (omega arith) (omega arith) in
        rw e k.same_length)
