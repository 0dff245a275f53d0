-- ===== src/Http/Log/Utf8.antt =====
-- The multi-byte characters of RFC 3629.
pub mod Loop
use php_fpm_ng.Base.{
  ℕ, zero, suc, ◌+◌, ◌-◌, ◌*◌, ◌/◌, ◌%◌, ◌≤◌, ◌<◌, ◌≡◌, refl, sym, ◌∙◌, Bool, true, false, not,
  ◌&&◌, ◌||◌, inl, inr, Option, none, some, [], ◌∷◌, arith, Bytes, within, ltb, leb, ◌==◌,
  if◌then◌else◌, Bool-cases,
}
use php_fpm_ng.Http.Log.{utf8_loop, utf8_refuse, utf8_len}

abbrev pub is_tail : ℕ → Bool
is_tail = within 128 191

-- UTF8-2, UTF8-3 and UTF8-4 of RFC 3629, section 4.
abbrev pub two_bytes : ℕ → ℕ → Bool
two_bytes a b = within 194 223 a && is_tail b

abbrev pub three_bytes : ℕ → ℕ → ℕ → Bool
three_bytes a b c =
    ((a == 224 && within 160 191 b)
      || (within 225 236 a && is_tail b)
      || (a == 237 && within 128 159 b)
      || (within 238 239 a && is_tail b))
    && is_tail c

abbrev pub four_bytes : ℕ → ℕ → ℕ → ℕ → Bool
four_bytes a b c d =
    ((a == 240 && within 144 191 b)
      || (within 241 243 a && is_tail b)
      || (a == 244 && within 128 143 b))
    && is_tail c
    && is_tail d

abbrev pub fourth : ℕ → ℕ → ℕ → Bytes → ℕ
fourth a b c [] = 0
fourth a b c (d ∷ s) = if four_bytes a b c d then 4 else 0

abbrev pub third : ℕ → ℕ → Bytes → ℕ
third a b [] = 0
third a b (c ∷ s) = if three_bytes a b c then 3 else fourth a b c s

-- The length of the multi-byte character at the front, or 0.
abbrev pub character : Bytes → ℕ
character [] = 0
character (a ∷ []) = 0
character (a ∷ b ∷ s) = if two_bytes a b then 2 else third a b s

is_tail-eq : (b : ℕ) → (b / 64 == 2) ≡ is_tail b
is_tail-eq b = ground arith

tail_value : (b : ℕ) → is_tail b ≡ true → b % 64 ≡ b - 128
tail_value b h = ground arith

two-refuse : (a b : ℕ) → utf8_refuse 2 (some ((a % 32) * 64 + b % 64)) ≡ 2
unfolding utf8_refuse
two-refuse a b = refl

-- The first two bytes of three, and of four.
abbrev lead_three : ℕ → ℕ → Bool
lead_three a b =
    (a == 224 && within 160 191 b)
    || (within 225 236 a && is_tail b)
    || (a == 237 && within 128 159 b)
    || (within 238 239 a && is_tail b)

abbrev lead_four : ℕ → ℕ → Bool
lead_four a b =
    (a == 240 && within 144 191 b)
    || (within 241 243 a && is_tail b)
    || (a == 244 && within 128 143 b)

three-refuse :
    (a b c : ℕ)
    → within 224 239 a ≡ true
    → is_tail b ≡ true
    → is_tail c ≡ true
    → utf8_refuse 3 (some ((a % 16 * 64 + b % 64) * 64 + c % 64))
      ≡ (if lead_three a b then 3 else 0)
unfolding utf8_refuse
three-refuse a b c h k l =
    let x : a % 16 ≡ a - 224 = ground arith in rw (x, tail_value b k, tail_value c l) (ground arith)

four-refuse :
    (a b c d : ℕ)
    → within 240 244 a ≡ true
    → is_tail b ≡ true
    → is_tail c ≡ true
    → is_tail d ≡ true
    → utf8_refuse 4 (some (((a % 8 * 64 + b % 64) * 64 + c % 64) * 64 + d % 64))
      ≡ (if lead_four a b then 4 else 0)
unfolding utf8_refuse
four-refuse a b c d h k l m =
    let x : a % 8 ≡ a - 240 = ground arith in
    rw (x, tail_value b k, tail_value c l, tail_value d m) (ground arith)

loop_stops :
    (need n cp b : ℕ) (s : Bytes)
    → is_tail b ≡ false
    → utf8_refuse need (utf8_loop (suc n) cp (b ∷ s)) ≡ 0
unfolding utf8_loop utf8_refuse
loop_stops need n cp b s x = rw (is_tail-eq b, x) refl

loop_goes :
    (n cp b : ℕ) (s : Bytes)
    → is_tail b ≡ true
    → utf8_loop (suc n) cp (b ∷ s) ≡ utf8_loop n (cp * 64 + b % 64) s
unfolding utf8_loop
loop_goes n cp b s y = rw (is_tail-eq b, y) refl

loop_ends : (need n cp : ℕ) → utf8_refuse need (utf8_loop (suc n) cp []) ≡ 0
unfolding utf8_loop utf8_refuse
loop_ends need n cp = refl

loop_done : (cp : ℕ) (s : Bytes) → utf8_loop zero cp s ≡ some cp
unfolding utf8_loop
loop_done cp s = refl

third-two : (a b : ℕ) (s : Bytes) → two_bytes a b ≡ false → character (a ∷ b ∷ s) ≡ third a b s
third-two a b s n = rw n refl

fourth-none : (a b c : ℕ) (s : Bytes) → is_tail c ≡ false → fourth a b c s ≡ 0
fourth-none a b c [] x = refl
fourth-none a b c (d ∷ s) x = rw x (ground arith)

third-none : (a b : ℕ) (s : Bytes) → is_tail b ≡ false → third a b s ≡ 0
third-none a b [] x = refl
third-none a b (c ∷ s) x =
    let n : three_bytes a b c ≡ false = ground arith in rw n (fourth_no_lead s)
  where
    fourth_no_lead : (s : Bytes) → fourth a b c s ≡ 0
    fourth_no_lead [] = refl
    fourth_no_lead (d ∷ s) = let m : four_bytes a b c d ≡ false = ground arith in rw m refl

character-none : (a b : ℕ) (s : Bytes) → is_tail b ≡ false → character (a ∷ b ∷ s) ≡ 0
character-none a b s x =
    let n : two_bytes a b ≡ false = ground arith in rw (n, third-none a b s x) refl

two-character :
    (a : ℕ) (s : Bytes)
    → within 194 223 a ≡ true
    → utf8_refuse 2 (utf8_loop 1 (a % 32) s) ≡ character (a ∷ s)
two-character a [] h = loop_ends 2 0 (a % 32)
two-character a (b ∷ s) h = elim (Bool-cases (is_tail b)) [
  | inl y ↦
      let t : two_bytes a b ≡ true = ground arith in
      rw (loop_goes 0 (a % 32) b s y, loop_done (a % 32 * 64 + b % 64) s, t) (two-refuse a b)
  | inr x ↦ loop_stops 2 0 (a % 32) b s x ∙ sym (character-none a b s x)
]
