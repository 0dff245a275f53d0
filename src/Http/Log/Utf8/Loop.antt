-- ===== src/Http/Log/Utf8/Loop.antt =====
-- The sequences that `fpm_http_access_log_utf8_len` accepts are those of RFC 3629.
use php_fpm_ng.Base.{
  ℕ, ◌+◌, ◌*◌, ◌%◌, ◌≡◌, refl, sym, ◌∙◌, true, false, inl, inr, [], ◌∷◌, arith, Bytes, within,
  if◌then◌else◌, Bool-cases,
}
use php_fpm_ng.Http.Log.{utf8_loop, utf8_refuse, utf8_len}
use php_fpm_ng.Http.Log.Utf8.{
  is_tail, two_bytes, three_bytes, four_bytes, fourth, third, character, lead_three, lead_four,
  three-refuse, four-refuse, loop_stops, loop_goes, loop_ends, loop_done, third-two, fourth-none,
  character-none, two-character,
}

three-third :
    (a b : ℕ) (s : Bytes)
    → within 224 239 a ≡ true
    → is_tail b ≡ true
    → utf8_refuse 3 (utf8_loop 1 (a % 16 * 64 + b % 64) s) ≡ third a b s
three-third a b [] h y = loop_ends 3 0 (a % 16 * 64 + b % 64)
three-third a b (c ∷ s) h y = elim (Bool-cases (is_tail c)) [
  | inl z ↦
      let cp = (a % 16 * 64 + b % 64) * 64 + c % 64 in
      rw (loop_goes 0 (a % 16 * 64 + b % 64) c s z, loop_done cp s, three-refuse a b c h y z)
        (lead s z)
  | inr x ↦
      let n : three_bytes a b c ≡ false = ground arith in
      loop_stops 3 0 (a % 16 * 64 + b % 64) c s x ∙ rw (n, fourth-none a b c s x) refl
]
  where
    lead : (s : Bytes) → is_tail c ≡ true → (if lead_three a b then 3 else 0) ≡ third a b (c ∷ s)
    lead [] z = elim (Bool-cases (lead_three a b)) [ inl p ↦ rw (p, z) refl | inr q ↦ rw q refl ]
    lead (d ∷ s) z =
        let m : four_bytes a b c d ≡ false = ground arith in
        elim (Bool-cases (lead_three a b)) [ inl p ↦ rw (p, z) refl | inr q ↦ rw (q, m) refl ]

four-fourth :
    (a b c : ℕ) (s : Bytes)
    → within 240 244 a ≡ true
    → is_tail b ≡ true
    → is_tail c ≡ true
    → utf8_refuse 4 (utf8_loop 1 ((a % 8 * 64 + b % 64) * 64 + c % 64) s) ≡ fourth a b c s
four-fourth a b c [] h y z = loop_ends 4 0 ((a % 8 * 64 + b % 64) * 64 + c % 64)
four-fourth a b c (d ∷ s) h y z = elim (Bool-cases (is_tail d)) [
  | inr x ↦
      let n : four_bytes a b c d ≡ false = ground arith in
      loop_stops 4 0 ((a % 8 * 64 + b % 64) * 64 + c % 64) d s x ∙ rw n refl
  | inl t ↦
      let cp = ((a % 8 * 64 + b % 64) * 64 + c % 64) * 64 + d % 64 in
      rw
        (
          loop_goes 0 ((a % 8 * 64 + b % 64) * 64 + c % 64) d s t,
          loop_done cp s,
          four-refuse a b c d h y z t,
        )
        (elim (Bool-cases (lead_four a b)) [ inl p ↦ rw (p, z, t) refl | inr q ↦ rw q refl ])
]

four-third :
    (a b : ℕ) (s : Bytes)
    → within 240 244 a ≡ true
    → is_tail b ≡ true
    → utf8_refuse 4 (utf8_loop 2 (a % 8 * 64 + b % 64) s) ≡ third a b s
four-third a b [] h y = loop_ends 4 1 (a % 8 * 64 + b % 64)
four-third a b (c ∷ s) h y =
    let n : three_bytes a b c ≡ false = ground arith in
    elim (Bool-cases (is_tail c)) [
      | inl z ↦ rw (loop_goes 1 (a % 8 * 64 + b % 64) c s z, n) (four-fourth a b c s h y z)
      | inr x ↦ loop_stops 4 1 (a % 8 * 64 + b % 64) c s x ∙ rw (n, fourth-none a b c s x) refl
    ]

three-character :
    (a : ℕ) (s : Bytes)
    → within 224 239 a ≡ true
    → utf8_refuse 3 (utf8_loop 2 (a % 16) s) ≡ character (a ∷ s)
three-character a [] h = loop_ends 3 1 (a % 16)
three-character a (b ∷ s) h = elim (Bool-cases (is_tail b)) [
  | inr x ↦ loop_stops 3 1 (a % 16) b s x ∙ sym (character-none a b s x)
  | inl y ↦
      let n : two_bytes a b ≡ false = ground arith in
      rw (loop_goes 1 (a % 16) b s y, third-two a b s n) (three-third a b s h y)
]

four-character :
    (a : ℕ) (s : Bytes)
    → within 240 244 a ≡ true
    → utf8_refuse 4 (utf8_loop 3 (a % 8) s) ≡ character (a ∷ s)
four-character a [] h = loop_ends 4 2 (a % 8)
four-character a (b ∷ s) h = elim (Bool-cases (is_tail b)) [
  | inr x ↦ loop_stops 4 2 (a % 8) b s x ∙ sym (character-none a b s x)
  | inl y ↦
      let n : two_bytes a b ≡ false = ground arith in
      rw (loop_goes 2 (a % 8) b s y, third-two a b s n) (four-third a b s h y)
]

-- No character starts with the byte.
no_lead :
    (a : ℕ) (s : Bytes)
    → within 194 223 a ≡ false
    → within 224 239 a ≡ false
    → within 240 244 a ≡ false
    → 0 ≡ character (a ∷ s)
no_lead a [] x y z = refl
no_lead a (b ∷ []) x y z = let n : two_bytes a b ≡ false = ground arith in rw n refl
no_lead a (b ∷ c ∷ []) x y z =
    let n : two_bytes a b ≡ false = ground arith in
    let m : three_bytes a b c ≡ false = ground arith in rw (n, m) refl
no_lead a (b ∷ c ∷ d ∷ s) x y z =
    let n : two_bytes a b ≡ false = ground arith in
    let m : three_bytes a b c ≡ false = ground arith in
    let k : four_bytes a b c d ≡ false = ground arith in rw (n, m, k) refl

-- The multi-byte sequences that are copied to the log are exactly those that RFC 3629 allows: no
-- overlong form, no surrogate, nothing past U+10FFFF and nothing cut short.
pub utf8_len-character : (s : Bytes) → utf8_len s ≡ character s
unfolding utf8_len
utf8_len-character [] = refl
utf8_len-character (a ∷ s) = elim (Bool-cases (within 194 223 a)) [
  | inl y ↦ rw y (two-character a s y)
  | inr x ↦ elim (Bool-cases (within 224 239 a)) [
    | inl y ↦ rw (x, y) (three-character a s y)
    | inr x' ↦ elim (Bool-cases (within 240 244 a)) [
      | inl y ↦ rw (x, x', y) (four-character a s y)
      | inr x'' ↦ rw (x, x', x'') (no_lead a s x x' x'')
    ]
  ]
]
