-- ===== src/Http/Log/Json.antt =====
-- The units of a JSON string: what the log writes for one character, and a reader of RFC 8259.
pub mod Value
use php_fpm_ng.Base.{
  ℕ, zero, suc, ◌+◌, ◌-◌, ◌*◌, ◌/◌, ◌%◌, ◌≤◌, ◌<◌, ◌≡◌, ◌≢◌, refl, ◌∙◌, ap, sym, Bool, true, false,
  not, ◌&&◌, ◌||◌, inl, inr, Option, none, some, [], ◌∷◌, ◌++◌, append_assoc, arith, Bytes, codes,
  within, length, length-append, take, drop, ltb, leb, ◌==◌, if◌then◌else◌, Bool-cases,
}
use php_fpm_ng.Http.Log.{hex, utf8_len, json_unit, next_unit, json_loop, json_value}
use php_fpm_ng.Http.Log.Utf8.{two_bytes, three_bytes, four_bytes, third, fourth, character}
use php_fpm_ng.Http.Log.Utf8.Loop.{utf8_len-character}

abbrev pub is_hex : ℕ → Bool
is_hex c = within b'0' b'9' c || within b'a' b'f' c || within b'A' b'F' c

-- What may stand behind a backslash, but for `u`.
abbrev pub is_escape : ℕ → Bool
is_escape c =
    c == b'"'
    || c == b'\\'
    || c == b'/'
    || c == b'b'
    || c == b'f'
    || c == b'n'
    || c == b'r'
    || c == b't'

-- Four hexadecimal digits, and what stands behind them.
abbrev pub behind_hex : Bytes → Option Bytes
behind_hex (a ∷ b ∷ c ∷ d ∷ s) =
    if is_hex a && is_hex b && is_hex c && is_hex d then some s else none
behind_hex _ = none

-- Behind a backslash.
abbrev pub behind_escape : Bytes → Option Bytes
behind_escape [] = none
behind_escape (c ∷ s) = if is_escape c then some s else if c == b'u' then behind_hex s else none

-- One character of a JSON string of RFC 8259 in UTF-8, and what stands behind it.
unfoldable pub behind_char : ℕ → Bytes → Option Bytes
behind_char c s =
    if c == b'\\'
    then behind_escape s
    else if ltb c 32
    then none
    else if ltb c 128
    then some s
    else if character (c ∷ s) == 0
    then none
    else some (drop (character (c ∷ s)) (c ∷ s))

-- Behind the opening quote: what stands behind the string. `none` is no JSON string.
pub read_string : ℕ → Bytes → Option Bytes
unfolding behind_char
read_string zero s = none
read_string (suc f) [] = none
read_string (suc f) (c ∷ s) = elim (behind_char c s) [
  | none ↦ none
  | some rest ↦ let more = read_string f rest in if c == b'"' then some s else more
]

-- A unit is one character of the string.
IsUnit : Bytes → Type 0
IsUnit u =
    (t : Bytes)
    → (c : ℕ) × (s : Bytes) × (u ++ t ≡ (c ∷ s))
      × ((c == b'"') ≡ false)
      × (behind_char c s ≡ some t)

hex-is_hex : (n : ℕ) → n < 16 → is_hex (hex n) ≡ true
hex-is_hex n h = ground arith

plain-char :
    (c : ℕ) (t : Bytes)
    → (c == b'"' || c == b'\\') ≡ false
    → (ltb c 32 || leb 127 c) ≡ false
    → behind_char c t ≡ some t
unfolding behind_char
plain-char c t x y =
    let a : (c == b'\\') ≡ false = ground arith in
    let b : ltb c 32 ≡ false = ground arith in
    let d : ltb c 128 ≡ true = ground arith in rw (a, b, d) refl

json_unit-IsUnit : (c : ℕ) → c < 256 → IsUnit (json_unit c)
unfolding IsUnit json_unit behind_char
json_unit-IsUnit c h t = elim (Bool-cases (c == b'"' || c == b'\\')) [
  | inl y ↦ let e : is_escape c ≡ true = ground arith in rw y (b'\\', c ∷ t, refl, refl, rw e refl)
  | inr x0 ↦ elim (Bool-cases (c == 8)) [
    | inl y ↦ rw (x0, y) (b'\\', b'b' ∷ t, refl, refl, refl)
    | inr x1 ↦ elim (Bool-cases (c == 12)) [
      | inl y ↦ rw (x0, x1, y) (b'\\', b'f' ∷ t, refl, refl, refl)
      | inr x2 ↦ elim (Bool-cases (c == 10)) [
        | inl y ↦ rw (x0, x1, x2, y) (b'\\', b'n' ∷ t, refl, refl, refl)
        | inr x3 ↦ elim (Bool-cases (c == 13)) [
          | inl y ↦ rw (x0, x1, x2, x3, y) (b'\\', b'r' ∷ t, refl, refl, refl)
          | inr x4 ↦ elim (Bool-cases (c == 9)) [
            | inl y ↦ rw (x0, x1, x2, x3, x4, y) (b'\\', b't' ∷ t, refl, refl, refl)
            | inr x5 ↦ elim (Bool-cases (ltb c 32 || leb 127 c)) [
              | inl y ↦
                  rw (x0, x1, x2, x3, x4, x5, y)
                    (
                      b'\\',
                      b'u' ∷ b'0' ∷ b'0' ∷ hex (c / 16) ∷ hex (c % 16) ∷ t,
                      refl,
                      refl,
                      rw (hex-is_hex (c / 16) (omega arith), hex-is_hex (c % 16) (omega arith))
                          refl,
                    )
              | inr x6 ↦
                  rw (x0, x1, x2, x3, x4, x5, x6) (c, t, refl, ground arith, plain-char c t x0 x6)
            ]
          ]
        ]
      ]
    ]
  ]
]

-- A character is read from its own bytes, whatever stands behind them.
character-take :
    (s t : Bytes)
    → (character s == 0) ≡ false
    → (character (take (character s) s ++ t) ≡ character s)
      × (drop (character s) (take (character s) s ++ t) ≡ t)
character-take [] t h = cc
character-take (a ∷ []) t h = cc
character-take (a ∷ b ∷ s) t h = elim (Bool-cases (two_bytes a b)) [
  | inl y ↦ rw y (rw y refl, refl)
  | inr x ↦
      let e : third a b s ≡ character (a ∷ b ∷ s) = rw x refl in
      rw x (third_take a b s t x (ap (λ n. n == 0) e ∙ h))
]
  where
    fourth_take :
        (a b c : ℕ) (s t : Bytes)
        → two_bytes a b ≡ false
        → three_bytes a b c ≡ false
        → (fourth a b c s == 0) ≡ false
        → (character (take (fourth a b c s) (a ∷ b ∷ c ∷ s) ++ t) ≡ fourth a b c s)
          × (drop (fourth a b c s) (take (fourth a b c s) (a ∷ b ∷ c ∷ s) ++ t) ≡ t)
    fourth_take a b c [] t x y h = cc
    fourth_take a b c (d ∷ s) t x y h = elim (Bool-cases (four_bytes a b c d)) [
      | inl z ↦ rw z (rw (x, y, z) refl, refl)
      | inr z ↦ absurd (ground (arith, h, z))
    ]

    third_take :
        (a b : ℕ) (s t : Bytes)
        → two_bytes a b ≡ false
        → (third a b s == 0) ≡ false
        → (character (take (third a b s) (a ∷ b ∷ s) ++ t) ≡ third a b s)
          × (drop (third a b s) (take (third a b s) (a ∷ b ∷ s) ++ t) ≡ t)
    third_take a b [] t x h = cc
    third_take a b (c ∷ s) t x h = elim (Bool-cases (three_bytes a b c)) [
      | inl y ↦ rw y (rw (x, y) refl, refl)
      | inr y ↦
          let e : fourth a b c s ≡ third a b (c ∷ s) = rw y refl in
          rw y (fourth_take a b c s t x y (ap (λ n. n == 0) e ∙ h))
    ]

-- The input holds bytes.
abbrev pub AllBytes : Bytes → Type 0
AllBytes [] = Unit
AllBytes (c ∷ s) = (c < 256) × AllBytes s
