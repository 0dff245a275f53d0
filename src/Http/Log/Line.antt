-- ===== src/Http/Log/Line.antt =====
-- A field of the access log stands between quotes.
use php_fpm_ng.Base.{
  ℕ, ◌+◌, ◌<◌, ◌≡◌, refl, ◌∙◌, ap, Bool, true, false, not, ◌&&◌, ◌||◌, inl, inr, Option, none, some,
  [], ◌∷◌, ◌++◌, append_assoc, arith, Bytes, length, length-append, ltb, leb, ◌==◌, if◌then◌else◌,
  Bool-cases,
}
use php_fpm_ng.Http.Log.{escape_byte, escape_loop, escape}

-- A reader of the log: what stands behind the quote that ends a field. A backslash takes the next
-- byte with it.
abbrev pub behind_quote : Bytes → Option Bytes
behind_quote [] = none
behind_quote (c ∷ []) = if c == b'"' then some [] else none
behind_quote (c ∷ d ∷ s) =
    let skipped = behind_quote s in
    let rest = behind_quote (d ∷ s) in
    if c == b'\\' then skipped else if c == b'"' then some (d ∷ s) else rest

abbrev pub visible : ℕ → Bool
visible c = leb 32 c && not (c == 127)

abbrev pub AllVisible : Bytes → Type 0
AllVisible [] = Unit
AllVisible (c ∷ s) = (visible c ≡ true) × AllVisible s

-- No control byte, it fits the buffer with its NUL, and the quote behind it is the one that ends it.
abbrev pub IsField : ℕ → Bytes → Type 0
IsField out_size s =
    AllVisible s
    × (length s < out_size)
    × ((rest : Bytes) → behind_quote (s ++ (b'"' ∷ rest)) ≡ some rest)

AllVisible-append : (a b : Bytes) → AllVisible a → AllVisible b → AllVisible (a ++ b)
AllVisible-append [] b h k = k
AllVisible-append (c ∷ a) b (x, h) k = (x, AllVisible-append a b h k)

byte-AllVisible : (c : ℕ) → AllVisible (escape_byte c)
unfolding escape_byte
byte-AllVisible c = elim (Bool-cases (c == b'"' || c == b'\\')) [
  | inl y ↦ rw y (refl, (ground arith, tt))
  | inr x ↦ elim (Bool-cases (ltb c 32 || c == 127)) [
    | inl y ↦ rw (x, y) (refl, (refl, tt))
    | inr z ↦ rw (x, z) (ground arith, tt)
  ]
]

behind_quote-cons :
    (c : ℕ) (s : Bytes)
    → (c == b'\\') ≡ false
    → (c == b'"') ≡ false
    → behind_quote (c ∷ s) ≡ behind_quote s
behind_quote-cons c [] x y = rw y refl
behind_quote-cons c (d ∷ s) x y = rw (x, y) refl

byte-behind_quote : (c : ℕ) (s : Bytes) → behind_quote (escape_byte c ++ s) ≡ behind_quote s
unfolding escape_byte
byte-behind_quote c s = elim (Bool-cases (c == b'"' || c == b'\\')) [
  | inl y ↦ rw y refl
  | inr x ↦ elim (Bool-cases (ltb c 32 || c == 127)) [
    | inl y ↦ rw (x, y) refl
    | inr z ↦ rw (x, z) (behind_quote-cons c s (ground arith) (ground arith))
  ]
]

escape_loop-cons :
    (out_size o c : ℕ) (s : Bytes)
    → escape_loop out_size o (c ∷ s) ≡ (
        if not (ltb (o + 1) out_size)
        then []
        else if leb out_size (o + length (escape_byte c))
        then []
        else escape_byte c ++ escape_loop out_size (o + length (escape_byte c)) s)
unfolding escape_loop
escape_loop-cons out_size o c s = refl

-- The field that is written behind o bytes.
Rest : ℕ → ℕ → Bytes → Type 0
Rest out_size o s =
    AllVisible s
    × (o + length s < out_size)
    × ((rest : Bytes) → behind_quote (s ++ (b'"' ∷ rest)) ≡ some rest)

quote_ends : (rest : Bytes) → behind_quote (b'"' ∷ rest) ≡ some rest
quote_ends [] = refl
quote_ends (d ∷ s) = refl

nothing-Rest : (out_size o : ℕ) → o < out_size → Rest out_size o []
unfolding Rest
nothing-Rest out_size o l = (tt, omega arith, quote_ends)

byte-Rest :
    (out_size o c : ℕ) (s : Bytes)
    → Rest out_size (o + length (escape_byte c)) s
    → Rest out_size o (escape_byte c ++ s)
unfolding Rest
byte-Rest out_size o c s (v, l, q) = (
  AllVisible-append (escape_byte c) s (byte-AllVisible c) v,
  omega (arith, length-append (escape_byte c) s),
  λ rest.
      ap behind_quote (append_assoc (escape_byte c) s (b'"' ∷ rest))
      ∙ byte-behind_quote c (s ++ (b'"' ∷ rest))
      ∙ q rest,
)

escape_loop-Rest :
    (out_size o : ℕ) (s : Bytes) → o < out_size → Rest out_size o (escape_loop out_size o s)
unfolding escape_loop
escape_loop-Rest out_size o [] l = nothing-Rest out_size o l
escape_loop-Rest out_size o (c ∷ s) l = elim (Bool-cases (not (ltb (o + 1) out_size))) [
  | inl y ↦ rw (escape_loop-cons out_size o c s, y) (nothing-Rest out_size o l)
  | inr x ↦ elim (Bool-cases (leb out_size (o + length (escape_byte c)))) [
    | inl y ↦ rw (escape_loop-cons out_size o c s, x, y) (nothing-Rest out_size o l)
    | inr z ↦
        rw (escape_loop-cons out_size o c s, x, z)
          (byte-Rest out_size o c (escape_loop out_size (o + length (escape_byte c)) s)
            (escape_loop-Rest out_size (o + length (escape_byte c)) s (ground arith)))
  ]
]

-- Whatever bytes a client sends, a field of the access log has no control byte, fits its buffer
-- with the NUL, and does not end a quoted field before the quote that the log puts behind it.
pub escape-IsField :
    (value : Option Bytes) (out_size : ℕ) → 0 < out_size → IsField out_size (escape value out_size)
unfolding escape Rest
escape-IsField none out_size l = nothing-Rest out_size 0 l
escape-IsField (some s) out_size l =
    let e : (out_size == 0) ≡ false = ground arith in
    let (v, m, q) = escape_loop-Rest out_size 0 s l in rw e (v, omega arith, q)
