-- ===== src/Http/RequestId/Generated.antt =====
-- A generated id is one that the gateway accepts, and stands for the bytes it was made of.
use mathlib.Core.Path.{subst}
use php_fpm_ng.Base.{
  ℕ, zero, suc, ◌+◌, ◌-◌, ◌*◌, ◌/◌, ◌%◌, ◌<◌, ◌≡◌, refl, true, some, [], ◌∷◌, arith, Bytes, codes,
  length, get_or, ltb, ◌==◌, ==_iff, Bool-cases, sym, inl, inr, if◌then◌else◌,
}
use php_fpm_ng.Http.RequestId.{hex_bytes, generate, id_byte, id_bytes, request_id_valid}

abbrev pub AllBytes : Bytes → Type 0
AllBytes [] = Unit
AllBytes (b ∷ s) = (b < 256) × AllBytes s

-- The value of a lower-case hexadecimal digit.
abbrev pub hex_value : ℕ → ℕ
hex_value c = if ltb c b'a' then c - b'0' else c - b'a' + 10

pub unhex : Bytes → Bytes
unhex [] = []
unhex (h ∷ []) = []
unhex (h ∷ l ∷ s) = (hex_value h * 16 + hex_value l) ∷ unhex s

-- What holds of every nibble, one by one.
abbrev Nibbles : (ℕ → Type 0) → ℕ → Type 0
Nibbles P zero = Unit
Nibbles P (suc n) = Nibbles P n × P n

nibble : (P : ℕ → Type 0) (n k : ℕ) → Nibbles P n → k < n → P k
nibble P zero k u h = elim h [ ]
nibble P (suc n) k (u, p) h = elim (Bool-cases (k == n)) [
  | inl e ↦ subst P (sym ((==_iff k n).0 e)) p
  | inr x ↦ nibble P n k u (ground arith)
]

abbrev digit : ℕ → ℕ
digit n = get_or (codes "0123456789abcdef") n 0

digit-id_byte : (n : ℕ) → n < 16 → id_byte (digit n) ≡ true
unfolding id_byte
digit-id_byte n h =
    nibble (λ k. id_byte (digit k) ≡ true) 16 n
      (
        (
          (
            (
              (
                (
                  (
                    (((((((((tt, refl), refl), refl), refl), refl), refl), refl), refl), refl),
                    refl,
                  ),
                  refl,
                ),
                refl,
              ),
              refl,
            ),
            refl,
          ),
          refl,
        ),
        refl,
      )
      h

digit-hex_value : (n : ℕ) → n < 16 → hex_value (digit n) ≡ n
digit-hex_value n h =
    nibble (λ k. hex_value (digit k) ≡ k) 16 n
      (
        (
          (
            (
              (
                (
                  (
                    (((((((((tt, refl), refl), refl), refl), refl), refl), refl), refl), refl),
                    refl,
                  ),
                  refl,
                ),
                refl,
              ),
              refl,
            ),
            refl,
          ),
          refl,
        ),
        refl,
      )
      h

unhex-hex_bytes : (raw : Bytes) → AllBytes raw → unhex (hex_bytes raw) ≡ raw
unfolding unhex hex_bytes
unhex-hex_bytes [] h = refl
unhex-hex_bytes (b ∷ raw) (p, h) =
    let u : b / 16 < 16 = omega arith in
    let v : b % 16 < 16 = omega arith in
    let w : b / 16 * 16 + b % 16 ≡ b = omega arith in
    rw (digit-hex_value (b / 16) u, digit-hex_value (b % 16) v, w, unhex-hex_bytes raw h) refl

length-hex_bytes : (raw : Bytes) → length (hex_bytes raw) ≡ 2 * length raw
unfolding hex_bytes
length-hex_bytes [] = omega arith
length-hex_bytes (b ∷ raw) = omega (arith, length-hex_bytes raw)

id_bytes-hex_bytes : (raw : Bytes) → AllBytes raw → id_bytes (hex_bytes raw) ≡ true
unfolding id_bytes hex_bytes
id_bytes-hex_bytes [] h = refl
id_bytes-hex_bytes (b ∷ raw) (p, h) =
    let u : b / 16 < 16 = omega arith in
    let v : b % 16 < 16 = omega arith in
    rw (digit-id_byte (b / 16) u, digit-id_byte (b % 16) v, id_bytes-hex_bytes raw h) refl

-- The id of 16 random bytes has 32 bytes, would be accepted from a client, and decodes to the
-- random bytes, so that two ids are equal only if these are.
pub generate-valid :
    (raw : Bytes)
    → length raw ≡ 16
    → AllBytes raw
    → (request_id_valid (some (generate (some raw)).1) ≡ true)
      × (length (generate (some raw)).1 ≡ 32)
      × (unhex (generate (some raw)).1 ≡ raw)
unfolding generate request_id_valid
generate-valid raw l h =
    let n : length (hex_bytes raw) ≡ 32 = omega (arith, length-hex_bytes raw) in
    (rw (n, id_bytes-hex_bytes raw h) refl, n, unhex-hex_bytes raw h)
