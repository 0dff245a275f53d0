-- ===== src/HttpClient/Size.antt =====
-- The chunk-size line of `fpm_http_http_body` (sapi/fpmng/fpm/fpm_http_client.c).
use php_fpm_ng.Base.{
  ℕ, ◌+◌, ◌-◌, ◌*◌, ◌/◌, ◌≤◌, ◌<◌, Bool, true, false, not, ◌||◌, Option, none, some, [], ◌∷◌, ◌++◌,
  ◌≡◌, ◌≢◌, refl, ◌∙◌, inl, inr, arith, Bytes, peek, within, ltb, leb, ◌==◌, if◌then◌else◌,
  Bool-cases,
}

-- SIZE_MAX of a 64-bit `size_t`.
abbrev pub size_max : ℕ
size_max = 18446744073709551615

abbrev pub is_hex : ℕ → Bool
is_hex c = within b'0' b'9' c || within b'a' b'f' c || within b'A' b'F' c

abbrev pub hex_digit : ℕ → ℕ
hex_digit c =
    if within b'0' b'9' c
    then c - b'0'
    else if within b'a' b'f' c
    then c - b'a' + 10
    else c - b'A' + 10

-- The loop over the digits: the value, and the line from the first byte that is no digit. `none`
-- is the `return -1` on a value that would wrap; `SIZE_MAX >> 4` is `size_max / 16`.
pub hex_loop : ℕ → Bytes → Option (ℕ × Bytes)
hex_loop v [] = some (v, [])
hex_loop v (c ∷ s) =
    let more = hex_loop (v * 16 + hex_digit c) s in
    if is_hex c then if ltb (size_max / 16) v then none else more else some (v, c ∷ s)

-- What may stand behind the digits.
abbrev pub ends_size : ℕ → Bool
ends_size c = c == b';' || c == b'\r' || c == b' ' || c == b'\t'

pub check_tail : Option (ℕ × Bytes) → Option ℕ
check_tail none = none
check_tail (some (v, [])) = some v
check_tail (some (v, c ∷ s)) = if ends_size c then some v else none

-- `i == 0` is a line with no digit at its front.
unfoldable pub parse_size : Bytes → Option ℕ
unfolding hex_loop check_tail
parse_size line = if not (is_hex (peek line)) then none else check_tail (hex_loop 0 line)

-- The number that hexadecimal digits write, behind a number read before them.
abbrev pub hexadecimal : ℕ → Bytes → ℕ
hexadecimal v [] = v
hexadecimal v (c ∷ s) = hexadecimal (v * 16 + hex_digit c) s

abbrev pub AllHex : Bytes → Type 0
AllHex [] = Unit
AllHex (c ∷ s) = (is_hex c ≡ true) × AllHex s

-- The line behind the digits: nothing, or an extension, a blank or the CR.
abbrev pub EndsSize : Bytes → Type 0
EndsSize [] = Unit
EndsSize (c ∷ s) = ends_size c ≡ true

hexadecimal-le : (v : ℕ) (ds : Bytes) → v ≤ hexadecimal v ds
hexadecimal-le v [] = omega arith
hexadecimal-le v (c ∷ s) = omega (arith, hexadecimal-le (v * 16 + hex_digit c) s)

hex_digit-lt : (c : ℕ) → is_hex c ≡ true → hex_digit c < 16
hex_digit-lt c h = ground arith

ends_size-not_hex : (c : ℕ) → ends_size c ≡ true → is_hex c ≡ false
ends_size-not_hex c h = ground arith

hex_loop-fits :
    (v : ℕ) (ds tail : Bytes)
    → AllHex ds
    → EndsSize tail
    → hexadecimal v ds ≤ size_max
    → hex_loop v (ds ++ tail) ≡ some (hexadecimal v ds, tail)
unfolding hex_loop
hex_loop-fits v [] [] a e l = refl
hex_loop-fits v [] (c ∷ tail) a e l = rw (ends_size-not_hex c e) refl
hex_loop-fits v (c ∷ ds) tail (h, a) e l =
    let small : ltb (size_max / 16) v ≡ false =
      ground (arith, hexadecimal-le (v * 16 + hex_digit c) ds) in
    rw (h, small) (hex_loop-fits (v * 16 + hex_digit c) ds tail a e l)

hex_loop-wraps :
    (v : ℕ) (ds tail : Bytes)
    → v ≤ size_max
    → AllHex ds
    → size_max < hexadecimal v ds
    → hex_loop v (ds ++ tail) ≡ none
unfolding hex_loop
hex_loop-wraps v [] tail b a l = absurd (omega arith)
hex_loop-wraps v (c ∷ ds) tail b (h, a) l = elim (Bool-cases (ltb (size_max / 16) v)) [
  | inl big ↦ rw (h, big) refl
  | inr small ↦
      let d : hex_digit c < 16 = hex_digit-lt c h in
      rw (h, small) (hex_loop-wraps (v * 16 + hex_digit c) ds tail (ground arith) a l)
]

check_tail-ends : (tail : Bytes) (v : ℕ) → EndsSize tail → check_tail (some (v, tail)) ≡ some v
unfolding check_tail
check_tail-ends [] v e = refl
check_tail-ends (c ∷ tail) v e = rw e refl

check_tail-none : check_tail none ≡ none
unfolding check_tail
check_tail-none = refl

parse_size_hex :
    (line : Bytes) → is_hex (peek line) ≡ true → parse_size line ≡ check_tail (hex_loop 0 line)
unfolding parse_size
parse_size_hex line h = rw h refl

peek_hex : (ds tail : Bytes) → ds ≢ [] → AllHex ds → is_hex (peek (ds ++ tail)) ≡ true
peek_hex [] tail n a = absurd (n refl)
peek_hex (c ∷ ds) tail n a = a.0

-- A size line gives the number that its digits write, if that fits a size_t, whatever extension
-- follows it; a larger number is refused.
pub parse_size-hexadecimal :
    (ds tail : Bytes)
    → ds ≢ []
    → AllHex ds
    → EndsSize tail
    → parse_size (ds ++ tail)
      ≡ (if leb (hexadecimal 0 ds) size_max then some (hexadecimal 0 ds) else none)
parse_size-hexadecimal ds tail n a e =
    parse_size_hex (ds ++ tail) (peek_hex ds tail n a)
    ∙ elim (Bool-cases (leb (hexadecimal 0 ds) size_max)) [
      | inl fits ↦
          rw (fits, hex_loop-fits 0 ds tail a e (ground arith))
            (check_tail-ends tail (hexadecimal 0 ds) e)
      | inr wraps ↦
          rw (wraps, hex_loop-wraps 0 ds tail (omega arith) a (ground arith)) check_tail-none
    ]
