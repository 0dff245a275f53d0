-- ===== src/Http/Log.antt =====
-- The escapes of the access log (sapi/fpmng/fpm/fpm_http_access_log.c). A byte is below 256.
pub mod Utf8
pub mod Line
pub mod Json
use php_fpm_ng.Base.{
  ℕ, zero, suc, ◌+◌, ◌-◌, ◌*◌, ◌/◌, ◌%◌, Bool, true, false, not, ◌&&◌, ◌||◌, Option, none, some, [],
  ◌∷◌, ◌++◌, Bytes, codes, within, length, ltb, leb, ◌==◌, if◌then◌else◌, take, drop,
}

unfoldable pub escape_byte : ℕ → Bytes
escape_byte c =
    if c == b'"' || c == b'\\'
    then b'\\' ∷ c ∷ []
    else if ltb c 32 || c == 127
    then b'\\' ∷ b'?' ∷ []
    else c ∷ []

-- The loop, with o bytes written to a buffer of out_size.
unfoldable pub escape_loop : ℕ → ℕ → Bytes → Bytes
unfolding escape_byte
escape_loop out_size o [] = []
escape_loop out_size o (c ∷ s) =
    let n = length (escape_byte c) in
    let rest = escape_loop out_size (o + n) s in
    if not (ltb (o + 1) out_size)
    then []
    else if leb out_size (o + n)
    then []
    else escape_byte c ++ rest

-- The bytes before the NUL. `none` is NULL.
unfoldable pub escape : Option Bytes → ℕ → Bytes
unfolding escape_loop
escape none out_size = []
escape (some s) out_size = if out_size == 0 then [] else escape_loop out_size 0 s

-- The code point behind `need` more bytes; `none` is a byte that continues no sequence.
pub utf8_loop : ℕ → ℕ → Bytes → Option ℕ
utf8_loop zero cp s = some cp
utf8_loop (suc n) cp [] = none
utf8_loop (suc n) cp (c ∷ s) =
    let more = utf8_loop n (cp * 64 + c % 64) s in if c / 64 == 2 then more else none

-- Overlong forms, surrogates, and what is past U+10FFFF.
pub utf8_refuse : ℕ → Option ℕ → ℕ
utf8_refuse need none = 0
utf8_refuse need (some cp) =
    if need == 3 && (ltb cp 2048 || within 55296 57343 cp)
      || need == 4 && (ltb cp 65536 || ltb 1114111 cp)
    then 0
    else need

-- The bit masks are remainders: 0x1f is `% 32`.
unfoldable pub utf8_len : Bytes → ℕ
unfolding utf8_loop utf8_refuse
utf8_len [] = 0
utf8_len (c ∷ s) =
    if within 194 223 c
    then utf8_refuse 2 (utf8_loop 1 (c % 32) s)
    else if within 224 239 c
    then utf8_refuse 3 (utf8_loop 2 (c % 16) s)
    else if within 240 244 c
    then utf8_refuse 4 (utf8_loop 3 (c % 8) s)
    else 0

abbrev pub hex : ℕ → ℕ
hex n = if ltb n 10 then b'0' + n else 87 + n

unfoldable pub json_unit : ℕ → Bytes
json_unit c =
    if c == b'"' || c == b'\\'
    then b'\\' ∷ c ∷ []
    else if c == 8
    then codes "\\b"
    else if c == 12
    then codes "\\f"
    else if c == 10
    then codes "\\n"
    else if c == 13
    then codes "\\r"
    else if c == 9
    then codes "\\t"
    else if ltb c 32 || leb 127 c
    then codes "\\u00" ++ (hex (c / 16) ∷ hex (c % 16) ∷ [])
    else c ∷ []

-- The unit at the front of the input, and the number of bytes that it takes.
unfoldable pub next_unit : ℕ → Bytes → Bytes × ℕ
unfolding utf8_len json_unit
next_unit c s =
    if leb 128 c && not (utf8_len (c ∷ s) == 0)
    then (take (utf8_len (c ∷ s)) (c ∷ s), utf8_len (c ∷ s))
    else (json_unit c, 1)

-- `while (*in)` on fuel, with o bytes written.
unfoldable pub json_loop : ℕ → ℕ → ℕ → Bytes → Bytes
unfolding next_unit
json_loop f out_size o [] = []
json_loop zero out_size o (c ∷ s) = []
json_loop (suc f) out_size o (c ∷ s) =
    let (unit, n) = next_unit c s in
    let rest = json_loop f out_size (o + length unit) (drop n (c ∷ s)) in
    if ltb out_size (o + length unit + 2) then [] else unit ++ rest

abbrev null_value : ℕ → Bytes
null_value out_size = take (out_size - 1) (codes "null")

-- The bytes before the NUL. A buffer of one or two bytes is too small for the quotes and the NUL,
-- which are written all the same.
unfoldable pub json_value : Option Bytes → ℕ → Bytes
unfolding json_loop
json_value none out_size = null_value out_size
json_value (some []) out_size = null_value out_size
json_value (some (c ∷ s)) out_size =
    if out_size == 0
    then []
    else b'"' ∷ (json_loop (length (c ∷ s)) out_size 1 (c ∷ s) ++ (b'"' ∷ []))
