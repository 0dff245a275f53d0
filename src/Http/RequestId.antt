-- ===== src/Http/RequestId.antt =====
-- The correlation id of a request: sapi/fpmng/fpm/fpm_http_request_id.c.
mod Tests
pub mod Generated
use php_fpm_ng.Base.{
  ℕ, ◌+◌, ◌/◌, ◌%◌, Bool, true, false, not, ◌&&◌, ◌||◌, Option, none, some, List, [], ◌∷◌, Bytes,
  codes, length, get_or, is_digit, within, ltb, ◌==◌, if◌then◌else◌,
}

-- The digits of both nibbles of each byte.
unfoldable pub hex_bytes : Bytes → Bytes
hex_bytes [] = []
hex_bytes (b ∷ raw) =
    get_or (codes "0123456789abcdef") (b / 16) 0
    ∷ get_or (codes "0123456789abcdef") (b % 16) 0
    ∷ hex_bytes raw

-- `none` is the failure of getentropy, which gives 16 bytes. The text is `out`.
unfoldable pub generate : Option Bytes → Bool × Bytes
unfolding hex_bytes
generate none = (false, [])
generate (some raw) = (true, hex_bytes raw)

abbrev pub id_max : ℕ
id_max = 128

unfoldable pub id_byte : ℕ → Bool
id_byte c =
    is_digit c || within b'A' b'Z' c || within b'a' b'z' c || c == b'.' || c == b'_' || c == b'-'

unfoldable pub id_bytes : Bytes → Bool
unfolding id_byte
id_bytes [] = true
id_bytes (c ∷ s) = if not (id_byte c) then false else id_bytes s

unfoldable pub request_id_valid : Option Bytes → Bool
unfolding id_bytes
request_id_valid none = false
request_id_valid (some id) = if length id == 0 || ltb id_max (length id) then false else id_bytes id
