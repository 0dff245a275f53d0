-- ===== src/HttpClient/Header.antt =====
-- The header readers of sapi/fpmng/fpm/fpm_http_client.c: `fpm_http_http_header_dropped`,
-- `fpm_http_http_token_in`, `fpm_http_http_value_ulong`, `fpm_http_http_content_length` and
-- `fpm_http_http_split_header`.
pub mod Length
pub mod Fields
use php_fpm_ng.Base.{
  ℕ, ◌+◌, ◌-◌, ◌*◌, ◌/◌, ◌%◌, Bool, true, false, not, ◌||◌, Option, none, some, [], ◌∷◌, ◌++◌,
  Bytes, codes, is_digit, equal_case, starts_with_case, ltb, ◌==◌, if◌then◌else◌,
}
use php_fpm_ng.HttpClient.Size.{size_max}

unfoldable pub header_dropped : Bytes → Bool
unfolding equal_case starts_with_case
header_dropped key =
    equal_case key (codes "Connection")
    || equal_case key (codes "Keep-Alive")
    || equal_case key (codes "Transfer-Encoding")
    || equal_case key (codes "Upgrade")
    || equal_case key (codes "Trailer")
    || starts_with_case (codes "Proxy-") key

abbrev pub is_separator : ℕ → Bool
is_separator c = c == b',' || c == b' ' || c == b'\t'

-- `seen` is the text from `start` to `i`.
pub token_loop : Bytes → Bytes → Bytes → Bool
token_loop token seen [] = equal_case seen token
token_loop token seen (c ∷ s) =
    let next = token_loop token [] s in
    let grown = token_loop token (seen ++ c ∷ []) s in
    if is_separator c then if equal_case seen token then true else next else grown

unfoldable pub token_in : Bytes → Bytes → Bool
unfolding token_loop
token_in value token = token_loop token [] value

-- `size_t` arithmetic wraps here.
pub value_ulong_loop : ℕ → Bytes → ℕ
value_ulong_loop value [] = value
value_ulong_loop value (c ∷ v) =
    let rest = value_ulong_loop ((value * 10 + (c - b'0')) % (size_max + 1)) v in
    if is_digit c then rest else value

unfoldable pub value_ulong : Bytes → ℕ
unfolding value_ulong_loop
value_ulong = value_ulong_loop 0

pub content_length_loop : ℕ → Bytes → Option ℕ
content_length_loop value [] = some value
content_length_loop value (c ∷ v) =
    let digit = c - b'0' in
    let rest = content_length_loop (value * 10 + digit) v in
    if not (is_digit c) then none else if ltb ((size_max - digit) / 10) value then none else rest

unfoldable pub content_length : Bytes → Option ℕ
unfolding content_length_loop
content_length [] = none
content_length (c ∷ v) = content_length_loop 0 (c ∷ v)

abbrev pub is_space : ℕ → Bool
is_space c = c == b' ' || c == b'\t'

-- The loop that skips blanks at the front.
pub trim_front : Bytes → Bytes
trim_front [] = []
trim_front (c ∷ v) = if is_space c then trim_front v else c ∷ v

-- The loop that drops blanks at the back.
abbrev pub trim_last : ℕ → Bytes → Bytes
trim_last c [] = if is_space c then [] else c ∷ []
trim_last c (d ∷ v) = c ∷ d ∷ v

pub trim_back : Bytes → Bytes
trim_back [] = []
trim_back (c ∷ v) = trim_last c (trim_back v)

abbrev pub prepend_key : ℕ → Option (Bytes × Bytes) → Option (Bytes × Bytes)
prepend_key c none = none
prepend_key c (some (key, value)) = some (c ∷ key, value)

-- `memchr(line, ':', len)`.
pub split_colon : Bytes → Option (Bytes × Bytes)
split_colon [] = none
split_colon (c ∷ line) = if c == b':' then some ([], line) else prepend_key c (split_colon line)

abbrev pub trim_value : Option (Bytes × Bytes) → Option (Bytes × Bytes)
trim_value none = none
trim_value (some (key, value)) = some (key, trim_back (trim_front value))

unfoldable pub split_header : Bytes → Option (Bytes × Bytes)
unfolding split_colon trim_front trim_back
split_header line = trim_value (split_colon line)
