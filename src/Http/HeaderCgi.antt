-- ===== src/Http/HeaderCgi.antt =====
-- The CGI name of a request header (sapi/fpmng/fpm/fpm_http_header_cgi.c).
pub mod Names
use php_fpm_ng.Base.{
  ℕ, ◌+◌, ◌-◌, Bool, true, false, ◌||◌, [], ◌∷◌, ◌++◌, map, Bytes, codes, within, length, ltb, ◌==◌,
  if◌then◌else◌, equal_case,
}

-- FPM_HTTP_HEADER_NAME_MAX.
abbrev pub name_max : ℕ
name_max = 1024

-- The return -1, the return 1, and the return 0 with the key in `out`.
pub data Key : Type 0 where
  refused skipped : Key
  key : Bytes → Key

abbrev pub cgi_byte : ℕ → ℕ
cgi_byte ch = if within b'a' b'z' ch then ch - (b'a' - b'A') else if ch == b'-' then b'_' else ch

-- `memchr(name, c, len) != NULL`.
unfoldable pub has : ℕ → Bytes → Bool
has c [] = false
has c (d ∷ s) = if d == c then true else has c s

pub mapped : Bytes → Bytes
mapped name = codes "HTTP_" ++ map cgi_byte name

-- `sizeof("HTTP_")` is 6.
unfoldable pub cgi_key : Bytes → Bool → ℕ → Key
unfolding equal_case has mapped
cgi_key name content_type_skip out_size =
    if ltb name_max (length name) || ltb out_size (length name + 6)
    then refused
    else if equal_case name (codes "Content-Length") || equal_case name (codes "Proxy")
    then skipped
    else if has b'_' name
    then skipped
    else if equal_case name (codes "Content-Type")
    then (if content_type_skip then skipped else key (codes "CONTENT_TYPE"))
    else key (mapped name)
