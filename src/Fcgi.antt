-- ===== src/Fcgi.antt =====
-- The FastCGI encoder of the gateway (sapi/fpmng/fpm/fpm_http_fcgi.c): records, lengths, and the
-- parameters of a request, none of which may straddle two records.
pub mod Decode
pub mod Stream
mod Tests
use php_fpm_ng.Base.{
  ℕ, ◌+◌, ◌-◌, ◌*◌, ◌/◌, ◌%◌, ◌^◌, Bool, true, false, ◌&&◌, [], ◌∷◌, ◌++◌, Bytes, length, replicate,
  ltb, ◌==◌, if◌then◌else◌,
}

-- FCGI_MAX_RECORD_LEN.
abbrev pub max_record_len : ℕ
max_record_len = 65528

-- FCGI_PARAMS.
abbrev pub params_type : ℕ
params_type = 4

-- The bytes that fill a record up to a multiple of eight.
abbrev pub padding : ℕ → ℕ
padding len = (8 - len % 8) % 8

-- The length of the content is two bytes wide.
unfoldable pub fcgi_record : ℕ → Bytes → Bytes
fcgi_record type content =
    let len = length content in
    1
    ∷ (type % 256)
    ∷ 0
    ∷ 1
    ∷ (len / 256 % 256)
    ∷ (len % 256)
    ∷ padding len
    ∷ 0
    ∷ (content ++ replicate (padding len) 0)

-- `(unsigned char) ((len >> 24) | 0x80)` is the remainder by 128, and 128.
unfoldable pub fcgi_len : ℕ → Bytes
fcgi_len len =
    if ltb len 128
    then len ∷ []
    else (len / 2 ^ 24 % 128 + 128) ∷ (len / 2 ^ 16 % 256) ∷ (len / 2 ^ 8 % 256) ∷ (len % 256) ∷ []

-- The fields of `fpm_http_conn` that the parameters use. A `params` that is NULL is empty.
pub record Conn : Type 0 where
  pub params : Bytes
  pub out : Bytes
  pub params_oversize : Bool

abbrev pub len_size : ℕ → ℕ
len_size n = if ltb n 128 then 1 else 4

abbrev pub pair_len : Bytes → Bytes → ℕ
pair_len name value = len_size (length name) + len_size (length value) + length name + length value

unfoldable pub pair : Bytes → Bytes → Bytes
unfolding fcgi_len
pair name value = fcgi_len (length name) ++ (fcgi_len (length value) ++ (name ++ value))

unfoldable pub param : Conn → Bytes → Bytes → Conn
unfolding pair fcgi_record
param c name value =
    if ltb max_record_len (pair_len name value)
    then record c { params_oversize = true }
    else if ltb max_record_len (length c.params + pair_len name value)
    then record c { out = c.out ++ fcgi_record params_type c.params; params = pair name value }
    else record c { params = c.params ++ pair name value }

-- The end of the parameters: what waits, and an empty record.
unfoldable pub finish : Conn → Bytes
unfolding fcgi_record
finish c =
    (if length c.params == 0 then c.out else c.out ++ fcgi_record params_type c.params)
    ++ fcgi_record params_type []
