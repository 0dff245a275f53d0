-- ===== src/Http/ProxyProtocol.antt =====
-- The PROXY protocol header in front of a connection: sapi/fpmng/fpm/fpm_http_proxy_protocol.c. Version
-- 1 is a line of text, version 2 is binary.
pub mod Slices
pub mod Settled
pub mod Shape
pub mod Exact
pub mod Print
pub mod Binary
mod Tests
use php_fpm_ng.Base.{
  ℕ, zero, suc, ◌+◌, ◌-◌, ◌*◌, ◌/◌, ◌%◌, Bool, true, false, not, ◌&&◌, ◌||◌, Option, none, some,
  List, [], ◌∷◌, Bytes, codes, length, get_or, take, drop, peek, starts_with, is_digit, ltb, leb,
  ◌==◌, if◌then◌else◌,
}
use php_fpm_ng.Http.Inet.{Family, inet, inet6, Inet}

-- `struct fpm_http_proxy_header_s`.
pub record Header : Type 0 where
  pub len : ℕ
  pub has_source : Bool
  pub addr : Bytes
  pub port : ℕ

-- `enum fpm_http_proxy_status`; `out` is written with DONE only.
pub data Status : Type 0 where
  need_more bad : Status
  done : Header → Status

abbrev pub v1_max : ℕ
v1_max = 107

abbrev pub v2_body_max : ℕ
v2_body_max = 512

abbrev pub v1_prefix : Bytes
v1_prefix = codes "PROXY "

abbrev pub v2_sig : Bytes
v2_sig = 0x0D ∷ 0x0A ∷ 0x0D ∷ 0x0A ∷ 0 ∷ 0x0D ∷ 0x0A ∷ 0x51 ∷ 0x55 ∷ 0x49 ∷ 0x54 ∷ 0x0A ∷ []

-- `memcmp` of a buffer with a constant, as far as both go, is 0.
unfoldable pub agrees : Bytes → Bytes → Bool
agrees [] s = true
agrees (x ∷ xs) [] = true
agrees (x ∷ xs) (y ∷ ys) = x == y && agrees xs ys

-- The value of a token of digits.
pub port_digits : ℕ → Bytes → Option ℕ
port_digits value [] = some value
port_digits value (c ∷ s) =
    let rest = port_digits (value * 10 + (c - b'0')) s in if is_digit c then rest else none

abbrev pub port_in_range : Option ℕ → Option ℕ
port_in_range none = none
port_in_range (some value) = if ltb 65535 value then none else some value

unfoldable pub v1_port : Bytes → Option ℕ
unfolding port_digits
v1_port tok =
    if length tok == 0 || ltb 5 (length tok) then none else port_in_range (port_digits 0 tok)

-- The C string that starts at a buffer with a NUL behind it.
unfoldable pub c_string : Bytes → Bytes
c_string [] = []
c_string (c ∷ s) = if c == 0 then [] else c ∷ c_string s

-- INET6_ADDRSTRLEN is 46.
unfoldable pub v1_addr : Inet → Family → Bytes → Option Bytes
unfolding c_string
v1_addr net family tok =
    if length tok == 0 || leb 46 (length tok) then none else net.pton family (c_string tok)

-- The bytes up to the next space, and the rest.
pub token_end : Bytes → Bytes × Bytes
token_end [] = ([], [])
token_end (c ∷ s) = if c == b' ' then ([], c ∷ s) else (c ∷ (token_end s).0, (token_end s).1)

unfoldable pub v1_token : Bytes → Option (Bytes × Bytes)
unfolding token_end
v1_token p = if length (token_end p).0 == 0 then none else some (token_end p)

pub v1_sep : Bytes → Option Bytes
v1_sep [] = none
v1_sep (c ∷ s) = if c == b' ' then some s else none

infixl 5 ◌>>=◌
abbrev pub ◌>>=◌ : {A B : Type 0} → Option A → (A → Option B) → Option B
none >>= f = none
some a >>= f = f a

-- What the line says of the source: the bytes of its address and its port.
pub v1_fields : Inet → Family → Bytes → Option (Bytes × ℕ)
unfolding v1_token v1_addr v1_port v1_sep
v1_fields net family p0 = do
  (tok1, p1) ← v1_token p0
  src ← v1_addr net family tok1
  p2 ← v1_sep p1
  (tok2, p3) ← v1_token p2
  dst ← v1_addr net family tok2
  p4 ← v1_sep p3
  (tok3, p5) ← v1_token p4
  sport ← v1_port tok3
  p6 ← v1_sep p5
  (tok4, p7) ← v1_token p6
  dport ← v1_port tok4
  if length p7 == 0 then some (src, sport) else none

pub v1_family : Bytes → Option Family
unfolding starts_with
v1_family p =
    if starts_with (codes "TCP4 ") p
    then some inet
    else if starts_with (codes "TCP6 ") p
    then some inet6
    else none

abbrev pub no_source : Header
no_source = record { len = 0; has_source = false; addr = []; port = 0 }

abbrev pub v1_source : Inet → Family → Bytes → Option Header
v1_source net family p = do
  (src, sport) ← v1_fields net family (drop 5 p)
  addr ← net.ntop family src
  some (record { len = 0; has_source = true; addr = addr; port = sport })

-- The line between "PROXY " and CRLF; `none` is BAD.
unfoldable pub v1_line : Inet → Bytes → Option Header
unfolding v1_family v1_fields starts_with
v1_line net p =
    if starts_with (codes "UNKNOWN") p && (length p == 7 || peek (drop 7 p) == b' ')
    then some no_source
    else do family ← v1_family p; v1_source net family p

-- The place of the first LF, if the loop meets one.
unfoldable pub find_lf : Bytes → Option ℕ
find_lf [] = none
find_lf (c ∷ s) = if c == 10 then some 0 else (do i ← find_lf s; some (suc i))

abbrev pub v1_status : ℕ → Option Header → Status
v1_status i none = bad
v1_status i (some tmp) = done (record tmp { len = i + 1 })

-- With the LF at `i`.
unfoldable pub v1_at : Inet → Bytes → ℕ → Status
unfolding v1_line
v1_at net buf i =
    if i == 0 || not (get_or buf (i - 1) 0 == 13)
    then bad
    else v1_status i (v1_line net (take (i - 1 - 6) (drop 6 buf)))

abbrev pub v1_found : Inet → Bytes → Option ℕ → Status
v1_found net buf none = if ltb (length buf) v1_max then need_more else bad
v1_found net buf (some i) = v1_at net buf i

-- The window is the first 107 bytes.
unfoldable pub parse_v1 : Inet → Bytes → Status
unfolding agrees find_lf v1_at
parse_v1 net buf =
    if not (agrees v1_prefix buf)
    then bad
    else if ltb (length buf) 6
    then need_more
    else v1_found net buf (find_lf (take v1_max buf))

abbrev pub v2_status : Header → ℕ → Option Bytes → Status
v2_status tmp port none = bad
v2_status tmp port (some addr) = done (record tmp { has_source = true; addr = addr; port = port })

-- `buf[i] << 8 | buf[i + 1]`.
abbrev pub word : Bytes → ℕ → ℕ
word buf i = get_or buf i 0 * 256 + get_or buf (i + 1) 0

-- Behind the fixed part, once the whole block is there.
unfoldable pub v2_block : Inet → Bytes → Header → ℕ → ℕ → ℕ → Status
v2_block net buf tmp command family body =
    if command == 0 || family == 0 || family == 3
    then done tmp
    else if family == 1
    then (if ltb body 12
        then bad
        else v2_status tmp (word buf 24) (net.ntop inet (take 4 (drop 16 buf))))
    else if ltb body 36
    then bad
    else v2_status tmp (word buf 48) (net.ntop inet6 (take 16 (drop 16 buf)))

-- `n >> 4` and `n & 0x0F` of a byte are its nibbles.
pub v2_refused : ℕ → ℕ → ℕ → Bool
v2_refused b12 b13 body =
    not (b12 / 16 == 2)
    || ltb 1 (b12 % 16)
    || ltb 3 (b13 / 16)
    || ltb 1 (b13 % 16)
    || ltb v2_body_max body

unfoldable pub v2_head : Inet → Bytes → ℕ → ℕ → ℕ → Status
unfolding v2_block v2_refused
v2_head net buf b12 b13 body =
    if v2_refused b12 b13 body
    then bad
    else if ltb (length buf) (16 + body)
    then need_more
    else v2_block net buf (record no_source { len = 16 + body }) (b12 % 16) (b13 / 16) body

unfoldable pub parse_v2 : Inet → Bytes → Status
unfolding agrees v2_head
parse_v2 net buf =
    if not (agrees v2_sig buf)
    then bad
    else if ltb (length buf) 16
    then need_more
    else v2_head net buf (get_or buf 12 0) (get_or buf 13 0) (word buf 14)

unfoldable pub parse : Inet → Bytes → Status
unfolding parse_v1 parse_v2
parse net [] = need_more
parse net (c ∷ s) =
    if c == b'P' then parse_v1 net (c ∷ s) else if c == 0x0D then parse_v2 net (c ∷ s) else bad
