-- ===== src/Http/Host.antt =====
-- Host names of requests (sapi/fpmng/fpm/fpm_http_host.c).
pub mod Grammar
pub mod Parse
use php_fpm_ng.Base.{
  ℕ, zero, suc, ◌+◌, ◌-◌, ◌*◌, Bool, true, false, not, ◌&&◌, ◌||◌, Option, none, some, [], ◌∷◌, map,
  Bytes, peek, within, is_digit, length, ltb, leb, ◌==◌, if◌then◌else◌, lower,
}

abbrev pub name_max : ℕ
name_max = 253

abbrev pub label_max : ℕ
label_max = 63

abbrev pub is_letter_or_digit : ℕ → Bool
is_letter_or_digit c = within b'a' b'z' c || within b'A' b'Z' c || is_digit c

-- The loop over the name, behind the byte `prev` and with `label` bytes of the current label read;
-- at the end, the test of the last label.
pub name_loop : ℕ → ℕ → Bytes → Bool
name_loop prev label [] = not (label == 0) && not (prev == b'-')
name_loop prev label (c ∷ s) =
    let next = name_loop c 0 s in
    let more = name_loop c (label + 1) s in
    if c == b'.'
    then (if label == 0 || prev == b'-' then false else next)
    else if not (is_letter_or_digit c) && not (c == b'-')
    then false
    else if c == b'-' && label == 0
    then false
    else if ltb label_max (label + 1)
    then false
    else more

unfoldable pub valid_name : Bytes → Bool
unfolding name_loop
valid_name name =
    if length name == 0 || ltb name_max (length name) then false else name_loop 0 0 name

-- `host_fold` is `tolower` of the C locale.
unfoldable pub dup_lower : Bytes → Bytes
dup_lower = map lower

-- The first len bytes.
unfoldable pub equal : Bytes → Bytes → ℕ → Bool
equal a b zero = true
equal [] [] (suc n) = true
equal [] (y ∷ b) (suc n) = false
equal (x ∷ a) [] (suc n) = false
equal (x ∷ a) (y ∷ b) (suc n) =
    let rest = equal a b n in if not (lower x == lower y) then false else rest

abbrev pub is_blank : ℕ → Bool
is_blank c = c == b' ' || c == b'\t'

unfoldable pub trim_front : Bytes → Bytes
trim_front [] = []
trim_front (c ∷ s) = let rest = trim_front s in if is_blank c then rest else c ∷ s

abbrev keep_unless : Bool → ℕ → Bytes → Bytes
keep_unless blank c [] = if blank then [] else c ∷ []
keep_unless blank c (d ∷ s) = c ∷ d ∷ s

-- The blanks at the end.
unfoldable pub trim_back : Bytes → Bytes
trim_back [] = []
trim_back (c ∷ s) = keep_unless (is_blank c) c (trim_back s)

abbrev front : ℕ → Bytes × Option Bytes → Bytes × Option Bytes
front c p = (c ∷ p.0, p.1)

-- The bytes before the first colon, and those behind it.
pub split_colon : Bytes → Bytes × Option Bytes
split_colon [] = ([], none)
split_colon (c ∷ s) = if c == b':' then ([], some s) else front c (split_colon s)

-- `none` is a byte that is no digit.
pub port_loop : ℕ → Bytes → Option ℕ
port_loop port [] = some port
port_loop port (c ∷ p) =
    let rest = port_loop (port * 10 + (c - b'0')) p in if is_digit c then rest else none

pub below_port : Option ℕ → Bool
below_port none = false
below_port (some port) = not (ltb 65535 port)

-- The port may be missing with its colon, but not be empty.
pub valid_port : Option Bytes → Bool
unfolding port_loop below_port
valid_port none = true
valid_port (some p) =
    if length p == 0 || ltb 5 (length p) then false else below_port (port_loop 0 p)

pub parse_host : Bytes × Option Bytes → ℕ → Option Bytes
unfolding valid_port valid_name dup_lower
parse_host (host, port) out_size =
    if not (valid_port port)
    then none
    else if not (valid_name host) || leb out_size (length host)
    then none
    else some (dup_lower host)

-- `none` is the return 0; `some` is the return 1 with the name in `out`.
unfoldable pub parse : Bytes → ℕ → Option Bytes
unfolding trim_front trim_back split_colon parse_host
parse value out_size =
    let v = trim_back (trim_front value) in
    if length v == 0 || peek v == b'[' then none else parse_host (split_colon v) out_size
