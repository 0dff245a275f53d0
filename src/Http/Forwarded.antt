-- ===== src/Http/Forwarded.antt =====
-- The client that a trusted proxy names: sapi/fpmng/fpm/fpm_http_forwarded.c.
pub mod Client
mod Tests
use php_fpm_ng.Base.{
  ℕ, ◌+◌, ◌-◌, ◌*◌, ◌^◌, Bool, true, false, not, ◌&&◌, ◌||◌, Option, none, some, List, [], ◌∷◌,
  ◌++◌, Bytes, codes, equal_case, length, take, is_digit, within, ltb, leb, ◌==◌, if◌then◌else◌,
}
use mathlib.Core.List.{reverse}
use php_fpm_ng.Http.Inet.{Inet}
use php_fpm_ng.Http.Acl.{AclEntry, acl_check, skip_blanks, blank_byte}

-- `struct fpm_http_forwarded_result_s`. An empty address or port overrides nothing; the port is the
-- number whose text is written.
pub record Result : Type 0 where
  pub remote_addr : Bytes
  pub scheme : Bytes
  pub https : Bool
  pub server_port : Option ℕ

-- The headers that are read; a missing one is `none`.
pub record Headers : Type 0 where
  pub xff : Option Bytes
  pub xfp : Option Bytes
  pub xfport : Option Bytes

-- The blanks at the end are taken off.
unfoldable pub drop_blanks_end : Bytes → Bytes
drop_blanks_end [] = []
drop_blanks_end (c ∷ s) =
    let t = drop_blanks_end s in if blank_byte c && length t == 0 then [] else c ∷ t

-- Into a buffer of 46 bytes.
unfoldable pub trim_copy : Bytes → Bytes
unfolding skip_blanks drop_blanks_end
trim_copy value = take 45 (drop_blanks_end (skip_blanks value))

-- What the loop does with one element: it is the client, or the loop goes on.
unfoldable pub is_client : Inet → Option (List AclEntry) → Bytes → Bool
unfolding trim_copy acl_check
is_client net trusted element =
    not (length (trim_copy element) == 0) && not (acl_check net trusted (some (trim_copy element)))

-- The walk from the right. The text in front is given from its end; `element` is what was passed
-- since the last comma.
unfoldable pub walk_left : Inet → Option (List AclEntry) → Bytes → Bytes → Bytes
unfolding is_client trim_copy
walk_left net trusted element [] = if is_client net trusted element then trim_copy element else []
walk_left net trusted element (c ∷ s) =
    let next = walk_left net trusted [] s in
    let longer = walk_left net trusted (c ∷ element) s in
    if c == b','
    then (if is_client net trusted element then trim_copy element else next)
    else longer

unfoldable pub client_of : Inet → Option (List AclEntry) → Option Bytes → Bytes
unfolding walk_left
client_of net trusted none = []
client_of net trusted (some xff) = walk_left net trusted [] (reverse xff)

-- `isspace` in the C locale.
abbrev pub is_white : ℕ → Bool
is_white c = c == b' ' || within 9 13 c

pub skip_spaces : Bytes → Bytes
skip_spaces [] = []
skip_spaces (c ∷ s) = if is_white c then skip_spaces s else c ∷ s

-- A sign; true for a minus.
abbrev sign_of : Bytes → Bool × Bytes
sign_of [] = (false, [])
sign_of (c ∷ s) = if c == b'-' then (true, s) else if c == b'+' then (false, s) else (false, c ∷ s)

-- The number that a text of digits only writes, as `strtol` gives it: clamped to LONG_MAX.
unfoldable pub digits_only : ℕ → Bytes → Option ℕ
digits_only v [] = some v
digits_only v (c ∷ s) =
    let v' = v * 10 + (c - b'0') in
    let rest = digits_only (if ltb (2 ^ 63 - 1) v' then 2 ^ 63 - 1 else v') s in
    if is_digit c then rest else none

abbrev port_of : Bool → Option ℕ → Option ℕ
port_of minus none = none
port_of minus (some port) = if not minus && ltb 0 port && leb port 65535 then some port else none

-- `strtol` must take the whole text, which is not empty; without a digit it takes nothing.
unfoldable pub forwarded_port : Option Bytes → Option ℕ
unfolding skip_spaces digits_only
forwarded_port none = none
forwarded_port (some text) =
    let (minus, s) = sign_of (skip_spaces text) in
    if length s == 0 then none else port_of minus (digits_only 0 s)

abbrev pub plain : Result
plain = record { remote_addr = []; scheme = codes "http"; https = false; server_port = none }

abbrev pub is_https : Option Bytes → Bool
is_https none = false
is_https (some xfp) = equal_case xfp (codes "https")

unfoldable pub resolve : Inet → Option (List AclEntry) → Option Bytes → Headers → Result
unfolding acl_check client_of forwarded_port equal_case
resolve net none peer h = plain
resolve net (some trusted) peer h =
    if not (acl_check net (some trusted) peer) then plain else record {
      remote_addr = client_of net (some trusted) h.xff;
      scheme = if is_https h.xfp then codes "https" else codes "http";
      https = is_https h.xfp;
      server_port = forwarded_port h.xfport;
    }
