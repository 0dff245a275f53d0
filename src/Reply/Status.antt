-- ===== src/Reply/Status.antt =====
-- The value of a CGI Status line: `fpm_http_parse_cgi_status` of
-- sapi/fpmng/fpm/fpm_http_direct_request.c. It reads a copy that `strndup` made, so the bytes that
-- it may read end with the NUL of that copy, while it is told the length of the whole value.
use php_fpm_ng.Base.{
  ℕ, zero, suc, ◌+◌, ◌-◌, ◌*◌, Bool, ◌&&◌, ◌||◌, [], ◌∷◌, Bytes, is_digit, ltb, leb, ◌==◌,
  if◌then◌else◌,
}

-- `strndup`: the bytes before the first NUL.
unfoldable pub until_nul : Bytes → Bytes
until_nul [] = []
until_nul (c ∷ s) = let rest = until_nul s in if c == 0 then [] else c ∷ rest

-- A read behind the end, the answer false, or true with what was stored.
pub data Access (A : Type 0) : Type 0 where
  outside refuses : Access A
  gives : A → Access A

abbrev pub status_final : ℕ → Bool
status_final code = leb 200 code && leb code 599

-- The loop over the reason, `n` bytes from `s` on.
unfoldable pub reason_loop : ℕ → Bytes → Access Unit
reason_loop zero s = gives tt
reason_loop (suc n) [] = outside
reason_loop (suc n) (c ∷ s) =
    let rest = reason_loop n s in if ltb c 32 || c == 127 then refuses else rest

-- `n` digits, and what stands behind them.
unfoldable pub code_digits : ℕ → ℕ → Bytes → Access (ℕ × Bytes)
code_digits zero code s = gives (code, s)
code_digits (suc n) code [] = outside
code_digits (suc n) code (c ∷ s) =
    let rest = code_digits n (code * 10 + (c - b'0')) s in if is_digit c then rest else refuses

abbrev pub with_reason : ℕ → Bytes → Access Unit → Access (ℕ × Bytes)
with_reason code s outside = outside
with_reason code s refuses = refuses
with_reason code s (gives u) = gives (code, until_nul s)

abbrev pub behind_code : ℕ → ℕ → Bytes → Access (ℕ × Bytes)
behind_code vlen code [] = if vlen == 3 then gives (code, []) else outside
behind_code vlen code (c ∷ s) =
    if vlen == 3
    then gives (code, [])
    else if c == b' '
    then with_reason code s (reason_loop (vlen - 4) s)
    else refuses

abbrev pub if_final : Access (ℕ × Bytes) → Access (ℕ × Bytes)
if_final outside = outside
if_final refuses = refuses
if_final (gives (code, reason)) = if status_final code then gives (code, reason) else refuses

abbrev pub coded : ℕ → Access (ℕ × Bytes) → Access (ℕ × Bytes)
coded vlen outside = outside
coded vlen refuses = refuses
coded vlen (gives (code, s)) = if_final (behind_code vlen code s)

-- `cells` is what may be read.
unfoldable pub parse_cgi_status : Bytes → ℕ → Access (ℕ × Bytes)
unfolding reason_loop code_digits until_nul
parse_cgi_status cells vlen = if ltb vlen 3 then refuses else coded vlen (code_digits 3 0 cells)
