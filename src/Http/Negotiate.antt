-- ===== src/Http/Negotiate.antt =====
-- Accept-Encoding and Cache-Control of static files: sapi/fpmng/fpm/fpm_http_static_negotiate.c.
-- A pointer into the header is the list of bytes from it on; the loops over the places of a
-- separator go over the pieces between them. The blanks that Http.Host trims are the same.
pub mod Pieces
pub mod Items
pub mod Accepts
pub mod Longest
mod Tests
use php_fpm_ng.Base.{
  ℕ, Bool, true, false, not, ◌&&◌, ◌||◌, Option, none, some, List, [], ◌∷◌, Bytes, equal_case,
  starts_with, length, ltb, ◌==◌, if◌then◌else◌,
}
use php_fpm_ng.Http.Host.{trim_front, trim_back}

-- Only zeros and points, with a zero among them. `digit` is whether there was one.
unfoldable pub zero_loop : Bool → Bytes → Bool
zero_loop digit [] = digit
zero_loop digit (c ∷ s) =
    let rest = zero_loop true s in
    let point = zero_loop digit s in if c == b'0' then rest else if c == b'.' then point else false

unfoldable pub qvalue_is_zero : Bytes → Bool
unfolding zero_loop
qvalue_is_zero = zero_loop false

abbrev pub in_front : ℕ → List Bytes → List Bytes
in_front c [] = (c ∷ []) ∷ []
in_front c (p ∷ ps) = (c ∷ p) ∷ ps

-- The text between the places of a separator, as `strchr` and `memchr` find them.
unfoldable pub pieces : ℕ → Bytes → List Bytes
pieces d [] = [] ∷ []
pieces d (c ∷ s) = let rest = pieces d s in if c == d then [] ∷ rest else in_front c rest

-- The value of a q parameter, behind the blanks in front of it.
unfoldable pub q_value : Bytes → Option Bytes
q_value [] = none
q_value (q ∷ []) = none
q_value (q ∷ e ∷ v) = if (q == b'q' || q == b'Q') && e == b'=' then some v else none

-- The parameters, each as the text behind its semicolon. The first q parameter answers.
abbrev pub refused_by : Option Bytes → Bool → Bool
refused_by none rest = rest
refused_by (some v) rest = qvalue_is_zero (trim_back v)

unfoldable pub params_refuse : List Bytes → Bool
unfolding q_value qvalue_is_zero
params_refuse [] = false
params_refuse (p ∷ ps) = refused_by (q_value (trim_front p)) (params_refuse ps)

-- One element of the header, cut at its semicolons.
unfoldable pub offers : Bytes → List Bytes → Bool
unfolding params_refuse
offers coding [] = false
offers coding (name ∷ params) =
    equal_case (trim_back (trim_front name)) coding && not (params_refuse params)

unfoldable pub any_offers : Bytes → List Bytes → Bool
unfolding pieces offers
any_offers coding [] = false
any_offers coding (e ∷ es) =
    let rest = any_offers coding es in if offers coding (pieces b';' e) then true else rest

unfoldable pub accepts : Option Bytes → Bytes → Bool
unfolding any_offers pieces
accepts none coding = false
accepts (some accept) coding = any_offers coding (pieces b',' accept)

-- `struct key_value_s`, without the link to the next one.
pub record Rule : Type 0 where
  pub key : Bytes
  pub value : Bytes

-- The loop, with `best` and `best_len`.
unfoldable pub rules_loop : Bytes → Option Bytes → ℕ → List Rule → Option Bytes
rules_loop path best best_len [] = best
rules_loop path best best_len (r ∷ rules) =
    let better = rules_loop path (some r.value) (length r.key) rules in
    let rest = rules_loop path best best_len rules in
    if ltb best_len (length r.key) && starts_with r.key path then better else rest

unfoldable pub cache_control_for : List Rule → Bytes → Option Bytes
unfolding rules_loop
cache_control_for rules path = rules_loop path none 0 rules
