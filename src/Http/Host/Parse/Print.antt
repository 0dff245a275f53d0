-- ===== src/Http/Host/Parse/Print.antt =====
-- A Host value as a client writes it is read back.
use php_fpm_ng.Base.{
  ℕ, ◌+◌, ◌-◌, ◌*◌, ◌≤◌, ◌<◌, ◌≡◌, ◌≢◌, refl, Bool, true, false, not, ◌||◌, [], ◌∷◌, ◌++◌, arith,
  Option, none, some, Bytes, peek, length, leb, ◌==◌,
}
use php_fpm_ng.Base.Numeral.{decimal, AllDigits}
use php_fpm_ng.Http.Host.{
  valid_name, dup_lower, is_blank, trim_front, trim_back, keep_unless, split_colon, port_loop,
  below_port, valid_port, parse_host, parse,
}
use php_fpm_ng.Http.Host.Parse.{All, is_host_byte, valid_name-All}

-- What stands behind the name.
abbrev pub port_text : Option Bytes → Bytes
port_text none = []
port_text (some p) = b':' ∷ p

-- One to five digits that write at most 65535, or no port.
abbrev pub IsPort : Option Bytes → Type 0
IsPort none = Unit
IsPort (some p) = AllDigits p × (1 ≤ length p) × (length p ≤ 5) × (decimal 0 p ≤ 65535)

port_loop-decimal : (v : ℕ) (p : Bytes) → AllDigits p → port_loop v p ≡ some (decimal v p)
unfolding port_loop
port_loop-decimal v [] a = refl
port_loop-decimal v (c ∷ p) (d, a) = rw d (port_loop-decimal (v * 10 + (c - b'0')) p a)

port-valid : (port : Option Bytes) → IsPort port → valid_port port ≡ true
unfolding valid_port below_port
port-valid none h = refl
port-valid (some p) (a, l, u, m) = rw (port_loop-decimal 0 p a) (ground arith)

-- No blank.
abbrev pub dark : ℕ → Bool
dark c = not (is_blank c)

host-dark : (s : Bytes) → All is_host_byte s → All dark s
host-dark [] h = tt
host-dark (c ∷ s) (x, h) = (ground arith, host-dark s h)

pub digits-dark : (s : Bytes) → AllDigits s → All dark s
digits-dark [] h = tt
digits-dark (c ∷ s) (x, h) = (ground arith, digits-dark s h)

pub All-append : (f : ℕ → Bool) (a b : Bytes) → All f a → All f b → All f (a ++ b)
All-append f [] b h k = k
All-append f (c ∷ a) b (x, h) k = (x, All-append f a b h k)

port-dark : (port : Option Bytes) → IsPort port → All dark (port_text port)
port-dark none h = tt
port-dark (some p) (a, l, u, m) = (refl, digits-dark p a)

pub trim_front-dark :
    (bl s t : Bytes) → All is_blank bl → All dark s → s ≢ [] → trim_front (bl ++ (s ++ t)) ≡ s ++ t
unfolding trim_front
trim_front-dark [] [] t h d n = absurd (n refl)
trim_front-dark [] (c ∷ s) t h (x, d) n = let y : is_blank c ≡ false = ground arith in rw y refl
trim_front-dark (b ∷ bl) s t (x, h) d n = rw x (trim_front-dark bl s t h d n)

keep_unless-false : (c : ℕ) (s : Bytes) → keep_unless false c s ≡ (c ∷ s)
keep_unless-false c [] = refl
keep_unless-false c (d ∷ s) = refl

trim_back-blanks : (bl : Bytes) → All is_blank bl → trim_back bl ≡ []
unfolding trim_back
trim_back-blanks [] h = refl
trim_back-blanks (c ∷ bl) (x, h) = rw (x, trim_back-blanks bl h) refl

pub trim_back-dark : (s bl : Bytes) → All dark s → All is_blank bl → trim_back (s ++ bl) ≡ s
unfolding trim_back
trim_back-dark [] bl d h = trim_back-blanks bl h
trim_back-dark (c ∷ s) bl (x, d) h =
    let y : is_blank c ≡ false = ground arith in
    rw (y, trim_back-dark s bl d h) (keep_unless-false c s)

split_colon-host :
    (s : Bytes) (port : Option Bytes)
    → All is_host_byte s
    → split_colon (s ++ port_text port) ≡ (s, port)
unfolding split_colon
split_colon-host [] none h = refl
split_colon-host [] (some p) h = refl
split_colon-host (c ∷ s) port (x, h) =
    let y : (c == b':') ≡ false = ground arith in rw (y, split_colon-host s port h) refl

parse_host-valid :
    (name : Bytes) (port : Option Bytes) (out_size : ℕ)
    → valid_name name ≡ true
    → IsPort port
    → length name < out_size
    → parse_host (name, port) out_size ≡ some (dup_lower name)
unfolding parse_host
parse_host-valid name port out_size v p l =
    let fits : leb out_size (length name) ≡ false = ground arith in
    rw (port-valid port p, v, fits) refl

valid_name-front :
    (name t : Bytes)
    → valid_name name ≡ true
    → All is_host_byte name
    → (length (name ++ t) == 0 || peek (name ++ t) == b'[') ≡ false
unfolding valid_name
valid_name-front [] t v h = cc
valid_name-front (c ∷ name) t v (x, h) = ground arith

nonempty : (s : Bytes) (b : Bool) → (length s == 0 || b) ≡ false → s ≢ []
nonempty [] b h = λ e. cc
nonempty (c ∷ s) b h = λ e. cc

-- A valid name, with a port or none and blanks round them, is handed on in lower case.
pub parse-print :
    (before after name : Bytes) (port : Option Bytes) (out_size : ℕ)
    → All is_blank before
    → All is_blank after
    → valid_name name ≡ true
    → IsPort port
    → length name < out_size
    → parse (before ++ ((name ++ port_text port) ++ after)) out_size ≡ some (dup_lower name)
unfolding parse
parse-print before after name port out_size b a v p l =
    let h = valid_name-All name v in
    let text = name ++ port_text port in
    let d : All dark text =
      All-append dark name (port_text port) (host-dark name h) (port-dark port p) in
    let first = valid_name-front name (port_text port) v h in
    let n : text ≢ [] = nonempty text (peek text == b'[') first in
    rw
      (
        trim_front-dark before text after b d n,
        trim_back-dark text after d a,
        first,
        split_colon-host name port h,
      )
      (parse_host-valid name port out_size v p l)
