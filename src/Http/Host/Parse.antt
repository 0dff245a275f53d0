-- ===== src/Http/Host/Parse.antt =====
-- What `fpm_http_host_parse` takes from a Host value, and what it hands on.
pub mod Print
use php_fpm_ng.Base.{
  ℕ, zero, suc, ◌+◌, ◌-◌, ◌*◌, ◌≤◌, ◌<◌, ◌≡◌, ◌≢◌, refl, sym, ◌∙◌, ap, Bool, true, false, not, ◌&&◌,
  ◌||◌, inl, inr, List, [], ◌∷◌, ◌++◌, map, append-nil, append_assoc, arith, Option, none, some,
  Bytes, peek, within, is_digit, lower, length, ltb, leb, ◌==◌, if◌then◌else◌, Bool-cases,
}
use php_fpm_ng.Base.Numeral.{decimal, AllDigits}
use php_fpm_ng.Http.Host.{
  name_max, label_max, is_letter_or_digit, name_loop, valid_name, dup_lower, is_blank, trim_front,
  trim_back, keep_unless, split_colon, front, port_loop, below_port, valid_port, parse_host, parse,
}

name_loop-lower :
    (x prev label : ℕ) (s : Bytes)
    → (x == b'-') ≡ (prev == b'-')
    → name_loop x label (map lower s) ≡ name_loop prev label s
unfolding name_loop
name_loop-lower x prev label [] e = rw e refl
name_loop-lower x prev label (c ∷ s) e =
    let dot : (lower c == b'.') ≡ (c == b'.') = ground arith in
    let hyphen : (lower c == b'-') ≡ (c == b'-') = ground arith in
    let letter : is_letter_or_digit (lower c) ≡ is_letter_or_digit c = ground arith in
    rw
      (
        dot,
        hyphen,
        letter,
        e,
        name_loop-lower (lower c) c 0 s hyphen,
        name_loop-lower (lower c) c (label + 1) s hyphen,
      )
      refl

length-map-lower : (s : Bytes) → length (map lower s) ≡ length s
length-map-lower [] = refl
length-map-lower (c ∷ s) = ap suc (length-map-lower s)

lower-lower : (s : Bytes) → map lower (map lower s) ≡ map lower s
lower-lower [] = refl
lower-lower (c ∷ s) = let e : lower (lower c) ≡ lower c = ground arith in rw (e, lower-lower s) refl

valid_name-lower : (s : Bytes) → valid_name (dup_lower s) ≡ valid_name s
unfolding valid_name dup_lower
valid_name-lower s = rw (length-map-lower s, name_loop-lower 0 0 0 s refl) refl

-- A name that is handed on is valid, in lower case, and fits the buffer with its NUL.
abbrev pub IsHost : ℕ → Option Bytes → Type 0
IsHost out_size none = Unit
IsHost out_size (some out) =
    (valid_name out ≡ true) × (length out < out_size) × (dup_lower out ≡ out)

dup_lower-twice : (s : Bytes) → dup_lower (dup_lower s) ≡ dup_lower s
unfolding dup_lower
dup_lower-twice s = lower-lower s

length-dup_lower : (s : Bytes) → length (dup_lower s) ≡ length s
unfolding dup_lower
length-dup_lower s = length-map-lower s

parse_host-IsHost :
    (p : Bytes × Option Bytes) (out_size : ℕ) → IsHost out_size (parse_host p out_size)
unfolding parse_host
parse_host-IsHost (host, port) out_size = elim (Bool-cases (not (valid_port port))) [
  | inl bad ↦ rw bad tt
  | inr ok ↦ elim (Bool-cases (not (valid_name host) || leb out_size (length host))) [
    | inl bad ↦ rw (ok, bad) tt
    | inr fits ↦
        rw (ok, fits)
          (
            rw (valid_name-lower host) (ground arith),
            rw (length-dup_lower host) (ground arith),
            dup_lower-twice host,
          )
  ]
]

-- Whatever a Host value holds, a name that is handed on is a valid host name in lower case that
-- fits the buffer.
pub parse-IsHost : (value : Bytes) (out_size : ℕ) → IsHost out_size (parse value out_size)
unfolding parse
parse-IsHost value out_size =
    let v = trim_back (trim_front value) in
    elim (Bool-cases (length v == 0 || peek v == b'[')) [
      | inl y ↦ rw y tt
      | inr x ↦ rw x (parse_host-IsHost (split_colon v) out_size)
    ]

abbrev pub All : (ℕ → Bool) → Bytes → Type 0
All f [] = Unit
All f (c ∷ s) = (f c ≡ true) × All f s

-- What a host name is written with.
abbrev is_host_byte : ℕ → Bool
is_host_byte c = is_letter_or_digit c || c == b'-' || c == b'.'

name_loop-All : (prev label : ℕ) (s : Bytes) → name_loop prev label s ≡ true → All is_host_byte s
unfolding name_loop
name_loop-All prev label [] h = tt
name_loop-All prev label (c ∷ s) h = elim (Bool-cases (c == b'.')) [
  | inl dot ↦ (ground arith, name_loop-All c 0 s (ground (arith, h, dot)))
  | inr other ↦ (ground (arith, h, other), name_loop-All c (label + 1) s (ground (arith, h, other)))
]

valid_name-All : (s : Bytes) → valid_name s ≡ true → All is_host_byte s
unfolding valid_name
valid_name-All s h = name_loop-All 0 0 s (ground (arith, h))
