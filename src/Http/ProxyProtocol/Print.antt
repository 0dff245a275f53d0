-- ===== src/Http/ProxyProtocol/Print.antt =====
-- The text of a version 1 header, and that the reader gives back what it says.
pub mod RoundTrip
use php_fpm_ng.Base.{
  ℕ, zero, suc, ◌+◌, ◌-◌, ◌*◌, ◌≤◌, ◌<◌, ◌≡◌, refl, sym, ap, ◌∙◌, Bool, true, false, not, ◌&&◌,
  ◌||◌, inl, inr, Option, none, some, List, [], ◌∷◌, ◌++◌, append_assoc, append-nil, arith, Bytes,
  codes, length, get_or, take, drop, is_digit, ltb, leb, ltb_cases, ltb_of_le, ltb_of_lt,
  length-append, ◌==◌, if◌then◌else◌,
}
use php_fpm_ng.Base.Tokens.{IsClean}
use php_fpm_ng.Base.Numeral.{decimal, AllDigits}
use php_fpm_ng.Http.Inet.{Family, inet, inet6, Inet}
use php_fpm_ng.Http.ProxyProtocol.{
  Header, Status, done, v1_prefix, c_string, v1_addr, v1_port, port_digits, token_end, v1_token,
  v1_sep, v1_fields, v1_line, v1_at, v1_family, v1_source, find_lf, parse_v1, parse, ◌>>=◌,
}
use php_fpm_ng.Http.ProxyProtocol.Slices.{take-append, find_lf-append}

-- A sender's view of a connection.
pub record Sent : Type 0 where
  pub family : Family
  pub src : Bytes
  pub dst : Bytes
  pub sport : Bytes
  pub dport : Bytes

abbrev pub family_text : Family → Bytes
family_text inet = codes "TCP4 "
family_text inet6 = codes "TCP6 "

abbrev pub fields_text : Sent → Bytes
fields_text s = s.src ++ b' ' ∷ (s.dst ++ b' ' ∷ (s.sport ++ b' ' ∷ s.dport))

abbrev pub line_text : Sent → Bytes
line_text s = family_text s.family ++ fields_text s

abbrev pub print_line : Sent → Bytes
print_line s = v1_prefix ++ (line_text s ++ 13 ∷ 10 ∷ [])

-- A space, a line feed or a NUL.
abbrev pub ends_token : ℕ → Bool
ends_token c = c == b' ' || c == 10 || c == 0

pub record IsAddress (net : Inet) (family : Family) (text bin : Bytes) : Type 0 where
  pub clean : IsClean ends_token text
  pub some_byte : 0 < length text
  pub short : length text < 46
  pub meaning : net.pton family text ≡ some bin

pub record IsPort (text : Bytes) : Type 0 where
  pub digits : AllDigits text
  pub some_digit : 0 < length text
  pub short : length text ≤ 5
  pub small : decimal 0 text ≤ 65535

port_digits-decimal : (v : ℕ) (t : Bytes) → AllDigits t → port_digits v t ≡ some (decimal v t)
unfolding port_digits
port_digits-decimal v [] h = refl
port_digits-decimal v (c ∷ t) (e, h) = rw e (port_digits-decimal (v * 10 + (c - b'0')) t h)

v1_port-decimal : (t : Bytes) → IsPort t → v1_port t ≡ some (decimal 0 t)
unfolding v1_port
v1_port-decimal t p =
    let a : (length t == 0) ≡ false = ground (arith, p.some_digit) in
    let b : ltb 5 (length t) ≡ false = ltb_of_le 5 (length t) p.short in
    rw (a, b, port_digits-decimal 0 t p.digits, ltb_of_le 65535 (decimal 0 t) p.small) refl

c_string-clean : (t : Bytes) → IsClean ends_token t → c_string t ≡ t
unfolding c_string
c_string-clean [] h = refl
c_string-clean (c ∷ t) (e, h) =
    let n : (c == 0) ≡ false = ground (arith, e) in rw n (ap (c ∷◌) (c_string-clean t h))

v1_addr-meaning :
    (net : Inet) (family : Family) (t bin : Bytes)
    → IsAddress net family t bin
    → v1_addr net family t ≡ some bin
unfolding v1_addr
v1_addr-meaning net family t bin a =
    let n : (length t == 0) ≡ false = ground (arith, a.some_byte) in
    let b : leb 46 (length t) ≡ false = ground (arith, a.short) in
    rw (n, b, c_string-clean t a.clean, a.meaning) refl

token_end-space : (t s : Bytes) → IsClean ends_token t → token_end (t ++ b' ' ∷ s) ≡ (t, b' ' ∷ s)
unfolding token_end
token_end-space [] s h = refl
token_end-space (c ∷ t) s (e, h) =
    let n : (c == b' ') ≡ false = ground (arith, e) in rw (n, token_end-space t s h) refl

token_end-all : (t : Bytes) → IsClean ends_token t → token_end t ≡ (t, [])
unfolding token_end
token_end-all [] h = refl
token_end-all (c ∷ t) (e, h) =
    let n : (c == b' ') ≡ false = ground (arith, e) in rw (n, token_end-all t h) refl

v1_token-space :
    (t s : Bytes)
    → 0 < length t
    → IsClean ends_token t
    → v1_token (t ++ b' ' ∷ s) ≡ some (t, b' ' ∷ s)
unfolding v1_token
v1_token-space t s l h =
    let n : (length t == 0) ≡ false = ground (arith, l) in rw (token_end-space t s h, n) refl

v1_token-all : (t : Bytes) → 0 < length t → IsClean ends_token t → v1_token t ≡ some (t, [])
unfolding v1_token
v1_token-all t l h =
    let n : (length t == 0) ≡ false = ground (arith, l) in rw (token_end-all t h, n) refl

digits-IsClean : (t : Bytes) → AllDigits t → IsClean ends_token t
digits-IsClean [] h = tt
digits-IsClean (c ∷ t) (e, h) = (ground (arith, e), digits-IsClean t h)

-- What a sender that keeps to the specification gives.
pub record IsSent (net : Inet) (s : Sent) (src dst : Bytes) : Type 0 where
  pub source : IsAddress net s.family s.src src
  pub target : IsAddress net s.family s.dst dst
  pub source_port : IsPort s.sport
  pub target_port : IsPort s.dport
  pub fits : length (print_line s) ≤ 107

pub v1_fields-text :
    (net : Inet) (s : Sent) (src dst : Bytes)
    → IsSent net s src dst
    → v1_fields net s.family (fields_text s) ≡ some (src, decimal 0 s.sport)
unfolding v1_fields
v1_fields-text net s src dst h =
    rw
      (
        v1_token-space s.src (s.dst ++ b' ' ∷ (s.sport ++ b' ' ∷ s.dport)) h.source.some_byte
            h.source.clean,
        v1_addr-meaning net s.family s.src src h.source,
        v1_token-space s.dst (s.sport ++ b' ' ∷ s.dport) h.target.some_byte h.target.clean,
        v1_addr-meaning net s.family s.dst dst h.target,
        v1_token-space s.sport s.dport h.source_port.some_digit
            (digits-IsClean s.sport h.source_port.digits),
        v1_port-decimal s.sport h.source_port,
        v1_token-all s.dport h.target_port.some_digit (digits-IsClean s.dport h.target_port.digits),
        v1_port-decimal s.dport h.target_port,
      )
      refl

c_string-nul : (t junk : Bytes) → IsClean ends_token t → c_string (t ++ 0 ∷ junk) ≡ t
unfolding c_string
c_string-nul [] junk h = refl
c_string-nul (c ∷ t) junk (e, h) =
    let n : (c == 0) ≡ false = ground (arith, e) in rw n (ap (c ∷◌) (c_string-nul t junk h))

-- Bytes behind a NUL are not seen by `inet_pton`, so an address with any such tail is accepted.
v1_addr-nul :
    (net : Inet) (family : Family) (t junk bin : Bytes)
    → IsAddress net family t bin
    → length (t ++ 0 ∷ junk) < 46
    → v1_addr net family (t ++ 0 ∷ junk) ≡ some bin
unfolding v1_addr
v1_addr-nul net family t junk bin a l =
    let n : (length (t ++ 0 ∷ junk) == 0) ≡ false = ground (arith, length-append t (0 ∷ junk)) in
    let b : leb 46 (length (t ++ 0 ∷ junk)) ≡ false = ground (arith, l) in
    rw (n, b, c_string-nul t junk a.clean, a.meaning) refl
