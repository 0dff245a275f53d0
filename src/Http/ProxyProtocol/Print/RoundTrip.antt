-- ===== src/Http/ProxyProtocol/Print/RoundTrip.antt =====
-- Reading a printed version 1 header, with any bytes behind it.
use php_fpm_ng.Base.{
  ℕ, zero, suc, ◌+◌, ◌-◌, ◌≤◌, ◌≡◌, refl, sym, ap, ◌∙◌, true, false, some, [], ◌∷◌, ◌++◌,
  append_assoc, arith, Bytes, length, get_or, take, drop, ltb, ltb_of_le, length-append, ◌==◌,
}
use php_fpm_ng.Base.Tokens.{IsClean}
use php_fpm_ng.Base.Numeral.{decimal, AllDigits}
use php_fpm_ng.Http.Inet.{Family, inet, inet6, Inet}
use php_fpm_ng.Http.ProxyProtocol.{
  Header, done, v1_prefix, agrees, v1_found, v1_status, v1_line, v1_at, v1_source, find_lf,
  parse_v1, parse,
}
use php_fpm_ng.Http.ProxyProtocol.Slices.{take-append, find_lf-append}
use php_fpm_ng.Http.ProxyProtocol.Print.{
  Sent, family_text, fields_text, line_text, print_line, ends_token, IsSent, v1_fields-text,
}

v1_line-family :
    (net : Inet) (f : Family) (t : Bytes)
    → v1_line net (family_text f ++ t) ≡ v1_source net f (family_text f ++ t)
unfolding v1_line
v1_line-family net inet t = refl
v1_line-family net inet6 t = refl

drop-family : (f : Family) (t : Bytes) → drop 5 (family_text f ++ t) ≡ t
drop-family inet t = refl
drop-family inet6 t = refl

-- The header that the reader makes of it.
abbrev pub header : Sent → Bytes → Header
header s addr = record {
  len = length (print_line s);
  has_source = true;
  addr = addr;
  port = decimal 0 s.sport;
}

v1_line-text :
    (net : Inet) (s : Sent) (src dst addr : Bytes)
    → IsSent net s src dst
    → net.ntop s.family src ≡ some addr
    → v1_line net (line_text s) ≡ some (record (header s addr) { len = 0 })
v1_line-text net s src dst addr h n =
    v1_line-family net s.family (fields_text s)
    ∙ rw (drop-family s.family (fields_text s), v1_fields-text net s src dst h, n) refl

-- No line feed.
abbrev NoLf : Bytes → Type 0
NoLf t = IsClean (λ c. c == 10) t

NoLf-clean : (t : Bytes) → IsClean ends_token t → NoLf t
NoLf-clean [] h = tt
NoLf-clean (c ∷ t) (e, h) = (ground (arith, e), NoLf-clean t h)

NoLf-digits : (t : Bytes) → AllDigits t → NoLf t
NoLf-digits [] h = tt
NoLf-digits (c ∷ t) (e, h) = (ground (arith, e), NoLf-digits t h)

NoLf-append : (a b : Bytes) → NoLf a → NoLf b → NoLf (a ++ b)
NoLf-append [] b h k = k
NoLf-append (c ∷ a) b (e, h) k = (e, NoLf-append a b h k)

find_lf-NoLf : (t b : Bytes) → NoLf t → find_lf (t ++ 10 ∷ b) ≡ some (length t)
unfolding find_lf
find_lf-NoLf [] b h = refl
find_lf-NoLf (c ∷ t) b (e, h) = rw (e, find_lf-NoLf t b h) refl

NoLf-family : (f : Family) → NoLf (family_text f)
NoLf-family inet = (refl, (refl, (refl, (refl, (refl, tt)))))
NoLf-family inet6 = (refl, (refl, (refl, (refl, (refl, tt)))))

NoLf-line_text :
    (net : Inet) (s : Sent) (src dst : Bytes) → IsSent net s src dst → NoLf (line_text s)
NoLf-line_text net s src dst h = NoLf-append (family_text s.family) _ (NoLf-family s.family) (
    NoLf-append s.src _ (NoLf-clean s.src h.source.clean) (
      refl,
      NoLf-append s.dst _ (NoLf-clean s.dst h.target.clean) (
        refl,
        NoLf-append s.sport _ (NoLf-digits s.sport h.source_port.digits)
            (refl, NoLf-digits s.dport h.target_port.digits),
      ),
    ))

pub take-length : (a b : Bytes) → take (length a) (a ++ b) ≡ a
take-length [] b = refl
take-length (c ∷ a) b = ap (c ∷◌) (take-length a b)

get_or-length : (a b : Bytes) (c d : ℕ) → get_or (a ++ c ∷ b) (length a) d ≡ c
get_or-length [] b c d = refl
get_or-length (x ∷ a) b c d = get_or-length a b c d

take_all : (n : ℕ) (a : Bytes) → length a ≤ n → take n a ≡ a
take_all zero [] h = refl
take_all zero (c ∷ a) h = elim h [ ]
take_all (suc n) [] h = refl
take_all (suc n) (c ∷ a) h = ap (c ∷◌) (take_all n a (omega arith))

-- The bytes in front of the LF.
abbrev before_lf : Sent → Bytes
before_lf s = v1_prefix ++ (line_text s ++ 13 ∷ [])

print_line-before_lf : (s : Sent) → print_line s ≡ before_lf s ++ 10 ∷ []
print_line-before_lf s =
    ap (λ t. v1_prefix ++ t) (sym (append_assoc (line_text s) (13 ∷ []) (10 ∷ [])))

length-before_lf : (s : Sent) → length (before_lf s) ≡ 7 + length (line_text s)
length-before_lf s = omega (arith, length-append {0} (line_text s) (13 ∷ []))

find_lf-window :
    (x rest : Bytes) (i : ℕ)
    → length x ≤ 107
    → find_lf x ≡ some i
    → find_lf (take 107 (x ++ rest)) ≡ some i
find_lf-window x rest i l e =
    let f = find_lf-append x (take (107 - length x) rest) i e in
    rw (take-append 107 x rest, take_all 107 x l) f

find_lf-print_line :
    (net : Inet) (s : Sent) (src dst : Bytes)
    → IsSent net s src dst
    → find_lf (print_line s) ≡ some (7 + length (line_text s))
find_lf-print_line net s src dst h =
    let lf : find_lf (before_lf s ++ 10 ∷ []) ≡ some (length (before_lf s)) =
      find_lf-NoLf (before_lf s) [] (
        NoLf-append v1_prefix _ (refl, (refl, (refl, (refl, (refl, (refl, tt))))))
          (NoLf-append (line_text s) _ (NoLf-line_text net s src dst h) (refl, tt))) in
    ap find_lf (print_line-before_lf s) ∙ lf ∙ ap some (length-before_lf s)

pub get_or-append_right : (p a : Bytes) (k d : ℕ) → get_or (p ++ a) (length p + k) d ≡ get_or a k d
get_or-append_right [] a k d = let e : 0 + k ≡ k = omega arith in rw e refl
get_or-append_right (x ∷ p) a k d =
    let e : suc (length p) + k ≡ suc (length p + k) = omega arith in
    rw e (get_or-append_right p a k d)

-- A line of any content between the prefix and its CRLF.
v1_at-line :
    (net : Inet) (line rest : Bytes)
    → v1_at net (v1_prefix ++ (line ++ 13 ∷ rest)) (7 + length line)
      ≡ v1_status (7 + length line) (v1_line net line)
unfolding v1_at
v1_at-line net line rest =
    let k = length line in
    let z : (7 + k == 0) ≡ false = ground arith in
    let i : 7 + k - 1 ≡ 6 + k = omega arith in
    let j : 6 + k - 6 ≡ k = omega arith in
    let c : get_or (v1_prefix ++ (line ++ 13 ∷ rest)) (6 + k) 0 ≡ 13 =
      get_or-append_right v1_prefix (line ++ 13 ∷ rest) k 0 ∙ get_or-length line rest 13 0 in
    rw (z, i, c, j, take-length line (13 ∷ rest)) refl

print_line-append :
    (s : Sent) (rest : Bytes) → print_line s ++ rest ≡ v1_prefix ++ (line_text s ++ 13 ∷ 10 ∷ rest)
print_line-append s rest = ap (λ t. v1_prefix ++ t) (append_assoc (line_text s) (13 ∷ 10 ∷ []) rest)

v1_at-print_line :
    (net : Inet) (s : Sent) (src dst addr rest : Bytes)
    → IsSent net s src dst
    → net.ntop s.family src ≡ some addr
    → v1_at net (print_line s ++ rest) (7 + length (line_text s)) ≡ done (header s addr)
v1_at-print_line net s src dst addr rest h n =
    let k = length (line_text s) in
    let l : length (print_line s) ≡ 7 + k + 1 =
      omega (arith, length-append {0} (line_text s) (13 ∷ 10 ∷ [])) in
    ap (λ t. v1_at net t (7 + k)) (print_line-append s rest)
    ∙ v1_at-line net (line_text s) (10 ∷ rest)
    ∙ rw (v1_line-text net s src dst addr h n, l) refl

parse-v1_prefix :
    (net : Inet) (x : Bytes)
    → parse net (v1_prefix ++ x)
      ≡ v1_found net (v1_prefix ++ x) (find_lf (take 107 (v1_prefix ++ x)))
unfolding parse parse_v1 agrees
parse-v1_prefix net x =
    let l : ltb (length (v1_prefix ++ x)) 6 ≡ false =
      ltb_of_le (length (v1_prefix ++ x)) 6 (omega arith) in
    rw l refl

pub parse-print_line :
    (net : Inet) (s : Sent) (src dst addr rest : Bytes)
    → IsSent net s src dst
    → net.ntop s.family src ≡ some addr
    → parse net (print_line s ++ rest) ≡ done (header s addr)
parse-print_line net s src dst addr rest h n =
    parse-v1_prefix net _
    ∙ ap (v1_found net (print_line s ++ rest))
        (find_lf-window (print_line s) rest _ h.fits (find_lf-print_line net s src dst h))
    ∙ v1_at-print_line net s src dst addr rest h n
