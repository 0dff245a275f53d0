-- ===== src/Http/ProxyProtocol/Binary.antt =====
-- A version 2 header as a sender writes it, and that the reader gives back what it says.
use php_fpm_ng.Base.{
  ℕ, zero, suc, ◌+◌, ◌*◌, ◌/◌, ◌%◌, ◌≤◌, ◌≡◌, refl, sym, ap, ◌∙◌, true, false, some, [], ◌∷◌, ◌++◌,
  append_assoc, arith, Bytes, length, get_or, take, drop, ltb_of_le, length-append,
}
use php_fpm_ng.Http.Inet.{Family, inet, inet6, Inet}
use php_fpm_ng.Http.ProxyProtocol.{
  Header, done, v2_sig, agrees, word, parse, parse_v2, v2_head, v2_block, v2_refused,
}
use php_fpm_ng.Http.ProxyProtocol.Print.RoundTrip.{get_or-append_right, take-length}

-- The addresses in network order, the ports, and what else the sender appends.
pub record Sent : Type 0 where
  pub family : Family
  pub src : Bytes
  pub dst : Bytes
  pub sport : ℕ
  pub dport : ℕ
  pub tlvs : Bytes

abbrev pub address_size : Family → ℕ
address_size inet = 4
address_size inet6 = 16

-- The family in the high nibble, STREAM in the low one.
abbrev pub family_byte : Family → ℕ
family_byte inet = 0x11
family_byte inet6 = 0x21

abbrev pub block : Sent → Bytes
block s = s.src ++ (s.dst ++ s.sport / 256 ∷ s.sport % 256 ∷ s.dport / 256 ∷ s.dport % 256 ∷ s.tlvs)

abbrev pub print_block : Sent → Bytes
print_block s =
    v2_sig
    ++ 0x21 ∷ family_byte s.family ∷ length (block s) / 256 ∷ length (block s) % 256 ∷ block s

pub record IsSent (s : Sent) : Type 0 where
  pub source : length s.src ≡ address_size s.family
  pub target : length s.dst ≡ address_size s.family
  pub fits : length (block s) ≤ 512

abbrev pub header : Sent → Bytes → Header
header s addr = record {
  len = 16 + length (block s);
  has_source = true;
  addr = addr;
  port = s.sport;
}

length-block : (s : Sent) → length (block s) ≡ length s.src + (length s.dst + (4 + length s.tlvs))
length-block s = omega (
  arith,
  length-append {0} s.src
      (s.dst ++ s.sport / 256 ∷ s.sport % 256 ∷ s.dport / 256 ∷ s.dport % 256 ∷ s.tlvs),
  length-append {0} s.dst (s.sport / 256 ∷ s.sport % 256 ∷ s.dport / 256 ∷ s.dport % 256 ∷ s.tlvs),
)

-- The source port behind the two addresses.
port-block :
    (src dst t : Bytes) (n k : ℕ)
    → length src + length dst ≡ k
    → word (src ++ (dst ++ n / 256 ∷ n % 256 ∷ t)) k ≡ n
port-block src dst t n k e =
    let tail : Bytes = n / 256 ∷ n % 256 ∷ t in
    let i : k ≡ length src + (length dst + 0) = omega arith in
    let j : k + 1 ≡ length src + (length dst + 1) = omega arith in
    let a : get_or (src ++ (dst ++ tail)) (length src + (length dst + 0)) 0 ≡ n / 256 =
      get_or-append_right src (dst ++ tail) (length dst + 0) 0 ∙ get_or-append_right dst tail 0 0 in
    let b : get_or (src ++ (dst ++ tail)) (length src + (length dst + 1)) 0 ≡ n % 256 =
      get_or-append_right src (dst ++ tail) (length dst + 1) 0 ∙ get_or-append_right dst tail 1 0 in
    rw (j, b) (rw (i, a) (omega arith))

drop-exact : (k : ℕ) (a b : Bytes) → length a ≡ k → drop k (a ++ b) ≡ b
drop-exact zero [] b h = refl
drop-exact zero (c ∷ a) b h = absurd (omega arith)
drop-exact (suc k) [] b h = absurd (omega arith)
drop-exact (suc k) (c ∷ a) b h = drop-exact k a b (omega arith)

take-exact : (k : ℕ) (a b : Bytes) → length a ≡ k → take k (a ++ b) ≡ a
take-exact k a b h = ap (λ n. take n (a ++ b)) (sym h) ∙ take-length a b

word-skip : (p a : Bytes) (i k : ℕ) → i ≡ length p + k → word (p ++ a) i ≡ word a k
word-skip p a i k h =
    let j : i + 1 ≡ length p + (k + 1) = omega arith in
    rw (j, get_or-append_right p a (k + 1) 0) (rw (h, get_or-append_right p a k 0) refl)

-- The block of any two addresses of the family.
v2_block-family :
    (net : Inet) (f : Family) (src dst t fixed addr : Bytes) (n body : ℕ) (tmp : Header)
    → length fixed ≡ 16
    → length src ≡ address_size f
    → length dst ≡ address_size f
    → address_size f + address_size f + 4 ≤ body
    → net.ntop f src ≡ some addr
    → v2_block net
        (fixed ++ (src ++ (dst ++ n / 256 ∷ n % 256 ∷ t)))
        tmp
        1
        (family_byte f / 16)
        body
      ≡ done (record tmp { has_source = true; addr = addr; port = n })
unfolding v2_block
v2_block-family net inet src dst t fixed addr n body tmp w p q l e =
    let tail = dst ++ n / 256 ∷ n % 256 ∷ t in
    rw
      (
        ltb_of_le body 12 (omega arith),
        word-skip fixed (src ++ tail) 24 8 (omega arith),
        port-block src dst t n 8 (omega arith),
        drop-exact 16 fixed (src ++ tail) w,
        take-exact 4 src tail p,
        e,
      )
      refl
v2_block-family net inet6 src dst t fixed addr n body tmp w p q l e =
    let tail = dst ++ n / 256 ∷ n % 256 ∷ t in
    rw
      (
        ltb_of_le body 36 (omega arith),
        word-skip fixed (src ++ tail) 48 32 (omega arith),
        port-block src dst t n 32 (omega arith),
        drop-exact 16 fixed (src ++ tail) w,
        take-exact 16 src tail p,
        e,
      )
      refl

v2_refused-sent :
    (f : Family) (body : ℕ) → body ≤ 512 → v2_refused 0x21 (family_byte f) body ≡ false
unfolding v2_refused
v2_refused-sent inet body h = ltb_of_le 512 body h
v2_refused-sent inet6 body h = ltb_of_le 512 body h

family_byte-stream : (f : Family) → family_byte f % 16 ≡ 1
family_byte-stream inet = refl
family_byte-stream inet6 = refl

-- The fixed part.
abbrev fixed_part : Family → ℕ → Bytes
fixed_part f n = v2_sig ++ 0x21 ∷ family_byte f ∷ n / 256 ∷ n % 256 ∷ []

parse-fixed_part :
    (net : Inet) (f : Family) (n : ℕ) (x : Bytes)
    → n ≤ 512
    → n ≤ length x
    → parse net (fixed_part f n ++ x)
      ≡ v2_block net
          (fixed_part f n ++ x)
          (record { len = 16 + n; has_source = false; addr = []; port = 0 })
          1
          (family_byte f / 16)
          n
unfolding parse parse_v2 agrees v2_head
parse-fixed_part net f n x h l =
    let m : n / 256 * 256 + n % 256 ≡ n = omega arith in
    rw
      (
        m,
        ltb_of_le (length (fixed_part f n ++ x)) 16 (omega arith),
        v2_refused-sent f n h,
        ltb_of_le (length (fixed_part f n ++ x)) (16 + n) (omega arith),
      )
      refl

block-append :
    (s : Sent) (rest : Bytes)
    → block s ++ rest
      ≡ s.src
        ++ (s.dst
            ++ s.sport / 256 ∷ s.sport % 256 ∷ s.dport / 256 ∷ s.dport % 256 ∷ (s.tlvs ++ rest))
block-append s rest = rw (append_assoc, append_assoc) refl

pub parse-print_block :
    (net : Inet) (s : Sent) (addr rest : Bytes)
    → IsSent s
    → net.ntop s.family s.src ≡ some addr
    → parse net (print_block s ++ rest) ≡ done (header s addr)
parse-print_block net s addr rest h n =
    let size = length (block s) in
    let tmp : Header = record { len = 16 + size; has_source = false; addr = []; port = 0 } in
    let l : size ≤ length (block s ++ rest) = omega (arith, length-append {0} (block s) rest) in
    parse-fixed_part net s.family size (block s ++ rest) h.fits l
    ∙ ap (λ x. v2_block net (fixed_part s.family size ++ x) tmp 1 (family_byte s.family / 16) size)
        (block-append s rest)
    ∙ v2_block-family net s.family s.src s.dst (s.dport / 256 ∷ s.dport % 256 ∷ (s.tlvs ++ rest))
        (fixed_part s.family size) addr s.sport size tmp refl h.source h.target
        (omega (arith, length-block s, h.source, h.target)) n
