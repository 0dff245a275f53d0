-- ===== src/Http/ProxyProtocol/Shape.antt =====
-- What a complete header is: a line up to its LF, or a block as long as its fixed part says.
use php_fpm_ng.Base.{
  ℕ, ◌+◌, ◌-◌, ◌/◌, ◌%◌, ◌≤◌, ◌<◌, ◌≡◌, ◌≢◌, refl, ap, Bool, true, false, not, ◌||◌, inl, inr,
  Option, none, some, [], ◌∷◌, arith, Bytes, length, get_or, take, length-take, ltb, ◌==◌,
  if◌then◌else◌, Bool-cases,
}
use php_fpm_ng.Http.Inet.{Inet}
use php_fpm_ng.Http.ProxyProtocol.{
  Status, need_more, bad, done, Header, agrees, find_lf, v1_prefix, v2_sig, v1_at, v1_found,
  v1_status, parse_v1, parse_v2, v2_head, v2_refused, v2_block, v2_status, word, parse,
}
use php_fpm_ng.Http.ProxyProtocol.Slices.{find_lf-lt, find_lf-agrees}

-- A test whose branch has another status was false.
pub passed : (t : Bool) (r s u : Status) → r ≢ u → (if t then r else s) ≡ u → (t ≡ false) × (s ≡ u)
passed true r s u n e = absurd (n e)
passed false r s u n e = (refl, e)

pub both : (P : Status → Type 0) (t : Bool) (r s : Status) → P r → P s → P (if t then r else s)
both P true r s p q = p
both P false r s p q = q

bad-ne-done : (h : Header) → bad ≢ done h
bad-ne-done h = λ e. cc

pub need_more-ne-done : (h : Header) → need_more ≢ done h
need_more-ne-done h = λ e. cc

pub bad-ne-need_more : bad ≢ need_more
bad-ne-need_more = λ e. cc

-- The line with its LF at `i` ends there.
v1_status-len : (i : ℕ) (o : Option Header) (h : Header) → v1_status i o ≡ done h → h.len ≡ i + 1
v1_status-len i none h e = cc
v1_status-len i (some tmp) h e = ground (arith, e)

v1_at-len : (net : Inet) (x : Bytes) (i : ℕ) (h : Header) → v1_at net x i ≡ done h → h.len ≡ i + 1
unfolding v1_at
v1_at-len net x i h e =
    v1_status-len i _ h
      (passed (i == 0 || not (get_or x (i - 1) 0 == 13)) bad _ (done h) (bad-ne-done h) e).1

not-eq_false : (t : Bool) → not t ≡ false → t ≡ true
not-eq_false true e = refl
not-eq_false false e = cc

ltb-eq_false : (a b : ℕ) → ltb a b ≡ false → b ≤ a
ltb-eq_false a b e = ground arith

-- What a complete line is: its end is the first LF, in the window and behind the prefix.
pub record Line (x : Bytes) (h : Header) : Type 0 where
  pub ends : find_lf (take 107 x) ≡ some (h.len - 1)
  pub behind : 7 ≤ h.len

v1_found-Line :
    (net : Inet) (x : Bytes) (h : Header) (o : Option ℕ)
    → v1_found net x o ≡ done h
    → o ≡ some (h.len - 1)
v1_found-Line net x h none e =
    absurd
      (bad-ne-done h (passed (ltb (length x) 107) need_more bad (done h) (need_more-ne-done h) e).1)
v1_found-Line net x h (some i) e = ap some (omega (arith, v1_at-len net x i h e))

pub parse_v1-Line : (net : Inet) (x : Bytes) (h : Header) → parse_v1 net x ≡ done h → Line x h
unfolding parse_v1 find_lf
parse_v1-Line net x h e =
    let (n, e1) = passed (not (agrees v1_prefix x)) bad _ (done h) (bad-ne-done h) e in
    let (l, e2) = passed (ltb (length x) 6) need_more _ (done h) (need_more-ne-done h) e1 in
    let f : find_lf (take 107 x) ≡ some (h.len - 1) = v1_found-Line net x h _ e2 in
    let m : 6 ≤ h.len - 1 =
      find_lf-agrees v1_prefix x 107 (h.len - 1) (ltb-eq_false (length x) 6 l) refl
        (not-eq_false (agrees v1_prefix x) n) f in
    record { ends = f; behind = omega arith }

-- What a complete block is: its end is where the length in the fixed part says.
pub record Block (x : Bytes) (h : Header) : Type 0 where
  pub fixed : 16 ≤ length x
  pub whole : h.len ≤ length x
  pub says : h.len ≡ 16 + word x 14
  pub small : h.len ≤ 528

v2_status-len :
    (tmp : Header) (port : ℕ) (o : Option Bytes) (h : Header)
    → v2_status tmp port o ≡ done h
    → h.len ≡ tmp.len
v2_status-len tmp port none h e = cc
v2_status-len tmp port (some addr) h e = ground (arith, e)

abbrev Ends : ℕ → Status → Type 0
Ends n s = (h : Header) → s ≡ done h → h.len ≡ n

Ends-bad : (n : ℕ) → Ends n bad
Ends-bad n h e = cc

Ends-done : (tmp : Header) → Ends tmp.len (done tmp)
Ends-done tmp h e = ground (arith, e)

v2_block-Ends :
    (net : Inet) (x : Bytes) (tmp : Header) (command family body : ℕ)
    → Ends tmp.len (v2_block net x tmp command family body)
unfolding v2_block
v2_block-Ends net x tmp command family body =
    let E = Ends tmp.len in
    both E (command == 0 || family == 0 || family == 3) (done tmp) _ (Ends-done tmp) (
      both E (family == 1) _ _
        (both E (ltb body 12) bad _ (Ends-bad tmp.len) (v2_status-len tmp (word x 24) _))
        (both E (ltb body 36) bad _ (Ends-bad tmp.len) (v2_status-len tmp (word x 48) _)))

v2_refused_small : (b12 b13 body : ℕ) → v2_refused b12 b13 body ≡ false → body ≤ 512
unfolding v2_refused
v2_refused_small b12 b13 body e = ground arith

v2_head-Block :
    (net : Inet) (x : Bytes) (b12 b13 : ℕ) (h : Header)
    → 16 ≤ length x
    → v2_head net x b12 b13 (word x 14) ≡ done h
    → Block x h
unfolding v2_head
v2_head-Block net x b12 b13 h f e =
    let (r, e1) = passed (v2_refused b12 b13 (word x 14)) bad _ (done h) (bad-ne-done h) e in
    let (l, e2) =
      passed (ltb (length x) (16 + word x 14)) need_more _ (done h) (need_more-ne-done h) e1 in
    let m : h.len ≡ 16 + word x 14 = v2_block-Ends net x _ (b12 % 16) (b13 / 16) (word x 14) h e2 in
    let k : 16 + word x 14 ≤ length x = ltb-eq_false (length x) (16 + word x 14) l in
    let j : word x 14 ≤ 512 = v2_refused_small b12 b13 (word x 14) r in
    record { fixed = f; whole = omega arith; says = m; small = omega arith }

pub parse_v2-Block : (net : Inet) (x : Bytes) (h : Header) → parse_v2 net x ≡ done h → Block x h
unfolding parse_v2
parse_v2-Block net x h e =
    let (n, e1) = passed (not (agrees v2_sig x)) bad _ (done h) (bad-ne-done h) e in
    let (l, e2) = passed (ltb (length x) 16) need_more _ (done h) (need_more-ne-done h) e1 in
    v2_head-Block net x (get_or x 12 0) (get_or x 13 0) h (ltb-eq_false (length x) 16 l) e2

-- The bytes of a complete header are there, and are at most FPM_HTTP_PROXY_MAX.
abbrev pub Bounds : Bytes → Header → Type 0
Bounds x h = (0 < h.len) × (h.len ≤ length x) × (h.len ≤ 528)

Line-Bounds : (x : Bytes) (h : Header) → Line x h → Bounds x h
Line-Bounds x h line =
    let l = find_lf-lt (take 107 x) (h.len - 1) line.ends in
    let m = length-take 107 x in
    (omega (arith, line.behind), omega (arith, l, m, line.behind), omega (arith, l, m, line.behind))

Block-Bounds : (x : Bytes) (h : Header) → Block x h → Bounds x h
Block-Bounds x h block = (omega (arith, block.says), block.whole, block.small)

pub parse-Bounds : (net : Inet) (x : Bytes) (h : Header) → parse net x ≡ done h → Bounds x h
unfolding parse
parse-Bounds net [] h e = absurd (need_more-ne-done h e)
parse-Bounds net (c ∷ x) h e = elim (Bool-cases (c == b'P')) [
  | inl y ↦ Line-Bounds (c ∷ x) h (parse_v1-Line net (c ∷ x) h (rw y at e))
  | inr n ↦ elim (Bool-cases (c == 13)) [
    | inl y ↦ Block-Bounds (c ∷ x) h (parse_v2-Block net (c ∷ x) h (rw (n, y) at e))
    | inr z ↦ absurd (bad-ne-done h (rw (n, z) at e))
  ]
]
