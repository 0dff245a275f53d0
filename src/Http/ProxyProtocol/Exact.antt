-- ===== src/Http/ProxyProtocol/Exact.antt =====
-- The reader asks for more until the whole header is there, and then gives one answer.
use php_fpm_ng.Base.{
  ℕ, ◌+◌, ◌-◌, ◌/◌, ◌%◌, ◌≤◌, ◌<◌, ◌≡◌, ◌≢◌, refl, sym, ◌∙◌, not, ◌||◌, inl, inr, ◌⊎◌, Option, none,
  some, [], ◌∷◌, ◌++◌, arith, Bytes, length, get_or, take, length-take, ltb, ◌==◌, Bool-cases,
  ltb_cases,
}
use php_fpm_ng.Http.Inet.{Inet}
use php_fpm_ng.Http.ProxyProtocol.{
  Status, need_more, bad, done, Header, agrees, v1_prefix, v2_sig, v1_at, v1_found, v1_status,
  parse_v1, parse_v2, v2_head, v2_refused, v2_block, v2_status, word, parse,
}
use php_fpm_ng.Http.ProxyProtocol.Slices.{take-append, find_lf-ge}
use php_fpm_ng.Http.ProxyProtocol.Settled.{parse-Settled, word-append}
use php_fpm_ng.Http.ProxyProtocol.Shape.{
  passed, both, parse-Bounds, bad-ne-need_more, Line, Block, parse_v1-Line, parse_v2-Block,
}

-- A status that more bytes do not change.
abbrev Final : Status → Type 0
Final s = s ≢ need_more

Final-bad : Final bad
Final-bad = λ e. cc

v1_status-Final : (i : ℕ) (o : Option Header) → Final (v1_status i o)
v1_status-Final i none = Final-bad
v1_status-Final i (some tmp) = λ e. cc

v1_at-Final : (net : Inet) (x : Bytes) (i : ℕ) → Final (v1_at net x i)
unfolding v1_at
v1_at-Final net x i =
    both Final (i == 0 || not (get_or x (i - 1) 0 == 13)) bad _ Final-bad (v1_status-Final i _)

v2_status-Final : (tmp : Header) (port : ℕ) (o : Option Bytes) → Final (v2_status tmp port o)
v2_status-Final tmp port none = Final-bad
v2_status-Final tmp port (some addr) = λ e. cc

v2_block-Final :
    (net : Inet) (x : Bytes) (tmp : Header) (command family body : ℕ)
    → Final (v2_block net x tmp command family body)
unfolding v2_block
v2_block-Final net x tmp command family body =
    both Final (command == 0 || family == 0 || family == 3) (done tmp) _ (λ e. cc)
      (both Final (family == 1) _ _
        (both Final (ltb body 12) bad _ Final-bad (v2_status-Final tmp (word x 24) _))
        (both Final (ltb body 36) bad _ Final-bad (v2_status-Final tmp (word x 48) _)))

-- The reader waits for a line as long as the bytes hold none, and are not as many as a line has.
v1_found_waits :
    (net : Inet) (a : Bytes) (o : Option ℕ)
    → v1_found net a o ≡ need_more
    → (o ≡ none) × (length a < 107)
v1_found_waits net a none e = elim (ltb_cases (length a) 107) [
  | inl (_, l) ↦ (refl, l)
  | inr (x, _) ↦ absurd (bad-ne-need_more (rw x at e))
]
v1_found_waits net a (some i) e = absurd (v1_at-Final net a i e)

parse_v1_waits :
    (net : Inet) (a b : Bytes) (h : Header)
    → parse_v1 net a ≡ need_more
    → Line (a ++ b) h
    → length a < h.len
unfolding parse_v1
parse_v1_waits net a b h e line =
    let (_, e1) = passed (not (agrees v1_prefix a)) bad _ need_more bad-ne-need_more e in
    elim (ltb_cases (length a) 6) [
      | inl (_, s) ↦ omega (arith, line.behind)
      | inr (l, _) ↦
          let (n, s) = v1_found_waits net a _ (rw l at e1) in
          let f = take-append 107 a b in
          let m =
            find_lf-ge (take 107 a) (take (107 - length a) b) (h.len - 1) n (rw f at line.ends) in
          omega (arith, m, length-take 107 a, line.behind)
    ]

v2_head_waits :
    (net : Inet) (a : Bytes) (b12 b13 body : ℕ)
    → v2_head net a b12 b13 body ≡ need_more
    → length a < 16 + body
unfolding v2_head
v2_head_waits net a b12 b13 body e =
    let (_, e1) = passed (v2_refused b12 b13 body) bad _ need_more bad-ne-need_more e in
    elim (ltb_cases (length a) (16 + body)) [
      | inl (_, s) ↦ s
      | inr (l, _) ↦ absurd (v2_block-Final net a _ (b12 % 16) (b13 / 16) body (rw l at e1))
    ]

parse_v2_waits :
    (net : Inet) (a b : Bytes) (h : Header)
    → parse_v2 net a ≡ need_more
    → Block (a ++ b) h
    → length a < h.len
unfolding parse_v2
parse_v2_waits net a b h e block =
    let (_, e1) = passed (not (agrees v2_sig a)) bad _ need_more bad-ne-need_more e in
    elim (ltb_cases (length a) 16) [
      | inl (_, s) ↦ omega (arith, block.says)
      | inr (l, s) ↦
          let m = v2_head_waits net a (get_or a 12 0) (get_or a 13 0) (word a 14) (rw l at e1) in
          omega (arith, m, block.says, word-append a b 14 (omega arith))
    ]

parse_waits :
    (net : Inet) (a b : Bytes) (h : Header)
    → parse net a ≡ need_more
    → parse net (a ++ b) ≡ done h
    → length a < h.len
unfolding parse
parse_waits net [] b h e d = (parse-Bounds net b h d).0
parse_waits net (c ∷ a) b h e d = elim (Bool-cases (c == b'P')) [
  | inl y ↦ parse_v1_waits net (c ∷ a) b h (rw y at e) (parse_v1-Line net _ h (rw y at d))
  | inr x ↦ elim (Bool-cases (c == 13)) [
    | inl y ↦
        parse_v2_waits net (c ∷ a) b h (rw (x, y) at e) (parse_v2-Block net _ h (rw (x, y) at d))
    | inr z ↦ absurd (bad-ne-need_more (rw (x, z) at e))
  ]
]

-- Whatever arrives first: a shorter part is answered by a request for more, and every part that
-- has the header by the header.
pub parse-exact :
    (net : Inet) (a b : Bytes) (h : Header)
    → parse net (a ++ b) ≡ done h
    → ((length a < h.len) × (parse net a ≡ need_more))
      ⊎ ((h.len ≤ length a) × (parse net a ≡ done h))
parse-exact net a b h d = elim (parse-Settled net a b) [
  | inl w ↦ inl (parse_waits net a b h w d, w)
  | inr s ↦ let e : parse net a ≡ done h = sym s ∙ d in inr ((parse-Bounds net a h e).1, e)
]
