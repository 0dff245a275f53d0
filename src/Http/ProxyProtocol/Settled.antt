-- ===== src/Http/ProxyProtocol/Settled.antt =====
-- What a prefix of a stream settles: an answer other than a request for more stays.
use php_fpm_ng.Base.{
  ℕ, ◌+◌, ◌-◌, ◌/◌, ◌%◌, ◌≤◌, ◌<◌, ◌≡◌, refl, ◌∙◌, true, false, inl, inr, ◌⊎◌, some, [], ◌∷◌, ◌++◌,
  arith, Bytes, length, get_or, take, drop, length-append, length-take, ltb, ◌==◌, Bool-cases,
  ltb_cases, ltb_of_lt, ltb_of_le, Option-cases, append-nil,
}
use php_fpm_ng.Http.Inet.{Inet}
use php_fpm_ng.Http.ProxyProtocol.{
  Status, need_more, Header, agrees, find_lf, v1_prefix, v2_sig, v1_at, v1_found, parse_v1,
  parse_v2, v2_head, v2_refused, v2_block, word, parse,
}
use php_fpm_ng.Http.ProxyProtocol.Slices.{
  get_or-append, take-append, slice-append, agrees_within, agrees_refused, find_lf-append,
  find_lf-lt, find_lf-agrees,
}

-- More bytes change the answer only after a request for more.
abbrev pub Settled : Status → Status → Type 0
Settled before after = (before ≡ need_more) ⊎ (after ≡ before)

pub word-append : (a b : Bytes) (i : ℕ) → i + 1 < length a → word (a ++ b) i ≡ word a i
word-append a b i h =
    rw (get_or-append a b i 0 (omega arith), get_or-append a b (i + 1) 0 (omega arith)) refl

v1_at-append :
    (net : Inet) (a b : Bytes) (i : ℕ) → 6 ≤ i → i < length a → v1_at net (a ++ b) i ≡ v1_at net a i
unfolding v1_at
v1_at-append net a b i g h =
    let c : get_or (a ++ b) (i - 1) 0 ≡ get_or a (i - 1) 0 =
      get_or-append a b (i - 1) 0 (omega arith) in
    rw (c, slice-append 6 (i - 1 - 6) a b (omega arith)) refl

-- A full window is not changed by more bytes.
window_full : (a b : Bytes) → 107 ≤ length a → take 107 (a ++ b) ≡ take 107 a
window_full a b h =
    let e : 107 - length a ≡ 0 = omega arith in take-append 107 a b ∙ rw (e, append-nil) refl

find_lf-window :
    (a b : Bytes) (i : ℕ) → find_lf (take 107 a) ≡ some i → find_lf (take 107 (a ++ b)) ≡ some i
find_lf-window a b i h =
    rw (take-append 107 a b) (find_lf-append (take 107 a) (take (107 - length a) b) i h)

window-Settled :
    (net : Inet) (a b : Bytes)
    → 6 ≤ length a
    → agrees v1_prefix a ≡ true
    → Settled
        (v1_found net a (find_lf (take 107 a)))
        (v1_found net (a ++ b) (find_lf (take 107 (a ++ b))))
unfolding find_lf
window-Settled net a b l g = elim (Option-cases (find_lf (take 107 a))) [
  | inl n ↦ elim (ltb_cases (length a) 107) [
    | inl (y, _) ↦ inl (rw (n, y) refl)
    | inr (x, e) ↦
        let t : ltb (length (a ++ b)) 107 ≡ false =
          ltb_of_le (length (a ++ b)) 107 (omega (arith, length-append a b)) in
        inr (rw (window_full a b e, n, x, t) refl)
  ]
  | inr (i, e) ↦
      let low : 6 ≤ i = find_lf-agrees v1_prefix a 107 i l refl g e in
      let high : i < length a = omega (arith, find_lf-lt (take 107 a) i e, length-take 107 a) in
      inr (rw (e, find_lf-window a b i e) (v1_at-append net a b i low high))
]

parse_v1-Settled : (net : Inet) (a b : Bytes) → Settled (parse_v1 net a) (parse_v1 net (a ++ b))
unfolding parse_v1
parse_v1-Settled net a b = elim (Bool-cases (agrees v1_prefix a)) [
  | inl y ↦ elim (ltb_cases (length a) 6) [
    | inl (s, _) ↦ inl (rw (y, s) refl)
    | inr (l, h) ↦
        let w : ltb (length (a ++ b)) 6 ≡ false =
          ltb_of_le (length (a ++ b)) 6 (omega (arith, length-append a b)) in
        rw (agrees_within v1_prefix a b h, y, l, w) (window-Settled net a b h y)
  ]
  | inr n ↦ inr (rw (n, agrees_refused v1_prefix a b n) refl)
]

v2_block-append :
    (net : Inet) (a b : Bytes) (tmp : Header) (command family body : ℕ)
    → 16 + body ≤ length a
    → v2_block net (a ++ b) tmp command family body ≡ v2_block net a tmp command family body
unfolding v2_block
v2_block-append net a b tmp command family body h = elim (ltb_cases body 12) [
  | inl (y, f) ↦ rw (y, ltb_of_lt body 36 (omega arith)) refl
  | inr (x, f) ↦
      let w24 : word (a ++ b) 24 ≡ word a 24 = word-append a b 24 (omega arith) in
      let s4 : take 4 (drop 16 (a ++ b)) ≡ take 4 (drop 16 a) =
        slice-append 16 4 a b (omega arith) in
      elim (ltb_cases body 36) [
        | inl (y, _) ↦ rw (x, y, w24, s4) refl
        | inr (z, g) ↦
            rw
              (
                x,
                z,
                w24,
                s4,
                word-append a b 48 (omega arith),
                slice-append 16 16 a b (omega arith),
              )
              refl
      ]
]

v2_head-Settled :
    (net : Inet) (a b : Bytes) (b12 b13 body : ℕ)
    → Settled (v2_head net a b12 b13 body) (v2_head net (a ++ b) b12 b13 body)
unfolding v2_head
v2_head-Settled net a b b12 b13 body = elim (Bool-cases (v2_refused b12 b13 body)) [
  | inl r ↦ inr (rw r refl)
  | inr r ↦ elim (ltb_cases (length a) (16 + body)) [
    | inl (y, _) ↦ inl (rw (r, y) refl)
    | inr (x, h) ↦
        let f : ltb (length (a ++ b)) (16 + body) ≡ false =
          ltb_of_le (length (a ++ b)) (16 + body) (omega (arith, length-append a b)) in
        inr (rw (r, x, f) (v2_block-append net a b _ (b12 % 16) (b13 / 16) body h))
  ]
]

parse_v2-Settled : (net : Inet) (a b : Bytes) → Settled (parse_v2 net a) (parse_v2 net (a ++ b))
unfolding parse_v2
parse_v2-Settled net a b = elim (Bool-cases (agrees v2_sig a)) [
  | inl y ↦ elim (ltb_cases (length a) 16) [
    | inl (s, _) ↦ inl (rw (y, s) refl)
    | inr (l, h) ↦
        let w : ltb (length (a ++ b)) 16 ≡ false =
          ltb_of_le (length (a ++ b)) 16 (omega (arith, length-append a b)) in
        rw
          (
            agrees_within v2_sig a b (omega arith),
            y,
            l,
            w,
            get_or-append a b 12 0 (omega arith),
            get_or-append a b 13 0 (omega arith),
            word-append a b 14 (omega arith),
          )
          (v2_head-Settled net a b (get_or a 12 0) (get_or a 13 0) (word a 14))
  ]
  | inr n ↦ inr (rw (n, agrees_refused v2_sig a b n) refl)
]

pub parse-Settled : (net : Inet) (a b : Bytes) → Settled (parse net a) (parse net (a ++ b))
unfolding parse
parse-Settled net [] b = inl refl
parse-Settled net (c ∷ a) b = elim (Bool-cases (c == b'P')) [
  | inl y ↦ rw y (parse_v1-Settled net (c ∷ a) b)
  | inr x ↦ elim (Bool-cases (c == 13)) [
    | inl y ↦ rw (x, y) (parse_v2-Settled net (c ∷ a) b)
    | inr z ↦ inr (rw (x, z) refl)
  ]
]
