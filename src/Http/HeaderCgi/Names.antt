-- ===== src/Http/HeaderCgi/Names.antt =====
-- Which request headers share a CGI name.
use php_fpm_ng.Base.{
  ℕ, suc, ◌+◌, ◌≤◌, ◌≡◌, ◌≢◌, refl, sym, ◌∙◌, ap, Bool, true, false, ◌||◌, inl, inr, ◌⊎◌, [], ◌∷◌,
  map, arith, Bytes, codes, length, lower, ltb, ◌==◌, Bool-cases, equal_case,
}
use mathlib.Core.Path.{subst}
use php_fpm_ng.Base.{peek}
use php_fpm_ng.Http.HeaderCgi.{name_max, Key, refused, skipped, key, cgi_byte, has, mapped, cgi_key}

has-cons : (d c : ℕ) (s : Bytes) → has d (c ∷ s) ≡ false → ((c == d) ≡ false) × (has d s ≡ false)
unfolding has
has-cons d c s h = elim (Bool-cases (c == d)) [
  | inl y ↦ absurd (ground (arith, h, y))
  | inr x ↦ (x, ground (arith, h, x))
]

cgi_byte-lower :
    (c d : ℕ)
    → (c == b'_') ≡ false
    → (d == b'_') ≡ false
    → cgi_byte c ≡ cgi_byte d
    → lower c ≡ lower d
cgi_byte-lower c d h k e = ground arith

-- Without an underscore the bytes of a name can be read back, up to case.
map-cgi_byte :
    (a b : Bytes)
    → has b'_' a ≡ false
    → has b'_' b ≡ false
    → map cgi_byte a ≡ map cgi_byte b
    → equal_case a b ≡ true
unfolding equal_case
map-cgi_byte [] [] h k e = refl
map-cgi_byte [] (d ∷ b) h k e = absurd (cc)
map-cgi_byte (c ∷ a) [] h k e = absurd (cc)
map-cgi_byte (c ∷ a) (d ∷ b) h k e =
    let (x, h') = has-cons b'_' c a h in
    let (y, k') = has-cons b'_' d b k in
    let l : lower c ≡ lower d = cgi_byte-lower c d x y (cc) in
    let t : map cgi_byte a ≡ map cgi_byte b = cc in
    let s : (lower c == lower d) ≡ true = ground arith in rw s (map-cgi_byte a b h' k' t)

equal_case_sym : (a b : Bytes) → equal_case a b ≡ true → equal_case b a ≡ true
unfolding equal_case
equal_case_sym [] [] h = refl
equal_case_sym [] (y ∷ b) h = cc
equal_case_sym (x ∷ a) [] h = cc
equal_case_sym (x ∷ a) (y ∷ b) h = ground (arith, equal_case_sym a b)

equal_case_trans :
    (a b c : Bytes) → equal_case a b ≡ true → equal_case b c ≡ true → equal_case a c ≡ true
unfolding equal_case
equal_case_trans [] [] c h k = k
equal_case_trans [] (y ∷ b) c h k = cc
equal_case_trans (x ∷ a) [] c h k = cc
equal_case_trans (x ∷ a) (y ∷ b) [] h k = cc
equal_case_trans (x ∷ a) (y ∷ b) (z ∷ c) h k = ground (arith, equal_case_trans a b c)

-- A key that is made: the name fits, and it is Content-Type, or a name with no underscore that is
-- neither Content-Length nor Proxy.
abbrev Made : Bytes → ℕ → Bytes → Type 0
Made name out_size k =
    (length name ≤ name_max)
    × (length name + 6 ≤ out_size)
    × (has b'_' name ≡ false)
    × (((equal_case name (codes "Content-Type") ≡ true) × (k ≡ codes "CONTENT_TYPE"))
        ⊎ ((equal_case name (codes "Content-Length") ≡ false)
            × (equal_case name (codes "Proxy") ≡ false)
            × (k ≡ mapped name)))

abbrev OfKey : (Bytes → Type 0) → Key → Type 0
OfKey P refused = Unit
OfKey P skipped = Unit
OfKey P (key k) = P k

or-false : (a b : Bool) → (a || b) ≡ false → (a ≡ false) × (b ≡ false)
or-false a b h = ground arith

cgi_key-OfKey :
    (name : Bytes) (skip : Bool) (out_size : ℕ)
    → OfKey (Made name out_size) (cgi_key name skip out_size)
unfolding cgi_key
cgi_key-OfKey name skip out_size =
    elim (Bool-cases (ltb name_max (length name) || ltb out_size (length name + 6))) [
      | inl y ↦ rw y tt
      | inr fits ↦
          elim (Bool-cases
            (equal_case name (codes "Content-Length") || equal_case name (codes "Proxy"))) [
              | inl y ↦ rw (fits, y) tt
              | inr other ↦ elim (Bool-cases (has b'_' name)) [
                | inl y ↦ rw (fits, other, y) tt
                | inr plain ↦ elim (Bool-cases (equal_case name (codes "Content-Type"))) [
                  | inl y ↦ content_type name skip out_size fits other plain y
                  | inr n ↦
                      let (cl, proxy) =
                        or-false (equal_case name (codes "Content-Length"))
                          (equal_case name (codes "Proxy")) other in
                      rw (fits, other, plain, n)
                        (ground arith, ground arith, plain, inr (cl, proxy, refl))
                ]
              ]
            ]
    ]
  where
    content_type :
        (name : Bytes) (skip : Bool) (out_size : ℕ)
        → (ltb name_max (length name) || ltb out_size (length name + 6)) ≡ false
        → (equal_case name (codes "Content-Length") || equal_case name (codes "Proxy")) ≡ false
        → has b'_' name ≡ false
        → equal_case name (codes "Content-Type") ≡ true
        → OfKey (Made name out_size) (cgi_key name skip out_size)
    content_type name true out_size fits other plain y = rw (fits, other, plain, y) tt
    content_type name false out_size fits other plain y =
        rw (fits, other, plain, y) (ground arith, ground arith, plain, inl (y, refl))

key-Made :
    (name : Bytes) (skip : Bool) (out_size : ℕ) (k : Bytes)
    → cgi_key name skip out_size ≡ key k
    → Made name out_size k
key-Made name skip out_size k h =
    subst (λ z. OfKey (Made name out_size) z) h (cgi_key-OfKey name skip out_size)

mapped-tail : (a b : Bytes) → mapped a ≡ mapped b → map cgi_byte a ≡ map cgi_byte b
unfolding mapped
mapped-tail a b e = cc

mapped-ne_content_type : (a : Bytes) → mapped a ≢ codes "CONTENT_TYPE"
unfolding mapped
mapped-ne_content_type a e =
    let h : peek (mapped a) ≡ peek (codes "CONTENT_TYPE") = ap peek e in omega (arith, h)

-- Two request headers get the same key only if they have the same name up to case, so a client
-- cannot write over a header that a proxy in front of the gateway set.
pub cgi_key-injective :
    (a b : Bytes) (skip : Bool) (out_size : ℕ) (k : Bytes)
    → cgi_key a skip out_size ≡ key k
    → cgi_key b skip out_size ≡ key k
    → equal_case a b ≡ true
cgi_key-injective a b skip out_size k h h' =
    let (l, m, u, o) = key-Made a skip out_size k h in
    let (l', m', u', o') = key-Made b skip out_size k h' in
    elim o [
      | inl (t, e) ↦ elim o' [
        | inl (t', e') ↦
            equal_case_trans a (codes "Content-Type") b t
              (equal_case_sym b (codes "Content-Type") t')
        | inr (c, p, e') ↦ absurd (mapped-ne_content_type b (sym e' ∙ e))
      ]
      | inr (c, p, e) ↦ elim o' [
        | inl (t', e') ↦ absurd (mapped-ne_content_type a (sym e ∙ e'))
        | inr (c', p', e') ↦ map-cgi_byte a b u u' (mapped-tail a b (sym e ∙ e'))
      ]
    ]

length-map-cgi_byte : (s : Bytes) → length (map cgi_byte s) ≡ length s
length-map-cgi_byte [] = refl
length-map-cgi_byte (c ∷ s) = ap suc (length-map-cgi_byte s)

length-mapped : (s : Bytes) → length (mapped s) ≡ 5 + length s
unfolding mapped
length-mapped s = omega (arith, length-map-cgi_byte s)

equal_case-length : (a b : Bytes) → equal_case a b ≡ true → length a ≡ length b
unfolding equal_case
equal_case-length [] [] h = refl
equal_case-length [] (y ∷ b) h = cc
equal_case-length (x ∷ a) [] h = cc
equal_case-length (x ∷ a) (y ∷ b) h = ap suc (equal_case-length a b (ground arith))

-- A name that is left out has no key of its own.
mapped-ne :
    (name other : Bytes)
    → has b'_' name ≡ false
    → has b'_' other ≡ false
    → equal_case name other ≡ false
    → mapped name ≢ mapped other
mapped-ne name other u v n =
    λ e. let t = map-cgi_byte name other u v (mapped-tail name other e) in cc

proxy_key :
    (mapped (codes "Proxy") ≡ codes "HTTP_PROXY")
    × (mapped (codes "Content-Length") ≡ codes "HTTP_CONTENT_LENGTH")
    × (has b'_' (codes "Proxy") ≡ false)
    × (has b'_' (codes "Content-Length") ≡ false)
unfolding mapped has
proxy_key = (refl, refl, refl, refl)

-- No header becomes HTTP_PROXY or HTTP_CONTENT_LENGTH, and a key fits the buffer with its NUL.
pub cgi_key-safe :
    (name : Bytes) (skip : Bool) (out_size : ℕ) (k : Bytes)
    → cgi_key name skip out_size ≡ key k
    → (k ≢ codes "HTTP_PROXY") × (k ≢ codes "HTTP_CONTENT_LENGTH") × (length k + 1 ≤ out_size)
cgi_key-safe name skip out_size k h =
    let (l, m, u, o) = key-Made name skip out_size k h in
    let (proxy, cl, up, ucl) = proxy_key in
    elim o [
      | inl (t, e) ↦
          let n : length name ≡ 12 = equal_case-length name (codes "Content-Type") t in
          let size : length k ≡ 12 = ap length e in
          (
            (λ p. let x : b'C' ≡ b'H' = ap peek (sym e ∙ p) in omega arith),
            (λ p. let x : b'C' ≡ b'H' = ap peek (sym e ∙ p) in omega arith),
            omega arith,
          )
      | inr (c, p, e) ↦
          let size : length k ≡ 5 + length name = ap length e ∙ length-mapped name in
          (
            (λ q. mapped-ne name (codes "Proxy") u up p (sym e ∙ q ∙ sym proxy)),
            (λ q. mapped-ne name (codes "Content-Length") u ucl c (sym e ∙ q ∙ sym cl)),
            omega arith,
          )
    ]
