-- ===== src/Http/Log/Json/Value.antt =====
-- A value of the JSON access log is a JSON string.
use php_fpm_ng.Base.{
  ℕ, zero, suc, ◌+◌, ◌≤◌, ◌<◌, ◌≡◌, refl, ◌∙◌, ap, sym, true, false, not, ◌&&◌, inl, inr, some, [],
  ◌∷◌, ◌++◌, append_assoc, arith, Bytes, length, length-append, length-drop, take, drop, ltb, leb,
  ◌==◌, if◌then◌else◌, Bool-cases,
}
use php_fpm_ng.Http.Log.{utf8_len, json_unit, next_unit, json_loop, json_value}
use php_fpm_ng.Http.Log.Utf8.{character}
use php_fpm_ng.Http.Log.Utf8.Loop.{utf8_len-character}
use php_fpm_ng.Http.Log.Json.{
  behind_char, read_string, IsUnit, json_unit-IsUnit, character-take, AllBytes,
}

high_byte :
    (c : ℕ)
    → leb 128 c ≡ true
    → ((c == b'\\') ≡ false) × (ltb c 32 ≡ false) × (ltb c 128 ≡ false) × ((c == b'"') ≡ false)
high_byte c h = (ground arith, ground arith, ground arith, ground arith)

-- The multi-byte characters start with a byte of 128 or more.
multi-IsUnit :
    (c : ℕ) (s : Bytes)
    → leb 128 c ≡ true
    → (character (c ∷ s) == 0) ≡ false
    → IsUnit (take (character (c ∷ s)) (c ∷ s))
unfolding IsUnit behind_char
multi-IsUnit c s b h t = let (q, r) = character-take (c ∷ s) t h in multi (character (c ∷ s)) q r h
  where
    multi :
        (n : ℕ)
        → character (take n (c ∷ s) ++ t) ≡ n
        → drop n (take n (c ∷ s) ++ t) ≡ t
        → (n == 0) ≡ false
        → (x : ℕ) × (u : Bytes) × (take n (c ∷ s) ++ t ≡ (x ∷ u))
          × ((x == b'"') ≡ false)
          × (behind_char x u ≡ some t)
    multi zero q r h = cc
    multi (suc k) q r h =
        let (a, d, e, n) = high_byte c b in (c, take k s ++ t, refl, n, rw (a, d, e, q, h, r) refl)

json_unit-pos : (c : ℕ) → 1 ≤ length (json_unit c)
unfolding json_unit
json_unit-pos c = ground arith

take-pos : (n c : ℕ) (s : Bytes) → (n == 0) ≡ false → 1 ≤ length (take n (c ∷ s))
take-pos zero c s h = cc
take-pos (suc n) c s h = omega arith

-- A unit and the number of bytes that it takes.
abbrev Taken : Bytes × ℕ → Type 0
Taken p = IsUnit p.0 × (1 ≤ length p.0) × (1 ≤ p.1)

next_unit-Taken : (c : ℕ) (s : Bytes) → c < 256 → Taken (next_unit c s)
unfolding next_unit
next_unit-Taken c s h = elim (Bool-cases (leb 128 c && not (utf8_len (c ∷ s) == 0))) [
  | inr x ↦ rw x (json_unit-IsUnit c h, json_unit-pos c, omega arith)
  | inl y ↦
      let e = utf8_len-character (c ∷ s) in
      let b : leb 128 c ≡ true = ground arith in
      let n : (utf8_len (c ∷ s) == 0) ≡ false = ground arith in
      let m : (character (c ∷ s) == 0) ≡ false = ap (λ z. z == 0) (sym e) ∙ n in
      rw (y, e) (multi-IsUnit c s b m, take-pos (character (c ∷ s)) c s m, ground arith)
]

read_string-cons :
    (f c : ℕ) (s t : Bytes)
    → (c == b'"') ≡ false
    → behind_char c s ≡ some t
    → read_string (suc f) (c ∷ s) ≡ read_string f t
unfolding read_string
read_string-cons f c s t n b = rw (b, read_string, n) refl

unit-read : (f : ℕ) (u t : Bytes) → IsUnit u → read_string (suc f) (u ++ t) ≡ read_string f t
unfolding IsUnit
unit-read f u t h =
    let (c, s, e, n, b) = h t in ap (read_string (suc f)) e ∙ read_string-cons f c s t n b

drop-AllBytes : (n : ℕ) (s : Bytes) → AllBytes s → AllBytes (drop n s)
drop-AllBytes zero s h = h
drop-AllBytes (suc n) [] h = h
drop-AllBytes (suc n) (c ∷ s) (x, h) = drop-AllBytes n s h

abbrev quote : Bytes
quote = b'"' ∷ []

json_loop-cons :
    (f out_size o c : ℕ) (s : Bytes)
    → json_loop (suc f) out_size o (c ∷ s) ≡ (
        if ltb out_size (o + length (next_unit c s).0 + 2)
        then []
        else (next_unit c s).0
          ++ json_loop f out_size (o + length (next_unit c s).0) (drop (next_unit c s).1 (c ∷ s)))
unfolding json_loop
json_loop-cons f out_size o c s = refl

json_loop-nil : (f out_size o : ℕ) → json_loop f out_size o [] ≡ []
unfolding json_loop
json_loop-nil f out_size o = refl

json_loop-zero : (out_size o c : ℕ) (s : Bytes) → json_loop zero out_size o (c ∷ s) ≡ []
unfolding json_loop
json_loop-zero out_size o c s = refl

-- A text that is read up to the quote behind it, with fuel for each byte.
Reads : Bytes → Type 0
Reads t = (f : ℕ) → length t < f → read_string f (t ++ quote) ≡ some []

nil-Reads : Reads []
unfolding Reads read_string behind_char
nil-Reads zero h = absurd (omega arith)
nil-Reads (suc f) h = refl

unit-Reads : (u t : Bytes) → IsUnit u → 1 ≤ length u → Reads t → Reads (u ++ t)
unfolding Reads
unit-Reads u t i l r zero h = absurd (omega arith)
unit-Reads u t i l r (suc f) h =
    let m = length-append u t in
    ap (read_string (suc f)) (append_assoc u t quote)
    ∙ unit-read f u (t ++ quote) i
    ∙ r f (omega arith)

json_loop-Reads : (g out_size o : ℕ) (s : Bytes) → AllBytes s → Reads (json_loop g out_size o s)
json_loop-Reads g out_size o [] a = rw (json_loop-nil g out_size o) nil-Reads
json_loop-Reads zero out_size o (c ∷ s) a = rw (json_loop-zero out_size o c s) nil-Reads
json_loop-Reads (suc g) out_size o (c ∷ s) (x, a) =
    let u = (next_unit c s).0 in
    let n = (next_unit c s).1 in
    let (i, l, m) = next_unit-Taken c s x in
    rw (json_loop-cons g out_size o c s) (elim (Bool-cases (ltb out_size (o + length u + 2))) [
      | inl y ↦ rw y nil-Reads
      | inr y ↦ rw y (
          unit-Reads u (json_loop g out_size (o + length u) (drop n (c ∷ s))) i l (
            json_loop-Reads g out_size (o + length u) (drop n (c ∷ s))
              (drop-AllBytes n (c ∷ s) (x, a))))
    ])

-- The value is a JSON string as RFC 8259 reads it, to its last byte, and fits the buffer with its
-- NUL.
abbrev pub IsJsonString : ℕ → Bytes → Type 0
IsJsonString out_size [] = ⊥
IsJsonString out_size (c ∷ t) =
    (c ≡ b'"') × (read_string (length t) t ≡ some []) × (length (c ∷ t) < out_size)

json_loop-length :
    (g out_size o : ℕ) (s : Bytes)
    → o + 2 ≤ out_size
    → o + length (json_loop g out_size o s) + 2 ≤ out_size
json_loop-length g out_size o [] l = rw (json_loop-nil g out_size o) (omega arith)
json_loop-length zero out_size o (c ∷ s) l = rw (json_loop-zero out_size o c s) (omega arith)
json_loop-length (suc g) out_size o (c ∷ s) l =
    let u = (next_unit c s).0 in
    let n = (next_unit c s).1 in
    rw (json_loop-cons g out_size o c s) (elim (Bool-cases (ltb out_size (o + length u + 2))) [
      | inl y ↦ rw y (omega arith)
      | inr y ↦
          let rest = json_loop g out_size (o + length u) (drop n (c ∷ s)) in
          let fits : o + length u + 2 ≤ out_size = ground arith in
          let r = json_loop-length g out_size (o + length u) (drop n (c ∷ s)) fits in
          let m = length-append u rest in rw y (omega arith)
    ])

-- Whatever bytes a client sends, a value that is not empty is written as one JSON string that
-- ends at its last byte and fits the buffer with its NUL, if the buffer has at least three bytes.
pub json_value-IsJsonString :
    (c : ℕ) (s : Bytes) (out_size : ℕ)
    → AllBytes (c ∷ s)
    → 3 ≤ out_size
    → IsJsonString out_size (json_value (some (c ∷ s)) out_size)
unfolding json_value Reads
json_value-IsJsonString c s out_size a l =
    let e : (out_size == 0) ≡ false = ground arith in
    let t = json_loop (length (c ∷ s)) out_size 1 (c ∷ s) in
    let m = length-append t quote in
    let k = json_loop-length (length (c ∷ s)) out_size 1 (c ∷ s) (omega arith) in
    rw e (
      refl,
      json_loop-Reads (length (c ∷ s)) out_size 1 (c ∷ s) a (length (t ++ quote)) (omega arith),
      omega arith,
    )

-- A round for each byte is enough: more fuel writes the same.
pub json_loop-fuel :
    (g h out_size o : ℕ) (s : Bytes)
    → AllBytes s
    → length s ≤ g
    → length s ≤ h
    → json_loop g out_size o s ≡ json_loop h out_size o s
json_loop-fuel g h out_size o [] a l m =
    json_loop-nil g out_size o ∙ sym (json_loop-nil h out_size o)
json_loop-fuel zero h out_size o (c ∷ s) a l m = absurd (omega arith)
json_loop-fuel (suc g) zero out_size o (c ∷ s) a l m = absurd (omega arith)
json_loop-fuel (suc g) (suc h) out_size o (c ∷ s) (x, a) l m =
    let u = (next_unit c s).0 in
    let n = (next_unit c s).1 in
    let (i, j, k) = next_unit-Taken c s x in
    let d = length-drop n (c ∷ s) in
    let e =
      json_loop-fuel g h out_size (o + length u) (drop n (c ∷ s)) (drop-AllBytes n (c ∷ s) (x, a))
        (omega arith) (omega arith) in
    rw (json_loop-cons g out_size o c s, json_loop-cons h out_size o c s, e) refl
