-- ===== src/Fcgi/Decode.antt =====
-- A reader of FastCGI, and that it reads back what the encoder writes.
use php_fpm_ng.Base.{
  ℕ, zero, suc, ◌+◌, ◌-◌, ◌*◌, ◌/◌, ◌%◌, ◌^◌, ◌≤◌, ◌<◌, ◌≡◌, refl, ap, true, false, inl, inr, ◌&&◌,
  Option, none, some, [], ◌∷◌, ◌++◌, append_assoc, arith, Bytes, length, replicate, take, drop,
  length-append, length-replicate, ltb, leb, ◌==◌, if◌then◌else◌, Bool-cases,
}
use php_fpm_ng.Fcgi.{padding, fcgi_record, fcgi_len, pair}

-- A length of one byte, or of four with the highest bit set.
unfoldable pub read_len : Bytes → Option (ℕ × Bytes)
read_len [] = none
read_len (a ∷ []) = if ltb a 128 then some (a, []) else none
read_len (a ∷ b ∷ []) = if ltb a 128 then some (a, b ∷ []) else none
read_len (a ∷ b ∷ c ∷ []) = if ltb a 128 then some (a, b ∷ c ∷ []) else none
read_len (a ∷ b ∷ c ∷ d ∷ s) =
    if ltb a 128
    then some (a, b ∷ c ∷ d ∷ s)
    else some ((a - 128) * 2 ^ 24 + b * 2 ^ 16 + c * 2 ^ 8 + d, s)

read_len-small : (n : ℕ) (s : Bytes) → n < 128 → read_len (n ∷ s) ≡ some (n, s)
unfolding read_len
read_len-small n [] h = let e : ltb n 128 ≡ true = ground arith in rw e refl
read_len-small n (b ∷ []) h = let e : ltb n 128 ≡ true = ground arith in rw e refl
read_len-small n (b ∷ c ∷ []) h = let e : ltb n 128 ≡ true = ground arith in rw e refl
read_len-small n (b ∷ c ∷ d ∷ s) h = let e : ltb n 128 ≡ true = ground arith in rw e refl

four_bytes :
    (n : ℕ)
    → n < 2147483648
    → (n / 2 ^ 24 % 128 + 128 - 128) * 2 ^ 24
        + n / 2 ^ 16 % 256 * 2 ^ 16
        + n / 2 ^ 8 % 256 * 2 ^ 8
        + n % 256
      ≡ n
four_bytes n h = omega arith

-- A length below 2 ^ 31 is read back.
pub read_len-fcgi_len :
    (n : ℕ) (s : Bytes) → n < 2147483648 → read_len (fcgi_len n ++ s) ≡ some (n, s)
unfolding fcgi_len read_len
read_len-fcgi_len n s h = elim (Bool-cases (ltb n 128)) [
  | inl y ↦ rw y (read_len-small n s (ground arith))
  | inr x ↦
      let e : ltb (n / 2 ^ 24 % 128 + 128) 128 ≡ false = ground arith in
      rw (x, e, four_bytes n h) refl
]

take-append : (a b : Bytes) → take (length a) (a ++ b) ≡ a
take-append [] b = refl
take-append (c ∷ a) b = ap (c ∷◌) (take-append a b)

drop-append : (a b : Bytes) → drop (length a) (a ++ b) ≡ b
drop-append [] b = refl
drop-append (c ∷ a) b = drop-append a b

-- The content of a record of parameters, and what stands behind its padding.
unfoldable pub read_record : Bytes → Option (Bytes × Bytes)
read_record (v ∷ t ∷ i ∷ j ∷ hi ∷ lo ∷ pad ∷ z ∷ s) =
    let n = hi * 256 + lo in
    if v == 1 && t == 4 && leb (n + pad) (length s)
    then some (take n s, drop pad (drop n s))
    else none
read_record _ = none

leb-true : (a b : ℕ) → a ≤ b → leb a b ≡ true
leb-true a b h = ground arith

drop-replicate : (n : ℕ) (s : Bytes) → drop n (replicate n 0 ++ s) ≡ s
drop-replicate zero s = refl
drop-replicate (suc n) s = drop-replicate n s

record-fits :
    (content s : Bytes)
    → leb
        (length content + padding (length content))
        (length ((content ++ replicate (padding (length content)) 0) ++ s))
      ≡ true
record-fits content s =
    let fill : Bytes = replicate (padding (length content)) 0 in
    let l1 : length ((content ++ fill) ++ s) ≡ length (content ++ fill) + length s =
      length-append (content ++ fill) s in
    let l2 : length (content ++ fill) ≡ length content + length fill = length-append content fill in
    let l3 : length fill ≡ padding (length content) =
      length-replicate (padding (length content)) 0 in
    leb-true (length content + padding (length content)) (length ((content ++ fill) ++ s))
      (omega arith)

pub read_record-fcgi_record :
    (content s : Bytes)
    → length content < 65536
    → read_record (fcgi_record 4 content ++ s) ≡ some (content, s)
unfolding fcgi_record read_record
read_record-fcgi_record content s h =
    let n = length content in
    let fill : Bytes = replicate (padding n) 0 in
    let e : n / 256 % 256 * 256 + n % 256 ≡ n = omega arith in
    let fits : leb (n + padding n) (length ((content ++ fill) ++ s)) ≡ true =
      record-fits content s in
    rw
      (
        e,
        fits,
        append_assoc content fill s,
        take-append content (fill ++ s),
        drop-append content (fill ++ s),
        drop-replicate (padding n) s,
      )
      refl

-- The pair behind two lengths.
abbrev pub read_values : ℕ → ℕ → Bytes → Option ((Bytes × Bytes) × Bytes)
read_values n m s =
    if leb (n + m) (length s) then some ((take n s, take m (drop n s)), drop m (drop n s)) else none

abbrev pub read_second : ℕ → Option (ℕ × Bytes) → Option ((Bytes × Bytes) × Bytes)
read_second n none = none
read_second n (some (m, s)) = read_values n m s

abbrev pub read_first : Option (ℕ × Bytes) → Option ((Bytes × Bytes) × Bytes)
read_first none = none
read_first (some (n, s)) = read_second n (read_len s)

-- A name and its value, and what stands behind them.
abbrev pub read_pair : Bytes → Option ((Bytes × Bytes) × Bytes)
read_pair s = read_first (read_len s)

read_values-append :
    (name value s : Bytes)
    → read_values (length name) (length value) (name ++ (value ++ s)) ≡ some ((name, value), s)
read_values-append name value s =
    let l1 = length-append name (value ++ s) in
    let l2 = length-append value s in
    let fits : leb (length name + length value) (length (name ++ (value ++ s))) ≡ true =
      ground arith in
    rw
      (
        fits,
        take-append name (value ++ s),
        drop-append name (value ++ s),
        take-append value s,
        drop-append value s,
      )
      refl

pub read_pair-pair :
    (name value s : Bytes)
    → length name < 2147483648
    → length value < 2147483648
    → read_pair (pair name value ++ s) ≡ some ((name, value), s)
unfolding pair
read_pair-pair name value s h k =
    let a = append_assoc (fcgi_len (length name)) (fcgi_len (length value) ++ (name ++ value)) s in
    let b = append_assoc (fcgi_len (length value)) (name ++ value) s in
    let c = append_assoc name value s in
    rw
      (
        a,
        b,
        c,
        read_len-fcgi_len (length name) (fcgi_len (length value) ++ (name ++ (value ++ s))) h,
        read_len-fcgi_len (length value) (name ++ (value ++ s)) k,
      )
      (read_values-append name value s)
