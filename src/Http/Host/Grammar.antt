-- ===== src/Http/Host/Grammar.antt =====
-- The grammar of a host name, as labels between dots.
pub mod Loop
use php_fpm_ng.Base.{
  ℕ, zero, suc, ◌+◌, ◌-◌, ◌≤◌, ◌<◌, ◌≡◌, ◌≢◌, refl, sym, ◌∙◌, ap, Bool, true, false, not, ◌&&◌,
  ◌||◌, inl, inr, List, [], ◌∷◌, ◌++◌, append-nil, append_assoc, arith, Bytes, peek, length,
  length-append, ltb, leb, ◌==◌, if◌then◌else◌, Bool-cases,
}
use php_fpm_ng.Http.Host.{name_max, label_max, is_letter_or_digit, name_loop, valid_name}

abbrev push : ℕ → List Bytes → List Bytes
push c [] = (c ∷ []) ∷ []
push c (l ∷ ls) = (c ∷ l) ∷ ls

-- The labels of a name.
abbrev pub labels : Bytes → List Bytes
labels [] = [] ∷ []
labels (c ∷ s) = if c == b'.' then [] ∷ labels s else push c (labels s)

abbrev pub label_byte : ℕ → Bool
label_byte c = is_letter_or_digit c || c == b'-'

abbrev pub all_bytes : Bytes → Bool
all_bytes [] = true
all_bytes (c ∷ l) = label_byte c && all_bytes l

abbrev pub last_byte : Bytes → ℕ
last_byte [] = 0
last_byte (c ∷ []) = c
last_byte (c ∷ d ∷ l) = last_byte (d ∷ l)

-- One to 63 letters, digits and hyphens, with no hyphen at either end.
abbrev pub is_label : Bytes → Bool
is_label l =
    not (length l == 0)
    && leb (length l) label_max
    && all_bytes l
    && not (peek l == b'-')
    && not (last_byte l == b'-')

abbrev pub all_labels : List Bytes → Bool
all_labels [] = true
all_labels (l ∷ ls) = is_label l && all_labels ls

-- The label read so far, in front of the rest.
abbrev onto : Bytes → List Bytes → List Bytes
onto p [] = p ∷ []
onto p (l ∷ ls) = (p ++ l) ∷ ls

abbrev IsPartial : Bytes → Type 0
IsPartial p = (length p ≤ label_max) × (all_bytes p ≡ true) × ((peek p == b'-') ≡ false)

partial-is_label :
    (p : Bytes) → IsPartial p → is_label p ≡ (not (length p == 0) && not (last_byte p == b'-'))
partial-is_label p (l, a, h) = rw (a, h) (ground arith)

loop_start : (x y : ℕ) (s : Bytes) → name_loop x 0 s ≡ name_loop y 0 s
unfolding name_loop
loop_start x y [] = refl
loop_start x y (c ∷ s) = refl

last-snoc : (p : Bytes) (c : ℕ) → last_byte (p ++ (c ∷ [])) ≡ c
last-snoc [] c = refl
last-snoc (d ∷ []) c = refl
last-snoc (d ∷ e ∷ p) c = last-snoc (e ∷ p) c

all_bytes-append : (p q : Bytes) → all_bytes (p ++ q) ≡ (all_bytes p && all_bytes q)
all_bytes-append [] q = refl
all_bytes-append (c ∷ p) q = ground (arith, all_bytes-append p q)

labels_cons : (s : Bytes) → (l : Bytes) × (ls : List Bytes) × (labels s ≡ (l ∷ ls))
labels_cons [] = ([], [], refl)
labels_cons (c ∷ s) = elim (Bool-cases (c == b'.')) [
  | inl y ↦ ([], labels s, rw y refl)
  | inr x ↦ let (l, ls, e) = labels_cons s in (c ∷ l, ls, rw (x, e) refl)
]

name_loop-cons :
    (prev label c : ℕ) (s : Bytes)
    → name_loop prev label (c ∷ s) ≡ (
        if c == b'.'
        then (if label == 0 || prev == b'-' then false else name_loop c 0 s)
        else if not (is_letter_or_digit c) && not (c == b'-')
        then false
        else if c == b'-' && label == 0
        then false
        else if ltb label_max (label + 1)
        then false
        else name_loop c (label + 1) s)
unfolding name_loop
name_loop-cons prev label c s = refl

name_loop-nil :
    (prev label : ℕ) → name_loop prev label [] ≡ (not (label == 0) && not (prev == b'-'))
unfolding name_loop
name_loop-nil prev label = refl

dot-is_label :
    (p : Bytes) (r : Bool)
    → IsPartial p
    → (if length p == 0 || last_byte p == b'-' then false else r) ≡ (is_label p && r)
dot-is_label p r h = rw (partial-is_label p h) (ground arith)

bad_byte :
    (p l : Bytes) (c : ℕ)
    → (not (is_letter_or_digit c) && not (c == b'-')) ≡ true
    → is_label (p ++ (c ∷ l)) ≡ false
bad_byte p l c h =
    let x : label_byte c ≡ false = ground arith in
    let y : all_bytes (p ++ (c ∷ l)) ≡ false = rw (all_bytes-append p (c ∷ l), x) (ground arith) in
    rw y (ground arith)

bad_hyphen :
    (p l : Bytes) (c : ℕ) → (c == b'-' && length p == 0) ≡ true → is_label (p ++ (c ∷ l)) ≡ false
bad_hyphen [] l c h = let x : (c == b'-') ≡ true = ground arith in rw x (ground arith)
bad_hyphen (d ∷ p) l c h = absurd (ground arith)

bad_length :
    (p l : Bytes) (c : ℕ) → ltb label_max (length p + 1) ≡ true → is_label (p ++ (c ∷ l)) ≡ false
bad_length p l c h =
    let x : leb (length (p ++ (c ∷ l))) label_max ≡ false =
      ground (arith, length-append p (c ∷ l)) in
    rw x (ground arith)

longer-IsPartial :
    (p : Bytes) (c : ℕ)
    → IsPartial p
    → (not (is_letter_or_digit c) && not (c == b'-')) ≡ false
    → (c == b'-' && length p == 0) ≡ false
    → ltb label_max (length p + 1) ≡ false
    → IsPartial (p ++ (c ∷ []))
longer-IsPartial [] c (l, a, h) ok hyphen fits = (omega arith, ground arith, ground arith)
longer-IsPartial (d ∷ p) c (l, a, h) ok hyphen fits = (
  ground (arith, length-append (d ∷ p) (c ∷ [])),
  rw (all_bytes-append (d ∷ p) (c ∷ []), a) (ground arith),
  h,
)

onto-labels : (s : Bytes) → onto [] (labels s) ≡ labels s
onto-labels s = let (l, ls, e) = labels_cons s in rw e refl

onto-push :
    (p : Bytes) (c : ℕ) (s : Bytes) → onto p (push c (labels s)) ≡ onto (p ++ (c ∷ [])) (labels s)
onto-push p c s = let (l, ls, e) = labels_cons s in rw (e, append_assoc p (c ∷ []) l) refl

-- A label that is wrong makes the name wrong.
wrong_labels :
    (p : Bytes) (c : ℕ) (s : Bytes)
    → ((l : Bytes) → is_label (p ++ (c ∷ l)) ≡ false)
    → all_labels (onto p (push c (labels s))) ≡ false
wrong_labels p c s h = let (l, ls, e) = labels_cons s in rw (e, h l) refl
