-- ===== src/Reply/Coded.antt =====
-- What a Status line means, and that its parser stays inside the copy that it reads.
use php_fpm_ng.Base.{
  ℕ, suc, ◌+◌, ◌-◌, ◌*◌, ◌≡◌, refl, ap, ◌∙◌, Bool, true, false, not, ◌&&◌, ◌||◌, inl, inr, [], ◌∷◌,
  ◌++◌, arith, Bytes, is_digit, length, ltb, ◌==◌, if◌then◌else◌, Bool-cases,
}
use php_fpm_ng.Base.Numeral.{decimal}
use php_fpm_ng.Reply.Status.{
  until_nul, Access, refuses, gives, status_final, reason_loop, code_digits, behind_code, if_final,
  coded, parse_cgi_status,
}

-- Neither a control byte nor DEL.
abbrev pub prints : ℕ → Bool
prints c = not (ltb c 32 || c == 127)

abbrev pub all_print : Bytes → Bool
all_print [] = true
all_print (c ∷ s) = prints c && all_print s

abbrev three_digits : ℕ → ℕ → ℕ → Bool
three_digits a b c = is_digit a && is_digit b && is_digit c

-- "NNN" or "NNN reason", with a code from 200 to 599 and a reason of bytes that print.
abbrev pub status_of : Bytes → Access (ℕ × Bytes)
status_of (a ∷ b ∷ c ∷ []) =
    let code = decimal 0 (a ∷ b ∷ c ∷ []) in
    if three_digits a b c && status_final code then gives (code, []) else refuses
status_of (a ∷ b ∷ c ∷ d ∷ s) =
    let code = decimal 0 (a ∷ b ∷ c ∷ []) in
    if three_digits a b c && (d == b' ' && (all_print s && status_final code))
    then gives (code, s)
    else refuses
status_of _ = refuses

-- What the parser may read.
abbrev pub cells : Bytes → Bytes
cells v = until_nul v ++ 0 ∷ []

no_digit :
    (n k a : ℕ) (s : Bytes) → is_digit a ≡ false → code_digits (suc n) k (cells (a ∷ s)) ≡ refuses
unfolding code_digits until_nul
no_digit n k a s h = elim (Bool-cases (a == 0)) [ inl y ↦ rw y refl | inr x ↦ rw (x, h) refl ]

one_digit :
    (n k a : ℕ) (s : Bytes)
    → is_digit a ≡ true
    → code_digits (suc n) k (cells (a ∷ s)) ≡ code_digits n (k * 10 + (a - b'0')) (cells s)
unfolding code_digits until_nul
one_digit n k a s h = let x : (a == 0) ≡ false = ground arith in rw (x, h) refl

until_nul_printing : (s : Bytes) → all_print s ≡ true → until_nul (cells s) ≡ s
unfolding until_nul
until_nul_printing [] h = refl
until_nul_printing (c ∷ s) h =
    let x : (c == 0) ≡ false = ground (arith, h) in
    let k : all_print s ≡ true = ground (arith, h) in rw (x, x, until_nul_printing s k) refl

reason_loop-prints :
    (s : Bytes) → reason_loop (length s) (cells s) ≡ (if all_print s then gives tt else refuses)
unfolding reason_loop until_nul
reason_loop-prints [] = refl
reason_loop-prints (c ∷ s) = elim (Bool-cases (c == 0)) [
  | inl y ↦ let z : c ≡ 0 = ground (arith, y) in rw z refl
  | inr x ↦ elim (Bool-cases (ltb c 32 || c == 127)) [
    | inl y ↦ rw (x, y) refl
    | inr n ↦ rw (x, n) (reason_loop-prints s)
  ]
]

-- The fourth byte, and the reason.
spaced :
    (code d : ℕ) (s : Bytes)
    → behind_code (length s + 4) code (cells (d ∷ s))
      ≡ (if d == b' ' && all_print s then gives (code, s) else refuses)
unfolding until_nul
spaced code d s = elim (Bool-cases (d == 0)) [
  | inl y ↦
      let z : d ≡ 0 = ground (arith, y) in
      let e : (length s + 4 == 3) ≡ false = ground arith in rw (z, e) refl
  | inr x ↦
      let e : (length s + 4 == 3) ≡ false = ground arith in
      let l : length s + 4 - 4 ≡ length s = omega arith in
      elim (Bool-cases (d == b' ')) [
        | inr n ↦ rw (x, e, n) refl
        | inl y ↦ elim (Bool-cases (all_print s)) [
          | inl p ↦ rw (x, e, y, l, reason_loop-prints s, p, until_nul_printing s p) refl
          | inr n ↦ rw (x, e, y, l, reason_loop-prints s, n) refl
        ]
      ]
]

all_digits :
    (a b c : ℕ) (s : Bytes)
    → three_digits a b c ≡ true
    → code_digits 3 0 (cells (a ∷ b ∷ c ∷ s)) ≡ gives (decimal 0 (a ∷ b ∷ c ∷ []), cells s)
unfolding code_digits
all_digits a b c s h =
    one_digit 2 0 a (b ∷ c ∷ s) (ground (arith, h))
    ∙ (one_digit 1 _ b (c ∷ s) (ground (arith, h)) ∙ one_digit 0 _ c s (ground (arith, h)))

not_all_digits :
    (a b c : ℕ) (s : Bytes)
    → three_digits a b c ≡ false
    → code_digits 3 0 (cells (a ∷ b ∷ c ∷ s)) ≡ refuses
not_all_digits a b c s h = elim (Bool-cases (is_digit a)) [
  | inr x ↦ no_digit 2 0 a (b ∷ c ∷ s) x
  | inl y ↦ elim (Bool-cases (is_digit b)) [
    | inr x ↦ one_digit 2 0 a (b ∷ c ∷ s) y ∙ no_digit 1 _ b (c ∷ s) x
    | inl z ↦
        one_digit 2 0 a (b ∷ c ∷ s) y
        ∙ (one_digit 1 _ b (c ∷ s) z ∙ no_digit 0 _ c s (ground (arith, h, y, z)))
  ]
]

if_final-tests :
    (b p : Bool) (code : ℕ) (s : Bytes)
    → if_final (if b && p then gives (code, s) else refuses)
      ≡ (if b && (p && status_final code) then gives (code, s) else refuses)
if_final-tests true true code s = refl
if_final-tests true false code s = refl
if_final-tests false p code s = refl

-- Whatever bytes the value has, a NUL among them or not, the parser reads nothing behind the NUL of
-- its copy, and it takes exactly the values that write a final status.
pub parse_cgi_status-status_of : (v : Bytes) → parse_cgi_status (cells v) (length v) ≡ status_of v
unfolding parse_cgi_status
parse_cgi_status-status_of [] = refl
parse_cgi_status-status_of (a ∷ []) = refl
parse_cgi_status-status_of (a ∷ b ∷ []) = refl
parse_cgi_status-status_of (a ∷ b ∷ c ∷ []) = elim (Bool-cases (three_digits a b c)) [
  | inl y ↦ ap (coded 3) (all_digits a b c [] y) ∙ rw y refl
  | inr x ↦ ap (coded 3) (not_all_digits a b c [] x) ∙ rw x refl
]
parse_cgi_status-status_of (a ∷ b ∷ c ∷ d ∷ s) =
    let long : ltb (length (a ∷ b ∷ c ∷ d ∷ s)) 3 ≡ false = ground arith in
    let n : length (a ∷ b ∷ c ∷ d ∷ s) ≡ length s + 4 = omega arith in
    let code = decimal 0 (a ∷ b ∷ c ∷ []) in
    elim (Bool-cases (three_digits a b c)) [
      | inl y ↦ rw long (
          ap (coded _) (all_digits a b c (d ∷ s) y)
          ∙ (ap (λ k. if_final (behind_code k code (cells (d ∷ s)))) n
              ∙ (ap if_final (spaced code d s)
                  ∙ rw y (if_final-tests (d == b' ') (all_print s) code s))))
      | inr x ↦ rw long (ap (coded _) (not_all_digits a b c (d ∷ s) x) ∙ rw x refl)
    ]
