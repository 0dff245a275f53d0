-- ===== src/Handoff/Number.antt =====
-- Numbers in the text of the handoff: `%d` and `%llu` of snprintf, strtol and strtoull.
use php_fpm_ng.Base.{
  ℕ, zero, suc, ◌+◌, ◌-◌, ◌*◌, ◌/◌, ◌%◌, ◌^◌, ◌<◌, ◌≡◌, ◌≢◌, refl, ◌∙◌, Bool, true, false, not,
  ◌&&◌, ◌||◌, inl, inr, [], ◌∷◌, ◌++◌, arith, Bytes, is_digit, within, ltb, ltb_cases, ◌==◌,
  if◌then◌else◌,
}
use php_fpm_ng.Base.Numeral.{decimal, AllDigits}

-- The decimal digit_run of a number, with a round for each.
unfoldable pub shown_loop : ℕ → ℕ → Bytes
shown_loop zero n = []
shown_loop (suc fuel) n =
    let more = shown_loop fuel (n / 10) ++ (b'0' + n % 10) ∷ [] in
    if ltb n 10 then (b'0' + n) ∷ [] else more

unfoldable pub shown : ℕ → Bytes
unfolding shown_loop
shown n = shown_loop (suc n) n

-- `isspace` in the C locale.
abbrev white : ℕ → Bool
white c = c == b' ' || within 9 13 c

unfoldable pub skip_white : Bytes → Bytes
skip_white [] = []
skip_white (c ∷ s) = if white c then skip_white s else c ∷ s

-- The digit_run at the front, and the rest.
unfoldable pub digit_run : Bytes → Bytes × Bytes
digit_run [] = ([], [])
digit_run (c ∷ s) = if is_digit c then (c ∷ (digit_run s).0, (digit_run s).1) else ([], c ∷ s)

-- What both functions read: whether there is a minus, the number, and where it ends. Without a
-- digit the text is not touched.
pub record Read : Type 0 where
  pub minus : Bool
  pub number : ℕ
  pub rest : Bytes

abbrev read_digits : Bytes → Bool → Bytes × Bytes → Read
read_digits s minus ([], rest) = record { minus = false; number = 0; rest = s }
read_digits s minus (d ∷ ds, rest) = record {
  minus = minus;
  number = decimal 0 (d ∷ ds);
  rest = rest;
}

abbrev read_sign : Bytes → Bytes → Read
read_sign s [] = read_digits s false ([], [])
read_sign s (c ∷ t) =
    if c == b'-'
    then read_digits s true (digit_run t)
    else if c == b'+'
    then read_digits s false (digit_run t)
    else read_digits s false (digit_run (c ∷ t))

unfoldable pub read_number : Bytes → Read
unfolding skip_white digit_run
read_number s = read_sign s (skip_white s)

abbrev pub clamp : ℕ → ℕ → ℕ
clamp limit n = if ltb limit n then limit else n

-- `(pid_t) strtol(...)`: the low 32 bits of the `long`, which is at most LONG_MAX and at least
-- LONG_MIN.
unfoldable pub pid_of : Read → ℕ
pid_of r =
    if r.minus
    then (2 ^ 64 - clamp (2 ^ 63) r.number) % 2 ^ 32
    else clamp (2 ^ 63 - 1) r.number % 2 ^ 32

-- `pid > 1`, on the `long`.
unfoldable pub over_one : Read → Bool
over_one r = not r.minus && ltb 1 r.number

-- `strtoull`: past ULLONG_MAX it is that, and a minus wraps around.
unfoldable pub start_of : Read → ℕ
start_of r =
    if ltb (2 ^ 64 - 1) r.number
    then 2 ^ 64 - 1
    else if r.minus
    then (2 ^ 64 - r.number) % 2 ^ 64
    else r.number

decimal-append :
    (v : ℕ) (s : Bytes) (c : ℕ) → decimal v (s ++ c ∷ []) ≡ decimal v s * 10 + (c - b'0')
decimal-append v [] c = refl
decimal-append v (d ∷ s) c = decimal-append (v * 10 + (d - b'0')) s c

AllDigits-append : (a b : Bytes) → AllDigits a → AllDigits b → AllDigits (a ++ b)
AllDigits-append [] b h k = k
AllDigits-append (c ∷ a) b (e, h) k = (e, AllDigits-append a b h k)

decimal-shown_loop : (fuel n : ℕ) → n < fuel → decimal 0 (shown_loop fuel n) ≡ n
unfolding shown_loop
decimal-shown_loop zero n h = absurd (omega arith)
decimal-shown_loop (suc fuel) n h = elim (ltb_cases n 10) [
  | inl (y, l) ↦ rw y (omega arith)
  | inr (x, l) ↦
      let ih = decimal-shown_loop fuel (n / 10) (omega arith) in
      rw (x, decimal-append 0 (shown_loop fuel (n / 10)) (b'0' + n % 10), ih) (omega arith)
]

AllDigits-shown_loop : (fuel n : ℕ) → AllDigits (shown_loop fuel n)
unfolding shown_loop
AllDigits-shown_loop zero n = tt
AllDigits-shown_loop (suc fuel) n = elim (ltb_cases n 10) [
  | inl (y, l) ↦ rw y (ground arith, tt)
  | inr (x, l) ↦ rw x (
      AllDigits-append (shown_loop fuel (n / 10)) _ (AllDigits-shown_loop fuel (n / 10))
        (ground arith, tt))
]

-- The text of a number, and a byte that is no digit behind it.
abbrev pub Ends : Bytes → Type 0
Ends [] = Unit
Ends (c ∷ s) = is_digit c ≡ false

digit_run-AllDigits : (d rest : Bytes) → AllDigits d → Ends rest → digit_run (d ++ rest) ≡ (d, rest)
unfolding digit_run
digit_run-AllDigits [] [] h e = refl
digit_run-AllDigits [] (c ∷ rest) h e = rw e refl
digit_run-AllDigits (x ∷ d) rest (y, h) e = rw (y, digit_run-AllDigits d rest h e) refl

read_number-AllDigits :
    (c : ℕ) (d rest : Bytes)
    → AllDigits (c ∷ d)
    → Ends rest
    → read_number ((c ∷ d) ++ rest)
      ≡ record { minus = false; number = decimal 0 (c ∷ d); rest = rest }
unfolding read_number
read_number-AllDigits c d rest h e =
    let w : white c ≡ false = ground (arith, h.0) in
    let m : (c == b'-') ≡ false = ground (arith, h.0) in
    let p : (c == b'+') ≡ false = ground (arith, h.0) in
    rw (w, m, p, digit_run-AllDigits (c ∷ d) rest h e) refl

append-ne_nil : (a : Bytes) (c : ℕ) → a ++ c ∷ [] ≢ []
append-ne_nil [] c = λ e. cc
append-ne_nil (x ∷ a) c = λ e. cc

shown_loop-ne_nil : (fuel n : ℕ) → shown_loop (suc fuel) n ≢ []
unfolding shown_loop
shown_loop-ne_nil fuel n = elim (ltb_cases n 10) [
  | inl (y, _) ↦ rw y (λ e. cc)
  | inr (x, _) ↦ rw x (append-ne_nil (shown_loop fuel (n / 10)) (b'0' + n % 10))
]

read_number_text :
    (t rest : Bytes) (n : ℕ)
    → AllDigits t
    → t ≢ []
    → decimal 0 t ≡ n
    → Ends rest
    → read_number (t ++ rest) ≡ record { minus = false; number = n; rest = rest }
read_number_text [] rest n h k d e = absurd (k refl)
read_number_text (c ∷ t) rest n h k d e = read_number-AllDigits c t rest h e ∙ rw d refl

-- What is shown is read back.
pub read_number-shown :
    (n : ℕ) (rest : Bytes)
    → Ends rest
    → read_number (shown n ++ rest) ≡ record { minus = false; number = n; rest = rest }
unfolding shown
read_number-shown n rest e =
    read_number_text (shown_loop (suc n) n) rest n (AllDigits-shown_loop (suc n) n)
      (shown_loop-ne_nil n n) (decimal-shown_loop (suc n) n (omega arith)) e

pub AllDigits-shown : (n : ℕ) → AllDigits (shown n)
unfolding shown
AllDigits-shown n = AllDigits-shown_loop (suc n) n

pub shown-ne_nil : (n : ℕ) → shown n ≢ []
unfolding shown
shown-ne_nil n = shown_loop-ne_nil n n
