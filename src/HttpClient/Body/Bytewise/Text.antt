-- ===== src/HttpClient/Body/Bytewise/Text.antt =====
-- The reference machine over the lines of the chunked framing.
use php_fpm_ng.Base.{
  ℕ, false, Option, none, some, [], ◌∷◌, ◌++◌, ◌≡◌, refl, ap, ◌∙◌, inl, inr, arith, append_assoc,
  append-nil, Bytes, ◌==◌, if◌then◌else◌, Bool-cases,
}
use php_fpm_ng.HttpClient.Size.{parse_size}
use php_fpm_ng.HttpClient.Body.{
  Mode, cl, eof, chunk_size, chunk_data, chunk_crlf, trailers, done, bad, prepend, split_line,
  is_blank_line,
}
use php_fpm_ng.HttpClient.Body.Bytewise.{move, run}
use php_fpm_ng.HttpClient.Body.Bytewise.Payload.{at}

-- No byte is a newline.
abbrev pub IsLine : Bytes → Type 0
IsLine [] = Unit
IsLine (c ∷ s) = ((c == b'\n') ≡ false) × IsLine s

abbrev pub Splits : Bytes → Option (Bytes × Bytes) → Type 0
Splits buf none = IsLine buf
Splits buf (some (a, r)) = IsLine a × (buf ≡ a ++ (b'\n' ∷ r))

pub split_line-Splits : (buf : Bytes) → Splits buf (split_line buf)
unfolding split_line
split_line-Splits [] = tt
split_line-Splits (c ∷ s) = elim (Bool-cases (c == b'\n')) [
  | inl e ↦ rw e (tt, ground arith)
  | inr n ↦ rw n (behind (split_line s) (split_line-Splits s) n)
]
  where
    behind :
        (o : Option (Bytes × Bytes))
        → Splits s o
        → (c == b'\n') ≡ false
        → Splits (c ∷ s) (prepend c o)
    behind none h n = (n, h)
    behind (some (a, r)) h n = ((n, h.0), ap (◌∷◌ c) h.1)

-- A mode that gathers a line.
abbrev pub IsText : Mode → Type 0
IsText chunk_size = Unit
IsText trailers = Unit
IsText _ = ⊥

run-gather :
    (m : Mode) (c r : ℕ) (s l o : Bytes)
    → IsText m
    → (c == b'\n') ≡ false
    → run (at m r l o) (c ∷ s) ≡ run (at m r (l ++ c ∷ []) o) s
unfolding run move
run-gather chunk_size c r s l o t h = rw (h, run) refl
run-gather trailers c r s l o t h = rw (h, run) refl
run-gather cl c r s l o t h = absurd t
run-gather chunk_data c r s l o t h = absurd t
run-gather chunk_crlf c r s l o t h = absurd t
run-gather eof c r s l o t h = absurd t

pub run-line :
    (t rest : Bytes) (m : Mode) (r : ℕ) (l o : Bytes)
    → IsText m
    → IsLine t
    → run (at m r l o) (t ++ rest) ≡ run (at m r (l ++ t) o) rest
run-line [] rest m r l o i h = rw append-nil refl
run-line (c ∷ t) rest m r l o i (n, h) =
    run-gather m c r (t ++ rest) l o i n
    ∙ run-line t rest m r (l ++ c ∷ []) o i h
    ∙ rw append_assoc refl

abbrev after_size : ℕ → Mode
after_size n = if n == 0 then trailers else chunk_data

-- The newline of a size line.
pub run-size :
    (rest : Bytes) (r n : ℕ) (l o : Bytes)
    → parse_size l ≡ some n
    → run (at chunk_size r l o) (b'\n' ∷ rest) ≡ run (at (after_size n) n [] o) rest
unfolding run move
run-size rest r n l o e = rw (e, run) refl

pub run-size_bad :
    (rest : Bytes) (r : ℕ) (l o : Bytes)
    → parse_size l ≡ none
    → run (at chunk_size r l o) (b'\n' ∷ rest) ≡ bad o
unfolding run move
run-size_bad rest r l o e = rw (e, run) refl

-- The newline of a trailer line.
pub run-trailer :
    (rest : Bytes) (r : ℕ) (l o : Bytes)
    → run (at trailers r l o) (b'\n' ∷ rest)
      ≡ (if is_blank_line l then done (at trailers r [] o) rest else run (at trailers r [] o) rest)
unfolding run move
run-trailer rest r l o = ground arith

pub run-crlf :
    (rest : Bytes) (r : ℕ) (o : Bytes)
    → run (at chunk_crlf r [] o) (b'\r' ∷ b'\n' ∷ rest) ≡ run (at chunk_size r [] o) rest
unfolding run move
run-crlf rest r o = refl
