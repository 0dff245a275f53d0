-- ===== src/Reply/Lines.antt =====
-- A header block of lines that end in CRLF, before a blank line.
use mathlib.Core.Path.{subst}
use php_fpm_ng.Base.{
  all_of, ℕ, suc, ◌+◌, ◌≤◌, ◌≡◌, refl, sym, ap, ◌∙◌, Bool, false, inr, Option, some, List, [], ◌∷◌,
  ◌++◌, append_assoc, arith, Bytes, starts_with, length, length-append, take, drop, ◌==◌,
}
use php_fpm_ng.Base.Tokens.{IsClean}
use php_fpm_ng.Reply.{max_cgi_headers, blank_lf, blank_crlf, find_end, no_answer, settle, stdout}
use php_fpm_ng.Reply.Head.{
  Request, lines_from, strip_cr, head_lines, no_head, reply_of, start_reply,
}
use php_fpm_ng.Reply.Block.{at_crlf, later_on}
use php_fpm_ng.Reply.Pieces.{Fits, Ready, gathers, pieces_of, pieces_of-all}

abbrev pub is_lf : ℕ → Bool
is_lf c = c == b'\n'

-- A line that is not blank, without its end.
pub record IsLine (t : Bytes) : Type 0 where
  pub clean : IsClean is_lf t
  pub start : ℕ
  pub rest : Bytes
  pub starts : t ≡ start ∷ rest
  pub no_cr : (b'\r' == start) ≡ false

abbrev pub AllLines : List Bytes → Type 0
AllLines [] = Unit
AllLines (t ∷ ts) = IsLine t × AllLines ts

abbrev pub crlf : Bytes
crlf = b'\r' ∷ b'\n' ∷ []

abbrev pub block : List Bytes → Bytes
block [] = []
block (t ∷ ts) = t ++ b'\r' ∷ b'\n' ∷ block ts

plus_zero : (i : ℕ) → i + 0 ≡ i
plus_zero i = omega arith

plus_suc : (i n : ℕ) → i + 1 + n ≡ i + suc n
plus_suc i n = omega arith

no_lf_pair : (c : ℕ) (s : Bytes) → (c == b'\n') ≡ false → starts_with blank_lf (c ∷ s) ≡ false
unfolding starts_with
no_lf_pair c s x = let y : (b'\n' == c) ≡ false = ground (arith, x) in rw y refl

no_crlf_pair :
    (c d : ℕ) (s : Bytes) → (d == b'\n') ≡ false → starts_with blank_crlf (c ∷ d ∷ s) ≡ false
unfolding starts_with
no_crlf_pair c d s x = let y : (b'\n' == d) ≡ false = ground (arith, x) in rw y (ground arith)

-- No blank line starts in a line.
in_line :
    (i : ℕ) (t rest : Bytes)
    → IsClean is_lf t
    → find_end i (t ++ b'\r' ∷ b'\n' ∷ rest) ≡ find_end (i + length t) (b'\r' ∷ b'\n' ∷ rest)
in_line i [] rest h = ap (λ k. find_end k (b'\r' ∷ b'\n' ∷ rest)) (sym (plus_zero i))
in_line i (c ∷ []) rest (x, h) =
    later_on i c (b'\r' ∷ b'\n' ∷ rest) (no_lf_pair c _ x) (no_crlf_pair c b'\r' _ refl)
in_line i (c ∷ d ∷ t) rest (x, (y, h)) =
    later_on i c (d ∷ (t ++ b'\r' ∷ b'\n' ∷ rest)) (no_lf_pair c _ x) (no_crlf_pair c d _ y)
    ∙ (in_line (i + 1) (d ∷ t) rest (y, h)
        ∙ ap (λ k. find_end k (b'\r' ∷ b'\n' ∷ rest)) (plus_suc i (length (d ∷ t))))

-- Between two lines.
between :
    (i d : ℕ) (s : Bytes)
    → (b'\r' == d) ≡ false
    → (b'\n' == d) ≡ false
    → find_end i (b'\r' ∷ b'\n' ∷ d ∷ s) ≡ find_end (i + 2) (d ∷ s)
unfolding starts_with
between i d s x y =
    later_on i b'\r' (b'\n' ∷ d ∷ s) refl (rw x refl)
    ∙ (later_on (i + 1) b'\n' (d ∷ s) (rw y refl) refl
        ∙ ap (λ k. find_end k (d ∷ s)) (let e : i + 1 + 1 ≡ i + 2 = omega arith in e))

clean_start : (t : Bytes) (c : ℕ) (s : Bytes) → t ≡ c ∷ s → IsClean is_lf t → is_lf c ≡ false
clean_start [] c s e h = absurd (cc)
clean_start (d ∷ t) c s e (x, h) = let q : d ≡ c = cc in rw (← q) x

behind_line :
    (i : ℕ) (u s : Bytes)
    → IsLine u
    → find_end i (b'\r' ∷ b'\n' ∷ (u ++ s)) ≡ find_end (i + 2) (u ++ s)
behind_line i u s h =
    let x = clean_start u h.start h.rest h.starts h.clean in
    let y : (b'\n' == h.start) ≡ false = ground (arith, x) in
    rw h.starts (between i h.start (h.rest ++ s) h.no_cr y)

end_of : ℕ → Option (ℕ × ℕ)
end_of n = some (n, n + 2)

ends : (a b c : ℕ) → a ≡ c → b ≡ c + 2 → some (a, b) ≡ end_of c
unfolding end_of
ends a b c e f = ap (λ x. some (x, b)) e ∙ ap (λ y. some (c, y)) f

-- The end of the block is behind its last line.
find_end-block :
    (i : ℕ) (t : Bytes) (ts : List Bytes) (body : Bytes)
    → AllLines (t ∷ ts)
    → find_end i (t ++ b'\r' ∷ b'\n' ∷ (block ts ++ b'\r' ∷ b'\n' ∷ body))
      ≡ end_of (i + length (block (t ∷ ts)))
unfolding starts_with end_of
find_end-block i t [] body (h, k) =
    in_line i t (b'\r' ∷ b'\n' ∷ body) h.clean
    ∙ (at_crlf (i + length t) b'\r' (b'\n' ∷ b'\r' ∷ b'\n' ∷ body) refl refl
        ∙ (let e = length-append t crlf in
            ends (i + length t + 2) (i + length t + 4) (i + length (block (t ∷ [])))
              (omega (arith, e)) (omega (arith, e))))
find_end-block i t (u ∷ us) body (h, (k, l)) =
    in_line i t (block (u ∷ us) ++ b'\r' ∷ b'\n' ∷ body) h.clean
    ∙ (ap (λ s. find_end (i + length t) (b'\r' ∷ b'\n' ∷ s))
          (append_assoc u (b'\r' ∷ b'\n' ∷ block us) (b'\r' ∷ b'\n' ∷ body))
        ∙ behind_line (i + length t) u (b'\r' ∷ b'\n' ∷ (block us ++ b'\r' ∷ b'\n' ∷ body)) k
        ∙ (find_end-block (i + length t + 2) u us body (k, l)
            ∙ ap end_of
                (let e = length-append t (b'\r' ∷ b'\n' ∷ block (u ∷ us)) in omega (arith, e))))

lines_from-block :
    (line t rest : Bytes)
    → IsClean is_lf t
    → lines_from line (t ++ b'\r' ∷ b'\n' ∷ rest) ≡ (line ++ (t ++ b'\r' ∷ [])) ∷ lines_from [] rest
unfolding lines_from
lines_from-block line [] rest h = refl
lines_from-block line (c ∷ t) rest (x, h) = rw x (
    lines_from-block (line ++ c ∷ []) t rest h
    ∙ ap (◌∷ lines_from [] rest) (append_assoc line (c ∷ []) (t ++ b'\r' ∷ [])))

pub strip_cr-line : (t : Bytes) → strip_cr (t ++ b'\r' ∷ []) ≡ t
unfolding strip_cr
strip_cr-line [] = refl
strip_cr-line (c ∷ []) = refl
strip_cr-line (c ∷ d ∷ t) = ap (c ∷◌) (strip_cr-line (d ∷ t))

-- The lines with their CR, as the loop sees them.
abbrev pub with_cr : List Bytes → List Bytes
with_cr [] = []
with_cr (t ∷ ts) = (t ++ b'\r' ∷ []) ∷ with_cr ts

lines_from-all : (ts : List Bytes) → AllLines ts → lines_from [] (block ts) ≡ with_cr ts
unfolding lines_from
lines_from-all [] h = refl
lines_from-all (t ∷ ts) (h, k) =
    lines_from-block [] t (block ts) h.clean ∙ ap ((t ++ b'\r' ∷ []) ∷◌) (lines_from-all ts k)

take_all : (s d : Bytes) → take (length s) (s ++ d) ≡ s
take_all [] d = refl
take_all (c ∷ s) d = ap (c ∷◌) (take_all s d)

drop_all : (s d : Bytes) → drop (length s + 2) (s ++ b'\r' ∷ b'\n' ∷ d) ≡ d
drop_all [] d = refl
drop_all (c ∷ s) d =
    let e : length (c ∷ s) + 2 ≡ suc (length s + 2) = omega arith in
    ap (λ n. drop n (c ∷ (s ++ b'\r' ∷ b'\n' ∷ d))) e ∙ drop_all s d

-- A whole output: its lines give the head, and what stands behind the blank line is the body.
pub stdout-block :
    (rq : Request) (t : Bytes) (ts : List Bytes) (body : Bytes)
    → AllLines (t ∷ ts)
    → stdout rq no_answer (block (t ∷ ts) ++ (b'\r' ∷ b'\n' ∷ body))
      ≡ reply_of rq (head_lines rq (with_cr (t ∷ ts)) (no_head rq)) body
unfolding stdout start_reply end_of
stdout-block rq t ts body h =
    let text = block (t ∷ ts) in
    let y = b'\r' ∷ b'\n' ∷ body in
    let e = append_assoc t (b'\r' ∷ b'\n' ∷ block ts) y in
    let f = ap (find_end 0) e ∙ find_end-block 0 t ts body h in
    ap (settle rq no_answer (text ++ y)) f
    ∙ (ap (λ n. start_reply rq (text ++ y) n (n + 2))
          (let z : 0 + length text ≡ length text = omega arith in z)
        ∙ (ap
              (λ s.
                reply_of rq (head_lines rq (lines_from [] s) (no_head rq))
                  (drop (length text + 2) (text ++ y)))
              (take_all text y)
            ∙ (ap
                  (λ ls.
                    reply_of rq (head_lines rq ls (no_head rq))
                      (drop (length text + 2) (text ++ y)))
                  (lines_from-all (t ∷ ts) h)
                ∙ ap (reply_of rq (head_lines rq (with_cr (t ∷ ts)) (no_head rq)))
                    (drop_all text body))))

-- A head that fits gives the same answer however the output is cut.
pub pieces-block :
    (rq : Request) (t : Bytes) (ts : List Bytes) (body : Bytes) (pieces : List Bytes)
    → AllLines (t ∷ ts)
    → length (block (t ∷ ts)) + 2 ≤ max_cgi_headers
    → all_of pieces ≡ block (t ∷ ts) ++ (b'\r' ∷ b'\n' ∷ body)
    → pieces_of rq no_answer pieces ≡ stdout rq no_answer (block (t ∷ ts) ++ (b'\r' ∷ b'\n' ∷ body))
unfolding find_end end_of
pieces-block rq t ts body pieces l m e =
    let text = block (t ∷ ts) ++ (b'\r' ∷ b'\n' ∷ body) in
    let n = length (block (t ∷ ts)) in
    let found : find_end 0 text ≡ some (0 + n, 0 + n + 2) =
      ap (find_end 0) (append_assoc t (b'\r' ∷ b'\n' ∷ block ts) (b'\r' ∷ b'\n' ∷ body))
      ∙ find_end-block 0 t ts body l in
    let fits : Fits text = inr ((0 + n, 0 + n + 2), found, omega arith) in
    pieces_of-all rq no_answer pieces (
      subst (Ready no_answer) (sym e)
        (gathers (record { kept = refl; unsent = refl; looking = refl }) fits))
    ∙ ap (stdout rq no_answer) e
