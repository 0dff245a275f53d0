-- ===== src/HttpClient/Body/Pieces.antt =====
-- The body of a response does not depend on how its bytes are cut into reads.
use mathlib.Core.Path.{subst}
use php_fpm_ng.Base.{
  all_of, List, append-nil, append_assoc, ℕ, suc, ◌+◌, ◌-◌, ◌≤◌, Option, none, some, [], ◌∷◌, ◌++◌,
  ◌≡◌, refl, sym, ap, ◌∙◌, inl, inr, arith, Bytes, ◌==◌, length, Bool-cases, length-append,
}
use php_fpm_ng.HttpClient.Size.{parse_size}
use php_fpm_ng.HttpClient.Body.{
  Mode, cl, chunk_size, chunk_data, chunk_crlf, trailers, eof, State, Progress, done, more, bad,
  line_max, is_blank_line, body,
}
use php_fpm_ng.HttpClient.Body.Bytewise.{
  Move, next, complete, unread, broken, crlf_byte, size_byte, move, run, continue, run-append,
}
use php_fpm_ng.HttpClient.Body.Falls.{body-run}

-- The caller's next piece, `t`: behind what was left of the last one.
abbrev pub resume : Progress → Bytes → Progress
resume (more st s) t = body st (s ++ t)
resume (done st s) t = done st (s ++ t)
resume (bad o) t = bad o

-- One byte adds at most one byte to the line.
abbrev Gathers : ℕ → Move → Type 0
Gathers n (next st) = length st.line ≤ n
Gathers n _ = Unit

crlf_byte-Gathers : (l : Bytes) (st : State) (c : ℕ) → Gathers (length l + 1) (crlf_byte l st c)
unfolding crlf_byte
crlf_byte-Gathers [] st c = elim (Bool-cases (c == b'\r')) [
  | inl e ↦ rw e (omega arith)
  | inr n ↦ rw n tt
]
crlf_byte-Gathers (x ∷ l) st c = elim (Bool-cases (c == b'\n')) [
  | inl e ↦ rw e (omega arith)
  | inr n ↦ rw n tt
]

size_byte-Gathers : (st : State) (p : Option ℕ) (n : ℕ) → Gathers n (size_byte st p)
unfolding size_byte
size_byte-Gathers st none n = tt
size_byte-Gathers st (some k) n = omega arith

move-Gathers : (m : Mode) (st : State) (c : ℕ) → Gathers (length st.line + 1) (move m st c)
unfolding move
move-Gathers cl st c = elim (Bool-cases (st.remaining == 0)) [
  | inl e ↦ rw e tt
  | inr n ↦
      rw n (elim (Bool-cases (st.remaining == 1)) [ inl e ↦ rw e tt | inr k ↦ rw k (omega arith) ])
]
move-Gathers chunk_size st c = elim (Bool-cases (c == b'\n')) [
  | inl e ↦ rw e (size_byte-Gathers st (parse_size st.line) (length st.line + 1))
  | inr n ↦ rw n (omega (arith, length-append st.line (c ∷ [])))
]
move-Gathers chunk_data st c = elim (Bool-cases (st.remaining == 0)) [
  | inl e ↦ rw e (crlf_byte-Gathers st.line (record st { mode = chunk_crlf }) c)
  | inr n ↦ rw n (elim (Bool-cases (st.remaining == 1)) [
    | inl e ↦ rw e (omega arith)
    | inr k ↦ rw k (omega arith)
  ])
]
move-Gathers chunk_crlf st c = crlf_byte-Gathers st.line st c
move-Gathers trailers st c = elim (Bool-cases (c == b'\n')) [
  | inl e ↦
      rw e
        (elim (Bool-cases (is_blank_line st.line)) [ inl y ↦ rw y tt | inr y ↦ rw y (omega arith) ])
  | inr n ↦ rw n (omega (arith, length-append st.line (c ∷ [])))
]
move-Gathers eof st c = omega arith

-- What the machine holds when it waits for more bytes.
abbrev Waits : ℕ → Progress → Type 0
Waits n (more st s) = length st.line + length s ≤ n
Waits n _ = Unit

Waits-weaken : (m n : ℕ) (p : Progress) → m ≤ n → Waits m p → Waits n p
Waits-weaken m n (more st s) h w = omega arith
Waits-weaken m n (done st s) h w = tt
Waits-weaken m n (bad o) h w = tt

run-Waits : (s : Bytes) (st : State) → Waits (length st.line + length s) (run st s)
unfolding run
run-Waits [] st = omega arith
run-Waits (c ∷ s) st = round (move st.mode st c) (move-Gathers st.mode st c) (run-Waits s)
  where
    round :
        (m : Move)
        → Gathers (length st.line + 1) m
        → ((st' : State) → Waits (length st'.line + length s) (run st' s))
        → Waits (length st.line + suc (length s)) (elim m as (λ _. Progress) [
          | next st' ↦ run st' s
          | complete st' ↦ done st' s
          | unread ↦ done st (c ∷ s)
          | broken ↦ bad st.out
        ])
    round (next st') g ih =
        Waits-weaken (length st'.line + length s) (length st.line + suc (length s)) (run st' s)
          (omega arith) (ih st')
    round (complete st') g ih = tt
    round unread g ih = tt
    round broken g ih = tt

resume-continue :
    (p : Progress) (t : Bytes)
    → Waits (line_max - length t) p
    → length t ≤ line_max
    → resume p t ≡ continue p t
resume-continue (more st s) t w h = body-run st (s ++ t) (omega (arith, length-append s t))
resume-continue (done st s) t w h = refl
resume-continue (bad o) t w h = refl

-- Two pieces give what the joined bytes give: the same state or end, the same unread bytes and the
-- same output, as long as the line held and both pieces fit the 16 KiB limit together.
pub body-append :
    (st : State) (s t : Bytes)
    → length st.line + length (s ++ t) ≤ line_max
    → body st (s ++ t) ≡ resume (body st s) t
body-append st s t h =
    let k = length-append s t in
    body-run st (s ++ t) h
    ∙ run-append s t st
    ∙ sym (
        resume-continue (run st s) t
          (Waits-weaken (length st.line + length s) (line_max - length t) (run st s) (omega arith)
            (run-Waits s st))
          (omega arith))
    ∙ ap (λ p. resume p t) (sym (body-run st s (omega arith)))

-- The reads of a body, one after another.
abbrev pub body_reads : Progress → List Bytes → Progress
body_reads p [] = p
body_reads p (t ∷ ts) = body_reads (resume p t) ts

-- The part of a line that is held, and the bytes that are left.
abbrev held : Progress → ℕ
held (more st s) = length st.line + length s
held (done st s) = 0
held (bad o) = 0

-- At each read, what is held and the new bytes have at most 16 KiB together.
abbrev pub ReadsFit : Progress → List Bytes → Type 0
ReadsFit p [] = Unit
ReadsFit p (t ∷ ts) = (held p + length t ≤ line_max) × ReadsFit (resume p t) ts

resume_held : (p : Progress) (t : Bytes) → held p + length t ≤ line_max → resume p t ≡ continue p t
resume_held (more st s) t h = body-run st (s ++ t) (omega (arith, length-append s t))
resume_held (done st s) t h = refl
resume_held (bad o) t h = refl

-- The reads of a body of any length give what the machine gives on all the bytes.
pub body_reads-run :
    (ts : List Bytes) (st : State) (s : Bytes)
    → ReadsFit (run st s) ts
    → body_reads (run st s) ts ≡ run st (s ++ all_of ts)
body_reads-run [] st s h = ap (run st) (sym (append-nil s))
body_reads-run (t ∷ ts) st s (l, h) =
    let e : resume (run st s) t ≡ run st (s ++ t) =
      resume_held (run st s) t l ∙ sym (run-append s t st) in
    ap (λ p. body_reads p ts) e
    ∙ (body_reads-run ts st (s ++ t) (subst (λ p. ReadsFit p ts) e h)
        ∙ ap (run st) (append_assoc s t (all_of ts)))
