-- ===== src/HttpClient/Body/Bytewise.antt =====
-- A reference machine that reads the body of a response a byte at a time.
pub mod Payload
pub mod Text
use php_fpm_ng.Base.{
  ℕ, zero, suc, ◌+◌, ◌-◌, ◌*◌, ◌≤◌, ◌<◌, Bool, true, false, ◌&&◌, Option, none, some, [], ◌∷◌, ◌++◌,
  ◌≡◌, refl, sym, ap, ◌∙◌, inl, inr, arith, append_assoc, append-nil, Bytes, ltb, ◌==◌,
  if◌then◌else◌, length, Bool-cases, Option-cases, length-append,
}
use php_fpm_ng.HttpClient.Size.{parse_size}
use php_fpm_ng.HttpClient.Body.{
  Mode, cl, chunk_size, chunk_data, chunk_crlf, trailers, eof, State, Progress, done, more, bad,
  Turn, again, stop, split_line, prepend, line_max, pass, behind, is_blank_line, turn, body_loop,
  body,
}

-- What one byte does: a new state, the end of the response with the byte or before it, or an error.
pub data Move : Type 0 where
  next : State → Move
  complete : State → Move
  unread : Move
  broken : Move

abbrev pub got : State → ℕ → State
got st c = record st { out = st.out ++ c ∷ []; remaining = st.remaining - 1 }

unfoldable pub crlf_byte : Bytes → State → ℕ → Move
crlf_byte [] st c = if c == b'\r' then next (record st { line = c ∷ [] }) else broken
crlf_byte (x ∷ line) st c =
    if c == b'\n' then next (record st { line = []; mode = chunk_size }) else broken

unfoldable pub size_byte : State → Option ℕ → Move
size_byte st none = broken
size_byte st (some n) =
    next (record st { line = []; remaining = n; mode = if n == 0 then trailers else chunk_data })

unfoldable pub move : Mode → State → ℕ → Move
unfolding crlf_byte size_byte
move cl st c =
    if st.remaining == 0
    then unread
    else if st.remaining == 1
    then complete (got st c)
    else next (got st c)
move chunk_size st c =
    if c == b'\n'
    then size_byte st (parse_size st.line)
    else next (record st { line = st.line ++ c ∷ [] })
move chunk_data st c =
    if st.remaining == 0
    then crlf_byte st.line (record st { mode = chunk_crlf }) c
    else if st.remaining == 1
    then next (record (got st c) { mode = chunk_crlf })
    else next (got st c)
move chunk_crlf st c = crlf_byte st.line st c
move trailers st c =
    if c == b'\n'
    then if is_blank_line st.line
      then complete (record st { line = [] })
      else next (record st { line = [] })
    else next (record st { line = st.line ++ c ∷ [] })
move eof st c = next (record st { out = st.out ++ c ∷ [] })

unfoldable pub run : State → Bytes → Progress
unfolding move
run st [] = more st []
run st (c ∷ s) = elim (move st.mode st c) [
  | next st' ↦ run st' s
  | complete st' ↦ done st' s
  | unread ↦ done st (c ∷ s)
  | broken ↦ bad st.out
]

-- The run of the machine on what follows the first bytes.
abbrev pub continue : Progress → Bytes → Progress
continue (more st s) t = run st (s ++ t)
continue (done st s) t = done st (s ++ t)
continue (bad o) t = bad o

-- The machine does not see where its input is cut.
pub run-append : (s t : Bytes) (st : State) → run st (s ++ t) ≡ continue (run st s) t
unfolding run
run-append [] t st = refl
run-append (c ∷ s) t st =
    elim (move st.mode st c)
      as (λ m.
        elim m as (λ _. Progress) [
          | next st' ↦ run st' (s ++ t)
          | complete st' ↦ done st' (s ++ t)
          | unread ↦ done st (c ∷ (s ++ t))
          | broken ↦ bad st.out
        ]
        ≡ continue
            (elim m as (λ _. Progress) [
              | next st' ↦ run st' s
              | complete st' ↦ done st' s
              | unread ↦ done st (c ∷ s)
              | broken ↦ bad st.out
            ])
            t) [
              | next st' ↦ run-append s t st'
              | complete st' ↦ refl
              | unread ↦ refl
              | broken ↦ refl
            ]
