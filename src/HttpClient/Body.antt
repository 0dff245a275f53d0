-- ===== src/HttpClient/Body.antt =====
-- The body state machine `fpm_http_http_body` (sapi/fpmng/fpm/fpm_http_client.c). The bytes that it
-- hands to `fpm_http_stdout` are the field `out`.
pub mod Bytewise
pub mod Rounds
pub mod Falls
pub mod Pieces
pub mod Decode
use php_fpm_ng.Base.{
  ℕ, zero, suc, ◌+◌, ◌-◌, ◌*◌, Bool, true, false, ◌&&◌, Option, none, some, [], ◌∷◌, ◌++◌, Bytes,
  ltb, ◌==◌, if◌then◌else◌, length, take, drop,
}
use Prim.Native.Nat.{min}
use php_fpm_ng.HttpClient.Size.{parse_size}

pub data Mode : Type 0 where
  cl chunk_size chunk_data chunk_crlf trailers eof : Mode

-- The fields of `struct fpm_http_http_state_s` that the body uses.
pub record State : Type 0 where
  pub mode : Mode
  pub remaining : ℕ
  pub line : Bytes
  pub out : Bytes

-- The returns 1, 0 and -1, with `*buf` behind the bytes that were read. What was handed on before
-- an error stays handed on.
pub data Progress : Type 0 where
  done : State → Bytes → Progress
  more : State → Bytes → Progress
  bad : Bytes → Progress

-- One round of the `while` loop: a `continue`, or a `return`.
pub data Turn : Type 0 where
  again : State → Bytes → Turn
  stop : Progress → Turn

abbrev pub prepend : ℕ → Option (Bytes × Bytes) → Option (Bytes × Bytes)
prepend c none = none
prepend c (some (a, b)) = some (c ∷ a, b)

-- `memchr(buf, '\n', len)`: the bytes before the newline, and those behind it.
pub split_line : Bytes → Option (Bytes × Bytes)
split_line [] = none
split_line (c ∷ s) = if c == b'\n' then some ([], s) else prepend c (split_line s)

-- 16 KiB: the longest line that is gathered from pieces.
abbrev pub line_max : ℕ
line_max = 16384

-- `take = MIN(remaining, len)` bytes are handed on.
abbrev pub pass : State → Bytes → State
pass st buf =
    let n = min st.remaining (length buf) in
    record st { out = st.out ++ take n buf; remaining = st.remaining - n }

abbrev pub behind : State → Bytes → Bytes
behind st buf = drop (min st.remaining (length buf)) buf

pub turn_cl : State → Bytes → Turn
turn_cl st buf =
    if (pass st buf).remaining == 0
    then stop (done (pass st buf) (behind st buf))
    else stop (more (pass st buf) (behind st buf))

-- The size line is complete, without its newline.
pub take_size : State → Bytes → Option ℕ → Turn
take_size st rest none = stop (bad st.out)
take_size st rest (some n) =
    again (record st { line = []; remaining = n; mode = if n == 0 then trailers else chunk_data })
      rest

pub turn_size : State → Bytes → Option (Bytes × Bytes) → Turn
unfolding take_size parse_size
turn_size st buf none =
    if ltb line_max (length (st.line ++ buf))
    then stop (bad st.out)
    else stop (more (record st { line = st.line ++ buf }) [])
turn_size st buf (some (piece, rest)) = take_size st rest (parse_size (st.line ++ piece))

-- One round of the inner loop ends it: either the payload or the buffer is used up.
pub turn_data : State → Bytes → Turn
turn_data st buf =
    if (pass st buf).remaining == 0
    then again (record (pass st buf) { mode = chunk_crlf }) (behind st buf)
    else stop (more (pass st buf) (behind st buf))

-- The first two arguments are the held-over line and the buffer.
pub turn_crlf : Bytes → Bytes → State → Turn
turn_crlf line [] st = stop (more st [])
turn_crlf (x ∷ line) (c ∷ s) st =
    if c == b'\n' then again (record st { line = []; mode = chunk_size }) s else stop (bad st.out)
turn_crlf [] (c ∷ []) st =
    if c == b'\r' then stop (more (record st { line = c ∷ [] }) []) else stop (bad st.out)
turn_crlf [] (c ∷ d ∷ s) st =
    if c == b'\r' && d == b'\n'
    then again (record st { mode = chunk_size }) s
    else stop (bad st.out)

-- An empty line, or a lone CR.
abbrev pub is_blank_line : Bytes → Bool
is_blank_line [] = true
is_blank_line (c ∷ []) = c == b'\r'
is_blank_line (c ∷ d ∷ s) = false

pub turn_trailers : State → Bytes → Option (Bytes × Bytes) → Turn
turn_trailers st buf none =
    if ltb line_max (length (st.line ++ buf))
    then stop (bad st.out)
    else stop (more (record st { line = st.line ++ buf }) [])
turn_trailers st buf (some (piece, rest)) =
    if ltb line_max (length (st.line ++ piece))
    then stop (bad st.out)
    else if is_blank_line (st.line ++ piece)
    then stop (done (record st { line = [] }) rest)
    else again (record st { line = [] }) rest

pub turn : Mode → State → Bytes → Turn
unfolding turn_cl turn_size turn_data turn_crlf turn_trailers split_line
turn cl st buf = turn_cl st buf
turn chunk_size st buf = turn_size st buf (split_line buf)
turn chunk_data st buf = turn_data st buf
turn chunk_crlf st buf = turn_crlf st.line buf st
turn trailers st buf = turn_trailers st buf (split_line buf)
turn eof st buf = stop (more (record st { out = st.out ++ buf }) [])

-- `while (*len > 0)`, on fuel.
pub body_loop : ℕ → State → Bytes → Progress
unfolding turn
body_loop f st [] = more st []
body_loop zero st (c ∷ s) = more st (c ∷ s)
body_loop (suc f) st (c ∷ s) = elim (turn st.mode st (c ∷ s)) [
  | again st' buf' ↦ body_loop f st' buf'
  | stop r ↦ r
]

-- Every round reads a byte, but for one round on an empty payload: two rounds for each byte.
unfoldable pub body : State → Bytes → Progress
unfolding body_loop
body st buf = body_loop (2 * length buf + 2) st buf
