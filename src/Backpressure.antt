-- ===== src/Backpressure.antt =====
-- A response to a slow client: sapi/fpmng/fpm/fpm_http_backpressure.c. The output buffer of the
-- client and the events of libevent are fields of the state: `reading` is whether the read event of
-- the upstream is added, `deadline` whether its read deadline runs, `clock` whether the timer of the
-- minimum rate is pending, and `cut` whether the timeouts of the connection were shrunk to end it.
-- The client has a node and a connection, its upstream is bound to the request, and the head of the
-- reply is on the output already.
pub mod Bounded
mod Tests
use php_fpm_ng.Base.{
  ℕ, ◌+◌, ◌-◌, ◌*◌, ◌/◌, Bool, true, false, not, ◌&&◌, ◌||◌, List, [], ◌∷◌, ltb, ◌==◌,
  if◌then◌else◌,
}

pub record Limits : Type 0 where
  pub response_buffer : ℕ
  pub response_min_rate : ℕ

-- `responses_paused` is the gauge of the process, which counts other responses too.
pub record Response : Type 0 where
  pub outlen : ℕ
  pub chunk_lost : Bool
  pub bytes_out : ℕ
  pub read_paused : Bool
  pub has_timer : Bool
  pub clock : Bool
  pub minrate_last_outlen : ℕ
  pub reading : Bool
  pub deadline : Bool
  pub responses_paused_total : ℕ
  pub responses_paused : ℕ
  pub cut : Bool

abbrev pub minrate_window_ms : ℕ
minrate_window_ms = 5000

-- A piece of the response, with whether there is memory for it and for a timer. `framing` is what
-- libevent puts on the output of the client with it, the size line and the CRLF of a chunk.
pub record Piece : Type 0 where
  pub len : ℕ
  pub framing : ℕ
  pub buffered : Bool
  pub timer_made : Bool

-- The clock of the minimum rate.
abbrev pub start_clock : Limits → Bool → Response → Response
start_clock limits timer_made r =
    if ltb 0 limits.response_min_rate && not (not r.has_timer && not timer_made)
    then record r { has_timer = true; clock = true; minrate_last_outlen = r.outlen }
    else r

abbrev pub pause : Limits → Bool → Response → Response
pause limits timer_made r = start_clock limits timer_made (record r {
  read_paused = true;
  responses_paused_total = r.responses_paused_total + 1;
  responses_paused = r.responses_paused + 1;
  reading = false;
  deadline = false;
})

-- The bytes of a piece on the output.
abbrev pub on_output : Piece → ℕ
on_output piece = piece.framing + piece.len

abbrev pub with_sent : Piece → Response → Response
with_sent piece r = record r {
  outlen = r.outlen + on_output piece;
  bytes_out = r.bytes_out + piece.len;
}

unfoldable pub chunk : Limits → Piece → Response → Response
chunk limits piece r =
    if r.chunk_lost
    then r
    else if not piece.buffered
    then record r { chunk_lost = true }
    else if ltb 0 limits.response_buffer
        && not r.read_paused
        && ltb limits.response_buffer (r.outlen + on_output piece)
    then pause limits piece.timer_made (with_sent piece r)
    else with_sent piece r

-- The pieces that one read of the upstream gives.
unfoldable pub read_chunks : Limits → List Piece → Response → Response
unfolding chunk
read_chunks limits [] r = r
read_chunks limits (p ∷ ps) r = read_chunks limits ps (chunk limits p r)

-- `alive` is whether the upstream still has its connection.
unfoldable pub response_resume : Bool → Response → Response
response_resume alive r =
    if r.read_paused
    then record r {
      clock = false;
      read_paused = false;
      responses_paused = r.responses_paused - 1;
      reading = r.reading || alive;
      deadline = r.deadline || alive;
    }
    else record r { clock = false }

-- The client takes bytes from its output; when it is empty, the callback runs.
unfoldable pub drains : Bool → ℕ → Response → Response
unfolding response_resume
drains alive n r =
    if r.outlen - n == 0
    then response_resume alive (record r { outlen = 0 })
    else record r { outlen = r.outlen - n }

-- The event is one-shot.
unfoldable pub minrate_fire : Limits → Response → Response
minrate_fire limits r =
    if not r.read_paused
    then record r { clock = false }
    else if ltb (r.minrate_last_outlen - r.outlen)
        (limits.response_min_rate * minrate_window_ms / 1000)
    then record r { clock = false; cut = true }
    else record r { clock = true; minrate_last_outlen = r.outlen }
