-- ===== src/Reply.antt =====
-- The reply of a FastCGI worker: `fpm_http_upstream_data` of sapi/fpmng/fpm/fpm_http.c, which takes
-- the records apart, and `fpm_http_stdout` and `fpm_http_finish` of sapi/fpmng/fpm/fpm_http_fcgi.c.
-- What the record parser calls is a list of events, in their order; `serve` runs them. The pump that
-- runs when a request is done may drop the connection: `drops` is whether it does.
mod Status
mod Head
pub mod Bytewise
pub mod Cuts
pub mod Block
pub mod Pieces
pub mod Encoded
pub mod Served
pub mod Coded
pub mod Lines
pub mod Fields
mod Tests
use php_fpm_ng.Base.{
  ℕ, zero, suc, ◌+◌, ◌-◌, ◌*◌, Bool, true, false, not, ◌&&◌, ◌||◌, Option, none, some, List, [],
  ◌∷◌, ◌++◌, Bytes, codes, starts_with, length, get_or, take, drop, ltb, ◌==◌, if◌then◌else◌,
}
use Head.{Request, ClientReply, bad_gateway_body, start_reply}

-- FPM_HTTP_MAX_CGI_HEADERS.
abbrev pub max_cgi_headers : ℕ
max_cgi_headers = 65536

abbrev pub blank_lf : Bytes
blank_lf = b'\n' ∷ b'\n' ∷ []

abbrev pub blank_crlf : Bytes
blank_crlf = b'\r' ∷ b'\n' ∷ b'\r' ∷ b'\n' ∷ []

-- The loop over the block, from the place `i` on: where the head ends, and where the body starts.
unfoldable pub find_end : ℕ → Bytes → Option (ℕ × ℕ)
find_end i [] = none
find_end i (c ∷ s) =
    let rest = find_end (i + 1) s in
    if starts_with blank_lf (c ∷ s)
    then some (i + 1, i + 2)
    else if starts_with blank_crlf (c ∷ s)
    then some (i + 2, i + 4)
    else rest

abbrev pub no_answer : ClientReply
no_answer = record {
  cgi_headers = [];
  headers_sent = false;
  discard_upstream = false;
  status = 0;
  reason = none;
  headers = [];
  body = [];
}

-- The block is `text` now.
abbrev pub settle : Request → ClientReply → Bytes → Option (ℕ × ℕ) → ClientReply
settle rq a text (some (head_len, body_off)) = start_reply rq text head_len body_off
settle rq a text none =
    if ltb max_cgi_headers (length text)
    then start_reply rq text 0 0
    else record a { cgi_headers = text }

unfoldable pub stdout : Request → ClientReply → Bytes → ClientReply
unfolding find_end start_reply
stdout rq a piece =
    let scan_from = length a.cgi_headers - 3 in
    let text = a.cgi_headers ++ piece in
    if a.discard_upstream
    then a
    else if a.headers_sent
    then record a { body = a.body ++ piece }
    else settle rq a text (find_end scan_from (drop scan_from text))

-- The reason of the 502.
abbrev pub bad_gateway_reason : Bytes
bad_gateway_reason = codes "Bad Gateway"

-- The reply that the client gets when the worker is done with the request.
unfoldable pub finish_reply : Request → ClientReply → ClientReply
finish_reply rq a = if a.headers_sent then a else record a {
  status = 502;
  reason = some bad_gateway_reason;
  headers = (codes "Content-Type", codes "text/plain") ∷ (codes "Connection", codes "close") ∷ [];
  body = if rq.is_head then [] else bad_gateway_body;
}

pub data Event : Type 0 where
  out_piece log_piece : Bytes → Event
  request_done : Event

pub record Parser : Type 0 where
  pub rec_hdr : Bytes
  pub rec_type : ℕ
  pub rec_len : ℕ
  pub rec_pad : ℕ
  pub dead : Bool

-- `memset` of the header, and the assignments behind it.
abbrev pub reset : Bool → Parser
reset drops = record { rec_hdr = []; rec_type = 0; rec_len = 0; rec_pad = 0; dead = drops }

-- FCGI_END_REQUEST, FCGI_STDOUT and FCGI_STDERR.
abbrev pub end_request : ℕ
end_request = 3

abbrev pub stdout_type : ℕ
stdout_type = 6

abbrev pub stderr_type : ℕ
stderr_type = 7

abbrev pub is_ended : Parser → Bool
is_ended p = p.rec_len == 0 && p.rec_pad == 0 && p.rec_type == end_request

abbrev pub ending : Bool → Parser → Parser × List Event
ending drops p = if is_ended p then (reset drops, request_done ∷ []) else (p, [])

abbrev pub read_header : Bytes → Parser → Parser
read_header hdr p = record p {
  rec_hdr = [];
  rec_type = get_or hdr 1 0;
  rec_len = get_or hdr 4 0 * 256 + get_or hdr 5 0;
  rec_pad = get_or hdr 6 0;
}

abbrev pub header_step : Bool → Bytes → Parser → Parser × List Event
header_step drops hdr p =
    if ltb (length hdr) 8
    then (record p { rec_hdr = hdr }, [])
    else ending drops (read_header hdr p)

abbrev pub content_event : ℕ → Bytes → List Event
content_event type piece =
    if type == stdout_type
    then out_piece piece ∷ []
    else if type == stderr_type
    then log_piece piece ∷ []
    else []

abbrev pub then_ending : Bool → List Event → Parser → Parser × List Event
then_ending drops events p = let (q, more) = ending drops p in (q, events ++ more)

abbrev pub in_header : Parser → Bool
in_header p = p.rec_len == 0 && p.rec_pad == 0

-- How many bytes one turn of the loop takes, of `len`, and what it does with them.
abbrev pub most : Parser → ℕ
most p =
    if in_header p then 8 - length p.rec_hdr else if ltb 0 p.rec_len then p.rec_len else p.rec_pad

abbrev pub record_turn : Bool → Bytes → Parser → Parser × List Event
record_turn drops piece p =
    if in_header p
    then header_step drops (p.rec_hdr ++ piece) p
    else if ltb 0 p.rec_len
    then then_ending drops (content_event p.rec_type piece)
        (record p { rec_len = p.rec_len - length piece })
    else ending drops (record p { rec_pad = p.rec_pad - length piece })

abbrev pub then_events : List Event → Parser × List Event → Parser × List Event
then_events events (p, more) = (p, events ++ more)

-- The loop, each of whose turns takes a byte at least: as many turns as bytes are enough.
unfoldable pub data_loop : Bool → ℕ → Parser → Bytes → Parser × List Event
data_loop drops zero p buf = (p, [])
data_loop drops (suc n) p buf =
    let (q, events) = record_turn drops (take (most p) buf) p in
    let rest = data_loop drops n q (drop (most p) buf) in
    if length buf == 0 || p.dead then (p, []) else then_events events rest

unfoldable pub upstream_data : Bool → Parser → Bytes → Parser × List Event
unfolding data_loop
upstream_data drops p buf = data_loop drops (length buf) p buf

-- The request that is served, and the replies that are done.
pub record Service : Type 0 where
  pub current : Option ClientReply
  pub ended : List ClientReply

abbrev pub on_current : (ClientReply → ClientReply) → Option ClientReply → Option ClientReply
on_current f none = none
on_current f (some a) = some (f a)

abbrev pub end_current : Request → Service → Service
end_current rq s = elim s.current [
  | none ↦ s
  | some a ↦ record { current = none; ended = s.ended ++ finish_reply rq a ∷ [] }
]

unfoldable pub serve : Request → List Event → Service → Service
unfolding stdout finish_reply
serve rq [] s = s
serve rq (out_piece piece ∷ events) s =
    serve rq events (record s { current = on_current (λ a. stdout rq a piece) s.current })
serve rq (log_piece piece ∷ events) s = serve rq events s
serve rq (request_done ∷ events) s = serve rq events (end_current rq s)
