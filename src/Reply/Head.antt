-- ===== src/Reply/Head.antt =====
-- The head of a FastCGI reply: `fpm_http_start_reply` of sapi/fpmng/fpm/fpm_http_fcgi.c. What is
-- handed to `evhttp_add_header` stands in a list. The branches where memory runs out are left out.
use php_fpm_ng.Base.{
  ℕ, Bool, true, false, not, ◌&&◌, ◌||◌, Option, none, some, List, [], ◌∷◌, ◌++◌, Bytes, codes,
  equal_case, length, take, drop, ◌==◌, if◌then◌else◌,
}
use php_fpm_ng.Base.Tokens.{emit}
use php_fpm_ng.Reply.Status.{Access, outside, refuses, gives, until_nul, parse_cgi_status}

-- What the gateway knows of the request: whether it has an id of its own, whether it is HEAD, and
-- the digits of the time it waited, if it did.
pub record Request : Type 0 where
  pub request_id : Bytes
  pub is_head : Bool
  pub queue_wait_ms : Option Bytes

-- `body` is what was handed to libevent as chunks of the reply.
pub record ClientReply : Type 0 where
  pub cgi_headers : Bytes
  pub headers_sent : Bool
  pub discard_upstream : Bool
  pub status : ℕ
  pub reason : Option Bytes
  pub headers : List (Bytes × Bytes)
  pub body : Bytes

-- The variables of the loop over the lines.
pub record Head : Type 0 where
  pub code : ℕ
  pub reason : Option Bytes
  pub invalid_status : Bool
  pub out : List (Bytes × Bytes)

-- The id is on the reply already.
abbrev pub own_id : Request → List (Bytes × Bytes)
own_id rq = if length rq.request_id == 0 then [] else (codes "X-Request-Id", rq.request_id) ∷ []

abbrev pub no_head : Request → Head
no_head rq = record { code = 200; reason = none; invalid_status = false; out = own_id rq }

-- The lines up to `end`, without their LF. `line` is the one so far.
unfoldable pub lines_from : Bytes → Bytes → List Bytes
lines_from line [] = emit line []
lines_from line (c ∷ s) =
    let next = lines_from [] s in
    let grown = lines_from (line ++ c ∷ []) s in if c == b'\n' then line ∷ next else grown

-- Without the last byte if it is a CR.
unfoldable pub strip_cr : Bytes → Bytes
strip_cr [] = []
strip_cr (c ∷ []) = if c == b'\r' then [] else c ∷ []
strip_cr (c ∷ d ∷ s) = c ∷ strip_cr (d ∷ s)

unfoldable pub skip_blank : Bytes → Bytes
skip_blank [] = []
skip_blank (c ∷ s) = let rest = skip_blank s in if c == b' ' || c == b'\t' then rest else c ∷ s

abbrev pub put_in_key : ℕ → Option (Bytes × Bytes) → Option (Bytes × Bytes)
put_in_key c none = none
put_in_key c (some (k, v)) = some (c ∷ k, v)

-- The name before the first colon, and what stands behind it.
unfoldable pub at_colon : Bytes → Option (Bytes × Bytes)
at_colon [] = none
at_colon (c ∷ s) = let rest = at_colon s in if c == b':' then some ([], s) else put_in_key c rest

abbrev pub status_line : Access (ℕ × Bytes) → Head → Head
status_line outside h = record h { reason = none; invalid_status = true }
status_line refuses h = record h { reason = none; invalid_status = true }
status_line (gives (code, reason)) h = record h { code = code; reason = some reason }

-- `value` is behind the colon and its blanks.
unfoldable pub field_line : Request → Bytes → Bytes → Head → Head
unfolding parse_cgi_status until_nul
field_line rq key value h =
    if equal_case key (codes "Status")
    then status_line (parse_cgi_status (until_nul value ++ 0 ∷ []) (length value)) h
    else if not (length rq.request_id == 0) && equal_case key (codes "X-Request-Id")
    then h
    else record h { out = h.out ++ (key, until_nul value) ∷ [] }

abbrev pub split_field : Request → Option (Bytes × Bytes) → Head → Head
split_field rq none h = h
split_field rq (some (k, v)) h = field_line rq (until_nul k) (skip_blank v) h

unfoldable pub head_lines : Request → List Bytes → Head → Head
unfolding field_line skip_blank at_colon strip_cr
head_lines rq [] h = h
head_lines rq (line ∷ lines) h = head_lines rq lines (split_field rq (at_colon (strip_cr line)) h)

abbrev pub bad_gateway_body : Bytes
bad_gateway_body = codes "Bad Gateway" ++ b'\n' ∷ []

abbrev pub waited : Request → List (Bytes × Bytes)
waited rq = elim rq.queue_wait_ms [ none ↦ [] | some ms ↦ (codes "X-Fpmng-Queue-Wait", ms) ∷ [] ]

abbrev pub not_empty : Option Bytes → Option Bytes
not_empty none = none
not_empty (some []) = none
not_empty (some (c ∷ s)) = some (c ∷ s)

-- Nothing that the upstream said is passed on.
abbrev pub refused_reply : Request → ClientReply
refused_reply rq = record {
  cgi_headers = [];
  headers_sent = true;
  discard_upstream = true;
  status = 502;
  reason = some (codes "Bad Gateway");
  headers = (codes "Content-Type", codes "text/plain") ∷ own_id rq;
  body = bad_gateway_body;
}

abbrev pub head_reply : Request → Head → Bytes → ClientReply
head_reply rq h piece = record {
  cgi_headers = [];
  headers_sent = true;
  discard_upstream = false;
  status = h.code;
  reason = not_empty h.reason;
  headers = h.out ++ waited rq;
  body = piece;
}

-- The reply that the lines give, with the first piece of its body.
unfoldable pub reply_of : Request → Head → Bytes → ClientReply
reply_of rq h piece = if h.invalid_status then refused_reply rq else head_reply rq h piece

unfoldable pub start_reply : Request → Bytes → ℕ → ℕ → ClientReply
unfolding head_lines lines_from reply_of
start_reply rq text head_len body_off =
    reply_of rq (head_lines rq (lines_from [] (take head_len text)) (no_head rq))
      (drop body_off text)
