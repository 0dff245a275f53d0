-- ===== src/Reply/Served.antt =====
-- From the bytes of a worker to the answer of the client.
use mathlib.Core.Path.{subst}
use php_fpm_ng.Base.{
  all_of, ℕ, ◌≡◌, refl, sym, ap, ◌∙◌, Bool, inl, inr, none, some, List, [], ◌∷◌, ◌++◌, map,
  append-nil, arith, Bytes, ◌==◌, if◌then◌else◌, Bool-cases,
}
use php_fpm_ng.Reply.{
  Event, out_piece, log_piece, request_done, find_end, reset, end_request, stdout_type, stderr_type,
  no_answer, stdout, finish_reply, Service, serve,
}
use php_fpm_ng.Reply.Head.{Request, ClientReply}
use php_fpm_ng.Reply.Bytewise.{Mark, out_byte, log_byte, done, marks, flat, run}
use php_fpm_ng.Reply.Cuts.{feed_reads, feed_reads-run}
use php_fpm_ng.Reply.Pieces.{Ready, Fits, gathers, IsOpen, stdout-append, stdout-Ready, stdout_nil}
use php_fpm_ng.Reply.Encoded.{
  Record, IsRecord, idle, AllGoOn, none_left, and_then, stream, stream_marks, run-stream,
}

-- What the worker wrote to its output before the request was done.
abbrev outs : List Mark → Bytes
outs [] = []
outs (out_byte c ∷ ms) = c ∷ outs ms
outs (log_byte c ∷ ms) = outs ms
outs (done ∷ ms) = []

-- The request is done once, and last.
abbrev IsWhole : List Mark → Type 0
IsWhole [] = ⊥
IsWhole (out_byte c ∷ ms) = IsWhole ms
IsWhole (log_byte c ∷ ms) = IsWhole ms
IsWhole (done ∷ ms) = ms ≡ []

outs-bytes : (x : Bytes) (ms : List Mark) → outs (map out_byte x ++ ms) ≡ x ++ outs ms
outs-bytes [] ms = refl
outs-bytes (c ∷ x) ms = ap (c ∷◌) (outs-bytes x ms)

outs-log : (x : Bytes) (ms : List Mark) → outs (map log_byte x ++ ms) ≡ outs ms
outs-log [] ms = refl
outs-log (c ∷ x) ms = outs-log x ms

IsWhole-bytes : (x : Bytes) (ms : List Mark) → IsWhole (map out_byte x ++ ms) → IsWhole ms
IsWhole-bytes [] ms h = h
IsWhole-bytes (c ∷ x) ms h = IsWhole-bytes x ms h

IsWhole-log : (x : Bytes) (ms : List Mark) → IsWhole (map log_byte x ++ ms) → IsWhole ms
IsWhole-log [] ms h = h
IsWhole-log (c ∷ x) ms h = IsWhole-log x ms h

abbrev pub served : List ClientReply → Service
served before = record { current = none; ended = before }

serve_nothing :
    (rq : Request) (events : List Event) (before : List ClientReply)
    → marks events ≡ []
    → serve rq events (served before) ≡ served before
unfolding serve marks
serve_nothing rq [] before h = refl
serve_nothing rq (out_piece [] ∷ events) before h = serve_nothing rq events before h
serve_nothing rq (out_piece (c ∷ x) ∷ events) before h = absurd (cc)
serve_nothing rq (log_piece [] ∷ events) before h = serve_nothing rq events before h
serve_nothing rq (log_piece (c ∷ x) ∷ events) before h = absurd (cc)
serve_nothing rq (request_done ∷ events) before h = absurd (cc)

serve_whole :
    (rq : Request) (events : List Event) (a : ClientReply) (before : List ClientReply)
    → IsWhole (marks events)
    → Ready a (outs (marks events))
    → serve rq events (record { current = some a; ended = before })
      ≡ served (before ++ finish_reply rq (stdout rq a (outs (marks events))) ∷ [])
unfolding serve marks
serve_whole rq [] a before w h = absurd w
serve_whole rq (out_piece x ∷ events) a before w h =
    let o = outs-bytes x (marks events) in
    let k : Ready a (x ++ outs (marks events)) = subst (Ready a) o h in
    serve_whole rq events (stdout rq a x) before (IsWhole-bytes x (marks events) w)
      (stdout-Ready rq a x (outs (marks events)) k)
    ∙ ap (λ b. served (before ++ finish_reply rq b ∷ []))
        (stdout-append rq a x (outs (marks events)) k ∙ ap (stdout rq a) (sym o))
serve_whole rq (log_piece x ∷ events) a before w h =
    let o = outs-log x (marks events) in
    serve_whole rq events a before (IsWhole-log x (marks events) w) (subst (Ready a) o h)
    ∙ ap (λ b. served (before ++ finish_reply rq (stdout rq a b) ∷ [])) (sym o)
serve_whole rq (request_done ∷ events) a before w h =
    serve_nothing rq events (before ++ finish_reply rq a ∷ []) w
    ∙ ap (λ b. served (before ++ finish_reply rq b ∷ [])) (sym (stdout_nil rq a h))

-- The output of the worker, in its records.
abbrev pub output : List Record → Bytes
output [] = []
output (r ∷ rs) = if r.type == stdout_type then r.content ++ output rs else output rs

IsWhole-behind_out : (x : Bytes) (ms : List Mark) → IsWhole ms → IsWhole (map out_byte x ++ ms)
IsWhole-behind_out [] ms h = h
IsWhole-behind_out (c ∷ x) ms h = IsWhole-behind_out x ms h

IsWhole-behind_log : (x : Bytes) (ms : List Mark) → IsWhole ms → IsWhole (map log_byte x ++ ms)
IsWhole-behind_log [] ms h = h
IsWhole-behind_log (c ∷ x) ms h = IsWhole-behind_log x ms h

stream-outs :
    (rs : List Record)
    → AllGoOn rs
    → (outs (stream_marks rs) ≡ output rs) × IsWhole (stream_marks rs)
unfolding marks
stream-outs _ none_left = (refl, refl)
stream-outs _ (and_then r rs g n a) =
    let (o, w) = stream-outs rs a in
    elim (Bool-cases (r.type == stdout_type)) [
      | inl y ↦
          let p = ap (◌++ stream_marks rs) (append-nil (map out_byte r.content)) in
          rw y (
            ap outs p ∙ (outs-bytes r.content (stream_marks rs) ∙ ap (r.content ++◌) o),
            subst IsWhole (sym p) (IsWhole-behind_out r.content (stream_marks rs) w),
          )
      | inr x ↦ elim (Bool-cases (r.type == stderr_type)) [
        | inl y ↦
            let p = ap (◌++ stream_marks rs) (append-nil (map log_byte r.content)) in
            rw (x, y)
              (
                ap outs p ∙ (outs-log r.content (stream_marks rs) ∙ o),
                subst IsWhole (sym p) (IsWhole-behind_log r.content (stream_marks rs) w),
              )
        | inr z ↦ rw (x, z) (o, w)
      ]
    ]

-- However the bytes of a worker that ends a request are cut into reads, and however the worker cuts
-- its output into records, with other records between them and any padding, the client gets the
-- answer that the whole output gives in one piece, and the parser is ready for the next request.
pub feed_reads-answer :
    (rq : Request) (drops : Bool) (t : ℕ) (rs : List Record) (e : Record) (reads : List Bytes)
    → AllGoOn rs
    → IsRecord e
    → e.type ≡ end_request
    → all_of reads ≡ stream rs e
    → Fits (output rs)
    → (serve rq
          (feed_reads drops (idle t) reads).1
          (record { current = some no_answer; ended = [] })
        ≡ served (finish_reply rq (stdout rq no_answer (output rs)) ∷ []))
      × ((feed_reads drops (idle t) reads).0 ≡ reset drops)
unfolding find_end
feed_reads-answer rq drops t rs e reads g h k c f =
    let x = feed_reads drops (idle t) reads in
    let r : flat x ≡ (reset drops, stream_marks rs) =
      feed_reads-run drops (idle t) reads (omega arith)
      ∙ (ap (run drops (idle t)) c ∙ run-stream drops t rs e g h k) in
    let (o, w) = stream-outs rs g in
    let m : marks x.1 ≡ stream_marks rs = ap (λ y. y.1) r in
    let u : outs (marks x.1) ≡ output rs = ap outs m ∙ o in
    let open_now : IsOpen no_answer = record { kept = refl; unsent = refl; looking = refl } in
    (
      serve_whole rq x.1 no_answer [] (subst IsWhole (sym m) w)
            (subst (Ready no_answer) (sym u) (gathers open_now f))
          ∙ ap (λ b. served (finish_reply rq (stdout rq no_answer b) ∷ [])) u,
      ap (λ y. y.0) r,
    )
