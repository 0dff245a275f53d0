-- ===== src/Reply/Tests.antt =====
-- Runs of the reader of FastCGI replies, and its theorems at concrete replies.
use php_fpm_ng.Base.{
  ◌≡◌, refl, Bool, true, false, not, ◌&&◌, inl, inr, none, some, List, [], ◌∷◌, ◌++◌, arith, Bytes,
  codes, equal_case, starts_with, take, drop,
}
use php_fpm_ng.Reply.{reset, stdout, finish_reply, no_answer, serve}
use php_fpm_ng.Reply.Status.{refuses, gives, parse_cgi_status, until_nul}
use php_fpm_ng.Reply.Head.{Request, refused_reply, head_reply}
use php_fpm_ng.Reply.Bytewise.{flat}
use php_fpm_ng.Reply.Cuts.{feed_reads, feed_reads-cuts}
use php_fpm_ng.Reply.Pieces.{pieces_of}
use php_fpm_ng.Reply.Encoded.{Record, idle, AllGoOn, none_left, and_then, stream}
use php_fpm_ng.Reply.Served.{served, output, feed_reads-answer}
use php_fpm_ng.Reply.Coded.{cells, status_of, parse_cgi_status-status_of}
use php_fpm_ng.Base.Tokens.{IsClean}
use php_fpm_ng.Reply.Lines.{IsLine, is_lf}
use php_fpm_ng.Reply.Fields.{
  Field, IsField, IsPlain, IsStatus, field_text, told, stdout-fields, stdout-refused,
}

abbrev plain_get : Request
plain_get = record { request_id = []; is_head = false; queue_wait_ms = none }

-- Two pieces of output with a line on the error stream between them, and the end of the request.
abbrev first_part : Record
first_part = record {
  type = 6;
  content = codes "A: b" ++ b'\r' ∷ b'\n' ∷ b'\r' ∷ [];
  fill = 0 ∷ [];
}

abbrev log_part : Record
log_part = record { type = 7; content = codes "hm"; fill = [] }

abbrev second_part : Record
second_part = record { type = 6; content = b'\n' ∷ codes "hello"; fill = 0 ∷ 0 ∷ [] }

abbrev last_part : Record
last_part = record { type = 3; content = 0 ∷ 0 ∷ 0 ∷ 0 ∷ 0 ∷ 0 ∷ 0 ∷ 0 ∷ []; fill = [] }

abbrev reply_parts : List Record
reply_parts = first_part ∷ log_part ∷ second_part ∷ []

reply_parts-AllGoOn : AllGoOn reply_parts
reply_parts-AllGoOn =
    and_then first_part (log_part ∷ second_part ∷ [])
      (record { content = omega arith; fill = omega arith }) refl
      (and_then log_part (second_part ∷ []) (record { content = omega arith; fill = omega arith })
        refl
        (and_then second_part [] (record { content = omega arith; fill = omega arith }) refl
          none_left))

-- The bytes in three reads, the first of which ends in a header.
abbrev reads : List Bytes
reads =
    take 5 (stream reply_parts last_part)
    ∷ take 20 (drop 5 (stream reply_parts last_part))
    ∷ drop 25 (stream reply_parts last_part)
    ∷ []

feed_reads-cuts_example :
    flat (feed_reads false (idle 0) reads)
    ≡ flat (feed_reads false (idle 0) (stream reply_parts last_part ∷ []))
feed_reads-cuts_example =
    feed_reads-cuts false (idle 0) reads (stream reply_parts last_part ∷ []) (omega arith) refl

feed_reads-answer_example :
    (serve plain_get
        (feed_reads false (idle 0) reads).1
        (record { current = some no_answer; ended = [] })
      ≡ served (finish_reply plain_get (stdout plain_get no_answer (output reply_parts)) ∷ []))
    × ((feed_reads false (idle 0) reads).0 ≡ reset false)
feed_reads-answer_example =
    feed_reads-answer plain_get false 0 reply_parts last_part reads reply_parts-AllGoOn
      (record { content = omega arith; fill = omega arith }) refl refl (inl (omega arith))

reply_runs :
    ((stdout plain_get no_answer (output reply_parts)).body ≡ codes "hello")
    × ((stdout plain_get no_answer (output reply_parts)).headers ≡ (codes "A", codes "b") ∷ [])
    × ((finish_reply plain_get no_answer).status ≡ 502)
    × (parse_cgi_status (cells (codes "404 Not Found")) 13 ≡ gives (404, codes "Not Found"))
    × (parse_cgi_status (cells (codes "99999")) 5 ≡ refuses)
    × (parse_cgi_status (cells (codes "200" ++ 0 ∷ b'x' ∷ [])) 5 ≡ refuses)
unfolding stdout finish_reply parse_cgi_status equal_case starts_with
reply_runs = (refl, refl, refl, refl, refl, refl)

parse_cgi_status-status_of_example :
    parse_cgi_status (cells (codes "503 Busy" ++ 0 ∷ [])) 9 ≡ status_of (codes "503 Busy" ++ 0 ∷ [])
parse_cgi_status-status_of_example = parse_cgi_status-status_of (codes "503 Busy" ++ 0 ∷ [])

abbrev not_found : Field
not_found = record { name = codes "Status"; blanks = codes " "; value = codes "404 Gone" }

abbrev early : Field
early = record { name = codes "status"; blanks = []; value = codes "100" }

abbrev kind : Field
kind = record { name = codes "X-K"; blanks = codes " "; value = codes "v" }

kind-IsField : IsField kind
kind-IsField = record {
  name = ((refl, refl, (refl, refl, (refl, refl, tt))));
  blanks = (refl, tt);
  value = refl;
}

kind-IsPlain : IsPlain plain_get kind
unfolding until_nul equal_case
kind-IsPlain = record { field = kind-IsField; no_nul = refl; no_status = refl; no_id = refl }

not_found-IsStatus : IsStatus not_found (gives (404, codes "Gone"))
unfolding equal_case
not_found-IsStatus = record {
  field = record {
    name = (refl, refl, (refl, refl, (refl, refl, (refl, refl, (refl, refl, (refl, refl, tt))))));
    blanks = (refl, tt);
    value = refl;
  };
  status = refl;
  says = refl;
}

early-IsStatus : IsStatus early refuses
unfolding equal_case
early-IsStatus = record {
  field = record {
    name = (refl, refl, (refl, refl, (refl, refl, (refl, refl, (refl, refl, (refl, refl, tt))))));
    blanks = tt;
    value = refl;
  };
  status = refl;
  says = refl;
}

abbrev no_lf : Bytes → Bool
no_lf [] = true
no_lf (c ∷ t) = not (is_lf c) && no_lf t

no_lf-IsClean : (t : Bytes) → no_lf t ≡ true → IsClean is_lf t
no_lf-IsClean [] h = tt
no_lf-IsClean (c ∷ t) h = (ground (arith, h), no_lf-IsClean t (ground (arith, h)))

kind-IsLine : IsLine (field_text kind)
kind-IsLine = record {
  clean = no_lf-IsClean (field_text kind) refl;
  start = b'X';
  rest = codes "-K: v";
  starts = refl;
  no_cr = refl;
}

not_found-IsLine : IsLine (field_text not_found)
not_found-IsLine = record {
  clean = no_lf-IsClean (field_text not_found) refl;
  start = b'S';
  rest = codes "tatus: 404 Gone";
  starts = refl;
  no_cr = refl;
}

early-IsLine : IsLine (field_text early)
early-IsLine = record {
  clean = no_lf-IsClean (field_text early) refl;
  start = b's';
  rest = codes "tatus:100";
  starts = refl;
  no_cr = refl;
}

abbrev gone_pieces : List Bytes
gone_pieces =
    codes "Status: 404 Gone"
    ∷ (b'\r' ∷ b'\n' ∷ codes "X-K: v" ++ b'\r' ∷ b'\n' ∷ b'\r' ∷ [])
    ∷ (b'\n' ∷ codes "gone")
    ∷ []

stdout-fields_example :
    pieces_of plain_get no_answer gone_pieces
    ≡ head_reply plain_get (told plain_get 404 (codes "Gone") (kind ∷ [])) (codes "gone")
stdout-fields_example =
    stdout-fields plain_get not_found (kind ∷ []) (codes "gone") 404 (codes "Gone") gone_pieces
      (not_found-IsLine, (kind-IsLine, tt)) (omega arith) not_found-IsStatus (kind-IsPlain, tt) refl

abbrev early_pieces : List Bytes
early_pieces =
    codes "X-K: v"
    ∷ (b'\r' ∷ b'\n' ∷ codes "status:100")
    ∷ (b'\r' ∷ b'\n' ∷ b'\r' ∷ b'\n' ∷ codes "body")
    ∷ codes "more"
    ∷ []

stdout-refused_example :
    finish_reply plain_get (pieces_of plain_get no_answer early_pieces) ≡ refused_reply plain_get
stdout-refused_example =
    stdout-refused plain_get early (field_text kind) (field_text early ∷ []) (codes "bodymore")
      early_pieces (kind-IsLine, (early-IsLine, tt)) (omega arith) early-IsStatus (inr (inl refl))
      refl
