-- ===== src/Reply/Fields.antt =====
-- The lines of a head as a worker writes them, and a Status line that is refused.
use php_fpm_ng.Base.{
  all_of, ℕ, ◌+◌, ◌≤◌, ◌≡◌, refl, sym, ap, ◌∙◌, true, false, not, ◌&&◌, ◌||◌, ◌⊎◌, inl, inr, Option,
  none, some, List, [], ◌∷◌, ◌++◌, append-nil, append_assoc, Bytes, codes, equal_case, length, ◌==◌,
  if_true, if_holds,
}
use php_fpm_ng.Reply.{max_cgi_headers, stdout, finish_reply, no_answer}
use php_fpm_ng.Reply.Pieces.{pieces_of}
use php_fpm_ng.Reply.Status.{Access, outside, refuses, gives, until_nul, parse_cgi_status}
use php_fpm_ng.Reply.Head.{
  Request, Head, no_head, strip_cr, skip_blank, at_colon, status_line, field_line, split_field,
  head_lines, refused_reply, head_reply, reply_of, own_id,
}
use php_fpm_ng.Reply.Coded.{cells, status_of, parse_cgi_status-status_of}
use php_fpm_ng.Reply.Lines.{AllLines, block, with_cr, strip_cr-line, stdout-block, pieces-block}

pub record Field : Type 0 where
  pub name : Bytes
  pub blanks : Bytes
  pub value : Bytes

abbrev pub field_text : Field → Bytes
field_text f = f.name ++ b':' ∷ (f.blanks ++ f.value)

-- No colon and no NUL.
abbrev pub IsName : Bytes → Type 0
IsName [] = Unit
IsName (c ∷ s) = ((c == b':') ≡ false) × ((c == 0) ≡ false) × IsName s

abbrev pub IsBlanks : Bytes → Type 0
IsBlanks [] = Unit
IsBlanks (c ∷ s) = ((c == b' ' || c == b'\t') ≡ true) × IsBlanks s

-- The value has no blank in front.
abbrev pub IsValue : Bytes → Type 0
IsValue [] = Unit
IsValue (c ∷ s) = (c == b' ' || c == b'\t') ≡ false

at_colon-name : (k v : Bytes) → IsName k → at_colon (k ++ b':' ∷ v) ≡ some (k, v)
unfolding at_colon
at_colon-name [] v h = refl
at_colon-name (c ∷ k) v (x, y, h) = rw (x, at_colon-name k v h) refl

until_nul-name : (k : Bytes) → IsName k → until_nul k ≡ k
unfolding until_nul
until_nul-name [] h = refl
until_nul-name (c ∷ k) (x, y, h) = rw (y, until_nul-name k h) refl

skip_blank-value : (b v : Bytes) → IsBlanks b → IsValue v → skip_blank (b ++ v) ≡ v
unfolding skip_blank
skip_blank-value [] [] h k = refl
skip_blank-value [] (c ∷ v) h k = rw k refl
skip_blank-value (c ∷ b) v (x, h) k = rw x (skip_blank-value b v h k)

pub record IsField (f : Field) : Type 0 where
  pub name : IsName f.name
  pub blanks : IsBlanks f.blanks
  pub value : IsValue f.value

-- A line is taken for the field that it writes.
line-field :
    (rq : Request) (f : Field) (h : Head)
    → IsField f
    → split_field rq (at_colon (strip_cr (field_text f ++ b'\r' ∷ []))) h
      ≡ field_line rq f.name f.value h
line-field rq f h k =
    ap (λ t. split_field rq (at_colon t) h) (strip_cr-line (field_text f))
    ∙ (ap (λ o. split_field rq o h) (at_colon-name f.name (f.blanks ++ f.value) k.name)
        ∙ (ap (λ n. field_line rq n (skip_blank (f.blanks ++ f.value)) h)
              (until_nul-name f.name k.name)
            ∙ ap (λ v. field_line rq f.name v h)
                (skip_blank-value f.blanks f.value k.blanks k.value)))

-- A field that is passed on: no Status line, and no id where the gateway has one of its own.
pub record IsPlain (rq : Request) (f : Field) : Type 0 where
  pub field : IsField f
  pub no_nul : until_nul f.value ≡ f.value
  pub no_status : equal_case f.name (codes "Status") ≡ false
  pub no_id : (not (length rq.request_id == 0) && equal_case f.name (codes "X-Request-Id")) ≡ false

abbrev pub AllPlain : Request → List Field → Type 0
AllPlain rq [] = Unit
AllPlain rq (f ∷ fs) = IsPlain rq f × AllPlain rq fs

abbrev pub texts : List Field → List Bytes
texts [] = []
texts (f ∷ fs) = field_text f ∷ texts fs

abbrev pub pairs_of : List Field → List (Bytes × Bytes)
pairs_of [] = []
pairs_of (f ∷ fs) = (f.name, f.value) ∷ pairs_of fs

-- A Status line, and what its value means.
pub record IsStatus (f : Field) (means : Access (ℕ × Bytes)) : Type 0 where
  pub field : IsField f
  pub status : equal_case f.name (codes "Status") ≡ true
  pub says : status_of f.value ≡ means

plain-line :
    (rq : Request) (f : Field) (h : Head)
    → IsPlain rq f
    → field_line rq f.name f.value h ≡ record h { out = h.out ++ (f.name, f.value) ∷ [] }
unfolding field_line
plain-line rq f h k = rw (k.no_status, k.no_id, k.no_nul) refl

status-line :
    (rq : Request) (f : Field) (means : Access (ℕ × Bytes)) (h : Head)
    → IsStatus f means
    → field_line rq f.name f.value h ≡ status_line means h
unfolding field_line
status-line rq f means h k =
    rw k.status (ap (λ a. status_line a h) (parse_cgi_status-status_of f.value ∙ k.says))

plain-lines :
    (rq : Request) (fs : List Field) (ls : List Bytes) (h : Head)
    → AllPlain rq fs
    → head_lines rq (with_cr (texts fs) ++ ls) h
      ≡ head_lines rq ls (record h { out = h.out ++ pairs_of fs })
unfolding head_lines
plain-lines rq [] ls h k =
    ap (λ o. head_lines rq ls (record h { out = o })) (sym (append-nil h.out))
plain-lines rq (f ∷ fs) ls h (k, ks) =
    ap (head_lines rq (with_cr (texts fs) ++ ls)) (line-field rq f h k.field ∙ plain-line rq f h k)
    ∙ (plain-lines rq fs ls (record h { out = h.out ++ (f.name, f.value) ∷ [] }) ks
        ∙ ap (λ o. head_lines rq ls (record h { out = o }))
            (append_assoc h.out ((f.name, f.value) ∷ []) (pairs_of fs)))

with_cr-append : (a b : List Bytes) → with_cr (a ++ b) ≡ with_cr a ++ with_cr b
with_cr-append [] b = refl
with_cr-append (t ∷ a) b = ap ((t ++ b'\r' ∷ []) ∷◌) (with_cr-append a b)

-- The head of an answer with a status and fields.
abbrev pub told : Request → ℕ → Bytes → List Field → Head
told rq code reason fs = record {
  code = code;
  reason = some reason;
  invalid_status = false;
  out = own_id rq ++ pairs_of fs;
}

stdout-lines :
    (rq : Request) (t : Bytes) (ts : List Bytes) (body : Bytes) (h : Head)
    → AllLines (t ∷ ts)
    → head_lines rq (with_cr (t ∷ ts)) (no_head rq) ≡ h
    → stdout rq no_answer (block (t ∷ ts) ++ (b'\r' ∷ b'\n' ∷ body)) ≡ reply_of rq h body
stdout-lines rq t ts body h l e = stdout-block rq t ts body l ∙ ap (λ x. reply_of rq x body) e

-- A worker writes a valid Status line, fields, a blank line and a body. Each line of the head ends in
-- CRLF and is not blank, and the head with its blank line has at most 64 KiB. However that is cut
-- into pieces, it is passed on as it is: that status and reason, the id of the gateway if it has one
-- and the fields in their order, X-Fpmng-Queue-Wait if the request waited, and the body. A field has
-- no NUL, is no other Status line, and is no X-Request-Id where the gateway has an id.
pub stdout-fields :
    (rq : Request) (s : Field) (fs : List Field) (body : Bytes) (code : ℕ) (reason : Bytes)
    (pieces : List Bytes)
    → AllLines (texts (s ∷ fs))
    → length (block (texts (s ∷ fs))) + 2 ≤ max_cgi_headers
    → IsStatus s (gives (code, reason))
    → AllPlain rq fs
    → all_of pieces ≡ block (texts (s ∷ fs)) ++ (b'\r' ∷ b'\n' ∷ body)
    → pieces_of rq no_answer pieces ≡ head_reply rq (told rq code reason fs) body
unfolding head_lines reply_of
stdout-fields rq s fs body code reason pieces l m k ks e =
    pieces-block rq (field_text s) (texts fs) body pieces l m e
    ∙ stdout-lines rq (field_text s) (texts fs) body (told rq code reason fs) l (
        ap (head_lines rq (with_cr (texts fs))) (
          line-field rq s (no_head rq) k.field
          ∙ status-line rq s (gives (code, reason)) (no_head rq) k)
        ∙ (ap (λ ls. head_lines rq ls (status_line (gives (code, reason)) (no_head rq)))
              (sym (append-nil (with_cr (texts fs))))
            ∙ plain-lines rq fs [] (status_line (gives (code, reason)) (no_head rq)) ks))

-- An invalid status stays invalid.
abbrev Invalid : Head → Type 0
Invalid h = h.invalid_status ≡ true

status_line-Invalid : (a : Access (ℕ × Bytes)) (h : Head) → Invalid h → Invalid (status_line a h)
status_line-Invalid outside h e = refl
status_line-Invalid refuses h e = refl
status_line-Invalid (gives (code, reason)) h e = e

field_line-Invalid :
    (rq : Request) (k v : Bytes) (h : Head) → Invalid h → Invalid (field_line rq k v h)
unfolding field_line
field_line-Invalid rq k v h e =
    if_holds Invalid (equal_case k (codes "Status")) _ _
      (λ y. status_line-Invalid (parse_cgi_status (cells v) (length v)) h e)
      (λ x.
        if_holds Invalid (not (length rq.request_id == 0) && equal_case k (codes "X-Request-Id")) _
          _ (λ y. e) (λ z. e))

split_field-Invalid :
    (rq : Request) (o : Option (Bytes × Bytes)) (h : Head)
    → Invalid h
    → Invalid (split_field rq o h)
split_field-Invalid rq none h e = e
split_field-Invalid rq (some (k, v)) h e = field_line-Invalid rq (until_nul k) (skip_blank v) h e

head_lines-Invalid :
    (rq : Request) (ls : List Bytes) (h : Head) → Invalid h → Invalid (head_lines rq ls h)
unfolding head_lines
head_lines-Invalid rq [] h e = e
head_lines-Invalid rq (l ∷ ls) h e =
    head_lines-Invalid rq ls (split_field rq (at_colon (strip_cr l)) h)
      (split_field-Invalid rq (at_colon (strip_cr l)) h e)

abbrev pub HasLine : Bytes → List Bytes → Type 0
HasLine x [] = ⊥
HasLine x (t ∷ ts) = (t ≡ x) ⊎ HasLine x ts

refused-Invalid :
    (rq : Request) (s : Field) (ts : List Bytes) (h : Head)
    → IsStatus s refuses
    → HasLine (field_text s) ts
    → Invalid (head_lines rq (with_cr ts) h)
unfolding head_lines
refused-Invalid rq s [] h k m = absurd m
refused-Invalid rq s (t ∷ ts) h k (inr m) =
    refused-Invalid rq s ts (split_field rq (at_colon (strip_cr (t ++ b'\r' ∷ []))) h) k m
refused-Invalid rq s (t ∷ ts) h k (inl e) =
    let q : split_field rq (at_colon (strip_cr (t ++ b'\r' ∷ []))) h ≡ status_line refuses h =
      rw e (line-field rq s h k.field ∙ status-line rq s refuses h k) in
    head_lines-Invalid rq (with_cr ts) (split_field rq (at_colon (strip_cr (t ++ b'\r' ∷ []))) h)
      (ap (λ x. x.invalid_status) q)

-- A worker writes a head of lines that end in CRLF and are not blank, of at most 64 KiB with its blank
-- line. If a Status line among them is refused, the client gets a plain 502, however the output is
-- cut into pieces, and whatever the other lines and the bytes behind the blank line are.
pub stdout-refused :
    (rq : Request) (s : Field) (t : Bytes) (ts : List Bytes) (body : Bytes) (pieces : List Bytes)
    → AllLines (t ∷ ts)
    → length (block (t ∷ ts)) + 2 ≤ max_cgi_headers
    → IsStatus s refuses
    → HasLine (field_text s) (t ∷ ts)
    → all_of pieces ≡ block (t ∷ ts) ++ (b'\r' ∷ b'\n' ∷ body)
    → finish_reply rq (pieces_of rq no_answer pieces) ≡ refused_reply rq
unfolding finish_reply reply_of
stdout-refused rq s t ts body pieces l b k m c =
    let h = head_lines rq (with_cr (t ∷ ts)) (no_head rq) in
    let e : Invalid h = refused-Invalid rq s (t ∷ ts) (no_head rq) k m in
    ap (finish_reply rq) (
      pieces-block rq t ts body pieces l b c
      ∙ (stdout-block rq t ts body l
          ∙ if_true h.invalid_status (refused_reply rq) (head_reply rq h body) e))
