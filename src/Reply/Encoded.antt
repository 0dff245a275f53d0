-- ===== src/Reply/Encoded.antt =====
-- The records of a worker are read back, with any padding.
use php_fpm_ng.Base.{
  ℕ, ◌+◌, ◌-◌, ◌*◌, ◌/◌, ◌%◌, ◌≤◌, ◌<◌, ◌≡◌, refl, sym, ap, ◌∙◌, Bool, true, false, List, [], ◌∷◌,
  ◌++◌, append-nil, append_assoc, arith, Bytes, length, ltb, ◌==◌, if_true, if_false, if_holds,
}
use php_fpm_ng.Reply.{
  Parser, reset, end_request, is_ended, in_header, request_done, stdout_type, stderr_type, ending,
  most, then_ending, content_event,
}
use php_fpm_ng.Reply.Bytewise.{
  Mark, done, marks, flat, then_marks, run, marks-append, run-append, turn_content, turn_pad,
  record_turn-run,
}

-- A record, but for its version and its request id.
pub record Record : Type 0 where
  pub type : ℕ
  pub content : Bytes
  pub fill : Bytes

pub record IsRecord (r : Record) : Type 0 where
  pub content : length r.content < 65536
  pub fill : length r.fill < 256

abbrev pub header_text : Record → Bytes
header_text r =
    1
    ∷ r.type
    ∷ 0
    ∷ 1
    ∷ (length r.content / 256)
    ∷ (length r.content % 256)
    ∷ length r.fill
    ∷ 0
    ∷ []

abbrev pub record_text : Record → Bytes
record_text r = header_text r ++ (r.content ++ r.fill)

-- Between two records.
abbrev pub idle : ℕ → Parser
idle type = record { rec_hdr = []; rec_type = type; rec_len = 0; rec_pad = 0; dead = false }

-- In a record: what is left of it.
abbrev mid : ℕ → ℕ → ℕ → Parser
mid type len pad = record {
  rec_hdr = [];
  rec_type = type;
  rec_len = len;
  rec_pad = pad;
  dead = false;
}

abbrev ended : Bool → ℕ → ℕ → ℕ → Parser × List Mark
ended drops type len pad = flat (ending drops (mid type len pad))

-- The state and the marks behind a record.
abbrev behind : Bool → Record → Parser × List Mark
behind drops r = then_marks (marks (content_event r.type r.content)) (ended drops r.type 0 0)

goes_on :
    (drops : Bool) (type len pad : ℕ)
    → 1 ≤ len + pad
    → ended drops type len pad ≡ (mid type len pad, [])
unfolding marks
goes_on drops type len pad h =
    let e : is_ended (mid type len pad) ≡ false = ground arith in
    ap flat (
      if_false (is_ended (mid type len pad)) (reset drops, request_done ∷ []) (mid type len pad, [])
        e)

run-header :
    (drops : Bool) (t : ℕ) (r : Record)
    → IsRecord r
    → run drops (idle t) (header_text r) ≡ ended drops r.type (length r.content) (length r.fill)
run-header drops t r h =
    let c = h.content in
    let e : length r.content / 256 * 256 + length r.content % 256 ≡ length r.content =
      omega arith in
    sym (record_turn-run drops (idle t) 1 _ refl (omega arith))
    ∙ ap (λ n. ended drops r.type n (length r.fill)) e

no_content : (type : ℕ) → marks (content_event type []) ≡ []
unfolding marks
no_content type =
    if_holds (λ es. marks es ≡ []) (type == stdout_type) _ _ (λ y. refl)
      (λ x. if_holds (λ es. marks es ≡ []) (type == stderr_type) _ _ (λ y. refl) (λ z. refl))

nothing_more : (drops : Bool) (x : Parser × List Mark) → then_marks x.1 (run drops x.0 []) ≡ x
unfolding run
nothing_more drops x = ap (λ y. (x.0, y)) (append-nil x.1)

-- The padding that is left, and the content.
run-fill :
    (drops : Bool) (type : ℕ) (s : Bytes)
    → then_marks (ended drops type 0 (length s)).1 (run drops (ended drops type 0 (length s)).0 s)
      ≡ ended drops type 0 0
run-fill drops type [] = nothing_more drops (ended drops type 0 0)
run-fill drops type (c ∷ s) =
    let n = length (c ∷ s) in
    let p = mid type 0 n in
    let h : in_header p ≡ false = ground arith in
    let m : most p ≡ n = if_false (in_header p) _ _ h in
    let z : n - n ≡ 0 = omega arith in
    ap (λ x. then_marks x.1 (run drops x.0 (c ∷ s))) (goes_on drops type 0 n (omega arith))
    ∙ (sym (record_turn-run drops p c s refl (omega (arith, m)))
        ∙ (ap flat (turn_pad drops (c ∷ s) p h refl) ∙ ap (λ k. ended drops type 0 k) z))

run-content :
    (drops : Bool) (type pad : ℕ) (s : Bytes)
    → then_marks
        (ended drops type (length s) pad).1
        (run drops (ended drops type (length s) pad).0 s)
      ≡ then_marks (marks (content_event type s)) (ended drops type 0 pad)
run-content drops type pad [] =
    nothing_more drops (ended drops type 0 pad)
    ∙ ap (λ ms. then_marks ms (ended drops type 0 pad)) (sym (no_content type))
run-content drops type pad (c ∷ s) =
    let n = length (c ∷ s) in
    let p = mid type n pad in
    let h : in_header p ≡ false = ground arith in
    let k : ltb 0 n ≡ true = ground arith in
    let m : most p ≡ n = if_false (in_header p) _ _ h ∙ if_true (ltb 0 n) n pad k in
    let z : n - n ≡ 0 = omega arith in
    ap (λ x. then_marks x.1 (run drops x.0 (c ∷ s))) (goes_on drops type n pad (omega arith))
    ∙ (sym (record_turn-run drops p c s refl (omega (arith, m)))
        ∙ (ap flat (turn_content drops (c ∷ s) p h k)
            ∙ (ap (λ i. flat (then_ending drops (content_event type (c ∷ s)) (mid type i pad))) z
                ∙ ap (λ y. ((ended drops type 0 pad).0, y))
                    (marks-append (content_event type (c ∷ s)) (ending drops (mid type 0 pad)).1))))

then_twice :
    (ms ns : List Mark) (x : Parser × List Mark)
    → then_marks ms (then_marks ns x) ≡ then_marks (ms ++ ns) x
then_twice ms ns x = ap (λ y. (x.0, y)) (sym (append_assoc ms ns x.1))

-- Content and padding, one behind the other.
content_parts :
    (drops : Bool) (type : ℕ) (s f : Bytes)
    → then_marks
        (ended drops type (length s) (length f)).1
        (run drops (ended drops type (length s) (length f)).0 (s ++ f))
      ≡ then_marks (marks (content_event type s)) (ended drops type 0 0)
content_parts drops type s f =
    let x = ended drops type (length s) (length f) in
    let a = run drops x.0 s in
    let y = ended drops type 0 (length f) in
    let ms = marks (content_event type s) in
    ap (then_marks x.1) (run-append drops x.0 s f)
    ∙ (then_twice x.1 a.1 (run drops a.0 f)
        ∙ (ap (λ b. then_marks b.1 (run drops b.0 f)) (run-content drops type (length f) s)
            ∙ (sym (then_twice ms y.1 (run drops y.0 f))
                ∙ ap (then_marks ms) (run-fill drops type f))))

pub run-record :
    (drops : Bool) (t : ℕ) (r : Record)
    → IsRecord r
    → run drops (idle t) (record_text r) ≡ behind drops r
run-record drops t r h =
    let n = length r.content in
    let m = length r.fill in
    run-append drops (idle t) (header_text r) (r.content ++ r.fill)
    ∙ (ap (λ x. then_marks x.1 (run drops x.0 (r.content ++ r.fill))) (run-header drops t r h)
        ∙ content_parts drops r.type r.content r.fill)

-- Records of a reply that goes on, and the one that ends it.
pub data AllGoOn : List Record → Type 0 where
  none_left : AllGoOn []
  and_then :
      (r : Record) (rs : List Record)
      → IsRecord r
      → (r.type == end_request) ≡ false
      → AllGoOn rs
      → AllGoOn (r ∷ rs)

abbrev pub stream : List Record → Record → Bytes
stream [] e = record_text e
stream (r ∷ rs) e = record_text r ++ stream rs e

abbrev pub stream_marks : List Record → List Mark
stream_marks [] = done ∷ []
stream_marks (r ∷ rs) = marks (content_event r.type r.content) ++ stream_marks rs

behind_last :
    (drops : Bool) (e : Record) → e.type ≡ end_request → behind drops e ≡ (reset drops, done ∷ [])
unfolding marks
behind_last drops e h =
    ap (λ k. then_marks (marks (content_event k e.content)) (ended drops k 0 0)) h

behind_one :
    (drops : Bool) (r : Record)
    → (r.type == end_request) ≡ false
    → behind drops r ≡ (idle r.type, marks (content_event r.type r.content))
unfolding marks
behind_one drops r h =
    let ms = marks (content_event r.type r.content) in
    ap (λ x. then_marks ms (flat x)) (if_false (r.type == end_request) _ _ h)
    ∙ ap (λ y. (idle r.type, y)) (append-nil ms)

pub run-stream :
    (drops : Bool) (t : ℕ) (rs : List Record) (e : Record)
    → AllGoOn rs
    → IsRecord e
    → e.type ≡ end_request
    → run drops (idle t) (stream rs e) ≡ (reset drops, stream_marks rs)
run-stream drops t _ e none_left h k = run-record drops t e h ∙ behind_last drops e k
run-stream drops t _ e (and_then r rs g n a) h k =
    run-append drops (idle t) (record_text r) (stream rs e)
    ∙ (ap (λ x. then_marks x.1 (run drops x.0 (stream rs e)))
          (run-record drops t r g ∙ behind_one drops r n)
        ∙ ap (then_marks (marks (content_event r.type r.content)))
            (run-stream drops r.type rs e a h k))
