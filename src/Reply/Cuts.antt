-- ===== src/Reply/Cuts.antt =====
-- The record stream does not depend on how it is cut into reads.
use mathlib.Core.Path.{subst}
use php_fpm_ng.Base.{
  all_of, ℕ, zero, suc, ◌-◌, ◌≤◌, ◌<◌, ◌≡◌, refl, sym, ap, ◌∙◌, Bool, true, false, ◌||◌, inl, inr,
  List, [], ◌∷◌, ◌++◌, arith, Bytes, length, take, drop, length-take, length-drop, take-append-drop,
  ltb, ◌==◌, Bool-cases, if_holds,
}
use php_fpm_ng.Reply.{
  Event, Parser, ending, is_ended, read_header, in_header, most, record_turn, then_events,
  data_loop, upstream_data,
}
use php_fpm_ng.Reply.Bytewise.{
  marks, flat, byte_step, then_marks, run, marks-append, run-append, run_dead, record_turn-run,
}

-- The header that is read is not complete.
abbrev pub IsParser : Parser → Type 0
IsParser p = length p.rec_hdr < 8

abbrev Leads : Parser × List Event → Type 0
Leads x = IsParser x.0

ending-IsParser : (drops : Bool) (p : Parser) → IsParser p → Leads (ending drops p)
ending-IsParser drops p h = if_holds Leads (is_ended p) _ _ (λ y. omega arith) (λ x. h)

record_turn-IsParser :
    (drops : Bool) (t : Bytes) (p : Parser) → IsParser p → Leads (record_turn drops t p)
record_turn-IsParser drops t p h =
    if_holds Leads (in_header p) _ _
      (λ y.
        if_holds Leads (ltb (length (p.rec_hdr ++ t)) 8) _ _ (λ z. ground arith)
          (λ z. ending-IsParser drops (read_header (p.rec_hdr ++ t) p) (omega arith)))
      (λ x.
        if_holds Leads (ltb 0 p.rec_len) _ _
          (λ y. ending-IsParser drops (record p { rec_len = p.rec_len - length t }) h)
          (λ z. ending-IsParser drops (record p { rec_pad = p.rec_pad - length t }) h))

most-positive : (p : Parser) → IsParser p → 1 ≤ most p
most-positive p h =
    if_holds (λ m. 1 ≤ m) (in_header p) _ _ (λ y. omega (arith, h))
      (λ x. if_holds (λ m. 1 ≤ m) (ltb 0 p.rec_len) _ _ (λ y. ground arith) (λ z. ground arith))

turn_take :
    (drops : Bool) (n : ℕ) (p : Parser) (buf : Bytes)
    → p.dead ≡ false
    → 1 ≤ n
    → n ≤ most p
    → (length buf == 0) ≡ false
    → flat (record_turn drops (take n buf) p) ≡ run drops p (take n buf)
turn_take drops n p [] l a b e = absurd (cc)
turn_take drops zero p (c ∷ s) l a b e = absurd (omega arith)
turn_take drops (suc n) p (c ∷ s) l a b e =
    record_turn-run drops p c (take n s) l (let k = length-take n s in ground (arith, k))

empty_run :
    (drops : Bool) (p : Parser) (buf : Bytes) → (length buf == 0) ≡ true → (p, []) ≡ run drops p buf
unfolding run
empty_run drops p [] e = refl
empty_run drops p (c ∷ s) e = absurd (ground arith)

data_loop-run :
    (drops : Bool) (n : ℕ) (p : Parser) (buf : Bytes)
    → IsParser p
    → length buf ≤ n
    → flat (data_loop drops n p buf) ≡ run drops p buf
unfolding data_loop marks
data_loop-run drops zero p buf h l = empty_run drops p buf (ground arith)
data_loop-run drops (suc n) p buf h l =
    let m = most p in
    let x = record_turn drops (take m buf) p in
    let rest = data_loop drops n x.0 (drop m buf) in
    if_holds (λ y. flat y ≡ run drops p buf) (length buf == 0 || p.dead) _ _
      (λ y. elim (Bool-cases p.dead) [
        | inl d ↦ sym (run_dead drops p buf d)
        | inr d ↦ empty_run drops p buf (ground arith)
      ])
      (λ e.
        let a = most-positive p h in
        let live : p.dead ≡ false = ground arith in
        let some_byte : (length buf == 0) ≡ false = ground arith in
        let short : length (drop m buf) ≤ n = omega (arith, length-drop m buf) in
        ap (λ y. (rest.0, y)) (marks-append x.1 rest.1)
        ∙ ap (then_marks (marks x.1)) (
            data_loop-run drops n x.0 (drop m buf) (record_turn-IsParser drops (take m buf) p h)
              short)
        ∙ ap (λ r. then_marks r.1 (run drops r.0 (drop m buf)))
            (turn_take drops m p buf live a (omega arith) some_byte)
        ∙ sym (run-append drops p (take m buf) (drop m buf))
        ∙ ap (run drops p) (take-append-drop m buf))

-- A read is parsed as its bytes one after another, whatever its length.
pub upstream_data-run :
    (drops : Bool) (p : Parser) (buf : Bytes)
    → IsParser p
    → flat (upstream_data drops p buf) ≡ run drops p buf
unfolding upstream_data
upstream_data-run drops p buf h = data_loop-run drops (length buf) p buf h (omega arith)

run-IsParser : (drops : Bool) (p : Parser) (s : Bytes) → IsParser p → IsParser (run drops p s).0
unfolding run
run-IsParser drops p [] h = h
run-IsParser drops p (c ∷ s) h = run-IsParser drops (byte_step drops p c).0 s (
    if_holds (λ x. IsParser x.0) p.dead (p, []) (flat (record_turn drops (c ∷ []) p)) (λ y. h)
      (λ x. record_turn-IsParser drops (c ∷ []) p h))

-- The reads one after another.
unfoldable pub feed_reads : Bool → Parser → List Bytes → Parser × List Event
feed_reads drops p [] = (p, [])
feed_reads drops p (r ∷ rs) =
    let x = upstream_data drops p r in then_events x.1 (feed_reads drops x.0 rs)

pub feed_reads-run :
    (drops : Bool) (p : Parser) (rs : List Bytes)
    → IsParser p
    → flat (feed_reads drops p rs) ≡ run drops p (all_of rs)
unfolding feed_reads marks run
feed_reads-run drops p [] h = refl
feed_reads-run drops p (r ∷ rs) h =
    let x = upstream_data drops p r in
    let one = upstream_data-run drops p r h in
    let k : IsParser x.0 = subst (λ y. IsParser y.0) (sym one) (run-IsParser drops p r h) in
    ap (λ y. ((feed_reads drops x.0 rs).0, y)) (marks-append x.1 (feed_reads drops x.0 rs).1)
    ∙ ap (then_marks (marks x.1)) (feed_reads-run drops x.0 rs k)
    ∙ ap (λ y. then_marks y.1 (run drops y.0 (all_of rs))) one
    ∙ sym (run-append drops p r (all_of rs))

-- However a stream is cut into reads, the parser ends in the same state, and what it handed on is the
-- same, byte for byte and in the same order.
pub feed_reads-cuts :
    (drops : Bool) (p : Parser) (rs qs : List Bytes)
    → IsParser p
    → all_of rs ≡ all_of qs
    → flat (feed_reads drops p rs) ≡ flat (feed_reads drops p qs)
feed_reads-cuts drops p rs qs h e =
    feed_reads-run drops p rs h ∙ ap (run drops p) e ∙ sym (feed_reads-run drops p qs h)
