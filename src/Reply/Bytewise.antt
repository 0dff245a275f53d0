-- ===== src/Reply/Bytewise.antt =====
-- The record parser, a byte at a time: how a read cuts the stream makes no difference.
use php_fpm_ng.Base.{
  ℕ, ◌+◌, ◌-◌, ◌≤◌, ◌≡◌, refl, sym, ap, ◌∙◌, Bool, true, false, inl, inr, List, [], ◌∷◌, ◌++◌, map,
  append-nil, append_assoc, arith, Bytes, length, length-append, ltb, ◌==◌, if◌then◌else◌,
  Bool-cases, if_true, if_false,
}
use php_fpm_ng.Reply.{
  Event, out_piece, log_piece, request_done, Parser, stdout_type, stderr_type, reset, ending,
  header_step, content_event, then_ending, in_header, is_ended, most, record_turn,
}

-- An event, for each byte of it.
pub data Mark : Type 0 where
  out_byte log_byte : ℕ → Mark
  done : Mark

unfoldable pub marks : List Event → List Mark
marks [] = []
marks (out_piece s ∷ events) = map out_byte s ++ marks events
marks (log_piece s ∷ events) = map log_byte s ++ marks events
marks (request_done ∷ events) = done ∷ marks events

abbrev pub flat : Parser × List Event → Parser × List Mark
flat x = (x.0, marks x.1)

abbrev pub byte_step : Bool → Parser → ℕ → Parser × List Mark
byte_step drops p c = if p.dead then (p, []) else flat (record_turn drops (c ∷ []) p)

abbrev pub then_marks : List Mark → Parser × List Mark → Parser × List Mark
then_marks ms x = (x.0, ms ++ x.1)

unfoldable pub run : Bool → Parser → Bytes → Parser × List Mark
run drops p [] = (p, [])
run drops p (c ∷ s) = then_marks (byte_step drops p c).1 (run drops (byte_step drops p c).0 s)

pub marks-append : (a b : List Event) → marks (a ++ b) ≡ marks a ++ marks b
unfolding marks
marks-append [] b = refl
marks-append (out_piece s ∷ a) b =
    rw (marks-append a b) (sym (append_assoc (map out_byte s) (marks a) (marks b)))
marks-append (log_piece s ∷ a) b =
    rw (marks-append a b) (sym (append_assoc (map log_byte s) (marks a) (marks b)))
marks-append (request_done ∷ a) b = ap (done ∷◌) (marks-append a b)

pub run-append :
    (drops : Bool) (p : Parser) (s t : Bytes)
    → run drops p (s ++ t) ≡ then_marks (run drops p s).1 (run drops (run drops p s).0 t)
unfolding run
run-append drops p [] t = refl
run-append drops p (c ∷ s) t =
    rw (run-append drops (byte_step drops p c).0 s t) (rw append_assoc refl)

step_dead : (drops : Bool) (p : Parser) (c : ℕ) → p.dead ≡ true → byte_step drops p c ≡ (p, [])
step_dead drops p c h = if_true p.dead (p, []) (flat (record_turn drops (c ∷ []) p)) h

pub run_dead : (drops : Bool) (p : Parser) (s : Bytes) → p.dead ≡ true → run drops p s ≡ (p, [])
unfolding run
run_dead drops p [] h = refl
run_dead drops p (c ∷ s) h =
    ap (λ x. then_marks x.1 (run drops x.0 s)) (step_dead drops p c h) ∙ run_dead drops p s h

-- The state and the marks behind the first byte of a piece that one turn takes whole.
record IsNext (drops : Bool) (p : Parser) (c : ℕ) (s : Bytes) : Type 0 where
  q : Parser
  ms : List Mark
  first : byte_step drops p c ≡ (q, ms)
  whole : flat (record_turn drops (c ∷ s) p) ≡ then_marks ms (flat (record_turn drops s q))
  alive : q.dead ≡ false
  room : length s ≤ most q

module _ (drops : Bool) where
  pub turn_header :
      (t : Bytes) (q : Parser)
      → in_header q ≡ true
      → record_turn drops t q ≡ header_step drops (q.rec_hdr ++ t) q
  turn_header t q h = if_true (in_header q) _ _ h

  pub turn_content :
      (t : Bytes) (q : Parser)
      → in_header q ≡ false
      → ltb 0 q.rec_len ≡ true
      → record_turn drops t q
        ≡ then_ending drops
            (content_event q.rec_type t)
            (record q { rec_len = q.rec_len - length t })
  turn_content t q h k = if_false (in_header q) _ _ h ∙ if_true (ltb 0 q.rec_len) _ _ k

  pub turn_pad :
      (t : Bytes) (q : Parser)
      → in_header q ≡ false
      → ltb 0 q.rec_len ≡ false
      → record_turn drops t q ≡ ending drops (record q { rec_pad = q.rec_pad - length t })
  turn_pad t q h k = if_false (in_header q) _ _ h ∙ if_false (ltb 0 q.rec_len) _ _ k

module _ (drops : Bool) (p : Parser) (c d : ℕ) (s : Bytes) (live : p.dead ≡ false) where
  step_live : byte_step drops p c ≡ flat (record_turn drops (c ∷ []) p)
  step_live = if_false p.dead (p, []) (flat (record_turn drops (c ∷ []) p)) live

  header-IsNext : in_header p ≡ true → length (c ∷ d ∷ s) ≤ most p → IsNext drops p c (d ∷ s)
  unfolding marks
  header-IsNext h l =
      let m : most p ≡ 8 - length p.rec_hdr = if_true (in_header p) _ _ h in
      let hdr = p.rec_hdr ++ c ∷ [] in
      let n : length hdr ≡ length p.rec_hdr + 1 = length-append p.rec_hdr (c ∷ []) in
      let short : ltb (length hdr) 8 ≡ true = ground (arith, m, n, l) in
      let q : Parser = record p { rec_hdr = hdr } in
      record {
        q = q;
        ms = [];
        first =
            step_live
            ∙ ap flat (turn_header drops (c ∷ []) p h ∙ if_true (ltb (length hdr) 8) _ _ short);
        whole =
            ap flat (turn_header drops (c ∷ d ∷ s) p h)
            ∙ ap (λ x. flat (header_step drops x p)) (sym (append_assoc p.rec_hdr (c ∷ []) (d ∷ s)))
            ∙ sym (ap flat (turn_header drops (d ∷ s) q h));
        alive = live;
        room =
            (let k : most q ≡ 8 - length hdr = if_true (in_header q) _ _ h in
              omega (arith, k, m, n, l));
      }

  -- Content or padding that goes on: nothing ends yet.
  ending_on : (q : Parser) → in_header q ≡ false → ending drops q ≡ (q, [])
  ending_on q h =
      let e : is_ended q ≡ false = ground (arith, h) in
      if_false (is_ended q) (reset drops, request_done ∷ []) (q, []) e

  content_event-marks :
      (type : ℕ) (t : Bytes)
      → marks (content_event type (c ∷ t))
        ≡ marks (content_event type (c ∷ [])) ++ marks (content_event type t)
  unfolding marks
  content_event-marks type t = elim (Bool-cases (type == stdout_type)) [
    | inl y ↦ rw y refl
    | inr x ↦
        rw x (elim (Bool-cases (type == stderr_type)) [ inl y ↦ rw y refl | inr z ↦ rw z refl ])
  ]

  marks-then :
      (t : Bytes) (m n : ℕ)
      → m ≡ n
      → flat (then_ending drops (content_event p.rec_type (c ∷ t)) (record p { rec_len = m }))
        ≡ then_marks
            (marks (content_event p.rec_type (c ∷ [])))
            (flat (then_ending drops (content_event p.rec_type t) (record p { rec_len = n })))
  marks-then t m n e =
      let x = ending drops (record p { rec_len = m }) in
      let one = content_event p.rec_type (c ∷ []) in
      let es = content_event p.rec_type t in
      ap (λ y. (x.0, y))
        (marks-append (content_event p.rec_type (c ∷ t)) x.1
          ∙ ap (◌++ marks x.1) (content_event-marks p.rec_type t)
          ∙ append_assoc (marks one) (marks es) (marks x.1)
          ∙ ap (marks one ++◌) (sym (marks-append es x.1)))
      ∙ ap (λ i. then_marks (marks one) (flat (then_ending drops es (record p { rec_len = i })))) e

  content-IsNext :
      in_header p ≡ false
      → ltb 0 p.rec_len ≡ true
      → length (c ∷ d ∷ s) ≤ most p
      → IsNext drops p c (d ∷ s)
  content-IsNext h k l =
      let m : most p ≡ p.rec_len = if_false (in_header p) _ _ h ∙ if_true (ltb 0 p.rec_len) _ _ k in
      let q : Parser = record p { rec_len = p.rec_len - 1 } in
      let h' : in_header q ≡ false = ground (arith, m, l) in
      let k' : ltb 0 q.rec_len ≡ true = ground (arith, m, l) in
      record {
        q = q;
        ms = marks (content_event p.rec_type (c ∷ []));
        first =
            step_live
            ∙ ap flat (turn_content drops (c ∷ []) p h k)
            ∙ ap (λ x. (x.0, marks (content_event p.rec_type (c ∷ []) ++ x.1))) (ending_on q h')
            ∙ ap (λ x. (q, marks x)) (append-nil (content_event p.rec_type (c ∷ [])));
        whole =
            ap flat (turn_content drops (c ∷ d ∷ s) p h k)
            ∙ (marks-then (d ∷ s) (p.rec_len - length (c ∷ d ∷ s)) (q.rec_len - length (d ∷ s))
                  (omega arith)
                ∙ sym (
                    ap (λ x. then_marks (marks (content_event p.rec_type (c ∷ []))) (flat x))
                      (turn_content drops (d ∷ s) q h' k')));
        alive = live;
        room =
            (let e : most q ≡ q.rec_len =
                if_false (in_header q) _ _ h' ∙ if_true (ltb 0 q.rec_len) _ _ k' in
              omega (arith, e, m, l));
      }

  pad-IsNext :
      in_header p ≡ false
      → ltb 0 p.rec_len ≡ false
      → length (c ∷ d ∷ s) ≤ most p
      → IsNext drops p c (d ∷ s)
  unfolding marks
  pad-IsNext h k l =
      let m : most p ≡ p.rec_pad =
        if_false (in_header p) _ _ h ∙ if_false (ltb 0 p.rec_len) _ _ k in
      let q : Parser = record p { rec_pad = p.rec_pad - 1 } in
      let h' : in_header q ≡ false = ground (arith, m, l) in
      let e : p.rec_pad - length (c ∷ d ∷ s) ≡ q.rec_pad - length (d ∷ s) = omega arith in
      record {
        q = q;
        ms = [];
        first = step_live ∙ ap flat (turn_pad drops (c ∷ []) p h k ∙ ending_on q h');
        whole =
            ap flat (turn_pad drops (c ∷ d ∷ s) p h k)
            ∙ ap (λ i. flat (ending drops (record p { rec_pad = i }))) e
            ∙ sym (ap flat (turn_pad drops (d ∷ s) q h' k));
        alive = live;
        room =
            (let f : most q ≡ q.rec_pad =
                if_false (in_header q) _ _ h' ∙ if_false (ltb 0 q.rec_len) _ _ k in
              omega (arith, f, m, l));
      }

  next : length (c ∷ d ∷ s) ≤ most p → IsNext drops p c (d ∷ s)
  next l = elim (Bool-cases (in_header p)) [
    | inl h ↦ header-IsNext h l
    | inr h ↦ elim (Bool-cases (ltb 0 p.rec_len)) [
      | inl k ↦ content-IsNext h k l
      | inr k ↦ pad-IsNext h k l
    ]
  ]

pub record_turn-run :
    (drops : Bool) (p : Parser) (c : ℕ) (s : Bytes)
    → p.dead ≡ false
    → length (c ∷ s) ≤ most p
    → flat (record_turn drops (c ∷ s) p) ≡ run drops p (c ∷ s)
unfolding run
record_turn-run drops p c [] h l = sym (
    ap (λ x. then_marks x.1 (x.0, [])) (step_live drops p c c [] h)
    ∙ ap (λ y. ((record_turn drops (c ∷ []) p).0, y))
        (append-nil (marks (record_turn drops (c ∷ []) p).1)))
record_turn-run drops p c (d ∷ s) h l =
    let n = next drops p c d s h l in
    n.whole
    ∙ ap (then_marks n.ms) (record_turn-run drops n.q d s n.alive n.room)
    ∙ sym (ap (λ x. then_marks x.1 (run drops x.0 (d ∷ s))) n.first)
