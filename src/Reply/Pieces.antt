-- ===== src/Reply/Pieces.antt =====
-- The answer does not depend on how the output of the worker is cut into pieces.
use mathlib.Core.Path.{subst}
use php_fpm_ng.Base.{
  all_of, ℕ, zero, suc, ◌+◌, ◌-◌, ◌≤◌, ◌≡◌, refl, sym, ap, ◌∙◌, true, false, ◌⊎◌, inl, inr, Option,
  none, some, List, [], ◌∷◌, ◌++◌, append-nil, append_assoc, arith, Bytes, length, length-append,
  take, drop, ltb, Bool-cases, ltb_of_le, Option-cases, if_true, if_false,
}
use php_fpm_ng.Reply.{max_cgi_headers, find_end, settle, stdout}
use php_fpm_ng.Reply.Head.{
  Request, ClientReply, Head, head_lines, lines_from, no_head, refused_reply, head_reply, reply_of,
  start_reply,
}
use php_fpm_ng.Reply.Block.{find_end-bounds, find_end-append, find_end-new, find_end-skip}

-- The block is short enough, or its end is found early enough, however it comes.
abbrev pub Fits : Bytes → Type 0
Fits text =
    (length text ≤ max_cgi_headers)
    ⊎ ((r : ℕ × ℕ) × (find_end 0 text ≡ some r) × (r.1 ≤ max_cgi_headers))

-- The head is not complete.
pub record IsOpen (a : ClientReply) : Type 0 where
  pub kept : a.discard_upstream ≡ false
  pub unsent : a.headers_sent ≡ false
  pub looking : find_end 0 a.cgi_headers ≡ none

-- The answer can take `d`.
pub data Ready (a : ClientReply) (d : Bytes) : Type 0 where
  discards : a.discard_upstream ≡ true → Ready a d
  sends : a.discard_upstream ≡ false → a.headers_sent ≡ true → Ready a d
  gathers : IsOpen a → Fits (a.cgi_headers ++ d) → Ready a d

-- The search over the whole block.
abbrev whole : Request → ClientReply → Bytes → ClientReply
whole rq a text = settle rq a text (find_end 0 text)

zero_add : (n : ℕ) → 0 + n ≡ n
zero_add n = omega arith

stdout_discards :
    (rq : Request) (a : ClientReply) (d : Bytes) → a.discard_upstream ≡ true → stdout rq a d ≡ a
unfolding stdout
stdout_discards rq a d h = if_true a.discard_upstream a _ h

stdout_sends :
    (rq : Request) (a : ClientReply) (d : Bytes)
    → a.discard_upstream ≡ false
    → a.headers_sent ≡ true
    → stdout rq a d ≡ record a { body = a.body ++ d }
unfolding stdout
stdout_sends rq a d h k =
    if_false a.discard_upstream a _ h ∙ if_true a.headers_sent (record a { body = a.body ++ d }) _ k

stdout_gathers :
    (rq : Request) (a : ClientReply) (d : Bytes)
    → IsOpen a
    → stdout rq a d ≡ whole rq a (a.cgi_headers ++ d)
unfolding stdout
stdout_gathers rq a d h =
    if_false a.discard_upstream a _ h.kept
    ∙ (if_false a.headers_sent (record a { body = a.body ++ d }) _ h.unsent
        ∙ ap (settle rq a (a.cgi_headers ++ d)) (
            sym (
              find_end-skip 0 a.cgi_headers d h.looking
              ∙ ap (λ k. find_end k (drop (length a.cgi_headers - 3) (a.cgi_headers ++ d)))
                  (zero_add (length a.cgi_headers - 3)))))

take_front : (n : ℕ) (s d : Bytes) → n ≤ length s → take n (s ++ d) ≡ take n s
take_front zero s d l = refl
take_front (suc n) [] d l = absurd (omega arith)
take_front (suc n) (c ∷ s) d l = ap (c ∷◌) (take_front n s d (omega arith))

drop_front : (n : ℕ) (s d : Bytes) → n ≤ length s → drop n (s ++ d) ≡ drop n s ++ d
drop_front zero s d l = refl
drop_front (suc n) [] d l = absurd (omega arith)
drop_front (suc n) (c ∷ s) d l = drop_front n s d (omega arith)

pairs : (a b c d : Bytes) → a ≡ b → c ≡ d → ◌≡◌ {A = Bytes × Bytes} (a, c) (b, d)
pairs a b c d e f = ap (λ x. (x, c)) e ∙ ap (λ y. (b, y)) f

reply_of-append :
    (rq : Request) (h : Head) (piece d : Bytes)
    → stdout rq (reply_of rq h piece) d ≡ reply_of rq h (piece ++ d)
unfolding reply_of
reply_of-append rq h piece d = elim (Bool-cases h.invalid_status) [
  | inl y ↦
      ap (λ a. stdout rq a d)
        (if_true h.invalid_status (refused_reply rq) (head_reply rq h piece) y)
      ∙ (stdout_discards rq (refused_reply rq) d refl
          ∙ sym (if_true h.invalid_status (refused_reply rq) (head_reply rq h (piece ++ d)) y))
  | inr y ↦
      ap (λ a. stdout rq a d)
        (if_false h.invalid_status (refused_reply rq) (head_reply rq h piece) y)
      ∙ (stdout_sends rq (head_reply rq h piece) d refl refl
          ∙ sym (if_false h.invalid_status (refused_reply rq) (head_reply rq h (piece ++ d)) y))
]

-- What stands behind a block whose end was found is more of the body.
start_reply-append :
    (rq : Request) (text d : Bytes) (r : ℕ × ℕ)
    → find_end 0 text ≡ some r
    → stdout rq (start_reply rq text r.0 r.1) d ≡ start_reply rq (text ++ d) r.0 r.1
unfolding start_reply
start_reply-append rq text d r e =
    let (a, b, l) = find_end-bounds 0 text r e in
    reply_of-append rq (head_lines rq (lines_from [] (take r.0 text)) (no_head rq)) (drop r.1 text)
      d
    ∙ ap (λ x. reply_of rq (head_lines rq (lines_from [] x.0) (no_head rq)) x.1)
        (pairs (take r.0 text) (take r.0 (text ++ d)) (drop r.1 text ++ d) (drop r.1 (text ++ d))
          (sym (take_front r.0 text d (omega (arith, a, b, l))))
          (sym (drop_front r.1 text d (omega (arith, l)))))

-- A block that is not complete is short enough.
short_block :
    (text d : Bytes) → find_end 0 text ≡ none → Fits (text ++ d) → length text ≤ max_cgi_headers
short_block text d n (inl l) = omega (arith, l, length-append text d)
short_block text d n (inr (r, e, m)) = let k = find_end-new 0 text d r n e in omega (arith, k, m)

-- While the block is not complete, it only grows.
open_grows :
    (rq : Request) (a : ClientReply) (text d : Bytes)
    → find_end 0 text ≡ none
    → Fits (text ++ d)
    → whole rq a text ≡ record a { cgi_headers = text }
open_grows rq a text d n f =
    ap (settle rq a text) n
    ∙ if_false (ltb max_cgi_headers (length text)) (start_reply rq text 0 0)
        (record a { cgi_headers = text })
        (ltb_of_le max_cgi_headers (length text) (short_block text d n f))

-- What the block was before is forgotten.
settle_old :
    (rq : Request) (a : ClientReply) (old text : Bytes) (o : Option (ℕ × ℕ))
    → settle rq (record a { cgi_headers = old }) text o ≡ settle rq a text o
settle_old rq a old text none = refl
settle_old rq a old text (some r) = refl

whole_again :
    (rq : Request) (a : ClientReply) (x d : Bytes)
    → IsOpen a
    → whole rq a ((a.cgi_headers ++ x) ++ d) ≡ stdout rq a (x ++ d)
whole_again rq a x d h =
    ap (whole rq a) (append_assoc a.cgi_headers x d) ∙ sym (stdout_gathers rq a (x ++ d) h)

pub stdout-append :
    (rq : Request) (a : ClientReply) (x d : Bytes)
    → Ready a (x ++ d)
    → stdout rq (stdout rq a x) d ≡ stdout rq a (x ++ d)
stdout-append rq a x d (discards h) =
    ap (λ b. stdout rq b d) (stdout_discards rq a x h)
    ∙ (stdout_discards rq a d h ∙ sym (stdout_discards rq a (x ++ d) h))
stdout-append rq a x d (sends h k) =
    ap (λ b. stdout rq b d) (stdout_sends rq a x h k)
    ∙ (stdout_sends rq (record a { body = a.body ++ x }) d h k
        ∙ (ap (λ y. record a { body = y }) (append_assoc a.body x d)
            ∙ sym (stdout_sends rq a (x ++ d) h k)))
stdout-append rq a x d (gathers h f) = elim (Option-cases (find_end 0 (a.cgi_headers ++ x))) [
  | inr (r, e) ↦
      let text = a.cgi_headers ++ x in
      ap (λ b. stdout rq b d) (stdout_gathers rq a x h ∙ ap (settle rq a text) e)
      ∙ (start_reply-append rq text d r e
          ∙ (sym (ap (settle rq a (text ++ d)) (find_end-append 0 text d r e))
              ∙ whole_again rq a x d h))
  | inl n ↦
      let text = a.cgi_headers ++ x in
      let b : ClientReply = record a { cgi_headers = text } in
      let fits : Fits (text ++ d) = subst Fits (sym (append_assoc a.cgi_headers x d)) f in
      ap (λ c. stdout rq c d) (stdout_gathers rq a x h ∙ open_grows rq a text d n fits)
      ∙ (stdout_gathers rq b d (record { kept = h.kept; unsent = h.unsent; looking = n })
          ∙ (settle_old rq a text (text ++ d) (find_end 0 (text ++ d)) ∙ whole_again rq a x d h))
]

pub stdout_nil : (rq : Request) (a : ClientReply) → Ready a [] → stdout rq a [] ≡ a
stdout_nil rq a (discards h) = stdout_discards rq a [] h
stdout_nil rq a (sends h k) =
    stdout_sends rq a [] h k ∙ ap (λ y. record a { body = y }) (append-nil a.body)
stdout_nil rq a (gathers h f) =
    let e = append-nil a.cgi_headers in
    stdout_gathers rq a [] h ∙ (ap (whole rq a) e ∙ open_grows rq a a.cgi_headers [] h.looking f)

settled-Ready : (rq : Request) (h : Head) (piece d : Bytes) → Ready (reply_of rq h piece) d
unfolding reply_of
settled-Ready rq h piece d = elim (Bool-cases h.invalid_status) [
  | inl y ↦
      subst (λ a. Ready a d)
        (sym (if_true h.invalid_status (refused_reply rq) (head_reply rq h piece) y))
        (discards refl)
  | inr y ↦
      subst (λ a. Ready a d)
        (sym (if_false h.invalid_status (refused_reply rq) (head_reply rq h piece) y))
        (sends refl refl)
]

pub stdout-Ready :
    (rq : Request) (a : ClientReply) (x d : Bytes) → Ready a (x ++ d) → Ready (stdout rq a x) d
unfolding start_reply
stdout-Ready rq a x d (discards h) =
    subst (λ b. Ready b d) (sym (stdout_discards rq a x h)) (discards h)
stdout-Ready rq a x d (sends h k) =
    subst (λ b. Ready b d) (sym (stdout_sends rq a x h k)) (sends h k)
stdout-Ready rq a x d (gathers h f) = elim (Option-cases (find_end 0 (a.cgi_headers ++ x))) [
  | inr (r, e) ↦
      let text = a.cgi_headers ++ x in
      subst (λ b. Ready b d) (sym (stdout_gathers rq a x h ∙ ap (settle rq a text) e))
        (settled-Ready rq (head_lines rq (lines_from [] (take r.0 text)) (no_head rq))
          (drop r.1 text) d)
  | inl n ↦
      let text = a.cgi_headers ++ x in
      let fits : Fits (text ++ d) = subst Fits (sym (append_assoc a.cgi_headers x d)) f in
      subst (λ b. Ready b d) (sym (stdout_gathers rq a x h ∙ open_grows rq a text d n fits))
        (gathers (record { kept = h.kept; unsent = h.unsent; looking = n }) fits)
]

-- The pieces one after another.
unfoldable pub pieces_of : Request → ClientReply → List Bytes → ClientReply
pieces_of rq a [] = a
pieces_of rq a (x ∷ xs) = pieces_of rq (stdout rq a x) xs

-- The answer is that of the whole output in one piece.
pub pieces_of-all :
    (rq : Request) (a : ClientReply) (xs : List Bytes)
    → Ready a (all_of xs)
    → pieces_of rq a xs ≡ stdout rq a (all_of xs)
unfolding pieces_of
pieces_of-all rq a [] h = sym (stdout_nil rq a h)
pieces_of-all rq a (x ∷ xs) h =
    pieces_of-all rq (stdout rq a x) xs (stdout-Ready rq a x (all_of xs) h)
    ∙ stdout-append rq a x (all_of xs) h
