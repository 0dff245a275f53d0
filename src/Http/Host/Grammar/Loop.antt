-- ===== src/Http/Host/Grammar/Loop.antt =====
-- The loop of `fpm_http_host_valid_name` accepts the names of the grammar.
use php_fpm_ng.Base.{
  ℕ, ◌+◌, ◌≡◌, refl, sym, ◌∙◌, ap, not, ◌&&◌, inl, inr, [], ◌∷◌, ◌++◌, append-nil, arith, Bytes,
  length, length-append, ltb, leb, ◌==◌, Bool-cases,
}
use php_fpm_ng.Http.Host.{name_max, label_max, is_letter_or_digit, name_loop, valid_name}
use php_fpm_ng.Http.Host.Grammar.{
  labels, last_byte, all_labels, onto, IsPartial, partial-is_label, loop_start, last-snoc,
  name_loop-cons, name_loop-nil, dot-is_label, bad_byte, bad_hyphen, bad_length, longer-IsPartial,
  onto-labels, onto-push, wrong_labels,
}

nil-labels :
    (p : Bytes)
    → IsPartial p
    → name_loop (last_byte p) (length p) [] ≡ all_labels (onto p (labels []))
nil-labels p h =
    rw (name_loop-nil (last_byte p) (length p), append-nil p, partial-is_label p h) (ground arith)

-- Behind a partial label the loop accepts exactly the rests that complete it and hold labels only.
name_loop-labels :
    (p s : Bytes)
    → IsPartial p
    → name_loop (last_byte p) (length p) s ≡ all_labels (onto p (labels s))
name_loop-labels p [] h = nil-labels p h
name_loop-labels p (c ∷ s) h =
    rw (name_loop-cons (last_byte p) (length p) c s) (elim (Bool-cases (c == b'.')) [
      | inl dot ↦
          let rest : name_loop c 0 s ≡ all_labels (labels s) =
            loop_start c 0 s
            ∙ name_loop-labels [] s (omega arith, refl, refl)
            ∙ ap all_labels (onto-labels s) in
          rw (dot, rest, append-nil p) (dot-is_label p (all_labels (labels s)) h)
      | inr other ↦ elim (Bool-cases (not (is_letter_or_digit c) && not (c == b'-'))) [
        | inl bad ↦ rw (other, bad, wrong_labels p c s (λ l. bad_byte p l c bad)) refl
        | inr ok ↦ elim (Bool-cases (c == b'-' && length p == 0)) [
          | inl bad ↦ rw (other, ok, bad, wrong_labels p c s (λ l. bad_hyphen p l c bad)) refl
          | inr inner ↦ elim (Bool-cases (ltb label_max (length p + 1))) [
            | inl bad ↦
                rw (other, ok, inner, bad, wrong_labels p c s (λ l. bad_length p l c bad)) refl
            | inr fits ↦
                rw (other, ok, inner, fits, onto-push p c s)
                  (longer p c s
                    (name_loop-labels (p ++ (c ∷ [])) s (longer-IsPartial p c h ok inner fits)))
          ]
        ]
      ]
    ])
  where
    longer :
        (p : Bytes) (c : ℕ) (s : Bytes)
        → name_loop (last_byte (p ++ (c ∷ []))) (length (p ++ (c ∷ []))) s
          ≡ all_labels (onto (p ++ (c ∷ [])) (labels s))
        → name_loop c (length p + 1) s ≡ all_labels (onto (p ++ (c ∷ [])) (labels s))
    longer p c s h =
        let l : length (p ++ (c ∷ [])) ≡ length p + 1 = length-append p (c ∷ []) in
        let e : name_loop (last_byte (p ++ (c ∷ []))) (length (p ++ (c ∷ []))) s
            ≡ name_loop c (length p + 1) s =
          rw (last-snoc p c, l) refl in
        sym e ∙ h

-- A host name is accepted exactly when it has 1 to 253 bytes and is a sequence of labels between
-- dots, each of one to 63 letters, digits and hyphens with no hyphen at either end.
pub valid_name-labels :
    (name : Bytes)
    → valid_name name
      ≡ (not (length name == 0) && leb (length name) name_max && all_labels (labels name))
unfolding valid_name
valid_name-labels name =
    let e : name_loop 0 0 name ≡ all_labels (labels name) =
      name_loop-labels [] name (omega arith, refl, refl) ∙ ap all_labels (onto-labels name) in
    rw e (ground arith)
