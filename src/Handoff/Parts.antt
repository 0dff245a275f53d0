-- ===== src/Handoff/Parts.antt =====
-- Texts that are joined by a byte come apart again.
use php_fpm_ng.Base.{
  ℕ, ◌≡◌, ◌≢◌, refl, ap, ◌∙◌, Bool, true, List, [], ◌∷◌, ◌++◌, append-nil, arith, Bytes, ◌==◌,
}
use php_fpm_ng.Base.Tokens.{IsClean, AllPieces, joined}
use php_fpm_ng.Handoff.{parts, parts_from, unless_end}

abbrev is_byte : ℕ → ℕ → Bool
is_byte d c = c == d

parts_from-clean :
    (d : ℕ) (t s : Bytes)
    → IsClean (is_byte d) t
    → parts_from d (t ++ d ∷ s) ≡ t ∷ unless_end s (parts_from d s)
unfolding parts_from
parts_from-clean d [] s h = let e : (d == d) ≡ true = ground arith in rw e refl
parts_from-clean d (c ∷ t) s (n, h) = rw (n, parts_from-clean d t s h) refl

parts_from_all : (d : ℕ) (t : Bytes) → IsClean (is_byte d) t → parts_from d t ≡ t ∷ []
unfolding parts_from
parts_from_all d [] h = refl
parts_from_all d (c ∷ t) (n, h) = rw (n, parts_from_all d t h) refl

unless_end-ne : (s : Bytes) (ps : List Bytes) → s ≢ [] → unless_end s ps ≡ ps
unless_end-ne [] ps h = absurd (h refl)
unless_end-ne (c ∷ s) ps h = refl

append-ne : (t s : Bytes) → t ≢ [] → t ++ s ≢ []
append-ne [] s h = absurd (h refl)
append-ne (c ∷ t) s h = λ e. cc

parts_from-joined :
    (d : ℕ) (t : Bytes) (ts : List Bytes)
    → AllPieces (is_byte d) (t ∷ ts)
    → parts_from d (t ++ joined d ts) ≡ t ∷ ts
unfolding parts_from
parts_from-joined d t [] (c, n, h) = rw append-nil (parts_from_all d t c)
parts_from-joined d t (u ∷ ts) (c, n, (e, m, h)) =
    parts_from-clean d t (u ++ joined d ts) c
    ∙ ap (t ∷◌) (
        unless_end-ne (u ++ joined d ts) _ (append-ne u (joined d ts) m)
        ∙ parts_from-joined d u ts (e, m, h))

pub parts-joined :
    (d : ℕ) (t : Bytes) (ts : List Bytes)
    → AllPieces (λ c. c == d) (t ∷ ts)
    → parts d (t ++ joined d ts) ≡ t ∷ ts
unfolding parts
parts-joined d t ts (c, n, h) =
    unless_end-ne (t ++ joined d ts) _ (append-ne t (joined d ts) n)
    ∙ parts_from-joined d t ts (c, n, h)
