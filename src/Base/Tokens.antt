-- ===== src/Base/Tokens.antt =====
-- `strtok_r` of the C library, and that it gives back pieces that were joined by separators.
use mathlib.Core.Path.{◌≡◌, refl, ap, ◌∙◌}
use mathlib.Core.Logic.{◌≢◌}
use mathlib.Core.Bool.{Bool, true, false}
use mathlib.Core.List.{List, [], ◌∷◌, ◌++◌, append-nil, append_assoc}
use Prim.Native.Nat.{ℕ}
use php_fpm_ng.Base.Test.{if◌then◌else◌}
use php_fpm_ng.Base.Text.{Bytes}

abbrev pub emit : Bytes → List Bytes → List Bytes
emit [] r = r
emit (d ∷ t) r = (d ∷ t) ∷ r

-- `strtok_r` until NULL: the runs of bytes that are no separators. `tok` is the token so far.
unfoldable pub tokens_from : (ℕ → Bool) → Bytes → Bytes → List Bytes
tokens_from sep tok [] = emit tok []
tokens_from sep tok (c ∷ s) =
    let cut = emit tok (tokens_from sep [] s) in
    let grown = tokens_from sep (tok ++ c ∷ []) s in if sep c then cut else grown

unfoldable pub tokens : (ℕ → Bool) → Bytes → List Bytes
unfolding tokens_from
tokens sep = tokens_from sep []

-- No byte of the text is a separator.
abbrev pub IsClean : (ℕ → Bool) → Bytes → Type 0
IsClean sep [] = Unit
IsClean sep (c ∷ s) = (sep c ≡ false) × IsClean sep s

abbrev pub AllPieces : (ℕ → Bool) → List Bytes → Type 0
AllPieces sep [] = Unit
AllPieces sep (t ∷ ts) = IsClean sep t × (t ≢ []) × AllPieces sep ts

-- The pieces behind the first one, each behind a separator.
abbrev pub joined : ℕ → List Bytes → Bytes
joined d [] = []
joined d (t ∷ ts) = d ∷ (t ++ joined d ts)

tokens_from-clean :
    (sep : ℕ → Bool) (tok t rest : Bytes)
    → IsClean sep t
    → tokens_from sep tok (t ++ rest) ≡ tokens_from sep (tok ++ t) rest
unfolding tokens_from
tokens_from-clean sep tok [] rest h = rw append-nil refl
tokens_from-clean sep tok (c ∷ t) rest (e, h) =
    rw e (tokens_from-clean sep (tok ++ c ∷ []) t rest h ∙ rw append_assoc refl)

emit-ne_nil : (t : Bytes) (r : List Bytes) → t ≢ [] → emit t r ≡ t ∷ r
emit-ne_nil [] r h = absurd (h refl)
emit-ne_nil (c ∷ t) r h = refl

tokens_from-joined :
    (sep : ℕ → Bool) (d : ℕ) (tok : Bytes) (ts : List Bytes)
    → sep d ≡ true
    → tok ≢ []
    → AllPieces sep ts
    → tokens_from sep tok (joined d ts) ≡ tok ∷ ts
unfolding tokens_from
tokens_from-joined sep d tok [] s n h = emit-ne_nil tok [] n
tokens_from-joined sep d tok (t ∷ ts) s n (c, m, h) = rw s (
    emit-ne_nil tok _ n
    ∙ ap (◌∷◌ tok)
        (tokens_from-clean sep [] t (joined d ts) c ∙ tokens_from-joined sep d t ts s m h))

pub tokens-joined :
    (sep : ℕ → Bool) (d : ℕ) (t : Bytes) (ts : List Bytes)
    → sep d ≡ true
    → AllPieces sep (t ∷ ts)
    → tokens sep (t ++ joined d ts) ≡ t ∷ ts
unfolding tokens
tokens-joined sep d t ts s (c, m, h) =
    tokens_from-clean sep [] t (joined d ts) c ∙ tokens_from-joined sep d t ts s m h
