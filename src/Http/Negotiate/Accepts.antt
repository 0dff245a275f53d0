-- ===== src/Http/Negotiate/Accepts.antt =====
-- The codings that an Accept-Encoding header asks for.
use php_fpm_ng.Base.{
  ℕ, ◌≡◌, refl, sym, Bool, true, false, not, ◌&&◌, ◌||◌, Option, none, some, List, [], ◌∷◌, ◌++◌,
  map, append-nil, arith, Bytes, equal_case, ◌==◌, if◌then◌else◌,
}
use php_fpm_ng.Base.Numeral.{decimal}
use php_fpm_ng.Base.Tokens.{joined}
use php_fpm_ng.Http.Host.Parse.{All}
use php_fpm_ng.Http.Host.Parse.Print.{dark, trim_front-dark, trim_back-dark}
use php_fpm_ng.Http.Negotiate.{pieces, q_value, params_refuse, offers, any_offers, accepts}
use php_fpm_ng.Http.Negotiate.Pieces.{
  Without, AllWithout, Without-All, pieces_all, pieces-append, pieces-joined, digits_of,
  qvalue_is_zero-decimal,
}
use php_fpm_ng.Http.Negotiate.Items.{
  Weight, Item, quality, param_text, weight_text, name_text, item_text, name_byte, IsWeight, Weighs,
  IsItem, AllItems, has_weight, wanted, plain_byte, All-implies, fraction-both, name_text-plain,
  param_text-plain,
}

Without-comma : (s : Bytes) → All plain_byte s → Without b',' s
Without-comma s h = Without-All b',' plain_byte s (λ c x. ground arith) h

Without-semicolon : (s : Bytes) → All plain_byte s → Without b';' s
Without-semicolon s h = Without-All b';' plain_byte s (λ c x. ground arith) h

quality-dark : (w : Weight) → IsWeight w → All dark (quality w)
quality-dark w h = ((let d = h.whole in ground arith), (fraction-both w.fraction h.fraction).1)

q_value-letter :
    (q : ℕ) (v : Bytes) → (q == b'q' || q == b'Q') ≡ true → q_value (q ∷ b'=' ∷ v) ≡ some v
unfolding q_value
q_value-letter q v h = rw h refl

not-not : (b : Bool) → not (not b) ≡ b
not-not true = refl
not-not false = refl

params_refuse-weight :
    (w : Weight) → IsWeight w → params_refuse (param_text w ∷ []) ≡ not (has_weight (some w))
unfolding params_refuse
params_refuse-weight w h =
    let head : All dark (w.letter ∷ b'=' ∷ []) = ((let l = h.letter in ground arith), (refl, tt)) in
    rw
      (
        trim_front-dark w.front (w.letter ∷ b'=' ∷ []) (quality w ++ w.back) h.front head (λ e. cc),
        q_value-letter w.letter (quality w ++ w.back) h.letter,
        trim_back-dark (quality w) w.back (quality-dark w h) h.back,
        qvalue_is_zero-decimal w.whole w.fraction h.whole h.fraction,
      )
      (sym (not-not (decimal 0 (w.whole ∷ digits_of w.fraction) == 0)))

params_of : Option Weight → List Bytes
params_of none = []
params_of (some w) = param_text w ∷ []

params_refuse-of : (o : Option Weight) → Weighs o → params_refuse (params_of o) ≡ not (has_weight o)
unfolding params_refuse params_of
params_refuse-of none h = refl
params_refuse-of (some w) h = params_refuse-weight w h

pieces-text :
    (t : Bytes) (o : Option Weight)
    → All plain_byte t
    → Weighs o
    → pieces b';' (t ++ weight_text o) ≡ t ∷ params_of o
unfolding params_of
pieces-text t none p h = rw append-nil (pieces_all b';' t (Without-semicolon t p))
pieces-text t (some w) p h =
    rw
      (
        pieces-append b';' t (param_text w) (Without-semicolon t p),
        pieces_all b';' (param_text w) (Without-semicolon (param_text w) (param_text-plain w h)),
      )
      refl

name-dark : (s : Bytes) → All name_byte s → All dark s
name-dark s h = All-implies name_byte dark s (λ c x. ground arith) h

offers-item :
    (coding : Bytes) (i : Item)
    → IsItem i
    → offers coding (pieces b';' (item_text i)) ≡ (equal_case i.name coding && has_weight i.weight)
unfolding offers
offers-item coding i h =
    let d = name-dark i.name h.name in
    rw
      (
        pieces-text (name_text i) i.weight (name_text-plain i h) h.weight,
        trim_front-dark i.front i.name i.back h.front d h.some_byte,
        trim_back-dark i.name i.back d h.back,
        params_refuse-of i.weight h.weight,
        not-not (has_weight i.weight),
      )
      refl

if-or : (b c : Bool) → (if b then true else c) ≡ (b || c)
if-or true c = refl
if-or false c = refl

any_offers-items :
    (coding : Bytes) (is : List Item)
    → AllItems is
    → any_offers coding (map item_text is) ≡ wanted coding is
unfolding any_offers
any_offers-items coding [] h = refl
any_offers-items coding (i ∷ is) (x, h) =
    rw (offers-item coding i x, any_offers-items coding is h)
      (if-or (equal_case i.name coding && has_weight i.weight) (wanted coding is))

weight_text-comma : (o : Option Weight) → Weighs o → Without b',' (weight_text o)
weight_text-comma none h = tt
weight_text-comma (some w) h = (refl, Without-comma (param_text w) (param_text-plain w h))

Without-append : (d : ℕ) (t s : Bytes) → Without d t → Without d s → Without d (t ++ s)
Without-append d [] s h k = k
Without-append d (c ∷ t) s (x, h) k = (x, Without-append d t s h k)

item_text-comma : (i : Item) → IsItem i → Without b',' (item_text i)
item_text-comma i h =
    Without-append b',' (name_text i) (weight_text i.weight)
      (Without-comma (name_text i) (name_text-plain i h)) (weight_text-comma i.weight h.weight)

items-comma : (is : List Item) → AllItems is → AllWithout b',' (map item_text is)
items-comma [] h = tt
items-comma (i ∷ is) (x, h) = (item_text-comma i x, items-comma is h)

-- A header of items between commas accepts a coding exactly if one of the items names it, in any
-- case, with no weight or with one whose digits do not write 0.
pub accepts-items :
    (coding : Bytes) (i : Item) (is : List Item)
    → AllItems (i ∷ is)
    → accepts (some (item_text i ++ joined b',' (map item_text is))) coding ≡ wanted coding (i ∷ is)
unfolding accepts
accepts-items coding i is (x, h) =
    rw
      (pieces-joined b',' (item_text i) (map item_text is) (item_text-comma i x) (items-comma is h))
      (any_offers-items coding (i ∷ is) (x, h))
