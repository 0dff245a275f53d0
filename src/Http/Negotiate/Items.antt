-- ===== src/Http/Negotiate/Items.antt =====
-- The elements of an Accept-Encoding header, as RFC 9110 writes them.
use php_fpm_ng.Base.{
  ℕ, ◌≡◌, ◌≢◌, refl, Bool, true, false, not, ◌&&◌, ◌||◌, Option, none, some, List, [], ◌∷◌, ◌++◌,
  arith, Bytes, is_digit, equal_case, ◌==◌,
}
use php_fpm_ng.Base.Numeral.{decimal, AllDigits}
use php_fpm_ng.Http.Host.{is_blank}
use php_fpm_ng.Http.Host.Parse.{All}
use php_fpm_ng.Http.Host.Parse.Print.{dark, digits-dark, All-append}
use php_fpm_ng.Http.Negotiate.Pieces.{fraction_text, digits_of}

-- `;q=0.5` with blanks behind the semicolon and at the end.
pub record Weight : Type 0 where
  pub front : Bytes
  pub letter : ℕ
  pub whole : ℕ
  pub fraction : Option Bytes
  pub back : Bytes

pub record Item : Type 0 where
  pub front : Bytes
  pub name : Bytes
  pub back : Bytes
  pub weight : Option Weight

abbrev pub quality : Weight → Bytes
quality w = w.whole ∷ fraction_text w.fraction

abbrev pub param_text : Weight → Bytes
param_text w = w.front ++ (w.letter ∷ b'=' ∷ (quality w ++ w.back))

abbrev pub weight_text : Option Weight → Bytes
weight_text none = []
weight_text (some w) = b';' ∷ param_text w

abbrev pub name_text : Item → Bytes
name_text i = i.front ++ (i.name ++ i.back)

abbrev pub item_text : Item → Bytes
item_text i = name_text i ++ weight_text i.weight

abbrev pub name_byte : ℕ → Bool
name_byte c = dark c && not (c == b',') && not (c == b';')

pub record IsWeight (w : Weight) : Type 0 where
  pub front : All is_blank w.front
  pub letter : (w.letter == b'q' || w.letter == b'Q') ≡ true
  pub whole : is_digit w.whole ≡ true
  pub fraction : AllDigits (digits_of w.fraction)
  pub back : All is_blank w.back

abbrev pub Weighs : Option Weight → Type 0
Weighs none = Unit
Weighs (some w) = IsWeight w

pub record IsItem (i : Item) : Type 0 where
  pub front : All is_blank i.front
  pub name : All name_byte i.name
  pub some_byte : i.name ≢ []
  pub back : All is_blank i.back
  pub weight : Weighs i.weight

abbrev pub AllItems : List Item → Type 0
AllItems [] = Unit
AllItems (i ∷ is) = IsItem i × AllItems is

-- The digits of the weight write a number other than 0; without one, the weight is 1.
abbrev pub has_weight : Option Weight → Bool
has_weight none = true
has_weight (some w) = not (decimal 0 (w.whole ∷ digits_of w.fraction) == 0)

-- One of the items names the coding, in any case, with a weight that is not 0.
abbrev pub wanted : Bytes → List Item → Bool
wanted coding [] = false
wanted coding (i ∷ is) = (equal_case i.name coding && has_weight i.weight) || wanted coding is

-- Neither of the separators.
abbrev pub plain_byte : ℕ → Bool
plain_byte c = not (c == b',') && not (c == b';')

pub All-implies :
    (f g : ℕ → Bool) (s : Bytes) → ((c : ℕ) → f c ≡ true → g c ≡ true) → All f s → All g s
All-implies f g [] k h = tt
All-implies f g (c ∷ s) k (x, h) = (k c x, All-implies f g s k h)

blanks-plain : (s : Bytes) → All is_blank s → All plain_byte s
blanks-plain s h = All-implies is_blank plain_byte s (λ c x. ground arith) h

digits-plain : (s : Bytes) → AllDigits s → All plain_byte s
digits-plain [] h = tt
digits-plain (c ∷ s) (x, h) = (ground arith, digits-plain s h)

pub fraction-both :
    (f : Option Bytes)
    → AllDigits (digits_of f)
    → All plain_byte (fraction_text f) × All dark (fraction_text f)
fraction-both none h = (tt, tt)
fraction-both (some ds) h = ((refl, digits-plain ds h), (refl, digits-dark ds h))

pub name_text-plain : (i : Item) → IsItem i → All plain_byte (name_text i)
name_text-plain i h =
    All-append plain_byte i.front (i.name ++ i.back) (blanks-plain i.front h.front) (
      All-append plain_byte i.name i.back
        (All-implies name_byte plain_byte i.name (λ c x. ground arith) h.name)
        (blanks-plain i.back h.back))

pub param_text-plain : (w : Weight) → IsWeight w → All plain_byte (param_text w)
param_text-plain w h =
    let (p, d) = fraction-both w.fraction h.fraction in
    All-append plain_byte w.front (w.letter ∷ b'=' ∷ (quality w ++ w.back))
      (blanks-plain w.front h.front)
      (
        (let l = h.letter in ground arith),
        (
          refl,
          (
            (let l = h.whole in ground arith),
            All-append plain_byte (fraction_text w.fraction) w.back p (blanks-plain w.back h.back),
          ),
        ),
      )
