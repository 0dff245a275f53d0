-- ===== src/Cron/Field/Meaning.antt =====
-- A field written as a list of well-formed items sets exactly the bits that one of them names.
use php_fpm_ng.Base.{
  ℕ, ◌<◌, Bool, true, false, ◌||◌, List, [], ◌∷◌, ◌++◌, ◌≡◌, ◌≢◌, refl, ◌∙◌, arith, Bytes, is_digit,
  equal, leb, ◌==◌, length, get_or, replicate, length-replicate, get_or-replicate,
}
use php_fpm_ng.Cron.Outcome.{ok}
use php_fpm_ng.Base.Numeral.{AllDigits}
use php_fpm_ng.Cron.Item.Fill.{covers}
use php_fpm_ng.Cron.Item.Read.{
  Form, star, single, span, Every, each, by_step, print_form, print_every, print, first, last,
  stride, FormIsValid, EveryIsValid, IsValid, parse_item-print,
}
use php_fpm_ng.Cron.Field.{is_comma, items_loop, parse_items, field_size, parse_field}
use php_fpm_ng.Base.Tokens.{IsClean, AllPieces, joined, tokens-joined}

pub record Item : Type 0 where
  pub form : Form
  pub every : Every

abbrev pub text : Item → Bytes
text i = print i.form i.every

abbrev pub texts : List Item → List Bytes
texts [] = []
texts (i ∷ is) = text i ∷ texts is

-- The item names the value `j`.
abbrev pub names : ℕ → ℕ → Item → ℕ → Bool
names min max i j = covers (first min i.form) (last max i.form i.every) (stride i.every) j

abbrev pub any_names : ℕ → ℕ → List Item → ℕ → Bool
any_names min max [] j = false
any_names min max (i ∷ is) j = names min max i j || any_names min max is j

abbrev pub AllValid : ℕ → ℕ → List Item → Type 0
AllValid min max [] = Unit
AllValid min max (i ∷ is) = IsValid min max i.form i.every × AllValid min max is

-- A separator of fields or of items: no byte of an item.
abbrev pub Separates : (ℕ → Bool) → Type 0
Separates sep =
    ((c : ℕ) → is_digit c ≡ true → sep c ≡ false)
    × (sep b'*' ≡ false)
    × (sep b'-' ≡ false)
    × (sep b'/' ≡ false)

module _ (sep : ℕ → Bool) (apart : Separates sep) where
  IsClean-append : (s t : Bytes) → IsClean sep s → IsClean sep t → IsClean sep (s ++ t)
  IsClean-append [] t a b = b
  IsClean-append (c ∷ s) t (e, a) b = (e, IsClean-append s t a b)

  AllDigits-IsClean : (ds : Bytes) → AllDigits ds → IsClean sep ds
  AllDigits-IsClean [] h = tt
  AllDigits-IsClean (c ∷ ds) (d, h) = (apart.0 c d, AllDigits-IsClean ds h)

  print_form-IsClean : (f : Form) → FormIsValid f → IsClean sep (print_form f)
  print_form-IsClean star v = (apart.1, tt)
  print_form-IsClean (single ds n) v = AllDigits-IsClean ds v.digits
  print_form-IsClean (span ds n es m) (v, w) =
      IsClean-append ds (b'-' ∷ es) (AllDigits-IsClean ds v.digits)
        (apart.2, AllDigits-IsClean es w.digits)

  print_every-IsClean : (e : Every) → EveryIsValid e → IsClean sep (print_every e)
  print_every-IsClean each v = tt
  print_every-IsClean (by_step ds n) (v, h) = (apart.3, AllDigits-IsClean ds v.digits)

  pub text-IsClean : (i : Item) → FormIsValid i.form → EveryIsValid i.every → IsClean sep (text i)
  text-IsClean i f e =
      IsClean-append (print_form i.form) (print_every i.every) (print_form-IsClean i.form f)
        (print_every-IsClean i.every e)

append-ne_nil : (s t : Bytes) → s ≢ [] → (s ++ t) ≢ []
append-ne_nil [] t h = absurd (h refl)
append-ne_nil (c ∷ s) t h = λ e. cc

print-ne_nil : (f : Form) (e : Every) → FormIsValid f → print f e ≢ []
print-ne_nil star e v = λ p. cc
print-ne_nil (single ds n) e v = append-ne_nil ds (print_every e) v.ne_nil
print-ne_nil (span ds n es m) e (v, w) =
    append-ne_nil (ds ++ (b'-' ∷ es)) (print_every e) (append-ne_nil ds (b'-' ∷ es) v.ne_nil)

pub comma-Separates : Separates is_comma
comma-Separates = ((λ c d. ground arith), refl, refl, refl)

texts-AllPieces :
    (min max : ℕ) (is : List Item) → AllValid min max is → AllPieces is_comma (texts is)
texts-AllPieces min max [] v = tt
texts-AllPieces min max (i ∷ is) (v, vs) = (
  text-IsClean is_comma comma-Separates i v.form v.every,
  print-ne_nil i.form i.every v.form,
  texts-AllPieces min max is vs,
)

-- The bitmap `b'` is `b` with the values of all the items added.
pub record MarksAll (min max : ℕ) (is : List Item) (b b' : List Bool) : Type 0 where
  pub same_length : length b' ≡ length b
  pub bit : (j : ℕ) → get_or b' j false ≡ (get_or b j false || any_names min max is j)

or_assoc : (a b c : Bool) → (a || b || c) ≡ (a || (b || c))
or_assoc a b c = ground arith

items_loop-texts :
    (min max : ℕ) (is : List Item) (b : List Bool)
    → AllValid min max is
    → max < length b
    → (b' : List Bool) × (items_loop min max (texts is) b ≡ ok b') × MarksAll min max is b b'
unfolding items_loop
items_loop-texts min max [] b v l =
    (b, refl, record { same_length = refl; bit = λ j. ground arith })
items_loop-texts min max (i ∷ is) b (v, vs) l =
    let (c, e, m) = parse_item-print min max i.form i.every b v l in
    let (d, f, n) = items_loop-texts min max is c vs (omega (arith, m.same_length)) in
    (
      d,
      rw e f,
      record {
        same_length = n.same_length ∙ m.same_length;
        bit = λ j.
            n.bit j
            ∙ rw (m.bit j)
                (or_assoc (get_or b j false) (names min max i j) (any_names min max is j));
      },
    )

pub record Field : Type 0 where
  pub head : Item
  pub more : List Item

abbrev pub items : Field → List Item
items f = f.head ∷ f.more

-- The items with a comma between two of them.
abbrev pub field_text : Field → Bytes
field_text f = text f.head ++ joined b',' (texts f.more)

-- The bitmap has a bit for every value below `size`, set if an item of the field names it.
pub record Holds (min max size : ℕ) (f : Field) (b : List Bool) : Type 0 where
  pub size_is : length b ≡ size
  pub bit : (j : ℕ) → get_or b j false ≡ any_names min max (items f) j

field_text-ne_nil : (min max : ℕ) (f : Field) → AllValid min max (items f) → field_text f ≢ []
field_text-ne_nil min max f (v, vs) =
    append-ne_nil (text f.head) (joined b',' (texts f.more))
      (print-ne_nil f.head.form f.head.every v.form)

length-ne_nil : (s : Bytes) → s ≢ [] → (length s == 0) ≡ false
length-ne_nil [] h = absurd (h refl)
length-ne_nil (c ∷ s) h = ground arith

-- A field of well-formed items in its domain is accepted, with the bits that its items name and
-- with the flag of the literal star.
pub parse_field-text :
    (min max size : ℕ) (f : Field)
    → AllValid min max (items f)
    → max < size
    → length (field_text f) < field_size
    → (b : List Bool) × (parse_field min max size (field_text f)
        ≡ ok (b, equal (field_text f) (b'*' ∷ [])))
      × Holds min max size f b
unfolding parse_field parse_items
parse_field-text min max size f v l s =
    let zeros : List Bool = replicate size false in
    let (b, e, m) =
      items_loop-texts min max (items f) zeros v (omega (arith, length-replicate size false)) in
    let split =
      tokens-joined is_comma b',' (text f.head) (texts f.more) refl
        (texts-AllPieces min max (items f) v) in
    let long : leb field_size (length (field_text f)) ≡ false = ground arith in
    (
      b,
      rw (long, length-ne_nil (field_text f) (field_text-ne_nil min max f v), split, e) refl,
      record {
        size_is = m.same_length ∙ length-replicate size false;
        bit = λ j. m.bit j ∙ rw (get_or-replicate size j false) refl;
      },
    )

texts-IsClean :
    (sep : ℕ → Bool) (min max : ℕ) (is : List Item)
    → Separates sep
    → sep b',' ≡ false
    → AllValid min max is
    → IsClean sep (joined b',' (texts is))
texts-IsClean sep min max [] a c v = tt
texts-IsClean sep min max (i ∷ is) a c (v, vs) = (
  c,
  IsClean-append sep a (text i) (joined b',' (texts is)) (text-IsClean sep a i v.form v.every)
      (texts-IsClean sep min max is a c vs),
)

-- A field's text holds no blank, so it is one token of the expression.
pub field_text-piece :
    (sep : ℕ → Bool) (min max : ℕ) (f : Field)
    → Separates sep
    → sep b',' ≡ false
    → AllValid min max (items f)
    → IsClean sep (field_text f) × (field_text f ≢ [])
field_text-piece sep min max f a c v = (
  IsClean-append sep a (text f.head) (joined b',' (texts f.more))
      (text-IsClean sep a f.head v.0.form v.0.every) (texts-IsClean sep min max f.more a c v.1),
  field_text-ne_nil min max f v,
)
