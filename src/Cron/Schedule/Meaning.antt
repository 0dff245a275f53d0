-- ===== src/Cron/Schedule/Meaning.antt =====
-- What an accepted expression means: the five fields of a crontab line, each a list of items.
use native.Mathlib.Decide.{ℕ_discrete}
use php_fpm_ng.Base.{
  ℕ, ◌<◌, Bool, true, false, ◌&&◌, ◌||◌, List, [], ◌∷◌, ◌++◌, ◌≡◌, ◌≢◌, refl, some, ◌∙◌, arith,
  Bytes, equal, leb, ◌==◌, length, get_or, take, inl, inr, Bool-cases, length-set, length-take,
  get_or-take, get_or-set_self, get_or-set_ne,
}
use php_fpm_ng.Cron.Outcome.{ok}
use php_fpm_ng.Cron.Field.{field_size}
use php_fpm_ng.Base.Tokens.{IsClean, AllPieces, joined, tokens-joined}
use php_fpm_ng.Cron.Field.Meaning.{
  Field, items, field_text, AllValid, any_names, Holds, Separates, parse_field-text,
  field_text-piece,
}
use php_fpm_ng.Cron.Schedule.{
  Schedule, is_blank, fold_wday, parse_fields, expression_size, parse_expression, schedule_parse,
}

pub record Line : Type 0 where
  pub minute : Field
  pub hour : Field
  pub mday : Field
  pub month : Field
  pub wday : Field

abbrev pub is_star : Field → Bool
is_star f = equal (field_text f) (b'*' ∷ [])

-- The fields behind the first one.
abbrev pub later_texts : Line → List Bytes
later_texts l = field_text l.hour ∷ field_text l.mday ∷ field_text l.month ∷ field_text l.wday ∷ []

abbrev pub line_text : Line → Bytes
line_text l = field_text l.minute ++ joined b' ' (later_texts l)

-- One field: well-formed items in the domain, and a text that fits the parser's buffer.
pub record FieldIsValid (min max : ℕ) (f : Field) : Type 0 where
  pub valid : AllValid min max (items f)
  pub short : length (field_text f) < field_size

pub record LineIsValid (l : Line) : Type 0 where
  pub minute : FieldIsValid 0 59 l.minute
  pub hour : FieldIsValid 0 23 l.hour
  pub mday : FieldIsValid 1 31 l.mday
  pub month : FieldIsValid 1 12 l.month
  pub wday : FieldIsValid 0 7 l.wday
  pub short : length (line_text l) < expression_size

-- A weekday is named by its number, and Sunday by 7 too.
abbrev pub names_wday : Field → ℕ → Bool
names_wday f j = any_names 0 7 (items f) j || j == 0 && any_names 0 7 (items f) 7

pub record Denotes (l : Line) (s : Schedule) : Type 0 where
  pub minute : Holds 0 59 60 l.minute s.minute
  pub hour : Holds 0 23 24 l.hour s.hour
  pub mday : Holds 1 31 32 l.mday s.mday
  pub month : Holds 1 12 13 l.month s.month
  pub wday_size : length s.wday ≡ 7
  pub wday : (j : ℕ) → j < 7 → get_or s.wday j false ≡ names_wday l.wday j
  pub mday_star : s.mday_is_star ≡ is_star l.mday
  pub wday_star : s.wday_is_star ≡ is_star l.wday

blank-Separates : Separates is_blank
blank-Separates = ((λ c d. ground arith), refl, refl, refl)

piece :
    (min max : ℕ) (f : Field)
    → FieldIsValid min max f
    → IsClean is_blank (field_text f) × (field_text f ≢ [])
piece min max f v = field_text-piece is_blank min max f blank-Separates refl v.valid

later-AllPieces :
    (l : Line) → LineIsValid l → AllPieces is_blank (field_text l.minute ∷ later_texts l)
later-AllPieces l v =
    let (a, b) = piece 0 59 l.minute v.minute in
    let (c, d) = piece 0 23 l.hour v.hour in
    let (e, f) = piece 1 31 l.mday v.mday in
    let (g, h) = piece 1 12 l.month v.month in
    let (i, j) = piece 0 7 l.wday v.wday in (a, b, (c, d, (e, f, (g, h, (i, j, tt)))))

fold_wday-length : (b : List Bool) → length b ≡ 8 → length (fold_wday b) ≡ 7
unfolding fold_wday
fold_wday-length b h = elim (Bool-cases (get_or b 7 false)) [
  | inl t ↦ rw (t, length-set (take 7 b) 0 true) (omega (arith, length-take 7 b))
  | inr f ↦ rw f (omega (arith, length-take 7 b))
]

fold_wday-bit :
    (b : List Bool) (j : ℕ)
    → length b ≡ 8
    → j < 7
    → get_or (fold_wday b) j false ≡ (get_or b j false || j == 0 && get_or b 7 false)
unfolding fold_wday
fold_wday-bit b j h k = elim (Bool-cases (get_or b 7 false)) [
  | inl t ↦ rw t (elim (ℕ_discrete 0 j) [
    | yes e ↦
        rw (← e, get_or-set_self (take 7 b) 0 true false (omega (arith, length-take 7 b)))
          (ground arith)
    | no n ↦
        rw (get_or-set_ne (take 7 b) 0 j true false n, get_or-take 7 j b false k) (ground arith)
  ])
  | inr f ↦ rw (f, get_or-take 7 j b false k) (ground arith)
]

abbrev is_at : ℕ → Bool
is_at c = c == b'@'

schedule_parse_direct :
    (s rest : Bytes)
    → IsClean is_at s
    → s ≢ []
    → schedule_parse (some (s ++ rest)) ≡ parse_expression (s ++ rest)
unfolding schedule_parse
schedule_parse_direct [] rest c n = absurd (n refl)
schedule_parse_direct (x ∷ s) rest (e, c) n = rw e refl

parse_fields-texts :
    (l : Line)
    → LineIsValid l
    → (s : Schedule) × (parse_fields (field_text l.minute ∷ later_texts l) ≡ ok s) × Denotes l s
unfolding parse_fields
parse_fields-texts l v =
    let (a, ea, ha) =
      parse_field-text 0 59 60 l.minute v.minute.valid (omega arith) v.minute.short in
    let (b, eb, hb) = parse_field-text 0 23 24 l.hour v.hour.valid (omega arith) v.hour.short in
    let (c, ec, hc) = parse_field-text 1 31 32 l.mday v.mday.valid (omega arith) v.mday.short in
    let (d, ed, hd) = parse_field-text 1 12 13 l.month v.month.valid (omega arith) v.month.short in
    let (e, ee, he) = parse_field-text 0 7 8 l.wday v.wday.valid (omega arith) v.wday.short in
    (
      record {
        minute = a;
        hour = b;
        mday = c;
        month = d;
        wday = fold_wday e;
        mday_is_star = is_star l.mday;
        wday_is_star = is_star l.wday;
      },
      rw (ea, eb, ec, ed, ee) refl,
      record {
        minute = ha;
        hour = hb;
        mday = hc;
        month = hd;
        wday_size = fold_wday-length e he.size_is;
        wday = λ j k. fold_wday-bit e j he.size_is k ∙ rw (he.bit j, he.bit 7) refl;
        mday_star = refl;
        wday_star = refl;
      },
    )

parse_expression-text :
    (l : Line)
    → LineIsValid l
    → (s : Schedule) × (parse_expression (line_text l) ≡ ok s) × Denotes l s
unfolding parse_expression
parse_expression-text l v =
    let (s, e, d) = parse_fields-texts l v in
    let short : leb expression_size (length (line_text l)) ≡ false = ground (arith, v.short) in
    let split =
      tokens-joined is_blank b' ' (field_text l.minute) (later_texts l) refl
        (later-AllPieces l v) in
    (s, rw (short, split) e, d)

-- A crontab line has five fields of well-formed items, each in its domain, with a step that added to
-- the largest value of the field is at most INT_MAX. Each field is shorter than 128 bytes, and the line shorter
-- than 256. Then the line is accepted without undefined behaviour, and the schedule holds exactly the
-- values that the items name, with Sunday named by 0 or by 7, and whether the fields of the days are
-- a star.
pub schedule_parse-line_text :
    (l : Line)
    → LineIsValid l
    → (s : Schedule) × (schedule_parse (some (line_text l)) ≡ ok s) × Denotes l s
schedule_parse-line_text l v =
    let (clean, filled) =
      field_text-piece is_at 0 59 l.minute ((λ c d. ground arith), refl, refl, refl) refl
        v.minute.valid in
    let (s, e, d) = parse_expression-text l v in
    (
      s,
      schedule_parse_direct (field_text l.minute) (joined b' ' (later_texts l)) clean filled ∙ e,
      d,
    )
