-- ===== src/ConfDiff/Bodies.antt =====
-- The body of a section is the lines that stand under its headings.
use php_fpm_ng.Base.{
  ◌≡◌, refl, sym, ap, ◌∙◌, Bool, true, false, ◌||◌, inl, inr, Option, none, some, List, [], ◌∷◌,
  ◌++◌, append-nil, append_assoc, arith, Bytes, equal, equal_iff, Bool-cases, Option-cases,
  if◌then◌else◌,
}
use php_fpm_ng.ConfDiff.{
  Section, Scan, Line, heading, malformed, include, plain, find, open_section, body_append,
  append_at, append_line,
}
use php_fpm_ng.ConfDiff.Flat.{feed}

-- The lines under the headings of `name`; `on` while one is open.
abbrev pub under : Bytes → Bool → List Line → List Bytes
under name on [] = []
under name on (heading n ∷ ls) = under name (equal n name) ls
under name on (malformed ∷ ls) = under name on ls
under name on (include pattern ∷ ls) = under name on ls
under name on (plain line ∷ ls) = let rest = under name on ls in if on then line ∷ rest else rest

-- A heading of `name` is there.
abbrev pub headed : Bytes → List Line → Bool
headed name [] = false
headed name (heading n ∷ ls) = equal n name || headed name ls
headed name (malformed ∷ ls) = headed name ls
headed name (include pattern ∷ ls) = headed name ls
headed name (plain line ∷ ls) = headed name ls

-- Lines, each with its LF.
abbrev pub text_of : List Bytes → Bytes
text_of [] = []
text_of (line ∷ ls) = line ++ 10 ∷ text_of ls

abbrev pub cur_is : Bytes → Option Bytes → Bool
cur_is name none = false
cur_is name (some n) = equal n name

-- The body that one more line leaves.
abbrev grown : Bool → Bytes → Option Bytes → Option Bytes
grown on line none = none
grown true line (some b) = some (b ++ (line ++ 10 ∷ []))
grown false line (some b) = some b

grown_off : (line : Bytes) (o : Option Bytes) → grown false line o ≡ o
grown_off line none = refl
grown_off line (some b) = refl

equal-true : (a b : Bytes) → a ≡ b → equal a b ≡ true
equal-true a b e = (equal_iff a b).1 e

-- Names that differ from one name are not both equal to another.
equal-false : (a b c : Bytes) → equal a b ≡ false → equal a c ≡ true → equal b c ≡ false
equal-false a b c n y = elim (Bool-cases (equal b c)) [
  | inl z ↦
      let e : a ≡ b = (equal_iff a c).0 y ∙ sym ((equal_iff b c).0 z) in
      absurd (let x : true ≡ false = sym (equal-true a b e) ∙ n in cc)
  | inr z ↦ z
]

find-body_append :
    (n line : Bytes) (ss : List Section) (name : Bytes)
    → find (body_append n line ss) name ≡ grown (equal n name) line (find ss name)
unfolding find body_append
find-body_append n line [] name = refl
find-body_append n line (s ∷ ss) name = elim (Bool-cases (equal s.name n)) [
  | inl y ↦
      let e : equal n name ≡ equal s.name name =
        ap (λ t. equal t name) (sym ((equal_iff s.name n).0 y)) in
      elim (Bool-cases (equal s.name name)) [
        | inl z ↦ rw (y, e, z) refl
        | inr z ↦ rw (y, e, z) (sym (grown_off line (find ss name)))
      ]
  | inr x ↦ elim (Bool-cases (equal s.name name)) [
    | inl z ↦ rw (x, z, equal-false s.name n name x z) refl
    | inr z ↦ rw (x, z) (find-body_append n line ss name)
  ]
]

find-append_at :
    (c : Option Bytes) (line : Bytes) (st : Scan) (name : Bytes)
    → find (append_at c line st).head name ≡ grown (cur_is name c) line (find st.head name)
find-append_at none line st name = sym (grown_off line (find st.head name))
find-append_at (some n) line st name = find-body_append n line st.head name

find-append_line :
    (line : Bytes) (st : Scan) (name : Bytes)
    → find (append_line line st).head name ≡ grown (cur_is name st.cur) line (find st.head name)
unfolding append_line
find-append_line line st name = find-append_at st.cur line st name

-- Opening a section leaves the bodies, and makes an empty one where there is none.
abbrev opened : Bool → Option Bytes → Option Bytes
opened on none = if on then some [] else none
opened on (some b) = some b

opened_off : (o : Option Bytes) → opened false o ≡ o
opened_off none = refl
opened_off (some b) = refl

find-open_section :
    (n : Bytes) (st : Scan) (name : Bytes)
    → find (open_section n st).head name ≡ opened (equal n name) (find st.head name)
unfolding open_section find
find-open_section n st name = elim (Option-cases (find st.head n)) [
  | inl e ↦ elim (Bool-cases (equal n name)) [
    | inl y ↦
        let m : find st.head name ≡ none = ap (find st.head) (sym ((equal_iff n name).0 y)) ∙ e in
        rw (e, y, m) refl
    | inr x ↦ rw (e, x) (sym (opened_off (find st.head name)))
  ]
  | inr (b, e) ↦ elim (Bool-cases (equal n name)) [
    | inl y ↦
        let m : find st.head name ≡ some b = ap (find st.head) (sym ((equal_iff n name).0 y)) ∙ e in
        rw (e, y, m) refl
    | inr x ↦ rw (e, x) (sym (opened_off (find st.head name)))
  ]
]

cur-open_section : (n : Bytes) (st : Scan) → (open_section n st).cur ≡ some n
unfolding open_section
cur-open_section n st = ground arith

cur-append_at : (c : Option Bytes) (line : Bytes) (st : Scan) → (append_at c line st).cur ≡ st.cur
cur-append_at none line st = refl
cur-append_at (some n) line st = refl

cur-append_line : (line : Bytes) (st : Scan) → (append_line line st).cur ≡ st.cur
unfolding append_line
cur-append_line line st = cur-append_at st.cur line st

text_of-append :
    (b : Bytes) (line : Bytes) (ls : List Bytes)
    → (b ++ (line ++ 10 ∷ [])) ++ text_of ls ≡ b ++ text_of (line ∷ ls)
text_of-append b line ls = simp append_assoc

-- A section that is there grows by the lines under its headings.
pub feed-body :
    (ls : List Line) (st : Scan) (name b : Bytes)
    → find st.head name ≡ some b
    → find (feed ls st).head name ≡ some (b ++ text_of (under name (cur_is name st.cur) ls))
unfolding feed
feed-body [] st name b h = rw append-nil h
feed-body (heading n ∷ ls) st name b h =
    let f = find-open_section n st name ∙ ap (opened (equal n name)) h in
    feed-body ls (open_section n st) name b f
    ∙ ap (λ c. some (b ++ text_of (under name (cur_is name c) ls))) (cur-open_section n st)
feed-body (malformed ∷ ls) st name b h = feed-body ls st name b h
feed-body (include pattern ∷ ls) st name b h = feed-body ls st name b h
feed-body (plain line ∷ ls) st name b h =
    let grow = find-append_line line st name ∙ ap (grown (cur_is name st.cur) line) h in
    let stay = λ (a : Bytes).
      ap (λ c. some (a ++ text_of (under name (cur_is name c) ls))) (cur-append_line line st) in
    elim (Bool-cases (cur_is name st.cur)) [
      | inl y ↦
          let b' : Bytes = b ++ (line ++ 10 ∷ []) in
          let ih = feed-body ls (append_line line st) name b' (rw y at grow) ∙ stay b' in
          rw y (rw y at ih ∙ ap some (text_of-append b line (under name true ls)))
      | inr x ↦
          let ih = feed-body ls (append_line line st) name b (rw x at grow) ∙ stay b in
          rw x (rw x at ih)
    ]

-- What a section that is not there yet becomes.
abbrev pub made : Bytes → List Line → Option Bytes
made name ls = if headed name ls then some (text_of (under name false ls)) else none

-- A section that is not there is made of the lines under its headings, if it has one.
pub feed-made :
    (ls : List Line) (st : Scan) (name : Bytes)
    → find st.head name ≡ none
    → cur_is name st.cur ≡ false
    → find (feed ls st).head name ≡ made name ls
unfolding feed
feed-made [] st name h k = h
feed-made (heading n ∷ ls) st name h k =
    let f = find-open_section n st name ∙ ap (opened (equal n name)) h in
    let c = cur-open_section n st in
    elim (Bool-cases (equal n name)) [
      | inl y ↦
          let ih =
            feed-body ls (open_section n st) name [] (rw y at f)
            ∙ ap (λ t. some (text_of (under name (cur_is name t) ls))) c in
          rw y (rw y at ih)
      | inr x ↦
          let off : cur_is name (open_section n st).cur ≡ false = ap (cur_is name) c ∙ x in
          rw x (feed-made ls (open_section n st) name (rw x at f) off)
    ]
feed-made (malformed ∷ ls) st name h k = feed-made ls st name h k
feed-made (include pattern ∷ ls) st name h k = feed-made ls st name h k
feed-made (plain line ∷ ls) st name h k =
    let f = find-append_line line st name ∙ ap (grown (cur_is name st.cur) line) h in
    feed-made ls (append_line line st) name f (ap (cur_is name) (cur-append_line line st) ∙ k)
