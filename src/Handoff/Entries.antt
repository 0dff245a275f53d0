-- ===== src/Handoff/Entries.antt =====
-- The children of a pool are read back from the text of its group.
use php_fpm_ng.Base.{
  ℕ, ◌-◌, ◌^◌, ◌<◌, ◌≡◌, ◌≢◌, refl, sym, ap, ◌∙◌, Bool, true, false, List, [], ◌∷◌, ◌++◌,
  append-nil, arith, Bytes, is_digit, ltb_of_le, ◌==◌,
}
use php_fpm_ng.Base.Tokens.{IsClean, AllPieces, joined}
use php_fpm_ng.Base.Numeral.{AllDigits}
use php_fpm_ng.Handoff.Number.{
  shown, read_number, pid_of, start_of, read_number-shown, AllDigits-shown, shown-ne_nil,
}
use php_fpm_ng.Handoff.{
  Carried, parts, entry_text, more_entries, entries_text, read_entry, read_entries,
}
use php_fpm_ng.Handoff.Parts.{parts-joined}

-- A pid and a start time as the kernel gives them.
pub record IsChild (c : Carried) : Type 0 where
  pub pid_fits : c.pid < 2 ^ 31
  pub start_fits : c.start < 2 ^ 64

abbrev pub AllChildren : List Carried → Type 0
AllChildren [] = Unit
AllChildren (c ∷ cs) = IsChild c × AllChildren cs

pid_of-plain :
    (n : ℕ) (rest : Bytes)
    → n < 2 ^ 31
    → pid_of (record { minus = false; number = n; rest = rest }) ≡ n
unfolding pid_of
pid_of-plain n rest h = rw (ltb_of_le (2 ^ 63 - 1) n (omega arith)) (omega arith)

start_of-plain :
    (n : ℕ) (rest : Bytes)
    → n < 2 ^ 64
    → start_of (record { minus = false; number = n; rest = rest }) ≡ n
unfolding start_of
start_of-plain n rest h = rw (ltb_of_le (2 ^ 64 - 1) n (omega arith)) refl

pub read_entry-entry_text : (c : Carried) → IsChild c → read_entry (entry_text c) ≡ c
unfolding read_entry entry_text
read_entry-entry_text c h =
    let a = read_number-shown c.pid (b'/' ∷ shown c.start) refl in
    let b : read_number (shown c.start) ≡ record { minus = false; number = c.start; rest = [] } =
      ap read_number (sym (append-nil (shown c.start))) ∙ read_number-shown c.start [] tt in
    rw
      (
        a,
        b,
        pid_of-plain c.pid (b'/' ∷ shown c.start) h.pid_fits,
        start_of-plain c.start [] h.start_fits,
      )
      refl

-- A byte of an entry.
abbrev IsMark : ℕ → Type 0
IsMark d = (is_digit d ≡ false) × ((b'/' == d) ≡ false)

digit-ne : (c d : ℕ) → is_digit c ≡ true → is_digit d ≡ false → (c == d) ≡ false
digit-ne c d h k = ground (arith, h, k)

AllDigits-IsClean : (d : ℕ) (t : Bytes) → is_digit d ≡ false → AllDigits t → IsClean (λ c. c == d) t
AllDigits-IsClean d [] n h = tt
AllDigits-IsClean d (c ∷ t) n (e, h) = (digit-ne c d e n, AllDigits-IsClean d t n h)

pub IsClean-append : (p : ℕ → Bool) (a b : Bytes) → IsClean p a → IsClean p b → IsClean p (a ++ b)
IsClean-append p [] b h k = k
IsClean-append p (c ∷ a) b (e, h) k = (e, IsClean-append p a b h k)

entry_text-IsClean : (d : ℕ) (c : Carried) → IsMark d → IsClean (λ x. x == d) (entry_text c)
unfolding entry_text
entry_text-IsClean d c (n, m) =
    IsClean-append _ (shown c.pid) _ (AllDigits-IsClean d (shown c.pid) n (AllDigits-shown c.pid))
      (m, AllDigits-IsClean d (shown c.start) n (AllDigits-shown c.start))

append-ne : (t s : Bytes) → t ≢ [] → t ++ s ≢ []
append-ne [] s h = absurd (h refl)
append-ne (c ∷ t) s h = λ e. cc

entry_text-ne_nil : (c : Carried) → entry_text c ≢ []
unfolding entry_text
entry_text-ne_nil c = append-ne (shown c.pid) _ (shown-ne_nil c.pid)

abbrev pub texts : List Carried → List Bytes
texts [] = []
texts (c ∷ cs) = entry_text c ∷ texts cs

more_entries-joined : (cs : List Carried) → more_entries cs ≡ joined b',' (texts cs)
unfolding more_entries
more_entries-joined [] = refl
more_entries-joined (c ∷ cs) = ap (λ t. b',' ∷ (entry_text c ++ t)) (more_entries-joined cs)

AllPieces-texts : (cs : List Carried) → AllPieces (λ c. c == b',') (texts cs)
AllPieces-texts [] = tt
AllPieces-texts (c ∷ cs) =
    (entry_text-IsClean b',' c (refl, refl), entry_text-ne_nil c, AllPieces-texts cs)

read_entries-texts : (cs : List Carried) → AllChildren cs → read_entries (texts cs) ≡ cs
read_entries-texts [] h = refl
read_entries-texts (c ∷ cs) (x, h) = rw (read_entry-entry_text c x, read_entries-texts cs h) refl

pub parts-entries_text :
    (c : Carried) (cs : List Carried) → parts b',' (entries_text (c ∷ cs)) ≡ texts (c ∷ cs)
unfolding entries_text
parts-entries_text c cs =
    ap (λ t. parts b',' (entry_text c ++ t)) (more_entries-joined cs)
    ∙ parts-joined b',' (entry_text c) (texts cs) (AllPieces-texts (c ∷ cs))

-- The entries that were written.
pub read_entries-entries_text :
    (c : Carried) (cs : List Carried)
    → AllChildren (c ∷ cs)
    → read_entries (parts b',' (entries_text (c ∷ cs))) ≡ c ∷ cs
read_entries-entries_text c cs h =
    ap read_entries (parts-entries_text c cs) ∙ read_entries-texts (c ∷ cs) h

more_entries-IsClean :
    (d : ℕ) (cs : List Carried)
    → IsMark d
    → (b',' == d) ≡ false
    → IsClean (λ x. x == d) (more_entries cs)
unfolding more_entries
more_entries-IsClean d [] m k = tt
more_entries-IsClean d (c ∷ cs) m k = (
  k,
  IsClean-append _ (entry_text c) _ (entry_text-IsClean d c m) (more_entries-IsClean d cs m k),
)

-- No semicolon is in a list of entries.
pub entries_text-IsClean : (cs : List Carried) → IsClean (λ x. x == b';') (entries_text cs)
unfolding entries_text
entries_text-IsClean [] = tt
entries_text-IsClean (c ∷ cs) =
    IsClean-append _ (entry_text c) _ (entry_text-IsClean b';' c (refl, refl))
      (more_entries-IsClean b';' cs (refl, refl) refl)
