-- ===== src/ConfDiff/Flat/Clean.antt =====
-- The lines of files have no LF in them, and so have the lines that a configuration is made of.
use php_fpm_ng.Base.{
  ℕ, zero, suc, ◌≡◌, Bool, true, false, inl, inr, Option, none, some, List, [], ◌∷◌, ◌++◌, Bytes,
  Bool-cases, Option-cases, codes, peek, starts_with, drop, ◌==◌, if◌then◌else◌,
}
use mathlib.Core.Path.{subst}
use php_fpm_ng.Base.Tokens.{IsClean}
use php_fpm_ng.ConfDiff.{
  listed, World, Line, heading, malformed, include, plain, classify, heading_of, before_bracket,
  skip_while, is_indent, is_gap,
}
use php_fpm_ng.ConfDiff.Flat.{
  join, flat_line, flat_lines, flat_files, flat_opened, flat_globbed, flat,
}

abbrev pub is_lf : ℕ → Bool
is_lf c = c == 10

abbrev pub AllClean : List Bytes → Type 0
AllClean [] = Unit
AllClean (t ∷ ts) = IsClean is_lf t × AllClean ts

-- `getline` ends a line at its LF.
pub record IsLined (w : World) : Type 0 where
  pub lined : (path : Bytes) (ls : List Bytes) → w.lines path ≡ some ls → AllClean ls

abbrev pub CleanLine : Line → Type 0
CleanLine (heading name) = Unit
CleanLine malformed = Unit
CleanLine (include pattern) = Unit
CleanLine (plain line) = IsClean is_lf line

abbrev pub CleanLines : List Line → Type 0
CleanLines [] = Unit
CleanLines (l ∷ ls) = CleanLine l × CleanLines ls

abbrev CleanOption : Option (List Line) → Type 0
CleanOption none = Unit
CleanOption (some ls) = CleanLines ls

CleanLine-if : (t : Bool) (a b : Line) → CleanLine a → CleanLine b → CleanLine (if t then a else b)
CleanLine-if true a b p q = p
CleanLine-if false a b p q = q

CleanLine-heading_of : (o : Option Bytes) → CleanLine (heading_of o)
CleanLine-heading_of none = tt
CleanLine-heading_of (some name) = tt

skip_while-IsClean : (p : ℕ → Bool) (s : Bytes) → IsClean is_lf s → IsClean is_lf (skip_while p s)
unfolding skip_while
skip_while-IsClean p [] h = tt
skip_while-IsClean p (c ∷ s) (e, h) = elim (Bool-cases (p c)) [
  | inl y ↦ rw y (skip_while-IsClean p s h)
  | inr x ↦ rw x (e, h)
]

CleanLine-classify : (line : Bytes) → IsClean is_lf line → CleanLine (classify line)
unfolding classify
CleanLine-classify line h =
    let t = skip_while is_indent line in
    let c = skip_while-IsClean is_indent line h in
    CleanLine-if (peek t == b'[') _ _ (CleanLine-heading_of (before_bracket (drop 1 t))) (
      CleanLine-if (starts_with (codes "include") t) _ _
        (CleanLine-if (peek (skip_while is_gap (drop 7 t)) == b'=') _ _ tt c) c)

CleanLines-append : (a b : List Line) → CleanLines a → CleanLines b → CleanLines (a ++ b)
CleanLines-append [] b p q = q
CleanLines-append (l ∷ a) b (x, p) q = (x, CleanLines-append a b p q)

CleanOption-join :
    (a b : Option (List Line)) → CleanOption a → CleanOption b → CleanOption (join a b)
CleanOption-join none b p q = tt
CleanOption-join (some a) none p q = tt
CleanOption-join (some a) (some b) p q = CleanLines-append a b p q

abbrev AllIncludes : (Bytes → Option (List Line)) → Type 0
AllIncludes inc = (x : Bytes) → CleanOption (inc x)

CleanOption-flat_line :
    (inc : Bytes → Option (List Line)) (l : Line)
    → AllIncludes inc
    → CleanLine l
    → CleanOption (flat_line inc l)
CleanOption-flat_line inc (heading name) h c = (tt, tt)
CleanOption-flat_line inc malformed h c = (tt, tt)
CleanOption-flat_line inc (include pattern) h c = h pattern
CleanOption-flat_line inc (plain line) h c = (c, tt)

CleanOption-flat_lines :
    (inc : Bytes → Option (List Line)) (lines : List Bytes)
    → AllIncludes inc
    → AllClean lines
    → CleanOption (flat_lines inc lines)
unfolding flat_lines
CleanOption-flat_lines inc [] h c = tt
CleanOption-flat_lines inc (line ∷ lines) h (c, cs) =
    CleanOption-join (flat_line inc (classify line)) (flat_lines inc lines)
      (CleanOption-flat_line inc (classify line) h (CleanLine-classify line c))
      (CleanOption-flat_lines inc lines h cs)

CleanOption-flat_files :
    (file : Bytes → Option (List Line)) (paths : List Bytes)
    → AllIncludes file
    → CleanOption (flat_files file paths)
unfolding flat_files
CleanOption-flat_files file [] h = tt
CleanOption-flat_files file (path ∷ paths) h =
    CleanOption-join (file path) (flat_files file paths) (h path)
      (CleanOption-flat_files file paths h)

CleanOption-flat_globbed :
    (file : Bytes → Option (List Line)) (o : Option (List Bytes))
    → AllIncludes file
    → CleanOption (flat_globbed file o)
CleanOption-flat_globbed file none h = tt
CleanOption-flat_globbed file (some paths) h = CleanOption-flat_files file (listed paths) h

CleanOption-flat_opened :
    (w : World) (path : Bytes) (inc : Bytes → Option (List Line))
    → IsLined w
    → AllIncludes inc
    → CleanOption (flat_opened inc (w.lines path))
CleanOption-flat_opened w path inc l h = elim (Option-cases (w.lines path)) [
  | inl e ↦ rw e tt
  | inr (ls, e) ↦ rw e (CleanOption-flat_lines inc ls h (l.lined path ls e))
]

CleanOption-flat : (w : World) (levels : ℕ) → IsLined w → AllIncludes (flat w levels)
unfolding flat
CleanOption-flat w zero l path = CleanOption-flat_opened w path _ l (λ x. tt)
CleanOption-flat w (suc levels) l path =
    CleanOption-flat_opened w path _ l
      (λ x. CleanOption-flat_globbed (flat w levels) (w.glob x) (CleanOption-flat w levels l))

pub flat-CleanLines :
    (w : World) (levels : ℕ) (path : Bytes) (ls : List Line)
    → IsLined w
    → flat w levels path ≡ some ls
    → CleanLines ls
flat-CleanLines w levels path ls l e = subst CleanOption e (CleanOption-flat w levels l path)
