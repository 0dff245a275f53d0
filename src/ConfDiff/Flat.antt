-- ===== src/ConfDiff/Flat.antt =====
-- The lines of a configuration with its includes put in place, and that the scan reads these.
pub mod Clean
use php_fpm_ng.Base.{
  ℕ, zero, suc, ◌≡◌, refl, sym, ap, ◌∙◌, inl, inr, Option, none, some, List, [], ◌∷◌, ◌++◌, Bytes,
  Option-cases,
}
use php_fpm_ng.ConfDiff.{
  World, Scan, Line, heading, malformed, include, plain, classify, open_section, append_line,
  scan_line, scan_lines, scan_opened, scan_files, scan_globbed, scan_file, listed, proceed,
}

abbrev join : Option (List Line) → Option (List Line) → Option (List Line)
join none o = none
join (some a) none = none
join (some a) (some b) = some (a ++ b)

-- A line of its own, or what it includes.
abbrev flat_line : (Bytes → Option (List Line)) → Line → Option (List Line)
flat_line inc (heading name) = some (heading name ∷ [])
flat_line inc malformed = some (malformed ∷ [])
flat_line inc (include pattern) = inc pattern
flat_line inc (plain line) = some (plain line ∷ [])

flat_lines : (Bytes → Option (List Line)) → List Bytes → Option (List Line)
flat_lines inc [] = some []
flat_lines inc (line ∷ lines) = join (flat_line inc (classify line)) (flat_lines inc lines)

flat_files : (Bytes → Option (List Line)) → List Bytes → Option (List Line)
flat_files file [] = some []
flat_files file (path ∷ paths) = join (file path) (flat_files file paths)

abbrev flat_opened : (Bytes → Option (List Line)) → Option (List Bytes) → Option (List Line)
flat_opened inc none = none
flat_opened inc (some lines) = flat_lines inc lines

-- A pattern that names nothing includes nothing.
abbrev flat_globbed : (Bytes → Option (List Line)) → Option (List Bytes) → Option (List Line)
flat_globbed file none = some []
flat_globbed file (some paths) = flat_files file (listed paths)

-- The lines of a file, with so many levels of includes; `none` if a file cannot be opened or an
-- include stands too deep.
unfoldable pub flat : World → ℕ → Bytes → Option (List Line)
unfolding flat_lines flat_files
flat w zero path = flat_opened (λ pattern. none) (w.lines path)
flat w (suc levels) path =
    flat_opened (λ pattern. flat_globbed (flat w levels) (w.glob pattern)) (w.lines path)

-- The scan of lines without includes.
unfoldable pub feed : List Line → Scan → Scan
feed [] st = st
feed (heading name ∷ ls) st = feed ls (open_section name st)
feed (malformed ∷ ls) st = feed ls st
feed (include pattern ∷ ls) st = feed ls st
feed (plain line ∷ ls) st = feed ls (append_line line st)

abbrev pub fed : Option (List Line) → Scan → Option Scan
fed none st = none
fed (some ls) st = some (feed ls st)

feed-append : (a b : List Line) (st : Scan) → feed (a ++ b) st ≡ feed b (feed a st)
unfolding feed
feed-append [] b st = refl
feed-append (heading name ∷ a) b st = feed-append a b (open_section name st)
feed-append (malformed ∷ a) b st = feed-append a b st
feed-append (include pattern ∷ a) b st = feed-append a b st
feed-append (plain line ∷ a) b st = feed-append a b (append_line line st)

-- One scan after another.
fed-join : (a b : Option (List Line)) (st : Scan) → fed (join a b) st ≡ proceed (fed b) (fed a st)
fed-join none b st = refl
fed-join (some a) none st = refl
fed-join (some a) (some b) st = ap some (feed-append a b st)

abbrev pub Same : (Bytes → Scan → Option Scan) → (Bytes → Option (List Line)) → Type 0
Same scan lines = (x : Bytes) (st : Scan) → scan x st ≡ fed (lines x) st

then_same :
    (o : Option Scan) (f g : Scan → Option Scan)
    → ((st : Scan) → f st ≡ g st)
    → proceed f o ≡ proceed g o
then_same none f g h = refl
then_same (some st) f g h = h st

scan_line-flat :
    (inc : Bytes → Scan → Option Scan) (inc' : Bytes → Option (List Line)) (l : Line) (st : Scan)
    → Same inc inc'
    → scan_line inc l st ≡ fed (flat_line inc' l) st
unfolding scan_line feed
scan_line-flat inc inc' (heading name) st h = refl
scan_line-flat inc inc' malformed st h = refl
scan_line-flat inc inc' (include pattern) st h = h pattern st
scan_line-flat inc inc' (plain line) st h = refl

scan_lines-flat :
    (inc : Bytes → Scan → Option Scan) (inc' : Bytes → Option (List Line)) (lines : List Bytes)
    (st : Scan)
    → Same inc inc'
    → scan_lines inc lines st ≡ fed (flat_lines inc' lines) st
unfolding scan_lines flat_lines feed
scan_lines-flat inc inc' [] st h = refl
scan_lines-flat inc inc' (line ∷ lines) st h =
    ap (proceed (scan_lines inc lines)) (scan_line-flat inc inc' (classify line) st h)
    ∙ then_same (fed (flat_line inc' (classify line)) st) _ _
        (λ st'. scan_lines-flat inc inc' lines st' h)
    ∙ sym (fed-join (flat_line inc' (classify line)) (flat_lines inc' lines) st)

scan_files-flat :
    (file : Bytes → Scan → Option Scan) (file' : Bytes → Option (List Line)) (paths : List Bytes)
    (st : Scan)
    → Same file file'
    → scan_files file paths st ≡ fed (flat_files file' paths) st
unfolding scan_files flat_files feed
scan_files-flat file file' [] st h = refl
scan_files-flat file file' (path ∷ paths) st h =
    ap (proceed (scan_files file paths)) (h path st)
    ∙ then_same (fed (file' path) st) _ _ (λ st'. scan_files-flat file file' paths st' h)
    ∙ sym (fed-join (file' path) (flat_files file' paths) st)

scan_opened-flat :
    (inc : Bytes → Scan → Option Scan) (inc' : Bytes → Option (List Line)) (o : Option (List Bytes))
    (st : Scan)
    → Same inc inc'
    → scan_opened inc o st ≡ fed (flat_opened inc' o) st
scan_opened-flat inc inc' none st h = refl
scan_opened-flat inc inc' (some lines) st h = scan_lines-flat inc inc' lines st h

scan_globbed-flat :
    (file : Bytes → Scan → Option Scan) (file' : Bytes → Option (List Line))
    (o : Option (List Bytes)) (st : Scan)
    → Same file file'
    → scan_globbed file o st ≡ fed (flat_globbed file' o) st
unfolding feed
scan_globbed-flat file file' none st h = refl
scan_globbed-flat file file' (some paths) st h = scan_files-flat file file' (listed paths) st h

-- The scan of a file reads its lines with the includes in place.
pub scan_file-flat : (w : World) (levels : ℕ) → Same (scan_file w levels) (flat w levels)
unfolding scan_file flat
scan_file-flat w zero path st =
    scan_opened-flat (λ pattern s. none) (λ pattern. none) (w.lines path) st (λ pattern s. refl)
scan_file-flat w (suc levels) path st =
    scan_opened-flat (λ pattern s. scan_globbed (scan_file w levels) (w.glob pattern) s)
      (λ pattern. flat_globbed (flat w levels) (w.glob pattern)) (w.lines path) st
      (λ pattern s.
        scan_globbed-flat (scan_file w levels) (flat w levels) (w.glob pattern) s
          (scan_file-flat w levels))
