-- ===== src/ConfDiff.antt =====
-- Which pools a reload may leave alone: sapi/fpmng/fpm/fpm_conf_diff.c compares the text of a pool's
-- sections in two readings of the configuration.
pub mod Flat
pub mod Unchanged
mod Tests
pub mod Bodies
use php_fpm_ng.Base.{
  ℕ, zero, suc, ◌-◌, Bool, true, false, not, ◌&&◌, ◌||◌, Option, none, some, List, [], ◌∷◌, ◌++◌,
  Bytes, codes, drop, equal, get_or, length, ltb, peek, starts_with, ◌==◌, if◌then◌else◌,
}

-- What the process reads. `lines` gives the lines of a file, each up to its LF or its NUL, if the
-- file can be opened. `glob` gives what a pattern expands to if php_glob returns 0.
pub record World : Type 0 where
  pub lines : Bytes → Option (List Bytes)
  pub glob : Bytes → Option (List Bytes)

-- `struct fpm_conf_diff_section_s`; `body_len` is the length of the body.
pub record Section : Type 0 where
  pub name : Bytes
  pub body : Bytes

-- `struct fpm_conf_diff_scan_state`. Names are different, so the name stands for the pointer.
pub record Scan : Type 0 where
  pub head : List Section
  pub cur : Option Bytes

pub find : List Section → Bytes → Option Bytes
unfolding equal
find [] name = none
find (s ∷ ss) name = if equal s.name name then some s.body else find ss name

-- What a line is.
pub data Line : Type 0 where
  heading : Bytes → Line
  malformed : Line
  include : Bytes → Line
  plain : Bytes → Line

abbrev pub is_indent : ℕ → Bool
is_indent c = c == b' ' || c == 9 || c == 13

abbrev pub is_gap : ℕ → Bool
is_gap c = c == b' ' || c == 9

unfoldable pub skip_while : (ℕ → Bool) → Bytes → Bytes
skip_while p [] = []
skip_while p (c ∷ s) = if p c then skip_while p s else c ∷ s

-- The gaps at the end are taken off.
unfoldable pub trim_end : Bytes → Bytes
trim_end [] = []
trim_end (c ∷ s) = let t = trim_end s in if is_gap c && length t == 0 then [] else c ∷ t

-- The text in front of the first `]`.
unfoldable pub before_bracket : Bytes → Option Bytes
before_bracket [] = none
before_bracket (c ∷ s) =
    if c == b']' then some [] else elim (before_bracket s) [ none ↦ none | some t ↦ some (c ∷ t) ]

abbrev pub heading_of : Option Bytes → Line
heading_of none = malformed
heading_of (some name) = heading name

-- Behind the word `include` and gaps.
abbrev pub include_of : Bytes → Bytes → Line
include_of trimmed rest =
    if peek rest == b'='
    then include (trim_end (skip_while is_gap (drop 1 rest)))
    else plain trimmed

abbrev pub classify_trimmed : Bytes → Line
classify_trimmed trimmed =
    if peek trimmed == b'['
    then heading_of (before_bracket (drop 1 trimmed))
    else if starts_with (codes "include") trimmed
    then include_of trimmed (skip_while is_gap (drop 7 trimmed))
    else plain trimmed

unfoldable pub classify : Bytes → Line
unfolding skip_while trim_end before_bracket starts_with
classify line = classify_trimmed (skip_while is_indent line)

abbrev pub has_section : Option Bytes → Bool
has_section none = false
has_section (some body) = true

unfoldable pub open_section : Bytes → Scan → Scan
unfolding find
open_section name st =
    if has_section (find st.head name)
    then record st { cur = some name }
    else record { head = record { name = name; body = [] } ∷ st.head; cur = some name }

unfoldable pub body_append : Bytes → Bytes → List Section → List Section
unfolding equal
body_append name line [] = []
body_append name line (s ∷ ss) =
    if equal s.name name
    then record s { body = s.body ++ (line ++ 10 ∷ []) } ∷ ss
    else s ∷ body_append name line ss

abbrev pub append_at : Option Bytes → Bytes → Scan → Scan
append_at none line st = st
append_at (some name) line st = record st { head = body_append name line st.head }

unfoldable pub append_line : Bytes → Scan → Scan
unfolding body_append
append_line line st = append_at st.cur line st

-- The next step, unless one failed.
abbrev pub proceed : (Scan → Option Scan) → Option Scan → Option Scan
proceed f none = none
proceed f (some st) = f st

-- `inc` scans what an include names; `none` is the return of -1.
unfoldable pub scan_line : (Bytes → Scan → Option Scan) → Line → Scan → Option Scan
unfolding open_section append_line
scan_line inc (heading name) st = some (open_section name st)
scan_line inc malformed st = some st
scan_line inc (include pattern) st = inc pattern st
scan_line inc (plain line) st = some (append_line line st)

unfoldable pub scan_lines : (Bytes → Scan → Option Scan) → List Bytes → Scan → Option Scan
unfolding scan_line
scan_lines inc [] st = some st
scan_lines inc (line ∷ lines) st = elim (scan_line inc (classify line) st) [
  | none ↦ none
  | some st' ↦ scan_lines inc lines st'
]

abbrev pub scan_opened : (Bytes → Scan → Option Scan) → Option (List Bytes) → Scan → Option Scan
scan_opened inc none st = none
scan_opened inc (some lines) st = scan_lines inc lines st

-- The files of an include, one after the other.
unfoldable pub scan_files : (Bytes → Scan → Option Scan) → List Bytes → Scan → Option Scan
scan_files file [] st = some st
scan_files file (path ∷ paths) st = elim (file path st) [
  | none ↦ none
  | some st' ↦ scan_files file paths st'
]

-- A name that is empty or ends in a slash is passed over.
abbrev pub is_no_file : Bytes → Bool
is_no_file name = ltb (length name) 1 || get_or name (length name - 1) 0 == b'/'

unfoldable pub listed : List Bytes → List Bytes
listed [] = []
listed (name ∷ names) = let rest = listed names in if is_no_file name then rest else name ∷ rest

abbrev pub scan_globbed : (Bytes → Scan → Option Scan) → Option (List Bytes) → Scan → Option Scan
scan_globbed file none st = some st
scan_globbed file (some paths) st = scan_files file (listed paths) st

-- The number counts the levels of includes that are left: at depth 5 an include is refused.
unfoldable pub scan_file : World → ℕ → Bytes → Scan → Option Scan
unfolding scan_lines scan_files listed
scan_file w zero path st = scan_opened (λ pattern s. none) (w.lines path) st
scan_file w (suc levels) path st =
    scan_opened (λ pattern s. scan_globbed (scan_file w levels) (w.glob pattern) s) (w.lines path)
      st

abbrev pub max_include_depth : ℕ
max_include_depth = 5

abbrev pub start : Scan
start = record { head = []; cur = none }

abbrev pub sections_of : Option Scan → List Section
sections_of none = []
sections_of (some st) = st.head

-- The empty list is NULL: no snapshot.
unfoldable pub read_sections : World → Option Bytes → List Section
unfolding scan_file
read_sections w none = []
read_sections w (some file) = sections_of (scan_file w max_include_depth file start)

-- The static variables.
pub record Diff : Type 0 where
  pub current_snapshot : List Section
  pub pass_snapshot : List Section
  pub pass_valid : Bool

unfoldable pub snapshot_current : World → Option Bytes → Diff → Diff
unfolding read_sections
snapshot_current w file d = record d { current_snapshot = read_sections w file }

abbrev pub taken : List Section → Bool
taken [] = false
taken (s ∷ ss) = true

unfoldable pub begin_reload_pass : World → Option Bytes → Diff → Diff
unfolding read_sections
begin_reload_pass w file d =
    let pass = read_sections w file in
    record d { pass_snapshot = pass; pass_valid = taken pass && taken d.current_snapshot }

abbrev pub same_body : Option Bytes → Option Bytes → Bool
same_body none o = false
same_body (some a) none = false
same_body (some a) (some b) = length a == length b && equal a b

unfoldable pub pool_unchanged : Diff → Option Bytes → Bool
unfolding find equal
pool_unchanged d none = false
pool_unchanged d (some name) =
    if not d.pass_valid
    then false
    else same_body (find d.current_snapshot name) (find d.pass_snapshot name)

unfoldable pub shutdown : Diff → Diff
shutdown d = record { current_snapshot = []; pass_snapshot = []; pass_valid = false }
