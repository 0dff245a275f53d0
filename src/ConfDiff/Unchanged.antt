-- ===== src/ConfDiff/Unchanged.antt =====
-- A pool is unchanged exactly when the lines under its headings are.
use php_fpm_ng.Base.{◌≡◌, true, false, Option, none, some, List, Bytes}
use php_fpm_ng.ConfDiff.{World, Line}
use php_fpm_ng.ConfDiff.Flat.{flat}
use php_fpm_ng.ConfDiff.Bodies.{under, headed, made}

-- What a reading holds of a section.
abbrev made_of : Bytes → Option (List Line) → Option Bytes
made_of name none = none
made_of name (some ls) = made name ls

-- The lines that a reading holds under the headings of a pool, which has one.
pub record Holds (w : World) (file name : Bytes) (lines : List Bytes) : Type 0 where
  pub whole : List Line
  pub read : flat w 5 file ≡ some whole
  pub has_heading : headed name whole ≡ true
  pub held : under name false whole ≡ lines
