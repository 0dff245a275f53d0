-- ===== src/Base/Text.antt =====
-- C strings and buffers: lists of byte values. A string is the bytes before its NUL.
use Prim.Native.Nat.{ℕ, ◌+◌}
use Prim.Native.Char.{code}
use Prim.Native.String.{String}
use mathlib.Core.Path.{◌≡◌}
use mathlib.Core.Bool.{Bool, true, false, ◌&&◌}
use mathlib.Core.List.{List, [], ◌∷◌, ◌++◌}
use mathlib.Core.Logic.{◌↔◌}
use native.Mathlib.Omega.{arith}
use php_fpm_ng.Base.Test.{leb, ◌==◌, if◌then◌else◌}

abbrev pub Bytes : Type 0
Bytes = List ℕ

-- The bytes of an ASCII literal.
abbrev pub codes : String → Bytes
codes String.[] = []
codes (String.◌∷◌ c s) = code c ∷ codes s

-- `*p`: the NUL behind the last byte reads as 0.
abbrev pub peek : Bytes → ℕ
peek [] = 0
peek (c ∷ s) = c

abbrev pub within : ℕ → ℕ → ℕ → Bool
within lo hi c = leb lo c && leb c hi

-- `isdigit` in the C locale.
abbrev pub is_digit : ℕ → Bool
is_digit = within b'0' b'9'

-- `strcmp(a, b) == 0`, and `memcmp` of blocks of one length.
unfoldable pub equal : Bytes → Bytes → Bool
equal [] s = elim s [ [] ↦ true | _ ↦ false ]
equal (c ∷ p) [] = false
equal (c ∷ p) (d ∷ s) = if c == d then equal p s else false

pub equal_iff : (p s : Bytes) → (equal p s ≡ true) ↔ (p ≡ s)
unfolding equal
equal_iff [] [] = ground arith
equal_iff [] (d ∷ s) = ground arith
equal_iff (c ∷ p) [] = ground arith
equal_iff (c ∷ p) (d ∷ s) = ground (arith, equal_iff p s)

-- `tolower` in the C locale, by which `strcasecmp` compares.
abbrev pub lower : ℕ → ℕ
lower c = if within b'A' b'Z' c then c + 32 else c

-- `strcasecmp(a, b) == 0`.
unfoldable pub equal_case : Bytes → Bytes → Bool
equal_case [] [] = true
equal_case (x ∷ xs) (y ∷ ys) = lower x == lower y && equal_case xs ys
equal_case _ _ = false

-- `strncmp(s, prefix, strlen(prefix)) == 0`.
unfoldable pub starts_with : Bytes → Bytes → Bool
starts_with [] s = true
starts_with (x ∷ xs) [] = false
starts_with (x ∷ xs) (y ∷ ys) = x == y && starts_with xs ys

-- `strncasecmp(s, prefix, strlen(prefix)) == 0`.
unfoldable pub starts_with_case : Bytes → Bytes → Bool
starts_with_case [] s = true
starts_with_case (x ∷ xs) [] = false
starts_with_case (x ∷ xs) (y ∷ ys) = lower x == lower y && starts_with_case xs ys

-- The pieces one after another.
abbrev pub all_of : List Bytes → Bytes
all_of [] = []
all_of (r ∷ rs) = r ++ all_of rs
