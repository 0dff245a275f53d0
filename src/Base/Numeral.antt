-- ===== src/Base/Numeral.antt =====
-- Decimal numbers, as they are written.
use mathlib.Core.Path.{◌≡◌}
use mathlib.Core.Bool.{true}
use mathlib.Core.List.{[], ◌∷◌}
use Prim.Native.Nat.{ℕ, ◌+◌, ◌-◌, ◌*◌, ◌≤◌}
use native.Mathlib.Omega.{arith}
use php_fpm_ng.Base.Text.{Bytes, is_digit}

-- The number that a run of digits writes, behind a number read before it.
abbrev pub decimal : ℕ → Bytes → ℕ
decimal v [] = v
decimal v (c ∷ s) = decimal (v * 10 + (c - b'0')) s

abbrev pub AllDigits : Bytes → Type 0
AllDigits [] = Unit
AllDigits (c ∷ s) = (is_digit c ≡ true) × AllDigits s

pub decimal-le : (v : ℕ) (ds : Bytes) → v ≤ decimal v ds
decimal-le v [] = omega arith
decimal-le v (c ∷ s) = omega (arith, decimal-le (v * 10 + (c - b'0')) s)
