-- ===== src/Cron/Outcome.antt =====
-- How a parsing function of fpm_cron_schedule.c ends: with a value, with -1 and a message, or in
-- behaviour that C leaves undefined (a signed overflow, a write past an array).
use php_fpm_ng.Base.{Bool, true, false, ◌≡◌, refl}

-- One constructor for each message that the parsing functions write.
pub data Reason : Type 0 where
  expected_number expected_high expected_step bad_step trailing out_of_range bad_range : Reason
  too_long empty_field empty_schedule unknown_shorthand expression_too_long field_count : Reason

pub data Outcome {ℓ} (A : Type ℓ) : Type ℓ where
  ok : A → Outcome A
  fail : Reason → Outcome A
  undefined : Outcome A

infixl 5 ◌>>=◌ ◌>>◌
abbrev pub ◌>>=◌ {ℓ κ} : {A : Type ℓ} {B : Type κ} → Outcome A → (A → Outcome B) → Outcome B
ok a >>= f = f a
fail r >>= f = fail r
undefined >>= f = undefined

abbrev pub ◌>>◌ {ℓ} : {B : Type ℓ} → Outcome (Unit {0}) → Outcome B → Outcome B
m >> k = m >>= λ _. k

abbrev pub guard : Bool → Reason → Outcome (Unit {0})
guard true r = ok tt
guard false r = fail r

-- Not undefined, and if there is a value then it satisfies `P`.
abbrev pub Ensures {ℓ} : {A : Type ℓ} → (A → Type 0) → Outcome A → Type 0
Ensures P (ok a) = P a
Ensures P (fail r) = Unit
Ensures P undefined = ⊥

pub >>=-Ensures {ℓ κ} :
    {A : Type ℓ} {B : Type κ} (P : A → Type 0) (Q : B → Type 0) (m : Outcome A) (f : A → Outcome B)
    → Ensures P m
    → ((a : A) → m ≡ ok a → P a → Ensures Q (f a))
    → Ensures Q (m >>= f)
>>=-Ensures P Q (ok a) f h k = k a refl h
>>=-Ensures P Q (fail r) f h k = tt
>>=-Ensures P Q undefined f h k = h

pub guard-Ensures :
    (P : Type 0) (b : Bool) (r : Reason) → (b ≡ true → P) → Ensures (λ _. P) (guard b r)
guard-Ensures P true r h = h refl
guard-Ensures P false r h = tt
