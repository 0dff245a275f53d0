-- ===== src/HttpClient/Header/Fields.antt =====
-- Header lines and token lists.
use php_fpm_ng.Base.{
  ℕ, Bool, true, false, ◌||◌, none, some, List, [], ◌∷◌, ◌++◌, ◌≡◌, ◌≢◌, refl, ap, ◌∙◌, inl, inr,
  arith, Bytes, equal_case, ◌==◌, if◌then◌else◌, Bool-cases,
}
use php_fpm_ng.Base.Tokens.{IsClean, emit, tokens_from, tokens}
use php_fpm_ng.HttpClient.Header.{
  is_separator, token_loop, token_in, is_space, trim_front, trim_back, split_colon, split_header,
}

-- Some piece of the list is the token, up to case.
abbrev pub any_equal : Bytes → List Bytes → Bool
any_equal token [] = false
any_equal token (t ∷ ts) = equal_case t token || any_equal token ts

any_equal-emit :
    (token seen : Bytes) (ts : List Bytes)
    → token ≢ []
    → any_equal token (emit seen ts) ≡ (equal_case seen token || any_equal token ts)
unfolding equal_case
any_equal-emit [] seen ts n = absurd (n refl)
any_equal-emit (x ∷ token) [] ts n = refl
any_equal-emit (x ∷ token) (c ∷ seen) ts n = refl

or_false : (b : Bool) → b ≡ (b || false)
or_false b = ground arith

if_or : (b c : Bool) → (if b then true else c) ≡ (b || c)
if_or b c = ground arith

token_loop-tokens :
    (token seen s : Bytes)
    → token ≢ []
    → token_loop token seen s ≡ any_equal token (tokens_from is_separator seen s)
unfolding token_loop tokens_from
token_loop-tokens token seen [] n =
    rw (any_equal-emit token seen [] n) (or_false (equal_case seen token))
token_loop-tokens token seen (c ∷ s) n = elim (Bool-cases (is_separator c)) [
  | inl e ↦
      rw
        (
          e,
          any_equal-emit token seen (tokens_from is_separator [] s) n,
          token_loop-tokens token [] s n,
        )
        (if_or (equal_case seen token) (any_equal token (tokens_from is_separator [] s)))
  | inr e ↦ rw e (token_loop-tokens token (seen ++ c ∷ []) s n)
]

-- A token is found exactly when it is one of the pieces between commas and blanks, up to case: a
-- part of a piece never matches.
pub token_in-tokens :
    (value token : Bytes)
    → token ≢ []
    → token_in value token ≡ any_equal token (tokens is_separator value)
unfolding token_in tokens
token_in-tokens value token n = token_loop-tokens token [] value n

abbrev pub AllSpaces : Bytes → Type 0
AllSpaces [] = Unit
AllSpaces (c ∷ s) = (is_space c ≡ true) × AllSpaces s

abbrev pub is_colon : ℕ → Bool
is_colon c = c == b':'

abbrev pub LastIsSolid : ℕ → Bytes → Type 0
LastIsSolid c [] = is_space c ≡ false
LastIsSolid c (d ∷ s) = LastIsSolid d s

-- A value with no blank at either end.
abbrev pub IsTrimmed : Bytes → Type 0
IsTrimmed [] = Unit
IsTrimmed (c ∷ s) = (is_space c ≡ false) × LastIsSolid c s

trim_front-blanks : (a v : Bytes) → AllSpaces a → trim_front (a ++ v) ≡ trim_front v
unfolding trim_front
trim_front-blanks [] v h = refl
trim_front-blanks (c ∷ a) v (e, h) = rw e (trim_front-blanks a v h)

trim_back-blanks : (b : Bytes) → AllSpaces b → trim_back b ≡ []
unfolding trim_back
trim_back-blanks [] h = refl
trim_back-blanks (c ∷ b) (e, h) = rw (trim_back-blanks b h, e) refl

trim_back-solid :
    (c : ℕ) (s b : Bytes) → LastIsSolid c s → AllSpaces b → trim_back (c ∷ (s ++ b)) ≡ c ∷ s
unfolding trim_back
trim_back-solid c [] b l h = rw (trim_back-blanks b h, l) refl
trim_back-solid c (d ∷ s) b l h = rw (trim_back-solid d s b l h) refl

trim_front-nil : (b : Bytes) → AllSpaces b → trim_front b ≡ []
unfolding trim_front
trim_front-nil [] h = refl
trim_front-nil (c ∷ b) (e, h) = rw e (trim_front-nil b h)

trim-value :
    (a v b : Bytes)
    → AllSpaces a
    → IsTrimmed v
    → AllSpaces b
    → trim_back (trim_front (a ++ (v ++ b))) ≡ v
unfolding trim_front
trim-value a [] b ha hv hb =
    ap trim_back (trim_front-blanks a b ha ∙ trim_front-nil b hb) ∙ trim_back-blanks [] tt
trim-value a (c ∷ v) b ha (e, l) hb =
    ap trim_back (trim_front-blanks a (c ∷ (v ++ b)) ha ∙ rw e refl) ∙ trim_back-solid c v b l hb

split_colon-key :
    (key rest : Bytes)
    → IsClean is_colon key
    → split_colon (key ++ (b':' ∷ rest)) ≡ some (key, rest)
unfolding split_colon
split_colon-key [] rest h = refl
split_colon-key (c ∷ key) rest (e, h) = rw (e, split_colon-key key rest h) refl

split_colon-none : (line : Bytes) → IsClean is_colon line → split_colon line ≡ none
unfolding split_colon
split_colon-none [] h = refl
split_colon-none (c ∷ line) (e, h) = rw (e, split_colon-none line h) refl

-- A line is split at its first colon, and the blanks round the value are not part of it; a line
-- with no colon is no header.
pub split_header-key_value :
    (key before value after : Bytes)
    → IsClean is_colon key
    → AllSpaces before
    → IsTrimmed value
    → AllSpaces after
    → (split_header (key ++ (b':' ∷ (before ++ (value ++ after)))) ≡ some (key, value))
      × (split_header key ≡ none)
unfolding split_header
split_header-key_value key before value after k x v y = (
  rw (split_colon-key key (before ++ (value ++ after)) k, trim-value before value after x v y) refl,
  rw (split_colon-none key k) refl,
)
