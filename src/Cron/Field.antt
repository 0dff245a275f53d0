-- ===== src/Cron/Field.antt =====
-- `fpm_cron_parse_field` of sapi/fpmng/fpm/fpm_cron_schedule.c.
pub mod Meaning
use php_fpm_ng.Base.{
  ℕ, Bool, true, false, List, [], ◌∷◌, ◌++◌, Bytes, equal, leb, ◌==◌, if◌then◌else◌, length,
  replicate,
}
use php_fpm_ng.Base.Tokens.{tokens}
use php_fpm_ng.Cron.Outcome.{Reason, too_long, empty_field, Outcome, ok, fail, undefined, ◌>>=◌}
use php_fpm_ng.Cron.Item.{parse_item}

abbrev pub is_comma : ℕ → Bool
is_comma c = c == b','

pub items_loop : ℕ → ℕ → List Bytes → List Bool → Outcome (List Bool)
items_loop min max [] b = ok b
items_loop min max (t ∷ ts) b = do b' ← parse_item min max t b; items_loop min max ts b'

pub parse_items : ℕ → ℕ → List Bytes → List Bool → Outcome (List Bool)
unfolding items_loop
parse_items min max [] b = fail empty_field
parse_items min max (t ∷ ts) b = items_loop min max (t ∷ ts) b

-- `char buf[128]`.
abbrev pub field_size : ℕ
field_size = 128

-- `size` is the length of the caller's bitmap; the result holds the bitmap and `*is_star`.
unfoldable pub parse_field : ℕ → ℕ → ℕ → Bytes → Outcome (List Bool × Bool)
unfolding parse_items tokens equal
parse_field min max size field =
    if leb field_size (length field)
    then fail too_long
    else if length field == 0
    then fail empty_field
    else (do
      b ← parse_items min max (tokens is_comma field) (replicate size false)
      ok (b, equal field (b'*' ∷ [])))
