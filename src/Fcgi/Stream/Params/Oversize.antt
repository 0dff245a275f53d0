-- ===== src/Fcgi/Stream/Params/Oversize.antt =====
-- A parameter that fits no record.
use php_fpm_ng.Base.{
  ◌+◌, ◌≡◌, ◌∙◌, Bool, true, false, inl, inr, [], ◌∷◌, arith, Bytes, length, not, ◌&&◌, ◌||◌, leb,
  ltb, Bool-cases,
}
use php_fpm_ng.Fcgi.{max_record_len, Conn, pair_len, param}
use php_fpm_ng.Fcgi.Stream.{Pairs}
use php_fpm_ng.Fcgi.Stream.Params.{params_of, no_params}

abbrev pub all_fit : Pairs → Bool
all_fit [] = true
all_fit ((name, value) ∷ ps) = leb (pair_len name value) max_record_len && all_fit ps

param-oversize :
    (c : Conn) (name value : Bytes)
    → (param c name value).params_oversize
      ≡ (c.params_oversize || not (leb (pair_len name value) max_record_len))
unfolding param
param-oversize c name value = elim (Bool-cases (ltb max_record_len (pair_len name value))) [
  | inl y ↦
      let z : leb (pair_len name value) max_record_len ≡ false = ground arith in
      rw (y, z) (ground arith)
  | inr x ↦
      let z : leb (pair_len name value) max_record_len ≡ true = ground arith in
      elim (Bool-cases (ltb max_record_len (length c.params + pair_len name value))) [
        | inl y ↦ rw (x, y, z) (ground arith)
        | inr n ↦ rw (x, n, z) (ground arith)
      ]
]

params_of-oversize_from :
    (c : Conn) (ps : Pairs)
    → (params_of c ps).params_oversize ≡ (c.params_oversize || not (all_fit ps))
params_of-oversize_from c [] = ground arith
params_of-oversize_from c ((name, value) ∷ ps) =
    params_of-oversize_from (param c name value) ps
    ∙ rw (param-oversize c name value) (ground arith)

-- The request is marked to be refused exactly when one of its parameters does not fit a record.
pub params_of-oversize : (ps : Pairs) → (params_of no_params ps).params_oversize ≡ not (all_fit ps)
params_of-oversize ps = params_of-oversize_from no_params ps
