-- ===== src/Fcgi/Tests.antt =====
-- The FastCGI theorems at concrete inputs, and runs of the encoder.
use php_fpm_ng.Base.{◌≡◌, refl, some, [], ◌∷◌, arith, codes, length}
use php_fpm_ng.Fcgi.{fcgi_record, fcgi_len, finish}
use php_fpm_ng.Fcgi.Stream.{Pairs, read_stream}
use php_fpm_ng.Fcgi.Stream.Params.{params_of, no_params, finish-read_stream}

abbrev request : Pairs
request = (codes "SCRIPT_NAME", codes "/a.php") ∷ (codes "QUERY_STRING", []) ∷ []

encoder_runs :
    (fcgi_len 5 ≡ 5 ∷ [])
    × (fcgi_len 300 ≡ 128 ∷ 0 ∷ 1 ∷ 44 ∷ [])
    × (fcgi_record 4 (codes "ab")
        ≡ 1 ∷ 4 ∷ 0 ∷ 1 ∷ 0 ∷ 2 ∷ 6 ∷ 0 ∷ b'a' ∷ b'b' ∷ 0 ∷ 0 ∷ 0 ∷ 0 ∷ 0 ∷ 0 ∷ [])
unfolding fcgi_len fcgi_record
encoder_runs = (refl, refl, refl)

finish-read_stream_example :
    read_stream
      (length (finish (params_of no_params request)))
      (finish (params_of no_params request))
    ≡ some request
finish-read_stream_example = finish-read_stream request (omega arith, (omega arith, tt))
