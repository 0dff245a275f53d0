-- ===== src/Http/RequestId/Tests.antt =====
-- Runs of the check of request ids.
use php_fpm_ng.Base.{◌≡◌, refl, true, false, none, some, [], codes, replicate}
use php_fpm_ng.Http.RequestId.{request_id_valid}

request_id_runs :
    (request_id_valid (some (codes "trace-1.A_b")) ≡ true)
    × (request_id_valid (some (codes "a b")) ≡ false)
    × (request_id_valid (some []) ≡ false)
    × (request_id_valid (some (replicate 129 b'a')) ≡ false)
    × (request_id_valid none ≡ false)
unfolding request_id_valid
request_id_runs = (refl, refl, refl, refl, refl)
