-- ===== src/Http/Tests.antt =====
-- The gateway theorems at concrete inputs, and runs of the definitions.
use php_fpm_ng.Base.{
  ◌+◌, ◌≤◌, ◌≡◌, ◌≢◌, refl, true, false, none, some, ◌++◌, [], not, ◌&&◌, leb, ◌==◌, arith, codes,
  length, equal_case,
}
use php_fpm_ng.Http.Range.{ignore, unsatisfiable, partial, parse_range, if_range_matches}
use php_fpm_ng.Http.Range.Safe.{IsServable, parse_range-IsServable}
use php_fpm_ng.Http.Range.Answer.{closed, print, answer, parse_range-answer}
use php_fpm_ng.Http.Host.{valid_name, dup_lower, parse}
use php_fpm_ng.Http.Host.Grammar.{labels, all_labels}
use php_fpm_ng.Http.Host.Grammar.Loop.{valid_name-labels}
use php_fpm_ng.Http.Host.Parse.Print.{port_text, parse-print}
use php_fpm_ng.Base.{Bytes}
use php_fpm_ng.Base.{ℕ, List, Option}
use php_fpm_ng.Http.Route.{Route, routes_sort, walk}
use php_fpm_ng.Http.Route.Best.Walk.{IsBest, walk-routes_sort}
use php_fpm_ng.Http.Log.{escape, utf8_len, json_value}
use php_fpm_ng.Http.Log.Json.{AllBytes}
use php_fpm_ng.Http.Log.Json.Value.{IsJsonString, json_value-IsJsonString}
use php_fpm_ng.Http.Log.Line.{IsField, escape-IsField}
use php_fpm_ng.Http.Log.Utf8.{character}
use php_fpm_ng.Http.Log.Utf8.Loop.{utf8_len-character}
use php_fpm_ng.Base.{◌∷◌}
use php_fpm_ng.Http.HeaderCgi.{refused, skipped, key, cgi_key}
use php_fpm_ng.Http.HeaderCgi.Names.{cgi_key-injective, cgi_key-safe}

range_runs :
    (parse_range (some (codes "bytes=2-5")) 10 ≡ partial 2 5)
    × (parse_range (some (codes "bytes=2-")) 10 ≡ partial 2 9)
    × (parse_range (some (codes "Bytes=-3")) 10 ≡ partial 7 9)
    × (parse_range (some (codes "bytes=-0")) 10 ≡ unsatisfiable)
    × (parse_range (some (codes "bytes=5-2")) 10 ≡ ignore)
    × (parse_range (some (codes "bytes=1-2,4-5")) 10 ≡ ignore)
    × (parse_range (some (codes "bytes=10-12")) 10 ≡ unsatisfiable)
    × (parse_range none 10 ≡ ignore)
unfolding parse_range
range_runs = (refl, refl, refl, refl, refl, refl, refl, refl)

-- Two positions past LLONG_MAX are equal after the clamp, so their order is lost: the unclamped
-- numbers are out of order, and the header would be ignored.
range_order_lost :
    parse_range (some (codes "bytes=99999999999999999999-99999999999999999998")) 10 ≡ unsatisfiable
unfolding parse_range
range_order_lost = refl

if_range_runs :
    (if_range_matches (codes "\"a\"") (codes "\"a\"") (codes "x") ≡ true)
    × (if_range_matches (codes "W/\"a\"") (codes "W/\"a\"") (codes "x") ≡ false)
    × (if_range_matches (codes "x") (codes "\"a\"") (codes "x") ≡ true)
unfolding if_range_matches
if_range_runs = (refl, refl, refl)

parse_range-IsServable_example : IsServable 10 (parse_range (some (codes "bytes=2-50")) 10)
parse_range-IsServable_example = parse_range-IsServable (some (codes "bytes=2-50")) 10

parse_range-answer_example :
    parse_range (some (codes "bytes=" ++ print (closed (codes "2") (codes "50")))) 10
    ≡ answer (closed (codes "2") (codes "50")) 10
parse_range-answer_example =
    parse_range-answer (closed (codes "2") (codes "50")) 10
      ((refl, tt), (λ e. cc), omega arith, (refl, (refl, tt)), λ e. cc) (omega arith)

cgi_runs :
    (cgi_key (codes "X-Real-Ip") true 64 ≡ key (codes "HTTP_X_REAL_IP"))
    × (cgi_key (codes "X_Real_Ip") true 64 ≡ skipped)
    × (cgi_key (codes "proxy") true 64 ≡ skipped)
    × (cgi_key (codes "content-type") false 64 ≡ key (codes "CONTENT_TYPE"))
    × (cgi_key (codes "Accept") false 11 ≡ refused)
unfolding cgi_key
cgi_runs = (refl, refl, refl, refl, refl)

cgi_key-injective_example : equal_case (codes "X-Real-IP") (codes "x-real-ip") ≡ true
unfolding cgi_key
cgi_key-injective_example =
    cgi_key-injective (codes "X-Real-IP") (codes "x-real-ip") true 64 (codes "HTTP_X_REAL_IP") refl
      refl

cgi_key-safe_example :
    (codes "HTTP_ACCEPT" ≢ codes "HTTP_PROXY")
    × (codes "HTTP_ACCEPT" ≢ codes "HTTP_CONTENT_LENGTH")
    × (length (codes "HTTP_ACCEPT") + 1 ≤ 12)
unfolding cgi_key
cgi_key-safe_example = cgi_key-safe (codes "Accept") true 12 (codes "HTTP_ACCEPT") refl

host_runs :
    (parse (codes " WWW.Example.com:8080 ") 64 ≡ some (codes "www.example.com"))
    × (parse (codes "a..b") 64 ≡ none)
    × (parse (codes "-a.b") 64 ≡ none)
    × (parse (codes "a.b:") 64 ≡ none)
    × (parse (codes "a.b:65536") 64 ≡ none)
    × (parse (codes "[::1]") 64 ≡ none)
    × (parse (codes "a.b.") 64 ≡ none)
    × (parse (codes "abcd") 4 ≡ none)
unfolding parse
host_runs = (refl, refl, refl, refl, refl, refl, refl, refl)

valid_name-labels_example : valid_name (codes "a-1.b") ≡ (
    not (length (codes "a-1.b") == 0)
    && leb (length (codes "a-1.b")) 253
    && all_labels (labels (codes "a-1.b")))
valid_name-labels_example = valid_name-labels (codes "a-1.b")

parse-print_example :
    parse (codes " " ++ ((codes "A.b" ++ port_text (some (codes "80"))) ++ [])) 64
    ≡ some (dup_lower (codes "A.b"))
unfolding valid_name
parse-print_example =
    parse-print (codes " ") [] (codes "A.b") (some (codes "80")) 64 (refl, tt) tt refl
      ((refl, (refl, tt)), omega arith, omega arith, omega arith) (omega arith)

escape-IsField_example : IsField 64 (escape (some (codes "a\"b\\")) 64)
escape-IsField_example = escape-IsField (some (codes "a\"b\\")) 64 (omega arith)

utf8_len-character_example : utf8_len (226 ∷ 130 ∷ 172 ∷ []) ≡ character (226 ∷ 130 ∷ 172 ∷ [])
utf8_len-character_example = utf8_len-character (226 ∷ 130 ∷ 172 ∷ [])

log_runs :
    (escape (some (codes "a\"b")) 64 ≡ codes "a\\\"b")
    × (escape (some (codes "a\"b")) 3 ≡ codes "a")
    × (json_value (some (codes "a\"b")) 64 ≡ codes "\"a\\\"b\"")
    × (json_value (some (226 ∷ 130 ∷ 172 ∷ [])) 64 ≡ b'"' ∷ 226 ∷ 130 ∷ 172 ∷ b'"' ∷ [])
    × (json_value (some (226 ∷ 130 ∷ [])) 64 ≡ codes "\"\\u00e2\\u0082\"")
    × (json_value (some []) 64 ≡ codes "null")
    × (utf8_len (237 ∷ 160 ∷ 128 ∷ []) ≡ 0)
unfolding escape json_value utf8_len
log_runs = (refl, refl, refl, refl, refl, refl, refl)

abbrev client_bytes : Bytes
client_bytes = b'a' ∷ b'"' ∷ 226 ∷ 130 ∷ 172 ∷ 255 ∷ 7 ∷ []

client_bytes-AllBytes : AllBytes client_bytes
client_bytes-AllBytes = (
  omega arith,
  (omega arith, (omega arith, (omega arith, (omega arith, (omega arith, (omega arith, tt)))))),
)

json_value-IsJsonString_example : IsJsonString 64 (json_value (some client_bytes) 64)
json_value-IsJsonString_example =
    json_value-IsJsonString b'a' (b'"' ∷ 226 ∷ 130 ∷ 172 ∷ 255 ∷ 7 ∷ []) 64 client_bytes-AllBytes
      (omega arith)

abbrev table : List Route
table =
    record { prefix = codes "/"; host = none; target = 0 }
    ∷ record { prefix = codes "/api"; host = none; target = 1 }
    ∷ record { prefix = codes "/"; host = some (codes "a.example"); target = 2 }
    ∷ []

abbrev target_of : Option Route → ℕ
target_of none = 99
target_of (some r) = r.target

route_runs :
    (target_of (walk none (codes "/api/x") (routes_sort table)) ≡ 1)
    × (target_of (walk none (codes "/apiary") (routes_sort table)) ≡ 0)
    × (target_of (walk (some (codes "a.example")) (codes "/api") (routes_sort table)) ≡ 2)
unfolding walk routes_sort
route_runs = (refl, refl, refl)

walk-routes_sort_example :
    IsBest none (codes "/api/x") table (walk none (codes "/api/x") (routes_sort table))
walk-routes_sort_example = walk-routes_sort none (codes "/api/x") table
