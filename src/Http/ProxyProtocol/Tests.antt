-- ===== src/Http/ProxyProtocol/Tests.antt =====
-- The theorems on the PROXY protocol at concrete inputs, and runs of the reader.
use php_fpm_ng.Base.{
  ◌≤◌, ◌<◌, ◌≡◌, refl, true, ◌⊎◌, Option, none, some, [], ◌∷◌, ◌++◌, arith, Bytes, codes, equal,
  if◌then◌else◌,
}
use php_fpm_ng.Http.Inet.{Family, inet, inet6, Inet}
use php_fpm_ng.Http.ProxyProtocol.{Header, need_more, bad, done, parse}
use php_fpm_ng.Http.ProxyProtocol.Exact.{parse-exact}
use php_fpm_ng.Http.ProxyProtocol.Print as Text
use php_fpm_ng.Http.ProxyProtocol.Print.RoundTrip.{header, parse-print_line}
use php_fpm_ng.Http.ProxyProtocol.Binary
use php_fpm_ng.Http.ProxyProtocol.Binary.{parse-print_block}

-- A library that knows one address.
pton_one : Family → Bytes → Option Bytes
pton_one inet t = if equal t (codes "10.0.0.7") then some (10 ∷ 0 ∷ 0 ∷ 7 ∷ []) else none
pton_one inet6 t = none

ntop_one : Family → Bytes → Option Bytes
ntop_one inet b = if equal b (10 ∷ 0 ∷ 0 ∷ 7 ∷ []) then some (codes "10.0.0.7") else none
ntop_one inet6 b = none

abbrev net : Inet
net = record { pton = pton_one; ntop = ntop_one }

abbrev sent : Text.Sent
sent = record {
  family = inet;
  src = codes "10.0.0.7";
  dst = codes "10.0.0.7";
  sport = codes "51000";
  dport = codes "80";
}

abbrev found : Header
found = record { len = 39; has_source = true; addr = codes "10.0.0.7"; port = 51000 }

parse_runs :
    (parse net (codes "PROXY TCP4 10.0.0.7 10.0.0.7 51000 80" ++ 13 ∷ 10 ∷ codes "GET")
      ≡ done found)
    × (parse net (codes "PROXY TCP4 10.0.0.7 10.0.0.7 51000 80 " ++ 13 ∷ 10 ∷ []) ≡ bad)
    × (parse net (codes "PROXY TCP4 10.0.0.7 10.0.0.7 51000 65536" ++ 13 ∷ 10 ∷ []) ≡ bad)
    × (parse net (codes "PROXY TCP4 10.0.0.7 10.0.0.7 51000 80" ++ 10 ∷ []) ≡ bad)
    × (parse net (codes "PROXY TC") ≡ need_more)
    × (parse net (codes "PROXI") ≡ bad)
    × (parse net (codes "GET / HTTP/1.1") ≡ bad)
unfolding parse pton_one ntop_one equal
parse_runs = (refl, refl, refl, refl, refl, refl, refl)

-- A NUL hides the rest of an address.
parse_nul :
    parse net (codes "PROXY TCP4 10.0.0.7" ++ 0 ∷ codes "x 10.0.0.7 51000 80" ++ 13 ∷ 10 ∷ [])
    ≡ done (record found { len = 41 })
unfolding parse pton_one ntop_one equal
parse_nul = refl

line_holds : parse net (Text.print_line sent) ≡ done found
unfolding parse pton_one ntop_one equal
line_holds = refl

parse-exact_example :
    ((9 < 39) × (parse net (codes "PROXY TCP") ≡ need_more))
    ⊎ ((39 ≤ 9) × (parse net (codes "PROXY TCP") ≡ done found))
parse-exact_example =
    parse-exact net (codes "PROXY TCP") (codes "4 10.0.0.7 10.0.0.7 51000 80" ++ 13 ∷ 10 ∷ []) found
      line_holds

text_meant : Text.IsAddress net inet (codes "10.0.0.7") (10 ∷ 0 ∷ 0 ∷ 7 ∷ [])
unfolding pton_one equal
text_meant = record {
  clean = (refl, (refl, (refl, (refl, (refl, (refl, (refl, (refl, tt))))))));
  some_byte = omega arith;
  short = omega arith;
  meaning = refl;
}

source_number : Text.IsPort (codes "51000")
source_number = record {
  digits = (refl, (refl, (refl, (refl, (refl, tt)))));
  some_digit = omega arith;
  short = omega arith;
  small = omega arith;
}

target_number : Text.IsPort (codes "80")
target_number = record {
  digits = (refl, (refl, tt));
  some_digit = omega arith;
  short = omega arith;
  small = omega arith;
}

sent_holds : Text.IsSent net sent (10 ∷ 0 ∷ 0 ∷ 7 ∷ []) (10 ∷ 0 ∷ 0 ∷ 7 ∷ [])
sent_holds = record {
  source = text_meant;
  target = text_meant;
  source_port = source_number;
  target_port = target_number;
  fits = omega arith;
}

ntop_holds : net.ntop inet (10 ∷ 0 ∷ 0 ∷ 7 ∷ []) ≡ some (codes "10.0.0.7")
unfolding ntop_one equal
ntop_holds = refl

parse-print_line_example :
    parse net (Text.print_line sent ++ codes "GET") ≡ done (header sent (codes "10.0.0.7"))
parse-print_line_example =
    parse-print_line net sent (10 ∷ 0 ∷ 0 ∷ 7 ∷ []) (10 ∷ 0 ∷ 0 ∷ 7 ∷ []) (codes "10.0.0.7")
      (codes "GET") sent_holds ntop_holds

abbrev sent_block : Binary.Sent
sent_block = record {
  family = inet;
  src = 10 ∷ 0 ∷ 0 ∷ 7 ∷ [];
  dst = 10 ∷ 0 ∷ 0 ∷ 1 ∷ [];
  sport = 51000;
  dport = 80;
  tlvs = 4 ∷ 0 ∷ 0 ∷ [];
}

parse-print_block_example :
    parse net (Binary.print_block sent_block ++ codes "GET")
    ≡ done (Binary.header sent_block (codes "10.0.0.7"))
parse-print_block_example =
    parse-print_block net sent_block (codes "10.0.0.7") (codes "GET")
      (record { source = refl; target = refl; fits = omega arith }) ntop_holds
