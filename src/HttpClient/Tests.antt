-- ===== src/HttpClient/Tests.antt =====
-- The theorems on the upstream's response at concrete inputs, and runs of the body parser.
use php_fpm_ng.Base.{
  true, false, ◌++◌, ◌≡◌, refl, none, some, List, [], ◌∷◌, arith, Bytes, codes, equal_case,
}
use php_fpm_ng.HttpClient.Size.{size_max, parse_size}
use php_fpm_ng.HttpClient.Body.{cl, chunk_size, chunk_data, trailers, State, done, more, bad, body}
use php_fpm_ng.HttpClient.Body.Bytewise.{run}
use php_fpm_ng.HttpClient.Body.Bytewise.Payload.{at}
use php_fpm_ng.HttpClient.Body.Falls.{body-run}
use php_fpm_ng.HttpClient.Body.Pieces.{resume, body-append, body_reads}
use php_fpm_ng.HttpClient.Body.Decode.{Chunk, SizeIsValid, AllChunks, body_reads-body_text}
use php_fpm_ng.HttpClient.Header.{token_in, value_ulong, content_length, header_dropped}

abbrev start : State
start = at chunk_size 0 [] []

abbrev wiki : Bytes
wiki = codes "4\r\nWiki\r\n5;x=1\r\npedia\r\n0\r\n\r\nHTTP"

body_runs :
    (body start wiki ≡ done (at trailers 0 [] (codes "Wikipedia")) (codes "HTTP"))
    × (body start (codes "4\r\nWi") ≡ more (at chunk_data 2 [] (codes "Wi")) [])
    × (body start (codes "zz\r\n") ≡ bad [])
    × (body start (codes "1\r\naX") ≡ bad (codes "a"))
    × (body (at cl 3 [] []) (codes "abcdef") ≡ done (at cl 0 [] (codes "abc")) (codes "def"))
unfolding body parse_size
body_runs = (refl, refl, refl, refl, refl)

body-run_example : body start wiki ≡ run start wiki
body-run_example = body-run start wiki (omega arith)

body-append_example :
    body start (codes "4\r" ++ codes "\nWiki") ≡ resume (body start (codes "4\r")) (codes "\nWiki")
body-append_example = body-append start (codes "4\r") (codes "\nWiki") (omega arith)

abbrev chunks : List Chunk
chunks =
    record { digits = codes "4"; extension = []; payload = codes "Wiki" }
    ∷ record { digits = codes "5"; extension = codes ";x=1"; payload = codes "pedia" }
    ∷ []

chunks-AllChunks : AllChunks chunks
chunks-AllChunks = (
  record {
    size = record {
      ne_nil = λ e. cc;
      hex = ground arith;
      ends = refl;
      line = ground arith;
      value = refl;
      fits = omega arith;
    };
    filled = λ e. cc;
  },
  (
    record {
      size = record {
        ne_nil = λ e. cc;
        hex = ground arith;
        ends = refl;
        line = ground arith;
        value = refl;
        fits = omega arith;
      };
      filled = λ e. cc;
    },
    tt,
  ),
)

zero-SizeIsValid : SizeIsValid (codes "0") [] 0
zero-SizeIsValid = record {
  ne_nil = λ e. cc;
  hex = ground arith;
  ends = refl;
  line = tt;
  value = refl;
  fits = omega arith;
}

-- A size line and a CRLF are cut.
abbrev wiki_reads : List Bytes
wiki_reads =
    codes "4\r"
    ∷ codes "\nWiki\r"
    ∷ codes "\n5;x=1\r\nped"
    ∷ codes "ia\r\n0\r\n\r\nHT"
    ∷ codes "TP"
    ∷ []

body_reads-body_text_example :
    body_reads (more start []) wiki_reads
    ≡ done (at trailers 0 [] (codes "Wikipedia")) (codes "HTTP")
unfolding body parse_size
body_reads-body_text_example =
    body_reads-body_text chunks (codes "0") [] [] (codes "HTTP") [] 0 wiki_reads chunks-AllChunks
      zero-SizeIsValid tt refl
      (omega arith, (omega arith, (omega arith, (omega arith, (omega arith, tt)))))

header_runs :
    (content_length (codes "5abc") ≡ none)
    × (content_length (codes "18446744073709551615") ≡ some size_max)
    × (content_length (codes "18446744073709551616") ≡ none)
    × (value_ulong (codes "5abc") ≡ 5)
    × (token_in (codes "keep-alive, Close") (codes "close") ≡ true)
    × (token_in (codes "keep-alive") (codes "live") ≡ false)
    × (header_dropped (codes "proxy-authenticate") ≡ true)
    × (header_dropped (codes "Server") ≡ false)
unfolding content_length value_ulong token_in header_dropped equal_case
header_runs = (refl, refl, refl, refl, refl, refl, refl, refl)
