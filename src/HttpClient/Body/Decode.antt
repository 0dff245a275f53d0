-- ===== src/HttpClient/Body/Decode.antt =====
-- A chunked body is decoded to the payload of its chunks.
use php_fpm_ng.Base.{
  all_of, ap, ℕ, ◌≤◌, true, false, some, List, [], ◌∷◌, ◌++◌, ◌≡◌, ◌≢◌, refl, ◌∙◌, arith, Bytes,
  leb, ◌==◌, if◌then◌else◌, length, append_assoc, append-nil,
}
use php_fpm_ng.HttpClient.Size.{
  size_max, is_hex, AllHex, EndsSize, hexadecimal, parse_size, parse_size-hexadecimal,
}
use php_fpm_ng.HttpClient.Body.{chunk_size, chunk_data, trailers, done, more, is_blank_line}
use php_fpm_ng.HttpClient.Body.Bytewise.{run}
use php_fpm_ng.HttpClient.Body.Bytewise.Payload.{at, run-data_all}
use php_fpm_ng.HttpClient.Body.Bytewise.Text.{IsLine, run-line, run-size, run-trailer, run-crlf}
use php_fpm_ng.HttpClient.Body.Pieces.{body_reads, ReadsFit, body_reads-run}

-- The size in hexadecimal, an extension, and the payload.
pub record Chunk : Type 0 where
  pub digits : Bytes
  pub extension : Bytes
  pub payload : Bytes

-- A size line, without its newline.
abbrev pub size_text : Bytes → Bytes → Bytes
size_text digits extension = digits ++ (extension ++ b'\r' ∷ [])

pub record SizeIsValid (digits extension : Bytes) (n : ℕ) : Type 0 where
  pub ne_nil : digits ≢ []
  pub hex : AllHex digits
  pub ends : EndsSize (extension ++ b'\r' ∷ [])
  pub line : IsLine extension
  pub value : hexadecimal 0 digits ≡ n
  pub fits : n ≤ size_max

pub record ChunkIsValid (c : Chunk) : Type 0 where
  pub size : SizeIsValid c.digits c.extension (length c.payload)
  pub filled : c.payload ≢ []

abbrev pub AllChunks : List Chunk → Type 0
AllChunks [] = Unit
AllChunks (c ∷ cs) = ChunkIsValid c × AllChunks cs

-- The chunks, in front of what follows them.
abbrev pub chunk_text : List Chunk → Bytes → Bytes
chunk_text [] rest = rest
chunk_text (c ∷ cs) rest =
    size_text c.digits c.extension ++ (b'\n' ∷ (c.payload ++ (b'\r' ∷ b'\n' ∷ chunk_text cs rest)))

abbrev pub payloads : List Chunk → Bytes
payloads [] = []
payloads (c ∷ cs) = c.payload ++ payloads cs

-- Trailer lines and the blank line, in front of what follows them.
abbrev pub trailer_text : List Bytes → Bytes → Bytes
trailer_text [] rest = b'\r' ∷ b'\n' ∷ rest
trailer_text (t ∷ ts) rest = (t ++ b'\r' ∷ []) ++ (b'\n' ∷ trailer_text ts rest)

abbrev pub AllTrailers : List Bytes → Type 0
AllTrailers [] = Unit
AllTrailers (t ∷ ts) = IsLine t × (t ≢ []) × AllTrailers ts

-- The whole body: the chunks, the zero chunk and the trailers.
abbrev pub body_text : List Chunk → Bytes → Bytes → List Bytes → Bytes → Bytes
body_text cs digits extension ts rest =
    chunk_text cs (size_text digits extension ++ (b'\n' ∷ trailer_text ts rest))

IsLine-append : (s t : Bytes) → IsLine s → IsLine t → IsLine (s ++ t)
IsLine-append [] t a b = b
IsLine-append (c ∷ s) t (e, a) b = (e, IsLine-append s t a b)

AllHex-IsLine : (s : Bytes) → AllHex s → IsLine s
AllHex-IsLine [] a = tt
AllHex-IsLine (c ∷ s) (h, a) = (hex-not_newline c h, AllHex-IsLine s a)
  where
    hex-not_newline : (d : ℕ) → is_hex d ≡ true → (d == b'\n') ≡ false
    hex-not_newline d k = ground arith

size_text-IsLine : (ds ext : Bytes) {n : ℕ} → SizeIsValid ds ext n → IsLine (size_text ds ext)
size_text-IsLine ds ext v =
    IsLine-append ds (ext ++ b'\r' ∷ []) (AllHex-IsLine ds v.hex)
      (IsLine-append ext (b'\r' ∷ []) v.line (refl, tt))

size_text-value :
    (ds ext : Bytes) {n : ℕ} → SizeIsValid ds ext n → parse_size (size_text ds ext) ≡ some n
size_text-value ds ext v =
    let fits : leb (hexadecimal 0 ds) size_max ≡ true = ground (arith, v) in
    parse_size-hexadecimal ds (ext ++ b'\r' ∷ []) v.ne_nil v.hex v.ends ∙ rw (fits, v.value) refl

run-size_text :
    (ds ext rest o : Bytes) (r n : ℕ)
    → SizeIsValid ds ext n
    → run (at chunk_size r [] o) (size_text ds ext ++ (b'\n' ∷ rest))
      ≡ run (at (if n == 0 then trailers else chunk_data) n [] o) rest
run-size_text ds ext rest o r n v =
    run-line (size_text ds ext) (b'\n' ∷ rest) chunk_size r [] o tt (size_text-IsLine ds ext v)
    ∙ run-size rest r n (size_text ds ext) o (size_text-value ds ext v)

length-ne_zero : (s : Bytes) → s ≢ [] → (length s == 0) ≡ false
length-ne_zero [] h = absurd (h refl)
length-ne_zero (c ∷ s) h = ground arith

run-chunk_text :
    (cs : List Chunk) (rest o : Bytes) (r : ℕ)
    → AllChunks cs
    → (r' : ℕ) × (run (at chunk_size r [] o) (chunk_text cs rest)
        ≡ run (at chunk_size r' [] (o ++ payloads cs)) rest)
run-chunk_text [] rest o r v = (r, rw append-nil refl)
run-chunk_text (c ∷ cs) rest o r (v, vs) =
    let behind = b'\r' ∷ b'\n' ∷ chunk_text cs rest in
    let (r', e) = run-chunk_text cs rest (o ++ c.payload) 0 vs in
    let nonzero = length-ne_zero c.payload v.filled in
    (
      r',
      run-size_text c.digits c.extension (c.payload ++ behind) o r (length c.payload) v.size
          ∙ rw nonzero (run-data_all c.payload behind [] o v.filled)
          ∙ run-crlf (chunk_text cs rest) 0 (o ++ c.payload)
          ∙ e
          ∙ rw append_assoc refl,
    )

not_blank : (t : Bytes) → t ≢ [] → is_blank_line (t ++ b'\r' ∷ []) ≡ false
not_blank [] h = absurd (h refl)
not_blank (c ∷ []) h = refl
not_blank (c ∷ d ∷ t) h = refl

run-trailer_text :
    (ts : List Bytes) (rest o : Bytes) (r : ℕ)
    → AllTrailers ts
    → run (at trailers r [] o) (trailer_text ts rest) ≡ done (at trailers r [] o) rest
run-trailer_text [] rest o r v =
    run-line (b'\r' ∷ []) (b'\n' ∷ rest) trailers r [] o tt (refl, tt)
    ∙ run-trailer rest r (b'\r' ∷ []) o
run-trailer_text (t ∷ ts) rest o r (l, n, vs) =
    run-line (t ++ b'\r' ∷ []) (b'\n' ∷ trailer_text ts rest) trailers r [] o tt
      (IsLine-append t (b'\r' ∷ []) l (refl, tt))
    ∙ run-trailer (trailer_text ts rest) r (t ++ b'\r' ∷ []) o
    ∙ rw (not_blank t n) (run-trailer_text ts rest o r vs)

-- The reads of a body give the bytes of well-formed chunks, a zero chunk, trailers and what follows
-- them. If at each read the part of a line that is held and the new bytes have at most 16 KiB
-- together, then the decoder hands on exactly the payload of the chunks, in order, ends at the blank
-- line behind the zero chunk and its trailers, and leaves the bytes behind that unread.
pub body_reads-body_text :
    (cs : List Chunk) (digits extension : Bytes) (ts : List Bytes) (rest o : Bytes) (r : ℕ)
    (pieces : List Bytes)
    → AllChunks cs
    → SizeIsValid digits extension 0
    → AllTrailers ts
    → all_of pieces ≡ body_text cs digits extension ts rest
    → ReadsFit (more (at chunk_size r [] o) []) pieces
    → body_reads (more (at chunk_size r [] o) []) pieces
      ≡ done (at trailers 0 [] (o ++ payloads cs)) rest
unfolding run
body_reads-body_text cs digits extension ts rest o r pieces v z t a h =
    let tail = trailer_text ts rest in
    let (r', e) = run-chunk_text cs (size_text digits extension ++ (b'\n' ∷ tail)) o r v in
    body_reads-run pieces (at chunk_size r [] o) [] h
    ∙ ap (run (at chunk_size r [] o)) a
    ∙ e
    ∙ run-size_text digits extension tail (o ++ payloads cs) r' 0 z
    ∙ run-trailer_text ts rest (o ++ payloads cs) 0 t
