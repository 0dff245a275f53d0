-- ===== src/Fcgi/Stream.antt =====
-- The parameters of a request as the receiver reads them: record by record, pairs in each.
pub mod Params
use php_fpm_ng.Base.{
  ℕ, zero, suc, ◌+◌, ◌-◌, ◌≤◌, ◌<◌, ◌≡◌, refl, sym, ◌∙◌, ap, Bool, true, false, inl, inr, Option,
  none, some, List, [], ◌∷◌, ◌++◌, append-nil, append_assoc, arith, Bytes, length, length-append,
  replicate, ltb, ◌==◌, if◌then◌else◌, Bool-cases,
}
use php_fpm_ng.Fcgi.{
  max_record_len, params_type, padding, fcgi_record, fcgi_len, Conn, len_size, pair_len, pair,
  param,
}
use php_fpm_ng.Fcgi.Decode.{read_record, read_record-fcgi_record, read_pair, read_pair-pair}

abbrev pub Pairs : Type 0
Pairs = List (Bytes × Bytes)

abbrev then_pairs : Pairs → Option Pairs → Option Pairs
then_pairs ps none = none
then_pairs ps (some qs) = some (ps ++ qs)

-- The pairs in the content of one record, on fuel.
pub read_pairs : ℕ → Bytes → Option Pairs
read_pairs f [] = some []
read_pairs zero (c ∷ s) = none
read_pairs (suc f) (c ∷ s) = elim (read_pair (c ∷ s)) [
  | none ↦ none
  | some (p, rest) ↦ then_pairs (p ∷ []) (read_pairs f rest)
]

abbrev join : Option Pairs → Option Pairs → Option Pairs
join none more = none
join (some ps) more = then_pairs ps more

-- The pairs of all records; no pair may straddle two of them.
pub read_stream : ℕ → Bytes → Option Pairs
unfolding read_pairs read_record
read_stream f [] = some []
read_stream zero (c ∷ s) = none
read_stream (suc f) (c ∷ s) = elim (read_record (c ∷ s)) [
  | none ↦ none
  | some (content, rest) ↦ join (read_pairs (length content) content) (read_stream f rest)
]

-- Read with fuel for each byte.
PairsOf : Bytes → Pairs → Type 0
PairsOf s ps = (f : ℕ) → length s ≤ f → read_pairs f s ≡ some ps

StreamOf : Bytes → Pairs → Type 0
StreamOf s ps = (f : ℕ) → length s ≤ f → read_stream f s ≡ some ps

read_pairs-cons :
    (f : ℕ) (s rest : Bytes) (p : Bytes × Bytes)
    → 1 ≤ length s
    → read_pair s ≡ some (p, rest)
    → read_pairs (suc f) s ≡ then_pairs (p ∷ []) (read_pairs f rest)
unfolding read_pairs
read_pairs-cons f [] rest p l e = absurd (omega arith)
read_pairs-cons f (c ∷ s) rest p l e = rw (read_pairs, e) refl

read_stream-cons :
    (f : ℕ) (s content rest : Bytes)
    → 1 ≤ length s
    → read_record s ≡ some (content, rest)
    → read_stream (suc f) s ≡ join (read_pairs (length content) content) (read_stream f rest)
unfolding read_stream
read_stream-cons f [] content rest l e = absurd (omega arith)
read_stream-cons f (c ∷ s) content rest l e = rw (read_stream, e) refl

fcgi_len-length : (n : ℕ) → length (fcgi_len n) ≡ len_size n
unfolding fcgi_len
fcgi_len-length n = ground arith

length-pair : (name value : Bytes) → length (pair name value) ≡ pair_len name value
unfolding pair
length-pair name value =
    let a = length-append (fcgi_len (length name)) (fcgi_len (length value) ++ (name ++ value)) in
    let b = length-append (fcgi_len (length value)) (name ++ value) in
    let c = length-append name value in
    let d = fcgi_len-length (length name) in let e = fcgi_len-length (length value) in omega arith

abbrev pub Fits : Bytes → Bytes → Type 0
Fits name value = pair_len name value ≤ max_record_len

pair-PairsOf :
    (name value s : Bytes) (ps : Pairs)
    → Fits name value
    → PairsOf s ps
    → PairsOf (pair name value ++ s) ((name, value) ∷ ps)
unfolding PairsOf
pair-PairsOf name value s ps h r zero l =
    let a = length-append (pair name value) s in
    let b = length-pair name value in absurd (ground arith)
pair-PairsOf name value s ps h r (suc f) l =
    let a = length-append (pair name value) s in
    let b = length-pair name value in
    let g : length s ≤ f = ground arith in
    read_pairs-cons f (pair name value ++ s) s (name, value) (ground arith)
      (read_pair-pair name value s (omega arith) (omega arith))
    ∙ ap (then_pairs ((name, value) ∷ [])) (r f g)

fcgi_record-length :
    (content : Bytes) → 8 + length content ≤ length (fcgi_record params_type content)
unfolding fcgi_record
fcgi_record-length content =
    let fill : Bytes = replicate (padding (length content)) 0 in
    let a : length (content ++ fill) ≡ length content + length fill = length-append content fill in
    omega arith

record-StreamOf :
    (content s : Bytes) (qs ps : Pairs)
    → length content ≤ max_record_len
    → PairsOf content qs
    → StreamOf s ps
    → StreamOf (fcgi_record params_type content ++ s) (qs ++ ps)
unfolding PairsOf StreamOf
record-StreamOf content s qs ps h p r zero l =
    let a = length-append (fcgi_record params_type content) s in
    let b = fcgi_record-length content in absurd (omega arith)
record-StreamOf content s qs ps h p r (suc f) l =
    let a = length-append (fcgi_record params_type content) s in
    let b = fcgi_record-length content in
    read_stream-cons f (fcgi_record params_type content ++ s) content s (omega arith)
      (read_record-fcgi_record content s (omega arith))
    ∙ ap (λ z. join z (read_stream f s)) (p (length content) (omega arith))
    ∙ ap (then_pairs qs) (r f (omega arith))
