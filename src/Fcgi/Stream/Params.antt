-- ===== src/Fcgi/Stream/Params.antt =====
-- `fpm_http_param`, over the parameters of a request.
pub mod Oversize
use php_fpm_ng.Base.{
  zero, suc, ◌+◌, ◌≤◌, ◌≡◌, refl, sym, ◌∙◌, ap, Bool, true, false, inl, inr, some, [], ◌∷◌, ◌++◌,
  append-nil, append_assoc, arith, Bytes, length, length-append, not, ◌&&◌, ◌||◌, leb, ltb, ◌==◌,
  Bool-cases,
}
use mathlib.Core.Path.{subst}
use php_fpm_ng.Fcgi.{max_record_len, params_type, fcgi_record, Conn, pair_len, pair, param, finish}
use php_fpm_ng.Fcgi.Stream.{
  Pairs, read_pairs, read_stream, PairsOf, StreamOf, length-pair, Fits, pair-PairsOf,
  record-StreamOf,
}

-- What is written so far reads as these pairs, in front of whatever is written next.
IsPairs : Bytes → Pairs → Type 0
IsPairs u qs = (s : Bytes) (ps : Pairs) → PairsOf s ps → PairsOf (u ++ s) (qs ++ ps)

IsStream : Bytes → Pairs → Type 0
IsStream u qs = (s : Bytes) (ps : Pairs) → StreamOf s ps → StreamOf (u ++ s) (qs ++ ps)

nil-PairsOf : PairsOf [] []
unfolding PairsOf read_pairs
nil-PairsOf zero l = refl
nil-PairsOf (suc f) l = refl

nil-StreamOf : StreamOf [] []
unfolding StreamOf read_stream
nil-StreamOf zero l = refl
nil-StreamOf (suc f) l = refl

nil-IsPairs : IsPairs [] []
unfolding IsPairs
nil-IsPairs s ps h = h

nil-IsStream : IsStream [] []
unfolding IsStream
nil-IsStream s ps h = h

pair-IsPairs :
    (name value : Bytes) → Fits name value → IsPairs (pair name value) ((name, value) ∷ [])
unfolding IsPairs
pair-IsPairs name value l s ps h = pair-PairsOf name value s ps l h

append-IsPairs :
    (u v : Bytes) (qs rs : Pairs) → IsPairs u qs → IsPairs v rs → IsPairs (u ++ v) (qs ++ rs)
unfolding IsPairs
append-IsPairs u v qs rs h k s ps r =
    rw (append_assoc u v s, append_assoc qs rs ps) (h (v ++ s) (rs ++ ps) (k s ps r))

append-IsStream :
    (u v : Bytes) (qs rs : Pairs) → IsStream u qs → IsStream v rs → IsStream (u ++ v) (qs ++ rs)
unfolding IsStream
append-IsStream u v qs rs h k s ps r =
    rw (append_assoc u v s, append_assoc qs rs ps) (h (v ++ s) (rs ++ ps) (k s ps r))

whole-PairsOf : (u : Bytes) (qs : Pairs) → IsPairs u qs → PairsOf u qs
unfolding IsPairs
whole-PairsOf u qs h =
    subst (λ z. PairsOf z qs) (append-nil u)
      (subst (λ z. PairsOf (u ++ []) z) (append-nil qs) (h [] [] nil-PairsOf))

whole-StreamOf : (u : Bytes) (qs : Pairs) → IsStream u qs → StreamOf u qs
unfolding IsStream
whole-StreamOf u qs h =
    subst (λ z. StreamOf z qs) (append-nil u)
      (subst (λ z. StreamOf (u ++ []) z) (append-nil qs) (h [] [] nil-StreamOf))

record-IsStream :
    (u : Bytes) (qs : Pairs)
    → length u ≤ max_record_len
    → IsPairs u qs
    → IsStream (fcgi_record params_type u) qs
unfolding IsStream
record-IsStream u qs l h s ps r = record-StreamOf u s qs ps l (whole-PairsOf u qs h) r

-- The pairs that are sent and those that wait, and none was too long.
Holds : Conn → Pairs → Type 0
Holds c ps =
    (qs : Pairs) × (rs : Pairs) × (ps ≡ qs ++ rs)
    × IsStream c.out qs
    × IsPairs c.params rs
    × (length c.params ≤ max_record_len)
    × (c.params_oversize ≡ false)

param-Holds :
    (c : Conn) (name value : Bytes) (ps : Pairs)
    → Fits name value
    → Holds c ps
    → Holds (param c name value) (ps ++ ((name, value) ∷ []))
unfolding Holds param
param-Holds c name value ps l (qs, rs, e, o, w, m, b) =
    let small : ltb max_record_len (pair_len name value) ≡ false = ground arith in
    let n = length-pair name value in
    let p : Pairs = (name, value) ∷ [] in
    elim (Bool-cases (ltb max_record_len (length c.params + pair_len name value))) [
      | inl full ↦
          rw (small, full)
            (
              ps,
              p,
              refl,
              subst (λ z. IsStream (c.out ++ fcgi_record params_type c.params) z) (sym e)
                  (append-IsStream c.out (fcgi_record params_type c.params) qs rs o
                    (record-IsStream c.params rs m w)),
              pair-IsPairs name value l,
              omega arith,
              b,
            )
      | inr room ↦
          let a = length-append c.params (pair name value) in
          rw (small, room)
            (
              qs,
              rs ++ p,
              ap (◌++ p) e ∙ append_assoc qs rs p,
              o,
              append-IsPairs c.params (pair name value) rs p w (pair-IsPairs name value l),
              ground arith,
              b,
            )
    ]

-- The parameters of a request, in order.
abbrev pub params_of : Conn → Pairs → Conn
params_of c [] = c
params_of c ((name, value) ∷ ps) = params_of (param c name value) ps

abbrev pub AllFit : Pairs → Type 0
AllFit [] = Unit
AllFit ((name, value) ∷ ps) = Fits name value × AllFit ps

abbrev pub no_params : Conn
no_params = record { params = []; out = []; params_oversize = false }

params_of-Holds :
    (c : Conn) (qs ps : Pairs) → AllFit ps → Holds c qs → Holds (params_of c ps) (qs ++ ps)
params_of-Holds c qs [] a h = subst (λ z. Holds c z) (sym (append-nil qs)) h
params_of-Holds c qs ((name, value) ∷ ps) (l, a) h =
    subst (λ z. Holds (params_of (param c name value) ps) z)
      (append_assoc qs ((name, value) ∷ []) ps)
      (params_of-Holds (param c name value) (qs ++ ((name, value) ∷ [])) ps a
        (param-Holds c name value qs l h))

no_params-Holds : Holds no_params []
unfolding Holds
no_params-Holds = ([], [], refl, nil-IsStream, nil-IsPairs, omega arith, refl)

nil-reads : (rs : Pairs) → PairsOf [] rs → rs ≡ []
unfolding PairsOf read_pairs
nil-reads rs p = let e : some [] ≡ some rs = p 0 (omega arith) in cc

-- Nothing reads as no pairs.
nothing_waits : (u : Bytes) (rs : Pairs) → IsPairs u rs → length u ≡ 0 → rs ≡ []
nothing_waits [] rs h e = nil-reads rs (whole-PairsOf [] rs h)
nothing_waits (c ∷ u) rs h e = absurd (omega arith)

finish-IsStream :
    (c : Conn) (qs rs : Pairs)
    → IsStream c.out qs
    → IsPairs c.params rs
    → length c.params ≤ max_record_len
    → IsStream (finish c) (qs ++ rs)
unfolding finish
finish-IsStream c qs rs o w m = elim (Bool-cases (length c.params == 0)) [
  | inl y ↦
      let e : rs ≡ [] = nothing_waits c.params rs w (ground arith) in
      rw (y, e)
        (append-IsStream c.out (fcgi_record params_type []) qs [] o
          (record-IsStream [] [] (omega arith) nil-IsPairs))
  | inr x ↦ rw x (
      subst
        (λ z.
          IsStream ((c.out ++ fcgi_record params_type c.params) ++ fcgi_record params_type []) z)
        (append-nil (qs ++ rs))
        (append-IsStream (c.out ++ fcgi_record params_type c.params) (fcgi_record params_type [])
          (qs ++ rs) []
          (append-IsStream c.out (fcgi_record params_type c.params) qs rs o
            (record-IsStream c.params rs m w))
          (record-IsStream [] [] (omega arith) nil-IsPairs)))
]

-- Parameters each of which fits a record are sent in records of the FastCGI protocol, whole in one
-- record each, and a receiver that decodes each record on its own reads exactly these names and
-- values, in order.
pub finish-read_stream :
    (ps : Pairs)
    → AllFit ps
    → read_stream (length (finish (params_of no_params ps))) (finish (params_of no_params ps))
      ≡ some ps
unfolding Holds StreamOf
finish-read_stream ps a =
    let c = params_of no_params ps in
    let (qs, rs, e, o, w, m, b) = params_of-Holds no_params [] ps a no_params-Holds in
    whole-StreamOf (finish c) (qs ++ rs) (finish-IsStream c qs rs o w m) (length (finish c))
      (omega arith)
    ∙ ap some (sym e)
