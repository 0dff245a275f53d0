-- ===== src/HttpClient/Body/Bytewise/Payload.antt =====
-- The reference machine over a run of payload bytes.
use php_fpm_ng.Base.{
  ℕ, suc, ◌-◌, ◌≤◌, ◌<◌, [], ◌∷◌, ◌++◌, ◌≡◌, ◌≢◌, refl, ◌∙◌, arith, append_assoc, append-nil, Bytes,
  length,
}
use php_fpm_ng.HttpClient.Body.{
  Mode, cl, chunk_size, chunk_data, chunk_crlf, trailers, eof, State, done, more,
}
use php_fpm_ng.HttpClient.Body.Bytewise.{next, move, run}

abbrev pub at : Mode → ℕ → Bytes → Bytes → State
at m r l o = record { mode = m; remaining = r; line = l; out = o }

abbrev pub IsPayload : Mode → Type 0
IsPayload cl = Unit
IsPayload chunk_data = Unit
IsPayload _ = ⊥

move-payload :
    (m : Mode) (r c : ℕ) (l o : Bytes)
    → IsPayload m
    → 2 ≤ r
    → move m (at m r l o) c ≡ next (at m (r - 1) l (o ++ c ∷ []))
unfolding move
move-payload cl r c l o p h = ground arith
move-payload chunk_data r c l o p h = ground arith
move-payload chunk_size r c l o p h = absurd p
move-payload chunk_crlf r c l o p h = absurd p
move-payload trailers r c l o p h = absurd p
move-payload eof r c l o p h = absurd p

move-payload_suc :
    (m : Mode) (k c : ℕ) (l o : Bytes)
    → IsPayload m
    → 1 ≤ k
    → move m (at m (suc k) l o) c ≡ next (at m k l (o ++ c ∷ []))
move-payload_suc m k c l o p h =
    let e : suc k - 1 ≡ k = omega arith in move-payload m (suc k) c l o p (omega arith) ∙ rw e refl

run-next :
    (st st' : State) (c : ℕ) (s : Bytes) → move st.mode st c ≡ next st' → run st (c ∷ s) ≡ run st' s
unfolding run
run-next st st' c s e = rw (e, run) refl

-- Fewer bytes than remain.
pub run-payload_part :
    (t rest : Bytes) (m : Mode) (r : ℕ) (l o : Bytes)
    → IsPayload m
    → length t < r
    → run (at m r l o) (t ++ rest) ≡ run (at m (r - length t) l (o ++ t)) rest
run-payload_part [] rest m r l o p h = rw (append-nil o, minus-zero r) refl
  where
    minus-zero : (n : ℕ) → n - 0 ≡ n
    minus-zero n = omega arith
run-payload_part (c ∷ t) rest m r l o p h =
    let e : r - 1 - length t ≡ r - suc (length t) = omega arith in
    run-next (at m r l o) (at m (r - 1) l (o ++ c ∷ [])) c (t ++ rest)
      (move-payload m r c l o p (omega arith))
    ∙ run-payload_part t rest m (r - 1) l (o ++ c ∷ []) p (omega arith)
    ∙ rw (append_assoc, e) refl

-- The last byte of a Content-Length body.
run-cl_last :
    (c : ℕ) (rest l o : Bytes) → run (at cl 1 l o) (c ∷ rest) ≡ done (at cl 0 l (o ++ c ∷ [])) rest
unfolding run
run-cl_last c rest l o = refl

run-data_last :
    (c : ℕ) (rest l o : Bytes)
    → run (at chunk_data 1 l o) (c ∷ rest) ≡ run (at chunk_crlf 0 l (o ++ c ∷ [])) rest
unfolding run
run-data_last c rest l o = refl

-- The bytes that remain, all of them.
pub run-cl_all :
    (t rest l o : Bytes)
    → t ≢ []
    → run (at cl (length t) l o) (t ++ rest) ≡ done (at cl 0 l (o ++ t)) rest
run-cl_all [] rest l o n = absurd (n refl)
run-cl_all (c ∷ []) rest l o n = run-cl_last c rest l o
run-cl_all (c ∷ d ∷ t) rest l o n =
    run-next (at cl (length (c ∷ d ∷ t)) l o) (at cl (length (d ∷ t)) l (o ++ c ∷ [])) c
      (d ∷ (t ++ rest)) (move-payload_suc cl (length (d ∷ t)) c l o tt (omega arith))
    ∙ run-cl_all (d ∷ t) rest l (o ++ c ∷ []) (λ e. cc)
    ∙ rw append_assoc refl

pub run-data_all :
    (t rest l o : Bytes)
    → t ≢ []
    → run (at chunk_data (length t) l o) (t ++ rest) ≡ run (at chunk_crlf 0 l (o ++ t)) rest
run-data_all [] rest l o n = absurd (n refl)
run-data_all (c ∷ []) rest l o n = run-data_last c rest l o
run-data_all (c ∷ d ∷ t) rest l o n =
    run-next (at chunk_data (length (c ∷ d ∷ t)) l o)
      (at chunk_data (length (d ∷ t)) l (o ++ c ∷ [])) c (d ∷ (t ++ rest))
      (move-payload_suc chunk_data (length (d ∷ t)) c l o tt (omega arith))
    ∙ run-data_all (d ∷ t) rest l (o ++ c ∷ []) (λ e. cc)
    ∙ rw append_assoc refl

-- A close-delimited body is handed on as it comes.
pub run-eof :
    (t : Bytes) (r : ℕ) (l o : Bytes) → run (at eof r l o) t ≡ more (at eof r l (o ++ t)) []
unfolding run
run-eof [] r l o = rw append-nil refl
run-eof (c ∷ t) r l o = run-eof t r l (o ++ c ∷ []) ∙ rw append_assoc refl
