-- ===== src/HttpClient/Body/Rounds.antt =====
-- Each round of `fpm_http_http_body` does what the reference machine does on the bytes that the
-- round reads.
use native.Mathlib.Decide.{dec_le}
use Prim.Native.Nat.{min}
use php_fpm_ng.Base.{
  ℕ, zero, suc, ◌+◌, ◌-◌, ◌≤◌, ◌<◌, false, Option, none, some, [], ◌∷◌, ◌++◌, ◌≡◌, ◌≢◌, refl, sym,
  ap, ◌∙◌, ◌⊎◌, inl, inr, arith, append-nil, Bytes, ltb, ◌==◌, length, take, drop, Bool-cases,
  Option-cases, length-append, take-append-drop, length-take,
}
use php_fpm_ng.HttpClient.Size.{parse_size}
use php_fpm_ng.HttpClient.Body.{
  Mode, cl, chunk_size, chunk_data, chunk_crlf, trailers, eof, State, Progress, done, more, Turn,
  again, stop, split_line, line_max, is_blank_line, take_size, turn_cl, turn_size, turn_data,
  turn_crlf, turn_trailers, turn,
}
use php_fpm_ng.HttpClient.Body.Bytewise.{crlf_byte, move, run}
use php_fpm_ng.HttpClient.Body.Bytewise.Payload.{
  at, run-payload_part, run-cl_all, run-data_all, run-eof,
}
use php_fpm_ng.HttpClient.Body.Bytewise.Text.{
  Splits, split_line-Splits, run-line, run-size, run-size_bad, run-trailer,
}

-- What the machine makes of what a round leaves.
abbrev pub finish : Turn → Progress
finish (stop r) = r
finish (again st buf) = run st buf

take_all : (xs : Bytes) → take (length xs) xs ≡ xs
take_all [] = refl
take_all (x ∷ xs) = ap (◌∷◌ x) (take_all xs)

drop_all : (xs : Bytes) → drop (length xs) xs ≡ []
drop_all [] = refl
drop_all (x ∷ xs) = drop_all xs

length-take_le : (r : ℕ) (xs : Bytes) → r ≤ length xs → length (take r xs) ≡ r
length-take_le r xs h = omega (arith, length-take r xs)

run_nil : (st : State) → run st [] ≡ more st []
unfolding run
run_nil st = refl

run-cl_zero : (c : ℕ) (s l o : Bytes) → run (at cl 0 l o) (c ∷ s) ≡ done (at cl 0 l o) (c ∷ s)
unfolding run move
run-cl_zero c s l o = refl

run-data_zero :
    (c : ℕ) (s l o : Bytes) → run (at chunk_data 0 l o) (c ∷ s) ≡ run (at chunk_crlf 0 l o) (c ∷ s)
unfolding run move crlf_byte
run-data_zero c s [] o = elim (Bool-cases (c == b'\r')) [
  | inl e ↦ rw (e, run) refl
  | inr n ↦ rw (n, run) refl
]
run-data_zero c s (x ∷ l) o = elim (Bool-cases (c == b'\n')) [
  | inl e ↦ rw (e, run) refl
  | inr n ↦ rw (n, run) refl
]

take-ne_nil : (r : ℕ) (c : ℕ) (s : Bytes) → take (suc r) (c ∷ s) ≢ []
take-ne_nil r c s = λ e. cc

run-cl_le :
    (r c : ℕ) (s l o : Bytes)
    → r ≤ length (c ∷ s)
    → run (at cl r l o) (c ∷ s) ≡ done (at cl 0 l (o ++ take r (c ∷ s))) (drop r (c ∷ s))
run-cl_le zero c s l o h = rw append-nil (run-cl_zero c s l o)
run-cl_le (suc r) c s l o h =
    let e : length (take (suc r) (c ∷ s)) ≡ suc r = length-take_le (suc r) (c ∷ s) h in
    ap (run (at cl (suc r) l o)) (sym (take-append-drop (suc r) (c ∷ s)))
    ∙ ap (λ n. run (at cl n l o) (take (suc r) (c ∷ s) ++ drop (suc r) (c ∷ s))) (sym e)
    ∙ run-cl_all (take (suc r) (c ∷ s)) (drop (suc r) (c ∷ s)) l o (take-ne_nil r c s)

run-data_le :
    (r c : ℕ) (s l o : Bytes)
    → r ≤ length (c ∷ s)
    → run (at chunk_data r l o) (c ∷ s)
      ≡ run (at chunk_crlf 0 l (o ++ take r (c ∷ s))) (drop r (c ∷ s))
run-data_le zero c s l o h = rw append-nil (run-data_zero c s l o)
run-data_le (suc r) c s l o h =
    let e : length (take (suc r) (c ∷ s)) ≡ suc r = length-take_le (suc r) (c ∷ s) h in
    ap (run (at chunk_data (suc r) l o)) (sym (take-append-drop (suc r) (c ∷ s)))
    ∙ ap (λ n. run (at chunk_data n l o) (take (suc r) (c ∷ s) ++ drop (suc r) (c ∷ s))) (sym e)
    ∙ run-data_all (take (suc r) (c ∷ s)) (drop (suc r) (c ∷ s)) l o (take-ne_nil r c s)

run-part_all :
    (m : Mode) (r : ℕ) (t l o : Bytes)
    → (m ≡ cl) ⊎ (m ≡ chunk_data)
    → length t < r
    → run (at m r l o) t ≡ more (at m (r - length t) l (o ++ t)) []
run-part_all m r t l o p h =
    ap (run (at m r l o)) (sym (append-nil t))
    ∙ run-payload_part t [] m r l o (elim p [ inl e ↦ rw e tt | inr e ↦ rw e tt ]) h
    ∙ run_nil (at m (r - length t) l (o ++ t))

turn_cl-run :
    (r c : ℕ) (s l o : Bytes) → run (at cl r l o) (c ∷ s) ≡ finish (turn_cl (at cl r l o) (c ∷ s))
unfolding turn_cl
turn_cl-run r c s l o = elim (dec_le r (length (c ∷ s))) [
  | yes p ↦
      let e : min r (suc (length s)) ≡ r = omega arith in
      let z : r - r ≡ 0 = omega arith in rw (e, z) (run-cl_le r c s l o p)
  | no p ↦
      let e : min r (suc (length s)) ≡ suc (length s) = omega arith in
      let z : ((r - suc (length s)) == 0) ≡ false = ground arith in
      rw (e, z, take_all s, drop_all s) (run-part_all cl r (c ∷ s) l o (inl refl) (omega arith))
]

turn_data-run :
    (r c : ℕ) (s l o : Bytes)
    → run (at chunk_data r l o) (c ∷ s) ≡ finish (turn_data (at chunk_data r l o) (c ∷ s))
unfolding turn_data
turn_data-run r c s l o = elim (dec_le r (length (c ∷ s))) [
  | yes p ↦
      let e : min r (suc (length s)) ≡ r = omega arith in
      let z : r - r ≡ 0 = omega arith in rw (e, z) (run-data_le r c s l o p)
  | no p ↦
      let e : min r (suc (length s)) ≡ suc (length s) = omega arith in
      let z : ((r - suc (length s)) == 0) ≡ false = ground arith in
      rw (e, z, take_all s, drop_all s)
        (run-part_all chunk_data r (c ∷ s) l o (inr refl) (omega arith))
]

turn_size-run :
    (r : ℕ) (buf l o : Bytes) (p : Option (Bytes × Bytes))
    → Splits buf p
    → length l + length buf ≤ line_max
    → run (at chunk_size r l o) buf ≡ finish (turn_size (at chunk_size r l o) buf p)
unfolding turn_size take_size
turn_size-run r buf l o none h b =
    let small : ltb line_max (length (l ++ buf)) ≡ false = ground (arith, length-append l buf) in
    rw small (
      ap (run (at chunk_size r l o)) (sym (append-nil buf))
      ∙ run-line buf [] chunk_size r l o tt h
      ∙ run_nil (at chunk_size r (l ++ buf) o))
turn_size-run r buf l o (some (a, t)) (h, e) b =
    ap (run (at chunk_size r l o)) e
    ∙ run-line a (b'\n' ∷ t) chunk_size r l o tt h
    ∙ elim (Option-cases (parse_size (l ++ a))) [
      | inl n ↦ rw n (run-size_bad t r (l ++ a) o n)
      | inr (k, n) ↦ rw n (run-size t r k (l ++ a) o n)
    ]

turn_trailers-run :
    (r : ℕ) (buf l o : Bytes) (p : Option (Bytes × Bytes))
    → Splits buf p
    → length l + length buf ≤ line_max
    → run (at trailers r l o) buf ≡ finish (turn_trailers (at trailers r l o) buf p)
unfolding turn_trailers
turn_trailers-run r buf l o none h b =
    let small : ltb line_max (length (l ++ buf)) ≡ false = ground (arith, length-append l buf) in
    rw small (
      ap (run (at trailers r l o)) (sym (append-nil buf))
      ∙ run-line buf [] trailers r l o tt h
      ∙ run_nil (at trailers r (l ++ buf) o))
turn_trailers-run r buf l o (some (a, t)) (h, e) b =
    let k : length buf ≡ length a + suc (length t) = ap length e ∙ length-append a (b'\n' ∷ t) in
    let small : ltb line_max (length (l ++ a)) ≡ false = ground (arith, length-append l a) in
    ap (run (at trailers r l o)) e
    ∙ run-line a (b'\n' ∷ t) trailers r l o tt h
    ∙ run-trailer t r (l ++ a) o
    ∙ elim (Bool-cases (is_blank_line (l ++ a))) [
      | inl y ↦ rw (small, y) refl
      | inr n ↦ rw (small, n) refl
    ]

turn_crlf-run :
    (r c : ℕ) (s l o : Bytes)
    → run (at chunk_crlf r l o) (c ∷ s) ≡ finish (turn_crlf l (c ∷ s) (at chunk_crlf r l o))
unfolding turn_crlf run move crlf_byte
turn_crlf-run r c s (x ∷ l) o = elim (Bool-cases (c == b'\n')) [
  | inl e ↦ rw (e, run) refl
  | inr n ↦ rw (n, run) refl
]
turn_crlf-run r c [] [] o = elim (Bool-cases (c == b'\r')) [
  | inl e ↦ rw (e, run) refl
  | inr n ↦ rw (n, run) refl
]
turn_crlf-run r c (d ∷ s) [] o = elim (Bool-cases (c == b'\r')) [
  | inl e ↦
      rw (e, run)
        (elim (Bool-cases (d == b'\n')) [ inl e' ↦ rw (e', run) refl | inr n' ↦ rw (n', run) refl ])
  | inr n ↦ rw (n, run) refl
]

-- One round agrees with the machine, as long as no line can pass the limit.
pub turn-run :
    (m : Mode) (r c : ℕ) (s l o : Bytes)
    → length l + length (c ∷ s) ≤ line_max
    → run (at m r l o) (c ∷ s) ≡ finish (turn m (at m r l o) (c ∷ s))
unfolding turn
turn-run cl r c s l o b = turn_cl-run r c s l o
turn-run chunk_size r c s l o b =
    turn_size-run r (c ∷ s) l o (split_line (c ∷ s)) (split_line-Splits (c ∷ s)) b
turn-run chunk_data r c s l o b = turn_data-run r c s l o
turn-run chunk_crlf r c s l o b = turn_crlf-run r c s l o
turn-run trailers r c s l o b =
    turn_trailers-run r (c ∷ s) l o (split_line (c ∷ s)) (split_line-Splits (c ∷ s)) b
turn-run eof r c s l o b = run-eof (c ∷ s) r l o
