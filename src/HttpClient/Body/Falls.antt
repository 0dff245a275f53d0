-- ===== src/HttpClient/Body/Falls.antt =====
-- The loop of `fpm_http_http_body` ends, and with its fuel it agrees with the reference machine.
use Prim.Native.Nat.{min}
use php_fpm_ng.Base.{
  ℕ, zero, suc, ◌+◌, ◌-◌, ◌*◌, ◌≤◌, ◌<◌, ◌&&◌, Option, none, some, [], ◌∷◌, ◌++◌, ◌≡◌, refl, sym,
  ap, ◌∙◌, inl, inr, arith, Bytes, ltb, ◌==◌, length, Bool-cases, Option-cases, length-append,
  length-drop,
}
use php_fpm_ng.HttpClient.Size.{parse_size}
use php_fpm_ng.HttpClient.Body.{
  Mode, cl, chunk_size, chunk_data, chunk_crlf, trailers, eof, State, Progress, Turn, again, stop,
  split_line, line_max, is_blank_line, take_size, turn_cl, turn_size, turn_data, turn_crlf,
  turn_trailers, turn, body_loop, body,
}
use php_fpm_ng.HttpClient.Body.Bytewise.{run}
use php_fpm_ng.HttpClient.Body.Bytewise.Payload.{at}
use php_fpm_ng.HttpClient.Body.Bytewise.Text.{Splits, split_line-Splits}
use php_fpm_ng.HttpClient.Body.Rounds.{finish, turn-run}

-- Payload may be left behind for a round that reads nothing.
abbrev pad : Mode → ℕ
pad chunk_data = 1
pad _ = 0

abbrev pub measure : State → Bytes → ℕ
measure st buf = 2 * length buf + pad st.mode

-- A round that goes on has come nearer to the end, and holds no more bytes than before.
abbrev Falls : ℕ → ℕ → Turn → Type 0
Falls m n (again st buf) = (measure st buf < m) × (length st.line + length buf ≤ n)
Falls m n (stop r) = Unit

turn_data-Falls :
    (r c : ℕ) (s l o : Bytes)
    → Falls
        (2 * length (c ∷ s) + 1)
        (length l + length (c ∷ s))
        (turn_data (at chunk_data r l o) (c ∷ s))
unfolding turn_data
turn_data-Falls r c s l o = elim (Bool-cases ((r - min r (length (c ∷ s))) == 0)) [
  | inl e ↦ rw e (
    omega (arith, length-drop (min r (length (c ∷ s))) (c ∷ s)),
    omega (arith, length-drop (min r (length (c ∷ s))) (c ∷ s)),
  )
  | inr n ↦ rw n tt
]

turn_size-Falls :
    (r : ℕ) (buf l o : Bytes) (p : Option (Bytes × Bytes))
    → Splits buf p
    → Falls (2 * length buf) (length l + length buf) (turn_size (at chunk_size r l o) buf p)
unfolding turn_size take_size
turn_size-Falls r buf l o none h = elim (Bool-cases (ltb line_max (length (l ++ buf)))) [
  | inl e ↦ rw e tt
  | inr e ↦ rw e tt
]
turn_size-Falls r buf l o (some (a, t)) (h, e) =
    let k : length buf ≡ length a + suc (length t) = ap length e ∙ length-append a (b'\n' ∷ t) in
    elim (Option-cases (parse_size (l ++ a))) [
      | inl n ↦ rw n tt
      | inr (z, n) ↦ rw n (elim (Bool-cases (z == 0)) [
        | inl y ↦ rw y (omega arith, omega arith)
        | inr y ↦ rw y (omega arith, omega arith)
      ])
    ]

turn_trailers-Falls :
    (r : ℕ) (buf l o : Bytes) (p : Option (Bytes × Bytes))
    → Splits buf p
    → Falls (2 * length buf) (length l + length buf) (turn_trailers (at trailers r l o) buf p)
unfolding turn_trailers
turn_trailers-Falls r buf l o none h = elim (Bool-cases (ltb line_max (length (l ++ buf)))) [
  | inl e ↦ rw e tt
  | inr e ↦ rw e tt
]
turn_trailers-Falls r buf l o (some (a, t)) (h, e) =
    let k : length buf ≡ length a + suc (length t) = ap length e ∙ length-append a (b'\n' ∷ t) in
    elim (Bool-cases (ltb line_max (length (l ++ a)))) [
      | inl n ↦ rw n tt
      | inr n ↦ rw n (elim (Bool-cases (is_blank_line (l ++ a))) [
        | inl y ↦ rw y tt
        | inr y ↦ rw y (omega arith, omega arith)
      ])
    ]

turn_crlf-Falls :
    (r c : ℕ) (s l o : Bytes)
    → Falls
        (2 * length (c ∷ s))
        (length l + length (c ∷ s))
        (turn_crlf l (c ∷ s) (at chunk_crlf r l o))
unfolding turn_crlf
turn_crlf-Falls r c s (x ∷ l) o = elim (Bool-cases (c == b'\n')) [
  | inl e ↦ rw e (omega arith, omega arith)
  | inr n ↦ rw n tt
]
turn_crlf-Falls r c [] [] o = elim (Bool-cases (c == b'\r')) [ inl e ↦ rw e tt | inr n ↦ rw n tt ]
turn_crlf-Falls r c (d ∷ s) [] o = elim (Bool-cases (c == b'\r' && d == b'\n')) [
  | inl e ↦ rw e (omega arith, omega arith)
  | inr n ↦ rw n tt
]

turn_cl-Falls :
    (r c : ℕ) (s l o : Bytes)
    → Falls (2 * length (c ∷ s)) (length l + length (c ∷ s)) (turn_cl (at cl r l o) (c ∷ s))
unfolding turn_cl
turn_cl-Falls r c s l o = elim (Bool-cases ((r - min r (length (c ∷ s))) == 0)) [
  | inl e ↦ rw e tt
  | inr n ↦ rw n tt
]

Falls-weaken : (m m' n : ℕ) (t : Turn) → m ≤ m' → Falls m n t → Falls m' n t
Falls-weaken m m' n (again st buf) h (a, b) = (omega arith, b)
Falls-weaken m m' n (stop r) h f = tt

turn-Falls :
    (m : Mode) (r c : ℕ) (s l o : Bytes)
    → Falls (measure (at m r l o) (c ∷ s)) (length l + length (c ∷ s)) (turn m (at m r l o) (c ∷ s))
unfolding turn
turn-Falls cl r c s l o =
    Falls-weaken (2 * length (c ∷ s)) (measure (at cl r l o) (c ∷ s)) (length l + length (c ∷ s))
      (turn_cl (at cl r l o) (c ∷ s)) (omega arith) (turn_cl-Falls r c s l o)
turn-Falls chunk_size r c s l o =
    Falls-weaken (2 * length (c ∷ s)) (measure (at chunk_size r l o) (c ∷ s))
      (length l + length (c ∷ s)) (turn_size (at chunk_size r l o) (c ∷ s) (split_line (c ∷ s)))
      (omega arith) (turn_size-Falls r (c ∷ s) l o (split_line (c ∷ s)) (split_line-Splits (c ∷ s)))
turn-Falls chunk_data r c s l o = turn_data-Falls r c s l o
turn-Falls chunk_crlf r c s l o =
    Falls-weaken (2 * length (c ∷ s)) (measure (at chunk_crlf r l o) (c ∷ s))
      (length l + length (c ∷ s)) (turn_crlf l (c ∷ s) (at chunk_crlf r l o)) (omega arith)
      (turn_crlf-Falls r c s l o)
turn-Falls trailers r c s l o =
    Falls-weaken (2 * length (c ∷ s)) (measure (at trailers r l o) (c ∷ s))
      (length l + length (c ∷ s)) (turn_trailers (at trailers r l o) (c ∷ s) (split_line (c ∷ s)))
      (omega arith)
      (turn_trailers-Falls r (c ∷ s) l o (split_line (c ∷ s)) (split_line-Splits (c ∷ s)))
turn-Falls eof r c s l o = tt

body_loop_zero : (st : State) (f : ℕ) → body_loop f st [] ≡ run st []
unfolding body_loop run
body_loop_zero st f = refl

abbrev after : ℕ → Turn → Progress
after f (again st buf) = body_loop f st buf
after f (stop r) = r

body_loop-suc :
    (f : ℕ) (st : State) (c : ℕ) (s : Bytes)
    → body_loop (suc f) st (c ∷ s) ≡ after f (turn st.mode st (c ∷ s))
unfolding body_loop
body_loop-suc f st c s =
    elim (turn st.mode st (c ∷ s))
      as (λ t.
        elim t as (λ _. Progress) [ again st' buf' ↦ body_loop f st' buf' | stop r ↦ r ]
        ≡ after f t) [ again st' buf' ↦ refl | stop r ↦ refl ]

after-finish :
    (f m n : ℕ) (t : Turn)
    → ((st : State) (buf : Bytes)
        → length st.line + length buf ≤ n
        → measure st buf < m
        → body_loop f st buf ≡ run st buf)
    → Falls m n t
    → after f t ≡ finish t
after-finish f m n (again st buf) ih k = ih st buf k.1 k.0
after-finish f m n (stop r) ih k = refl

body_loop-run :
    (f : ℕ) (st : State) (buf : Bytes)
    → length st.line + length buf ≤ line_max
    → measure st buf < f
    → body_loop f st buf ≡ run st buf
body_loop-run f st [] b h = body_loop_zero st f
body_loop-run zero st (c ∷ s) b h = absurd (omega arith)
body_loop-run (suc f) st (c ∷ s) b h =
    body_loop-suc f st c s
    ∙ after-finish f (measure st (c ∷ s)) (length st.line + length (c ∷ s))
        (turn st.mode st (c ∷ s))
        (λ st' buf' b' h'. body_loop-run f st' buf' (omega arith) (omega arith))
        (turn-Falls st.mode st.remaining c s st.line st.out)
    ∙ sym (turn-run st.mode st.remaining c s st.line st.out b)

-- If the part of a line that is held and the new bytes have at most 16 KiB together,
-- `fpm_http_http_body` gives what a machine gives that reads one byte at a time, and its fuel is
-- enough.
pub body-run :
    (st : State) (buf : Bytes) → length st.line + length buf ≤ line_max → body st buf ≡ run st buf
unfolding body
body-run st buf b = body_loop-run (2 * length buf + 2) st buf b (pad_le st.mode)
  where
    pad_le : (m : Mode) → 2 * length buf + pad m < 2 * length buf + 2
    pad_le chunk_data = omega arith
    pad_le _ = omega arith
