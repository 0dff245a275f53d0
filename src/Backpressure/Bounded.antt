-- ===== src/Backpressure/Bounded.antt =====
-- A slow client holds a bounded part of the response, and a pause ends.
use php_fpm_ng.Base.{
  ℕ, ◌+◌, ◌≤◌, ◌≡◌, Bool, true, false, not, ◌&&◌, ◌||◌, List, [], ◌∷◌, arith, if◌then◌else◌,
}
use php_fpm_ng.Backpressure.{
  Limits, Response, Piece, on_output, chunk, read_chunks, response_resume, drains, minrate_fire,
}

abbrev pub total : List Piece → ℕ
total [] = 0
total (p ∷ ps) = on_output p + total ps

abbrev one_if : Bool → ℕ
one_if b = if b then 1 else 0

-- With `before` bytes in front and `most` for a read at most: the bytes that wait, the events of a pause, and its gauge.
pub record IsHeld (limits : Limits) (before others most : ℕ) (r : Response) : Type 0 where
  pub flows : r.read_paused ≡ false → r.outlen ≤ limits.response_buffer + before
  pub held : r.outlen ≤ limits.response_buffer + before + most
  pub waits : r.read_paused ≡ true → 1 ≤ r.outlen
  pub stopped : (r.read_paused && (r.reading || r.deadline)) ≡ false
  pub clock_held : (r.clock && not r.read_paused) ≡ false
  pub gauge : r.responses_paused ≡ others + one_if r.read_paused

-- In the middle of a read: `left` bytes at most are still to come of it.
record IsReading (limits : Limits) (before others most left : ℕ) (r : Response) : Type 0 where
  flows : r.read_paused ≡ false → r.outlen ≤ limits.response_buffer + before
  held : r.outlen + left ≤ limits.response_buffer + before + most
  waits : r.read_paused ≡ true → 1 ≤ r.outlen
  stopped : (r.read_paused && (r.reading || r.deadline)) ≡ false
  clock_held : (r.clock && not r.read_paused) ≡ false
  gauge : r.responses_paused ≡ others + one_if r.read_paused

chunk-IsReading :
    (limits : Limits) (before others most left : ℕ) (p : Piece) (r : Response)
    → 1 ≤ limits.response_buffer
    → IsReading limits before others most (on_output p + left) r
    → IsReading limits before others most left (chunk limits p r)
unfolding chunk
chunk-IsReading limits before others most left p r b h =
    let f = h.flows in
    let e = h.held in
    let w = h.waits in
    let s = h.stopped in
    let c = h.clock_held in
    let g = h.gauge in
    record {
      flows = ground arith;
      held = ground arith;
      waits = ground arith;
      stopped = ground arith;
      clock_held = ground arith;
      gauge = ground arith;
    }

read_chunks-IsReading :
    (limits : Limits) (before others most : ℕ) (ps : List Piece) (r : Response)
    → 1 ≤ limits.response_buffer
    → IsReading limits before others most (total ps) r
    → IsReading limits before others most 0 (read_chunks limits ps r)
unfolding read_chunks
read_chunks-IsReading limits before others most [] r b h = h
read_chunks-IsReading limits before others most (p ∷ ps) r b h =
    read_chunks-IsReading limits before others most ps (chunk limits p r) b
      (chunk-IsReading limits before others most (total ps) p r b h)

IsHeld-read :
    (limits : Limits) (before others most : ℕ) (ps : List Piece) (r : Response)
    → 1 ≤ limits.response_buffer
    → total ps ≤ most
    → r.reading ≡ true
    → IsHeld limits before others most r
    → IsHeld limits before others most (read_chunks limits ps r)
IsHeld-read limits before others most ps r b t o h =
    let s = h.stopped in
    let n : r.read_paused ≡ false = ground arith in
    let f = h.flows n in
    let k = read_chunks-IsReading limits before others most ps r b (record {
      flows = h.flows;
      held = omega (arith, f, t);
      waits = h.waits;
      stopped = h.stopped;
      clock_held = h.clock_held;
      gauge = h.gauge;
    }) in
    record {
      flows = k.flows;
      held = (let e = k.held in omega arith);
      waits = k.waits;
      stopped = k.stopped;
      clock_held = k.clock_held;
      gauge = k.gauge;
    }

drains-IsHeld :
    (limits : Limits) (before others most n : ℕ) (alive : Bool) (r : Response)
    → IsHeld limits before others most r
    → IsHeld limits before others most (drains alive n r)
unfolding drains response_resume
drains-IsHeld limits before others most n alive r h =
    let f = h.flows in
    let e = h.held in
    let w = h.waits in
    let s = h.stopped in
    let c = h.clock_held in
    let g = h.gauge in
    record {
      flows = ground arith;
      held = ground arith;
      waits = ground arith;
      stopped = ground arith;
      clock_held = ground arith;
      gauge = ground arith;
    }

minrate_fire-IsHeld :
    (limits : Limits) (before others most : ℕ) (r : Response)
    → IsHeld limits before others most r
    → IsHeld limits before others most (minrate_fire limits r)
unfolding minrate_fire
minrate_fire-IsHeld limits before others most r h =
    let f = h.flows in
    let e = h.held in
    let w = h.waits in
    let s = h.stopped in
    let g = h.gauge in
    record {
      flows = ground arith;
      held = ground arith;
      waits = ground arith;
      stopped = ground arith;
      clock_held = ground arith;
      gauge = ground arith;
    }

-- A read whose pieces put at most `most` bytes on the output, the client that takes bytes, or the timer of the minimum rate.
pub data Step (limits : Limits) (most : ℕ) : Response → Response → Type 0 where
  reads :
      (ps : List Piece) (r : Response)
      → total ps ≤ most
      → r.reading ≡ true
      → Step limits most r (read_chunks limits ps r)
  takes : (alive : Bool) (n : ℕ) (r : Response) → Step limits most r (drains alive n r)
  fires : (r : Response) → r.clock ≡ true → Step limits most r (minrate_fire limits r)

pub data Steps (limits : Limits) (most : ℕ) : Response → Response → Type 0 where
  stay : (r : Response) → Steps limits most r r
  then_steps :
      {a b c : Response} → Step limits most a b → Steps limits most b c → Steps limits most a c

Step-IsHeld :
    (limits : Limits) (before others most : ℕ) (a b : Response)
    → 1 ≤ limits.response_buffer
    → Step limits most a b
    → IsHeld limits before others most a
    → IsHeld limits before others most b
Step-IsHeld limits before others most a b l (reads ps r t o) h =
    IsHeld-read limits before others most ps r l t o h
Step-IsHeld limits before others most a b l (takes alive n r) h =
    drains-IsHeld limits before others most n alive r h
Step-IsHeld limits before others most a b l (fires r c) h =
    minrate_fire-IsHeld limits before others most r h

-- With a response buffer that is not 0, and with `before` bytes on the output of the client when the
-- head of the reply is written, that head among them: if the pieces of one read put at most `most`
-- bytes on the output, with the framing of the chunks, then at most `response_buffer + before + most`
-- bytes wait there while the response lasts. The upstream is not read and its deadline does not run
-- in a pause, the clock of the minimum rate runs only in one, and a pause counts once in the gauge
-- and has bytes whose end it waits for.
pub Steps-IsHeld :
    (limits : Limits) (before others most : ℕ) (a b : Response)
    → 1 ≤ limits.response_buffer
    → IsHeld limits before others most a
    → Steps limits most a b
    → IsHeld limits before others most b
Steps-IsHeld limits before others most a b l h (stay r) = h
Steps-IsHeld limits before others most a b l h (then_steps {a = x} {b = y} {c = z} s t) =
    Steps-IsHeld limits before others most y z l (Step-IsHeld limits before others most x y l s h) t
