-- ===== src/Backpressure/Tests.antt =====
-- Runs of a response to a slow client.
use php_fpm_ng.Base.{ℕ, ◌≡◌, refl, true, false, List, [], ◌∷◌, arith}
use php_fpm_ng.Backpressure.{Limits, Response, Piece, read_chunks, drains, minrate_fire}
use php_fpm_ng.Backpressure.Bounded.{IsHeld, stay, then_steps, reads, takes, Steps-IsHeld}

abbrev limits : Limits
limits = record { response_buffer = 1100; response_min_rate = 100 }

-- A head of 150 bytes is written.
abbrev begun : Response
begun = record {
  outlen = 150;
  chunk_lost = false;
  bytes_out = 0;
  read_paused = false;
  has_timer = false;
  clock = false;
  minrate_last_outlen = 0;
  reading = true;
  deadline = true;
  responses_paused_total = 4;
  responses_paused = 2;
  cut = false;
}

begun-IsHeld : IsHeld limits 150 2 16384 begun
begun-IsHeld = record {
  flows = λ e. omega arith;
  held = omega arith;
  waits = λ e. absurd (cc);
  stopped = refl;
  clock_held = refl;
  gauge = refl;
}

abbrev piece : ℕ → Piece
piece n = record { len = n; framing = 7; buffered = true; timer_made = true }

-- The second piece pauses the upstream, and the third of the same read is still queued.
abbrev read_pieces : List Piece
read_pieces = piece 900 ∷ piece 200 ∷ piece 700 ∷ []

runs :
    ((read_chunks limits read_pieces begun).outlen ≡ 1971)
    × ((read_chunks limits read_pieces begun).reading ≡ false)
    × ((read_chunks limits read_pieces begun).responses_paused ≡ 3)
    × ((read_chunks limits read_pieces begun).minrate_last_outlen ≡ 1264)
    × ((drains true 1971 (read_chunks limits read_pieces begun)).reading ≡ true)
    × ((drains true 1971 (read_chunks limits read_pieces begun)).responses_paused ≡ 2)
unfolding read_chunks drains
runs = (refl, refl, refl, refl, refl, refl)

-- 600 bytes in five seconds are more than 100 a second, but the connection is cut: the bytes that
-- were queued behind the pause are charged to the client.
queued_behind_pause :
    (minrate_fire limits (drains true 600 (read_chunks limits read_pieces begun))).cut ≡ true
unfolding read_chunks drains minrate_fire
queued_behind_pause = refl

Steps-IsHeld_example :
    IsHeld limits 150 2 16384 (drains true 600 (read_chunks limits read_pieces begun))
Steps-IsHeld_example =
    Steps-IsHeld limits 150 2 16384 begun (drains true 600 (read_chunks limits read_pieces begun))
      (omega arith) begun-IsHeld
      (then_steps (reads read_pieces begun (omega arith) refl)
        (then_steps (takes true 600 (read_chunks limits read_pieces begun)) (stay _)))
