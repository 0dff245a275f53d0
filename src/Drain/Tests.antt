-- ===== src/Drain/Tests.antt =====
-- Runs of a gateway that stops, and the theorems about it at concrete times.
use php_fpm_ng.Base.{◌+◌, ◌*◌, ◌≡◌, refl, true, false, not, ◌||◌, ◌⊎◌, none, some, arith, ◌<◌, ◌≤◌}
use php_fpm_ng.CrashBackoff.Time.{Timeval, cleared, micros}
use php_fpm_ng.Drain.{
  Gateway, Env, opened_listener, grace_ms, deadline_at, drain_start, drain_soft_start, drain_ticks,
  sigquit, accept_error, gate,
}
use php_fpm_ng.Drain.Moves.{stay, then_steps, quits, softens, gates}
use php_fpm_ng.Drain.Sound.{IsSound, Steps-IsSound}
use php_fpm_ng.Drain.Ends.{drain_start-ends}
use php_fpm_ng.Drain.Deadline.{drain_soft_start-window}

abbrev serving : Gateway
serving = record {
  stopping = false;
  soft_draining = false;
  drain_deadline = cleared;
  soft_timer = none;
  drain_tick = false;
  tls_bound = some (opened_listener true);
  plain_bound = some (opened_listener false);
  looping = true;
}

serving-IsSound : IsSound serving
serving-IsSound = record {
  tls_rests = (refl, refl, refl);
  plain_rests = (refl, refl, refl);
  tls_closed = λ e. absurd (cc);
  plain_closed = λ e. absurd (cc);
  runs_out = λ e. absurd (cc);
  window = λ e. absurd (cc);
}

-- Three seconds, from 10.5 s on.
abbrev env : Env
env = record {
  timeout = 3;
  now = record { tv_sec = 10; tv_usec = 500000 };
  later = record { tv_sec = 10; tv_usec = 500200 };
  made = true;
  added = true;
}

abbrev after : Timeval
after = record { tv_sec = 13; tv_usec = 400000 }

drain_runs :
    (deadline_at 3 env.now ≡ after)
    × (deadline_at 0 env.now ≡ env.now)
    × ((drain_soft_start env env serving).soft_timer
        ≡ some (record { tv_sec = 2; tv_usec = 899000 }))
    × ((drain_start env serving).tls_bound ≡ none)
    × ((drain_ticks 1 after (drain_start env serving)).looping ≡ false)
    × ((drain_ticks 1 env.later (drain_start env serving)).looping ≡ true)
    × ((accept_error true 7 (opened_listener true)).enabled ≡ false)
    × ((gate (some true) (record serving {
      tls_bound = some (accept_error true 7 (opened_listener true));
    })).tls_bound
        ≡ some (accept_error true 7 (opened_listener true)))
unfolding drain_soft_start drain_ticks accept_error gate
drain_runs = (refl, refl, refl, refl, refl, refl, refl, refl)

Steps-IsSound_example : IsSound (sigquit env (drain_soft_start env env serving))
Steps-IsSound_example =
    Steps-IsSound serving (sigquit env (drain_soft_start env env serving))
      (then_steps (softens env env serving)
        (then_steps (quits env (drain_soft_start env env serving)) (stay _)))
      serving-IsSound

abbrev drained : Gateway
drained = sigquit env (gate (some false) (drain_start env serving))

drain_start-ends_example :
    (drained.tls_bound ≡ none)
    × (drained.plain_bound ≡ none)
    × ((drained.drain_tick || not drained.looping) ≡ true)
    × ((drain_ticks 2 after drained).looping ≡ false)
unfolding grace_ms
drain_start-ends_example =
    drain_start-ends env serving drained 2 after serving-IsSound refl (omega arith) (omega arith)
      (omega arith)
      (then_steps (gates (some false) (drain_start env serving))
        (then_steps (quits env (gate (some false) (drain_start env serving))) (stay _)))

drain_soft_start-window_example :
    (wait : Timeval) × (drain_soft_start env env serving ≡ record serving {
      soft_draining = true;
      drain_deadline = deadline_at env.timeout env.now;
      soft_timer = some wait;
    })
    × ((micros env.later + micros wait ≤ micros env.now + grace_ms env.timeout * 1000)
        ⊎ (micros wait ≡ 0))
    × (micros env.now + grace_ms env.timeout * 1000 < micros env.later + micros wait + 1000)
    × (sigquit env (drain_soft_start env env serving) ≡ drain_soft_start env env serving)
drain_soft_start-window_example =
    drain_soft_start-window env env env serving (omega arith) (omega arith) (omega arith) refl refl
