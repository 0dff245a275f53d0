-- ===== src/Drain/Moves.antt =====
-- A gateway over time.
use php_fpm_ng.Base.{ℕ, ◌≡◌, Bool, true, Option, none, some}
use php_fpm_ng.CrashBackoff.Time.{Timeval}
use php_fpm_ng.Drain.{
  Listener, Gateway, Env, drain_start, drain_soft_start, drain_ticks, sigquit, accept_error, resume,
  gate, accepting, tls_listener_hook,
}

-- One handler: a signal, a timer that is armed, an open listener that fails, or a new certificate.
pub data Step : Gateway → Gateway → Type 0 where
  quits : (env : Env) (gw : Gateway) → Step gw (sigquit env gw)
  softens : (env hard : Env) (gw : Gateway) → Step gw (drain_soft_start env hard gw)
  window_ends :
      (env : Env) (wait : Timeval) (gw : Gateway)
      → gw.soft_timer ≡ some wait
      → Step gw (drain_start env gw)
  ticks :
      (busy : ℕ) (now : Timeval) (gw : Gateway)
      → gw.drain_tick ≡ true
      → Step gw (drain_ticks busy now gw)
  tls_fails :
      (added : Bool) (now : ℕ) (l : Listener) (gw : Gateway)
      → gw.tls_bound ≡ some l
      → l.enabled ≡ true
      → Step gw (record gw { tls_bound = some (accept_error added now l) })
  plain_fails :
      (added : Bool) (now : ℕ) (l : Listener) (gw : Gateway)
      → gw.plain_bound ≡ some l
      → l.enabled ≡ true
      → Step gw (record gw { plain_bound = some (accept_error added now l) })
  tls_resumes :
      (conns : Option Bool) (l : Listener) (gw : Gateway)
      → gw.tls_bound ≡ some l
      → l.pending ≡ true
      → Step gw (record gw { tls_bound = some (resume (accepting conns gw) l) })
  plain_resumes :
      (conns : Option Bool) (l : Listener) (gw : Gateway)
      → gw.plain_bound ≡ some l
      → l.pending ≡ true
      → Step gw (record gw { plain_bound = some (resume (accepting conns gw) l) })
  gates : (conns : Option Bool) (gw : Gateway) → Step gw (gate conns gw)
  opens :
      (conns : Option Bool) (opened installed : Bool) (gw : Gateway)
      → gw.tls_bound ≡ none
      → Step gw (tls_listener_hook conns opened installed gw)

pub data Steps : Gateway → Gateway → Type 0 where
  stay : (gw : Gateway) → Steps gw gw
  then_steps : {a b c : Gateway} → Step a b → Steps b c → Steps a c
