-- ===== src/Drain/Sound.antt =====
-- What holds of a gateway in every state that it reaches.
use php_fpm_ng.Base.{
  ℕ, ◌≡◌, ◌≢◌, refl, sym, Bool, true, false, not, ◌&&◌, ◌||◌, Option, none, some, arith, ◌==◌, ◌∙◌,
  if_holds,
}
use php_fpm_ng.CrashBackoff.Time.{Timeval, earlier}
use php_fpm_ng.Drain.{
  Listener, Gateway, Env, drain_start, drain_soft_start, soften, drain_ticks, sigquit, accept_error,
  resume, listener_set, on_bound, gate, accepting, opened_listener, tls_listener_hook,
}
use php_fpm_ng.Drain.Moves.{
  Step, quits, softens, window_ends, ticks, tls_fails, plain_fails, tls_resumes, plain_resumes,
  gates, opens, Steps, stay, then_steps,
}

-- A listener is closed while it is paused, and a pause has a timer that ends it.
abbrev pub Rests : Listener → Type 0
Rests l =
    ((l.paused && l.enabled) ≡ false)
    × (l.paused ≡ l.pending)
    × ((l.paused && not l.has_entry) ≡ false)

abbrev pub AllRest : Option Listener → Type 0
AllRest none = Unit
AllRest (some l) = Rests l

-- A gateway that stops has no listener left, and ticks or has left its loop; one in its window has
-- the timer that ends it.
pub record IsSound (gw : Gateway) : Type 0 where
  pub tls_rests : AllRest gw.tls_bound
  pub plain_rests : AllRest gw.plain_bound
  pub tls_closed : gw.stopping ≡ true → gw.tls_bound ≡ none
  pub plain_closed : gw.stopping ≡ true → gw.plain_bound ≡ none
  pub runs_out : gw.stopping ≡ true → (gw.drain_tick || not gw.looping) ≡ true
  pub window : (gw.soft_draining && not gw.stopping) ≡ true → gw.soft_timer ≢ none

accept_error-Rests :
    (added : Bool) (now : ℕ) (l : Listener)
    → l.enabled ≡ true
    → Rests l
    → Rests (accept_error added now l)
unfolding accept_error
accept_error-Rests added now l e (a, b, c) = ground arith

resume-Rests : (may : Bool) (l : Listener) → Rests (resume may l)
unfolding resume
resume-Rests may l = (refl, refl, refl)

listener_set-Rests : (on : Bool) (l : Listener) → Rests l → Rests (listener_set on l)
listener_set-Rests on l (a, b, c) = ground arith

on_bound-AllRest :
    (on : Bool) (o : Option Listener) → AllRest o → AllRest (on_bound (listener_set on) o)
on_bound-AllRest on none h = tt
on_bound-AllRest on (some l) h = listener_set-Rests on l h

pub drain_start-IsSound : (env : Env) (gw : Gateway) → IsSound gw → IsSound (drain_start env gw)
unfolding drain_start
drain_start-IsSound env gw h =
    if_holds IsSound gw.stopping _ _ (λ y. h)
      (λ x. record {
        tls_rests = tt;
        plain_rests = tt;
        tls_closed = λ _. refl;
        plain_closed = λ _. refl;
        runs_out = λ _. ground arith;
        window = λ e. absurd (ground arith);
      })

sigquit-IsSound : (env : Env) (gw : Gateway) → IsSound gw → IsSound (sigquit env gw)
unfolding sigquit
sigquit-IsSound env gw h =
    if_holds IsSound (gw.soft_draining && not gw.stopping) _ _ (λ y. h)
      (λ x. drain_start-IsSound env gw h)

soft_timer-IsSound :
    (gw : Gateway) (deadline : Timeval) (o : Option Timeval)
    → IsSound gw
    → gw.stopping ≡ false
    → o ≢ none
    → IsSound (record gw { soft_draining = true; drain_deadline = deadline; soft_timer = o })
soft_timer-IsSound gw deadline o h x n = record {
  tls_rests = h.tls_rests;
  plain_rests = h.plain_rests;
  tls_closed = h.tls_closed;
  plain_closed = h.plain_closed;
  runs_out = h.runs_out;
  window = λ e. n;
}

drain_ticks-IsSound :
    (busy : ℕ) (now : Timeval) (gw : Gateway) → IsSound gw → IsSound (drain_ticks busy now gw)
unfolding drain_ticks
drain_ticks-IsSound busy now gw h =
    let out : IsSound (record gw { looping = false }) = record {
      tls_rests = h.tls_rests;
      plain_rests = h.plain_rests;
      tls_closed = h.tls_closed;
      plain_closed = h.plain_closed;
      runs_out = λ e. ground arith;
      window = h.window;
    } in
    if_holds IsSound (busy == 0) _ _ (λ y. out)
      (λ x. if_holds IsSound (earlier now gw.drain_deadline) _ _ (λ y. h) (λ z. out))

-- The window's timer that fails: the hard drain starts from a state that is not sound by itself.
fallback-IsSound :
    (env hard : Env) (gw : Gateway)
    → gw.stopping ≡ false
    → IsSound (drain_start hard (record (soften env gw) { soft_timer = none }))
unfolding drain_start
fallback-IsSound env hard gw x =
    if_holds IsSound gw.stopping _ _ (λ y. absurd (cc))
      (λ z. record {
        tls_rests = tt;
        plain_rests = tt;
        tls_closed = λ _. refl;
        plain_closed = λ _. refl;
        runs_out = λ _. ground arith;
        window = λ e. absurd (ground arith);
      })

drain_soft_start-IsSound :
    (env hard : Env) (gw : Gateway) → IsSound gw → IsSound (drain_soft_start env hard gw)
unfolding drain_soft_start
drain_soft_start-IsSound env hard gw h =
    if_holds IsSound (gw.stopping || gw.soft_draining) _ _ (λ y. h)
      (λ x.
        let s : gw.stopping ≡ false = ground arith in
        if_holds IsSound (env.made && env.added) _ _ (λ y. soft_timer-IsSound gw _ _ h s (λ e. cc))
          (λ z. fallback-IsSound env hard gw s))

tls-IsSound :
    (gw : Gateway) (o : Option Listener)
    → IsSound gw
    → AllRest o
    → (gw.stopping ≡ true → o ≡ none)
    → IsSound (record gw { tls_bound = o })
tls-IsSound gw o h r n = record {
  tls_rests = r;
  plain_rests = h.plain_rests;
  tls_closed = n;
  plain_closed = h.plain_closed;
  runs_out = h.runs_out;
  window = h.window;
}

plain-IsSound :
    (gw : Gateway) (o : Option Listener)
    → IsSound gw
    → AllRest o
    → (gw.stopping ≡ true → o ≡ none)
    → IsSound (record gw { plain_bound = o })
plain-IsSound gw o h r n = record {
  tls_rests = h.tls_rests;
  plain_rests = r;
  tls_closed = h.tls_closed;
  plain_closed = n;
  runs_out = h.runs_out;
  window = h.window;
}

gate-IsSound : (conns : Option Bool) (gw : Gateway) → IsSound gw → IsSound (gate conns gw)
unfolding gate
gate-IsSound none gw h = h
gate-IsSound (some may) gw h =
    if_holds IsSound gw.stopping _ _ (λ y. h)
      (λ x. record {
        tls_rests = on_bound-AllRest may gw.tls_bound h.tls_rests;
        plain_rests = on_bound-AllRest may gw.plain_bound h.plain_rests;
        tls_closed = λ e. absurd (cc);
        plain_closed = λ e. absurd (cc);
        runs_out = h.runs_out;
        window = h.window;
      })

opens-IsSound :
    (conns : Option Bool) (opened installed : Bool) (gw : Gateway)
    → IsSound gw
    → IsSound (tls_listener_hook conns opened installed gw)
unfolding tls_listener_hook
opens-IsSound conns opened installed gw h =
    if_holds IsSound (gw.stopping || not opened) _ _ (λ y. h)
      (λ x.
        let s : gw.stopping ≡ false = ground arith in
        gate-IsSound conns _ (
          tls-IsSound gw (some (opened_listener installed)) h (refl, refl, refl)
            (λ e. absurd (cc))))

Rests-at : (o : Option Listener) (l : Listener) → o ≡ some l → AllRest o → Rests l
Rests-at none l e h = absurd (cc)
Rests-at (some m) l e h = let q : m ≡ l = cc in rw (← q) h

closed_at :
    (b : Bool) (o : Option Listener) (l : Listener) (c : Option Listener)
    → o ≡ some l
    → (b ≡ true → o ≡ none)
    → b ≡ true
    → c ≡ none
closed_at b o l c e k t = let q = k t in absurd (let r : some l ≡ none = sym e ∙ q in cc)

Step-IsSound : (a b : Gateway) → Step a b → IsSound a → IsSound b
Step-IsSound a b (quits env gw) h = sigquit-IsSound env gw h
Step-IsSound a b (softens env hard gw) h = drain_soft_start-IsSound env hard gw h
Step-IsSound a b (window_ends env wait gw e) h = drain_start-IsSound env gw h
Step-IsSound a b (ticks busy now gw e) h = drain_ticks-IsSound busy now gw h
Step-IsSound a b (tls_fails added now l gw e o) h =
    tls-IsSound gw _ h (accept_error-Rests added now l o (Rests-at gw.tls_bound l e h.tls_rests))
      (closed_at gw.stopping gw.tls_bound l _ e h.tls_closed)
Step-IsSound a b (plain_fails added now l gw e o) h =
    plain-IsSound gw _ h
      (accept_error-Rests added now l o (Rests-at gw.plain_bound l e h.plain_rests))
      (closed_at gw.stopping gw.plain_bound l _ e h.plain_closed)
Step-IsSound a b (tls_resumes conns l gw e p) h =
    tls-IsSound gw _ h (resume-Rests (accepting conns gw) l)
      (closed_at gw.stopping gw.tls_bound l _ e h.tls_closed)
Step-IsSound a b (plain_resumes conns l gw e p) h =
    plain-IsSound gw _ h (resume-Rests (accepting conns gw) l)
      (closed_at gw.stopping gw.plain_bound l _ e h.plain_closed)
Step-IsSound a b (gates conns gw) h = gate-IsSound conns gw h
Step-IsSound a b (opens conns opened installed gw e) h = opens-IsSound conns opened installed gw h

-- Whatever signals, timers, failures and certificates come, in any order, a sound gateway stays one.
pub Steps-IsSound : (a b : Gateway) → Steps a b → IsSound a → IsSound b
Steps-IsSound a b (stay gw) h = h
Steps-IsSound a b (then_steps {a = x} {b = y} {c = z} s t) h =
    Steps-IsSound y z t (Step-IsSound x y s h)
