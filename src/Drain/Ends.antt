-- ===== src/Drain/Ends.antt =====
-- The end of a gateway that has started to drain.
use php_fpm_ng.Base.{
  ℕ, ◌+◌, ◌*◌, ◌≤◌, ◌≡◌, refl, Bool, true, false, not, ◌&&◌, ◌||◌, Option, none, some, arith, ◌==◌,
  if_holds,
}
use php_fpm_ng.CrashBackoff.Time.{Timeval, micros, IsNormal, earlier}
use php_fpm_ng.Drain.{
  Gateway, Env, grace_ms, deadline_at, drain_start, drain_soft_start, drain_ticks, sigquit, gate,
  tls_listener_hook,
}
use php_fpm_ng.Drain.Deadline.{deadline_at-micros}
use php_fpm_ng.Drain.Moves.{
  Step, quits, softens, window_ends, ticks, tls_fails, plain_fails, tls_resumes, plain_resumes,
  gates, opens, Steps, stay, then_steps,
}
use php_fpm_ng.Drain.Sound.{IsSound, drain_start-IsSound, Steps-IsSound}

-- The gateway stops, with the deadline `d`.
abbrev Keeps : Timeval → Gateway → Type 0
Keeps d gw = (gw.stopping ≡ true) × (gw.drain_deadline ≡ d)

drain_start-Keeps :
    (d : Timeval) (env : Env) (gw : Gateway) → Keeps d gw → Keeps d (drain_start env gw)
unfolding drain_start
drain_start-Keeps d env gw (s, e) =
    if_holds (Keeps d) gw.stopping _ _ (λ y. (s, e)) (λ x. absurd (cc))

sigquit-Keeps : (d : Timeval) (env : Env) (gw : Gateway) → Keeps d gw → Keeps d (sigquit env gw)
unfolding sigquit
sigquit-Keeps d env gw h =
    if_holds (Keeps d) (gw.soft_draining && not gw.stopping) _ _ (λ y. h)
      (λ x. drain_start-Keeps d env gw h)

drain_soft_start-Keeps :
    (d : Timeval) (env hard : Env) (gw : Gateway)
    → Keeps d gw
    → Keeps d (drain_soft_start env hard gw)
unfolding drain_soft_start
drain_soft_start-Keeps d env hard gw (s, e) =
    if_holds (Keeps d) (gw.stopping || gw.soft_draining) _ _ (λ y. (s, e))
      (λ x. absurd (ground arith))

drain_ticks-Keeps :
    (d : Timeval) (busy : ℕ) (now : Timeval) (gw : Gateway)
    → Keeps d gw
    → Keeps d (drain_ticks busy now gw)
unfolding drain_ticks
drain_ticks-Keeps d busy now gw h =
    if_holds (Keeps d) (busy == 0) _ _ (λ y. h)
      (λ x. if_holds (Keeps d) (earlier now gw.drain_deadline) _ _ (λ y. h) (λ z. h))

gate-Keeps :
    (d : Timeval) (conns : Option Bool) (gw : Gateway) → Keeps d gw → Keeps d (gate conns gw)
unfolding gate
gate-Keeps d none gw h = h
gate-Keeps d (some may) gw h = if_holds (Keeps d) gw.stopping _ _ (λ y. h) (λ x. h)

opens-Keeps :
    (d : Timeval) (conns : Option Bool) (opened installed : Bool) (gw : Gateway)
    → Keeps d gw
    → Keeps d (tls_listener_hook conns opened installed gw)
unfolding tls_listener_hook
opens-Keeps d conns opened installed gw h =
    if_holds (Keeps d) (gw.stopping || not opened) _ _ (λ y. h) (λ x. gate-Keeps d conns _ h)

Step-Keeps : (d : Timeval) (a b : Gateway) → Step a b → Keeps d a → Keeps d b
Step-Keeps d a b (quits env gw) h = sigquit-Keeps d env gw h
Step-Keeps d a b (softens env hard gw) h = drain_soft_start-Keeps d env hard gw h
Step-Keeps d a b (window_ends env wait gw e) h = drain_start-Keeps d env gw h
Step-Keeps d a b (ticks busy now gw e) h = drain_ticks-Keeps d busy now gw h
Step-Keeps d a b (tls_fails added now l gw e o) h = h
Step-Keeps d a b (plain_fails added now l gw e o) h = h
Step-Keeps d a b (tls_resumes conns l gw e p) h = h
Step-Keeps d a b (plain_resumes conns l gw e p) h = h
Step-Keeps d a b (gates conns gw) h = gate-Keeps d conns gw h
Step-Keeps d a b (opens conns opened installed gw e) h = opens-Keeps d conns opened installed gw h

Steps-Keeps : (d : Timeval) (a b : Gateway) → Steps a b → Keeps d a → Keeps d b
Steps-Keeps d a b (stay gw) h = h
Steps-Keeps d a b (then_steps {a = x} {b = y} {c = z} s t) h =
    Steps-Keeps d y z t (Step-Keeps d x y s h)

drain_start-starts :
    (env : Env) (gw : Gateway)
    → gw.stopping ≡ false
    → Keeps (deadline_at env.timeout env.now) (drain_start env gw)
unfolding drain_start
drain_start-starts env gw x =
    if_holds (Keeps (deadline_at env.timeout env.now)) gw.stopping _ _ (λ y. absurd (cc))
      (λ z. (refl, refl))

drain_ticks-leaves :
    (busy : ℕ) (now : Timeval) (gw : Gateway)
    → earlier now gw.drain_deadline ≡ false
    → (drain_ticks busy now gw).looping ≡ false
unfolding drain_ticks
drain_ticks-leaves busy now gw x =
    if_holds (λ (g : Gateway). g.looping ≡ false) (busy == 0) _ _ (λ y. refl)
      (λ z.
        if_holds (λ (g : Gateway). g.looping ≡ false) (earlier now gw.drain_deadline) _ _
          (λ y. absurd (cc)) (λ w. refl))

not_earlier_of_le :
    (a b : Timeval) → IsNormal a → IsNormal b → micros a ≤ micros b → earlier b a ≡ false
unfolding earlier
not_earlier_of_le a b h k l = ground arith

-- Whatever happens after a drain has started, in any order, the gateway has no listener, goes on
-- ticking until it leaves, and the first tick at or after the end of the grace makes it leave.
pub drain_start-ends :
    (env : Env) (gw b : Gateway) (busy : ℕ) (now : Timeval)
    → IsSound gw
    → gw.stopping ≡ false
    → IsNormal env.now
    → IsNormal now
    → micros env.now + grace_ms env.timeout * 1000 ≤ micros now
    → Steps (drain_start env gw) b
    → (b.tls_bound ≡ none)
      × (b.plain_bound ≡ none)
      × ((b.drain_tick || not b.looping) ≡ true)
      × ((drain_ticks busy now b).looping ≡ false)
drain_start-ends env gw b busy now h x n m l steps =
    let sound = Steps-IsSound (drain_start env gw) b steps (drain_start-IsSound env gw h) in
    let d = deadline_at env.timeout env.now in
    let (s, e) = Steps-Keeps d (drain_start env gw) b steps (drain_start-starts env gw x) in
    let (f, k) = deadline_at-micros env.timeout env.now n in
    let past : earlier now b.drain_deadline ≡ false =
      rw e (not_earlier_of_le d now k m (omega (arith, f, l))) in
    (sound.tls_closed s, sound.plain_closed s, sound.runs_out s, drain_ticks-leaves busy now b past)
