-- ===== src/Drain.antt =====
-- How a gateway stops, and what keeps its listeners closed meanwhile: sapi/fpmng/fpm/fpm_http_drain.c,
-- the pause of a listener whose accept() fails in sapi/fpmng/fpm/fpm_http_accept_backoff.c, and the
-- handlers of sapi/fpmng/fpm/fpm_http_gw_proc.c that use them. The entry that the backoff keeps about
-- a listener, with its timer, stands in the listener: a gateway has two and the table four slots.
-- What libevent answers is an argument: whether a timer could be made and added, what an open
-- listener is, and how many connections are busy.
pub mod Deadline
pub mod Moves
pub mod Sound
pub mod Ends
mod Tests
use php_fpm_ng.Base.{
  ℕ, ◌+◌, ◌-◌, ◌*◌, ◌/◌, ◌%◌, ◌^◌, Bool, true, false, not, ◌&&◌, ◌||◌, Option, none, some, leb,
  ◌==◌, if◌then◌else◌,
}
use php_fpm_ng.CrashBackoff.Time.{Timeval, million, earlier, timersub}

-- `enabled` is the listener's own; `paused` and the pending timer are those of its entry.
pub record Listener : Type 0 where
  pub enabled : Bool
  pub has_entry : Bool
  pub paused : Bool
  pub pending : Bool
  pub last_log : ℕ
  pub suppressed : ℕ

-- The fields of `struct fpm_http_gateway_s` about the stop. `soft_timer` holds the time it waits;
-- `looping` is false after `event_base_loopbreak`.
pub record Gateway : Type 0 where
  pub stopping : Bool
  pub soft_draining : Bool
  pub drain_deadline : Timeval
  pub soft_timer : Option Timeval
  pub drain_tick : Bool
  pub tls_bound : Option Listener
  pub plain_bound : Option Listener
  pub looping : Bool

abbrev pub margin_ms : ℕ
margin_ms = 100

-- `grace_ms`; the subtraction stops at 0, where the code does.
unfoldable pub grace_ms : ℕ → ℕ
grace_ms timeout = timeout * 1000 - margin_ms

unfoldable pub deadline_at : ℕ → Timeval → Timeval
unfolding grace_ms
deadline_at timeout now =
    let sec = now.tv_sec + grace_ms timeout / 1000 in
    let usec = now.tv_usec + grace_ms timeout % 1000 * 1000 in
    if leb million usec
    then record { tv_sec = sec + 1; tv_usec = usec - million }
    else record { tv_sec = sec; tv_usec = usec }

unfoldable pub remaining_ms : Timeval → Timeval → ℕ
unfolding earlier timersub
remaining_ms deadline now =
    if earlier now deadline
    then (timersub deadline now).tv_sec * 1000 + (timersub deadline now).tv_usec / 1000
    else 0

-- `process_control_timeout`, the clock when the deadline is set and when it is read again, and
-- whether a timer can be made and added.
pub record Env : Type 0 where
  pub timeout : ℕ
  pub now : Timeval
  pub later : Timeval
  pub made : Bool
  pub added : Bool

unfoldable pub drain_start : Env → Gateway → Gateway
unfolding deadline_at
drain_start env gw = if gw.stopping then gw else record gw {
  stopping = true;
  drain_deadline = deadline_at env.timeout env.now;
  soft_timer = none;
  drain_tick = env.made && env.added;
  tls_bound = none;
  plain_bound = none;
  looping = gw.looping && (env.made && env.added);
}

abbrev pub wait_of : ℕ → Timeval
wait_of left_ms = record { tv_sec = left_ms / 1000; tv_usec = left_ms % 1000 * 1000 }

abbrev pub soften : Env → Gateway → Gateway
soften env gw = record gw { soft_draining = true; drain_deadline = deadline_at env.timeout env.now }

-- `hard` is about the timer of the hard drain, which starts where that of the window fails.
unfoldable pub drain_soft_start : Env → Env → Gateway → Gateway
unfolding remaining_ms deadline_at drain_start
drain_soft_start env hard gw =
    let wait = wait_of (remaining_ms (deadline_at env.timeout env.now) env.later) in
    if gw.stopping || gw.soft_draining
    then gw
    else if env.made && env.added
    then record (soften env gw) { soft_timer = some wait }
    else drain_start hard (record (soften env gw) { soft_timer = none })

-- `busy` is what the step of the drain leaves.
unfoldable pub drain_ticks : ℕ → Timeval → Gateway → Gateway
unfolding earlier
drain_ticks busy now gw =
    if busy == 0
    then record gw { looping = false }
    else if earlier now gw.drain_deadline
    then gw
    else record gw { looping = false }

unfoldable pub sigquit : Env → Gateway → Gateway
unfolding drain_start
sigquit env gw = if gw.soft_draining && not gw.stopping then gw else drain_start env gw

-- One line each ten seconds.
abbrev pub logged : ℕ → Listener → Listener
logged now l =
    if l.last_log == 0 || leb 10 (now - l.last_log)
    then record l { last_log = now; suppressed = 0 }
    else record l { suppressed = (l.suppressed + 1) % 2 ^ 64 }

-- The pause: with no timer the listener is put back.
unfoldable pub accept_error : Bool → ℕ → Listener → Listener
accept_error added now l =
    if not l.has_entry
    then l
    else if added
    then logged now (record l { enabled = false; paused = true; pending = true })
    else logged now (record l { enabled = true })

unfoldable pub resume : Bool → Listener → Listener
resume may_resume l = record l {
  enabled = l.enabled || may_resume;
  paused = false;
  pending = false;
}

abbrev pub listener_set : Bool → Listener → Listener
listener_set on l =
    if on
    then (if l.has_entry && l.paused then l else record l { enabled = true })
    else record l { enabled = false }

abbrev pub on_bound : (Listener → Listener) → Option Listener → Option Listener
on_bound f none = none
on_bound f (some l) = some (f l)

-- `conns` is what the cap on connections answers, and `none` without a cap.
unfoldable pub gate : Option Bool → Gateway → Gateway
gate none gw = gw
gate (some may_accept) gw = if gw.stopping then gw else record gw {
  tls_bound = on_bound (listener_set may_accept) gw.tls_bound;
  plain_bound = on_bound (listener_set may_accept) gw.plain_bound;
}

-- `fpm_http_gateway_accepting`; without a cap every connection may be accepted.
abbrev pub accepting : Option Bool → Gateway → Bool
accepting none gw = not gw.stopping
accepting (some may_accept) gw = not gw.stopping && may_accept

abbrev pub opened_listener : Bool → Listener
opened_listener installed = record {
  enabled = true;
  has_entry = installed;
  paused = false;
  pending = false;
  last_log = 0;
  suppressed = 0;
}

-- A certificate arrived: `opened` is whether the port could be bound, `installed` whether the
-- backoff has an entry for it.
unfoldable pub tls_listener_hook : Option Bool → Bool → Bool → Gateway → Gateway
unfolding gate
tls_listener_hook conns opened installed gw =
    if gw.stopping || not opened
    then gw
    else gate conns (record gw { tls_bound = some (opened_listener installed) })
