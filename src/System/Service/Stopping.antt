-- ===== src/System/Service/Stopping.antt =====
-- How the service uses its daemon: not before it is made, but after it is deleted.
use dns_wrapper.Common.{
  ℕ, ◌≡◌, ◌≢◌, refl, sym, ◌∙◌, Bool, Bool-cases, inl, inr, Result, fault, arith,
}
use dns_wrapper.System.Service.{
  Daemon, no_daemon, alive, deleted, Phase, idle, pending, initialised, reported, serving, ended,
  Handler, outside, stopping, deleting, Service, Event, executor_step, control, handler_step,
  on_daemon, step_executor, step_handler, call_handler, delivered, step, Reach,
}
use dns_wrapper.System.Service.Sound.{Quiet, IsSound, Reach-IsSound}

crash_lem :
    (d : Daemon) (r : Result Service)
    → d ≢ no_daemon
    → r ≢ fault
    → on_daemon d r ≡ fault
    → d ≡ deleted
crash_lem no_daemon r there good e = absurd (there refl)
crash_lem alive r there good e = absurd (good e)
crash_lem deleted r there good e = refl

executor_crash :
    (fails : Bool) (p : Phase) (s : Service)
    → Quiet p s
    → step_executor fails p s ≡ fault
    → s.daemon ≡ deleted
unfolding step_executor
executor_crash fails idle s q e = cc
executor_crash fails pending s q e = cc
executor_crash fails initialised s q e = cc
executor_crash fails reported s q e = crash_lem s.daemon _ q (λ f. cc) e
executor_crash fails serving s q e = crash_lem s.daemon _ q (λ f. ground arith) e
executor_crash fails ended s q e = cc

handler_crash :
    (h : Handler) (s : Service)
    → IsSound s
    → s.handler ≡ h
    → step_handler h s ≡ fault
    → s.daemon ≡ deleted
unfolding step_handler
handler_crash outside s sound at e = cc
handler_crash stopping s sound at e =
    crash_lem s.daemon _ (λ d. let out = sym at ∙ sound.idle_handler d in cc) (λ f. cc) e
handler_crash deleting s sound at e =
    crash_lem s.daemon _ (λ d. let out = sym at ∙ sound.idle_handler d in cc) (λ f. cc) e

call_crash : (c : ℕ) (h : Handler) (s : Service) → call_handler c h s ≢ fault
unfolding call_handler
call_crash c outside s = λ e. cc
call_crash c stopping s = λ e. cc
call_crash c deleting s = λ e. cc

-- In every interleaving of the two threads of the Windows service, with whatever controls, the
-- daemon is not used before it is made: a step that crashes uses a daemon that the handler has
-- deleted.
pub step-deleted : {s : Service} (e : Event) → Reach s → step e s ≡ fault → s.daemon ≡ deleted
unfolding step
step-deleted {s = s} (executor_step fails) r crash =
    executor_crash fails s.phase s (Reach-IsSound r).quiet crash
step-deleted {s = s} (control c) r crash = elim (Bool-cases (delivered c s.statuses)) [
  | inl sent ↦ absurd (call_crash c s.handler s (rw (step, sent) at crash))
  | inr held ↦ let never = rw (step, held) at crash in cc
]
step-deleted {s = s} handler_step r crash = handler_crash s.handler s (Reach-IsSound r) refl crash
