-- ===== src/System/Service/Sound.antt =====
-- What holds in every state that the service reaches (src/win32/service.cpp).
use dns_wrapper.Common.{
  ℕ, ◌≡◌, ◌≢◌, refl, sym, ap, ◌∙◌, Bool, true, false, Bool-cases, inl, inr, List, [], ◌∷◌, Result,
  ok, arith, ok-injective, subst,
}
use dns_wrapper.System.Service.{
  service_start_pending, service_stop_pending, Daemon, no_daemon, alive, deleted, Phase, idle,
  pending, initialised, reported, serving, ended, Handler, outside, stopping, deleting, Status,
  Service, report_status, Event, executor_step, control, handler_step, is_stop, on_daemon,
  step_executor, step_handler, call_handler, handle, delivered, step, Reach, start, later,
}

-- Before there is a daemon, the handler is outside, and no stop control is accepted.
abbrev pub Quiet : Phase → Service → Type 0
Quiet idle s = s.statuses ≡ []
Quiet pending s =
    (s.current_state ≡ service_start_pending)
    × (t : Status) × (more : List Status) × (s.statuses ≡ t ∷ more)
    × (t.accepts ≡ 0)
Quiet initialised s = s.daemon ≢ no_daemon
Quiet reported s = s.daemon ≢ no_daemon
Quiet serving s = s.daemon ≢ no_daemon
Quiet ended s = s.daemon ≢ no_daemon

pub record IsSound (s : Service) : Type 0 where
  pub quiet : Quiet s.phase s
  pub idle_handler : s.daemon ≡ no_daemon → s.handler ≡ outside

present :
    (d : Daemon) (r : Result Service) (s' : Service)
    → on_daemon d r ≡ ok s'
    → (d ≢ no_daemon) × (r ≡ ok s')
present no_daemon r s' e = cc
present alive r s' e = ((λ p. cc), e)
present deleted r s' e = cc

step_executor-IsSound :
    (fails : Bool) (p : Phase) (s s' : Service)
    → Quiet p s
    → (s.daemon ≡ no_daemon → s.handler ≡ outside)
    → step_executor fails p s ≡ ok s'
    → IsSound s'
unfolding step_executor report_status
step_executor-IsSound fails idle s s' quiet out runs =
    subst IsSound (ok-injective runs)
      (record { quiet = (refl, _, _, refl, refl); idle_handler = out })
step_executor-IsSound fails pending s s' quiet out runs =
    subst IsSound (ok-injective runs) (record { quiet = λ p. cc; idle_handler = λ p. cc })
step_executor-IsSound fails initialised s s' quiet out runs =
    subst IsSound (ok-injective runs) (record { quiet = quiet; idle_handler = out })
step_executor-IsSound true reported s s' quiet out runs =
    let (there, ends) = present s.daemon _ s' runs in
    subst IsSound (ok-injective ends) (record { quiet = there; idle_handler = out })
step_executor-IsSound false reported s s' quiet out runs =
    let (there, ends) = present s.daemon _ s' runs in
    subst IsSound (ok-injective ends) (record { quiet = there; idle_handler = out })
step_executor-IsSound fails serving s s' quiet out runs =
    let (there, ends) = present s.daemon _ s' runs in
    elim (Bool-cases s.loop_stopped) [
      | inl stopped ↦
          subst IsSound (ok-injective (rw stopped at ends))
            (record { quiet = there; idle_handler = out })
      | inr waits ↦ let never = rw waits at ends in cc
    ]
step_executor-IsSound fails ended s s' quiet out runs = cc

Quiet-stopped :
    (p : Phase) (s : Service) (b : Bool) (h : Handler)
    → Quiet p s
    → Quiet p (record s { loop_stopped = b; handler = h })
Quiet-stopped idle s b h q = q
Quiet-stopped pending s b h q = q
Quiet-stopped initialised s b h q = q
Quiet-stopped reported s b h q = q
Quiet-stopped serving s b h q = q
Quiet-stopped ended s b h q = q

Quiet-deleted :
    (p : Phase) (s : Service)
    → Quiet p s
    → Quiet p (record s { daemon = deleted; handler = outside })
Quiet-deleted idle s q = q
Quiet-deleted pending s q = q
Quiet-deleted initialised s q = λ e. cc
Quiet-deleted reported s q = λ e. cc
Quiet-deleted serving s q = λ e. cc
Quiet-deleted ended s q = λ e. cc

step_handler-IsSound :
    (h : Handler) (s s' : Service) → IsSound s → step_handler h s ≡ ok s' → IsSound s'
unfolding step_handler
step_handler-IsSound outside s s' sound runs = cc
step_handler-IsSound stopping s s' sound runs =
    let (there, ends) = present s.daemon _ s' runs in
    subst IsSound (ok-injective ends) (record {
      quiet = Quiet-stopped s.phase s true deleting sound.quiet;
      idle_handler = λ p. absurd (there p);
    })
step_handler-IsSound deleting s s' sound runs =
    let (there, ends) = present s.daemon _ s' runs in
    subst IsSound (ok-injective ends)
      (record { quiet = Quiet-deleted s.phase s sound.quiet; idle_handler = λ p. cc })

-- Nothing is sent before the service has registered, and no stop control where none is accepted.
delivered-unregistered : (c : ℕ) (s : Service) → Quiet idle s → delivered c s.statuses ≢ true
unfolding delivered
delivered-unregistered c s q d =
    let sent : delivered c [] ≡ true = subst (λ l. delivered c l ≡ true) q d in cc

delivered-refused :
    (c : ℕ) (s : Service) → Quiet pending s → is_stop c ≡ true → delivered c s.statuses ≢ true
unfolding delivered
delivered-refused c s (now, t, more, here, refuses) stop d =
    let sent : delivered c (t ∷ more) ≡ true = subst (λ l. delivered c l ≡ true) here d in
    ground (arith, sent)

-- A stop control comes only where there is a daemon.
stop-present :
    (c : ℕ) (p : Phase) (s : Service)
    → Quiet p s
    → delivered c s.statuses ≡ true
    → is_stop c ≡ true
    → s.daemon ≢ no_daemon
stop-present c idle s q d stop = absurd (delivered-unregistered c s q d)
stop-present c pending s q d stop = absurd (delivered-refused c s q stop d)
stop-present c initialised s q d stop = q
stop-present c reported s q d stop = q
stop-present c serving s q d stop = q
stop-present c ended s q d stop = q

-- What `HandlerEx` reports, for each control.
handle-stop :
    (c : ℕ) (s : Service)
    → is_stop c ≡ true
    → handle c s ≡ record (report_status service_stop_pending s) { handler = stopping }
unfolding handle
handle-stop c s stop = rw stop refl

handle-other :
    (c : ℕ) (s : Service) → is_stop c ≡ false → handle c s ≡ report_status s.current_state s
unfolding handle
handle-other c s other = rw other refl

daemon_kept : (c : ℕ) (s : Service) → (handle c s).daemon ≡ s.daemon
unfolding handle report_status
daemon_kept c s = ground arith

Quiet-handle :
    (c : ℕ) (p : Phase) (s : Service)
    → Quiet p s
    → delivered c s.statuses ≡ true
    → Quiet p (handle c s)
unfolding report_status
Quiet-handle c idle s q d = absurd (delivered-unregistered c s q d)
Quiet-handle c pending s q d = elim (Bool-cases (is_stop c)) [
  | inl stop ↦ absurd (delivered-refused c s q stop d)
  | inr other ↦
      let now = q.0 in
      subst (Quiet pending) (sym (handle-other c s other)) (now, _, _, refl, rw now refl)
]
Quiet-handle c initialised s q d = λ e. q (sym (daemon_kept c s) ∙ e)
Quiet-handle c reported s q d = λ e. q (sym (daemon_kept c s) ∙ e)
Quiet-handle c serving s q d = λ e. q (sym (daemon_kept c s) ∙ e)
Quiet-handle c ended s q d = λ e. q (sym (daemon_kept c s) ∙ e)

phase_kept : (c : ℕ) (s : Service) → (handle c s).phase ≡ s.phase
unfolding handle report_status
phase_kept c s = ground arith

handle-IsSound :
    (c : ℕ) (s : Service)
    → IsSound s
    → delivered c s.statuses ≡ true
    → s.handler ≡ outside
    → IsSound (handle c s)
unfolding report_status
handle-IsSound c s sound d out = record {
  quiet =
      subst (λ p. Quiet p (handle c s)) (sym (phase_kept c s))
        (Quiet-handle c s.phase s sound.quiet d);
  idle_handler = λ e. elim (Bool-cases (is_stop c)) [
    | inl stop ↦ absurd (stop-present c s.phase s sound.quiet d stop (sym (daemon_kept c s) ∙ e))
    | inr other ↦ ap (λ t. t.handler) (handle-other c s other) ∙ out
  ];
}

call_handler-IsSound :
    (c : ℕ) (h : Handler) (s s' : Service)
    → IsSound s
    → s.handler ≡ h
    → delivered c s.statuses ≡ true
    → call_handler c h s ≡ ok s'
    → IsSound s'
unfolding call_handler
call_handler-IsSound c outside s s' sound e d runs =
    subst IsSound (ok-injective runs) (handle-IsSound c s sound d e)
call_handler-IsSound c stopping s s' sound e d runs = cc
call_handler-IsSound c deleting s s' sound e d runs = cc

step-IsSound : (s s' : Service) (e : Event) → IsSound s → step e s ≡ ok s' → IsSound s'
unfolding step
step-IsSound s s' (executor_step fails) sound runs =
    step_executor-IsSound fails s.phase s s' sound.quiet sound.idle_handler runs
step-IsSound s s' (control c) sound runs = elim (Bool-cases (delivered c s.statuses)) [
  | inl sent ↦ call_handler-IsSound c s.handler s s' sound refl sent (rw (step, sent) at runs)
  | inr held ↦ let never = rw (step, held) at runs in cc
]
step-IsSound s s' handler_step sound runs = step_handler-IsSound s.handler s s' sound runs

pub Reach-IsSound : {s : Service} → Reach s → IsSound s
Reach-IsSound start = record { quiet = refl; idle_handler = λ e. refl }
Reach-IsSound (later {s = s} {s' = s'} r e runs) = step-IsSound s s' e (Reach-IsSound r) runs
