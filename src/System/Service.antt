-- ===== src/System/Service.antt =====
-- src/win32/service.cpp and src/win32/win32daemonrunner.cpp: the program as a Windows service. Two
-- threads share the daemon: `ServiceExecutor`, and the system's calls of `HandlerEx`, which come one
-- after the other.
pub mod Sound
pub mod Stopping
use dns_wrapper.Common.{
  ℕ, ◌≡◌, Bool, true, false, not, ◌&&◌, ◌||◌, ◌==◌, ◌!=◌, if◌then◌else◌, List, [], ◌∷◌, Result, ok,
  err, fault, bind,
}

-- States of a service, and control codes.
abbrev pub service_stopped : ℕ
service_stopped = 1

abbrev pub service_start_pending : ℕ
service_start_pending = 2

abbrev pub service_stop_pending : ℕ
service_stop_pending = 3

abbrev pub service_running : ℕ
service_running = 4

abbrev pub service_control_stop : ℕ
service_control_stop = 1

abbrev pub service_control_shutdown : ℕ
service_control_shutdown = 5

-- `SERVICE_ACCEPT_STOP | SERVICE_ACCEPT_SHUTDOWN`
abbrev pub accept_both : ℕ
accept_both = 5

abbrev pub is_stop : ℕ → Bool
is_stop c = c == service_control_shutdown || c == service_control_stop

-- The static pointer `daemon`.
pub data Daemon : Type 0 where
  no_daemon alive deleted : Daemon

-- Where `ServiceExecutor` stands: before its first report, before `ServiceInit`, before the report
-- that it runs, before `ServiceStart`, in the event loop, at its end.
pub data Phase : Type 0 where
  idle pending initialised reported serving ended : Phase

-- Where `HandlerEx` stands: outside; behind the report, before `Stop`; before `delete`.
pub data Handler : Type 0 where
  outside stopping deleting : Handler

-- The state that was reported, and the controls that are accepted then.
pub record Status : Type 0 where
  pub state : ℕ
  pub accepts : ℕ

pub record Service : Type 0 where
  pub current_state : ℕ
  pub statuses : List Status
  pub daemon : Daemon
  pub loop_stopped : Bool
  pub phase : Phase
  pub handler : Handler

-- `ReportStatus`: the last status stands first.
unfoldable pub report_status : ℕ → Service → Service
report_status state s = record s {
  current_state = state;
  statuses =
      record { state = state; accepts = if state == service_start_pending then 0 else accept_both }
      ∷ s.statuses;
}

-- What happens next: the following part of `ServiceExecutor`, where the flag says that the server
-- cannot be made; a call of `HandlerEx` with a control; the following part of this call.
pub data Event : Type 0 where
  executor_step : Bool → Event
  control : ℕ → Event
  handler_step : Event

-- An access through the pointer.
abbrev pub on_daemon : Daemon → Result Service → Result Service
on_daemon no_daemon r = fault
on_daemon alive r = r
on_daemon deleted r = fault

-- The error stands for an event that cannot come in this state.
abbrev pub disabled : Result Service
disabled = err 0

-- The end of `ServiceExecutor` behind `ServiceStart`.
abbrev pub close : Service → Service
close s =
    report_status service_stopped (report_status service_stop_pending (record s { phase = ended }))

-- `HandlerEx` up to `ServiceStop`.
unfoldable pub handle : ℕ → Service → Service
unfolding report_status
handle c s =
    if is_stop c
    then record (report_status service_stop_pending s) { handler = stopping }
    else report_status s.current_state s

-- The following part of `ServiceExecutor`: `ServiceInit`, the reports, `ServiceStart`, whose loop
-- ends where it has been stopped.
unfoldable pub step_executor : Bool → Phase → Service → Result Service
unfolding report_status
step_executor fails idle s = ok (record (report_status service_start_pending s) { phase = pending })
step_executor fails pending s = ok (record s { daemon = alive; phase = initialised })
step_executor fails initialised s =
    ok (record (report_status service_running s) { phase = reported })
step_executor fails reported s =
    on_daemon s.daemon (ok (if fails then close s else record s { phase = serving }))
step_executor fails serving s =
    on_daemon s.daemon (if s.loop_stopped then ok (close s) else disabled)
step_executor fails ended s = disabled

-- `ServiceStop`: `daemon->Stop()` and `delete daemon`.
unfoldable pub step_handler : Handler → Service → Result Service
step_handler outside s = disabled
step_handler stopping s =
    on_daemon s.daemon (ok (record s { loop_stopped = true; handler = deleting }))
step_handler deleting s = on_daemon s.daemon (ok (record s { daemon = deleted; handler = outside }))

unfoldable pub call_handler : ℕ → Handler → Service → Result Service
unfolding handle
call_handler c outside s = ok (handle c s)
call_handler c stopping s = disabled
call_handler c deleting s = disabled

-- The system sends nothing to a service that has not registered or is stopped, and stop controls
-- only where they are accepted.
unfoldable pub delivered : ℕ → List Status → Bool
delivered c [] = false
delivered c (t ∷ more) = t.state != service_stopped && (t.accepts != 0 || not (is_stop c))

unfoldable pub step : Event → Service → Result Service
unfolding step_executor step_handler call_handler delivered
step (executor_step fails) s = step_executor fails s.phase s
step (control c) s = if delivered c s.statuses then call_handler c s.handler s else disabled
step handler_step s = step_handler s.handler s

unfoldable pub steps : List Event → Service → Result Service
unfolding step
steps [] s = ok s
steps (e ∷ es) s = bind (step e s) λ s'. steps es s'

abbrev pub initial : Service
initial = record {
  current_state = 0;
  statuses = [];
  daemon = no_daemon;
  loop_stopped = false;
  phase = idle;
  handler = outside;
}

pub data Reach : Service → Type 0 where
  start : Reach initial
  later : {s s' : Service} → Reach s → (e : Event) → step e s ≡ ok s' → Reach s'
