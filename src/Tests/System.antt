-- ===== src/Tests/System.antt =====
-- Interfaces, a daemon's process, a registry and a service.
use mathlib.Core.Option.{some-injective, some-ne-none}
use dns_wrapper.Common.{
  ℕ, zero, suc, sym, ap, length, get_elem?, none, ◌≡◌, refl, true, false, [], ◌∷◌, some, ok, arith,
}
use dns_wrapper.Rule.Evaluate.{bytes_equal}
use dns_wrapper.Text.{Text, codes}
use dns_wrapper.System.Interfaces.{
  IfAddrs, Pointer, net_interface, opened, visit, next, af_inet, af_packet, visit-net_interface,
}
use dns_wrapper.System.Process.{Calls, Process, in_child, life}
use dns_wrapper.System.Process.Removal.{IsRemoved, life-IsRemoved}
use dns_wrapper.System.Registry.{
  Api, get_string_value, get_long_value, get_bool_value, reg_enumerate_sub_keys,
  reg_enumerate_values, value, registry_error,
}
use dns_wrapper.System.Registry.Content.{text, get_values_lem, Lists, typed, reg_enumerate_lem}
use dns_wrapper.System.Service.{
  Service, deleted, serving, service_stop_pending, executor_step, control, handler_step, step,
  step_executor, step_handler, call_handler, handle, delivered, report_status, outside, accept_both,
  service_running, service_start_pending, Reach, start, later, service_control_stop,
}
use dns_wrapper.System.Service.Stopping.{step-deleted}

abbrev loopback : IfAddrs
loopback = record { name = codes "lo"; family = some af_inet }

abbrev ethernet : IfAddrs
ethernet = record { name = codes "eth0"; family = some af_inet }

abbrev raw : IfAddrs
raw = record { name = codes "eth0"; family = some af_packet }

visit-net_interface_example :
    (p : Pointer) × (net_interface false (loopback ∷ raw ∷ ethernet ∷ []) ≡ opened (ok p))
    × (visit next 3 p ≡ ok (ethernet ∷ []))
unfolding bytes_equal
visit-net_interface_example =
    visit-net_interface loopback (raw ∷ ethernet ∷ []) 3 ((λ e. cc), ((λ e. cc), ((λ e. cc), tt)))
      (omega arith)

abbrev os : Calls
os = record {
  first_fork = in_child 101;
  second_fork = in_child 102;
  changes_directory = true;
  writes_file = true;
  opens_null = true;
  removes_file = true;
}

abbrev process : Process
process = record {
  pid = 100;
  pid_file_created = false;
  files = λ n. none;
  session_leader = false;
  directory = codes "/home";
  mask = 0;
  descriptors = λ d. true;
  stopped = false;
}

life-IsRemoved_example : IsRemoved (codes "/p") (life os (codes "/p") true false 15 process)
life-IsRemoved_example = life-IsRemoved os (codes "/p") true false 15 process refl

-- A registry in which every value is the text "x".
abbrev api : Api
api = record {
  open_key = λ k s a. (0, 1);
  create_key = λ k s a. (0, 1);
  key_info = λ k. (0, 0, 0);
  value_info = λ k. (0, 0, 0);
  enum_key = λ k i n. (259, []);
  enum_value = λ k i n. (259, [], 0);
  get_binary = λ k s v. (1630, 0);
  get_dword = λ k s v. (1630, 0);
  string_size = λ k s v. (0, 2);
  string_data = λ k s v n. (0, b'x' ∷ 0 ∷ [], 2);
}

-- A registry with one key "a" and no values.
abbrev keys : Api
keys = record api { key_info = λ k. (0, 1, 1); enum_key = λ k i n. (0, codes "a") }

keys-Lists : Lists Text (keys.key_info 1) (keys.enum_key 1) (λ t. length t) (codes "a" ∷ [])
keys-Lists = record {
  longest = 1;
  known = refl;
  word = omega arith;
  bounded = λ i a e. omega (arith, ap length (only i a e));
  called = λ i len a e long. ap (λ t. (0, t)) (only i a e);
}
  where
    only : (i : ℕ) (a : Text) → get_elem? (codes "a" ∷ []) i ≡ some a → codes "a" ≡ a
    only zero a e = some-injective _ _ e
    only (suc i) a e = absurd (some-ne-none _ (sym e))

no_values-Lists :
    Lists
      (Text × ℕ)
      (keys.value_info 1)
      (λ i len. typed (keys.enum_value 1 i len))
      (λ v. length v.0)
      []
no_values-Lists = record {
  longest = 0;
  known = refl;
  word = omega arith;
  bounded = λ i a e. absurd (some-ne-none _ (sym e));
  called = λ i len a e long. absurd (some-ne-none _ (sym e));
}

reg_enumerate_lem_example :
    (reg_enumerate_sub_keys keys 1 ≡ value (codes "a" ∷ []))
    × (reg_enumerate_values keys 1 ≡ value [])
reg_enumerate_lem_example = reg_enumerate_lem keys 1 (codes "a" ∷ []) [] keys-Lists no_values-Lists

get_values_lem_example :
    (get_string_value api 1 (codes "logFile") [] ≡ value (codes "x"))
    × (get_long_value api 1 (codes "logFile") 53 ≡ registry_error 1630)
    × (get_bool_value api 1 (codes "logFile") true ≡ registry_error 1630)
get_values_lem_example =
    get_values_lem api 1 (codes "logFile") [] 53 true (text (codes "x"))
      (refl, omega arith, refl, refl) (omega arith)

-- The service comes up, is stopped, and its handler deletes the daemon.
abbrev orphaned : Service
orphaned = record {
  current_state = service_stop_pending;
  statuses =
      record { state = service_stop_pending; accepts = accept_both }
      ∷ record { state = service_running; accepts = accept_both }
      ∷ record { state = service_start_pending; accepts = 0 }
      ∷ [];
  daemon = deleted;
  loop_stopped = true;
  phase = serving;
  handler = outside;
}

orphaned-Reach : Reach orphaned
unfolding step step_executor step_handler call_handler handle delivered report_status
orphaned-Reach =
    later
      (later
        (later
          (later
            (later (later (later start (executor_step false) refl) (executor_step false) refl)
              (executor_step false) refl)
            (executor_step false) refl)
          (control service_control_stop) refl)
        handler_step refl)
      handler_step refl

step-deleted_example : orphaned.daemon ≡ deleted
unfolding step step_executor
step-deleted_example = step-deleted (executor_step false) orphaned-Reach refl
