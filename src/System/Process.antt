-- ===== src/System/Process.antt =====
-- src/unix/unixdaemon.cpp: the process of the daemon, its PID file and its signals.
pub mod Removal
use dns_wrapper.Common.{ℕ, Bool, true, false, not, ◌||◌, ◌==◌, if◌then◌else◌, Option, none, some}
use dns_wrapper.Text.{Text, codes}
use dns_wrapper.Parser.Show.{decimal}
use dns_wrapper.Parser.Commands.{with_file}

abbrev pub ec_good : ℕ
ec_good = 0

abbrev pub ec_misc : ℕ
ec_misc = 5

abbrev pub ec_signal : ℕ
ec_signal = 6

abbrev pub ec_fork : ℕ
ec_fork = 8

-- What `fork` returns: an error, or in which of the two processes it does, the child with its PID.
pub data Fork : Type 0 where
  fork_fails in_parent : Fork
  in_child : ℕ → Fork

-- What the system answers: to the two forks, to `chdir`, to the opening of the PID file and of
-- /dev/null, and whether the PID file can be removed if it exists (else an exception is thrown).
pub record Calls : Type 0 where
  pub first_fork : Fork
  pub second_fork : Fork
  pub changes_directory : Bool
  pub writes_file : Bool
  pub opens_null : Bool
  pub removes_file : Bool

-- The process, with the files by name. `descriptors` tells which of the first three are open.
pub record Process : Type 0 where
  pub pid : ℕ
  pub pid_file_created : Bool
  pub files : Text → Option Text
  pub session_leader : Bool
  pub directory : Text
  pub mask : ℕ
  pub descriptors : ℕ → Bool
  pub stopped : Bool

-- How a step leaves the process: it goes on; it ends at `exit` or `_exit`, which run no destructor
-- of the daemon; the program returns from main; or an exception leaves a destructor.
pub data Outcome : Type 0 where
  goes_on : Process → Outcome
  exits : ℕ → Process → Outcome
  returns : ℕ → Process → Outcome
  terminates : Process → Outcome

abbrev pub and_then : Outcome → (Process → Outcome) → Outcome
and_then (goes_on s) f = f s
and_then (exits code s) f = exits code s
and_then (returns code s) f = returns code s
and_then (terminates s) f = terminates s

module _ (os : Calls) (pid_file : Text) where
  -- `savePid`
  unfoldable pub save_pid : Process → Process
  save_pid s =
      if os.writes_file
      then record s {
        files = with_file pid_file (some (decimal s.pid)) s.files;
        pid_file_created = true;
      }
      else s

  -- `removePid`, which the destructor of the daemon calls: a file that is gone is no error.
  unfoldable pub remove_pid : Process → Outcome
  remove_pid s = if not s.pid_file_created then goes_on s else elim (s.files pid_file) [
    | none ↦ goes_on s
    | some text ↦
        if os.removes_file
        then goes_on (record s { files = with_file pid_file none s.files })
        else terminates s
  ]

  -- `closeFds`: /dev/null becomes descriptor 0.
  unfoldable pub close_fds : Process → Outcome
  close_fds s =
      let closed : Process = record s {
        descriptors = λ d. if d == 0 || d == 1 || d == 2 then false else s.descriptors d;
      } in
      if os.opens_null
      then goes_on
          (record closed { descriptors = λ d. if d == 0 then true else closed.descriptors d })
      else exits ec_misc closed

  -- The second half of `forkAndSetupDaemon`, in the first child.
  unfoldable pub second_half : Process → Outcome
  unfolding save_pid close_fds
  second_half s =
      let led : Process = record s { session_leader = true } in
      let moved : Process = record led { directory = codes "/"; mask = 18 } in
      if os.changes_directory
      then elim os.second_fork [
        | fork_fails ↦ exits ec_fork moved
        | in_parent ↦ exits ec_good moved
        | in_child pid ↦ close_fds (save_pid (record moved { pid = pid; session_leader = false }))
      ]
      else exits ec_misc led

  -- `forkAndSetupDaemon`
  unfoldable pub fork_and_setup_daemon : Bool → Process → Outcome
  unfolding second_half
  fork_and_setup_daemon false s = goes_on s
  fork_and_setup_daemon true s = elim os.first_fork [
    | fork_fails ↦ exits ec_fork s
    | in_parent ↦ exits ec_good s
    | in_child pid ↦ second_half (record s { pid = pid; session_leader = false })
  ]

  -- `signalHandler`; SIGINT is 2 and SIGTERM 15.
  unfoldable pub signal_handler : Bool → ℕ → Process → Outcome
  signal_handler failed signo s =
      if failed
      then exits ec_signal s
      else goes_on (if signo == 15 || signo == 2 then record s { stopped = true } else s)

  -- The end of main behind `Start`: its exit code, and the destructor.
  abbrev pub leave : ℕ → Process → Outcome
  leave code s = and_then (remove_pid s) λ s'. returns code s'

  -- The run from `forkAndSetupDaemon` on, with a signal to the event loop.
  unfoldable pub life : Bool → Bool → ℕ → Process → Outcome
  unfolding fork_and_setup_daemon signal_handler remove_pid
  life daemon_mode failed signo s = and_then (fork_and_setup_daemon daemon_mode s) λ s'.
      and_then (signal_handler failed signo s')
        λ s''. if s''.stopped then leave ec_good s'' else goes_on s''
