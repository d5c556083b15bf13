-- ===== src/System/Process/Removal.antt =====
-- The PID file of a run that returns from main (src/unix/unixdaemon.cpp).
use dns_wrapper.Common.{
  ℕ, ◌≡◌, ◌⊎◌, refl, Bool, true, false, ◌||◌, ◌==◌, if◌then◌else◌, none, Bool-cases, Option-cases,
  inl, inr,
}
use dns_wrapper.Text.{Text}
use dns_wrapper.Bookkeeping.Mappings.Table.{bytes_equal_refl}
use dns_wrapper.System.Process.{
  Fork, fork_fails, in_parent, in_child, Calls, Process, Outcome, goes_on, exits, returns,
  terminates, and_then, save_pid, remove_pid, close_fds, second_half, fork_and_setup_daemon,
  signal_handler, leave, life,
}

Fork-cases : (f : Fork) → (f ≡ fork_fails) ⊎ ((f ≡ in_parent) ⊎ ((pid : ℕ) × (f ≡ in_child pid)))
Fork-cases fork_fails = inl refl
Fork-cases in_parent = inr (inl refl)
Fork-cases (in_child pid) = inr (inr (pid, refl))

module _ (pid_file : Text) where
  -- A run that returns leaves no PID file.
  abbrev pub IsRemoved : Outcome → Type 0
  IsRemoved (returns code s) = s.files pid_file ≡ none
  IsRemoved (goes_on s) = Unit {0}
  IsRemoved (exits code s) = Unit {0}
  IsRemoved (terminates s) = Unit {0}

  -- The PID file is marked as created, or is not there.
  abbrev IsKnown : Process → Type 0
  IsKnown s = (s.pid_file_created ≡ true) ⊎ (s.files pid_file ≡ none)

  -- A run that goes on knows its PID file, and one that has returned has none.
  abbrev KnowsFile : Outcome → Type 0
  KnowsFile (goes_on s) = IsKnown s
  KnowsFile (returns code s) = s.files pid_file ≡ none
  KnowsFile (exits code s) = Unit {0}
  KnowsFile (terminates s) = Unit {0}

  and_then-IsRemoved :
      (o : Outcome) (f : Process → Outcome)
      → KnowsFile o
      → ((s : Process) → IsKnown s → IsRemoved (f s))
      → IsRemoved (and_then o f)
  and_then-IsRemoved (goes_on s) f known rest = rest s known
  and_then-IsRemoved (exits code s) f known rest = tt
  and_then-IsRemoved (returns code s) f known rest = known
  and_then-IsRemoved (terminates s) f known rest = tt

module _ (os : Calls) (pid_file : Text) where
  leave-IsRemoved :
      (code : ℕ) (s : Process) → IsKnown pid_file s → IsRemoved pid_file (leave os pid_file code s)
  unfolding remove_pid
  leave-IsRemoved code s known = elim (Option-cases (s.files pid_file)) [
    | inl missing ↦ elim (Bool-cases s.pid_file_created) [
      | inl created ↦ rw (leave, remove_pid, created, missing) missing
      | inr foreign ↦ rw (leave, remove_pid, foreign) missing
    ]
    | inr (text, there) ↦ elim known [
      | inr missing ↦ absurd (let never = there in cc)
      | inl created ↦ elim (Bool-cases os.removes_file) [
        | inl removed ↦
            rw (leave, remove_pid, created, there, removed) (rw (bytes_equal_refl pid_file) refl)
        | inr kept ↦ rw (leave, remove_pid, created, there, kept) tt
      ]
    ]
  ]

  ended-IsRemoved :
      (s : Process)
      → IsKnown pid_file s
      → (b : Bool) → IsRemoved pid_file (if b then leave os pid_file 0 s else goes_on s)
  ended-IsRemoved s known true = leave-IsRemoved 0 s known
  ended-IsRemoved s known false = tt

  served-IsRemoved :
      (failed : Bool) (signo : ℕ) (s : Process)
      → IsKnown pid_file s
      → IsRemoved pid_file (
          and_then
            (signal_handler os pid_file failed signo s)
            (λ s'. if s'.stopped then leave os pid_file 0 s' else goes_on s'))
  unfolding signal_handler
  served-IsRemoved true signo s known = tt
  served-IsRemoved false signo s known = elim (Bool-cases (signo == 15 || signo == 2)) [
    | inl stops ↦ simp (stops) (ended-IsRemoved (record s { stopped = true }) known true)
    | inr other ↦ simp (other) (ended-IsRemoved s known s.stopped)
  ]

  close_fds-KnowsFile :
      (s : Process) → IsKnown pid_file s → KnowsFile pid_file (close_fds os pid_file s)
  unfolding close_fds
  close_fds-KnowsFile s known = elim (Bool-cases os.opens_null) [
    | inl opens ↦ simp (opens) known
    | inr fails ↦ simp (fails) tt
  ]

  save_pid-IsKnown : (s : Process) → IsKnown pid_file s → IsKnown pid_file (save_pid os pid_file s)
  unfolding save_pid
  save_pid-IsKnown s known = elim (Bool-cases os.writes_file) [
    | inl writes ↦ simp (writes) (inl refl)
    | inr fails ↦ simp (fails) known
  ]

  second_half-KnowsFile :
      (s : Process) → IsKnown pid_file s → KnowsFile pid_file (second_half os pid_file s)
  unfolding second_half
  second_half-KnowsFile s known = elim (Bool-cases os.changes_directory) [
    | inr fails ↦ simp (fails) tt
    | inl moves ↦ elim (Fork-cases os.second_fork) [
      | inl fails ↦ simp (moves, fails) tt
      | inr (inl parent) ↦ simp (moves, parent) tt
      | inr (inr (pid, child)) ↦
          simp (moves, child) (close_fds-KnowsFile _ (save_pid-IsKnown _ known))
    ]
  ]

  fork_and_setup_daemon-KnowsFile :
      (daemon_mode : Bool) (s : Process)
      → IsKnown pid_file s
      → KnowsFile pid_file (fork_and_setup_daemon os pid_file daemon_mode s)
  unfolding fork_and_setup_daemon
  fork_and_setup_daemon-KnowsFile false s known = known
  fork_and_setup_daemon-KnowsFile true s known = elim (Fork-cases os.first_fork) [
    | inl fails ↦ rw fails tt
    | inr (inl parent) ↦ rw parent tt
    | inr (inr (pid, child)) ↦
        simp (fork_and_setup_daemon, child)
          (second_half-KnowsFile (record s { pid = pid; session_leader = false }) known)
  ]

  -- Whatever the forks, the directory and the files answer, with or without daemon mode, with
  -- any signal or a failed wait: a run of the program from the fork on that starts without a
  -- PID file and returns from main leaves none.
  pub life-IsRemoved :
      (daemon_mode failed : Bool) (signo : ℕ) (s : Process)
      → s.files pid_file ≡ none
      → IsRemoved pid_file (life os pid_file daemon_mode failed signo s)
  unfolding life
  life-IsRemoved daemon_mode failed signo s missing =
      and_then-IsRemoved pid_file (fork_and_setup_daemon os pid_file daemon_mode s) _
        (fork_and_setup_daemon-KnowsFile daemon_mode s (inr missing))
        (λ s' known. served-IsRemoved failed signo s' known)
