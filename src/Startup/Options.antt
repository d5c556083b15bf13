-- ===== src/Startup/Options.antt =====
-- `Args::Init` of src/args.cpp: what the command line asks for.
use dns_wrapper.Common.{ℕ, Bool, true, false, if◌then◌else◌, Option, none, some}
use dns_wrapper.Rule.Evaluate.{bytes_equal}
use dns_wrapper.Text.{Text, codes, Try, returned, thrown, broken, unfinished}
use dns_wrapper.Parser.{
  Library, Locals, Arguments, ExitCode, no_exit, exit_with_no_error, exit_with_error,
  exit_with_unlock,
}
use dns_wrapper.Parser.Commands.{World, parse}
use dns_wrapper.Startup.{or_else}

-- What the option library finds in the arguments of `start`; `help` is also set by the options
-- before the command.
pub record StartValues : Type 0 where
  pub help : Bool
  pub daemon : Bool
  pub use_raw_sockets : Option Bool
  pub unlock : Bool

-- What it finds on the whole line: the command, with the values that the options of `start` have,
-- and the arguments that `RuleParser::Parse` sees.
pub record CommandLine : Type 0 where
  pub config_file : Option Text
  pub command : Option Text
  pub help : Bool
  pub start : Try StartValues
  pub rules : Arguments

-- `Args`; `new Args()` sets every field to zero.
pub record Args : Type 0 where
  pub config_file : Text
  pub daemon_mode : Bool
  pub use_raw_sockets : Bool

-- What `Init` changes: the arguments, whether the named mutex is removed, and the world of the rules.
pub record Process : Type 0 where
  pub args : Args
  pub unlocked : Bool
  pub world : World

-- What the `catch` makes of an exception.
abbrev pub caught : Try ExitCode → Try ExitCode
caught (returned c) = returned c
caught (thrown e) = returned exit_with_error
caught broken = broken
caught unfinished = unfinished

-- The options of `start`, of the Linux build.
unfoldable pub init_start : StartValues → Process → ExitCode × Process
init_start v p = if v.help then (exit_with_no_error, p) else (
  no_exit,
  record p {
    args = record p.args {
      daemon_mode = v.daemon;
      use_raw_sockets = or_else v.use_raw_sockets true;
    };
    unlocked = if v.unlock then true else p.unlocked;
  },
)

abbrev pub started : Try StartValues → Process → Try ExitCode × Process
started (returned v) p = let (c, p') = init_start v p in (returned c, p')
started (thrown e) p = (returned exit_with_error, p)
started broken p = (broken, p)
started unfinished p = (unfinished, p)

module _ (library : Library) (fuel : ℕ) (l : Locals) where
  unfoldable pub init_command : CommandLine → Text → Process → Try ExitCode × Process
  unfolding init_start parse
  init_command line cmd p =
      if bytes_equal cmd (codes "start")
      then started line.start p
      else if bytes_equal cmd (codes "unlock")
      then (returned (if line.help then exit_with_no_error else exit_with_unlock), p)
      else if bytes_equal cmd (codes "rules")
      then (let (r, w) = parse library fuel l line.rules p.world in
          (caught r, record p { world = w }))
      else (returned exit_with_error, p)

  -- `Init` on a line that the option library accepts, and on one that it does not.
  unfoldable pub init : Try CommandLine → Process → Try ExitCode × Process
  unfolding init_command
  init (thrown e) p = (returned exit_with_error, p)
  init broken p = (broken, p)
  init unfinished p = (unfinished, p)
  init (returned line) p =
      let p' : Process = record p {
        args = record {
          config_file = or_else line.config_file (codes "/etc/dnswrapper/config.ini");
          daemon_mode = false;
          use_raw_sockets = false;
        };
      } in
      elim line.command [
        | some cmd ↦ init_command line cmd p'
        | none ↦ (returned (if line.help then exit_with_no_error else no_exit), p')
      ]
