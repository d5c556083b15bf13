-- ===== src/Startup/Run.antt =====
-- src/daemon.cpp and app/main.cpp: how the program ends, or the server that it runs.
use mathlib.Core.Option.{some-ne-none}
use dns_wrapper.Common.{
  ℕ, suc, ◌≡◌, refl, sym, subst, Bool, true, false, if◌then◌else◌, List, [], Option, some, arith,
  length, Bool-cases, inl, inr,
}
use dns_wrapper.Rule.Layout.{RuleData}
use dns_wrapper.Rule.Shm.History.{Command, IsCommand, listed, Rules, Represents}
use dns_wrapper.Bookkeeping.Mappings.{Mapping}
use dns_wrapper.Server.{Upstream, Server}
use dns_wrapper.Server.Invariant.{IsConsistent}
use dns_wrapper.Text.{Text, codes, Exception, Try, returned, thrown, broken, unfinished}
use dns_wrapper.Parser.{
  Library, Locals, ExitCode, no_exit, exit_with_no_error, exit_with_error, exit_with_unlock,
  exit_of,
}
use dns_wrapper.Parser.Commands.{World, lines_from}
use dns_wrapper.Parser.Describe.{Describes, parse_lem}
use dns_wrapper.Rule.Evaluate.{bytes_equal}
use dns_wrapper.Parser.Script.{Script, listed_until, read_lines_lem}
use dns_wrapper.Startup.{
  Tree, or_else, Config, LogLevels, load_ini, init_upstream_servers, load_rules, new_block,
}
use dns_wrapper.Startup.Options.{CommandLine, Args, Process, init_command, init}

-- How a run of the program ends, or the server that waits for datagrams; `dies` is an exception
-- that nothing catches.
pub data Run (E : Type 0) : Type 0 where
  exits : ℕ → Run E
  serves : Server E → Run E
  dies : Exception → Run E
  crashes endless : Run E

-- `EC_GOOD`, `EC_MISC`, `EC_BADCOMMANDLINE`.
abbrev pub ec_good : ℕ
ec_good = 0

abbrev pub ec_misc : ℕ
ec_misc = 5

abbrev pub ec_badcommandline : ℕ
ec_badcommandline = 7

-- What the system and the libraries give a run: the configuration files by name, the levels of the
-- log, the addresses of servers, whether another instance holds the mutex, what the table of
-- addresses holds before it is filled.
pub record Host (E : Type 0) : Type 0 where
  pub configuration : Text → Option Tree
  pub levels : LogLevels
  pub make_endpoint : Bool → Text → ℕ → Option E
  pub library : Library
  pub is_locked : Bool
  pub fresh_records : List Mapping

module _ {E : Type 0} (host : Host E) (fuel : ℕ) (l : Locals) where
  abbrev pub new_server : List (Upstream E) → RuleData → Server E
  new_server servers rules = record {
    servers = servers;
    peers = record { records = []; sources = []; source_count = 0 };
    mappings = record { count = 0; records = host.fresh_records };
    rules = rules;
    drawn = 0;
    sent = [];
  }

  -- `Start`, up to the loop that waits; its handlers catch what the server's constructor throws.
  unfoldable pub start : Config → RuleData → Run E
  unfolding init_upstream_servers
  start c rules = elim (init_upstream_servers host.make_endpoint host.library c.servers) [
    | returned servers ↦ serves (new_server servers rules)
    | thrown e ↦ exits ec_misc
    | broken ↦ crashes
    | unfinished ↦ endless
  ]

  -- `Run` behind the configuration: the rules of its file, in the new block.
  abbrev pub with_rules : Config → Try (Unit {0}) × World → Run E
  with_rules c (returned u, w) = start c w.rules
  with_rules c (thrown e, w) = dies e
  with_rules c (broken, w) = crashes
  with_rules c (unfinished, w) = endless

  abbrev pub with_config : World → Try Config → Run E
  with_config w (returned c) = with_rules c (load_rules host.library fuel l c.rule_file w)
  with_config w (thrown e) = dies e
  with_config w broken = crashes
  with_config w unfinished = endless

  -- `Daemon::Run`: nothing catches what `Initialize` throws.
  unfoldable pub run_daemon : Args → World → Run E
  unfolding load_ini load_rules start
  run_daemon args w = with_config w (load_ini host.levels (host.configuration args.config_file))

  -- The daemon's constructor makes a new block before the mutex is tried.
  abbrev pub with_new_block : Process → Process
  with_new_block p = record p { world = record p.world { rules = new_block } }

  abbrev pub after_init : Try ExitCode × Process → Run E × Process
  after_init (returned exit_with_unlock, p) = (exits ec_good, record p { unlocked = true })
  after_init (returned exit_with_no_error, p) = (exits ec_good, p)
  after_init (returned exit_with_error, p) = (exits ec_badcommandline, p)
  after_init (returned no_exit, p) =
      let p' : Process = with_new_block p in
      (if host.is_locked then exits 1 else run_daemon p'.args p'.world, p')
  after_init (thrown e, p) = (dies e, p)
  after_init (broken, p) = (crashes, p)
  after_init (unfinished, p) = (endless, p)

  -- `main`
  unfoldable pub main : Try CommandLine → Process → Run E × Process
  unfolding init run_daemon new_block
  main line p = after_init (init host.library fuel l line p)

  new_server-IsConsistent :
      (servers : List (Upstream E)) (d : RuleData) (r : Rules)
      → length host.fresh_records ≡ 100
      → Represents d r
      → IsConsistent (new_server servers d)
  new_server-IsConsistent servers d r full rep = record {
    unique = λ j k r q ej ek ur uq same. absurd (some-ne-none _ (sym ej));
    table = record { array = full; bound = omega arith; distinct = tt };
    listing = (r.rules, rep.encodes);
  }

-- The policy and the rules of a new block.
abbrev pub no_rules : Rules
no_rules = record { policy = new_block.policy; rules = [] }

new_block-Represents : Represents new_block no_rules
unfolding new_block
new_block-Represents = record {
  policy = refl;
  encodes = record { count = refl; stored = tt; room = omega arith; here = tt };
}

-- A daemon on a new block, with a configuration that loads, servers whose addresses are
-- converted and a file of rules whose lines are blank or describe edits of rules with the parts
-- their types ask for, serves: the block holds the list that the edits give, up to the first
-- that is refused, and the server is in a consistent state.
pub run_daemon_lem :
    {E : Type 0} (host : Host E) (fuel : ℕ) (l : Locals) (args : Args) (w : World) (c : Config)
    (content : Text) (cs : List Command) (servers : List (Upstream E))
    → length host.fresh_records ≡ 100
    → w.rules ≡ new_block
    → load_ini host.levels (host.configuration args.config_file) ≡ returned c
    → w.files c.rule_file ≡ some content
    → Script host.library l (lines_from [] content) cs
    → init_upstream_servers host.make_endpoint host.library c.servers ≡ returned servers
    → (d : RuleData) × (run_daemon host (suc fuel) l args w
        ≡ serves (new_server host fuel l servers d))
      × Represents d (listed_until cs no_rules)
      × IsConsistent (new_server host fuel l servers d)
unfolding run_daemon start load_rules
run_daemon_lem host fuel l args w c content cs servers full fresh config opens script known =
    let rep = subst (λ x. Represents x no_rules) (sym fresh) new_block-Represents in
    let (d, runs, rep') = read_lines_lem host.library l fuel w no_rules script rep in
    (
      d,
      rw (run_daemon, config)
          (rw (with_config, load_rules, opens) (rw runs (rw (with_rules, start, known) refl))),
      rep',
      new_server-IsConsistent host fuel l servers d (listed_until cs no_rules) full rep',
    )

abbrev configured : CommandLine → Args
configured line = record {
  config_file = or_else line.config_file (codes "/etc/dnswrapper/config.ini");
  daemon_mode = false;
  use_raw_sockets = false;
}

-- `dns-wrapper rules` with arguments that describe an edit of a rule with the parts its type
-- asks for, while the block holds a list: the program exits with 0 if the edit of the list is
-- accepted and with 7 if it is refused, and the block then holds the edited list.
pub main_lem :
    {E : Type 0} (host : Host E) (fuel : ℕ) (l : Locals) (line : CommandLine) (p : Process)
    (c : Command) (r : Rules)
    → line.command ≡ some (codes "rules")
    → IsCommand c
    → Describes host.library l line.rules c
    → Represents p.world.rules r
    → (d : RuleData) × (main host (suc fuel) l (returned line) p ≡ (
      exits (if (listed c r).0 then ec_good else ec_badcommandline),
      record p { args = configured line; world = record p.world { rules = d } },
    ))
      × Represents d (listed c r).1
unfolding main init init_command bytes_equal
main_lem host fuel l line p c r rules good describes rep =
    let (d, parses, rep') =
      parse_lem host.library l fuel line.rules c p.world r good describes rep in
    (
      d,
      elim (Bool-cases (listed c r).0) [
        | inl accepted ↦
            rw (main, init, rules) (rw (init_command, parses) (rw (exit_of, accepted) refl))
        | inr refused ↦
            rw (main, init, rules) (rw (init_command, parses) (rw (exit_of, refused) refl))
      ],
      rep',
    )
