-- ===== src/Tests/Start.antt =====
-- The program's start, with an empty configuration and a file of rules.
use dns_wrapper.Common.{
  ℕ, ok, arith, List, ◌≡◌, ◌≤◌, refl, Bool, true, false, [], ◌∷◌, Option, none, some, length, All,
  if◌then◌else◌,
}
use dns_wrapper.Rule.Layout.{RuleData}
use dns_wrapper.Rule.Evaluate.{bytes_equal}
use dns_wrapper.Rule.Shm.History.{append, clear, listed, Represents}
use dns_wrapper.Server.Invariant.{IsConsistent}
use dns_wrapper.Text.{Text, codes, returned, ipv4, get_ip_address_type, regex_match, match_then}
use dns_wrapper.Parser
use dns_wrapper.Parser.{Locals}
use dns_wrapper.Parser.Commands.{World, lines_from, strip_comment}
use dns_wrapper.Parser.Script.{done, blank, edit, listed_until}
use dns_wrapper.Startup
use dns_wrapper.Startup.{
  UpstreamServer, Config, LogLevels, Tree, empty_tree, load_configuration, load_ini, new_block,
  new_upstream, init_upstream_servers,
}
use dns_wrapper.Startup.Upstreams.{IsListed, load_configuration-IsListed}
use dns_wrapper.Common.{ok}
use dns_wrapper.Startup.Asked.{resolve_new-init_upstream_servers}
use dns_wrapper.Server.{Upstream, Server}
use dns_wrapper.Server.Resolve.{resolve_new}
use dns_wrapper.Tests.Replies.{platform, bare_bytes, bare-IsWritten}
use dns_wrapper.Tests.Replies.{bare as bare_packet}
use dns_wrapper.Startup.Options.{CommandLine, Args, Process}
use dns_wrapper.Startup.Run.{
  Host, serves, exits, new_server, run_daemon, run_daemon_lem, no_rules, main, main_lem, ec_good,
  ec_badcommandline,
}
use dns_wrapper.Tests.Commands.{
  bare, library, locals, rules, world, new_rule, add_arguments, block-Represents,
}
use dns_wrapper.Tests.Requests.{table}

abbrev levels : LogLevels
levels = record { from_string = λ s. none; info = 2; info_text = codes "info" }

abbrev cloudflare : UpstreamServer
cloudflare = record { host_ip = codes "1.1.1.1"; port = 53; udp = true; protocol_version = ipv4 }

abbrev config : Config
config = record {
  log_to_console_also = true;
  log_file = codes "/var/log/dns-wrapper.log";
  log_level = 2;
  dns_port = 53;
  pid_file = codes "/var/run/dns-wrapper.pid";
  rule_file = codes "/etc/dns-wrapper/rules.txt";
  servers = cloudflare ∷ [];
}

load_configuration-IsListed_example :
    All IsListed config.servers × (1 ≤ length config.servers) × (length config.servers ≤ 3)
unfolding load_configuration Startup.add_first Startup.add_configured Startup.add_server
    Startup.to_log_level get_ip_address_type regex_match match_then bytes_equal
load_configuration-IsListed_example = load_configuration-IsListed levels empty_tree config refl

abbrev endpoint_of : Bool → Text → ℕ → Option ℕ
endpoint_of v4 host port = some port

abbrev over_tcp : UpstreamServer
over_tcp = record cloudflare { udp = false }

abbrev host : Host ℕ
host = record {
  configuration = λ n. none;
  levels = levels;
  make_endpoint = endpoint_of;
  library = library;
  is_locked = false;
  fresh_records = table.records;
}

-- Endpoints are ports: of a server over TCP and one over UDP, the latter is asked.
resolve_new-init_upstream_servers_example :
    (servers : List (Upstream ℕ)) × (s' : Server ℕ) × (init_upstream_servers endpoint_of library
        (over_tcp ∷ cloudflare ∷ [])
      ≡ returned servers)
    × (resolve_new platform 1 1005
          (5 ∷ [])
          bare_packet
          4000
          true
          (new_server host 0 locals servers new_block)
        ≡ ok s')
    × (s'.sent ≡ record { ipv4 = true; endpoint = 53; bytes = bare_bytes (platform.draw 0) } ∷ [])
resolve_new-init_upstream_servers_example =
    resolve_new-init_upstream_servers host platform (λ u. u.port) 0 1005 locals new_block
      (over_tcp ∷ cloudflare ∷ []) (5 ∷ []) bare_packet bare_bytes 4000 true
      ((refl, λ e. cc), ((refl, λ e. cc), tt)) (omega arith) bare-IsWritten

abbrev args : Args
args = record { config_file = codes "c"; daemon_mode = false; use_raw_sockets = true }

abbrev new_world : World
new_world = record world { rules = new_block }

-- The file of rules clears them.
run_daemon_lem_example :
    (d : RuleData) × (run_daemon host 2 locals args new_world
      ≡ serves (new_server host 1 locals (new_upstream 53 true ∷ []) d))
    × Represents d (listed_until (clear ∷ []) no_rules)
    × IsConsistent (new_server host 1 locals (new_upstream 53 true ∷ []) d)
unfolding load_ini load_configuration Startup.add_first Startup.add_configured Startup.add_server
    Startup.to_log_level get_ip_address_type regex_match match_then bytes_equal lines_from
    strip_comment init_upstream_servers
run_daemon_lem_example =
    run_daemon_lem host 1 locals args new_world config (codes "# start\nclear # all\n") (clear ∷ [])
      (new_upstream 53 true ∷ []) refl refl refl refl
      (blank refl
        (edit b'c' (codes "lear ") (bare (codes "clear")) clear refl refl (refl, refl) tt done))
      refl

abbrev line : CommandLine
line = record {
  config_file = none;
  command = some (codes "rules");
  help = false;
  start =
      returned (record { help = false; daemon = false; use_raw_sockets = none; unlock = false });
  rules = add_arguments;
}

abbrev process : Process
process = record { args = args; unlocked = false; world = world }

main_lem_example :
    (d : RuleData) × (main host 1 locals (returned line) process ≡ (
      exits (if (listed (append new_rule) rules).0 then ec_good else ec_badcommandline),
      record process {
        args = record {
          config_file = codes "/etc/dnswrapper/config.ini";
          daemon_mode = false;
          use_raw_sockets = false;
        };
        world = record world { rules = d };
      },
    ))
    × Represents d (listed (append new_rule) rules).1
unfolding Parser.parse_ip_address get_ip_address_type regex_match match_then Parser.to_ip_address
main_lem_example =
    main_lem host 0 locals line process (append new_rule) rules refl
      (record { ip = refl; eth = tt; target = refl })
      (refl, refl, _, refl, refl, (_, refl, refl, refl), (refl, refl)) block-Represents
