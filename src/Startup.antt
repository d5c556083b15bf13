-- ===== src/Startup.antt =====
-- src/config.cpp, `initUpstreamServers` of src/dns/server.cpp, and `loadRules` of src/daemon.cpp: from
-- the configuration to the server that starts.
pub mod Upstreams
pub mod Options
pub mod Run
pub mod Asked
use dns_wrapper.Common.{
  ℕ, zero, suc, ◌^◌, ◌%◌, Bool, true, false, not, ◌||◌, if◌then◌else◌, List, [], ◌∷◌, ◌++◌, Option,
  none, some,
}
use dns_wrapper.Net.Buffer.{IpAddress}
use dns_wrapper.Rule.Layout.{RuleData}
use dns_wrapper.Rule.Evaluate.{bytes_equal}
use dns_wrapper.Bookkeeping.Mappings.{Mapping}
use dns_wrapper.Bookkeeping.Latency.{no_times}
use dns_wrapper.Server.{Upstream, Server}
use dns_wrapper.Text.{
  Text, codes, Exception, invalid_argument, system_error, Try, returned, thrown, broken, unfinished,
  try_then, IpProtocolVersion, ipv4, ipv6, no_version, get_ip_address_type,
}
use dns_wrapper.Parser.{Library, Locals, Arguments, to_ip_address}
use dns_wrapper.Parser.Commands.{World, parse, lines_from, read_lines}

-- The values of the property tree under `main.`; a `long` is a word of 64 bits.
pub record Tree : Type 0 where
  pub string : Text → Option Text
  pub long : Text → Option ℕ
  pub bool : Text → Option Bool

abbrev pub or_else : {A : Type 0} → Option A → A → A
or_else none d = d
or_else (some a) d = a

-- `UpstreamServer`
pub record UpstreamServer : Type 0 where
  pub host_ip : Text
  pub port : ℕ
  pub udp : Bool
  pub protocol_version : IpProtocolVersion

-- `ConfigReader`; the level is one of the log library.
pub record Config : Type 0 where
  pub log_to_console_also : Bool
  pub log_file : Text
  pub log_level : ℕ
  pub dns_port : ℕ
  pub pid_file : Text
  pub rule_file : Text
  pub servers : List UpstreamServer

-- What the log library knows of levels by name, and `info`.
pub record LogLevels : Type 0 where
  pub from_string : Text → Option ℕ
  pub info : ℕ
  pub info_text : Text

-- `(uint16_t)`
abbrev pub as_port : ℕ → ℕ
as_port n = n % 2 ^ 16

abbrev pub dns_port_default : ℕ
dns_port_default = 53

abbrev pub is_none : IpProtocolVersion → Bool
is_none ipv4 = false
is_none ipv6 = false
is_none no_version = true

-- `addServer`
unfoldable pub add_server : Text → ℕ → Text → List UpstreamServer → Try (List UpstreamServer)
unfolding get_ip_address_type bytes_equal
add_server host port protocol servers =
    if not (bytes_equal protocol (codes "udp") || bytes_equal protocol (codes "tcp"))
    then thrown invalid_argument
    else if is_none (get_ip_address_type host)
    then thrown invalid_argument
    else returned (
        servers
        ++ record {
          host_ip = host;
          port = port;
          udp = bytes_equal protocol (codes "udp");
          protocol_version = get_ip_address_type host;
        }
          ∷ [])

-- One of the three blocks of `LoadConfiguration` that add a server.
unfoldable pub add_configured :
    Tree → Text → Text → Text → Text → List UpstreamServer → Try (List UpstreamServer)
unfolding add_server
add_configured t host_default host port protocol servers =
    elim (or_else (t.string host) host_default) [
      | [] ↦ returned servers
      | ◌∷◌ c s ↦
          add_server (c ∷ s) (as_port (or_else (t.long port) dns_port_default))
            (or_else (t.string protocol) (codes "udp")) servers
    ]

-- The first block has no test for an empty text.
unfoldable pub add_first : Tree → List UpstreamServer → Try (List UpstreamServer)
unfolding add_server
add_first t servers =
    add_server (or_else (t.string (codes "serverIp1")) (codes "1.1.1.1"))
      (as_port (or_else (t.long (codes "serverPort1")) dns_port_default))
      (or_else (t.string (codes "protocol1")) (codes "udp")) servers

unfoldable pub to_log_level : LogLevels → Text → ℕ
to_log_level levels s = or_else (levels.from_string s) levels.info

-- `ConfigReader::LoadConfiguration`
unfoldable pub load_configuration : LogLevels → Tree → List UpstreamServer → Try Config
unfolding add_first add_configured to_log_level
load_configuration levels t servers = try_then (add_first t servers) λ s1.
    try_then (add_configured t [] (codes "serverIp2") (codes "serverPort2") (codes "protocol2") s1)
      λ s2.
        try_then
          (add_configured t [] (codes "serverIp3") (codes "serverPort3") (codes "protocol3") s2)
          λ s3. returned (record {
            log_to_console_also = or_else (t.bool (codes "logToConsoleAlso")) true;
            log_file = or_else (t.string (codes "logFile")) (codes "/var/log/dns-wrapper.log");
            log_level =
                to_log_level levels (or_else (t.string (codes "logLevel")) levels.info_text);
            dns_port = as_port (or_else (t.long (codes "dnsPort")) dns_port_default);
            pid_file = or_else (t.string (codes "pidFile")) (codes "/var/run/dns-wrapper.pid");
            rule_file = or_else (t.string (codes "ruleFile")) (codes "/etc/dns-wrapper/rules.txt");
            servers = s3;
          })

abbrev pub empty_tree : Tree
empty_tree = record { string = λ k. none; long = λ k. none; bool = λ k. none }

-- `IniConfigReader::LoadConfiguration`: a file that cannot be parsed leaves the tree empty.
unfoldable pub load_ini : LogLevels → Option Tree → Try Config
unfolding load_configuration
load_ini levels file = load_configuration levels (or_else file empty_tree) []

abbrev pub new_upstream : {E : Type 0} → E → Bool → Upstream E
new_upstream endpoint v4 = record {
  endpoint = endpoint;
  ipv4 = v4;
  queries = 0;
  invalids = 0;
  nosources = 0;
  failed = 0;
  times = no_times;
}

abbrev pub is_ipv4 : IpProtocolVersion → Bool
is_ipv4 ipv4 = true
is_ipv4 ipv6 = false
is_ipv4 no_version = false

-- The network library's addresses: `make_address_v4` or `_v6`, with the port; none if it throws.
module _ {E : Type 0} (make_endpoint : Bool → Text → ℕ → Option E) (library : Library) where
  -- `initUpstreamServers`
  unfoldable pub init_upstream_servers : List UpstreamServer → Try (List (Upstream E))
  init_upstream_servers [] = returned []
  init_upstream_servers (u ∷ us) =
      let rest = init_upstream_servers us in
      let v4 = is_ipv4 u.protocol_version in
      if not u.udp then rest else elim (make_endpoint v4 u.host_ip u.port) [
        | none ↦ thrown system_error
        | some endpoint ↦ elim (library.inet_pton v4 u.host_ip) [
          | none ↦ rest
          | some bytes ↦ try_then rest λ more. returned (new_upstream endpoint v4 ∷ more)
        ]
      ]

-- `loadRules`: without a file there are no rules.
unfoldable pub load_rules : Library → ℕ → Locals → Text → World → Try (Unit {0}) × World
unfolding read_lines lines_from parse
load_rules library fuel l name w = elim (w.files name) [
  | none ↦ (returned tt, w)
  | some content ↦ read_lines library (λ a w'. parse library fuel l a w') (lines_from [] content) w
]

-- `ShmRuleEngine` of the main process: new pages of shared memory are zero.
unfoldable pub new_block : RuleData
new_block = record {
  policy = record { action = 0; target_ipv4 = zeros 16; target_ipv6 = zeros 16 };
  size = 0;
  bytes = λ i. 0;
}
  where
    zeros : ℕ → List ℕ
    zeros zero = []
    zeros (suc n) = 0 ∷ zeros n
