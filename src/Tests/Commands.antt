-- ===== src/Tests/Commands.antt =====
-- Command lines and files of commands. The option library and the address conversions know one
-- address and one line here.
use dns_wrapper.Common.{◌≡◌, refl, true, false, [], ◌∷◌, none, some, arith, if◌then◌else◌}
use dns_wrapper.Rule.Layout.{RuleData}
use dns_wrapper.Rule.Layout.Image.{StoredRule, by_ip}
use dns_wrapper.Rule.Shm.History.{append, clear, listed, Rules, Represents}
use dns_wrapper.Text.{
  Text, codes, returned, to_eth_address, eth_address_to_string, regex_match, match_then,
  get_ip_address_type,
}
use dns_wrapper.Text.Eth.{to_eth_address-eth_address_to_string}
use dns_wrapper.Parser
use dns_wrapper.Parser.{Library, Locals, Arguments, exit_with_no_error, exit_of}
use dns_wrapper.Parser.Commands.{World, parse, lines_from, strip_comment}
use dns_wrapper.Parser.Describe.{parse_lem}
use dns_wrapper.Parser.Script.{done, blank, edit, listed_until, parse-load}
use dns_wrapper.Tests.Rules.{client_ip, portal_ip, redirecting, two_rules, block, block-Encodes}

to_eth_address-eth_address_to_string_example :
    to_eth_address
      (eth_address_to_string (2 ∷ 0 ∷ 0 ∷ 0 ∷ 0 ∷ 31 ∷ []))
      (9 ∷ 9 ∷ 9 ∷ 9 ∷ 9 ∷ 9 ∷ [])
    ≡ returned (true, 2 ∷ 0 ∷ 0 ∷ 0 ∷ 0 ∷ 31 ∷ [])
to_eth_address-eth_address_to_string_example =
    to_eth_address-eth_address_to_string (2 ∷ 0 ∷ 0 ∷ 0 ∷ 0 ∷ 31 ∷ []) (9 ∷ 9 ∷ 9 ∷ 9 ∷ 9 ∷ 9 ∷ [])
      refl refl
      (omega arith, (omega arith, (omega arith, (omega arith, (omega arith, (omega arith, tt))))))

-- Arguments of a command without any option.
abbrev pub bare : Text → Arguments
bare cmd = record {
  command = some cmd;
  help = false;
  add = returned (record { index = none; ip = none; mac = none; target = none; action = none });
  delete = returned none;
  policy = returned (record { action = none; target4 = none; target6 = none });
  file = returned none;
}

abbrev pub library : Library
library = record {
  inet_pton = λ v4 a. if v4 then some (10 ∷ 0 ∷ 0 ∷ 7 ∷ []) else none;
  inet_ntop = λ v4 ip. some (codes "10.0.0.7");
  arguments = λ s. returned (bare (codes "clear"));
  can_open = λ n. true;
}

abbrev pub locals : Locals
locals = record {
  ipd = record { ipv4 = false; ipaddr = portal_ip };
  target = record { ipv4 = false; ipaddr = portal_ip };
  eth = 9 ∷ 9 ∷ 9 ∷ 9 ∷ 9 ∷ 9 ∷ [];
  ipaddr4 = portal_ip;
  ipaddr6 = portal_ip;
}

abbrev pub rules : Rules
rules = record { policy = redirecting; rules = two_rules }

abbrev pub world : World
world = record { rules = block; printed = []; files = λ n. some (codes "# start\nclear # all\n") }

pub block-Represents : Represents block rules
unfolding block
block-Represents = record { policy = refl; encodes = block-Encodes }

abbrev pub new_rule : StoredRule
new_rule = record {
  key = by_ip (record { ipv4 = true; ipaddr = client_ip });
  target = some (record { ipv4 = true; ipaddr = client_ip });
}

abbrev pub add_arguments : Arguments
add_arguments = record (bare (codes "add")) {
  add = returned (record {
    index = none;
    ip = some (codes "10.0.0.7");
    mac = none;
    target = some (codes "10.0.0.7");
    action = some (codes "redirect");
  });
}

parse_lem_example :
    (d : RuleData) × (parse library 1 locals add_arguments world
      ≡ (returned (exit_of (listed (append new_rule) rules).0), record world { rules = d }))
    × Represents d (listed (append new_rule) rules).1
unfolding Parser.parse_ip_address get_ip_address_type regex_match match_then Parser.to_ip_address
parse_lem_example =
    parse_lem library locals 0 add_arguments (append new_rule) world rules
      (record { ip = refl; eth = tt; target = refl })
      (refl, refl, _, refl, refl, (_, refl, refl, refl), (refl, refl)) block-Represents

-- A file with a comment and a command.
parse-load_example :
    (d : RuleData) × (parse library 2 locals
        (record (bare (codes "load")) { file = returned (some (codes "f")) })
        world
      ≡ (returned exit_with_no_error, record world { rules = d }))
    × Represents d (listed_until (clear ∷ []) rules)
unfolding lines_from strip_comment
parse-load_example =
    parse-load library locals 0 _ (codes "f") (codes "# start\nclear # all\n") (clear ∷ []) world
      rules refl refl refl refl
      (blank refl
        (edit b'c' (codes "lear ") (bare (codes "clear")) clear refl refl (refl, refl) tt done))
      block-Represents
