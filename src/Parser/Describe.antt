-- ===== src/Parser/Describe.antt =====
-- A command line that describes an edit does what the edit does to the list of rules.
use dns_wrapper.Common.{ℕ, suc, ◌≡◌, refl, ap, ◌∙◌, Bool, true, false, Option, none, some, Result}
use dns_wrapper.Rule.Layout.{
  IpAddressData, Rule, dns, redirect, ip_address, eth_address, ip_and_eth_address, RuleData, part,
  rule_image,
}
use dns_wrapper.Net.Buffer.{EthAddress}
use dns_wrapper.Rule.Layout.Image.{Key, by_ip, by_eth, by_both, StoredRule, to_rule}
use dns_wrapper.Rule.Evaluate.{bytes_equal}
use dns_wrapper.Rule.Shm.{append_rule, insert_rules, write_rules, rule_bytes, total_bytes}
use dns_wrapper.Rule.Shm.History.{
  Command, append, delete, clear, policy, IsCommand, execute, listed, Rules, Represents,
  execute_lem,
}
use dns_wrapper.Text.{Text, codes, Try, returned, try_then, to_eth_address}
use dns_wrapper.Parser.{
  Library, Locals, AddValues, PolicyValues, Arguments, ExitCode, exit_of, lift, ip_value, eth_value,
  parse_ip_address, get_action_type, add_rule, run_add, run_delete, run_policy,
}
use dns_wrapper.Parser.Commands.{World, engine, run_command, parse}

module _ (library : Library) (l : Locals) where
  -- The values name the addresses of a key.
  abbrev KeyDescribed : AddValues → Key → Type 0
  KeyDescribed v (by_ip d) =
      (a : Text) × (v.ip ≡ some a)
      × (parse_ip_address library a (codes "ipaddr") l.ipd.ipaddr ≡ returned d)
      × (v.mac ≡ none)
  KeyDescribed v (by_eth e) =
      (m : Text) × (v.ip ≡ none) × (v.mac ≡ some m) × (to_eth_address m l.eth ≡ returned (true, e))
  KeyDescribed v (by_both d e) =
      (a : Text) × (m : Text) × (v.ip ≡ some a)
      × (parse_ip_address library a (codes "ipaddr") l.ipd.ipaddr ≡ returned d)
      × (v.mac ≡ some m)
      × (to_eth_address m l.eth ≡ returned (true, e))

  -- The values name an action. Without a target, `redirect` takes what the local variable holds.
  abbrev TargetDescribed : AddValues → Option IpAddressData → Type 0
  TargetDescribed v none =
      (v.action ≡ some (codes "dns"))
      × (t : IpAddressData) × (ip_value library v.target (codes "target") l.target ≡ returned t)
  TargetDescribed v (some t) =
      (v.action ≡ some (codes "redirect"))
      × (ip_value library v.target (codes "target") l.target ≡ returned t)

  -- The rule that the values give is the described one, for the call that appends it.
  record Added (v : AddValues) (s : StoredRule) : Type 0 where
    rule : Rule
    given : add_rule library l v ≡ returned rule
    same : (d : RuleData) → append_rule rule d ≡ append_rule (to_rule s) d

  -- The rule with no null pointer that the program passes.
  abbrev filled : ℕ → ℕ → IpAddressData → EthAddress → IpAddressData → Rule
  filled rule_type action_type ipd eth target = record {
    rule_type = rule_type;
    action_type = action_type;
    ipd = some ipd;
    eth = some eth;
    target = some target;
  }

  added :
      (v : AddValues) (k : Key) (t : Option IpAddressData)
      → KeyDescribed v k
      → TargetDescribed v t
      → Added v (record { key = k; target = t })
  unfolding add_rule eth_value get_action_type append_rule insert_rules write_rules rule_image part
      rule_bytes total_bytes bytes_equal
  added v (by_ip d) none (a, ip, parsed, mac) (action, t, target) = record {
    rule = filled ip_address dns d l.eth t;
    given = rw (add_rule, ip, mac, action) (rw (eth_value, try_then, parsed, target) refl);
    same = λ d'. refl;
  }
  added v (by_ip d) (some t) (a, ip, parsed, mac) (action, target) = record {
    rule = filled ip_address redirect d l.eth t;
    given = rw (add_rule, ip, mac, action) (rw (eth_value, try_then, parsed, target) refl);
    same = λ d'. refl;
  }
  added v (by_eth e) none (m, ip, mac, parsed) (action, t, target) = record {
    rule = filled eth_address dns l.ipd e t;
    given = rw (add_rule, ip, mac, action) (rw (eth_value, try_then, parsed, target) refl);
    same = λ d'. refl;
  }
  added v (by_eth e) (some t) (m, ip, mac, parsed) (action, target) = record {
    rule = filled eth_address redirect l.ipd e t;
    given = rw (add_rule, ip, mac, action) (rw (eth_value, try_then, parsed, target) refl);
    same = λ d'. refl;
  }
  added v (by_both d e) none (a, m, ip, parsed_ip, mac, parsed) (action, t, target) = record {
    rule = filled ip_and_eth_address dns d e t;
    given =
        rw (add_rule, ip, mac, action) (rw (eth_value, try_then, parsed_ip, parsed, target) refl);
    same = λ d'. refl;
  }
  added v (by_both d e) (some t) (a, m, ip, parsed_ip, mac, parsed) (action, target) = record {
    rule = filled ip_and_eth_address redirect d e t;
    given =
        rw (add_rule, ip, mac, action) (rw (eth_value, try_then, parsed_ip, parsed, target) refl);
    same = λ d'. refl;
  }

  -- The arguments describe an edit: an appended rule, a deletion, a clearing, a policy.
  abbrev pub Describes : Arguments → Command → Type 0
  Describes a (append s) =
      (a.command ≡ some (codes "add"))
      × (a.help ≡ false)
      × (v : AddValues) × (a.add ≡ returned v)
      × (v.index ≡ none)
      × KeyDescribed v s.key
      × TargetDescribed v s.target
  Describes a (delete i) =
      (a.command ≡ some (codes "delete")) × (a.help ≡ false) × (a.delete ≡ returned (some i))
  Describes a clear = (a.command ≡ some (codes "clear")) × (a.help ≡ false)
  Describes a (policy p) =
      (a.command ≡ some (codes "policy"))
      × (a.help ≡ false)
      × (v : PolicyValues) × (a.policy ≡ returned v)
      × (action : Text) × (v.action ≡ some action)
      × (get_action_type action ≡ returned p.action)
      × (a4 : Text) × (v.target4 ≡ some a4)
      × (t4 : IpAddressData) × (parse_ip_address library a4 (codes "target4") l.ipaddr4
          ≡ returned t4)
      × (t4.ipaddr ≡ p.target_ipv4)
      × (a6 : Text) × (v.target6 ≡ some a6)
      × (t6 : IpAddressData) × (parse_ip_address library a6 (codes "target6") l.ipaddr6
          ≡ returned t6)
      × (t6.ipaddr ≡ p.target_ipv6)

  -- What the call of an edit leaves.
  abbrev after : World → Result (Bool × RuleData) → Try ExitCode × World
  after w r = engine w (lift r)

  -- `Parse` on arguments that describe an edit is the call of that edit.
  parse-execute :
      (fuel : ℕ) (a : Arguments) (c : Command) (w : World)
      → Describes a c
      → parse library (suc fuel) l a w ≡ after w (execute c w.rules)
  unfolding parse run_command bytes_equal execute run_add run_delete run_policy
  parse-execute fuel a (append s) w (command, help, v, add, index, key, target) =
      let rule = added v s.key s.target key target in
      rw (parse, command)
        (rw (help, add)
          (rw (run_add, rule.given) (rw (try_then, index) (ap (after w) (rule.same w.rules)))))
  parse-execute fuel a (delete i) w (command, help, index) =
      rw (parse, command) (rw (help, index) refl)
  parse-execute fuel a clear w (command, help) = rw (parse, command) (rw help refl)
  parse-execute fuel a (policy p) w
        (command, help, v, values, action, va, pa, a4, v4, t4, p4, e4, a6, v6, t6, p6, e6) =
      rw (parse, command)
        (rw (help, values) (rw (run_policy, va, v4, v6) (rw (pa, p4, p6) (rw (e4, e6) refl))))

  -- Arguments that describe an edit of a rule with the parts its type asks for, on a block
  -- that holds a list: Parse answers as the edit of the list does, changes nothing but the
  -- block, and the block then holds the edited list.
  pub parse_lem :
      (fuel : ℕ) (a : Arguments) (c : Command) (w : World) (r : Rules)
      → IsCommand c
      → Describes a c
      → Represents w.rules r
      → (d : RuleData) × (parse library (suc fuel) l a w
          ≡ (returned (exit_of (listed c r).0), record w { rules = d }))
        × Represents d (listed c r).1
  parse_lem fuel a c w r good describes rep =
      let (d, runs, rep') = execute_lem c w.rules r good rep in
      (d, parse-execute fuel a c w describes ∙ ap (after w) runs, rep')
