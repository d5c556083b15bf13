-- ===== src/Parser/Show.antt =====
-- `operator<<` of src/rule/shm.cpp: the rules as text.
use dns_wrapper.Common.{
  ℕ, zero, suc, ◌+◌, ◌/◌, ◌%◌, Bool, true, false, ◌==◌, ltb, if◌then◌else◌, [], ◌∷◌, ◌++◌, Option,
  none, some, Result, ok, fault, bind,
}
use dns_wrapper.Common.Memory.{Memory}
use dns_wrapper.Net.Buffer.{IpAddress, EthAddress}
use dns_wrapper.Rule.Layout.{
  IpAddressData, Rule, Policy, RuleData, dns, redirect, has_ip, has_eth, next_rule,
}
use dns_wrapper.Text.{Text, codes, eth_address_to_string}
use dns_wrapper.Parser.{Library}

-- A number below 10 ^ 20 in decimal digits.
unfoldable pub digits : ℕ → ℕ → Text
digits zero n = []
digits (suc k) n =
    let front = digits k (n / 10) in
    if ltb n 10 then (b'0' + n) ∷ [] else front ++ (b'0' + n % 10) ∷ []

abbrev pub decimal : ℕ → Text
decimal n = digits 20 n

abbrev pub newline : Text
newline = 10 ∷ []

-- `showParam`
unfoldable pub show_param : Text → Bool → Text
show_param what true = codes " --" ++ what ++ codes " "
show_param what false = codes "--" ++ what ++ codes " "

abbrev pub action_text : ℕ → Text
action_text a = if a == dns then codes "dns" else codes "redirect"

module _ (library : Library) where
  -- `IpAddressToString`: a failure leaves the text as it was.
  unfoldable pub ip_address_to_string : IpAddress → Bool → Text → Text
  ip_address_to_string ip v4 address = elim (library.inet_ntop v4 ip) [
    | none ↦ address
    | some text ↦ text
  ]

  -- What a rule's part prints, which the type says is there; a null pointer is `fault`.
  abbrev pub ip_part : Bool → Option IpAddressData → Result Text
  ip_part false d = ok []
  ip_part true none = fault
  ip_part true (some d) =
      ok (show_param (codes "ipaddr") false ++ ip_address_to_string d.ipaddr d.ipv4 [])

  abbrev pub eth_part : Bool → Bool → Option EthAddress → Result Text
  eth_part false space e = ok []
  eth_part true space none = fault
  eth_part true space (some e) = ok (show_param (codes "macaddr") space ++ eth_address_to_string e)

  abbrev pub target_part : Bool → Option IpAddressData → Result Text
  target_part false t = ok []
  target_part true none = fault
  target_part true (some t) =
      ok (show_param (codes "target") true ++ ip_address_to_string t.ipaddr t.ipv4 [])

  -- The body of the loop, up to the comment with the index.
  unfoldable pub show_rule : Rule → Result Text
  unfolding show_param ip_address_to_string eth_address_to_string
  show_rule r = bind (ip_part (has_ip r.rule_type) r.ipd) λ ip.
      bind (eth_part (has_eth r.rule_type) (has_ip r.rule_type) r.eth) λ eth.
        bind (target_part (r.action_type == redirect) r.target) λ target. ok (
          codes "add "
          ++ ip
          ++ eth
          ++ show_param (codes "action") true
          ++ action_text r.action_type
          ++ target)

  unfoldable pub show_rules : Memory → ℕ → ℕ → ℕ → Result Text
  unfolding show_rule digits
  show_rules m zero i p = ok []
  show_rules m (suc n) i p = bind (next_rule m p) λ (r, q). bind (show_rule r) λ line.
      bind (show_rules m n (suc i) q)
        λ rest. ok (line ++ codes " # " ++ decimal i ++ newline ++ rest)

  -- The same variable takes both addresses.
  unfoldable pub show_policy : Policy → Text
  unfolding show_param ip_address_to_string
  show_policy p =
      let address4 = ip_address_to_string p.target_ipv4 true [] in
      let address6 = ip_address_to_string p.target_ipv6 false address4 in
      codes "policy "
      ++ show_param (codes "action") true
      ++ codes " "
      ++ action_text p.action
      ++ (if p.action == redirect
          then show_param (codes "target4") true
            ++ address4
            ++ show_param (codes "target6") true
            ++ address6
          else [])

  unfoldable pub show : RuleData → Result Text
  unfolding show_rules show_policy
  show d = bind (show_rules d.bytes d.size 0 0) λ rules. ok (
      codes "# start"
      ++ newline
      ++ rules
      ++ show_policy d.policy
      ++ newline
      ++ codes "# end"
      ++ newline)
