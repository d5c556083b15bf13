-- ===== src/Parser.antt =====
-- src/rule/parse.cpp: the commands that edit the rules.
pub mod Show
pub mod Commands
pub mod Describe
pub mod Script
pub mod Saved
pub mod Reload
use dns_wrapper.Common.{
  ℕ, ◌-◌, ◌^◌, Bool, true, false, ◌&&◌, ◌==◌, if◌then◌else◌, List, [], ◌∷◌, ◌++◌, Option, none,
  some, Result, ok, err, fault, stuck, length, drop,
}
use dns_wrapper.Net.Buffer.{IpAddress, EthAddress}
use dns_wrapper.Rule.Layout.{
  IpAddressData, Rule, RuleData, dns, redirect, ip_address, eth_address, ip_and_eth_address,
}
use dns_wrapper.Rule.Evaluate.{bytes_equal}
use dns_wrapper.Rule.Shm.{append_rule, insert_rule, delete_rule, clear_rules, set_policy}
use dns_wrapper.Text.{
  Text, codes, Exception, invalid_option_value, at_least_one_value_required, Try, returned, thrown,
  broken, unfinished, try_then, IpProtocolVersion, ipv4, ipv6, no_version, get_ip_address_type,
  to_eth_address,
}

-- What the option library finds in the arguments of a command: the values of `vm2` in each case.
pub record AddValues : Type 0 where
  pub index : Option ℕ
  pub ip : Option Text
  pub mac : Option Text
  pub target : Option Text
  pub action : Option Text

pub record PolicyValues : Type 0 where
  pub action : Option Text
  pub target4 : Option Text
  pub target6 : Option Text

-- The command with the values that its arguments would give, and whether the caller's `vm` has
-- the help option.
pub record Arguments : Type 0 where
  pub command : Option Text
  pub help : Bool
  pub add : Try AddValues
  pub delete : Try (Option ℕ)
  pub policy : Try PolicyValues
  pub file : Try (Option Text)

-- The system's address conversions, and the option library on a line of a file.
pub record Library : Type 0 where
  pub inet_pton : Bool → Text → Option (List ℕ)
  pub inet_ntop : Bool → IpAddress → Option Text
  pub arguments : Text → Try Arguments
  pub can_open : Text → Bool

-- What stands in the local variables before they are set.
pub record Locals : Type 0 where
  pub ipd : IpAddressData
  pub target : IpAddressData
  pub eth : EthAddress
  pub ipaddr4 : IpAddress
  pub ipaddr6 : IpAddress

-- `Args::ExitCode`
pub data ExitCode : Type 0 where
  no_exit exit_with_no_error exit_with_error exit_with_unlock : ExitCode

-- `SIZE_MAX` of a 64-bit machine.
abbrev pub size_max : ℕ
size_max = 2 ^ 64 - 1

-- The bytes that `inet_pton` writes at the start of the union.
abbrev pub over : List ℕ → IpAddress → IpAddress
over bytes old = bytes ++ drop (length bytes) old

abbrev pub is_version4 : IpProtocolVersion → Bool
is_version4 ipv4 = true
is_version4 ipv6 = false
is_version4 no_version = false

-- The outcome of a call of the engine; none of these calls gives an error code.
abbrev pub lift : {A : Type 0} → Result A → Try A
lift (ok a) = returned a
lift (err e) = broken
lift fault = broken
lift stuck = unfinished

-- `getActionType`
unfoldable pub get_action_type : Text → Try ℕ
unfolding bytes_equal
get_action_type a =
    if bytes_equal a (codes "dns")
    then returned dns
    else if bytes_equal a (codes "redirect")
    then returned redirect
    else thrown (invalid_option_value (codes "action") a)

abbrev pub exit_of : Bool → ExitCode
exit_of true = exit_with_no_error
exit_of false = exit_with_error

module _ (library : Library) where
  -- `ToIpAddress` of src/unix/unixutil.cpp: whether it returns 1, and the address.
  unfoldable pub to_ip_address : Text → Bool → IpAddress → Option IpAddress
  to_ip_address a v4 old = elim (library.inet_pton v4 a) [
    | none ↦ none
    | some bytes ↦ some (over bytes old)
  ]

  -- `parseIpAddress`
  unfoldable pub parse_ip_address : Text → Text → IpAddress → Try IpAddressData
  unfolding get_ip_address_type to_ip_address
  parse_ip_address a option old =
      let v4 = is_version4 (get_ip_address_type a) in
      elim (to_ip_address a v4 old) [
        | none ↦ thrown (invalid_option_value option a)
        | some ip ↦ returned (record { ipv4 = v4; ipaddr = ip })
      ]

  -- The values of an option that `add` may have: the local variable, or what the value gives.
  abbrev pub ip_value : Option Text → Text → IpAddressData → Try IpAddressData
  ip_value none option old = returned old
  ip_value (some a) option old = parse_ip_address a option old.ipaddr

  unfoldable pub eth_value : Option Text → EthAddress → Try EthAddress
  unfolding to_eth_address
  eth_value none old = returned old
  eth_value (some a) old =
      try_then (to_eth_address a old)
        λ (done, e). if done then returned e else thrown (invalid_option_value (codes "macaddr") a)

  abbrev pub type_value : Option Text → Option Text → Try ℕ
  type_value none none = thrown (at_least_one_value_required (codes "ipaddr or macaddr"))
  type_value (some a) none = returned ip_address
  type_value none (some b) = returned eth_address
  type_value (some a) (some b) = returned ip_and_eth_address

  abbrev pub required : {A : Type 0} → Text → (Text → Try A) → Option Text → Try A
  required option f none = thrown (at_least_one_value_required option)
  required option f (some a) = f a

  -- The rule that `add` is given.
  unfoldable pub add_rule : Locals → AddValues → Try Rule
  unfolding parse_ip_address eth_value get_action_type
  add_rule l v = try_then (ip_value v.ip (codes "ipaddr") l.ipd) λ ipd.
      try_then (eth_value v.mac l.eth) λ eth. try_then (type_value v.ip v.mac) λ rule_type.
        try_then (ip_value v.target (codes "target") l.target) λ target.
          try_then (required (codes "action") get_action_type v.action) λ action_type.
            returned (record {
              rule_type = rule_type;
              action_type = action_type;
              ipd = some ipd;
              eth = some eth;
              target = some target;
            })

  -- The cases `add`, `delete` and `policy` of `Parse`, on the values.
  unfoldable pub run_add : Locals → AddValues → RuleData → Try (Bool × RuleData)
  unfolding add_rule append_rule insert_rule
  run_add l v d = try_then (add_rule l v) λ rule. elim v.index [
    | none ↦ lift (append_rule rule d)
    | some i ↦ if i == size_max then lift (append_rule rule d) else lift (insert_rule rule i d)
  ]

  unfoldable pub run_delete : Option ℕ → RuleData → Try (Bool × RuleData)
  unfolding delete_rule
  run_delete none d = thrown (at_least_one_value_required (codes "index"))
  run_delete (some i) d = lift (delete_rule i d)

  unfoldable pub run_policy : Locals → PolicyValues → RuleData → Try (Bool × RuleData)
  unfolding parse_ip_address get_action_type set_policy
  run_policy l v d = try_then (required (codes "action") get_action_type v.action) λ action_type.
      try_then
        (required (codes "target4") (λ a. parse_ip_address a (codes "target4") l.ipaddr4) v.target4)
        λ t4.
          try_then
            (required (codes "target6") (λ a. parse_ip_address a (codes "target6") l.ipaddr6)
              v.target6)
            λ t6. returned (true, set_policy action_type t4.ipaddr t6.ipaddr d)
