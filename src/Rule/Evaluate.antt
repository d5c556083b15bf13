-- ===== src/Rule/Evaluate.antt =====
-- `ShmRuleEngine::Evaluate` of src/rule/shm.cpp: the first rule that matches a request decides, and
-- the policy decides the rest.
pub mod Decide
use dns_wrapper.Common.{
  ℕ, zero, suc, Bool, true, false, not, ◌&&◌, ◌==◌, if◌then◌else◌, List, [], ◌∷◌, Option, none,
  some, Result, ok, fault, bind, take,
}
use dns_wrapper.Common.Memory.{Memory}
use dns_wrapper.Net.Buffer.{IpAddress, EthAddress}
use dns_wrapper.Rule.Layout.{
  IpAddressData, Rule, Policy, RuleData, dns, has_ip, has_eth, has_target, next_rule,
}

-- What `Evaluate` reads of its input: whether it came over IPv4, and the addresses of its source.
pub record Source : Type 0 where
  pub ipv4 : Bool
  pub ethaddr : EthAddress
  pub ipaddr : IpAddress

-- The call that `Evaluate` makes on the server.
pub data Decision : Type 0 where
  resolve : Decision
  redirect_to : IpAddress → Decision

unfoldable pub bytes_equal : List ℕ → List ℕ → Bool
bytes_equal [] [] = true
bytes_equal [] (y ∷ ys) = false
bytes_equal (x ∷ xs) [] = false
bytes_equal (x ∷ xs) (y ∷ ys) = x == y && bytes_equal xs ys

abbrev pub same_flag : Bool → Bool → Bool
same_flag true b = b
same_flag false b = not b

-- An address of the rule against the source's: four bytes of IPv4, sixteen of IPv6.
unfoldable pub ip_matches : IpAddressData → Source → Bool
unfolding bytes_equal
ip_matches d s =
    same_flag d.ipv4 s.ipv4
    && (if d.ipv4
        then bytes_equal (take 4 d.ipaddr) (take 4 s.ipaddr)
        else bytes_equal d.ipaddr s.ipaddr)

-- A test that the rule's type may ask for, on what a pointer names.
abbrev asked : {A : Type 0} → Bool → Option A → (A → Bool) → Result Bool
asked false x test = ok true
asked true none test = fault
asked true (some x) test = ok (test x)

-- The guards of the loop of `Evaluate`: no `continue` is taken.
unfoldable pub matches : Source → Rule → Result Bool
unfolding ip_matches
matches s r = bind (asked (has_ip r.rule_type) r.ipd (λ d. ip_matches d s)) λ ip.
    if not ip
    then ok false
    else bind (asked (has_eth r.rule_type) r.eth (λ e. bytes_equal e s.ethaddr)) λ eth.
      if not eth
      then ok false
      else asked (has_target r.action_type) r.target (λ t. same_flag s.ipv4 t.ipv4)

unfoldable pub action_of : Rule → Result Decision
action_of r =
    if r.action_type == dns
    then ok resolve
    else elim r.target [ none ↦ fault | some t ↦ ok (redirect_to t.ipaddr) ]

unfoldable pub policy_of : Source → Policy → Decision
policy_of s p =
    if p.action == dns
    then resolve
    else if s.ipv4
    then redirect_to p.target_ipv4
    else redirect_to p.target_ipv6

-- The loop over the rules that are left, and the policy behind it.
unfoldable pub evaluate_from : Source → Policy → Memory → ℕ → ℕ → Result Decision
unfolding matches action_of policy_of
evaluate_from s p m zero at = ok (policy_of s p)
evaluate_from s p m (suc n) at =
    bind (next_rule m at)
      λ (r, next). bind (matches s r) λ hit. if hit then action_of r else evaluate_from s p m n next

unfoldable pub evaluate : Source → RuleData → Result Decision
evaluate s d = evaluate_from s d.policy d.bytes d.size 0
