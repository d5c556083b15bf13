-- ===== src/Rule/Evaluate/Decide.antt =====
-- The rules as a list, and the first of them that applies to a request.
use dns_wrapper.Common.{
  ℕ, ◌+◌, ◌≤◌, ◌≡◌, refl, Bool, true, ◌&&◌, List, [], ◌∷◌, Option, none, some, ok, arith,
  if◌then◌else◌, length, length-append, All,
}
use dns_wrapper.Common.Memory.{Memory, Holds, Holds-append}
use dns_wrapper.Rule.Layout.{IpAddressData, Policy, RuleData, data_size}
use dns_wrapper.Rule.Layout.Image.{
  Key, by_ip, by_eth, by_both, StoredRule, IsStored, to_rule, image, images, next_rule-Holds,
}
use dns_wrapper.Rule.Shm.Edit.{Encodes}
use dns_wrapper.Rule.Evaluate.{
  Source, Decision, resolve, redirect_to, bytes_equal, same_flag, ip_matches, matches, action_of,
  policy_of, evaluate_from, evaluate,
}

abbrev pub key_applies : Source → Key → Bool
key_applies s (by_ip d) = ip_matches d s
key_applies s (by_eth e) = bytes_equal e s.ethaddr
key_applies s (by_both d e) = ip_matches d s && bytes_equal e s.ethaddr

-- A redirection applies to a request of its own family only.
abbrev pub target_applies : Source → Option IpAddressData → Bool
target_applies s none = true
target_applies s (some t) = same_flag s.ipv4 t.ipv4

abbrev pub applies : Source → StoredRule → Bool
applies s r = key_applies s r.key && target_applies s r.target

abbrev pub ruled : Option IpAddressData → Decision
ruled none = resolve
ruled (some t) = redirect_to t.ipaddr

abbrev pub decide : Source → Policy → List StoredRule → Decision
decide s p [] = policy_of s p
decide s p (r ∷ rs) = if applies s r then ruled r.target else decide s p rs

matches-applies : (s : Source) (r : StoredRule) → matches s (to_rule r) ≡ ok (applies s r)
unfolding matches
matches-applies s r = parts_lem r.key r.target
  where
    parts_lem :
        (k : Key) (t : Option IpAddressData)
        → matches s (to_rule (record { key = k; target = t }))
          ≡ ok (applies s (record { key = k; target = t }))
    parts_lem (by_ip d) none = ground arith
    parts_lem (by_ip d) (some t) = ground arith
    parts_lem (by_eth e) none = ground arith
    parts_lem (by_eth e) (some t) = ground arith
    parts_lem (by_both d e) none = ground arith
    parts_lem (by_both d e) (some t) = ground arith

action_of-ruled : (r : StoredRule) → action_of (to_rule r) ≡ ok (ruled r.target)
unfolding action_of
action_of-ruled r = target_lem r.key r.target
  where
    target_lem :
        (k : Key) (t : Option IpAddressData)
        → action_of (to_rule (record { key = k; target = t })) ≡ ok (ruled t)
    target_lem k none = refl
    target_lem k (some t) = refl

evaluate_from_lem :
    (s : Source) (p : Policy) (m : Memory) (at : ℕ) (rs : List StoredRule)
    → All IsStored rs
    → at + length (images rs) ≤ data_size
    → Holds m at (images rs)
    → evaluate_from s p m (length rs) at ≡ ok (decide s p rs)
unfolding evaluate_from
evaluate_from_lem s p m at [] good room holds = refl
evaluate_from_lem s p m at (r ∷ rs) (good, goods) room holds =
    let (here, behind) =
      Holds-append m at (at + length (image r)) (image r) (images rs) refl holds in
    let total = length-append (image r) (images rs) in
    let first = next_rule-Holds m at r good (omega arith) here in
    let rest = evaluate_from_lem s p m (at + length (image r)) rs goods (omega arith) behind in
    rw (first, matches-applies s r, rest, action_of-ruled r) (ground arith)

-- The scan of a block that holds a list of rules returns the decision of the first rule that
-- applies to the request's source, or the policy's if none applies.
pub evaluate_lem :
    (s : Source) (d : RuleData) (rs : List StoredRule)
    → Encodes d rs
    → evaluate s d ≡ ok (decide s d.policy rs)
unfolding evaluate
evaluate_lem s d rs enc =
    rw enc.count
      (evaluate_from_lem s d.policy d.bytes 0 rs enc.stored (omega (arith, enc.room)) enc.here)
