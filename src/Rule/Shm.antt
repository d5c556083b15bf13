-- ===== src/Rule/Shm.antt =====
-- src/rule/shm.cpp: insertion and deletion of rules in the block of shared memory. The mutex is held
-- through each call, so a call is a function on the block.
pub mod Shift
pub mod Edit
pub mod Delete
pub mod Insert
pub mod History
use dns_wrapper.Common.{
  ℕ, zero, suc, ◌+◌, ◌-◌, Bool, true, false, not, ◌||◌, ◌==◌, ltb, leb, if◌then◌else◌, List, [],
  ◌∷◌, Result, ok, fault, bind, length,
}
use dns_wrapper.Common.Memory.{Memory, update, store}
use dns_wrapper.Net.Buffer.{IpAddress}
use dns_wrapper.Rule.Layout.{
  Rule, RuleData, data_size, header_bytes, ip_bytes, eth_bytes, has_ip, has_eth, has_target, width,
  skip, rule_image,
}

-- What the first loop of `insertRules` adds up.
unfoldable pub rule_bytes : Rule → ℕ
rule_bytes r =
    header_bytes
    + width (has_ip r.rule_type) ip_bytes
    + width (has_eth r.rule_type) eth_bytes
    + width (has_target r.action_type) ip_bytes

unfoldable pub total_bytes : List Rule → ℕ
total_bytes [] = 0
total_bytes (r ∷ rs) = rule_bytes r + total_bytes rs

-- `for (t = end + bytes; t > insertionPoint + bytes; t--) *t = *(t - bytes);`, by the rounds left.
unfoldable pub shift_up : ℕ → ℕ → ℕ → Memory → Result Memory
shift_up zero t bytes m = ok m
shift_up (suc n) t bytes m =
    if ltb t data_size then shift_up n (t - 1) bytes (update m t (m (t - bytes))) else fault

-- `for (t = deletionPoint; t + bytes < end; t++) *t = *(t + bytes);`, by the rounds left.
unfoldable pub shift_down : ℕ → ℕ → ℕ → Memory → Memory
shift_down zero t bytes m = m
shift_down (suc n) t bytes m = shift_down n (suc t) bytes (update m t (m (t + bytes)))

-- The loop that copies the new rules.
unfoldable pub write_rules : List Rule → ℕ → Memory → Result Memory
unfolding rule_image store
write_rules [] t m = ok m
write_rules (r ∷ rs) t m =
    bind (rule_image r) λ image. write_rules rs (t + rule_bytes r) (store m t image)

-- `insertRules`: the number of rules inserted, and the block.
unfoldable pub insert_rules : List Rule → ℕ → RuleData → Result (ℕ × RuleData)
insert_rules rules index d =
    let bytes = total_bytes rules in
    if ltb d.size index
    then ok (0, d)
    else bind (skip d.bytes index 0) λ point. bind (skip d.bytes (d.size - index) point) λ end.
      if ltb data_size (end + bytes)
      then ok (0, d)
      else bind (shift_up (end - point) (end + bytes) bytes d.bytes) λ m.
        bind (write_rules rules point m)
          λ m'. ok (length rules, record d { size = d.size + length rules; bytes = m' })

-- `deleteRule`
unfoldable pub delete_rule : ℕ → RuleData → Result (Bool × RuleData)
delete_rule index d =
    if d.size == 0 || leb d.size index
    then ok (false, d)
    else if index == d.size - 1
    then ok (true, record d { size = d.size - 1 })
    else bind (skip d.bytes index 0) λ point. bind (skip d.bytes 1 point) λ next.
      bind (skip d.bytes (d.size - (index + 1)) next) λ end. ok (
        true,
        record d {
          size = d.size - 1;
          bytes = shift_down (end - next) point (next - point) d.bytes;
        },
      )

-- The public calls; a `size_t` result read as bool is whether it is not 0.
abbrev done : Result (ℕ × RuleData) → Result (Bool × RuleData)
done r = bind r λ (n, d). ok (not (n == 0), d)

unfoldable pub append_rule : Rule → RuleData → Result (Bool × RuleData)
append_rule r d = done (insert_rules (r ∷ []) d.size d)

unfoldable pub insert_rule : Rule → ℕ → RuleData → Result (Bool × RuleData)
insert_rule r index d = done (insert_rules (r ∷ []) index d)

unfoldable pub clear_rules : RuleData → RuleData
clear_rules d = record d { size = 0 }

unfoldable pub set_policy : ℕ → IpAddress → IpAddress → RuleData → RuleData
set_policy action target4 target6 d = record d {
  policy = record { action = action; target_ipv4 = target4; target_ipv6 = target6 };
}
