-- ===== src/Tests/Rules.antt =====
-- The shared block with two rules: a MAC address that is resolved, and an IPv4 address that is
-- redirected.
use dns_wrapper.Common.{
  ℕ, ◌+◌, ◌≡◌, ◌↔◌, refl, true, List, [], ◌∷◌, some, none, ok, bind, arith, length, All,
}
use dns_wrapper.Common.Memory.{Holds-store, store}
use dns_wrapper.Rule.Layout.{RuleData, Policy}
use dns_wrapper.Rule.Layout.Image.{StoredRule, IsStored, by_eth, by_ip, images, image, to_rule}
use dns_wrapper.Rule.Shm.{append_rule, delete_rule, insert_rule}
use dns_wrapper.Rule.Shm.Edit.{Encodes, Answers, listed_append, append_rule_lem}
use dns_wrapper.Rule.Shm.Delete.{delete_rule_lem}
use dns_wrapper.Rule.Shm.Insert.{insert_rule_lem}
use dns_wrapper.Rule.Shm.History.{
  Command, append, delete, IsCommand, execute_all, Rules, listed_all, Represents,
  evaluate-execute_all,
}
use dns_wrapper.Rule.Evaluate.{Source, resolve, bytes_equal, evaluate}
use dns_wrapper.Rule.Evaluate.Decide.{evaluate_lem}

abbrev pub client_mac : List ℕ
client_mac = 2 ∷ 0 ∷ 0 ∷ 0 ∷ 0 ∷ 1 ∷ []

abbrev pub client_ip : List ℕ
client_ip = 10 ∷ 0 ∷ 0 ∷ 7 ∷ 0 ∷ 0 ∷ 0 ∷ 0 ∷ 0 ∷ 0 ∷ 0 ∷ 0 ∷ 0 ∷ 0 ∷ 0 ∷ 0 ∷ []

abbrev pub portal_ip : List ℕ
portal_ip = 10 ∷ 0 ∷ 0 ∷ 1 ∷ 0 ∷ 0 ∷ 0 ∷ 0 ∷ 0 ∷ 0 ∷ 0 ∷ 0 ∷ 0 ∷ 0 ∷ 0 ∷ 0 ∷ []

abbrev pub mac_rule : StoredRule
mac_rule = record { key = by_eth client_mac; target = none }

abbrev pub ip_rule : StoredRule
ip_rule = record {
  key = by_ip (record { ipv4 = true; ipaddr = client_ip });
  target = some (record { ipv4 = true; ipaddr = portal_ip });
}

pub mac_rule-IsStored : IsStored mac_rule
mac_rule-IsStored = record { ip = tt; eth = refl; target = tt }

pub ip_rule-IsStored : IsStored ip_rule
ip_rule-IsStored = record { ip = refl; eth = tt; target = refl }

abbrev pub two_rules : List StoredRule
two_rules = mac_rule ∷ ip_rule ∷ []

abbrev pub redirecting : Policy
redirecting = record { action = 1; target_ipv4 = portal_ip; target_ipv6 = portal_ip }

unfoldable pub block : RuleData
block = record { policy = redirecting; size = 2; bytes = store (λ i. 0) 0 (images two_rules) }

pub block-Encodes : Encodes block two_rules
unfolding block
block-Encodes = record {
  count = refl;
  stored = (mac_rule-IsStored, (ip_rule-IsStored, tt));
  room = omega arith;
  here = Holds-store (λ i. 0) 0 (images two_rules);
}

abbrev pub client : Source
client = record { ipv4 = true; ethaddr = client_mac; ipaddr = client_ip }

abbrev pub empty_rules : Rules
empty_rules = record { policy = redirecting; rules = [] }

unfoldable pub empty_block : RuleData
empty_block = record { policy = redirecting; size = 0; bytes = λ i. 0 }

pub empty_block-Represents : Represents empty_block empty_rules
unfolding empty_block
empty_block-Represents = record {
  policy = refl;
  encodes = record { count = refl; stored = tt; room = omega arith; here = tt };
}

abbrev edits : List Command
edits = append ip_rule ∷ append mac_rule ∷ delete 0 ∷ []

edits-IsCommand : All IsCommand edits
edits-IsCommand = (ip_rule-IsStored, (mac_rule-IsStored, (tt, tt)))

append_rule_lem_example :
    Answers (append_rule (to_rule mac_rule) block) block (listed_append mac_rule two_rules)
append_rule_lem_example = append_rule_lem block two_rules mac_rule block-Encodes mac_rule-IsStored

delete_rule_lem_example : Answers (delete_rule 0 block) block (true, ip_rule ∷ [])
delete_rule_lem_example = delete_rule_lem block two_rules 0 block-Encodes

insert_rule_lem_example :
    (d' : RuleData) × (insert_rule (to_rule ip_rule) 0 block ≡ ok (true, d'))
    × (d'.size ≡ block.size + 1)
    × (d'.policy ≡ block.policy)
    × (Encodes d' (ip_rule ∷ two_rules)
        ↔ (block.bytes (length (images []) + length (image ip_rule)) ≡ 1))
insert_rule_lem_example =
    insert_rule_lem block [] (ip_rule ∷ []) ip_rule mac_rule block-Encodes ip_rule-IsStored
      (omega arith)

evaluate_lem_example : evaluate client block ≡ ok resolve
unfolding bytes_equal
evaluate_lem_example = evaluate_lem client block two_rules block-Encodes

evaluate-execute_all_example :
    bind (execute_all edits empty_block) (λ (bs, d'). evaluate client d') ≡ ok resolve
unfolding listed_all bytes_equal
evaluate-execute_all_example =
    evaluate-execute_all edits empty_block empty_rules client edits-IsCommand empty_block-Represents
