-- ===== src/Rule/Shm/History.antt =====
-- Any sequence of the calls that append, delete, clear and set the policy, on the block and on a list.
use dns_wrapper.Common.{
  ℕ, ◌≡◌, refl, ap, ◌∙◌, Bool, true, List, [], ◌∷◌, Result, ok, bind, arith, All,
}
use dns_wrapper.Rule.Layout.{Policy, RuleData}
use dns_wrapper.Rule.Layout.Image.{StoredRule, IsStored, to_rule}
use dns_wrapper.Rule.Shm.{append_rule, delete_rule, clear_rules, set_policy}
use dns_wrapper.Rule.Shm.Edit.{Encodes, listed_append, listed_delete, append_rule_lem}
use dns_wrapper.Rule.Shm.Delete.{delete_rule_lem}
use dns_wrapper.Rule.Evaluate.{Source, evaluate}
use dns_wrapper.Rule.Evaluate.Decide.{decide, evaluate_lem}

pub data Command : Type 0 where
  append : StoredRule → Command
  delete : ℕ → Command
  clear : Command
  policy : Policy → Command

abbrev pub IsCommand : Command → Type 0
IsCommand (append s) = IsStored s
IsCommand (delete i) = Unit {0}
IsCommand clear = Unit {0}
IsCommand (policy p) = Unit {0}

-- A command on the block.
unfoldable pub execute : Command → RuleData → Result (Bool × RuleData)
execute (append s) d = append_rule (to_rule s) d
execute (delete i) d = delete_rule i d
execute clear d = ok (true, clear_rules d)
execute (policy p) d = ok (true, set_policy p.action p.target_ipv4 p.target_ipv6 d)

-- The answers to a sequence of commands, and the block behind it.
unfoldable pub execute_all : List Command → RuleData → Result (List Bool × RuleData)
unfolding execute
execute_all [] d = ok ([], d)
execute_all (c ∷ cs) d =
    bind (execute c d) λ (b, d'). bind (execute_all cs d') λ (bs, d''). ok (b ∷ bs, d'')

-- The policy and the rules, and the same commands on them.
pub record Rules : Type 0 where
  pub policy : Policy
  pub rules : List StoredRule

unfoldable pub listed : Command → Rules → Bool × Rules
listed (append s) r = let (b, rs) = listed_append s r.rules in (b, record r { rules = rs })
listed (delete i) r = let (b, rs) = listed_delete i r.rules in (b, record r { rules = rs })
listed clear r = (true, record r { rules = [] })
listed (policy p) r = (true, record r { policy = p })

unfoldable pub listed_all : List Command → Rules → List Bool × Rules
unfolding listed
listed_all [] r = ([], r)
listed_all (c ∷ cs) r =
    let (b, r') = listed c r in let (bs, r'') = listed_all cs r' in (b ∷ bs, r'')

pub record Represents (d : RuleData) (r : Rules) : Type 0 where
  pub policy : d.policy ≡ r.policy
  pub encodes : Encodes d r.rules

pub execute_lem :
    (c : Command) (d : RuleData) (r : Rules)
    → IsCommand c
    → Represents d r
    → (d' : RuleData) × (execute c d ≡ ok ((listed c r).0, d')) × Represents d' (listed c r).1
unfolding execute listed clear_rules set_policy
execute_lem (append s) d r good rep =
    let a = append_rule_lem d r.rules s rep.encodes good in
    (a.final, a.returns, record { policy = a.policy ∙ rep.policy; encodes = a.encodes })
execute_lem (delete i) d r good rep =
    let a = delete_rule_lem d r.rules i rep.encodes in
    (a.final, a.returns, record { policy = a.policy ∙ rep.policy; encodes = a.encodes })
execute_lem clear d r good rep = (
  clear_rules d,
  refl,
  record {
    policy = rep.policy;
    encodes = record { count = refl; stored = tt; room = omega arith; here = tt };
  },
)
execute_lem (policy p) d r good rep = (
  set_policy p.action p.target_ipv4 p.target_ipv6 d,
  refl,
  record {
    policy = refl;
    encodes = record {
      count = rep.encodes.count;
      stored = rep.encodes.stored;
      room = rep.encodes.room;
      here = rep.encodes.here;
    };
  },
)

-- Every sequence of append, delete, clear and policy calls, with rules that have the parts
-- their types ask for, answers as it does on a list of rules, and leaves a block that holds the
-- list's policy and rules.
pub execute_all_lem :
    (cs : List Command) (d : RuleData) (r : Rules)
    → All IsCommand cs
    → Represents d r
    → (d' : RuleData) × (execute_all cs d ≡ ok ((listed_all cs r).0, d'))
      × Represents d' (listed_all cs r).1
unfolding execute_all listed_all
execute_all_lem [] d r good rep = (d, refl, rep)
execute_all_lem (c ∷ cs) d r (good, goods) rep =
    let (d', first, rep') = execute_lem c d r good rep in
    let (d'', rest, rep'') = execute_all_lem cs d' (listed c r).1 goods rep' in
    (d'', rw (first, rest) refl, rep'')

-- After every sequence of append, delete, clear and policy calls, with rules that have the
-- parts their types ask for, on a block that holds a list, a request is decided by the first
-- rule of the corresponding list that applies to it, or by the list's policy.
pub evaluate-execute_all :
    (cs : List Command) (d : RuleData) (r : Rules) (s : Source)
    → All IsCommand cs
    → Represents d r
    → bind (execute_all cs d) (λ (bs, d'). evaluate s d')
      ≡ ok (decide s (listed_all cs r).1.policy (listed_all cs r).1.rules)
evaluate-execute_all cs d r s good rep =
    let (d', runs, rep') = execute_all_lem cs d r good rep in
    rw runs (
      evaluate_lem s d' (listed_all cs r).1.rules rep'.encodes
      ∙ ap (λ p. ok (decide s p (listed_all cs r).1.rules)) rep'.policy)
