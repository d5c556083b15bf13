-- ===== src/Rule/Shm/Edit.antt =====
-- The block as a list of rules, and the calls that append and delete.
use native.Mathlib.Nat.{add-zero}
use dns_wrapper.Common.{
  ℕ, zero, suc, ◌+◌, ◌-◌, ◌≤◌, ◌≡◌, refl, sym, ap, ◌∙◌, subst, Bool, true, false, List, [], ◌∷◌,
  ◌++◌, Option, some, none, Result, ok, bind, Bool-cases, inl, inr, arith, ltb, if◌then◌else◌,
  length, length-append, append-nil, All, All-append, All-split,
}
use dns_wrapper.Common.Memory.{
  Holds, Holds-append, append-Holds, Holds-ext, Holds-store, store, store_below,
}
use dns_wrapper.Rule.Layout.{IpAddressData, ip_image, RuleData, data_size, skip}
use dns_wrapper.Rule.Layout.Image.{
  Key, by_ip, by_eth, by_both, StoredRule, IsStored, to_rule, image, images, images-append,
  length-images-append, rule_image-to_rule, skip-Holds,
}
use dns_wrapper.Rule.Shm.{rule_bytes, total_bytes, shift_up, write_rules, insert_rules, append_rule}

-- The block holds these rules, one behind the other.
pub record Encodes (d : RuleData) (ss : List StoredRule) : Type 0 where
  pub count : d.size ≡ length ss
  pub stored : All IsStored ss
  pub room : length (images ss) ≤ data_size
  pub here : Holds d.bytes 0 (images ss)

pub rule_bytes-to_rule : (s : StoredRule) → IsStored s → rule_bytes (to_rule s) ≡ length (image s)
unfolding rule_bytes
rule_bytes-to_rule s good = parts_lem s.key s.target good
  where
    parts_lem :
        (k : Key) (t : Option IpAddressData)
        → IsStored (record { key = k; target = t })
        → rule_bytes (to_rule (record { key = k; target = t }))
          ≡ length (image (record { key = k; target = t }))
    parts_lem (by_ip d) none good = omega (arith, good.ip, length-append (ip_image d) [])
    parts_lem (by_ip d) (some t) good =
        omega (arith, good.ip, good.target, length-append d.ipaddr (ip_image t))
    parts_lem (by_eth e) none good = omega (arith, good.eth, length-append e [])
    parts_lem (by_eth e) (some t) good =
        omega (arith, good.eth, good.target, length-append e (ip_image t))
    parts_lem (by_both d e) none good =
        omega (arith, good.ip, good.eth, length-append d.ipaddr (e ++ []), length-append e [])
    parts_lem (by_both d e) (some t) good = omega (
      arith,
      good.ip,
      good.eth,
      good.target,
      length-append d.ipaddr (e ++ ip_image t),
      length-append e (ip_image t),
    )

pub split :
    (d : RuleData) (ss ts : List StoredRule)
    → Encodes d (ss ++ ts)
    → Holds d.bytes 0 (images ss) × Holds d.bytes (length (images ss)) (images ts)
split d ss ts enc =
    Holds-append d.bytes 0 (length (images ss)) (images ss) (images ts) (omega arith)
      (subst (Holds d.bytes 0) (images-append ss ts) enc.here)

-- `insertRules` of one rule behind the rules `ss` and in front of the rules `ts`.
pub insert_rules-split :
    (d : RuleData) (ss ts : List StoredRule) (s : StoredRule)
    → Encodes d (ss ++ ts)
    → IsStored s
    → insert_rules (to_rule s ∷ []) (length ss) d ≡ (
        if ltb data_size (length (images ss) + length (images ts) + length (image s))
        then ok (0, d)
        else bind
            (shift_up
              (length (images ts))
              (length (images ss) + length (images ts) + length (image s))
              (length (image s))
              d.bytes)
            λ m.
              ok
                (1, record d { size = d.size + 1; bytes = store m (length (images ss)) (image s) }))
unfolding insert_rules total_bytes write_rules
insert_rules-split d ss ts s enc good =
    let (before, behind) = split d ss ts enc in
    let both = length-images-append ss ts in
    let count : d.size ≡ length ss + length ts = enc.count ∙ length-append ss ts in
    let (stored_ss, stored_ts) = All-split IsStored ss ts enc.stored in
    let to_point : skip d.bytes (length ss) 0 ≡ ok (length (images ss)) =
      skip-Holds d.bytes 0 ss stored_ss (omega (arith, both, enc.room)) before
      ∙ ap ok (omega arith) in
    let to_end =
      skip-Holds d.bytes (length (images ss)) ts stored_ts (omega (arith, both, enc.room)) behind in
    let inside : ltb d.size (length ss) ≡ false = ground (arith, count) in
    let left : d.size - length ss ≡ length ts = omega (arith, count) in
    let moved : length (images ss) + length (images ts) - length (images ss) ≡ length (images ts) =
      omega arith in
    let width : rule_bytes (to_rule s) + 0 ≡ length (image s) =
      omega (arith, rule_bytes-to_rule s good) in
    rw (inside, to_point, left, to_end, width, moved, rule_image-to_rule s) refl

-- What a call returns, and the rules that the block then holds; the policy is as it was.
pub record Answers (call : Result (Bool × RuleData)) (d : RuleData)
    (answer : Bool × List StoredRule) : Type 0 where
  pub final : RuleData
  pub returns : call ≡ ok (answer.0, final)
  pub encodes : Encodes final answer.1
  pub policy : final.policy ≡ d.policy

-- The calls on a list of rules.
abbrev pub listed_append : StoredRule → List StoredRule → Bool × List StoredRule
listed_append s ss =
    if ltb data_size (length (images ss) + length (image s))
    then (false, ss)
    else (true, ss ++ s ∷ [])

abbrev pub erase : ℕ → List StoredRule → List StoredRule
erase i [] = []
erase zero (s ∷ ss) = ss
erase (suc i) (s ∷ ss) = s ∷ erase i ss

abbrev pub listed_delete : ℕ → List StoredRule → Bool × List StoredRule
listed_delete i ss = if ltb i (length ss) then (true, erase i ss) else (false, ss)

appended-Encodes :
    (d : RuleData) (ss : List StoredRule) (s : StoredRule)
    → Encodes d ss
    → IsStored s
    → length (images ss) + length (image s) ≤ data_size
    → Encodes
        (record d { size = d.size + 1; bytes = store d.bytes (length (images ss)) (image s) })
        (ss ++ s ∷ [])
appended-Encodes d ss s enc good fits = record {
  count = omega (arith, enc.count, length-append ss (s ∷ []));
  stored = All-append IsStored ss (s ∷ []) enc.stored (good, tt);
  room = omega (arith, fits, length-images-append ss (s ∷ []), length-append (image s) []);
  here =
      rw (images-append ss (s ∷ []), append-nil (image s))
        (append-Holds _ 0 (length (images ss)) (images ss) (image s) (omega arith)
          (Holds-ext d.bytes _ 0 (images ss)
            (λ i lo hi. sym (store_below d.bytes (length (images ss)) (image s) i (omega arith)))
            enc.here)
          (Holds-store d.bytes (length (images ss)) (image s)));
}

-- On a block that holds a list, AppendRule puts a rule that has the parts its type asks for
-- behind the others if it has room for it, and otherwise refuses it and leaves the block as it
-- was.
pub append_rule_lem :
    (d : RuleData) (ss : List StoredRule) (s : StoredRule)
    → Encodes d ss
    → IsStored s
    → Answers (append_rule (to_rule s) d) d (listed_append s ss)
unfolding append_rule shift_up
append_rule_lem d ss s enc good =
    elim (Bool-cases (ltb data_size (length (images ss) + length (image s)))) [
      | inl full ↦ rw full (record {
        final = d;
        returns = rw (insert, add-zero (length (images ss)), full) refl;
        encodes = enc;
        policy = refl;
      })
      | inr fits ↦ rw fits (record {
        final = record d {
          size = d.size + 1;
          bytes = store d.bytes (length (images ss)) (image s);
        };
        returns = rw (insert, add-zero (length (images ss)), fits) refl;
        encodes = appended-Encodes d ss s enc good (ground arith);
        policy = refl;
      })
    ]
  where
    outcome : Result (ℕ × RuleData)
    outcome =
        if ltb data_size (length (images ss) + 0 + length (image s))
        then ok (0, d)
        else ok (
          1,
          record d { size = d.size + 1; bytes = store d.bytes (length (images ss)) (image s) },
        )

    insert : insert_rules (to_rule s ∷ []) d.size d ≡ outcome
    insert =
        subst (λ n. insert_rules (to_rule s ∷ []) n d ≡ outcome) (sym enc.count)
          (insert_rules-split d ss [] s (subst (Encodes d) (sym (append-nil ss)) enc) good)
