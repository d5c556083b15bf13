-- ===== src/Server/Invariant/Insertion.antt =====
-- `InsertRule` at any index, on a block that holds a list (src/rule/shm.cpp).
use dns_wrapper.Common.{
  ℕ, zero, suc, ◌+◌, ◌<◌, ◌≡◌, ◌≢◌, ◌⊎◌, refl, sym, ap, ◌∙◌, subst, Bool, List, [], ◌∷◌, ◌++◌,
  Result, ok, ok-injective, inl, inr, arith, length,
}
use native.Mathlib.Decide.{dec_lt, ℕ_discrete}
use dns_wrapper.Rule.Layout.{RuleData, data_size}
use dns_wrapper.Rule.Layout.Image.{StoredRule, IsStored, to_rule, type_of, image, images}
use dns_wrapper.Rule.Shm.{append_rule, insert_rule}
use dns_wrapper.Rule.Shm.Edit.{Encodes, listed_append, append_rule_lem}
use dns_wrapper.Rule.Shm.Insert.{
  insert_rule_outside, insert_rule_exact, insert_rule_full, insert_rule_lem,
}

abbrev pub Listing : RuleData → Type 0
Listing d = (rs : List StoredRule) × Encodes d rs

-- An index behind the end, at the end, or in front of a rule.
data Place (rs : List StoredRule) (i : ℕ) : Type 0 where
  behind : length rs < i → Place rs i
  at_end : i ≡ length rs → Place rs i
  before :
      (ss : List StoredRule) (t : StoredRule) (ts : List StoredRule)
      → rs ≡ ss ++ t ∷ ts
      → i ≡ length ss
      → Place rs i

place_of : (rs : List StoredRule) (i : ℕ) → Place rs i
place_of [] zero = at_end refl
place_of [] (suc i) = behind (omega arith)
place_of (r ∷ rs) zero = before [] r rs refl refl
place_of (r ∷ rs) (suc i) = further (place_of rs i)
  where
    further : Place rs i → Place (r ∷ rs) (suc i)
    further (behind lt) = behind (omega (arith, lt))
    further (at_end e) = at_end (ap suc e)
    further (before ss t ts e at) = before (r ∷ ss) t ts (ap (λ xs. r ∷ xs) e) (ap suc at)

same_block :
    (d d' : RuleData) (b answer : Bool)
    → ◌≡◌ {A = Result (Bool × RuleData)} (ok (b, d)) (ok (answer, d'))
    → d ≡ d'
same_block d d' b answer e = ap (λ x. x.1) (ok-injective e)

module _ (d d' : RuleData) (r : StoredRule) (answer : Bool) (good : IsStored r) where
  -- The block holds a list behind the call, or the byte where the rule goes was the wrong one.
  before-Listing :
      (ss : List StoredRule) (t : StoredRule) (ts : List StoredRule)
      → Encodes d (ss ++ t ∷ ts)
      → insert_rule (to_rule r) (length ss) d ≡ ok (answer, d')
      → Listing d' ⊎ (d.bytes (length (images ss) + length (image r)) ≢ type_of t.key)
  before-Listing ss t ts enc e =
      let end : ℕ = length (images ss) + length (images (t ∷ ts)) + length (image r) in
      elim (compare_room end) [
        | inl full ↦
            let none = insert_rule_full d ss ts r t enc good full in
            inl (
              ss ++ t ∷ ts,
              subst (λ x. Encodes x (ss ++ t ∷ ts)) (same_block d d' _ answer (sym none ∙ e)) enc,
            )
        | inr (inl exact) ↦
            let crash = insert_rule_exact d ss ts r t enc good exact in
            absurd (let never = sym crash ∙ e in cc)
        | inr (inr fits) ↦
            let (d1, runs, size, policy, exactly) = insert_rule_lem d ss ts r t enc good fits in
            let same = same_block d1 d' _ answer (sym runs ∙ e) in
            elim (ℕ_discrete (d.bytes (length (images ss) + length (image r))) (type_of t.key)) [
              | yes lucky ↦ inl (
                ss ++ r ∷ t ∷ ts,
                subst (λ x. Encodes x (ss ++ r ∷ t ∷ ts)) same (exactly.1 lucky),
              )
              | no unlucky ↦ inr unlucky
            ]
      ]
    where
      compare_room : (n : ℕ) → (data_size < n) ⊎ ((n ≡ data_size) ⊎ (n < data_size))
      compare_room n = elim (dec_lt data_size n) [
        | yes full ↦ inl full
        | no small ↦ elim (dec_lt n data_size) [
          | yes fits ↦ inr (inr fits)
          | no large ↦ inr (inl (omega (arith, small, large)))
        ]
      ]

-- An insertion that returns leaves a block that holds a list, unless it is in front of a rule whose
-- first byte is not the one that stood where it goes.
pub insert_rule-Listing :
    (d d' : RuleData) (rs : List StoredRule) (r : StoredRule) (index : ℕ) (answer : Bool)
    → Encodes d rs
    → IsStored r
    → insert_rule (to_rule r) index d ≡ ok (answer, d')
    → Listing d'
      ⊎ ((ss : List StoredRule) × (t : StoredRule) × (ts : List StoredRule) × Encodes d
            (ss ++ t ∷ ts)
          × (index ≡ length ss)
          × (d.bytes (length (images ss) + length (image r)) ≢ type_of t.key))
unfolding insert_rule append_rule
insert_rule-Listing d d' rs r index answer enc good e = elim (place_of rs index) [
  | behind far ↦
      let none = insert_rule_outside d rs r index enc far in
      inl (rs, subst (λ x. Encodes x rs) (same_block d d' _ answer (sym none ∙ e)) enc)
  | at_end last ↦
      let appended = append_rule_lem d rs r enc good in
      let at : index ≡ d.size = last ∙ sym enc.count in
      let same : append_rule (to_rule r) d ≡ ok (answer, d') =
        subst (λ i. insert_rule (to_rule r) i d ≡ ok (answer, d')) at e in
      inl (
        (listed_append r rs).1,
        subst (λ x. Encodes x (listed_append r rs).1)
            (same_block appended.final d' _ answer (sym appended.returns ∙ same)) appended.encodes,
      )
  | before ss t ts split at ↦
      let enc' : Encodes d (ss ++ t ∷ ts) = subst (Encodes d) split enc in
      let e' = subst (λ i. insert_rule (to_rule r) i d ≡ ok (answer, d')) at e in
      elim (before-Listing d d' r answer good ss t ts enc' e') [
        | inl listing ↦ inl listing
        | inr unlucky ↦ inr (ss, t, ts, enc', at, unlucky)
      ]
]
