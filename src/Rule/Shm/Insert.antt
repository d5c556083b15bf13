-- ===== src/Rule/Shm/Insert.antt =====
-- Insertion of a rule in front of others: what the loop that makes room leaves.
use dns_wrapper.Common.{
  ℕ, suc, ◌+◌, ◌-◌, ◌≤◌, ◌<◌, ◌≡◌, ◌↔◌, refl, sym, ap, ◌∙◌, subst, true, false, List, ◌∷◌, ◌++◌, ok,
  fault, arith, ltb, drop, length, length-append, All-append, All-split,
}
use dns_wrapper.Common.Memory.{
  Memory, Holds-copied, Holds-append, append-Holds, Holds-ext, Holds-store, store, store_below,
  store_above,
}
use dns_wrapper.Rule.Layout.{RuleData, data_size}
use dns_wrapper.Rule.Layout.Image.{
  StoredRule, IsStored, to_rule, type_of, image, images, images-append, length-images-append,
}
use dns_wrapper.Rule.Shm.{insert_rules, insert_rule, shift_up}
use dns_wrapper.Rule.Shm.Shift.{Moves, shift_up-Moves}
use dns_wrapper.Rule.Shm.Edit.{Encodes, split, insert_rules-split}

-- An index behind the end is refused, and the block is as it was.
pub insert_rule_outside :
    (d : RuleData) (ss : List StoredRule) (s : StoredRule) (i : ℕ)
    → Encodes d ss
    → length ss < i
    → insert_rule (to_rule s) i d ≡ ok (false, d)
unfolding insert_rule insert_rules
insert_rule_outside d ss s i enc outside = ground (arith, enc.count)

module _ (d : RuleData) (ss ts : List StoredRule) (s t : StoredRule)
    (enc : Encodes d (ss ++ t ∷ ts)) (good : IsStored s) where
  abbrev point : ℕ
  point = length (images ss)

  abbrev bytes : ℕ
  bytes = length (image s)

  abbrev end : ℕ
  end = point + length (images (t ∷ ts))

  -- A block that the new rule would fill exactly: the loop starts one byte behind the array.
  pub insert_rule_exact : end + bytes ≡ data_size → insert_rule (to_rule s) (length ss) d ≡ fault
  unfolding insert_rule shift_up
  insert_rule_exact exact = rw (insert_rules-split d ss (t ∷ ts) s enc good) (ground (arith, exact))

  pub insert_rule_full :
      data_size < end + bytes → insert_rule (to_rule s) (length ss) d ≡ ok (false, d)
  unfolding insert_rule
  insert_rule_full full = rw (insert_rules-split d ss (t ∷ ts) s enc good) (ground arith)

  module _ (m : Memory)
      (moves : Moves (point + bytes + 1) (end + bytes + 1) (λ i. i - bytes) d.bytes m) where
    abbrev inserted : RuleData
    inserted = record d { size = d.size + 1; bytes = store m point (image s) }

    stale : store m point (image s) (point + bytes) ≡ d.bytes (point + bytes)
    stale =
        store_above m point (image s) (point + bytes) (omega arith)
        ∙ moves.below (point + bytes) (omega arith)

    inserted-Encodes :
        end + bytes < data_size
        → d.bytes (point + bytes) ≡ type_of t.key
        → Encodes inserted (ss ++ s ∷ t ∷ ts)
    inserted-Encodes fits lucky =
        let (before, behind) = split d ss (t ∷ ts) enc in
        let (stored_ss, stored_ts) = All-split IsStored ss (t ∷ ts) enc.stored in
        let kept : (i : ℕ) → i < point → d.bytes i ≡ store m point (image s) i =
          λ i lt. sym (store_below m point (image s) i lt ∙ moves.below i (omega arith)) in
        let up : (i j : ℕ)
            → suc point ≤ i
            → i < end
            → j ≡ i + bytes
            → store m point (image s) j ≡ d.bytes i =
          λ i j lo hi e.
            store_above m point (image s) j (omega arith)
            ∙ moves.within j (omega arith) (omega arith)
            ∙ ap d.bytes (omega arith) in
        let rest =
          Holds-copied d.bytes _ (suc point) (suc (point + bytes)) (drop 1 (images (t ∷ ts)))
            (λ i j lo hi e. up i j lo (omega arith) (omega arith)) behind.1 in
        record {
          count =
              omega (arith, enc.count, length-append ss (t ∷ ts), length-append ss (s ∷ t ∷ ts));
          stored = All-append IsStored ss (s ∷ t ∷ ts) stored_ss (good, stored_ts);
          room = omega (
            arith,
            fits,
            length-images-append ss (s ∷ t ∷ ts),
            length-append (image s) (images (t ∷ ts)),
          );
          here = rw (images-append ss (s ∷ t ∷ ts)) (
              append-Holds _ 0 point (images ss) (image s ++ images (t ∷ ts)) (omega arith)
                (Holds-ext d.bytes _ 0 (images ss) (λ i lo hi. kept i (omega arith)) before)
                (append-Holds _ point (point + bytes) (image s) (images (t ∷ ts)) refl
                  (Holds-store m point (image s)) (stale ∙ lucky, rest)));
        }

    encoded_lucky : Encodes inserted (ss ++ s ∷ t ∷ ts) → d.bytes (point + bytes) ≡ type_of t.key
    encoded_lucky new =
        let (_, at_rule) = split inserted ss (s ∷ t ∷ ts) new in
        let (_, behind) =
          Holds-append _ point (point + bytes) (image s) (images (t ∷ ts)) refl at_rule in
        sym stale ∙ behind.0

  -- Inserting a rule that has the parts its type asks for in front of others, with more room
  -- than it needs, succeeds; the block then holds the new list exactly if the byte that stood
  -- where the next rule goes equals that rule's first byte, since the loop that makes room
  -- stops in front of it.
  pub insert_rule_lem :
      end + bytes < data_size
      → (d' : RuleData) × (insert_rule (to_rule s) (length ss) d ≡ ok (true, d'))
        × (d'.size ≡ d.size + 1)
        × (d'.policy ≡ d.policy)
        × (Encodes d' (ss ++ s ∷ t ∷ ts) ↔ (d.bytes (point + bytes) ≡ type_of t.key))
  unfolding insert_rule
  insert_rule_lem fits =
      let (m, moved, moves) =
        shift_up-Moves (length (images (t ∷ ts))) (end + bytes) bytes d.bytes (omega arith)
          (omega arith) (omega arith) in
      let room : ltb data_size (end + bytes) ≡ false = ground arith in
      let moves' : Moves (point + bytes + 1) (end + bytes + 1) (λ i. i - bytes) d.bytes m =
        subst (λ low. Moves low (end + bytes + 1) (λ i. i - bytes) d.bytes m) (omega arith) moves in
      (
        inserted m moves',
        rw (insert_rules-split d ss (t ∷ ts) s enc good, room, moved) refl,
        refl,
        refl,
        (encoded_lucky m moves', inserted-Encodes m moves' fits),
      )
