-- ===== src/Rule/Shm/Delete.antt =====
-- Deletion of a rule from the block.
use dns_wrapper.Common.{
  ℕ, zero, suc, ◌+◌, ◌-◌, ◌≤◌, ◌<◌, ◌≡◌, refl, sym, ap, ◌∙◌, subst, true, false, List, [], ◌∷◌,
  ◌++◌, ok, Bool-cases, inl, inr, arith, ltb, ◌==◌, leb, ◌||◌, length, length-append, append-nil,
  All-append, All-split,
}
use dns_wrapper.Common.Memory.{Holds, Holds-copied, Holds-append, append-Holds, Holds-ext}
use dns_wrapper.Rule.Layout.{RuleData, skip}
use dns_wrapper.Rule.Layout.Image.{
  StoredRule, IsStored, image, images, images-append, length-images-append, skip-Holds,
}
use dns_wrapper.Rule.Shm.{shift_down, delete_rule}
use dns_wrapper.Rule.Shm.Shift.{shift_down-Moves}
use dns_wrapper.Rule.Shm.Edit.{Encodes, Answers, split, erase, listed_delete}

-- A list around one of its places.
record Around (i : ℕ) (rs : List StoredRule) : Type 0 where
  before : List StoredRule
  at : StoredRule
  after : List StoredRule
  whole : rs ≡ before ++ at ∷ after
  index : length before ≡ i
  rest : erase i rs ≡ before ++ after

around : (i : ℕ) (rs : List StoredRule) → i < length rs → Around i rs
around i [] lt = absurd (omega arith)
around zero (r ∷ rs) lt = record {
  before = [];
  at = r;
  after = rs;
  whole = refl;
  index = refl;
  rest = refl;
}
around (suc i) (r ∷ rs) lt =
    let a = around i rs (omega arith) in
    record {
      before = r ∷ a.before;
      at = a.at;
      after = a.after;
      whole = ap (λ xs. r ∷ xs) a.whole;
      index = ap suc a.index;
      rest = ap (λ xs. r ∷ xs) a.rest;
    }

-- Behind the rule that goes, the rules move over it.
closed-Encodes :
    (d : RuleData) (ss ts : List StoredRule) (s : StoredRule)
    → Encodes d (ss ++ s ∷ ts)
    → Encodes
        (record d {
          size = d.size - 1;
          bytes = shift_down (length (images ts)) (length (images ss)) (length (image s)) d.bytes;
        })
        (ss ++ ts)
closed-Encodes d ss ts s enc =
    let (before, at_rule) = split d ss (s ∷ ts) enc in
    let p = length (images ss) in
    let b = length (image s) in
    let (_, behind) = Holds-append d.bytes p (p + b) (image s) (images ts) refl at_rule in
    let (stored_ss, (_, stored_ts)) = All-split IsStored ss (s ∷ ts) enc.stored in
    let moves = shift_down-Moves (length (images ts)) p b d.bytes (omega arith) in
    record {
      count = omega (arith, enc.count, length-append ss (s ∷ ts), length-append ss ts);
      stored = All-append IsStored ss ts stored_ss stored_ts;
      room = omega (
        arith,
        enc.room,
        length-images-append ss (s ∷ ts),
        length-images-append ss ts,
        length-append (image s) (images ts),
      );
      here = rw (images-append ss ts) (
          append-Holds _ 0 p (images ss) (images ts) (omega arith)
            (Holds-ext d.bytes _ 0 (images ss) (λ i lo hi. sym (moves.below i (omega arith)))
              before)
            (Holds-copied d.bytes _ (p + b) p (images ts)
              (λ i j lo hi e. moves.within j (omega arith) (omega arith) ∙ ap d.bytes (omega arith))
              behind));
    }

module _ (d : RuleData) (ss ts : List StoredRule) (s : StoredRule)
    (enc : Encodes d (ss ++ s ∷ ts)) where
  skips :
      (skip d.bytes (length ss) 0 ≡ ok (length (images ss)))
      × (skip d.bytes 1 (length (images ss)) ≡ ok (length (images ss) + length (image s)))
      × (skip d.bytes (length ts) (length (images ss) + length (image s))
          ≡ ok (length (images ss) + length (image s) + length (images ts)))
  skips =
      let (before, at_rule) = split d ss (s ∷ ts) enc in
      let p = length (images ss) in
      let b = length (image s) in
      let (here, behind) = Holds-append d.bytes p (p + b) (image s) (images ts) refl at_rule in
      let (stored_ss, (stored_s, stored_ts)) = All-split IsStored ss (s ∷ ts) enc.stored in
      let total = length-images-append ss (s ∷ ts) in
      let total' = length-append (image s) (images ts) in
      let one = length-append (image s) [] in
      let room = enc.room in
      (
        skip-Holds d.bytes 0 ss stored_ss (omega arith) before ∙ ap ok (omega arith),
        skip-Holds d.bytes p (s ∷ []) (stored_s, tt) (omega arith)
              (subst (Holds d.bytes p) (sym (append-nil (image s))) here)
            ∙ ap ok (omega arith),
        skip-Holds d.bytes (p + b) ts stored_ts (omega arith) behind,
      )

-- With no rule behind it, a rule is deleted by the count alone.
last_deleted :
    (d : RuleData) (ss : List StoredRule) (s : StoredRule)
    → Encodes d (ss ++ s ∷ [])
    → Answers (delete_rule (length ss) d) d (true, ss)
unfolding delete_rule
last_deleted d ss s enc =
    let count : d.size ≡ length ss + 1 = enc.count ∙ length-append ss (s ∷ []) in
    let (before, _) = split d ss (s ∷ []) enc in
    record {
      final = record d { size = d.size - 1 };
      returns = ground (arith, count);
      encodes = record {
        count = omega arith;
        stored = (All-split IsStored ss (s ∷ []) enc.stored).0;
        room = omega (arith, enc.room, length-images-append ss (s ∷ []));
        here = before;
      };
      policy = refl;
    }

inner_deleted :
    (d : RuleData) (ss ts : List StoredRule) (s : StoredRule)
    → Encodes d (ss ++ s ∷ ts)
    → 1 ≤ length ts
    → Answers (delete_rule (length ss) d) d (true, ss ++ ts)
unfolding delete_rule
inner_deleted d ss ts s enc more =
    let count : d.size ≡ length ss + suc (length ts) = enc.count ∙ length-append ss (s ∷ ts) in
    let (to_point, to_next, to_end) = skips d ss ts s enc in
    let inside : ((d.size == 0) || leb d.size (length ss)) ≡ false = ground (arith, count) in
    let not_last : (length ss == d.size - 1) ≡ false = ground (arith, count) in
    let left : d.size - (length ss + 1) ≡ length ts = omega (arith, count) in
    let rounds : length (images ss)
          + length (image s)
          + length (images ts)
          - (length (images ss) + length (image s))
        ≡ length (images ts) =
      omega arith in
    let bytes : length (images ss) + length (image s) - length (images ss) ≡ length (image s) =
      omega arith in
    record {
      final = record d {
        size = d.size - 1;
        bytes = shift_down (length (images ts)) (length (images ss)) (length (image s)) d.bytes;
      };
      returns = rw (inside, not_last, to_point, to_next, left, to_end, rounds, bytes) refl;
      encodes = closed-Encodes d ss ts s enc;
      policy = refl;
    }

deleted :
    (d : RuleData) (ss ts : List StoredRule) (s : StoredRule)
    → Encodes d (ss ++ s ∷ ts)
    → Answers (delete_rule (length ss) d) d (true, ss ++ ts)
deleted d ss [] s enc =
    subst (λ rs. Answers (delete_rule (length ss) d) d (true, rs)) (sym (append-nil ss))
      (last_deleted d ss s enc)
deleted d ss (t ∷ ts) s enc = inner_deleted d ss (t ∷ ts) s enc (omega arith)

-- On a block that holds a list, DeleteRule deletes the rule at an index inside the list and
-- refuses any other index, and the block then holds the resulting list.
pub delete_rule_lem :
    (d : RuleData) (rs : List StoredRule) (i : ℕ)
    → Encodes d rs
    → Answers (delete_rule i d) d (listed_delete i rs)
unfolding delete_rule
delete_rule_lem d rs i enc = elim (Bool-cases (ltb i (length rs))) [
  | inl inside ↦
      let a = around i rs (ground arith) in
      rw (inside, a.rest)
        (subst (λ n. Answers (delete_rule n d) d (true, a.before ++ a.after)) a.index
          (deleted d a.before a.after a.at (subst (Encodes d) a.whole enc)))
  | inr outside ↦
      rw outside
        (record { final = d; returns = ground (arith, enc.count); encodes = enc; policy = refl })
]
