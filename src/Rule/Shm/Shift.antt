-- ===== src/Rule/Shm/Shift.antt =====
-- What the two loops that move bytes leave in the block.
use dns_wrapper.Common.{
  ℕ, zero, suc, ◌+◌, ◌-◌, ◌≤◌, ◌<◌, ◌≡◌, refl, ap, ◌∙◌, ok, arith, ◌==◌, true, Bool-cases, inl, inr,
}
use dns_wrapper.Common.Memory.{Memory, update}
use dns_wrapper.Rule.Layout.{data_size}
use dns_wrapper.Rule.Shm.{shift_up, shift_down}

-- Below `low` and from `high` on the block is as it was, and between them it is as `from` says.
pub record Moves (low high : ℕ) (from : ℕ → ℕ) (m m' : Memory) : Type 0 where
  pub below : (i : ℕ) → i < low → m' i ≡ m i
  pub above : (i : ℕ) → high ≤ i → m' i ≡ m i
  pub within : (i : ℕ) → low ≤ i → i < high → m' i ≡ m (from i)

pub shift_down-Moves :
    (n t bytes : ℕ) (m : Memory)
    → 1 ≤ bytes
    → Moves t (t + n) (λ i. i + bytes) m (shift_down n t bytes m)
unfolding shift_down
shift_down-Moves zero t bytes m pos = record {
  below = λ i lt. refl;
  above = λ i le. refl;
  within = λ i lo hi. absurd (omega arith);
}
shift_down-Moves (suc n) t bytes m pos =
    let rest = shift_down-Moves n (suc t) bytes (update m t (m (t + bytes))) pos in
    record {
      below = λ i lt. rest.below i (omega arith) ∙ ground arith;
      above = λ i le. rest.above i (omega arith) ∙ ground arith;
      within = λ i lo hi. elim (Bool-cases (i == t)) [
        | inl here ↦ rest.below i (ground arith) ∙ moved_here i here
        | inr other ↦ rest.within i (ground arith) (omega arith) ∙ ground arith
      ];
    }
  where
    moved_here : (i : ℕ) → (i == t) ≡ true → update m t (m (t + bytes)) i ≡ m (i + bytes)
    moved_here i here = let e : i ≡ t = ground arith in ground (arith, ap (λ k. m (k + bytes)) e)

-- The loop of `insertRules` fills the offsets from `t - n + 1` to `t`.
pub shift_up-Moves :
    (n t bytes : ℕ) (m : Memory)
    → 1 ≤ bytes
    → n ≤ t
    → t < data_size
    → (m' : Memory) × (shift_up n t bytes m ≡ ok m')
      × Moves (t - n + 1) (t + 1) (λ i. i - bytes) m m'
unfolding shift_up
shift_up-Moves zero t bytes m pos le lt = (
  m,
  refl,
  record { below = λ i lt. refl; above = λ i le. refl; within = λ i lo hi. absurd (omega arith) },
)
shift_up-Moves (suc n) t bytes m pos le lt =
    let (m', e, rest) =
      shift_up-Moves n (t - 1) bytes (update m t (m (t - bytes))) pos (omega arith) (omega arith) in
    (
      m',
      ground arith,
      record {
        below = λ i lt. rest.below i (omega arith) ∙ ground arith;
        above = λ i le. rest.above i (omega arith) ∙ ground arith;
        within = λ i lo hi. elim (Bool-cases (i == t)) [
          | inl here ↦ rest.above i (ground arith) ∙ moved_here i here
          | inr other ↦ rest.within i (omega arith) (ground arith) ∙ ground arith
        ];
      },
    )
  where
    moved_here : (i : ℕ) → (i == t) ≡ true → update m t (m (t - bytes)) i ≡ m (i - bytes)
    moved_here i here = let e : i ≡ t = ground arith in ground (arith, ap (λ k. m (k - bytes)) e)
