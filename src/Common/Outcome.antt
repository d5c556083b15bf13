-- ===== src/Common/Outcome.antt =====
-- The outcome of a call: a value; an error code of include/net/netcommon.h; `fault`, where the
-- program reads or writes outside an array; `stuck`, which no run of the program has: the fuel
-- of a model's loop ran out.
use Prim.Native.Nat.{ℕ}
use mathlib.Core.Path.{◌≡◌, refl}
use mathlib.Core.Logic.{◌⊎◌, inl, inr}
use mathlib.Core.Option.{Option, none, some}

pub data Result {ℓ} (A : Type ℓ) : Type ℓ where
  ok : A → Result A
  err : ℕ → Result A
  fault stuck : Result A

abbrev pub bind {ℓ κ} : {A : Type ℓ} {B : Type κ} → Result A → (A → Result B) → Result B
bind (ok a) f = f a
bind (err e) f = err e
bind fault f = fault
bind stuck f = stuck

-- A sequence with a value: its first part has one, and the second has it there.
pub bind-eq-ok {ℓ κ} :
    {A : Type ℓ} {B : Type κ} {y : B} (k : A → Result B) (r : Result A)
    → bind r k ≡ ok y
    → (x : A) × (r ≡ ok x) × (k x ≡ ok y)
bind-eq-ok k fault e = cc
bind-eq-ok k stuck e = cc
bind-eq-ok k (err c) e = cc
bind-eq-ok k (ok x) e = (x, refl, e)

pub Option-cases {ℓ} : {A : Type ℓ} (o : Option A) → (o ≡ none) ⊎ ((a : A) × (o ≡ some a))
Option-cases none = inl refl
Option-cases (some a) = inr (a, refl)

pub Result-cases {ℓ} :
    {A : Type ℓ} (r : Result A)
    → ((x : A) × (r ≡ ok x)) ⊎ ((c : ℕ) × (r ≡ err c)) ⊎ (r ≡ fault) ⊎ (r ≡ stuck)
Result-cases (ok x) = inl (x, refl)
Result-cases (err c) = inr (inl (c, refl))
Result-cases fault = inr (inr (inl refl))
Result-cases stuck = inr (inr (inr refl))

pub ok-injective {ℓ} : {A : Type ℓ} {x y : A} → ok x ≡ ok y → x ≡ y
ok-injective e = cc
