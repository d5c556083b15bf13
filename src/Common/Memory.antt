-- ===== src/Common/Memory.antt =====
-- A byte array as a function from offsets to bytes, and runs of bytes in it.
use mathlib.Core.Path.{◌≡◌, refl, sym, ap, ◌∙◌, subst, fun_ext}
use mathlib.Core.Logic.{◌≢◌}
use mathlib.Core.List.{List, [], ◌∷◌, ◌++◌}
use Prim.Native.Nat.{ℕ, suc, ◌+◌, ◌≤◌, ◌<◌}
use native.Mathlib.Omega.{arith}
use dns_wrapper.Common.Tests.{◌==◌, if◌then◌else◌}
use dns_wrapper.Common.Lists.{length}

abbrev pub Memory : Type 0
Memory = ℕ → ℕ

abbrev pub update : Memory → ℕ → ℕ → Memory
update m i v j = if j == i then v else m j

pub update_comm :
    (m : Memory) (i j v w : ℕ) → i ≢ j → update (update m i v) j w ≡ update (update m j w) i v
update_comm m i j v w ne = fun_ext λ k. ground arith

-- Writing what is there changes nothing.
pub update_same : (m : Memory) (i v : ℕ) → m i ≡ v → update m i v ≡ m
update_same m i v e = fun_ext λ k. ground (arith, same k)
  where
    same : (k : ℕ) → k ≡ i → m k ≡ v
    same k p = ap m p ∙ e

-- The bytes `xs` stand from offset `p` on.
abbrev pub Holds : Memory → ℕ → List ℕ → Type 0
Holds m p [] = Unit {0}
Holds m p (x ∷ xs) = (m p ≡ x) × Holds m (suc p) xs

pub Holds-offset : (m : Memory) (xs : List ℕ) {p q : ℕ} → p ≡ q → Holds m p xs → Holds m q xs
Holds-offset m xs e h = subst (λ i. Holds m i xs) e h

-- `xs` copied to offset `p`.
unfoldable pub store : Memory → ℕ → List ℕ → Memory
store m p [] = m
store m p (x ∷ xs) = store (update m p x) (suc p) xs

pub store_below : (m : Memory) (p : ℕ) (xs : List ℕ) (i : ℕ) → i < p → store m p xs i ≡ m i
unfolding store
store_below m p [] i h = refl
store_below m p (x ∷ xs) i h = store_below (update m p x) (suc p) xs i (omega arith) ∙ ground arith

pub store_above :
    (m : Memory) (p : ℕ) (xs : List ℕ) (i : ℕ) → p + length xs ≤ i → store m p xs i ≡ m i
unfolding store
store_above m p [] i h = refl
store_above m p (x ∷ xs) i h = store_above (update m p x) (suc p) xs i (omega arith) ∙ ground arith

pub Holds-ext :
    (m m' : Memory) (p : ℕ) (xs : List ℕ)
    → ((i : ℕ) → p ≤ i → i < p + length xs → m i ≡ m' i)
    → Holds m p xs
    → Holds m' p xs
Holds-ext m m' p [] e h = tt
Holds-ext m m' p (x ∷ xs) e (h, hs) = (
  sym (e p (omega arith) (omega arith)) ∙ h,
  Holds-ext m m' (suc p) xs (λ i lo hi. e i (omega arith) (omega arith)) hs,
)

pub Holds-store : (m : Memory) (p : ℕ) (xs : List ℕ) → Holds (store m p xs) p xs
unfolding store
Holds-store m p [] = tt
Holds-store m p (x ∷ xs) = (
  store_below (update m p x) (suc p) xs p (omega arith) ∙ ground arith,
  Holds-store (update m p x) (suc p) xs,
)

pub store-append :
    (m : Memory) (p q : ℕ) (xs ys : List ℕ)
    → q ≡ p + length xs
    → store m p (xs ++ ys) ≡ store (store m p xs) q ys
unfolding store
store-append m p q [] ys e = let e' : q ≡ p = omega arith in rw e'
store-append m p q (x ∷ xs) ys e = store-append (update m p x) (suc p) q xs ys (omega arith)

pub Holds-append :
    (m : Memory) (p q : ℕ) (xs ys : List ℕ)
    → q ≡ p + length xs
    → Holds m p (xs ++ ys)
    → Holds m p xs × Holds m q ys
Holds-append m p q [] ys e h = let e' : q ≡ p = omega arith in (tt, rw e' h)
Holds-append m p q (x ∷ xs) ys e (h, hs) =
    let (l, r) = Holds-append m (suc p) q xs ys (omega arith) hs in ((h, l), r)

pub append-Holds :
    (m : Memory) (p q : ℕ) (xs ys : List ℕ)
    → q ≡ p + length xs
    → Holds m p xs
    → Holds m q ys
    → Holds m p (xs ++ ys)
append-Holds m p q [] ys e h k = let e' : p ≡ q = omega arith in rw e' k
append-Holds m p q (x ∷ xs) ys e (h, hs) k = (h, append-Holds m (suc p) q xs ys (omega arith) hs k)

-- A write below a run goes in front of it or behind it.
pub store-update :
    (m : Memory) (p i v : ℕ) (xs : List ℕ)
    → i < p
    → update (store m p xs) i v ≡ store (update m i v) p xs
unfolding store
store-update m p i v [] h = refl
store-update m p i v (x ∷ xs) h =
    store-update (update m p x) (suc p) i v xs (omega arith)
    ∙ ap (λ k. store k (suc p) xs) (sym (update_comm m i p v x (omega arith)))

-- A run that stands at another offset of another array.
pub Holds-copied :
    (m m' : Memory) (p q : ℕ) (xs : List ℕ)
    → ((i j : ℕ) → p ≤ i → i < p + length xs → p + j ≡ q + i → m' j ≡ m i)
    → Holds m p xs
    → Holds m' q xs
Holds-copied m m' p q [] e h = tt
Holds-copied m m' p q (x ∷ xs) e (h, hs) = (
  e p q (omega arith) (omega arith) (omega arith) ∙ h,
  Holds-copied m m' (suc p) (suc q) xs
      (λ i j lo hi k. e i j (omega arith) (omega arith) (omega arith)) hs,
)
