-- ===== src/Net/Buffer/Codec.antt =====
-- Writers and readers of fixed runs of bytes, and how they compose.
use native.Mathlib.Nat.{add_assoc}
use dns_wrapper.Common.{
  ℕ, ◌+◌, ◌%◌, ◌^◌, ◌≤◌, ◌<◌, ◌≡◌, refl, ap, ◌∙◌, subst, append-nil, List, [], ◌∷◌, ◌++◌, arith, ok,
  length, length-append,
}
use dns_wrapper.Common.Memory.{Holds, store, store_above, Holds-append, Holds-store}
use dns_wrapper.Net.Buffer.{
  Buffer, fresh, Action, ◌>>=◌, ◌>>◌, pure, write_byte, write_u16, write_u32, vread_u8, vread_u16,
  vread_u32,
}
use dns_wrapper.Net.Buffer.Laws.{
  put, put-append, moved, u16_bytes, u32_bytes, write_byte-put, write_u16-put, write_u32-put,
  vread_u8-Holds, vread_u16-Holds, vread_u32-Holds,
}

-- Nothing was written from the position on.
abbrev pub IsClear : Buffer → Type 0
IsClear b = (i : ℕ) → b.pos ≤ i → b.mem i ≡ 0

pub put-IsClear : (xs : List ℕ) (b : Buffer) → IsClear b → IsClear (put xs b)
unfolding put
put-IsClear xs b c i h = store_above b.mem b.pos xs i h ∙ c i (omega arith)

-- On a clear buffer with a byte to spare, `w` writes exactly `xs`.
pub record Writes (w : Action (Unit {0})) (xs : List ℕ) : Type 0 where
  pub apply : (b : Buffer) → IsClear b → b.pos + length xs < b.cap → w b ≡ ok (tt, put xs b)

pub Writes-then :
    {v w : Action (Unit {0})} {xs ys : List ℕ}
    → Writes v xs
    → Writes w ys
    → Writes (v >> w) (xs ++ ys)
Writes-then {v} {w} {xs} {ys} hv hw = record { apply = both }
  where
    both :
        (b : Buffer)
        → IsClear b
        → b.pos + length (xs ++ ys) < b.cap
        → (v >> w) b ≡ ok (tt, put (xs ++ ys) b)
    both b c room =
        let total = length-append xs ys in
        rw (hv.apply b c (omega arith), put-append xs ys b)
          (hw.apply (put xs b) (put-IsClear xs b c) (unfold put in omega arith))

-- Where `xs` stands at the position, `r` takes it and returns the value for that position.
pub record Reads {A : Type 0} (r : Action A) (xs : List ℕ) (f : ℕ → A) : Type 0 where
  pub apply :
      (b : Buffer)
      → b.size ≤ b.cap
      → b.pos + length xs ≤ b.size
      → Holds b.mem b.pos xs
      → r b ≡ ok (f b.pos, moved (length xs) b)

pub Reads-then :
    {A B : Type 0} {r : Action A} {xs ys : List ℕ} {f : ℕ → A} (k : A → Action B) (g : ℕ → ℕ → B)
    → Reads r xs f
    → ((p : ℕ) → Reads (k (f p)) ys (g p))
    → Reads (r >>= k) (xs ++ ys) (λ p. g p (p + length xs))
Reads-then {r} {xs} {ys} {f} k g hr hk = record { apply = both }
  where
    both :
        (b : Buffer)
        → b.size ≤ b.cap
        → b.pos + length (xs ++ ys) ≤ b.size
        → Holds b.mem b.pos (xs ++ ys)
        → (r >>= k) b ≡ ok (g b.pos (b.pos + length xs), moved (length (xs ++ ys)) b)
    both b fits room holds =
        let total = length-append xs ys in
        let (front, back) = Holds-append b.mem b.pos (b.pos + length xs) xs ys refl holds in
        rw (hr.apply b fits (omega arith) front) (
          (hk b.pos).apply (moved (length xs) b) fits (omega arith) back
          ∙ ap (λ (q : ℕ). ok (g b.pos (b.pos + length xs), record b { pos = q }))
              (rw total (add_assoc b.pos (length xs) (length ys))))

pub write_byte-Writes : (v : ℕ) → Writes (write_byte v) ((v % 256) ∷ [])
write_byte-Writes v = record { apply = λ b c room. write_byte-put v b (omega arith) }

pub write_u16-Writes : (v : ℕ) → Writes (write_u16 v) (u16_bytes v)
write_u16-Writes v = record { apply = λ b c room. write_u16-put v b (omega arith) }

pub write_u32-Writes : (v : ℕ) → Writes (write_u32 v) (u32_bytes v)
write_u32-Writes v = record { apply = λ b c room. write_u32-put v b (omega arith) }

pub vread_u8-Reads : (x : ℕ) → Reads vread_u8 (x ∷ []) (λ p. x)
vread_u8-Reads x = record { apply = λ b fits room h. vread_u8-Holds b fits x room h }

-- The same for a byte that was written by `write_byte`.
pub vread_u8-Reads_byte : (v : ℕ) → v < 256 → Reads vread_u8 ((v % 256) ∷ []) (λ p. v)
vread_u8-Reads_byte v lt = let same : v % 256 ≡ v = omega arith in rw same (vread_u8-Reads v)

pub vread_u16-Reads : (v : ℕ) → v < 2 ^ 16 → Reads vread_u16 (u16_bytes v) (λ p. v)
vread_u16-Reads v lt = record { apply = λ b fits room h. vread_u16-Holds b fits v lt room h }

pub vread_u32-Reads : (v : ℕ) → v < 2 ^ 32 → Reads vread_u32 (u32_bytes v) (λ p. v)
vread_u32-Reads v lt = record { apply = λ b fits room h. vread_u32-Holds b fits v lt room h }

-- A reader that takes nothing.
pub pure-Reads : {A : Type 0} (a : A) → Reads (pure a) [] (λ p. a)
pure-Reads a = record {
  apply = λ b fits room h. ap (λ (q : ℕ). ok (a, record b { pos = q })) (omega arith);
}

pub Reads-map :
    {A B : Type 0} {r : Action A} {xs : List ℕ} {f : ℕ → A} (h : A → B)
    → Reads r xs f
    → Reads (r >>= λ a. pure (h a)) xs (λ p. h (f p))
Reads-map {r} {xs} {f} h hr =
    subst (λ ys. Reads (r >>= λ a. pure (h a)) ys (λ p. h (f p))) (append-nil xs)
      (Reads-then _ (λ p q. h (f p)) hr λ p. pure-Reads (h (f p)))

pub pure-Writes : Writes (pure tt) []
unfolding put store
pure-Writes = record { apply = λ b clear room. ground arith }

-- A buffer as it is declared is clear.
pub fresh-IsClear : (n : ℕ) → IsClear (fresh n)
unfolding fresh
fresh-IsClear n i h = refl

-- What is written to a buffer stands there.
pub put-Holds : (xs : List ℕ) (b : Buffer) → Holds (put xs b).mem b.pos xs
unfolding put
put-Holds xs b = Holds-store b.mem b.pos xs

-- What was written to a fresh buffer reads back from its start.
pub Reads-Writes :
    {A : Type 0} {w : Action (Unit {0})} {r : Action A} {xs : List ℕ} {f : ℕ → A} (n : ℕ)
    → Writes w xs
    → Reads r xs f
    → length xs < n
    → (b : Buffer) × (w (fresh n) ≡ ok (tt, b))
      × (b.pos ≡ length xs)
      × (r (record b { pos = 0; size = b.pos }) ≡ ok (f 0, record b { size = b.pos }))
unfolding fresh put
Reads-Writes {w} {r} {xs} {f} n hw hr room =
    let b = put xs (fresh n) in
    (
      b,
      hw.apply (fresh n) (fresh-IsClear n) (omega arith),
      omega arith,
      hr.apply (record b { pos = 0; size = b.pos }) (omega arith) (omega arith)
          (put-Holds xs (fresh n)),
    )
