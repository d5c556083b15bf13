-- ===== src/Net/Buffer/Laws.antt =====
-- What the reads and the writes of a packet buffer do, in terms of the bytes at its position.
use native.Mathlib.Nat.{add_assoc}
use dns_wrapper.Common.{
  ℕ, ◌+◌, ◌/◌, ◌%◌, ◌^◌, ◌≤◌, ◌<◌, ◌≡◌, refl, List, [], ◌∷◌, ◌++◌, arith, ok, bind-eq-ok, length,
  length-append,
}
use dns_wrapper.Common.Memory.{Holds, store, store-append}
use dns_wrapper.Net.Buffer.{
  Buffer, Action, ◌>>=◌, vread_u8, vread_u16, vread_u32, write_byte, write_u16, write_u32,
}

abbrev pub IsByte : ℕ → Type 0
IsByte v = v < 256

-- The buffer after `xs` was written at its position.
unfoldable pub put : List ℕ → Buffer → Buffer
put xs b = record b { mem = store b.mem b.pos xs; pos = b.pos + length xs }

pub put-append : (xs ys : List ℕ) (b : Buffer) → put (xs ++ ys) b ≡ put ys (put xs b)
unfolding put
put-append xs ys b =
    let mem = store-append b.mem b.pos (b.pos + length xs) xs ys refl in
    rw (mem, length-append xs ys, add_assoc b.pos (length xs) (length ys))

abbrev pub u16_bytes : ℕ → List ℕ
u16_bytes v = (v / 256 % 256) ∷ (v % 256) ∷ []

abbrev pub u32_bytes : ℕ → List ℕ
u32_bytes v = (v / 2 ^ 24 % 256) ∷ (v / 2 ^ 16 % 256) ∷ (v / 2 ^ 8 % 256) ∷ (v % 256) ∷ []

pub write_byte-put :
    (v : ℕ) (b : Buffer) → b.pos < b.cap → write_byte v b ≡ ok (tt, put ((v % 256) ∷ []) b)
unfolding write_byte put store
write_byte-put v b h = ground arith

pub write_u16-put :
    (v : ℕ) (b : Buffer) → b.pos + 2 ≤ b.cap → write_u16 v b ≡ ok (tt, put (u16_bytes v) b)
unfolding write_u16 write_byte put store
write_u16-put v b h = ground arith

pub write_u32-put :
    (v : ℕ) (b : Buffer) → b.pos + 4 ≤ b.cap → write_u32 v b ≡ ok (tt, put (u32_bytes v) b)
unfolding write_u32 write_byte put store
write_u32-put v b h = ground arith

abbrev pub moved : ℕ → Buffer → Buffer
moved n b = record b { pos = b.pos + n }

module _ (b : Buffer) (fits : b.size ≤ b.cap) where
  pub vread_u8-Holds :
      (x : ℕ) → b.pos + 1 ≤ b.size → Holds b.mem b.pos (x ∷ []) → vread_u8 b ≡ ok (x, moved 1 b)
  unfolding vread_u8
  vread_u8-Holds x h k = ground arith

  pub vread_u16-Holds :
      (v : ℕ)
      → v < 2 ^ 16
      → b.pos + 2 ≤ b.size
      → Holds b.mem b.pos (u16_bytes v)
      → vread_u16 b ≡ ok (v, moved 2 b)
  unfolding vread_u16
  vread_u16-Holds v hv h k = ground arith

  pub vread_u32-Holds :
      (v : ℕ)
      → v < 2 ^ 32
      → b.pos + 4 ≤ b.size
      → Holds b.mem b.pos (u32_bytes v)
      → vread_u32 b ≡ ok (v, moved 4 b)
  unfolding vread_u32
  vread_u32-Holds v hv h k = ground arith

-- A sequence that succeeds is two steps that succeed.
pub >>=-eq-ok :
    {A B : Type 0} (m : Action A) (f : A → Action B) (b : Buffer) {r : B × Buffer}
    → (m >>= f) b ≡ ok r
    → (a : A) × (b' : Buffer) × (m b ≡ ok (a, b')) × (f a b' ≡ ok r)
>>=-eq-ok m f b e = let (p, here, rest) = bind-eq-ok _ (m b) e in (p.0, p.1, here, rest)
