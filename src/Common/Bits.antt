-- ===== src/Common/Bits.antt =====
-- Masks of one byte as arithmetic: each law is a table of the 256 bytes, checked by evaluation.
use Prim.Native.Nat.{ℕ, ◌+◌, ◌-◌, ◌*◌, ◌/◌, ◌%◌, ◌<◌, bit_and, bit_or, bit_xor}
use mathlib.Core.Path.{◌≡◌, refl}
use mathlib.Core.Bool.{true}
use dns_wrapper.Common.Tests.{agree, agree-≡}

pub byte_table : (f g : ℕ → ℕ) → agree f g 256 ≡ true → (x : ℕ) → x < 256 → f x ≡ g x
byte_table f g table x h = agree-≡ f g 256 x h table

pub and_80 : (x : ℕ) → x < 256 → bit_and x 0x80 ≡ x / 128 * 128
unfolding agree
and_80 = byte_table _ _ refl

pub and_40 : (x : ℕ) → x < 256 → bit_and x 0x40 ≡ x / 64 % 2 * 64
unfolding agree
and_40 = byte_table _ _ refl

pub and_c0 : (x : ℕ) → x < 256 → bit_and x 0xc0 ≡ x / 64 * 64
unfolding agree
and_c0 = byte_table _ _ refl

pub and_20 : (x : ℕ) → x < 256 → bit_and x 0x20 ≡ x / 32 % 2 * 32
unfolding agree
and_20 = byte_table _ _ refl

pub and_10 : (x : ℕ) → x < 256 → bit_and x 0x10 ≡ x / 16 % 2 * 16
unfolding agree
and_10 = byte_table _ _ refl

pub and_4 : (x : ℕ) → x < 256 → bit_and x 4 ≡ x / 4 % 2 * 4
unfolding agree
and_4 = byte_table _ _ refl

pub and_2 : (x : ℕ) → x < 256 → bit_and x 2 ≡ x / 2 % 2 * 2
unfolding agree
and_2 = byte_table _ _ refl

pub and_1 : (x : ℕ) → x < 256 → bit_and x 1 ≡ x % 2
unfolding agree
and_1 = byte_table _ _ refl

pub and_15 : (x : ℕ) → x < 256 → bit_and x 15 ≡ x % 16
unfolding agree
and_15 = byte_table _ _ refl

pub and_7 : (x : ℕ) → x < 256 → bit_and x 7 ≡ x % 8
unfolding agree
and_7 = byte_table _ _ refl

-- The two bits of a compression pointer, taken off.
pub xor_c0 : (x : ℕ) → x < 64 → bit_xor (192 + x) 0xc0 ≡ x
unfolding agree
xor_c0 x h = agree-≡ (λ y. bit_xor (192 + y) 0xc0) (λ y. y) 64 x h refl

-- Setting one bit adds it where it was clear.
pub or_0 : (x : ℕ) → x < 256 → bit_or x 0 ≡ x
unfolding agree
or_0 = byte_table _ _ refl

pub or_128 : (x : ℕ) → x < 256 → bit_or x 128 ≡ x % 128 + 128
unfolding agree
or_128 = byte_table _ _ refl

pub or_64 : (x : ℕ) → x < 256 → bit_or x 64 ≡ x + 64 - x / 64 % 2 * 64
unfolding agree
or_64 = byte_table _ _ refl

pub or_4 : (x : ℕ) → x < 256 → bit_or x 4 ≡ x + 4 - x / 4 % 2 * 4
unfolding agree
or_4 = byte_table _ _ refl
