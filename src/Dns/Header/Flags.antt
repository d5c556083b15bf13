-- ===== src/Dns/Header/Flags.antt =====
-- The flags of a header: what the setters that the server calls do to every getter, and the two
-- setters that do not meet their getters.
use dns_wrapper.Common.{
  ℕ, ◌+◌, ◌*◌, ◌/◌, ◌%◌, ◌<◌, ◌≡◌, refl, ◌∙◌, bit_and, bit_or, Bool, true, false, ◌||◌, arith,
  agree,
}
use dns_wrapper.Common.Bits.{byte_table, and_15, or_0}
use dns_wrapper.Dns.Header.{
  Header, get_query_response, get_op_code, get_authoritative_answer, get_truncated_message,
  get_recursion_desired, get_recursion_available, get_authentic_data, get_checking_disabled,
  get_response_code, set_op_code, set_authoritative_answer, set_recursion_available,
  set_checking_disabled, set_response_code,
}

-- What the getters see of a header.
pub record Flags : Type 0 where
  pub qr : Bool
  pub op_code : ℕ
  pub aa : Bool
  pub tc : Bool
  pub rd : Bool
  pub ra : Bool
  pub ad : Bool
  pub cd : Bool
  pub rcode : ℕ

pub flags : Header → Flags
flags h = record {
  qr = get_query_response h;
  op_code = get_op_code h;
  aa = get_authoritative_answer h;
  tc = get_truncated_message h;
  rd = get_recursion_desired h;
  ra = get_recursion_available h;
  ad = get_authentic_data h;
  cd = get_checking_disabled h;
  rcode = get_response_code h;
}

-- The bits of `hb3` and of `hb4` that a getter reads, with one more bit set.
or_128_bits :
    (x : ℕ)
    → x < 256
    → (bit_and (bit_or x 128) 0x80 ≡ 128)
      × (bit_and (bit_or x 128 / 16) 7 ≡ bit_and (x / 16) 7)
      × (bit_and (bit_or x 128) 4 ≡ bit_and x 4)
      × (bit_and (bit_or x 128) 2 ≡ bit_and x 2)
      × (bit_and (bit_or x 128) 1 ≡ bit_and x 1)
      × (bit_and (bit_or x 128) 0x20 ≡ bit_and x 0x20)
      × (bit_and (bit_or x 128) 0x10 ≡ bit_and x 0x10)
      × (bit_and (bit_or x 128) 15 ≡ bit_and x 15)
unfolding agree
or_128_bits x h = (
  byte_table (λ y. bit_and (bit_or y 128) 0x80) (λ y. 128) refl x h,
  byte_table (λ y. bit_and (bit_or y 128 / 16) 7) (λ y. bit_and (y / 16) 7) refl x h,
  byte_table (λ y. bit_and (bit_or y 128) 4) (λ y. bit_and y 4) refl x h,
  byte_table (λ y. bit_and (bit_or y 128) 2) (λ y. bit_and y 2) refl x h,
  byte_table (λ y. bit_and (bit_or y 128) 1) (λ y. bit_and y 1) refl x h,
  byte_table (λ y. bit_and (bit_or y 128) 0x20) (λ y. bit_and y 0x20) refl x h,
  byte_table (λ y. bit_and (bit_or y 128) 0x10) (λ y. bit_and y 0x10) refl x h,
  byte_table (λ y. bit_and (bit_or y 128) 15) (λ y. bit_and y 15) refl x h,
)

or_4_bits :
    (x : ℕ)
    → x < 256
    → (bit_and (bit_or x 4) 0x80 ≡ bit_and x 0x80)
      × (bit_and (bit_or x 4 / 16) 7 ≡ bit_and (x / 16) 7)
      × (bit_and (bit_or x 4) 4 ≡ 4)
      × (bit_and (bit_or x 4) 2 ≡ bit_and x 2)
      × (bit_and (bit_or x 4) 1 ≡ bit_and x 1)
unfolding agree
or_4_bits x h = (
  byte_table (λ y. bit_and (bit_or y 4) 0x80) (λ y. bit_and y 0x80) refl x h,
  byte_table (λ y. bit_and (bit_or y 4 / 16) 7) (λ y. bit_and (y / 16) 7) refl x h,
  byte_table (λ y. bit_and (bit_or y 4) 4) (λ y. 4) refl x h,
  byte_table (λ y. bit_and (bit_or y 4) 2) (λ y. bit_and y 2) refl x h,
  byte_table (λ y. bit_and (bit_or y 4) 1) (λ y. bit_and y 1) refl x h,
)

or_64_bits :
    (x : ℕ)
    → x < 256
    → (bit_and (bit_or x 64) 0x80 ≡ bit_and x 0x80)
      × (bit_and (bit_or x 64) 0x20 ≡ bit_and x 0x20)
      × (bit_and (bit_or x 64) 0x10 ≡ bit_and x 0x10)
      × (bit_and (bit_or x 64) 15 ≡ bit_and x 15)
unfolding agree
or_64_bits x h = (
  byte_table (λ y. bit_and (bit_or y 64) 0x80) (λ y. bit_and y 0x80) refl x h,
  byte_table (λ y. bit_and (bit_or y 64) 0x20) (λ y. bit_and y 0x20) refl x h,
  byte_table (λ y. bit_and (bit_or y 64) 0x10) (λ y. bit_and y 0x10) refl x h,
  byte_table (λ y. bit_and (bit_or y 64) 15) (λ y. bit_and y 15) refl x h,
)

module _ (h : Header) (lt3 : h.hb3 < 256) (lt4 : h.hb4 < 256) where
  pub set_authoritative_answer_lem :
      (v : Bool)
      → flags (set_authoritative_answer v h)
        ≡ record (flags h) { aa = v || get_authoritative_answer h }
  unfolding flags set_authoritative_answer get_query_response get_op_code get_authoritative_answer
      get_truncated_message get_recursion_desired get_recursion_available get_authentic_data
      get_checking_disabled get_response_code
  set_authoritative_answer_lem true = ground (arith, or_4_bits h.hb3 lt3)
  set_authoritative_answer_lem false = simp (or_0 h.hb3 lt3)

  pub set_recursion_available_lem :
      (v : Bool)
      → flags (set_recursion_available v h)
        ≡ record (flags h) { ra = v || get_recursion_available h }
  unfolding flags set_recursion_available get_query_response get_op_code get_authoritative_answer
      get_truncated_message get_recursion_desired get_recursion_available get_authentic_data
      get_checking_disabled get_response_code
  set_recursion_available_lem true = ground (arith, or_128_bits h.hb4 lt4)
  set_recursion_available_lem false = simp (or_0 h.hb4 lt4)

  -- SetCheckingDisabled changes nothing that a getter of the header reads.
  pub set_checking_disabled_lem : (v : Bool) → flags (set_checking_disabled v h) ≡ flags h
  unfolding flags set_checking_disabled get_query_response get_op_code get_authoritative_answer
      get_truncated_message get_recursion_desired get_recursion_available get_authentic_data
      get_checking_disabled get_response_code
  set_checking_disabled_lem true = ground (arith, or_64_bits h.hb4 lt4)
  set_checking_disabled_lem false = simp (or_0 h.hb4 lt4)

-- On a header whose third byte is zero, GetOpCode returns half of the opcode that SetOpCode was
-- given.
pub get_op_code-set_op_code :
    (h : Header) (v : ℕ) → h.hb3 ≡ 0 → v < 16 → get_op_code (set_op_code v h) ≡ v / 2
unfolding get_op_code set_op_code agree
get_op_code-set_op_code h v e lt = rw e (
    byte_table (λ y. bit_and (bit_or 0 (bit_and y 15 * 8) / 16) 7) (λ y. y % 16 / 2) refl v
      (omega arith)
    ∙ omega arith)

code_table :
    (n : ℕ)
    → n < 256
    → (bit_and (bit_or (n / 16 * 16) (bit_and (n % 16) 15)) 15 ≡ n % 16)
      × (bit_and (bit_or (n / 16 * 16) (bit_and (n % 16) 15)) 0x80 ≡ bit_and (n / 16 * 16) 0x80)
      × (bit_and (bit_or (n / 16 * 16) (bit_and (n % 16) 15)) 0x20 ≡ bit_and (n / 16 * 16) 0x20)
      × (bit_and (bit_or (n / 16 * 16) (bit_and (n % 16) 15)) 0x10 ≡ bit_and (n / 16 * 16) 0x10)
unfolding agree
code_table n h = (
  byte_table (λ y. bit_and (bit_or (y / 16 * 16) (bit_and (y % 16) 15)) 15) (λ y. y % 16) refl n h,
  byte_table (λ y. bit_and (bit_or (y / 16 * 16) (bit_and (y % 16) 15)) 0x80)
      (λ y. bit_and (y / 16 * 16) 0x80) refl n h,
  byte_table (λ y. bit_and (bit_or (y / 16 * 16) (bit_and (y % 16) 15)) 0x20)
      (λ y. bit_and (y / 16 * 16) 0x20) refl n h,
  byte_table (λ y. bit_and (bit_or (y / 16 * 16) (bit_and (y % 16) 15)) 0x10)
      (λ y. bit_and (y / 16 * 16) 0x10) refl n h,
)

code_bits :
    (x v : ℕ)
    → x < 256
    → x % 16 ≡ 0
    → v < 16
    → (bit_and (bit_or x (bit_and v 15)) 15 ≡ v)
      × (bit_and (bit_or x (bit_and v 15)) 0x80 ≡ bit_and x 0x80)
      × (bit_and (bit_or x (bit_and v 15)) 0x20 ≡ bit_and x 0x20)
      × (bit_and (bit_or x (bit_and v 15)) 0x10 ≡ bit_and x 0x10)
code_bits x v hx hm hv =
    let hi : (x + v) / 16 * 16 ≡ x = omega arith in
    let lo : (x + v) % 16 ≡ v = omega arith in rw (hi, lo) at (code_table (x + v) (omega arith))

-- On a header with response code 0, SetResponseCode sets the code and changes no other flag.
pub set_response_code_lem :
    (h : Header) (v : ℕ)
    → h.hb4 < 256
    → v < 16
    → get_response_code h ≡ 0
    → flags (set_response_code v h) ≡ record (flags h) { rcode = v }
unfolding flags set_response_code get_query_response get_op_code get_authoritative_answer
    get_truncated_message get_recursion_desired get_recursion_available get_authentic_data
    get_checking_disabled get_response_code agree
set_response_code_lem h v lt4 lt e =
    ground (arith, code_bits h.hb4 v lt4 (omega (arith, and_15 h.hb4 lt4, e)) lt)
