-- ===== src/Rule/Layout.antt =====
-- include/rule/shm.hpp, and `nextRule` and the memcpy calls of src/rule/shm.cpp: a rule, and the
-- bytes that it takes in the block of shared memory.
pub mod Image
use dns_wrapper.Common.{
  ℕ, zero, suc, ◌+◌, ◌*◌, ◌^◌, Bool, true, false, not, ◌||◌, ◌==◌, ltb, if◌then◌else◌, List, [],
  ◌∷◌, ◌++◌, Option, none, some, Result, ok, fault, bind,
}
use dns_wrapper.Common.Memory.{Memory}
use dns_wrapper.Net.Buffer.{IpAddress, EthAddress}

abbrev pub data_size : ℕ
data_size = 8192

-- sizeof(RuleHeader) and sizeof(IpAddressData), of 4-byte enums and a union that is aligned to 4.
abbrev pub header_bytes : ℕ
header_bytes = 8

abbrev pub ip_bytes : ℕ
ip_bytes = 20

abbrev pub eth_bytes : ℕ
eth_bytes = 6

-- `ActionType`, by its values.
abbrev pub dns : ℕ
dns = 0

abbrev pub redirect : ℕ
redirect = 1

-- `RuleType`, by its values.
abbrev pub ip_address : ℕ
ip_address = 0

abbrev pub eth_address : ℕ
eth_address = 1

abbrev pub ip_and_eth_address : ℕ
ip_and_eth_address = 2

pub record IpAddressData : Type 0 where
  pub ipv4 : Bool
  pub ipaddr : IpAddress

-- `Rule` with its header; a null pointer is `none`, and any other is what it points to.
pub record Rule : Type 0 where
  pub rule_type : ℕ
  pub action_type : ℕ
  pub ipd : Option IpAddressData
  pub eth : Option EthAddress
  pub target : Option IpAddressData

pub record Policy : Type 0 where
  pub action : ℕ
  pub target_ipv4 : IpAddress
  pub target_ipv6 : IpAddress

pub record RuleData : Type 0 where
  pub policy : Policy
  pub size : ℕ
  pub bytes : Memory

abbrev pub has_ip : ℕ → Bool
has_ip t = t == ip_address || t == ip_and_eth_address

abbrev pub has_eth : ℕ → Bool
has_eth t = t == eth_address || t == ip_and_eth_address

abbrev pub has_target : ℕ → Bool
has_target a = a == redirect

-- `n` bytes from `p` on.
unfoldable pub load : Memory → ℕ → ℕ → List ℕ
load m p zero = []
load m p (suc n) = m p ∷ load m (suc p) n

-- A 4-byte enum of a little-endian machine.
unfoldable pub load_enum : Memory → ℕ → ℕ
load_enum m p = m p + m (p + 1) * 2 ^ 8 + m (p + 2) * 2 ^ 16 + m (p + 3) * 2 ^ 24

-- An `IpAddressData`: the flag, three bytes of padding, the union.
unfoldable pub load_ip : Memory → ℕ → IpAddressData
unfolding load
load_ip m p = record { ipv4 = not (m p == 0); ipaddr = load m (p + 4) 16 }

abbrev pub present : {A : Type 0} → Bool → A → Option A
present true x = some x
present false x = none

abbrev pub width : Bool → ℕ → ℕ
width true n = n
width false n = 0

-- `nextRule` at an offset: the rule there and the offset behind it. The parts that the pointers
-- name are read with it; a part outside the array is `fault`.
unfoldable pub next_rule : Memory → ℕ → Result (Rule × ℕ)
unfolding load_enum load_ip load
next_rule m p =
    let t = load_enum m p in
    let a = load_enum m (p + 4) in
    let eth_at = p + header_bytes + width (has_ip t) ip_bytes in
    let target_at = eth_at + width (has_eth t) eth_bytes in
    let end = target_at + width (has_target a) ip_bytes in
    if ltb data_size (p + header_bytes) || ltb data_size end
    then fault
    else ok (
      record {
        rule_type = t;
        action_type = a;
        ipd = present (has_ip t) (load_ip m (p + header_bytes));
        eth = present (has_eth t) (load m eth_at 6);
        target = present (has_target a) (load_ip m target_at);
      },
      end,
    )

-- `for (; i < n; i++) nextRule(&t);`
unfoldable pub skip : Memory → ℕ → ℕ → Result ℕ
skip m zero p = ok p
skip m (suc n) p = bind (next_rule m p) λ (r, q). skip m n q

-- What `memcpy` takes from a rule: an enum, and an `IpAddressData` with its padding, which nobody
-- reads.
abbrev pub enum_image : ℕ → List ℕ
enum_image t = t ∷ 0 ∷ 0 ∷ 0 ∷ []

abbrev pub flag : Bool → ℕ
flag true = 1
flag false = 0

abbrev pub ip_image : IpAddressData → List ℕ
ip_image d = flag d.ipv4 ∷ 0 ∷ 0 ∷ 0 ∷ d.ipaddr

-- The bytes of a part that is copied if the rule's type has it; a null pointer is `fault`.
unfoldable pub part : {A : Type 0} → Bool → Option A → (A → List ℕ) → Result (List ℕ)
part false x image = ok []
part true none image = fault
part true (some x) image = ok (image x)

unfoldable pub rule_image : Rule → Result (List ℕ)
unfolding part
rule_image r = bind (part (has_ip r.rule_type) r.ipd ip_image) λ ip.
    bind (part (has_eth r.rule_type) r.eth (λ e. e)) λ eth.
      bind (part (has_target r.action_type) r.target ip_image) λ target.
        ok (enum_image r.rule_type ++ (enum_image r.action_type ++ (ip ++ (eth ++ target))))
