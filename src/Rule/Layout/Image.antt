-- ===== src/Rule/Layout/Image.antt =====
-- Rules with the parts that their types ask for, their bytes in the block, and how they are read.
use dns_wrapper.Common.{
  ℕ, suc, ◌+◌, ◌≤◌, ◌≡◌, refl, sym, ap, ap₂, ◌∙◌, subst, Bool, true, false, List, [], ◌∷◌, ◌++◌,
  Option, none, some, ok, append_assoc, length, length-append, All, arith, ◌==◌, not,
}
use dns_wrapper.Common.Memory.{Memory, Holds, Holds-offset, Holds-append}
use dns_wrapper.Net.Buffer.{EthAddress}
use dns_wrapper.Rule.Layout.{
  IpAddressData, Rule, data_size, ip_bytes, eth_bytes, dns, redirect, ip_address, eth_address,
  ip_and_eth_address, has_ip, has_eth, has_target, load, load_enum, load_ip, present, width,
  next_rule, skip, enum_image, flag, ip_image, part, rule_image,
}

-- What a rule asks of a request's source.
pub data Key : Type 0 where
  by_ip : IpAddressData → Key
  by_eth : EthAddress → Key
  by_both : IpAddressData → EthAddress → Key

-- A rule, and where it redirects, if it does.
pub record StoredRule : Type 0 where
  pub key : Key
  pub target : Option IpAddressData

abbrev pub type_of : Key → ℕ
type_of (by_ip d) = ip_address
type_of (by_eth e) = eth_address
type_of (by_both d e) = ip_and_eth_address

abbrev pub ip_of : Key → Option IpAddressData
ip_of (by_ip d) = some d
ip_of (by_eth e) = none
ip_of (by_both d e) = some d

abbrev pub eth_of : Key → Option EthAddress
eth_of (by_ip d) = none
eth_of (by_eth e) = some e
eth_of (by_both d e) = some e

abbrev pub action_type_of : Option IpAddressData → ℕ
action_type_of none = dns
action_type_of (some t) = redirect

-- The rule as the program passes it.
abbrev pub to_rule : StoredRule → Rule
to_rule s = record {
  rule_type = type_of s.key;
  action_type = action_type_of s.target;
  ipd = ip_of s.key;
  eth = eth_of s.key;
  target = s.target;
}

abbrev pub optional : {A : Type 0} → (A → List ℕ) → Option A → List ℕ
optional image none = []
optional image (some x) = image x

abbrev pub image : StoredRule → List ℕ
image s =
    enum_image (type_of s.key)
    ++ (enum_image (action_type_of s.target)
        ++ (optional ip_image (ip_of s.key)
            ++ (optional (λ e. e) (eth_of s.key) ++ optional ip_image s.target)))

abbrev pub images : List StoredRule → List ℕ
images [] = []
images (s ∷ ss) = image s ++ images ss

-- The arrays are as long as their types say.
abbrev pub IsIp : IpAddressData → Type 0
IsIp d = length d.ipaddr ≡ 16

abbrev pub IsEth : EthAddress → Type 0
IsEth e = length e ≡ 6

abbrev pub OnSome : {A : Type 0} → (A → Type 0) → Option A → Type 0
OnSome P none = Unit {0}
OnSome P (some x) = P x

pub record IsStored (s : StoredRule) : Type 0 where
  pub ip : OnSome IsIp (ip_of s.key)
  pub eth : OnSome IsEth (eth_of s.key)
  pub target : OnSome IsIp s.target

load-Holds : (m : Memory) (p : ℕ) (xs : List ℕ) → Holds m p xs → load m p (length xs) ≡ xs
unfolding load
load-Holds m p [] h = refl
load-Holds m p (x ∷ xs) (h, hs) = ap₂ (λ y ys. y ∷ ys) h (load-Holds m (suc p) xs hs)

read_flag : (x : ℕ) (b : Bool) → x ≡ flag b → not (x == 0) ≡ b
read_flag x true e = ground arith
read_flag x false e = ground arith

load_ip-Holds :
    (m : Memory) (p : ℕ) (d : IpAddressData) → IsIp d → Holds m p (ip_image d) → load_ip m p ≡ d
unfolding load_ip
load_ip-Holds m p d len (f, (_, (_, (_, rest)))) =
    ap₂ (λ a b. record { ipv4 = a; ipaddr = b }) (read_flag (m p) d.ipv4 f)
      (subst (λ n. load m (p + 4) n ≡ d.ipaddr) len
        (load-Holds m (p + 4) d.ipaddr (Holds-offset m d.ipaddr (omega arith) rest)))

load_enum-Holds : (m : Memory) (p t : ℕ) → Holds m p (enum_image t) → load_enum m p ≡ t
unfolding load_enum
load_enum-Holds m p t (a, (b, (c, (d, _)))) =
    let one : p + 1 ≡ suc p = omega arith in
    let two : p + 2 ≡ suc (suc p) = omega arith in
    let three : p + 3 ≡ suc (suc (suc p)) = omega arith in rw (one, two, three) (omega arith)

-- The width and the value of a part that is read if a test holds.
record PartReads {A : Type 0} (load_one : A) (here : Bool) (n : ℕ) (o : Option A) (xs : List ℕ)
    : Type 0 where
  wide : width here n ≡ length xs
  reads : present here load_one ≡ o

ip-PartReads :
    (m : Memory) (p : ℕ) (k : Key)
    → OnSome IsIp (ip_of k)
    → Holds m p (optional ip_image (ip_of k))
    → PartReads (load_ip m p) (has_ip (type_of k)) ip_bytes (ip_of k) (optional ip_image (ip_of k))
ip-PartReads m p (by_ip d) good h = record {
  wide = omega (arith, good);
  reads = ap some (load_ip-Holds m p d good h);
}
ip-PartReads m p (by_eth e) good h = record { wide = refl; reads = refl }
ip-PartReads m p (by_both d e) good h = record {
  wide = omega (arith, good);
  reads = ap some (load_ip-Holds m p d good h);
}

eth_load : (m : Memory) (p : ℕ) (e : EthAddress) → IsEth e → Holds m p e → load m p 6 ≡ e
eth_load m p e good h = subst (λ n. load m p n ≡ e) good (load-Holds m p e h)

eth-PartReads :
    (m : Memory) (p : ℕ) (k : Key)
    → OnSome IsEth (eth_of k)
    → Holds m p (optional (λ e. e) (eth_of k))
    → PartReads
        (load m p 6)
        (has_eth (type_of k))
        eth_bytes
        (eth_of k)
        (optional (λ e. e) (eth_of k))
eth-PartReads m p (by_ip d) good h = record { wide = refl; reads = refl }
eth-PartReads m p (by_eth e) good h = record {
  wide = sym good;
  reads = ap some (eth_load m p e good h);
}
eth-PartReads m p (by_both d e) good h = record {
  wide = sym good;
  reads = ap some (eth_load m p e good h);
}

target-PartReads :
    (m : Memory) (p : ℕ) (t : Option IpAddressData)
    → OnSome IsIp t
    → Holds m p (optional ip_image t)
    → PartReads (load_ip m p) (has_target (action_type_of t)) ip_bytes t (optional ip_image t)
target-PartReads m p none good h = record { wide = refl; reads = refl }
target-PartReads m p (some t) good h = record {
  wide = omega (arith, good);
  reads = ap some (load_ip-Holds m p t good h);
}

-- Where a rule stands in the array, `nextRule` reads it and goes behind it.
pub next_rule-Holds :
    (m : Memory) (p : ℕ) (s : StoredRule)
    → IsStored s
    → p + length (image s) ≤ data_size
    → Holds m p (image s)
    → next_rule m p ≡ ok (to_rule s, p + length (image s))
unfolding next_rule
next_rule-Holds m p s good room (t0, (t1, (t2, (t3, (a0, (a1, (a2, (a3, rest)))))))) =
    let k = s.key in
    let ip = optional ip_image (ip_of k) in
    let eth = optional (λ e. e) (eth_of k) in
    let t = optional ip_image s.target in
    let (ip_here, behind_ip) =
      Holds-append m (p + 8) (p + 8 + length ip) ip (eth ++ t) refl
        (Holds-offset m _ (omega arith) rest) in
    let (eth_here, t_here) =
      Holds-append m (p + 8 + length ip) (p + 8 + length ip + length eth) eth t refl behind_ip in
    let type_read = load_enum-Holds m p (type_of k) (t0, (t1, (t2, (t3, tt)))) in
    let action_read = load_enum-Holds m (p + 4) (action_type_of s.target) (
      Holds-offset m (enum_image (action_type_of s.target)) (omega arith)
        (a0, (a1, (a2, (a3, tt))))) in
    let one = ip-PartReads m (p + 8) k good.ip ip_here in
    let two = eth-PartReads m (p + 8 + length ip) k good.eth eth_here in
    let three = target-PartReads m (p + 8 + length ip + length eth) s.target good.target t_here in
    let total = length-append ip (eth ++ t) in
    let total' = length-append eth t in
    rw (type_read, action_read, one.wide, two.wide, three.wide, one.reads, two.reads, three.reads)
      (ground arith)

-- `rule_image` copies the parts that the type asks for, and they are all there.
pub rule_image-to_rule : (s : StoredRule) → rule_image (to_rule s) ≡ ok (image s)
unfolding rule_image part
rule_image-to_rule s = parts_lem s.key s.target
  where
    parts_lem :
        (k : Key) (t : Option IpAddressData)
        → rule_image (to_rule (record { key = k; target = t }))
          ≡ ok (image (record { key = k; target = t }))
    parts_lem (by_ip d) none = refl
    parts_lem (by_ip d) (some t) = refl
    parts_lem (by_eth e) none = refl
    parts_lem (by_eth e) (some t) = refl
    parts_lem (by_both d e) none = refl
    parts_lem (by_both d e) (some t) = refl

pub images-append : (ss ts : List StoredRule) → images (ss ++ ts) ≡ images ss ++ images ts
images-append [] ts = refl
images-append (s ∷ ss) ts =
    rw (images-append ss ts) (sym (append_assoc (image s) (images ss) (images ts)))

pub length-images-append :
    (ss ts : List StoredRule) → length (images (ss ++ ts)) ≡ length (images ss) + length (images ts)
length-images-append ss ts = ap length (images-append ss ts) ∙ length-append (images ss) (images ts)

-- Rules that stand one behind the other are skipped one by one.
pub skip-Holds :
    (m : Memory) (p : ℕ) (ss : List StoredRule)
    → All IsStored ss
    → p + length (images ss) ≤ data_size
    → Holds m p (images ss)
    → skip m (length ss) p ≡ ok (p + length (images ss))
unfolding skip
skip-Holds m p [] good room holds = ap ok (omega arith)
skip-Holds m p (s ∷ ss) (good, goods) room holds =
    let (here, behind) = Holds-append m p (p + length (image s)) (image s) (images ss) refl holds in
    let total = length-append (image s) (images ss) in
    let first = next_rule-Holds m p s good (omega arith) here in
    let rest = skip-Holds m (p + length (image s)) ss goods (omega arith) behind in
    rw first (rest ∙ ap ok (omega arith))
