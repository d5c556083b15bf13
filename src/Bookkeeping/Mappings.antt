-- ===== src/Bookkeeping/Mappings.antt =====
-- src/bookkeeping/ethmappings.cpp: the table from IP addresses to MAC addresses.
pub mod Table
pub mod Found
use dns_wrapper.Common.{
  ℕ, zero, suc, ◌+◌, Bool, true, false, not, ◌&&◌, ◌||◌, ltb, if◌then◌else◌, List, [], ◌∷◌, ◌++◌,
  Option, none, some, take, drop, length, get_elem?, set,
}
use dns_wrapper.Net.Buffer.{IpAddress, EthAddress}
use dns_wrapper.Rule.Evaluate.{bytes_equal, same_flag}

-- `MAX_MAC_IP_MAPPINGS` and `TIMEOUT`.
abbrev pub max_mappings : ℕ
max_mappings = 100

abbrev pub timeout : ℕ
timeout = 5

-- `MacMappingRecord`
pub record Mapping : Type 0 where
  pub ethaddress : EthAddress
  pub ipv4 : Bool
  pub ipaddress : IpAddress
  pub time : ℕ

-- The array, and how many of its records are in use.
pub record EthMappings : Type 0 where
  pub count : ℕ
  pub records : List Mapping

-- What the loop of `Add` finds: the record with the address, and the one that it calls oldest, by
-- their indices and times.
pub record Scan : Type 0 where
  pub target : Option ℕ
  pub oldest : Option (ℕ × ℕ)

-- `!oldest || oldest->time < r.time`
unfoldable pub replaces : Option (ℕ × ℕ) → Mapping → Bool
replaces none r = true
replaces (some (j, t)) r = ltb t r.time

-- The loop over the records in use, the first of them at index `i`.
unfoldable pub scan : EthAddress → ℕ → List Mapping → Option (ℕ × ℕ) → Scan
unfolding bytes_equal replaces
scan e i [] oldest = record { target = none; oldest = oldest }
scan e i (r ∷ rs) oldest =
    if bytes_equal r.ethaddress e
    then record { target = some i; oldest = oldest }
    else scan e (suc i) rs (if replaces oldest r then some (i, r.time) else oldest)

-- The assignments to the target: of an IPv4 address four bytes are copied.
unfoldable pub fill : Mapping → EthAddress → Bool → IpAddress → ℕ → Mapping
fill r e ipv4 ip now = record {
  ethaddress = e;
  ipv4 = ipv4;
  ipaddress = if ipv4 then take 4 ip ++ drop 4 r.ipaddress else ip;
  time = now;
}

unfoldable pub fill_at : ℕ → EthAddress → Bool → IpAddress → ℕ → List Mapping → List Mapping
unfolding fill
fill_at i e ipv4 ip now [] = []
fill_at zero e ipv4 ip now (r ∷ rs) = fill r e ipv4 ip now ∷ rs
fill_at (suc i) e ipv4 ip now (r ∷ rs) = r ∷ fill_at i e ipv4 ip now rs

-- The choice of the target behind the loop, and the new count.
unfoldable pub choose : Scan → ℕ → ℕ → Option ℕ × ℕ
choose s count now = elim s.target [
  | some i ↦ (some i, count)
  | none ↦ if ltb count max_mappings then (some count, suc count) else elim s.oldest [
    | none ↦ (none, count)
    | some (i, t) ↦ if ltb (t + timeout) now then (some i, count) else (none, count)
  ]
]

-- The assignments to the target and the count, if there is a target.
unfoldable pub settle :
    EthAddress → Bool → IpAddress → ℕ → EthMappings → Option ℕ × ℕ → Bool × EthMappings
unfolding fill_at
settle e ipv4 ip now m (none, count) = (false, m)
settle e ipv4 ip now m (some i, count) =
    (true, record { count = count; records = fill_at i e ipv4 ip now m.records })

-- `EthMappings::Add`, at the time `now`.
unfoldable pub add : EthAddress → Bool → IpAddress → ℕ → EthMappings → Bool × EthMappings
unfolding scan choose settle
add e ipv4 ip now m =
    settle e ipv4 ip now m (choose (scan e 0 (take m.count m.records) none) m.count now)

-- The test of `LookUp` on one record.
unfoldable pub is_at : IpAddress → Bool → Mapping → Bool
unfolding bytes_equal
is_at ip ipv4 r =
    same_flag r.ipv4 ipv4
    && ((ipv4 && bytes_equal (take 4 ip) (take 4 r.ipaddress))
        || (not ipv4 && bytes_equal ip r.ipaddress))

unfoldable pub first_at : IpAddress → Bool → List Mapping → Option Mapping
unfolding is_at
first_at ip ipv4 [] = none
first_at ip ipv4 (r ∷ rs) = if is_at ip ipv4 r then some r else first_at ip ipv4 rs

-- `EthMappings::LookUp`
unfoldable pub look_up : IpAddress → Bool → EthMappings → Option Mapping
unfolding first_at
look_up ip ipv4 m = first_at ip ipv4 (take m.count m.records)
