-- ===== src/System/Interfaces.antt =====
-- include/net/if.hpp with src/unix/unixif.cpp and src/win32/win32if.cpp: the list of network
-- interfaces. A pointer into the system's linked list is the list from there; the null pointer is [].
use dns_wrapper.Common.{
  ℕ, zero, suc, ◌≤◌, ◌≡◌, ◌≢◌, refl, ap, ◌∙◌, Bool, true, false, not, ◌||◌, ◌==◌, if◌then◌else◌,
  Bool-cases, inl, inr, List, [], ◌∷◌, Option, none, some, Option-cases, Result, ok, fault, stuck,
  bind, All, arith, length,
}
use dns_wrapper.Rule.Evaluate.{bytes_equal}
use dns_wrapper.Text.{Text, codes}

-- `AF_INET`, `AF_INET6`, `AF_PACKET` of Linux.
abbrev pub af_inet : ℕ
af_inet = 2

abbrev pub af_inet6 : ℕ
af_inet6 = 10

abbrev pub af_packet : ℕ
af_packet = 17

-- `struct ifaddrs`: the name, and the family of the address it points to, if it points to one.
pub record IfAddrs : Type 0 where
  pub name : Text
  pub family : Option ℕ

abbrev pub Pointer : Type 0
Pointer = List IfAddrs

-- `ptr->ifa_addr->sa_family`
unfoldable pub sa_family : IfAddrs → Result ℕ
sa_family a = elim a.family [ none ↦ fault | some f ↦ ok f ]

-- `Interface::Type`
unfoldable pub type : Pointer → Result Text
unfolding sa_family
type [] = fault
type (a ∷ more) = bind (sa_family a) λ f. ok (
    if f == af_inet
    then codes "AF_INET"
    else if f == af_inet6
    then codes "AF_INET6"
    else if f == af_packet
    then codes "AF_PACKET"
    else codes "UNKNOWN")

unfoldable pub has_ipv4 : Pointer → Result Bool
unfolding sa_family
has_ipv4 [] = fault
has_ipv4 (a ∷ more) = bind (sa_family a) λ f. ok (f == af_inet)

unfoldable pub has_ipv6 : Pointer → Result Bool
unfolding sa_family
has_ipv6 [] = fault
has_ipv6 (a ∷ more) = bind (sa_family a) λ f. ok (f == af_inet6)

-- `skippableInterface`: the family is read only of an interface that is not `lo`.
unfoldable pub skippable_interface : IfAddrs → Result Bool
unfolding sa_family bytes_equal
skippable_interface a =
    if bytes_equal a.name (codes "lo") then ok true else bind (sa_family a) λ f. ok (f == af_packet)

-- `Interface::operator++` behind its first assignment of `ptr`.
unfoldable pub skip_from : Pointer → Result Pointer
unfolding skippable_interface
skip_from [] = ok []
skip_from (a ∷ more) =
    let rest = skip_from more in
    bind (skippable_interface a) λ skip. if skip then rest else ok (a ∷ more)

-- `Interface::operator++`
unfoldable pub next : Pointer → Result Pointer
unfolding skip_from
next [] = fault
next (a ∷ more) = skip_from more

-- `thisOrNextUseful`
unfoldable pub this_or_next_useful : Pointer → Result Pointer
unfolding skippable_interface
this_or_next_useful [] = fault
this_or_next_useful (a ∷ []) = bind (skippable_interface a) λ skip. ok (if skip then [] else a ∷ [])
this_or_next_useful (a ∷ b ∷ more) =
    let rest = this_or_next_useful (b ∷ more) in
    bind (skippable_interface a) λ skip. if skip then rest else ok (a ∷ b ∷ more)

-- The constructor of `NetInterface`, of what `getifaddrs` returns and the list that it sets: the
-- exit code of `Die`, or `start`.
pub data Opened : Type 0 where
  dies : ℕ → Opened
  opened : Result Pointer → Opened

abbrev pub ec_nomem : ℕ
ec_nomem = 4

abbrev pub ec_misc : ℕ
ec_misc = 5

unfoldable pub net_interface : Bool → Pointer → Opened
unfolding this_or_next_useful
net_interface failed addrs = if failed then dies ec_misc else opened (this_or_next_useful addrs)

-- A range-for over the interfaces that visits at most `fuel` of them.
abbrev pub visit : (Pointer → Result Pointer) → ℕ → Pointer → Result (List IfAddrs)
visit step fuel [] = ok []
visit step zero (a ∷ more) = stuck
visit step (suc fuel) (a ∷ more) =
    bind (step (a ∷ more)) λ p. bind (visit step fuel p) λ rest. ok (a ∷ rest)

-- Which interfaces are of use.
abbrev pub HasAddress : IfAddrs → Type 0
HasAddress a = a.family ≢ none

abbrev pub is_useful : IfAddrs → Bool
is_useful a = elim a.family [
  | none ↦ false
  | some f ↦ not (bytes_equal a.name (codes "lo") || f == af_packet)
]

abbrev pub useful : List IfAddrs → List IfAddrs
useful [] = []
useful (a ∷ more) = if is_useful a then a ∷ useful more else useful more

skippable_interface_lem :
    (a : IfAddrs) → HasAddress a → skippable_interface a ≡ ok (not (is_useful a))
unfolding skippable_interface sa_family
skippable_interface_lem a has = elim (Option-cases a.family) [
  | inl missing ↦ absurd (has missing)
  | inr (f, found) ↦ rw found (ground arith)
]

-- Where a pointer moves on to: from there a range-for visits the interfaces of use.
record Leads (p : Pointer) : Type 0 where
  to : Pointer
  skips : skip_from p ≡ ok to
  visits : (fuel : ℕ) → length p ≤ fuel → visit next fuel to ≡ ok (useful p)

skip_from-Leads : (p : Pointer) → All HasAddress p → Leads p
unfolding skip_from next
skip_from-Leads [] has = record { to = []; skips = refl; visits = λ fuel enough. refl }
skip_from-Leads (a ∷ more) (has, haves) =
    let ih = skip_from-Leads more haves in
    let skippable = skippable_interface_lem a has in
    elim (Bool-cases (is_useful a)) [
      | inl useful ↦ record {
        to = a ∷ more;
        skips = rw (skippable, useful) refl;
        visits = λ fuel enough. by_fuel fuel enough ih useful;
      }
      | inr useless ↦ record {
        to = ih.to;
        skips = rw (skippable, useless) ih.skips;
        visits = λ fuel enough. rw useless (ih.visits fuel (omega arith));
      }
    ]
  where
    by_fuel :
        (fuel : ℕ)
        → suc (length more) ≤ fuel
        → Leads more
        → is_useful a ≡ true
        → visit next fuel (a ∷ more) ≡ ok (useful (a ∷ more))
    by_fuel zero enough ih good = absurd (omega arith)
    by_fuel (suc fuel) enough ih good = rw (ih.skips, ih.visits fuel (omega arith), good) refl

this_or_next_useful-skip_from :
    (a : IfAddrs) (more : Pointer) → this_or_next_useful (a ∷ more) ≡ skip_from (a ∷ more)
unfolding this_or_next_useful skip_from
this_or_next_useful-skip_from a [] = ground arith
this_or_next_useful-skip_from a (b ∷ more) = rw (this_or_next_useful-skip_from b more) refl

-- On a list with an interface, where every interface has an address, the constructor succeeds,
-- and a range-for visits the interfaces that are neither `lo` nor have a packet address, once
-- and in their order.
pub visit-net_interface :
    (a : IfAddrs) (more : Pointer) (fuel : ℕ)
    → All HasAddress (a ∷ more)
    → length (a ∷ more) ≤ fuel
    → (p : Pointer) × (net_interface false (a ∷ more) ≡ opened (ok p))
      × (visit next fuel p ≡ ok (useful (a ∷ more)))
unfolding net_interface
visit-net_interface a more fuel has enough =
    let leads = skip_from-Leads (a ∷ more) has in
    (
      leads.to,
      ap opened (this_or_next_useful-skip_from a more ∙ leads.skips),
      leads.visits fuel enough,
    )
