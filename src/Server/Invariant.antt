-- ===== src/Server/Invariant.antt =====
-- The server's state over any sequence of datagrams, frames and edits of the rules
-- (src/dns/server.cpp, src/rule/shm.cpp).
pub mod Handlers
pub mod Receiving
pub mod Insertion
use dns_wrapper.Common.{ℕ, ◌+◌, ◌≡◌, ◌≢◌, ◌⊎◌, ◌∷◌, ◌++◌, length, Bool, List, ok, err, fault, stuck}
use dns_wrapper.Net.Buffer.{Buffer}
use dns_wrapper.Net.Frame
use dns_wrapper.Rule.Layout.{RuleData}
use dns_wrapper.Rule.Layout.Image.{StoredRule, IsStored, to_rule, type_of, image, images}
use dns_wrapper.Rule.Shm.{insert_rule}
use dns_wrapper.Server.Invariant.Insertion.{Listing}
use dns_wrapper.Rule.Shm.Edit.{Encodes}
use dns_wrapper.Rule.Shm.History.{Command, IsCommand, execute, Represents}
use dns_wrapper.Bookkeeping.Mappings.{add}
use dns_wrapper.Bookkeeping.Mappings.Table.{IsTable}
use dns_wrapper.Bookkeeping.Peer.Unique.{UniqueIds}
use dns_wrapper.Server.{Platform, Server}
use dns_wrapper.Server.Receive.{receive, receive_raw}

module _ {E : Type 0} where
  -- No two waiting requests have the same identifier, the table of addresses is within its bounds
  -- and without doubles, and the block of rules holds a list.
  pub record IsConsistent (s : Server E) : Type 0 where
    pub unique : UniqueIds s.peers.records
    pub table : IsTable s.mappings
    pub listing : Listing s.rules

-- What happens to the server: a datagram or a raw frame that it handles without a crash, or a call
-- that edits the rules; `InsertRule` takes any index.
pub data Step {E : Type 0} (platform : Platform E) : Server E → Server E → Type 0 where
  datagram :
      {s s' : Server E} (fuel now : ℕ) (b : Buffer) (endpoint : E) (ipv4 : Bool)
      → receive platform fuel now b endpoint ipv4 s ≡ ok s'
      → Step platform s s'
  frame :
      {s s' : Server E} (dns_port now : ℕ) (ipv4 : Bool) (b : Buffer)
      → receive_raw platform dns_port now ipv4 b s ≡ ok s'
      → Step platform s s'
  edit :
      {s : Server E} (c : Command) (answer : Bool) (d : RuleData)
      → IsCommand c
      → execute c s.rules ≡ ok (answer, d)
      → Step platform s (record s { rules = d })
  insertion :
      {s : Server E} (r : StoredRule) (index : ℕ) (answer : Bool) (d : RuleData)
      → IsStored r
      → insert_rule (to_rule r) index s.rules ≡ ok (answer, d)
      → Step platform s (record s { rules = d })

pub data Reach {E : Type 0} (platform : Platform E) (s : Server E) : Server E → Type 0 where
  here : Reach platform s s
  next : {t u : Server E} → Reach platform s t → Step platform t u → Reach platform s u

module _ {E : Type 0} {platform : Platform E} where
  -- An insertion in front of a rule whose first byte is not the one that stood where it goes.
  abbrev pub Damages : {s s' : Server E} → Step platform s s' → Type 0
  Damages (datagram fuel now b endpoint ipv4 e) = ⊥
  Damages (frame dns_port now ipv4 b e) = ⊥
  Damages (edit c answer d command e) = ⊥
  Damages (insertion {s} r index answer d good e) =
      (ss : List StoredRule) × (t : StoredRule) × (ts : List StoredRule) × Encodes s.rules
        (ss ++ t ∷ ts)
      × (index ≡ length ss)
      × (s.rules.bytes (length (images ss) + length (image r)) ≢ type_of t.key)

  -- There is such an insertion on the way.
  abbrev pub IsDamaged : {s s' : Server E} → Reach platform s s' → Type 0
  IsDamaged here = ⊥
  IsDamaged (next r step) = IsDamaged r ⊎ Damages step

module _ {E : Type 0} (platform : Platform E) where
  record Kept (s s' : Server E) : Type 0 where
    pub table : IsTable s'.mappings
    pub peers : s'.peers ≡ s.peers
    pub rules : s'.rules ≡ s.rules
