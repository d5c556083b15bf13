-- ===== src/Server/Asking.antt =====
-- A new request on its way upstream, through `resolve` of src/dns/server.cpp.
use dns_wrapper.Common.{
  ℕ, suc, ◌+◌, ◌≤◌, ◌<◌, ◌≡◌, ◌⊎◌, refl, ap, ◌∙◌, subst, Bool, true, false, List, [], ◌∷◌, ◌++◌,
  map, some, ok, bind-eq-ok, ok-injective, Option-cases, inl, inr, arith, get_elem?, length,
}
use dns_wrapper.Dns.Packet.{Packet, set_id}
use dns_wrapper.Bookkeeping.Peer.{
  PeerSource, PeerRequestRecord, PeerRequests, in_use, modify, max_fwd_queries, get_new_record,
}
use dns_wrapper.Bookkeeping.Peer.Records.{live}
use dns_wrapper.Bookkeeping.Peer.Waiting.{get_new_record-Got, get_new_record-none, modify_here}
use dns_wrapper.Bookkeeping.Peer.Lookup.{Unused, get_new_id_lem}
use dns_wrapper.Bookkeeping.Peer.Unique.{UniqueIds, modify-Fewer}
use dns_wrapper.Bookkeeping.Peer.Naming.{Fewer-Unused, get_new_record-Unused}
use dns_wrapper.Server.{Platform, Upstream, Server}
use dns_wrapper.Server.Resolve.{source_from, forward, resolve_new}
use dns_wrapper.Server.Route.{IsWritten, to_upstream, forward_lem}
use dns_wrapper.Server.Invariant.Handlers.{send_packet-Silent, resolve_new-Tidy}

module _ {E : Type 0} where
  -- A record in use with a source, an identifier and a hash.
  pub record Waits (s : Server E) (i : ℕ) (q : PeerSource E) (id : ℕ) (digest : List ℕ)
      : Type 0 where
    pub at : PeerRequestRecord E
    pub here : get_elem? s.peers.records i ≡ some at
    pub used : in_use at ≡ true
    pub source : at.source ≡ q
    pub new_id : at.new_id ≡ id
    pub hash : at.hash ≡ digest

module _ {E : Type 0} (platform : Platform E) where
  -- Sending keeps the record, and puts it to use.
  forward-Waits :
      (p : Packet) (i k : ℕ) (us : List (Upstream E)) (s s' : Server E) (t : PeerRequestRecord E)
      → get_elem? s.peers.records i ≡ some t
      → (in_use t ≡ true) ⊎ (1 ≤ length us)
      → forward platform p i k us s ≡ ok s'
      → Waits s' i t.source t.new_id t.hash
  unfolding forward
  forward-Waits p i k [] s s' t at used e =
      subst (λ x. Waits x i t.source t.new_id t.hash) (ok-injective e)
        (record {
          at = t;
          here = at;
          used = elim used [ inl h ↦ h | inr h ↦ absurd (omega arith) ];
          source = refl;
          new_id = refl;
          hash = refl;
        })
  forward-Waits p i k (u ∷ us) s s' t at used e =
      let (c, first, rest) = bind-eq-ok _ _ e in
      let quiet = send_packet-Silent platform p u.endpoint u.ipv4 _ c first in
      let next =
        forward-Waits p i (suc k) us c s' (record t { sent_to = some k })
          (ap (λ x. get_elem? x.records i) quiet.peers ∙ modify_here _ i s.peers.records t at)
          (inl refl) rest in
      record {
        at = next.at;
        here = next.here;
        used = next.used;
        source = next.source;
        new_id = next.new_id;
        hash = next.hash;
      }

  -- A new request that can be written, with an upstream server, with fewer than 150 requests
  -- that have waited less than the timeout, no two of which have the same identifier, and a
  -- generator that draws an unused identifier at the draw k, within the fuel: it goes to
  -- every upstream server under an identifier of the draws up to k, waits with this
  -- identifier, its hash and its source, and no other waiting request has the identifier.
  pub resolve_new_lem :
      (fuel k now : ℕ) (digest : List ℕ) (p : Packet) (bytes : ℕ → List ℕ) (endpoint : E)
      (ipv4 : Bool) (s : Server E)
      → 1 ≤ length s.servers
      → live now s.peers.records < max_fwd_queries
      → k < fuel
      → Unused (platform.draw (s.drawn + k)) s.peers.records
      → UniqueIds s.peers.records
      → ((id : ℕ) → IsWritten platform (set_id id p) (bytes id))
      → (s' : Server E) × (i : ℕ) × (j : ℕ) × (j ≤ k)
        × (resolve_new platform fuel now digest p endpoint ipv4 s ≡ ok s')
        × (s'.sent
            ≡ s.sent ++ map (to_upstream platform (bytes (platform.draw (s.drawn + j)))) s.servers)
        × Waits s' i (source_from platform p endpoint ipv4) (platform.draw (s.drawn + j)) digest
        × UniqueIds s'.peers.records
  unfolding resolve_new
  resolve_new_lem fuel k now digest p bytes endpoint ipv4 s some_server few enough unused unique w =
      elim (Option-cases (get_new_record platform.blank now false s.peers).0) [
        | inl full ↦
            let (_, many) = (get_new_record-none platform.blank now false s.peers).0 full in
            absurd (omega (arith, few, many))
        | inr (i, found) ↦ granted i found
      ]
    where
      granted :
          (i : ℕ)
          → (get_new_record platform.blank now false s.peers).0 ≡ some i
          → (s' : Server E) × (i : ℕ) × (j : ℕ) × (j ≤ k)
            × (resolve_new platform fuel now digest p endpoint ipv4 s ≡ ok s')
            × (s'.sent
                ≡ s.sent
                  ++ map (to_upstream platform (bytes (platform.draw (s.drawn + j)))) s.servers)
            × Waits s' i (source_from platform p endpoint ipv4) (platform.draw (s.drawn + j)) digest
            × UniqueIds s'.peers.records
      granted i found =
          let got : PeerRequests E = (get_new_record platform.blank now false s.peers).1 in
          let (t, at, free, made) =
            (get_new_record-Got platform.blank now false s.peers i found).at in
          let sourced : PeerRequests E = record got {
            records =
                modify (λ r. record r { source = source_from platform p endpoint ipv4 }) i
                  got.records;
          } in
          let here : get_elem? sourced.records i
              ≡ some (record t { source = source_from platform p endpoint ipv4 }) =
            modify_here _ i got.records t at in
          let unused' : Unused (platform.draw (s.drawn + k)) sourced.records =
            Fewer-Unused _ got.records _ (modify-Fewer _ i got.records (λ r e u. (u, refl)))
              (get_new_record-Unused platform.blank now false s.peers _ unused) in
          let (j, le, drawn, fresh_id) =
            get_new_id_lem k fuel platform.draw s.drawn sourced enough unused' in
          let id : ℕ = platform.draw (s.drawn + j) in
          let named : Server E = record s {
            peers = record sourced {
              records =
                  modify (λ r. record r { new_id = id; hash = digest; flags = 0 }) i
                    sourced.records;
            };
            drawn = suc (s.drawn + j);
          } in
          let (s', runs, sent) =
            forward_lem platform (set_id id p) (bytes id) i 0 s.servers named (w id) in
          let returns : resolve_new platform fuel now digest p endpoint ipv4 s ≡ ok s' =
            rw (resolve_new, found, drawn) runs in
          let tidy =
            resolve_new-Tidy platform fuel now digest p endpoint ipv4 s s' unique returns in
          (
            s',
            i,
            j,
            le,
            returns,
            sent,
            forward-Waits (set_id id p) i 0 s.servers named s' _
                (modify_here _ i sourced.records _ here) (inr some_server) runs,
            tidy.unique,
          )
