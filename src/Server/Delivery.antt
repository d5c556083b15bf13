-- ===== src/Server/Delivery.antt =====
-- From the client's request to its answer, through src/dns/server.cpp.
use mathlib.Core.Option.{some-injective, some-ne-none}
use dns_wrapper.Common.{
  ℕ, zero, suc, ◌≡◌, refl, sym, ap, ◌∙◌, subst, Bool, true, false, List, [], ◌∷◌, ◌++◌, map, some,
  ok, bind, Option-cases, inl, inr, arith, ◌==◌, ◌&&◌, get_elem?, All,
}
use dns_wrapper.Net.Buffer.{e_noerror}
use dns_wrapper.Dns.Header.{incoming_response}
use dns_wrapper.Dns.Packet
use dns_wrapper.Dns.Packet.{
  Packet, hash, set_id, get_id, set_recursion_available, get_response_code,
}
use dns_wrapper.Bookkeeping.Mappings.Table.{bytes_equal_refl}
use dns_wrapper.Bookkeeping.Peer.{
  PeerSource, PeerRequestRecord, PeerRequests, in_use, is_answered, lookup,
}
use dns_wrapper.Bookkeeping.Peer.Lookup.{Finds, FirstAt, lookup_lem}
use dns_wrapper.Bookkeeping.Peer.Unique.{UniqueIds}
use dns_wrapper.Server.{Platform, Datagram, Server, free_at, at_upstream, sources_of}
use dns_wrapper.Server.Receive.{find_upstream, rated, deliver, process_upstream_response}
use dns_wrapper.Server.Route.{IsWritten, answer_all_lem}

split_and : (a b : Bool) → a && b ≡ true → (a ≡ true) × (b ≡ true)
split_and true b e = (refl, e)
split_and false b e = cc

module _ {E : Type 0} where
  no_record :
      (P : PeerRequestRecord E → Type 0) (rs : List (PeerRequestRecord E)) (i : ℕ)
      (r : PeerRequestRecord E)
      → All P rs
      → get_elem? rs i ≡ some r
      → P r
  no_record P [] i r h e = absurd (some-ne-none _ (sym e))
  no_record P (t ∷ rs) zero r (h, hs) e = subst P (some-injective _ _ e) h
  no_record P (t ∷ rs) (suc i) r (h, hs) e = no_record P rs i r hs e

  -- A waiting request is found by its identifier and its hash.
  lookup_unique :
      (p : PeerRequests E) (i : ℕ) (r : PeerRequestRecord E)
      → UniqueIds p.records
      → get_elem? p.records i ≡ some r
      → in_use r ≡ true
      → lookup r.new_id (some r.hash) p ≡ some i
  lookup_unique p i r unique at used =
      let passes : is_answered r.new_id r.hash r ≡ true =
        rw (used, bytes_equal_refl r.hash) (ground arith) in
      let finds = lookup_lem r.new_id r.hash p in
      elim (Option-cases (lookup r.new_id (some r.hash) p)) [
        | inl missing ↦
            let fails =
              no_record _ p.records i r
                (subst (Finds (is_answered r.new_id r.hash) p.records) missing finds) at in
            let impossible : true ≡ false = sym passes ∙ fails in cc
        | inr (j, found) ↦
            let first : FirstAt (is_answered r.new_id r.hash) p.records j =
              subst (Finds (is_answered r.new_id r.hash) p.records) found finds in
            let (used', rest) = split_and (in_use first.at) _ first.passes in
            let (same, equal) = split_and (first.at.new_id == r.new_id) _ rest in
            found ∙ ap some (unique j i first.at r first.here at used' used (ground (arith, same)))
      ]

module _ {E : Type 0} (platform : Platform E) where
  abbrev pub to_source : (ℕ → List ℕ) → PeerSource E → Datagram E
  to_source bytes q = record { ipv4 = q.ipv4; endpoint = q.endpoint; bytes = bytes q.original_id }

  -- The state behind the answers and the release of the record.
  abbrev answered : (ℕ → List ℕ) → ℕ → PeerRequestRecord E → Server E → Server E
  answered bytes i r s = record s {
    sent = s.sent ++ map (to_source bytes) (sources_of r);
    peers = free_at i s.peers;
  }

  deliver_lem :
      (now : ℕ) (p : Packet) (bytes : ℕ → List ℕ) (k i : ℕ) (r : PeerRequestRecord E) (s : Server E)
      → get_elem? s.peers.records i ≡ some r
      → ((id : ℕ) → IsWritten platform (set_id id (set_recursion_available true p)) (bytes id))
      → (s' : Server E) × (deliver platform now k i p s ≡ ok s')
        × (s'.sent ≡ s.sent ++ map (to_source bytes) (sources_of r))
        × (s'.peers ≡ free_at i s.peers)
  unfolding deliver
  deliver_lem now p bytes k i r s at w =
      let c : Server E = at_upstream k (rated now r p) s in
      let sends =
        answer_all_lem platform (set_recursion_available true p) bytes (sources_of r) c w in
      (answered bytes i r c, rw (deliver, at, sends) refl, refl, refl)

  -- A valid answer from a known upstream server that has the identifier and the hash of a
  -- waiting request, while no two waiting requests have the same identifier and the answer
  -- can be written, goes to every client that asked, with the client's own identifier, and
  -- the request waits no longer.
  pub process_upstream_response_lem :
      (now : ℕ) (p : Packet) (bytes : ℕ → List ℕ) (endpoint : E) (k i : ℕ) (r : PeerRequestRecord E)
      (s : Server E)
      → UniqueIds s.peers.records
      → get_elem? s.peers.records i ≡ some r
      → in_use r ≡ true
      → find_upstream platform endpoint 0 s.servers ≡ some k
      → Packet.validate incoming_response p ≡ ok e_noerror
      → hash platform.sha p ≡ ok r.hash
      → get_id p ≡ r.new_id
      → ((id : ℕ) → IsWritten platform (set_id id (set_recursion_available true p)) (bytes id))
      → (s' : Server E) × (process_upstream_response platform now p endpoint s ≡ ok s')
        × (s'.sent ≡ s.sent ++ map (to_source bytes) (sources_of r))
        × (s'.peers ≡ free_at i s.peers)
  unfolding process_upstream_response deliver
  process_upstream_response_lem now p bytes endpoint k i r s unique at used known valid hashed id
        w =
      let found : lookup (get_id p) (some r.hash) s.peers ≡ some i =
        rw id (lookup_unique s.peers i r unique at used) in
      let (s', runs, sent, peers) = deliver_lem now p bytes k i r s at w in
      (
        s',
        rw (process_upstream_response, known, valid, hashed) (rw (bind, found) runs),
        sent,
        peers,
      )
