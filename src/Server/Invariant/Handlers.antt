-- ===== src/Server/Invariant/Handlers.antt =====
-- What the handlers of src/dns/server.cpp that send keep: identifiers, addresses and rules.
use mathlib.Core.Option.{some-injective}
use dns_wrapper.Common.{
  ℕ, suc, ◌+◌, ◌≡◌, ◌⊎◌, refl, sym, ap, ◌∙◌, subst, Bool, true, false, List, [], ◌∷◌, none, some,
  Result, ok, err, fault, stuck, bind-eq-ok, ok-injective, List-cases, Option-cases, Bool-cases,
  inl, inr, ltb, ◌&&◌, get_elem?,
}
use dns_wrapper.Net.Buffer.{Buffer, IpAddress}
use dns_wrapper.Dns.Packet.{Packet, hash, set_id, get_id}
use dns_wrapper.Bookkeeping.Peer.{
  PeerSource, PeerRequestRecord, PeerRequests, has_timed_out, max_fwd_queries, in_use,
  get_new_record, get_new_peer_source, is_asked, lookup_by_query,
}
use dns_wrapper.Bookkeeping.Peer.Unique.{
  UniqueIds, Fewer-UniqueIds, modify-Fewer, get_new_record-UniqueIds,
}
use dns_wrapper.Bookkeeping.Peer.Naming.{
  Fits, sent-UniqueIds, sent-Fits, named-Fits, freed-Fits, freed-UniqueIds,
}
use dns_wrapper.Bookkeeping.Peer.Lookup.{Finds, lookup_by_query_lem, get_new_id-Unused}
use dns_wrapper.Bookkeeping.Peer.Waiting.{get_new_record-Got, modify_here}
use dns_wrapper.Server.{
  Platform, Upstream, Server, dispatch, send_packet, redirect, update_redirect_response, free_at,
  sources_of,
}
use dns_wrapper.Server.Resolve.{forward, has_source, resolve_new, resolve_known, resolve_request}
use dns_wrapper.Server.Receive.{answer_all}

both_hold : (a b : Bool) → a && b ≡ true → a ≡ true
both_hold true b e = refl
both_hold false b e = e

module _ {E : Type 0} where
  -- A handler that only sends.
  pub record Silent (s s' : Server E) : Type 0 where
    pub peers : s'.peers ≡ s.peers
    pub mappings : s'.mappings ≡ s.mappings
    pub rules : s'.rules ≡ s.rules

  -- A handler that keeps the identifiers apart and leaves the addresses and the rules.
  pub record Tidy (s s' : Server E) : Type 0 where
    pub unique : UniqueIds s'.peers.records
    pub mappings : s'.mappings ≡ s.mappings
    pub rules : s'.rules ≡ s.rules

  pub same-Silent : (s s' : Server E) → s' ≡ s → Silent s s'
  same-Silent s s' e = record {
    peers = ap (λ x. x.peers) e;
    mappings = ap (λ x. x.mappings) e;
    rules = ap (λ x. x.rules) e;
  }

  pub Silent-Tidy : (s s' : Server E) → UniqueIds s.peers.records → Silent s s' → Tidy s s'
  Silent-Tidy s s' unique q = record {
    unique = subst (λ x. UniqueIds x.records) (sym q.peers) unique;
    mappings = q.mappings;
    rules = q.rules;
  }

module _ {E : Type 0} (platform : Platform E) where
  dispatch-Silent :
      (endpoint : E) (ipv4 : Bool) (s s' : Server E) (r : Result (Unit {0} × Buffer))
      → dispatch platform endpoint ipv4 s r ≡ ok s'
      → Silent s s'
  unfolding dispatch
  dispatch-Silent endpoint ipv4 s s' (ok (_, b)) e =
      let is = sym (ok-injective e) in
      record {
        peers = ap (λ x. x.peers) is;
        mappings = ap (λ x. x.mappings) is;
        rules = ap (λ x. x.rules) is;
      }
  dispatch-Silent endpoint ipv4 s s' (err c) e = same-Silent s s' (sym (ok-injective e))
  dispatch-Silent endpoint ipv4 s s' fault e = cc
  dispatch-Silent endpoint ipv4 s s' stuck e = cc

  pub send_packet-Silent :
      (p : Packet) (endpoint : E) (ipv4 : Bool) (s s' : Server E)
      → send_packet platform p endpoint ipv4 s ≡ ok s'
      → Silent s s'
  unfolding send_packet
  send_packet-Silent p endpoint ipv4 s s' e = dispatch-Silent endpoint ipv4 s s' _ e

  -- A record that is marked as sent, once for each upstream server.
  forward-Tidy :
      (p : Packet) (i k : ℕ) (us : List (Upstream E)) (s s' : Server E)
      → UniqueIds s.peers.records
      → Fits i s.peers.records
      → forward platform p i k us s ≡ ok s'
      → Tidy s s'
  unfolding forward
  forward-Tidy p i k [] s s' unique fits e =
      Silent-Tidy s s' unique (same-Silent s s' (sym (ok-injective e)))
  forward-Tidy p i k (u ∷ us) s s' unique fits e =
      let (t, first, rest) = bind-eq-ok _ _ e in
      let quiet = send_packet-Silent p u.endpoint u.ipv4 _ t first in
      let same = ap (λ x. x.records) quiet.peers in
      let next =
        forward-Tidy p i (suc k) us t s'
          (subst UniqueIds (sym same) (sent-UniqueIds i k s.peers.records unique fits))
          (subst (Fits i) (sym same) (sent-Fits i k s.peers.records fits)) rest in
      record {
        unique = next.unique;
        mappings = next.mappings ∙ quiet.mappings;
        rules = next.rules ∙ quiet.rules;
      }

  pub redirect-Silent :
      (p : Packet) (endpoint : E) (ipv4 : Bool) (target : IpAddress) (s s' : Server E)
      → redirect platform p endpoint ipv4 target s ≡ ok s'
      → Silent s s'
  unfolding redirect
  redirect-Silent p endpoint ipv4 target s s' e =
      let (p', made, rest) =
        bind-eq-ok (λ q. send_packet platform q endpoint ipv4 s) (update_redirect_response target p)
          e in
      send_packet-Silent p' endpoint ipv4 s s' rest

  pub answer_all-Silent :
      (p : Packet) (sources : List (PeerSource E)) (s s' : Server E)
      → answer_all platform p sources s ≡ ok s'
      → Silent s s'
  unfolding answer_all
  answer_all-Silent p [] s s' e = same-Silent s s' (sym (ok-injective e))
  answer_all-Silent p (q ∷ sources) s s' e =
      let (t, first, rest) = bind-eq-ok _ _ e in
      let one = send_packet-Silent (set_id q.original_id p) q.endpoint q.ipv4 s t first in
      let others = answer_all-Silent p sources t s' rest in
      record {
        peers = others.peers ∙ one.peers;
        mappings = others.mappings ∙ one.mappings;
        rules = others.rules ∙ one.rules;
      }

  -- A new request: the record that is given is free, and gets an identifier that no other has.
  pub resolve_new-Tidy :
      (fuel now : ℕ) (digest : List ℕ) (p : Packet) (endpoint : E) (ipv4 : Bool) (s s' : Server E)
      → UniqueIds s.peers.records
      → resolve_new platform fuel now digest p endpoint ipv4 s ≡ ok s'
      → Tidy s s'
  unfolding resolve_new
  resolve_new-Tidy fuel now digest p endpoint ipv4 s s' unique =
      let got : PeerRequests E = (get_new_record platform.blank now false s.peers).1 in
      let kept : UniqueIds got.records =
        get_new_record-UniqueIds platform.blank now false s.peers unique in
      elim (Option-cases (get_new_record platform.blank now false s.peers).0) [
        | inl full ↦
            rw (resolve_new, full)
              (λ e.
                let quiet = send_packet-Silent _ endpoint ipv4 _ s' e in
                record {
                  unique = subst (λ x. UniqueIds x.records) (sym quiet.peers) kept;
                  mappings = quiet.mappings;
                  rules = quiet.rules;
                })
        | inr (i, found) ↦
            let (t0, at, free, made) =
              (get_new_record-Got platform.blank now false s.peers i found).at in
            rw (resolve_new, found)
              (λ e.
                let ((id, drawn), name, rest) = bind-eq-ok _ _ e in
                let sourced =
                  Fewer-UniqueIds got.records _ (modify-Fewer _ i got.records (λ t e' u. (u, refl)))
                    kept in
                let unused = get_new_id-Unused fuel platform.draw s.drawn _ id drawn name in
                let fits =
                  named-Fits
                    (λ (r : PeerRequestRecord E). record r {
                      new_id = id;
                      hash = digest;
                      flags = 0;
                    })
                    i _ id (λ t. refl) unused in
                let named =
                  Fewer-UniqueIds _ _
                    (modify-Fewer
                      (λ (r : PeerRequestRecord E). record r {
                        new_id = id;
                        hash = digest;
                        flags = 0;
                      })
                      i _
                      (λ t e' u.
                        let is =
                          some-injective _ _ (sym (modify_here _ i got.records t0 at) ∙ e') in
                        let impossible : false ≡ true = sym free ∙ ap in_use is ∙ u in cc))
                    sourced in
                let tidy = forward-Tidy _ i 0 s.servers _ s' named fits rest in
                record { unique = tidy.unique; mappings = tidy.mappings; rules = tidy.rules })
      ]

  -- GetNewPeerSource crashes, or has no source and changes nothing.
  new_source-cases :
      (p : PeerRequests E)
      → (get_new_peer_source p ≡ fault) ⊎ (get_new_peer_source p ≡ ok (none, p))
  unfolding get_new_peer_source
  new_source-cases p = from p.sources refl
    where
      from :
          (sources : List (PeerSource E))
          → p.sources ≡ sources
          → (get_new_peer_source p ≡ fault) ⊎ (get_new_peer_source p ≡ ok (none, p))
      from [] e = elim (Bool-cases (ltb p.source_count max_fwd_queries)) [
        | inl more ↦ inl (rw (get_new_peer_source, e, more) refl)
        | inr full ↦
            inr
              (rw (get_new_peer_source, e, full) (ap (λ x. ok (none, record p { sources = x })) e))
      ]
      from (q ∷ qs) e = inl (rw (get_new_peer_source, e) refl)

  -- A request that waits already.
  resolve_known-Tidy :
      (now i : ℕ) (r : PeerRequestRecord E) (p : Packet) (endpoint : E) (ipv4 : Bool)
      (s s' : Server E)
      → UniqueIds s.peers.records
      → get_elem? s.peers.records i ≡ some r
      → in_use r ≡ true
      → resolve_known platform now i r p endpoint ipv4 s ≡ ok s'
      → Tidy s s'
  unfolding resolve_known free_at
  resolve_known-Tidy now i r p endpoint ipv4 s s' unique at used =
      elim (Bool-cases (has_timed_out r)) [
        | inl late ↦ rw late (λ e.
            let tidy =
              forward-Tidy p i 0 s.servers _ s' (freed-UniqueIds i s.peers.records unique)
                (freed-Fits i s.peers.records r unique at used) e in
            record { unique = tidy.unique; mappings = tidy.mappings; rules = tidy.rules })
        | inr waits ↦
            elim (Bool-cases (has_source platform (sources_of r) (get_id p) endpoint ipv4)) [
              | inl known ↦ elim (Bool-cases (ltb now (r.time + 2))) [
                | inl soon ↦
                    rw (waits, known, soon)
                      (λ e. Silent-Tidy s s' unique (send_packet-Silent _ endpoint ipv4 s s' e))
                | inr again ↦
                    rw (waits, known, again)
                      (λ e. Silent-Tidy s s' unique (same-Silent s s' (sym (ok-injective e))))
              ]
              | inr other ↦ elim (new_source-cases s.peers) [
                | inl crash ↦ rw (waits, other, crash) (λ e. cc)
                | inr none_left ↦
                    rw (waits, other, none_left)
                      (λ e. Silent-Tidy s s' unique (send_packet-Silent _ endpoint ipv4 s s' e))
              ]
            ]
      ]

  -- `resolve` behind the hash.
  abbrev queried : ℕ → ℕ → Packet → E → Bool → Server E → List ℕ → Result (Server E)
  queried fuel now p endpoint ipv4 s digest = elim (lookup_by_query (some digest) 0 7 s.peers) [
    | none ↦ resolve_new platform fuel now digest p endpoint ipv4 s
    | some i ↦ elim (get_elem? s.peers.records i) [
      | none ↦ fault
      | some r ↦ resolve_known platform now i r p endpoint ipv4 s
    ]
  ]

  queried-Tidy :
      (fuel now : ℕ) (p : Packet) (endpoint : E) (ipv4 : Bool) (s s' : Server E) (digest : List ℕ)
      → UniqueIds s.peers.records
      → queried fuel now p endpoint ipv4 s digest ≡ ok s'
      → Tidy s s'
  queried-Tidy fuel now p endpoint ipv4 s s' digest unique =
      elim (Option-cases (lookup_by_query (some digest) 0 7 s.peers)) [
        | inl new ↦
            rw (queried, new) (λ e. resolve_new-Tidy fuel now digest p endpoint ipv4 s s' unique e)
        | inr (i, found) ↦
            let first =
              subst (Finds (is_asked digest 0 7) s.peers.records) found
                (lookup_by_query_lem digest 0 7 s.peers) in
            let used = both_hold (in_use first.at) _ first.passes in
            rw (queried, found, first.here)
              (λ e. resolve_known-Tidy now i first.at p endpoint ipv4 s s' unique first.here used e)
      ]

  pub resolve_request-Tidy :
      (fuel now : ℕ) (p : Packet) (endpoint : E) (ipv4 : Bool) (s s' : Server E)
      → UniqueIds s.peers.records
      → resolve_request platform fuel now p endpoint ipv4 s ≡ ok s'
      → Tidy s s'
  unfolding resolve_request
  resolve_request-Tidy fuel now p endpoint ipv4 s s' unique = elim (List-cases s.servers) [
    | inl none_known ↦
        simp (resolve_request, none_known)
          (λ e. Silent-Tidy s s' unique (same-Silent s s' (sym (ok-injective e))))
    | inr (u, us, some_known) ↦
        simp (resolve_request, some_known)
          (λ e.
            let (digest, hashed, rest) =
              bind-eq-ok (queried fuel now p endpoint ipv4 s) (hash platform.sha p) e in
            queried-Tidy fuel now p endpoint ipv4 s s' digest unique rest)
  ]
