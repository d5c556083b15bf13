-- ===== src/Server/Invariant/Receiving.antt =====
-- What the handlers of src/dns/server.cpp that receive keep: identifiers, addresses and rules.
use dns_wrapper.Common.{
  ℕ, ◌≡◌, sym, ap, ◌∙◌, subst, Bool, true, List, none, some, Result, ok, bind, bind-eq-ok,
  ok-injective, Result-cases, Option-cases, Bool-cases, inl, inr, ltb, ◌==◌, ◌!=◌, if◌then◌else◌,
  get_elem?,
}
use dns_wrapper.Net.Buffer.{Buffer, e_noerror}
use dns_wrapper.Dns.Header.{incoming_request, incoming_response}
use dns_wrapper.Dns.Packet
use dns_wrapper.Dns.Packet.{
  Packet, hash, set_id, set_recursion_available, get_id, get_response_code, is_request,
}
use dns_wrapper.Rule.Evaluate.{evaluate, Decision, resolve, redirect_to}
use dns_wrapper.Bookkeeping.Peer.{PeerRequestRecord, lookup}
use dns_wrapper.Bookkeeping.Peer.Unique.{UniqueIds}
use dns_wrapper.Bookkeeping.Peer.Naming.{freed-UniqueIds}
use dns_wrapper.Server.{Platform, Upstream, Server, free_at, at_upstream, count_up, sources_of}
use dns_wrapper.Server.Receive.{
  carry_out, known_mac, process_request, find_upstream, answer_all, rated, deliver,
  process_upstream_response, receive,
}
use dns_wrapper.Server.Invariant.Handlers.{
  Tidy, same-Silent, Silent-Tidy, redirect-Silent, answer_all-Silent, resolve_request-Tidy,
}

module _ {E : Type 0} (platform : Platform E) where
  unchanged-Tidy : (s s' : Server E) → UniqueIds s.peers.records → ok s ≡ ok s' → Tidy s s'
  unchanged-Tidy s s' unique e = Silent-Tidy s s' unique (same-Silent s s' (sym (ok-injective e)))

  -- The counters of the upstream servers are apart from the rest.
  counted-Tidy :
      (k : ℕ) (f : Upstream E → Upstream E) (s s' : Server E)
      → Tidy (at_upstream k f s) s'
      → Tidy s s'
  counted-Tidy k f s s' t = record { unique = t.unique; mappings = t.mappings; rules = t.rules }

  carry_out-Tidy :
      (fuel now : ℕ) (p : Packet) (endpoint : E) (ipv4 : Bool) (s s' : Server E) (d : Decision)
      → UniqueIds s.peers.records
      → carry_out platform fuel now p endpoint ipv4 s d ≡ ok s'
      → Tidy s s'
  carry_out-Tidy fuel now p endpoint ipv4 s s' resolve unique e =
      resolve_request-Tidy platform fuel now p endpoint ipv4 s s' unique e
  carry_out-Tidy fuel now p endpoint ipv4 s s' (redirect_to target) unique e =
      Silent-Tidy s s' unique (redirect-Silent platform p endpoint ipv4 target s s' e)

  -- `processRequest` behind the check.
  abbrev judged : ℕ → ℕ → Packet → E → Bool → Server E → ℕ → Result (Server E)
  judged fuel now p endpoint ipv4 s code =
      if code != e_noerror
      then ok s
      else bind
          (evaluate
            (record {
              ipv4 = ipv4;
              ethaddr = known_mac platform (platform.address endpoint) ipv4 s.mappings;
              ipaddr = platform.address endpoint;
            })
            s.rules)
          λ decision. carry_out platform fuel now p endpoint ipv4 s decision

  judged-Tidy :
      (fuel now : ℕ) (p : Packet) (endpoint : E) (ipv4 : Bool) (s s' : Server E) (code : ℕ)
      → UniqueIds s.peers.records
      → judged fuel now p endpoint ipv4 s code ≡ ok s'
      → Tidy s s'
  judged-Tidy fuel now p endpoint ipv4 s s' code unique = elim (Bool-cases (code != e_noerror)) [
    | inl bad ↦ rw (judged, bad) (λ e. unchanged-Tidy s s' unique e)
    | inr good ↦
        rw (judged, good)
          (λ e.
            let (d, decided, rest) =
              bind-eq-ok (carry_out platform fuel now p endpoint ipv4 s) _ e in
            carry_out-Tidy fuel now p endpoint ipv4 s s' d unique rest)
  ]

  process_request-Tidy :
      (fuel now : ℕ) (p : Packet) (endpoint : E) (ipv4 : Bool) (s s' : Server E)
      → UniqueIds s.peers.records
      → process_request platform fuel now p endpoint ipv4 s ≡ ok s'
      → Tidy s s'
  unfolding process_request
  process_request-Tidy fuel now p endpoint ipv4 s s' unique e =
      let (code, checked, rest) =
        bind-eq-ok (judged fuel now p endpoint ipv4 s) (Packet.validate incoming_request p) e in
      judged-Tidy fuel now p endpoint ipv4 s s' code unique rest

  deliver-Tidy :
      (now k i : ℕ) (p : Packet) (s s' : Server E)
      → UniqueIds s.peers.records
      → deliver platform now k i p s ≡ ok s'
      → Tidy s s'
  unfolding deliver free_at
  deliver-Tidy now k i p s s' unique = elim (Option-cases (get_elem? s.peers.records i)) [
    | inl missing ↦ rw (deliver, missing) (λ e. cc)
    | inr (r, found) ↦
        rw (deliver, found)
          (λ e.
            counted-Tidy k (rated now r p) s s'
              (answered (at_upstream k (rated now r p) s) r s s' unique e))
  ]
    where
      -- The loop over the sources, and the release of the record.
      answered :
          (c : Server E) (r : PeerRequestRecord E) (s s' : Server E)
          → UniqueIds c.peers.records
          → bind
              (answer_all platform (set_recursion_available true p) (sources_of r) c)
              (λ t. ok (record t { peers = free_at i t.peers }))
            ≡ ok s'
          → Tidy c s'
      answered c r s s' unique e =
          let (t, answers, rest) =
            bind-eq-ok (λ (t : Server E). ok (record t { peers = free_at i t.peers })) _ e in
          let quiet = answer_all-Silent platform _ (sources_of r) c t answers in
          let is = sym (ok-injective rest) in
          record {
            unique =
                subst (λ x. UniqueIds x.peers.records) (sym is)
                  (freed-UniqueIds i t.peers.records
                    (subst (λ x. UniqueIds x.records) (sym quiet.peers) unique));
            mappings = ap (λ x. x.mappings) is ∙ quiet.mappings;
            rules = ap (λ x. x.rules) is ∙ quiet.rules;
          }

  -- `processUpstreamResponse` behind the hash, and behind the check.
  abbrev found_by : ℕ → ℕ → Packet → Server E → List ℕ → Result (Server E)
  found_by now k p s digest = elim (lookup (get_id p) (some digest) s.peers) [
    | none ↦ ok (at_upstream k (λ u. record u { nosources = count_up u.nosources }) s)
    | some i ↦ deliver platform now k i p s
  ]

  abbrev checked : ℕ → ℕ → Packet → Server E → ℕ → Result (Server E)
  checked now k p s code =
      if code != e_noerror
      then ok (at_upstream k (λ u. record u { invalids = count_up u.invalids }) s)
      else bind (hash platform.sha p) (found_by now k p s)

  found_by-Tidy :
      (now k : ℕ) (p : Packet) (s s' : Server E) (digest : List ℕ)
      → UniqueIds s.peers.records
      → found_by now k p s digest ≡ ok s'
      → Tidy s s'
  found_by-Tidy now k p s s' digest unique =
      elim (Option-cases (lookup (get_id p) (some digest) s.peers)) [
        | inl missing ↦
            rw (found_by, missing) (λ e. counted-Tidy k _ s s' (unchanged-Tidy _ s' unique e))
        | inr (i, found) ↦ rw (found_by, found) (λ e. deliver-Tidy now k i p s s' unique e)
      ]

  checked-Tidy :
      (now k : ℕ) (p : Packet) (s s' : Server E) (code : ℕ)
      → UniqueIds s.peers.records
      → checked now k p s code ≡ ok s'
      → Tidy s s'
  checked-Tidy now k p s s' code unique = elim (Bool-cases (code != e_noerror)) [
    | inl bad ↦ rw (checked, bad) (λ e. counted-Tidy k _ s s' (unchanged-Tidy _ s' unique e))
    | inr good ↦
        rw (checked, good)
          (λ e.
            let (digest, hashed, rest) = bind-eq-ok (found_by now k p s) (hash platform.sha p) e in
            found_by-Tidy now k p s s' digest unique rest)
  ]

  process_upstream_response-Tidy :
      (now : ℕ) (p : Packet) (endpoint : E) (s s' : Server E)
      → UniqueIds s.peers.records
      → process_upstream_response platform now p endpoint s ≡ ok s'
      → Tidy s s'
  unfolding process_upstream_response
  process_upstream_response-Tidy now p endpoint s s' unique =
      elim (Option-cases (find_upstream platform endpoint 0 s.servers)) [
        | inl unknown ↦ rw (process_upstream_response, unknown) (λ e. unchanged-Tidy s s' unique e)
        | inr (k, known) ↦
            rw (process_upstream_response, known)
              (λ e.
                let (code, checks, rest) =
                  bind-eq-ok (checked now k p s) (Packet.validate incoming_response p) e in
                checked-Tidy now k p s s' code unique rest)
      ]

  pub receive-Tidy :
      (fuel now : ℕ) (b : Buffer) (endpoint : E) (ipv4 : Bool) (s s' : Server E)
      → UniqueIds s.peers.records
      → receive platform fuel now b endpoint ipv4 s ≡ ok s'
      → Tidy s s'
  unfolding receive
  receive-Tidy fuel now b endpoint ipv4 s s' unique = elim (Bool-cases (ltb b.size 12)) [
    | inl short ↦ rw (receive, short) (λ e. unchanged-Tidy s s' unique e)
    | inr long ↦ elim (Bool-cases (platform.port endpoint == 0)) [
      | inl unset ↦ rw (receive, long, unset) (λ e. unchanged-Tidy s s' unique e)
      | inr port ↦ elim (Result-cases (Packet.read b)) [
        | inr (inl (c, failed)) ↦
            rw (receive, long, port, failed) (λ e. unchanged-Tidy s s' unique e)
        | inr (inr (inl crash)) ↦ rw (receive, long, port, crash) (λ e. cc)
        | inr (inr (inr loops)) ↦ rw (receive, long, port, loops) (λ e. cc)
        | inl ((p, b'), reads) ↦ elim (Bool-cases (is_request p)) [
          | inl asks ↦
              rw (receive, long, port, reads, asks)
                (λ e. process_request-Tidy fuel now p endpoint ipv4 s s' unique e)
          | inr answers ↦
              rw (receive, long, port, reads, answers)
                (λ e. process_upstream_response-Tidy now p endpoint s s' unique e)
        ]
      ]
    ]
  ]
