-- ===== src/Server/Route.antt =====
-- Where a request goes, by the list of rules that the block holds, and who is asked and answered.
use dns_wrapper.Common.{
  ℕ, suc, ◌≡◌, refl, sym, ap, ◌∙◌, Bool, List, [], ◌∷◌, ◌++◌, append_assoc, append-nil, map, some,
  ok,
}
use dns_wrapper.Net.Buffer.{Buffer, fresh, max_packet_sz}
use dns_wrapper.Dns.Packet
use dns_wrapper.Dns.Packet.{Packet, set_id}
use dns_wrapper.Rule.Layout.{load}
use dns_wrapper.Bookkeeping.Peer.{PeerSource, modify}
use dns_wrapper.Server.{
  Platform, Upstream, Datagram, Server, dispatch, send_packet, count_up, on_upstream,
}
use dns_wrapper.Server.Resolve.{forward}
use dns_wrapper.Server.Receive.{answer_all}

module _ {E : Type 0} (platform : Platform E) where
  -- The bytes that a packet is written as.
  pub record IsWritten (p : Packet) (bytes : List ℕ) : Type 0 where
    pub end : Buffer
    pub writes : Packet.write p (fresh max_packet_sz) ≡ ok (tt, end)
    pub content : load end.mem 0 end.pos ≡ bytes

  send_packet_lem :
      (p : Packet) (bytes : List ℕ) (endpoint : E) (ipv4 : Bool) (s : Server E)
      → IsWritten p bytes
      → send_packet platform p endpoint ipv4 s
        ≡ ok (record s {
          sent = s.sent ++ record { ipv4 = ipv4; endpoint = endpoint; bytes = bytes } ∷ [];
        })
  unfolding send_packet dispatch
  send_packet_lem p bytes endpoint ipv4 s w = rw (w.writes, w.content) refl

  abbrev pub to_upstream : List ℕ → Upstream E → Datagram E
  to_upstream bytes u = record { ipv4 = u.ipv4; endpoint = u.endpoint; bytes = bytes }

  -- The server with the record at `i` marked as sent to the upstream server at `k`.
  abbrev marked : ℕ → ℕ → Server E → Server E
  marked i k s = record s {
    peers = record s.peers {
      records = modify (λ r. record r { sent_to = some k }) i s.peers.records;
    };
    servers = on_upstream k (λ v. record v { queries = count_up v.queries }) s.servers;
  }

  -- A request that can be written goes to every upstream server, once and in their order.
  pub forward_lem :
      (p : Packet) (bytes : List ℕ) (i k : ℕ) (us : List (Upstream E)) (s : Server E)
      → IsWritten p bytes
      → (s' : Server E) × (forward platform p i k us s ≡ ok s')
        × (s'.sent ≡ s.sent ++ map (to_upstream bytes) us)
  unfolding forward
  forward_lem p bytes i k [] s w = (s, refl, sym (append-nil s.sent))
  forward_lem p bytes i k (u ∷ us) s w =
      let counted : Server E = marked i k s in
      let next : Server E = record counted { sent = s.sent ++ to_upstream bytes u ∷ [] } in
      let (s', e, sent) = forward_lem p bytes i (suc k) us next w in
      (
        s',
        rw (send_packet_lem p bytes u.endpoint u.ipv4 counted w) e,
        sent ∙ append_assoc s.sent _ _,
      )

  -- An answer goes to every source of its request, in their order, each time with the
  -- identifier of that source.
  pub answer_all_lem :
      (p : Packet) (bytes : ℕ → List ℕ) (sources : List (PeerSource E)) (s : Server E)
      → ((id : ℕ) → IsWritten (set_id id p) (bytes id))
      → answer_all platform p sources s
        ≡ ok (record s {
          sent =
              s.sent
              ++ map
                  (λ q. record {
                    ipv4 = q.ipv4;
                    endpoint = q.endpoint;
                    bytes = bytes q.original_id;
                  })
                  sources;
        })
  unfolding answer_all
  answer_all_lem p bytes [] s w = ap (λ x. ok (record s { sent = x })) (sym (append-nil s.sent))
  answer_all_lem p bytes (q ∷ sources) s w =
      rw
        (send_packet_lem (set_id q.original_id p) (bytes q.original_id) q.endpoint q.ipv4 s
          (w q.original_id))
        (rw
          (answer_all_lem p bytes sources
            (record s {
              sent =
                  s.sent
                  ++ record { ipv4 = q.ipv4; endpoint = q.endpoint; bytes = bytes q.original_id }
                    ∷ [];
            })
            w)
          (ap (λ x. ok (record s { sent = x })) (append_assoc s.sent _ _)))
