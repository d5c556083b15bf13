-- ===== src/Server/Resolve.antt =====
-- `DnsServer::resolve` of src/dns/server.cpp: how a request goes to the upstream servers.
use dns_wrapper.Common.{
  ℕ, suc, ◌+◌, Bool, false, ◌&&◌, ◌||◌, ◌==◌, ltb, if◌then◌else◌, List, [], ◌∷◌, none, some, Result,
  ok, fault, bind, get_elem?,
}
use dns_wrapper.Dns.Packet.{Packet, hash, set_id, get_id}
use dns_wrapper.Rule.Evaluate.{same_flag}
use dns_wrapper.Bookkeeping.Peer.{
  PeerSource, PeerRequestRecord, has_timed_out, modify, get_new_record, lookup_by_query,
  get_new_peer_source, get_new_id,
}
use dns_wrapper.Server.{
  Platform, Upstream, Server, count_up, sources_of, on_upstream, free_at, send_packet, refuse,
}

module _ {E : Type 0} (platform : Platform E) where
  -- The loop that looks for a source among those of a record.
  unfoldable pub has_source : List (PeerSource E) → ℕ → E → Bool → Bool
  has_source [] id endpoint ipv4 = false
  has_source (s ∷ ss) id endpoint ipv4 =
      (same_flag s.ipv4 ipv4 && (s.original_id == id && platform.same_endpoint s.endpoint endpoint))
      || has_source ss id endpoint ipv4

  abbrev pub source_from : Packet → E → Bool → PeerSource E
  source_from p endpoint ipv4 = record { endpoint = endpoint; ipv4 = ipv4; original_id = get_id p }

  abbrev on_record : ℕ → (PeerRequestRecord E → PeerRequestRecord E) → Server E → Server E
  on_record i f s = record s { peers = record s.peers { records = modify f i s.peers.records } }

  -- The loop of `resolve` over the upstream servers that are left, the first of them at `k`.
  unfoldable pub forward : Packet → ℕ → ℕ → List (Upstream E) → Server E → Result (Server E)
  unfolding send_packet
  forward p i k [] s = ok s
  forward p i k (u ∷ us) s =
      let asked : Server E = on_record i (λ r. record r { sent_to = some k }) s in
      let counted : Server E = record asked {
        servers = on_upstream k (λ v. record v { queries = count_up v.queries }) asked.servers;
      } in
      bind (send_packet platform p u.endpoint u.ipv4 counted) λ s'. forward p i (suc k) us s'

  -- The branch of `resolve` for a request that is new.
  unfoldable pub resolve_new : ℕ → ℕ → List ℕ → Packet → E → Bool → Server E → Result (Server E)
  unfolding forward
  resolve_new fuel now digest p endpoint ipv4 s =
      let (found, peers) = get_new_record platform.blank now false s.peers in
      let s' : Server E = record s { peers = peers } in
      elim found [
        | none ↦ refuse platform p endpoint ipv4 s'
        | some i ↦
            let s'' : Server E =
              on_record i (λ r. record r { source = source_from p endpoint ipv4 }) s' in
            bind (get_new_id fuel platform.draw s.drawn s''.peers) λ (id, drawn).
              forward (set_id id p) i 0 s.servers (
                on_record i (λ r. record r { new_id = id; hash = digest; flags = 0 })
                  (record s'' { drawn = drawn }))
      ]

  -- The branch for a request that waits already, in the record `r` at index `i`.
  unfoldable pub resolve_known :
      ℕ → ℕ → PeerRequestRecord E → Packet → E → Bool → Server E → Result (Server E)
  unfolding forward free_at has_source
  resolve_known now i r p endpoint ipv4 s =
      if has_timed_out r
      then forward p i 0 s.servers (record s { peers = free_at i s.peers })
      else if has_source (sources_of r) (get_id p) endpoint ipv4
      then (if ltb now (r.time + 2) then refuse platform p endpoint ipv4 s else ok s)
      else bind (get_new_peer_source s.peers) λ (source, peers). elim source [
        | none ↦ refuse platform p endpoint ipv4 (record s { peers = peers })
        | some _ ↦ ok (
            on_record i (λ q. record q { more = source_from p endpoint ipv4 ∷ q.more })
              (record s { peers = peers }))
      ]

  -- `resolve`. The flags under which a query is looked up are none of the three of the mask.
  unfoldable pub resolve_request : ℕ → ℕ → Packet → E → Bool → Server E → Result (Server E)
  unfolding resolve_new resolve_known
  resolve_request fuel now p endpoint ipv4 s = elim s.servers [
    | [] ↦ ok s
    | ◌∷◌ u us ↦ bind (hash platform.sha p) λ digest.
        elim (lookup_by_query (some digest) 0 7 s.peers) [
          | none ↦ resolve_new fuel now digest p endpoint ipv4 s
          | some i ↦ elim (get_elem? s.peers.records i) [
            | none ↦ fault
            | some r ↦ resolve_known now i r p endpoint ipv4 s
          ]
        ]
  ]
