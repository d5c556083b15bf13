-- ===== src/Server/Receive.antt =====
-- The handlers of src/dns/server.cpp: datagrams, requests, answers from upstream, raw frames.
use dns_wrapper.Common.{
  ℕ, suc, ◌+◌, bit_and, Bool, true, ◌==◌, ◌!=◌, ltb, leb, if◌then◌else◌, List, [], ◌∷◌, Option,
  none, some, Result, ok, err, fault, stuck, bind, get_elem?,
}
use dns_wrapper.Net.Buffer.{Buffer, EthAddress, IpAddress, e_noerror}
use dns_wrapper.Net.Frame
use dns_wrapper.Dns.Header.{incoming_request, incoming_response}
use dns_wrapper.Dns.Packet
use dns_wrapper.Dns.Packet.{
  Packet, Sha256, hash, set_response_code, set_as_query_response, set_as_authoritative_answer,
  set_recursion_available, set_answers, set_id, get_id, get_response_code, is_request,
}
use dns_wrapper.Rule.Evaluate.{Source, Decision, resolve, redirect_to, evaluate}
use dns_wrapper.Bookkeeping.Mappings.{EthMappings, add, look_up}
use dns_wrapper.Bookkeeping.Latency.{take_time}
use dns_wrapper.Bookkeeping.Peer.{PeerSource, PeerRequestRecord, lookup}
use dns_wrapper.Server.{
  Platform, Upstream, Server, count_up, sources_of, free_at, at_upstream, send_packet, redirect,
}
use dns_wrapper.Server.Resolve.{resolve_request}

module _ {E : Type 0} where
  -- What an answer does to the numbers of its server.
  unfoldable pub rated : ℕ → PeerRequestRecord E → Packet → Upstream E → Upstream E
  unfolding take_time
  rated now r p u =
      let counted = if get_response_code p != e_noerror then count_up u.failed else u.failed in
      record u { failed = counted; times = take_time now r.forward_timestamp u.times }

module _ {E : Type 0} (platform : Platform E) where
  -- What the rules decide, done.
  abbrev pub carry_out : ℕ → ℕ → Packet → E → Bool → Server E → Decision → Result (Server E)
  carry_out fuel now p endpoint ipv4 s resolve = resolve_request platform fuel now p endpoint ipv4 s
  carry_out fuel now p endpoint ipv4 s (redirect_to target) =
      redirect platform p endpoint ipv4 target s

  -- The MAC address of the mapping, or zeros.
  abbrev pub known_mac : IpAddress → Bool → EthMappings → EthAddress
  known_mac ip ipv4 m = elim (look_up ip ipv4 m) [
    | none ↦ 0 ∷ 0 ∷ 0 ∷ 0 ∷ 0 ∷ 0 ∷ []
    | some r ↦ r.ethaddress
  ]

  -- `processRequest`: the response that `updateErrorResponse` makes is not sent.
  unfoldable pub process_request : ℕ → ℕ → Packet → E → Bool → Server E → Result (Server E)
  unfolding resolve_request redirect
  process_request fuel now p endpoint ipv4 s = bind (Packet.validate incoming_request p) λ code.
      if code != e_noerror
      then ok s
      else let ip = platform.address endpoint in
        let source : Source = record {
          ipv4 = ipv4;
          ethaddr = known_mac ip ipv4 s.mappings;
          ipaddr = ip;
        } in
        bind (evaluate source s.rules) λ decision. carry_out fuel now p endpoint ipv4 s decision

  -- `for (auto &s : servers) if (s->endpoint == endpoint)`: the index of the server.
  unfoldable pub find_upstream : E → ℕ → List (Upstream E) → Option ℕ
  find_upstream endpoint k [] = none
  find_upstream endpoint k (u ∷ us) =
      if platform.same_endpoint u.endpoint endpoint
      then some k
      else find_upstream endpoint (suc k) us

  -- The loop that answers every source of a record.
  unfoldable pub answer_all : Packet → List (PeerSource E) → Server E → Result (Server E)
  unfolding send_packet
  answer_all p [] s = ok s
  answer_all p (source ∷ sources) s =
      bind (send_packet platform (set_id source.original_id p) source.endpoint source.ipv4 s)
        λ s'. answer_all p sources s'

  -- The code of `processUpstreamResponse` behind the lookup that found the record at `i`.
  unfoldable pub deliver : ℕ → ℕ → ℕ → Packet → Server E → Result (Server E)
  unfolding answer_all free_at rated
  deliver now k i p s = elim (get_elem? s.peers.records i) [
    | none ↦ fault
    | some r ↦
        bind
          (answer_all (set_recursion_available true p) (sources_of r)
            (at_upstream k (rated now r p) s))
          λ s'. ok (record s' { peers = free_at i s'.peers })
  ]

  -- `processUpstreamResponse`
  unfoldable pub process_upstream_response : ℕ → Packet → E → Server E → Result (Server E)
  unfolding find_upstream deliver
  process_upstream_response now p endpoint s = elim (find_upstream endpoint 0 s.servers) [
    | none ↦ ok s
    | some k ↦ bind (Packet.validate incoming_response p) λ code.
        if code != e_noerror
        then ok (at_upstream k (λ u. record u { invalids = count_up u.invalids }) s)
        else bind (hash platform.sha p) λ digest. elim (lookup (get_id p) (some digest) s.peers) [
          | none ↦ ok (at_upstream k (λ u. record u { nosources = count_up u.nosources }) s)
          | some i ↦ deliver now k i p s
        ]
  ]

  -- `receive`, of a datagram of `b.size` bytes that stands in the buffer from its start. A packet
  -- that cannot be read has no answer.
  unfoldable pub receive : ℕ → ℕ → Buffer → E → Bool → Server E → Result (Server E)
  unfolding process_request process_upstream_response
  receive fuel now b endpoint ipv4 s =
      if ltb b.size 12
      then ok s
      else if platform.port endpoint == 0
      then ok s
      else elim (Packet.read b) [
        | err e ↦ ok s
        | fault ↦ fault
        | stuck ↦ stuck
        | ok (p, _) ↦
            if is_request p
            then process_request fuel now p endpoint ipv4 s
            else process_upstream_response now p endpoint s
      ]

  -- `receiveRawData`, which `receive` calls with `ipv4` true: of a query to the server's port, the
  -- source's addresses are kept.
  unfoldable pub receive_raw : ℕ → ℕ → Bool → Buffer → Server E → Result (Server E)
  receive_raw dns_port now ipv4 b s = elim (Frame.read b) [
    | err e ↦ ok s
    | fault ↦ fault
    | stuck ↦ stuck
    | ok (packet, b') ↦
        if packet.destination_port != dns_port
        then ok s
        else if ltb b'.size (b'.pos + 2)
        then ok s
        else if leb b'.cap (b'.pos + 2)
        then fault
        else if bit_and (b'.mem (b'.pos + 2)) 0x80 != 0
        then ok s
        else ok
            (record s { mappings = (add packet.eth_source ipv4 packet.ip_source now s.mappings).1 })
  ]
