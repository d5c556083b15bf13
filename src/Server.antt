-- ===== src/Server.antt =====
-- src/dns/server.cpp: what the server does with a datagram, a raw frame, and a decision of the rules.
pub mod Resolve
pub mod Receive
pub mod Reply
pub mod Route
pub mod Known
pub mod Invariant
pub mod Delivery
pub mod Asking
use dns_wrapper.Common.{
  ℕ, zero, suc, ◌+◌, ◌*◌, ◌%◌, ◌^◌, bit_and, Bool, true, false, not, ◌&&◌, ◌||◌, ◌==◌, ◌!=◌, ltb,
  leb, if◌then◌else◌, List, [], ◌∷◌, ◌++◌, Option, none, some, Result, ok, err, fault, stuck, bind,
  take, drop, get_elem?,
}
use dns_wrapper.Net.Buffer.{
  Buffer, fresh, EthAddress, IpAddress, e_noerror, e_notimp, e_refused, max_packet_sz,
}
use dns_wrapper.Net.Frame
use dns_wrapper.Dns.Header.{PacketType, incoming_request, incoming_response, qt_a, qt_aaaa}
use dns_wrapper.Dns.Question.{Question}
use dns_wrapper.Dns.Record
use dns_wrapper.Dns.Record.{Record}
use dns_wrapper.Dns.Packet
use dns_wrapper.Dns.Packet.{
  Packet, Sha256, hash, set_response_code, set_as_query_response, set_as_authoritative_answer,
  set_recursion_available, set_answers, set_id, get_id, get_response_code, is_request,
}
use dns_wrapper.Rule.Layout.{RuleData, load}
use dns_wrapper.Rule.Evaluate.{Source, Decision, resolve, redirect_to, evaluate, same_flag}
use dns_wrapper.Bookkeeping.Latency.{Times}
use dns_wrapper.Bookkeeping.Mappings.{EthMappings, add, look_up}
use dns_wrapper.Bookkeeping.Peer.{
  PeerSource, PeerRequestRecord, PeerRequests, has_timed_out, freed, modify, sources_at,
  get_new_record, lookup, lookup_by_query, get_new_peer_source, get_new_id,
}

-- What the server takes from the network library and the system: endpoints with their comparison,
-- port and address bytes; the hash; and what `new` leaves in a record.
pub record Platform (E : Type 0) : Type 1 where
  pub same_endpoint : E → E → Bool
  pub port : E → ℕ
  pub address : E → IpAddress
  pub sha : Sha256
  pub blank : PeerRequestRecord E
  pub draw : ℕ → ℕ

-- `UpstreamServerInfo`: its endpoint, and of its `stats` what is written.
pub record Upstream (E : Type 0) : Type 0 where
  pub endpoint : E
  pub ipv4 : Bool
  pub queries : ℕ
  pub invalids : ℕ
  pub nosources : ℕ
  pub failed : ℕ
  pub times : Times

-- A datagram that `send_to` was called with: the socket, the endpoint, the bytes.
pub record Datagram (E : Type 0) : Type 0 where
  pub ipv4 : Bool
  pub endpoint : E
  pub bytes : List ℕ

-- `DnsServer`, with the shared rules, the position in the generator's draws, and what was sent.
pub record Server (E : Type 0) : Type 0 where
  pub servers : List (Upstream E)
  pub peers : PeerRequests E
  pub mappings : EthMappings
  pub rules : RuleData
  pub drawn : ℕ
  pub sent : List (Datagram E)

-- `target.Ipv4`, or a word of `target.Ipv6`, as a little-endian machine reads it.
unfoldable pub word : List ℕ → ℕ
word [] = 0
word (x ∷ xs) = x + 2 ^ 8 * word xs

abbrev pub word_at : ℕ → IpAddress → ℕ
word_at i ip = word (take 4 (drop (4 * i) ip))

-- `ONE_HOUR`
abbrev pub one_hour : ℕ
one_hour = 3600

-- The function that `updateRedirectResponse` gives to `SetAnswers`.
unfoldable pub redirect_answer : IpAddress → Question → Record → Record
unfolding word
redirect_answer target q blank =
    let r : Record = record (Record.update_from_question q blank) { ttl = one_hour } in
    if q.type == qt_a
    then record r { len = 4; address = Record.ipv4 (word_at 0 target) }
    else if q.type == qt_aaaa
    then record r {
      len = 16;
      address =
          Record.ipv6 (word_at 0 target) (word_at 1 target) (word_at 2 target) (word_at 3 target);
    }
    else r

abbrev as_answer : Packet → Packet
as_answer p =
    set_recursion_available true (set_as_authoritative_answer true (set_as_query_response p))

-- `updateRedirectResponse`
unfoldable pub update_redirect_response : IpAddress → Packet → Result Packet
unfolding redirect_answer
update_redirect_response target p = set_answers (redirect_answer target) (as_answer p)

-- `updateErrorResponse`
unfoldable pub update_error_response : ℕ → Packet → Packet
update_error_response code p = as_answer (set_response_code code p)

-- `s->stats.queries++` on 32 bits.
abbrev pub count_up : ℕ → ℕ
count_up n = (n + 1) % 2 ^ 32

module _ {E : Type 0} where
  abbrev pub sources_of : PeerRequestRecord E → List (PeerSource E)
  sources_of r = r.source ∷ r.more

  abbrev pub on_upstream : ℕ → (Upstream E → Upstream E) → List (Upstream E) → List (Upstream E)
  on_upstream i f [] = []
  on_upstream zero f (u ∷ us) = f u ∷ us
  on_upstream (suc i) f (u ∷ us) = u ∷ on_upstream i f us

  -- `FreePeerRequestRecord` of the record at an index.
  unfoldable pub free_at : ℕ → PeerRequests E → PeerRequests E
  unfolding modify sources_at freed
  free_at i peers = record peers {
    records = modify freed i peers.records;
    sources = sources_at i peers.records peers.sources;
  }

  abbrev pub at_upstream : ℕ → (Upstream E → Upstream E) → Server E → Server E
  at_upstream k f s = record s { servers = on_upstream k f s.servers }

module _ {E : Type 0} (platform : Platform E) where
  -- What `sendPacket` does with the outcome of `Write`.
  unfoldable pub dispatch : E → Bool → Server E → Result (Unit {0} × Buffer) → Result (Server E)
  dispatch endpoint ipv4 s (ok (_, b)) = ok (record s {
    sent = s.sent ++ record { ipv4 = ipv4; endpoint = endpoint; bytes = load b.mem 0 b.pos } ∷ [];
  })
  dispatch endpoint ipv4 s (err e) = ok s
  dispatch endpoint ipv4 s fault = fault
  dispatch endpoint ipv4 s stuck = stuck

  -- `sendPacket`: a packet whose writing fails is not sent.
  unfoldable pub send_packet : Packet → E → Bool → Server E → Result (Server E)
  unfolding dispatch
  send_packet p endpoint ipv4 s = dispatch endpoint ipv4 s (Packet.write p (fresh max_packet_sz))

  -- `Redirect`
  unfoldable pub redirect : Packet → E → Bool → IpAddress → Server E → Result (Server E)
  unfolding send_packet update_redirect_response
  redirect p endpoint ipv4 target s =
      bind (update_redirect_response target p) λ p'. send_packet p' endpoint ipv4 s

  abbrev pub refuse : Packet → E → Bool → Server E → Result (Server E)
  refuse p endpoint ipv4 s = send_packet (set_response_code e_refused p) endpoint ipv4 s
