-- ===== src/Tests/Sequences.antt =====
-- A server over a sequence of events: an edit of the rules, and a query that goes upstream.
use dns_wrapper.Net.Buffer
use dns_wrapper.Dns.Header
use dns_wrapper.Dns.Question
use dns_wrapper.Dns.Record
use dns_wrapper.Dns.Packet
use dns_wrapper.Rule.Layout
use dns_wrapper.Rule.Evaluate
use dns_wrapper.Bookkeeping.Mappings
use dns_wrapper.Bookkeeping.Peer
use dns_wrapper.Server
use dns_wrapper.Server.Resolve
use dns_wrapper.Server.Receive
use dns_wrapper.Common.Memory
use dns_wrapper.Dns.Packet.Codec
use mathlib.Core.Option.{some-ne-none}
use dns_wrapper.Bookkeeping.Peer.Unique.{UniqueIds}
use dns_wrapper.Common.{
  ℕ, zero, suc, ◌+◌, ◌≤◌, sym, ◌≡◌, refl, true, List, [], ◌∷◌, map, ◌/◌, ◌%◌, ok, err, fault, stuck,
  arith,
}
use dns_wrapper.Common.Memory.{store}
use dns_wrapper.Net.Buffer.{Buffer, fresh}
use dns_wrapper.Rule.Layout.{RuleData}
use dns_wrapper.Rule.Shm.{clear_rules}
use dns_wrapper.Rule.Shm.History.{policy}
use dns_wrapper.Server.{Platform, Server}
use dns_wrapper.Server.Receive.{receive}
use dns_wrapper.Tests.Rules.{block, redirecting}
use dns_wrapper.Tests.Wire.{message}
use dns_wrapper.Tests.Requests.{waiting, requests, table}
use dns_wrapper.Tests.Replies.{platform, server, sha, upstream, bare, bare_bytes, bare-IsWritten}
use dns_wrapper.Server.Resolve.{resolve_new}
use dns_wrapper.Server.Route.{to_upstream, IsWritten}
use dns_wrapper.Server.Asking.{Waits, resolve_new_lem}
use dns_wrapper.Server.Delivery.{to_source, process_upstream_response_lem}
use dns_wrapper.Server.Receive.{find_upstream, process_upstream_response}
use dns_wrapper.Bookkeeping.Peer.{PeerRequestRecord}
use dns_wrapper.Dns.Packet.{Packet, hash, set_id, set_recursion_available, write_many}
use dns_wrapper.Dns.Header.{Header}
use dns_wrapper.Net.Buffer.{write_u16, write_byte}
use dns_wrapper.Rule.Layout.{load}
use dns_wrapper.Server.{free_at}
use dns_wrapper.Dns.Packet.Codec.{message_bytes}

abbrev start : Server ℕ
start = record server { mappings = table }

abbrev cleared : Server ℕ
cleared = record start { rules = clear_rules start.rules }

abbrev open_policy : RuleData
open_policy = record block { policy = record redirecting { action = 0 }; size = 0 }

abbrev resolving : Server ℕ
resolving = record start { rules = open_policy }

unfoldable query : Buffer
query = record {
  mem = store (λ i. 0) 0 (message_bytes message);
  cap = 1600;
  pos = 0;
  size = 22;
  udp = 0;
}

unfoldable answered : Server ℕ
unfolding query platform server
answered = elim (receive platform 200 1005 query 4000 true resolving) [
  | ok s ↦ s
  | err c ↦ start
  | fault ↦ start
  | stuck ↦ start
]

alone : (t : PeerRequestRecord ℕ) → UniqueIds (t ∷ [])
alone t zero zero r q ej ek ur uq same = refl
alone t zero (suc k) r q ej ek ur uq same = absurd (some-ne-none _ (sym ek))
alone t (suc j) k r q ej ek ur uq same = absurd (some-ne-none _ (sym ej))

resolve_new_lem_example :
    (s' : Server ℕ) × (i : ℕ) × (j : ℕ) × (j ≤ 0)
    × (resolve_new platform 1 1005 (5 ∷ []) bare 4000 true server ≡ ok s')
    × (s'.sent ≡ map (to_upstream platform (bare_bytes (0 + j))) (upstream ∷ []))
    × Waits s' i (record { endpoint = 4000; ipv4 = true; original_id = 7 }) (0 + j) (5 ∷ [])
    × UniqueIds s'.peers.records
unfolding server platform Packet.get_id
resolve_new_lem_example =
    resolve_new_lem platform 1 0 1005 (5 ∷ []) bare bare_bytes 4000 true server (omega arith)
      (omega arith) (omega arith) (refl, tt) (alone waiting) bare-IsWritten

-- An answer without questions to a request with identifier 7, and the request.
abbrev answer : Packet
answer = record bare { header = record bare.header { hb3 = 128 } }

abbrev asked : PeerRequestRecord ℕ
asked = record waiting { new_id = 7; hash = [] }

abbrev asking : Server ℕ
asking = record server { peers = record requests { records = asked ∷ [] } }

abbrev answer_bytes : ℕ → List ℕ
answer_bytes id = (id / 256 % 256) ∷ (id % 256) ∷ 128 ∷ 128 ∷ 0 ∷ 0 ∷ 0 ∷ 0 ∷ 0 ∷ 0 ∷ 0 ∷ 0 ∷ []

answer-IsWritten :
    (id : ℕ)
    → IsWritten platform (set_id id (set_recursion_available true answer)) (answer_bytes id)
unfolding Packet.write Header.write write_u16 write_byte write_many fresh load set_id
    set_recursion_available Header.set_recursion_available
answer-IsWritten id = record { end = _; writes = refl; content = refl }

process_upstream_response_lem_example :
    (s' : Server ℕ) × (process_upstream_response platform 1003 answer 53 asking ≡ ok s')
    × (s'.sent ≡ map (to_source platform answer_bytes) (asked.source ∷ []))
    × (s'.peers ≡ free_at 0 asking.peers)
unfolding server platform sha find_upstream Packet.validate Header.validate hash Packet.get_id
    Header.get_query_response
process_upstream_response_lem_example =
    process_upstream_response_lem platform 1003 answer answer_bytes 53 0 0 asked asking
      (alone asked) refl refl refl refl refl refl answer-IsWritten
