-- ===== src/Tests/Replies.antt =====
-- A server with one upstream server and the rules of the examples. Endpoints are numbers here.
use dns_wrapper.Common.{
  ℕ, ◌/◌, ◌%◌, ◌≡◌, refl, true, List, [], ◌∷◌, ◌++◌, ok, map, arith, length, ◌==◌,
}
use dns_wrapper.Net.Buffer.{fresh, write_u16, write_byte}
use dns_wrapper.Net.Buffer.Laws.{put}
use dns_wrapper.Dns.Header
use dns_wrapper.Dns.Header.{incoming_request}
use dns_wrapper.Dns.Record
use dns_wrapper.Dns.Record.{Record, write_address}
use dns_wrapper.Dns.Packet
use dns_wrapper.Dns.Packet.{Packet, Sha256, set_id, write_many}
use dns_wrapper.Dns.Packet.Codec.{values_at}
use dns_wrapper.Rule.Layout.{load}
use dns_wrapper.Bookkeeping.Latency.{no_times}
use dns_wrapper.Server.{Platform, Upstream, Server, redirect_answer, update_redirect_response}
use dns_wrapper.Server.Route.{IsWritten}
use dns_wrapper.Server.Reply.{redirect_answer_lem, update_redirect_response_lem}
use dns_wrapper.Tests.Rules.{client_ip, portal_ip, block}
use dns_wrapper.Tests.Wire.{packet, header}
use dns_wrapper.Tests.Requests.{waiting, requests}

unfoldable pub sha : Sha256
sha = record { Context = List ℕ; init = []; update = λ xs ctx. ctx ++ xs; final = λ ctx. ctx }

unfoldable pub platform : Platform ℕ
platform = record {
  same_endpoint = λ d e. d == e;
  port = λ e. e;
  address = λ e. client_ip;
  sha = sha;
  blank = waiting;
  draw = λ i. i;
}

abbrev pub upstream : Upstream ℕ
upstream = record {
  endpoint = 53;
  ipv4 = true;
  queries = 0;
  invalids = 0;
  nosources = 0;
  failed = 0;
  times = no_times;
}

unfoldable pub server : Server ℕ
server = record {
  servers = upstream ∷ [];
  peers = requests;
  mappings = record { count = 0; records = [] };
  rules = block;
  drawn = 0;
  sent = [];
}

-- A header alone, with any identifier.
abbrev pub bare : Packet
bare = record {
  header = record header { question_count = 0 };
  questions = [];
  answers = [];
  authorities = [];
  additionals = [];
}

abbrev pub bare_bytes : ℕ → List ℕ
bare_bytes id = (id / 256 % 256) ∷ (id % 256) ∷ 1 ∷ 0 ∷ 0 ∷ 0 ∷ 0 ∷ 0 ∷ 0 ∷ 0 ∷ 0 ∷ 0 ∷ []

pub bare-IsWritten : (id : ℕ) → IsWritten platform (set_id id bare) (bare_bytes id)
unfolding Packet.write Header.write write_u16 write_byte write_many fresh load set_id
bare-IsWritten id = record { end = _; writes = refl; content = refl }

-- The portal's 10.0.0.1 goes out as 1.0.0.10.
redirect_answer_lem_example :
    write_address
      (redirect_answer portal_ip
        (record { start = 0; name = []; type = 1; class = 1 })
        Record.blank)
      (fresh 512)
    ≡ ok (tt, put (1 ∷ 0 ∷ 0 ∷ 10 ∷ []) (fresh 512))
redirect_answer_lem_example =
    redirect_answer_lem 10 0 0 1 (0 ∷ 0 ∷ 0 ∷ 0 ∷ 0 ∷ 0 ∷ 0 ∷ 0 ∷ 0 ∷ 0 ∷ 0 ∷ 0 ∷ [])
      (record { start = 0; name = []; type = 1; class = 1 }) Record.blank (fresh 512) refl
      (omega arith) (omega arith) (omega arith) (omega arith) (unfold fresh in omega arith)

update_redirect_response_lem_example :
    (p' : Packet) × (update_redirect_response portal_ip packet ≡ ok p')
    × (p'.answers ≡ map (λ q. redirect_answer portal_ip q Record.blank) packet.questions)
    × (p'.header.answer_count ≡ length packet.questions)
    × (p'.questions ≡ packet.questions)
    × (p'.header.id ≡ 7)
    × (Packet.is_response p' ≡ true)
unfolding values_at
update_redirect_response_lem_example =
    update_redirect_response_lem portal_ip packet refl (omega arith) (omega arith)
