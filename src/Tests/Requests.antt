-- ===== src/Tests/Requests.antt =====
-- One request that waits, and a table with one mapping. Endpoints are numbers here.
use dns_wrapper.Common.{
  ℕ, zero, suc, ◌+◌, ◌≤◌, ◌≡◌, ◌↔◌, refl, true, false, List, [], ◌∷◌, some, none, ok, arith,
}
use dns_wrapper.Bookkeeping.Peer.{
  PeerRequestRecord, PeerRequests, get_new_record, sweep, collect, tally, take_record,
  max_fwd_queries, get_new_id,
}
use dns_wrapper.Rule.Evaluate.{bytes_equal}
use dns_wrapper.Bookkeeping.Peer.Records.{live}
use dns_wrapper.Bookkeeping.Peer.Waiting.{Got, get_new_record-Got, get_new_record-none}
use dns_wrapper.Bookkeeping.Peer.Lookup.{Unused, get_new_id_lem}
use dns_wrapper.Common.{◌⊎◌}
use dns_wrapper.Bookkeeping.Mappings.{scan, choose, settle, look_up, Mapping, EthMappings, add}
use dns_wrapper.Bookkeeping.Mappings.Found.{look_up-add}
use dns_wrapper.Bookkeeping.Mappings.Table.{IsTable, add-IsTable}
use dns_wrapper.Tests.Rules.{client_mac, client_ip}

abbrev pub waiting : PeerRequestRecord ℕ
waiting = record {
  source = record { endpoint = 4000; ipv4 = true; original_id = 7 };
  more = [];
  sent_to = some 0;
  new_id = 99;
  flags = 0;
  time = 1000;
  forward_timestamp = 0;
  hash = 1 ∷ [];
  from_timed_out = false;
}

abbrev pub requests : PeerRequests ℕ
requests = record { records = waiting ∷ []; sources = []; source_count = 0 }

get_new_record-Got_example : Got 1005 requests (get_new_record waiting 1005 false requests).1 0
unfolding get_new_record sweep collect tally take_record
get_new_record-Got_example = get_new_record-Got waiting 1005 false requests 0 refl

get_new_record-none_example :
    ((get_new_record waiting 1005 false requests).0 ≡ none)
    ↔ ((false ≡ false) × (max_fwd_queries ≤ live 1005 requests.records))
get_new_record-none_example = get_new_record-none waiting 1005 false requests

-- The generator gives 99, which is taken, and then 100.
get_new_id_lem_example :
    (j : ℕ) × (j ≤ 1)
    × (get_new_id 2 (λ i. 99 + i) 0 requests ≡ ok (99 + (0 + j), suc (0 + j)))
    × Unused (99 + (0 + j)) requests.records
get_new_id_lem_example = get_new_id_lem 1 2 (λ i. 99 + i) 0 requests (omega arith) (refl, tt)

abbrev mapping : Mapping
mapping = record { ethaddress = client_mac; ipv4 = true; ipaddress = client_ip; time = 10 }

abbrev copies : ℕ → List Mapping
copies zero = []
copies (suc n) = mapping ∷ copies n

abbrev pub table : EthMappings
table = record { count = 1; records = copies 100 }

add-IsTable_example : IsTable (add client_mac true client_ip 50 table).1
add-IsTable_example =
    add-IsTable client_mac true client_ip 50 table
      (record { array = refl; bound = omega arith; distinct = (tt, tt) })

look_up-add_example :
    (r : Mapping) × (look_up client_ip true (add client_mac true client_ip 50 table).1 ≡ some r)
    × (((r.ethaddress ≡ client_mac) × (r.time ≡ 50)) ⊎ (look_up client_ip true table ≡ some r))
unfolding add scan choose settle bytes_equal
look_up-add_example =
    look_up-add client_mac true client_ip 50 (omega arith) table
      (record { array = refl; bound = omega arith; distinct = (tt, tt) }) refl
