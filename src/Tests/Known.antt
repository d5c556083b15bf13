-- ===== src/Tests/Known.antt =====
-- A client whose frame goes by before its request.
use dns_wrapper.Common.{ℕ, ◌≡◌, refl, true, List, [], ◌∷◌, ok, arith}
use dns_wrapper.Common.Memory.{store}
use dns_wrapper.Net.Buffer
use dns_wrapper.Net.Buffer.{Buffer, e_noerror}
use dns_wrapper.Net.Frame
use dns_wrapper.Net.Frame.{InPacket}
use dns_wrapper.Dns.Header
use dns_wrapper.Dns.Header.{incoming_request}
use dns_wrapper.Dns.Packet
use dns_wrapper.Rule.Evaluate.{bytes_equal}
use dns_wrapper.Rule.Evaluate.Decide.{decide}
use dns_wrapper.Bookkeeping.Mappings.{EthMappings, add, scan, choose, settle, look_up}
use dns_wrapper.Server.{Server}
use dns_wrapper.Server.Receive.{carry_out, process_request, receive_raw}
use dns_wrapper.Server.Known.{Shows, process_request-receive_raw}
use dns_wrapper.Tests.Rules.{block-Encodes, client_mac, client_ip, two_rules}
use dns_wrapper.Tests.Wire.{packet}
use dns_wrapper.Tests.Requests.{table}
use dns_wrapper.Tests.Replies.{platform, server}

abbrev no_mappings : EthMappings
no_mappings = record table { count = 0 }

abbrev unseen : Server ℕ
unseen = record server { mappings = no_mappings }

-- Ethernet, IPv4 and UDP headers from 10.0.0.7 to port 53, and the start of a query.
abbrev frame_bytes : List ℕ
frame_bytes =
    0 ∷ 0 ∷ 0 ∷ 0 ∷ 0 ∷ 0 ∷ 2 ∷ 0 ∷ 0 ∷ 0 ∷ 0 ∷ 1 ∷ 8 ∷ 0 ∷ 0x45 ∷ 0 ∷ 0 ∷ 0 ∷ 0 ∷ 0 ∷ 0 ∷ 0 ∷ 64
    ∷ 17 ∷ 0 ∷ 0 ∷ 10 ∷ 0 ∷ 0 ∷ 7 ∷ 10 ∷ 0 ∷ 0 ∷ 1 ∷ 16 ∷ 0 ∷ 0 ∷ 53 ∷ 0 ∷ 20 ∷ 0 ∷ 0 ∷ 0 ∷ 7 ∷ 1
    ∷ 0 ∷ 0 ∷ 1 ∷ 0 ∷ 0 ∷ 0 ∷ 0 ∷ 0 ∷ 0 ∷ []

unfoldable frame : Buffer
frame = record { mem = store (λ i. 0) 0 frame_bytes; cap = 2267; pos = 0; size = 54; udp = 0 }

abbrev shown : InPacket
shown = record {
  eth_destination = 0 ∷ 0 ∷ 0 ∷ 0 ∷ 0 ∷ 0 ∷ [];
  eth_source = client_mac;
  eth_protocol = 0x0800;
  ipv4 = true;
  ip_source = 10 ∷ 0 ∷ 0 ∷ 7 ∷ [];
  ip_destination = 10 ∷ 0 ∷ 0 ∷ 1 ∷ [];
  ip_protocol = 17;
  source_port = 4096;
  destination_port = 53;
}

frame-Shows : Shows 53 frame shown
unfolding frame store Frame.read Frame.read_bytes Frame.skip_vlans Frame.is_vlan Frame.read_ip
    Frame.read_ipv4 Frame.read_ipv4_fields Frame.read_words Frame.read_word Frame.read_udp
    Buffer.validate Buffer.peek_byte Buffer.advance Buffer.seek Buffer.read_byte Buffer.read_u16
    Buffer.read_u32 Buffer.vread_u8 Buffer.vread_u16 Buffer.vread_u32
frame-Shows = record {
  rest = record { mem = store (λ i. 0) 0 frame_bytes; cap = 2267; pos = 42; size = 54; udp = 20 };
  reads = refl;
  to_us = refl;
  long = omega arith;
  inside = omega arith;
  query = refl;
}

process_request-receive_raw_example :
    (s' : Server ℕ) × (receive_raw platform 53 1000 true frame unseen ≡ ok s')
    × (process_request platform 9 1005 packet 4000 true s'
        ≡ carry_out platform 9 1005 packet 4000 true s' (
            decide
              (record { ipv4 = true; ethaddr = client_mac; ipaddr = client_ip })
              server.rules.policy
              two_rules))
unfolding platform server add scan choose settle look_up bytes_equal Packet.validate Header.validate
    Header.validate_request Header.get_query_response Header.get_op_code
    Header.get_truncated_message Header.get_response_code
process_request-receive_raw_example =
    process_request-receive_raw platform 53 9 1000 1005 frame shown packet 4000 unseen two_rules
      frame-Shows refl (omega arith) (record { array = refl; bound = omega arith; distinct = tt })
      refl refl block-Encodes refl
