-- ===== src/Tests/Wire.antt =====
-- A query for the name `a.io`, its bytes, and its header.
use dns_wrapper.Common.{
  ℕ, ◌≤◌, ◌<◌, ◌≡◌, ◌≢◌, ◌↔◌, ◌⊎◌, refl, List, [], ◌∷◌, ok, fault, stuck, arith, length,
}
use dns_wrapper.Common.Memory.{store}
use dns_wrapper.Net.Buffer.{Buffer, fresh, max_packet_sz, e_noerror}
use dns_wrapper.Net.Frame
use dns_wrapper.Net.Frame.Safety.{read-inside}
use dns_wrapper.Dns.Header
use dns_wrapper.Dns.Header.{
  Header, incoming_request, get_op_code, set_op_code, set_checking_disabled, set_response_code,
  get_query_response,
}
use dns_wrapper.Dns.Header.Checks.{IsRequest, validate-IsRequest}
use dns_wrapper.Dns.Question.{read_label}
use dns_wrapper.Dns.Question.Bounds.{read_label-ne-stuck}
use dns_wrapper.Dns.Question.Labels.{IsPlain, IsName, wire}
use dns_wrapper.Dns.Packet
use dns_wrapper.Dns.Packet.{Packet}
use dns_wrapper.Dns.Packet.Codec.{
  Message, IsMessage, packet_at, message_bytes, all_bytes, values_at, read-write,
}
use dns_wrapper.Dns.Packet.Checks.{RecordsPass, parts, opts, validate_lem}

abbrev pub name : List (List ℕ)
name = (b'a' ∷ []) ∷ (b'i' ∷ b'o' ∷ []) ∷ []

plain : (x : ℕ) → x ≢ 0 → x ≢ b'.' → x < 256 → IsPlain x
plain x h k l = record { not_nul = h; not_dot = k; is_byte = l }

pub name-IsName : IsName name
name-IsName = record {
  labels = (
    record {
      plain = (plain b'a' (omega arith) (omega arith) (omega arith), tt);
      not_empty = omega arith;
      short = omega arith;
    },
    (
      record {
        plain = (
          plain b'i' (omega arith) (omega arith) (omega arith),
          (plain b'o' (omega arith) (omega arith) (omega arith), tt),
        );
        not_empty = omega arith;
        short = omega arith;
      },
      tt,
    ),
  );
  named = λ e. cc;
  fits = omega arith;
}

abbrev pub header : Header
header = record {
  id = 7;
  hb3 = 1;
  hb4 = 0;
  question_count = 1;
  answer_count = 0;
  authority_count = 0;
  additional_count = 0;
}

abbrev pub message : Message
message = record {
  header = header;
  questions = record { name = name; type = 1; class = 1 } ∷ [];
  answers = [];
  authorities = [];
  additionals = [];
}

pub message-IsMessage : IsMessage message
message-IsMessage = record {
  head = record {
    id_fits = omega arith;
    hb3_fits = omega arith;
    hb4_fits = omega arith;
    qd_fits = omega arith;
    an_fits = omega arith;
    ns_fits = omega arith;
    ar_fits = omega arith;
  };
  question_count = refl;
  answer_count = refl;
  authority_count = refl;
  additional_count = refl;
  questions_good =
      (record { named = name-IsName; type_fits = omega arith; class_fits = omega arith }, tt);
  answers_good = tt;
  authorities_good = tt;
  additionals_good = tt;
}

abbrev pub packet : Packet
packet = packet_at message 0

read-write_example :
    (b : Buffer) × (Packet.write packet (fresh max_packet_sz) ≡ ok (tt, b))
    × (b.pos ≡ length (message_bytes message))
    × (Packet.read (record b { pos = 0; size = b.pos }) ≡ ok (packet, record b { size = b.pos }))
unfolding all_bytes
read-write_example = read-write message message-IsMessage (omega arith)

validate_lem_example : (Packet.validate incoming_request packet ≡ ok e_noerror) ↔ (
    (Header.validate incoming_request header ≡ e_noerror)
    ⊎ (RecordsPass incoming_request packet × (1 ≤ parts packet) × (opts packet.additionals ≤ 1)))
unfolding values_at
validate_lem_example =
    validate_lem incoming_request packet
      (record {
        question_count = refl;
        answer_count = refl;
        authority_count = refl;
        additional_count = refl;
      })
      refl

-- The name's bytes, alone in a packet.
unfoldable name_buffer : Buffer
name_buffer = record { mem = store (λ i. 0) 0 (wire name); cap = 1600; pos = 0; size = 6; udp = 0 }

read_label-ne-stuck_example : read_label name_buffer ≢ stuck
read_label-ne-stuck_example = read_label-ne-stuck name_buffer

validate-IsRequest_example :
    (Header.validate incoming_request header ≡ e_noerror) ↔ IsRequest header
validate-IsRequest_example = validate-IsRequest header (omega arith) (omega arith)

-- A frame of which only the length is known.
unfoldable frame : Buffer
frame = record { mem = λ i. 8; cap = 2267; pos = 0; size = 64; udp = 0 }

read-inside_example : (Frame.read frame ≢ fault) × (Frame.read frame ≢ stuck)
unfolding frame
read-inside_example = read-inside frame (omega arith) (omega arith)
