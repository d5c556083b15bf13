-- ===== src/Dns/Header/Checks.antt =====
-- What `DnsHeader::Validate` accepts.
use dns_wrapper.Common.{◌/◌, ◌%◌, ◌<◌, ◌≡◌, ◌↔◌, ◌≢◌, true, arith}
use dns_wrapper.Common.Bits.{and_80, and_2, and_15, and_7}
use dns_wrapper.Net.Buffer.{e_noerror}
use dns_wrapper.Dns.Header.{
  Header, validate, incoming_request, incoming_response, get_query_response, get_op_code,
  get_truncated_message, get_response_code,
}

-- A request as the bits of its header say it: QR, the upper three bits of the opcode, TC and the
-- response code are clear, there is a question, and there is no answer and no authority.
pub record IsRequest (h : Header) : Type 0 where
  pub query : h.hb3 < 16
  pub whole : h.hb3 / 2 % 2 ≡ 0
  pub no_code : h.hb4 % 16 ≡ 0
  pub asks : h.question_count ≢ 0
  pub no_answers : h.answer_count ≡ 0
  pub no_authorities : h.authority_count ≡ 0

module _ (h : Header) (lt3 : h.hb3 < 256) (lt4 : h.hb4 < 256) where
  accepted-IsRequest : validate incoming_request h ≡ e_noerror → IsRequest h
  unfolding validate get_query_response get_op_code get_truncated_message get_response_code
  accepted-IsRequest e =
      ground (
        arith,
        and_80 h.hb3 lt3,
        and_7 (h.hb3 / 16) (omega arith),
        and_2 h.hb3 lt3,
        and_15 h.hb4 lt4,
      )

  IsRequest-accepted : IsRequest h → validate incoming_request h ≡ e_noerror
  unfolding validate get_query_response get_op_code get_truncated_message get_response_code
  IsRequest-accepted e =
      ground (
        arith,
        and_80 h.hb3 lt3,
        and_7 (h.hb3 / 16) (omega arith),
        and_2 h.hb3 lt3,
        and_15 h.hb4 lt4,
      )

  -- The header check of a request passes exactly the headers with QR, the upper three bits of
  -- the opcode, TC and the response code clear, with a question, and with no answer and no
  -- authority.
  pub validate-IsRequest : (validate incoming_request h ≡ e_noerror) ↔ IsRequest h
  validate-IsRequest = (accepted-IsRequest, IsRequest-accepted)

  -- Of a response only QR is asked.
  pub validate_response : (validate incoming_response h ≡ e_noerror) ↔ (get_query_response h ≡ true)
  unfolding validate
  validate_response = (λ e. ground arith, λ e. ground arith)
