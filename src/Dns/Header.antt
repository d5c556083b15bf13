-- ===== src/Dns/Header.antt =====
-- include/dns/dnscommon.hpp, include/dns/dnsheader.hpp and src/dns/dnsheader.cpp: the twelve bytes
-- of a message's header, its flags, and its checks.
pub mod Flags
pub mod Checks
pub mod Codec
use dns_wrapper.Common.{
  ℕ, ◌*◌, ◌/◌, ◌+◌, bit_and, bit_or, Bool, true, false, not, ◌||◌, ◌==◌, ◌!=◌, ltb, if◌then◌else◌,
}
use dns_wrapper.Net.Buffer.{
  Buffer, Action, ◌>>=◌, ◌>>◌, pure, raise, vread_u8, vread_u16, write_byte, write_u16, e_noerror,
  e_formerr, e_notimp,
}

pub data PacketType : Type 0 where
  incoming_request incoming_response outgoing_request outgoing_response : PacketType

abbrev pub s_query : ℕ
s_query = 0

abbrev pub qt_a : ℕ
qt_a = 1

abbrev pub qt_ns : ℕ
qt_ns = 2

abbrev pub qt_cname : ℕ
qt_cname = 5

abbrev pub qt_mx : ℕ
qt_mx = 15

abbrev pub qt_aaaa : ℕ
qt_aaaa = 28

abbrev pub qt_opt : ℕ
qt_opt = 41

abbrev pub qtc_in : ℕ
qtc_in = 1

abbrev pub header_size : ℕ
header_size = 12

-- `hb3` and `hb4` are the bit patterns of the two chars.
pub record Header : Type 0 where
  pub id : ℕ
  pub hb3 : ℕ
  pub hb4 : ℕ
  pub question_count : ℕ
  pub answer_count : ℕ
  pub authority_count : ℕ
  pub additional_count : ℕ

-- The test `x & mask` as a condition.
abbrev test : ℕ → ℕ → Bool
test x mask = bit_and x mask != 0

-- `(int)v`
abbrev bit : Bool → ℕ
bit true = 1
bit false = 0

unfoldable pub get_query_response : Header → Bool
get_query_response h = test h.hb3 0x80

unfoldable pub get_op_code : Header → ℕ
get_op_code h = bit_and (h.hb3 / 16) 7

unfoldable pub get_authoritative_answer : Header → Bool
get_authoritative_answer h = test h.hb3 4

unfoldable pub get_truncated_message : Header → Bool
get_truncated_message h = test h.hb3 2

unfoldable pub get_recursion_desired : Header → Bool
get_recursion_desired h = test h.hb3 1

unfoldable pub get_recursion_available : Header → Bool
get_recursion_available h = test h.hb4 0x80

unfoldable pub get_authentic_data : Header → Bool
get_authentic_data h = test h.hb4 0x20

unfoldable pub get_checking_disabled : Header → Bool
get_checking_disabled h = test h.hb4 0x10

unfoldable pub get_response_code : Header → ℕ
get_response_code h = bit_and h.hb4 15

unfoldable pub set_query_response : Bool → Header → Header
set_query_response v h = record h { hb3 = bit_or h.hb3 (bit v * 128) }

unfoldable pub set_op_code : ℕ → Header → Header
set_op_code v h = record h { hb3 = bit_or h.hb3 (bit_and v 15 * 8) }

unfoldable pub set_authoritative_answer : Bool → Header → Header
set_authoritative_answer v h = record h { hb3 = bit_or h.hb3 (bit v * 4) }

unfoldable pub set_truncated_message : Bool → Header → Header
set_truncated_message v h = record h { hb3 = bit_or h.hb3 (bit v * 2) }

unfoldable pub set_recursion_desired : Bool → Header → Header
set_recursion_desired v h = record h { hb3 = bit_or h.hb3 (bit v) }

unfoldable pub set_recursion_available : Bool → Header → Header
set_recursion_available v h = record h { hb4 = bit_or h.hb4 (bit v * 128) }

unfoldable pub set_authentic_data : Bool → Header → Header
set_authentic_data v h = record h { hb4 = bit_or h.hb4 (bit v * 32) }

unfoldable pub set_checking_disabled : Bool → Header → Header
set_checking_disabled v h = record h { hb4 = bit_or h.hb4 (bit v * 64) }

unfoldable pub set_response_code : ℕ → Header → Header
set_response_code v h = record h { hb4 = bit_or h.hb4 (bit_and v 15) }

-- The fields of `Read`, each behind its own check of the size.
unfoldable pub read_fields : Action Header
read_fields = do
  i ← vread_u16
  b3 ← vread_u8
  b4 ← vread_u8
  qd ← vread_u16
  an ← vread_u16
  ns ← vread_u16
  ar ← vread_u16
  pure (record {
    id = i;
    hb3 = b3;
    hb4 = b4;
    question_count = qd;
    answer_count = an;
    authority_count = ns;
    additional_count = ar;
  })

unfoldable pub read : Action Header
read b = if ltb b.size (b.pos + header_size) then raise e_formerr b else read_fields b

-- The checks on a request, in the order of `Validate`.
unfoldable pub validate_request : Header → ℕ
validate_request h =
    if get_query_response h
    then e_formerr
    else if get_op_code h != s_query
    then e_notimp
    else if get_truncated_message h
    then e_formerr
    else if get_response_code h != e_noerror
    then e_formerr
    else if h.question_count == 0
    then e_formerr
    else if ltb 0 h.answer_count || ltb 0 h.authority_count
    then e_formerr
    else e_noerror

unfoldable pub validate : PacketType → Header → ℕ
unfolding validate_request
validate incoming_request h = validate_request h
validate incoming_response h = if not (get_query_response h) then e_formerr else e_noerror
validate outgoing_request h = e_noerror
validate outgoing_response h = e_noerror

unfoldable pub write : Header → Action (Unit {0})
write h = do
  write_u16 h.id
  write_byte h.hb3
  write_byte h.hb4
  write_u16 h.question_count
  write_u16 h.answer_count
  write_u16 h.authority_count
  write_u16 h.additional_count
