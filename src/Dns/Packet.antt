-- ===== src/Dns/Packet.antt =====
-- include/dns/dnspacket.hpp and src/dns/dnspacket.cpp: whole messages. Every packet of the server
-- goes through `Read`, which makes the header first, so a header is always there.
pub mod Codec
pub mod Checks
use dns_wrapper.Common.{
  ℕ, zero, suc, ◌+◌, ◌*◌, ◌%◌, bit_or, Bool, true, false, not, ◌==◌, ◌!=◌, ltb, if◌then◌else◌, List,
  [], ◌∷◌, Result, ok, err, fault, stuck, bind, length,
}
use dns_wrapper.Net.Buffer.{Action, ◌>>=◌, ◌>>◌, pure, e_noerror, e_formerr}
use dns_wrapper.Dns.Header
use dns_wrapper.Dns.Header.{
  Header, PacketType, incoming_request, incoming_response, outgoing_request, outgoing_response,
  qt_opt,
}
use dns_wrapper.Dns.Question
use dns_wrapper.Dns.Question.{Question}
use dns_wrapper.Dns.Record
use dns_wrapper.Dns.Record.{Record, Section, answer, authority, additional, opt}

pub record Packet : Type 0 where
  pub header : Header
  pub questions : List Question
  pub answers : List Record
  pub authorities : List Record
  pub additionals : List Record

-- The loop of `READ_RECORD` and `READ_QUESTION`.
unfoldable pub read_many : {A : Type 0} → Action A → ℕ → Action (List A)
read_many r zero = pure []
read_many r (suc n) = do x ← r; xs ← read_many r n; pure (x ∷ xs)

-- `Read`; bytes behind the records are logged and accepted.
unfoldable pub read : Action Packet
read = do
  h ← Header.read
  qs ← read_many Question.read h.question_count
  ans ← read_many (Record.read answer) h.answer_count
  aut ← read_many (Record.read authority) h.authority_count
  add ← read_many (Record.read additional) h.additional_count
  pure (record { header = h; questions = qs; answers = ans; authorities = aut; additionals = add })

-- The loop of `VALIDATE_RECORD`. `err c` is its early return; `ok c` goes on with `code` as `c`.
-- An index behind the end of the array is `fault`.
unfoldable pub validate_many : {A : Type 0} → (A → ℕ) → ℕ → List A → ℕ → Result ℕ
validate_many check zero xs code = ok code
validate_many check (suc n) [] code = fault
validate_many check (suc n) (x ∷ xs) code =
    let rest = validate_many check n xs e_noerror in
    if check x != e_noerror then err (check x) else rest

-- `psuedoHeaderCount`
unfoldable pub count_opt : ℕ → List Record → Result ℕ
count_opt zero rs = ok 0
count_opt (suc n) [] = fault
count_opt (suc n) (r ∷ rs) = bind (count_opt n rs) λ k. ok (if r.type == qt_opt then k + 1 else k)

-- The four loops.
unfoldable pub validate_records : PacketType → Packet → ℕ → Result ℕ
unfolding validate_many
validate_records pt p code =
    bind (validate_many (Question.validate pt) p.header.question_count p.questions code) λ c.
      bind (validate_many (Record.validate pt) p.header.answer_count p.answers c) λ c.
        bind (validate_many (Record.validate pt) p.header.authority_count p.authorities c)
          λ c. validate_many (Record.validate pt) p.header.additional_count p.additionals c

abbrev is_incoming : PacketType → Bool
is_incoming incoming_request = true
is_incoming incoming_response = true
is_incoming outgoing_request = false
is_incoming outgoing_response = false

-- What an early return gives its caller.
abbrev returned : Result ℕ → Result ℕ
returned (ok c) = ok c
returned (err c) = ok c
returned fault = fault
returned stuck = stuck

-- `Validate`. The header's check makes it return at once where that check finds nothing.
unfoldable pub validate : PacketType → Packet → Result ℕ
validate pt p =
    let code = Header.validate pt p.header in
    if code == e_noerror
    then ok code
    else returned (
        bind (if is_incoming pt then validate_records pt p code else ok code) λ c.
          bind (count_opt p.header.additional_count p.additionals)
            λ k. if ltb 1 k then ok e_formerr else ok c)

-- The loop of `WRITE_RECORD`.
unfoldable pub write_many : {A : Type 0} → (A → Action (Unit {0})) → ℕ → List A → Action (Unit {0})
write_many w zero xs = pure tt
write_many w (suc n) [] = λ b. fault
write_many w (suc n) (x ∷ xs) = do w x; write_many w n xs

unfoldable pub write : Packet → Action (Unit {0})
write p = do
  Header.write p.header
  write_many Question.write p.header.question_count p.questions
  write_many Record.write p.header.answer_count p.answers
  write_many Record.write p.header.authority_count p.authorities
  write_many Record.write p.header.additional_count p.additionals

-- The hash functions of tp/sha256.hpp, which the repository takes from another project.
pub record Sha256 : Type 1 where
  pub Context : Type 0
  pub init : Context
  pub update : List ℕ → Context → Context
  pub final : Context → List ℕ

module _ (sha : Sha256) where
  unfoldable pub hash_questions : ℕ → List Question → sha.Context → Result sha.Context
  hash_questions zero qs ctx = ok ctx
  hash_questions (suc n) [] ctx = fault
  hash_questions (suc n) (q ∷ qs) ctx =
      hash_questions n qs (sha.update (Question.digest_bytes q) ctx)

  -- `Hash`
  unfoldable pub hash : Packet → Result (List ℕ)
  unfolding hash_questions
  hash p =
      bind (hash_questions p.header.question_count p.questions sha.init) λ ctx. ok (sha.final ctx)

abbrev on_header : (Header → Header) → Packet → Packet
on_header f p = record p { header = f p.header }

unfoldable pub is_request : Packet → Bool
is_request p = not (Header.get_query_response p.header)

unfoldable pub is_response : Packet → Bool
is_response p = Header.get_query_response p.header

unfoldable pub get_id : Packet → ℕ
get_id p = p.header.id

unfoldable pub get_response_code : Packet → ℕ
get_response_code p = Header.get_response_code p.header

unfoldable pub set_as_query_response : Packet → Packet
set_as_query_response = on_header (Header.set_query_response true)

unfoldable pub set_as_query_request : Packet → Packet
set_as_query_request = on_header (Header.set_query_response false)

unfoldable pub set_id : ℕ → Packet → Packet
set_id i = on_header λ h. record h { id = i }

unfoldable pub set_as_authoritative_answer : Bool → Packet → Packet
set_as_authoritative_answer v = on_header (Header.set_authoritative_answer v)

unfoldable pub set_recursion_available : Bool → Packet → Packet
set_recursion_available v = on_header (Header.set_recursion_available v)

unfoldable pub set_checking_disabled : Bool → Packet → Packet
set_checking_disabled v = on_header (Header.set_checking_disabled v)

unfoldable pub set_response_code : ℕ → Packet → Packet
set_response_code c = on_header (Header.set_response_code c)

-- The loop of `SetAnswers`, over the questions and new records.
unfoldable pub answers_for : (Question → Record → Record) → ℕ → List Question → Result (List Record)
answers_for write_answer zero qs = ok []
answers_for write_answer (suc n) [] = fault
answers_for write_answer (suc n) (q ∷ qs) =
    bind (answers_for write_answer n qs) λ rs. ok (write_answer q Record.blank ∷ rs)

unfoldable pub set_answers : (Question → Record → Record) → Packet → Result Packet
unfolding answers_for
set_answers write_answer p =
    if p.header.question_count == 0
    then ok p
    else bind (answers_for write_answer p.header.question_count p.questions) λ rs. ok (record p {
      answers = rs;
      header = record p.header { answer_count = p.header.question_count };
    })

-- Whether a record has octets of its own, which its destructor deletes.
unfoldable owns_octets : Record → Bool
owns_octets r = elim r.address [ opt octets ↦ ltb 0 (length octets) | _ ↦ false ]

-- The loop of `OPT_GET` over the first `n` additionals, up to the first OPT record. The loop works
-- on a copy, whose destructor deletes the octets that the packet's record points to as well; that
-- they are deleted again with the packet is the fault.
unfoldable pub find_opt : {A : Type 0} → ℕ → List Record → (Record → A) → A → Result A
unfolding owns_octets
find_opt zero rs get d = ok d
find_opt (suc n) [] get d = fault
find_opt (suc n) (r ∷ rs) get d =
    let rest = find_opt n rs get d in
    if r.type == qt_opt then (if owns_octets r then fault else ok (get r)) else rest

abbrev opt_get : {A : Type 0} → Packet → (Record → A) → A → Result A
opt_get p = find_opt p.header.additional_count p.additionals

unfoldable pub has_psuedo_header : Packet → Result Bool
unfolding find_opt
has_psuedo_header p = opt_get p (λ r. true) false

unfoldable pub get_udp_payload_size : Packet → Result ℕ
unfolding find_opt
get_udp_payload_size p = opt_get p (λ r. r.class) 0

unfoldable pub get_extended_response_code : Packet → Result ℕ
unfolding find_opt
get_extended_response_code p =
    opt_get p (λ r. bit_or (get_response_code p) (Record.get_extended_rcode r * 16))
      (get_response_code p)

unfoldable pub has_do_bit : Packet → Result Bool
unfolding find_opt
has_do_bit p = opt_get p Record.get_do_bit false

unfoldable pub has_ad_bit : Packet → Result Bool
unfolding find_opt
has_ad_bit p = opt_get p Record.get_ad_bit false

-- The loop of `OPT_SET`, over every OPT record among the first `n` additionals.
unfoldable set_opts : ℕ → List Record → (Record → Record) → Result (List Record)
unfolding owns_octets
set_opts zero rs set = ok rs
set_opts (suc n) [] set = fault
set_opts (suc n) (r ∷ rs) set = bind (set_opts n rs set) λ rest.
    if r.type == qt_opt then (if owns_octets r then fault else ok (set r ∷ rest)) else ok (r ∷ rest)

-- `UdpSize` of a copy still refers to the `Class` of the packet's record, so that one is set.
unfoldable set_udp_payload_size : ℕ → Packet → Result Packet
unfolding set_opts
set_udp_payload_size n p =
    bind
      (set_opts p.header.additional_count p.additionals
        (λ r. record r { question = record r.question { class = n } }))
      λ rs. ok (record p { additionals = rs })
