-- ===== src/Server/Reply.antt =====
-- The reply that redirects a request.
use dns_wrapper.Common.{
  ℕ, ◌+◌, ◌*◌, ◌≤◌, ◌<◌, ◌≡◌, refl, ap, ◌∙◌, true, false, List, [], ◌∷◌, map, ok, ◌==◌, arith,
  length, bit_and, bit_or, agree,
}
use dns_wrapper.Common.Bits.{byte_table}
use dns_wrapper.Net.Buffer.{Buffer, IpAddress}
use dns_wrapper.Net.Buffer.Laws.{IsByte, u32_bytes, put, write_u32-put}
use dns_wrapper.Dns.Header
use dns_wrapper.Dns.Header.{qt_a}
use dns_wrapper.Dns.Question.{Question}
use dns_wrapper.Dns.Record
use dns_wrapper.Dns.Record.{Record, write_address, write_ipv4}
use dns_wrapper.Dns.Packet
use dns_wrapper.Dns.Packet.{
  Packet, answers_for, set_answers, set_as_query_response, set_as_authoritative_answer,
  set_recursion_available,
}
use dns_wrapper.Server.{word, redirect_answer, update_redirect_response}

four_bytes :
    {a b c d a' b' c' d' : ℕ}
    → a ≡ a'
    → b ≡ b'
    → c ≡ c'
    → d ≡ d'
    → (a ∷ b ∷ c ∷ d ∷ []) ≡ (a' ∷ b' ∷ c' ∷ d' ∷ [])
four_bytes h i j k = rw (h, i, j, k) refl

-- On a little-endian machine the four bytes of an A answer's address go out in reversed order.
pub redirect_answer_lem :
    (w x y z : ℕ) (rest : List ℕ) (q : Question) (r : Record) (b : Buffer)
    → q.type ≡ qt_a
    → IsByte w
    → IsByte x
    → IsByte y
    → IsByte z
    → b.pos + 4 ≤ b.cap
    → write_address (redirect_answer (w ∷ x ∷ y ∷ z ∷ rest) q r) b
      ≡ ok (tt, put (z ∷ y ∷ x ∷ w ∷ []) b)
unfolding write_address redirect_answer word write_ipv4 Record.update_from_question
redirect_answer_lem w x y z rest q r b e hw hx hy hz room =
    let n : ℕ = w + 256 * (x + 256 * (y + 256 * (z + 256 * 0))) in
    let bytes : u32_bytes n ≡ z ∷ y ∷ x ∷ w ∷ [] =
      four_bytes (omega arith) (omega arith) (omega arith) (omega arith) in
    rw e (write_u32-put n b room ∙ ap (λ xs. ok (tt, put xs b)) bytes)

-- The answers to the questions, in their order.
answers_for-map :
    (f : Question → Record → Record) (qs : List Question)
    → answers_for f (length qs) qs ≡ ok (map (λ q. f q Record.blank) qs)
unfolding answers_for
answers_for-map f [] = refl
answers_for-map f (q ∷ qs) = rw (answers_for-map f qs) refl

response_bit : (x : ℕ) → x < 256 → bit_and (bit_or (bit_or x 128) 4) 0x80 ≡ 128
unfolding agree
response_bit = byte_table (λ x. bit_and (bit_or (bit_or x 128) 4) 0x80) (λ x. 128) refl

-- A request with questions is redirected by a response with its identifier and its questions
-- and one answer to each, in their order.
pub update_redirect_response_lem :
    (target : IpAddress) (p : Packet)
    → p.header.question_count ≡ length p.questions
    → 1 ≤ length p.questions
    → p.header.hb3 < 256
    → (p' : Packet) × (update_redirect_response target p ≡ ok p')
      × (p'.answers ≡ map (λ q. redirect_answer target q Record.blank) p.questions)
      × (p'.header.answer_count ≡ length p.questions)
      × (p'.questions ≡ p.questions)
      × (p'.header.id ≡ p.header.id)
      × (Packet.is_response p' ≡ true)
unfolding update_redirect_response set_answers Packet.is_response Header.get_query_response
    set_as_query_response set_as_authoritative_answer set_recursion_available
    Header.set_query_response Header.set_authoritative_answer Header.set_recursion_available
update_redirect_response_lem target p count some_question byte =
    let questions : (p.header.question_count == 0) ≡ false = ground (arith, count) in
    let answers : answers_for (redirect_answer target) p.header.question_count p.questions
        ≡ ok (map (λ q. redirect_answer target q Record.blank) p.questions) =
      rw count (answers_for-map (redirect_answer target) p.questions) in
    let base : Packet =
      set_recursion_available true (set_as_authoritative_answer true (set_as_query_response p)) in
    let reply : Packet = record base {
      answers = map (λ q. redirect_answer target q Record.blank) p.questions;
      header = record base.header { answer_count = p.header.question_count };
    } in
    (
      reply,
      rw (questions, answers) refl,
      refl,
      count,
      refl,
      refl,
      rw (response_bit p.header.hb3 byte) refl,
    )
