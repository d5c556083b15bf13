-- ===== src/Dns/Question/Root.antt =====
-- A question for the root name, whose text is empty (src/dns/dnsquestion.cpp).
use dns_wrapper.Common.{ℕ, ◌+◌, ◌*◌, ◌/◌, ◌%◌, ◌^◌, ◌<◌, ◌≡◌, refl, [], ok, arith}
use dns_wrapper.Net.Buffer
use dns_wrapper.Net.Buffer.{Buffer, fresh, max_packet_sz}
use dns_wrapper.Dns.Question.{
  Question, write_length, write_chars, write_end, write_label, write, read_label, read,
}

-- The question for the root name.
abbrev pub root_question : ℕ → ℕ → Question
root_question t c = record { start = 0; name = []; type = t; class = c }

high : (v : ℕ) → v < 2 ^ 16 → 0 + v / 256 % 256 ≡ v / 256
high v fits = omega arith

low : (v : ℕ) → v < 2 ^ 16 → v / 256 % 256 ≡ v / 256
low v fits = omega arith

-- A question for the root name, whose text is empty, with a type and a class of 16 bits, is
-- written in six bytes of a fresh packet buffer and reads back one byte too early: its type is
-- the upper byte of the type, and its class the lower byte of the type and the upper byte of
-- the class.
pub read-write_root :
    (t c : ℕ)
    → t < 2 ^ 16
    → c < 2 ^ 16
    → (b : Buffer) × (write (root_question t c) (fresh max_packet_sz) ≡ ok (tt, b))
      × (b.pos ≡ 6)
      × (read (record b { pos = 0; size = b.pos })
          ≡ ok (
            root_question (t / 256) (t % 256 * 256 + c / 256),
            record b { pos = 5; size = b.pos },
          ))
unfolding write read write_label write_length write_chars write_end read_label fresh Buffer.validate
    Buffer.peek_byte Buffer.advance Buffer.seek Buffer.read_byte Buffer.read_u16 Buffer.vread_u8
    Buffer.vread_u16 Buffer.poke Buffer.write_byte Buffer.write_u16
read-write_root t c type_fits class_fits =
    (_, refl, refl, rw (high t type_fits, low c class_fits) refl)
