-- ===== src/Tests/Names.antt =====
-- Compressed names: a pointer to a label behind which another pointer stands, and one to a zero byte; the
-- root name.
use dns_wrapper.Common.{ℕ, ◌≡◌, refl, List, [], ◌∷◌, ok, fault, arith}
use dns_wrapper.Common.Memory.{store}
use dns_wrapper.Net.Buffer.{Buffer, fresh, max_packet_sz}
use dns_wrapper.Dns.Question
use dns_wrapper.Dns.Question.Root.{root_question, read-write_root}
use dns_wrapper.Dns.Question.{read_label}
use dns_wrapper.Dns.Question.Labels.{IsLabel}
use dns_wrapper.Dns.Question.Compressed.{Spells, root, label, last_pointer, pointer}
use dns_wrapper.Dns.Question.Pointers.{read_label-Spells, read_label-fault}

abbrev bytes : List ℕ
bytes = 2 ∷ b'i' ∷ b'o' ∷ 0 ∷ 1 ∷ b'a' ∷ 192 ∷ 0 ∷ 192 ∷ 4 ∷ 192 ∷ 3 ∷ []

unfoldable buffer : ℕ → Buffer
buffer p = record { mem = store (λ i. 0) 0 bytes; cap = 1600; pos = p; size = 12; udp = 0 }

io : IsLabel (b'i' ∷ b'o' ∷ [])
io = record {
  plain = (
    record { not_nul = omega arith; not_dot = omega arith; is_byte = omega arith },
    (record { not_nul = omega arith; not_dot = omega arith; is_byte = omega arith }, tt),
  );
  not_empty = omega arith;
  short = omega arith;
}

a : IsLabel (b'a' ∷ [])
a = record {
  plain = (record { not_nul = omega arith; not_dot = omega arith; is_byte = omega arith }, tt);
  not_empty = omega arith;
  short = omega arith;
}

chain : Spells (buffer 8).mem 12 8 ((b'a' ∷ []) ∷ (b'i' ∷ b'o' ∷ []) ∷ []) 2 8
unfolding buffer store
chain = pointer 0 refl (omega arith) (omega arith) (omega arith) (
    label (b'a' ∷ []) a refl (refl, tt) (omega arith)
      (last_pointer 0 refl (omega arith) (omega arith) (omega arith) (
        label (b'i' ∷ b'o' ∷ []) io refl (refl, (refl, tt)) (omega arith)
          (root refl (omega arith)))))

-- The position stays in front of the name, whose second pointer ends there.
read_label-Spells_example :
    read_label (buffer 8) ≡ ok ((8, b'a' ∷ b'.' ∷ b'i' ∷ b'o' ∷ []), buffer 8)
unfolding buffer
read_label-Spells_example =
    read_label-Spells (buffer 8) (b'a' ∷ []) ((b'i' ∷ b'o' ∷ []) ∷ []) 2 8 chain (omega arith)
      (omega arith) (omega arith)

read_label-fault_example : read_label (buffer 10) ≡ fault
unfolding buffer store
read_label-fault_example =
    read_label-fault (buffer 10) 0 12
      (last_pointer 0 refl (omega arith) (omega arith) (omega arith) (root refl (omega arith)))
      (omega arith) (omega arith)

-- A question for the root name of type 2 and class 1.
read-write_root_example :
    (b : Buffer) × (Question.write (root_question 2 1) (fresh max_packet_sz) ≡ ok (tt, b))
    × (b.pos ≡ 6)
    × (Question.read (record b { pos = 0; size = b.pos })
        ≡ ok (root_question 0 512, record b { pos = 5; size = b.pos }))
read-write_root_example = read-write_root 2 1 (omega arith) (omega arith)
