-- ===== src/Dns/Packet/Codec.antt =====
-- A message that was written reads back.
use dns_wrapper.Common.{ℕ, ◌+◌, ◌^◌, ◌<◌, ◌≡◌, List, [], ◌∷◌, ◌++◌, length, All, ok}
use dns_wrapper.Net.Buffer.{Buffer, Action, fresh, max_packet_sz}
use dns_wrapper.Net.Buffer.Codec.{
  Writes, Reads, Writes-then, Reads-then, Reads-map, pure-Reads, pure-Writes, Reads-Writes,
}
use dns_wrapper.Dns.Header.{Header}
use dns_wrapper.Dns.Header.Codec.{IsHeader, header_bytes}
use dns_wrapper.Dns.Header.Codec as HeaderCodec
use dns_wrapper.Dns.Question
use dns_wrapper.Dns.Question.{Question}
use dns_wrapper.Dns.Question.Labels.{Labels, IsName}
use dns_wrapper.Dns.Question.Codec.{question, question_bytes}
use dns_wrapper.Dns.Question.Codec as QuestionCodec
use dns_wrapper.Dns.Record
use dns_wrapper.Dns.Record.{Record, Section, answer, authority, additional}
use dns_wrapper.Dns.Record.Codec.{Entry, IsEntry, entry_bytes, record_of, start_of, type_of}
use dns_wrapper.Dns.Record.Codec as RecordCodec
use dns_wrapper.Dns.Packet.{Packet, read_many, write_many, read, write}

-- Values that are written one after the other, each with its bytes; reading them at `p` gives each
-- the position at which it stands.
unfoldable pub all_bytes : {E : Type 0} → (E → List ℕ) → List E → List ℕ
all_bytes bytes [] = []
all_bytes bytes (e ∷ es) = bytes e ++ all_bytes bytes es

module _ {E A : Type 0} (bytes : E → List ℕ) (value : E → ℕ → A) where
  unfoldable pub values_at : List E → ℕ → List A
  values_at [] p = []
  values_at (e ∷ es) p = value e p ∷ values_at es (p + length (bytes e))

  read_many-Reads :
      (r : Action A) (Good : E → Type 0)
      → ((e : E) → Good e → Reads r (bytes e) (value e))
      → (es : List E) → All Good es
      → Reads (read_many r (length es)) (all_bytes bytes es) (values_at es)
  unfolding read_many all_bytes values_at
  read_many-Reads r Good one [] good = pure-Reads []
  read_many-Reads r Good one (e ∷ es) (g, good) =
      Reads-then _ (λ p q. value e p ∷ values_at es q) (one e g)
        λ p. Reads-map (λ xs. value e p ∷ xs) (read_many-Reads r Good one es good)

  write_many-Writes :
      (w : A → Action (Unit {0})) (Good : E → Type 0)
      → ((e : E) (p : ℕ) → Good e → Writes (w (value e p)) (bytes e))
      → (es : List E) (p : ℕ) → All Good es
      → Writes (write_many w (length es) (values_at es p)) (all_bytes bytes es)
  unfolding write_many all_bytes values_at
  write_many-Writes w Good one [] p good = pure-Writes
  write_many-Writes w Good one (e ∷ es) p (g, good) =
      Writes-then (one e p g) (write_many-Writes w Good one es _ good)

-- A question in terms of a name as labels.
pub record Query : Type 0 where
  pub name : Labels
  pub type : ℕ
  pub class : ℕ

pub record IsQuery (q : Query) : Type 0 where
  pub named : IsName q.name
  pub type_fits : q.type < 2 ^ 16
  pub class_fits : q.class < 2 ^ 16

abbrev pub query_bytes : Query → List ℕ
query_bytes q = question_bytes q.name q.type q.class

abbrev pub question_of : Query → ℕ → Question
question_of q = question q.name q.type q.class

-- A message in terms of names as labels.
pub record Message : Type 0 where
  pub header : Header
  pub questions : List Query
  pub answers : List Entry
  pub authorities : List Entry
  pub additionals : List Entry

-- The counts of the header are those of the lists, and every part is in range. OPT records, which
-- `Write` does not write whole, are no entries.
pub record IsMessage (m : Message) : Type 0 where
  pub head : IsHeader m.header
  pub question_count : m.header.question_count ≡ length m.questions
  pub answer_count : m.header.answer_count ≡ length m.answers
  pub authority_count : m.header.authority_count ≡ length m.authorities
  pub additional_count : m.header.additional_count ≡ length m.additionals
  pub questions_good : All IsQuery m.questions
  pub answers_good : All IsEntry m.answers
  pub authorities_good : All IsEntry m.authorities
  pub additionals_good : All IsEntry m.additionals

-- The record of an entry that `Read` finds at `p`.
abbrev pub record_at : Section → Entry → ℕ → Record
record_at section e p =
    record_of section e (
      start_of e.content p
        (p + length (question_bytes e.owner (type_of e.content) e.class) + 4 + 2))

abbrev pub questions_bytes : Message → List ℕ
questions_bytes m = all_bytes query_bytes m.questions

abbrev pub section_bytes : List Entry → List ℕ
section_bytes es = all_bytes entry_bytes es

abbrev pub message_bytes : Message → List ℕ
message_bytes m =
    header_bytes m.header
    ++ (questions_bytes m
        ++ (section_bytes m.answers
            ++ (section_bytes m.authorities ++ section_bytes m.additionals)))

abbrev entries_at : Section → List Entry → ℕ → List Record
entries_at section = values_at entry_bytes (record_at section)

abbrev whole : Message → List Question → List Record → List Record → List Record → Packet
whole m qs ans aut add = record {
  header = m.header;
  questions = qs;
  answers = ans;
  authorities = aut;
  additionals = add;
}

-- The packet whose parts behind the ones given begin at the position.
abbrev tail_from : Message → List Question → List Record → ℕ → Packet
tail_from m qs ans s =
    whole m qs ans (entries_at authority m.authorities s)
      (entries_at additional m.additionals (s + length (section_bytes m.authorities)))

abbrev sections_from : Message → List Question → ℕ → Packet
sections_from m qs r =
    tail_from m qs (entries_at answer m.answers r) (r + length (section_bytes m.answers))

abbrev packet_from : Message → ℕ → Packet
packet_from m q =
    sections_from m (values_at query_bytes question_of m.questions q)
      (q + length (questions_bytes m))

-- The packet of a message that begins at `p`.
abbrev pub packet_at : Message → ℕ → Packet
packet_at m p = packet_from m (p + length (header_bytes m.header))

query-Reads : (q : Query) → IsQuery q → Reads Question.read (query_bytes q) (question_of q)
query-Reads q good =
    QuestionCodec.read-Reads q.name q.type q.class good.named good.type_fits good.class_fits

query-Writes :
    (q : Query) (p : ℕ) → IsQuery q → Writes (Question.write (question_of q p)) (query_bytes q)
query-Writes q p good = QuestionCodec.write-Writes q.name q.type q.class p good.named

questions-Reads :
    (m : Message)
    → IsMessage m
    → Reads
        (read_many Question.read m.header.question_count)
        (questions_bytes m)
        (values_at query_bytes question_of m.questions)
questions-Reads m good = rw good.question_count (
    read_many-Reads query_bytes question_of Question.read IsQuery query-Reads m.questions
      good.questions_good)

entries-Reads :
    (section : Section) (es : List Entry) (n : ℕ)
    → n ≡ length es
    → All IsEntry es
    → Reads
        (read_many (Record.read section) n)
        (section_bytes es)
        (values_at entry_bytes (record_at section) es)
entries-Reads section es n count good = rw count (
    read_many-Reads entry_bytes (record_at section) (Record.read section) IsEntry
      (λ e. RecordCodec.read-Reads section e) es good)

questions-Writes :
    (m : Message) (p : ℕ)
    → IsMessage m
    → Writes
        (write_many Question.write m.header.question_count
          (values_at query_bytes question_of m.questions p))
        (questions_bytes m)
questions-Writes m p good = rw good.question_count (
    write_many-Writes query_bytes question_of Question.write IsQuery query-Writes m.questions p
      good.questions_good)

entries-Writes :
    (section : Section) (es : List Entry) (n p : ℕ)
    → n ≡ length es
    → All IsEntry es
    → Writes
        (write_many Record.write n (values_at entry_bytes (record_at section) es p))
        (section_bytes es)
entries-Writes section es n p count good = rw count (
    write_many-Writes entry_bytes (record_at section) Record.write IsEntry
      (λ e p. RecordCodec.write-Writes section e _) es p good)

pub write-Writes :
    (m : Message) (p : ℕ) → IsMessage m → Writes (write (packet_at m p)) (message_bytes m)
unfolding write
write-Writes m p good = Writes-then (HeaderCodec.write-Writes m.header) (
    Writes-then (questions-Writes m _ good) (
      Writes-then (entries-Writes answer m.answers _ _ good.answer_count good.answers_good) (
        Writes-then
          (entries-Writes authority m.authorities _ _ good.authority_count good.authorities_good)
          (entries-Writes additional m.additionals _ _ good.additional_count
            good.additionals_good))))

pub read-Reads : (m : Message) → IsMessage m → Reads read (message_bytes m) (packet_at m)
unfolding read
read-Reads m good =
    Reads-then _ (λ p q. packet_from m q) (HeaderCodec.read-Reads m.header good.head)
      λ p.
        Reads-then _ (λ q r. sections_from m (questions_at q) r) (questions-Reads m good)
          λ q.
            Reads-then _ (λ r s. tail_from m (questions_at q) (entries_at answer m.answers r) s)
              (entries-Reads answer m.answers _ good.answer_count good.answers_good)
              λ r.
                Reads-then _
                  (λ s t.
                    whole m (questions_at q) (entries_at answer m.answers r)
                      (entries_at authority m.authorities s)
                      (entries_at additional m.additionals t))
                  (entries-Reads authority m.authorities _ good.authority_count
                    good.authorities_good)
                  λ s. Reads-map _ (
                    entries-Reads additional m.additionals _ good.additional_count
                      good.additionals_good)
  where
    questions_at : ℕ → List Question
    questions_at = values_at query_bytes question_of m.questions

-- A message with a header in range that counts its parts, whose names have one label or more
-- and no pointers and fit their arrays, with no OPT record, and of fewer bytes than the packet
-- buffer, is written to a fresh buffer without error and reads back as the same packet.
pub read-write :
    (m : Message)
    → IsMessage m
    → length (message_bytes m) < max_packet_sz
    → (b : Buffer) × (write (packet_at m 0) (fresh max_packet_sz) ≡ ok (tt, b))
      × (b.pos ≡ length (message_bytes m))
      × (read (record b { pos = 0; size = b.pos }) ≡ ok (packet_at m 0, record b { size = b.pos }))
read-write m good room = Reads-Writes max_packet_sz (write-Writes m 0 good) (read-Reads m good) room
