-- ===== src/Dns/Header/Codec.antt =====
-- A header that was written reads back.
use dns_wrapper.Common.{ℕ, ◌%◌, ◌^◌, ◌<◌, List, [], ◌∷◌, ◌++◌, arith}
use dns_wrapper.Net.Buffer.Laws.{u16_bytes}
use dns_wrapper.Net.Buffer.Codec.{
  Writes, Reads, Writes-then, Reads-then, write_byte-Writes, write_u16-Writes, vread_u8-Reads_byte,
  vread_u16-Reads, pure-Reads,
}
use dns_wrapper.Dns.Header.{Header, read, read_fields, write}

-- Every field fits its width.
pub record IsHeader (h : Header) : Type 0 where
  pub id_fits : h.id < 2 ^ 16
  pub hb3_fits : h.hb3 < 256
  pub hb4_fits : h.hb4 < 256
  pub qd_fits : h.question_count < 2 ^ 16
  pub an_fits : h.answer_count < 2 ^ 16
  pub ns_fits : h.authority_count < 2 ^ 16
  pub ar_fits : h.additional_count < 2 ^ 16

abbrev pub header_bytes : Header → List ℕ
header_bytes h =
    u16_bytes h.id
    ++ ((h.hb3 % 256) ∷ [])
    ++ ((h.hb4 % 256) ∷ [])
    ++ u16_bytes h.question_count
    ++ u16_bytes h.answer_count
    ++ u16_bytes h.authority_count
    ++ u16_bytes h.additional_count

pub write-Writes : (h : Header) → Writes (write h) (header_bytes h)
unfolding write
write-Writes h = Writes-then (write_u16-Writes _) (
    Writes-then (write_byte-Writes _) (
      Writes-then (write_byte-Writes _) (
        Writes-then (write_u16-Writes _) (
          Writes-then (write_u16-Writes _)
            (Writes-then (write_u16-Writes _) (write_u16-Writes _))))))

read_fields-Reads : (h : Header) → IsHeader h → Reads read_fields (header_bytes h) (λ p. h)
unfolding read_fields
read_fields-Reads h v = Reads-then _ _ (vread_u16-Reads _ v.id_fits) λ p.
    Reads-then _ _ (vread_u8-Reads_byte _ v.hb3_fits) λ p.
      Reads-then _ _ (vread_u8-Reads_byte _ v.hb4_fits) λ p.
        Reads-then _ _ (vread_u16-Reads _ v.qd_fits) λ p.
          Reads-then _ _ (vread_u16-Reads _ v.an_fits) λ p.
            Reads-then _ _ (vread_u16-Reads _ v.ns_fits)
              λ p. Reads-then _ _ (vread_u16-Reads _ v.ar_fits) λ p. pure-Reads _

pub read-Reads : (h : Header) → IsHeader h → Reads read (header_bytes h) (λ p. h)
unfolding read
read-Reads h v = record {
  apply = λ b fits room holds. ground (arith, (read_fields-Reads h v).apply b fits room holds);
}
