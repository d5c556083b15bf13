-- ===== src/Dns/Packet/Checks.antt =====
-- Which packets `DnsPacket::Validate` accepts.
use dns_wrapper.Common.{
  ℕ, ◌+◌, ◌≤◌, ◌≡◌, ◌≢◌, ◌↔◌, ◌⊎◌, inl, inr, refl, List, [], ◌∷◌, length, All, Bool-cases, true,
  arith, ok, err, ◌==◌, if◌then◌else◌,
}
use dns_wrapper.Net.Buffer.{e_noerror}
use dns_wrapper.Dns.Header
use dns_wrapper.Dns.Header.{PacketType, incoming_request, incoming_response, qt_opt}
use dns_wrapper.Dns.Question
use dns_wrapper.Dns.Question.{Question}
use dns_wrapper.Dns.Record
use dns_wrapper.Dns.Record.{Record}
use dns_wrapper.Dns.Packet.{
  Packet, validate_many, count_opt, validate_records, validate, is_incoming,
}

-- The header counts what the arrays hold, as it does after `Read`.
pub record IsCounted (p : Packet) : Type 0 where
  pub question_count : p.header.question_count ≡ length p.questions
  pub answer_count : p.header.answer_count ≡ length p.answers
  pub authority_count : p.header.authority_count ≡ length p.authorities
  pub additional_count : p.header.additional_count ≡ length p.additionals

-- The number of OPT records.
abbrev pub opts : List Record → ℕ
opts [] = 0
opts (r ∷ rs) = if r.type == qt_opt then opts rs + 1 else opts rs

count_opt-opts : (rs : List Record) → count_opt (length rs) rs ≡ ok (opts rs)
unfolding count_opt
count_opt-opts [] = refl
count_opt-opts (r ∷ rs) = rw (count_opt-opts rs)

abbrev pub Passes : {A : Type 0} → (A → ℕ) → List A → Type 0
Passes check = All (λ x. check x ≡ e_noerror)

-- The code after a loop that found nothing.
abbrev carried : {A : Type 0} → List A → ℕ → ℕ
carried [] code = code
carried (x ∷ xs) code = e_noerror

module _ {A : Type 0} (check : A → ℕ) where
  carried_zero : (xs : List A) → carried xs e_noerror ≡ e_noerror
  carried_zero [] = refl
  carried_zero (x ∷ xs) = refl

  validate_many-Passes :
      (xs : List A) (code : ℕ)
      → Passes check xs
      → validate_many check (length xs) xs code ≡ ok (carried xs code)
  unfolding validate_many
  validate_many-Passes [] code pass = refl
  validate_many-Passes (x ∷ xs) code (h, pass) =
      ground (arith, validate_many-Passes xs e_noerror pass, carried_zero xs)

  -- A loop passes all, or returns early with a code that is an error.
  validate_many_cases :
      (xs : List A) (code : ℕ)
      → Passes check xs
        ⊎ ((c : ℕ) × (c ≢ e_noerror) × (validate_many check (length xs) xs code ≡ err c))
  unfolding validate_many
  validate_many_cases [] code = inl tt
  validate_many_cases (x ∷ xs) code = elim (Bool-cases (check x == e_noerror)) [
    | inl same ↦ elim (validate_many_cases xs e_noerror) [
      | inl pass ↦ inl (ground arith, pass)
      | inr (c, bad, e) ↦ inr (c, bad, ground arith)
    ]
    | inr other ↦ inr (check x, ground arith, ground arith)
  ]

pub record RecordsPass (pt : PacketType) (p : Packet) : Type 0 where
  pub questions : Passes (Question.validate pt) p.questions
  pub answers : Passes (Record.validate pt) p.answers
  pub authorities : Passes (Record.validate pt) p.authorities
  pub additionals : Passes (Record.validate pt) p.additionals

abbrev pub parts : Packet → ℕ
parts p = length p.questions + length p.answers + length p.authorities + length p.additionals

carried_lem :
    {A : Type 0} (xs : List A) (code : ℕ)
    → carried xs code ≡ (if length xs == 0 then code else e_noerror)
carried_lem [] code = refl
carried_lem (x ∷ xs) code = ground arith

module _ (pt : PacketType) (p : Packet) (counted : IsCounted p) where
  validate_records_passes :
      (code : ℕ)
      → RecordsPass pt p
      → validate_records pt p code ≡ ok (if parts p == 0 then code else e_noerror)
  unfolding validate_records
  validate_records_passes code pass =
      let c1 = carried p.questions code in
      let c2 = carried p.answers c1 in
      let c3 = carried p.authorities c2 in
      rw
        (
          counted.question_count,
          validate_many-Passes (Question.validate pt) p.questions code pass.questions,
          counted.answer_count,
          validate_many-Passes (Record.validate pt) p.answers c1 pass.answers,
          counted.authority_count,
          validate_many-Passes (Record.validate pt) p.authorities c2 pass.authorities,
          counted.additional_count,
          validate_many-Passes (Record.validate pt) p.additionals c3 pass.additionals,
        )
        (ground (
          arith,
          carried_lem p.questions code,
          carried_lem p.answers c1,
          carried_lem p.authorities c2,
          carried_lem p.additionals c3,
        ))

  validate_records_cases :
      (code : ℕ)
      → RecordsPass pt p ⊎ ((c : ℕ) × (c ≢ e_noerror) × (validate_records pt p code ≡ err c))
  unfolding validate_records
  validate_records_cases code =
      rw
        (
          counted.question_count, counted.answer_count, counted.authority_count,
          counted.additional_count,
        )
        (elim (validate_many_cases (Question.validate pt) p.questions code) [
          | inr (c, bad, e) ↦ inr (c, bad, rw e)
          | inl qs ↦
              rw (validate_many-Passes (Question.validate pt) p.questions code qs)
                (elim (validate_many_cases (Record.validate pt) p.answers c1) [
                  | inr (c, bad, e) ↦ inr (c, bad, rw e)
                  | inl ans ↦
                      rw (validate_many-Passes (Record.validate pt) p.answers c1 ans)
                        (elim (validate_many_cases (Record.validate pt) p.authorities c2) [
                          | inr (c, bad, e) ↦ inr (c, bad, rw e)
                          | inl aut ↦
                              rw (validate_many-Passes (Record.validate pt) p.authorities c2 aut)
                                (elim (validate_many_cases (Record.validate pt) p.additionals c3) [
                                  | inr (c, bad, e) ↦ inr (c, bad, e)
                                  | inl add ↦ inl (record {
                                    questions = qs;
                                    answers = ans;
                                    authorities = aut;
                                    additionals = add;
                                  })
                                ])
                        ])
                ])
        ])
    where
      c1 : ℕ
      c1 = carried p.questions code

      c2 : ℕ
      c2 = carried p.answers c1

      c3 : ℕ
      c3 = carried p.authorities c2

  -- An incoming packet whose header counts its parts passes Validate exactly if the header
  -- check finds nothing, or it finds something and there is a part, every part passes and
  -- there is at most one OPT record.
  pub validate_lem :
      is_incoming pt ≡ true
      → (validate pt p ≡ ok e_noerror) ↔ (
          (Header.validate pt p.header ≡ e_noerror)
          ⊎ (RecordsPass pt p × (1 ≤ parts p) × (opts p.additionals ≤ 1)))
  unfolding validate
  validate_lem incoming = (accepted, accepts)
    where
      code : ℕ
      code = Header.validate pt p.header

      opts_here : count_opt p.header.additional_count p.additionals ≡ ok (opts p.additionals)
      opts_here = rw counted.additional_count (count_opt-opts p.additionals)

      accepted :
          validate pt p ≡ ok e_noerror
          → (code ≡ e_noerror) ⊎ (RecordsPass pt p × (1 ≤ parts p) × (opts p.additionals ≤ 1))
      accepted e = elim (Bool-cases (code == e_noerror)) [
        | inl fine ↦ inl (ground arith)
        | inr wrong ↦ elim (validate_records_cases code) [
          | inl pass ↦ inr (
            pass,
            ground (arith, validate_records_passes code pass, opts_here),
            ground (arith, validate_records_passes code pass, opts_here),
          )
          | inr (c, bad, f) ↦ ground (arith, f, bad)
        ]
      ]

      accepts :
          (code ≡ e_noerror) ⊎ (RecordsPass pt p × (1 ≤ parts p) × (opts p.additionals ≤ 1))
          → validate pt p ≡ ok e_noerror
      accepts (inl fine) = ground arith
      accepts (inr (pass, some_part, few)) =
          ground (arith, validate_records_passes code pass, opts_here)
