-- ===== src/Dns/Record.antt =====
-- include/dns/dnsrecord.hpp and src/dns/dnsrecord.cpp: resource records.
pub mod Codec
use dns_wrapper.Common.{
  ℕ, zero, suc, ◌/◌, ◌^◌, ◌+◌, bit_and, Bool, ◌==◌, ◌!=◌, ltb, if◌then◌else◌, List, [], ◌∷◌, fault,
}
use dns_wrapper.Net.Buffer.{
  Action, ◌>>=◌, ◌>>◌, pure, raise, vread_u8, vread_u16, vread_u32, write_u16, write_u32, e_noerror,
  e_formerr, e_servfail,
}
use dns_wrapper.Dns.Header.{PacketType, qt_a, qt_ns, qt_cname, qt_mx, qt_aaaa, qt_opt}
use dns_wrapper.Dns.Question
use dns_wrapper.Dns.Question.{Question, read_label, write_label, c_string}

-- `DnsRecordType`
pub data Section : Type 0 where
  answer authority additional : Section

-- The union `Address`, by the member that was written last; `zeroed` is the union of a record that
-- `make_unique` has made.
pub data Address : Type 0 where
  zeroed : Address
  ipv4 : ℕ → Address
  ns cname : List ℕ → Address
  mail_exchange : ℕ → List ℕ → Address
  ipv6 : ℕ → ℕ → ℕ → ℕ → Address
  opt : List ℕ → Address

-- `DnsRecord` extends `DnsQuestion`. `UdpSize` is a reference to `Class`, so it is no field here.
pub record Record : Type 0 where
  pub question : Question
  pub open question use *
  pub section : Section
  pub ttl : ℕ
  pub len : ℕ
  pub address : Address

unfoldable pub get_extended_rcode : Record → ℕ
get_extended_rcode r = r.ttl / 2 ^ 24

unfoldable pub get_do_bit : Record → Bool
get_do_bit r = ltb 1 (bit_and r.ttl 0x8000)

unfoldable pub get_ad_bit : Record → Bool
get_ad_bit r = ltb 1 (bit_and r.ttl 0x2000)

-- A record as `make_unique` makes it.
unfoldable pub blank : Record
blank = record {
  question = record { start = 0; name = []; type = 0; class = 0 };
  section = answer;
  ttl = 0;
  len = 0;
  address = zeroed;
}

unfoldable pub update_from_question : Question → Record → Record
update_from_question q r = record r { question = record q { name = c_string q.name } }

-- `for (int i = 0; i < Len; i++) VREAD_BYTE(Address.Opt.octet[i], bpb);`
unfoldable pub read_octets : ℕ → Action (List ℕ)
read_octets zero = pure []
read_octets (suc n) = do x ← vread_u8; xs ← read_octets n; pure (x ∷ xs)

-- The OPT case of `Read`.
unfoldable pub read_opt : Record → Action Record
unfolding read_octets
read_opt r = elim r.section [
  | additional ↦ do octets ← read_octets r.len; pure (record r { address = opt octets })
  | _ ↦ raise e_formerr
]

-- `ReadLabel` sets `Start`.
abbrev restart : ℕ → Record → Record
restart s r = record r { question = record r.question { start = s } }

-- The switch of `Read`, on a record whose fixed fields are read.
unfoldable pub read_address : Record → Action Record
unfolding read_opt
read_address r =
    if r.type == qt_a
    then (do n ← vread_u32; pure (record r { address = ipv4 n }))
    else if r.type == qt_ns
    then (do (s, n) ← read_label; pure (record (restart s r) { address = ns n }))
    else if r.type == qt_cname
    then (do (s, n) ← read_label; pure (record (restart s r) { address = cname n }))
    else if r.type == qt_mx
    then (do
      p ← vread_u16
      (s, n) ← read_label
      pure (record (restart s r) { address = mail_exchange p n }))
    else if r.type == qt_aaaa
    then (do
      n1 ← vread_u32
      n2 ← vread_u32
      n3 ← vread_u32
      n4 ← vread_u32
      pure (record r { address = ipv6 n1 n2 n3 n4 }))
    else if r.type == qt_opt
    then read_opt r
    else raise e_servfail

-- `section` is what `RecordType` was set to before the call.
unfoldable pub read : Section → Action Record
unfolding read_address
read section = do
  q ← Question.read
  ttl ← vread_u32
  len ← vread_u16
  read_address (record { question = q; section = section; ttl = ttl; len = len; address = zeroed })

unfoldable pub validate_length : Record → ℕ
validate_length r =
    if r.type == qt_a
    then (if r.len != 4 then e_formerr else e_noerror)
    else if r.type == qt_aaaa
    then (if r.len != 16 then e_formerr else e_noerror)
    else e_noerror

unfoldable pub validate : PacketType → Record → ℕ
unfolding validate_length
validate pt r =
    let code = Question.validate pt r.question in
    if code != e_noerror then code else validate_length r

-- What `Write` reads from the union. To read another member than the one written last is
-- `fault`: the program has undefined behaviour there.
unfoldable pub write_ipv4 : Address → Action (Unit {0})
write_ipv4 zeroed = write_u32 0
write_ipv4 (ipv4 n) = write_u32 n
write_ipv4 _ = λ b. fault

unfoldable pub write_ns : Address → Action (Unit {0})
write_ns zeroed = write_label []
write_ns (ns n) = write_label n
write_ns _ = λ b. fault

unfoldable pub write_cname : Address → Action (Unit {0})
write_cname zeroed = write_label []
write_cname (cname n) = write_label n
write_cname _ = λ b. fault

unfoldable pub write_mx : Address → Action (Unit {0})
write_mx zeroed = do write_u16 0; write_label []
write_mx (mail_exchange p n) = do write_u16 p; write_label n
write_mx _ = λ b. fault

unfoldable pub write_ipv6 : Address → Action (Unit {0})
write_ipv6 zeroed = do write_u32 0; write_u32 0; write_u32 0; write_u32 0
write_ipv6 (ipv6 n1 n2 n3 n4) = do write_u32 n1; write_u32 n2; write_u32 n3; write_u32 n4
write_ipv6 _ = λ b. fault

-- The switch of `Write`, which has no case for OPT: its octets are not written.
unfoldable pub write_address : Record → Action (Unit {0})
unfolding write_ipv4 write_ns write_cname write_mx write_ipv6
write_address r =
    if r.type == qt_a
    then write_ipv4 r.address
    else if r.type == qt_ns
    then write_ns r.address
    else if r.type == qt_cname
    then write_cname r.address
    else if r.type == qt_mx
    then write_mx r.address
    else if r.type == qt_aaaa
    then write_ipv6 r.address
    else pure tt

unfoldable pub write : Record → Action (Unit {0})
unfolding write_address
write r = do Question.write r.question; write_u32 r.ttl; write_u16 r.len; write_address r
