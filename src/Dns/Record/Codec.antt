-- ===== src/Dns/Record/Codec.antt =====
-- A record that was written reads back.
use dns_wrapper.Common.{ℕ, ◌+◌, ◌^◌, ◌<◌, List, ◌++◌, length, arith}
use dns_wrapper.Net.Buffer.Laws.{u16_bytes, u32_bytes}
use dns_wrapper.Net.Buffer.Codec.{
  Writes, Reads, Writes-then, Reads-then, write_u16-Writes, write_u32-Writes, vread_u16-Reads,
  vread_u32-Reads, pure-Reads, Reads-map,
}
use dns_wrapper.Dns.Header.{qt_a, qt_ns, qt_cname, qt_mx, qt_aaaa}
use dns_wrapper.Dns.Question.Labels.{Labels, IsName, wire, dotted}
use dns_wrapper.Dns.Question.Codec.{question, question_bytes, write_label-Writes, read_label-Reads}
use dns_wrapper.Dns.Question.Codec
use dns_wrapper.Dns.Record.{
  Record, Section, Address, ipv4, ns, cname, mail_exchange, ipv6, zeroed, read, read_address, write,
  write_address,
}

-- The data of a record, with its names as labels.
pub data Content : Type 0 where
  a : ℕ → Content
  ns_of cname_of : Labels → Content
  mx_of : ℕ → Labels → Content
  aaaa : ℕ → ℕ → ℕ → ℕ → Content

abbrev pub type_of : Content → ℕ
type_of (a n) = qt_a
type_of (ns_of ls) = qt_ns
type_of (cname_of ls) = qt_cname
type_of (mx_of p ls) = qt_mx
type_of (aaaa n1 n2 n3 n4) = qt_aaaa

abbrev pub address_of : Content → Address
address_of (a n) = ipv4 n
address_of (ns_of ls) = ns (dotted ls)
address_of (cname_of ls) = cname (dotted ls)
address_of (mx_of p ls) = mail_exchange p (dotted ls)
address_of (aaaa n1 n2 n3 n4) = ipv6 n1 n2 n3 n4

abbrev pub content_bytes : Content → List ℕ
content_bytes (a n) = u32_bytes n
content_bytes (ns_of ls) = wire ls
content_bytes (cname_of ls) = wire ls
content_bytes (mx_of p ls) = u16_bytes p ++ wire ls
content_bytes (aaaa n1 n2 n3 n4) = u32_bytes n1 ++ (u32_bytes n2 ++ (u32_bytes n3 ++ u32_bytes n4))

abbrev pub IsContent : Content → Type 0
IsContent (a n) = n < 2 ^ 32
IsContent (ns_of ls) = IsName ls
IsContent (cname_of ls) = IsName ls
IsContent (mx_of p ls) = (p < 2 ^ 16) × IsName ls
IsContent (aaaa n1 n2 n3 n4) = (n1 < 2 ^ 32) × (n2 < 2 ^ 32) × (n3 < 2 ^ 32) × (n4 < 2 ^ 32)

-- A record in terms of names as labels.
pub record Entry : Type 0 where
  pub owner : Labels
  pub content : Content
  pub class : ℕ
  pub ttl : ℕ
  pub len : ℕ

pub record IsEntry (e : Entry) : Type 0 where
  pub named : IsName e.owner
  pub filled : IsContent e.content
  pub class_fits : e.class < 2 ^ 16
  pub ttl_fits : e.ttl < 2 ^ 32
  pub len_fits : e.len < 2 ^ 16

-- Its record in a section, with `Start` as given.
abbrev pub record_of : Section → Entry → ℕ → Record
record_of section e start = record {
  question = record {
    start = start;
    name = dotted e.owner;
    type = type_of e.content;
    class = e.class;
  };
  section = section;
  ttl = e.ttl;
  len = e.len;
  address = address_of e.content;
}

abbrev pub entry_bytes : Entry → List ℕ
entry_bytes e =
    question_bytes e.owner (type_of e.content) e.class
    ++ (u32_bytes e.ttl ++ (u16_bytes e.len ++ content_bytes e.content))

-- `Start` after `Read`, for an owner's name at `p` and data at `q`: where the last name began.
abbrev pub start_of : Content → ℕ → ℕ → ℕ
start_of (a n) p q = p
start_of (ns_of ls) p q = q
start_of (cname_of ls) p q = q
start_of (mx_of n ls) p q = q + 2
start_of (aaaa n1 n2 n3 n4) p q = p

type_fits : (c : Content) → type_of c < 2 ^ 16
type_fits (a n) = omega arith
type_fits (ns_of ls) = omega arith
type_fits (cname_of ls) = omega arith
type_fits (mx_of p ls) = omega arith
type_fits (aaaa n1 n2 n3 n4) = omega arith

module _ (section : Section) where
  content-Writes :
      (owner : Labels) (c : Content) (class ttl len start : ℕ)
      → IsContent c
      → Writes
          (write_address (
            record_of section
              (record { owner = owner; content = c; class = class; ttl = ttl; len = len })
              start))
          (content_bytes c)
  unfolding write_address
  content-Writes owner (a n) class ttl len start good = write_u32-Writes n
  content-Writes owner (ns_of ls) class ttl len start good = write_label-Writes ls good
  content-Writes owner (cname_of ls) class ttl len start good = write_label-Writes ls good
  content-Writes owner (mx_of p ls) class ttl len start (hp, good) =
      Writes-then (write_u16-Writes p) (write_label-Writes ls good)
  content-Writes owner (aaaa n1 n2 n3 n4) class ttl len start good =
      Writes-then (write_u32-Writes n1) (
        Writes-then (write_u32-Writes n2) (Writes-then (write_u32-Writes n3) (write_u32-Writes n4)))

  pub write-Writes :
      (e : Entry) (start : ℕ)
      → IsEntry e
      → Writes (write (record_of section e start)) (entry_bytes e)
  unfolding write
  write-Writes e start good =
      Writes-then (Codec.write-Writes e.owner (type_of e.content) e.class start good.named) (
        Writes-then (write_u32-Writes e.ttl) (
          Writes-then (write_u16-Writes e.len)
            (content-Writes e.owner e.content e.class e.ttl e.len start good.filled)))

  content-Reads :
      (owner : Labels) (c : Content) (class ttl len start : ℕ)
      → IsContent c
      → let e : Entry = record {
        owner = owner;
        content = c;
        class = class;
        ttl = ttl;
        len = len;
      } in
        Reads
          (read_address (record (record_of section e start) { address = zeroed }))
          (content_bytes c)
          (λ q. record_of section e (start_of c start q))
  unfolding read_address
  content-Reads owner (a n) class ttl len start good =
      Reads-then _ _ (vread_u32-Reads n good) λ p. pure-Reads _
  content-Reads owner (ns_of ls) class ttl len start good = Reads-map _ (read_label-Reads ls good)
  content-Reads owner (cname_of ls) class ttl len start good =
      Reads-map _ (read_label-Reads ls good)
  content-Reads owner (mx_of n ls) class ttl len start (hn, good) =
      Reads-then _ _ (vread_u16-Reads n hn) λ p. Reads-map _ (read_label-Reads ls good)
  content-Reads owner (aaaa n1 n2 n3 n4) class ttl len start (h1, h2, h3, h4) =
      Reads-then _ _ (vread_u32-Reads n1 h1) λ p. Reads-then _ _ (vread_u32-Reads n2 h2) λ q.
        Reads-then _ _ (vread_u32-Reads n3 h3)
          λ r. Reads-then _ _ (vread_u32-Reads n4 h4) λ s. pure-Reads _

  pub read-Reads :
      (e : Entry)
      → IsEntry e
      → Reads (read section) (entry_bytes e) (λ p. record_of section e (
          start_of e.content p
            (p + length (question_bytes e.owner (type_of e.content) e.class) + 4 + 2)))
  unfolding read
  read-Reads e good =
      Reads-then _ (λ p q. record_of section e (start_of e.content p (q + 4 + 2)))
        (Codec.read-Reads e.owner (type_of e.content) e.class good.named (type_fits e.content)
          good.class_fits)
        λ p.
          Reads-then _ (λ q r. record_of section e (start_of e.content p (r + 2)))
            (vread_u32-Reads e.ttl good.ttl_fits)
            λ q.
              Reads-then _ (λ r s. record_of section e (start_of e.content p s))
                (vread_u16-Reads e.len good.len_fits)
                λ r. content-Reads e.owner e.content e.class e.ttl e.len p good.filled
