-- ===== src/Net/Buffer.antt =====
-- include/net/netcommon.h: `PacketBuffer<N>` with the macros that read and write through it, the
-- response codes, and the two address unions.
pub mod Laws
pub mod Codec
use dns_wrapper.Common.{
  ℕ, suc, ◌+◌, ◌*◌, ◌/◌, ◌%◌, ◌^◌, Bool, List, Result, ok, err, fault, bind, ltb, if◌then◌else◌,
}
use dns_wrapper.Common.Memory.{Memory, update}

abbrev pub e_noerror : ℕ
e_noerror = 0

abbrev pub e_formerr : ℕ
e_formerr = 1

abbrev pub e_servfail : ℕ
e_servfail = 2

abbrev pub e_notimp : ℕ
e_notimp = 4

abbrev pub e_refused : ℕ
e_refused = 5

-- `maxdname` is the size of the array that holds a name.
abbrev pub maxdname : ℕ
maxdname = 1025

-- EDNS_PKTSZ + MAXDNAME + RRFIXEDSZ
abbrev pub max_packet_sz : ℕ
max_packet_sz = 1232 + maxdname + 10

-- `mem` is the array `buf`, of which the offsets below `cap` (the template's N) exist.
pub record Buffer : Type 0 where
  pub mem : Memory
  pub cap : ℕ
  pub pos : ℕ
  pub size : ℕ
  pub udp : ℕ

-- `BytePacketBuffer` as it is declared: `buf{}`, `pos{0}`, `size{0}`, `udp{0}`.
unfoldable pub fresh : ℕ → Buffer
fresh n = record { mem = λ i. 0; cap = n; pos = 0; size = 0; udp = 0 }

abbrev pub Action : Type 0 → Type 0
Action A = Buffer → Result (A × Buffer)

infixl 5 ◌>>=◌ ◌>>◌
abbrev pub ◌>>=◌ : {A B : Type 0} → Action A → (A → Action B) → Action B
◌>>=◌ m f b = bind (m b) λ (a, b'). f a b'

abbrev pub ◌>>◌ : {A B : Type 0} → Action A → Action B → Action B
◌>>◌ m k b = bind (m b) λ (a, b'). k b'

abbrev pub pure : {A : Type 0} → A → Action A
pure a b = ok (a, b)

abbrev pub raise : {A : Type 0} → ℕ → Action A
raise e b = err e

-- `_VALIDATE`
unfoldable pub validate : ℕ → Action (Unit {0})
validate n b = if ltb b.size (b.pos + n) then err e_formerr else ok (tt, b)

-- `PEEK_BYTE`
unfoldable pub peek_byte : ℕ → Action ℕ
peek_byte i b = if ltb (b.pos + i) b.cap then ok (b.mem (b.pos + i), b) else fault

-- `bb->pos += n`
unfoldable pub advance : ℕ → Action (Unit {0})
advance n b = ok (tt, record b { pos = b.pos + n })

-- `bpb->pos = p`
unfoldable pub seek : ℕ → Action (Unit {0})
seek p b = ok (tt, record b { pos = p })

-- `READ_BYTE`
unfoldable pub read_byte : Action ℕ
unfolding peek_byte advance
read_byte = do v ← peek_byte 0; advance 1; pure v

-- `READ_U16`; the array holds bytes, so `|` of the shifted bytes is their sum.
unfoldable pub read_u16 : Action ℕ
unfolding peek_byte advance
read_u16 = do hi ← peek_byte 0; lo ← peek_byte 1; advance 2; pure (hi * 256 + lo)

-- `READ_U32`
unfoldable pub read_u32 : Action ℕ
unfolding peek_byte advance
read_u32 = do
  a ← peek_byte 0
  b ← peek_byte 1
  c ← peek_byte 2
  d ← peek_byte 3
  advance 4
  pure (((a * 256 + b) * 256 + c) * 256 + d)

-- `VREAD_BYTE` and `VREAD_U8`
unfoldable pub vread_u8 : Action ℕ
unfolding validate read_byte
vread_u8 = do validate 1; read_byte

unfoldable pub vread_u16 : Action ℕ
unfolding validate read_u16
vread_u16 = do validate 2; read_u16

-- `VREAD_U32` asks for two bytes and reads four.
unfoldable pub vread_u32 : Action ℕ
unfolding validate read_u32
vread_u32 = do validate 2; read_u32

-- An assignment to `buf[i]`.
unfoldable pub poke : ℕ → ℕ → Action (Unit {0})
poke i v b = if ltb i b.cap then ok (tt, record b { mem = update b.mem i (v % 256) }) else fault

-- `WRITE_BYTE` and `WRITE_U8`
unfoldable pub write_byte : ℕ → Action (Unit {0})
write_byte v b =
    if ltb b.pos b.cap
    then ok (tt, record b { mem = update b.mem b.pos (v % 256); pos = suc b.pos })
    else fault

-- `WRITE_U16`
unfoldable pub write_u16 : ℕ → Action (Unit {0})
write_u16 v = do write_byte (v / 256); write_byte v

-- `WRITE_U32`
unfoldable pub write_u32 : ℕ → Action (Unit {0})
write_u32 v = do
  write_byte (v / 2 ^ 24)
  write_byte (v / 2 ^ 16)
  write_byte (v / 2 ^ 8)
  write_byte v

-- `union EthAddress`: its six bytes.
abbrev pub EthAddress : Type 0
EthAddress = List ℕ

-- `union IpAddress`: its sixteen bytes, as memory holds them.
abbrev pub IpAddress : Type 0
IpAddress = List ℕ
