-- ===== src/Net/Frame.antt =====
-- src/net/packet.cpp: `InPacket::Read`, which takes the addresses and ports out of an Ethernet frame
-- that a raw socket gives.
pub mod Safety
use dns_wrapper.Common.{
  ℕ, zero, suc, ◌+◌, ◌-◌, ◌*◌, ◌/◌, ◌%◌, ◌^◌, bit_and, Bool, true, false, ◌||◌, ◌==◌, ◌!=◌, ltb,
  if◌then◌else◌, List, [], ◌∷◌, ◌++◌, ok,
}
use dns_wrapper.Net.Buffer.{
  Action, ◌>>=◌, ◌>>◌, pure, raise, read_byte, peek_byte, advance, vread_u8, vread_u16, vread_u32,
  EthAddress, IpAddress, e_formerr, e_notimp,
}

abbrev pub eth_p_ip : ℕ
eth_p_ip = 0x0800

abbrev pub eth_p_ipv6 : ℕ
eth_p_ipv6 = 0x86dd

abbrev pub eth_p_8021q : ℕ
eth_p_8021q = 0x8100

abbrev pub eth_p_8021ad : ℕ
eth_p_8021ad = 0x88a8

abbrev pub ipproto_udp : ℕ
ipproto_udp = 17

-- `InPacket`; of an address union, the bytes that `Read` writes.
pub record InPacket : Type 0 where
  pub eth_destination : EthAddress
  pub eth_source : EthAddress
  pub eth_protocol : ℕ
  pub ipv4 : Bool
  pub ip_source : IpAddress
  pub ip_destination : IpAddress
  pub ip_protocol : ℕ
  pub source_port : ℕ
  pub destination_port : ℕ

unfoldable pub is_vlan : ℕ → Bool
is_vlan protocol = protocol == eth_p_8021q || protocol == eth_p_8021ad

-- A check of `bpb->size`, and the action behind it.
abbrev within : {A : Type 0} → ℕ → Action A → Action A
within n k b = if ltb b.size (b.pos + n) then raise e_formerr b else k b

-- `std::copy` of `n` bytes, and the step over them.
unfoldable pub read_bytes : ℕ → Action (List ℕ)
read_bytes zero = pure []
read_bytes (suc n) = do x ← read_byte; xs ← read_bytes n; pure (x ∷ xs)

-- The loop over the VLAN headers, by the rounds left.
unfoldable pub skip_vlans : ℕ → ℕ → Action ℕ
skip_vlans zero protocol = pure protocol
skip_vlans (suc n) protocol =
    if is_vlan protocol
    then within 4 (do advance 2; inner ← vread_u16; skip_vlans n inner)
    else pure protocol

-- `VREAD_U32` and `ntohl`: the four bytes as the frame has them.
unfoldable pub read_word : Action (List ℕ)
read_word = do v ← vread_u32; pure (v / 2 ^ 24 ∷ v / 2 ^ 16 % 256 ∷ v / 2 ^ 8 % 256 ∷ v % 256 ∷ [])

unfoldable pub read_words : ℕ → Action (List ℕ)
unfolding read_word
read_words zero = pure []
read_words (suc n) = do w ← read_word; ws ← read_words n; pure (w ++ ws)

-- What the IP header gives: its addresses and its protocol.
pub record IpHeader : Type 0 where
  pub ipv4 : Bool
  pub source : IpAddress
  pub destination : IpAddress
  pub protocol : ℕ

unfoldable pub read_ipv4_fields : ℕ → Action IpHeader
unfolding read_words
read_ipv4_fields header_size = do
  advance 9
  protocol ← vread_u8
  advance 2
  source ← read_words 1
  destination ← read_words 1
  advance (header_size - 20)
  pure (record { ipv4 = true; source = source; destination = destination; protocol = protocol })

unfoldable pub read_ipv4 : Action IpHeader
unfolding read_ipv4_fields
read_ipv4 = within 20 (do
  first ← peek_byte 0
  let header_size : ℕ = bit_and first 0x0f * 4
  if bit_and first 0xf0 != 0x40 || ltb header_size 20
      then raise e_formerr
      else within header_size (read_ipv4_fields header_size))

unfoldable pub read_ipv6 : Action IpHeader
unfolding read_words
read_ipv6 = within 40 (do
  advance 6
  protocol ← vread_u8
  advance 1
  source ← read_words 4
  destination ← read_words 4
  pure (record { ipv4 = false; source = source; destination = destination; protocol = protocol }))

unfoldable pub read_ip : ℕ → Action IpHeader
unfolding read_ipv4 read_ipv6
read_ip protocol =
    if protocol == eth_p_ip
    then read_ipv4
    else if protocol == eth_p_ipv6
    then read_ipv6
    else raise e_notimp

-- The UDP header; the buffer's `udp` is the datagram's length.
unfoldable pub read_udp : Action (ℕ × ℕ)
read_udp = within 8 (do
  source ← vread_u16
  destination ← vread_u16
  n ← vread_u16
  λ b. ok ((source, destination), record b { pos = b.pos + 2; udp = n }))

-- `InPacket::Read`
unfoldable pub read : Action InPacket
unfolding read_bytes skip_vlans read_ip read_udp
read = within 14 (do
  eth_destination ← read_bytes 6
  eth_source ← read_bytes 6
  outer ← vread_u16
  eth_protocol ← skip_vlans 2 outer
  ip ← read_ip eth_protocol
  (source_port, destination_port) ←
      (if ip.protocol == ipproto_udp then read_udp else raise e_notimp)
  pure (record {
    eth_destination = eth_destination;
    eth_source = eth_source;
    eth_protocol = eth_protocol;
    ipv4 = ip.ipv4;
    ip_source = ip.source;
    ip_destination = ip.destination;
    ip_protocol = ip.protocol;
    source_port = source_port;
    destination_port = destination_port;
  }))
