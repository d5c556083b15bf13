-- ===== src/Server/Known.antt =====
-- A client's MAC address on its way from a raw frame to the rules (src/dns/server.cpp).
use mathlib.Core.Option.{some-ne-none}
use dns_wrapper.Common.{
  ℕ, ◌+◌, ◌≤◌, ◌<◌, ◌≡◌, refl, sym, ◌∙◌, true, false, List, ok, inl, inr, arith, ltb, leb, ◌!=◌,
  bit_and, length, none, take,
}
use dns_wrapper.Net.Buffer.{Buffer, EthAddress, e_noerror}
use dns_wrapper.Net.Frame
use dns_wrapper.Net.Frame.{InPacket}
use dns_wrapper.Dns.Header.{incoming_request}
use dns_wrapper.Dns.Packet
use dns_wrapper.Dns.Packet.{Packet}
use dns_wrapper.Rule.Layout.Image.{StoredRule}
use dns_wrapper.Rule.Evaluate.Decide.{decide, evaluate_lem}
use dns_wrapper.Rule.Shm.Edit.{Encodes}
use dns_wrapper.Bookkeeping.Mappings.{add, look_up}
use dns_wrapper.Bookkeeping.Mappings.Table.{IsTable}
use dns_wrapper.Bookkeeping.Mappings.Found.{look_up-take, look_up-add}
use dns_wrapper.Server.{Platform, Server}
use dns_wrapper.Server.Receive.{carry_out, known_mac, process_request, receive_raw}

-- A frame that shows a client: it reads as a UDP packet to the server's port, and goes on with a
-- message that is no response.
pub record Shows (dns_port : ℕ) (b : Buffer) (packet : InPacket) : Type 0 where
  pub rest : Buffer
  pub reads : Frame.read b ≡ ok (packet, rest)
  pub to_us : packet.destination_port ≡ dns_port
  pub long : rest.pos + 2 ≤ rest.size
  pub inside : rest.pos + 2 < rest.cap
  pub query : (bit_and (rest.mem (rest.pos + 2)) 0x80 != 0) ≡ false

module _ {E : Type 0} (platform : Platform E) where
  receive_raw-Shows :
      (dns_port now : ℕ) (b : Buffer) (packet : InPacket) (s : Server E)
      → Shows dns_port b packet
      → receive_raw platform dns_port now true b s
        ≡ ok
            (record s { mappings = (add packet.eth_source true packet.ip_source now s.mappings).1 })
  unfolding receive_raw
  receive_raw-Shows dns_port now b packet s shows =
      let port : (packet.destination_port != dns_port) ≡ false = ground (arith, shows.to_us) in
      let long : ltb shows.rest.size (shows.rest.pos + 2) ≡ false = ground (arith, shows.long) in
      let inside : leb shows.rest.cap (shows.rest.pos + 2) ≡ false = ground (arith, shows.inside) in
      rw (receive_raw, shows.reads) (rw port (rw long (rw inside (rw (shows.query) refl))))

  -- A valid request is decided by the MAC address of its mapping.
  process_request-known :
      (fuel now : ℕ) (p : Packet) (endpoint : E) (s : Server E) (rs : List StoredRule)
      (mac : EthAddress)
      → Encodes s.rules rs
      → Packet.validate incoming_request p ≡ ok e_noerror
      → known_mac platform (platform.address endpoint) true s.mappings ≡ mac
      → process_request platform fuel now p endpoint true s
        ≡ carry_out platform fuel now p endpoint true s (
            decide
              (record { ipv4 = true; ethaddr = mac; ipaddr = platform.address endpoint })
              s.rules.policy
              rs)
  unfolding process_request
  process_request-known fuel now p endpoint s rs mac enc valid known =
      rw (process_request, valid, known)
        (rw
          (evaluate_lem (record { ipv4 = true; ethaddr = mac; ipaddr = platform.address endpoint })
            s.rules rs enc)
          refl)

  -- A frame that reads as UDP to the port of the server with a query behind it, from an IPv4
  -- address that no mapping has, to a table in bounds that takes it: a valid request that
  -- comes next from this address is handled as the first rule of the list in the block
  -- decides that applies to the MAC address of the frame and the IP address of the request,
  -- or the policy if none applies.
  pub process_request-receive_raw :
      (dns_port fuel seen now : ℕ) (b : Buffer) (packet : InPacket) (p : Packet) (endpoint : E)
      (s : Server E) (rs : List StoredRule)
      → Shows dns_port b packet
      → take 4 packet.ip_source ≡ take 4 (platform.address endpoint)
      → 4 ≤ length packet.ip_source
      → IsTable s.mappings
      → look_up packet.ip_source true s.mappings ≡ none
      → (add packet.eth_source true packet.ip_source seen s.mappings).0 ≡ true
      → Encodes s.rules rs
      → Packet.validate incoming_request p ≡ ok e_noerror
      → (s' : Server E) × (receive_raw platform dns_port seen true b s ≡ ok s')
        × (process_request platform fuel now p endpoint true s'
            ≡ carry_out platform fuel now p endpoint true s' (
                decide
                  (record {
                    ipv4 = true;
                    ethaddr = packet.eth_source;
                    ipaddr = platform.address endpoint;
                  })
                  s.rules.policy
                  rs))
  process_request-receive_raw dns_port fuel seen now b packet p endpoint s rs shows same long table
        new added enc valid =
      let s' : Server E = record s {
        mappings = (add packet.eth_source true packet.ip_source seen s.mappings).1;
      } in
      let (r, found, whose) =
        look_up-add packet.eth_source true packet.ip_source seen long s.mappings table added in
      let mac : r.ethaddress ≡ packet.eth_source = elim whose [
        | inl (this, time) ↦ this
        | inr before ↦ absurd (some-ne-none _ (sym before ∙ new))
      ] in
      let known : known_mac platform (platform.address endpoint) true s'.mappings
          ≡ packet.eth_source =
        rw
          (
            known_mac,
            sym (look_up-take packet.ip_source (platform.address endpoint) s'.mappings same),
            found,
          )
          mac in
      (
        s',
        receive_raw-Shows dns_port seen b packet s shows,
        process_request-known fuel now p endpoint s' rs packet.eth_source enc valid known,
      )
