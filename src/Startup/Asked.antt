-- ===== src/Startup/Asked.antt =====
-- The servers of the configuration are those that the started program asks (src/dns/server.cpp).
use mathlib.Core.Option.{some-ne-none}
use dns_wrapper.Common.{
  ℕ, suc, ◌+◌, ◌≤◌, ◌≡◌, refl, sym, ap, ◌∙◌, Bool, List, [], ◌∷◌, map, length, ok, arith, All,
}
use dns_wrapper.Dns.Packet.{Packet, set_id}
use dns_wrapper.Rule.Layout.{RuleData}
use dns_wrapper.Text.{returned}
use dns_wrapper.Parser.{Locals}
use dns_wrapper.Server.{Platform, Datagram, Server, Upstream}
use dns_wrapper.Server.Resolve.{resolve_new}
use dns_wrapper.Server.Route.{IsWritten, to_upstream}
use dns_wrapper.Server.Asking.{resolve_new_lem}
use dns_wrapper.Startup.{UpstreamServer, init_upstream_servers, is_ipv4, new_upstream}
use dns_wrapper.Startup.Run.{Host, new_server}
use dns_wrapper.Startup.Upstreams.{IsConverted, udp_only, init_upstream_servers_lem}

module _ {E : Type 0} (host : Host E) (platform : Platform E) (endpoint : UpstreamServer → E) where
  -- A datagram to a server of the configuration.
  abbrev pub to_server : List ℕ → UpstreamServer → Datagram E
  to_server bytes u = record {
    ipv4 = is_ipv4 u.protocol_version;
    endpoint = endpoint u;
    bytes = bytes;
  }

  datagrams_lem :
      (bytes : List ℕ) (us : List UpstreamServer)
      → map
          (to_upstream platform bytes)
          (map (λ u. new_upstream (endpoint u) (is_ipv4 u.protocol_version)) us)
        ≡ map (to_server bytes) us
  datagrams_lem bytes [] = refl
  datagrams_lem bytes (u ∷ us) = ap (λ xs. to_server bytes u ∷ xs) (datagrams_lem bytes us)

  length-map : {A B : Type 0} (f : A → B) (xs : List A) → length (map f xs) ≡ length xs
  length-map f [] = refl
  length-map f (x ∷ xs) = ap suc (length-map f xs)

  -- Where the addresses of the servers of the configuration are converted and one of them is
  -- over UDP, initUpstreamServers returns; a server just started with what it returns sends a
  -- first new request that can be written, under the first identifier that is drawn, to the
  -- servers of the configuration that are over UDP, each with its own address, in their
  -- order, and to nobody else.
  pub resolve_new-init_upstream_servers :
      (fuel now : ℕ) (l : Locals) (d : RuleData) (us : List UpstreamServer) (digest : List ℕ)
      (p : Packet) (bytes : ℕ → List ℕ) (client : E) (ipv4 : Bool)
      → All (IsConverted host.make_endpoint host.library endpoint) us
      → 1 ≤ length (udp_only us)
      → ((id : ℕ) → IsWritten platform (set_id id p) (bytes id))
      → (servers : List (Upstream E)) × (s' : Server E) × (init_upstream_servers host.make_endpoint
            host.library us
          ≡ returned servers)
        × (resolve_new platform
              (suc fuel)
              now
              digest
              p
              client
              ipv4
              (new_server host fuel l servers d)
            ≡ ok s')
        × (s'.sent ≡ map (to_server (bytes (platform.draw 0))) (udp_only us))
  resolve_new-init_upstream_servers fuel now l d us digest p bytes client ipv4 converted some w =
      let servers : List (Upstream E) =
        map (λ u. new_upstream (endpoint u) (is_ipv4 u.protocol_version)) (udp_only us) in
      let (s', i, j, le, runs, sent, waits, unique) =
        resolve_new_lem platform (suc fuel) 0 now digest p bytes client ipv4
          (new_server host fuel l servers d)
          (omega (
            arith,
            some,
            length-map
                (λ (u : UpstreamServer). new_upstream (endpoint u) (is_ipv4 u.protocol_version))
                (udp_only us),
          ))
          (omega arith) (omega arith) tt
          (λ j k r q ej ek ur uq same. absurd (some-ne-none _ (sym ej))) w in
      let draws : 0 + j ≡ 0 = omega (arith, le) in
      (
        servers,
        s',
        init_upstream_servers_lem host.make_endpoint host.library endpoint us converted,
        runs,
        sent
            ∙ ap (λ n. map (to_upstream platform (bytes (platform.draw n))) servers) draws
            ∙ datagrams_lem (bytes (platform.draw 0)) (udp_only us),
      )
