-- ===== src/Startup/Upstreams.antt =====
-- The servers of the configuration and of the running program (src/config.cpp, src/dns/server.cpp).
use dns_wrapper.Common.{
  ℕ, suc, ◌^◌, ◌≤◌, ◌<◌, ◌≡◌, ◌≢◌, refl, sym, ap, ◌∙◌, subst, Bool, false, ◌||◌, if◌then◌else◌,
  Bool-cases, Option-cases, List-cases, inl, inr, List, [], ◌∷◌, map, Option, none, some, arith,
  length, length-append, All, All-append,
}
use dns_wrapper.Rule.Evaluate.{bytes_equal}
use dns_wrapper.Text.{
  Text, codes, Try, returned, thrown, broken, unfinished, try_then, get_ip_address_type,
}
use dns_wrapper.Parser.{Library}
use dns_wrapper.Startup.{
  Tree, or_else, UpstreamServer, Config, LogLevels, as_port, dns_port_default, is_none, add_server,
  add_configured, add_first, load_configuration, new_upstream, is_ipv4, init_upstream_servers,
}

try_then-eq-returned :
    {A B : Type 0} {b : B} (t : Try A) (f : A → Try B)
    → try_then t f ≡ returned b
    → (a : A) × (t ≡ returned a) × (f a ≡ returned b)
try_then-eq-returned (returned a) f e = (a, refl, e)
try_then-eq-returned (thrown x) f e = cc
try_then-eq-returned broken f e = cc
try_then-eq-returned unfinished f e = cc

returned-injective : {A : Type 0} {x y : A} → returned x ≡ returned y → x ≡ y
returned-injective e = cc

-- A server with an address of a known family and a port of 16 bits.
abbrev pub IsListed : UpstreamServer → Type 0
IsListed u = (is_none u.protocol_version ≡ false) × (u.port < 2 ^ 16)

add_server-IsListed :
    (host : Text) (port : ℕ) (protocol : Text) (s s' : List UpstreamServer)
    → port < 2 ^ 16
    → All IsListed s
    → add_server host port protocol s ≡ returned s'
    → All IsListed s' × (length s' ≡ suc (length s))
unfolding add_server
add_server-IsListed host port protocol s s' small good =
    elim (Bool-cases (bytes_equal protocol (codes "udp") || bytes_equal protocol (codes "tcp"))) [
      | inr other ↦ rw (add_server, other) (λ e. cc)
      | inl known ↦ elim (Bool-cases (is_none (get_ip_address_type host))) [
        | inl bad ↦ rw (add_server, known, bad) (λ e. cc)
        | inr fine ↦
            rw (add_server, known, fine)
              (λ e.
                let is = returned-injective e in
                (
                  subst (All IsListed) is (All-append IsListed s _ good ((fine, small), tt)),
                  ap length (sym is) ∙ length-append s _ ∙ omega arith,
                ))
      ]
    ]

as_port-lt : (n : ℕ) → as_port n < 2 ^ 16
as_port-lt n = omega arith

add_configured-IsListed :
    (t : Tree) (host port protocol : Text) (s s' : List UpstreamServer)
    → All IsListed s
    → add_configured t [] host port protocol s ≡ returned s'
    → All IsListed s' × (length s ≤ length s') × (length s' ≤ suc (length s))
unfolding add_configured
add_configured-IsListed t host port protocol s s' good =
    elim (List-cases (or_else (t.string host) [])) [
      | inl nothing ↦
          rw (add_configured, nothing)
            (λ e.
              let is = returned-injective e in
              (
                subst (All IsListed) is good,
                omega (arith, ap length is),
                omega (arith, ap length is),
              ))
      | inr (c, text, given) ↦
          rw (add_configured, given)
            (λ e.
              let (good', more) =
                add_server-IsListed (c ∷ text) _ (or_else (t.string protocol) (codes "udp")) s s'
                  (as_port-lt (or_else (t.long port) dns_port_default)) good e in
              (good', omega (arith, more), omega (arith, more)))
    ]

-- A configuration that loads has one to three servers, each with an address of a known family
-- and a port of 16 bits.
pub load_configuration-IsListed :
    (levels : LogLevels) (t : Tree) (c : Config)
    → load_configuration levels t [] ≡ returned c
    → All IsListed c.servers × (1 ≤ length c.servers) × (length c.servers ≤ 3)
unfolding load_configuration add_first
load_configuration-IsListed levels t c e =
    let (s1, first, e1) = try_then-eq-returned (add_first t []) _ e in
    let (s2, second, e2) = try_then-eq-returned _ _ e1 in
    let (s3, third, e3) = try_then-eq-returned _ _ e2 in
    let is : s3 ≡ c.servers = ap (λ x. x.servers) (returned-injective e3) in
    let (good1, n1) =
      add_server-IsListed (or_else (t.string (codes "serverIp1")) (codes "1.1.1.1")) _
        (or_else (t.string (codes "protocol1")) (codes "udp")) [] s1
        (as_port-lt (or_else (t.long (codes "serverPort1")) dns_port_default)) tt first in
    let (good2, low2, high2) = add_configured-IsListed t _ _ _ s1 s2 good1 second in
    let (good3, low3, high3) = add_configured-IsListed t _ _ _ s2 s3 good2 third in
    (
      subst (All IsListed) is good3,
      omega (arith, ap length is, n1, low2, low3),
      omega (arith, ap length is, n1, high2, high3),
    )

abbrev pub udp_only : List UpstreamServer → List UpstreamServer
udp_only [] = []
udp_only (u ∷ us) = if u.udp then u ∷ udp_only us else udp_only us

module _ {E : Type 0} (make_endpoint : Bool → Text → ℕ → Option E) (library : Library) where
  -- The address of a server is converted by the network library and by the system.
  abbrev pub IsConverted : (UpstreamServer → E) → UpstreamServer → Type 0
  IsConverted endpoint u =
      (make_endpoint (is_ipv4 u.protocol_version) u.host_ip u.port ≡ some (endpoint u))
      × (library.inet_pton (is_ipv4 u.protocol_version) u.host_ip ≢ none)

  -- With addresses that are converted, the UDP servers of the configuration are returned, in their
  -- order, and none of the others.
  pub init_upstream_servers_lem :
      (endpoint : UpstreamServer → E) (us : List UpstreamServer)
      → All (IsConverted endpoint) us
      → init_upstream_servers make_endpoint library us
        ≡ returned (map (λ u. new_upstream (endpoint u) (is_ipv4 u.protocol_version)) (udp_only us))
  unfolding init_upstream_servers
  init_upstream_servers_lem endpoint [] h = refl
  init_upstream_servers_lem endpoint (u ∷ us) ((made, converted), hs) =
      let rest = init_upstream_servers_lem endpoint us hs in
      elim (Bool-cases u.udp) [
        | inr tcp ↦ simp (init_upstream_servers, tcp) rest
        | inl udp ↦ elim (Option-cases (library.inet_pton (is_ipv4 u.protocol_version) u.host_ip)) [
          | inl missing ↦ absurd (converted missing)
          | inr (bytes, found) ↦ simp (init_upstream_servers, udp, made, found, rest) refl
        ]
      ]
