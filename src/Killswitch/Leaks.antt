-- ===== src/Killswitch/Leaks.antt =====
-- gnosis_vpn-lib/src/killswitch/linux.rs: which IPv4 packets the killswitch lets through.
--
-- What a check of a packet means is the documented meaning of the nftables expressions that the
-- code builds for it.
use gnosis_vpn_client.Prelude.{
  ℕ, ◌-◌, ◌*◌, ◌/◌, ◌^◌, Bool, true, false, not, ◌&&◌, ◌||◌, Option, none, some, List, [], ◌∷◌,
  ◌++◌, ◌==◌, ◌≡◌, refl, ap, ◌∙◌, arith,
}
use gnosis_vpn_client.Killswitch.{
  IpAddr, IpNetwork, in_, out, End, src, dst, Chain, input, output, forward, Check, iface_by_name,
  ip, net, port, icmpv6, established, Rule, loopback, loopback_rules, dhcp_client_rules, ndp_rules,
  tunnel_rules, allowed_ip_rules, lan_rules_unless, finalize, lan_nets, lan_multicast_nets,
}

pub record Packet : Type 0 where
  pub iifname : ℕ
  pub oifname : ℕ
  pub saddr : IpAddr
  pub daddr : IpAddr
  -- The source and the destination port, if the packet is of UDP.
  pub udp : Option (ℕ × ℕ)
  -- The type and the code, if the packet is of ICMPv6.
  pub icmp : Option (ℕ × ℕ)
  pub is_return : Bool

abbrev pub addr_eq : IpAddr → IpAddr → Bool
addr_eq (IpAddr.v4 a) (IpAddr.v4 b) = a == b
addr_eq (IpAddr.v6 a) (IpAddr.v6 b) = a == b
addr_eq _ _ = false

-- The address under the mask of the network is the network's address.
abbrev pub in_net : IpNetwork → IpAddr → Bool
in_net (IpNetwork.v4 base len) (IpAddr.v4 a) = (a / 2 ^ (32 - len)) * 2 ^ (32 - len) == base
in_net (IpNetwork.v6 base len) (IpAddr.v6 a) = (a / 2 ^ (128 - len)) * 2 ^ (128 - len) == base
in_net _ _ = false

abbrev pub address_at : End → Packet → IpAddr
address_at src p = p.saddr
address_at dst p = p.daddr

abbrev pub port_is : End → ℕ → Option (ℕ × ℕ) → Bool
port_is src n (some (a, b)) = a == n
port_is dst n (some (a, b)) = b == n
port_is end n none = false

abbrev pub icmp_is : ℕ → ℕ → Option (ℕ × ℕ) → Bool
icmp_is t c (some (a, b)) = a == t && b == c
icmp_is t c none = false

abbrev pub passes : Check → Packet → Bool
passes (iface_by_name in_ name) p = p.iifname == name
passes (iface_by_name out name) p = p.oifname == name
passes (ip end a) p = addr_eq a (address_at end p)
passes (net end n) p = in_net n (address_at end p)
passes (port end n) p = port_is end n p.udp
passes (icmpv6 t c) p = icmp_is t c p.icmp
passes established p = p.is_return

abbrev pub passes_all : List Check → Packet → Bool
passes_all [] p = true
passes_all (c ∷ checks) p = passes c p && passes_all checks p

abbrev pub chain_eq : Chain → Chain → Bool
chain_eq input input = true
chain_eq output output = true
chain_eq forward forward = true
chain_eq _ _ = false

-- Whether the rules let a packet through a chain, which drops the others.
abbrev pub accepts : List Rule → Chain → Packet → Bool
accepts [] chain p = false
accepts (r ∷ rules) chain p = chain_eq r.0 chain && passes_all r.1 p || accepts rules chain p

accepts-append :
    (xs ys : List Rule) (chain : Chain) (p : Packet)
    → accepts (xs ++ ys) chain p ≡ (accepts xs chain p || accepts ys chain p)
accepts-append [] ys chain p = refl
accepts-append (r ∷ xs) ys chain p = ground (arith, accepts-append xs ys chain p)

-- One of the addresses that are allowed.
abbrev pub is_allowed : List IpAddr → IpAddr → Bool
is_allowed [] a = false
is_allowed (x ∷ ips) a = addr_eq x a || is_allowed ips a

abbrev pub is_local : List IpNetwork → IpAddr → Bool
is_local [] a = false
is_local (n ∷ nets) a = in_net n a || is_local nets a

allowed-output :
    (ips : List IpAddr) (p : Packet)
    → accepts (allowed_ip_rules ips) output p ≡ is_allowed ips p.daddr
allowed-output [] p = refl
allowed-output (x ∷ ips) p = ground (arith, allowed-output ips p)

allowed-input :
    (ips : List IpAddr) (p : Packet)
    → accepts (allowed_ip_rules ips) input p ≡ (is_allowed ips p.saddr && p.is_return)
allowed-input [] p = refl
allowed-input (x ∷ ips) p = ground (arith, allowed-input ips p)

abbrev pub is_dhcp_request : Packet → Bool
is_dhcp_request p =
    port_is src 68 p.udp && addr_eq (IpAddr.v4 4294967295) p.daddr && port_is dst 67 p.udp

dhcp-output :
    (p : Packet) (d : ℕ)
    → p.daddr ≡ IpAddr.v4 d
    → accepts dhcp_client_rules output p ≡ is_dhcp_request p
dhcp-output p d h = ground arith

ndp-output : (p : Packet) (d : ℕ) → p.daddr ≡ IpAddr.v4 d → accepts ndp_rules output p ≡ false
ndp-output p d h = ground arith

lan-output :
    (lockdown : Bool) (p : Packet)
    → accepts (lan_rules_unless lockdown) output p
      ≡ (not lockdown && (is_local lan_nets p.daddr || is_local lan_multicast_nets p.daddr))
lan-output true p = refl
lan-output false p = ground arith

abbrev pub is_dhcp_response : Packet → Bool
is_dhcp_response p = port_is src 67 p.udp && port_is dst 68 p.udp

dhcp-input :
    (p : Packet) (s : ℕ)
    → p.saddr ≡ IpAddr.v4 s
    → accepts dhcp_client_rules input p ≡ is_dhcp_response p
dhcp-input p s h = ground arith

ndp-input :
    (p : Packet) (s : ℕ) → p.saddr ≡ IpAddr.v4 s → accepts ndp_rules input p ≡ icmp_is 136 0 p.icmp
ndp-input p s h = ground arith

lan-input :
    (lockdown : Bool) (p : Packet)
    → accepts (lan_rules_unless lockdown) input p
      ≡ (not lockdown && (is_local lan_nets p.saddr || is_local lan_multicast_nets p.saddr))
lan-input true p = refl
lan-input false p = ground arith

finalize-accepts :
    (interface : ℕ) (ips : List IpAddr) (lockdown : Bool) (chain : Chain) (p : Packet)
    → accepts (finalize interface ips lockdown) chain p ≡ (
        accepts loopback_rules chain p
        || accepts dhcp_client_rules chain p
        || accepts ndp_rules chain p
        || accepts (tunnel_rules interface) chain p
        || accepts (allowed_ip_rules ips) chain p
        || accepts (lan_rules_unless lockdown) chain p)
unfolding finalize
finalize-accepts interface ips lockdown chain p =
    let two = loopback_rules ++ dhcp_client_rules in
    let three = two ++ ndp_rules in
    let four = three ++ tunnel_rules interface in
    accepts-append (four ++ allowed_ip_rules ips) (lan_rules_unless lockdown) chain p
    ∙ ap (λ b. b || accepts (lan_rules_unless lockdown) chain p)
        (accepts-append four (allowed_ip_rules ips) chain p
          ∙ ap (λ b. b || accepts (allowed_ip_rules ips) chain p)
              (accepts-append three (tunnel_rules interface) chain p
                ∙ ap (λ b. b || accepts (tunnel_rules interface) chain p)
                    (accepts-append two ndp_rules chain p
                      ∙ ap (λ b. b || accepts ndp_rules chain p)
                          (accepts-append loopback_rules dhcp_client_rules chain p))))

-- One equation for each kind of rule, with the tunnel next to the loopback and NDP last.
by_kind :
    {a b c d e f a' b' c' d' e' f' : Bool}
    → a ≡ a'
    → b ≡ b'
    → c ≡ c'
    → d ≡ d'
    → e ≡ e'
    → f ≡ f'
    → (a || b || c || d || e || f) ≡ (a' || d' || b' || e' || f' || c')
by_kind ha hb hc hd he hf = ground (arith, ha, hb, hc, hd, he, hf)

or_false : (b : Bool) → (b || false) ≡ b
or_false b = ground arith

loopback_lem :
    (p : Packet)
    → (accepts loopback_rules output p ≡ (p.oifname == loopback))
      × (accepts loopback_rules input p ≡ (p.iifname == loopback))
loopback_lem p = ground arith

tunnel_lem :
    (interface : ℕ) (p : Packet)
    → (accepts (tunnel_rules interface) output p ≡ (p.oifname == interface))
      × (accepts (tunnel_rules interface) input p ≡ (p.iifname == interface))
tunnel_lem interface p = ground arith

-- Under the policy, an IPv4 packet leaves the machine just when it goes out by the loopback or the
-- tunnel, is a DHCP request, goes to an address that is allowed, or goes to a local network while
-- the local networks are not locked down. One comes in just when it comes by the loopback or the
-- tunnel, is a DHCP response, is return traffic of an address that is allowed, comes from a local
-- network while they are not locked down, or has the type of a neighbor advertisement.
pub killswitch_leaks_nothing :
    (interface : ℕ) (ips : List IpAddr) (lockdown : Bool) (p : Packet) (s d : ℕ)
    → p.saddr ≡ IpAddr.v4 s
    → p.daddr ≡ IpAddr.v4 d
    → (accepts (finalize interface ips lockdown) output p ≡ (
        p.oifname == loopback
        || p.oifname == interface
        || is_dhcp_request p
        || is_allowed ips p.daddr
        || not lockdown && (is_local lan_nets p.daddr || is_local lan_multicast_nets p.daddr)))
      × (accepts (finalize interface ips lockdown) input p ≡ (
          p.iifname == loopback
          || p.iifname == interface
          || is_dhcp_response p
          || is_allowed ips p.saddr && p.is_return
          || not lockdown && (is_local lan_nets p.saddr || is_local lan_multicast_nets p.saddr)
          || icmp_is 136 0 p.icmp))
killswitch_leaks_nothing interface ips lockdown p s d from to = (
  finalize-accepts interface ips lockdown output p
      ∙ by_kind (loopback_lem p).0 (dhcp-output p d to) (ndp-output p d to)
          (tunnel_lem interface p).0 (allowed-output ips p) (lan-output lockdown p)
      ∙ or_false _,
  finalize-accepts interface ips lockdown input p
      ∙ by_kind (loopback_lem p).1 (dhcp-input p s from) (ndp-input p s from)
          (tunnel_lem interface p).1 (allowed-input ips p) (lan-input lockdown p),
)
