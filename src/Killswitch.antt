-- ===== src/Killswitch.antt =====
-- gnosis_vpn-lib/src/killswitch/linux.rs and gnosis_vpn-lib/src/killswitch/mod.rs: the rules of the
-- killswitch for Linux, as data, in the order in which the code adds them.
--
-- A rule is its chain with its checks, all of which a packet must pass to be accepted; each chain
-- drops what no rule accepts. An address is a number, and so is the name of an interface.
pub mod Leaks
use gnosis_vpn_client.Prelude.{ℕ, ◌+◌, ◌*◌, Bool, true, false, List, [], ◌∷◌, ◌++◌, map}

pub data IpAddr : Type 0 where
  v4 v6 : ℕ → IpAddr

pub data IpNetwork : Type 0 where
  v4 v6 : (address : ℕ) → (prefix_len : ℕ) → IpNetwork

pub data Direction : Type 0 where
  in_ out : Direction

pub data End : Type 0 where
  src dst : End

pub data Chain : Type 0 where
  input output forward : Chain

-- The checks that rules are made of; ports are those of UDP.
pub data Check : Type 0 where
  iface_by_name : Direction → ℕ → Check
  ip : End → IpAddr → Check
  net : End → IpNetwork → Check
  port : End → ℕ → Check
  icmpv6 : (type_ : ℕ) → (code : ℕ) → Check
  established : Check

abbrev pub Rule : Type 0
Rule = Chain × List Check

abbrev ipv4 : ℕ → ℕ → ℕ → ℕ → ℕ
ipv4 a b c d = a * 16777216 + b * 65536 + c * 256 + d

-- An IPv6 address from its first group and its lower half of three groups.
abbrev ipv6 : ℕ → ℕ → ℕ → ℕ → ℕ
ipv6 first a b c = first * 5192296858534827628530496329220096 + a * 4294967296 + b * 65536 + c

abbrev pub lan_nets : List IpNetwork
lan_nets =
    IpNetwork.v4 (ipv4 10 0 0 0) 8
    ∷ IpNetwork.v4 (ipv4 172 16 0 0) 12
    ∷ IpNetwork.v4 (ipv4 192 168 0 0) 16
    ∷ IpNetwork.v4 (ipv4 169 254 0 0) 16
    ∷ IpNetwork.v6 (ipv6 0xfe80 0 0 0) 10
    ∷ IpNetwork.v6 (ipv6 0xfc00 0 0 0) 7
    ∷ []

abbrev pub lan_multicast_nets : List IpNetwork
lan_multicast_nets =
    IpNetwork.v4 (ipv4 255 255 255 255) 32
    ∷ IpNetwork.v4 (ipv4 224 0 0 0) 24
    ∷ IpNetwork.v4 (ipv4 239 0 0 0) 8
    ∷ IpNetwork.v6 (ipv6 0xff01 0 0 0) 16
    ∷ IpNetwork.v6 (ipv6 0xff02 0 0 0) 16
    ∷ IpNetwork.v6 (ipv6 0xff03 0 0 0) 16
    ∷ IpNetwork.v6 (ipv6 0xff04 0 0 0) 16
    ∷ IpNetwork.v6 (ipv6 0xff05 0 0 0) 16
    ∷ []

abbrev pub ipv6_link_local : IpNetwork
ipv6_link_local = IpNetwork.v6 (ipv6 0xfe80 0 0 0) 10

abbrev pub dhcpv6_server_addrs : List ℕ
dhcpv6_server_addrs = ipv6 0xff02 0 1 2 ∷ ipv6 0xff05 0 1 3 ∷ []

abbrev pub router_solicitation_out_dst_addr : ℕ
router_solicitation_out_dst_addr = ipv6 0xff02 0 0 2

abbrev pub solicited_node_multicast : IpNetwork
solicited_node_multicast = IpNetwork.v6 (ipv6 0xff02 1 0xff00 0) 104

-- The same checks in several chains, one rule each.
abbrev pub in_chains : List Chain → List Check → List Rule
in_chains chains checks = map (λ c. (c, checks)) chains

abbrev pub loopback : ℕ
loopback = 1

abbrev pub loopback_rules : List Rule
loopback_rules =
    (output, iface_by_name out loopback ∷ []) ∷ (input, iface_by_name in_ loopback ∷ []) ∷ []

abbrev pub dhcpv6_request : Chain → ℕ → Rule
dhcpv6_request chain server =
    (chain, net src ipv6_link_local ∷ port src 546 ∷ ip dst (IpAddr.v6 server) ∷ port dst 547 ∷ [])

abbrev pub dhcp_client_rules : List Rule
dhcp_client_rules =
    in_chains (output ∷ forward ∷ [])
      (port src 68 ∷ ip dst (IpAddr.v4 (ipv4 255 255 255 255)) ∷ port dst 67 ∷ [])
    ++ in_chains (input ∷ forward ∷ []) (port src 67 ∷ port dst 68 ∷ [])
    ++ map (dhcpv6_request output) dhcpv6_server_addrs
    ++ map (dhcpv6_request forward) dhcpv6_server_addrs
    ++ in_chains (input ∷ forward ∷ [])
        (net src ipv6_link_local ∷ port src 547 ∷ net dst ipv6_link_local ∷ port dst 546 ∷ [])

abbrev pub outgoing : List Check → List Rule
outgoing checks = in_chains (output ∷ forward ∷ []) checks

abbrev pub incoming : List Check → List Rule
incoming checks = in_chains (input ∷ forward ∷ []) checks

abbrev pub ndp_rules : List Rule
ndp_rules =
    outgoing (ip dst (IpAddr.v6 router_solicitation_out_dst_addr) ∷ icmpv6 133 0 ∷ [])
    ++ incoming (net src ipv6_link_local ∷ icmpv6 134 0 ∷ [])
    ++ incoming (net src ipv6_link_local ∷ icmpv6 137 0 ∷ [])
    ++ outgoing (net dst solicited_node_multicast ∷ icmpv6 135 0 ∷ [])
    ++ outgoing (net dst ipv6_link_local ∷ icmpv6 135 0 ∷ [])
    ++ incoming (net src ipv6_link_local ∷ icmpv6 135 0 ∷ [])
    ++ outgoing (net dst ipv6_link_local ∷ icmpv6 136 0 ∷ [])
    ++ incoming (icmpv6 136 0 ∷ [])

-- Into the machine behind, only return traffic comes out of the tunnel.
abbrev pub tunnel_rules : ℕ → List Rule
tunnel_rules interface =
    (output, iface_by_name out interface ∷ [])
    ∷ (input, iface_by_name in_ interface ∷ [])
    ∷ (forward, iface_by_name out interface ∷ [])
    ∷ (forward, iface_by_name in_ interface ∷ established ∷ [])
    ∷ []

abbrev pub nets_in : Chain → End → List IpNetwork → List Rule
nets_in chain end nets = map (λ n. (chain, net end n ∷ [])) nets

abbrev pub lan_rules : List Rule
lan_rules =
    nets_in output dst lan_nets
    ++ nets_in output dst lan_multicast_nets
    ++ nets_in forward dst lan_nets
    ++ nets_in forward dst lan_multicast_nets
    ++ nets_in input src lan_nets
    ++ nets_in input src lan_multicast_nets

-- To the address everything, and from it return traffic.
abbrev pub allowed_ip_rules : List IpAddr → List Rule
allowed_ip_rules [] = []
allowed_ip_rules (a ∷ ips) =
    (output, ip dst a ∷ []) ∷ (input, ip src a ∷ established ∷ []) ∷ allowed_ip_rules ips

abbrev pub lan_rules_unless : Bool → List Rule
lan_rules_unless true = []
lan_rules_unless false = lan_rules

unfoldable pub finalize : (interface : ℕ) → List IpAddr → (lan_lockdown : Bool) → List Rule
finalize interface allowed_ips lan_lockdown =
    loopback_rules
    ++ dhcp_client_rules
    ++ ndp_rules
    ++ tunnel_rules interface
    ++ allowed_ip_rules allowed_ips
    ++ lan_rules_unless lan_lockdown
