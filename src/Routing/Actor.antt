-- ===== src/Routing/Actor.antt =====
-- gnosis_vpn-root/src/routing_actor.rs: the actor that owns the routes and the killswitch, one
-- function per method.
--
-- `log` is what the actor asked of the router, the firewall and its clients, the newest first. A
-- set is a list in which a number stands once, in some order. An IPv4 address is a number; the IPv6
-- addresses are the numbers above them. A name of an interface is a number too.
pub mod Policy
pub mod Floor
pub mod Peers
pub mod Cleanup
pub mod Routes
use gnosis_vpn_client.Prelude.{
  ℕ, ◌-◌, Bool, true, false, String, Option, none, some, List, [], ◌∷◌, ◌++◌, Result, ok, err, ltb,
  ◌==◌, if◌then◌else◌, unwrap_or,
}
use gnosis_vpn_client.Root.Messages.{Msg}
use gnosis_vpn_client.Prelude.Maps.{insert, keys}
use gnosis_vpn_client.Prelude.Sets.{to_set, difference, same_set}

abbrev pub peer_ip_hysteresis_secs : ℕ
peer_ip_hysteresis_secs = 300

-- `wireguard::WG_INTERFACE`.
abbrev pub wg_interface : ℕ
wg_interface = 0

pub record AppliedPolicy : Type 0 where
  pub interface : ℕ
  pub ips : List ℕ
  pub lan_lockdown : Bool

pub data MonitorAction : Type 0 where
  start stop : MonitorAction

pub data Effect : Type 0 where
  router_setup : (wg_data : ℕ) → (peer_ips : List ℕ) → Effect
  router_teardown : Effect
  peer_route_added peer_route_removed : ℕ → Effect
  -- The policy that the firewall was asked to apply, after a message or after a network change.
  policy_applied policy_reapplied : AppliedPolicy → Effect
  policy_reset : Result (Unit {0}) String → Effect
  routing_replied : Result ℕ String → Effect
  teardown_replied : Effect
  policy_replied : Result (Unit {0}) String → Effect

pub record Actor : Type 0 where
  -- Whether there is a router.
  pub router : Bool
  pub applied_policy : Option AppliedPolicy
  -- By address the second at which it was last seen.
  pub peer_ip_last_seen : List (ℕ × ℕ)
  pub active_bypass : List ℕ
  pub wg_interface_name : Option ℕ
  pub log : List Effect

-- What the router and the firewall answer while one message is handled.
pub record Answers : Type 0 where
  pub static_router : Result (Unit {0}) String
  pub setup : Result ℕ String
  pub apply_policy : Result (Unit {0}) String
  pub reset_policy : Result (Unit {0}) String
  pub wan_changed : Result Bool String

unfoldable pub new : Actor
new = record {
  router = false;
  applied_policy = none;
  peer_ip_last_seen = [];
  active_bypass = [];
  wg_interface_name = none;
  log = [];
}

abbrev pub did : Effect → Actor → Actor
did e actor = record actor { log = e ∷ actor.log }

-- One call of the router for each address; a failure is only logged.
abbrev pub for_each : (ℕ → Effect) → List ℕ → Actor → Actor
for_each call [] actor = actor
for_each call (ip ∷ ips) actor = for_each call ips (did (call ip) actor)

abbrev pub teardown_router : Bool → Actor → Actor
teardown_router true actor =
    did router_teardown (for_each peer_route_removed actor.active_bypass actor)
teardown_router false actor = actor

unfoldable pub teardown_routing : Actor → Actor
teardown_routing actor = record (teardown_router actor.router actor) {
  router = false;
  wg_interface_name = none;
  peer_ip_last_seen = [];
  active_bypass = [];
}

-- The router's setup, after which the router is kept, and torn down after a failure.
abbrev pub after_setup : Result ℕ String → Actor → Result ℕ String × Actor
after_setup (ok interface_name) actor =
    (ok interface_name, record actor { wg_interface_name = some interface_name })
after_setup (err error) actor = (err error, teardown_routing actor)

unfoldable pub setup_routing : Answers → ℕ → List ℕ → Actor → Result ℕ String × Actor
unfolding teardown_routing
setup_routing a wg_data peer_ips actor =
    let actor' = teardown_routing actor in
    elim a.static_router [
      | ok _ ↦
          after_setup a.setup
            (did (router_setup wg_data peer_ips) (record actor' { router = true }))
      | err error ↦ (err error, actor')
    ]

-- All of the addresses are seen now.
abbrev pub see : List ℕ → ℕ → List (ℕ × ℕ) → List (ℕ × ℕ)
see [] now seen = seen
see (ip ∷ ips) now seen = see ips now (insert ip now seen)

-- `retain` of those seen less than the hysteresis ago.
unfoldable pub retain_recent : ℕ → List (ℕ × ℕ) → List (ℕ × ℕ)
retain_recent now [] = []
retain_recent now ((ip, t) ∷ seen) =
    let rest = retain_recent now seen in
    if ltb (now - t) peer_ip_hysteresis_secs then (ip, t) ∷ rest else rest

-- The floor of the policy with the addresses above it, in order.
abbrev pub combined : AppliedPolicy → List ℕ → AppliedPolicy
combined policy delta = record policy { ips = to_set (policy.ips ++ delta) }

abbrev pub change_routes : Bool → List ℕ → Actor → Actor
change_routes true alive actor =
    for_each peer_route_removed (difference actor.active_bypass alive)
      (for_each peer_route_added (difference alive actor.active_bypass) actor)
change_routes false alive actor = actor

-- The firewall gets the floor and the delta; a failure is only logged.
abbrev pub refresh_policy : Option AppliedPolicy → List ℕ → Actor → Actor
refresh_policy (some policy) alive actor = did (policy_applied (combined policy alive)) actor
refresh_policy none alive actor = actor

abbrev pub change_bypass : List ℕ → Actor → Actor
change_bypass alive actor =
    refresh_policy actor.applied_policy alive
      (record (change_routes actor.router alive actor) { active_bypass = alive })

unfoldable pub update_peer_ips : List ℕ → ℕ → Actor → Actor
unfolding retain_recent insert to_set
update_peer_ips peer_ips now actor =
    let seen = retain_recent now (see peer_ips now actor.peer_ip_last_seen) in
    let actor' = record actor { peer_ip_last_seen = seen } in
    if same_set (keys seen) actor.active_bypass then actor' else change_bypass (keys seen) actor'

unfoldable pub apply_policy : Answers → ℕ → List ℕ → Bool → Actor → Result (Unit {0}) String × Actor
unfolding to_set
apply_policy a interface ips lan_lockdown actor =
    let policy : AppliedPolicy = record {
      interface = interface;
      ips = to_set ips;
      lan_lockdown = lan_lockdown;
    } in
    elim a.apply_policy [
      | ok _ ↦ (ok tt, record (did (policy_applied policy) actor) { applied_policy = some policy })
      | err error ↦ (err error, did (policy_applied policy) actor)
    ]

abbrev pub reapply : Option AppliedPolicy → Actor → Actor
reapply none actor = actor
reapply (some policy) actor = did (policy_reapplied (combined policy actor.active_bypass)) actor

unfoldable pub reapply_policy : Actor → Actor
unfolding to_set
reapply_policy actor = reapply actor.applied_policy actor

-- `handle`, with the second at which the message is handled.
unfoldable pub handle : Answers → ℕ → Msg → Actor → Option MonitorAction × Actor
unfolding setup_routing teardown_routing apply_policy update_peer_ips
handle a now (Msg.setup_routing wg_data peer_ips) actor =
    let (result, actor') = setup_routing a wg_data peer_ips actor in
    (none, did (routing_replied result) actor')
handle a now Msg.teardown_routing actor = (none, did teardown_replied (teardown_routing actor))
handle a now (Msg.set_allowed_ips ips interface lan_lockdown) actor =
    let (result, actor') = apply_policy a interface ips lan_lockdown actor in
    (elim result [ ok _ ↦ some start | err _ ↦ none ], did (policy_replied result) actor')
handle a now Msg.disable_killswitch actor =
    (some stop, did (policy_reset a.reset_policy) (record actor { applied_policy = none }))
handle a now (Msg.update_peer_ips peer_ips) actor = (none, update_peer_ips peer_ips now actor)

abbrev pub is_link : Option ℕ → ℕ → Bool
is_link (some name) iface = name == iface
is_link none iface = false

-- `should_reconnect` on Linux, for the link that was removed.
unfoldable pub should_reconnect : Answers → Option ℕ → Actor → Bool
should_reconnect a removed_link actor = elim actor.router [
  | false ↦ false
  | true ↦ elim (is_link removed_link (unwrap_or actor.wg_interface_name wg_interface)) [
    | true ↦ true
    | false ↦ elim a.wan_changed [ ok changed ↦ changed | err _ ↦ true ]
  ]
]

-- `Actor::teardown`, at the end of the task. A failed reset of the firewall is only logged, here and
-- when the killswitch is disabled.
unfoldable pub teardown : Answers → Actor → Actor
unfolding teardown_routing
teardown a actor = did (policy_reset a.reset_policy) (teardown_routing actor)
