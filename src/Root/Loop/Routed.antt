-- ===== src/Root/Loop/Routed.antt =====
-- gnosis_vpn-root/src/main.rs and gnosis_vpn-root/src/routing_actor.rs: what the routing actor does
-- under the messages that the daemon sends it.
use gnosis_vpn_client.Prelude.{
  ℕ, Bool, true, false, none, some, List, [], ◌∷◌, ◌++◌, ok, is_some, ◌≡◌, arith,
}
use gnosis_vpn_client.Core.State.{
  RequestToRoot, killswitch_lockdown, static_wg_routing, tear_down_wg, ping, cache_blokli_ips,
  update_peer_ips,
}
use gnosis_vpn_client.Root.Messages.{
  Command, Msg, request_to_root, set_allowed_ips, setup_routing, teardown_routing,
}
use gnosis_vpn_client.Root.Messages
use gnosis_vpn_client.Root.State.{DaemonState, Answers, Effect, to_routing}
use gnosis_vpn_client.Root.Lifecycle.{incoming_worker_exit}
use gnosis_vpn_client.Root.Requests.{
  incoming_worker_line, incoming_worker_request, outgoing_response_from_root,
}
use gnosis_vpn_client.Root.Loop.{worker_line, worker_exit, handle, daemon_loop}
use gnosis_vpn_client.Root.Loop.Phases.{off, stopping, phase_of}
use gnosis_vpn_client.Routing.Actor.{Actor}
use gnosis_vpn_client.Routing.Actor
use gnosis_vpn_client.Routing.Actor.Policy.{allows}

-- The messages to the routing actor in a log, the newest first.
abbrev pub routing_of : List Effect → List Msg
routing_of [] = []
routing_of (to_routing msg ∷ log) = msg ∷ routing_of log
routing_of (_ ∷ log) = routing_of log

-- The actor after the messages, the newest first, with one answer and at one time.
abbrev pub actor_of : Actor.Answers → ℕ → List Msg → Actor
actor_of a now [] = Actor.new
actor_of a now (msg ∷ msgs) = (Actor.handle a now msg (actor_of a now msgs)).1

-- No routing and no killswitch.
abbrev pub IsFree : Actor → Type 0
IsFree actor =
    (actor.router ≡ false)
    × (actor.active_bypass ≡ [])
    × (actor.applied_policy ≡ none)
    × ((ip : ℕ) → allows actor.log ip ≡ true)

-- What a request of the worker asks of the routing actor.
abbrev pub asked : Bool → RequestToRoot → List Msg
asked lan_lockdown (killswitch_lockdown id ips interface) =
    set_allowed_ips ips interface lan_lockdown ∷ []
asked lan_lockdown (static_wg_routing id wg_data ips) = setup_routing wg_data ips ∷ []
asked lan_lockdown tear_down_wg = teardown_routing ∷ []
asked lan_lockdown (update_peer_ips ips) = Messages.update_peer_ips ips ∷ []
asked lan_lockdown _ = []

-- What a late request leaves behind: a setup its router, a lockdown its policy.
abbrev pub IsLeftBy : RequestToRoot → Actor → Type 0
IsLeftBy (killswitch_lockdown id ips interface) actor = is_some actor.applied_policy ≡ true
IsLeftBy (static_wg_routing id wg_data ips) actor = actor.router ≡ true
IsLeftBy _ actor = Unit {0}

asked-IsLeftBy :
    (ra : Actor.Answers) (name now : ℕ) (lan_lockdown : Bool) (request : RequestToRoot)
    (msgs : List Msg)
    → ra.static_router ≡ ok tt
    → ra.setup ≡ ok name
    → ra.apply_policy ≡ ok tt
    → IsLeftBy request (actor_of ra now (asked lan_lockdown request ++ msgs))
unfolding Actor.handle Actor.setup_routing Actor.apply_policy
asked-IsLeftBy ra name now lan (killswitch_lockdown id ips interface) msgs r s p = ground (arith, p)
asked-IsLeftBy ra name now lan (static_wg_routing id wg_data ips) msgs r s p = ground (arith, r, s)
asked-IsLeftBy ra name now lan tear_down_wg msgs r s p = tt
asked-IsLeftBy ra name now lan (update_peer_ips ips) msgs r s p = tt
asked-IsLeftBy ra name now lan (ping id options) msgs r s p = tt
asked-IsLeftBy ra name now lan (cache_blokli_ips ips) msgs r s p = tt

-- The daemon after a request of the worker and the exit of the worker.
abbrev pub after_late_request : Answers → Answers → RequestToRoot → Bool → DaemonState → DaemonState
after_late_request a b request success s =
    (daemon_loop ((a, worker_line (some (request_to_root request))) ∷ (b, worker_exit success) ∷ [])
      s).1

late_request-asked :
    (a b : Answers) (request : RequestToRoot) (success : Bool) (s : DaemonState)
    → phase_of s ≡ stopping
    → (phase_of (after_late_request a b request success s) ≡ off)
      × (routing_of (after_late_request a b request success s).log
          ≡ asked s.config.lan_lockdown request ++ routing_of s.log)
unfolding daemon_loop handle incoming_worker_line incoming_worker_request
    outgoing_response_from_root incoming_worker_exit
late_request-asked a b request success s stops = ground arith

-- A request of a worker that is told to stop still goes to the routing actor. When the worker exits
-- next, the client is off and the actor was sent nothing after the request. If the router and the
-- firewall do what they are asked, a late setup then leaves the actor with a router, and a late
-- lockdown leaves it with a policy in force.
pub late_request_stays :
    (a b : Answers) (ra : Actor.Answers) (name now : ℕ) (request : RequestToRoot) (success : Bool)
    (s : DaemonState)
    → phase_of s ≡ stopping
    → ra.static_router ≡ ok tt
    → ra.setup ≡ ok name
    → ra.apply_policy ≡ ok tt
    → (phase_of (after_late_request a b request success s) ≡ off)
      × (routing_of (after_late_request a b request success s).log
          ≡ asked s.config.lan_lockdown request ++ routing_of s.log)
      × IsLeftBy request
          (actor_of ra now (routing_of (after_late_request a b request success s).log))
late_request_stays a b ra name now request success s stops routes sets applies =
    let (turned_off, sent) = late_request-asked a b request success s stops in
    (
      turned_off,
      sent,
      rw sent (
          asked-IsLeftBy ra name now s.config.lan_lockdown request (routing_of s.log) routes sets
            applies),
    )
