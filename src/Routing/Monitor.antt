-- ===== src/Routing/Monitor.antt =====
-- gnosis_vpn-root/src/routing_actor.rs: the task of the actor (`run`), which takes messages, watches
-- the network while a killswitch is in force and settles bursts of network events
-- (gnosis_vpn-root/src/device_monitor/mod.rs).
--
-- Times of the debounce are in milliseconds.
pub mod Debounce
use gnosis_vpn_client.Prelude.{
  ℕ, ◌+◌, Bool, true, false, Option, none, some, List, [], ◌∷◌, min, leb, ◌&&◌, if◌then◌else◌,
  unwrap_or,
}
use gnosis_vpn_client.Root.Messages.{Msg}
use gnosis_vpn_client.Routing.Actor.{
  Actor, Answers, MonitorAction, start, stop, handle, reapply_policy, should_reconnect, teardown,
}
use gnosis_vpn_client.Routing.Actor

abbrev pub debounce_settle : ℕ
debounce_settle = 250

abbrev pub debounce_max : ℕ
debounce_max = 1000

-- What the device monitor reports, on Linux.
pub data NetworkEvent : Type 0 where
  link_changed link_removed address_added address_removed : (index : ℕ) → (name : ℕ) → NetworkEvent
  route_added route_removed : NetworkEvent

pub record Task : Type 0 where
  pub actor : Actor
  -- Whether the device monitor runs.
  pub monitor : Bool
  -- When the debounce ends.
  pub debounce : ℕ
  pub debounce_pending : Bool
  pub debounce_started : Option ℕ
  pub removed_link : Option ℕ
  -- How often the daemon was told to reconnect.
  pub reconnects : ℕ

pub data Input : Type 0 where
  -- A message, with the second of the actor and whether a device monitor can be started.
  message : Answers → ℕ → (monitor_starts : Bool) → Msg → Input
  event : NetworkEvent → (now : ℕ) → Input
  passed : Answers → (now : ℕ) → Input

unfoldable pub new : Task
unfolding Actor.new
new = record {
  actor = Actor.new;
  monitor = false;
  debounce = 0;
  debounce_pending = false;
  debounce_started = none;
  removed_link = none;
  reconnects = 0;
}

-- What the result of `handle` asks of the device monitor.
unfoldable pub follow_action : Option MonitorAction → Bool → Task → Task
follow_action (some start) monitor_starts t = record t {
  monitor = elim t.monitor [ true ↦ true | false ↦ monitor_starts ];
}
follow_action (some stop) monitor_starts t = record t {
  monitor = false;
  debounce_pending = false;
  debounce_started = none;
  removed_link = none;
}
follow_action none monitor_starts t = t

abbrev pub lost_link : NetworkEvent → Option ℕ → Option ℕ
lost_link (link_removed index name) before = some name
lost_link (address_removed index name) before = some name
lost_link _ before = before

-- An event prolongs the burst, up to a second after its first event.
unfoldable pub on_network_event : NetworkEvent → ℕ → Task → Task
on_network_event e now t =
    let burst_started = unwrap_or t.debounce_started now in
    record t {
      removed_link = lost_link e t.removed_link;
      debounce_started = some burst_started;
      debounce = min (now + debounce_settle) (burst_started + debounce_max);
      debounce_pending = true;
    }

abbrev pub one_if : Bool → ℕ
one_if true = 1
one_if false = 0

-- The burst has settled.
unfoldable pub settle : Answers → Task → Task
unfolding reapply_policy should_reconnect
settle a t =
    let actor = reapply_policy t.actor in
    record t {
      actor = actor;
      debounce_pending = false;
      debounce_started = none;
      removed_link = none;
      reconnects = t.reconnects + one_if (should_reconnect a t.removed_link actor);
    }

unfoldable pub step : Input → Task → Task
unfolding handle follow_action on_network_event settle
step (message a now monitor_starts msg) t =
    let (action, actor) = handle a now msg t.actor in
    follow_action action monitor_starts (record t { actor = actor })
step (event e now) t = on_network_event e now t
step (passed a now) t = elim t.debounce_pending [
  | true ↦ if leb t.debounce now then settle a t else t
  | false ↦ t
]

-- Until the task is cancelled or its channel closes; then the actor is torn down.
unfoldable pub run : Answers → List Input → Task → Task
unfolding step teardown
run a [] t = record t { monitor = false; actor = teardown a t.actor }
run a (i ∷ inputs) t = run a inputs (step i t)
