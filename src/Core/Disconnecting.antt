-- ===== src/Core/Disconnecting.antt =====
-- gnosis_vpn-lib/src/core/mod.rs: what the command to disconnect leaves behind.
use gnosis_vpn_client.Prelude.{
  ℕ, ◌≡◌, refl, ap, ◌∙◌, true, Option, none, some, List, [], ◌∷◌, ◌++◌, arith, is_some,
  Option-cases, inl, inr,
}
use gnosis_vpn_client.Connection.Up.{Up}
use gnosis_vpn_client.Connection.Down.{Down, try_from}
use gnosis_vpn_client.Core.State.{
  Core, Phase, hopr_running, Output, to_root, tear_down_wg, answered_disconnect, disconnecting_from,
  send,
}
use gnosis_vpn_client.Core.Target.{
  act_in, act_with_fuel, act_on_target, disconnect_with, spawn_disconnection_runner,
}
use gnosis_vpn_client.Core.Commands.{active, answer_disconnect, command_disconnect}
use gnosis_vpn_client.Core.Total.{
  Returns, HasHopr, needs_hopr, IsIdleOf, last_step, disconnect-Returns,
}

-- The core `d` after a disconnection from `conn`, started in the core `c` with the trace `sent`.
pub record IsTornDown (down : Down) (c : Core) (sent : List Output) (d : Core) : Type 0 where
  pub idle : d.phase ≡ hopr_running
  pub target : d.target_destination ≡ none
  -- The runner of the disconnection is known, and root was told to take the tunnel down.
  pub disconnections : d.ongoing_disconnections ≡ c.ongoing_disconnections ++ down ∷ []
  pub told_root : d.outbox ≡ to_root tear_down_wg ∷ sent
  pub nobody_waits : d.responders ≡ []

-- The core with which the command calls `act_on_target`.
abbrev forgotten : Core → Core
forgotten c = record c {
  target_destination = none;
  reconnecting_since = none;
  cached_resolved_blokli_ips = [];
}

abbrev pub answered : Core → Core
answered c = answer_disconnect (active c.phase) (forgotten c)

answer_keeps :
    (m : Option Up) (c : Core)
    → ((answer_disconnect m c).hopr ≡ c.hopr)
      × ((answer_disconnect m c).phase ≡ c.phase)
      × ((answer_disconnect m c).target_destination ≡ c.target_destination)
      × ((answer_disconnect m c).ongoing_disconnections ≡ c.ongoing_disconnections)
unfolding send
answer_keeps none c = (refl, refl, refl, refl)
answer_keeps (some conn) c = (refl, refl, refl, refl)

last_step-IsTornDown :
    (down : Down) (now : ℕ) (c d : Core)
    → is_some c.hopr ≡ true
    → c.target_destination ≡ none
    → IsIdleOf c d
    → IsTornDown down c c.outbox (last_step (some down) now d)
unfolding spawn_disconnection_runner
last_step-IsTornDown down now c d h t i =
    ground (arith, i.idle, i.hopr, i.target, i.disconnections, i.outbox, i.nobody_waits)

-- The disconnection that `act_on_target` runs.
abbrev pub disconnect_for : (ℕ → Option ℕ) → ℕ → Up → Core → Option Core
disconnect_for from_hex now conn b =
    disconnect_with from_hex (act_with_fuel 1 from_hex now) conn now b

act_in-active :
    (disconnect : Up → Core → Option Core) (phase : Phase) (conn : Up) (now : ℕ) (b : Core)
    → active phase ≡ some conn
    → act_in disconnect none phase now b ≡ disconnect conn b
unfolding act_in
act_in-active disconnect phase conn now b a = ground arith

act_in-inactive :
    (disconnect : Up → Core → Option Core) (phase : Phase) (now : ℕ) (b : Core)
    → active phase ≡ none
    → act_in disconnect none phase now b ≡ some b
unfolding act_in
act_in-inactive disconnect phase now b a = ground arith

command_disconnect-act_in :
    (from_hex : ℕ → Option ℕ) (now : ℕ) (c : Core)
    → command_disconnect from_hex now c
      ≡ act_in (disconnect_for from_hex now) none c.phase now (answered c)
unfolding command_disconnect act_on_target act_with_fuel send
command_disconnect-act_in from_hex now c = ground arith

active-needs_hopr : (phase : Phase) (conn : Up) → active phase ≡ some conn → needs_hopr phase ≡ true
active-needs_hopr phase conn a = ground arith

act_idle-ends :
    (down : Option Down) (now : ℕ) (d : Core)
    → d.phase ≡ hopr_running
    → d.target_destination ≡ none
    → let e = last_step down now d in (e.target_destination ≡ none) × (active e.phase ≡ none)
unfolding spawn_disconnection_runner
act_idle-ends down now d p t = ground arith

-- With an edge client, the command to disconnect from a connection with a tunnel forgets the target,
-- leaves the edge client idle with no one waiting for root, answers with the destination, tells root
-- to take the tunnel down and adds the disconnection under the key of the tunnel to the ongoing ones.
pub command_disconnect_tears_down :
    (from_hex : ℕ → Option ℕ) (conn : Up) (down : Down) (now : ℕ) (c : Core)
    → HasHopr c
    → active c.phase ≡ some conn
    → try_from conn now ≡ some down
    → Returns
        (IsTornDown down c (answered_disconnect (disconnecting_from conn.destination) ∷ c.outbox))
        (command_disconnect from_hex now c)
unfolding send
command_disconnect_tears_down from_hex conn down now c v a t =
    let b = answered c in
    let (hopr, phase, target, downs) = answer_keeps (active c.phase) (forgotten c) in
    let has : is_some b.hopr ≡ true = rw hopr (v.handle (active-needs_hopr c.phase conn a)) in
    let (d, idle, e) = disconnect-Returns from_hex conn now b has in
    let torn = last_step-IsTornDown down now b d has target idle in
    let told = ap (λ m. (answer_disconnect m (forgotten c)).outbox) a in
    let steps =
      command_disconnect-act_in from_hex now c
      ∙ act_in-active (disconnect_for from_hex now) c.phase conn now b a
      ∙ e 0
      ∙ ap (λ m. some (last_step m now d)) t in
    rw steps (record {
      idle = torn.idle;
      target = torn.target;
      disconnections = torn.disconnections ∙ ap (λ l. l ++ down ∷ []) downs;
      told_root = torn.told_root ∙ ap (λ l. to_root tear_down_wg ∷ l) told;
      nobody_waits = torn.nobody_waits;
    })

-- The command to disconnect returns, on every core that has the edge client where its phase needs
-- it: the target is forgotten, and no connection is active.
pub command_disconnect_ends :
    (from_hex : ℕ → Option ℕ) (now : ℕ) (c : Core)
    → HasHopr c
    → Returns
        (λ d. (d.target_destination ≡ none) × (active d.phase ≡ none))
        (command_disconnect from_hex now c)
command_disconnect_ends from_hex now c v =
    let b = answered c in
    let disconnect = disconnect_for from_hex now in
    let (hopr, phase, target, downs) = answer_keeps (active c.phase) (forgotten c) in
    elim (Option-cases (active c.phase)) [
      | inl a ↦
          rw (command_disconnect-act_in from_hex now c ∙ act_in-inactive disconnect c.phase now b a)
            (target, ap active phase ∙ a)
      | inr (conn, a) ↦
          let has : is_some b.hopr ≡ true = rw hopr (v.handle (active-needs_hopr c.phase conn a)) in
          let (d, idle, e) = disconnect-Returns from_hex conn now b has in
          rw
            (command_disconnect-act_in from_hex now c
              ∙ act_in-active disconnect c.phase conn now b a
              ∙ e 0)
            (act_idle-ends (try_from conn now) now d idle.idle (idle.target ∙ target))
    ]
