-- ===== src/Routing/Monitor/Debounce.antt =====
-- gnosis_vpn-root/src/routing_actor.rs: when a burst of network events settles, and what it does then.
use gnosis_vpn_client.Prelude.{
  ℕ, ◌+◌, ◌≤◌, Bool, true, false, Option, none, some, List, [], ◌∷◌, Result, ok, err, String, ◌&&◌,
  ◌||◌, unwrap_or, ◌≡◌, refl, arith,
}
use gnosis_vpn_client.Routing.Actor.{
  Answers, MonitorAction, handle, reapply_policy, should_reconnect, is_link, wg_interface,
}
use gnosis_vpn_client.Routing.Monitor.{
  Task, Input, message, event, passed, new, follow_action, on_network_event, settle, step,
  debounce_max, one_if,
}

-- While a burst is under way its first event is known, and its end is at most a second later.
abbrev pub IsTimely : Bool → Option ℕ → ℕ → Type 0
IsTimely true (some first) end = end ≤ first + debounce_max
IsTimely true none end = ⊥
IsTimely false first end = first ≡ none

abbrev IsTimelyTask : Task → Type 0
IsTimelyTask t = IsTimely t.debounce_pending t.debounce_started t.debounce

-- The inputs in their order, without the end of the task.
abbrev pub steps : List Input → Task → Task
steps [] t = t
steps (i ∷ inputs) t = steps inputs (step i t)

follow_action-IsTimely :
    (action : Option MonitorAction) (starts : Bool) (t : Task)
    → IsTimelyTask t
    → IsTimelyTask (follow_action action starts t)
unfolding follow_action
follow_action-IsTimely action starts t timely = ground arith

step-IsTimely : (i : Input) (t : Task) → IsTimelyTask t → IsTimelyTask (step i t)
unfolding step on_network_event settle
step-IsTimely (message a now starts msg) t timely =
    follow_action-IsTimely (handle a now msg t.actor).0 starts
      (record t { actor = (handle a now msg t.actor).1 }) timely
step-IsTimely (event e now) t timely = ground arith
step-IsTimely (passed a now) t timely = ground arith

steps-IsTimely : (inputs : List Input) (t : Task) → IsTimelyTask t → IsTimelyTask (steps inputs t)
steps-IsTimely [] t timely = timely
steps-IsTimely (i ∷ inputs) t timely = steps-IsTimely inputs (step i t) (step-IsTimely i t timely)

-- Over any messages, events and times, a burst of network events that is under way has a first
-- event and ends at most a second after it, and without a burst no first event is kept.
pub bursts_end :
    (inputs : List Input)
    → IsTimely
        (steps inputs new).debounce_pending
        (steps inputs new).debounce_started
        (steps inputs new).debounce
unfolding new
bursts_end inputs = steps-IsTimely inputs new refl

abbrev pub wan_differs : Result Bool String → Bool
wan_differs (ok changed) = changed
wan_differs (err error) = true

-- There is a router, and its tunnel is the link that was removed, or the way to the internet has
-- changed or cannot be queried.
abbrev pub needs_reconnect : Answers → Task → Bool
needs_reconnect a t =
    t.actor.router
    && (is_link t.removed_link (unwrap_or t.actor.wg_interface_name wg_interface)
        || wan_differs a.wan_changed)

-- Once the time of the burst that is under way has come, the policy in force is applied again,
-- the burst is over, the removed link is forgotten, and the daemon is told once to reconnect just
-- when there is a router, and its tunnel was removed or the way to the internet has changed or
-- cannot be queried.
pub burst_settles :
    (a : Answers) (t : Task) (now : ℕ)
    → t.debounce_pending ≡ true
    → t.debounce ≤ now
    → ((step (passed a now) t).actor ≡ reapply_policy t.actor)
      × ((step (passed a now) t).debounce_pending ≡ false)
      × ((step (passed a now) t).removed_link ≡ none)
      × ((step (passed a now) t).reconnects ≡ t.reconnects + one_if (needs_reconnect a t))
unfolding step settle reapply_policy should_reconnect
burst_settles a t now pending come = ground arith
