-- ===== src/Runtime.antt =====
-- The calls that the core makes of its runtime, as a trace with the newest call first: child
-- cancellation tokens, cancellations, and tasks spawned under a token. A token is known by the
-- number of the `child_token` call that made it.
use gnosis_vpn_client.Prelude.{ℕ, suc, List, ◌∷◌, Option}
use gnosis_vpn_client.Types.{Destination, CheckScope}

-- What a spawned task runs: the runner of core/runner.rs or route_health.rs that it awaits.
pub data Task : Type 0 where
  health_check : Destination → CheckScope → Task
  create_incentive_operations query_safe node_balance : Task
  funding_tool : ℕ → Task
  safe_deployment : Task
  persist_safe : ℕ → ℕ → Task
  hopr_runner : ℕ → ℕ → Task
  minimum_balance_recommendation ideal_balance_recommendation capacity_allocations : Task
  balances node_wxhopr_withdraw wait_for_running announced_peers : Task
  connection_runner : Destination → List ℕ → Option ℕ → Option ℕ → Task
  disconnection_runner : Destination → ℕ → Task
  monitor_session : ℕ → Task
  tunnel_ping_loop : ℕ → Task
  retry_reactor : Task
  ticket_stats : ℕ → Task

pub data Call : Type 0 where
  child_of : ℕ → ℕ → Call
  cancelled : ℕ → Call
  spawned : ℕ → ℕ → Task → Call

pub record Env : Type 0 where
  pub next_token : ℕ
  pub log : List Call

unfoldable pub child_token : ℕ → Env → ℕ × Env
child_token parent e = (
  e.next_token,
  record { next_token = suc e.next_token; log = child_of parent e.next_token ∷ e.log },
)

unfoldable pub cancel : ℕ → Env → Env
cancel t e = record e { log = cancelled t ∷ e.log }

-- `tokio::spawn` of a task that sleeps and then runs until its token is cancelled.
unfoldable pub spawn : ℕ → ℕ → Task → Env → Env
spawn t delay k e = record e { log = spawned t delay k ∷ e.log }

-- `cancel_x.cancel(); cancel_x = cancel_on_shutdown.child_token()`.
unfoldable pub renew : ℕ → ℕ → Env → ℕ × Env
unfolding child_token cancel
renew parent old e = child_token parent (cancel old e)
