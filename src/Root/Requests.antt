-- ===== src/Root/Requests.antt =====
-- gnosis_vpn-root/src/main.rs: what the worker writes to root, its responses to commands and its
-- requests, and the results of pings.
use gnosis_vpn_client.Prelude.{
  ℕ, Bool, true, false, not, String, Option, none, some, List, [], ◌∷◌, Result, ◌==◌,
}
use gnosis_vpn_client.Prelude.Maps.{lookup, remove}
use gnosis_vpn_client.Core.State.{
  RequestToRoot, killswitch_lockdown, static_wg_routing, tear_down_wg, ping, cache_blokli_ips,
  update_peer_ips, Answer, unit_answer, str_answer, duration_answer,
}
use gnosis_vpn_client.Root.Messages.{
  Response, force_reconnect_acknowledged, RootToWorker, response_from_root, WorkerToRoot, response,
  request_to_root, Msg, set_allowed_ips, setup_routing,
}
use gnosis_vpn_client.Root.Messages
use gnosis_vpn_client.Root.State.{
  Answers, answered, to_routing, M, ◌>>=◌, ◌>>◌, return, exit, modify, get, did, when,
  send_to_worker, dataerr, is_serving,
}
use gnosis_vpn_client.Root.Worker.{teardown_any_routing}

-- The channel that waits under an id gets the response.
abbrev pub respond_to : Option ℕ → Response → M (Unit {0})
respond_to (some channel) resp = did (answered channel resp)
respond_to none resp = return tt

abbrev pub is_force_reconnect_acknowledged : Response → Bool
is_force_reconnect_acknowledged force_reconnect_acknowledged = true
is_force_reconnect_acknowledged _ = false

unfoldable pub incoming_worker_response : ℕ → Response → M (Unit {0})
unfolding lookup remove
incoming_worker_response id resp s =
    when (not (is_force_reconnect_acknowledged resp))
      (modify (λ s. record s { pending_responses = remove id s.pending_responses })
        >> respond_to (lookup id s.pending_responses) resp)
      s

-- An answer of root is for a worker that is there and not told to stop.
unfoldable pub outgoing_response_from_root : Answers → ℕ → Answer → M (Unit {0})
outgoing_response_from_root a request_id res s =
    when (is_serving s.shutdown_ongoing s.worker_child)
      (send_to_worker a (response_from_root request_id res)) s

-- The routing actor answers before root goes on.
unfoldable pub incoming_worker_request : Answers → RequestToRoot → M (Unit {0})
unfolding outgoing_response_from_root
incoming_worker_request a (killswitch_lockdown request_id peer_ips interface) = do
  s ← get
  did (to_routing (set_allowed_ips peer_ips interface s.config.lan_lockdown))
  outgoing_response_from_root a request_id (unit_answer a.killswitch)
incoming_worker_request a (static_wg_routing request_id wg_data peer_ips) = do
  did (to_routing (setup_routing wg_data peer_ips))
  outgoing_response_from_root a request_id (str_answer a.routing)
incoming_worker_request a tear_down_wg = teardown_any_routing
incoming_worker_request a (ping request_id options) =
    modify (λ s. record s { ping_tasks = request_id ∷ s.ping_tasks })
incoming_worker_request a (cache_blokli_ips ips) =
    modify (λ s. record s { cached_blokli_ips = ips })
incoming_worker_request a (update_peer_ips peer_ips) =
    did (to_routing (Messages.update_peer_ips peer_ips))

-- A line that is no message of the worker ends the daemon.
unfoldable pub incoming_worker_line : Answers → Option WorkerToRoot → M (Unit {0})
unfolding incoming_worker_response incoming_worker_request
incoming_worker_line a (some (response id resp)) = incoming_worker_response id resp
incoming_worker_line a (some (request_to_root request)) = incoming_worker_request a request
incoming_worker_line a none = exit dataerr

-- The first task of a request is no longer under way.
unfoldable pub take_task : ℕ → List ℕ → List ℕ
take_task id [] = []
take_task id (x ∷ xs) =
    let rest = take_task id xs in elim (x == id) [ true ↦ xs | false ↦ x ∷ rest ]

-- `ping_tasks.join_next()`: a task that panicked has no result.
unfoldable pub ping_joined : Answers → ℕ → Option (Result ℕ String) → M (Unit {0})
unfolding outgoing_response_from_root take_task
ping_joined a request_id (some res) = do
  modify (λ s. record s { ping_tasks = take_task request_id s.ping_tasks })
  outgoing_response_from_root a request_id (duration_answer res)
ping_joined a request_id none =
    modify (λ s. record s { ping_tasks = take_task request_id s.ping_tasks })
