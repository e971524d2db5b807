-- ===== src/Core/Requests.antt =====
-- gnosis_vpn-lib/src/core/mod.rs: requests of a connection runner to root, and root's answers. The
-- runner waits on a channel (a number), which the core keeps under the id of the request.
use gnosis_vpn_client.Prelude.{ℕ, ◌+◌, ◌%◌, Option, some, List}
use gnosis_vpn_client.Prelude.Maps.{lookup, insert, remove}
use gnosis_vpn_client.Core.State.{
  Core, Responder, unit, str, duration, Answer, unit_answer, str_answer, duration_answer,
  killswitch_lockdown, static_wg_routing, ping, to_root, delivered, send,
}

abbrev pub u64 : ℕ → ℕ
u64 n = n % 18_446_744_073_709_551_616

-- `RunnerToRoot`, each with its channel.
pub data RunnerToRoot : Type 0 where
  lockdown : List ℕ → (interface channel : ℕ) → RunnerToRoot
  static_routing : (wg_data : ℕ) → List ℕ → (channel : ℕ) → RunnerToRoot
  ping_request : (options channel : ℕ) → RunnerToRoot

unfoldable pub next_request_id : Core → ℕ × Core
next_request_id c = (c.next_request_id, record c { next_request_id = u64 (c.next_request_id + 1) })

unfoldable pub on_request_to_root : RunnerToRoot → Core → Core
unfolding next_request_id send insert
on_request_to_root (lockdown ips interface channel) c =
    let (id, c') = next_request_id c in
    send (to_root (killswitch_lockdown id ips interface))
      (record c' { responders = insert id (unit channel) c'.responders })
on_request_to_root (static_routing wg_data ips channel) c =
    let (id, c') = next_request_id c in
    send (to_root (static_wg_routing id wg_data ips))
      (record c' { responders = insert id (str channel) c'.responders })
on_request_to_root (ping_request options channel) c =
    let (id, c') = next_request_id c in
    send (to_root (ping id options))
      (record c' { responders = insert id (duration channel) c'.responders })

-- `ResponseFromRoot`: a request id with an answer. An answer of another kind than its responder is
-- dropped, and so is the responder.
abbrev pub deliver : Option Responder → Answer → Core → Core
deliver (some (unit channel)) (unit_answer res) c = send (delivered channel (unit_answer res)) c
deliver (some (str channel)) (str_answer res) c = send (delivered channel (str_answer res)) c
deliver (some (duration channel)) (duration_answer res) c =
    send (delivered channel (duration_answer res)) c
deliver _ _ c = c

unfoldable pub on_response_from_root : ℕ → Answer → Core → Core
unfolding send lookup remove
on_response_from_root id answer c =
    deliver (lookup id c.responders) answer (record c { responders = remove id c.responders })
