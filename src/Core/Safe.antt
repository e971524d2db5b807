-- ===== src/Core/Safe.antt =====
-- gnosis_vpn-lib/src/core/mod.rs: the way to a safe and to the edge client. Of the errors of a runner
-- only the text is kept. `read_safe` is given as the safe on disk, if one could be read.
use gnosis_vpn_client.Prelude.{
  ℕ, String, ◌||◌, Option, none, some, Result, ok, err, ◌==◌, if◌then◌else◌,
}
use gnosis_vpn_client.Types.{from_secs}
use gnosis_vpn_client.Runtime.{
  renew, query_safe, node_balance, safe_deployment, persist_safe, hopr_runner, funding_tool,
}
use gnosis_vpn_client.Balance.{
  FundingTool, not_started, in_progress, completed_success, completed_error, PreSafe,
}
use gnosis_vpn_client.Core.State.{
  Core, Phase, CheckingSafe, checking_safe, deploying_safe, starting, SafeModule, Querying, init,
  success, error, spawn_runner, spawn_with, send, wrong_phase, tool_started, tool_in_progress,
  tool_done, answered_funding_tool,
}

unfoldable pub spawn_query_safe_runner : ℕ → Core → Core
unfolding spawn_with
spawn_query_safe_runner delay c =
    spawn_with c.incentive_operations c.cancel_presafe_queries delay query_safe c

unfoldable pub spawn_node_balance_runner : ℕ → Core → Core
unfolding spawn_with
spawn_node_balance_runner delay c =
    spawn_with c.incentive_operations c.cancel_presafe_queries delay node_balance c

unfoldable pub spawn_store_safe : SafeModule → ℕ → Core → Core
unfolding spawn_runner
spawn_store_safe module_ delay c =
    spawn_runner c.cancel_on_shutdown delay
      (persist_safe module_.safe_address module_.module_address) c

unfoldable pub spawn_hopr_runner : SafeModule → ℕ → Core → Core
unfolding spawn_runner
spawn_hopr_runner module_ delay c =
    spawn_runner c.cancel_on_shutdown delay
      (hopr_runner module_.safe_address module_.module_address) c

unfoldable pub start_hopr_runner : SafeModule → ℕ → Core → Core
unfolding spawn_hopr_runner
start_hopr_runner module_ delay c =
    spawn_hopr_runner module_ delay (record c { phase = starting none none })

unfoldable pub retry_hopr_runner : String → SafeModule → ℕ → Core → Core
unfolding spawn_hopr_runner
retry_hopr_runner reason module_ delay c =
    spawn_hopr_runner module_ delay (record c { phase = starting none (some reason) })

unfoldable pub cancel_presafe : Core → Core
unfolding renew
cancel_presafe c =
    let (token, e) = renew c.cancel_on_shutdown c.cancel_presafe_queries c.env in
    record c { cancel_presafe_queries = token; env = e }

-- The `if let` of `trigger_deploy_safe` on the two queries.
unfoldable pub deploy_when_funded : Querying PreSafe → Querying (Option SafeModule) → Core → Core
unfolding cancel_presafe spawn_with
deploy_when_funded (success presafe) (success none) c =
    if presafe.node_xdai == 0 || presafe.node_wxhopr == 0
    then c
    else (let c' =
          cancel_presafe (record c { phase = deploying_safe (success presafe) (success none) }) in
        spawn_with c'.incentive_operations c'.cancel_on_shutdown 0 safe_deployment c')
deploy_when_funded _ _ c = c

abbrev deploy_in : Phase → Core → Core
deploy_in (checking_safe s) c = deploy_when_funded s.node_balance s.query_safe c
deploy_in _ c = c

unfoldable pub trigger_deploy_safe : Core → Core
unfolding deploy_when_funded
trigger_deploy_safe c = deploy_in c.phase c

unfoldable pub on_node_balance : Phase → Result PreSafe String → Core → Core
unfolding spawn_node_balance_runner trigger_deploy_safe
on_node_balance (checking_safe s) (ok presafe) c = trigger_deploy_safe (
    spawn_node_balance_runner (from_secs 10)
      (record c { phase = checking_safe (record s { node_balance = success presafe }) }))
on_node_balance (checking_safe s) (err e) c =
    spawn_node_balance_runner (from_secs 10)
      (record c { phase = checking_safe (record s { node_balance = error e }) })
on_node_balance _ res c = c

unfoldable pub on_results_node_balance : Result PreSafe String → Core → Core
unfolding on_node_balance
on_results_node_balance res c = on_node_balance c.phase res c

unfoldable pub on_query_safe : Phase → Result (Option SafeModule) String → Core → Core
unfolding cancel_presafe start_hopr_runner spawn_store_safe spawn_query_safe_runner
    trigger_deploy_safe
on_query_safe (checking_safe s) (ok (some module_)) c =
    spawn_store_safe module_ 0 (start_hopr_runner module_ 0 (cancel_presafe c))
on_query_safe (checking_safe s) (ok none) c = trigger_deploy_safe (
    spawn_query_safe_runner (from_secs 10)
      (record c { phase = checking_safe (record s { query_safe = success none }) }))
on_query_safe (checking_safe s) (err e) c =
    spawn_query_safe_runner (from_secs 10)
      (record c { phase = checking_safe (record s { query_safe = error e }) })
on_query_safe _ res c = c

unfoldable pub on_results_query_safe : Result (Option SafeModule) String → Core → Core
unfolding on_query_safe
on_results_query_safe res c = on_query_safe c.phase res c

unfoldable pub on_deploy_safe : Phase → Result SafeModule String → Core → Core
unfolding start_hopr_runner spawn_store_safe spawn_node_balance_runner spawn_query_safe_runner
on_deploy_safe (deploying_safe balance query) (ok module_) c =
    spawn_store_safe module_ 0 (start_hopr_runner module_ 0 c)
on_deploy_safe (deploying_safe balance query) (err e) c = spawn_query_safe_runner (from_secs 10) (
    spawn_node_balance_runner (from_secs 10) (record c {
      phase = checking_safe (record {
        node_balance = balance;
        query_safe = query;
        funding_tool = not_started;
        deploy_safe_error = some e;
      });
    }))
on_deploy_safe _ res c = c

unfoldable pub on_results_deploy_safe : Result SafeModule String → Core → Core
unfolding on_deploy_safe
on_results_deploy_safe res c = on_deploy_safe c.phase res c

abbrev tool_after : Result (Option String) String → FundingTool
tool_after (ok none) = completed_success
tool_after (ok (some reason)) = completed_error reason
tool_after (err e) = completed_error e

unfoldable pub on_funding_tool : Phase → Result (Option String) String → Core → Core
on_funding_tool (checking_safe s) res c = record c {
  phase = checking_safe (record s { funding_tool = tool_after res });
}
on_funding_tool _ res c = c

unfoldable pub on_results_funding_tool : Result (Option String) String → Core → Core
unfolding on_funding_tool
on_results_funding_tool res c = on_funding_tool c.phase res c

-- `Some(safe)` is a safe read from disk. Any error sends the core to the chain.
unfoldable pub determine_next_phase_from_safe_disk_query : Option SafeModule → Core → Core
unfolding start_hopr_runner spawn_query_safe_runner spawn_node_balance_runner
determine_next_phase_from_safe_disk_query (some module_) c = start_hopr_runner module_ 0 c
determine_next_phase_from_safe_disk_query none c = spawn_node_balance_runner 0 (
    spawn_query_safe_runner 0 (record c {
      phase = checking_safe (record {
        node_balance = init;
        query_safe = init;
        funding_tool = not_started;
        deploy_safe_error = none;
      });
    }))

-- The command `FundingTool`, by the phase and by the state of the tool.
abbrev start_tool : FundingTool → ℕ → CheckingSafe → Core → Core
start_tool in_progress secret s c = send (answered_funding_tool tool_in_progress) c
start_tool completed_success secret s c = send (answered_funding_tool tool_done) c
start_tool _ secret s c = send (answered_funding_tool tool_started) (
    spawn_runner c.cancel_on_shutdown 0 (funding_tool secret)
      (record c { phase = checking_safe (record s { funding_tool = in_progress }) }))

abbrev command_funding_tool_in : Phase → ℕ → Core → Core
command_funding_tool_in (checking_safe s) secret c = start_tool s.funding_tool secret s c
command_funding_tool_in _ secret c = send (answered_funding_tool wrong_phase) c

unfoldable pub command_funding_tool : ℕ → Core → Core
unfolding send spawn_runner
command_funding_tool secret c = command_funding_tool_in c.phase secret c
