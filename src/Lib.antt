-- ===== src/Lib.antt =====
-- Gnosis VPN client: the root daemon, its routing, the worker, the application core and the
-- tracking of routes.
--
-- The client runs as a root process, which owns routing and the killswitch, and an unprivileged
-- worker. The worker runs the core of gnosis_vpn-lib, which takes events of the worker and results
-- of its own tasks one at a time, and keeps a route tracker for each destination. A connection is
-- brought up by a task that reports its progress to the core, asks root for the tunnel and the
-- killswitch, and is taken down by another task. Root starts, stops and restarts the worker, passes
-- commands on to it, and hands all changes of routes and firewall to its routing actor.
--
-- The files and what they model:
-- - Types: the data that the parts share (gnosis_vpn-lib/src/route_health.rs,
--   connection/destination.rs, connection/options.rs, gvpn_client.rs). A text or an address that
--   the code only compares is a number. Durations are nanoseconds, and times are given by the
--   caller.
-- - Runtime: cancellation tokens and the spawning of tasks, as a trace of calls. What a task does
--   is modelled where the task is; that it runs until its token is cancelled is what the code
--   relies on.
-- - RouteHealth (gnosis_vpn-lib/src/route_health.rs): `Tracker` has the record `RouteHealth`, its
--   constructor, queries, backoff and the spawning of health checks; `Transitions` has the methods
--   `peers`, `any_channel_available`, `health_check_result`, `connecting` (here
--   `start_connecting`), `disconnecting`, `tunnel_ping_result` and `with_error`; `Runner` has
--   `run_health_check`. A method returns the new record with the trace that it made. `Machine`
--   makes the methods the steps of one machine, and `Schedule` adds the pending check, whose
--   outcomes alone are reported.
-- - Connection: `Options` and `Surbs` (connection/options.rs), `Up` (connection/up/mod.rs), `Down`
--   (connection/down/mod.rs), `DownRunner` (connection/down/runner.rs), `Runner`
--   (connection/up/runner.rs, the method `run`: what the exit, root and the edge client answer is
--   its argument, what it does a trace, newest first), `Steps` (the single steps of that method
--   with their retries and timeouts; retrying is an interface with laws), `PseudonymCache`
--   (connection/pseudonym_cache.rs).
-- - Config (gnosis_vpn-lib/src/config): `Read` has `read` of mod.rs, `V3` to `V6` the sections of
--   the four versions, their conversion (`try_from`) and the search for unsupported keys (`Keys`),
--   `Toml` the table of a file, `Parts` the configuration. `Migrate` and `V5.Migrate` say what a
--   file becomes in the next version, and `Schema` describes the keys of a file. A float is the
--   number of its bits.
-- - Balance (balance.rs): `to_funding_issues`. Balances are numbers in their smallest unit.
-- - Core (gnosis_vpn-lib/src/core/mod.rs): `State` has the record `Core` and its phases; `Target`
--   has `act_on_target`, `disconnect_from_connection`, `force_reconnect` and the spawning of
--   connection runners; `Safe` the way from no safe to a running edge client; `Requests` the
--   requests to root and its answers; `Commands` the commands that change the state; `Runners` the
--   results about balances, channels and peers; `Connections` the results about connections;
--   `Dispatch` has `on_results` and `on_event`; `Status` and `Balances` the commands Status and
--   Balance with their responses (gnosis_vpn-lib/src/command/mod.rs, command/balance_response.rs);
--   `Traces` has the loop of `start` over what arrives. A handler that the source can leave by the
--   panic of an `unwrap` returns an Option.
-- - Root (gnosis_vpn-root/src/main.rs, with the messages of gnosis_vpn-lib/src/command/mod.rs and
--   event/mod.rs): `Messages`, `State` (the record `DaemonState`; a handler changes it and may end
--   with an exit code), `Worker` (starting the worker, and the cleanup when it is told to stop),
--   `Commands` (`incoming_socket_command` and what it calls), `Lifecycle` (signals, new
--   configurations, exits, expiry, network changes), `Requests` (what the worker writes, and
--   pings), `KeepAlive` (`keep_alive_timer`), `Loop` (`daemon_loop` over a list of inputs,
--   `daemon`). What the operating system and the routing actor answer to a handler is its argument,
--   and what the daemon did is a log.
-- - Routing (gnosis_vpn-root/src/routing_actor.rs, routing/linux.rs): `Actor` has the methods of
--   the actor, `Monitor` its task with the debounce of network events, `Linux` the router for Linux
--   over the operations of routing/route_ops.rs and routing/wg_ops.rs, which are an interface with
--   laws (`Linux.Rollback`), and `Kernel` the choice of a way among the kernel's routes
--   (routing/route_ops_linux.rs).
-- - Killswitch (gnosis_vpn-lib/src/killswitch/linux.rs): the rules for Linux, as data.
-- - Worker (gnosis_vpn-worker/src/main.rs): the loop between root and the core.
--
-- `act_on_target` and `disconnect_from_connection` call each other. They take fuel, and two calls
-- are enough, since a disconnection leaves the edge client idle.
--
-- Machine integers: `u32` and `u64` counters wrap around as in a release build. Sums of message
-- counts are not cut at their width. The one product of durations without a bound, that of the
-- intervals of the health checks while a tunnel comes up, panics above the largest `Duration`: the
-- core's handler of a health check then returns none. Failures of route deletions and of firewall
-- resets are answers of the system; a refresh of the firewall's addresses that fails is only
-- logged, and counts as what the firewall was last asked.
--
-- Not modelled: the setup of the core, the commands that pass on what the edge client tells
-- (NerdStats, Telemetry), the calls of the edge client and their retries in the core's own tasks,
-- logging, the parser of configuration files, router and killswitch for macOS, and the command-line
-- tool. The edge client, the chain, HTTP, WireGuard and the operating system are libraries or other
-- programs; what they answer is an argument.
pub mod Prelude
pub mod Types
pub mod Runtime
pub mod RouteHealth
pub mod Connection
pub mod Config
pub mod Balance
pub mod Core
pub mod Killswitch
pub mod Root
pub mod Routing
pub mod Worker
pub mod Examples
