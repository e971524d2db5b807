-- ===== src/Root.antt =====
-- gnosis_vpn-root/src/main.rs: the root daemon. It answers commands of the socket, starts and stops
-- the worker process, passes messages between the worker and the routing actor, and counts down to
-- the end of an idle worker. `State` is its record, `KeepAlive` the timer, and the other modules
-- have the handlers.
pub mod Messages
pub mod State
pub mod KeepAlive
pub mod Worker
pub mod Commands
pub mod Lifecycle
pub mod Requests
pub mod Loop
