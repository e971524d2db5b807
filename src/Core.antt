-- ===== src/Core.antt =====
-- gnosis_vpn-lib/src/core/mod.rs: the application core, which takes events of the worker and results
-- of its runners one at a time. `State` is its record, `Target` the connection to the target
-- destination, `Safe` the safe and the start of the edge client, `Requests` the requests to root.
pub mod State
pub mod Target
pub mod Safe
pub mod Requests
pub mod Commands
pub mod Balances
pub mod Status
pub mod Runners
pub mod Connections
pub mod Dispatch
pub mod Total
pub mod Steps
pub mod NoPanic
pub mod Channels
pub mod Disconnecting
pub mod Reconnect
pub mod Connecting
pub mod Pings
pub mod Traces
pub mod Reports
pub mod Pseudonyms
