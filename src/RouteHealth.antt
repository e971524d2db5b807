-- ===== src/RouteHealth.antt =====
-- gnosis_vpn-lib/src/route_health.rs: the tracker of one destination's route. `Tracker` is the
-- record with its queries and the scheduling of health checks, `Transitions` the methods that move
-- the state.
pub mod Tracker
pub mod Transitions
pub mod Machine
pub mod Invariant
pub mod Live
pub mod Backoff
pub mod Peering
pub mod Runner
pub mod Schedule
pub mod Readiness
