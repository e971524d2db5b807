-- ===== src/Routing.antt =====
-- The routing of the root daemon: the actor that owns routes and killswitch
-- (gnosis_vpn-root/src/routing_actor.rs) and the router for Linux
-- (gnosis_vpn-root/src/routing/linux.rs).
pub mod Actor
pub mod Monitor
pub mod Linux
pub mod Kernel
