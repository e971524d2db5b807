-- ===== src/Connection.antt =====
-- gnosis_vpn-lib/src/connection: the state of a connection that is being made (`Up`) or taken down
-- (`Down`), the runner that makes one, and the pseudonyms kept between two connections.
pub mod Options
pub mod Surbs
pub mod Up
pub mod Down
pub mod DownRunner
pub mod Runner
pub mod Attempt
pub mod Steps
pub mod PseudonymCache
