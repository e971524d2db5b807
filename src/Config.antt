-- ===== src/Config.antt =====
-- gnosis_vpn-lib/src/config: the configuration of the client, read from a file of one of four
-- versions.
pub mod Parts
pub mod Toml
pub mod Schema
pub mod V6
pub mod V5
pub mod V4
pub mod V3
pub mod Migrate
pub mod Read
