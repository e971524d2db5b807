-- ===== src/Config/V5.antt =====
-- gnosis_vpn-lib/src/config/v5.rs: a configuration file of version 5. It shares most sections with
-- version 6, has `buffer` and `max_surb_upstream` in place of `surb_balancing`, no strategy, and paths
-- that may list intermediates. The defaults that the file repeats are those of version 6.
pub mod Keys
pub mod Load
pub mod Migrate
pub mod Reported
