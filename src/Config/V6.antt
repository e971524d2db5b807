-- ===== src/Config/V6.antt =====
-- gnosis_vpn-lib/src/config/v6.rs: the sections of a configuration file of version 6, the checks of
-- their values while they are read, and the conversion to the configuration. `Connection.Options` has
-- the options that it makes, and `Keys` the search for keys that are not supported.
--
-- A duration, an address of an exit and the float of an acknowledgement rate are numbers, as in the
-- options. A value that `serde` hands to a check is the argument of the check.
pub mod Keys
pub mod Known
pub mod Checks
pub mod Sections
pub mod Convert
pub mod Load
pub mod Valid
