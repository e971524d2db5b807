-- ===== src/Config/Read.antt =====
-- gnosis_vpn-lib/src/config/mod.rs, `read`. What the file system and the parser answer is the argument
-- `File`: the contents of the file, its table, and the sections that `serde` makes of it for each
-- version. The result is with the keys that are warned of.
pub mod Valid
pub mod Errors
use gnosis_vpn_client.Prelude.{
  ℕ, ◌-◌, ◌%◌, String, Option, none, some, List, [], Result, ok, err, ◌==◌, if◌then◌else◌,
}
use gnosis_vpn_client.Config.Parts.{
  Config, Error, no_file, version_not_found, io, toml_deserialization, version_mismatch, Edge,
}
use gnosis_vpn_client.Config.Toml.{
  Table, Value, Integer, nonnegative, negative, get, integer, other, table,
}
use gnosis_vpn_client.Config.V3
use gnosis_vpn_client.Config.V3.Keys as V3Keys
use gnosis_vpn_client.Config.V4
use gnosis_vpn_client.Config.V4.Keys as V4Keys
use gnosis_vpn_client.Config.V5.Load as V5
use gnosis_vpn_client.Config.V5.Keys as V5Keys
use gnosis_vpn_client.Config.V6.Sections as V6
use gnosis_vpn_client.Config.V6.Load as V6Load
use gnosis_vpn_client.Config.V6.Keys as V6Keys

pub data IoError : Type 0 where
  not_found : IoError
  other_error : String → IoError

pub record File : Type 0 where
  pub contents : Result (Unit {0}) IoError
  pub parsed : Result Table String
  pub v3 : Result V3.Config String
  pub v4 : Result V4.Config String
  pub v5 : Result V5.Config String
  pub v6 : Result V6.Config String

-- `version as u8`.
unfoldable pub as_u8 : Integer → ℕ
as_u8 (nonnegative n) = n % 256
as_u8 (negative n) = 255 - n % 256

-- One arm of the match on the version.
abbrev pub converted :
    {A : Type 0}
    → Result A String
    → (A → Result Config Error)
    → List String
    → Result Config Error × List String
converted (err e) convert keys = (err (toml_deserialization e), [])
converted (ok sections) convert keys = (convert sections, keys)

-- The match on the version.
unfoldable pub read_version : Edge → File → Table → Integer → Result Config Error × List String
unfolding as_u8
read_version l f t (negative n) = (err (version_mismatch (as_u8 (negative n))), [])
read_version l f t (nonnegative n) =
    if n == 3
    then converted f.v3 (V3.try_from l) (V3Keys.wrong_keys t)
    else if n == 4
    then converted f.v4 (V4.try_from l) (V4Keys.wrong_keys t)
    else if n == 5
    then converted f.v5 (V5.try_from l) (V5Keys.wrong_keys t)
    else if n == 6
    then converted f.v6 (V6Load.try_from l) (V6Keys.wrong_keys t)
    else (err (version_mismatch (as_u8 (nonnegative n))), [])

unfoldable pub read_found : Edge → File → Table → Option Value → Result Config Error × List String
unfolding read_version
read_found l f t (some (integer n)) = read_version l f t n
read_found l f t (some (other n)) = (err version_not_found, [])
read_found l f t (some (table u)) = (err version_not_found, [])
read_found l f t none = (err version_not_found, [])

unfoldable pub read_table : Edge → File → Result Table String → Result Config Error × List String
unfolding read_found
read_table l f (err e) = (err (toml_deserialization e), [])
read_table l f (ok t) = read_found l f t (get "version" t)

unfoldable pub read_contents :
    Edge → File → Result (Unit {0}) IoError → Result Config Error × List String
unfolding read_table
read_contents l f (err not_found) = (err no_file, [])
read_contents l f (err (other_error e)) = (err (io e), [])
read_contents l f (ok done) = read_table l f f.parsed

unfoldable pub read : Edge → File → Result Config Error × List String
unfolding read_contents
read l f = read_contents l f f.contents
