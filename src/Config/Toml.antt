-- ===== src/Config/Toml.antt =====
-- What gnosis_vpn-lib/src/config reads of a TOML file: its table, with the value of each key. The
-- parser is the library's. A text, a float, a Boolean, a date or an array is `other`.
use text.Mathlib.Text
use Prim.Native.String.{◌++◌}
use gnosis_vpn_client.Prelude
use gnosis_vpn_client.Prelude.{ℕ, String, Option, none, some, List, [], if◌then◌else◌}

-- An `i64`: `negative n` is -(n + 1).
pub data Integer : Type 0 where
  nonnegative negative : ℕ → Integer

mutual
  pub data Value : Type 0 where
    integer : Integer → Value
    other : ℕ → Value
    table : Table → Value

  pub data Table : Type 0 where
    end : Table
    entry : String → Value → Table → Table

abbrev pub as_table : Value → Option Table
as_table (table t) = some t
as_table (integer n) = none
as_table (other n) = none

abbrev pub as_integer : Value → Option Integer
as_integer (integer n) = some n
as_integer (other n) = none
as_integer (table t) = none

unfoldable pub get : String → Table → Option Value
get key end = none
get key (entry k v rest) = if Text.◌==◌ k key then some v else get key rest

-- `for (k, v) in table.iter()`, where the body pushes texts.
unfoldable pub each : (String → Value → List String) → Table → List String
each body end = []
each body (entry k v rest) = Prelude.◌++◌ (body k v) (each body rest)

-- The same where the value is a table, and nothing where it is not: `if let Some(t) = v.as_table()`.
abbrev pub each_in : (String → Value → List String) → Value → List String
each_in body (table t) = each body t
each_in body (integer n) = []
each_in body (other n) = []

-- `format!("{path}.{key}")`.
abbrev pub joined : String → String → String
joined path key = path ++ ("." ++ key)
