-- ===== src/Config/Schema.antt =====
-- A description of the keys that a configuration file may have, as data, and the keys of a table that
-- it does not name. It is independent of the loops of `wrong_keys`.
pub mod Agree
use text.Mathlib.Text.{◌==◌}
use gnosis_vpn_client.Prelude.{String, List, [], ◌∷◌, if◌then◌else◌}
use gnosis_vpn_client.Config.Toml.{Value, table, integer, other, Table, each, each_in, joined}

-- Any value; a table with these keys, any other value counting as an empty table; or a table whose
-- keys are free and whose values are tables with these keys.
mutual
  pub data Schema : Type 0 where
    any : Schema
    keys : Fields → Schema
    ids : Fields → Schema

  pub data Fields : Type 0 where
    nothing_else : Fields
    key : String → Schema → Fields → Fields

abbrev pub unknown_entry :
    ((String → String) → String → Value → List String) → String → String → Value → List String
unknown_entry inside path id (table t) = each (inside (joined (joined path id))) t
unknown_entry inside path id (integer n) = joined path id ∷ []
unknown_entry inside path id (other n) = joined path id ∷ []

-- The keys of a value that its schema does not name, given the path of the value. The path of a key is
-- the function `name`.
unfoldable mutual
  pub unknown : Schema → String → Value → List String
  unknown any path v = []
  unknown (keys fs) path v = each_in (unknown_key fs (joined path)) v
  unknown (ids fs) path v = each_in (unknown_entry (unknown_key fs) path) v

  pub unknown_key : Fields → (String → String) → String → Value → List String
  unknown_key nothing_else name k v = name k ∷ []
  unknown_key (key n s fs) name k v =
      if k == n then unknown s (name n) v else unknown_key fs name k v

-- The keys of a whole file that a schema does not name.
unfoldable pub unknown_keys : Fields → Table → List String
unfolding unknown
unknown_keys fs = each (unknown_key fs (λ k. k))
