-- ===== src/Config/Read/Valid.antt =====
-- What holds of every configuration that is read, whatever the version of its file.
use gnosis_vpn_client.Prelude.{
  ℕ, ◌≤◌, String, Bool, true, false, Option, none, some, List, [], ◌∷◌, map, Result, ok, err, ◌≡◌,
  refl, arith, All, inl, inr, ◌⊎◌, ◌==◌, if◌then◌else◌, map_some, min, sym, ◌∙◌,
}
use gnosis_vpn_client.Config.Parts.{Config, Error, Edge}
use gnosis_vpn_client.Config.Toml.{
  Table, Value, Integer, nonnegative, negative, integer, other, table, get,
}
use gnosis_vpn_client.Config.V6.Checks.{validate_hops}
use gnosis_vpn_client.Config.V6.Load as V6
use gnosis_vpn_client.Config.V6.Sections
use gnosis_vpn_client.Config.V6.Valid.{IsValid, IsInRange, AreInRange, try_from-IsValid}
use gnosis_vpn_client.Config.V5.Load as V5
use gnosis_vpn_client.Config.V5.Migrate.{migrate, migrate-same, migrate_entry, migrate_path}
use gnosis_vpn_client.Config.V4
use gnosis_vpn_client.Config.V3
use gnosis_vpn_client.Config.Migrate.{
  migrate_v4, migrate_v3, name_entry, migrate_v3-same, migrate_v4-same,
}
use gnosis_vpn_client.Config.Read.{
  File, IoError, not_found, other_error, read, read_contents, read_table, read_found, read_version,
  converted,
}

-- `serde` hands the number of hops of a file to `validate_hops`, and takes its answer.
abbrev pub IsChecked : ℕ → Type 0
IsChecked h = (raw : ℕ) × (validate_hops raw ≡ ok h)

abbrev pub PathIsChecked : Option Sections.DestinationPath → Type 0
PathIsChecked (some (Sections.hops h)) = IsChecked h
PathIsChecked none = Unit

-- Versions 3 to 5 have the same paths.
abbrev pub OldPathIsChecked : Option V5.DestinationPath → Type 0
OldPathIsChecked (some (V5.intermediates p)) = Unit
OldPathIsChecked (some (V5.hops h)) = IsChecked h
OldPathIsChecked none = Unit

abbrev pub EachIsChecked {ℓ} : {D : Type ℓ} → (D → Type 0) → Option (List (ℕ × D)) → Type 0
EachIsChecked P (some dests) = All (λ e. P e.1) dests
EachIsChecked P none = Unit

-- What `serde` makes of the file has checked paths.
pub record IsDecoded (f : File) : Type 0 where
  pub v6 :
      (c : Sections.Config)
      → f.v6 ≡ ok c
      → EachIsChecked (λ (d : Sections.Destination). PathIsChecked d.path) c.destinations
  pub v5 :
      (c : V5.Config)
      → f.v5 ≡ ok c
      → EachIsChecked (λ (d : V5.Destination). OldPathIsChecked d.path) c.destinations
  pub v4 :
      (c : V4.Config)
      → f.v4 ≡ ok c
      → EachIsChecked (λ (d : V4.Destination). OldPathIsChecked d.path) c.destinations
  pub v3 :
      (c : V3.Config)
      → f.v3 ≡ ok c
      → EachIsChecked (λ (d : V4.Destination). OldPathIsChecked d.path) c.destinations

checked-le : (h : ℕ) → IsChecked h → h ≤ 3
unfolding validate_hops
checked-le h (raw, e) = ground arith

path-IsInRange : (p : Option Sections.DestinationPath) → PathIsChecked p → IsInRange p
path-IsInRange (some (Sections.hops h)) c = checked-le h c
path-IsInRange none c = tt

min_le : (n : ℕ) → min n 3 ≤ 3
min_le n = omega arith

checked-AreInRange :
    (d : Option (List (ℕ × Sections.Destination)))
    → EachIsChecked (λ (e : Sections.Destination). PathIsChecked e.path) d
    → AreInRange d
checked-AreInRange none c = tt
checked-AreInRange (some []) c = tt
checked-AreInRange (some ((id, d) ∷ rest)) c =
    (path-IsInRange d.path c.0, checked-AreInRange (some rest) c.1)

old_path-IsInRange :
    (p : Option V5.DestinationPath) → OldPathIsChecked p → IsInRange (map_some migrate_path p)
old_path-IsInRange (some (V5.intermediates p)) c = min_le _
old_path-IsInRange (some (V5.hops h)) c = checked-le h c
old_path-IsInRange none c = tt

old-AreInRange :
    (d : Option (List (ℕ × V5.Destination)))
    → EachIsChecked (λ (e : V5.Destination). OldPathIsChecked e.path) d
    → AreInRange (map_some (map migrate_entry) d)
old-AreInRange none c = tt
old-AreInRange (some []) c = tt
old-AreInRange (some ((id, d) ∷ rest)) c =
    (old_path-IsInRange d.path c.0, old-AreInRange (some rest) c.1)

named-checked :
    (l : Edge) (d : Option (List (ℕ × V4.Destination)))
    → EachIsChecked (λ (e : V4.Destination). OldPathIsChecked e.path) d
    → EachIsChecked
        (λ (e : V5.Destination). OldPathIsChecked e.path)
        (map_some (map (name_entry l)) d)
named-checked l none c = tt
named-checked l (some []) c = tt
named-checked l (some (e ∷ rest)) c = (c.0, named-checked l (some rest) c.1)

-- Where a configuration comes from: one of version 6, as it stands or migrated.
abbrev Source : Edge → Config → Type 0
Source l c = (v : Sections.Config) × AreInRange v.destinations × (V6.try_from l v ≡ ok c)

converted-eq-ok :
    {A : Type 0} (r : Result A String) (convert : A → Result Config Error) (keys : List String)
    {c : Config}
    → (converted r convert keys).0 ≡ ok c
    → (s : A) × (r ≡ ok s) × (convert s ≡ ok c)
converted-eq-ok (ok s) convert keys h = (s, refl, h)
converted-eq-ok (err e) convert keys h = cc

either-eq-ok :
    (b : Bool) (x y : Result Config Error × List String) {c : Config}
    → (if b then x else y).0 ≡ ok c
    → (x.0 ≡ ok c) ⊎ (y.0 ≡ ok c)
either-eq-ok true x y h = inl h
either-eq-ok false x y h = inr h

module _ (l : Edge) (f : File) (default_free : l.default_strategy.channel_allowlist ≡ none)
    (decoded : IsDecoded f) {c : Config} where
  v3-Source : (keys : List String) → (converted f.v3 (V3.try_from l) keys).0 ≡ ok c → Source l c
  v3-Source keys h =
      let (s, e, made) = converted-eq-ok f.v3 (V3.try_from l) keys h in
      let s4 = migrate_v3 s in
      let same =
        migrate_v3-same l s
        ∙ migrate_v4-same l s4
        ∙ migrate-same l (migrate_v4 l s4) default_free in
      (
        migrate (migrate_v4 l s4),
        old-AreInRange _ (named-checked l _ (decoded.v3 s e)),
        sym same ∙ made,
      )

  v4-Source : (keys : List String) → (converted f.v4 (V4.try_from l) keys).0 ≡ ok c → Source l c
  v4-Source keys h =
      let (s, e, made) = converted-eq-ok f.v4 (V4.try_from l) keys h in
      (
        migrate (migrate_v4 l s),
        old-AreInRange _ (named-checked l _ (decoded.v4 s e)),
        sym (migrate_v4-same l s ∙ migrate-same l (migrate_v4 l s) default_free) ∙ made,
      )

  v5-Source : (keys : List String) → (converted f.v5 (V5.try_from l) keys).0 ≡ ok c → Source l c
  v5-Source keys h =
      let (s, e, made) = converted-eq-ok f.v5 (V5.try_from l) keys h in
      (migrate s, old-AreInRange _ (decoded.v5 s e), sym (migrate-same l s default_free) ∙ made)

  v6-Source : (keys : List String) → (converted f.v6 (V6.try_from l) keys).0 ≡ ok c → Source l c
  v6-Source keys h =
      let (s, e, made) = converted-eq-ok f.v6 (V6.try_from l) keys h in
      (s, checked-AreInRange _ (decoded.v6 s e), made)

  read_version-Source : (t : Table) (n : Integer) → (read_version l f t n).0 ≡ ok c → Source l c
  unfolding read_version
  read_version-Source t (negative n) h = cc
  read_version-Source t (nonnegative n) h = elim (either-eq-ok (n == 3) _ _ h) [
    | inl h3 ↦ v3-Source _ h3
    | inr past3 ↦ elim (either-eq-ok (n == 4) _ _ past3) [
      | inl h4 ↦ v4-Source _ h4
      | inr past4 ↦ elim (either-eq-ok (n == 5) _ _ past4) [
        | inl h5 ↦ v5-Source _ h5
        | inr past5 ↦ elim (either-eq-ok (n == 6) _ _ past5) [
          | inl h6 ↦ v6-Source _ h6
          | inr never ↦ cc
        ]
      ]
    ]
  ]

  read_found-Source : (t : Table) (v : Option Value) → (read_found l f t v).0 ≡ ok c → Source l c
  unfolding read_found
  read_found-Source t (some (integer n)) h = read_version-Source t n h
  read_found-Source t (some (other n)) h = cc
  read_found-Source t (some (table u)) h = cc
  read_found-Source t none h = cc

  read_table-Source : (r : Result Table String) → (read_table l f r).0 ≡ ok c → Source l c
  unfolding read_table
  read_table-Source (ok t) h = read_found-Source t (get "version" t) h
  read_table-Source (err e) h = cc

  read_contents-Source :
      (r : Result (Unit {0}) IoError) → (read_contents l f r).0 ≡ ok c → Source l c
  unfolding read_contents
  read_contents-Source (ok done) h = read_table-Source f.parsed h
  read_contents-Source (err not_found) h = cc
  read_contents-Source (err (other_error e)) h = cc

-- A configuration that is read, whatever the version of its file, has a balancer for both of ping and
-- main or for neither, has a destination, and keeps each destination under its own id and with a
-- routing that the edge library makes of at most three hops. This takes the decoder at its word, that
-- each number of hops has passed validate_hops, and a default strategy without an allowlist.
pub read-IsValid :
    (l : Edge) (f : File) (c : Config)
    → l.default_strategy.channel_allowlist ≡ none
    → IsDecoded f
    → (read l f).0 ≡ ok c
    → IsValid l c
unfolding read
read-IsValid l f c default_free decoded h =
    let (v, range, made) = read_contents-Source l f default_free decoded f.contents h in
    try_from-IsValid l v c range made
