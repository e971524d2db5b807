-- ===== src/Config/Schema/Agree.antt =====
-- That loops over the keys of a table agree with a schema: the rules that take a chain of tests apart.
use text.Mathlib.Text.{◌==◌}
use text.Mathlib.TextEquality.{eq_iff}
use mathlib.Core.Path.{fun_ext}
use gnosis_vpn_client.Prelude.{
  String, Bool, true, false, not, ◌||◌, List, ◌≡◌, refl, ap, inl, inr, ◌∙◌, Bool-cases,
  if◌then◌else◌,
}
use gnosis_vpn_client.Config.Toml.{Value, Table, each, each_in}

module _ {ℓ} {A : Type ℓ} where
  pub if_or :
      (a b : Bool) (x y : A) → (if a || b then x else y) ≡ (if a then x else if b then x else y)
  if_or true b x y = refl
  if_or false b x y = refl

  pub if_not : (a : Bool) (x y : A) → (if not a then x else y) ≡ (if a then y else x)
  if_not true x y = refl
  if_not false x y = refl

  -- In the branch of a key, the key is known.
  if_key :
      (k n : String) (f : String → A) (y : A)
      → (if k == n then f k else y) ≡ (if k == n then f n else y)
  if_key k n f y = elim (Bool-cases (k == n)) [
    | inl same ↦ rw same (ap f ((eq_iff k n).0 same))
    | inr differs ↦ rw differs
  ]

  pub if_key_else :
      (k n : String) (f : String → A) {y z : A}
      → y ≡ z
      → (if k == n then f k else y) ≡ (if k == n then f n else z)
  if_key_else k n f {y} same = if_key k n f y ∙ ap (λ (x : A). if k == n then f n else x) same

pub each_in-same :
    (f g : String → Value → List String)
    → ((k : String) (v : Value) → f k v ≡ g k v)
    → (w : Value) → each_in f w ≡ each_in g w
each_in-same f g same w =
    ap (λ (h : String → Value → List String). each_in h w) (fun_ext (λ k. fun_ext (same k)))

pub each-same :
    (f g : String → Value → List String)
    → ((k : String) (v : Value) → f k v ≡ g k v)
    → (t : Table) → each f t ≡ each g t
each-same f g same t =
    ap (λ (h : String → Value → List String). each h t) (fun_ext (λ k. fun_ext (same k)))
