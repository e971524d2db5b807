-- ===== src/Prelude/Maps.antt =====
-- Maps with numbers as keys, as association lists in which a key stands once.
use Prim.Native.Nat.{ℕ, ◌<◌, ◌≤◌}
use mathlib.Core.Path.{◌≡◌, refl}
use mathlib.Core.List.{List, [], ◌∷◌, map}
use mathlib.Core.Option.{Option, none, some}
use native.Mathlib.Omega.{arith}
use mathlib.Core.Bool.{false}
use mathlib.Core.Logic.{inl, inr}
use gnosis_vpn_client.Prelude.Tests.{◌==◌, if◌then◌else◌, Bool-cases}
use gnosis_vpn_client.Prelude.Lists.{All, is_empty}

module _ {ℓ} {V : Type ℓ} where
  unfoldable pub lookup : ℕ → List (ℕ × V) → Option V
  lookup key [] = none
  lookup key ((here, value) ∷ rest) = if here == key then some value else lookup key rest

  unfoldable pub insert : ℕ → V → List (ℕ × V) → List (ℕ × V)
  insert key value [] = (key, value) ∷ []
  insert key value ((here, old) ∷ rest) =
      if here == key then (key, value) ∷ rest else (here, old) ∷ insert key value rest

  unfoldable pub remove : ℕ → List (ℕ × V) → List (ℕ × V)
  remove k [] = []
  remove k ((j, w) ∷ m) = let rest = remove k m in if j == k then rest else (j, w) ∷ rest

  pub lookup-insert :
      (k j : ℕ) (v : V) (m : List (ℕ × V))
      → lookup j (insert k v m) ≡ (if k == j then some v else lookup j m)
  unfolding lookup insert
  lookup-insert k j v [] = refl
  lookup-insert k j v (entry ∷ m) = ground (arith, lookup-insert k j v m)

  pub lookup-remove :
      (k j : ℕ) (m : List (ℕ × V)) → lookup j (remove k m) ≡ (if k == j then none else lookup j m)
  unfolding lookup remove
  lookup-remove k j [] = ground arith
  lookup-remove k j ((i, w) ∷ m) = ground (arith, lookup-remove k j m)

abbrev pub keys {ℓ} : {V : Type ℓ} → List (ℕ × V) → List ℕ
keys m = map (λ e. e.0) m

module _ {ℓ} {V : Type ℓ} where
  pub lookup-insert_self : (k : ℕ) (v : V) (m : List (ℕ × V)) → lookup k (insert k v m) ≡ some v
  lookup-insert_self k v m = ground (arith, lookup-insert k k v m)

  pub lookup-remove_self : (k : ℕ) (m : List (ℕ × V)) → lookup k (remove k m) ≡ none
  lookup-remove_self k m = ground (arith, lookup-remove k k m)

  -- Every key is below a bound.
  abbrev pub KeysBelow : ℕ → List (ℕ × V) → Type 0
  KeysBelow n [] = Unit {0}
  KeysBelow n ((k, v) ∷ m) = (k < n) × KeysBelow n m

  pub lookup-above : (n k : ℕ) (m : List (ℕ × V)) → KeysBelow n m → n ≤ k → lookup k m ≡ none
  unfolding lookup
  lookup-above n k [] b h = refl
  lookup-above n k ((j, v) ∷ m) b h = ground (arith, lookup-above n k m b.1 h)

  pub KeysBelow-mono : (n n' : ℕ) (m : List (ℕ × V)) → n ≤ n' → KeysBelow n m → KeysBelow n' m
  KeysBelow-mono n n' [] h b = tt
  KeysBelow-mono n n' ((j, v) ∷ m) h b = (omega arith, KeysBelow-mono n n' m h b.1)

  pub KeysBelow-insert :
      (n k : ℕ) (v : V) (m : List (ℕ × V)) → KeysBelow n m → k < n → KeysBelow n (insert k v m)
  unfolding insert
  KeysBelow-insert n k v [] b h = (h, tt)
  KeysBelow-insert n k v ((j, w) ∷ m) b h = ground (arith, KeysBelow-insert n k v m b.1 h)

  pub KeysBelow-remove : (n k : ℕ) (m : List (ℕ × V)) → KeysBelow n m → KeysBelow n (remove k m)
  unfolding remove
  KeysBelow-remove n k [] b = tt
  KeysBelow-remove n k ((j, w) ∷ m) b = ground (arith, KeysBelow-remove n k m b.1)

  pub remove-absent : (k : ℕ) (m : List (ℕ × V)) → lookup k m ≡ none → remove k m ≡ m
  unfolding lookup remove
  remove-absent k [] h = refl
  remove-absent k ((j, w) ∷ m) h = ground (arith, λ (e : lookup k m ≡ none). remove-absent k m e)

  pub lookup-insert_fresh :
      (n j : ℕ) (v w : V) (m : List (ℕ × V))
      → KeysBelow n m
      → lookup j m ≡ some w
      → lookup j (insert n v m) ≡ some w
  lookup-insert_fresh n j v w m b h =
      ground (arith, lookup-insert n j v m, λ (e : n ≤ j). lookup-above n j m b e)

-- A predicate of every entry is kept by an insertion of one that has it.
pub All-insert {ℓ κ} :
    {V : Type ℓ} (P : ℕ × V → Type κ) (k : ℕ) (v : V) (m : List (ℕ × V))
    → All P m
    → P (k, v)
    → All P (insert k v m)
unfolding insert
All-insert P k v [] a p = (p, tt)
All-insert P k v ((j, w) ∷ m) a p = elim (Bool-cases (j == k)) [
  | inl same ↦ rw same (p, a.1)
  | inr differs ↦ rw differs (a.0, All-insert P k v m a.1 p)
]

pub is_empty-insert {ℓ} :
    {V : Type ℓ} (k : ℕ) (v : V) (m : List (ℕ × V)) → is_empty (insert k v m) ≡ false
unfolding insert
is_empty-insert k v [] = refl
is_empty-insert k v ((j, w) ∷ m) = elim (Bool-cases (j == k)) [
  | inl same ↦ rw same refl
  | inr differs ↦ rw differs refl
]
