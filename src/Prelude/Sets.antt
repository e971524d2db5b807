-- ===== src/Prelude/Sets.antt =====
-- Sets of numbers as lists, in the ways the code uses `HashSet` and `BTreeSet`, and the keys of a
-- map.
use Prim.Native.Nat.{ℕ}
use mathlib.Core.Path.{◌≡◌, refl}
use mathlib.Core.Bool.{Bool, true, not, ◌&&◌, ◌||◌}
use mathlib.Core.List.{List, [], ◌∷◌, ◌++◌}
use native.Mathlib.Omega.{arith}
use gnosis_vpn_client.Prelude.Tests.{leb, ◌==◌, if◌then◌else◌}
use gnosis_vpn_client.Prelude.Lists.{contains, retain, is_some}
use gnosis_vpn_client.Prelude.Maps.{lookup, keys}

-- A `BTreeSet`: in order, and each number once.
insert_unique : ℕ → List ℕ → List ℕ
insert_unique a [] = a ∷ []
insert_unique a (x ∷ xs) =
    let rest = insert_unique a xs in
    if a == x then x ∷ xs else if leb a x then a ∷ x ∷ xs else x ∷ rest

unfoldable pub to_set : List ℕ → List ℕ
unfolding insert_unique
to_set [] = []
to_set (x ∷ xs) = insert_unique x (to_set xs)

abbrev pub difference : List ℕ → List ℕ → List ℕ
difference xs ys = retain (λ x. not (contains ys x)) xs

abbrev pub is_subset : List ℕ → List ℕ → Bool
is_subset [] ys = true
is_subset (x ∷ xs) ys = contains ys x && is_subset xs ys

-- The equality of two sets.
abbrev pub same_set : List ℕ → List ℕ → Bool
same_set xs ys = is_subset xs ys && is_subset ys xs

insert_unique-contains :
    (a x : ℕ) (xs : List ℕ) → contains (insert_unique a xs) x ≡ ((a == x) || contains xs x)
unfolding insert_unique
insert_unique-contains a x [] = refl
insert_unique-contains a x (y ∷ ys) = ground (arith, insert_unique-contains a x ys)

pub contains-to_set : (xs : List ℕ) (x : ℕ) → contains (to_set xs) x ≡ contains xs x
unfolding to_set
contains-to_set [] x = refl
contains-to_set (y ∷ ys) x =
    ground (arith, insert_unique-contains y x (to_set ys), contains-to_set ys x)

pub contains-append :
    (xs ys : List ℕ) (x : ℕ) → contains (xs ++ ys) x ≡ (contains xs x || contains ys x)
contains-append [] ys x = refl
contains-append (y ∷ xs) ys x = ground (arith, contains-append xs ys x)

pub contains-difference :
    (xs ys : List ℕ) (x : ℕ)
    → contains (difference xs ys) x ≡ (contains xs x && not (contains ys x))
contains-difference [] ys x = refl
contains-difference (y ∷ xs) ys x = ground (arith, contains-difference xs ys x)

is_subset-contains :
    (xs ys : List ℕ) (x : ℕ) → is_subset xs ys ≡ true → contains xs x ≡ true → contains ys x ≡ true
is_subset-contains [] ys x sub mem = ground arith
is_subset-contains (y ∷ xs) ys x sub mem = ground (arith, is_subset-contains xs ys x)

pub same_set-contains :
    (xs ys : List ℕ) (x : ℕ) → same_set xs ys ≡ true → contains xs x ≡ contains ys x
same_set-contains xs ys x same =
    ground (arith, is_subset-contains xs ys x, is_subset-contains ys xs x)

is_subset-weaken : (x : ℕ) (xs ys : List ℕ) → is_subset xs ys ≡ true → is_subset xs (x ∷ ys) ≡ true
is_subset-weaken x [] ys sub = refl
is_subset-weaken x (y ∷ xs) ys sub = ground (arith, is_subset-weaken x xs ys)

is_subset_refl : (xs : List ℕ) → is_subset xs xs ≡ true
is_subset_refl [] = refl
is_subset_refl (x ∷ xs) = ground (arith, is_subset-weaken x xs xs (is_subset_refl xs))

pub same_set_refl : (xs : List ℕ) → same_set xs xs ≡ true
same_set_refl xs = ground (arith, is_subset_refl xs)

pub contains-keys :
    {V : Type 0} (m : List (ℕ × V)) (k : ℕ) → contains (keys m) k ≡ is_some (lookup k m)
unfolding lookup
contains-keys [] k = refl
contains-keys ((j, v) ∷ m) k = ground (arith, contains-keys m k)

is_subset_intro :
    (xs ys : List ℕ)
    → ((x : ℕ) → contains xs x ≡ true → contains ys x ≡ true)
    → is_subset xs ys ≡ true
is_subset_intro [] ys all = refl
is_subset_intro (x ∷ xs) ys all =
    ground (arith, all x (ground arith), is_subset_intro xs ys (λ y h. all y (ground (arith, h))))

pub same_set_intro :
    (xs ys : List ℕ) → ((x : ℕ) → contains xs x ≡ contains ys x) → same_set xs ys ≡ true
same_set_intro xs ys all = ground (
  arith,
  is_subset_intro xs ys (λ x h. ground (arith, h, all x)),
  is_subset_intro ys xs (λ x h. ground (arith, h, all x)),
)
