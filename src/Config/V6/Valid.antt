-- ===== src/Config/V6/Valid.antt =====
-- What holds of every configuration that a file of version 6 gives, and when one gives any.
use mathlib.Core.Path.{subst}
use gnosis_vpn_client.Prelude.{
  ℕ, ◌≤◌, String, Bool, true, false, Option, none, some, List, [], ◌∷◌, Result, ok, err, ◌≡◌, refl,
  arith, All, is_empty, if◌then◌else◌,
}
use gnosis_vpn_client.Prelude.Maps.{insert, All-insert, is_empty-insert}
use gnosis_vpn_client.Types.{Destination}
use gnosis_vpn_client.Config.Parts.{Config, Error, Edge}
use gnosis_vpn_client.Config.V6.Load.{
  ◌>>=◌, destination, try_routing, path_routing, add_destinations, convert_destinations, try_from,
  mismatched, differs,
}
use gnosis_vpn_client.Config.V6.Sections as V6
use gnosis_vpn_client.Config.V6.Sections.{DestinationPath, hops}
use gnosis_vpn_client.Config.V6.Convert.{options, wireguard, blokli, strategy}

-- The destination stands under its own id, and its routing is one that the edge library makes of at
-- most three hops.
abbrev pub IsRouted : Edge → ℕ × Destination → Type 0
IsRouted l (id, d) = (d.id ≡ id) × ((n : ℕ) × (n ≤ 3) × (l.hop_routing n ≡ ok d.routing))

-- ping and main both have a balancer or neither has, and there is a destination.
pub record IsValid (l : Edge) (c : Config) : Type 0 where
  pub balanced : c.connection.surb_balancing.ping.enabled ≡ c.connection.surb_balancing.main.enabled
  pub routed : All (IsRouted l) c.destinations
  pub some_destination : is_empty c.destinations ≡ false

-- The path has at most three hops, if it says how many.
abbrev pub IsInRange : Option DestinationPath → Type 0
IsInRange (some (hops h)) = h ≤ 3
IsInRange none = Unit

abbrev pub EntryIsInRange : ℕ × V6.Destination → Type 0
EntryIsInRange (id, d) = IsInRange d.path

abbrev pub AreInRange : Option (List (ℕ × V6.Destination)) → Type 0
AreInRange (some dests) = All EntryIsInRange dests
AreInRange none = Unit

-- The two steps of a chain that succeeds.
succeeded :
    {First Last : Type 0} (step : Result First Error) (next : First → Result Last Error)
    {last : Last}
    → (step >>= next) ≡ ok last
    → (first : First) × (step ≡ ok first) × (next first ≡ ok last)
succeeded (err reason) next made = cc
succeeded (ok first) next made = (first, refl, made)

try_routing-eq-ok : (r : Result ℕ String) (n : ℕ) → try_routing r ≡ ok n → r ≡ ok n
try_routing-eq-ok (ok m) n h = cc h
try_routing-eq-ok (err e) n h = cc

path_routing-hops :
    (l : Edge) (p : Option DestinationPath) (r : ℕ)
    → IsInRange p
    → path_routing l p ≡ ok r
    → (n : ℕ) × (n ≤ 3) × (l.hop_routing n ≡ ok r)
path_routing-hops l (some (hops h)) r le e = (h, le, try_routing-eq-ok _ r e)
path_routing-hops l none r le e = (1, omega arith, try_routing-eq-ok _ r e)

add_destinations-IsRouted :
    (l : Edge) (result : List (ℕ × Destination)) (dests : List (ℕ × V6.Destination))
    (out : List (ℕ × Destination))
    → All (IsRouted l) result
    → All EntryIsInRange dests
    → add_destinations l result dests ≡ ok out
    → All (IsRouted l) out
unfolding add_destinations
add_destinations-IsRouted l result [] out a d e = subst (All (IsRouted l)) (cc e) a
add_destinations-IsRouted l result ((id, dest) ∷ rest) out a d e =
    let (r, routed, next) = succeeded (path_routing l dest.path) _ e in
    let made = destination id dest.address r dest.meta in
    add_destinations-IsRouted l (insert id made result) rest out
      (All-insert (IsRouted l) id made result a (refl, path_routing-hops l dest.path r d.0 routed))
      d.1 next

add_destinations-some :
    (l : Edge) (result : List (ℕ × Destination)) (dests : List (ℕ × V6.Destination))
    (out : List (ℕ × Destination))
    → is_empty result ≡ false
    → add_destinations l result dests ≡ ok out
    → is_empty out ≡ false
unfolding add_destinations
add_destinations-some l result [] out h e = cc
add_destinations-some l result ((id, dest) ∷ rest) out h e =
    let (r, routed, next) = succeeded (path_routing l dest.path) _ e in
    add_destinations-some l (insert id (destination id dest.address r dest.meta) result) rest out
      (is_empty-insert id _ result) next

convert_destinations-valid :
    (l : Edge) (dests : Option (List (ℕ × V6.Destination))) (out : List (ℕ × Destination))
    → AreInRange dests
    → convert_destinations l dests ≡ ok out
    → All (IsRouted l) out × (is_empty out ≡ false)
unfolding convert_destinations
convert_destinations-valid l none out d e = cc
convert_destinations-valid l (some []) out d e = cc
convert_destinations-valid l (some ((id, dest) ∷ rest)) out d e =
    let (r, routed, next) = succeeded (path_routing l dest.path) _ e in
    (
      add_destinations-IsRouted l [] ((id, dest) ∷ rest) out tt d e,
      add_destinations-some l (insert id (destination id dest.address r dest.meta) []) rest out
          (is_empty-insert id _ []) next,
    )

differs-false : (a b : Bool) → differs a b ≡ false → a ≡ b
differs-false true true h = refl
differs-false false false h = refl
differs-false true false h = cc
differs-false false true h = cc

unless-eq-ok :
    {A B : Type 0} (b : Bool) (e : Error) (m : Result A Error) (f : A → Result B Error) {c : B}
    → (if b then err e else (m >>= f)) ≡ ok c
    → (b ≡ false) × ((a : A) × (m ≡ ok a) × (f a ≡ ok c))
unless-eq-ok true e m f h = cc
unless-eq-ok false e m f h = (refl, succeeded m f h)

ok-injective : {A : Type 0} {a b : A} → ◌≡◌ {A = Result A Error} (ok a) (ok b) → a ≡ b
ok-injective h = cc

-- The invariant of a configuration that version 6 gives.
pub try_from-IsValid :
    (l : Edge) (value : V6.Config) (c : Config)
    → AreInRange value.destinations
    → try_from l value ≡ ok c
    → IsValid l c
unfolding try_from
try_from-IsValid l value c d e =
    let (same, (out, found, made)) =
      unless-eq-ok (mismatched (options l value.connection)) _
        (convert_destinations l value.destinations) _ e in
    let (routed, some_out) = convert_destinations-valid l value.destinations out d found in
    subst (IsValid l) (ok-injective made)
      (record { balanced = differs-false _ _ same; routed = routed; some_destination = some_out })

-- The library takes every number of hops up to three.
abbrev pub TakesThreeHops : Edge → Type 0
TakesThreeHops l = (n : ℕ) → n ≤ 3 → (r : ℕ) × (l.hop_routing n ≡ ok r)

path_routing-total :
    (l : Edge) (p : Option DestinationPath)
    → TakesThreeHops l
    → IsInRange p
    → (r : ℕ) × (path_routing l p ≡ ok r)
path_routing-total l (some (hops h)) law le = let (r, e) = law h le in (r, rw e refl)
path_routing-total l none law le = let (r, e) = law 1 (omega arith) in (r, rw e refl)

add_destinations-total :
    (l : Edge) (result : List (ℕ × Destination)) (dests : List (ℕ × V6.Destination))
    → TakesThreeHops l
    → All EntryIsInRange dests
    → (out : List (ℕ × Destination)) × (add_destinations l result dests ≡ ok out)
unfolding add_destinations
add_destinations-total l result [] law d = (result, refl)
add_destinations-total l result ((id, dest) ∷ rest) law d =
    let (r, e) = path_routing-total l dest.path law d.0 in
    let (out, done) =
      add_destinations-total l (insert id (destination id dest.address r dest.meta) result) rest law
        d.1 in
    (out, rw e done)

-- A file of version 6 with a destination, with at most three hops on each path, and with a balancer for
-- both of ping and main or for neither gives a configuration, provided that the edge library takes
-- every number of hops up to three.
pub try_from-total :
    (l : Edge) (value : V6.Config) (entry : ℕ × V6.Destination) (rest : List (ℕ × V6.Destination))
    → TakesThreeHops l
    → value.destinations ≡ some (entry ∷ rest)
    → All EntryIsInRange (entry ∷ rest)
    → mismatched (options l value.connection) ≡ false
    → (c : Config) × (try_from l value ≡ ok c)
unfolding try_from
try_from-total l value entry rest law given d same =
    let (out, done) = add_destinations-total l [] (entry ∷ rest) law d in
    (
      record {
        connection = options l value.connection;
        destinations = out;
        wireguard = wireguard value.wireguard;
        blokli = blokli l value.blokli;
        strategy = strategy l value.strategy;
      },
      rw same (rw given (rw done refl)),
    )
