-- ===== src/Connection/PseudonymCache.antt =====
-- gnosis_vpn-lib/src/connection/pseudonym_cache.rs: pseudonyms by address and routing, as an
-- association list in which a key stands once, with the time of each entry. Times are given by the
-- caller; an elapsed time stops at 0, as `Instant::elapsed` does.
use gnosis_vpn_client.Prelude.{
  ℕ, ◌-◌, ◌≡◌, refl, Bool, true, false, ◌&&◌, not, Option, none, some, List, [], ◌∷◌, arith, ◌==◌,
  ltb, if◌then◌else◌, retain,
}
use gnosis_vpn_client.Types.{Destination}

pub record Entry : Type 0 where
  pub address : ℕ
  pub routing : ℕ
  pub pseudonym : ℕ
  pub cached_at : ℕ

pub record PseudonymCache : Type 0 where
  pub inner : List Entry
  pub ttl : ℕ

unfoldable pub new : ℕ → PseudonymCache
new ttl = record { inner = []; ttl = ttl }

-- Whether an entry is kept under the key of a destination.
abbrev pub is_for : Destination → Entry → Bool
is_for dest x = x.address == dest.address && x.routing == dest.routing

abbrev pub is_live : ℕ → ℕ → Entry → Bool
is_live ttl now x = ltb (now - x.cached_at) ttl

unfoldable pub lookup : Destination → List Entry → Option ℕ
lookup dest [] = none
lookup dest (x ∷ xs) = if is_for dest x then some x.pseudonym else lookup dest xs

-- The entries past their time are dropped first.
unfoldable pub get : PseudonymCache → Destination → ℕ → Option ℕ × PseudonymCache
unfolding lookup
get cache dest now =
    let inner = retain (is_live cache.ttl now) cache.inner in
    (lookup dest inner, record cache { inner = inner })

unfoldable pub remove : PseudonymCache → Destination → PseudonymCache
remove cache dest = record cache { inner = retain (λ x. not (is_for dest x)) cache.inner }

unfoldable pub insert : PseudonymCache → Destination → ℕ → ℕ → PseudonymCache
insert cache dest pseudonym now = record cache {
  inner =
      record {
        address = dest.address;
        routing = dest.routing;
        pseudonym = pseudonym;
        cached_at = now;
      }
      ∷ retain (λ x. not (is_for dest x)) cache.inner;
}

abbrev pub same_key : Destination → Destination → Bool
same_key a b = a.address == b.address && a.routing == b.routing

lookup-retain_other :
    (d q : Destination) (ttl now : ℕ) (xs : List Entry)
    → same_key d q ≡ false
    → lookup q (retain (is_live ttl now) (retain (λ x. not (is_for d x)) xs))
      ≡ lookup q (retain (is_live ttl now) xs)
unfolding lookup
lookup-retain_other d q ttl now [] h = refl
lookup-retain_other d q ttl now (x ∷ xs) h = ground (arith, lookup-retain_other d q ttl now xs h)

lookup-retain_same :
    (d q : Destination) (ttl now : ℕ) (xs : List Entry)
    → same_key d q ≡ true
    → lookup q (retain (is_live ttl now) (retain (λ x. not (is_for d x)) xs)) ≡ none
unfolding lookup
lookup-retain_same d q ttl now [] h = refl
lookup-retain_same d q ttl now (x ∷ xs) h = ground (arith, lookup-retain_same d q ttl now xs h)

-- After an insertion, a lookup for a destination with the same address and routing finds the new
-- pseudonym exactly while less than the time to live has passed, and a lookup for any other finds
-- what it found before.
pub get-insert :
    (cache : PseudonymCache) (d q : Destination) (p at now : ℕ)
    → (get (insert cache d p at) q now).0 ≡ (
        if same_key d q
        then (if ltb (now - at) cache.ttl then some p else none)
        else (get cache q now).0)
unfolding get insert
get-insert cache d q p at now = ground (
  arith,
  lookup-retain_other d q cache.ttl now cache.inner,
  lookup-retain_same d q cache.ttl now cache.inner,
)

-- After a removal nothing is found for the destination, and what is found for a destination with
-- another address or routing is unchanged.
pub get-remove :
    (cache : PseudonymCache) (d q : Destination) (now : ℕ)
    → (get (remove cache d) q now).0 ≡ (if same_key d q then none else (get cache q now).0)
unfolding get remove
get-remove cache d q now = ground (
  arith,
  lookup-retain_other d q cache.ttl now cache.inner,
  lookup-retain_same d q cache.ttl now cache.inner,
)
