-- ===== src/Routing/Kernel/Selection.antt =====
-- gnosis_vpn-root/src/routing/route_ops_linux.rs: the route that is chosen is the best of those that
-- may be.
use gnosis_vpn_client.Prelude.{
  ℕ, ◌-◌, ◌*◌, ◌/◌, ◌^◌, ◌<◌, ◌≤◌, ◌==◌, ◌≢◌, sym, unwrap_or, is_some, Bool-cases, ==_iff, Bool,
  true, false, not, ◌&&◌, ◌||◌, Option, none, some, List, [], ◌∷◌, ◌≡◌, refl, ◌⊎◌, inl, inr, retain,
  if◌then◌else◌, if-cases, ◌∙◌, ap, arith,
}
use gnosis_vpn_client.Routing.Kernel.{
  RouteMessage, covers, covers_dest, is_not_excluded, is_at_most, max_from, max_by_key, greater,
  is_candidate, get_wan_route_for, is_via, get_route_via_device,
}

-- A route of a list.
abbrev pub IsOf : RouteMessage → List RouteMessage → Type 0
IsOf r [] = ⊥
IsOf r (x ∷ xs) = (r ≡ x) ⊎ IsOf r xs

-- Every route of a list that may be chosen is at most the given one.
abbrev all_at_most : (RouteMessage → Bool) → List RouteMessage → RouteMessage → Bool
all_at_most p [] best = true
all_at_most p (x ∷ xs) best = (not (p x) || is_at_most x best) && all_at_most p xs best

-- The choice from a list among the routes that may be chosen.
abbrev IsBest : (RouteMessage → Bool) → List RouteMessage → Option RouteMessage → Type 0
IsBest p routes (some best) =
    IsOf best routes × (p best ≡ true) × (all_at_most p routes best ≡ true)
IsBest p [] none = Unit {0}
IsBest p (x ∷ xs) none = (p x ≡ false) × IsBest p xs none

is_at_most_refl : (a : RouteMessage) → is_at_most a a ≡ true
unfolding is_at_most
is_at_most_refl a = ground arith

is_at_most_trans :
    (a b c : RouteMessage) → is_at_most a b ≡ true → is_at_most b c ≡ true → is_at_most a c ≡ true
unfolding is_at_most
is_at_most_trans a b c h k = ground arith

is_at_most_total : (a b : RouteMessage) → is_at_most a b ≡ false → is_at_most b a ≡ true
unfolding is_at_most
is_at_most_total a b h = ground arith

abbrev all_le : List RouteMessage → RouteMessage → Bool
all_le [] best = true
all_le (x ∷ xs) best = is_at_most x best && all_le xs best

both : {a b : Bool} → a ≡ true → b ≡ true → (a && b) ≡ true
both h k = ground (arith, h, k)

greater-bounds :
    (a b : RouteMessage) → (is_at_most a (greater a b) ≡ true) × (is_at_most b (greater a b) ≡ true)
unfolding is_at_most
greater-bounds a b = ground arith

greater-either : (a b : RouteMessage) → (greater a b ≡ a) ⊎ (greater a b ≡ b)
greater-either a b = if-cases (is_at_most a b) (λ c. (c ≡ a) ⊎ (c ≡ b)) (inr refl) (inl refl)

widen :
    {m g a b : RouteMessage} (rs : List RouteMessage)
    → (g ≡ a) ⊎ (g ≡ b)
    → IsOf m (g ∷ rs)
    → IsOf m (a ∷ b ∷ rs)
widen rs (inl e) (inl h) = inl (h ∙ e)
widen rs (inr e) (inl h) = inr (inl (h ∙ e))
widen rs e (inr h) = inr (inr h)

-- The greatest from a start is at least the start and every route of the list.
max_from-at_least :
    (best : RouteMessage) (routes : List RouteMessage)
    → (is_at_most best (max_from best routes) ≡ true)
      × (all_le routes (max_from best routes) ≡ true)
unfolding max_from
max_from-at_least best [] = (is_at_most_refl best, refl)
max_from-at_least best (r ∷ rs) = (
  is_at_most_trans best (greater best r) (max_from (greater best r) rs) (greater-bounds best r).0
      (max_from-at_least (greater best r) rs).0,
  both
      (is_at_most_trans r (greater best r) (max_from (greater best r) rs) (greater-bounds best r).1
        (max_from-at_least (greater best r) rs).0)
      (max_from-at_least (greater best r) rs).1,
)

max_from-IsOf :
    (best : RouteMessage) (routes : List RouteMessage) → IsOf (max_from best routes) (best ∷ routes)
unfolding max_from
max_from-IsOf best [] = inl refl
max_from-IsOf best (r ∷ rs) = widen rs (greater-either best r) (max_from-IsOf (greater best r) rs)

all_at_most-retain :
    (p : RouteMessage → Bool) (routes : List RouteMessage) (best : RouteMessage)
    → all_at_most p routes best ≡ all_le (retain p routes) best
all_at_most-retain p [] best = refl
all_at_most-retain p (r ∷ rs) best = ground (arith, all_at_most-retain p rs best)

retain-IsOf_step :
    (b : Bool) (p : RouteMessage → Bool) (x : RouteMessage) (xs kept : List RouteMessage)
    (r : RouteMessage)
    → p x ≡ b
    → (IsOf r kept → IsOf r xs × (p r ≡ true))
    → IsOf r (if b then x ∷ kept else kept)
    → IsOf r (x ∷ xs) × (p r ≡ true)
retain-IsOf_step true p x xs kept r e later (inl h) = (inl h, ap p h ∙ e)
retain-IsOf_step true p x xs kept r e later (inr h) = (inr (later h).0, (later h).1)
retain-IsOf_step false p x xs kept r e later h = (inr (later h).0, (later h).1)

retain-IsOf :
    (p : RouteMessage → Bool) (routes : List RouteMessage) (r : RouteMessage)
    → IsOf r (retain p routes)
    → IsOf r routes × (p r ≡ true)
retain-IsOf p [] r h = elim h [ ]
retain-IsOf p (x ∷ xs) r h =
    retain-IsOf_step (p x) p x xs (retain p xs) r refl (retain-IsOf p xs r) h

none_kept :
    (p : RouteMessage → Bool) (routes : List RouteMessage)
    → retain p routes ≡ []
    → IsBest p routes none
none_kept p [] h = tt
none_kept p (x ∷ xs) h = (ground (arith, h), none_kept p xs (ground (arith, h)))

chosen-IsBest :
    (p : RouteMessage → Bool) (routes kept : List RouteMessage)
    → retain p routes ≡ kept
    → IsBest p routes (max_by_key kept)
chosen-IsBest p routes [] h = none_kept p routes h
chosen-IsBest p routes (r ∷ rs) h =
    let here = retain-IsOf p routes (max_from r rs) (rw h (max_from-IsOf r rs)) in
    (
      here.0,
      here.1,
      all_at_most-retain p routes (max_from r rs)
          ∙ ap (λ kept. all_le kept (max_from r rs)) h
          ∙ both (max_from-at_least r rs).0 (max_from-at_least r rs).1,
    )

-- The route covers the destination: the bits of its prefix are those of the destination. A route
-- without a destination is one to 0.
abbrev pub IsCovering : ℕ → RouteMessage → Type 0
IsCovering dest r =
    let rest = 2 ^ (32 - r.destination_prefix_length) in
    (r.destination_prefix_length ≡ 0)
    ⊎ ((unwrap_or r.destination 0 / rest) * rest ≡ (dest / rest) * rest)

-- A route of the main table (254) that goes through a device, and not through the one left out.
abbrev pub IsWay : Option ℕ → ℕ → RouteMessage → Type 0
IsWay exclude dest r =
    (r.table ≡ 254)
    × ((device : ℕ) × (r.oif ≡ some device) × (exclude ≢ some device))
    × IsCovering dest r

-- A route of the main table that goes through one device.
abbrev pub IsWayVia : ℕ → ℕ → RouteMessage → Type 0
IsWayVia index dest r = (r.table ≡ 254) × (r.oif ≡ some index) × IsCovering dest r

-- A shorter prefix, or the same with at least the metric. A missing metric is 0.
abbrev pub IsNoBetter : RouteMessage → RouteMessage → Type 0
IsNoBetter r best =
    (r.destination_prefix_length < best.destination_prefix_length)
    ⊎ ((r.destination_prefix_length ≡ best.destination_prefix_length)
        × (unwrap_or best.priority 0 ≤ unwrap_or r.priority 0))

abbrev pub IsBestWay : (RouteMessage → Type 0) → List RouteMessage → Option RouteMessage → Type 0
IsBestWay Way routes (some best) =
    IsOf best routes × Way best × ((r : RouteMessage) → IsOf r routes → Way r → IsNoBetter r best)
IsBestWay Way routes none = (r : RouteMessage) → IsOf r routes → ¬ Way r

covering : (dest : ℕ) (r : RouteMessage) → covers_dest dest r ≡ true → IsCovering dest r
unfolding covers
covering dest r h = ground (arith, h)

covered : (dest : ℕ) (r : RouteMessage) → IsCovering dest r → covers_dest dest r ≡ true
unfolding covers
covered dest r (inl whole) = ground (arith, whole)
covered dest r (inr same) = ground (arith, same)

oif-IsWay :
    (exclude oif : Option ℕ) (r : RouteMessage)
    → r.oif ≡ oif
    → (is_not_excluded exclude r && is_some oif) ≡ true
    → (device : ℕ) × (oif ≡ some device) × (exclude ≢ some device)
oif-IsWay exclude none r e h = ground (arith, h)
oif-IsWay none (some device) r e h = (device, refl, λ same. cc)
oif-IsWay (some index) (some device) r e h = (device, refl, λ same. ground (arith, e, h, same))

candidate-IsWay :
    (exclude : Option ℕ) (dest : ℕ) (r : RouteMessage)
    → is_candidate exclude dest r ≡ true
    → IsWay exclude dest r
candidate-IsWay exclude dest r h = (
  ground (arith, h),
  oif-IsWay exclude r.oif r refl (ground (arith, h)),
  covering dest r (ground (arith, h)),
)

IsWay-candidate :
    (exclude : Option ℕ) (dest : ℕ) (r : RouteMessage)
    → IsWay exclude dest r
    → is_candidate exclude dest r ≡ true
IsWay-candidate none dest r (main, (device, e, kept), c) = ground (arith, main, e, covered dest r c)
IsWay-candidate (some index) dest r (main, (device, e, kept), c) =
    let other : (device == index) ≡ false = elim (Bool-cases (device == index)) [
      | inl same ↦ absurd (kept (ap some (sym ((==_iff device index).0 same))))
      | inr differs ↦ differs
    ] in
    ground (arith, main, e, other, covered dest r c)

via-IsWayVia :
    (index dest : ℕ) (r : RouteMessage) → is_via index dest r ≡ true → IsWayVia index dest r
via-IsWayVia index dest r h =
    (ground (arith, h), ground (arith, h), covering dest r (ground (arith, h)))

IsWayVia-via :
    (index dest : ℕ) (r : RouteMessage) → IsWayVia index dest r → is_via index dest r ≡ true
IsWayVia-via index dest r (main, e, c) = ground (arith, main, e, covered dest r c)

at_most-IsNoBetter : (a b : RouteMessage) → is_at_most a b ≡ true → IsNoBetter a b
unfolding is_at_most
at_most-IsNoBetter a b h = ground (arith, h)

all_at_most-IsNoBetter :
    (p : RouteMessage → Bool) (routes : List RouteMessage) (best r : RouteMessage)
    → all_at_most p routes best ≡ true
    → IsOf r routes
    → p r ≡ true
    → IsNoBetter r best
all_at_most-IsNoBetter p (x ∷ xs) best r all (inl same) h =
    let px : p x ≡ true = sym (ap p same) ∙ h in
    let at_most : is_at_most x best ≡ true = ground (arith, all, px) in
    at_most-IsNoBetter r best (ap (λ y. is_at_most y best) same ∙ at_most)
all_at_most-IsNoBetter p (x ∷ xs) best r all (inr later) h =
    all_at_most-IsNoBetter p xs best r (ground (arith, all)) later h
all_at_most-IsNoBetter p [] best r all here h = elim here [ ]

none-IsBestWay :
    (p : RouteMessage → Bool) (routes : List RouteMessage) (r : RouteMessage)
    → IsBest p routes none
    → IsOf r routes
    → p r ≡ false
none-IsBestWay p (x ∷ xs) r none_may (inl same) = ap p same ∙ none_may.0
none-IsBestWay p (x ∷ xs) r none_may (inr later) = none-IsBestWay p xs r none_may.1 later
none-IsBestWay p [] r none_may here = elim here [ ]

IsBest-IsBestWay :
    (p : RouteMessage → Bool) (Way : RouteMessage → Type 0)
    → ((r : RouteMessage) → p r ≡ true → Way r)
    → ((r : RouteMessage) → Way r → p r ≡ true)
    → (routes : List RouteMessage) (o : Option RouteMessage) → IsBest p routes o
    → IsBestWay Way routes o
IsBest-IsBestWay p Way to from routes (some best) (here, may, all) = (
  here,
  to best may,
  λ r of_them way. all_at_most-IsNoBetter p routes best r all of_them (from r way),
)
IsBest-IsBestWay p Way to from routes none none_may = λ r of_them way.
    let yes = from r way in let no = none-IsBestWay p routes r none_may of_them in cc

-- The way to a destination is a route of the main table that covers it, goes through a device, and
-- not through the one that is left out; no such route has a longer prefix, or the same with a
-- smaller metric; and there is none only when there is no such route. The way through one device is
-- chosen in the same manner among the routes of the main table that cover the destination and go
-- through that device.
pub get_wan_route_for-IsBestWay :
    (exclude : Option ℕ) (index dest : ℕ) (routes : List RouteMessage)
    → IsBestWay (IsWay exclude dest) routes (get_wan_route_for exclude dest routes)
      × IsBestWay (IsWayVia index dest) routes (get_route_via_device index dest routes)
unfolding get_wan_route_for get_route_via_device
get_wan_route_for-IsBestWay exclude index dest routes = (
  IsBest-IsBestWay (is_candidate exclude dest) (IsWay exclude dest) (candidate-IsWay exclude dest)
      (IsWay-candidate exclude dest) routes _
      (chosen-IsBest (is_candidate exclude dest) routes _ refl),
  IsBest-IsBestWay (is_via index dest) (IsWayVia index dest) (via-IsWayVia index dest)
      (IsWayVia-via index dest) routes _ (chosen-IsBest (is_via index dest) routes _ refl),
)
