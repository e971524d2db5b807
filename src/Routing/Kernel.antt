-- ===== src/Routing/Kernel.antt =====
-- gnosis_vpn-root/src/routing/route_ops_linux.rs: which of the kernel's routes counts as the way to a
-- destination (`get_wan_route_for`, `get_route_via_device`). The routes are those that netlink
-- lists, as records of the attributes that the code reads.
pub mod Selection
use gnosis_vpn_client.Prelude.{
  ℕ, ◌-◌, ◌*◌, ◌/◌, ◌^◌, Bool, true, false, not, ◌&&◌, ◌||◌, Option, none, some, List, [], ◌∷◌, ltb,
  leb, ◌==◌, if◌then◌else◌, unwrap_or, is_some, retain,
}

pub record RouteMessage : Type 0 where
  pub table : ℕ
  pub oif : Option ℕ
  pub destination : Option ℕ
  pub destination_prefix_length : ℕ
  pub priority : Option ℕ
  pub gateway : Option ℕ
  pub pref_source : Option ℕ

-- The leading bits of an address, the others cleared.
abbrev pub masked : ℕ → ℕ → ℕ
masked len address = (address / 2 ^ (32 - len)) * 2 ^ (32 - len)

unfoldable pub covers : ℕ → ℕ → ℕ → Bool
covers prefix len dest = if len == 0 then true else masked len prefix == masked len dest

abbrev pub is_main_table : RouteMessage → Bool
is_main_table r = r.table == 254

abbrev pub is_oif : Option ℕ → ℕ → Bool
is_oif (some a) b = a == b
is_oif none b = false

-- Not through the device that is left out, if there is one.
abbrev pub is_not_excluded : Option ℕ → RouteMessage → Bool
is_not_excluded none r = true
is_not_excluded (some index) r = not (is_oif r.oif index)

abbrev pub covers_dest : ℕ → RouteMessage → Bool
covers_dest dest r = covers (unwrap_or r.destination 0) r.destination_prefix_length dest

-- The order of `max_by_key`: the longer prefix is more, then the smaller metric.
abbrev pub metric : RouteMessage → ℕ
metric r = unwrap_or r.priority 0

unfoldable pub is_at_most : RouteMessage → RouteMessage → Bool
is_at_most a b =
    ltb a.destination_prefix_length b.destination_prefix_length
    || (a.destination_prefix_length == b.destination_prefix_length && leb (metric b) (metric a))

-- Of two equal ones the later.
abbrev pub greater : RouteMessage → RouteMessage → RouteMessage
greater a b = if is_at_most a b then b else a

-- The last of the greatest.
unfoldable pub max_from : RouteMessage → List RouteMessage → RouteMessage
unfolding is_at_most
max_from best [] = best
max_from best (r ∷ rs) = max_from (greater best r) rs

abbrev pub max_by_key : List RouteMessage → Option RouteMessage
max_by_key [] = none
max_by_key (r ∷ rs) = some (max_from r rs)

abbrev pub is_candidate : Option ℕ → ℕ → RouteMessage → Bool
is_candidate exclude dest r =
    is_main_table r && is_not_excluded exclude r && covers_dest dest r && is_some r.oif

unfoldable pub get_wan_route_for : Option ℕ → ℕ → List RouteMessage → Option RouteMessage
unfolding covers max_from
get_wan_route_for exclude dest routes = max_by_key (retain (is_candidate exclude dest) routes)

abbrev pub is_via : ℕ → ℕ → RouteMessage → Bool
is_via index dest r = is_main_table r && is_oif r.oif index && covers_dest dest r

unfoldable pub get_route_via_device : ℕ → ℕ → List RouteMessage → Option RouteMessage
unfolding covers max_from
get_route_via_device index dest routes = max_by_key (retain (is_via index dest) routes)
