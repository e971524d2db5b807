-- ===== src/Core/Reports.antt =====
-- What the command Status reports of the core (gnosis_vpn-lib/src/core/mod.rs).
use gnosis_vpn_client.Prelude.{
  ℕ, String, true, Option, none, some, List, ◌≡◌, refl, arith, map_some, is_some,
}
use gnosis_vpn_client.Balance.{FundingIssue}
use gnosis_vpn_client.Core.State.{
  Core, Phase, initial, checking_safe, deploying_safe, starting, hopr_syncing, hopr_running,
  connecting, connected, shutting_down,
}
use gnosis_vpn_client.Core.Total.{Returns, HasHopr, needs_hopr}
use gnosis_vpn_client.Core.Traces.{Input, run_all, AllExpected, run_all-Returns}
use gnosis_vpn_client.Core.Status.Listing.{IsListing, status-IsListing}
use gnosis_vpn_client.Core.Status.{Libraries, StatusResponse, RunMode, running, status, run_mode_of}

-- The id of the destination of each of the three.
abbrev pub shown : StatusResponse → Option ℕ × Option ℕ × Option ℕ
shown r = (
  map_some (λ i. i.destination_id) r.connecting_info,
  map_some (λ i. i.destination_id) r.reconnecting,
  map_some (λ i. i.destination_id) r.connected_info,
)

-- What is to be shown in a phase.
abbrev pub expected : Option ℕ → Phase → Option ℕ × Option ℕ × Option ℕ
expected none (connecting conn) = (some conn.destination.id, none, none)
expected (some since) (connecting conn) = (none, some conn.destination.id, none)
expected none (connected conn) = (none, none, some conn.destination.id)
expected (some since) (connected conn) = (none, none, some conn.destination.id)
expected none _ = (none, none, none)
expected (some since) _ = (none, none, none)

shown-expected :
    (l : Libraries) (c : Core) (since : Option ℕ) (phase : Phase)
    → c.reconnecting_since ≡ since
    → c.phase ≡ phase
    → shown (status l c) ≡ expected since phase
unfolding status
shown-expected l c none (connecting conn) s p = ground (arith, s, p)
shown-expected l c none (connected conn) s p = ground (arith, s, p)
shown-expected l c none (initial e) s p = ground (arith, s, p)
shown-expected l c none (checking_safe x) s p = ground (arith, s, p)
shown-expected l c none (deploying_safe x y) s p = ground (arith, s, p)
shown-expected l c none (starting x y) s p = ground (arith, s, p)
shown-expected l c none hopr_syncing s p = ground (arith, s, p)
shown-expected l c none hopr_running s p = ground (arith, s, p)
shown-expected l c none shutting_down s p = ground (arith, s, p)
shown-expected l c (some since) (connecting conn) s p = ground (arith, s, p)
shown-expected l c (some since) (connected conn) s p = ground (arith, s, p)
shown-expected l c (some since) (initial e) s p = ground (arith, s, p)
shown-expected l c (some since) (checking_safe x) s p = ground (arith, s, p)
shown-expected l c (some since) (deploying_safe x y) s p = ground (arith, s, p)
shown-expected l c (some since) (starting x y) s p = ground (arith, s, p)
shown-expected l c (some since) hopr_syncing s p = ground (arith, s, p)
shown-expected l c (some since) hopr_running s p = ground (arith, s, p)
shown-expected l c (some since) shutting_down s p = ground (arith, s, p)

-- A run mode that says that the edge client runs says in which state it is.
abbrev pub TellsState : RunMode → Type 0
TellsState (running none issues) = ⊥
TellsState _ = Unit

running-TellsState :
    (f : ℕ → ℕ) (h : Option ℕ) (issues : Option (List FundingIssue))
    → is_some h ≡ true
    → TellsState (running (map_some f h) issues)
running-TellsState f (some hopr) issues e = tt
running-TellsState f none issues e = cc

run_mode-TellsState :
    (l : Libraries) (c : Core) (phase : Phase)
    → (needs_hopr phase ≡ true → is_some c.hopr ≡ true)
    → TellsState (run_mode_of l c phase)
unfolding run_mode_of
run_mode-TellsState l c (initial e) h = tt
run_mode-TellsState l c (checking_safe x) h = tt
run_mode-TellsState l c (deploying_safe x y) h = tt
run_mode-TellsState l c (starting x y) h = tt
run_mode-TellsState l c hopr_syncing h = tt
run_mode-TellsState l c hopr_running h = running-TellsState l.hopr_status c.hopr _ (h refl)
run_mode-TellsState l c (connecting conn) h = running-TellsState l.hopr_status c.hopr _ (h refl)
run_mode-TellsState l c (connected conn) h = running-TellsState l.hopr_status c.hopr _ (h refl)
run_mode-TellsState l c shutting_down h = tt

-- The status of a core.
abbrev pub IsReported : Libraries → Core → Type 0
IsReported l c =
    TellsState (status l c).run_mode
    × (shown (status l c) ≡ expected c.reconnecting_since c.phase)
    × IsListing c (status l c).destinations

status-IsReported : (l : Libraries) (c : Core) → HasHopr c → IsReported l c
unfolding status
status-IsReported l c v = (
  run_mode-TellsState l c c.phase v.handle,
  shown-expected l c c.reconnecting_since c.phase refl refl,
  status-IsListing l c,
)

Returns-mono :
    {P Q : Core → Type 0} → ((c : Core) → P c → Q c) → (r : Option Core) → Returns P r → Returns Q r
Returns-mono f (some c) p = f c p
Returns-mono f none p = p

-- Whatever events and results a core has handled since its initial phase, Status then reports the
-- state of the edge client whenever it reports that the edge client runs, and it shows the destination
-- of the connection as reconnecting while the core connects after a reconnect was begun, as connecting
-- while it connects otherwise, as connected while it is connected, and as none of these in any other
-- phase. It lists exactly the destinations of the configuration, in the order of their ids and each
-- with the state of the route that the core keeps under its id. Health
-- checks and the start of the edge client are reported only to a core that has the edge client, and
-- health checks only to one whose product of the intervals fits a duration.
pub run_all-IsReported :
    (l : Libraries) (from_hex : ℕ → Option ℕ) (is : List Input) (c : Core) (error : Option String)
    → c.phase ≡ initial error
    → AllExpected from_hex is c
    → Returns (IsReported l) (run_all from_hex is c)
run_all-IsReported l from_hex is c error p x =
    Returns-mono (status-IsReported l) (run_all from_hex is c)
      (run_all-Returns from_hex is c error p x)
