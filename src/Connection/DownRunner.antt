-- ===== src/Connection/DownRunner.antt =====
-- gnosis_vpn-lib/src/connection/down/runner.rs: the steps of a disconnection (`Runner::run`), once
-- root has taken the tunnel down. What the exit and the hopr node answer is the argument `Answers`;
-- the result is that of the disconnection, with what it did, the newest first.
use gnosis_vpn_client.Prelude.{
  ℕ, String, Option, none, some, List, [], ◌∷◌, Result, ok, err, ◌≡◌, Bool, true, false, ◌&&◌,
  is_some, arith,
}
use gnosis_vpn_client.Connection.Up.{SessionClientMetadata}
use gnosis_vpn_client.Connection.Down.{
  Down, Phase, opening_bridge, closing_bridge, Event, open_bridge, unregister_wg, close_bridge,
  disconnect_evt,
}
use gnosis_vpn_client.Connection.Options.{SurbParams}

pub data HoprError : Type 0 where
  session_not_found : HoprError
  other : String → HoprError

pub data UnregisterError : Type 0 where
  registration_not_found : UnregisterError
  other : String → UnregisterError

pub data Error : Type 0 where
  surb_config : String → Error
  hopr : HoprError → Error

pub record Answers : Type 0 where
  pub bridge_surb : Result SurbParams String
  pub bridge : Result SessionClientMetadata HoprError
  pub unregister : Result (Unit {0}) UnregisterError
  pub close : Result (Unit {0}) HoprError

pub data Action : Type 0 where
  sent : Event → Action
  bridge_asked : Action
  unregister_asked close_asked : SessionClientMetadata → Action

-- A session that is already gone counts as closed.
abbrev pub close_bridge_session : Result (Unit {0}) HoprError → Result (Unit {0}) Error
close_bridge_session (ok _) = ok tt
close_bridge_session (err session_not_found) = ok tt
close_bridge_session (err e) = err (hopr e)

-- Steps 2 and 3, with the bridge; a failed unregistration is only logged.
abbrev pub run_with_bridge :
    Answers
    → Result SessionClientMetadata HoprError
    → List Action
    → Result (Unit {0}) Error × List Action
run_with_bridge a (err e) done = (err (hopr e), done)
run_with_bridge a (ok session) done = (
  close_bridge_session a.close,
  close_asked session ∷ sent close_bridge ∷ unregister_asked session ∷ sent unregister_wg ∷ done,
)

abbrev pub run_with_surb :
    Answers → Result SurbParams String → List Action → Result (Unit {0}) Error × List Action
run_with_surb a (err e) done = (err (surb_config e), done)
run_with_surb a (ok surb) done = run_with_bridge a a.bridge (bridge_asked ∷ done)

unfoldable pub run : Answers → Result (Unit {0}) Error × List Action
run a = run_with_surb a a.bridge_surb (sent open_bridge ∷ [])

-- The progress that the actions report, each at the same time.
abbrev pub progress : List Action → Down → ℕ → Down
progress [] down now = down
progress (sent e ∷ done) down now = disconnect_evt (progress done down now) e now
progress (_ ∷ done) down now = progress done down now

-- The bridge is open when its configuration and its session succeed.
abbrev pub opened :
    Result SurbParams String → Result SessionClientMetadata HoprError → Option SessionClientMetadata
opened (ok surb) (ok session) = some session
opened _ _ = none

abbrev pub asked_to_close : List Action → Option SessionClientMetadata
asked_to_close [] = none
asked_to_close (close_asked session ∷ done) = some session
asked_to_close (_ ∷ done) = asked_to_close done

abbrev pub asked_to_unregister : List Action → Option SessionClientMetadata
asked_to_unregister [] = none
asked_to_unregister (unregister_asked session ∷ done) = some session
asked_to_unregister (_ ∷ done) = asked_to_unregister done

abbrev pub closes : Result (Unit {0}) HoprError → Bool
closes (ok _) = true
closes (err session_not_found) = true
closes (err (HoprError.other e)) = false

abbrev pub is_ok : Result (Unit {0}) Error → Bool
is_ok (ok _) = true
is_ok (err e) = false

abbrev pub last_phase : Option SessionClientMetadata → Phase
last_phase (some session) = closing_bridge
last_phase none = opening_bridge

-- A disconnection asks to remove the key over the bridge, and to close the bridge, just when the
-- bridge opened, whatever the answer to the removal was. It succeeds just when the bridge opened
-- and was closed or was already gone, and the phase it reports last is that of closing the bridge
-- when the bridge opened, and of opening it otherwise.
pub runner_closes_bridge :
    (a : Answers) (down : Down) (now : ℕ)
    → (asked_to_unregister (run a).1 ≡ opened a.bridge_surb a.bridge)
      × (asked_to_close (run a).1 ≡ opened a.bridge_surb a.bridge)
      × (is_ok (run a).0 ≡ (is_some (opened a.bridge_surb a.bridge) && closes a.close))
      × ((progress (run a).1 down now).phase ≡ last_phase (opened a.bridge_surb a.bridge))
unfolding run disconnect_evt
runner_closes_bridge a down now = ground arith
