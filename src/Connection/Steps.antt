-- ===== src/Connection/Steps.antt =====
-- gnosis_vpn-lib/src/connection/up/runner.rs: the single steps of a connection attempt, which give the
-- answers that `Runner.run` takes: the calls of the edge client and of the exit with their retries, the
-- requests to root with their timeouts, the addresses of the peers, and the cleanup of the bridge in
-- the background.
--
-- Retrying is the library's (`backon`): `retry` is given the number of retries, which errors are
-- retried, and what each attempt answers, from attempt 0 on; it returns the result and the errors it
-- notified of, one before each retry.
pub mod Retries
use Prim.Native.String
use gnosis_vpn_client.Prelude.{
  ℕ, suc, String, Bool, true, false, Option, none, some, List, [], ◌∷◌, ◌++◌, map, Result, ok, err,
  ◌≡◌, ◌==◌, if◌then◌else◌, sort,
}
use gnosis_vpn_client.Types.{Destination}
use gnosis_vpn_client.Connection.Options.{
  Options, PingOptions, SurbParams, SurbBalancerConfig, SessionTarget,
}
use gnosis_vpn_client.Connection.Up.{
  WireGuard, Registration, SessionClientMetadata, Setback, open_bridge_failed, register_wg_failed,
  open_ping_failed, ping_failed,
}
use gnosis_vpn_client.Connection.Runner.{Error, routing, runtime, ping_error}

pub record Backon : Type 1 where
  pub retry : (A E : Type 0) → ℕ → (E → Bool) → (ℕ → Result A E) → Result A E × List E
  -- The retries of an `ExponentialBuilder`, if none are set.
  pub default_max_times : ℕ
  pub retry_success :
      (A E : Type 0) (n : ℕ) (when : E → Bool) (attempt : ℕ → Result A E) (a : A)
      → attempt 0 ≡ ok a
      → retry A E n when attempt ≡ (ok a, [])
  pub retry_fatal :
      (A E : Type 0) (n : ℕ) (when : E → Bool) (attempt : ℕ → Result A E) (e : E)
      → attempt 0 ≡ err e
      → when e ≡ false
      → retry A E n when attempt ≡ (err e, [])
  pub retry_spent :
      (A E : Type 0) (when : E → Bool) (attempt : ℕ → Result A E) (e : E)
      → attempt 0 ≡ err e
      → retry A E 0 when attempt ≡ (err e, [])
  pub retry_again :
      (A E : Type 0) (n : ℕ) (when : E → Bool) (attempt : ℕ → Result A E) (e : E)
      → attempt 0 ≡ err e
      → when e ≡ true
      → retry A E (suc n) when attempt ≡ (
        (retry A E n when (λ i. attempt (suc i))).0,
        e ∷ (retry A E n when (λ i. attempt (suc i))).1,
      )

abbrev always : {E : Type 0} → E → Bool
always e = true

-- The result of a step, with the setbacks that it reported to the core.
abbrev pub Reported : Type 0 → Type 0 → Type 0
Reported A E = Result A E × List Setback

abbrev pub reported : {A E : Type 0} → (E → Setback) → Result A E × List E → Reported A E
reported setback (r, errors) = (r, map setback errors)

-- `HoprSessionClientConfig`.
pub record SessionClientConfig : Type 0 where
  pub capabilities : ℕ
  pub forward_path : ℕ
  pub return_path : ℕ
  pub always_max_out_surbs : Bool
  pub surb_management : Option SurbBalancerConfig
  pub pseudonym : Option ℕ

-- What `Hopr::open_session` is called with.
pub record SessionCall : Type 0 where
  pub destination : ℕ
  pub target : SessionTarget
  pub session_pool : Option ℕ
  pub max_client_sessions : Option ℕ
  pub cfg : SessionClientConfig

-- The pseudonym is that of the library's default settings.
unfoldable pub bridge_session_call :
    (default_pseudonym : Option ℕ) → Destination → Options → SurbParams → SessionCall
bridge_session_call default_pseudonym destination options surb = record {
  destination = destination.address;
  target = options.sessions.bridge.target;
  session_pool = some 1;
  max_client_sessions = some 1;
  cfg = record {
    capabilities = options.sessions.bridge.capabilities;
    forward_path = destination.routing;
    return_path = destination.routing;
    always_max_out_surbs = surb.always_max_out_surbs;
    surb_management = surb.management;
    pseudonym = default_pseudonym;
  };
}

unfoldable pub ping_session_call :
    Destination → Options → SurbParams → (pseudonym : Option ℕ) → SessionCall
ping_session_call destination options surb pseudonym = record {
  destination = destination.address;
  target = options.sessions.wg.target;
  session_pool = none;
  max_client_sessions = none;
  cfg = record {
    capabilities = options.sessions.wg.capabilities;
    forward_path = destination.routing;
    return_path = destination.routing;
    always_max_out_surbs = surb.always_max_out_surbs;
    surb_management = surb.management;
    pseudonym = pseudonym;
  };
}

-- `gvpn_client::Input`.
pub record RegisterInput : Type 0 where
  pub public_key : ℕ
  pub socket_addr : ℕ
  pub timeout : ℕ

module _ (b : Backon) {E : Type 0} (text : E → String) where
  -- `backoff_expo_short_delay_bridge` has one retry, `backoff_expo_short_delay` the library's number.
  unfoldable pub open_bridge_session :
      (open_session : SessionCall → ℕ → Result SessionClientMetadata E)
      → (default_pseudonym : Option ℕ) → Destination
      → Options
      → SurbParams
      → Reported SessionClientMetadata E
  unfolding bridge_session_call
  open_bridge_session open_session default_pseudonym destination options surb =
      reported (λ e. open_bridge_failed (text e))
        (b.retry SessionClientMetadata E 1 always
          (open_session (bridge_session_call default_pseudonym destination options surb)))

  unfoldable pub register :
      (client_register : RegisterInput → ℕ → Result Registration E)
      → Options
      → SessionClientMetadata
      → (public_key : ℕ) → Reported Registration E
  register client_register options session public_key =
      reported (λ e. register_wg_failed (text e))
        (b.retry Registration E b.default_max_times always (
          client_register (record {
            public_key = public_key;
            socket_addr = session.bound_host;
            timeout = options.timeouts.http;
          })))

  unfoldable pub open_ping_session :
      (open_session : SessionCall → ℕ → Result SessionClientMetadata E)
      → Destination
      → Options
      → SurbParams
      → (pseudonym : Option ℕ) → Reported SessionClientMetadata E
  unfolding ping_session_call
  open_ping_session open_session destination options surb pseudonym =
      reported (λ e. open_ping_failed (text e))
        (b.retry SessionClientMetadata E b.default_max_times always
          (open_session (ping_session_call destination options surb pseudonym)))

-- What comes first of a request to root: its answer, the end of its channel, or the timeout.
pub data Reply (A : Type 0) : Type 0 where
  answered : Result A String → Reply A
  channel_closed : String → Reply A
  timed_out : Reply A

-- `request_killswitch_lockdown` and `request_static_wg_tunnel`, which differ in their texts.
unfoldable pub routing_reply : {A : Type 0} → (closed late : String) → Reply A → Result A Error
routing_reply closed late (answered (ok a)) = ok a
routing_reply closed late (answered (err e)) = err (routing e)
routing_reply closed late (channel_closed reason) = err (runtime (String.◌++◌ closed reason))
routing_reply closed late timed_out = err (runtime late)

unfoldable pub request_killswitch_lockdown :
    (root : List ℕ → ℕ → Reply (Unit {0}))
    → (peer_ips : List ℕ) → (interface : ℕ) → Result (Unit {0}) Error
unfolding routing_reply
request_killswitch_lockdown root peer_ips interface =
    routing_reply "Channel closed unexpectedly: " "Timed out waiting for killswitch lockdown"
      (root peer_ips interface)

-- The address of an interface is one with its prefix length.
pub record InterfaceInfo : Type 0 where
  pub address : ℕ × ℕ

-- The endpoint is a socket address, which the code prints.
pub record PeerInfo : Type 0 where
  pub public_key : ℕ
  pub preshared_key : ℕ
  pub endpoint : ℕ

pub record WireGuardData : Type 0 where
  pub wg : WireGuard
  pub interface_info : InterfaceInfo
  pub peer_info : PeerInfo

unfoldable pub wire_guard_data : WireGuard → Registration → SessionClientMetadata → WireGuardData
wire_guard_data wg registration session = record {
  wg = wg;
  interface_info = record { address = (registration.ip, 32) };
  peer_info = record {
    public_key = registration.server_public_key;
    preshared_key = registration.preshared_key;
    endpoint = session.bound_host;
  };
}

-- The answer is the name of the interface.
unfoldable pub request_static_wg_tunnel :
    (root : WireGuardData → List ℕ → Reply ℕ)
    → WireGuard
    → Registration
    → SessionClientMetadata
    → (peer_ips : List ℕ) → Result ℕ Error
unfolding routing_reply wire_guard_data
request_static_wg_tunnel root wg registration session peer_ips =
    routing_reply "Channel closed unexpectedly: " "Timed out waiting for response"
      (root (wire_guard_data wg registration session) peer_ips)

unfoldable pub ping_reply : Reply ℕ → Result ℕ Error
ping_reply (answered (ok duration)) = ok duration
ping_reply (answered (err e)) = err (ping_error e)
ping_reply (channel_closed reason) =
    err (runtime (String.◌++◌ "Channel closed unexpectedly: " reason))
ping_reply timed_out = err (runtime "Timed out waiting for response")

-- `Error::is_ping_error`.
unfoldable pub is_ping_error : Error → Bool
is_ping_error (ping_error e) = true
is_ping_error e = false

unfoldable pub request_ping :
    Backon
    → (Error → String)
    → (root : PingOptions → ℕ → Reply ℕ) → PingOptions
    → (max_backoff : ℕ) → Reported ℕ Error
unfolding ping_reply is_ping_error
request_ping b text root options max_backoff =
    reported (λ e. ping_failed (text e))
      (b.retry ℕ Error max_backoff is_ping_error (λ i. ping_reply (root options i)))

-- The IPv4 addresses of all peers, one list after the other.
unfoldable pub all_ips : List (List ℕ) → List ℕ
all_ips [] = []
all_ips (ips ∷ rest) = ips ++ all_ips rest

-- `Vec::dedup`: of equal neighbours the first is kept.
unfoldable pub dedup : List ℕ → List ℕ
dedup [] = []
dedup (a ∷ []) = a ∷ []
dedup (a ∷ b ∷ rest) = let later = dedup (b ∷ rest) in if a == b then later else a ∷ later

unfoldable pub gather_peer_ips : {E : Type 0} → Result (List (List ℕ)) E → Result (List ℕ) E
unfolding all_ips dedup sort
gather_peer_ips (err e) = err e
gather_peer_ips (ok peers) = ok (dedup (sort (all_ips peers)))

-- What the background task does, in its order.
pub data CleanupAction : Type 0 where
  unregister_asked : RegisterInput → CleanupAction
  close_asked : SessionClientMetadata → CleanupAction
  bridge_closed_sent : CleanupAction

-- The answers to both calls are only logged.
unfoldable pub background_bridge_cleanup :
    SessionClientMetadata → Options → (prev_public_key : Option ℕ) → List CleanupAction
background_bridge_cleanup bridge options none = close_asked bridge ∷ bridge_closed_sent ∷ []
background_bridge_cleanup bridge options (some old_key) =
    unregister_asked (record {
      public_key = old_key;
      socket_addr = bridge.bound_host;
      timeout = options.timeouts.http;
    })
    ∷ close_asked bridge
    ∷ bridge_closed_sent
    ∷ []
