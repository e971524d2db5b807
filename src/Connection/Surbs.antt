-- ===== src/Connection/Surbs.antt =====
-- gnosis_vpn-lib/src/connection/options.rs: what `surb_config_for` answers.
use gnosis_vpn_client.Prelude.{
  ◌*◌, ◌^◌, ◌/◌, ◌<◌, ◌≤◌, true, false, Option, none, some, Result, ok, err, ◌≡◌, refl, arith, ltb,
  leb, ◌==◌, ltb→lt, leb→le, ==_iff, Bool-cases, inl, inr,
}
use native.Mathlib.Nat.{div-mul-le_self, le-div_iff_mul-le}
use gnosis_vpn_client.Connection.Options.{
  SessionSurbOptions, SurbBalancerConfig, SurbParams, SurbConfigError, SessionSizes,
  surb_config_for, managed, to_surb_balancer_config, response_buffer_too_small,
  max_surb_upstream_cannot_be_zero, max_surbs_per_sec_overflow,
}

-- What a session is given is within its options: two packets fit into the buffer, the target does
-- not exceed the buffer by size nor the rate the bandwidth.
abbrev pub IsWithin : SessionSizes → SessionSurbOptions → Option SurbBalancerConfig → Type 0
IsWithin sizes opts none = opts.enabled ≡ false
IsWithin sizes opts (some config) =
    (opts.enabled ≡ true)
    × (2 ≤ config.target_surb_buffer_size)
    × (config.target_surb_buffer_size * sizes.session_mtu ≤ opts.buffer)
    × (config.max_surbs_per_sec * (8 * sizes.surb_size) ≤ opts.max_surb_upstream)
    × (config.max_surbs_per_sec < 2 ^ 64)

-- The reason of an error.
abbrev pub IsReason : SessionSizes → SessionSurbOptions → SurbConfigError → Type 0
IsReason sizes opts response_buffer_too_small = opts.buffer < 2 * sizes.session_mtu
IsReason sizes opts max_surb_upstream_cannot_be_zero = opts.max_surb_upstream ≡ 0
IsReason sizes opts max_surbs_per_sec_overflow =
    2 ^ 64 * (8 * sizes.surb_size) ≤ opts.max_surb_upstream

abbrev pub Answer : SessionSizes → SessionSurbOptions → Result SurbParams SurbConfigError → Type 0
Answer sizes opts (ok p) =
    (p.always_max_out_surbs ≡ opts.always_max_out_surbs) × IsWithin sizes opts p.management
Answer sizes opts (err e) = (opts.enabled ≡ true) × IsReason sizes opts e

enabled-Answer :
    (sizes : SessionSizes) (opts : SessionSurbOptions)
    → 0 < sizes.session_mtu
    → 0 < sizes.surb_size
    → opts.enabled ≡ true
    → Answer sizes opts (
        managed opts.always_max_out_surbs
          (to_surb_balancer_config sizes opts.buffer opts.max_surb_upstream))
unfolding to_surb_balancer_config managed
enabled-Answer sizes opts mtu surb on =
    let room = 8 * sizes.surb_size in
    let rate = opts.max_surb_upstream / room in
    elim (Bool-cases (ltb opts.buffer (2 * sizes.session_mtu))) [
      | inl small ↦ rw small (on, ltb→lt _ _ small)
      | inr large ↦ elim (Bool-cases (opts.max_surb_upstream == 0)) [
        | inl none_left ↦ rw large (rw none_left (on, (==_iff _ _).0 none_left))
        | inr some_left ↦ elim (Bool-cases (leb (2 ^ 64) rate)) [
          | inl fast ↦ rw large (
              rw some_left
                (rw fast (on, (le-div_iff_mul-le {k = room} (omega arith)).0 (leb→le _ _ fast))))
          | inr slow ↦ rw large (
              rw some_left (
                rw slow (
                  refl,
                  (
                    on,
                    (le-div_iff_mul-le mtu).1 (ground arith),
                    div-mul-le_self opts.buffer sizes.session_mtu,
                    div-mul-le_self opts.max_surb_upstream room,
                    ground arith,
                  ),
                )))
        ]
      ]
    ]

-- A session whose balancer is disabled is given no balancer; one whose balancer is enabled is given a
-- target of at least two packets that fit into its buffer and a rate below 2 ^ 64 that its bandwidth
-- allows, or fails for a buffer below two packets, a bandwidth of zero, or a rate of 2 ^ 64 or more.
-- The sizes of packets and SURBs are not zero.
pub surb_config_for-Answer :
    (sizes : SessionSizes) (opts : SessionSurbOptions)
    → 0 < sizes.session_mtu
    → 0 < sizes.surb_size
    → Answer sizes opts (surb_config_for sizes opts)
unfolding surb_config_for
surb_config_for-Answer sizes opts mtu surb = elim (Bool-cases opts.enabled) [
  | inr off ↦ simp off (refl, refl)
  | inl on ↦ simp on (enabled-Answer sizes opts mtu surb on)
]
