-- ===== src/Reducer/Lifecycle.antt =====
-- Creation, launch, close, configuration and authority events of packages/indexer/src/reducer.ts.
use cedra_reflect.Base.{Bool, String, false, is_none, none, not, some, string_eq, true, ◌==◌, ◌||◌}
use cedra_reflect.Int.{leb_ℤ, ltb_ℤ, pos, ℤ_eq}
use cedra_reflect.Reducer.Monad.{Action, check, modify, ◌▹◌}
use cedra_reflect.Types.Admin.{
  FaucetPauseChangedEvent, FeeConfigurationChangedEvent, LiquidityLimitsChangedEvent,
  PauseStateChangedEvent, PoolPauseChangedEvent, SwapLimitsChangedEvent,
}
use cedra_reflect.Types.Common.{AlertCode, EventBase, ProtocolLifecycle, closed, configuring, live}
use cedra_reflect.Types.Setup.{
  FaucetConfiguredEvent, LaunchSealedEvent, PoolClosedEvent, PoolReserveBoundEvent,
  ProtocolInitializedEvent, TokenCreatedEvent,
}
use cedra_reflect.Types.State.{ProtocolProjection}

abbrev pub v02 : String
v02 = "testnet-v0.2.0"

abbrev pub is_v02 : ProtocolProjection → Bool
is_v02 p = p.package_version == v02

abbrev pub in_lifecycle : ProtocolLifecycle → ProtocolProjection → Bool
in_lifecycle ProtocolLifecycle.configuring p = elim p.lifecycle [
  | none ↦ false
  | some l ↦ elim l [ configuring ↦ true | live ↦ false | closed ↦ false ]
]
in_lifecycle ProtocolLifecycle.live p = elim p.lifecycle [
  | none ↦ false
  | some l ↦ elim l [ configuring ↦ false | live ↦ true | closed ↦ false ]
]
in_lifecycle ProtocolLifecycle.closed p = elim p.lifecycle [
  | none ↦ false
  | some l ↦ elim l [ configuring ↦ false | live ↦ false | closed ↦ true ]
]

unfoldable pub on_protocol_initialized : EventBase → ProtocolInitializedEvent → Action
on_protocol_initialized b e =
    check (λ p. not (p.package_version == "uninitialized")) b AlertCode.identifier_reuse
    ▹ check (λ _. ltb_ℤ (pos 100) e.fee_bps) b AlertCode.event_data
    ▹ check
        (λ _.
          e.deployment_id == ""
          || not (e.network_label == "cedra-testnet")
          || not (e.protocol_exclusion_slots == pos 2))
        b AlertCode.event_data
    ▹ modify (λ p. record p {
      deployment_id = e.deployment_id;
      network_label = e.network_label;
      token_metadata = some e.token_metadata;
      protocol_exclusion_slots = e.protocol_exclusion_slots;
      protocol_exclusions_remaining = e.protocol_exclusion_slots;
      automatic_materialization = e.automatic_materialization;
      fee_bps = e.fee_bps;
      current_index = e.initial_index;
      package_version = e.package_version;
      reward_vault = some e.reward_vault;
      distribution_vault = some e.distribution_vault;
    })

unfoldable pub on_token_created : EventBase → TokenCreatedEvent → Action
on_token_created b e =
    check (λ p. not (p.package_version == "uninitialized")) b AlertCode.identifier_reuse
    ▹ check
        (λ _.
          not (e.event_schema == "v0.2")
          || not (e.package_version == v02)
          || not (e.network_label == "cedra-testnet")
          || ltb_ℤ (pos 500) e.reflection_fee_bps
          || not (e.total_supply == pos 1_000_000_000_000_000)
          || not (e.decimals == pos 6))
        b AlertCode.event_data
    ▹ modify (λ p. record p {
      deployment_id = e.deployment_id;
      network_label = e.network_label;
      token_metadata = some e.token_metadata;
      protocol_exclusion_slots = pos 0;
      protocol_exclusions_remaining = pos 0;
      automatic_materialization = true;
      fee_bps = e.reflection_fee_bps;
      package_version = e.package_version;
      lifecycle = some ProtocolLifecycle.configuring;
      reward_vault = some e.reward_vault;
      distribution_vault = some e.distribution_vault;
    })

-- The fixed launch envelope.
unfoldable pub breaks_envelope : LaunchSealedEvent → ProtocolProjection → Bool
breaks_envelope e p =
    not (is_v02 p)
    || not (in_lifecycle ProtocolLifecycle.configuring p)
    || not (e.reflection_fee_bps == p.fee_bps)
    || ltb_ℤ (pos 500) e.reflection_fee_bps
    || not (e.amm_fee_bps == pos 30)
    || not (e.maximum_reserve_bps == pos 2_000)
    || not (e.maximum_gross_swap == pos 100_000_000_000)
    || not (e.maximum_rfl_contribution == pos 100_000_000_000)
    || not (e.maximum_tusd_contribution == pos 100_000_000_000)
    || not (e.maximum_non_final_withdrawal_share_bps == pos 10_000)
    || not (e.faucet_trfl_grant == pos 1_000_000_000)
    || not (e.faucet_tusd_grant == pos 1_000_000_000)
    || not (e.faucet_cooldown_seconds == pos 3_600)
    || not (e.seed_rfl == pos 500_000_000)
    || not (e.seed_usd == pos 500_000_000)
    || leb_ℤ e.initial_lp_shares (pos 0)

unfoldable pub on_launch_sealed : EventBase → LaunchSealedEvent → Action
unfolding breaks_envelope
on_launch_sealed b e =
    check (breaks_envelope e) b AlertCode.event_data
    ▹ modify (λ p. record p {
      lifecycle = some ProtocolLifecycle.live;
      deployment_ready = true;
      faucet_trfl_grant = e.faucet_trfl_grant;
      faucet_tusd_grant = e.faucet_tusd_grant;
      faucet_cooldown_seconds = e.faucet_cooldown_seconds;
      pool = record (p.pool) {
        amm_fee_bps = e.amm_fee_bps;
        maximum_reserve_bps = e.maximum_reserve_bps;
        maximum_gross_swap = e.maximum_gross_swap;
        maximum_rfl_contribution = e.maximum_rfl_contribution;
        maximum_tusd_contribution = e.maximum_tusd_contribution;
        maximum_non_final_withdrawal_share_bps = e.maximum_non_final_withdrawal_share_bps;
      };
    })

unfoldable pub on_pool_closed : EventBase → PoolClosedEvent → Action
on_pool_closed b e =
    check
      (λ p.
        not (is_v02 p)
        || not (in_lifecycle ProtocolLifecycle.live p)
        || not (e.epoch == pos 1)
        || not (e.rfl_reserve_after == p.pool.trfl_reserve)
        || not (e.usd_reserve_after == p.pool.tusd_reserve))
      b AlertCode.event_data
    ▹ modify (λ p. record p { lifecycle = some ProtocolLifecycle.closed })

unfoldable pub on_faucet_configured : EventBase → FaucetConfiguredEvent → Action
on_faucet_configured b e =
    check (λ _. leb_ℤ e.trfl_grant (pos 0) || leb_ℤ e.tusd_grant (pos 0)) b AlertCode.event_data
    ▹ modify (λ p. record p {
      faucet_trfl_grant = e.trfl_grant;
      faucet_tusd_grant = e.tusd_grant;
      faucet_cooldown_seconds = e.cooldown_seconds;
    })

unfoldable pub on_pool_reserve_bound : EventBase → PoolReserveBoundEvent → Action
on_pool_reserve_bound b e =
    check
      (λ p.
        not (is_none p.mock_usd_pool_reserve) || e.reserve_store == "0x0" || e.custodian == "0x0")
      b AlertCode.identifier_reuse
    ▹ modify (λ p. record p { mock_usd_pool_reserve = some e.reserve_store })

unfoldable pub on_fee_configuration_changed : EventBase → FeeConfigurationChangedEvent → Action
on_fee_configuration_changed b e =
    check (λ p. is_v02 p || not (e.old_fee_bps == p.fee_bps) || ltb_ℤ (pos 100) e.new_fee_bps) b
      AlertCode.event_data
    ▹ modify (λ p. record p { fee_bps = e.new_fee_bps })

unfoldable pub on_faucet_pause_changed : EventBase → FaucetPauseChangedEvent → Action
on_faucet_pause_changed b e =
    check is_v02 b AlertCode.event_data ▹ modify (λ p. record p { faucet_paused = e.paused })

unfoldable pub on_swap_limits_changed : EventBase → SwapLimitsChangedEvent → Action
on_swap_limits_changed b e =
    check is_v02 b AlertCode.event_data
    ▹ modify (λ p. record p {
      pool = record (p.pool) {
        amm_fee_bps = e.amm_fee_bps;
        maximum_gross_swap = e.maximum_gross_swap;
        maximum_reserve_bps = e.maximum_reserve_bps;
      };
    })

unfoldable pub on_liquidity_limits_changed : EventBase → LiquidityLimitsChangedEvent → Action
on_liquidity_limits_changed b e =
    check is_v02 b AlertCode.event_data
    ▹ check
        (λ _.
          leb_ℤ e.maximum_rfl_contribution (pos 0)
          || leb_ℤ e.maximum_tusd_contribution (pos 0)
          || leb_ℤ e.maximum_non_final_withdrawal_share_bps (pos 0)
          || ltb_ℤ (pos 10_000) e.maximum_non_final_withdrawal_share_bps)
        b AlertCode.event_data
    ▹ modify (λ p. record p {
      pool = record (p.pool) {
        maximum_rfl_contribution = e.maximum_rfl_contribution;
        maximum_tusd_contribution = e.maximum_tusd_contribution;
        maximum_non_final_withdrawal_share_bps = e.maximum_non_final_withdrawal_share_bps;
      };
    })

unfoldable pub on_pause_state_changed : EventBase → PauseStateChangedEvent → Action
on_pause_state_changed b e =
    check is_v02 b AlertCode.event_data
    ▹ modify (λ p. record p { swaps_paused = e.swaps_paused; claims_paused = e.claims_paused })

unfoldable pub on_pool_pause_changed : EventBase → PoolPauseChangedEvent → Action
on_pool_pause_changed b e =
    check is_v02 b AlertCode.event_data
    ▹ modify (λ p. record p {
      pool = record (p.pool) {
        pool_paused = e.pool_paused;
        liquidity_paused = e.liquidity_paused;
        lp_claims_paused = e.lp_claims_paused;
        shutdown_mode = e.shutdown_mode;
      };
    })
