-- ===== src/Types/Event.antt =====
-- The union of the events (types.ts), and an event with its base fields.
use cedra_reflect.Types.Common.{EventBase}
use cedra_reflect.Types.Setup.{
  ProtocolInitializedEvent, TokenCreatedEvent, LaunchSealedEvent, PoolClosedEvent,
  ProtocolPrimaryStoreExcludedEvent, OperationalPrimaryStoreExcludedEvent, PositionCreatedEvent,
  WalletRegisteredEvent, FaucetGrantEvent, FaucetConfiguredEvent, PoolReserveBoundEvent,
  WalletTransferEvent,
}
use cedra_reflect.Types.Core.{
  EligibleBalanceDebitedEvent, EligibleBalanceCreditedEvent, SwapExecutedEvent,
  ReflectionFeeCollectedEvent, ReflectionIndexAdvancedEvent, RewardsMaterializedEvent,
  RewardsClaimedEvent, CustodySharesChangedEvent, CustodyAdapterRegisteredEvent,
  CustodyEpochRouteOpenedEvent, CustodyRewardsRoutedEvent,
}
use cedra_reflect.Types.Admin.{
  FeeConfigurationChangedEvent, SwapLimitsChangedEvent, LiquidityLimitsChangedEvent,
  PauseStateChangedEvent, FaucetPauseChangedEvent, PoolPauseChangedEvent,
  OperationalAdminChangedEvent,
}
use cedra_reflect.Types.Lp.{
  LiquidityEvent, LpEpochOpenedEvent, LpEpochStatusChangedEvent, LpSharesChangedEvent,
  LpSharesTransferredEvent, LpRewardIndexAdvancedEvent, LpRewardsClaimedEvent,
  LpRewardQuarantinedEvent, LpFractionalResidueRetiredEvent, LpEpochTerminalDustClassifiedEvent,
}

-- `unsupported` is a runtime discriminant outside the union: event sources are not trusted.
pub data Payload : Type 0 where
  protocol_initialized : ProtocolInitializedEvent → Payload
  token_created : TokenCreatedEvent → Payload
  launch_sealed : LaunchSealedEvent → Payload
  pool_closed : PoolClosedEvent → Payload
  protocol_primary_store_excluded : ProtocolPrimaryStoreExcludedEvent → Payload
  operational_primary_store_excluded : OperationalPrimaryStoreExcludedEvent → Payload
  position_created : PositionCreatedEvent → Payload
  wallet_registered : WalletRegisteredEvent → Payload
  faucet_grant : FaucetGrantEvent → Payload
  faucet_configured : FaucetConfiguredEvent → Payload
  pool_reserve_bound : PoolReserveBoundEvent → Payload
  wallet_transfer : WalletTransferEvent → Payload
  eligible_balance_debited : EligibleBalanceDebitedEvent → Payload
  eligible_balance_credited : EligibleBalanceCreditedEvent → Payload
  swap_executed : SwapExecutedEvent → Payload
  reflection_fee_collected : ReflectionFeeCollectedEvent → Payload
  reflection_index_advanced : ReflectionIndexAdvancedEvent → Payload
  rewards_materialized : RewardsMaterializedEvent → Payload
  rewards_claimed : RewardsClaimedEvent → Payload
  custody_shares_changed : CustodySharesChangedEvent → Payload
  custody_adapter_registered : CustodyAdapterRegisteredEvent → Payload
  custody_epoch_route_opened : CustodyEpochRouteOpenedEvent → Payload
  custody_rewards_routed : CustodyRewardsRoutedEvent → Payload
  fee_configuration_changed : FeeConfigurationChangedEvent → Payload
  swap_limits_changed : SwapLimitsChangedEvent → Payload
  liquidity_limits_changed : LiquidityLimitsChangedEvent → Payload
  pause_state_changed : PauseStateChangedEvent → Payload
  faucet_pause_changed : FaucetPauseChangedEvent → Payload
  pool_pause_changed : PoolPauseChangedEvent → Payload
  operational_admin_changed : OperationalAdminChangedEvent → Payload
  lp_epoch_opened : LpEpochOpenedEvent → Payload
  lp_epoch_status_changed : LpEpochStatusChangedEvent → Payload
  lp_shares_changed : LpSharesChangedEvent → Payload
  lp_shares_transferred : LpSharesTransferredEvent → Payload
  lp_reward_index_advanced : LpRewardIndexAdvancedEvent → Payload
  lp_rewards_claimed : LpRewardsClaimedEvent → Payload
  lp_reward_quarantined : LpRewardQuarantinedEvent → Payload
  lp_fractional_residue_retired : LpFractionalResidueRetiredEvent → Payload
  lp_epoch_terminal_dust_classified : LpEpochTerminalDustClassifiedEvent → Payload
  liquidity : LiquidityEvent → Payload
  unsupported : Payload

pub record ProtocolEvent : Type 0 where
  pub base : EventBase
  pub open base use *
  pub payload : Payload
