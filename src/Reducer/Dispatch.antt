-- ===== src/Reducer/Dispatch.antt =====
-- The `switch` over the events in packages/indexer/src/reducer.ts, and the loop around it.
use cedra_reflect.Base.{List, [], ◌∷◌}
use cedra_reflect.Reducer.Authority.{
  on_operational_admin_changed, on_operational_primary_store_excluded,
  on_protocol_primary_store_excluded, on_wallet_registered,
}
use cedra_reflect.Reducer.Core.{
  on_custody_adapter_registered, on_custody_epoch_route_opened, on_custody_rewards_routed,
  on_custody_shares_changed, on_reflection_fee_collected, on_reflection_index_advanced,
  on_wallet_transfer,
}
use cedra_reflect.Reducer.Group.{Group}
use cedra_reflect.Reducer.Lifecycle.{
  on_faucet_configured, on_faucet_pause_changed, on_fee_configuration_changed, on_launch_sealed,
  on_liquidity_limits_changed, on_pause_state_changed, on_pool_closed, on_pool_pause_changed,
  on_pool_reserve_bound, on_protocol_initialized, on_swap_limits_changed, on_token_created,
}
use cedra_reflect.Reducer.Lp.{
  adjust_lp_shares, on_lp_epoch_opened, on_lp_epoch_status_changed, on_lp_rewards_claimed,
  on_lp_shares_transferred,
}
use cedra_reflect.Reducer.LpRewards.{
  on_lp_epoch_terminal_dust_classified, on_lp_fractional_residue_retired,
  on_lp_reward_index_advanced, on_lp_reward_quarantined,
}
use cedra_reflect.Reducer.Monad.{Action, alert, skip, ◌▹◌}
use cedra_reflect.Reducer.Pool.{on_liquidity, on_swap_executed}
use cedra_reflect.Reducer.Wallet.{
  materialize_wallet, on_eligible_balance_credited, on_eligible_balance_debited, on_faucet_grant,
  on_position_created, on_rewards_claimed,
}
use cedra_reflect.Types.Common.{AlertCode, EventBase}
use cedra_reflect.Types.Event.{
  Payload, ProtocolEvent, custody_adapter_registered, custody_epoch_route_opened,
  custody_rewards_routed, custody_shares_changed, eligible_balance_credited,
  eligible_balance_debited, faucet_configured, faucet_grant, faucet_pause_changed,
  fee_configuration_changed, launch_sealed, liquidity, liquidity_limits_changed, lp_epoch_opened,
  lp_epoch_status_changed, lp_epoch_terminal_dust_classified, lp_fractional_residue_retired,
  lp_reward_index_advanced, lp_reward_quarantined, lp_rewards_claimed, lp_shares_changed,
  lp_shares_transferred, operational_admin_changed, operational_primary_store_excluded,
  pause_state_changed, pool_closed, pool_pause_changed, pool_reserve_bound, position_created,
  protocol_initialized, protocol_primary_store_excluded, reflection_fee_collected,
  reflection_index_advanced, rewards_claimed, rewards_materialized, swap_executed,
  swap_limits_changed, token_created, unsupported, wallet_registered, wallet_transfer,
}

unfoldable pub apply_event : Group → EventBase → Payload → Action
apply_event g b (protocol_initialized e) = on_protocol_initialized b e
apply_event g b (token_created e) = on_token_created b e
apply_event g b (launch_sealed e) = on_launch_sealed b e
apply_event g b (pool_closed e) = on_pool_closed b e
apply_event g b (protocol_primary_store_excluded e) = on_protocol_primary_store_excluded b e
apply_event g b (operational_primary_store_excluded e) = on_operational_primary_store_excluded b e
apply_event g b (position_created e) = on_position_created b e
apply_event g b (wallet_registered e) = on_wallet_registered b e
apply_event g b (faucet_grant e) = on_faucet_grant e
apply_event g b (faucet_configured e) = on_faucet_configured b e
apply_event g b (pool_reserve_bound e) = on_pool_reserve_bound b e
apply_event g b (wallet_transfer e) = on_wallet_transfer g b e
apply_event g b (eligible_balance_debited e) = on_eligible_balance_debited e
apply_event g b (eligible_balance_credited e) = on_eligible_balance_credited e
apply_event g b (swap_executed e) = on_swap_executed b e
apply_event g b (reflection_fee_collected e) = on_reflection_fee_collected g b e
apply_event g b (reflection_index_advanced e) = on_reflection_index_advanced b e
apply_event g b (rewards_materialized e) = materialize_wallet b e
apply_event g b (rewards_claimed e) = on_rewards_claimed e
apply_event g b (custody_shares_changed e) = on_custody_shares_changed b e
apply_event g b (custody_adapter_registered e) = on_custody_adapter_registered b e
apply_event g b (custody_epoch_route_opened e) = on_custody_epoch_route_opened b e
apply_event g b (custody_rewards_routed e) = on_custody_rewards_routed b e
apply_event g b (fee_configuration_changed e) = on_fee_configuration_changed b e
apply_event g b (swap_limits_changed e) = on_swap_limits_changed b e
apply_event g b (liquidity_limits_changed e) = on_liquidity_limits_changed b e
apply_event g b (pause_state_changed e) = on_pause_state_changed b e
apply_event g b (faucet_pause_changed e) = on_faucet_pause_changed b e
apply_event g b (pool_pause_changed e) = on_pool_pause_changed b e
apply_event g b (operational_admin_changed e) = on_operational_admin_changed b e
apply_event g b (lp_epoch_opened e) = on_lp_epoch_opened b e
apply_event g b (lp_epoch_status_changed e) = on_lp_epoch_status_changed b e
apply_event g b (lp_shares_changed e) = adjust_lp_shares b e
apply_event g b (lp_shares_transferred e) = on_lp_shares_transferred b e
apply_event g b (lp_reward_index_advanced e) = on_lp_reward_index_advanced g b e
apply_event g b (lp_rewards_claimed e) = on_lp_rewards_claimed b e
apply_event g b (lp_reward_quarantined e) = on_lp_reward_quarantined g b e
apply_event g b (lp_fractional_residue_retired e) = on_lp_fractional_residue_retired g b e
apply_event g b (lp_epoch_terminal_dust_classified e) = on_lp_epoch_terminal_dust_classified b e
apply_event g b (liquidity e) = on_liquidity g b e
apply_event g b unsupported = alert b AlertCode.event_data

unfoldable pub apply_events : Group → List ProtocolEvent → Action
apply_events g [] = skip
apply_events g (e ∷ es) = apply_event g e.base e.payload ▹ apply_events g es
