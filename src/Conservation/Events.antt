-- ===== src/Conservation/Events.antt =====
-- On the cases of the `switch` and the loop over them (packages/indexer/src/reducer.ts).
-- A handler that checks once, and then sets fields that neither the ledger nor the authority reads.
use cedra_reflect.Base.{Bool, List, [], refl, some, ◌∷◌}
use cedra_reflect.Int.{ltb_ℤ, neg, pos}
use cedra_reflect.Conservation.Authority.{
  on_operational_admin_changed-Extending, on_protocol_initialized-Extending,
  on_token_created-Extending,
}
use cedra_reflect.Conservation.Custody.{
  debit_seller-Extending, on_custody_adapter_registered-Extending,
  on_custody_epoch_route_opened-Extending, on_custody_rewards_routed-Extending,
  on_custody_shares_changed-Extending, on_reflection_fee_collected-Extending,
  on_reflection_index_advanced-Extending, on_wallet_transfer-Extending,
}
use cedra_reflect.Conservation.LpEvents.{
  adjust_lp_shares-Extending, on_lp_epoch_opened-Extending, on_lp_epoch_status_changed-Extending,
  on_lp_epoch_terminal_dust_classified-Extending, on_lp_fractional_residue_retired-Extending,
  on_lp_reward_index_advanced-Extending, on_lp_reward_quarantined-Extending,
  on_lp_rewards_claimed-Extending, on_lp_shares_transferred-Extending,
}
use cedra_reflect.Conservation.Rules.{
  Extending, Mild, alert-Extending, check-Extending, check_checked-Extending, if-Extending,
  modify-Extending, skip-Extending, ▹-Extending,
}
use cedra_reflect.Conservation.Wallets.{
  adjust-Extending, materialize_wallet-Extending, on_eligible_balance_credited-Extending,
  on_eligible_balance_debited-Extending, on_faucet_grant-Extending, on_position_created-Extending,
  on_rewards_claimed-Extending,
}
use cedra_reflect.Reducer.Authority.{
  on_operational_primary_store_excluded, on_protocol_primary_store_excluded, on_wallet_registered,
}
use cedra_reflect.Reducer.Core.{is_sell}
use cedra_reflect.Reducer.Dispatch.{apply_event, apply_events}
use cedra_reflect.Reducer.Group.{Group}
use cedra_reflect.Reducer.Lifecycle.{
  on_faucet_configured, on_faucet_pause_changed, on_fee_configuration_changed, on_launch_sealed,
  on_liquidity_limits_changed, on_pause_state_changed, on_pool_closed, on_pool_pause_changed,
  on_pool_reserve_bound, on_swap_limits_changed,
}
use cedra_reflect.Reducer.Monad.{check, modify, ◌▹◌}
use cedra_reflect.Reducer.Pool.{on_liquidity, on_swap_executed, settle_provider, settle_trader}
use cedra_reflect.Types.Common.{AlertCode, Asset, EventBase}
use cedra_reflect.Types.Core.{SwapExecutedEvent}
use cedra_reflect.Types.Event.{
  Payload, ProtocolEvent, custody_adapter_registered, custody_epoch_route_opened,
  custody_rewards_routed, custody_shares_changed, eligible_balance_credited,
  eligible_balance_debited, faucet_configured, faucet_grant, faucet_pause_changed,
  fee_configuration_changed, launch_sealed, liquidity, liquidity_limits_changed, lp_epoch_opened,
  lp_epoch_status_changed, lp_epoch_terminal_dust_classified, lp_fractional_residue_retired,
  lp_reward_index_advanced, lp_reward_quarantined, lp_rewards_claimed, lp_shares_changed,
  lp_shares_transferred, operational_admin_changed, operational_primary_store_excluded,
  pause_state_changed, pool_closed, pool_pause_changed, pool_reserve_bound, position_created,
  protocol_initialized, protocol_primary_store_excluded, reflection_fee_collected,
  reflection_index_advanced, rewards_claimed, rewards_materialized, swap_executed,
  swap_limits_changed, token_created, unsupported, wallet_registered, wallet_transfer,
}
use cedra_reflect.Types.Lp.{LiquidityEvent, LiquidityKind}
use cedra_reflect.Types.State.{ProtocolProjection}

module _ {H : Type 0} where
  checked_set-Extending :
      (f : ProtocolProjection → ProtocolProjection) (test : ProtocolProjection → Bool)
      (b : EventBase) (code : AlertCode)
      → ((p : ProtocolProjection) → Mild H p (f p))
      → Extending H (check test b code ▹ modify f)
  checked_set-Extending f test b code k =
      ▹-Extending (check-Extending test b code) (modify-Extending _ k)

  twice_checked_set-Extending :
      (f : ProtocolProjection → ProtocolProjection) (test test' : ProtocolProjection → Bool)
      (b : EventBase) (code code' : AlertCode)
      → ((p : ProtocolProjection) → Mild H p (f p))
      → Extending H (check test b code ▹ check test' b code' ▹ modify f)
  twice_checked_set-Extending f test test' b code code' k =
      ▹-Extending (▹-Extending (check-Extending test b code) (check-Extending test' b code'))
        (modify-Extending _ k)

  settle_trader-Extending : (e : SwapExecutedEvent) → Extending H (settle_trader e)
  unfolding settle_trader
  settle_trader-Extending e =
      if-Extending (is_sell e.direction) (adjust-Extending e.account Asset.tusd e.net_user_receipt)
        (▹-Extending (adjust-Extending e.account Asset.tusd (neg e.gross_amount))
          (adjust-Extending e.account Asset.trfl e.net_user_receipt))

  on_swap_executed-Extending :
      (b : EventBase) (e : SwapExecutedEvent) → Extending H (on_swap_executed b e)
  unfolding on_swap_executed
  on_swap_executed-Extending b e =
      ▹-Extending
        (▹-Extending
          (▹-Extending
            (▹-Extending (debit_seller-Extending (some (record { base = b; body = e })))
              (settle_trader-Extending e))
            (check_checked-Extending _ b _))
          (check-Extending _ b _))
        (modify-Extending _ λ p. (λ _ k. k, refl, refl))

  settle_provider-Extending :
      (kind : LiquidityKind) (e : LiquidityEvent) → Extending H (settle_provider kind e)
  unfolding settle_provider
  settle_provider-Extending LiquidityKind.seeded e = skip-Extending
  settle_provider-Extending LiquidityKind.added e =
      ▹-Extending (adjust-Extending e.provider Asset.trfl (neg e.trfl_amount))
        (adjust-Extending e.provider Asset.tusd (neg e.tusd_amount))
  settle_provider-Extending (LiquidityKind.removed final_exit) e =
      ▹-Extending
        (if-Extending (ltb_ℤ (pos 0) e.trfl_amount)
          (adjust-Extending e.provider Asset.trfl e.trfl_amount) skip-Extending)
        (if-Extending (ltb_ℤ (pos 0) e.tusd_amount)
          (adjust-Extending e.provider Asset.tusd e.tusd_amount) skip-Extending)

  on_liquidity-Extending :
      (g : Group) (b : EventBase) (e : LiquidityEvent) → Extending H (on_liquidity g b e)
  unfolding on_liquidity
  on_liquidity-Extending g b e =
      ▹-Extending
        (▹-Extending
          (▹-Extending (▹-Extending (check-Extending _ b _) (check-Extending _ b _))
            (check-Extending _ b _))
          (settle_provider-Extending e.kind e))
        (modify-Extending _ λ p. (λ _ k. k, refl, refl))

-- No event unbalances the ledger, and on a v0.2 projection none that raises no alert changes the
-- version or an administrator.
pub apply_event-Extending :
    (g : Group) (b : EventBase) (e : Payload) → Extending (Unit {0}) (apply_event g b e)
unfolding apply_event on_launch_sealed on_pool_closed on_faucet_configured on_pool_reserve_bound
    on_fee_configuration_changed on_faucet_pause_changed on_swap_limits_changed
    on_liquidity_limits_changed on_pause_state_changed on_pool_pause_changed
    on_protocol_primary_store_excluded on_operational_primary_store_excluded on_wallet_registered
apply_event-Extending g b (protocol_initialized e) = on_protocol_initialized-Extending b e
apply_event-Extending g b (token_created e) = on_token_created-Extending b e
apply_event-Extending g b (launch_sealed e) =
    checked_set-Extending _ _ b _ λ p. (λ _ k. k, refl, refl)
apply_event-Extending g b (pool_closed e) =
    checked_set-Extending _ _ b _ λ p. (λ _ k. k, refl, refl)
apply_event-Extending g b (protocol_primary_store_excluded e) =
    checked_set-Extending _ _ b _ λ p. (λ _ k. k, refl, refl)
apply_event-Extending g b (operational_primary_store_excluded e) =
    checked_set-Extending _ _ b _ λ p. (λ _ k. k, refl, refl)
apply_event-Extending g b (position_created e) = on_position_created-Extending b e
apply_event-Extending g b (wallet_registered e) =
    checked_set-Extending _ _ b _ λ p. (λ _ k. k, refl, refl)
apply_event-Extending g b (faucet_grant e) = on_faucet_grant-Extending e
apply_event-Extending g b (faucet_configured e) =
    checked_set-Extending _ _ b _ λ p. (λ _ k. k, refl, refl)
apply_event-Extending g b (pool_reserve_bound e) =
    checked_set-Extending _ _ b _ λ p. (λ _ k. k, refl, refl)
apply_event-Extending g b (wallet_transfer e) = on_wallet_transfer-Extending g b e
apply_event-Extending g b (eligible_balance_debited e) = on_eligible_balance_debited-Extending e
apply_event-Extending g b (eligible_balance_credited e) = on_eligible_balance_credited-Extending e
apply_event-Extending g b (swap_executed e) = on_swap_executed-Extending b e
apply_event-Extending g b (reflection_fee_collected e) = on_reflection_fee_collected-Extending g b e
apply_event-Extending g b (reflection_index_advanced e) = on_reflection_index_advanced-Extending b e
apply_event-Extending g b (rewards_materialized e) = materialize_wallet-Extending b e
apply_event-Extending g b (rewards_claimed e) = on_rewards_claimed-Extending e
apply_event-Extending g b (custody_shares_changed e) = on_custody_shares_changed-Extending b e
apply_event-Extending g b (custody_adapter_registered e) =
    on_custody_adapter_registered-Extending b e
apply_event-Extending g b (custody_epoch_route_opened e) =
    on_custody_epoch_route_opened-Extending b e
apply_event-Extending g b (custody_rewards_routed e) = on_custody_rewards_routed-Extending b e
apply_event-Extending g b (fee_configuration_changed e) =
    checked_set-Extending _ _ b _ λ p. (λ _ k. k, refl, refl)
apply_event-Extending g b (swap_limits_changed e) =
    checked_set-Extending _ _ b _ λ p. (λ _ k. k, refl, refl)
apply_event-Extending g b (liquidity_limits_changed e) =
    twice_checked_set-Extending _ _ _ b _ _ λ p. (λ _ k. k, refl, refl)
apply_event-Extending g b (pause_state_changed e) =
    checked_set-Extending _ _ b _ λ p. (λ _ k. k, refl, refl)
apply_event-Extending g b (faucet_pause_changed e) =
    checked_set-Extending _ _ b _ λ p. (λ _ k. k, refl, refl)
apply_event-Extending g b (pool_pause_changed e) =
    checked_set-Extending _ _ b _ λ p. (λ _ k. k, refl, refl)
apply_event-Extending g b (operational_admin_changed e) = on_operational_admin_changed-Extending b e
apply_event-Extending g b (lp_epoch_opened e) = on_lp_epoch_opened-Extending b e
apply_event-Extending g b (lp_epoch_status_changed e) = on_lp_epoch_status_changed-Extending b e
apply_event-Extending g b (lp_shares_changed e) = adjust_lp_shares-Extending b e
apply_event-Extending g b (lp_shares_transferred e) = on_lp_shares_transferred-Extending b e
apply_event-Extending g b (lp_reward_index_advanced e) = on_lp_reward_index_advanced-Extending g b e
apply_event-Extending g b (lp_rewards_claimed e) = on_lp_rewards_claimed-Extending b e
apply_event-Extending g b (lp_reward_quarantined e) = on_lp_reward_quarantined-Extending g b e
apply_event-Extending g b (lp_fractional_residue_retired e) =
    on_lp_fractional_residue_retired-Extending g b e
apply_event-Extending g b (lp_epoch_terminal_dust_classified e) =
    on_lp_epoch_terminal_dust_classified-Extending b e
apply_event-Extending g b (liquidity e) = on_liquidity-Extending g b e
apply_event-Extending g b unsupported = alert-Extending b AlertCode.event_data

pub apply_events-Extending :
    (g : Group) (es : List ProtocolEvent) → Extending (Unit {0}) (apply_events g es)
unfolding apply_events
apply_events-Extending g [] = skip-Extending
apply_events-Extending g (e ∷ es) =
    ▹-Extending (apply_event-Extending g e.base e.payload) (apply_events-Extending g es)
