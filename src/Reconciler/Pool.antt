-- ===== src/Reconciler/Pool.antt =====
-- The checks of `reconcile` in packages/indexer/src/reconciler.ts on canonical custody, the pool,
-- the faucet and the pauses.
use cedra_reflect.Base.{
  List, bool_eq, is_none, is_value, not, option_eq, string_eq, ◌&&◌, ◌++◌, ◌==◌, ◌||◌,
}
use cedra_reflect.Int.{ℤ, ℤ_eq}
use cedra_reflect.Reconciler.Site.{Site, raise}
use cedra_reflect.Reducer.Lifecycle.{is_v02}
use cedra_reflect.Types.Common.{
  AlertCode, CriticalAlert, global_scope, lifecycle_eq, named_scope, status_eq,
}
use cedra_reflect.Types.Observed.{ObservedAccountingSnapshot}
use cedra_reflect.Types.State.{ProtocolProjection}

unfoldable pub check_custody_views :
    Site → ProtocolProjection → ObservedAccountingSnapshot → ℤ → List CriticalAlert
check_custody_views s p o pending =
    raise s
      (not (is_value p.custody.adapter_id o.custody_adapter_id)
        || not (is_value p.custody.active_route_epoch o.custody_active_route_epoch)
        || not (is_value p.custody.active_lp_reward_vault o.custody_active_lp_reward_vault))
      AlertCode.vault_binding (named_scope "custody-route")
    ++ raise s
        (not (o.custody_shares == p.custody.shares)
          || not (o.custody_correction == p.custody.correction)
          || not (o.custody_claimed == p.custody.claimed)
          || not (o.custody_pending_rewards == pending))
        AlertCode.custody_accounting global_scope
    ++ raise s
        (not (is_none p.custody.reserve_store)
          && not (is_value p.custody.reserve_store o.custody_reserve_store))
        AlertCode.vault_binding (named_scope "custody")
    ++ raise s
        (not (o.pool_rfl_reserve_store == o.custody_reserve_store)
          || not (is_value p.custody.reserve_store o.pool_rfl_reserve_store))
        AlertCode.vault_binding (named_scope "pool-rfl-reserve")
    ++ raise s
        (not (is_value p.mock_usd_pool_reserve o.pool_usd_reserve_store)
          || not (is_value p.mock_usd_pool_reserve o.mock_usd_pool_reserve))
        AlertCode.vault_binding (named_scope "pool-tusd-reserve")

unfoldable pub check_reserves :
    Site → ProtocolProjection → ObservedAccountingSnapshot → List CriticalAlert
check_reserves s p o =
    raise s
      (not (o.trfl_reserve == o.custody_reserve_balance)
        || not (o.trfl_reserve == o.custody_shares)
        || not (p.pool.trfl_reserve == p.custody.shares))
      AlertCode.reserve_custody global_scope
    ++ raise s
        (not (o.trfl_reserve == p.pool.trfl_reserve) || not (o.tusd_reserve == p.pool.tusd_reserve))
        AlertCode.pool_reserves global_scope

unfoldable pub check_limits :
    Site → ProtocolProjection → ObservedAccountingSnapshot → List CriticalAlert
check_limits s p o =
    raise s
      (not (o.amm_fee_bps == p.pool.amm_fee_bps)
        || not (o.maximum_gross_swap == p.pool.maximum_gross_swap)
        || not (o.maximum_reserve_bps == p.pool.maximum_reserve_bps)
        || not (o.maximum_rfl_contribution == p.pool.maximum_rfl_contribution)
        || not (o.maximum_tusd_contribution == p.pool.maximum_tusd_contribution)
        || not (
            o.maximum_non_final_withdrawal_share_bps
            == p.pool.maximum_non_final_withdrawal_share_bps))
      AlertCode.pool_limits global_scope

-- What stands behind the LP epochs: version, mode, lifecycle, faucet and pauses.
unfoldable pub check_configuration :
    Site → ProtocolProjection → ObservedAccountingSnapshot → List CriticalAlert
check_configuration s p o =
    raise s (not (o.package_version == p.package_version)) AlertCode.package_version global_scope
    ++ raise s (not (o.automatic_materialization == p.automatic_materialization))
        AlertCode.core_accounting (named_scope "materialization-mode")
    ++ raise s
        (is_v02 p
          && (not (o.lifecycle == p.lifecycle) || not (is_value o.reflection_fee_bps p.fee_bps)))
        AlertCode.event_data (named_scope "v0.2-identity")
    ++ raise s
        (not (o.faucet_trfl_grant == p.faucet_trfl_grant)
          || not (o.faucet_tusd_grant == p.faucet_tusd_grant)
          || not (o.faucet_cooldown_seconds == p.faucet_cooldown_seconds))
        AlertCode.faucet_config global_scope
    ++ raise s
        (not (is_v02 p)
          && (not (o.swaps_paused == p.swaps_paused)
              || not (o.claims_paused == p.claims_paused)
              || not (o.faucet_paused == p.faucet_paused)
              || not (o.pool_paused == p.pool.pool_paused)
              || not (o.liquidity_paused == p.pool.liquidity_paused)
              || not (o.lp_claims_paused == p.pool.lp_claims_paused)
              || not (o.shutdown_mode == p.pool.shutdown_mode)
              || not (o.pool_seeded == p.pool.seeded)))
        AlertCode.pause_state global_scope
