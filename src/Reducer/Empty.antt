-- ===== src/Reducer/Empty.antt =====
-- `createEmptyProjection` of packages/indexer/src/reducer.ts, where every replay begins.
use cedra_reflect.Base.{[], false, none}
use cedra_reflect.Int.{pos, ℤ}
use cedra_reflect.Reducer.Core.{bps_denominator}
use cedra_reflect.Types.State.{IndexedCustodyPosition, IndexedPool, ProtocolProjection}

-- `CEDRA_TESTNET_CHAIN_ID`
abbrev pub cedra_testnet_chain_id : ℤ
cedra_testnet_chain_id = pos 2

abbrev pub empty_pool : IndexedPool
empty_pool = record {
  trfl_reserve = pos 0;
  tusd_reserve = pos 0;
  amm_fee_bps = pos 30;
  maximum_gross_swap = pos 0;
  maximum_reserve_bps = pos 0;
  maximum_rfl_contribution = pos 100_000_000_000;
  maximum_tusd_contribution = pos 100_000_000_000;
  maximum_non_final_withdrawal_share_bps = bps_denominator;
  pool_paused = false;
  liquidity_paused = false;
  lp_claims_paused = false;
  shutdown_mode = false;
  seeded = false;
}

abbrev pub empty_custody : IndexedCustodyPosition
empty_custody = record {
  adapter_id = none;
  reserve_store = none;
  active_route_epoch = none;
  active_lp_reward_vault = none;
  shares = pos 0;
  correction = pos 0;
  claimed = pos 0;
  lifetime_routed = pos 0;
}

-- `createEmptyProjection`
abbrev pub create_empty_projection : ProtocolProjection
create_empty_projection = record {
  chain_id = cedra_testnet_chain_id;
  deployment_id = "uninitialized";
  network_label = "uninitialized";
  token_metadata = none;
  protocol_exclusion_slots = pos 0;
  protocol_exclusions_remaining = pos 0;
  protocol_excluded_stores = [];
  registered_wallets = [];
  registered_wallet_count = pos 0;
  automatic_materialization = false;
  fee_bps = pos 100;
  current_index = pos 0;
  index_remainder = pos 0;
  eligible_supply = pos 0;
  aggregate_correction = pos 0;
  unallocated_fees = pos 0;
  rounding_reserve = pos 0;
  reward_vault = none;
  distribution_vault = none;
  mock_usd_pool_reserve = none;
  reward_vault_credits = pos 0;
  reward_vault_payouts = pos 0;
  lifetime_swap_fees = pos 0;
  lifetime_materialized = pos 0;
  lifetime_custody_routed = pos 0;
  package_version = "uninitialized";
  lifecycle = none;
  swaps_paused = false;
  claims_paused = false;
  faucet_paused = false;
  faucet_trfl_grant = pos 1_000_000_000;
  faucet_tusd_grant = pos 1_000_000_000;
  faucet_cooldown_seconds = pos 3_600;
  operational_admins = record { reflection_core = none; test_assets = none; test_amm = none };
  deployment_ready = false;
  pool = empty_pool;
  custody = empty_custody;
  active_lp_epoch = none;
  lp_epochs = [];
  reward_vault_to_epoch = [];
  state_id_to_epoch = [];
  positions = [];
  seen_event_ids = [];
}
