-- ===== src/Tests/Views.antt =====
-- A projection of a running deployment with one wallet and one LP epoch, and the chain's views of it
-- (packages/indexer/src/types.ts).
use cedra_reflect.Base.{[], false, none, some, true, ◌∷◌}
use cedra_reflect.Int.{pos}
use cedra_reflect.Reducer.Empty.{create_empty_projection, empty_custody, empty_pool}
use cedra_reflect.Types.Common.{EventCursor, LpEpochStatus}
use cedra_reflect.Types.Observed.{ObservedAccountingSnapshot}
use cedra_reflect.Types.State.{
  IndexedLpEpoch, IndexedLpPosition, IndexedPosition, ProtocolProjection,
}

abbrev pub first_position : IndexedPosition
first_position = record {
  account = "0xa1";
  raw_trfl = pos 100;
  raw_tusd = pos 0;
  correction = pos 0;
  claimed = pos 0;
  lifetime_claimed = pos 0;
  lifetime_materialized = pos 0;
}

abbrev pub first_lp_position : IndexedLpPosition
first_lp_position = record { owner = "0xa1"; shares = pos 600; correction = pos 0; claimed = pos 0 }

abbrev pub first_epoch : IndexedLpEpoch
first_epoch = record {
  epoch = pos 1;
  state_id = "0xe1";
  status = LpEpochStatus.active;
  reward_vault = "0xe2";
  index = pos 0;
  index_remainder = pos 0;
  total_shares = pos 600;
  aggregate_correction = pos 0;
  unallocated_rewards = pos 0;
  rounding_reserve = pos 0;
  retired_residue_magnified = pos 0;
  terminal_rounding_base_units = none;
  lifetime_received = pos 0;
  lifetime_claimed = pos 0;
  quarantined = false;
  positions = ("0xa1", first_lp_position) ∷ [];
}

abbrev pub live : ProtocolProjection
live = record create_empty_projection {
  deployment_id = "deployment";
  network_label = "cedra-testnet";
  package_version = "testnet-v0.1.0";
  token_metadata = some "0xc1";
  mock_usd_pool_reserve = some "0xc5";
  registered_wallets = ("0xa1", "0xb1") ∷ [];
  registered_wallet_count = pos 1;
  eligible_supply = pos 500;
  reward_vault = some "0xc2";
  operational_admins = record {
    reflection_core = some "0xd1";
    test_assets = some "0xd2";
    test_amm = some "0xd3";
  };
  deployment_ready = true;
  pool = record empty_pool { trfl_reserve = pos 400; tusd_reserve = pos 900; seeded = true };
  custody = record empty_custody {
    adapter_id = some (pos 1);
    reserve_store = some "0xc4";
    active_route_epoch = some (pos 1);
    active_lp_reward_vault = some "0xe2";
    shares = pos 400;
  };
  active_lp_epoch = some (pos 1);
  lp_epochs = (pos 1, first_epoch) ∷ [];
  reward_vault_to_epoch = ("0xe2", pos 1) ∷ [];
  state_id_to_epoch = ("0xe1", pos 1) ∷ [];
  positions = ("0xa1", first_position) ∷ [];
}

abbrev pub live_cursor : EventCursor
live_cursor = record { ledger_version = pos 7; event_index = pos 1 }

abbrev pub live_views : ObservedAccountingSnapshot
live_views = record {
  chain_id = pos 2;
  ledger_version = pos 7;
  deployment_id = "deployment";
  network_label = "cedra-testnet";
  token_metadata = "0xc1";
  protocol_exclusions_remaining = pos 0;
  registered_wallet_count = pos 1;
  registered_wallet_accounts = "0xa1" ∷ [];
  automatic_materialization = false;
  lifecycle = none;
  reflection_fee_bps = none;
  reward_vault = "0xc2";
  reward_vault_balance = pos 0;
  reflection_liability = pos 0;
  current_index = pos 0;
  index_remainder = pos 0;
  eligible_supply = pos 500;
  aggregate_correction = pos 0;
  unallocated_fees = pos 0;
  rounding_reserve = pos 0;
  lifetime_swap_fees = pos 0;
  lifetime_materialized = pos 0;
  lifetime_custody_routed = pos 0;
  custody_adapter_id = pos 1;
  custody_reserve_store = "0xc4";
  pool_rfl_reserve_store = "0xc4";
  pool_usd_reserve_store = "0xc5";
  mock_usd_pool_reserve = "0xc5";
  custody_reserve_balance = pos 400;
  custody_shares = pos 400;
  custody_correction = pos 0;
  custody_claimed = pos 0;
  custody_pending_rewards = pos 0;
  custody_active_route_epoch = pos 1;
  custody_active_lp_reward_vault = "0xe2";
  trfl_reserve = pos 400;
  tusd_reserve = pos 900;
  amm_fee_bps = pos 30;
  maximum_gross_swap = pos 0;
  maximum_reserve_bps = pos 0;
  maximum_rfl_contribution = pos 100_000_000_000;
  maximum_tusd_contribution = pos 100_000_000_000;
  maximum_non_final_withdrawal_share_bps = pos 10_000;
  active_lp_epoch = some (pos 1);
  lp_epochs =
      record {
        epoch = pos 1;
        state_id = "0xe1";
        status = LpEpochStatus.active;
        reward_vault = "0xe2";
        reward_vault_balance = pos 0;
        index = pos 0;
        index_remainder = pos 0;
        total_shares = pos 600;
        aggregate_correction = pos 0;
        unallocated_rewards = pos 0;
        rounding_reserve = pos 0;
        terminal_rounding_base_units = pos 0;
        retired_residue_magnified = pos 0;
        lifetime_received = pos 0;
        lifetime_claimed = pos 0;
        quarantined = false;
        indexed_liability = pos 0;
        positions =
            record { owner = "0xa1"; shares = pos 600; correction = pos 0; claimed = pos 0 } ∷ [];
      }
      ∷ [];
  positions =
      record { account = "0xa1"; raw_trfl = pos 100; correction = pos 0; claimed = pos 0 } ∷ [];
  package_version = "testnet-v0.1.0";
  swaps_paused = false;
  claims_paused = false;
  faucet_paused = false;
  faucet_trfl_grant = pos 1_000_000_000;
  faucet_tusd_grant = pos 1_000_000_000;
  faucet_cooldown_seconds = pos 3_600;
  pool_paused = false;
  liquidity_paused = false;
  lp_claims_paused = false;
  shutdown_mode = false;
  pool_seeded = true;
  core_operational_admin = some "0xd1";
  faucet_operational_admin = some "0xd2";
  amm_operational_admin = some "0xd3";
}
