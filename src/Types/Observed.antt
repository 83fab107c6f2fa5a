-- ===== src/Types/Observed.antt =====
-- What packages/indexer/src/types.ts says of the chain's views, of reconciliation, of snapshots and
-- of pages of events.
use cedra_reflect.Base.{Bool, List, Option, String}
use cedra_reflect.Int.{ℤ}
use cedra_reflect.Types.Common.{
  Address, CriticalAlert, EventCursor, LpEpochStatus, ProtocolLifecycle,
}
use cedra_reflect.Types.Event.{ProtocolEvent}
use cedra_reflect.Types.State.{ProtocolProjection}

pub record ObservedPosition : Type 0 where
  pub account : Address
  pub raw_trfl : ℤ
  pub correction : ℤ
  pub claimed : ℤ

pub record ObservedLpPosition : Type 0 where
  pub owner : Address
  pub shares : ℤ
  pub correction : ℤ
  pub claimed : ℤ

pub record ObservedLpEpoch : Type 0 where
  pub epoch : ℤ
  pub state_id : Address
  pub status : LpEpochStatus
  pub reward_vault : Address
  pub reward_vault_balance : ℤ
  pub index : ℤ
  pub index_remainder : ℤ
  pub total_shares : ℤ
  pub aggregate_correction : ℤ
  pub unallocated_rewards : ℤ
  pub rounding_reserve : ℤ
  pub terminal_rounding_base_units : ℤ
  pub retired_residue_magnified : ℤ
  pub lifetime_received : ℤ
  pub lifetime_claimed : ℤ
  pub quarantined : Bool
  pub indexed_liability : ℤ
  pub positions : List ObservedLpPosition

pub record ObservedAccountingSnapshot : Type 0 where
  pub chain_id : ℤ
  pub ledger_version : ℤ
  pub deployment_id : String
  pub network_label : String
  pub token_metadata : Address
  pub protocol_exclusions_remaining : ℤ
  pub registered_wallet_count : ℤ
  pub registered_wallet_accounts : List Address
  pub automatic_materialization : Bool
  pub lifecycle : Option ProtocolLifecycle
  pub reflection_fee_bps : Option ℤ
  pub reward_vault : Address
  pub reward_vault_balance : ℤ
  pub reflection_liability : ℤ
  pub current_index : ℤ
  pub index_remainder : ℤ
  pub eligible_supply : ℤ
  pub aggregate_correction : ℤ
  pub unallocated_fees : ℤ
  pub rounding_reserve : ℤ
  pub lifetime_swap_fees : ℤ
  pub lifetime_materialized : ℤ
  pub lifetime_custody_routed : ℤ
  pub custody_adapter_id : ℤ
  pub custody_reserve_store : Address
  pub pool_rfl_reserve_store : Address
  pub pool_usd_reserve_store : Address
  pub mock_usd_pool_reserve : Address
  pub custody_reserve_balance : ℤ
  pub custody_shares : ℤ
  pub custody_correction : ℤ
  pub custody_claimed : ℤ
  pub custody_pending_rewards : ℤ
  pub custody_active_route_epoch : ℤ
  pub custody_active_lp_reward_vault : Address
  pub trfl_reserve : ℤ
  pub tusd_reserve : ℤ
  pub amm_fee_bps : ℤ
  pub maximum_gross_swap : ℤ
  pub maximum_reserve_bps : ℤ
  pub maximum_rfl_contribution : ℤ
  pub maximum_tusd_contribution : ℤ
  pub maximum_non_final_withdrawal_share_bps : ℤ
  pub active_lp_epoch : Option ℤ
  pub lp_epochs : List ObservedLpEpoch
  pub positions : List ObservedPosition
  pub package_version : String
  pub swaps_paused : Bool
  pub claims_paused : Bool
  pub faucet_paused : Bool
  pub faucet_trfl_grant : ℤ
  pub faucet_tusd_grant : ℤ
  pub faucet_cooldown_seconds : ℤ
  pub pool_paused : Bool
  pub liquidity_paused : Bool
  pub lp_claims_paused : Bool
  pub shutdown_mode : Bool
  pub pool_seeded : Bool
  pub core_operational_admin : Option Address
  pub faucet_operational_admin : Option Address
  pub amm_operational_admin : Option Address

pub record LpReconciliationResult : Type 0 where
  pub epoch : ℤ
  pub expected_vault_balance : ℤ
  pub calculated_liability : ℤ
  pub backing_surplus : ℤ

pub record ReconciliationReport : Type 0 where
  pub ledger_version : ℤ
  pub expected_reward_vault_balance : ℤ
  pub calculated_reflection_liability : ℤ
  pub backing_surplus : ℤ
  pub lp_epochs : List LpReconciliationResult
  pub alerts : List CriticalAlert
  pub reconciled : Bool

-- `schemaVersion` is 1 in every value of the source's type, and not kept.
pub record IndexerSnapshot : Type 0 where
  pub id : String
  pub taken_at_unix_milliseconds : ℤ
  pub cursor : Option EventCursor
  pub projection : ProtocolProjection

pub record EventPage : Type 0 where
  pub chain_id : ℤ
  pub events : List ProtocolEvent
  pub next_cursor : Option EventCursor
