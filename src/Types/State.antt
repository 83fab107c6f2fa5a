-- ===== src/Types/State.antt =====
-- The replayed state (types.ts): wallets, custody, LP epochs, the pool, and the whole projection.
use cedra_reflect.Base.{Bool, Option, String}
use cedra_reflect.Int.{ℤ}
use cedra_reflect.Types.Common.{Address, LpEpochStatus, ProtocolLifecycle, EventCursor}
use cedra_reflect.Dict.{Dict}

pub record IndexedPosition : Type 0 where
  pub account : Address
  pub raw_trfl : ℤ
  pub raw_tusd : ℤ
  pub correction : ℤ
  pub claimed : ℤ
  pub lifetime_claimed : ℤ
  pub lifetime_materialized : ℤ

pub record IndexedCustodyPosition : Type 0 where
  pub adapter_id : Option ℤ
  pub reserve_store : Option Address
  pub active_route_epoch : Option ℤ
  pub active_lp_reward_vault : Option Address
  pub shares : ℤ
  pub correction : ℤ
  pub claimed : ℤ
  pub lifetime_routed : ℤ

pub record IndexedLpPosition : Type 0 where
  pub owner : Address
  pub shares : ℤ
  pub correction : ℤ
  pub claimed : ℤ

pub record IndexedLpEpoch : Type 0 where
  pub epoch : ℤ
  pub state_id : Address
  pub status : LpEpochStatus
  pub reward_vault : Address
  pub index : ℤ
  pub index_remainder : ℤ
  pub total_shares : ℤ
  pub aggregate_correction : ℤ
  pub unallocated_rewards : ℤ
  pub rounding_reserve : ℤ
  pub retired_residue_magnified : ℤ
  pub terminal_rounding_base_units : Option ℤ
  pub lifetime_received : ℤ
  pub lifetime_claimed : ℤ
  pub quarantined : Bool
  pub positions : Dict Address IndexedLpPosition

pub record IndexedPool : Type 0 where
  pub trfl_reserve : ℤ
  pub tusd_reserve : ℤ
  pub amm_fee_bps : ℤ
  pub maximum_gross_swap : ℤ
  pub maximum_reserve_bps : ℤ
  pub maximum_rfl_contribution : ℤ
  pub maximum_tusd_contribution : ℤ
  pub maximum_non_final_withdrawal_share_bps : ℤ
  pub pool_paused : Bool
  pub liquidity_paused : Bool
  pub lp_claims_paused : Bool
  pub shutdown_mode : Bool
  pub seeded : Bool

pub record OperationalAdmins : Type 0 where
  pub reflection_core : Option Address
  pub test_assets : Option Address
  pub test_amm : Option Address

pub record ProtocolProjection : Type 0 where
  pub chain_id : ℤ
  pub deployment_id : String
  pub network_label : String
  pub token_metadata : Option Address
  pub protocol_exclusion_slots : ℤ
  pub protocol_exclusions_remaining : ℤ
  pub protocol_excluded_stores : Dict Address Address
  pub registered_wallets : Dict Address Address
  pub registered_wallet_count : ℤ
  pub automatic_materialization : Bool
  pub fee_bps : ℤ
  pub current_index : ℤ
  pub index_remainder : ℤ
  pub eligible_supply : ℤ
  pub aggregate_correction : ℤ
  pub unallocated_fees : ℤ
  pub rounding_reserve : ℤ
  pub reward_vault : Option Address
  pub distribution_vault : Option Address
  pub mock_usd_pool_reserve : Option Address
  pub reward_vault_credits : ℤ
  pub reward_vault_payouts : ℤ
  pub lifetime_swap_fees : ℤ
  pub lifetime_materialized : ℤ
  pub lifetime_custody_routed : ℤ
  pub package_version : String
  pub lifecycle : Option ProtocolLifecycle
  pub swaps_paused : Bool
  pub claims_paused : Bool
  pub faucet_paused : Bool
  pub faucet_trfl_grant : ℤ
  pub faucet_tusd_grant : ℤ
  pub faucet_cooldown_seconds : ℤ
  pub operational_admins : OperationalAdmins
  pub deployment_ready : Bool
  pub pool : IndexedPool
  pub custody : IndexedCustodyPosition
  pub active_lp_epoch : Option ℤ
  pub lp_epochs : Dict ℤ IndexedLpEpoch
  pub reward_vault_to_epoch : Dict Address ℤ
  pub state_id_to_epoch : Dict Address ℤ
  pub positions : Dict Address IndexedPosition
  pub seen_event_ids : Dict String EventCursor
