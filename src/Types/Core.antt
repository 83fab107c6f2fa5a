-- ===== src/Types/Core.antt =====
-- Events of swaps, reflection, materialization and custody (types.ts).
use cedra_reflect.Base.{Bool, Option, String}
use cedra_reflect.Int.{ℤ}
use cedra_reflect.Types.Common.{Address, SwapDirection}

pub record EligibleBalanceDebitedEvent : Type 0 where
  pub account : Address
  pub amount : ℤ

pub record EligibleBalanceCreditedEvent : Type 0 where
  pub account : Address
  pub amount : ℤ

pub record SwapExecutedEvent : Type 0 where
  pub account : Address
  pub direction : SwapDirection
  pub gross_amount : ℤ
  pub reflection_fee : ℤ
  pub amm_fee : ℤ
  pub net_reserve_input : ℤ
  pub gross_pool_output : ℤ
  pub net_user_receipt : ℤ
  pub trfl_reserve_after : ℤ
  pub tusd_reserve_after : ℤ

pub record ReflectionFeeCollectedEvent : Type 0 where
  pub swap_tx_hash : String
  pub gross_amount : ℤ
  pub fee_amount : ℤ
  pub fee_bps : ℤ

pub record ReflectionIndexAdvancedEvent : Type 0 where
  pub previous_index : ℤ
  pub new_index : ℤ
  pub index_remainder : ℤ
  pub fee_amount : ℤ
  pub eligible_supply : ℤ

pub record RewardsMaterializedEvent : Type 0 where
  pub account : Address
  pub amount : ℤ
  pub total_claimed : ℤ
  pub trigger : Option ℤ

pub record RewardsClaimedEvent : Type 0 where
  pub account : Address
  pub amount : ℤ
  pub total_claimed : ℤ

pub record CustodySharesChangedEvent : Type 0 where
  pub added : Bool
  pub amount : ℤ
  pub custody_shares : ℤ
  pub global_shares : ℤ

pub record CustodyAdapterRegisteredEvent : Type 0 where
  pub adapter_id : ℤ
  pub reserve_store : Address
  pub first_epoch : ℤ
  pub lp_reward_vault : Address

pub record CustodyEpochRouteOpenedEvent : Type 0 where
  pub adapter_id : ℤ
  pub epoch : ℤ
  pub reserve_store : Address
  pub lp_reward_vault : Address
  pub retired_residue_magnified : ℤ

pub record CustodyRewardsRoutedEvent : Type 0 where
  pub reserve_store : Address
  pub lp_reward_vault : Address
  pub epoch : ℤ
  pub amount : ℤ
  pub total_routed : ℤ
