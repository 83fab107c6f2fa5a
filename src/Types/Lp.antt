-- ===== src/Types/Lp.antt =====
-- Events of liquidity and of the LP reward epochs (types.ts).
use cedra_reflect.Base.{Bool}
use cedra_reflect.Int.{ℤ}
use cedra_reflect.Types.Common.{Address, LpEpochStatus}

-- `finalExit` belongs to a removal.
pub data LiquidityKind : Type 0 where
  seeded added : LiquidityKind
  removed : Bool → LiquidityKind

-- The union of the three liquidity receipts, which the program handles together.
pub record LiquidityEvent : Type 0 where
  pub kind : LiquidityKind
  pub epoch : ℤ
  pub provider : Address
  pub trfl_amount : ℤ
  pub tusd_amount : ℤ
  pub lp_shares : ℤ
  pub trfl_reserve_after : ℤ
  pub tusd_reserve_after : ℤ

pub record LpEpochOpenedEvent : Type 0 where
  pub epoch : ℤ
  pub state_id : Address
  pub reward_vault : Address

pub record LpEpochStatusChangedEvent : Type 0 where
  pub epoch : ℤ
  pub old_status : LpEpochStatus
  pub new_status : LpEpochStatus

pub record LpSharesChangedEvent : Type 0 where
  pub epoch : ℤ
  pub owner : Address
  pub added : Bool
  pub amount : ℤ
  pub owner_shares : ℤ
  pub total_shares : ℤ

pub record LpSharesTransferredEvent : Type 0 where
  pub epoch : ℤ
  pub sender : Address
  pub recipient : Address
  pub amount : ℤ

pub record LpRewardIndexAdvancedEvent : Type 0 where
  pub epoch : ℤ
  pub previous_index : ℤ
  pub new_index : ℤ
  pub index_remainder : ℤ
  pub received : ℤ
  pub total_shares : ℤ
  pub rounding_reserve : ℤ

pub record LpRewardsClaimedEvent : Type 0 where
  pub epoch : ℤ
  pub owner : Address
  pub amount : ℤ
  pub total_claimed : ℤ

pub record LpRewardQuarantinedEvent : Type 0 where
  pub epoch : ℤ
  pub amount : ℤ
  pub unallocated_rewards : ℤ
  pub reward_vault : Address

pub record LpFractionalResidueRetiredEvent : Type 0 where
  pub epoch : ℤ
  pub owner : Address
  pub residue_magnified : ℤ
  pub cumulative_retired_residue_magnified : ℤ
  pub rounding_reserve_base_units : ℤ

pub record LpEpochTerminalDustClassifiedEvent : Type 0 where
  pub epoch : ℤ
  pub reward_vault : Address
  pub terminal_rounding_base_units : ℤ
  pub retired_residue_magnified : ℤ
  pub lifetime_received_base_units : ℤ
  pub lifetime_claimed_base_units : ℤ
