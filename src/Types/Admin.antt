-- ===== src/Types/Admin.antt =====
-- Events of configuration and authority (types.ts).
use cedra_reflect.Base.{Bool, String}
use cedra_reflect.Int.{ℤ}
use cedra_reflect.Types.Common.{Address}

pub record FeeConfigurationChangedEvent : Type 0 where
  pub old_fee_bps : ℤ
  pub new_fee_bps : ℤ

pub record SwapLimitsChangedEvent : Type 0 where
  pub amm_fee_bps : ℤ
  pub maximum_gross_swap : ℤ
  pub maximum_reserve_bps : ℤ

pub record LiquidityLimitsChangedEvent : Type 0 where
  pub maximum_rfl_contribution : ℤ
  pub maximum_tusd_contribution : ℤ
  pub maximum_non_final_withdrawal_share_bps : ℤ

pub record PauseStateChangedEvent : Type 0 where
  pub swaps_paused : Bool
  pub claims_paused : Bool

pub record FaucetPauseChangedEvent : Type 0 where
  pub paused : Bool

pub record PoolPauseChangedEvent : Type 0 where
  pub pool_paused : Bool
  pub liquidity_paused : Bool
  pub lp_claims_paused : Bool
  pub shutdown_mode : Bool

pub record OperationalAdminChangedEvent : Type 0 where
  pub scope : String
  pub old_operational_admin : Address
  pub new_operational_admin : Address
