-- ===== src/Types/Setup.antt =====
-- Events of creation, launch, wallet registration, the faucet and transfers (types.ts).
use cedra_reflect.Base.{Bool, String}
use cedra_reflect.Int.{ℤ}
use cedra_reflect.Types.Common.{Address, Asset}

pub record ProtocolInitializedEvent : Type 0 where
  pub deployment_id : String
  pub network_label : String
  pub token_metadata : Address
  pub automatic_materialization : Bool
  pub fee_bps : ℤ
  pub initial_index : ℤ
  pub package_version : String
  pub reward_vault : Address
  pub distribution_vault : Address
  pub protocol_exclusion_slots : ℤ

pub record TokenCreatedEvent : Type 0 where
  pub event_schema : String
  pub deployment_id : String
  pub network_label : String
  pub token_metadata : Address
  pub reward_vault : Address
  pub distribution_vault : Address
  pub reflection_fee_bps : ℤ
  pub total_supply : ℤ
  pub decimals : ℤ
  pub package_version : String

pub record LaunchSealedEvent : Type 0 where
  pub event_schema : String
  pub reflection_fee_bps : ℤ
  pub amm_fee_bps : ℤ
  pub maximum_reserve_bps : ℤ
  pub maximum_gross_swap : ℤ
  pub maximum_rfl_contribution : ℤ
  pub maximum_tusd_contribution : ℤ
  pub maximum_non_final_withdrawal_share_bps : ℤ
  pub faucet_trfl_grant : ℤ
  pub faucet_tusd_grant : ℤ
  pub faucet_cooldown_seconds : ℤ
  pub bootstrap : Address
  pub rfl_reserve : Address
  pub usd_reserve : Address
  pub lp_reward_vault : Address
  pub seed_rfl : ℤ
  pub seed_usd : ℤ
  pub initial_lp_shares : ℤ

pub record PoolClosedEvent : Type 0 where
  pub event_schema : String
  pub provider : Address
  pub epoch : ℤ
  pub lp_shares : ℤ
  pub rfl_output : ℤ
  pub usd_output : ℤ
  pub rfl_reserve_after : ℤ
  pub usd_reserve_after : ℤ

pub record ProtocolPrimaryStoreExcludedEvent : Type 0 where
  pub account : Address
  pub store : Address
  pub remaining_slots : ℤ

pub record OperationalPrimaryStoreExcludedEvent : Type 0 where
  pub account : Address
  pub store : Address

pub record PositionCreatedEvent : Type 0 where
  pub account : Address

pub record WalletRegisteredEvent : Type 0 where
  pub account : Address
  pub primary_store : Address
  pub registered_wallet_count : ℤ

pub record FaucetGrantEvent : Type 0 where
  pub account : Address
  pub asset : Asset
  pub amount : ℤ

pub record FaucetConfiguredEvent : Type 0 where
  pub trfl_grant : ℤ
  pub tusd_grant : ℤ
  pub cooldown_seconds : ℤ

pub record PoolReserveBoundEvent : Type 0 where
  pub reserve_store : Address
  pub custodian : Address

pub record WalletTransferEvent : Type 0 where
  pub from : Address
  pub to : Address
  pub asset : Asset
  pub amount : ℤ
