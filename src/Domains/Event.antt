-- ===== src/Domains/Event.antt =====
-- `assertBase` and `assertProtocolEventMoveDomains` of packages/indexer/src/move-domains.ts: the
-- screening of an event's numbers. `false` stands for a throw.
use cedra_reflect.Base.{Bool, String, false, if◌then◌else◌, leb, ltb, true, ℕ, ◌&&◌, ◌+◌}
use cedra_reflect.Int.{leb_ℤ, pos}
use cedra_reflect.Domains.Checked.{fits, fits_nullable, max_safe_integer}
use cedra_reflect.Types.Common.{EventBase, EventSource}
use cedra_reflect.Types.Event.{
  Payload, ProtocolEvent, custody_adapter_registered, custody_epoch_route_opened,
  custody_rewards_routed, custody_shares_changed, eligible_balance_credited,
  eligible_balance_debited, faucet_configured, faucet_grant, faucet_pause_changed,
  fee_configuration_changed, launch_sealed, liquidity, liquidity_limits_changed, lp_epoch_opened,
  lp_epoch_status_changed, lp_epoch_terminal_dust_classified, lp_fractional_residue_retired,
  lp_reward_index_advanced, lp_reward_quarantined, lp_rewards_claimed, lp_shares_changed,
  lp_shares_transferred, operational_admin_changed, operational_primary_store_excluded,
  pause_state_changed, pool_closed, pool_pause_changed, pool_reserve_bound, position_created,
  protocol_initialized, protocol_primary_store_excluded, reflection_fee_collected,
  reflection_index_advanced, rewards_claimed, rewards_materialized, swap_executed,
  swap_limits_changed, token_created, unsupported, wallet_registered, wallet_transfer,
}
use Prim.Native.Char.{code}
use Prim.Native.String.{String}

-- A text's `length` counts UTF-16 code units.
abbrev pub utf16_length : String → ℕ
utf16_length String.[] = 0
utf16_length (String.◌∷◌ c s) = (if leb 0x1_0000 (code c) then 2 else 1) + utf16_length s

abbrev pub is_identifier : String → Bool
is_identifier s = ltb 0 (utf16_length s) && leb (utf16_length s) 512

abbrev is_known_source : EventSource → Bool
is_known_source EventSource.chain = true
is_known_source EventSource.replay = true
is_known_source EventSource.fixture = true
is_known_source EventSource.invalid_source = false

unfoldable pub fits_base : EventBase → Bool
unfolding fits
fits_base e =
    is_identifier e.id
    && is_identifier e.tx_hash
    && fits 64 e.ledger_version
    && leb_ℤ (pos 0) e.event_index
    && leb_ℤ e.event_index max_safe_integer
    && fits 64 e.timestamp_unix_milliseconds
    && is_known_source e.source

unfoldable pub fits_payload : Payload → Bool
unfolding fits
fits_payload (protocol_initialized e) =
    fits 64 e.fee_bps && fits 256 e.initial_index && fits 64 e.protocol_exclusion_slots
fits_payload (token_created e) =
    fits 64 e.reflection_fee_bps && fits 64 e.total_supply && fits 8 e.decimals
fits_payload (launch_sealed e) =
    fits 64 e.reflection_fee_bps
    && fits 64 e.amm_fee_bps
    && fits 64 e.maximum_reserve_bps
    && fits 64 e.maximum_gross_swap
    && fits 64 e.maximum_rfl_contribution
    && fits 64 e.maximum_tusd_contribution
    && fits 64 e.maximum_non_final_withdrawal_share_bps
    && fits 64 e.faucet_trfl_grant
    && fits 64 e.faucet_tusd_grant
    && fits 64 e.faucet_cooldown_seconds
    && fits 64 e.seed_rfl
    && fits 64 e.seed_usd
    && fits 128 e.initial_lp_shares
fits_payload (pool_closed e) =
    fits 64 e.epoch
    && fits 128 e.lp_shares
    && fits 64 e.rfl_output
    && fits 64 e.usd_output
    && fits 64 e.rfl_reserve_after
    && fits 64 e.usd_reserve_after
fits_payload (protocol_primary_store_excluded e) = fits 64 e.remaining_slots
fits_payload (operational_primary_store_excluded e) = true
fits_payload (position_created e) = true
fits_payload (wallet_registered e) = fits 64 e.registered_wallet_count
fits_payload (faucet_grant e) = fits 64 e.amount
fits_payload (faucet_configured e) =
    fits 64 e.trfl_grant && fits 64 e.tusd_grant && fits 64 e.cooldown_seconds
fits_payload (pool_reserve_bound e) = true
fits_payload (wallet_transfer e) = fits 64 e.amount
fits_payload (eligible_balance_debited e) = fits 64 e.amount
fits_payload (eligible_balance_credited e) = fits 64 e.amount
fits_payload (swap_executed e) =
    fits 64 e.gross_amount
    && fits 64 e.reflection_fee
    && fits 64 e.amm_fee
    && fits 64 e.net_reserve_input
    && fits 64 e.gross_pool_output
    && fits 64 e.net_user_receipt
    && fits 64 e.trfl_reserve_after
    && fits 64 e.tusd_reserve_after
fits_payload (reflection_fee_collected e) =
    fits 64 e.gross_amount && fits 64 e.fee_amount && fits 64 e.fee_bps
fits_payload (reflection_index_advanced e) =
    fits 256 e.previous_index
    && fits 256 e.new_index
    && fits 256 e.index_remainder
    && fits 64 e.fee_amount
    && fits 128 e.eligible_supply
fits_payload (rewards_materialized e) =
    fits_nullable 8 e.trigger && fits 64 e.amount && fits 256 e.total_claimed
fits_payload (rewards_claimed e) = fits 64 e.amount && fits 256 e.total_claimed
fits_payload (custody_shares_changed e) =
    fits 64 e.amount && fits 128 e.custody_shares && fits 128 e.global_shares
fits_payload (custody_adapter_registered e) = fits 64 e.adapter_id && fits 64 e.first_epoch
fits_payload (custody_epoch_route_opened e) =
    fits 64 e.adapter_id && fits 64 e.epoch && fits 256 e.retired_residue_magnified
fits_payload (custody_rewards_routed e) =
    fits 64 e.epoch && fits 64 e.amount && fits 256 e.total_routed
fits_payload (fee_configuration_changed e) = fits 64 e.old_fee_bps && fits 64 e.new_fee_bps
fits_payload (swap_limits_changed e) =
    fits 64 e.amm_fee_bps && fits 64 e.maximum_gross_swap && fits 64 e.maximum_reserve_bps
fits_payload (liquidity_limits_changed e) =
    fits 64 e.maximum_rfl_contribution
    && fits 64 e.maximum_tusd_contribution
    && fits 64 e.maximum_non_final_withdrawal_share_bps
fits_payload (pause_state_changed e) = true
fits_payload (faucet_pause_changed e) = true
fits_payload (pool_pause_changed e) = true
fits_payload (operational_admin_changed e) = true
fits_payload (lp_epoch_opened e) = fits 64 e.epoch
fits_payload (lp_epoch_status_changed e) = fits 64 e.epoch
fits_payload (lp_shares_changed e) =
    fits 64 e.epoch && fits 128 e.amount && fits 128 e.owner_shares && fits 128 e.total_shares
fits_payload (lp_shares_transferred e) = fits 64 e.epoch && fits 128 e.amount
fits_payload (lp_reward_index_advanced e) =
    fits 64 e.epoch
    && fits 256 e.previous_index
    && fits 256 e.new_index
    && fits 256 e.index_remainder
    && fits 64 e.received
    && fits 128 e.total_shares
    && fits 128 e.rounding_reserve
fits_payload (lp_rewards_claimed e) =
    fits 64 e.epoch && fits 64 e.amount && fits 256 e.total_claimed
fits_payload (lp_reward_quarantined e) =
    fits 64 e.epoch && fits 64 e.amount && fits 128 e.unallocated_rewards
fits_payload (lp_fractional_residue_retired e) =
    fits 64 e.epoch
    && fits 256 e.residue_magnified
    && fits 256 e.cumulative_retired_residue_magnified
    && fits 128 e.rounding_reserve_base_units
fits_payload (lp_epoch_terminal_dust_classified e) =
    fits 64 e.epoch
    && fits 128 e.terminal_rounding_base_units
    && fits 256 e.retired_residue_magnified
    && fits 256 e.lifetime_received_base_units
    && fits 256 e.lifetime_claimed_base_units
fits_payload (liquidity e) =
    fits 64 e.epoch
    && fits 64 e.trfl_amount
    && fits 64 e.tusd_amount
    && fits 128 e.lp_shares
    && fits 64 e.trfl_reserve_after
    && fits 64 e.tusd_reserve_after
fits_payload unsupported = false

unfoldable pub fits_event : ProtocolEvent → Bool
unfolding fits_base fits_payload
fits_event e = fits_base e.base && fits_payload e.payload
