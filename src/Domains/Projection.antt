-- ===== src/Domains/Projection.antt =====
-- `assertProjectionMoveDomains` of packages/indexer/src/move-domains.ts: every number that the
-- projection keeps has its Move width. `false` stands for a throw.
use cedra_reflect.Base.{Bool, ◌&&◌}
use cedra_reflect.Int.{leb_ℤ, pos}
use cedra_reflect.Dict.{all_entries}
use cedra_reflect.Domains.Checked.{fits, fits_nullable, fits_signed, max_safe_integer}
use cedra_reflect.Types.Common.{EventCursor}
use cedra_reflect.Types.State.{
  IndexedCustodyPosition, IndexedLpEpoch, IndexedLpPosition, IndexedPool, IndexedPosition,
  ProtocolProjection,
}

unfoldable pub fits_pool : IndexedPool → Bool
fits_pool r =
    fits 64 r.trfl_reserve
    && fits 64 r.tusd_reserve
    && fits 64 r.amm_fee_bps
    && fits 64 r.maximum_gross_swap
    && fits 64 r.maximum_reserve_bps
    && fits 64 r.maximum_rfl_contribution
    && fits 64 r.maximum_tusd_contribution
    && fits 64 r.maximum_non_final_withdrawal_share_bps

unfoldable pub fits_custody : IndexedCustodyPosition → Bool
fits_custody r =
    fits_nullable 64 r.adapter_id
    && fits_nullable 64 r.active_route_epoch
    && fits 128 r.shares
    && fits_signed r.correction
    && fits 256 r.claimed
    && fits 256 r.lifetime_routed

unfoldable pub fits_position : IndexedPosition → Bool
fits_position r =
    fits 64 r.raw_trfl
    && fits 64 r.raw_tusd
    && fits_signed r.correction
    && fits 256 r.claimed
    && fits 256 r.lifetime_claimed
    && fits 256 r.lifetime_materialized

unfoldable pub fits_lp_position : IndexedLpPosition → Bool
fits_lp_position r = fits 128 r.shares && fits_signed r.correction && fits 256 r.claimed

unfoldable pub fits_epoch : IndexedLpEpoch → Bool
unfolding fits_lp_position
fits_epoch r =
    fits 64 r.epoch
    && fits 256 r.index
    && fits 256 r.index_remainder
    && fits 128 r.total_shares
    && fits_signed r.aggregate_correction
    && fits 128 r.unallocated_rewards
    && fits 128 r.rounding_reserve
    && fits 256 r.retired_residue_magnified
    && fits_nullable 128 r.terminal_rounding_base_units
    && fits 256 r.lifetime_received
    && fits 256 r.lifetime_claimed
    && all_entries (λ _ q. fits_lp_position q) r.positions

-- The cursor texts of `seenEventIds` are kept as the pairs that they spell.
unfoldable pub fits_cursor : EventCursor → Bool
fits_cursor c =
    fits 64 c.ledger_version && leb_ℤ (pos 0) c.event_index && leb_ℤ c.event_index max_safe_integer

-- The fields of the projection itself.
unfoldable pub fits_scalars : ProtocolProjection → Bool
fits_scalars r =
    fits 64 r.protocol_exclusion_slots
    && fits 64 r.protocol_exclusions_remaining
    && fits 64 r.registered_wallet_count
    && fits 64 r.fee_bps
    && fits 256 r.current_index
    && fits 256 r.index_remainder
    && fits 128 r.eligible_supply
    && fits_signed r.aggregate_correction
    && fits 128 r.unallocated_fees
    && fits 128 r.rounding_reserve
    && fits 256 r.reward_vault_credits
    && fits 256 r.reward_vault_payouts
    && fits 256 r.lifetime_swap_fees
    && fits 256 r.lifetime_materialized
    && fits 256 r.lifetime_custody_routed
    && fits 64 r.faucet_trfl_grant
    && fits 64 r.faucet_tusd_grant
    && fits 64 r.faucet_cooldown_seconds
    && fits_nullable 64 r.active_lp_epoch

unfoldable pub fits_projection : ProtocolProjection → Bool
unfolding fits_pool fits_custody fits_position fits_epoch fits_cursor fits_scalars
fits_projection r =
    fits_scalars r
    && fits_pool r.pool
    && fits_custody r.custody
    && all_entries (λ _ q. fits_position q) r.positions
    && all_entries (λ key q. fits 64 key && fits_epoch q) r.lp_epochs
    && all_entries (λ _ q. fits 64 q) r.reward_vault_to_epoch
    && all_entries (λ _ q. fits 64 q) r.state_id_to_epoch
    && all_entries (λ _ q. fits_cursor q) r.seen_event_ids
