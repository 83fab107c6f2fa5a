-- ===== src/Accounting.antt =====
-- packages/indexer/src/accounting.ts: pending rewards, liabilities and vault balances. A throw of
-- the checked arithmetic is `none`.
use cedra_reflect.Base.{Option, [], if◌then◌else◌, none, some, ◌>>=◌, ◌>>◌, ◌∷◌}
use cedra_reflect.Int.{div, ltb_ℤ, pos, ℤ, ◌+ℤ◌}
use cedra_reflect.Dict.{Dict}
use cedra_reflect.Domains.Checked.{apply_signed, checked_multiply, checked_subtract}
use cedra_reflect.Types.Common.{Address}
use cedra_reflect.Types.State.{
  IndexedLpEpoch, IndexedLpPosition, IndexedPosition, ProtocolProjection,
}

abbrev pub reflection_magnitude : ℤ
reflection_magnitude = pos 1_000_000_000_000_000_000_000_000

unfoldable pub require_non_negative : ℤ → Option ℤ
require_non_negative v = if ltb_ℤ v (pos 0) then none else some v

unfoldable pub magnified_entitlement : ℤ → ℤ → ℤ → Option ℤ
magnified_entitlement shares index signed_correction = do
  require_non_negative shares
  require_non_negative index
  base ← checked_multiply shares index
  magnified ← apply_signed base signed_correction
  div magnified reflection_magnitude

unfoldable pub wallet_pending : IndexedPosition → ℤ → Option ℤ
wallet_pending p index = do
  gross ← magnified_entitlement p.raw_trfl index p.correction
  checked_subtract gross p.claimed

unfoldable pub custody_pending : ProtocolProjection → Option ℤ
custody_pending p = do
  gross ← magnified_entitlement p.custody.shares p.current_index p.custody.correction
  checked_subtract gross p.custody.claimed

unfoldable pub core_indexed_liability : ProtocolProjection → Option ℤ
core_indexed_liability p = do
  gross ← magnified_entitlement p.eligible_supply p.current_index p.aggregate_correction
  unclaimed ← checked_subtract gross p.lifetime_materialized
  checked_subtract unclaimed p.lifetime_custody_routed

unfoldable pub expected_core_vault_balance : ProtocolProjection → Option ℤ
expected_core_vault_balance p = do
  kept ← checked_subtract p.lifetime_swap_fees p.lifetime_materialized
  checked_subtract kept p.lifetime_custody_routed

unfoldable pub lp_position_pending : IndexedLpPosition → IndexedLpEpoch → Option ℤ
lp_position_pending p epoch = do
  gross ← magnified_entitlement p.shares epoch.index p.correction
  checked_subtract gross p.claimed

unfoldable pub lp_indexed_liability : IndexedLpEpoch → Option ℤ
lp_indexed_liability epoch = do
  gross ← magnified_entitlement epoch.total_shares epoch.index epoch.aggregate_correction
  checked_subtract gross epoch.lifetime_claimed

unfoldable pub expected_lp_vault_balance : IndexedLpEpoch → Option ℤ
expected_lp_vault_balance epoch = checked_subtract epoch.lifetime_received epoch.lifetime_claimed

-- The loops of `sumWalletShares` and `sumLpShares`, which add from the left.
abbrev pub sum_from {ℓ} : {V : Type ℓ} → (V → ℤ) → ℤ → Dict Address V → ℤ
sum_from f acc [] = acc
sum_from f acc ((_, v) ∷ d) = sum_from f (acc +ℤ f v) d

unfoldable pub sum_wallet_shares : Dict Address IndexedPosition → ℤ
sum_wallet_shares = sum_from (λ p. p.raw_trfl) (pos 0)

unfoldable pub sum_lp_shares : Dict Address IndexedLpPosition → ℤ
sum_lp_shares = sum_from (λ p. p.shares) (pos 0)
