-- ===== src/Reducer/Audit.antt =====
-- What `reduceEventGroup` of packages/indexer/src/reducer.ts checks of the whole projection once
-- the events are replayed.
-- Fees collected while nobody held shares are kept; any other fee must have been indexed.
use cedra_reflect.Base.{
  Bool, List, Option, [], any, if◌then◌else◌, is_none, is_value, keep, length, ltb, nat_beq, none,
  not, some, string_eq, true, ℕ, ◌&&◌, ◌-◌, ◌==◌, ◌>>=◌, ◌^◌, ◌||◌, ◌∷◌,
}
use cedra_reflect.Int.{ltb_ℤ, pos, ℤ, ℤ_eq, ◌+ℤ◌}
use cedra_reflect.Accounting.{
  core_indexed_liability, expected_core_vault_balance, sum_lp_shares, sum_wallet_shares,
}
use cedra_reflect.Dict.{Dict, all_entries, contains, has_value, lookup}
use cedra_reflect.Domains.Checked.{checked_add, signed_add}
use cedra_reflect.Domains.Projection.{fits_projection}
use cedra_reflect.Reducer.Arith.{checked_vault_remainder}
use cedra_reflect.Reducer.Group.{
  Group, Receipt, as_share_change, is_claim_only, is_zero_address, select,
}
use cedra_reflect.Reducer.LiquidityCheck.{same_flag}
use cedra_reflect.Reducer.LpRewards.{lp_rounding}
use cedra_reflect.Reducer.Monad.{
  Action, PendingCoreFee, alert, check, check_checked, done, modify, needing, skip, throw_if,
  update, ◌▹◌,
}
use cedra_reflect.Reducer.Pool.{is_removed}
use cedra_reflect.Types.Common.{Address, AlertCode, EventBase}
use cedra_reflect.Types.Core.{CustodyRewardsRoutedEvent}
use cedra_reflect.Types.Lp.{LiquidityEvent}
use cedra_reflect.Types.State.{
  IndexedLpEpoch, IndexedLpPosition, IndexedPosition, ProtocolProjection,
}

unfoldable pub settle_fees : List PendingCoreFee → Action
settle_fees [] c = done c
settle_fees (fee ∷ fees) c =
    (if fee.shares_at_collection == pos 0
        then modify (λ p. record p { unallocated_fees = p.unallocated_fees +ℤ fee.fee_amount })
          ▹ settle_fees fees
        else alert fee.base AlertCode.transaction_group ▹ settle_fees fees)
      c

abbrev pub settle_pending : Action
settle_pending c = settle_fees c.pending_core_fees c

unfoldable pub check_unconsumed : List (Receipt CustodyRewardsRoutedEvent) → Action
check_unconsumed [] c = done c
check_unconsumed (r ∷ rs) c =
    ((if any (λ id. id == r.id) c.consumed_routes then skip else alert r.base AlertCode.route_pair)
        ▹ check_unconsumed rs)
      c

abbrev pub paired_shares : Group → Receipt LiquidityEvent → ℕ
paired_shares g r = length (
    keep
      (λ s.
        s.body.epoch == r.body.epoch
        && s.body.owner == r.body.provider
        && s.body.amount == r.body.lp_shares
        && same_flag s.body.added (not (is_removed r.body.kind)))
      (select as_share_change g.events))

abbrev pub check_paired_shares : Group → List (Receipt LiquidityEvent) → Action
check_paired_shares g (r ∷ []) =
    check (λ _. not (nat_beq (paired_shares g r) 1)) r.base
      (if ltb 1 (paired_shares g r) then AlertCode.double_counting else AlertCode.lp_accounting)
check_paired_shares g _ = skip

abbrev pub has_distinct_values : Dict Address Address → Bool
has_distinct_values [] = true
has_distinct_values ((_, v) ∷ d) = not (has_value v d) && has_distinct_values d

abbrev pub is_bad_registry : ProtocolProjection → Bool
is_bad_registry p =
    not (p.registered_wallet_count == pos (length p.registered_wallets))
    || ltb_ℤ p.registered_wallet_count (pos 0)
    || ltb_ℤ (pos (2 ^ 64 - 1)) p.registered_wallet_count
    || not (has_distinct_values p.registered_wallets)
    || not (
        all_entries
          (λ account store. not (
            is_zero_address account
            || is_zero_address store
            || contains account p.protocol_excluded_stores
            || has_value store p.protocol_excluded_stores))
          p.registered_wallets)

unfoldable pub check_positions : EventBase → Dict Address IndexedPosition → Action
check_positions b [] c = done c
check_positions b ((account, _) ∷ d) c =
    (check (λ p. not (contains account p.registered_wallets)) b AlertCode.wallet_registration
        ▹ check_positions b d)
      c

-- The loop that adds corrections, which throws out of range.
unfoldable pub sum_corrections : ℤ → Dict Address IndexedPosition → Option ℤ
sum_corrections acc [] = some acc
sum_corrections acc ((_, q) ∷ d) = signed_add acc q.correction >>= λ next. sum_corrections next d

abbrev pub is_unbound : ProtocolProjection → Bool
is_unbound p = not (is_none p.custody.adapter_id) && elim p.custody.active_route_epoch [
  | none ↦ true
  | some id ↦ elim (lookup id p.lp_epochs) [
    | none ↦ true
    | some epoch ↦ not (is_value p.custody.active_lp_reward_vault epoch.reward_vault)
  ]
]

-- What the core vault holds beyond the liability and the unallocated fees.
unfoldable pub core_rounding : ProtocolProjection → Option ℤ
core_rounding p = do
  balance ← expected_core_vault_balance p
  liability ← core_indexed_liability p
  checked_vault_remainder balance liability p.unallocated_fees

unfoldable pub set_core_rounding : ProtocolProjection → Option ProtocolProjection
unfolding core_rounding
set_core_rounding p = core_rounding p >>= λ r. some (record p { rounding_reserve = r })

-- The loop over an epoch's positions: it checks each owner and adds correction and claims, which
-- throws out of range; what follows the loop is given both sums.
unfoldable pub tally_owners :
    EventBase → Dict Address IndexedLpPosition → ℤ → ℤ → (ℤ → ℤ → Action) → Action
unfolding needing
tally_owners b [] corrections claims rest = rest corrections claims
tally_owners b ((_, q) ∷ d) corrections claims rest =
    check (λ p. ltb_ℤ (pos 0) q.shares && not (contains q.owner p.registered_wallets)) b
      AlertCode.wallet_registration
    ▹ needing (signed_add corrections q.correction) (λ next_corrections.
      needing (checked_add claims q.claimed)
        (λ next_claims. tally_owners b d next_corrections next_claims rest))

abbrev pub is_bad_terminal : IndexedLpEpoch → Option ℤ → Bool
is_bad_terminal epoch none = is_claim_only epoch.status
is_bad_terminal epoch (some dust) =
    not (is_claim_only epoch.status)
    || ltb_ℤ dust (pos 0)
    || ltb_ℤ (pos (2 ^ 128 - 1)) dust
    || not (dust == epoch.rounding_reserve)

abbrev pub disagrees_with_positions : IndexedLpEpoch → ℤ → ℤ → Bool
disagrees_with_positions epoch corrections claims =
    not (sum_lp_shares epoch.positions == epoch.total_shares)
    || not (corrections == epoch.aggregate_correction)
    || not (claims == epoch.lifetime_claimed)

unfoldable pub audit_epoch : EventBase → IndexedLpEpoch → Action
unfolding tally_owners
audit_epoch b epoch =
    tally_owners b epoch.positions (pos 0) (pos 0) (λ corrections claims.
      check (λ _. disagrees_with_positions epoch corrections claims) b AlertCode.lp_accounting)
    ▹ check
        (λ _.
          ltb_ℤ epoch.retired_residue_magnified (pos 0)
          || ltb_ℤ (pos (2 ^ 256 - 1)) epoch.retired_residue_magnified
          || is_bad_terminal epoch epoch.terminal_rounding_base_units)
        b AlertCode.lp_accounting
    ▹ check_checked (λ _. lp_rounding epoch >>= λ r. some (not (r == epoch.rounding_reserve))) b
        AlertCode.lp_vault_backing

unfoldable pub audit_epochs : EventBase → Dict ℤ IndexedLpEpoch → Action
unfolding audit_epoch
audit_epochs b [] = skip
audit_epochs b ((_, epoch) ∷ d) = audit_epoch b epoch ▹ audit_epochs b d

unfoldable pub audit_core : EventBase → Action
unfolding check_positions sum_corrections set_core_rounding
audit_core b =
    check is_bad_registry b AlertCode.wallet_registration
    ▹ (λ c. check_positions b c.next.positions c)
    ▹ check (λ p. not (sum_wallet_shares p.positions +ℤ p.custody.shares == p.eligible_supply)) b
        AlertCode.eligible_supply
    ▹ check_checked
        (λ p. sum_corrections p.custody.correction p.positions >>= λ sum.
          some (not (sum == p.aggregate_correction)))
        b AlertCode.core_accounting
    ▹ check (λ p. not (p.pool.trfl_reserve == p.custody.shares)) b AlertCode.reserve_custody
    ▹ check is_unbound b AlertCode.vault_binding
    ▹ update set_core_rounding

unfoldable pub audit : EventBase → Action
unfolding audit_core audit_epochs
audit b =
    audit_core b
    ▹ (λ c. audit_epochs b c.next.lp_epochs c)
    ▹ throw_if (λ p. not (fits_projection p))
