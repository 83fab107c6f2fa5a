-- ===== src/Reconciler/Epochs.antt =====
-- `compareLpEpoch` of packages/indexer/src/reconciler.ts: a replayed LP epoch against the chain's.
use cedra_reflect.Base.{
  Bool, List, Option, [], bool_eq, get_or, includes, none, not, option_eq, some, string_eq, true,
  ◌&&◌, ◌++◌, ◌==◌, ◌>>=◌, ◌||◌, ◌∷◌,
}
use cedra_reflect.Int.{ltb_ℤ, pos, ℤ, ℤ_eq, ◌-ℤ◌}
use cedra_reflect.Accounting.{expected_lp_vault_balance, lp_indexed_liability}
use cedra_reflect.Dict.{Dict, contains, delete, lookup, map_from}
use cedra_reflect.Domains.Checked.{checked_add}
use cedra_reflect.Reconciler.Site.{Site, raise, view_alert}
use cedra_reflect.Types.Common.{
  Address, AlertCode, CriticalAlert, epoch_scope, lifecycle_eq, observed_owner_scope, owner_scope,
  replayed_owner_scope, status_eq,
}
use cedra_reflect.Types.Observed.{LpReconciliationResult, ObservedLpEpoch, ObservedLpPosition}
use cedra_reflect.Types.State.{IndexedLpEpoch, IndexedLpPosition, ProtocolProjection}

abbrev pub differs_lp_position : IndexedLpPosition → Option ObservedLpPosition → Bool
differs_lp_position q none = true
differs_lp_position q (some o) =
    not (o.shares == q.shares) || not (o.correction == q.correction) || not (o.claimed == q.claimed)

-- The loop over the replayed positions: its alerts, and the observed positions that are left.
unfoldable pub compare_lp_positions :
    Site
    → ℤ
    → Dict Address Address
    → Dict Address IndexedLpPosition
    → Dict Address ObservedLpPosition
    → List CriticalAlert × Dict Address ObservedLpPosition
compare_lp_positions s id registered [] rest = ([], rest)
compare_lp_positions s id registered ((owner, q) ∷ d) rest =
    let next = compare_lp_positions s id registered d (delete owner rest) in
    (
      raise s (ltb_ℤ (pos 0) q.shares && not (contains owner registered))
            AlertCode.wallet_registration (replayed_owner_scope id owner)
          ++ raise s (differs_lp_position q (lookup owner rest)) AlertCode.position_accounting
              (owner_scope id owner)
          ++ next.0,
      next.1,
    )

unfoldable pub check_observed_owners :
    Site → ℤ → List Address → List ObservedLpPosition → List CriticalAlert
check_observed_owners s id registered [] = []
check_observed_owners s id registered (q ∷ qs) =
    raise s (ltb_ℤ (pos 0) q.shares && not (includes q.owner registered))
      AlertCode.wallet_registration (observed_owner_scope id q.owner)
    ++ check_observed_owners s id registered qs

unfoldable pub check_lp_rest : Site → ℤ → Dict Address ObservedLpPosition → List CriticalAlert
check_lp_rest s id [] = []
check_lp_rest s id ((owner, _) ∷ d) =
    view_alert s AlertCode.position_accounting (owner_scope id owner) ∷ check_lp_rest s id d

abbrev pub differs_epoch : IndexedLpEpoch → ObservedLpEpoch → Bool
differs_epoch e o =
    not (o.status == e.status)
    || not (o.index == e.index)
    || not (o.index_remainder == e.index_remainder)
    || not (o.total_shares == e.total_shares)
    || not (o.aggregate_correction == e.aggregate_correction)
    || not (o.unallocated_rewards == e.unallocated_rewards)
    || not (o.rounding_reserve == e.rounding_reserve)
    || not (o.terminal_rounding_base_units == get_or e.terminal_rounding_base_units (pos 0))
    || not (o.retired_residue_magnified == e.retired_residue_magnified)
    || not (o.lifetime_received == e.lifetime_received)
    || not (o.lifetime_claimed == e.lifetime_claimed)
    || not (o.quarantined == e.quarantined)

-- The alerts of an epoch's own fields, given its liability, its balance and the observed buckets.
abbrev pub check_epoch_fields :
    Site → IndexedLpEpoch → ObservedLpEpoch → ℤ → ℤ → ℤ → List CriticalAlert
check_epoch_fields s e o liability balance buckets =
    let scope = epoch_scope o.epoch in
    raise s (not (o.reward_vault == e.reward_vault)) AlertCode.vault_binding scope
    ++ raise s (not (o.state_id == e.state_id)) AlertCode.identifier_reuse scope
    ++ raise s (not (o.reward_vault_balance == balance)) AlertCode.lp_vault_backing scope
    ++ raise s (not (o.indexed_liability == liability)) AlertCode.lp_accounting scope
    ++ raise s (not (o.reward_vault_balance == buckets)) AlertCode.lp_vault_backing scope
    ++ raise s (differs_epoch e o) AlertCode.lp_accounting scope

unfoldable pub check_epoch_positions :
    Site
    → Dict Address Address
    → List Address
    → IndexedLpEpoch
    → ObservedLpEpoch
    → List CriticalAlert
unfolding compare_lp_positions check_observed_owners check_lp_rest
check_epoch_positions s replayed observed e o =
    let compared =
      compare_lp_positions s o.epoch replayed e.positions
        (map_from (λ q. q.owner) [] o.positions) in
    compared.0
    ++ check_observed_owners s o.epoch observed o.positions
    ++ check_lp_rest s o.epoch compared.1

-- A known epoch: alerts, and what the report says of it.
unfoldable pub compare_known_epoch :
    Site
    → Dict Address Address
    → List Address
    → IndexedLpEpoch
    → ObservedLpEpoch
    → Option (List CriticalAlert × LpReconciliationResult)
unfolding check_epoch_positions
compare_known_epoch s replayed observed e o = do
  liability ← lp_indexed_liability e
  balance ← expected_lp_vault_balance e
  owed ← checked_add o.indexed_liability o.unallocated_rewards
  buckets ← checked_add owed o.rounding_reserve
  some (
    check_epoch_fields s e o liability balance buckets
        ++ check_epoch_positions s replayed observed e o,
    record {
      epoch = o.epoch;
      expected_vault_balance = balance;
      calculated_liability = liability;
      backing_surplus = o.reward_vault_balance -ℤ liability;
    },
  )

-- `compareLpEpoch` and the collection of its results: an unknown epoch has an alert and no result.
unfoldable pub compare_epochs :
    Site
    → ProtocolProjection
    → List Address
    → List ObservedLpEpoch
    → Option (List CriticalAlert × List LpReconciliationResult)
unfolding compare_known_epoch
compare_epochs s p observed [] = some ([], [])
compare_epochs s p observed (o ∷ os) = elim (lookup o.epoch p.lp_epochs) [
  | none ↦ compare_epochs s p observed os >>= λ rest.
      some (view_alert s AlertCode.lp_accounting (epoch_scope o.epoch) ∷ rest.0, rest.1)
  | some e ↦ compare_known_epoch s p.registered_wallets observed e o >>= λ here.
      compare_epochs s p observed os >>= λ rest. some (here.0 ++ rest.0, here.1 ∷ rest.1)
]
