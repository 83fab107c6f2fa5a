-- ===== src/Reconciler/Reconcile.antt =====
-- `reconcile` of packages/indexer/src/reconciler.ts. `none` is a throw of the checked arithmetic.
use cedra_reflect.Base.{
  Bool, List, Option, [], bool_eq, false, if◌then◌else◌, includes, is_empty, map, none, not,
  option_eq, some, string_eq, true, ◌++◌, ◌==◌, ◌>>=◌, ◌||◌, ◌∷◌,
}
use cedra_reflect.Int.{ℤ, ℤ_eq, ◌+ℤ◌, ◌-ℤ◌}
use cedra_reflect.Accounting.{
  core_indexed_liability, custody_pending, expected_core_vault_balance, sum_wallet_shares,
}
use cedra_reflect.Dict.{Dict, delete, lookup, map_from}
use cedra_reflect.Domains.Checked.{checked_add}
use cedra_reflect.Reconciler.Core.{
  check_authority, check_core_vault, check_identity, check_index, check_registered_wallets,
}
use cedra_reflect.Reconciler.Epochs.{compare_epochs}
use cedra_reflect.Reconciler.Pool.{
  check_configuration, check_custody_views, check_limits, check_reserves,
}
use cedra_reflect.Reconciler.Site.{Site, raise, view_alert}
use cedra_reflect.Types.Common.{
  Address, AlertCode, CriticalAlert, EventCursor, epoch_scope, global_scope, lifecycle_eq,
  named_scope, status_eq, wallet_scope,
}
use cedra_reflect.Types.Observed.{
  LpReconciliationResult, ObservedAccountingSnapshot, ObservedPosition, ReconciliationReport,
}
use cedra_reflect.Types.State.{IndexedLpEpoch, IndexedPosition, ProtocolProjection}

abbrev pub differs_position : IndexedPosition → Option ObservedPosition → Bool
differs_position q none = true
differs_position q (some o) =
    not (o.raw_trfl == q.raw_trfl)
    || not (o.correction == q.correction)
    || not (o.claimed == q.claimed)

-- The loop over the replayed wallets: its alerts, and the observed wallets that are left.
unfoldable pub compare_positions :
    Site
    → Dict Address IndexedPosition
    → Dict Address ObservedPosition
    → List CriticalAlert × Dict Address ObservedPosition
compare_positions s [] rest = ([], rest)
compare_positions s ((account, q) ∷ d) rest =
    let next = compare_positions s d (delete account rest) in
    (
      raise s (differs_position q (lookup account rest)) AlertCode.position_accounting
            (wallet_scope account)
          ++ next.0,
      next.1,
    )

unfoldable pub check_rest : Site → Dict Address ObservedPosition → List CriticalAlert
check_rest s [] = []
check_rest s ((account, _) ∷ d) =
    view_alert s AlertCode.position_accounting (wallet_scope account) ∷ check_rest s d

unfoldable pub check_wallets :
    Site → ProtocolProjection → ObservedAccountingSnapshot → List CriticalAlert
unfolding compare_positions check_rest
check_wallets s p o =
    let compared = compare_positions s p.positions (map_from (λ q. q.account) [] o.positions) in
    raise s (not (sum_wallet_shares p.positions +ℤ p.custody.shares == p.eligible_supply))
      AlertCode.eligible_supply (named_scope "self")
    ++ compared.0
    ++ check_rest s compared.1

-- Replayed epochs that the chain does not show.
unfoldable pub check_missing_epochs : Site → List ℤ → Dict ℤ IndexedLpEpoch → List CriticalAlert
check_missing_epochs s observed [] = []
check_missing_epochs s observed ((id, _) ∷ d) =
    raise s (not (includes id observed)) AlertCode.lp_accounting (epoch_scope id)
    ++ check_missing_epochs s observed d

unfoldable pub check_epoch_set :
    Site → ProtocolProjection → ObservedAccountingSnapshot → List CriticalAlert
unfolding check_missing_epochs
check_epoch_set s p o =
    raise s (not (o.active_lp_epoch == p.active_lp_epoch)) AlertCode.lp_accounting
      (named_scope "active-epoch")
    ++ check_missing_epochs s (map (λ e. e.epoch) o.lp_epochs) p.lp_epochs

-- What the report repeats of the arithmetic of replay.
pub record Expectation : Type 0 where
  pub balance : ℤ
  pub liability : ℤ
  pub pending : ℤ

unfoldable pub expectation : ProtocolProjection → Option Expectation
expectation p = do
  balance ← expected_core_vault_balance p
  liability ← core_indexed_liability p
  pending ← custody_pending p
  some (record { balance = balance; liability = liability; pending = pending })

abbrev pub is_at : Option EventCursor → ObservedAccountingSnapshot → Bool
is_at none o = false
is_at (some c) o = o.ledger_version == c.ledger_version

abbrev pub report_of :
    ObservedAccountingSnapshot
    → Expectation
    → List LpReconciliationResult
    → List CriticalAlert
    → ReconciliationReport
report_of o e epochs alerts = record {
  ledger_version = o.ledger_version;
  expected_reward_vault_balance = e.balance;
  calculated_reflection_liability = e.liability;
  backing_surplus = o.reward_vault_balance -ℤ e.liability;
  lp_epochs = epochs;
  alerts = alerts;
  reconciled = is_empty alerts;
}

-- All checks at the right ledger version, in the order of the source.
unfoldable pub compare_views :
    Site
    → ProtocolProjection
    → ObservedAccountingSnapshot
    → Expectation
    → Option ReconciliationReport
unfolding check_epoch_set check_wallets
compare_views s p o e = do
  owed ← checked_add o.reflection_liability o.unallocated_fees
  buckets ← checked_add owed o.rounding_reserve
  compared ← compare_epochs s p o.registered_wallet_accounts o.lp_epochs
  some (
      report_of o e compared.1 (
        check_identity s p o
        ++ check_registered_wallets s p o
        ++ check_authority s p o
        ++ check_core_vault s p o e.balance e.liability buckets
        ++ check_index s p o
        ++ check_custody_views s p o e.pending
        ++ check_reserves s p o
        ++ check_limits s p o
        ++ check_wallets s p o
        ++ check_epoch_set s p o
        ++ compared.0
        ++ check_configuration s p o))

unfoldable pub reconcile :
    ℤ
    → ProtocolProjection
    → ObservedAccountingSnapshot
    → Option EventCursor
    → Option ReconciliationReport
unfolding compare_views expectation
reconcile now p o cursor = expectation p >>= λ e.
    let s : Site = record { now = now; cursor = cursor } in
    if is_at cursor o
    then compare_views s p o e
    else some (report_of o e [] (view_alert s AlertCode.ledger_version global_scope ∷ []))
