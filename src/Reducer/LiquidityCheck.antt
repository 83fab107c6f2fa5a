-- ===== src/Reducer/LiquidityCheck.antt =====
-- The arithmetic of a liquidity receipt in packages/indexer/src/reducer.ts, checked before the
-- replay. `none` is a throw, which nothing catches there.
use cedra_reflect.Base.{
  Bool, List, Option, [], any, false, if◌then◌else◌, is_empty, is_none, is_value, keep, none, not,
  some, string_eq, ◌&&◌, ◌++◌, ◌==◌, ◌>>=◌, ◌||◌, ◌∷◌,
}
use cedra_reflect.Int.{div, leb_ℤ, ltb_ℤ, pos, ℤ, ℤ_eq, ◌*ℤ◌}
use cedra_reflect.Dict.{contains, lookup}
use cedra_reflect.Domains.Checked.{checked_multiply}
use cedra_reflect.Reducer.Arith.{ceil_div, integer_sqrt}
use cedra_reflect.Reducer.Core.{bps_denominator}
use cedra_reflect.Reducer.Group.{Group, Receipt, as_opening, as_share_change, is_claim_only, select}
use cedra_reflect.Reducer.Monad.{problem}
use cedra_reflect.Reducer.Pool.{is_final, is_seeded}
use cedra_reflect.Reducer.Screen.{flag}
use cedra_reflect.Types.Common.{AlertCode, CriticalAlert}
use cedra_reflect.Types.Lp.{
  LiquidityEvent, LiquidityKind, LpEpochStatusChangedEvent, LpEpochTerminalDustClassifiedEvent,
  LpSharesChangedEvent,
}
use cedra_reflect.Types.State.{IndexedLpEpoch}

unfoldable pub is_fresh_reseed : Group → Receipt LiquidityEvent → Bool
is_fresh_reseed g r =
    is_seeded r.body.kind
    && not (contains r.body.epoch g.prior.lp_epochs)
    && is_none g.prior.active_lp_epoch
    && any (λ o. o.body.epoch == r.body.epoch) (select as_opening g.events)

abbrev pub total_or_zero : Option IndexedLpEpoch → ℤ
total_or_zero none = pos 0
total_or_zero (some epoch) = epoch.total_shares

unfoldable pub check_seed : Group → Receipt LiquidityEvent → Option (List CriticalAlert)
check_seed g r = integer_sqrt (r.body.trfl_amount *ℤ r.body.tusd_amount) >>= λ expected. some (
    flag
      (not (g.prior.pool.trfl_reserve == pos 0)
        || not (g.prior.pool.tusd_reserve == pos 0)
        || not (total_or_zero (lookup r.body.epoch g.prior.lp_epochs) == pos 0)
        || not (r.body.lp_shares == expected))
      r.base AlertCode.lp_accounting)

-- Shares cost their part of a reserve, rounded up.
unfoldable pub mint_cost : ℤ → ℤ → ℤ → Option ℤ
unfolding ceil_div
mint_cost shares reserve total = checked_multiply shares reserve >>= λ n. ceil_div n total

unfoldable pub check_addition :
    Group → Receipt LiquidityEvent → IndexedLpEpoch → Option (List CriticalAlert)
unfolding mint_cost
check_addition g r epoch =
    let pool = g.prior.pool in
    if leb_ℤ epoch.total_shares (pos 0)
      || leb_ℤ pool.trfl_reserve (pos 0)
      || leb_ℤ pool.tusd_reserve (pos 0)
    then some (problem r.base AlertCode.lp_accounting ∷ [])
    else (mint_cost r.body.lp_shares pool.trfl_reserve epoch.total_shares >>= λ rfl.
        mint_cost r.body.lp_shares pool.tusd_reserve epoch.total_shares >>= λ usd. some (
          flag (not (r.body.trfl_amount == rfl) || not (r.body.tusd_amount == usd)) r.base
            AlertCode.lp_accounting))

-- Shares redeem their part of a reserve, rounded down; all shares redeem all of it.
unfoldable pub withdrawal : ℤ → ℤ → ℤ → Option ℤ
withdrawal shares reserve total =
    if shares == total then some reserve else (checked_multiply shares reserve >>= λ n. div n total)

abbrev pub exceeds_limit : Group → Receipt LiquidityEvent → IndexedLpEpoch → Option Bool
exceeds_limit g r epoch =
    if r.body.lp_shares == epoch.total_shares || g.prior.pool.shutdown_mode
    then some false
    else (checked_multiply r.body.lp_shares bps_denominator >>= λ request.
        checked_multiply epoch.total_shares g.prior.pool.maximum_non_final_withdrawal_share_bps
        >>= λ allowance. some (ltb_ℤ allowance request))

-- The share exit, the transition, the classification and the receipt, in this order.
abbrev pub are_ordered :
    Receipt LiquidityEvent
    → List (Receipt LpSharesChangedEvent)
    → List (Receipt LpEpochStatusChangedEvent)
    → List (Receipt LpEpochTerminalDustClassifiedEvent)
    → Bool
are_ordered r (x ∷ []) (t ∷ []) (c ∷ []) =
    not (is_claim_only t.body.old_status)
    && ltb_ℤ x.event_index t.event_index
    && ltb_ℤ t.event_index c.event_index
    && ltb_ℤ c.event_index r.event_index
are_ordered r _ _ _ = false

abbrev pub share_exits : Group → Receipt LiquidityEvent → List (Receipt LpSharesChangedEvent)
share_exits g r =
    keep
      (λ x.
        not x.body.added
        && x.body.epoch == r.body.epoch
        && x.body.owner == r.body.provider
        && x.body.amount == r.body.lp_shares
        && x.body.owner_shares == pos 0
        && x.body.total_shares == pos 0
        && ltb_ℤ x.event_index r.event_index)
      (select as_share_change g.events)

unfoldable pub check_termination :
    Group → Receipt LiquidityEvent → IndexedLpEpoch → List CriticalAlert
check_termination g r epoch =
    let transitions = keep (λ t. t.body.epoch == r.body.epoch) g.terminals in
    let classifications = keep (λ c. c.body.epoch == r.body.epoch) g.classifications in
    if r.body.lp_shares == epoch.total_shares
    then flag
        (not g.prior.pool.shutdown_mode
          || not (is_final r.body.kind)
          || not (are_ordered r (share_exits g r) transitions classifications))
        r.base AlertCode.lp_accounting
    else flag (not (is_empty transitions) || not (is_empty classifications)) r.base
        AlertCode.lp_accounting

abbrev pub same_flag : Bool → Bool → Bool
same_flag a b = if a then b else not b

unfoldable pub check_removal :
    Group → Receipt LiquidityEvent → IndexedLpEpoch → Option (List CriticalAlert)
unfolding withdrawal check_termination
check_removal g r epoch =
    if leb_ℤ epoch.total_shares (pos 0) || ltb_ℤ epoch.total_shares r.body.lp_shares
    then some (problem r.base AlertCode.lp_accounting ∷ [])
    else (withdrawal r.body.lp_shares g.prior.pool.trfl_reserve epoch.total_shares >>= λ rfl.
        withdrawal r.body.lp_shares g.prior.pool.tusd_reserve epoch.total_shares >>= λ usd.
        exceeds_limit g r epoch >>= λ exceeds. some (
          flag
            (not (r.body.trfl_amount == rfl)
              || not (r.body.tusd_amount == usd)
              || not (same_flag (is_final r.body.kind) (r.body.lp_shares == epoch.total_shares)))
            r.base AlertCode.lp_accounting
          ++ flag exceeds r.base AlertCode.pool_limits
          ++ check_termination g r epoch))

abbrev pub check_known :
    Group → Receipt LiquidityEvent → IndexedLpEpoch → LiquidityKind → Option (List CriticalAlert)
check_known g r epoch LiquidityKind.seeded = check_seed g r
check_known g r epoch LiquidityKind.added = check_addition g r epoch
check_known g r epoch (LiquidityKind.removed _) = check_removal g r epoch

-- A receipt that is no fresh seed must target the active epoch.
abbrev pub check_active :
    Group → Receipt LiquidityEvent → Option IndexedLpEpoch → Option (List CriticalAlert)
check_active g r none = some (problem r.base AlertCode.lp_accounting ∷ [])
check_active g r (some epoch) =
    if is_value g.prior.active_lp_epoch r.body.epoch
    then check_known g r epoch r.body.kind
    else some (problem r.base AlertCode.lp_accounting ∷ [])

unfoldable pub check_receipt : Group → Receipt LiquidityEvent → Option (List CriticalAlert)
unfolding is_fresh_reseed check_seed check_addition check_removal
check_receipt g r =
    if is_fresh_reseed g r
    then check_seed g r
    else check_active g r (lookup r.body.epoch g.prior.lp_epochs)

abbrev pub check_only : Group → List (Receipt LiquidityEvent) → Option (List CriticalAlert)
check_only g (r ∷ []) = check_receipt g r
check_only g _ = some []

unfoldable pub check_liquidity : Group → Option (List CriticalAlert)
unfolding check_receipt
check_liquidity g = check_only g g.liquidity_receipts
