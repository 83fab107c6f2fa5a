-- ===== src/Totality/Receipts.antt =====
-- On the arithmetic of a liquidity receipt in packages/indexer/src/reducer.ts, where the receipt,
-- the pool and the epoch have their widths.
use cedra_reflect.Base.{
  All, Bool-cases, List, Option, [], arith, false, inl, inr, is_value, none, or_false, refl, same,
  some, string_eq, suc, true, zero, ℕ, ◌*◌, ◌/◌, ◌==◌, ◌||◌, ◌∷◌, ◌≡◌,
}
use cedra_reflect.Int.{leb_ℤ, ltb_ℤ, negsuc, pos, ℤ, ℤ_eq, ◌*ℤ◌}
use cedra_reflect.Arithmetic.Root.{integer_sqrt-root}
use cedra_reflect.Arithmetic.Rounding.{ceil_div-least}
use cedra_reflect.Conservation.Balance.{total}
use cedra_reflect.Dict.{Values, Values-lookup, lookup}
use cedra_reflect.Domains.Checked.{fits}
use cedra_reflect.Reducer.Arith.{integer_sqrt}
use cedra_reflect.Reducer.Core.{bps_denominator}
use cedra_reflect.Reducer.Group.{Group, Receipt}
use cedra_reflect.Reducer.LiquidityCheck.{
  check_active, check_addition, check_known, check_liquidity, check_only, check_receipt,
  check_removal, check_seed, exceeds_limit, is_fresh_reseed, mint_cost, withdrawal,
}
use cedra_reflect.Rewards.Index.{div_pos}
use cedra_reflect.Totality.Products.{
  Returns, Returns-bind, checked_multiply-Returns, fits-pos, fits_64-128, product_pos,
}
use cedra_reflect.Types.Lp.{LiquidityEvent, LiquidityKind}
use cedra_reflect.Types.State.{IndexedLpEpoch, IndexedPool}

-- A receipt whose amounts have their widths.
abbrev pub HasWidths : LiquidityEvent → Type 0
HasWidths e =
    (fits 64 e.trfl_amount ≡ true) × (fits 64 e.tusd_amount ≡ true) × (fits 128 e.lp_shares ≡ true)

check_seed-Returns :
    (g : Group) (r : Receipt LiquidityEvent) → HasWidths r.body → Returns (check_seed g r)
unfolding check_seed
check_seed-Returns g r (h, k, _) =
    let (m, e, _) = fits-pos 64 r.body.trfl_amount h in
    let (n, f, _) = fits-pos 64 r.body.tusd_amount k in
    let (root, found, _, _) = integer_sqrt-root (m * n) in
    Returns-bind (integer_sqrt (r.body.trfl_amount *ℤ r.body.tusd_amount)) _
      (pos root, rw (e, f, product_pos m n) found) (λ a. (_, refl))

positive : (total : ℤ) → leb_ℤ total (pos 0) ≡ false → (n : ℕ) × (total ≡ pos (suc n))
positive (negsuc n) h = (0, ground arith)
positive (pos zero) h = (0, ground arith)
positive (pos (suc n)) h = (n, refl)

mint_cost-Returns :
    (shares reserve total : ℤ)
    → fits 128 shares ≡ true
    → fits 64 reserve ≡ true
    → leb_ℤ total (pos 0) ≡ false
    → Returns (mint_cost shares reserve total)
unfolding mint_cost
mint_cost-Returns shares reserve total h k l =
    let (n, same) = positive total l in
    let (product, e) = checked_multiply-Returns shares reserve h (fits_64-128 reserve k) in
    let (q, f, _, _) = ceil_div-least product n in (pos q, rw (same, e) f)

withdrawal-Returns :
    (shares reserve total : ℤ)
    → fits 128 shares ≡ true
    → fits 64 reserve ≡ true
    → leb_ℤ total (pos 0) ≡ false
    → Returns (withdrawal shares reserve total)
unfolding withdrawal
withdrawal-Returns shares reserve total h k l =
    let (n, same) = positive total l in
    let (product, e) = checked_multiply-Returns shares reserve h (fits_64-128 reserve k) in
    elim (Bool-cases (shares == total)) [
      | inl all ↦ (reserve, rw all refl)
      | inr part ↦ (pos (product / suc n), rw part (rw (e, same) (div_pos product n)))
    ]

fits_bps : fits 128 bps_denominator ≡ true
unfolding fits
fits_bps = refl

exceeds_limit-Returns :
    (g : Group) (r : Receipt LiquidityEvent) (epoch : IndexedLpEpoch)
    → fits 128 r.body.lp_shares ≡ true
    → fits 128 epoch.total_shares ≡ true
    → fits 64 g.prior.pool.maximum_non_final_withdrawal_share_bps ≡ true
    → Returns (exceeds_limit g r epoch)
exceeds_limit-Returns g r epoch h k l =
    let bps = g.prior.pool.maximum_non_final_withdrawal_share_bps in
    let (request, e) = checked_multiply-Returns r.body.lp_shares bps_denominator h fits_bps in
    let (allowance, f) = checked_multiply-Returns epoch.total_shares bps k (fits_64-128 bps l) in
    elim (Bool-cases (r.body.lp_shares == epoch.total_shares || g.prior.pool.shutdown_mode)) [
      | inl free ↦ (false, rw free refl)
      | inr bound ↦ (ltb_ℤ (pos allowance) (pos request), rw bound (rw e (rw f refl)))
    ]

-- The widths of what the checks read of the projection before the transaction.
abbrev pub PoolFits : IndexedPool → Type 0
PoolFits pool =
    (fits 64 pool.trfl_reserve ≡ true)
    × (fits 64 pool.tusd_reserve ≡ true)
    × (fits 64 pool.maximum_non_final_withdrawal_share_bps ≡ true)

check_addition-Returns :
    (g : Group) (r : Receipt LiquidityEvent) (epoch : IndexedLpEpoch)
    → HasWidths r.body
    → PoolFits g.prior.pool
    → Returns (check_addition g r epoch)
unfolding check_addition
check_addition-Returns g r epoch (_, _, h) (k, l, _) =
    let pool = g.prior.pool in
    let total = epoch.total_shares in
    elim (Bool-cases
      (leb_ℤ total (pos 0) || leb_ℤ pool.trfl_reserve (pos 0) || leb_ℤ pool.tusd_reserve (pos 0))) [
        | inl bad ↦ rw bad (_, refl)
        | inr good ↦
            let empty_rfl = leb_ℤ pool.trfl_reserve (pos 0) in
            let first =
              (or_false (leb_ℤ total (pos 0) || empty_rfl) (leb_ℤ pool.tusd_reserve (pos 0))
                good).0 in
            let some_shares = (or_false (leb_ℤ total (pos 0)) empty_rfl first).0 in
            rw good (
              Returns-bind (mint_cost r.body.lp_shares pool.trfl_reserve total) _
                (mint_cost-Returns r.body.lp_shares pool.trfl_reserve total h k some_shares)
                (λ rfl.
                  Returns-bind (mint_cost r.body.lp_shares pool.tusd_reserve total) _
                    (mint_cost-Returns r.body.lp_shares pool.tusd_reserve total h l some_shares)
                    (λ usd. (_, refl))))
      ]

check_removal-Returns :
    (g : Group) (r : Receipt LiquidityEvent) (epoch : IndexedLpEpoch)
    → HasWidths r.body
    → PoolFits g.prior.pool
    → fits 128 epoch.total_shares ≡ true
    → Returns (check_removal g r epoch)
unfolding check_removal
check_removal-Returns g r epoch (_, _, h) (k, l, m) n =
    let pool = g.prior.pool in
    let total = epoch.total_shares in
    elim (Bool-cases (leb_ℤ total (pos 0) || ltb_ℤ total r.body.lp_shares)) [
      | inl bad ↦ rw bad (_, refl)
      | inr good ↦
          let some_shares =
            (or_false (leb_ℤ total (pos 0)) (ltb_ℤ total r.body.lp_shares) good).0 in
          rw good (
            Returns-bind (withdrawal r.body.lp_shares pool.trfl_reserve total) _
              (withdrawal-Returns r.body.lp_shares pool.trfl_reserve total h k some_shares)
              (λ rfl.
                Returns-bind (withdrawal r.body.lp_shares pool.tusd_reserve total) _
                  (withdrawal-Returns r.body.lp_shares pool.tusd_reserve total h l some_shares)
                  (λ usd.
                    Returns-bind (exceeds_limit g r epoch) _ (exceeds_limit-Returns g r epoch h n m)
                      (λ x. (_, refl)))))
    ]

-- Every known epoch has its width.
abbrev pub EpochFits : IndexedLpEpoch → Type 0
EpochFits epoch = fits 128 epoch.total_shares ≡ true

check_known-Returns :
    (g : Group) (r : Receipt LiquidityEvent) (epoch : IndexedLpEpoch) (kind : LiquidityKind)
    → HasWidths r.body
    → PoolFits g.prior.pool
    → EpochFits epoch
    → Returns (check_known g r epoch kind)
check_known-Returns g r epoch LiquidityKind.seeded h k l = check_seed-Returns g r h
check_known-Returns g r epoch LiquidityKind.added h k l = check_addition-Returns g r epoch h k
check_known-Returns g r epoch (LiquidityKind.removed _) h k l =
    check_removal-Returns g r epoch h k l

check_active-Returns :
    (g : Group) (r : Receipt LiquidityEvent) (o : Option IndexedLpEpoch)
    → HasWidths r.body
    → PoolFits g.prior.pool
    → ((epoch : IndexedLpEpoch) → o ≡ some epoch → EpochFits epoch)
    → Returns (check_active g r o)
check_active-Returns g r none h k l = (_, refl)
check_active-Returns g r (some epoch) h k l =
    elim (Bool-cases (is_value g.prior.active_lp_epoch r.body.epoch)) [
      | inl current ↦ rw current (check_known-Returns g r epoch r.body.kind h k (l epoch refl))
      | inr idle ↦ rw idle (_, refl)
    ]

pub check_liquidity-Returns :
    (g : Group)
    → All (λ r. HasWidths r.body) g.liquidity_receipts
    → PoolFits g.prior.pool
    → Values EpochFits g.prior.lp_epochs
    → Returns (check_liquidity g)
unfolding check_liquidity check_receipt
check_liquidity-Returns g h k l = check_only-Returns g.liquidity_receipts h
  where
    check_receipt-Returns :
        (r : Receipt LiquidityEvent) → HasWidths r.body → Returns (check_receipt g r)
    check_receipt-Returns r w = elim (Bool-cases (is_fresh_reseed g r)) [
      | inl fresh ↦ rw fresh (check_seed-Returns g r w)
      | inr other ↦ rw other (
          check_active-Returns g r (lookup r.body.epoch g.prior.lp_epochs) w k
            (λ epoch e. Values-lookup EpochFits r.body.epoch epoch g.prior.lp_epochs l e))
    ]

    check_only-Returns :
        (rs : List (Receipt LiquidityEvent))
        → All (λ r. HasWidths r.body) rs
        → Returns (check_only g rs)
    check_only-Returns [] h = (_, refl)
    check_only-Returns (r ∷ []) h = check_receipt-Returns r h.0
    check_only-Returns (r ∷ s ∷ rs) h = (_, refl)
