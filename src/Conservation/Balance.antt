-- ===== src/Conservation/Balance.antt =====
-- What it means that the totals of a projection are the sums of its positions.
use cedra_reflect.Base.{Bool-cases, Equality, [], get_or, inl, inr, string_eq, ◌==◌, ◌∷◌, ◌≡◌}
use cedra_reflect.Int.{int_laws, parts_of_eq, pos, ℤ, ℤ_eq, ◌+ℤ◌}
use cedra_reflect.Accounting.{sum_from, sum_lp_shares, sum_wallet_shares}
use cedra_reflect.Dict.{Dict, Values, insert, lookup}
use cedra_reflect.Types.Common.{Address}
use cedra_reflect.Types.State.{
  IndexedLpEpoch, IndexedLpPosition, IndexedPosition, ProtocolProjection,
}

module _ {ℓ κ} {K : Type ℓ} {V : Type κ} where
  abbrev pub total : (V → ℤ) → Dict K V → ℤ
  total f [] = pos 0
  total f ((_, v) ∷ d) = f v +ℤ total f d

module _ {ℓ κ} {K : Type ℓ} {V : Type κ} ⦃e : Equality K⦄ where
  -- A written entry replaces the old value's part of the sum, which is zero where there was none.
  pub total-insert :
      (f : V → ℤ) (k : K) (v : V) (empty : V) (d : Dict K V)
      → f empty ≡ pos 0
      → total f (insert k v d) +ℤ f (get_or (lookup k d) empty) ≡ total f d +ℤ f v
  total-insert f k v empty [] z = rw z (omega int_laws)
  total-insert f k v empty ((j, w) ∷ d) z = elim (Bool-cases (j == k)) [
    | inl hit ↦ rw hit (omega int_laws)
    | inr miss ↦ rw miss (omega (int_laws, parts_of_eq (total-insert f k v empty d z)))
  ]

abbrev pub shares_of : Dict Address IndexedPosition → ℤ
shares_of = total (λ q. q.raw_trfl)

abbrev pub corrections_of : Dict Address IndexedPosition → ℤ
corrections_of = total (λ q. q.correction)

abbrev pub lp_shares_of : Dict Address IndexedLpPosition → ℤ
lp_shares_of = total (λ q. q.shares)

abbrev pub lp_corrections_of : Dict Address IndexedLpPosition → ℤ
lp_corrections_of = total (λ q. q.correction)

abbrev pub lp_claims_of : Dict Address IndexedLpPosition → ℤ
lp_claims_of = total (λ q. q.claimed)

-- An LP epoch carries the sums of its owners' shares, corrections and claims.
abbrev pub IsBalanced : IndexedLpEpoch → Type 0
IsBalanced e =
    (lp_shares_of e.positions ≡ e.total_shares)
    × (lp_corrections_of e.positions ≡ e.aggregate_correction)
    × (lp_claims_of e.positions ≡ e.lifetime_claimed)

-- Wallet and custody shares make up the eligible supply, their corrections the aggregate one, and
-- every LP epoch is balanced.
abbrev pub IsConserved : ProtocolProjection → Type 0
IsConserved p =
    (shares_of p.positions +ℤ p.custody.shares ≡ p.eligible_supply)
    × (corrections_of p.positions +ℤ p.custody.correction ≡ p.aggregate_correction)
    × Values IsBalanced p.lp_epochs

sum_from-eq-total {ℓ} :
    {V : Type ℓ} (f : V → ℤ) (acc : ℤ) (d : Dict Address V) → sum_from f acc d ≡ acc +ℤ total f d
sum_from-eq-total f acc [] = omega int_laws
sum_from-eq-total f acc ((_, v) ∷ d) = rw (sum_from-eq-total f (acc +ℤ f v) d) (omega int_laws)

pub sum_wallet_shares-eq-total :
    (d : Dict Address IndexedPosition) → sum_wallet_shares d ≡ shares_of d
unfolding sum_wallet_shares
sum_wallet_shares-eq-total d = rw (sum_from-eq-total (λ q. q.raw_trfl) (pos 0) d) (omega int_laws)

pub sum_lp_shares-eq-total : (d : Dict Address IndexedLpPosition) → sum_lp_shares d ≡ lp_shares_of d
unfolding sum_lp_shares
sum_lp_shares-eq-total d = rw (sum_from-eq-total (λ q. q.shares) (pos 0) d) (omega int_laws)
