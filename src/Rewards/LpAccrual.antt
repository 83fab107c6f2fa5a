-- ===== src/Rewards/LpAccrual.antt =====
-- On the corrections that `adjustLpShares` of packages/indexer/src/reducer.ts keeps beside LP shares.
use cedra_reflect.Base.{
  >>=-eq-some, Bool, Bool-cases, eq_of_some, false, if◌then◌else◌, inl, inr, refl, some, string_eq,
  subst, true, ◌==◌, ◌≡◌,
}
use cedra_reflect.Int.{*ℤ-distrib, *ℤ-neg, int_laws, neg, parts_of_eq, ℤ, ℤ_eq, ◌*ℤ◌, ◌+ℤ◌}
use cedra_reflect.Dict.{insert, lookup-insert}
use cedra_reflect.Domains.Checked.{checked_multiply}
use cedra_reflect.Domains.Laws.{
  checked_multiply-eq-some, signed_add_unsigned-eq-some, signed_subtract_unsigned-eq-some,
}
use cedra_reflect.Reducer.Lp.{lp_position_or_empty, move_lp_shares, signed_amount}
use cedra_reflect.Reducer.Wallet.{shift_correction}
use cedra_reflect.Types.Common.{Address}
use cedra_reflect.Types.Lp.{LpSharesChangedEvent}
use cedra_reflect.Types.State.{IndexedLpEpoch, IndexedLpPosition}

-- What an owner has earned in an epoch, magnified.
abbrev pub lp_accrued : IndexedLpEpoch → Address → ℤ
lp_accrued epoch j =
    let q = lp_position_or_empty j epoch.positions in q.shares *ℤ epoch.index +ℤ q.correction

share_correction_keeps :
    (adds : Bool) (amount index shares correction : ℤ) {change correction' : ℤ}
    → checked_multiply amount index ≡ some change
    → shift_correction adds change correction ≡ some correction'
    → (shares +ℤ (if adds then amount else neg amount)) *ℤ index +ℤ correction'
      ≡ shares *ℤ index +ℤ correction
unfolding shift_correction
share_correction_keeps true amount index shares correction {change} {correction'} h k = omega (
  int_laws,
  parts_of_eq (checked_multiply-eq-some amount index {c = change} h).0,
  parts_of_eq (signed_subtract_unsigned-eq-some correction change {c = correction'} k),
  parts_of_eq (*ℤ-distrib shares amount index),
)
share_correction_keeps false amount index shares correction {change} {correction'} h k = omega (
  int_laws,
  parts_of_eq (checked_multiply-eq-some amount index {c = change} h).0,
  parts_of_eq (signed_add_unsigned-eq-some correction change {c = correction'} k),
  parts_of_eq (*ℤ-neg amount index),
  parts_of_eq (*ℤ-distrib shares (neg amount) index),
)

-- A movement of an owner's shares: the index of the epoch stands, the owner's shares and the total
-- change by it, and nobody's accrual does.
abbrev pub MovesShares : LpSharesChangedEvent → IndexedLpEpoch → IndexedLpEpoch → Type 0
MovesShares e epoch epoch' =
    (epoch'.index ≡ epoch.index)
    × (epoch'.total_shares ≡ epoch.total_shares +ℤ signed_amount e)
    × ((lp_position_or_empty e.owner epoch'.positions).shares
        ≡ (lp_position_or_empty e.owner epoch.positions).shares +ℤ signed_amount e)
    × ((j : Address) → lp_accrued epoch' j ≡ lp_accrued epoch j)

insert-lookup_cases :
    (owner j : Address) (next : IndexedLpPosition) (epoch : IndexedLpEpoch)
    → next.shares *ℤ epoch.index +ℤ next.correction ≡ lp_accrued epoch owner
    → let q = lp_position_or_empty j (insert owner next epoch.positions) in
      q.shares *ℤ epoch.index +ℤ q.correction ≡ lp_accrued epoch j
insert-lookup_cases owner j next epoch e = elim (Bool-cases (owner == j)) [
  | inl hit ↦ rw (lookup-insert owner j next epoch.positions) (
      rw hit (
        subst (λ k. next.shares *ℤ epoch.index +ℤ next.correction ≡ lp_accrued epoch k)
          ((string_eq.beq_iff owner j).0 hit) e))
  | inr miss ↦ rw (lookup-insert owner j next epoch.positions) (rw miss refl)
]

-- A change of LP shares that is not refused, an addition or a removal, changes the owner's shares and
-- the epoch's total by its amount, and changes nothing that any owner of the epoch, this one
-- included, has earned so far.
pub move_lp_shares-MovesShares :
    (e : LpSharesChangedEvent) (epoch epoch' : IndexedLpEpoch)
    → move_lp_shares e epoch ≡ some epoch'
    → MovesShares e epoch epoch'
unfolding move_lp_shares
move_lp_shares-MovesShares e epoch epoch' h =
    let current = lp_position_or_empty e.owner epoch.positions in
    let (change, f, h1) = >>=-eq-some (checked_multiply e.amount epoch.index) _ h in
    let (correction, g, h2) =
      >>=-eq-some (shift_correction e.added change current.correction) _ h1 in
    let (aggregate, _, h3) =
      >>=-eq-some (shift_correction e.added change epoch.aggregate_correction) _ h2 in
    let next : IndexedLpPosition = record current {
      shares = current.shares +ℤ signed_amount e;
      correction = correction;
    } in
    let keeps =
      share_correction_keeps e.added e.amount epoch.index current.shares current.correction f g in
    subst (MovesShares e epoch) (eq_of_some h3) (
      refl,
      refl,
      rw (lookup-insert e.owner e.owner next epoch.positions)
          (rw ((string_eq.beq_iff e.owner e.owner).1 refl) refl),
      λ j. insert-lookup_cases e.owner j next epoch keeps,
    )
