-- ===== src/Conservation/Epochs.antt =====
-- On the writes of LP epochs and positions (packages/indexer/src/reducer.ts).
-- A position of one owner is rewritten: how the three sums of an epoch move.
use cedra_reflect.Base.{
  >>=-eq-some, ap, eq_of_some, false, get_or, refl, some, string_eq, subst, ◌==◌, ◌∙◌, ◌≡◌,
}
use cedra_reflect.Int.{int_laws, parts_of_eq, ℤ, ℤ_eq, ◌+ℤ◌, ◌-ℤ◌}
use cedra_reflect.Conservation.Balance.{
  IsBalanced, lp_claims_of, lp_corrections_of, lp_shares_of, total-insert,
}
use cedra_reflect.Conservation.Wallets.{shift_correction_parallel}
use cedra_reflect.Dict.{Dict, insert, lookup, lookup-insert}
use cedra_reflect.Domains.Checked.{
  checked_add, checked_multiply, signed_add_unsigned, signed_subtract_unsigned,
}
use cedra_reflect.Domains.Laws.{
  checked_add-eq-some, signed_add_unsigned-eq-some, signed_subtract_unsigned-eq-some,
}
use cedra_reflect.Reducer.Lp.{
  claim_lp_rewards, empty_lp_position, lp_position_or_empty, move_lp_shares, signed_amount,
  transfer_lp_shares,
}
use cedra_reflect.Reducer.LpRewards.{advance_epoch, quarantine, retire}
use cedra_reflect.Reducer.Wallet.{shift_correction}
use cedra_reflect.Types.Common.{Address}
use cedra_reflect.Types.Lp.{
  LpRewardIndexAdvancedEvent, LpRewardQuarantinedEvent, LpRewardsClaimedEvent, LpSharesChangedEvent,
  LpSharesTransferredEvent,
}
use cedra_reflect.Types.State.{IndexedLpEpoch, IndexedLpPosition}

module _ (owner : Address) (next : IndexedLpPosition) (d : Dict Address IndexedLpPosition) where
  current : IndexedLpPosition
  current = lp_position_or_empty owner d

  insert_shares :
      lp_shares_of (insert owner next d) +ℤ current.shares ≡ lp_shares_of d +ℤ next.shares
  unfolding current
  insert_shares = total-insert (λ q. q.shares) owner next (empty_lp_position owner) d refl

  insert_corrections :
      lp_corrections_of (insert owner next d) +ℤ current.correction
      ≡ lp_corrections_of d +ℤ next.correction
  unfolding current
  insert_corrections = total-insert (λ q. q.correction) owner next (empty_lp_position owner) d refl

  insert_claims :
      lp_claims_of (insert owner next d) +ℤ current.claimed ≡ lp_claims_of d +ℤ next.claimed
  unfolding current
  insert_claims = total-insert (λ q. q.claimed) owner next (empty_lp_position owner) d refl

pub move_lp_shares-IsBalanced :
    (e : LpSharesChangedEvent) (epoch : IndexedLpEpoch) {epoch' : IndexedLpEpoch}
    → move_lp_shares e epoch ≡ some epoch'
    → IsBalanced epoch
    → IsBalanced epoch'
unfolding move_lp_shares current
move_lp_shares-IsBalanced e epoch h k =
    let q = lp_position_or_empty e.owner epoch.positions in
    let (change, _, h1) = >>=-eq-some (checked_multiply e.amount epoch.index) _ h in
    let (correction, f, h2) = >>=-eq-some (shift_correction e.added change q.correction) _ h1 in
    let (aggregate, g, h3) =
      >>=-eq-some (shift_correction e.added change epoch.aggregate_correction) _ h2 in
    let next : IndexedLpPosition = record q {
      shares = q.shares +ℤ signed_amount e;
      correction = correction;
    } in
    let parallel = shift_correction_parallel e.added change _ _ f g in
    subst IsBalanced (eq_of_some h3) (
      omega (int_laws, parts_of_eq (insert_shares e.owner next epoch.positions), parts_of_eq k.0),
      omega (
        int_laws,
        parts_of_eq (insert_corrections e.owner next epoch.positions),
        parts_of_eq parallel,
        parts_of_eq k.1,
      ),
      omega (int_laws, parts_of_eq (insert_claims e.owner next epoch.positions), parts_of_eq k.2),
    )

pub claim_lp_rewards-IsBalanced :
    (e : LpRewardsClaimedEvent) (epoch : IndexedLpEpoch) {epoch' : IndexedLpEpoch}
    → claim_lp_rewards e epoch ≡ some epoch'
    → IsBalanced epoch
    → IsBalanced epoch'
unfolding claim_lp_rewards current
claim_lp_rewards-IsBalanced e epoch h k =
    let q = lp_position_or_empty e.owner epoch.positions in
    let (claimed, f, h1) = >>=-eq-some (checked_add q.claimed e.amount) _ h in
    let (lifetime, g, h2) = >>=-eq-some (checked_add epoch.lifetime_claimed e.amount) _ h1 in
    let next : IndexedLpPosition = record q { claimed = claimed } in
    subst IsBalanced (eq_of_some h2) (
      omega (int_laws, parts_of_eq (insert_shares e.owner next epoch.positions), parts_of_eq k.0),
      omega (
        int_laws,
        parts_of_eq (insert_corrections e.owner next epoch.positions),
        parts_of_eq k.1,
      ),
      omega (
        int_laws,
        parts_of_eq (insert_claims e.owner next epoch.positions),
        parts_of_eq (checked_add-eq-some q.claimed e.amount f),
        parts_of_eq (checked_add-eq-some epoch.lifetime_claimed e.amount g),
        parts_of_eq k.2,
      ),
    )

pub retire-IsBalanced :
    (owner : Address) (epoch : IndexedLpEpoch) (q : IndexedLpPosition) (residue cumulative : ℤ)
    {epoch' : IndexedLpEpoch}
    → lookup owner epoch.positions ≡ some q
    → retire owner q residue cumulative epoch ≡ some epoch'
    → IsBalanced epoch
    → IsBalanced epoch'
unfolding retire current
retire-IsBalanced owner epoch q residue cumulative found h k =
    let (correction, f, h1) = >>=-eq-some (signed_subtract_unsigned q.correction residue) _ h in
    let (aggregate, g, h2) =
      >>=-eq-some (signed_subtract_unsigned epoch.aggregate_correction residue) _ h1 in
    let next : IndexedLpPosition = record q { correction = correction } in
    let here = ap (λ o. get_or o (empty_lp_position owner)) found in
    subst IsBalanced (eq_of_some h2) (
      omega (
        int_laws,
        parts_of_eq (insert_shares owner next epoch.positions),
        parts_of_eq (ap (λ (x : IndexedLpPosition). x.shares) here),
        parts_of_eq k.0,
      ),
      omega (
        int_laws,
        parts_of_eq (insert_corrections owner next epoch.positions),
        parts_of_eq (ap (λ (x : IndexedLpPosition). x.correction) here),
        parts_of_eq (signed_subtract_unsigned-eq-some q.correction residue f),
        parts_of_eq (signed_subtract_unsigned-eq-some epoch.aggregate_correction residue g),
        parts_of_eq k.1,
      ),
      omega (
        int_laws,
        parts_of_eq (insert_claims owner next epoch.positions),
        parts_of_eq (ap (λ (x : IndexedLpPosition). x.claimed) here),
        parts_of_eq k.2,
      ),
    )

-- The sender and the recipient differ, so the second write does not see the first.
pub transfer_lp_shares-IsBalanced :
    (e : LpSharesTransferredEvent) (epoch : IndexedLpEpoch) {epoch' : IndexedLpEpoch}
    → (e.sender == e.recipient) ≡ false
    → transfer_lp_shares e epoch ≡ some epoch'
    → IsBalanced epoch
    → IsBalanced epoch'
unfolding transfer_lp_shares current
transfer_lp_shares-IsBalanced e epoch apart h k =
    let s = lp_position_or_empty e.sender epoch.positions in
    let r = lp_position_or_empty e.recipient epoch.positions in
    let (delta, _, h1) = >>=-eq-some (checked_multiply e.amount epoch.index) _ h in
    let (sent, f, h2) = >>=-eq-some (signed_add_unsigned s.correction delta) _ h1 in
    let (credited, g, h3) = >>=-eq-some (signed_subtract_unsigned r.correction delta) _ h2 in
    let s' : IndexedLpPosition = record s { shares = s.shares -ℤ e.amount; correction = sent } in
    let r' : IndexedLpPosition = record r {
      shares = r.shares +ℤ e.amount;
      correction = credited;
    } in
    let middle = insert e.sender s' epoch.positions in
    let unseen : lookup e.recipient middle ≡ lookup e.recipient epoch.positions =
      lookup-insert e.sender e.recipient s' epoch.positions ∙ rw apart refl in
    let here = ap (λ o. get_or o (empty_lp_position e.recipient)) unseen in
    subst IsBalanced (eq_of_some h3) (
      omega (
        int_laws,
        parts_of_eq (insert_shares e.sender s' epoch.positions),
        parts_of_eq (insert_shares e.recipient r' middle),
        parts_of_eq (ap (λ (x : IndexedLpPosition). x.shares) here),
        parts_of_eq k.0,
      ),
      omega (
        int_laws,
        parts_of_eq (insert_corrections e.sender s' epoch.positions),
        parts_of_eq (insert_corrections e.recipient r' middle),
        parts_of_eq (ap (λ (x : IndexedLpPosition). x.correction) here),
        parts_of_eq (signed_add_unsigned-eq-some s.correction delta f),
        parts_of_eq (signed_subtract_unsigned-eq-some r.correction delta g),
        parts_of_eq k.1,
      ),
      omega (
        int_laws,
        parts_of_eq (insert_claims e.sender s' epoch.positions),
        parts_of_eq (insert_claims e.recipient r' middle),
        parts_of_eq (ap (λ (x : IndexedLpPosition). x.claimed) here),
        parts_of_eq k.2,
      ),
    )

-- The index, the quarantine and the rounding are no part of the balance.
pub advance_epoch-IsBalanced :
    (e : LpRewardIndexAdvancedEvent) (epoch : IndexedLpEpoch) {epoch' : IndexedLpEpoch}
    → advance_epoch e epoch ≡ some epoch'
    → IsBalanced epoch
    → IsBalanced epoch'
unfolding advance_epoch
advance_epoch-IsBalanced e epoch h k =
    let (_, _, h1) = >>=-eq-some (checked_add epoch.lifetime_received e.received) _ h in
    subst IsBalanced (eq_of_some h1) k

pub quarantine-IsBalanced :
    (e : LpRewardQuarantinedEvent) (epoch : IndexedLpEpoch) {epoch' : IndexedLpEpoch}
    → quarantine e epoch ≡ some epoch'
    → IsBalanced epoch
    → IsBalanced epoch'
unfolding quarantine
quarantine-IsBalanced e epoch h k =
    let (_, _, h1) = >>=-eq-some (checked_add epoch.lifetime_received e.amount) _ h in
    subst IsBalanced (eq_of_some h1) k
