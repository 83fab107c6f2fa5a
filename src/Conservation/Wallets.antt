-- ===== src/Conservation/Wallets.antt =====
-- On `adjustWalletAsset` and the wallet events (packages/indexer/src/reducer.ts).
-- Two corrections that are shifted alike move by the same amount.
use cedra_reflect.Base.{
  >>=-eq-some, Bool, Bool-cases, eq_of_some, false, inl, inr, not, refl, require-eq-some, some,
  string_eq, subst, true, ◌≡◌,
}
use cedra_reflect.Int.{int_laws, ltb_ℤ, neg, parts_of_eq, pos, ℤ, ℤ_eq, ◌+ℤ◌}
use cedra_reflect.Conservation.Balance.{IsConserved, total-insert}
use cedra_reflect.Conservation.Rules.{
  Extending, Mild, check-Extending, check_checked-Extending, modify-Extending, throw_if-Extending,
  update-Extending, ▹-Extending,
}
use cedra_reflect.Dict.{insert}
use cedra_reflect.Domains.Checked.{checked_add, checked_multiply}
use cedra_reflect.Domains.Laws.{signed_add_unsigned-eq-some, signed_subtract_unsigned-eq-some}
use cedra_reflect.Reducer.Monad.{update}
use cedra_reflect.Reducer.Wallet.{
  absolute, adjust_trfl, adjust_tusd, adjust_wallet_asset, claim_rewards, empty_position,
  materialize_wallet, move_trfl, on_eligible_balance_credited, on_eligible_balance_debited,
  on_faucet_grant, on_position_created, on_rewards_claimed, position_or_empty, record_materialized,
  shift_correction,
}
use cedra_reflect.Types.Common.{Address, Asset, EventBase, trfl, tusd}
use cedra_reflect.Types.Core.{
  EligibleBalanceCreditedEvent, EligibleBalanceDebitedEvent, RewardsClaimedEvent,
  RewardsMaterializedEvent,
}
use cedra_reflect.Types.Setup.{FaucetGrantEvent, PositionCreatedEvent}
use cedra_reflect.Types.State.{IndexedPosition, ProtocolProjection}

pub shift_correction_parallel :
    (adds : Bool) (change x y : ℤ) {x' y' : ℤ}
    → shift_correction adds change x ≡ some x'
    → shift_correction adds change y ≡ some y'
    → x' +ℤ y ≡ y' +ℤ x
unfolding shift_correction
shift_correction_parallel true change x y hx hy = omega (
  int_laws,
  parts_of_eq (signed_subtract_unsigned-eq-some x change hx),
  parts_of_eq (signed_subtract_unsigned-eq-some y change hy),
)
shift_correction_parallel false change x y hx hy = omega (
  int_laws,
  parts_of_eq (signed_add_unsigned-eq-some x change hx),
  parts_of_eq (signed_add_unsigned-eq-some y change hy),
)

-- The projection after a movement, from the new corrections.
abbrev pub moved : Address → IndexedPosition → ℤ → ProtocolProjection → ℤ → ℤ → ProtocolProjection
moved account current delta p correction aggregate = record p {
  positions =
      insert account
        (record current { raw_trfl = current.raw_trfl +ℤ delta; correction = correction })
        p.positions;
  eligible_supply = p.eligible_supply +ℤ delta;
  aggregate_correction = aggregate;
}

pub move_trfl-eq-some :
    (account : Address) (current : IndexedPosition) (delta : ℤ) (p : ProtocolProjection)
    {p' : ProtocolProjection}
    → move_trfl account current delta p ≡ some p'
    → (change : ℤ) × (correction : ℤ) × (aggregate : ℤ) × (checked_multiply
          (absolute delta)
          p.current_index
        ≡ some change)
      × (shift_correction (not (ltb_ℤ delta (pos 0))) change current.correction ≡ some correction)
      × (shift_correction (not (ltb_ℤ delta (pos 0))) change p.aggregate_correction
          ≡ some aggregate)
      × (moved account current delta p correction aggregate ≡ p')
unfolding move_trfl
move_trfl-eq-some account current delta p h =
    let (change, e, h1) = >>=-eq-some _ _ h in
    let (correction, f, h2) = >>=-eq-some _ _ h1 in
    let (aggregate, g, h3) = >>=-eq-some _ _ h2 in
    (change, correction, aggregate, e, f, g, (require-eq-some _ _ h3).1)

moved-IsConserved :
    (account : Address) (delta : ℤ) (p : ProtocolProjection) (correction aggregate : ℤ)
    → let current = position_or_empty account p.positions in
      correction +ℤ p.aggregate_correction ≡ aggregate +ℤ current.correction
      → IsConserved p
      → IsConserved (moved account current delta p correction aggregate)
moved-IsConserved account delta p correction aggregate e h =
    let current = position_or_empty account p.positions in
    let next : IndexedPosition = record current {
      raw_trfl = current.raw_trfl +ℤ delta;
      correction = correction;
    } in
    let shares =
      total-insert (λ q. q.raw_trfl) account next (empty_position account) p.positions refl in
    let corrections =
      total-insert (λ q. q.correction) account next (empty_position account) p.positions refl in
    (
      omega (int_laws, parts_of_eq shares, parts_of_eq h.0),
      omega (int_laws, parts_of_eq corrections, parts_of_eq h.1, parts_of_eq e),
      h.2,
    )

adjust_trfl-Mild :
    {H : Type 0} (account : Address) (delta : ℤ) (p p' : ProtocolProjection)
    → adjust_trfl account delta p ≡ some p'
    → Mild H p p'
unfolding adjust_trfl
adjust_trfl-Mild {H} account delta p p' h =
    elim (Bool-cases (ltb_ℤ ((position_or_empty account p.positions).raw_trfl +ℤ delta) (pos 0))) [
      | inl short ↦ cc (rw short at h)
      | inr enough ↦
          let (change, correction, aggregate, _, f, g, e) =
            move_trfl-eq-some account (position_or_empty account p.positions) delta p
              (rw enough at h) in
          subst (Mild H p) e (
            λ _ k.
                moved-IsConserved account delta p correction aggregate
                  (shift_correction_parallel (not (ltb_ℤ delta (pos 0))) change _ _ f g) k,
            refl,
            refl,
          )
    ]

-- A write that leaves the balance and the correction alone.
rewrite-IsConserved :
    (account : Address) (next : IndexedPosition) (p : ProtocolProjection)
    → next.raw_trfl ≡ (position_or_empty account p.positions).raw_trfl
    → next.correction ≡ (position_or_empty account p.positions).correction
    → IsConserved p
    → IsConserved (record p { positions = insert account next p.positions })
rewrite-IsConserved account next p es ec h =
    let shares =
      total-insert (λ q. q.raw_trfl) account next (empty_position account) p.positions refl in
    let corrections =
      total-insert (λ q. q.correction) account next (empty_position account) p.positions refl in
    (
      omega (int_laws, parts_of_eq shares, parts_of_eq h.0, parts_of_eq es),
      omega (int_laws, parts_of_eq corrections, parts_of_eq h.1, parts_of_eq ec),
      h.2,
    )

adjust_tusd-Mild :
    {H : Type 0} (account : Address) (delta : ℤ) (p p' : ProtocolProjection)
    → adjust_tusd account delta p ≡ some p'
    → Mild H p p'
unfolding adjust_tusd
adjust_tusd-Mild {H} account delta p p' h =
    elim (Bool-cases (ltb_ℤ ((position_or_empty account p.positions).raw_tusd +ℤ delta) (pos 0))) [
      | inl short ↦ cc (rw short at h)
      | inr enough ↦
          subst (Mild H p) (eq_of_some (rw enough at h))
            (λ _ k. rewrite-IsConserved account _ p refl refl k, refl, refl)
    ]

pub adjust_wallet_asset-Mild :
    {H : Type 0} (account : Address) (asset : Asset) (delta : ℤ) (p p' : ProtocolProjection)
    → adjust_wallet_asset account asset delta p ≡ some p'
    → Mild H p p'
unfolding adjust_wallet_asset
adjust_wallet_asset-Mild account trfl delta p p' h = adjust_trfl-Mild account delta p p' h
adjust_wallet_asset-Mild account tusd delta p p' h = adjust_tusd-Mild account delta p p' h

pub adjust-Extending :
    {H : Type 0} (account : Address) (asset : Asset) (delta : ℤ)
    → Extending H (update (adjust_wallet_asset account asset delta))
adjust-Extending account asset delta =
    update-Extending _ (adjust_wallet_asset-Mild account asset delta)

record_materialized-Mild :
    {H : Type 0} (e : RewardsMaterializedEvent) (p p' : ProtocolProjection)
    → record_materialized e p ≡ some p'
    → Mild H p p'
unfolding record_materialized
record_materialized-Mild {H} e p p' h =
    let current = position_or_empty e.account p.positions in
    let (_, _, h1) = >>=-eq-some (checked_add current.claimed e.amount) _ h in
    let (_, _, h2) = >>=-eq-some (checked_add current.lifetime_materialized e.amount) _ h1 in
    let (_, _, h3) = >>=-eq-some (checked_add p.reward_vault_payouts e.amount) _ h2 in
    let (_, _, h4) = >>=-eq-some (checked_add p.lifetime_materialized e.amount) _ h3 in
    subst (Mild H p) (eq_of_some h4)
      (λ _ k. rewrite-IsConserved e.account _ p refl refl k, refl, refl)

claim_rewards-Mild :
    {H : Type 0} (e : RewardsClaimedEvent) (p p' : ProtocolProjection)
    → claim_rewards e p ≡ some p'
    → Mild H p p'
unfolding claim_rewards
claim_rewards-Mild {H} e p p' h =
    let current = position_or_empty e.account p.positions in
    let (_, _, h1) = >>=-eq-some (checked_add current.lifetime_claimed e.amount) _ h in
    subst (Mild H p) (eq_of_some h1)
      (λ _ k. rewrite-IsConserved e.account _ p refl refl k, refl, refl)

module _ {H : Type 0} where
  pub materialize_wallet-Extending :
      (b : EventBase) (e : RewardsMaterializedEvent) → Extending H (materialize_wallet b e)
  unfolding materialize_wallet
  materialize_wallet-Extending b e =
      ▹-Extending
        (▹-Extending
          (▹-Extending (▹-Extending (throw_if-Extending _) (check_checked-Extending _ b _))
            (adjust-Extending e.account trfl e.amount))
          (check_checked-Extending _ b _))
        (update-Extending _ (record_materialized-Mild e))

  pub on_position_created-Extending :
      (b : EventBase) (e : PositionCreatedEvent) → Extending H (on_position_created b e)
  unfolding on_position_created
  on_position_created-Extending b e =
      ▹-Extending (check-Extending _ b _)
        (modify-Extending _ λ p. (λ _ k. rewrite-IsConserved e.account _ p refl refl k, refl, refl))

  pub on_faucet_grant-Extending : (e : FaucetGrantEvent) → Extending H (on_faucet_grant e)
  unfolding on_faucet_grant
  on_faucet_grant-Extending e =
      ▹-Extending (throw_if-Extending _) (adjust-Extending e.account e.asset e.amount)

  pub on_eligible_balance_debited-Extending :
      (e : EligibleBalanceDebitedEvent) → Extending H (on_eligible_balance_debited e)
  unfolding on_eligible_balance_debited
  on_eligible_balance_debited-Extending e =
      ▹-Extending (throw_if-Extending _) (adjust-Extending e.account trfl (neg e.amount))

  pub on_eligible_balance_credited-Extending :
      (e : EligibleBalanceCreditedEvent) → Extending H (on_eligible_balance_credited e)
  unfolding on_eligible_balance_credited
  on_eligible_balance_credited-Extending e =
      ▹-Extending (throw_if-Extending _) (adjust-Extending e.account trfl e.amount)

  pub on_rewards_claimed-Extending : (e : RewardsClaimedEvent) → Extending H (on_rewards_claimed e)
  unfolding on_rewards_claimed
  on_rewards_claimed-Extending e =
      ▹-Extending (throw_if-Extending _) (update-Extending _ (claim_rewards-Mild e))
