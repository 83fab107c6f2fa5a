-- ===== src/Reducer/Wallet.antt =====
-- Wallet balances in packages/indexer/src/reducer.ts: `adjustWalletAsset`, `materializeWallet` and
-- the events of registration, faucet, transfers and claims.
use cedra_reflect.Base.{
  Bool, Option, get_or, if◌then◌else◌, none, not, require, some, string_eq, ◌==◌, ◌>>=◌,
}
use cedra_reflect.Int.{leb_ℤ, ltb_ℤ, neg, pos, ℤ, ℤ_eq, ◌+ℤ◌}
use cedra_reflect.Accounting.{wallet_pending}
use cedra_reflect.Dict.{Dict, contains, insert, lookup}
use cedra_reflect.Domains.Checked.{
  checked_add, checked_multiply, signed_add_unsigned, signed_subtract_unsigned,
}
use cedra_reflect.Reducer.Monad.{Action, check, check_checked, modify, throw_if, update, ◌▹◌}
use cedra_reflect.Types.Common.{Address, AlertCode, Asset, EventBase, trfl, tusd}
use cedra_reflect.Types.Core.{
  EligibleBalanceCreditedEvent, EligibleBalanceDebitedEvent, RewardsClaimedEvent,
  RewardsMaterializedEvent,
}
use cedra_reflect.Types.Setup.{FaucetGrantEvent, PositionCreatedEvent}
use cedra_reflect.Types.State.{IndexedPosition, ProtocolProjection}

abbrev pub empty_position : Address → IndexedPosition
empty_position account = record {
  account = account;
  raw_trfl = pos 0;
  raw_tusd = pos 0;
  correction = pos 0;
  claimed = pos 0;
  lifetime_claimed = pos 0;
  lifetime_materialized = pos 0;
}

abbrev pub position_or_empty : Address → Dict Address IndexedPosition → IndexedPosition
position_or_empty account positions = get_or (lookup account positions) (empty_position account)

abbrev pub absolute : ℤ → ℤ
absolute delta = if ltb_ℤ delta (pos 0) then neg delta else delta

-- The correction moves against the balance, so that rewards earned so far do not change.
unfoldable pub shift_correction : Bool → ℤ → ℤ → Option ℤ
shift_correction adds change correction =
    if adds
    then signed_subtract_unsigned correction change
    else signed_add_unsigned correction change

unfoldable pub adjust_tusd : Address → ℤ → ProtocolProjection → Option ProtocolProjection
adjust_tusd account delta p =
    let current = position_or_empty account p.positions in
    if ltb_ℤ (current.raw_tusd +ℤ delta) (pos 0)
    then none
    else some (record p {
      positions =
          insert account (record current { raw_tusd = current.raw_tusd +ℤ delta }) p.positions;
    })

-- The position and the totals of a tRFL movement of `delta`.
unfoldable pub move_trfl :
    Address → IndexedPosition → ℤ → ProtocolProjection → Option ProtocolProjection
unfolding shift_correction
move_trfl account current delta p = do
  change ← checked_multiply (absolute delta) p.current_index
  correction ← shift_correction (not (ltb_ℤ delta (pos 0))) change current.correction
  aggregate ← shift_correction (not (ltb_ℤ delta (pos 0))) change p.aggregate_correction
  require (leb_ℤ (pos 0) (p.eligible_supply +ℤ delta)) (record p {
    positions =
        insert account
          (record current { raw_trfl = current.raw_trfl +ℤ delta; correction = correction })
          p.positions;
    eligible_supply = p.eligible_supply +ℤ delta;
    aggregate_correction = aggregate;
  })

unfoldable pub adjust_trfl : Address → ℤ → ProtocolProjection → Option ProtocolProjection
unfolding move_trfl
adjust_trfl account delta p =
    let current = position_or_empty account p.positions in
    if ltb_ℤ (current.raw_trfl +ℤ delta) (pos 0) then none else move_trfl account current delta p

-- `adjustWalletAsset`
unfoldable pub adjust_wallet_asset :
    Address → Asset → ℤ → ProtocolProjection → Option ProtocolProjection
unfolding adjust_tusd adjust_trfl
adjust_wallet_asset account tusd delta p = adjust_tusd account delta p
adjust_wallet_asset account trfl delta p = adjust_trfl account delta p

-- What a materialization adds to the wallet and to the lifetime totals, once it is credited.
unfoldable pub record_materialized :
    RewardsMaterializedEvent → ProtocolProjection → Option ProtocolProjection
record_materialized e p = do
  let current = position_or_empty e.account p.positions
  claimed ← checked_add current.claimed e.amount
  materialized ← checked_add current.lifetime_materialized e.amount
  payouts ← checked_add p.reward_vault_payouts e.amount
  lifetime ← checked_add p.lifetime_materialized e.amount
  some (record p {
    positions =
        insert e.account
          (record current { claimed = claimed; lifetime_materialized = materialized }) p.positions;
    reward_vault_payouts = payouts;
    lifetime_materialized = lifetime;
  })

-- `materializeWallet`
unfoldable pub materialize_wallet : EventBase → RewardsMaterializedEvent → Action
unfolding adjust_wallet_asset record_materialized
materialize_wallet b e =
    throw_if (λ p. leb_ℤ e.amount (pos 0))
    ▹ check_checked
        (λ p.
          wallet_pending (position_or_empty e.account p.positions) p.current_index >>= λ pending.
          some (ltb_ℤ pending e.amount))
        b AlertCode.position_accounting
    ▹ update (adjust_wallet_asset e.account trfl e.amount)
    ▹ check_checked
        (λ p. checked_add (position_or_empty e.account p.positions).claimed e.amount >>= λ claimed.
          some (not (claimed == e.total_claimed)))
        b AlertCode.position_accounting
    ▹ update (record_materialized e)

unfoldable pub on_position_created : EventBase → PositionCreatedEvent → Action
on_position_created b e =
    check (λ p. contains e.account p.positions) b AlertCode.identifier_reuse
    ▹ modify (λ p. record p {
      positions = insert e.account (position_or_empty e.account p.positions) p.positions;
    })

unfoldable pub on_faucet_grant : FaucetGrantEvent → Action
unfolding adjust_wallet_asset
on_faucet_grant e =
    throw_if (λ p. leb_ℤ e.amount (pos 0)) ▹ update (adjust_wallet_asset e.account e.asset e.amount)

unfoldable pub on_eligible_balance_debited : EligibleBalanceDebitedEvent → Action
unfolding adjust_wallet_asset
on_eligible_balance_debited e =
    throw_if (λ p. leb_ℤ e.amount (pos 0))
    ▹ update (adjust_wallet_asset e.account trfl (neg e.amount))

unfoldable pub on_eligible_balance_credited : EligibleBalanceCreditedEvent → Action
unfolding adjust_wallet_asset
on_eligible_balance_credited e =
    throw_if (λ p. leb_ℤ e.amount (pos 0)) ▹ update (adjust_wallet_asset e.account trfl e.amount)

unfoldable pub claim_rewards : RewardsClaimedEvent → ProtocolProjection → Option ProtocolProjection
claim_rewards e p =
    let current = position_or_empty e.account p.positions in
    (checked_add current.lifetime_claimed e.amount >>= λ lifetime. some (record p {
      positions = insert e.account (record current { lifetime_claimed = lifetime }) p.positions;
    }))

unfoldable pub on_rewards_claimed : RewardsClaimedEvent → Action
unfolding claim_rewards
on_rewards_claimed e = throw_if (λ p. leb_ℤ e.amount (pos 0)) ▹ update (claim_rewards e)
