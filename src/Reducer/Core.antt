-- ===== src/Reducer/Core.antt =====
-- Reflection fees, the global index and canonical custody in packages/indexer/src/reducer.ts.
use cedra_reflect.Base.{
  Bool, List, Option, [], false, find, get_or, if◌then◌else◌, is_empty, is_none, is_value, keep,
  length, nat_beq, none, not, require, some, string_eq, true, ◌&&◌, ◌++◌, ◌==◌, ◌>>=◌, ◌||◌, ◌∷◌,
}
use cedra_reflect.Int.{div, leb_ℤ, ltb_ℤ, mod_by, neg, pos, ℤ, ℤ_eq, ◌*ℤ◌, ◌+ℤ◌}
use cedra_reflect.Accounting.{custody_pending, reflection_magnitude}
use cedra_reflect.Dict.{contains, lookup}
use cedra_reflect.Domains.Checked.{
  checked_add, checked_multiply, checked_subtract, signed_subtract_unsigned,
}
use cedra_reflect.Reducer.Group.{Group, Receipt, is_claim_only}
use cedra_reflect.Reducer.Lifecycle.{is_v02}
use cedra_reflect.Reducer.Monad.{
  Action, PendingCoreFee, alert, check, check_checked, done, modify, throw_if, unless, update, ◌▹◌,
}
use cedra_reflect.Reducer.Wallet.{adjust_wallet_asset, shift_correction}
use cedra_reflect.Types.Common.{AlertCode, Asset, EventBase, SwapDirection}
use cedra_reflect.Types.Core.{
  CustodyAdapterRegisteredEvent, CustodyEpochRouteOpenedEvent, CustodyRewardsRoutedEvent,
  CustodySharesChangedEvent, ReflectionFeeCollectedEvent, ReflectionIndexAdvancedEvent,
  SwapExecutedEvent,
}
use cedra_reflect.Types.Setup.{WalletTransferEvent}
use cedra_reflect.Types.State.{IndexedLpEpoch, ProtocolProjection}

abbrev pub bps_denominator : ℤ
bps_denominator = pos 10_000

-- `x / BPS_DENOMINATOR`, which never throws.
abbrev pub per_bps : ℤ → ℤ
per_bps x = get_or (div x bps_denominator) (pos 0)

abbrev pub is_sell : SwapDirection → Bool
is_sell SwapDirection.sell = true
is_sell SwapDirection.buy = false

-- The receipts are informational: only the native debits and credits move balances.
unfoldable pub on_wallet_transfer : Group → EventBase → WalletTransferEvent → Action
on_wallet_transfer g b e =
    throw_if (λ _. leb_ℤ e.amount (pos 0))
    ▹ check
        (λ _.
          not (is_empty g.debits)
          && not (
              nat_beq
                (length
                  (keep (λ d. d.body.account == e.from && d.body.amount == e.amount) g.debits))
                1))
        b AlertCode.double_counting
    ▹ check
        (λ _.
          not (is_empty g.credits)
          && not (
              nat_beq
                (length (keep (λ d. d.body.account == e.to && d.body.amount == e.amount) g.credits))
                1))
        b AlertCode.double_counting

unfoldable pub on_custody_adapter_registered : EventBase → CustodyAdapterRegisteredEvent → Action
on_custody_adapter_registered b e =
    check
      (λ p.
        leb_ℤ e.adapter_id (pos 0)
        || not (e.first_epoch == pos 1)
        || not (is_none p.custody.adapter_id)
        || not (is_none p.custody.reserve_store)
        || contains e.lp_reward_vault p.reward_vault_to_epoch)
      b AlertCode.identifier_reuse
    ▹ modify (λ p. record p {
      custody = record (p.custody) {
        adapter_id = some e.adapter_id;
        reserve_store = some e.reserve_store;
        active_route_epoch = some e.first_epoch;
        active_lp_reward_vault = some e.lp_reward_vault;
      };
    })

abbrev pub is_open_at : CustodyEpochRouteOpenedEvent → Option IndexedLpEpoch → Bool
is_open_at e none = false
is_open_at e (some epoch) =
    epoch.reward_vault == e.lp_reward_vault && not (is_claim_only epoch.status)

-- The pending custody reward is computed only where every other test of the binding passes.
abbrev pub breaks_binding : CustodyEpochRouteOpenedEvent → ProtocolProjection → Option Bool
breaks_binding e p =
    if not (is_value p.custody.adapter_id e.adapter_id)
      || not (is_value p.custody.reserve_store e.reserve_store)
      || not (is_open_at e (lookup e.epoch p.lp_epochs))
      || not (is_value p.active_lp_epoch e.epoch)
      || not (p.custody.shares == pos 0)
    then some true
    else (custody_pending p >>= λ pending. some (not (pending == pos 0)))

abbrev pub skips_epoch : CustodyEpochRouteOpenedEvent → ProtocolProjection → Bool
skips_epoch e p = elim p.custody.active_route_epoch [
  | none ↦ false
  | some current ↦ not (e.epoch == current +ℤ pos 1)
]

abbrev pub route_residue : ProtocolProjection → Option ℤ
route_residue p =
    if ltb_ℤ p.custody.correction (pos 0)
    then none
    else (checked_multiply p.custody.claimed reflection_magnitude >>= λ claim.
        checked_subtract p.custody.correction claim)

abbrev pub is_wrong_residue : CustodyEpochRouteOpenedEvent → ℤ → Bool
is_wrong_residue e expected =
    ltb_ℤ expected (pos 0)
    || leb_ℤ reflection_magnitude expected
    || not (e.retired_residue_magnified == expected)

unfoldable pub open_route :
    CustodyEpochRouteOpenedEvent → ProtocolProjection → Option ProtocolProjection
open_route e p = do
  aggregate ← signed_subtract_unsigned p.aggregate_correction e.retired_residue_magnified
  correction ← signed_subtract_unsigned p.custody.correction e.retired_residue_magnified
  some (record p {
    aggregate_correction = aggregate;
    custody = record (p.custody) {
      active_route_epoch = some e.epoch;
      active_lp_reward_vault = some e.lp_reward_vault;
      correction = correction;
    };
  })

unfoldable pub on_custody_epoch_route_opened : EventBase → CustodyEpochRouteOpenedEvent → Action
unfolding open_route
on_custody_epoch_route_opened b e =
    check_checked (breaks_binding e) b AlertCode.vault_binding
    ▹ check (skips_epoch e) b AlertCode.old_epoch_route
    ▹ check_checked (λ p. route_residue p >>= λ r. some (is_wrong_residue e r)) b
        AlertCode.custody_accounting
    ▹ update (open_route e)

-- The seller's tRFL leaves before the fee is indexed, once in a transaction.
unfoldable pub debit_seller : Option (Receipt SwapExecutedEvent) → Action
unfolding adjust_wallet_asset
debit_seller none c = done c
debit_seller (some s) c =
    if is_sell s.body.direction && not c.sell_wallet_debited
    then (update (adjust_wallet_asset s.body.account Asset.trfl (neg s.body.gross_amount)) ▹ λ d.
          done (record d { sell_wallet_debited = true }))
        c
    else done c

abbrev pub maximum_fee_bps : ProtocolProjection → ℤ
maximum_fee_bps p = if is_v02 p then pos 500 else pos 100

unfoldable pub collect_fee :
    ReflectionFeeCollectedEvent → ProtocolProjection → Option ProtocolProjection
collect_fee e p = do
  credits ← checked_add p.reward_vault_credits e.fee_amount
  fees ← checked_add p.lifetime_swap_fees e.fee_amount
  some (record p { reward_vault_credits = credits; lifetime_swap_fees = fees })

unfoldable pub on_reflection_fee_collected :
    Group → EventBase → ReflectionFeeCollectedEvent → Action
unfolding debit_seller collect_fee
on_reflection_fee_collected g b e =
    debit_seller (find (λ _. true) g.swaps)
    ▹ check
        (λ p.
          ltb_ℤ (maximum_fee_bps p) e.fee_bps
          || not (e.fee_bps == p.fee_bps)
          || not (e.fee_amount == per_bps (e.gross_amount *ℤ e.fee_bps))
          || not (e.swap_tx_hash == b.tx_hash))
        b AlertCode.fee_formula
    ▹ update (collect_fee e)
    ▹ λ c. done (record c {
      pending_core_fees =
          c.pending_core_fees
          ++ record {
            base = b;
            fee_amount = e.fee_amount;
            shares_at_collection = c.next.eligible_supply;
          }
            ∷ [];
    })

-- The independent calculation: the new index and the new remainder.
unfoldable pub advance_index : ℤ → ℤ → ℤ → ℤ → Option (ℤ × ℤ)
advance_index amount index remainder shares = do
  magnified ← checked_multiply amount reflection_magnitude
  numerator ← checked_add magnified remainder
  step ← div numerator shares
  new_index ← checked_add index step
  new_remainder ← mod_by numerator shares
  some (new_index, new_remainder)

abbrev pub disagrees_with_index :
    ReflectionIndexAdvancedEvent → PendingCoreFee → ProtocolProjection → Option Bool
disagrees_with_index e fee p =
    advance_index fee.fee_amount p.current_index p.index_remainder fee.shares_at_collection >>= λ r.
    some (
      not (e.fee_amount == fee.fee_amount)
      || not (e.previous_index == p.current_index)
      || not (e.new_index == r.0)
      || not (e.index_remainder == r.1)
      || not (e.eligible_supply == fee.shares_at_collection)
      || not (e.eligible_supply == p.eligible_supply))

abbrev pub take_index : ReflectionIndexAdvancedEvent → ProtocolProjection → ProtocolProjection
take_index e p = record p { current_index = e.new_index; index_remainder = e.index_remainder }

-- The fee at the head of the queue is taken off whatever the event says of it.
abbrev pub index_fee : EventBase → ReflectionIndexAdvancedEvent → List PendingCoreFee → Action
index_fee b e [] c = alert b AlertCode.transaction_group c
index_fee b e (fee ∷ rest) c =
    unless (λ _. leb_ℤ fee.shares_at_collection (pos 0)) b AlertCode.global_index
      (check_checked (disagrees_with_index e fee) b AlertCode.global_index ▹ modify (take_index e))
      (record c { pending_core_fees = rest })

unfoldable pub on_reflection_index_advanced : EventBase → ReflectionIndexAdvancedEvent → Action
unfolding advance_index
on_reflection_index_advanced b e c = index_fee b e c.pending_core_fees c

unfoldable pub change_custody_shares :
    CustodySharesChangedEvent → ProtocolProjection → Option ProtocolProjection
unfolding shift_correction
change_custody_shares e p = do
  let delta = if e.added then e.amount else neg e.amount
  shares ← require (leb_ℤ (pos 0) (p.custody.shares +ℤ delta)) (p.custody.shares +ℤ delta)
  change ← checked_multiply e.amount p.current_index
  correction ← shift_correction e.added change p.custody.correction
  aggregate ← shift_correction e.added change p.aggregate_correction
  some (record p {
    custody = record (p.custody) { shares = shares; correction = correction };
    eligible_supply = p.eligible_supply +ℤ delta;
    aggregate_correction = aggregate;
  })

unfoldable pub on_custody_shares_changed : EventBase → CustodySharesChangedEvent → Action
unfolding change_custody_shares
on_custody_shares_changed b e =
    throw_if (λ _. leb_ℤ e.amount (pos 0))
    ▹ update (change_custody_shares e)
    ▹ check
        (λ p.
          not (p.custody.shares == e.custody_shares) || not (p.eligible_supply == e.global_shares))
        b AlertCode.custody_accounting

abbrev pub is_foreign_vault : CustodyRewardsRoutedEvent → ProtocolProjection → Bool
is_foreign_vault e p = elim (lookup e.epoch p.lp_epochs) [
  | none ↦ false
  | some epoch ↦ not (epoch.reward_vault == e.lp_reward_vault)
]

unfoldable pub route_rewards :
    CustodyRewardsRoutedEvent → ProtocolProjection → Option ProtocolProjection
route_rewards e p = do
  claimed ← checked_add p.custody.claimed e.amount
  routed ← checked_add p.custody.lifetime_routed e.amount
  lifetime ← checked_add p.lifetime_custody_routed e.amount
  payouts ← checked_add p.reward_vault_payouts e.amount
  some (record p {
    custody = record (p.custody) {
      reserve_store = some (get_or p.custody.reserve_store e.reserve_store);
      claimed = claimed;
      lifetime_routed = routed;
    };
    lifetime_custody_routed = lifetime;
    reward_vault_payouts = payouts;
  })

unfoldable pub on_custody_rewards_routed : EventBase → CustodyRewardsRoutedEvent → Action
unfolding route_rewards
on_custody_rewards_routed b e =
    check (λ p. not (contains e.epoch p.lp_epochs)) b AlertCode.lp_accounting
    ▹ check
        (λ p.
          not (is_value p.active_lp_epoch e.epoch)
          || not (is_value p.custody.active_route_epoch e.epoch))
        b AlertCode.old_epoch_route
    ▹ check (is_foreign_vault e) b AlertCode.vault_binding
    ▹ check (λ p. not (is_value p.custody.active_lp_reward_vault e.lp_reward_vault)) b
        AlertCode.vault_binding
    ▹ check
        (λ p.
          not (is_none p.custody.reserve_store)
          && not (is_value p.custody.reserve_store e.reserve_store))
        b AlertCode.vault_binding
    ▹ check_checked
        (λ p. custody_pending p >>= λ pending.
          some (not (e.amount == pending) || leb_ℤ e.amount (pos 0)))
        b AlertCode.custody_accounting
    ▹ check_checked
        (λ p. checked_add p.custody.claimed e.amount >>= λ claimed.
          some (not (claimed == e.total_routed)))
        b AlertCode.custody_accounting
    ▹ update (route_rewards e)
