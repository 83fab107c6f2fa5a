-- ===== src/Reducer/Lp.antt =====
-- LP epochs and shares in packages/indexer/src/reducer.ts: opening, status, `adjustLpShares` and
-- transfers.
use cedra_reflect.Base.{
  Bool, Option, [], false, get_or, if◌then◌else◌, is_none, is_value, none, not, some, string_eq,
  ◌==◌, ◌>>=◌, ◌||◌,
}
use cedra_reflect.Int.{leb_ℤ, ltb_ℤ, neg, pos, ℤ, ℤ_eq, ◌+ℤ◌, ◌-ℤ◌}
use cedra_reflect.Accounting.{lp_position_pending}
use cedra_reflect.Dict.{Dict, contains, insert, lookup}
use cedra_reflect.Domains.Checked.{
  checked_add, checked_multiply, signed_add_unsigned, signed_subtract_unsigned,
}
use cedra_reflect.Reducer.Group.{is_claim_only}
use cedra_reflect.Reducer.Monad.{
  Action, check, check_checked, modify, needing, set_epoch, skip, unless, update, with_epoch, ◌▹◌,
}
use cedra_reflect.Reducer.Wallet.{adjust_wallet_asset, shift_correction}
use cedra_reflect.Types.Common.{Address, AlertCode, Asset, EventBase, LpEpochStatus}
use cedra_reflect.Types.Lp.{
  LpEpochOpenedEvent, LpEpochStatusChangedEvent, LpRewardsClaimedEvent, LpSharesChangedEvent,
  LpSharesTransferredEvent,
}
use cedra_reflect.Types.State.{IndexedLpEpoch, IndexedLpPosition}

abbrev pub empty_lp_position : Address → IndexedLpPosition
empty_lp_position owner = record {
  owner = owner;
  shares = pos 0;
  correction = pos 0;
  claimed = pos 0;
}

abbrev pub lp_position_or_empty : Address → Dict Address IndexedLpPosition → IndexedLpPosition
lp_position_or_empty owner positions = get_or (lookup owner positions) (empty_lp_position owner)

abbrev pub fresh_epoch : LpEpochOpenedEvent → IndexedLpEpoch
fresh_epoch e = record {
  epoch = e.epoch;
  state_id = e.state_id;
  status = LpEpochStatus.active;
  reward_vault = e.reward_vault;
  index = pos 0;
  index_remainder = pos 0;
  total_shares = pos 0;
  aggregate_correction = pos 0;
  unallocated_rewards = pos 0;
  rounding_reserve = pos 0;
  retired_residue_magnified = pos 0;
  terminal_rounding_base_units = none;
  lifetime_received = pos 0;
  lifetime_claimed = pos 0;
  quarantined = false;
  positions = [];
}

unfoldable pub on_lp_epoch_opened : EventBase → LpEpochOpenedEvent → Action
on_lp_epoch_opened b e =
    unless
      (λ p.
        contains e.epoch p.lp_epochs
        || contains e.reward_vault p.reward_vault_to_epoch
        || contains e.state_id p.state_id_to_epoch
        || not (is_none p.active_lp_epoch))
      b AlertCode.identifier_reuse
      (modify (set_epoch (fresh_epoch e))
        ▹ modify (λ p. record p {
          reward_vault_to_epoch = insert e.reward_vault e.epoch p.reward_vault_to_epoch;
          state_id_to_epoch = insert e.state_id e.epoch p.state_id_to_epoch;
          active_lp_epoch = some e.epoch;
        }))

abbrev pub same_status : LpEpochStatus → LpEpochStatus → Bool
same_status a b = if is_claim_only a then is_claim_only b else not (is_claim_only b)

abbrev pub close_if_terminal : EventBase → LpEpochStatusChangedEvent → IndexedLpEpoch → Action
close_if_terminal b e epoch =
    if is_claim_only e.new_status
    then (check (λ p. not (is_value p.active_lp_epoch e.epoch) || not (epoch.total_shares == pos 0))
          b AlertCode.lp_accounting
        ▹ modify (λ p. record p { active_lp_epoch = none }))
    else skip

unfoldable pub on_lp_epoch_status_changed : EventBase → LpEpochStatusChangedEvent → Action
on_lp_epoch_status_changed b e = with_epoch b e.epoch λ epoch.
    check
      (λ _.
        is_claim_only e.old_status
        || not (is_claim_only e.new_status)
        || not (same_status epoch.status e.old_status))
      b AlertCode.lp_accounting
    ▹ modify (set_epoch (record epoch { status = e.new_status }))
    ▹ close_if_terminal b e epoch

abbrev pub is_frozen : IndexedLpEpoch → ℤ → Bool
is_frozen epoch amount = is_claim_only epoch.status || epoch.quarantined || leb_ℤ amount (pos 0)

abbrev pub signed_amount : LpSharesChangedEvent → ℤ
signed_amount e = if e.added then e.amount else neg e.amount

-- The owner's shares and the total move together; the corrections keep what is pending.
unfoldable pub move_lp_shares : LpSharesChangedEvent → IndexedLpEpoch → Option IndexedLpEpoch
unfolding shift_correction
move_lp_shares e epoch = do
  let current = lp_position_or_empty e.owner epoch.positions
  change ← checked_multiply e.amount epoch.index
  correction ← shift_correction e.added change current.correction
  aggregate ← shift_correction e.added change epoch.aggregate_correction
  some (record epoch {
    total_shares = epoch.total_shares +ℤ signed_amount e;
    aggregate_correction = aggregate;
    positions =
        insert e.owner
          (record current { shares = current.shares +ℤ signed_amount e; correction = correction })
          epoch.positions;
  })

-- `adjustLpShares`
unfoldable pub adjust_lp_shares : EventBase → LpSharesChangedEvent → Action
unfolding move_lp_shares
adjust_lp_shares b e = with_epoch b e.epoch λ epoch.
    let shares = (lp_position_or_empty e.owner epoch.positions).shares +ℤ signed_amount e in
    let total = epoch.total_shares +ℤ signed_amount e in
    unless (λ _. is_frozen epoch e.amount) b AlertCode.lp_accounting
      (check (λ p. not (contains e.owner p.registered_wallets)) b AlertCode.wallet_registration
        ▹ unless (λ _. ltb_ℤ shares (pos 0) || ltb_ℤ total (pos 0)) b AlertCode.lp_accounting
            (needing (move_lp_shares e epoch) λ moved.
              check (λ _. not (shares == e.owner_shares) || not (total == e.total_shares)) b
                AlertCode.lp_accounting
              ▹ modify (set_epoch moved)))

unfoldable pub transfer_lp_shares :
    LpSharesTransferredEvent → IndexedLpEpoch → Option IndexedLpEpoch
transfer_lp_shares e epoch = do
  let sender = lp_position_or_empty e.sender epoch.positions
  let recipient = lp_position_or_empty e.recipient epoch.positions
  delta ← checked_multiply e.amount epoch.index
  sent ← signed_add_unsigned sender.correction delta
  credited ← signed_subtract_unsigned recipient.correction delta
  some (record epoch {
    positions =
        insert e.recipient
          (record recipient { shares = recipient.shares +ℤ e.amount; correction = credited })
          (insert e.sender (record sender { shares = sender.shares -ℤ e.amount; correction = sent })
            epoch.positions);
  })

unfoldable pub on_lp_shares_transferred : EventBase → LpSharesTransferredEvent → Action
unfolding transfer_lp_shares
on_lp_shares_transferred b e = with_epoch b e.epoch λ epoch.
    unless (λ _. is_frozen epoch e.amount) b AlertCode.lp_accounting
      (check
          (λ p.
            not (contains e.sender p.registered_wallets)
            || not (contains e.recipient p.registered_wallets))
          b AlertCode.wallet_registration
        ▹ unless
            (λ _.
              ltb_ℤ (lp_position_or_empty e.sender epoch.positions).shares e.amount
              || e.sender == e.recipient)
            b AlertCode.lp_accounting
            (needing (transfer_lp_shares e epoch) λ moved. modify (set_epoch moved)))

unfoldable pub claim_lp_rewards : LpRewardsClaimedEvent → IndexedLpEpoch → Option IndexedLpEpoch
claim_lp_rewards e epoch = do
  let current = lp_position_or_empty e.owner epoch.positions
  claimed ← checked_add current.claimed e.amount
  lifetime ← checked_add epoch.lifetime_claimed e.amount
  some (record epoch {
    positions = insert e.owner (record current { claimed = claimed }) epoch.positions;
    lifetime_claimed = lifetime;
  })

-- The payout enters the wallet at the current global index.
unfoldable pub on_lp_rewards_claimed : EventBase → LpRewardsClaimedEvent → Action
unfolding claim_lp_rewards adjust_wallet_asset
on_lp_rewards_claimed b e = with_epoch b e.epoch λ epoch.
    let current = lp_position_or_empty e.owner epoch.positions in
    check_checked
      (λ _. lp_position_pending current epoch >>= λ pending.
        some (leb_ℤ e.amount (pos 0) || ltb_ℤ pending e.amount))
      b AlertCode.lp_accounting
    ▹ check_checked
        (λ _. checked_add current.claimed e.amount >>= λ claimed.
          some (not (claimed == e.total_claimed)))
        b AlertCode.position_accounting
    ▹ needing (claim_lp_rewards e epoch) (λ moved. modify (set_epoch moved))
    ▹ update (adjust_wallet_asset e.owner Asset.trfl e.amount)
