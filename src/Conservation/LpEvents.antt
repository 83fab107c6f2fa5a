-- ===== src/Conservation/LpEvents.antt =====
-- On the handlers of the LP events (packages/indexer/src/reducer.ts).
-- The epoch that is written is balanced if the one that was read is.
use cedra_reflect.Base.{Bool, Option, none, or_false, refl, some, string_eq, ◌∷◌, ◌≡◌}
use cedra_reflect.Int.{ℤ_eq}
use cedra_reflect.Conservation.Balance.{IsBalanced}
use cedra_reflect.Conservation.Epochs.{
  advance_epoch-IsBalanced, claim_lp_rewards-IsBalanced, move_lp_shares-IsBalanced,
  quarantine-IsBalanced, retire-IsBalanced, transfer_lp_shares-IsBalanced,
}
use cedra_reflect.Conservation.Rules.{
  Ends, Ends-alert, Extending, Extends-quiet, alert-Extending, check-Extending,
  check_checked-Extending, if-Extending, modify-Extending, needing-Extending, set_epoch-Mild,
  skip-Extending, unless-Extending, unless_known-Extending, with_epoch-Extending, ▹-Extending,
}
use cedra_reflect.Conservation.Wallets.{adjust-Extending}
use cedra_reflect.Dict.{lookup}
use cedra_reflect.Reducer.Group.{Group, Receipt, is_claim_only}
use cedra_reflect.Reducer.Lp.{
  adjust_lp_shares, claim_lp_rewards, close_if_terminal, fresh_epoch, move_lp_shares,
  on_lp_epoch_opened, on_lp_epoch_status_changed, on_lp_rewards_claimed, on_lp_shares_transferred,
  transfer_lp_shares,
}
use cedra_reflect.Reducer.LpRewards.{
  advance_epoch, consume, consume_route, on_lp_epoch_terminal_dust_classified,
  on_lp_fractional_residue_retired, on_lp_reward_index_advanced, on_lp_reward_quarantined,
  open_routes, quarantine, residue_of, retire, retire_residue,
}
use cedra_reflect.Reducer.Monad.{Action, Context, modify, set_epoch}
use cedra_reflect.Types.Common.{AlertCode, Asset, EventBase}
use cedra_reflect.Types.Core.{CustodyRewardsRoutedEvent}
use cedra_reflect.Types.Lp.{
  LpEpochOpenedEvent, LpEpochStatusChangedEvent, LpEpochTerminalDustClassifiedEvent,
  LpFractionalResidueRetiredEvent, LpRewardIndexAdvancedEvent, LpRewardQuarantinedEvent,
  LpRewardsClaimedEvent, LpSharesChangedEvent, LpSharesTransferredEvent,
}
use cedra_reflect.Types.State.{IndexedLpEpoch, IndexedLpPosition}

abbrev write : IndexedLpEpoch → Action
write epoch = modify (set_epoch epoch)

write-Extending :
    {H : Type 0} (epoch : IndexedLpEpoch) → (H → IsBalanced epoch) → Extending H (write epoch)
write-Extending epoch k = modify-Extending (set_epoch epoch) λ p. set_epoch-Mild epoch p k

pub on_lp_epoch_opened-Extending :
    (b : EventBase) (e : LpEpochOpenedEvent) → Extending (Unit {0}) (on_lp_epoch_opened b e)
unfolding on_lp_epoch_opened
on_lp_epoch_opened-Extending b e = unless-Extending _ b _ (
    ▹-Extending (write-Extending (fresh_epoch e) (λ _. (refl, refl, refl)))
      (modify-Extending _ λ p. (λ _ k. k, refl, refl)))

close_if_terminal-Extending :
    {H : Type 0} (b : EventBase) (e : LpEpochStatusChangedEvent) (epoch : IndexedLpEpoch)
    → Extending H (close_if_terminal b e epoch)
close_if_terminal-Extending b e epoch =
    if-Extending (is_claim_only e.new_status)
      (▹-Extending (check-Extending _ b _) (modify-Extending _ λ p. (λ _ k. k, refl, refl)))
      skip-Extending

pub on_lp_epoch_status_changed-Extending :
    (b : EventBase) (e : LpEpochStatusChangedEvent)
    → Extending (Unit {0}) (on_lp_epoch_status_changed b e)
unfolding on_lp_epoch_status_changed
on_lp_epoch_status_changed-Extending b e = with_epoch-Extending b e.epoch _ λ epoch.
    ▹-Extending
      (▹-Extending (check-Extending _ b _)
        (write-Extending (record epoch { status = e.new_status }) (λ k. k)))
      (close_if_terminal-Extending b e epoch)

pub adjust_lp_shares-Extending :
    (b : EventBase) (e : LpSharesChangedEvent) → Extending (Unit {0}) (adjust_lp_shares b e)
unfolding adjust_lp_shares
adjust_lp_shares-Extending b e = with_epoch-Extending b e.epoch _ λ epoch. unless-Extending _ b _ (
    ▹-Extending (check-Extending _ b _) (
      unless-Extending _ b _ (
        needing-Extending (move_lp_shares e epoch) _ λ moved h.
          ▹-Extending (check-Extending _ b _)
            (write-Extending moved (move_lp_shares-IsBalanced e epoch h)))))

pub on_lp_shares_transferred-Extending :
    (b : EventBase) (e : LpSharesTransferredEvent)
    → Extending (Unit {0}) (on_lp_shares_transferred b e)
unfolding on_lp_shares_transferred
on_lp_shares_transferred-Extending b e = with_epoch-Extending b e.epoch _ λ epoch.
    unless-Extending _ b _ (
      ▹-Extending (check-Extending _ b _) (
        unless_known-Extending _ b _ λ refused.
          needing-Extending (transfer_lp_shares e epoch) _ λ moved h.
            write-Extending moved
              (transfer_lp_shares-IsBalanced e epoch (or_false _ _ refused).1 h)))

pub on_lp_rewards_claimed-Extending :
    (b : EventBase) (e : LpRewardsClaimedEvent) → Extending (Unit {0}) (on_lp_rewards_claimed b e)
unfolding on_lp_rewards_claimed
on_lp_rewards_claimed-Extending b e = with_epoch-Extending b e.epoch _ λ epoch.
    ▹-Extending
      (▹-Extending (▹-Extending (check_checked-Extending _ b _) (check_checked-Extending _ b _)) (
        needing-Extending (claim_lp_rewards e epoch) _
          λ moved h. write-Extending moved (claim_lp_rewards-IsBalanced e epoch h)))
      (adjust-Extending e.owner Asset.trfl e.amount)

Ends-consume :
    (H : Type 0) (b : EventBase) (r : Option (Receipt CustodyRewardsRoutedEvent)) (c : Context)
    → Ends H c (consume b r c)
Ends-consume H b none c = Ends-alert H b AlertCode.route_pair c
Ends-consume H b (some r) c =
    Extends-quiet c c.pending_core_fees (r.id ∷ c.consumed_routes) c.sell_wallet_debited

consume_route-Extending :
    {H : Type 0} (g : Group) (b : EventBase) (fits_route : Receipt CustodyRewardsRoutedEvent → Bool)
    → Extending H (consume_route g b fits_route)
unfolding consume_route
consume_route-Extending {H} g b fits_route = record {
  apply = λ c. Ends-consume H b (open_routes g c.consumed_routes fits_route) c;
}

pub on_lp_reward_index_advanced-Extending :
    (g : Group) (b : EventBase) (e : LpRewardIndexAdvancedEvent)
    → Extending (Unit {0}) (on_lp_reward_index_advanced g b e)
unfolding on_lp_reward_index_advanced
on_lp_reward_index_advanced-Extending g b e = with_epoch-Extending b e.epoch _ λ epoch.
    ▹-Extending (▹-Extending (consume_route-Extending g b _) (check-Extending _ b _)) (
      unless-Extending _ b _ (
        needing-Extending _ _ λ r _. needing-Extending (advance_epoch e epoch) _ λ advanced h.
          needing-Extending _ _ λ rounding _. ▹-Extending (check-Extending _ b _) (
            write-Extending (record advanced { rounding_reserve = rounding })
              (advance_epoch-IsBalanced e epoch h))))

pub on_lp_reward_quarantined-Extending :
    (g : Group) (b : EventBase) (e : LpRewardQuarantinedEvent)
    → Extending (Unit {0}) (on_lp_reward_quarantined g b e)
unfolding on_lp_reward_quarantined
on_lp_reward_quarantined-Extending g b e = with_epoch-Extending b e.epoch _ λ epoch.
    ▹-Extending
      (▹-Extending (▹-Extending (consume_route-Extending g b _) (check-Extending _ b _))
        (check-Extending _ b _))
      (needing-Extending (quarantine e epoch) _ λ held h. needing-Extending _ _ λ rounding _.
        write-Extending (record held { rounding_reserve = rounding })
          (quarantine-IsBalanced e epoch h))

retire_residue-Extending :
    (b : EventBase) (e : LpFractionalResidueRetiredEvent) (epoch : IndexedLpEpoch)
    (q : IndexedLpPosition)
    → lookup e.owner epoch.positions ≡ some q
    → Extending (IsBalanced epoch) (retire_residue b e epoch q)
unfolding retire_residue
retire_residue-Extending b e epoch q found = needing-Extending _ _ λ residue _.
    needing-Extending _ _ λ cumulative _. unless-Extending _ b _ (
      needing-Extending (retire e.owner q residue cumulative epoch) _ λ retired h.
        needing-Extending _ _ λ rounding _. ▹-Extending (check-Extending _ b _) (
          write-Extending (record retired { rounding_reserve = rounding })
            (retire-IsBalanced e.owner epoch q residue cumulative found h)))

residue_of-Extending :
    (g : Group) (b : EventBase) (e : LpFractionalResidueRetiredEvent) (epoch : IndexedLpEpoch)
    (o : Option IndexedLpPosition)
    → lookup e.owner epoch.positions ≡ o
    → Extending (IsBalanced epoch) (residue_of g b e epoch o)
unfolding residue_of
residue_of-Extending g b e epoch none found = alert-Extending b AlertCode.lp_accounting
residue_of-Extending g b e epoch (some q) found =
    unless-Extending _ b _ (retire_residue-Extending b e epoch q found)

pub on_lp_fractional_residue_retired-Extending :
    (g : Group) (b : EventBase) (e : LpFractionalResidueRetiredEvent)
    → Extending (Unit {0}) (on_lp_fractional_residue_retired g b e)
unfolding on_lp_fractional_residue_retired
on_lp_fractional_residue_retired-Extending g b e =
    with_epoch-Extending b e.epoch _
      λ epoch. residue_of-Extending g b e epoch (lookup e.owner epoch.positions) refl

pub on_lp_epoch_terminal_dust_classified-Extending :
    (b : EventBase) (e : LpEpochTerminalDustClassifiedEvent)
    → Extending (Unit {0}) (on_lp_epoch_terminal_dust_classified b e)
unfolding on_lp_epoch_terminal_dust_classified
on_lp_epoch_terminal_dust_classified-Extending b e = with_epoch-Extending b e.epoch _ λ epoch.
    needing-Extending _ _ λ balance _. needing-Extending _ _ λ liability _.
      ▹-Extending (check-Extending _ b _) (
        write-Extending
          (record epoch { terminal_rounding_base_units = some epoch.rounding_reserve }) (λ k. k))
