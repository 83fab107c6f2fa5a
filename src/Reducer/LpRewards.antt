-- ===== src/Reducer/LpRewards.antt =====
-- LP rewards in packages/indexer/src/reducer.ts: the reward index, quarantine, the retirement of
-- fractional residue and the classification of terminal dust.
-- What the vault holds beyond the liability and the unallocated rewards.
use cedra_reflect.Base.{
  Bool, List, Option, String, [], any, find, get_or, if◌then◌else◌, is_none, is_value, none, not,
  require, some, string_eq, true, ◌&&◌, ◌-◌, ◌==◌, ◌>>=◌, ◌>>◌, ◌^◌, ◌||◌, ◌∷◌,
}
use cedra_reflect.Int.{leb_ℤ, ltb_ℤ, pos, ℤ, ℤ_eq, ◌+ℤ◌}
use cedra_reflect.Accounting.{expected_lp_vault_balance, lp_indexed_liability, reflection_magnitude}
use cedra_reflect.Dict.{insert, lookup}
use cedra_reflect.Domains.Checked.{
  checked_add, checked_multiply, checked_subtract, signed_add_unsigned, signed_subtract_unsigned,
}
use cedra_reflect.Reducer.Arith.{checked_vault_remainder}
use cedra_reflect.Reducer.Core.{advance_index}
use cedra_reflect.Reducer.Group.{Group, Receipt, is_claim_only}
use cedra_reflect.Reducer.Monad.{
  Action, alert, check, done, modify, needing, set_epoch, unless, with_epoch, ◌▹◌,
}
use cedra_reflect.Types.Common.{Address, AlertCode, EventBase}
use cedra_reflect.Types.Core.{CustodyRewardsRoutedEvent}
use cedra_reflect.Types.Event.{Payload, ProtocolEvent, lp_shares_changed, lp_shares_transferred}
use cedra_reflect.Types.Lp.{
  LpEpochTerminalDustClassifiedEvent, LpFractionalResidueRetiredEvent, LpRewardIndexAdvancedEvent,
  LpRewardQuarantinedEvent,
}
use cedra_reflect.Types.State.{IndexedLpEpoch, IndexedLpPosition}

unfoldable pub lp_rounding : IndexedLpEpoch → Option ℤ
lp_rounding epoch = do
  balance ← expected_lp_vault_balance epoch
  liability ← lp_indexed_liability epoch
  checked_vault_remainder balance liability epoch.unallocated_rewards

-- The first route that no earlier receipt consumed and that fits.
abbrev pub open_routes :
    Group
    → List String
    → (Receipt CustodyRewardsRoutedEvent → Bool)
    → Option (Receipt CustodyRewardsRoutedEvent)
open_routes g consumed fits_route =
    find (λ r. not (any (λ id. id == r.id) consumed) && fits_route r) g.routes

abbrev pub consume : EventBase → Option (Receipt CustodyRewardsRoutedEvent) → Action
consume b none c = alert b AlertCode.route_pair c
consume b (some r) c = done (record c { consumed_routes = r.id ∷ c.consumed_routes })

unfoldable pub consume_route :
    Group → EventBase → (Receipt CustodyRewardsRoutedEvent → Bool) → Action
consume_route g b fits_route c = consume b (open_routes g c.consumed_routes fits_route) c

unfoldable pub advance_epoch : LpRewardIndexAdvancedEvent → IndexedLpEpoch → Option IndexedLpEpoch
advance_epoch e epoch = checked_add epoch.lifetime_received e.received >>= λ received.
    some (record epoch {
      index = e.new_index;
      index_remainder = e.index_remainder;
      lifetime_received = received;
    })

abbrev pub disagrees_with_epoch : LpRewardIndexAdvancedEvent → IndexedLpEpoch → ℤ × ℤ → ℤ → Bool
disagrees_with_epoch e epoch r rounding =
    not (e.previous_index == epoch.index)
    || not (e.new_index == r.0)
    || not (e.index_remainder == r.1)
    || not (e.total_shares == epoch.total_shares)
    || not (e.rounding_reserve == rounding)

unfoldable pub on_lp_reward_index_advanced : Group → EventBase → LpRewardIndexAdvancedEvent → Action
unfolding advance_index advance_epoch lp_rounding consume_route
on_lp_reward_index_advanced g b e = with_epoch b e.epoch λ epoch.
    consume_route g b (λ r.
      r.body.epoch == e.epoch
      && r.body.amount == e.received
      && r.body.lp_reward_vault == epoch.reward_vault
      && ltb_ℤ r.event_index b.event_index)
    ▹ check (λ p. not (is_value p.active_lp_epoch e.epoch)) b AlertCode.old_epoch_route
    ▹ unless (λ _. leb_ℤ epoch.total_shares (pos 0)) b AlertCode.lp_accounting
        (needing (advance_index e.received epoch.index epoch.index_remainder epoch.total_shares)
          λ r. needing (advance_epoch e epoch) λ advanced.
            needing (lp_rounding advanced) λ rounding.
              check (λ _. disagrees_with_epoch e epoch r rounding) b AlertCode.lp_accounting
              ▹ modify (set_epoch (record advanced { rounding_reserve = rounding })))

unfoldable pub quarantine : LpRewardQuarantinedEvent → IndexedLpEpoch → Option IndexedLpEpoch
quarantine e epoch = checked_add epoch.lifetime_received e.amount >>= λ received.
    some (record epoch {
      lifetime_received = received;
      unallocated_rewards = epoch.unallocated_rewards +ℤ e.amount;
      quarantined = true;
    })

unfoldable pub on_lp_reward_quarantined : Group → EventBase → LpRewardQuarantinedEvent → Action
unfolding quarantine lp_rounding consume_route
on_lp_reward_quarantined g b e = with_epoch b e.epoch λ epoch.
    consume_route g b (λ r.
      r.body.epoch == e.epoch
      && r.body.amount == e.amount
      && r.body.lp_reward_vault == e.reward_vault
      && ltb_ℤ r.event_index b.event_index)
    ▹ check
        (λ p.
          not (is_value p.active_lp_epoch e.epoch)
          || is_claim_only epoch.status
          || not (epoch.total_shares == pos 0)
          || not (epoch.reward_vault == e.reward_vault))
        b AlertCode.lp_accounting
    ▹ check (λ _. not (epoch.unallocated_rewards +ℤ e.amount == e.unallocated_rewards)) b
        AlertCode.lp_accounting
    ▹ needing (quarantine e epoch) λ held.
      needing (lp_rounding held)
        λ rounding. modify (set_epoch (record held { rounding_reserve = rounding }))

-- A burn to zero or a transfer by the owner, after the residue event; with its amount.
abbrev pub exit_amount : LpFractionalResidueRetiredEvent → Payload → Option ℤ
exit_amount e (lp_shares_changed x) =
    if not x.added && x.epoch == e.epoch && x.owner == e.owner && x.owner_shares == pos 0
    then some x.amount
    else none
exit_amount e (lp_shares_transferred x) =
    if x.epoch == e.epoch && x.sender == e.owner then some x.amount else none
exit_amount e _ = none

abbrev pub first_exit : EventBase → LpFractionalResidueRetiredEvent → List ProtocolEvent → ℤ
first_exit b e [] = pos 0
first_exit b e (x ∷ xs) =
    let later = first_exit b e xs in
    if ltb_ℤ b.event_index x.event_index then get_or (exit_amount e x.payload) later else later

abbrev pub is_malformed_residue : LpFractionalResidueRetiredEvent → IndexedLpPosition → ℤ → Bool
is_malformed_residue e current exit =
    leb_ℤ e.epoch (pos 0)
    || ltb_ℤ (pos (2 ^ 64 - 1)) e.epoch
    || leb_ℤ e.residue_magnified (pos 0)
    || ltb_ℤ (pos (2 ^ 256 - 1)) e.residue_magnified
    || ltb_ℤ (pos (2 ^ 256 - 1)) e.cumulative_retired_residue_magnified
    || ltb_ℤ (pos (2 ^ 128 - 1)) e.rounding_reserve_base_units
    || leb_ℤ current.shares (pos 0)
    || not (exit == current.shares)

-- The correction that a complete exit would leave, less the whole units already claimed.
unfoldable pub exit_residue : IndexedLpEpoch → IndexedLpPosition → Option ℤ
exit_residue epoch current = do
  change ← checked_multiply current.shares epoch.index
  after_exit ← signed_add_unsigned current.correction change
  require (leb_ℤ (pos 0) after_exit) after_exit
  claim ← checked_multiply current.claimed reflection_magnitude
  checked_subtract after_exit claim

unfoldable pub retire : Address → IndexedLpPosition → ℤ → ℤ → IndexedLpEpoch → Option IndexedLpEpoch
retire owner current residue cumulative epoch = do
  correction ← signed_subtract_unsigned current.correction residue
  aggregate ← signed_subtract_unsigned epoch.aggregate_correction residue
  some (record epoch {
    aggregate_correction = aggregate;
    retired_residue_magnified = cumulative;
    positions = insert owner (record current { correction = correction }) epoch.positions;
  })

abbrev pub disagrees_with_residue : LpFractionalResidueRetiredEvent → ℤ → ℤ → Bool
disagrees_with_residue e residue cumulative =
    leb_ℤ residue (pos 0)
    || leb_ℤ reflection_magnitude residue
    || ltb_ℤ (pos (2 ^ 256 - 1)) cumulative
    || not (e.residue_magnified == residue)
    || not (e.cumulative_retired_residue_magnified == cumulative)

unfoldable pub retire_residue :
    EventBase → LpFractionalResidueRetiredEvent → IndexedLpEpoch → IndexedLpPosition → Action
unfolding exit_residue retire lp_rounding
retire_residue b e epoch current = needing (exit_residue epoch current) λ residue.
    needing (checked_add epoch.retired_residue_magnified residue) λ cumulative.
      unless (λ _. disagrees_with_residue e residue cumulative) b AlertCode.lp_accounting
        (needing (retire e.owner current residue cumulative epoch) λ retired.
          needing (lp_rounding retired) λ rounding.
            check
              (λ _.
                ltb_ℤ rounding (pos 0)
                || ltb_ℤ (pos (2 ^ 128 - 1)) rounding
                || not (e.rounding_reserve_base_units == rounding))
              b AlertCode.lp_vault_backing
            ▹ modify (set_epoch (record retired { rounding_reserve = rounding })))

-- Only an owner with a position can retire residue.
unfoldable pub residue_of :
    Group
    → EventBase
    → LpFractionalResidueRetiredEvent
    → IndexedLpEpoch
    → Option IndexedLpPosition
    → Action
unfolding retire_residue
residue_of g b e epoch none = alert b AlertCode.lp_accounting
residue_of g b e epoch (some current) =
    unless (λ _. is_malformed_residue e current (first_exit b e g.events)) b AlertCode.lp_accounting
      (retire_residue b e epoch current)

unfoldable pub on_lp_fractional_residue_retired :
    Group → EventBase → LpFractionalResidueRetiredEvent → Action
unfolding residue_of
on_lp_fractional_residue_retired g b e =
    with_epoch b e.epoch λ epoch. residue_of g b e epoch (lookup e.owner epoch.positions)

abbrev pub is_unfit_dust : LpEpochTerminalDustClassifiedEvent → IndexedLpEpoch → ℤ → ℤ → Bool
is_unfit_dust e epoch balance liability =
    leb_ℤ e.epoch (pos 0)
    || ltb_ℤ (pos (2 ^ 64 - 1)) e.epoch
    || ltb_ℤ (pos (2 ^ 128 - 1)) e.terminal_rounding_base_units
    || ltb_ℤ (pos (2 ^ 256 - 1)) e.retired_residue_magnified
    || ltb_ℤ (pos (2 ^ 256 - 1)) e.lifetime_received_base_units
    || ltb_ℤ (pos (2 ^ 256 - 1)) e.lifetime_claimed_base_units
    || not (is_claim_only epoch.status)
    || not (is_none epoch.terminal_rounding_base_units)
    || not (epoch.reward_vault == e.reward_vault)
    || not (epoch.total_shares == pos 0)
    || epoch.quarantined
    || not (epoch.unallocated_rewards == pos 0)
    || not (liability == pos 0)
    || not (balance == epoch.rounding_reserve)
    || not (e.terminal_rounding_base_units == epoch.rounding_reserve)
    || not (e.retired_residue_magnified == epoch.retired_residue_magnified)
    || not (e.lifetime_received_base_units == epoch.lifetime_received)
    || not (e.lifetime_claimed_base_units == epoch.lifetime_claimed)

unfoldable pub on_lp_epoch_terminal_dust_classified :
    EventBase → LpEpochTerminalDustClassifiedEvent → Action
on_lp_epoch_terminal_dust_classified b e = with_epoch b e.epoch λ epoch.
    needing (expected_lp_vault_balance epoch) λ balance.
      needing (lp_indexed_liability epoch) λ liability.
        check (λ _. is_unfit_dust e epoch balance liability) b AlertCode.lp_accounting
        ▹ modify (
            set_epoch (record epoch { terminal_rounding_base_units = some epoch.rounding_reserve }))
