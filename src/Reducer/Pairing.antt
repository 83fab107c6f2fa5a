-- ===== src/Reducer/Pairing.antt =====
-- The receipts of one transaction that must pair up, before anything is replayed, in
-- packages/indexer/src/reducer.ts.
use cedra_reflect.Base.{
  Bool, List, Option, [], any, false, if◌then◌else◌, is_empty, keep, length, ltb, nat_beq, none,
  not, some, string_eq, ℕ, ◌&&◌, ◌++◌, ◌+◌, ◌==◌, ◌||◌, ◌∷◌,
}
use cedra_reflect.Int.{leb_ℤ, ltb_ℤ, pos, ℤ, ℤ_eq}
use cedra_reflect.Reducer.Core.{is_sell}
use cedra_reflect.Reducer.Group.{
  Group, Receipt, as_adapter, as_advance, as_claim, as_custody_change, as_materialized, as_opening,
  as_quarantine, as_registration, as_residue, as_route_opening, as_share_change, as_share_transfer,
  as_transfer, select,
}
use cedra_reflect.Reducer.Pool.{is_removed}
use cedra_reflect.Reducer.Screen.{flag}
use cedra_reflect.Types.Common.{Address, AlertCode, CriticalAlert}
use cedra_reflect.Types.Core.{
  CustodySharesChangedEvent, RewardsClaimedEvent, RewardsMaterializedEvent, SwapExecutedEvent,
}
use cedra_reflect.Types.Event.{
  Payload, ProtocolEvent, eligible_balance_credited, eligible_balance_debited, faucet_grant,
  liquidity, lp_fractional_residue_retired, lp_rewards_claimed, lp_shares_changed,
  lp_shares_transferred, position_created, rewards_claimed, rewards_materialized, swap_executed,
  wallet_transfer,
}
use cedra_reflect.Types.Lp.{LiquidityEvent}

unfoldable pub account_state_subjects : Payload → List Address
account_state_subjects (position_created e) = e.account ∷ []
account_state_subjects (eligible_balance_debited e) = e.account ∷ []
account_state_subjects (eligible_balance_credited e) = e.account ∷ []
account_state_subjects (rewards_materialized e) = e.account ∷ []
account_state_subjects (rewards_claimed e) = e.account ∷ []
account_state_subjects (swap_executed e) = e.account ∷ []
account_state_subjects (faucet_grant e) = e.account ∷ []
account_state_subjects (wallet_transfer e) = e.from ∷ e.to ∷ []
account_state_subjects (liquidity e) = e.provider ∷ []
account_state_subjects (lp_shares_changed e) = e.owner ∷ []
account_state_subjects (lp_rewards_claimed e) = e.owner ∷ []
account_state_subjects (lp_fractional_residue_retired e) = e.owner ∷ []
account_state_subjects (lp_shares_transferred e) = e.sender ∷ e.recipient ∷ []
account_state_subjects _ = []

-- An alert for each receipt that fails a test.
abbrev pub flag_each :
    {A : Type 0} → (Receipt A → Bool) → AlertCode → List (Receipt A) → List CriticalAlert
flag_each test code [] = []
flag_each test code (r ∷ rs) = flag (test r) r.base code ++ flag_each test code rs

abbrev pub count {ℓ} : {A : Type ℓ} → (A → Bool) → List A → ℕ
count test xs = length (keep test xs)

unfoldable pub check_registrations : List ProtocolEvent → List CriticalAlert
unfolding account_state_subjects
check_registrations events =
    flag_each
      (λ r.
        any
          (λ c.
            not (c.id == r.id)
            && any (λ a. a == r.body.account) (account_state_subjects c.payload)
            && leb_ℤ c.event_index r.event_index)
          events)
      AlertCode.wallet_registration (select as_registration events)

-- What custody must receive or give, by the pool's receipt.
unfoldable pub expected_custody : Group → Option (Bool × ℤ)
expected_custody g = of_swaps g.swaps
  where
    of_liquidity : List (Receipt LiquidityEvent) → Option (Bool × ℤ)
    of_liquidity (r ∷ []) =
        if ltb_ℤ (pos 0) r.body.trfl_amount
        then some (not (is_removed r.body.kind), r.body.trfl_amount)
        else none
    of_liquidity _ = none

    of_swaps : List (Receipt SwapExecutedEvent) → Option (Bool × ℤ)
    of_swaps (s ∷ []) = some (
      is_sell s.body.direction,
      if is_sell s.body.direction then s.body.net_reserve_input else s.body.gross_pool_output,
    )
    of_swaps _ = of_liquidity g.liquidity_receipts

unfoldable pub matches_custody : Bool × ℤ → List (Receipt CustodySharesChangedEvent) → Bool
matches_custody (adds, amount) (c ∷ []) =
    (if adds then c.body.added else not c.body.added) && c.body.amount == amount
matches_custody _ _ = false

unfoldable pub check_custody : Group → List CriticalAlert
unfolding expected_custody matches_custody
check_custody g =
    let changes = select as_custody_change g.events in
    elim (expected_custody g) [
      | none ↦ flag (not (is_empty changes)) g.first AlertCode.transaction_group
      | some expected ↦
          flag (not (matches_custody expected changes)) g.first (
            if ltb 1 (length changes) then AlertCode.double_counting else AlertCode.reserve_custody)
    ]

unfoldable pub check_pool_receipts : Group → List CriticalAlert
check_pool_receipts g =
    flag (ltb 1 (length g.swaps) || ltb 1 (length g.liquidity_receipts)) g.first
      AlertCode.transaction_group
    ++ flag
        (ltb 0 (length g.swaps + length g.liquidity_receipts)
          && (not (is_empty g.debits)
              || not (is_empty g.credits)
              || not (is_empty (select as_transfer g.events))))
        g.first AlertCode.double_counting

unfoldable pub check_routes : Group → List CriticalAlert
check_routes g =
    flag
      (not (
        nat_beq (length g.routes)
          (length (select as_advance g.events) + length (select as_quarantine g.events))))
      g.first AlertCode.route_pair

unfoldable pub check_openings : Group → List CriticalAlert
check_openings g =
    flag_each
      (λ o. not (
        nat_beq
          (if is_empty g.prior.lp_epochs
            then count
                (λ c.
                  c.body.first_epoch == o.body.epoch
                  && c.body.lp_reward_vault == o.body.reward_vault)
                (select as_adapter g.events)
            else count
                (λ c. c.body.epoch == o.body.epoch && c.body.lp_reward_vault == o.body.reward_vault)
                (select as_route_opening g.events))
          1))
      AlertCode.route_pair (select as_opening g.events)
    ++ flag_each
        (λ r. not (
          any (λ o. o.body.epoch == r.body.epoch && o.body.reward_vault == r.body.lp_reward_vault)
            (select as_opening g.events)))
        AlertCode.route_pair (select as_route_opening g.events)

unfoldable pub check_terminals : Group → List CriticalAlert
check_terminals g =
    flag_each
      (λ t. not (
        nat_beq
          (count (λ c. c.body.epoch == t.body.epoch && ltb_ℤ t.event_index c.event_index)
            g.classifications)
          1))
      AlertCode.lp_accounting g.terminals
    ++ flag_each
        (λ c. not (
          nat_beq
            (count (λ t. t.body.epoch == c.body.epoch && ltb_ℤ t.event_index c.event_index)
              g.terminals)
            1))
        AlertCode.lp_accounting g.classifications

unfoldable pub check_residues : Group → List CriticalAlert
check_residues g =
    flag_each
      (λ r. not (
        nat_beq
          (count
              (λ c.
                not c.body.added
                && c.body.epoch == r.body.epoch
                && c.body.owner == r.body.owner
                && c.body.owner_shares == pos 0
                && ltb_ℤ r.event_index c.event_index)
              (select as_share_change g.events)
            + count
                (λ c.
                  c.body.epoch == r.body.epoch
                  && c.body.sender == r.body.owner
                  && ltb_ℤ r.event_index c.event_index)
                (select as_share_transfer g.events))
          1))
      AlertCode.lp_accounting (select as_residue g.events)

abbrev pub is_paired : Receipt RewardsClaimedEvent → List (Receipt RewardsMaterializedEvent) → Bool
is_paired c (m ∷ []) = c.body.total_claimed == m.body.total_claimed
is_paired c _ = false

unfoldable pub check_claims : Group → List CriticalAlert
check_claims g =
    flag_each
      (λ c. not (
        is_paired c (
          keep (λ m. m.body.account == c.body.account && m.body.amount == c.body.amount)
            (select as_materialized g.events))))
      AlertCode.double_counting (select as_claim g.events)
