-- ===== src/Reducer/Group.antt =====
-- One transaction's events in packages/indexer/src/reducer.ts, and its `events.filter(…)` by type.
use cedra_reflect.Base.{
  Bool, List, Option, String, [], false, if◌then◌else◌, nat_beq, none, some, true, ◌&&◌, ◌∷◌,
}
use cedra_reflect.Types.Common.{EventBase, LpEpochStatus}
use cedra_reflect.Types.Core.{
  CustodyAdapterRegisteredEvent, CustodyEpochRouteOpenedEvent, CustodyRewardsRoutedEvent,
  CustodySharesChangedEvent, EligibleBalanceCreditedEvent, EligibleBalanceDebitedEvent,
  RewardsClaimedEvent, RewardsMaterializedEvent, SwapExecutedEvent,
}
use cedra_reflect.Types.Event.{
  Payload, ProtocolEvent, custody_adapter_registered, custody_epoch_route_opened,
  custody_rewards_routed, custody_shares_changed, eligible_balance_credited,
  eligible_balance_debited, liquidity, lp_epoch_opened, lp_epoch_status_changed,
  lp_epoch_terminal_dust_classified, lp_fractional_residue_retired, lp_reward_index_advanced,
  lp_reward_quarantined, lp_shares_changed, lp_shares_transferred, rewards_claimed,
  rewards_materialized, swap_executed, wallet_registered, wallet_transfer,
}
use cedra_reflect.Types.Lp.{
  LiquidityEvent, LpEpochOpenedEvent, LpEpochStatusChangedEvent, LpEpochTerminalDustClassifiedEvent,
  LpFractionalResidueRetiredEvent, LpRewardIndexAdvancedEvent, LpRewardQuarantinedEvent,
  LpSharesChangedEvent, LpSharesTransferredEvent,
}
use cedra_reflect.Types.Setup.{WalletRegisteredEvent, WalletTransferEvent}
use cedra_reflect.Types.State.{ProtocolProjection}
use Prim.Native.Char.{code}

abbrev pub is_zero_digits : String → Bool
is_zero_digits String.[] = true
is_zero_digits (String.◌∷◌ c s) = nat_beq (code c) b'0' && is_zero_digits s

-- `/^0x0+$/.test(address)`
abbrev pub is_zero_address : String → Bool
is_zero_address (String.◌∷◌ a (String.◌∷◌ b (String.◌∷◌ c s))) =
    nat_beq (code a) b'0' && nat_beq (code b) b'x' && nat_beq (code c) b'0' && is_zero_digits s
is_zero_address _ = false

-- An event whose type is known.
pub record Receipt (A : Type 0) : Type 0 where
  pub base : EventBase
  pub open base use *
  pub body : A

abbrev pub received : {A : Type 0} → EventBase → Option A → List (Receipt A) → List (Receipt A)
received b none rest = rest
received b (some a) rest = record { base = b; body = a } ∷ rest

abbrev pub select : {A : Type 0} → (Payload → Option A) → List ProtocolEvent → List (Receipt A)
select f [] = []
select f (e ∷ es) = received e.base (f e.payload) (select f es)

abbrev pub as_swap : Payload → Option SwapExecutedEvent
as_swap (swap_executed e) = some e
as_swap _ = none

abbrev pub as_liquidity : Payload → Option LiquidityEvent
as_liquidity (liquidity e) = some e
as_liquidity _ = none

abbrev pub as_custody_change : Payload → Option CustodySharesChangedEvent
as_custody_change (custody_shares_changed e) = some e
as_custody_change _ = none

abbrev pub as_route : Payload → Option CustodyRewardsRoutedEvent
as_route (custody_rewards_routed e) = some e
as_route _ = none

abbrev pub as_advance : Payload → Option LpRewardIndexAdvancedEvent
as_advance (lp_reward_index_advanced e) = some e
as_advance _ = none

abbrev pub as_quarantine : Payload → Option LpRewardQuarantinedEvent
as_quarantine (lp_reward_quarantined e) = some e
as_quarantine _ = none

abbrev pub as_residue : Payload → Option LpFractionalResidueRetiredEvent
as_residue (lp_fractional_residue_retired e) = some e
as_residue _ = none

abbrev pub as_classification : Payload → Option LpEpochTerminalDustClassifiedEvent
as_classification (lp_epoch_terminal_dust_classified e) = some e
as_classification _ = none

abbrev pub is_claim_only : LpEpochStatus → Bool
is_claim_only LpEpochStatus.claim_only = true
is_claim_only LpEpochStatus.active = false

abbrev pub as_terminal : Payload → Option LpEpochStatusChangedEvent
as_terminal (lp_epoch_status_changed e) = if is_claim_only e.new_status then some e else none
as_terminal _ = none

abbrev pub as_opening : Payload → Option LpEpochOpenedEvent
as_opening (lp_epoch_opened e) = some e
as_opening _ = none

abbrev pub as_adapter : Payload → Option CustodyAdapterRegisteredEvent
as_adapter (custody_adapter_registered e) = some e
as_adapter _ = none

abbrev pub as_route_opening : Payload → Option CustodyEpochRouteOpenedEvent
as_route_opening (custody_epoch_route_opened e) = some e
as_route_opening _ = none

abbrev pub as_debit : Payload → Option EligibleBalanceDebitedEvent
as_debit (eligible_balance_debited e) = some e
as_debit _ = none

abbrev pub as_credit : Payload → Option EligibleBalanceCreditedEvent
as_credit (eligible_balance_credited e) = some e
as_credit _ = none

abbrev pub as_transfer : Payload → Option WalletTransferEvent
as_transfer (wallet_transfer e) = some e
as_transfer _ = none

abbrev pub as_materialized : Payload → Option RewardsMaterializedEvent
as_materialized (rewards_materialized e) = some e
as_materialized _ = none

abbrev pub as_claim : Payload → Option RewardsClaimedEvent
as_claim (rewards_claimed e) = some e
as_claim _ = none

abbrev pub as_registration : Payload → Option WalletRegisteredEvent
as_registration (wallet_registered e) = some e
as_registration _ = none

abbrev pub as_share_change : Payload → Option LpSharesChangedEvent
as_share_change (lp_shares_changed e) = some e
as_share_change _ = none

abbrev pub as_share_transfer : Payload → Option LpSharesTransferredEvent
as_share_transfer (lp_shares_transferred e) = some e
as_share_transfer _ = none

-- The transaction under replay, and the state before it.
pub record Group : Type 0 where
  pub prior : ProtocolProjection
  pub first : EventBase
  pub events : List ProtocolEvent
  pub swaps : List (Receipt SwapExecutedEvent)
  pub liquidity_receipts : List (Receipt LiquidityEvent)
  pub routes : List (Receipt CustodyRewardsRoutedEvent)
  pub debits : List (Receipt EligibleBalanceDebitedEvent)
  pub credits : List (Receipt EligibleBalanceCreditedEvent)
  pub terminals : List (Receipt LpEpochStatusChangedEvent)
  pub classifications : List (Receipt LpEpochTerminalDustClassifiedEvent)

abbrev pub group_of : ProtocolProjection → EventBase → List ProtocolEvent → Group
group_of prior first events = record {
  prior = prior;
  first = first;
  events = events;
  swaps = select as_swap events;
  liquidity_receipts = select as_liquidity events;
  routes = select as_route events;
  debits = select as_debit events;
  credits = select as_credit events;
  terminals = select as_terminal events;
  classifications = select as_classification events;
}
