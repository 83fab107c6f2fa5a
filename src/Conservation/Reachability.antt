-- ===== src/Conservation/Reachability.antt =====
-- The projections that a replay from `createEmptyProjection` (packages/indexer/src/reducer.ts) can
-- come to, whatever the transactions.
use cedra_reflect.Base.{List, [], ap, some, ◌∙◌, ◌∷◌, ◌≡◌}
use cedra_reflect.Int.{int_laws, ℤ, ◌+ℤ◌}
use cedra_reflect.Accounting.{sum_lp_shares, sum_wallet_shares}
use cedra_reflect.Conservation.Balance.{
  IsBalanced, IsConserved, sum_lp_shares-eq-total, sum_wallet_shares-eq-total,
}
use cedra_reflect.Conservation.Transactions.{reduce_event_group-IsConserved}
use cedra_reflect.Dict.{Dict, Values}
use cedra_reflect.Reducer.Empty.{create_empty_projection}
use cedra_reflect.Reducer.Reduce.{ReduceResult, reduce_event_group}
use cedra_reflect.Types.Event.{ProtocolEvent}
use cedra_reflect.Types.State.{IndexedLpEpoch, ProtocolProjection}

-- A projection that some sequence of transactions leads to, from the empty one.
pub data Reachable : ProtocolProjection → Type 0 where
  initial : Reachable create_empty_projection
  reduced :
      (prior : ProtocolProjection) (events : List ProtocolEvent) (r : ReduceResult)
      → Reachable prior
      → reduce_event_group prior events ≡ some r
      → Reachable r.projection

Reachable-IsConserved : {p : ProtocolProjection} → Reachable p → IsConserved p
Reachable-IsConserved initial = (omega int_laws, omega int_laws, tt)
Reachable-IsConserved (reduced prior events r h e) =
    reduce_event_group-IsConserved prior events r e (Reachable-IsConserved h)

-- An epoch whose totals agree with its positions, as the audit sums them.
abbrev pub Agrees : IndexedLpEpoch → Type 0
Agrees e = sum_lp_shares e.positions ≡ e.total_shares

Values-Agrees : (d : Dict ℤ IndexedLpEpoch) → Values IsBalanced d → Values Agrees d
Values-Agrees [] h = tt
Values-Agrees ((_, e) ∷ d) (balanced, rest) =
    (sum_lp_shares-eq-total e.positions ∙ balanced.0, Values-Agrees d rest)

-- In every projection that the replay reaches from the empty one, through any transactions at all,
-- the sum of the wallet shares and the custody shares, as the audit computes it, is the eligible
-- supply, and so is, in every LP epoch, the sum of its owners' shares the epoch's total.
pub Reachable-Agrees :
    (p : ProtocolProjection)
    → Reachable p
    → (sum_wallet_shares p.positions +ℤ p.custody.shares ≡ p.eligible_supply)
      × Values Agrees p.lp_epochs
Reachable-Agrees p h =
    let k = Reachable-IsConserved h in
    (
      ap (λ t. t +ℤ p.custody.shares) (sum_wallet_shares-eq-total p.positions) ∙ k.0,
      Values-Agrees p.lp_epochs k.2,
    )
