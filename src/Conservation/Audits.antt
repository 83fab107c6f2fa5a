-- ===== src/Conservation/Audits.antt =====
-- On the checks after the events (packages/indexer/src/reducer.ts), as changes of the context.
use cedra_reflect.Base.{
  >>=-eq-some, List, [], any, eq_of_some, refl, some, string_eq, subst, ◌==◌, ◌∷◌, ◌≡◌,
}
use cedra_reflect.Int.{pos, ℤ, ℤ_eq, ◌+ℤ◌}
use cedra_reflect.Conservation.Events.{apply_events-Extending}
use cedra_reflect.Conservation.Rules.{
  Extending, Extends-refl, Mild, alert-Extending, check-Extending, check_checked-Extending,
  if-Extending, modify-Extending, needing-Extending, skip-Extending, throw_if-Extending,
  update-Extending, ▹-Extending,
}
use cedra_reflect.Dict.{Dict}
use cedra_reflect.Domains.Checked.{checked_add, signed_add}
use cedra_reflect.Reducer.Audit.{
  audit, audit_core, audit_epoch, audit_epochs, check_paired_shares, check_positions,
  check_unconsumed, core_rounding, set_core_rounding, settle_fees, settle_pending, tally_owners,
}
use cedra_reflect.Reducer.Group.{Group, Receipt}
use cedra_reflect.Reducer.Monad.{Action, PendingCoreFee}
use cedra_reflect.Reducer.Reduce.{replay_group}
use cedra_reflect.Types.Common.{Address, AlertCode, EventBase}
use cedra_reflect.Types.Core.{CustodyRewardsRoutedEvent}
use cedra_reflect.Types.Lp.{LiquidityEvent}
use cedra_reflect.Types.State.{
  IndexedLpEpoch, IndexedLpPosition, IndexedPosition, ProtocolProjection,
}

module _ {H : Type 0} where
  settle_fees-Extending : (fees : List PendingCoreFee) → Extending H (settle_fees fees)
  unfolding settle_fees
  settle_fees-Extending [] = record { apply = λ c. Extends-refl c }
  settle_fees-Extending (fee ∷ fees) =
      let settled =
        if-Extending {H = H} (fee.shares_at_collection == pos 0)
          (▹-Extending
            (modify-Extending
              (λ p. record p { unallocated_fees = p.unallocated_fees +ℤ fee.fee_amount })
              λ p. (λ _ k. k, refl, refl))
            (settle_fees-Extending fees))
          (▹-Extending (alert-Extending fee.base AlertCode.transaction_group)
            (settle_fees-Extending fees)) in
      record { apply = λ c. settled.apply c }

  settle_pending-Extending : Extending H settle_pending
  settle_pending-Extending = record {
    apply = λ c. (settle_fees-Extending c.pending_core_fees).apply c;
  }

  check_unconsumed-Extending :
      (routes : List (Receipt CustodyRewardsRoutedEvent)) → Extending H (check_unconsumed routes)
  unfolding check_unconsumed
  check_unconsumed-Extending [] = record { apply = λ c. Extends-refl c }
  check_unconsumed-Extending (r ∷ rs) = record {
    apply = λ c.
        (▹-Extending
            (if-Extending (any (λ id. id == r.id) c.consumed_routes) skip-Extending
              (alert-Extending r.base AlertCode.route_pair))
            (check_unconsumed-Extending rs)).apply
          c;
  }

  check_paired_shares-Extending :
      (g : Group) (rs : List (Receipt LiquidityEvent)) → Extending H (check_paired_shares g rs)
  check_paired_shares-Extending g [] = skip-Extending
  check_paired_shares-Extending g (r ∷ []) = check-Extending _ r.base _
  check_paired_shares-Extending g (_ ∷ _ ∷ _) = skip-Extending

  check_positions-Extending :
      (b : EventBase) (d : Dict Address IndexedPosition) → Extending H (check_positions b d)
  unfolding check_positions
  check_positions-Extending b [] = record { apply = λ c. Extends-refl c }
  check_positions-Extending b (_ ∷ d) = record {
    apply = λ c. (▹-Extending (check-Extending _ b _) (check_positions-Extending b d)).apply c;
  }

  set_core_rounding-Mild : (p p' : ProtocolProjection) → set_core_rounding p ≡ some p' → Mild H p p'
  unfolding set_core_rounding
  set_core_rounding-Mild p p' h =
      let (_, _, h1) = >>=-eq-some (core_rounding p) _ h in
      subst (Mild H p) (eq_of_some h1) (λ _ k. k, refl, refl)

  tally_owners-Extending :
      (b : EventBase) (d : Dict Address IndexedLpPosition) (corrections claims : ℤ)
      (rest : ℤ → ℤ → Action)
      → ((x y : ℤ) → Extending H (rest x y))
      → Extending H (tally_owners b d corrections claims rest)
  unfolding tally_owners
  tally_owners-Extending b [] corrections claims rest h = h corrections claims
  tally_owners-Extending b ((_, q) ∷ d) corrections claims rest h =
      ▹-Extending (check-Extending _ b _) (
        needing-Extending (signed_add corrections q.correction) _ (λ x _.
          needing-Extending (checked_add claims q.claimed) _
            (λ y _. tally_owners-Extending b d x y rest h)))

  audit_epochs-Extending :
      (b : EventBase) (d : Dict ℤ IndexedLpEpoch) → Extending H (audit_epochs b d)
  unfolding audit_epochs audit_epoch
  audit_epochs-Extending b [] = skip-Extending
  audit_epochs-Extending b ((_, epoch) ∷ d) =
      ▹-Extending
        (▹-Extending
          (▹-Extending
            (tally_owners-Extending b epoch.positions (pos 0) (pos 0) _
              (λ _ _. check-Extending _ b _))
            (check-Extending _ b _))
          (check_checked-Extending _ b _))
        (audit_epochs-Extending b d)

  audit_core-Extending : (b : EventBase) → Extending H (audit_core b)
  unfolding audit_core
  audit_core-Extending b =
      ▹-Extending
        (▹-Extending
          (▹-Extending
            (▹-Extending
              (▹-Extending
                (▹-Extending (check-Extending _ b _)
                  (record { apply = λ c. (check_positions-Extending b c.next.positions).apply c }))
                (check-Extending _ b _))
              (check_checked-Extending _ b _))
            (check-Extending _ b _))
          (check-Extending _ b _))
        (update-Extending set_core_rounding set_core_rounding-Mild)

  audit-Extending : (b : EventBase) → Extending H (audit b)
  unfolding audit
  audit-Extending b =
      ▹-Extending
        (▹-Extending (audit_core-Extending b)
          (record { apply = λ c. (audit_epochs-Extending b c.next.lp_epochs).apply c }))
        (throw_if-Extending _)

pub replay_group-Extending : (g : Group) → Extending (Unit {0}) (replay_group g)
unfolding replay_group
replay_group-Extending g =
    ▹-Extending
      (▹-Extending
        (▹-Extending (▹-Extending (apply_events-Extending g g.events) settle_pending-Extending)
          (check_unconsumed-Extending g.routes))
        (check_paired_shares-Extending g g.liquidity_receipts))
      (audit-Extending g.first)
