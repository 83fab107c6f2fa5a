-- ===== src/Conservation/Transactions.antt =====
-- On `reduceEventGroup` (packages/indexer/src/reducer.ts), the ledger and the authority.
use cedra_reflect.Base.{
  >>=-eq-some, Bool-cases, List, [], any, eq_of_some, if◌then◌else◌, inl, inr, not, refl, some,
  subst, true, ◌++◌, ◌∙◌, ◌∷◌, ◌≡◌,
}
use cedra_reflect.Conservation.Audits.{replay_group-Extending}
use cedra_reflect.Conservation.Balance.{IsConserved}
use cedra_reflect.Conservation.Rules.{Ends}
use cedra_reflect.Domains.Projection.{fits_projection}
use cedra_reflect.Reducer.Group.{Group, group_of}
use cedra_reflect.Reducer.Lifecycle.{is_v02}
use cedra_reflect.Reducer.LiquidityCheck.{check_liquidity}
use cedra_reflect.Reducer.Monad.{Outcome, done, threw}
use cedra_reflect.Reducer.Reduce.{
  ReduceResult, finish, pairing_alerts, reduce_event_group, reduce_group, reduce_sorted, see_events,
  start,
}
use cedra_reflect.Reducer.Screen.{is_event_data, screen, sort_events}
use cedra_reflect.Types.Common.{CriticalAlert}
use cedra_reflect.Types.Event.{ProtocolEvent}
use cedra_reflect.Types.State.{ProtocolProjection}

see_events-keeps :
    (es : List ProtocolEvent) (p : ProtocolProjection)
    → (IsConserved p → IsConserved (see_events es p))
      × ((see_events es p).package_version ≡ p.package_version)
      × ((see_events es p).operational_admins ≡ p.operational_admins)
see_events-keeps [] p = (λ h. h, refl, refl)
see_events-keeps (e ∷ es) p = see_events-keeps es _

-- How a result stands to the projection before it.
abbrev Keeps : ProtocolProjection → ReduceResult → Type 0
Keeps prior r =
    (IsConserved prior → IsConserved r.projection)
    × (r.alerts ≡ []
        → is_v02 prior ≡ true
        → (r.projection.package_version ≡ prior.package_version)
          × (r.projection.operational_admins ≡ prior.operational_admins))

finish-Keeps :
    (g : Group) (alerts : List CriticalAlert) (o : Outcome)
    → Ends (Unit {0}) (start g.prior alerts) o
    → Keeps g.prior (finish g o)
unfolding finish
finish-Keeps g alerts (done c) h =
    let seen = see_events-keeps g.events c.next in
    (
      λ k. seen.0 (h.conserves tt k),
      λ clean v. let kept = h.keeps_authority clean v in (seen.1 ∙ kept.0, seen.2 ∙ kept.1),
    )
finish-Keeps g alerts (threw a) h =
    let seen = see_events-keeps g.events g.prior in (seen.0, λ clean v. (seen.1, seen.2))

reduce_group-Keeps :
    (g : Group) (screened : List CriticalAlert) (r : ReduceResult)
    → reduce_group g screened ≡ some r
    → Keeps g.prior r
unfolding reduce_group
reduce_group-Keeps g screened r h =
    let (found, _, h1) = >>=-eq-some (check_liquidity g) _ h in
    subst (Keeps g.prior) (eq_of_some h1) (
      finish-Keeps g _ _
        ((replay_group-Extending g).apply (start g.prior (screened ++ pairing_alerts g found))))

reduce_sorted-Keeps :
    (prior : ProtocolProjection) (events : List ProtocolEvent) (r : ReduceResult)
    → reduce_sorted prior events ≡ some r
    → Keeps prior r
unfolding reduce_sorted
reduce_sorted-Keeps prior [] r h = subst (Keeps prior) (eq_of_some h) (λ k. k, λ _ _. (refl, refl))
reduce_sorted-Keeps prior (e ∷ es) r h = elim (Bool-cases (not (fits_projection prior))) [
  | inl unfit ↦ subst (Keeps prior) (eq_of_some (rw unfit at h)) (λ k. k, λ _ _. (refl, refl))
  | inr fit ↦ screened_cases (rw fit at h)
]
  where
    screened : List CriticalAlert
    screened = screen prior e.base (e ∷ es)

    screened_cases :
        (if any is_event_data screened
            then some (record { projection = prior; alerts = screened })
            else reduce_group (group_of prior e.base (e ∷ es)) screened)
          ≡ some r
        → Keeps prior r
    screened_cases h = elim (Bool-cases (any is_event_data screened)) [
      | inl bad ↦ subst (Keeps prior) (eq_of_some (rw bad at h)) (λ k. k, λ _ _. (refl, refl))
      | inr good ↦ reduce_group-Keeps (group_of prior e.base (e ∷ es)) screened r (rw good at h)
    ]

-- Whatever events a transaction holds, and whether it raises alerts, throws or is accepted: if
-- before it the wallet and custody shares add up to the eligible supply, their corrections to the
-- aggregate correction, and the positions of every LP epoch to that epoch's shares, correction and
-- claims, then so they do in the projection that `reduceEventGroup` returns.
pub reduce_event_group-IsConserved :
    (prior : ProtocolProjection) (events : List ProtocolEvent) (r : ReduceResult)
    → reduce_event_group prior events ≡ some r
    → IsConserved prior
    → IsConserved r.projection
unfolding reduce_event_group
reduce_event_group-IsConserved prior events r h =
    (reduce_sorted-Keeps prior (sort_events events) r h).0

-- On a v0.2 projection, a transaction that is reduced without an alert changes neither the package
-- version nor any of the three operational administrators.
pub reduce_event_group_keeps_authority :
    (prior : ProtocolProjection) (events : List ProtocolEvent) (r : ReduceResult)
    → reduce_event_group prior events ≡ some r
    → is_v02 prior ≡ true
    → r.alerts ≡ []
    → (r.projection.package_version ≡ prior.package_version)
      × (r.projection.operational_admins ≡ prior.operational_admins)
unfolding reduce_event_group
reduce_event_group_keeps_authority prior events r h v clean =
    (reduce_sorted-Keeps prior (sort_events events) r h).1 clean v
