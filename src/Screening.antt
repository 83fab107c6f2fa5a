-- ===== src/Screening.antt =====
-- On the events of a transaction that `reduceEventGroup` of packages/indexer/src/reducer.ts reduces
-- without an alert.
pub mod Replay
use cedra_reflect.Base.{
  >>=-eq-some, Bool, Bool-cases, List, String, [], any, ap, append-eq-nil, arith, eq_of_some, false,
  if◌then◌else◌, inl, inr, not, or_false, refl, some, string_eq, true, ◌++◌, ◌==◌, ◌∙◌, ◌∷◌, ◌≡◌,
}
use cedra_reflect.Int.{leb_ℤ, negsuc, ℤ, ℤ_eq, ◌<ℤ◌}
use cedra_reflect.Conservation.Audits.{replay_group-Extending}
use cedra_reflect.Conservation.Rules.{Ends}
use cedra_reflect.Dict.{contains}
use cedra_reflect.Domains.Event.{fits_event}
use cedra_reflect.Domains.Projection.{fits_projection}
use cedra_reflect.Reducer.Group.{Group, group_of}
use cedra_reflect.Reducer.LiquidityCheck.{check_liquidity}
use cedra_reflect.Reducer.Monad.{Outcome, done, threw}
use cedra_reflect.Reducer.Reduce.{
  ReduceResult, finish, pairing_alerts, reduce_event_group, reduce_group, reduce_sorted, start,
}
use cedra_reflect.Reducer.Screen.{
  flag, is_event_data, screen, screen_event, screen_from, sort_events,
}
use cedra_reflect.Types.Common.{AlertCode, CriticalAlert, EventBase}
use cedra_reflect.Types.Event.{ProtocolEvent}
use cedra_reflect.Types.State.{ProtocolProjection}

-- Events of the transaction of `first`, each in its Move widths, with an index above the one before
-- it and an identifier that neither the projection nor an earlier event of the transaction has used.
abbrev pub InOrder : ProtocolProjection → EventBase → ℤ → List String → List ProtocolEvent → Type 0
InOrder prior first previous ids [] = Unit
InOrder prior first previous ids (e ∷ es) =
    (fits_event e ≡ true)
    × (e.ledger_version ≡ first.ledger_version)
    × (e.tx_hash ≡ first.tx_hash)
    × (previous <ℤ e.event_index)
    × (contains e.id prior.seen_event_ids ≡ false)
    × (any (λ id. id == e.id) ids ≡ false)
    × InOrder prior first e.event_index (e.id ∷ ids) es

flag-eq-nil :
    (test : Bool) (b : EventBase) (code : AlertCode) → flag test b code ≡ [] → test ≡ false
flag-eq-nil true b code h = cc
flag-eq-nil false b code h = refl

pub not-eq-false : (b : Bool) → not b ≡ false → b ≡ true
not-eq-false true h = refl
not-eq-false false h = cc

screen_from-InOrder :
    (prior : ProtocolProjection) (first : EventBase) (previous : ℤ) (ids : List String)
    (es : List ProtocolEvent)
    → screen_from prior first previous ids es ≡ []
    → InOrder prior first previous ids es
unfolding screen_from screen_event
screen_from-InOrder prior first previous ids [] h = tt
screen_from-InOrder prior first previous ids (e ∷ es) h =
    let (here, rest) = append-eq-nil (screen_event prior first previous ids e) _ h in
    let (abc, d) = append-eq-nil _ _ here in
    let (ab, c) = append-eq-nil _ _ abc in
    let (a, b) = append-eq-nil _ _ ab in
    let (version, hash) = or_false _ _ (flag-eq-nil _ _ _ b) in
    let (seen, used) = or_false _ _ (flag-eq-nil _ _ _ d) in
    (
      not-eq-false (fits_event e) (flag-eq-nil _ _ _ a),
      (ℤ_eq.beq_iff e.ledger_version first.ledger_version).0 (not-eq-false _ version),
      (string_eq.beq_iff e.tx_hash first.tx_hash).0 (not-eq-false _ hash),
      ordered (flag-eq-nil _ _ _ c),
      seen,
      used,
      screen_from-InOrder prior first e.event_index (e.id ∷ ids) es rest,
    )
  where
    ordered : leb_ℤ e.event_index previous ≡ false → previous <ℤ e.event_index
    ordered k = ground arith

abbrev pub InOrderFrom : ProtocolProjection → List ProtocolEvent → Type 0
InOrderFrom prior [] = Unit
InOrderFrom prior (e ∷ es) = InOrder prior e.base (negsuc 0) [] (e ∷ es)

pub push_nonempty : (xs : List CriticalAlert) (a : CriticalAlert) → xs ++ a ∷ [] ≡ [] → ⊥
push_nonempty [] a h = cc
push_nonempty (x ∷ xs) a h = cc

finish-clean :
    (g : Group) (alerts : List CriticalAlert) (o : Outcome)
    → Ends (Unit {0}) (start g.prior alerts) o
    → (finish g o).alerts ≡ []
    → alerts ≡ []
unfolding finish
finish-clean g alerts (done c) h clean = h.keeps_alerts clean
finish-clean g alerts (threw a) h clean = elim (push_nonempty a _ clean) [ ]

reduce_group-clean :
    (g : Group) (screened : List CriticalAlert) (r : ReduceResult)
    → reduce_group g screened ≡ some r
    → r.alerts ≡ []
    → screened ≡ []
unfolding reduce_group
reduce_group-clean g screened r h clean =
    let (found, _, h1) = >>=-eq-some (check_liquidity g) _ h in
    (append-eq-nil screened (pairing_alerts g found) (
      finish-clean g (screened ++ pairing_alerts g found) _
        ((replay_group-Extending g).apply (start g.prior (screened ++ pairing_alerts g found)))
        (ap (λ t. t.alerts) (eq_of_some h1) ∙ clean))).0

pub reduce_sorted-InOrderFrom :
    (prior : ProtocolProjection) (es : List ProtocolEvent) (r : ReduceResult)
    → reduce_sorted prior es ≡ some r
    → r.alerts ≡ []
    → InOrderFrom prior es
unfolding reduce_sorted screen
reduce_sorted-InOrderFrom prior [] r h clean = tt
reduce_sorted-InOrderFrom prior (e ∷ es) r h clean =
    screen_from-InOrder prior e.base (negsuc 0) [] (e ∷ es)
      (elim (Bool-cases (fits_projection prior)) [
        | inr unfit ↦
            elim (push_nonempty [] _ (ap (λ t. t.alerts) (eq_of_some (rw unfit at h)) ∙ clean)) [ ]
        | inl fit ↦ screened_cases (rw fit at h)
      ])
  where
    screened : List CriticalAlert
    screened = screen prior e.base (e ∷ es)

    screened_cases :
        (if any is_event_data screened
            then some (record { projection = prior; alerts = screened })
            else reduce_group (group_of prior e.base (e ∷ es)) screened)
          ≡ some r
        → screened ≡ []
    screened_cases h = elim (Bool-cases (any is_event_data screened)) [
      | inl bad ↦ ap (λ t. t.alerts) (eq_of_some (rw bad at h)) ∙ clean
      | inr good ↦ reduce_group-clean _ screened r (rw good at h) clean
    ]

-- Where a transaction is reduced without an alert, its events, sorted by index, belong to one ledger
-- version and one transaction hash, have their Move widths and strictly rising indices that are not
-- negative, and carry identifiers that are new to the projection and differ from each other.
pub reduce_event_group-InOrder :
    (prior : ProtocolProjection) (events : List ProtocolEvent) (r : ReduceResult)
    → reduce_event_group prior events ≡ some r
    → r.alerts ≡ []
    → InOrderFrom prior (sort_events events)
unfolding reduce_event_group
reduce_event_group-InOrder prior events r h clean =
    reduce_sorted-InOrderFrom prior (sort_events events) r h clean
