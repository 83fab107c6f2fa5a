-- ===== src/Screening/Replay.antt =====
-- On `seenEventIds` of packages/indexer/src/reducer.ts when a transaction comes a second time.
use cedra_reflect.Base.{
  >>=-eq-some, Bool-cases, List, String, [], any, ap, arith, eq_of_some, if◌then◌else◌, inl, inr,
  length, refl, some, string_eq, subst, suc, true, ◌+◌, ◌<◌, ◌∙◌, ◌∷◌, ◌≡◌,
}
use cedra_reflect.Int.{ltb_ℤ, ℤ_eq}
use cedra_reflect.Dict.{contains, contains-insert}
use cedra_reflect.Domains.Projection.{fits_projection}
use cedra_reflect.Reducer.Group.{Group, group_of}
use cedra_reflect.Reducer.LiquidityCheck.{check_liquidity}
use cedra_reflect.Reducer.Monad.{Outcome, done, problem, threw}
use cedra_reflect.Reducer.Reduce.{
  ReduceResult, cursor_of, finish, reduce_event_group, reduce_group, reduce_sorted, see_events,
}
use cedra_reflect.Reducer.Screen.{insert_event, is_event_data, screen, sort_events, sort_from}
use cedra_reflect.Screening.{push_nonempty, reduce_sorted-InOrderFrom}
use cedra_reflect.Types.Common.{AlertCode, CriticalAlert}
use cedra_reflect.Types.Event.{ProtocolEvent}
use cedra_reflect.Types.State.{ProtocolProjection}

length-insert_event :
    (e : ProtocolEvent) (xs : List ProtocolEvent) → length (insert_event e xs) ≡ suc (length xs)
length-insert_event e [] = refl
length-insert_event e (x ∷ xs) = elim (Bool-cases (ltb_ℤ e.event_index x.event_index)) [
  | inl before ↦ rw before refl
  | inr behind ↦ rw behind (omega (arith, length-insert_event e xs))
]

length-sort_from :
    (sorted es : List ProtocolEvent) → length (sort_from sorted es) ≡ length sorted + length es
unfolding sort_from
length-sort_from sorted [] = omega arith
length-sort_from sorted (e ∷ es) =
    omega (arith, length-sort_from (insert_event e sorted) es, length-insert_event e sorted)

see_events_keeps_seen :
    (id : String) (es : List ProtocolEvent) (p : ProtocolProjection)
    → contains id p.seen_event_ids ≡ true
    → contains id (see_events es p).seen_event_ids ≡ true
see_events_keeps_seen id [] p h = h
see_events_keeps_seen id (e ∷ es) p h =
    see_events_keeps_seen id es _
      (ground (arith, contains-insert e.id id (cursor_of e.base) p.seen_event_ids, h))

see_events_marks_first :
    (e : ProtocolEvent) (es : List ProtocolEvent) (p : ProtocolProjection)
    → contains e.id (see_events (e ∷ es) p).seen_event_ids ≡ true
see_events_marks_first e es p = see_events_keeps_seen e.id es _ (
    ground (
      arith,
      contains-insert e.id e.id (cursor_of e.base) p.seen_event_ids,
      string_eq.beq_iff e.id e.id,
    ))

finish_marks_first :
    (g : Group) (e : ProtocolEvent) (es : List ProtocolEvent) (o : Outcome)
    → g.events ≡ e ∷ es
    → contains e.id (finish g o).projection.seen_event_ids ≡ true
unfolding finish
finish_marks_first g e es (done c) h = rw h (see_events_marks_first e es c.next)
finish_marks_first g e es (threw a) h = rw h (see_events_marks_first e es g.prior)

reduce_sorted_marks_first :
    (prior : ProtocolProjection) (e : ProtocolEvent) (es : List ProtocolEvent) (r : ReduceResult)
    → reduce_sorted prior (e ∷ es) ≡ some r
    → r.alerts ≡ []
    → contains e.id r.projection.seen_event_ids ≡ true
unfolding reduce_sorted reduce_group
reduce_sorted_marks_first prior e es r h clean = elim (Bool-cases (fits_projection prior)) [
  | inr unfit ↦ elim (alerts_nonempty (rw unfit at h)) [ ]
  | inl fit ↦ screened_cases (rw fit at h)
]
  where
    screened : List CriticalAlert
    screened = screen prior e.base (e ∷ es)

    alerts_nonempty :
        some (record { projection = prior; alerts = problem e.base AlertCode.event_data ∷ [] })
          ≡ some r
        → ⊥
    alerts_nonempty k = push_nonempty [] _ (ap (λ t. t.alerts) (eq_of_some k) ∙ clean)

    screened_cases :
        (if any is_event_data screened
            then some (record { projection = prior; alerts = screened })
            else reduce_group (group_of prior e.base (e ∷ es)) screened)
          ≡ some r
        → contains e.id r.projection.seen_event_ids ≡ true
    screened_cases k = elim (Bool-cases (any is_event_data screened)) [
      | inl bad ↦
          let nothing : screened ≡ [] = ap (λ t. t.alerts) (eq_of_some (rw bad at k)) ∙ clean in
          cc (rw nothing at bad)
      | inr good ↦
          let (found, _, k1) =
            >>=-eq-some (check_liquidity (group_of prior e.base (e ∷ es))) _ (rw good at k) in
          subst (λ t. contains e.id t.projection.seen_event_ids ≡ true) (eq_of_some k1)
            (finish_marks_first (group_of prior e.base (e ∷ es)) e es _ refl)
    ]

reduce_sorted_refuses_again :
    (prior : ProtocolProjection) (es : List ProtocolEvent) (r again : ReduceResult)
    → 0 < length es
    → reduce_sorted prior es ≡ some r
    → r.alerts ≡ []
    → reduce_sorted r.projection es ≡ some again
    → ¬ (again.alerts ≡ [])
reduce_sorted_refuses_again prior [] r again some_event h clean k quiet = omega (arith, some_event)
reduce_sorted_refuses_again prior (e ∷ es) r again some_event h clean k quiet =
    let seen = reduce_sorted_marks_first prior e es r h clean in
    let fresh = (reduce_sorted-InOrderFrom r.projection (e ∷ es) again k quiet).4 in cc

-- A transaction of one event or more that has been reduced without an alert raises one when it is
-- reduced again on the projection that came of it.
pub reduce_event_group_refuses_again :
    (prior : ProtocolProjection) (events : List ProtocolEvent) (r again : ReduceResult)
    → 0 < length events
    → reduce_event_group prior events ≡ some r
    → r.alerts ≡ []
    → reduce_event_group r.projection events ≡ some again
    → ¬ (again.alerts ≡ [])
unfolding reduce_event_group sort_events
reduce_event_group_refuses_again prior events r again some_event h clean k =
    reduce_sorted_refuses_again prior (sort_events events) r again
      (omega (arith, some_event, length-sort_from [] events)) h clean k
