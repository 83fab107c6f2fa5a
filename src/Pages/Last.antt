-- ===== src/Pages/Last.antt =====
-- On the cursor that a page ends at (`processOwned` of packages/indexer/src/event-indexer.ts).
use cedra_reflect.Base.{
  >>=-eq-some, Bool-cases, List, Option, [], ap, append-nil, append_assoc, bool_eq, eq_of_some, inl,
  inr, is_empty, length, none, option_eq, refl, same, some, string_eq, sym, ◌++◌, ◌+◌, ◌==◌, ◌∙◌,
  ◌∷◌, ◌≡◌, ◌≢◌,
}
use cedra_reflect.Int.{ℤ_eq}
use cedra_reflect.Indexer.Cursor.{
  EventGroup, event_cursor, events_of, group_from, is_passed, last_from, last_of,
}
use cedra_reflect.Indexer.Operation.{IndexerState, set_projection}
use cedra_reflect.Indexer.Process.{
  GroupOutcome, Progress, advanced, after_group, interrupted, outcome_of, process_group,
  process_groups, stopped,
}
use cedra_reflect.Pages.Order.{AllUpTo, IsSorted, IsUpTo-refl, IsUpTo-trans}
use cedra_reflect.Reducer.Reduce.{ReduceResult, reduce_event_group}
use cedra_reflect.Types.Common.{CriticalAlert, lifecycle_eq, status_eq}
use cedra_reflect.Types.Event.{ProtocolEvent}
use cedra_reflect.Types.State.{ProtocolProjection}

-- In a sorted list every event stands up to the last one.
pub last_from-AllUpTo :
    (e : ProtocolEvent) (es : List ProtocolEvent)
    → IsSorted (e ∷ es)
    → AllUpTo (event_cursor (last_from e es)) (e ∷ es)
last_from-AllUpTo e [] h = (IsUpTo-refl (event_cursor e), tt)
last_from-AllUpTo e (x ∷ es) ((h, _), hs) =
    let rest = last_from-AllUpTo x es hs in
    (IsUpTo-trans (event_cursor e) (event_cursor x) (event_cursor (last_from x es)) h rest.0, rest)

last_from-append :
    (e x : ProtocolEvent) (es xs : List ProtocolEvent) → last_from e (es ++ x ∷ xs) ≡ last_from x xs
last_from-append e x [] xs = refl
last_from-append e x (y ∷ es) xs = last_from-append y x es xs

abbrev alerts_of : GroupOutcome → List CriticalAlert
alerts_of (stopped alerts) = alerts
alerts_of _ = []

outcome_of-stopped :
    (o : Option ReduceResult) (alerts : List CriticalAlert)
    → outcome_of o ≡ stopped alerts
    → alerts ≢ []
outcome_of-stopped none alerts h empty = cc
outcome_of-stopped (some r) alerts h empty = elim (Bool-cases (is_empty r.alerts)) [
  | inl clean ↦ cc (rw clean at h)
  | inr alerted ↦
      let none_left = ap alerts_of (rw alerted at h) ∙ empty in cc (ap is_empty none_left, alerted)
]

-- A group that stops the loop has an alert.
process_group-stopped :
    (s : IndexerState) (g : EventGroup) (alerts : List CriticalAlert)
    → process_group s g ≡ stopped alerts
    → alerts ≢ []
unfolding process_group
process_group-stopped s g alerts h empty = elim (Bool-cases (is_passed s.cursor g.first)) [
  | inl passed ↦ cc (ap alerts_of (rw passed at h) ∙ empty)
  | inr fresh ↦
      outcome_of-stopped (reduce_event_group s.projection (events_of g)) alerts (rw fresh at h)
        empty
]

none-neq-some : {A : Type 0} (a : A) → none ≢ some a
none-neq-some a h = cc

abbrev pub rest_of :
    IndexerState
    → EventGroup
    → List EventGroup
    → ProtocolProjection
    → IndexerState × Option Progress
rest_of s g gs q = process_groups (set_projection q (some (event_cursor (last_of g))) s) gs

-- A loop without alerts that ends in `x`, over a group and more, is one over the rest, from the
-- group's cursor.
pub record Advances (s x : IndexerState) (g : EventGroup) (gs : List EventGroup) : Type 0 where
  pub projection : ProtocolProjection
  pub progress : Progress
  pub on : process_group s g ≡ advanced projection
  pub ends : x ≡ (rest_of s g gs projection).0
  pub counts : (rest_of s g gs projection).1 ≡ some progress
  pub clean : progress.alerts ≡ []

after_group-Advances :
    (s x : IndexerState) (g : EventGroup) (gs : List EventGroup) (p : Progress) (o : GroupOutcome)
    → process_group s g ≡ o
    → x ≡ (after_group s g (rest_of s g gs) o).0
    → (after_group s g (rest_of s g gs) o).1 ≡ some p
    → p.alerts ≡ []
    → Advances s x g gs
after_group-Advances s x g gs p interrupted e run h clean = elim (none-neq-some p h) [ ]
after_group-Advances s x g gs p (stopped alerts) e run h clean =
    let bad : ⊥ = process_group-stopped s g alerts e (ap (λ t. t.alerts) (eq_of_some h) ∙ clean) in
    elim bad [ ]
after_group-Advances s x g gs p (advanced q) e run h clean =
    let (t, counts, same) =
      >>=-eq-some (rest_of s g gs q).1
        (λ y. some (record y { processed = length (events_of g) + y.processed })) h in
    record {
      projection = q;
      progress = t;
      on = e;
      ends = run;
      counts = counts;
      clean = ap (λ y. y.alerts) (eq_of_some same) ∙ clean;
    }

pub process_groups-Advances :
    (s : IndexerState) (g : EventGroup) (gs : List EventGroup) (p : Progress)
    → (process_groups s (g ∷ gs)).1 ≡ some p
    → p.alerts ≡ []
    → Advances s (process_groups s (g ∷ gs)).0 g gs
unfolding process_groups
process_groups-Advances s g gs p h clean =
    after_group-Advances s (process_groups s (g ∷ gs)).0 g gs p (process_group s g) refl refl h
      clean

-- Where no group raises an alert, the cursor is that of the last event.
pub process_groups-last :
    (s : IndexerState) (g : EventGroup) (es : List ProtocolEvent) (p : Progress)
    → (process_groups s (group_from g es)).1 ≡ some p
    → p.alerts ≡ []
    → (process_groups s (group_from g es)).0.cursor
      ≡ some (event_cursor (last_from g.first (g.others ++ es)))
unfolding group_from process_groups
process_groups-last s g [] p h clean =
    let a = process_groups-Advances s g [] p h clean in
    ap (λ t. t.cursor) a.ends
    ∙ ap (λ t. some (event_cursor (last_from g.first t))) (sym (append-nil g.others))
process_groups-last s g (e ∷ es) p h clean =
    elim (Bool-cases (g.first.ledger_version == e.ledger_version)) [
      | inl joined ↦
          rw (group_from, joined)
            (process_groups-last s (record g { others = g.others ++ e ∷ [] }) es p
                (rw (group_from, joined) at h) clean
              ∙ ap (λ t. some (event_cursor (last_from g.first t)))
                  (append_assoc g.others (e ∷ []) es))
      | inr apart ↦
          rw (group_from, apart)
            (let next : EventGroup = record { first = e; others = [] } in
              let a =
                process_groups-Advances s g (group_from next es) p (rw (group_from, apart) at h)
                  clean in
              let rest =
                process_groups-last
                  (set_projection a.projection (some (event_cursor (last_of g))) s) next es
                  a.progress a.counts a.clean in
              ap (λ t. t.cursor) a.ends
              ∙ rest
              ∙ ap (λ x. some (event_cursor x)) (sym (last_from-append g.first e g.others es)))
    ]
