-- ===== src/Pages/Loop.antt =====
-- On the loop over the groups of a page (`processOwned` of packages/indexer/src/event-indexer.ts).
use cedra_reflect.Base.{
  All, Bool-cases, List, Option, [], ap, arith, false, inl, inr, is_empty, length, length-append,
  refl, some, true, ◌++◌, ◌+◌, ◌∙◌, ◌∷◌, ◌≡◌, ◌≢◌, ℕ,
}
use cedra_reflect.Int.{parts_of_eq, ℤ}
use cedra_reflect.Indexer.Cursor.{EventGroup, event_cursor, events_of, last_from, last_of}
use cedra_reflect.Indexer.Operation.{IndexerState, set_projection}
use cedra_reflect.Indexer.Process.{
  Progress, advanced, outcome_of, process_group, process_groups, stopped,
}
use cedra_reflect.Pages.Transactions.{
  AreTransactions, IsAfter, IsNew, IsTransaction, IsUpTo-version, flat, fresh_of_IsNew,
}
use cedra_reflect.Reducer.Reduce.{ReduceResult, reduce_event_group}
use cedra_reflect.Totality.Transactions.{reduce_event_group-Returns}
use cedra_reflect.Types.Common.{CriticalAlert, EventCursor}
use cedra_reflect.Types.Event.{ProtocolEvent}
use cedra_reflect.Types.State.{ProtocolProjection}

-- Each group is reduced without an alert on the projection that the one before it leads to.
abbrev pub Replays : ProtocolProjection → List EventGroup → ProtocolProjection → Type 0
Replays p [] q = q ≡ p
Replays p (g ∷ gs) q =
    (r : ReduceResult) × (reduce_event_group p (events_of g) ≡ some r)
    × (r.alerts ≡ [])
    × Replays r.projection gs q

-- Nothing is left and there are no alerts, or the first group that is left raises them and its
-- events are those that are rejected.
abbrev pub Stops : ProtocolProjection → List EventGroup → List CriticalAlert → ℕ → Type 0
Stops p [] alerts rejected = (alerts ≡ []) × (rejected ≡ 0)
Stops p (g ∷ gs) alerts rejected =
    (alerts ≢ [])
    × (rejected ≡ length (events_of g))
    × ((r : ReduceResult) × (reduce_event_group p (events_of g) ≡ some r) × (r.alerts ≡ alerts))

-- The cursor of the last event of the last group.
abbrev pub end_cursor : Option EventCursor → List EventGroup → Option EventCursor
end_cursor cursor [] = cursor
end_cursor cursor (g ∷ gs) = end_cursor (some (event_cursor (last_of g))) gs

-- The loop over groups ends where it is cut: some are taken, the others left.
pub record Cuts (s : IndexerState) (gs : List EventGroup) (s' : IndexerState) (t : Progress)
    : Type 0 where
  pub taken : List EventGroup
  pub left : List EventGroup
  pub cut : taken ++ left ≡ gs
  pub replays : Replays s.projection taken s'.projection
  pub at : s'.cursor ≡ end_cursor s.cursor taken
  pub stops : Stops s'.projection left t.alerts t.rejected
  pub counts : t.processed ≡ length (flat taken)

-- What the loop comes to: it never ends in a throw.
pub record Ends (s : IndexerState) (gs : List EventGroup) (r : IndexerState × Option Progress)
    : Type 0 where
  pub progress : Progress
  pub on : r.1 ≡ some progress
  pub cuts : Cuts s gs r.0 progress

last_from-version :
    (version : ℤ) (e : ProtocolEvent) (es : List ProtocolEvent)
    → e.ledger_version ≡ version
    → All (λ x. x.ledger_version ≡ version) es
    → (last_from e es).ledger_version ≡ version
last_from-version version e [] h k = h
last_from-version version e (x ∷ es) h (k, ks) = last_from-version version x es k ks

after-IsNew :
    (g : EventGroup) (gs : List EventGroup)
    → IsTransaction g
    → IsAfter g.first.ledger_version gs
    → All (λ h. IsNew (some (event_cursor (last_of g))) h.first) gs
after-IsNew g [] t k = tt
after-IsNew g (h ∷ gs) t (k, ks) =
    let same = last_from-version g.first.ledger_version g.first g.others refl t in
    (
      λ old.
          let behind = IsUpTo-version (event_cursor h.first) (event_cursor (last_of g)) old in
          absurd (omega (arith, parts_of_eq same)),
      after-IsNew g gs t ks,
    )

process_group-fresh :
    (s : IndexerState) (g : EventGroup) (r : ReduceResult)
    → IsNew s.cursor g.first
    → reduce_event_group s.projection (events_of g) ≡ some r
    → process_group s g ≡ outcome_of (some r)
unfolding process_group
process_group-fresh s g r new e = rw (fresh_of_IsNew s.cursor g.first new) (ap outcome_of e)

stopped-Ends :
    (s : IndexerState) (g : EventGroup) (gs : List EventGroup) (r : ReduceResult)
    → reduce_event_group s.projection (events_of g) ≡ some r
    → is_empty r.alerts ≡ false
    → process_group s g ≡ stopped r.alerts
    → Ends s (g ∷ gs) (process_groups s (g ∷ gs))
unfolding process_groups
stopped-Ends s g gs r e alerted stop = rw stop (record {
  progress = record { processed = 0; rejected = length (events_of g); alerts = r.alerts };
  on = refl;
  cuts = record {
    taken = [];
    left = g ∷ gs;
    cut = refl;
    replays = refl;
    at = refl;
    stops = (λ none_left. cc (ap is_empty none_left), refl, (r, e, refl));
    counts = refl;
  };
})

eq_nil_of_is_empty : (alerts : List CriticalAlert) → is_empty alerts ≡ true → alerts ≡ []
eq_nil_of_is_empty [] h = refl
eq_nil_of_is_empty (a ∷ alerts) h = cc

advanced-Ends :
    (s : IndexerState) (g : EventGroup) (gs : List EventGroup) (r : ReduceResult)
    → reduce_event_group s.projection (events_of g) ≡ some r
    → is_empty r.alerts ≡ true
    → process_group s g ≡ advanced r.projection
    → let next = set_projection r.projection (some (event_cursor (last_of g))) s in
      Ends next gs (process_groups next gs) → Ends s (g ∷ gs) (process_groups s (g ∷ gs))
unfolding process_groups
advanced-Ends s g gs r e clean on rest =
    let t = rest.progress in
    let cuts = rest.cuts in
    rw on (record {
      progress = record t { processed = length (events_of g) + t.processed };
      on = rw rest.on refl;
      cuts = record {
        taken = g ∷ cuts.taken;
        left = cuts.left;
        cut = ap (λ l. g ∷ l) cuts.cut;
        replays = (r, e, eq_nil_of_is_empty r.alerts clean, cuts.replays);
        at = cuts.at;
        stops = cuts.stops;
        counts = omega (arith, cuts.counts, length-append g.others (flat cuts.taken));
      };
    })

-- The loop over new groups of rising ledger versions: it takes them one by one up to the first that
-- is reduced with an alert. Its own check of the order never fails.
pub process_groups-Ends :
    (s : IndexerState) (gs : List EventGroup)
    → AreTransactions gs
    → All (λ g. IsNew s.cursor g.first) gs
    → Ends s gs (process_groups s gs)
unfolding process_groups
process_groups-Ends s [] rising new = record {
  progress = record { processed = 0; rejected = 0; alerts = [] };
  on = refl;
  cuts = record {
    taken = [];
    left = [];
    cut = refl;
    replays = refl;
    at = refl;
    stops = (refl, refl);
    counts = refl;
  };
}
process_groups-Ends s (g ∷ gs) (t, after, rising) (new, news) =
    let (r, e) = reduce_event_group-Returns s.projection (events_of g) in
    let known = process_group-fresh s g r new e in
    let next = set_projection r.projection (some (event_cursor (last_of g))) s in
    let rest = process_groups-Ends next gs rising (after-IsNew g gs t after) in
    elim (Bool-cases (is_empty r.alerts)) [
      | inl clean ↦ advanced-Ends s g gs r e clean (known ∙ rw clean refl) rest
      | inr alerted ↦ stopped-Ends s g gs r e alerted (known ∙ rw alerted refl)
    ]
