-- ===== src/Certificates/Reconciling.antt =====
-- On `reconcileOwned` of packages/indexer/src/event-indexer.ts.
use cedra_reflect.Base.{
  Option, String, ap, arith, bool_eq, eq_of_some, option_eq, some, string_eq, subst, sym, true, ◌∙◌,
  ◌≡◌,
}
use cedra_reflect.Int.{ℤ, ℤ_eq}
use cedra_reflect.Agreement.Views.{reconcile-Matches}
use cedra_reflect.Certificates.Certified.{
  ChainViews, Guards, Holds, IsAnswering, IsCertified, IsReconciled, IsShown, IsSound,
  Triple-report_alerts,
}
use cedra_reflect.Certificates.Triples.{
  Triple, Triple-assert, Triple-lifting, Triple-present, Triple-reading, Triple-returning,
  Triple-then, Triple-weaken, Triple-whether, Triple-writing,
}
use cedra_reflect.Indexer.Checkpoint.{
  accept_reconciliation, checkpoint_state_identity, reconcile_owned,
}
use cedra_reflect.Indexer.Operation.{IndexerState, World, invalidate_reconciliation}
use cedra_reflect.Indexer.Store.{Identity, IndexerError, IndexerStore, ProtocolEventSource}
use cedra_reflect.Reconciler.Reconcile.{reconcile}
use cedra_reflect.Snapshot.Codec.{Codec}
use cedra_reflect.Types.Common.{EventCursor, lifecycle_eq, status_eq}
use cedra_reflect.Types.Observed.{ObservedAccountingSnapshot, ReconciliationReport}

-- What is known once the report of a state is there: the state has not changed but for the
-- reconciliation that was dropped.
record IsReported (Shows : ChainViews) (s : IndexerState) (cursor : EventCursor)
    (o : ObservedAccountingSnapshot) (now : ℤ) (report : ReconciliationReport) (x : IndexerState)
    : Type 0 where
  same : invalidate_reconciliation s ≡ x
  at : s.cursor ≡ some cursor
  answered : Shows cursor.ledger_version o
  reported : reconcile now s.projection o (some cursor) ≡ some report

module _ {S : Type 0} (Shows : ChainViews) (c : Codec) (store : IndexerStore S) (J : S → Type 0)
    (g : Guards store (IsCertified Shows c) J) where
  IsReported-IsReconciled :
      {s : IndexerState} {cursor : EventCursor} {o : ObservedAccountingSnapshot} {now : ℤ}
      {report : ReconciliationReport} (x : IndexerState)
      → IsReported Shows s cursor o now report x
      → IsReconciled Shows c store x
  IsReported-IsReconciled x h = subst (IsReconciled Shows c store) h.same tt

  reported_found :
      (s : IndexerState) (cursor : EventCursor) (o : ObservedAccountingSnapshot) (now : ℤ)
      (report : ReconciliationReport) (x : IndexerState)
      → IsReported Shows s cursor o now report x
      → report.reconciled ≡ true
      → (k : EventCursor) → x.cursor ≡ some k
      → IsShown Shows x.projection k
  reported_found s cursor o now report x h clean =
      let found = reconcile-Matches now s.projection o (some cursor) report h.reported clean in
      subst (λ t. (k : EventCursor) → t.cursor ≡ some k → IsShown Shows t.projection k) h.same
        (λ k e.
          subst (IsShown Shows s.projection) (eq_of_some (sym h.at ∙ e)) (o, h.answered, found))

  Triple-accept_reconciliation :
      (s : IndexerState) (cursor : EventCursor) (o : ObservedAccountingSnapshot) (now : ℤ)
      (report : ReconciliationReport) (identity : String)
      → report.reconciled ≡ true
      → Triple
          (IsSound Shows c store J)
          (Holds (IsReported Shows s cursor o now report) J)
          (accept_reconciliation c store s cursor identity)
          (λ _ w. IsSound Shows c store J w)
  unfolding accept_reconciliation
  Triple-accept_reconciliation s cursor o now report identity clean =
      let sound : (w : World S)
          → Holds (IsReported Shows s cursor o now report) J w
          → IsSound Shows c store J w =
        λ w (h, j). (IsReported-IsReconciled w.indexer h, j) in
      Triple-then (IsSound Shows c store J) (Triple-reading (IsSound Shows c store J)) (λ t.
        Triple-whether (IsSound Shows c store J)
          (λ _.
            Triple-then (IsSound Shows c store J)
              (Triple-lifting (IsSound Shows c store J)
                (checkpoint_state_identity c store t.projection cursor) (λ w h. sound w h.0))
              (λ again.
                Triple-whether (IsSound Shows c store J)
                  (λ _.
                    Triple-writing (IsSound Shows c store J) (IsSound Shows c store J)
                      (λ t. record t {
                        reconciled = some (record {
                          projection = s.projection_object;
                          cursor = cursor;
                          state_identity = identity;
                        });
                      })
                      (λ w h. (
                        λ k at _ _ _.
                            reported_found s cursor o now report w.indexer h.0.0.0 clean k at,
                        h.0.0.1,
                      )))
                  (λ _. Triple-returning (IsSound Shows c store J) tt (λ w h. sound w h.0.0))))
          (λ _. Triple-returning (IsSound Shows c store J) tt (λ w h. sound w h.0)))

  pub Triple-reconcile_owned :
      (now : ℤ) (source : ProtocolEventSource) (owner : Identity) (lease : Option Identity)
      → IsAnswering Shows source
      → Triple
          (IsSound Shows c store J)
          (IsSound Shows c store J)
          (reconcile_owned c store now source owner lease)
          (λ _ w. IsSound Shows c store J w)
  unfolding reconcile_owned
  Triple-reconcile_owned now source owner lease answering =
      Triple-then (IsSound Shows c store J)
        (Triple-assert (IsSound Shows c store J) owner (λ w h. h))
        (λ _. Triple-then (IsSound Shows c store J) (Triple-reading (IsSound Shows c store J)) (λ s.
          Triple-then (IsSound Shows c store J)
            (Triple-present (IsSound Shows c store J) s.cursor IndexerError.not_indexed
              (λ w h. h.0))
            (λ cursor.
              Triple-then (IsSound Shows c store J)
                (Triple-writing (IsSound Shows c store J)
                  (λ w. Holds (λ x. invalidate_reconciliation s ≡ x) J w × (s.cursor ≡ some cursor))
                  invalidate_reconciliation
                  (λ w ((i, same), at). ((ap invalidate_reconciliation same, i.1), at)))
                (λ _.
                  Triple-then (IsSound Shows c store J)
                    (Triple-lifting (IsSound Shows c store J)
                      (checkpoint_state_identity c store s.projection cursor)
                      (λ w ((same, j), at). (subst (IsReconciled Shows c store) same tt, j)))
                    (λ identity.
                      Triple-then (IsSound Shows c store J)
                        (Triple-lifting (IsSound Shows c store J)
                          (source.get_accounting_snapshot cursor.ledger_version)
                          (λ w (((same, j), at), _).
                            (subst (IsReconciled Shows c store) same tt, j)))
                        (λ observed.
                          Triple-then (IsSound Shows c store J)
                            (Triple-assert (IsSound Shows c store J) owner
                              (λ w ((((same, j), at), _), _).
                                (subst (IsReconciled Shows c store) same tt, j)))
                            (λ _.
                              Triple-then (IsSound Shows c store J)
                                (Triple-lifting (IsSound Shows c store J)
                                  (reconcile now s.projection observed (some cursor))
                                  (λ w ((((same, j), at), _), _).
                                    (subst (IsReconciled Shows c store) same tt, j)))
                                (λ report.
                                  Triple-weaken (IsSound Shows c store J)
                                    {P' = Holds (IsReported Shows s cursor observed now report) J}
                                    (λ w (((((same, j), at), _), asked), reported). (
                                      record {
                                        same = same;
                                        at = at;
                                        answered = answering cursor.ledger_version observed asked;
                                        reported = reported;
                                      },
                                      j,
                                    ))
                                    (Triple-then (IsSound Shows c store J)
                                      (Triple-report_alerts J store g (IsReconciled Shows c store)
                                        (IsReported Shows s cursor observed now report)
                                        IsReported-IsReconciled report.alerts owner lease)
                                      (λ _.
                                        Triple-then (IsSound Shows c store J)
                                          (Triple-whether (IsSound Shows c store J)
                                            (λ clean.
                                              Triple-accept_reconciliation s cursor observed now
                                                report identity (ground arith))
                                            (λ _.
                                              Triple-returning (IsSound Shows c store J) tt
                                                (λ w (h, j).
                                                  (IsReported-IsReconciled w.indexer h, j))))
                                          (λ _.
                                            Triple-returning (IsSound Shows c store J) report
                                              (λ w h. h))))))))))))
