-- ===== src/Indexer/Runs.antt =====
-- Runs of the operations of packages/indexer/src/event-indexer.ts: what an operation comes to where
-- its first steps succeed, and what `process` comes to on an idle indexer.
use cedra_reflect.Base.{
  Bool, false, List, Option, [], ap, nat_eq, none, refl, some, true, ℕ, ◌∙◌, ◌∷◌, ◌≡◌,
}
use cedra_reflect.Indexer.Cursor.{group_events, skip_passed, sort_by_cursor}
use cedra_reflect.Indexer.Operation.{
  IndexerState, Operation, World, assert_state_owner, invalidate_reconciliation, is_owner, lifting,
  persist_alerts, reading, release_owner, requiring, returning, storing, with_exclusive_writer,
  with_state_owner, with_store_writer, ◌▸◌,
}
use cedra_reflect.Indexer.Process.{
  ProcessResult, Progress, process, process_groups, process_owned, report_alerts, running,
}
use cedra_reflect.Indexer.Store.{Identity, IndexerError, IndexerStore, Result, ok, refused}
use cedra_reflect.Types.Common.{CriticalAlert}
use cedra_reflect.Types.Event.{ProtocolEvent}

pub then_ok :
    {S A B : Type 0} (m : Operation S A) (k : A → Operation S B) {w v : World S} {a : A}
    → m w ≡ (v, ok a)
    → (m ▸ k) w ≡ k a v
unfolding ◌▸◌
then_ok m k h = ap (λ r. elim r.1 [ ok a ↦ k a r.0 | refused e ↦ (r.0, refused e) ]) h

pub asserted :
    {S : Type 0} (owner : Identity) (w : World S)
    → w.indexer.active_state_owner ≡ some owner
    → assert_state_owner owner w ≡ (w, ok tt)
asserted owner w h =
    let mine : is_owner owner w.indexer.active_state_owner ≡ true =
      ap (is_owner owner) h ∙ (nat_eq.beq_iff owner owner).1 refl in
    ap (λ b. requiring b IndexerError.invalid_writer_cycle w) mine

pub lifted :
    {S A : Type 0} (m : Option A) (a : A) (w : World S) → m ≡ some a → lifting m w ≡ (w, ok a)
lifted m a w h = ap (λ o. lifting o w) h

-- The state that `process` begins its loop in.
abbrev pub begun_by : Identity → IndexerState → IndexerState
begun_by owner s = invalidate_reconciliation (record s { active_state_owner = some owner })

abbrev pub released : {S A : Type 0} → Identity → World S × Result A → World S × Result A
released owner r = (record r.0 { indexer = release_owner owner r.0.indexer }, r.1)

module _ {S : Type 0} where
  with_state_owner-idle :
      {A : Type 0} (owner : Identity) (m : Operation S A) (w : World S)
      → w.indexer.active_state_owner ≡ none
      → with_state_owner owner m w
        ≡ released owner
            (m (record w { indexer = record w.indexer { active_state_owner = some owner } }))
  unfolding with_state_owner
  with_state_owner-idle owner m w idle =
      ap
        (λ (holder : Option Identity).
          let r : World S × Result _ = elim holder [
            | some _ ↦ (w, refused IndexerError.concurrent_operation)
            | none ↦
                released owner
                  (m (record w { indexer = record w.indexer { active_state_owner = some owner } }))
          ] in
          r)
        idle

  -- What `process` answers once the alerts are reported, or could not be.
  abbrev pub answer : ℕ → Progress → World S × Result Unit → World S × Result ProcessResult
  answer skipped t (w, ok _) = (
    w,
    ok (record {
      processed_events = t.processed;
      skipped_events = skipped;
      rejected_events = t.rejected;
      cursor = w.indexer.cursor;
      alerts = t.alerts;
    }),
  )
  answer skipped t (w, refused e) = (w, refused e)

  reported_run :
      (skipped : ℕ) (t : Progress) (m : Operation S Unit) (w : World S)
      → (m ▸ λ _. reading ▸ λ final. returning (record {
        processed_events = t.processed;
        skipped_events = skipped;
        rejected_events = t.rejected;
        cursor = final.cursor;
        alerts = t.alerts;
      }))
          w
        ≡ answer skipped t (m w)
  unfolding ◌▸◌
  reported_run skipped t m w = answered (m w)
    where
      answered :
          (r : World S × Result Unit)
          → elim r.1 [
            | ok _ ↦ (
              r.0,
              ok (record {
                processed_events = t.processed;
                skipped_events = skipped;
                rejected_events = t.rejected;
                cursor = r.0.indexer.cursor;
                alerts = t.alerts;
              }),
            )
            | refused e ↦ (r.0, refused e)
          ]
            ≡ answer skipped t r
      answered (v, ok _) = refl
      answered (v, refused e) = refl

  abbrev Keeps : {A : Type 0} → Operation S A → Type 0
  Keeps m = (w : World S) → (m w).0.indexer ≡ w.indexer

  then-Keeps :
      {A B : Type 0} (m : Operation S A) (k : A → Operation S B)
      → Keeps m
      → ((a : A) → Keeps (k a))
      → Keeps (m ▸ k)
  unfolding ◌▸◌
  then-Keeps {A} {B} m k f g w = after (m w) ∙ f w
    where
      after :
          (r : World S × Result A)
          → (elim r.1 as (λ _. World S × Result B) [
            | ok a ↦ k a r.0
            | refused e ↦ (r.0, refused e)
          ]).0.indexer
            ≡ r.0.indexer
      after (v, ok a) = g a v
      after (v, refused e) = refl

  requiring-Keeps : (b : Bool) (e : IndexerError) → Keeps (requiring b e)
  requiring-Keeps true e w = refl
  requiring-Keeps false e w = refl

  module _ (store : IndexerStore S) where
    process_owned-run :
        (owner : Identity) (events : List ProtocolEvent) (w : World S) (s' : IndexerState)
        (t : Progress)
        → w.indexer.active_state_owner ≡ some owner
        → let page = skip_passed w.indexer.cursor (sort_by_cursor events) in
          process_groups (invalidate_reconciliation w.indexer) (group_events page.1) ≡ (s', some t)
          → process_owned store events owner none w
            ≡ answer page.0 t (report_alerts store t.alerts owner none (record w { indexer = s' }))
    unfolding process_owned running
    process_owned-run owner events w s' t mine ran =
        let v : World S = record w { indexer = invalidate_reconciliation w.indexer } in
        let page = skip_passed w.indexer.cursor (sort_by_cursor events) in
        then_ok _ _ (asserted owner w mine)
        ∙ then_ok _ _ {v = v} refl
        ∙ then_ok _ _ {v = v} refl
        ∙ then_ok _ _ (ap (λ r. lifting r.1 (record v { indexer = r.0 })) ran)
        ∙ reported_run page.0 t (report_alerts store t.alerts owner none)
            (record w { indexer = s' })

    -- A page on an idle indexer: the loop over its groups, and the report of its alerts.
    pub process-run :
        (owner : Identity) (events : List ProtocolEvent) (w : World S) (s' : IndexerState)
        (t : Progress)
        → w.indexer.active_state_owner ≡ none
        → let page = skip_passed w.indexer.cursor (sort_by_cursor events) in
          process_groups (begun_by owner w.indexer) (group_events page.1) ≡ (s', some t)
          → process store owner events w
            ≡ released owner (
                answer page.0 t
                  (report_alerts store t.alerts owner none (record w { indexer = s' })))
    unfolding process
    process-run owner events w s' t idle ran =
        with_state_owner-idle owner (process_owned store events owner none) w idle
        ∙ ap (released owner) (
            process_owned-run owner events
              (record w { indexer = record w.indexer { active_state_owner = some owner } }) s' t
              refl ran)

    with_exclusive_writer-Keeps :
        {A : Type 0} (operation : Identity → Operation S A)
        → ((lease : Identity) → Keeps (operation lease))
        → Keeps (with_exclusive_writer store operation)
    unfolding with_exclusive_writer
    with_exclusive_writer-Keeps {A} operation f w = acquired (store.acquire w.store)
      where
        acquired :
            (r : S × Result Identity)
            → (elim r.1 as (λ _. World S × Result A) [
              | refused e ↦ (record w { store = r.0 }, refused e)
              | ok lease ↦
                  let result = operation lease (record w { store = r.0 }) in
                  (record result.0 { store = store.release result.0.store }, result.1)
            ]).0.indexer
              ≡ w.indexer
        acquired (s, ok lease) = f lease (record w { store = s })
        acquired (s, refused e) = refl

    -- The report of alerts does not touch the indexer.
    pub report_alerts-indexer :
        (alerts : List CriticalAlert) (owner : Identity) (w : World S)
        → (report_alerts store alerts owner none w).0.indexer ≡ w.indexer
    unfolding report_alerts persist_alerts with_store_writer
    report_alerts-indexer [] owner w = refl
    report_alerts-indexer (a ∷ alerts) owner w =
        then-Keeps _ _
          (then-Keeps _ _ (requiring-Keeps store.permits_implicit_writer_lease _) (λ _.
            with_exclusive_writer-Keeps (λ l. storing store (store.append_alerts (a ∷ alerts) l))
              (λ l v. refl)))
          (λ _ v. requiring-Keeps (is_owner owner v.indexer.active_state_owner) _ v) w
