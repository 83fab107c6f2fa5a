-- ===== src/Pages/Cut.antt =====
-- On a page that is cut in two, with an overlap (`process` of
-- packages/indexer/src/event-indexer.ts).
use cedra_reflect.Base.{
  List, [], ap, eq_of_some, if◌then◌else◌, nat_eq, none, refl, some, sym, ◌++◌, ◌∙◌, ◌≡◌, ℕ,
}
use cedra_reflect.Indexer.Cursor.{event_cursor, group_events, last_of, skip_passed, sort_by_cursor}
use cedra_reflect.Indexer.Operation.{IndexerState, World, is_owner, release_owner, set_projection}
use cedra_reflect.Indexer.Process.{ProcessResult, Progress, process, report_alerts}
use cedra_reflect.Indexer.Runs.{answer, begun_by, process-run, released}
use cedra_reflect.Indexer.Store.{Identity, IndexerStore, Result, ok, refused}
use cedra_reflect.Pages.Append.{Before, alerts_of}
use cedra_reflect.Pages.Groups.{process_groups-keeps}
use cedra_reflect.Pages.Overlap.{page_loop-append}
use cedra_reflect.Pages.Replayed.{answer-world, page_loop, page_loop-Ends}
use cedra_reflect.Types.Common.{CriticalAlert}
use cedra_reflect.Types.Event.{ProtocolEvent}

answer-alerts :
    {S : Type 0} (owner : Identity) (skipped : ℕ) (t : Progress) (r : World S × Result Unit)
    (x : ProcessResult)
    → (released owner (answer skipped t r)).1 ≡ ok x
    → t.alerts ≡ x.alerts
answer-alerts owner skipped t (w, ok _) x h = ap (alerts_in t.alerts) h
  where
    alerts_in : List CriticalAlert → Result ProcessResult → List CriticalAlert
    alerts_in d (ok y) = y.alerts
    alerts_in d (refused e) = d
answer-alerts owner skipped t (w, refused e) x h = cc

-- The loop does not touch the owner of the state, nor does it set a reconciliation.
abbrev IsBegunBy : Identity → IndexerState → Type 0
IsBegunBy owner s = begun_by owner s ≡ s

page_loop-IsBegunBy :
    (owner : Identity) (s : IndexerState) (events : List ProtocolEvent)
    → IsBegunBy owner s
    → IsBegunBy owner (page_loop s events).0
page_loop-IsBegunBy owner s events h =
    process_groups-keeps (IsBegunBy owner)
      (λ s g p _ k. ap (set_projection p (some (event_cursor (last_of g)))) k) s
      (group_events (skip_passed s.cursor (sort_by_cursor events)).1) h

module _ {S : Type 0} (store : IndexerStore S) (owner : Identity) where
  -- The world after a page: the loop's state, and alerts that are reported.
  abbrev reported : World S → List CriticalAlert → IndexerState → World S
  reported w alerts s =
      let v = (report_alerts store alerts owner none (record w { indexer = s })).0 in
      record v { indexer = release_owner owner v.indexer }

  process-reported :
      (events : List ProtocolEvent) (w : World S) (t : Progress)
      → w.indexer.active_state_owner ≡ none
      → (page_loop (begun_by owner w.indexer) events).1 ≡ some t
      → (process store owner events w).0
        ≡ reported w t.alerts (page_loop (begun_by owner w.indexer) events).0
  process-reported events w t idle ran =
      let s = (page_loop (begun_by owner w.indexer) events).0 in
      let page = skip_passed w.indexer.cursor (sort_by_cursor events) in
      ap (λ r. r.0) (process-run store owner events w s t idle (λ i. (s, ran i)))
      ∙ ap (λ (v : World S). record v { indexer = release_owner owner v.indexer })
          (answer-world page.0 t
            (report_alerts store t.alerts owner none (record w { indexer = s })))

  reported-none :
      (w : World S) (alerts : List CriticalAlert) (s : IndexerState)
      → alerts ≡ []
      → reported w alerts s ≡ record w { indexer = release_owner owner s }
  unfolding report_alerts
  reported-none w alerts s h = ap (λ l. reported w l s) h

  -- The state between two pages is idle.
  released-idle :
      (s : IndexerState) → IsBegunBy owner s → (release_owner owner s).active_state_owner ≡ none
  released-idle s h =
      let held = ap (λ x. x.active_state_owner) (sym h) in
      let mine = ap (is_owner owner) held ∙ (nat_eq.beq_iff owner owner).1 refl in
      ap (λ b. if b then none else s.active_state_owner) mine

  -- Where a page is cut between transactions makes no difference, and neither does an overlap: on an
  -- idle indexer, processing the events `ws` and `zs` without an alert, and then a page of `zs` again
  -- and of events `ys` of later ledger versions, leaves the indexer and the store as processing all
  -- of them at once does, whatever alerts the later events raise.
  pub process-append :
      (ws zs ys : List ProtocolEvent) (w : World S) (r : ProcessResult)
      → w.indexer.active_state_owner ≡ none
      → Before (ws ++ zs) ys
      → (process store owner (ws ++ zs) w).1 ≡ ok r
      → r.alerts ≡ []
      → (process store owner ((ws ++ zs) ++ ys) w).0
        ≡ (process store owner (zs ++ ys) (process store owner (ws ++ zs) w).0).0
  process-append ws zs ys w r idle before answered clean =
      let xs = ws ++ zs in
      let begun = begun_by owner w.indexer in
      let first = page_loop-Ends begun xs in
      let t = first.progress in
      let s = (page_loop begun xs).0 in
      let run = process-run store owner xs w s t idle (λ i. (s, first.on i)) in
      let quiet =
        answer-alerts owner (skip_passed w.indexer.cursor (sort_by_cursor xs)).0 t
          (report_alerts store t.alerts owner none (record w { indexer = s })) r
          (ap (λ o. o.1) (sym run) ∙ answered)
        ∙ clean in
      let mine = page_loop-IsBegunBy owner begun xs refl in
      let between : World S = record w { indexer = release_owner owner s } in
      let reached = process-reported xs w t idle first.on ∙ reported-none w t.alerts s quiet in
      let whole = page_loop-Ends begun (xs ++ ys) in
      let second = page_loop-Ends (begun_by owner between.indexer) (zs ++ ys) in
      let (ends, alerted) = page_loop-append begun ws zs ys t before first.on quiet in
      let same = ends ∙ ap (λ x. (page_loop x (zs ++ ys)).0) (sym mine) in
      let raised = eq_of_some (
        ap alerts_of (sym whole.on)
        ∙ alerted
        ∙ ap (λ x. alerts_of (page_loop x (zs ++ ys)).1) (sym mine)
        ∙ ap alerts_of second.on) in
      process-reported (xs ++ ys) w whole.progress idle whole.on
      ∙ ap (λ l. reported w l (page_loop begun (xs ++ ys)).0) raised
      ∙ ap (reported w second.progress.alerts) same
      ∙ sym (process-reported (zs ++ ys) between second.progress (released-idle s mine) second.on)
      ∙ ap (λ v. (process store owner (zs ++ ys) v).0) (sym reached)
