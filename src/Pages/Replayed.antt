-- ===== src/Pages/Replayed.antt =====
-- On what `process` of packages/indexer/src/event-indexer.ts makes of a page: transactions that are
-- reduced one after another, up to the first that raises an alert.
use mathlib.Core.List.{Perm}
use mathlib.Core.List.Perm
use cedra_reflect.Base.{
  All, List, Option, [], ap, length, none, refl, subst, sym, ◌++◌, ◌∙◌, ◌∷◌, ◌≡◌, ◌≢◌, ℕ,
}
use cedra_reflect.Indexer.Cursor.{EventGroup, group_events, skip_passed, sort_by_cursor}
use cedra_reflect.Indexer.Operation.{IndexerState, World}
use cedra_reflect.Indexer.Process.{ProcessResult, Progress, process, process_groups, report_alerts}
use cedra_reflect.Indexer.Runs.{answer, begun_by, process-run, released, report_alerts-indexer}
use cedra_reflect.Indexer.Store.{Identity, IndexerStore, Result, ok, refused}
use cedra_reflect.Pages.Again.{skip_passed-IsSorted}
use cedra_reflect.Pages.Groups.{process_groups-keeps}
use cedra_reflect.Pages.Loop.{Ends, Replays, Stops, end_cursor, process_groups-Ends}
use cedra_reflect.Pages.Order.{IsSorted, sort_by_cursor-IsSorted}
use cedra_reflect.Pages.Transactions.{
  AreTransactions, IsNew, IsOld, flat, flat-group_events, group_events-AreTransactions,
  skip_passed-Splits, sort_by_cursor-perm,
}
use cedra_reflect.Types.Common.{CriticalAlert, EventCursor}
use cedra_reflect.Types.Event.{ProtocolEvent}

-- What is answered: what was taken, skipped and rejected, with the alerts; an error only where there
-- are alerts.
abbrev pub Reports :
    ℕ → ℕ → ℕ → List CriticalAlert → Option EventCursor → Result ProcessResult → Type 0
Reports processed skipped rejected alerts cursor (ok r) =
    (r.processed_events ≡ processed)
    × (r.skipped_events ≡ skipped)
    × (r.rejected_events ≡ rejected)
    × (r.alerts ≡ alerts)
    × (r.cursor ≡ cursor)
Reports processed skipped rejected alerts cursor (refused e) = alerts ≢ []

-- A page, replayed from the state `s` to the state `s'`. Its events are those up to the cursor, which
-- are passed, and the new ones, which are sorted and make up transactions: each of one ledger
-- version, and every later one of a later version. The first transactions are taken, which lead from
-- projection to projection without an alert and bring the cursor to their last event; the first that
-- is left raises the alerts, and where none is left there are none.
pub record ReplaysPage (s : IndexerState) (events : List ProtocolEvent) (s' : IndexerState)
    (r : Result ProcessResult) : Type 0 where
  pub passed : List ProtocolEvent
  pub taken : List EventGroup
  pub left : List EventGroup
  pub whole : Perm events (passed ++ flat (taken ++ left))
  pub old : All (IsOld s.cursor) passed
  pub new : All (IsNew s.cursor) (flat (taken ++ left))
  pub sorted : IsSorted (flat (taken ++ left))
  pub transactions : AreTransactions (taken ++ left)
  pub replays : Replays s.projection taken s'.projection
  pub at : s'.cursor ≡ end_cursor s.cursor taken
  pub unreconciled : s'.reconciled ≡ none
  pub alerts : List CriticalAlert
  pub rejected : ℕ
  pub stops : Stops s'.projection left alerts rejected
  pub reports : Reports (length (flat taken)) (length passed) rejected alerts s'.cursor r

All-append-right :
    (P : ProtocolEvent → Type 0) (es fs : List ProtocolEvent) → All P (es ++ fs) → All P fs
All-append-right P [] fs h = h
All-append-right P (e ∷ es) fs (_, h) = All-append-right P es fs h

-- What holds of every event holds of the first of every group.
firsts-new :
    (P : ProtocolEvent → Type 0) (gs : List EventGroup) → All P (flat gs) → All (λ g. P g.first) gs
firsts-new P [] h = tt
firsts-new P (g ∷ gs) (h, hs) = (h, firsts-new P gs (All-append-right P g.others (flat gs) hs))

-- The loop over the groups of a page.
abbrev pub page_loop : IndexerState → List ProtocolEvent → IndexerState × Option Progress
page_loop s events =
    process_groups s (group_events (skip_passed s.cursor (sort_by_cursor events)).1)

pub page_loop-Ends :
    (s : IndexerState) (events : List ProtocolEvent)
    → Ends s (group_events (skip_passed s.cursor (sort_by_cursor events)).1) (page_loop s events)
page_loop-Ends s events =
    let all = sort_by_cursor events in
    let fresh = (skip_passed s.cursor all).1 in
    process_groups-Ends s (group_events fresh)
      (group_events-AreTransactions fresh
        (skip_passed-IsSorted s.cursor all (sort_by_cursor-IsSorted events)))
      (firsts-new (IsNew s.cursor) (group_events fresh) (
        subst (All (IsNew s.cursor)) (sym (flat-group_events fresh))
          (skip_passed-Splits s.cursor all).new))

answer-Reports :
    {S : Type 0} (owner : Identity) (processed skipped : ℕ) (t : Progress)
    (cursor : Option EventCursor) (r : World S × Result Unit)
    → t.processed ≡ processed
    → r.0.indexer.cursor ≡ cursor
    → (t.alerts ≡ [] → r.1 ≡ ok tt)
    → Reports processed skipped t.rejected t.alerts cursor (released owner (answer skipped t r)).1
answer-Reports owner processed skipped t cursor (w, ok _) counts at quiet =
    (counts, refl, refl, refl, at)
answer-Reports owner processed skipped t cursor (w, refused e) counts at quiet =
    λ none_left. cc (quiet none_left)

pub answer-world :
    {S : Type 0} (skipped : ℕ) (t : Progress) (r : World S × Result Unit)
    → (answer skipped t r).0 ≡ r.0
answer-world skipped t (w, ok _) = refl
answer-world skipped t (w, refused e) = refl

module _ {S : Type 0} (store : IndexerStore S) where
  report-quiet :
      (alerts : List CriticalAlert) (owner : Identity) (w : World S)
      → alerts ≡ []
      → (report_alerts store alerts owner none w).1 ≡ ok tt
  unfolding report_alerts
  report-quiet [] owner w h = refl
  report-quiet (a ∷ alerts) owner w h = cc

  -- What a page comes to on an idle indexer, whatever the order of its events and whatever the
  -- store: what the cursor has passed is skipped, and all else, sorted, is replayed transaction by
  -- transaction from the projection before, each reduced without an alert, up to the first that
  -- raises alerts, which leaves no trace in the projection and the cursor. The cursor is then that of
  -- the last event replayed, and a reconciliation in hand is dropped. The answer counts the events replayed, skipped and rejected, and has the
  -- alerts of that transaction, or none where all was replayed; there is an error only where alerts
  -- could not be made durable.
  pub process-ReplaysPage :
      (owner : Identity) (events : List ProtocolEvent) (w : World S)
      → w.indexer.active_state_owner ≡ none
      → ReplaysPage w.indexer events
          (process store owner events w).0.indexer
          (process store owner events w).1
  process-ReplaysPage owner events w idle =
      let cursor = w.indexer.cursor in
      let all = sort_by_cursor events in
      let page = skip_passed cursor all in
      let split = skip_passed-Splits cursor all in
      let sorted = skip_passed-IsSorted cursor all (sort_by_cursor-IsSorted events) in
      let begun = begun_by owner w.indexer in
      let ends = page_loop-Ends begun events in
      let t = ends.progress in
      let cuts = ends.cuts in
      let stopped : World S = record w { indexer = (page_loop begun events).0 } in
      let report = report_alerts store t.alerts owner none stopped in
      let run =
        process-run store owner events w stopped.indexer t idle
          (λ i. (stopped.indexer, ends.on i)) in
      let same =
        ap (λ v. v.indexer) (answer-world page.0 t report)
        ∙ report_alerts-indexer store t.alerts owner stopped in
      let groups_cut = ap flat cuts.cut ∙ flat-group_events page.1 in
      subst (λ r. ReplaysPage w.indexer events r.0.indexer r.1) (sym run)
        (record {
          passed = split.passed;
          taken = cuts.taken;
          left = cuts.left;
          whole =
              subst (λ l. Perm events (split.passed ++ l)) (sym groups_cut)
                (Perm.trans (sort_by_cursor-perm events) split.whole);
          old = split.old;
          new = subst (All (IsNew cursor)) (sym groups_cut) split.new;
          sorted = subst IsSorted (sym groups_cut) sorted;
          transactions =
              subst AreTransactions (sym cuts.cut) (group_events-AreTransactions page.1 sorted);
          replays =
              subst (λ x. Replays w.indexer.projection cuts.taken x.projection) (sym same)
                cuts.replays;
          at = ap (λ x. x.cursor) same ∙ cuts.at;
          unreconciled =
              ap (λ x. x.reconciled) same
              ∙ process_groups-keeps (λ x. x.reconciled ≡ none) (λ _ _ _ _ k. k) begun
                  (group_events page.1) refl;
          alerts = t.alerts;
          rejected = t.rejected;
          stops =
              subst (λ x. Stops x.projection cuts.left t.alerts t.rejected) (sym same) cuts.stops;
          reports =
              subst
                (λ n.
                  Reports (length (flat cuts.taken)) n t.rejected t.alerts
                    (released owner (answer page.0 t report)).0.indexer.cursor
                    (released owner (answer page.0 t report)).1)
                split.counts
                (answer-Reports owner (length (flat cuts.taken)) page.0 t _ report cuts.counts
                  (ap (λ v. v.indexer.cursor) (sym (answer-world page.0 t report)))
                  (report-quiet t.alerts owner stopped));
        })
