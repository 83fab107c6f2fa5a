-- ===== src/Indexer/Process.antt =====
-- `processOwned` and `pollOnceOwned` of packages/indexer/src/event-indexer.ts.
use cedra_reflect.Base.{
  List, Option, [], bool_eq, if◌then◌else◌, is_empty, length, none, option_eq, some, string_eq, ℕ,
  ◌&&◌, ◌+◌, ◌==◌, ◌>>=◌, ◌∷◌,
}
use cedra_reflect.Int.{leb_ℤ, pos, ℤ, ℤ_eq}
use cedra_reflect.Indexer.Cursor.{
  EventGroup, event_cursor, event_order_alert, events_of, group_events, is_passed, last_of,
  skip_passed, sort_by_cursor,
}
use cedra_reflect.Indexer.Operation.{
  IndexerState, Operation, assert_state_owner, invalidate_reconciliation, lifting, persist_alerts,
  reading, requiring, returning, set_projection, with_state_owner, writing, ◌▸◌,
}
use cedra_reflect.Indexer.Store.{Identity, IndexerError, IndexerStore, ProtocolEventSource}
use cedra_reflect.Reducer.Empty.{cedra_testnet_chain_id}
use cedra_reflect.Reducer.Reduce.{ReduceResult, reduce_event_group}
use cedra_reflect.Types.Common.{CriticalAlert, EventCursor, lifecycle_eq, status_eq}
use cedra_reflect.Types.Event.{ProtocolEvent}
use cedra_reflect.Types.State.{ProtocolProjection}

pub record ProcessResult : Type 0 where
  pub processed_events : ℕ
  pub skipped_events : ℕ
  pub rejected_events : ℕ
  pub cursor : Option EventCursor
  pub alerts : List CriticalAlert

-- What the loop over the groups adds up.
pub record Progress : Type 0 where
  pub processed : ℕ
  pub rejected : ℕ
  pub alerts : List CriticalAlert

-- What becomes of a group: the next projection, alerts, or a throw of `reduceEventGroup`.
pub data GroupOutcome : Type 0 where
  advanced : ProtocolProjection → GroupOutcome
  stopped : List CriticalAlert → GroupOutcome
  interrupted : GroupOutcome

abbrev pub outcome_of : Option ReduceResult → GroupOutcome
outcome_of none = interrupted
outcome_of (some r) = if is_empty r.alerts then advanced r.projection else stopped r.alerts

unfoldable pub process_group : IndexerState → EventGroup → GroupOutcome
unfolding is_passed reduce_event_group
process_group s g =
    if is_passed s.cursor g.first
    then stopped (event_order_alert g.first s.cursor ∷ [])
    else outcome_of (reduce_event_group s.projection (events_of g))

-- What the loop does with a group: it goes on, or it stops at alerts, and the events are rejected.
abbrev pub after_group :
    IndexerState
    → EventGroup
    → (ProtocolProjection → IndexerState × Option Progress)
    → GroupOutcome
    → IndexerState × Option Progress
after_group s g rest interrupted = (s, none)
after_group s g rest (stopped alerts) =
    (s, some (record { processed = 0; rejected = length (events_of g); alerts = alerts }))
after_group s g rest (advanced p) = (
  (rest p).0,
  (rest p).1 >>= λ t. some (record t { processed = length (events_of g) + t.processed }),
)

-- The loop over the groups.
unfoldable pub process_groups : IndexerState → List EventGroup → IndexerState × Option Progress
process_groups s [] = (s, some (record { processed = 0; rejected = 0; alerts = [] }))
process_groups s (g ∷ gs) =
    after_group s g (λ p. process_groups (set_projection p (some (event_cursor (last_of g))) s) gs)
      (process_group s g)

module _ {S : Type 0} (store : IndexerStore S) where
  unfoldable pub running : List EventGroup → Operation S Progress
  unfolding process_groups
  running groups w =
      let result = process_groups w.indexer groups in
      lifting result.1 (record w { indexer = result.0 })

  -- `if (alerts.length > 0)`: they are made durable first.
  unfoldable pub report_alerts : List CriticalAlert → Identity → Option Identity → Operation S Unit
  unfolding persist_alerts
  report_alerts [] owner lease = returning tt
  report_alerts (a ∷ alerts) owner lease =
      persist_alerts store (a ∷ alerts) lease ▸ λ _. assert_state_owner owner

  unfoldable pub process_owned :
      List ProtocolEvent → Identity → Option Identity → Operation S ProcessResult
  unfolding running report_alerts sort_by_cursor skip_passed group_events
  process_owned events owner lease = assert_state_owner owner ▸ λ _.
      writing invalidate_reconciliation ▸ λ _. reading ▸ λ before.
      let page = skip_passed before.cursor (sort_by_cursor events) in
      running (group_events page.1) ▸ λ progress. report_alerts progress.alerts owner lease ▸ λ _.
      reading ▸ λ final. returning (record {
        processed_events = progress.processed;
        skipped_events = page.0;
        rejected_events = progress.rejected;
        cursor = final.cursor;
        alerts = progress.alerts;
      })

  unfoldable pub process : Identity → List ProtocolEvent → Operation S ProcessResult
  unfolding process_owned with_state_owner
  process owner events = with_state_owner owner (process_owned events owner none)

  unfoldable pub poll_once_owned :
      ProtocolEventSource → ℤ → Identity → Option Identity → Operation S ProcessResult
  unfolding process_owned
  poll_once_owned source limit owner lease = assert_state_owner owner ▸ λ _.
      requiring (leb_ℤ (pos 1) limit && leb_ℤ limit (pos 10_000)) IndexerError.range_error ▸ λ _.
      reading ▸ λ s. lifting (source.list_events s.cursor limit) ▸ λ page.
      assert_state_owner owner ▸ λ _.
      requiring (page.chain_id == cedra_testnet_chain_id) IndexerError.chain_id_mismatch ▸ λ _.
      process_owned page.events owner lease

  unfoldable pub poll_once : Identity → ProtocolEventSource → ℤ → Operation S ProcessResult
  unfolding poll_once_owned with_state_owner
  poll_once owner source limit = with_state_owner owner (poll_once_owned source limit owner none)
