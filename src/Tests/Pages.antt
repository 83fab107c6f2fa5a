-- ===== src/Tests/Pages.antt =====
-- A page of one transaction, processed on an empty projection
-- (packages/indexer/src/event-indexer.ts).
use cedra_reflect.Base.{[], ap, arith, refl, some, ◌∷◌, ◌≡◌}
use cedra_reflect.Int.{pos, ◌-ℤ◌}
use cedra_reflect.Indexer.Cursor.{
  compare_cursor, group_events, group_from, is_passed, precedes, skip_passed, sort_by_cursor,
  sort_by_cursor_from,
}
use cedra_reflect.Indexer.Memory.{MemoryStore, empty_store, memory_store}
use cedra_reflect.Indexer.Operation.{World, initial_state}
use cedra_reflect.Indexer.Process.{
  ProcessResult, Progress, process, process_group, process_groups, report_alerts,
}
use cedra_reflect.Indexer.Runs.{begun_by, process-run}
use cedra_reflect.Indexer.Store.{ok}
use cedra_reflect.Pages.Again.{skip_passed-process_groups}
use cedra_reflect.Pages.Cut.{process-append}
use cedra_reflect.Pages.Replayed.{ReplaysPage, page_loop, process-ReplaysPage}
use cedra_reflect.Reducer.Empty.{create_empty_projection}
use cedra_reflect.Reducer.Reduce.{reduce_event_group}
use cedra_reflect.Reducer.Screen.{sort_events}
use cedra_reflect.Types.Event.{ProtocolEvent}
use cedra_reflect.Tests.{base_at, first_result, first_run, first_transaction, grant, registration}

abbrev empty_world : World MemoryStore
empty_world = record { indexer = initial_state; store = empty_store }

process-ReplaysPage_example :
    let r = process memory_store 1 first_transaction empty_world in
    ReplaysPage initial_state first_transaction r.0.indexer r.1
process-ReplaysPage_example = process-ReplaysPage memory_store 1 first_transaction empty_world refl

sorted_run :
    reduce_event_group create_empty_projection (registration ∷ grant ∷ [])
    ≡ some (first_result "uninitialized")
unfolding reduce_event_group sort_events
sorted_run = first_run "uninitialized"

abbrev two_processed : Progress
two_processed = record { processed = 2; rejected = 0; alerts = [] }

page_run :
    (process_groups initial_state
      (group_events (skip_passed initial_state.cursor (sort_by_cursor first_transaction)).1)).1
    ≡ some two_processed
unfolding process_groups process_group group_events group_from skip_passed is_passed sort_by_cursor
    sort_by_cursor_from precedes compare_cursor ◌-ℤ◌
page_run = rw sorted_run refl

skip_passed-process_groups_example :
    skip_passed
      (process_groups initial_state (
        group_events
          (skip_passed initial_state.cursor (sort_by_cursor first_transaction)).1)).0.cursor
      (sort_by_cursor first_transaction)
    ≡ (2, [])
skip_passed-process_groups_example =
    skip_passed-process_groups initial_state first_transaction two_processed page_run refl

begun_run : (page_loop (begun_by 1 initial_state) first_transaction).1 ≡ some two_processed
unfolding process_groups process_group group_events group_from skip_passed is_passed sort_by_cursor
    sort_by_cursor_from precedes compare_cursor ◌-ℤ◌
begun_run = rw sorted_run refl

abbrev first_answer : ProcessResult
first_answer = record {
  processed_events = 2;
  skipped_events = 0;
  rejected_events = 0;
  cursor = (page_loop (begun_by 1 initial_state) first_transaction).0.cursor;
  alerts = [];
}

first_page : (process memory_store 1 first_transaction empty_world).1 ≡ ok first_answer
unfolding report_alerts skip_passed is_passed sort_by_cursor sort_by_cursor_from precedes
    compare_cursor ◌-ℤ◌
first_page =
    ap (λ r. r.1)
      (process-run memory_store 1 first_transaction empty_world
        (page_loop (begun_by 1 initial_state) first_transaction).0 two_processed refl
        (λ i. ((page_loop (begun_by 1 initial_state) first_transaction).0, begun_run i)))

-- A grant of the next ledger version, in a page that brings the registration again.
abbrev next_grant : ProtocolEvent
next_grant = record grant {
  base = record (base_at "e2" 0) { ledger_version = pos 8; tx_hash = "0xt2" };
}

process-append_example :
    (process memory_store 1 (grant ∷ registration ∷ next_grant ∷ []) empty_world).0
    ≡ (process memory_store 1
        (registration ∷ next_grant ∷ [])
        (process memory_store 1 (grant ∷ registration ∷ []) empty_world).0).0
process-append_example =
    process-append memory_store 1 (grant ∷ []) (registration ∷ []) (next_grant ∷ []) empty_world
      first_answer refl (omega arith) first_page refl
