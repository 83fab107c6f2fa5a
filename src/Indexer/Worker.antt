-- ===== src/Indexer/Worker.antt =====
-- `IndexerWorker` of packages/indexer/src/worker.ts.
use cedra_reflect.Base.{List, Option, [], is_empty, is_none, none, not, some, ◌++◌, ◌||◌, ◌∷◌}
use cedra_reflect.Int.{ℤ}
use cedra_reflect.Indexer.Checkpoint.{
  reconcile_owned, restore_latest_snapshot_owned, snapshot_owned,
}
use cedra_reflect.Indexer.Operation.{Operation, returning, storing, whether, ◌▸◌}
use cedra_reflect.Indexer.Process.{ProcessResult, poll_once_owned}
use cedra_reflect.Indexer.Store.{Identity, IndexerStore, ProtocolEventSource, Result}
use cedra_reflect.Indexer.Writer.{with_exclusive_store_writer}
use cedra_reflect.Snapshot.Codec.{Codec}
use cedra_reflect.Types.Common.{CriticalAlert}
use cedra_reflect.Types.Observed.{IndexerSnapshot, ReconciliationReport}

-- `CriticalAlertSink`. What a sink keeps is durable too, and part of the same state as the store's.
pub record CriticalAlertSink (S : Type 0) : Type 0 where
  pub deliver : CriticalAlert → S → S × Result Unit

-- Alerts stand for their identifiers.
pub record WorkerRunResult : Type 0 where
  pub processing : ProcessResult
  pub reconciliation : Option ReconciliationReport
  pub snapshot : Option IndexerSnapshot
  pub delivered_alerts : List CriticalAlert

module _ {S : Type 0} (c : Codec) (store : IndexerStore S) (sink : CriticalAlertSink S) where
  -- `deliver`: the alerts that are delivered, one after another.
  unfoldable pub deliver : List CriticalAlert → Operation S Unit
  deliver [] = returning tt
  deliver (a ∷ alerts) = storing store (sink.deliver a) ▸ λ _. deliver alerts

  -- The clock is read twice: `now` by the reconciliation, `taken_at` for the checkpoint.
  unfoldable pub run_once_under_lease :
      ProtocolEventSource → ℤ → ℤ → ℤ → Identity → Identity → Operation S WorkerRunResult
  unfolding deliver restore_latest_snapshot_owned poll_once_owned reconcile_owned snapshot_owned
  run_once_under_lease source now taken_at limit owner lease =
      restore_latest_snapshot_owned c store owner ▸ λ _.
      poll_once_owned store source limit owner (some lease) ▸ λ processing.
      deliver processing.alerts ▸ λ _.
      whether (not (is_empty processing.alerts) || is_none processing.cursor)
        (returning (record {
          processing = processing;
          reconciliation = none;
          snapshot = none;
          delivered_alerts = processing.alerts;
        }))
        (reconcile_owned c store now source owner (some lease) ▸ λ report.
          deliver report.alerts ▸ λ _.
          whether (not report.reconciled)
            (returning (record {
              processing = processing;
              reconciliation = some report;
              snapshot = none;
              delivered_alerts = processing.alerts ++ report.alerts;
            }))
            (snapshot_owned c store taken_at owner (some lease) ▸ λ taken. returning (record {
              processing = processing;
              reconciliation = some report;
              snapshot = some taken;
              delivered_alerts = processing.alerts ++ report.alerts;
            })))

  unfoldable pub run_once : ProtocolEventSource → ℤ → ℤ → ℤ → Identity → Operation S WorkerRunResult
  unfolding run_once_under_lease with_exclusive_store_writer
  run_once source now taken_at limit owner =
      with_exclusive_store_writer c store owner
        (run_once_under_lease source now taken_at limit owner)
