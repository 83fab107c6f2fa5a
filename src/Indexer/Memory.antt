-- ===== src/Indexer/Memory.antt =====
-- `InMemoryIndexerStore` of packages/indexer/src/memory-store.ts.
use cedra_reflect.Base.{
  Bool, List, Option, String, [], bool_eq, false, if◌then◌else◌, nat_beq, none, not, option_eq,
  some, string_eq, suc, true, ◌++◌, ◌==◌,
}
use cedra_reflect.Int.{ℤ_eq}
use cedra_reflect.Indexer.Store.{Identity, IndexerError, IndexerStore, Result, ok, refused}
use cedra_reflect.Types.Common.{CriticalAlert, lifecycle_eq, status_eq}
use cedra_reflect.Types.Observed.{IndexerSnapshot}

-- The number of the next lease stands for the identity of a new object.
pub record MemoryStore : Type 0 where
  pub latest : Option IndexerSnapshot
  pub alerts : List CriticalAlert
  pub writer_active : Bool
  pub active_lease : Option Identity
  pub next_lease : Identity

abbrev pub empty_store : MemoryStore
empty_store = record {
  latest = none;
  alerts = [];
  writer_active = false;
  active_lease = none;
  next_lease = 0;
}

abbrev pub latest_id : MemoryStore → Option String
latest_id s = elim s.latest [ none ↦ none | some t ↦ some t.id ]

-- `assertActiveLease`
abbrev pub is_active_lease : Identity → MemoryStore → Bool
is_active_lease lease s = elim s.active_lease [ none ↦ false | some l ↦ nat_beq l lease ]

-- `withExclusiveWriter` before its operation, and after it.
unfoldable pub acquire_writer : MemoryStore → MemoryStore × Result Identity
acquire_writer s =
    if s.writer_active then (s, refused IndexerError.concurrent_durable_writer) else (
      record s {
        writer_active = true;
        active_lease = some s.next_lease;
        next_lease = suc s.next_lease;
      },
      ok s.next_lease,
    )

unfoldable pub release_writer : MemoryStore → MemoryStore
release_writer s = record s { active_lease = none; writer_active = false }

unfoldable pub save_snapshot_in_memory :
    IndexerSnapshot → Identity → Option String → MemoryStore → MemoryStore × Result Unit
save_snapshot_in_memory t lease expected_base s =
    if not (is_active_lease lease s)
    then (s, refused IndexerError.invalid_writer_lease)
    else (if not (latest_id s == expected_base)
        then (s, refused IndexerError.stale_snapshot)
        else (record s { latest = some t }, ok tt))

unfoldable pub append_alerts_in_memory :
    List CriticalAlert → Identity → MemoryStore → MemoryStore × Result Unit
append_alerts_in_memory alerts lease s =
    if not (is_active_lease lease s)
    then (s, refused IndexerError.invalid_writer_lease)
    else (record s { alerts = s.alerts ++ alerts }, ok tt)

-- The class as a store.
abbrev pub memory_store : IndexerStore MemoryStore
memory_store = record {
  permits_implicit_writer_lease = true;
  acquire = acquire_writer;
  release = release_writer;
  load_latest_snapshot = λ s. ok s.latest;
  save_snapshot = save_snapshot_in_memory;
  append_alerts = append_alerts_in_memory;
}
