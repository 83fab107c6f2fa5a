-- ===== src/Tests/Cycles.antt =====
-- The indexer on the in-memory store (packages/indexer/src/event-indexer.ts,
-- packages/indexer/src/memory-store.ts) at a concrete deployment.
use cedra_reflect.Base.{
  Bool-cases, [], eq_of_some, if◌then◌else◌, inl, inr, none, refl, some, string_eq, subst, sym,
  true, ◌==◌, ◌≡◌,
}
use cedra_reflect.Checkpoints.RoundTrip.{IsSealed}
use cedra_reflect.Int.{neg, pos, ℤ_eq, ◌-ℤ◌}
use cedra_reflect.Certificates.Certified.{ChainViews, IsAnswering, IsCertified}
use cedra_reflect.Certificates.Durable.{Run-IsCertified}
use cedra_reflect.Certificates.Worlds.{Run, begun, checkpointed, continued, reconciled}
use cedra_reflect.Domains.Checked.{fits_nullable, fits_signed}
use cedra_reflect.Durability.Restart.{restore_latest_snapshot-resumed, resumed}
use cedra_reflect.Durability.Writers.{
  Calls, called, save_snapshot_in_memory_refuses_stale, saved, uncalled,
}
use cedra_reflect.Indexer.Checkpoint.{
  accept_reconciliation, is_at_cursor, is_checkpointable, reconcile_owned,
}
use cedra_reflect.Indexer.Cursor.{compare_cursor}
use cedra_reflect.Indexer.Memory.{
  MemoryStore, acquire_writer, empty_store, memory_store, release_writer, save_snapshot_in_memory,
}
use cedra_reflect.Indexer.Operation.{World, initial_state, whether, with_state_owner, ◌▸◌}
use cedra_reflect.Indexer.Process.{report_alerts}
use cedra_reflect.Indexer.Store.{ProtocolEventSource, ok}
use cedra_reflect.Indexer.Worker.{CriticalAlertSink}
use cedra_reflect.Indexer.Writer.{checkpoint, reconcile_views, restore_latest_snapshot}
use cedra_reflect.Reducer.Authority.{authorities_complete}
use cedra_reflect.Tests.Checkpoints.{clean_run, live_snapshot, plain_codec}
use cedra_reflect.Types.Observed.{IndexerSnapshot}
use cedra_reflect.Tests.Views.{live, live_cursor, live_views}

abbrev live_world : World MemoryStore
live_world = record {
  indexer = record initial_state { projection = live; cursor = some live_cursor };
  store = empty_store;
}

-- A chain without news whose views are those of the deployment.
abbrev quiet_chain : ProtocolEventSource
quiet_chain = record {
  list_events = λ cursor limit. some (record { chain_id = pos 2; events = []; next_cursor = none });
  get_accounting_snapshot =
      λ version. if version == live_cursor.ledger_version then some live_views else none;
}

-- The chain at the version of the cursor.
abbrev live_chain : ChainViews
live_chain version o = (version ≡ live_cursor.ledger_version) × (o ≡ live_views)

quiet_chain-IsAnswering : IsAnswering live_chain quiet_chain
quiet_chain-IsAnswering version o h = elim (Bool-cases (version == live_cursor.ledger_version)) [
  | inl here ↦
      ((ℤ_eq.beq_iff version live_cursor.ledger_version).0 here, sym (eq_of_some (rw here at h)))
  | inr other ↦ cc (rw other at h)
]

abbrev silent_sink : CriticalAlertSink MemoryStore
silent_sink = record { deliver = λ a s. (s, ok tt) }

abbrev reconciled_world : World MemoryStore
reconciled_world = record live_world {
  indexer = record live_world.indexer {
    reconciled = some (record {
      projection = 0;
      cursor = live_cursor;
      state_identity = "snapshot-0000000000000000000000000000000000000000000000000000000000000000";
    });
  };
}

reconcile_run :
    (reconcile_views plain_codec memory_store (pos 0) 1 quiet_chain live_world).0 ≡ reconciled_world
unfolding reconcile_views with_state_owner ◌▸◌ whether ◌-ℤ◌ report_alerts accept_reconciliation
    is_checkpointable authorities_complete is_at_cursor compare_cursor reconcile_owned fits_signed
    neg fits_nullable
reconcile_run = rw clean_run refl

abbrev checkpointed_world : World MemoryStore
checkpointed_world = record {
  indexer = record reconciled_world.indexer {
    durable_base_snapshot_id = some (some live_snapshot.id);
  };
  store = record empty_store { latest = some live_snapshot; next_lease = 1 };
}

checkpoint_run :
    (checkpoint plain_codec memory_store 2 (pos 5) reconciled_world).0 ≡ checkpointed_world
unfolding checkpoint with_state_owner ◌▸◌ whether ◌-ℤ◌ fits_signed neg fits_nullable acquire_writer
    save_snapshot_in_memory release_writer
checkpoint_run = refl

silent_steps : Run live_chain plain_codec memory_store silent_sink live_world checkpointed_world
silent_steps =
    subst (Run live_chain plain_codec memory_store silent_sink live_world) checkpoint_run (
      continued reconciled_world _
        (subst (Run live_chain plain_codec memory_store silent_sink live_world) reconcile_run
          (continued live_world _ begun (reconciled (pos 0) 1 quiet_chain quiet_chain-IsAnswering)))
        (checkpointed 2 (pos 5)))

Run-IsCertified_example : IsCertified live_chain plain_codec live_snapshot
Run-IsCertified_example =
    Run-IsCertified live_chain plain_codec silent_sink live_world checkpointed_world (λ a s. refl)
      refl refl silent_steps live_snapshot refl

live-IsSealed : IsSealed plain_codec live_snapshot
live-IsSealed =
    (Run-IsCertified live_chain plain_codec silent_sink live_world checkpointed_world (λ a s. refl)
      refl refl silent_steps live_snapshot refl).is_sealed

-- A new process on the store of the run.
abbrev restarted_world : World MemoryStore
restarted_world = record { indexer = initial_state; store = checkpointed_world.store }

restore_latest_snapshot-resumed_example :
    restore_latest_snapshot plain_codec memory_store 3 restarted_world ≡ (
      record { indexer = resumed live_snapshot initial_state; store = checkpointed_world.store },
      ok (some live_snapshot),
    )
restore_latest_snapshot-resumed_example =
    restore_latest_snapshot-resumed plain_codec 3 restarted_world live_snapshot refl refl
      live-IsSealed
      (record { positions = (refl, tt); lp_epochs = (refl, tt); lp_positions = ((refl, tt), tt) })

abbrev held_store : MemoryStore
held_store = record empty_store { writer_active = true; active_lease = some 0; next_lease = 1 }

abbrev saved_store : MemoryStore
saved_store = record held_store { latest = some live_snapshot }

saved_run : save_snapshot_in_memory live_snapshot 0 none held_store ≡ (saved_store, ok tt)
unfolding save_snapshot_in_memory
saved_run = refl

-- Another snapshot is saved on the first one before the stale save.
abbrev second_snapshot : IndexerSnapshot
second_snapshot = record live_snapshot { id = "snapshot-second" }

abbrev overwritten_store : MemoryStore
overwritten_store = record held_store { latest = some second_snapshot }

overwriting :
    save_snapshot_in_memory second_snapshot 0 (some live_snapshot.id) saved_store
    ≡ (overwritten_store, ok tt)
unfolding save_snapshot_in_memory
overwriting = refl

saves_between : Calls none saved_store overwritten_store
saves_between =
    subst (λ r. Calls none saved_store r.0) overwriting
      (called saved_store _ uncalled (saved second_snapshot 0 (some live_snapshot.id) (λ same. cc)))

save_snapshot_in_memory_refuses_stale_example :
    ((save_snapshot_in_memory live_snapshot 0 none overwritten_store).0 ≡ overwritten_store)
    × ¬ ((save_snapshot_in_memory live_snapshot 0 none overwritten_store).1 ≡ ok tt)
save_snapshot_in_memory_refuses_stale_example =
    save_snapshot_in_memory_refuses_stale live_snapshot live_snapshot 0 0 none held_store
      saved_store overwritten_store saved_run (λ same. cc) saves_between
