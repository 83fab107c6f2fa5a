-- ===== src/Tests/Files.antt =====
-- A snapshot in a file that is saved over itself (packages/indexer/src/file-store.ts).
use cedra_reflect.Base.{Bool, Option, String, refl, some, true, ◌≡◌}
use cedra_reflect.Int.{neg, ◌-ℤ◌}
use cedra_reflect.Domains.Checked.{fits_nullable, fits_signed}
use cedra_reflect.Durability.Files.{Replaces, save_snapshot_file-Replaces}
use cedra_reflect.Indexer.FileStore.{
  FileStore, SnapshotEnvelope, check_base, compare_snapshot_cursor, envelope_of, envelope_to_save,
  is_monotonic, load_snapshot_file, save_snapshot_file, ◌≫◌,
}
use cedra_reflect.Indexer.Store.{ok}
use cedra_reflect.Snapshot.Codec.{decode_snapshot, encode_snapshot, is_digest, is_snapshot_id}
use cedra_reflect.Snapshot.Serial.{SerializableProjection}
use cedra_reflect.Tests.Checkpoints.{live_snapshot, one_digest, plain_codec}
use cedra_reflect.Types.Common.{EventCursor}
use cedra_reflect.Types.Observed.{IndexerSnapshot}

abbrev constant_digest : Option EventCursor → SerializableProjection → String
constant_digest cursor p = one_digest

abbrev always : SnapshotEnvelope plain_codec → Bool
always e = true

abbrev written_file : FileStore plain_codec
written_file = record {
  manifest = one_digest;
  snapshot_file = some (envelope_of plain_codec one_digest live_snapshot);
  file_lease = some 0;
}

rewritten_run :
    save_snapshot_file plain_codec constant_digest always live_snapshot 0
      (some live_snapshot.id)
      written_file
    ≡ (written_file, ok tt)
unfolding save_snapshot_file envelope_to_save ◌≫◌ load_snapshot_file is_digest check_base
    is_monotonic compare_snapshot_cursor ◌-ℤ◌ is_snapshot_id decode_snapshot encode_snapshot
    fits_signed neg fits_nullable
rewritten_run = refl

save_snapshot_file-Replaces_example :
    (old : Option IndexerSnapshot) × (new : IndexerSnapshot) × (load_snapshot_file plain_codec
        written_file
      ≡ some old)
    × (load_snapshot_file plain_codec written_file ≡ some (some new))
    × (decode_snapshot plain_codec (encode_snapshot plain_codec live_snapshot) ≡ some new)
    × Replaces plain_codec constant_digest always (some live_snapshot.id) old new
save_snapshot_file-Replaces_example =
    save_snapshot_file-Replaces plain_codec constant_digest always live_snapshot 0
      (some live_snapshot.id) written_file written_file rewritten_run
