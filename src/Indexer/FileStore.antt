-- ===== src/Indexer/FileStore.antt =====
-- The snapshot of `FileIndexerStore` (packages/indexer/src/file-store.ts). Its file is there, with
-- an envelope of strings, or absent; reading, locking and the atomic write are the file system's.
use cedra_reflect.Base.{
  Bool, Option, String, bool_eq, false, if◌then◌else◌, is_none, is_value, nat_beq, none, not,
  option_eq, require, some, string_eq, true, ◌&&◌, ◌==◌, ◌>>=◌, ◌||◌,
}
use cedra_reflect.Int.{ltb_ℤ, negsuc, pos, ℤ, ℤ_eq, ◌-ℤ◌}
use cedra_reflect.Indexer.Store.{Identity, IndexerError, Result, ok, refused}
use cedra_reflect.Snapshot.Codec.{
  Codec, decode_snapshot, encode_snapshot, is_digest, is_snapshot_id,
}
use cedra_reflect.Snapshot.Serial.{SerializableProjection, serialise_projection}
use cedra_reflect.Types.Common.{EventCursor, lifecycle_eq, status_eq}
use cedra_reflect.Types.Observed.{IndexerSnapshot}

-- What a check ends in.
abbrev pub granting : {A : Type 0} → Option A → IndexerError → Result A
granting none e = refused e
granting (some a) e = ok a

infixl 20 ◌≫◌
unfoldable pub ◌≫◌ : {A B : Type 0} → Result A → (A → Result B) → Result B
ok a ≫ k = k a
refused e ≫ k = refused e

-- `assertActiveLease`
abbrev holds_lease : Option Identity → Identity → Bool
holds_lease none lease = false
holds_lease (some l) lease = nat_beq l lease

-- `compareSnapshotCursor`
unfoldable pub compare_snapshot_cursor : Option EventCursor → Option EventCursor → ℤ
compare_snapshot_cursor none none = pos 0
compare_snapshot_cursor none (some r) = negsuc 0
compare_snapshot_cursor (some l) none = pos 1
compare_snapshot_cursor (some l) (some r) =
    if not (l.ledger_version == r.ledger_version)
    then (if ltb_ℤ l.ledger_version r.ledger_version then negsuc 0 else pos 1)
    else l.event_index -ℤ r.event_index

module _ (c : Codec) where
  pub record SnapshotEnvelope : Type 0 where
    pub manifest_sha256 : String
    pub payload_sha256 : String
    pub payload : c.Text

  -- The object and its snapshot file.
  pub record FileStore : Type 0 where
    pub manifest : String
    pub snapshot_file : Option SnapshotEnvelope
    pub file_lease : Option Identity

  -- `parseSnapshotEnvelope`, of a file of strings.
  abbrev pub is_valid_envelope : String → SnapshotEnvelope → Bool
  is_valid_envelope manifest e =
      e.manifest_sha256 == manifest
      && is_digest e.payload_sha256
      && c.digest e.payload == e.payload_sha256

  -- `loadLatestSnapshot`; `none` is a throw.
  unfoldable pub load_snapshot_file : FileStore → Option (Option IndexerSnapshot)
  load_snapshot_file s = elim s.snapshot_file [
    | none ↦ some none
    | some e ↦ require (is_valid_envelope s.manifest e) e >>= λ valid.
        decode_snapshot c valid.payload >>= λ t. some (some t)
  ]

  abbrev pub envelope_of : String → IndexerSnapshot → SnapshotEnvelope
  envelope_of manifest t = record {
    manifest_sha256 = manifest;
    payload_sha256 = c.digest (encode_snapshot c t);
    payload = encode_snapshot c t;
  }

  -- The digest of the state of a snapshot, and whether an envelope is below the limit of a file, are
  -- computed by Node.
  module _ (state_digest : Option EventCursor → SerializableProjection → String)
      (is_below_limit : SnapshotEnvelope → Bool) where
    -- `snapshotStateDigest`
    abbrev pub snapshot_state_digest : IndexerSnapshot → String
    snapshot_state_digest t = state_digest t.cursor (serialise_projection t.projection)

    -- `assertMonotonicSnapshot`
    unfoldable pub is_monotonic : IndexerSnapshot → IndexerSnapshot → Bool
    is_monotonic existing candidate =
        let order = compare_snapshot_cursor candidate.cursor existing.cursor in
        not (ltb_ℤ order (pos 0))
        && (not (order == pos 0)
            || snapshot_state_digest candidate == snapshot_state_digest existing)

    -- The durable base: what is expected, and what the file holds.
    unfoldable pub check_base :
        Option String → Option IndexerSnapshot → IndexerSnapshot → Result Unit
    check_base base none candidate =
        granting (require (is_none base) tt) IndexerError.stale_snapshot
    check_base base (some existing) candidate =
        granting (require (is_value base existing.id && is_monotonic existing candidate) tt)
          IndexerError.stale_snapshot

    abbrev pub is_optional_snapshot_id : Option String → Bool
    is_optional_snapshot_id none = true
    is_optional_snapshot_id (some id) = is_snapshot_id id

    -- `saveSnapshot` and `saveSnapshotUnderLease`, up to the write.
    unfoldable pub envelope_to_save :
        IndexerSnapshot → Identity → Option String → FileStore → Result SnapshotEnvelope
    envelope_to_save t lease base s =
        granting (require (holds_lease s.file_lease lease) tt) IndexerError.invalid_writer_lease
        ≫ λ _. granting (require (is_optional_snapshot_id base) tt) IndexerError.failed ≫ λ _.
            granting (decode_snapshot c (encode_snapshot c t)) IndexerError.failed ≫ λ validated.
            granting (require (is_below_limit (envelope_of s.manifest t)) tt)
              IndexerError.range_error
            ≫ λ _. granting (load_snapshot_file s) IndexerError.failed ≫ λ existing.
                check_base base existing validated ≫ λ _. ok (envelope_of s.manifest t)

    unfoldable pub save_snapshot_file :
        IndexerSnapshot → Identity → Option String → FileStore → FileStore × Result Unit
    unfolding envelope_to_save
    save_snapshot_file t lease base s = elim (envelope_to_save t lease base s) [
      | refused e ↦ (s, refused e)
      | ok e ↦ (record s { snapshot_file = some e }, ok tt)
    ]
