-- ===== src/Snapshot/Codec.antt =====
-- `takeSnapshot`, `encodeSnapshot` and `decodeSnapshot` of packages/indexer/src/snapshot.ts.
use cedra_reflect.Base.{
  Bool, Option, String, bool_eq, false, if◌then◌else◌, nat_beq, none, option_eq, require, some,
  string_eq, suc, true, ℕ, ◌&&◌, ◌<>◌, ◌==◌, ◌>>=◌, ◌≡◌,
}
use cedra_reflect.Int.{ℤ, ℤ_eq}
use cedra_reflect.Domains.Checked.{fits}
use cedra_reflect.Snapshot.Projection.{is_projection}
use cedra_reflect.Snapshot.Serial.{SerializableSnapshot, restore_projection, serialise_projection}
use cedra_reflect.Snapshot.Valid.{is_cursor, is_hex_digit}
use cedra_reflect.Types.Common.{EventCursor, lifecycle_eq, status_eq}
use cedra_reflect.Types.Observed.{IndexerSnapshot}
use cedra_reflect.Types.State.{ProtocolProjection}
use Prim.Native.Char.{code}

abbrev hex_length : String → Option ℕ
hex_length String.[] = some 0
hex_length (String.◌∷◌ c s) = hex_length s >>= λ n. require (is_hex_digit c) (suc n)

-- `/^[0-9a-f]{64}$/`
unfoldable pub is_digest : String → Bool
is_digest s = elim (hex_length s) [ none ↦ false | some n ↦ nat_beq n 64 ]

-- `/^snapshot-[0-9a-f]{64}$/`
abbrev snapshot_prefix : String
snapshot_prefix = "snapshot-"

abbrev pub after : String → String → Option String
after String.[] s = some s
after (String.◌∷◌ c p) String.[] = none
after (String.◌∷◌ c p) (String.◌∷◌ d s) = if nat_beq (code c) (code d) then after p s else none

unfoldable pub is_snapshot_id : String → Bool
unfolding is_digest
is_snapshot_id s = elim (after snapshot_prefix s) [ none ↦ false | some rest ↦ is_digest rest ]

-- What `encodeBigInts` and `bigintReviver` are given to write and to read: numbers of Move's widths,
-- which have 78 digits at most.
abbrev pub IsWithinWidths : SerializableSnapshot → Type 0
IsWithinWidths s =
    (fits 64 s.taken_at_unix_milliseconds ≡ true)
    × (is_cursor s.cursor ≡ true)
    × (is_projection s.projection ≡ true)

-- The texts and the digest come from outside: `JSON.stringify` and `JSON.parse` with the replacer
-- and the reviver of bigints, and the hexadecimal SHA-256 of Node's crypto module. `parse` is `none`
-- where a text is not that of a plain snapshot's fields.
pub record Codec : Type 1 where
  pub Text : Type 0
  pub encode : SerializableSnapshot → Text
  pub parse : Text → Option SerializableSnapshot
  pub digest : Text → String
  pub parse-encode : (s : SerializableSnapshot) → IsWithinWidths s → parse (encode s) ≡ some s
  pub is_digest_digest : (t : Text) → is_digest (digest t) ≡ true

module _ (c : Codec) where
  -- `snapshotId(snapshotIdentityEncoding(…))`
  unfoldable pub snapshot_id : SerializableSnapshot → String
  snapshot_id s = "snapshot-" <> c.digest (c.encode (record s { id = "pending" }))

  abbrev pub serialise : IndexerSnapshot → SerializableSnapshot
  serialise s = record {
    id = s.id;
    taken_at_unix_milliseconds = s.taken_at_unix_milliseconds;
    cursor = s.cursor;
    projection = serialise_projection s.projection;
  }

  unfoldable pub take_snapshot :
      ProtocolProjection → Option EventCursor → ℤ → Option IndexerSnapshot
  unfolding is_cursor is_projection fits snapshot_id
  take_snapshot p cursor taken_at =
      let pending : SerializableSnapshot = record {
        id = "pending";
        taken_at_unix_milliseconds = taken_at;
        cursor = cursor;
        projection = serialise_projection p;
      } in
      require (fits 64 taken_at && is_cursor cursor && is_projection pending.projection) (record {
        id = snapshot_id pending;
        taken_at_unix_milliseconds = taken_at;
        cursor = cursor;
        projection = p;
      })

  unfoldable pub encode_snapshot : IndexerSnapshot → c.Text
  encode_snapshot s = c.encode (serialise s)

  unfoldable pub is_serializable_snapshot : SerializableSnapshot → Bool
  unfolding is_cursor is_projection fits
  is_serializable_snapshot s =
      fits 64 s.taken_at_unix_milliseconds
      && is_snapshot_id s.id
      && is_cursor s.cursor
      && is_projection s.projection

  unfoldable pub decode_snapshot : c.Text → Option IndexerSnapshot
  unfolding is_serializable_snapshot snapshot_id
  decode_snapshot t = c.parse t >>= λ s.
      require (is_serializable_snapshot s && s.id == snapshot_id s) (record {
        id = s.id;
        taken_at_unix_milliseconds = s.taken_at_unix_milliseconds;
        cursor = s.cursor;
        projection = restore_projection s.projection;
      })
