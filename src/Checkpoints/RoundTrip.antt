-- ===== src/Checkpoints/RoundTrip.antt =====
-- On `takeSnapshot`, `encodeSnapshot` and `decodeSnapshot` of packages/indexer/src/snapshot.ts in a
-- row.
use cedra_reflect.Base.{
  Option, String, [], and_true, ap, arith, bool_eq, every, false, has_unique, map, nat_eq, none,
  option_eq, refl, require-eq-some, same, some, string_eq, subst, sym, true, ◌<>◌, ◌∙◌, ◌∷◌, ◌≡◌,
}
use cedra_reflect.Int.{ℤ, ℤ_eq}
use cedra_reflect.Checkpoints.Maps.{IsKeyed, map_from-nil-values}
use cedra_reflect.Dict.{Dict, Values, map_from}
use cedra_reflect.Domains.Checked.{fits}
use cedra_reflect.Snapshot.Codec.{
  Codec, after, decode_snapshot, encode_snapshot, is_digest, is_serializable_snapshot,
  is_snapshot_id, serialise, snapshot_id, take_snapshot,
}
use cedra_reflect.Snapshot.Projection.{has_valid_entries, is_projection}
use cedra_reflect.Snapshot.Serial.{
  SerializableLpEpoch, SerializableProjection, SerializableSnapshot, restore_epoch,
  restore_projection, serialise_epoch, serialise_projection, values,
}
use cedra_reflect.Snapshot.Valid.{is_cursor, is_lp_epoch}
use cedra_reflect.Types.Common.{Address, EventCursor, lifecycle_eq, status_eq}
use cedra_reflect.Types.Observed.{IndexerSnapshot}
use cedra_reflect.Types.State.{
  IndexedLpEpoch, IndexedLpPosition, IndexedPosition, ProtocolProjection,
}
use text.Mathlib.TextLemmas.{nil-append, cons-append}
use Prim.Native.Char.{code}

-- Positions stand under their accounts, LP epochs under their numbers and LP positions under their
-- owners, as the handlers of the reducer set them.
pub record IsOwnKeyed (p : ProtocolProjection) : Type 0 where
  pub positions : IsKeyed (λ q. q.account) p.positions
  pub lp_epochs : IsKeyed (λ e. e.epoch) p.lp_epochs
  pub lp_positions : Values (λ e. IsKeyed (λ q. q.owner) e.positions) p.lp_epochs

map-spread :
    (d : Dict ℤ IndexedLpEpoch)
    → map (λ s. s.spread.epoch) (map serialise_epoch (values d)) ≡ map (λ e. e.epoch) (values d)
map-spread [] = refl
map-spread ((_, e) ∷ d) = ap (λ t. e.epoch ∷ t) (map-spread d)

is_lp_epoch_unique :
    (s : SerializableLpEpoch)
    → is_lp_epoch s ≡ true
    → has_unique (map (λ q. q.owner) s.positions) ≡ true
unfolding is_lp_epoch
is_lp_epoch_unique s h = (and_true _ (has_unique (map (λ q. q.owner) s.positions)) h).1

abbrev held_by : IndexedLpEpoch → Dict Address IndexedLpPosition → IndexedLpEpoch
held_by e d = record e { positions = d }

abbrev held :
    ProtocolProjection → Dict Address IndexedPosition → Dict ℤ IndexedLpEpoch → ProtocolProjection
held p d epochs = record p { positions = d; lp_epochs = epochs }

restore_epoch-serialise_epoch :
    (e : IndexedLpEpoch)
    → IsKeyed (λ q. q.owner) e.positions
    → is_lp_epoch (serialise_epoch e) ≡ true
    → restore_epoch (serialise_epoch e) ≡ e
restore_epoch-serialise_epoch e keyed h = ap (held_by e) (
    map_from-nil-values (λ q. q.owner) e.positions keyed (is_lp_epoch_unique (serialise_epoch e) h))

map-restore_epoch :
    (d : Dict ℤ IndexedLpEpoch)
    → Values (λ e. IsKeyed (λ q. q.owner) e.positions) d
    → every is_lp_epoch (map serialise_epoch (values d)) ≡ true
    → map restore_epoch (map serialise_epoch (values d)) ≡ values d
map-restore_epoch [] keyed h = refl
map-restore_epoch ((_, e) ∷ d) (own, keyed) h =
    let (here, rest) =
      and_true (is_lp_epoch (serialise_epoch e))
        (every is_lp_epoch (map serialise_epoch (values d))) h in
    rw (restore_epoch-serialise_epoch e own here, map-restore_epoch d keyed rest)

-- What the validation says of the arrays.
record IsRestorable (s : SerializableProjection) : Type 0 where
  accounts : has_unique (map (λ q. q.account) s.positions) ≡ true
  epochs : every is_lp_epoch s.lp_epochs ≡ true
  numbers : has_unique (map (λ e. e.spread.epoch) s.lp_epochs) ≡ true

is_projection-IsRestorable : (s : SerializableProjection) → is_projection s ≡ true → IsRestorable s
unfolding is_projection has_valid_entries
is_projection-IsRestorable s h =
    let entries : has_valid_entries s ≡ true = ground arith in
    record { accounts = ground arith; epochs = ground arith; numbers = ground arith }

restore_projection-serialise_projection :
    (p : ProtocolProjection)
    → IsOwnKeyed p
    → is_projection (serialise_projection p) ≡ true
    → restore_projection (serialise_projection p) ≡ p
restore_projection-serialise_projection p keyed h =
    let valid = is_projection-IsRestorable (serialise_projection p) h in
    let epochs =
      ap (map_from (λ e. e.epoch) [])
        (map-restore_epoch p.lp_epochs keyed.lp_positions valid.epochs)
      ∙ map_from-nil-values (λ e. e.epoch) p.lp_epochs keyed.lp_epochs
          (ap has_unique (sym (map-spread p.lp_epochs)) ∙ valid.numbers) in
    ap
      (λ t.
        held p t (
          map_from (λ e. e.epoch) []
            (map restore_epoch (map serialise_epoch (values p.lp_epochs)))))
      (map_from-nil-values (λ q. q.account) p.positions keyed.positions valid.accounts)
    ∙ ap (held p p.positions) epochs

after-append : (p s : String) → after p (p <> s) ≡ some s
after-append String.[] s = ap (λ t. some t) (nil-append s)
after-append (String.◌∷◌ a p) s =
    ap (after (String.◌∷◌ a p)) (cons-append a p s)
    ∙ rw ((nat_eq.beq_iff (code a) (code a)).1 refl, after-append p s)

module _ (c : Codec) where
  snapshot_id-is_snapshot_id : (s : SerializableSnapshot) → is_snapshot_id (snapshot_id c s) ≡ true
  unfolding is_snapshot_id snapshot_id
  snapshot_id-is_snapshot_id s =
      let digest = c.digest (c.encode (record s { id = "pending" })) in
      ap (λ r. elim r [ none ↦ false | some rest ↦ is_digest rest ])
        (after-append "snapshot-" digest)
      ∙ c.is_digest_digest (c.encode (record s { id = "pending" }))

  -- A snapshot that passes the validation and has the identifier of its content.
  abbrev pub IsSealed : IndexerSnapshot → Type 0
  IsSealed s =
      (fits 64 s.taken_at_unix_milliseconds ≡ true)
      × (is_cursor s.cursor ≡ true)
      × (is_projection (serialise_projection s.projection) ≡ true)
      × (s.id ≡ snapshot_id c (serialise c s))

  -- A snapshot that passes the validation is written and read again unchanged.
  pub IsSealed-decode :
      (s : IndexerSnapshot)
      → IsOwnKeyed s.projection
      → IsSealed s
      → decode_snapshot c (encode_snapshot c s) ≡ some s
  unfolding decode_snapshot encode_snapshot is_serializable_snapshot
  IsSealed-decode s keyed (in_time, at, valid, id) =
      let parsed = c.parse-encode (serialise c s) (in_time, at, valid) in
      let named = ap is_snapshot_id id ∙ snapshot_id-is_snapshot_id (serialise c s) in
      let own = (string_eq.beq_iff s.id (snapshot_id c (serialise c s))).1 id in
      rw (
        parsed,
        in_time,
        named,
        at,
        valid,
        own,
        restore_projection-serialise_projection s.projection keyed valid,
      )

  pub take_snapshot-IsSealed :
      (p : ProtocolProjection) (cursor : Option EventCursor) (taken_at : ℤ) (s : IndexerSnapshot)
      → take_snapshot c p cursor taken_at ≡ some s
      → IsSealed s × (s.projection ≡ p) × (s.cursor ≡ cursor)
  unfolding take_snapshot
  take_snapshot-IsSealed p cursor taken_at s h =
      let (valid, taken) = require-eq-some _ _ h in
      subst (λ t. IsSealed t × (t.projection ≡ p) × (t.cursor ≡ cursor)) taken
        ((ground arith, ground arith, ground arith, refl), refl, refl)

  -- A checkpoint that `takeSnapshot` gives, of a projection whose maps are keyed by their values,
  -- is written and read again unchanged: the plain form, the validation and the identifier, which is
  -- recomputed, let every such checkpoint pass.
  pub decode_snapshot-encode_snapshot :
      (p : ProtocolProjection) (cursor : Option EventCursor) (taken_at : ℤ) (s : IndexerSnapshot)
      → IsOwnKeyed p
      → take_snapshot c p cursor taken_at ≡ some s
      → decode_snapshot c (encode_snapshot c s) ≡ some s
  decode_snapshot-encode_snapshot p cursor taken_at s keyed h =
      let (valid, same, _) = take_snapshot-IsSealed p cursor taken_at s h in
      IsSealed-decode s (subst IsOwnKeyed (sym same) keyed) valid
