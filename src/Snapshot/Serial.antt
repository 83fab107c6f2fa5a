-- ===== src/Snapshot/Serial.antt =====
-- The plain form of a projection in packages/indexer/src/snapshot.ts, in which maps are arrays.
use cedra_reflect.Base.{List, Option, String, [], bool_eq, map, option_eq, string_eq, ◌∷◌}
use cedra_reflect.Int.{ℤ, ℤ_eq}
use cedra_reflect.Dict.{Dict, map_from}
use cedra_reflect.Types.Common.{EventCursor, lifecycle_eq, status_eq}
use cedra_reflect.Types.State.{
  IndexedLpEpoch, IndexedLpPosition, IndexedPosition, ProtocolProjection,
}

abbrev pub values {ℓ κ} : {K : Type ℓ} {V : Type κ} → Dict K V → List V
values [] = []
values ((_, v) ∷ d) = v ∷ values d

-- `SerializableLpEpoch`: what is spread from the epoch, whose own map is empty here, and the
-- positions.
pub record SerializableLpEpoch : Type 0 where
  pub spread : IndexedLpEpoch
  pub positions : List IndexedLpPosition

-- `SerializableProjection`: what is spread from the projection, with the maps that are written as
-- entries, and the two maps that are written as values.
pub record SerializableProjection : Type 0 where
  pub spread : ProtocolProjection
  pub positions : List IndexedPosition
  pub lp_epochs : List SerializableLpEpoch

pub record SerializableSnapshot : Type 0 where
  pub id : String
  pub taken_at_unix_milliseconds : ℤ
  pub cursor : Option EventCursor
  pub projection : SerializableProjection

abbrev pub serialise_epoch : IndexedLpEpoch → SerializableLpEpoch
serialise_epoch e = record { spread = record e { positions = [] }; positions = values e.positions }

-- `serialiseProjection`
abbrev pub serialise_projection : ProtocolProjection → SerializableProjection
serialise_projection p = record {
  spread = record p { positions = []; lp_epochs = [] };
  positions = values p.positions;
  lp_epochs = map serialise_epoch (values p.lp_epochs);
}

-- The loops of `decodeSnapshot` that fill the maps.
abbrev pub restore_epoch : SerializableLpEpoch → IndexedLpEpoch
restore_epoch e = record e.spread { positions = map_from (λ q. q.owner) [] e.positions }

abbrev pub restore_projection : SerializableProjection → ProtocolProjection
restore_projection s = record s.spread {
  positions = map_from (λ q. q.account) [] s.positions;
  lp_epochs = map_from (λ e. e.epoch) [] (map restore_epoch s.lp_epochs);
}
