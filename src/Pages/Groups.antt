-- ===== src/Pages/Groups.antt =====
-- On the loop over the groups of `processOwned` in packages/indexer/src/event-indexer.ts.
use cedra_reflect.Base.{List, [], refl, some, ◌∷◌, ◌≡◌}
use cedra_reflect.Indexer.Cursor.{EventGroup, event_cursor, last_of}
use cedra_reflect.Indexer.Operation.{IndexerState, set_projection}
use cedra_reflect.Indexer.Process.{
  GroupOutcome, advanced, after_group, interrupted, process_group, process_groups, stopped,
}
use cedra_reflect.Types.State.{ProtocolProjection}

-- What every accepted group keeps, the loop keeps.
pub process_groups-keeps :
    (F : IndexerState → Type 0)
    → ((s : IndexerState) (g : EventGroup) (p : ProtocolProjection)
        → process_group s g ≡ advanced p
        → F s
        → F (set_projection p (some (event_cursor (last_of g))) s))
    → (s : IndexerState) (gs : List EventGroup) → F s
    → F (process_groups s gs).0
unfolding process_groups
process_groups-keeps F f s [] h = h
process_groups-keeps F f s (g ∷ gs) h = ended (process_group s g) refl (λ p e.
    process_groups-keeps F f (set_projection p (some (event_cursor (last_of g))) s) gs
      (f s g p e h))
  where
    ended :
        (o : GroupOutcome)
        → process_group s g ≡ o
        → ((p : ProtocolProjection)
            → process_group s g ≡ advanced p
            → F (process_groups (set_projection p (some (event_cursor (last_of g))) s) gs).0)
        → F
            (after_group s g
              (λ p. process_groups (set_projection p (some (event_cursor (last_of g))) s) gs)
              o).0
    ended interrupted e rest = h
    ended (stopped alerts) e rest = h
    ended (advanced p) e rest = rest p e
