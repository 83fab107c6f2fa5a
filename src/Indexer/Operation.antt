-- ===== src/Indexer/Operation.antt =====
-- The state of `EventIndexer` (packages/indexer/src/event-indexer.ts) and what its operations are
-- made of. An error leaves behind the state that it is thrown in.
use cedra_reflect.Base.{
  Bool, List, Option, String, [], false, if◌then◌else◌, nat_beq, none, some, suc, true, ◌∷◌,
}
use cedra_reflect.Indexer.Store.{Identity, IndexerError, IndexerStore, Result, ok, refused}
use cedra_reflect.Reducer.Empty.{create_empty_projection}
use cedra_reflect.Types.Common.{CriticalAlert, EventCursor}
use cedra_reflect.Types.State.{ProtocolProjection}

-- The three fields that `invalidateReconciliation` sets to null together. The projection's object is
-- known by its number.
pub record Reconciled : Type 0 where
  pub projection : Identity
  pub cursor : EventCursor
  pub state_identity : String

-- `this.projection` with the number of its object, which every assignment renews. The durable base
-- is `none` where the source has `undefined`.
pub record IndexerState : Type 0 where
  pub projection : ProtocolProjection
  pub projection_object : Identity
  pub cursor : Option EventCursor
  pub reconciled : Option Reconciled
  pub active_state_owner : Option Identity
  pub durable_base_snapshot_id : Option (Option String)

abbrev pub initial_state : IndexerState
initial_state = record {
  projection = create_empty_projection;
  projection_object = 0;
  cursor = none;
  reconciled = none;
  active_state_owner = none;
  durable_base_snapshot_id = none;
}

abbrev pub set_projection : ProtocolProjection → Option EventCursor → IndexerState → IndexerState
set_projection p cursor s = record s {
  projection = p;
  projection_object = suc s.projection_object;
  cursor = cursor;
}

-- `invalidateReconciliation`
abbrev pub invalidate_reconciliation : IndexerState → IndexerState
invalidate_reconciliation s = record s { reconciled = none }

abbrev pub is_owner : Identity → Option Identity → Bool
is_owner owner none = false
is_owner owner (some o) = nat_beq o owner

abbrev pub release_owner : Identity → IndexerState → IndexerState
release_owner owner s = record s {
  active_state_owner = if is_owner owner s.active_state_owner then none else s.active_state_owner;
}

pub record World (S : Type 0) : Type 0 where
  pub indexer : IndexerState
  pub store : S

abbrev pub Operation : Type 0 → Type 0 → Type 0
Operation S A = World S → World S × Result A

module _ {S : Type 0} where
  abbrev pub returning : {A : Type 0} → A → Operation S A
  returning a w = (w, ok a)

  abbrev pub throwing : {A : Type 0} → IndexerError → Operation S A
  throwing e w = (w, refused e)

  infixl 20 ◌▸◌
  unfoldable pub ◌▸◌ : {A B : Type 0} → Operation S A → (A → Operation S B) → Operation S B
  m ▸ k = λ w. elim (m w).1 [ ok a ↦ k a (m w).0 | refused e ↦ ((m w).0, refused e) ]

  -- `if (test) …; else …`
  unfoldable pub whether : {A : Type 0} → Bool → Operation S A → Operation S A → Operation S A
  whether true m n = m
  whether false m n = n

  abbrev pub reading : Operation S IndexerState
  reading w = (w, ok w.indexer)

  abbrev pub writing : (IndexerState → IndexerState) → Operation S Unit
  writing f w = (record w { indexer = f w.indexer }, ok tt)

  abbrev pub requiring : Bool → IndexerError → Operation S Unit
  requiring true e w = (w, ok tt)
  requiring false e w = (w, refused e)

  -- A call of the store that only reads it.
  abbrev pub consulting : {A : Type 0} → (S → Result A) → Operation S A
  consulting f w = (w, f w.store)

  -- A nullable value that must not be null.
  abbrev pub present : {A : Type 0} → Option A → IndexerError → Operation S A
  present none e w = (w, refused e)
  present (some a) e w = (w, ok a)

  -- What may throw in what is called.
  abbrev pub lifting : {A : Type 0} → Option A → Operation S A
  lifting none w = (w, refused IndexerError.failed)
  lifting (some a) w = (w, ok a)

  -- `assertStateOwner`
  abbrev pub assert_state_owner : Identity → Operation S Unit
  assert_state_owner owner w =
      requiring (is_owner owner w.indexer.active_state_owner) IndexerError.invalid_writer_cycle w

  -- `withStateOwner`, and with a new owner `withDirectStateOperation`.
  unfoldable pub with_state_owner : {A : Type 0} → Identity → Operation S A → Operation S A
  with_state_owner owner m w = elim w.indexer.active_state_owner [
    | some _ ↦ (w, refused IndexerError.concurrent_operation)
    | none ↦
        let result =
          m (record w { indexer = record w.indexer { active_state_owner = some owner } }) in
        (record result.0 { indexer = release_owner owner result.0.indexer }, result.1)
  ]

  module _ (store : IndexerStore S) where
    -- `this.store.withExclusiveWriter`
    unfoldable pub with_exclusive_writer : {A : Type 0} → (Identity → Operation S A) → Operation S A
    with_exclusive_writer operation w =
        let acquired = store.acquire w.store in
        elim acquired.1 [
          | refused e ↦ (record w { store = acquired.0 }, refused e)
          | ok lease ↦
              let result = operation lease (record w { store = acquired.0 }) in
              (record result.0 { store = store.release result.0.store }, result.1)
        ]

    -- `withStoreWriter`
    unfoldable pub with_store_writer :
        {A : Type 0} → Option Identity → (Identity → Operation S A) → Operation S A
    unfolding with_exclusive_writer
    with_store_writer (some lease) operation = operation lease
    with_store_writer none operation =
        requiring store.permits_implicit_writer_lease IndexerError.lease_required ▸ λ _.
        with_exclusive_writer operation

    -- A call of the store that changes it.
    abbrev pub storing : {A : Type 0} → (S → S × Result A) → Operation S A
    storing f w = (record w { store = (f w.store).0 }, (f w.store).1)

    -- `persistAlerts`
    unfoldable pub persist_alerts : List CriticalAlert → Option Identity → Operation S Unit
    unfolding with_store_writer
    persist_alerts [] lease = returning tt
    persist_alerts (a ∷ alerts) lease =
        with_store_writer lease (λ l. storing (store.append_alerts (a ∷ alerts) l))
