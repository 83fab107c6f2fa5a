-- ===== src/Certificates/Certified.antt =====
-- What a durable checkpoint of packages/indexer/src/event-indexer.ts is backed by, and what the
-- indexer and its store keep for that.
use cedra_reflect.Base.{List, Option, String, [], nat_beq, none, some, true, ◌∷◌, ◌≡◌}
use cedra_reflect.Int.{ℤ}
use cedra_reflect.Agreement.Views.{Matches}
use cedra_reflect.Certificates.Triples.{
  Ended, Triple, Triple-assert, Triple-requiring, Triple-then, Triple-weaken,
}
use cedra_reflect.Checkpoints.RoundTrip.{IsSealed}
use cedra_reflect.Indexer.Checkpoint.{checkpoint_state_identity, is_at_cursor, is_checkpointable}
use cedra_reflect.Indexer.Operation.{
  IndexerState, Operation, Reconciled, World, persist_alerts, release_owner, storing,
  with_exclusive_writer, with_state_owner, with_store_writer,
}
use cedra_reflect.Indexer.Process.{report_alerts}
use cedra_reflect.Indexer.Store.{
  Identity, IndexerError, IndexerStore, ProtocolEventSource, Result, ok, refused,
}
use cedra_reflect.Snapshot.Codec.{Codec}
use cedra_reflect.Types.Common.{CriticalAlert, EventCursor}
use cedra_reflect.Types.Observed.{IndexerSnapshot, ObservedAccountingSnapshot}
use cedra_reflect.Types.State.{ProtocolProjection}

-- What the chain may answer to who asks for its views at a ledger version.
abbrev pub ChainViews : Type 1
ChainViews = ℤ → ObservedAccountingSnapshot → Type 0

-- A source that answers with nothing but views of the chain at the version it is asked for.
abbrev pub IsAnswering : ChainViews → ProtocolEventSource → Type 0
IsAnswering Shows source =
    (version : ℤ) (o : ObservedAccountingSnapshot)
    → source.get_accounting_snapshot version ≡ some o
    → Shows version o

-- Views of the chain at the ledger version of a cursor, which show a projection.
abbrev pub IsShown : ChainViews → ProtocolProjection → EventCursor → Type 0
IsShown Shows p cursor =
    (o : ObservedAccountingSnapshot) × Shows cursor.ledger_version o × Matches p o (some cursor)

-- A snapshot that decodes, of a projection that is ready to be written, at a cursor at whose ledger
-- version the chain answered with views that show that projection.
pub record IsCertified (Shows : ChainViews) (c : Codec) (t : IndexerSnapshot) : Type 0 where
  pub is_sealed : IsSealed c t
  pub is_ready : is_checkpointable t.projection ≡ true
  pub cursor : EventCursor
  pub at : t.cursor ≡ some cursor
  pub shown : IsShown Shows t.projection cursor

-- A reconciliation in hand that names the projection's object, the cursor and the state's identity is
-- one with views of the chain. What it says of another state is left open.
module _ {S : Type 0} (Shows : ChainViews) (c : Codec) (store : IndexerStore S) where
  abbrev pub IsBacked : IndexerState → Option Reconciled → Type 0
  IsBacked s none = Unit
  IsBacked s (some r) =
      (cursor : EventCursor)
      → s.cursor ≡ some cursor
      → nat_beq r.projection s.projection_object ≡ true
      → is_at_cursor cursor (some r.cursor) ≡ true
      → checkpoint_state_identity c store s.projection cursor ≡ some r.state_identity
      → IsShown Shows s.projection cursor

  abbrev pub IsReconciled : IndexerState → Type 0
  IsReconciled s = IsBacked s s.reconciled

-- That `J` holds of a store as long as only snapshots are saved of which `C` holds.
pub record Guards {S : Type 0} (store : IndexerStore S) (C : IndexerSnapshot → Type 0)
    (J : S → Type 0) : Type 0 where
  pub acquiring : (s : S) → J s → J (store.acquire s).0
  pub releasing : (s : S) → J s → J (store.release s)
  pub saving :
      (t : IndexerSnapshot) (lease : Identity) (base : Option String) (s : S)
      → C t
      → J s
      → J (store.save_snapshot t lease base s).0
  pub appending :
      (alerts : List CriticalAlert) (lease : Identity) (s : S)
      → J s
      → J (store.append_alerts alerts lease s).0

-- `F` holds of the indexer and `J` of the store.
abbrev pub Holds : {S : Type 0} → (IndexerState → Type 0) → (S → Type 0) → World S → Type 0
Holds F J w = F w.indexer × J w.store

abbrev pub IsSound :
    {S : Type 0} → ChainViews → Codec → IndexerStore S → (S → Type 0) → World S → Type 0
IsSound Shows c store J w = IsReconciled Shows c store w.indexer × J w.store

-- Who owns the state is no part of `G`.
abbrev pub IsOwnerless : (IndexerState → Type 0) → Type 0
IsOwnerless G =
    (s : IndexerState) (owner : Option Identity) → G s → G (record s { active_state_owner = owner })

module _ {S : Type 0} (J : S → Type 0) where
  owner-Ended :
      {A : Type 0} (G : IndexerState → Type 0) (R : A → Type 0)
      → IsOwnerless G
      → (owner : Identity) (r : World S × Result A) → Ended (Holds G J) (λ a w. Holds G J w × R a) r
      → Ended
          (Holds G J)
          (λ a w. Holds G J w × R a)
          (record r.0 { indexer = release_owner owner r.0.indexer }, r.1)
  owner-Ended G R keep owner (w, ok a) ((h, j), x) = ((keep w.indexer _ h, j), x)
  owner-Ended G R keep owner (w, refused e) (h, j) = (keep w.indexer _ h, j)

  pub Triple-with_state_owner :
      {A : Type 0} (G : IndexerState → Type 0) (R : A → Type 0)
      → IsOwnerless G
      → (owner : Identity) (m : Operation S A)
      → Triple (Holds G J) (Holds G J) m (λ a w. Holds G J w × R a)
      → Triple (Holds G J) (Holds G J) (with_state_owner owner m) (λ a w. Holds G J w × R a)
  unfolding with_state_owner
  Triple-with_state_owner G R keep owner m t = record {
    apply = λ w h. entered_ended w w.indexer.active_state_owner h;
  }
    where
      entered_ended :
          (w : World S) (held : Option Identity)
          → Holds G J w
          → Ended
              (Holds G J)
              (λ a v. Holds G J v × R a)
              (elim held [
                | some _ ↦ (w, refused IndexerError.concurrent_operation)
                | none ↦
                    let result = m (record w {
                      indexer = record w.indexer { active_state_owner = some owner };
                    }) in
                    (record result.0 { indexer = release_owner owner result.0.indexer }, result.1)
              ])
      entered_ended w (some _) h = h
      entered_ended w none (h, j) =
          let entered : World S = record w {
            indexer = record w.indexer { active_state_owner = some owner };
          } in
          owner-Ended G R keep owner (m entered)
            (t.apply entered (keep w.indexer (some owner) h, j))

  module _ {C : IndexerSnapshot → Type 0} (store : IndexerStore S) (g : Guards store C J)
      (G F : IndexerState → Type 0) (f : (s : IndexerState) → F s → G s) where
    released-Ended :
        {A : Type 0} (R : A → Type 0) (r : World S × Result A)
        → Ended (Holds G J) (λ a w. Holds F J w × R a) r
        → Ended
            (Holds G J)
            (λ a w. Holds F J w × R a)
            (record r.0 { store = store.release r.0.store }, r.1)
    released-Ended R (w, ok a) ((h, j), x) = ((h, g.releasing w.store j), x)
    released-Ended R (w, refused e) (h, j) = (h, g.releasing w.store j)

    pub Triple-with_exclusive_writer :
        {A : Type 0} (R : A → Type 0) (operation : Identity → Operation S A)
        → ((lease : Identity)
            → Triple (Holds G J) (Holds F J) (operation lease) (λ a w. Holds F J w × R a))
        → Triple
            (Holds G J)
            (Holds F J)
            (with_exclusive_writer store operation)
            (λ a w. Holds F J w × R a)
    unfolding with_exclusive_writer
    Triple-with_exclusive_writer R operation t = record {
      apply = λ w (h, j). acquired_ended w h (store.acquire w.store) (g.acquiring w.store j);
    }
      where
        acquired_ended :
            (w : World S)
            → F w.indexer
            → (r : S × Result Identity) → J r.0
            → Ended
                (Holds G J)
                (λ a v. Holds F J v × R a)
                (elim r.1 [
                  | refused e ↦ (record w { store = r.0 }, refused e)
                  | ok lease ↦
                      let result = operation lease (record w { store = r.0 }) in
                      (record result.0 { store = store.release result.0.store }, result.1)
                ])
        acquired_ended w h (s, ok lease) j =
            released-Ended R (operation lease (record w { store = s }))
              ((t lease).apply (record w { store = s }) (h, j))
        acquired_ended w h (s, refused e) j = (f w.indexer h, j)

    pub Triple-with_store_writer :
        {A : Type 0} (R : A → Type 0) (lease : Option Identity)
        (operation : Identity → Operation S A)
        → ((lease : Identity)
            → Triple (Holds G J) (Holds F J) (operation lease) (λ a w. Holds F J w × R a))
        → Triple
            (Holds G J)
            (Holds F J)
            (with_store_writer store lease operation)
            (λ a w. Holds F J w × R a)
    unfolding with_store_writer
    Triple-with_store_writer R (some lease) operation t = t lease
    Triple-with_store_writer R none operation t =
        Triple-then (Holds G J)
          (Triple-requiring (Holds G J) store.permits_implicit_writer_lease
            IndexerError.lease_required (λ w (h, j). (f w.indexer h, j)))
          (λ _. Triple-weaken (Holds G J) (λ w h. h.0) (Triple-with_exclusive_writer R operation t))

    appended-Ended :
        (s : IndexerState) (r : S × Result Unit)
        → F s
        → J r.0
        → Ended (Holds G J) (λ a w. Holds F J w × Unit) (record { indexer = s; store = r.0 }, r.1)
    appended-Ended s (t, ok a) h j = ((h, j), tt)
    appended-Ended s (t, refused e) h j = (f s h, j)

    -- Alerts that are made durable change neither.
    pub Triple-report_alerts :
        (alerts : List CriticalAlert) (owner : Identity) (lease : Option Identity)
        → Triple
            (Holds G J)
            (Holds F J)
            (report_alerts store alerts owner lease)
            (λ _ w. Holds F J w)
    unfolding report_alerts persist_alerts
    Triple-report_alerts [] owner lease = record { apply = λ w h. h }
    Triple-report_alerts (a ∷ alerts) owner lease =
        Triple-then (Holds G J)
          (Triple-with_store_writer (λ _. Unit) lease
            (λ l. storing store (store.append_alerts (a ∷ alerts) l))
            (λ l. record {
              apply = λ w (h, j).
                  appended-Ended w.indexer (store.append_alerts (a ∷ alerts) l w.store) h
                    (g.appending (a ∷ alerts) l w.store j);
            }))
          (λ _.
            Triple-weaken (Holds G J) (λ w h. h.0)
              (Triple-assert (Holds G J) owner (λ w (h, j). (f w.indexer h, j))))
