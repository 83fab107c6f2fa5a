-- ===== src/Totality/Transactions.antt =====
-- On what `reduceEventGroup` of packages/indexer/src/reducer.ts returns.
use cedra_reflect.Base.{
  All, Bool-cases, List, String, [], and_true, any, arith, false, inl, inr, or_false, refl, some,
  true, ◌&&◌, ◌++◌, ◌∷◌, ◌≡◌,
}
use cedra_reflect.Int.{negsuc, ℤ}
use cedra_reflect.Dict.{Dict, Values, all_entries}
use cedra_reflect.Domains.Checked.{fits}
use cedra_reflect.Domains.Event.{fits_base, fits_event, fits_payload}
use cedra_reflect.Domains.Projection.{fits_epoch, fits_pool, fits_projection}
use cedra_reflect.Reducer.Group.{Receipt, as_liquidity, group_of, received, select}
use cedra_reflect.Reducer.LiquidityCheck.{check_liquidity}
use cedra_reflect.Reducer.Monad.{problem}
use cedra_reflect.Reducer.Reduce.{ReduceResult, reduce_event_group, reduce_group, reduce_sorted}
use cedra_reflect.Reducer.Screen.{is_event_data, screen, screen_event, screen_from, sort_events}
use cedra_reflect.Totality.Products.{Returns, Returns-bind}
use cedra_reflect.Totality.Receipts.{EpochFits, HasWidths, PoolFits, check_liquidity-Returns}
use cedra_reflect.Types.Common.{CriticalAlert, EventBase}
use cedra_reflect.Types.Event.{Payload, ProtocolEvent, liquidity}
use cedra_reflect.Types.Lp.{LiquidityEvent}
use cedra_reflect.Types.State.{IndexedLpEpoch, IndexedPool, ProtocolProjection}

-- What screening without an event-data alert has found of each event.
screen_event-fits :
    (prior : ProtocolProjection) (first : EventBase) (previous : ℤ) (ids : List String)
    (e : ProtocolEvent)
    → any is_event_data (screen_event prior first previous ids e) ≡ false
    → fits_event e ≡ true
unfolding screen_event problem
screen_event-fits prior first previous ids e h = elim (Bool-cases (fits_event e)) [
  | inl fit ↦ fit
  | inr unfit ↦ cc (rw unfit at h)
]

any-append :
    (xs ys : List CriticalAlert)
    → any is_event_data (xs ++ ys) ≡ false
    → (any is_event_data xs ≡ false) × (any is_event_data ys ≡ false)
any-append [] ys h = (refl, h)
any-append (x ∷ xs) ys h =
    let (head, rest) = or_false (is_event_data x) (any is_event_data (xs ++ ys)) h in
    let (left, right) = any-append xs ys rest in (rw (head, left) refl, right)

pub screen_from-fits :
    (prior : ProtocolProjection) (first : EventBase) (previous : ℤ) (ids : List String)
    (es : List ProtocolEvent)
    → any is_event_data (screen_from prior first previous ids es) ≡ false
    → All (λ e. fits_event e ≡ true) es
unfolding screen_from
screen_from-fits prior first previous ids [] h = tt
screen_from-fits prior first previous ids (e ∷ es) h =
    let (here, rest) = any-append (screen_event prior first previous ids e) _ h in
    (
      screen_event-fits prior first previous ids e here,
      screen_from-fits prior first e.event_index (e.id ∷ ids) es rest,
    )

liquidity-HasWidths : (e : LiquidityEvent) → fits_payload (liquidity e) ≡ true → HasWidths e
unfolding fits_payload
liquidity-HasWidths e h = ground arith

received-HasWidths :
    (b : EventBase) (o : Payload) (rest : List (Receipt LiquidityEvent))
    → fits_payload o ≡ true
    → All (λ r. HasWidths r.body) rest
    → All (λ r. HasWidths r.body) (received b (as_liquidity o) rest)
received-HasWidths b (liquidity e) rest h k = (liquidity-HasWidths e h, k)
received-HasWidths b _ rest h k = k

select-HasWidths :
    (es : List ProtocolEvent)
    → All (λ e. fits_event e ≡ true) es
    → All (λ r. HasWidths r.body) (select as_liquidity es)
unfolding fits_event
select-HasWidths [] h = tt
select-HasWidths (e ∷ es) (h, k) =
    received-HasWidths e.base e.payload (select as_liquidity es)
      (and_true (fits_base e.base) (fits_payload e.payload) h).1 (select-HasWidths es k)

fits_pool-PoolFits : (pool : IndexedPool) → fits_pool pool ≡ true → PoolFits pool
unfolding fits_pool
fits_pool-PoolFits pool h = ground arith

fits_epoch-EpochFits : (epoch : IndexedLpEpoch) → fits_epoch epoch ≡ true → EpochFits epoch
unfolding fits_epoch
fits_epoch-EpochFits epoch h = ground arith

all_entries-EpochFits :
    (d : Dict ℤ IndexedLpEpoch)
    → all_entries (λ key q. fits 64 key && fits_epoch q) d ≡ true
    → Values EpochFits d
all_entries-EpochFits [] h = tt
all_entries-EpochFits ((key, epoch) ∷ d) h =
    let (here, rest) = and_true (fits 64 key && fits_epoch epoch) _ h in
    (
      fits_epoch-EpochFits epoch (and_true (fits 64 key) (fits_epoch epoch) here).1,
      all_entries-EpochFits d rest,
    )

fits_projection-PoolFits :
    (p : ProtocolProjection)
    → fits_projection p ≡ true
    → PoolFits p.pool × Values EpochFits p.lp_epochs
unfolding fits_projection
fits_projection-PoolFits p h =
    let h1 = (and_true _ _ h).0 in
    let h2 = (and_true _ _ h1).0 in
    let h3 = (and_true _ _ h2).0 in
    let (h4, epochs) = and_true _ _ h3 in
    let h5 = (and_true _ _ h4).0 in
    let h6 = (and_true _ _ h5).0 in
    (fits_pool-PoolFits p.pool (and_true _ _ h6).1, all_entries-EpochFits p.lp_epochs epochs)

reduce_group-Returns :
    (prior : ProtocolProjection) (first : EventBase) (es : List ProtocolEvent)
    (screened : List CriticalAlert)
    → fits_projection prior ≡ true
    → All (λ e. fits_event e ≡ true) es
    → Returns (reduce_group (group_of prior first es) screened)
unfolding reduce_group
reduce_group-Returns prior first es screened h k =
    let (pool, epochs) = fits_projection-PoolFits prior h in
    Returns-bind (check_liquidity (group_of prior first es)) _
      (check_liquidity-Returns (group_of prior first es) (select-HasWidths es k) pool epochs)
      (λ found. (_, refl))

reduce_sorted-Returns :
    (prior : ProtocolProjection) (es : List ProtocolEvent) → Returns (reduce_sorted prior es)
unfolding reduce_sorted screen
reduce_sorted-Returns prior [] = (_, refl)
reduce_sorted-Returns prior (e ∷ es) = elim (Bool-cases (fits_projection prior)) [
  | inr unfit ↦ rw unfit (_, refl)
  | inl fit ↦ elim (Bool-cases (any is_event_data (screen prior e.base (e ∷ es)))) [
    | inl bad ↦ rw (fit, bad) (_, refl)
    | inr good ↦
        rw (fit, good)
          (reduce_group-Returns prior e.base (e ∷ es) (screen prior e.base (e ∷ es)) fit
            (screen_from-fits prior e.base (negsuc 0) [] (e ∷ es) good))
  ]
]

-- Whatever the projection and the transaction, `reduceEventGroup` returns a result: no arithmetic
-- outside its `try` throws, the checks of a liquidity receipt, its square root and its divisions
-- included.
pub reduce_event_group-Returns :
    (prior : ProtocolProjection) (events : List ProtocolEvent)
    → (r : ReduceResult) × (reduce_event_group prior events ≡ some r)
unfolding reduce_event_group
reduce_event_group-Returns prior events = reduce_sorted-Returns prior (sort_events events)
