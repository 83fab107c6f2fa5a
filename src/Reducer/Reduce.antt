-- ===== src/Reducer/Reduce.antt =====
-- `reduceEventGroup` of packages/indexer/src/reducer.ts: one transaction, replayed and audited.
use cedra_reflect.Base.{
  List, Option, [], any, false, if◌then◌else◌, not, some, string_eq, ◌++◌, ◌>>=◌, ◌∷◌,
}
use cedra_reflect.Int.{ℤ_eq}
use cedra_reflect.Dict.{insert}
use cedra_reflect.Domains.Projection.{fits_projection}
use cedra_reflect.Reducer.Audit.{audit, check_paired_shares, check_unconsumed, settle_pending}
use cedra_reflect.Reducer.Dispatch.{apply_events}
use cedra_reflect.Reducer.Group.{Group, group_of}
use cedra_reflect.Reducer.LiquidityCheck.{check_liquidity}
use cedra_reflect.Reducer.Monad.{Action, Context, Outcome, done, problem, threw, ◌▹◌}
use cedra_reflect.Reducer.Pairing.{
  check_claims, check_custody, check_openings, check_pool_receipts, check_registrations,
  check_residues, check_routes, check_terminals,
}
use cedra_reflect.Reducer.Screen.{is_event_data, screen, sort_events}
use cedra_reflect.Types.Common.{AlertCode, CriticalAlert, EventBase, EventCursor}
use cedra_reflect.Types.Event.{ProtocolEvent}
use cedra_reflect.Types.State.{ProtocolProjection}

pub record ReduceResult : Type 0 where
  pub projection : ProtocolProjection
  pub alerts : List CriticalAlert

abbrev pub cursor_of : EventBase → EventCursor
cursor_of e = record { ledger_version = e.ledger_version; event_index = e.event_index }

abbrev pub see_events : List ProtocolEvent → ProtocolProjection → ProtocolProjection
see_events [] p = p
see_events (e ∷ es) p =
    see_events es (record p { seen_event_ids = insert e.id (cursor_of e.base) p.seen_event_ids })

abbrev pub start : ProtocolProjection → List CriticalAlert → Context
start prior alerts = record {
  next = prior;
  alerts = alerts;
  pending_core_fees = [];
  consumed_routes = [];
  sell_wallet_debited = false;
}

-- The body of the `try`.
unfoldable pub replay_group : Group → Action
replay_group g =
    apply_events g g.events
    ▹ settle_pending
    ▹ check_unconsumed g.routes
    ▹ check_paired_shares g g.liquidity_receipts
    ▹ audit g.first

-- The `catch` goes back to the prior projection; the identifiers are marked as seen either way.
unfoldable pub finish : Group → Outcome → ReduceResult
finish g (done c) = record { projection = see_events g.events c.next; alerts = c.alerts }
finish g (threw alerts) = record {
  projection = see_events g.events g.prior;
  alerts = alerts ++ problem g.first AlertCode.event_data ∷ [];
}

-- The alerts of the checks that come before the `try`, behind those of the screening.
unfoldable pub pairing_alerts : Group → List CriticalAlert → List CriticalAlert
pairing_alerts g liquidity_alerts =
    check_registrations g.events
    ++ check_pool_receipts g
    ++ check_custody g
    ++ check_routes g
    ++ check_openings g
    ++ check_terminals g
    ++ check_residues g
    ++ liquidity_alerts
    ++ check_claims g

unfoldable pub reduce_group : Group → List CriticalAlert → Option ReduceResult
unfolding replay_group finish pairing_alerts
reduce_group g screened = check_liquidity g >>= λ found.
    some (finish g (replay_group g (start g.prior (screened ++ pairing_alerts g found))))

-- `none` is a throw that escapes.
unfoldable pub reduce_sorted : ProtocolProjection → List ProtocolEvent → Option ReduceResult
unfolding reduce_group
reduce_sorted prior [] = some (record { projection = prior; alerts = [] })
reduce_sorted prior (e ∷ es) =
    let screened = screen prior e.base (e ∷ es) in
    if not (fits_projection prior)
    then some (record { projection = prior; alerts = problem e.base AlertCode.event_data ∷ [] })
    else (if any is_event_data screened
        then some (record { projection = prior; alerts = screened })
        else reduce_group (group_of prior e.base (e ∷ es)) screened)

unfoldable pub reduce_event_group : ProtocolProjection → List ProtocolEvent → Option ReduceResult
unfolding reduce_sorted
reduce_event_group prior events = reduce_sorted prior (sort_events events)
