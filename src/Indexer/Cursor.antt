-- ===== src/Indexer/Cursor.antt =====
-- Cursors in packages/indexer/src/event-indexer.ts: their order, the sort of a page, what is new in
-- it, and its transactions.
use cedra_reflect.Base.{
  Bool, List, Option, [], bool_eq, false, if◌then◌else◌, none, not, option_eq, some, string_eq, suc,
  true, ℕ, ◌++◌, ◌==◌, ◌∷◌,
}
use cedra_reflect.Int.{leb_ℤ, ltb_ℤ, negsuc, pos, ℤ, ℤ_eq, ◌-ℤ◌}
use cedra_reflect.Types.Common.{
  AlertCode, CriticalAlert, EventCursor, about_event, lifecycle_eq, status_eq,
}
use cedra_reflect.Types.Event.{ProtocolEvent}

-- `compareCursor`
unfoldable pub compare_cursor : EventCursor → EventCursor → ℤ
compare_cursor left right =
    if not (left.ledger_version == right.ledger_version)
    then (if ltb_ℤ left.ledger_version right.ledger_version then negsuc 0 else pos 1)
    else left.event_index -ℤ right.event_index

-- `eventCursor`
abbrev pub event_cursor : ProtocolEvent → EventCursor
event_cursor e = record { ledger_version = e.ledger_version; event_index = e.event_index }

-- `eventOrderAlert`
abbrev pub event_order_alert : ProtocolEvent → Option EventCursor → CriticalAlert
event_order_alert e previous = record {
  subject = about_event e.id;
  code = AlertCode.event_order;
  detected_at_unix_milliseconds = e.timestamp_unix_milliseconds;
  cursor = previous;
}

-- The comparison that `sort` is given. The sort is stable: events enter from the left, each behind
-- those that it does not precede.
unfoldable pub precedes : ProtocolEvent → ProtocolEvent → Bool
unfolding compare_cursor
precedes e x = ltb_ℤ (compare_cursor (event_cursor e) (event_cursor x)) (pos 0)

abbrev pub insert_by_cursor : ProtocolEvent → List ProtocolEvent → List ProtocolEvent
insert_by_cursor e [] = e ∷ []
insert_by_cursor e (x ∷ xs) = if precedes e x then e ∷ x ∷ xs else x ∷ insert_by_cursor e xs

unfoldable pub sort_by_cursor_from : List ProtocolEvent → List ProtocolEvent → List ProtocolEvent
sort_by_cursor_from sorted [] = sorted
sort_by_cursor_from sorted (e ∷ es) = sort_by_cursor_from (insert_by_cursor e sorted) es

unfoldable pub sort_by_cursor : List ProtocolEvent → List ProtocolEvent
unfolding sort_by_cursor_from
sort_by_cursor = sort_by_cursor_from []

-- `cursor !== null && compareCursor(eventCursor(event), cursor) <= 0`
unfoldable pub is_passed : Option EventCursor → ProtocolEvent → Bool
unfolding compare_cursor
is_passed none e = false
is_passed (some c) e = leb_ℤ (compare_cursor (event_cursor e) c) (pos 0)

-- The loop that skips: how many events, and the fresh ones.
unfoldable pub skip_passed : Option EventCursor → List ProtocolEvent → ℕ × List ProtocolEvent
unfolding is_passed
skip_passed cursor [] = (0, [])
skip_passed cursor (e ∷ es) =
    let rest = skip_passed cursor es in
    if is_passed cursor e then (suc rest.0, rest.1) else (rest.0, e ∷ rest.1)

-- A group has an event at least.
pub record EventGroup : Type 0 where
  pub first : ProtocolEvent
  pub others : List ProtocolEvent

abbrev pub events_of : EventGroup → List ProtocolEvent
events_of g = g.first ∷ g.others

abbrev pub last_from : ProtocolEvent → List ProtocolEvent → ProtocolEvent
last_from e [] = e
last_from e (x ∷ xs) = last_from x xs

abbrev pub last_of : EventGroup → ProtocolEvent
last_of g = last_from g.first g.others

-- The loop that groups the fresh events by ledger version, the last group in hand.
unfoldable pub group_from : EventGroup → List ProtocolEvent → List EventGroup
group_from g [] = g ∷ []
group_from g (e ∷ es) = elim (g.first.ledger_version == e.ledger_version) [
  | true ↦ group_from (record g { others = g.others ++ e ∷ [] }) es
  | false ↦ g ∷ group_from (record { first = e; others = [] }) es
]

unfoldable pub group_events : List ProtocolEvent → List EventGroup
unfolding group_from
group_events [] = []
group_events (e ∷ es) = group_from (record { first = e; others = [] }) es
