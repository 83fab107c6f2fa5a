-- ===== src/Reducer/Screen.antt =====
-- The screening loop of `reduceEventGroup` in packages/indexer/src/reducer.ts, and the stable sort
-- by event index that comes before it.
use cedra_reflect.Base.{
  Bool, List, String, [], any, false, if◌then◌else◌, not, string_eq, true, ◌++◌, ◌==◌, ◌||◌, ◌∷◌,
}
use cedra_reflect.Int.{leb_ℤ, ltb_ℤ, negsuc, ℤ, ℤ_eq}
use cedra_reflect.Dict.{contains}
use cedra_reflect.Domains.Event.{fits_event}
use cedra_reflect.Reducer.Monad.{problem}
use cedra_reflect.Types.Common.{AlertCode, CriticalAlert, EventBase}
use cedra_reflect.Types.Event.{ProtocolEvent}
use cedra_reflect.Types.State.{ProtocolProjection}

abbrev pub insert_event : ProtocolEvent → List ProtocolEvent → List ProtocolEvent
insert_event e [] = e ∷ []
insert_event e (x ∷ xs) =
    if ltb_ℤ e.event_index x.event_index then e ∷ x ∷ xs else x ∷ insert_event e xs

-- Events enter from the left, each behind those with the same index.
unfoldable pub sort_from : List ProtocolEvent → List ProtocolEvent → List ProtocolEvent
sort_from sorted [] = sorted
sort_from sorted (e ∷ es) = sort_from (insert_event e sorted) es

unfoldable pub sort_events : List ProtocolEvent → List ProtocolEvent
unfolding sort_from
sort_events = sort_from []

-- A `push` under an `if`.
abbrev pub flag : Bool → EventBase → AlertCode → List CriticalAlert
flag test e code = if test then problem e code ∷ [] else []

abbrev pub is_event_data : CriticalAlert → Bool
is_event_data a = elim a.code [ AlertCode.event_data ↦ true | _ ↦ false ]

unfoldable pub screen_event :
    ProtocolProjection → EventBase → ℤ → List String → ProtocolEvent → List CriticalAlert
screen_event prior first previous ids e =
    flag (not (fits_event e)) e.base AlertCode.event_data
    ++ flag (not (e.ledger_version == first.ledger_version) || not (e.tx_hash == first.tx_hash))
        e.base AlertCode.transaction_group
    ++ flag (leb_ℤ e.event_index previous) e.base AlertCode.event_order
    ++ flag (contains e.id prior.seen_event_ids || any (λ id. id == e.id) ids) e.base
        AlertCode.identifier_reuse

unfoldable pub screen_from :
    ProtocolProjection → EventBase → ℤ → List String → List ProtocolEvent → List CriticalAlert
unfolding screen_event
screen_from prior first previous ids [] = []
screen_from prior first previous ids (e ∷ es) =
    screen_event prior first previous ids e ++ screen_from prior first e.event_index (e.id ∷ ids) es

unfoldable pub screen : ProtocolProjection → EventBase → List ProtocolEvent → List CriticalAlert
unfolding screen_from
screen prior first events = screen_from prior first (negsuc 0) [] events
