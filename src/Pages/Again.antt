-- ===== src/Pages/Again.antt =====
-- On a page that is processed twice (`processOwned` of packages/indexer/src/event-indexer.ts).
use cedra_reflect.Base.{
  Bool-cases, List, Option, [], ap, false, inl, inr, length, none, refl, some, subst, sym, true,
  ◌∙◌, ◌∷◌, ◌≡◌,
}
use cedra_reflect.Indexer.Cursor.{
  event_cursor, group_events, is_passed, last_from, skip_passed, sort_by_cursor,
}
use cedra_reflect.Indexer.Operation.{IndexerState}
use cedra_reflect.Indexer.Process.{Progress, process_groups}
use cedra_reflect.Pages.Last.{last_from-AllUpTo, process_groups-last}
use cedra_reflect.Pages.Order.{
  AllFrom, AllUpTo, IsSorted, IsUpTo, IsUpTo-compare_cursor, IsUpTo-total, IsUpTo-trans,
  compare_cursor-IsUpTo, length-sort_by_cursor, sort_by_cursor-IsSorted,
}
use cedra_reflect.Types.Common.{EventCursor}
use cedra_reflect.Types.Event.{ProtocolEvent}

-- What stands up to the fresh events' bound stands up to it in the whole page.
skip_passed-AllUpTo :
    (cursor : Option EventCursor) (d : EventCursor) (es : List ProtocolEvent)
    → ((e : ProtocolEvent) → is_passed cursor e ≡ true → IsUpTo (event_cursor e) d)
    → AllUpTo d (skip_passed cursor es).1
    → AllUpTo d es
unfolding skip_passed
skip_passed-AllUpTo cursor d [] f h = tt
skip_passed-AllUpTo cursor d (e ∷ es) f h = elim (Bool-cases (is_passed cursor e)) [
  | inl passed ↦ (f e passed, skip_passed-AllUpTo cursor d es f (rw (skip_passed, passed) at h))
  | inr fresh ↦
      let (here, rest) = (rw (skip_passed, fresh) at h) in
      (here, skip_passed-AllUpTo cursor d es f rest)
]

-- The events up to the cursor are all skipped.
AllUpTo-skip_passed :
    (c : EventCursor) (es : List ProtocolEvent)
    → AllUpTo c es
    → skip_passed (some c) es ≡ (length es, [])
unfolding skip_passed is_passed
AllUpTo-skip_passed c [] h = refl
AllUpTo-skip_passed c (e ∷ es) (h, hs) =
    rw (IsUpTo-compare_cursor (event_cursor e) c h, AllUpTo-skip_passed c es hs) refl

skip_passed-AllFrom :
    (cursor : Option EventCursor) (c : EventCursor) (es : List ProtocolEvent)
    → AllFrom c es
    → AllFrom c (skip_passed cursor es).1
unfolding skip_passed
skip_passed-AllFrom cursor c [] h = tt
skip_passed-AllFrom cursor c (e ∷ es) (h, hs) = elim (Bool-cases (is_passed cursor e)) [
  | inl passed ↦ rw passed (skip_passed-AllFrom cursor c es hs)
  | inr fresh ↦ rw fresh (h, skip_passed-AllFrom cursor c es hs)
]

pub skip_passed-IsSorted :
    (cursor : Option EventCursor) (es : List ProtocolEvent)
    → IsSorted es
    → IsSorted (skip_passed cursor es).1
unfolding skip_passed
skip_passed-IsSorted cursor [] h = tt
skip_passed-IsSorted cursor (e ∷ es) (h, hs) = elim (Bool-cases (is_passed cursor e)) [
  | inl passed ↦ rw passed (skip_passed-IsSorted cursor es hs)
  | inr fresh ↦
      rw fresh (skip_passed-AllFrom cursor (event_cursor e) es h, skip_passed-IsSorted cursor es hs)
]

abbrev AllFresh : Option EventCursor → List ProtocolEvent → Type 0
AllFresh cursor [] = Unit
AllFresh cursor (e ∷ es) = (is_passed cursor e ≡ false) × AllFresh cursor es

skip_passed-AllFresh :
    (cursor : Option EventCursor) (es : List ProtocolEvent)
    → AllFresh cursor (skip_passed cursor es).1
unfolding skip_passed
skip_passed-AllFresh cursor [] = tt
skip_passed-AllFresh cursor (e ∷ es) = elim (Bool-cases (is_passed cursor e)) [
  | inl passed ↦ rw passed (skip_passed-AllFresh cursor es)
  | inr fresh ↦ rw fresh (fresh, skip_passed-AllFresh cursor es)
]

-- The cursor before stands up to the bound of an event that is new, and so does what it has passed.
passed-IsUpTo :
    (cursor : Option EventCursor) (d : EventCursor) (x e : ProtocolEvent)
    → is_passed cursor x ≡ false
    → IsUpTo (event_cursor x) d
    → is_passed cursor e ≡ true
    → IsUpTo (event_cursor e) d
unfolding is_passed
passed-IsUpTo none d x e fresh bound passed = cc
passed-IsUpTo (some c) d x e fresh bound passed =
    IsUpTo-trans (event_cursor e) c d (compare_cursor-IsUpTo (event_cursor e) c passed)
      (IsUpTo-trans c (event_cursor x) d (IsUpTo-total (event_cursor x) c fresh) bound)

-- Where nothing is new, everything is skipped.
skip_passed-nil :
    (cursor : Option EventCursor) (es : List ProtocolEvent)
    → (skip_passed cursor es).1 ≡ []
    → skip_passed cursor es ≡ (length es, [])
unfolding skip_passed
skip_passed-nil cursor [] h = refl
skip_passed-nil cursor (e ∷ es) h = elim (Bool-cases (is_passed cursor e)) [
  | inl passed ↦ rw (passed, skip_passed-nil cursor es (rw (skip_passed, passed) at h)) refl
  | inr fresh ↦ cc (rw (skip_passed, fresh) at h)
]

skip_passed-fresh :
    (s : IndexerState) (es fresh : List ProtocolEvent) (p : Progress)
    → IsSorted es
    → (skip_passed s.cursor es).1 ≡ fresh
    → (process_groups s (group_events fresh)).1 ≡ some p
    → p.alerts ≡ []
    → skip_passed (process_groups s (group_events fresh)).0.cursor es ≡ (length es, [])
unfolding group_events process_groups
skip_passed-fresh s es [] p sorted new h clean = skip_passed-nil s.cursor es new
skip_passed-fresh s es (e ∷ rest) p sorted new h clean =
    let d = event_cursor (last_from e rest) in
    let ends = process_groups-last s (record { first = e; others = [] }) rest p h clean in
    let ordered = subst IsSorted new (skip_passed-IsSorted s.cursor es sorted) in
    let bound = last_from-AllUpTo e rest ordered in
    let fresh = (subst (AllFresh s.cursor) new (skip_passed-AllFresh s.cursor es)).0 in
    let all =
      skip_passed-AllUpTo s.cursor d es
        (λ x passed. passed-IsUpTo s.cursor d e x fresh bound.0 passed)
        (subst (AllUpTo d) (sym new) bound) in
    ap (λ t. skip_passed t es) ends ∙ AllUpTo-skip_passed d es all

-- A page that was processed without an alert, whatever the order of its events, is skipped event
-- for event when it is processed again: nothing of it is new at the cursor where it ended.
pub skip_passed-process_groups :
    (s : IndexerState) (events : List ProtocolEvent) (p : Progress)
    → (process_groups s (group_events (skip_passed s.cursor (sort_by_cursor events)).1)).1 ≡ some p
    → p.alerts ≡ []
    → skip_passed
        (process_groups s (group_events (skip_passed s.cursor (sort_by_cursor events)).1)).0.cursor
        (sort_by_cursor events)
      ≡ (length events, [])
skip_passed-process_groups s events p h clean =
    skip_passed-fresh s (sort_by_cursor events) (skip_passed s.cursor (sort_by_cursor events)).1 p
      (sort_by_cursor-IsSorted events) refl h clean
    ∙ ap (λ n. (n, [])) (length-sort_by_cursor events)
