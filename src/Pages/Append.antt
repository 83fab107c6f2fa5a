-- ===== src/Pages/Append.antt =====
-- On a page whose later events are of later ledger versions (`processOwned` of
-- packages/indexer/src/event-indexer.ts): sort, skipping, grouping and loop, part by part.
use cedra_reflect.Base.{
  All, Bool-cases, List, Option, [], ap, append-nil, arith, bool_eq, false, inl, inr, length, none,
  option_eq, refl, some, string_eq, sym, ◌++◌, ◌==◌, ◌>>=◌, ◌∙◌, ◌∷◌, ◌≡◌, ℕ, ◌+◌,
}
use cedra_reflect.Int.{parts_of_eq, ℤ_eq, ◌<ℤ◌}
use cedra_reflect.Indexer.Cursor.{
  EventGroup, event_cursor, events_of, group_events, group_from, insert_by_cursor, is_passed,
  last_of, precedes, skip_passed, sort_by_cursor, sort_by_cursor_from,
}
use cedra_reflect.Indexer.Operation.{IndexerState, set_projection}
use cedra_reflect.Indexer.Process.{Progress, after_group, process_groups}
use cedra_reflect.Pages.Last.{process_groups-Advances, rest_of}
use cedra_reflect.Pages.Order.{precedes-IsUpTo}
use cedra_reflect.Pages.Transactions.{IsUpTo-version}
use cedra_reflect.Types.Common.{CriticalAlert, EventCursor, lifecycle_eq, status_eq}
use cedra_reflect.Types.Event.{ProtocolEvent}

abbrev pub IsEarlier : ProtocolEvent → ProtocolEvent → Type 0
IsEarlier x y = x.ledger_version <ℤ y.ledger_version

-- Every event of the first list is of an earlier ledger version than every one of the second.
abbrev pub Before : List ProtocolEvent → List ProtocolEvent → Type 0
Before xs ys = All (λ x. All (IsEarlier x) ys) xs

pub All-map :
    (P Q : ProtocolEvent → Type 0) (es : List ProtocolEvent)
    → ((e : ProtocolEvent) → P e → Q e)
    → All P es
    → All Q es
All-map P Q [] f h = tt
All-map P Q (e ∷ es) f (h, hs) = (f e h, All-map P Q es f hs)

module _ (P : ProtocolEvent → Type 0) where
  All-insert :
      (e : ProtocolEvent) (xs : List ProtocolEvent) → P e → All P xs → All P (insert_by_cursor e xs)
  All-insert e [] h k = (h, tt)
  All-insert e (x ∷ xs) h (k, ks) = elim (Bool-cases (precedes e x)) [
    | inl before ↦ rw before (h, (k, ks))
    | inr behind ↦ rw behind (k, All-insert e xs h ks)
  ]

  All-of_insert :
      (e : ProtocolEvent) (xs : List ProtocolEvent) → All P (insert_by_cursor e xs) → P e × All P xs
  All-of_insert e [] h = h
  All-of_insert e (x ∷ xs) h = elim (Bool-cases (precedes e x)) [
    | inl before ↦ rw before at h
    | inr behind ↦
        let (k, ks) = (rw behind at h) in
        let (here, rest) = All-of_insert e xs ks in (here, (k, rest))
  ]

  All-sort_from :
      (sorted es : List ProtocolEvent)
      → All P sorted
      → All P es
      → All P (sort_by_cursor_from sorted es)
  unfolding sort_by_cursor_from
  All-sort_from sorted [] h k = h
  All-sort_from sorted (e ∷ es) h (k, ks) =
      All-sort_from (insert_by_cursor e sorted) es (All-insert e sorted k h) ks

  All-of_sort_from :
      (sorted es : List ProtocolEvent)
      → All P (sort_by_cursor_from sorted es)
      → All P sorted × All P es
  unfolding sort_by_cursor_from
  All-of_sort_from sorted [] h = (h, tt)
  All-of_sort_from sorted (e ∷ es) h =
      let (k, ks) = All-of_sort_from (insert_by_cursor e sorted) es h in
      let (here, rest) = All-of_insert e sorted k in (rest, (here, ks))

  pub All-sort : (es : List ProtocolEvent) → All P es → All P (sort_by_cursor es)
  unfolding sort_by_cursor
  All-sort es h = All-sort_from [] es tt h

  pub All-of_sort : (es : List ProtocolEvent) → All P (sort_by_cursor es) → All P es
  unfolding sort_by_cursor
  All-of_sort es h = (All-of_sort_from [] es h).1

  pub All-skip :
      (cursor : Option EventCursor) (es : List ProtocolEvent)
      → All P es
      → All P (skip_passed cursor es).1
  unfolding skip_passed
  All-skip cursor [] h = tt
  All-skip cursor (e ∷ es) (h, hs) = elim (Bool-cases (is_passed cursor e)) [
    | inl passed ↦ rw passed (All-skip cursor es hs)
    | inr fresh ↦ rw fresh (h, All-skip cursor es hs)
  ]

pub Before-swap :
    (xs ys : List ProtocolEvent) → Before xs ys → All (λ y. All (λ x. IsEarlier x y) xs) ys
Before-swap xs [] h = tt
Before-swap xs (y ∷ ys) h = (
  All-map (λ x. All (IsEarlier x) (y ∷ ys)) (λ x. IsEarlier x y) xs (λ x k. k.0) h,
  Before-swap xs ys
      (All-map (λ x. All (IsEarlier x) (y ∷ ys)) (λ x. All (IsEarlier x) ys) xs (λ x k. k.1) h),
)

insert_by_cursor-append :
    (e : ProtocolEvent) (xs ys : List ProtocolEvent)
    → All (λ x. IsEarlier x e) xs
    → insert_by_cursor e (xs ++ ys) ≡ xs ++ insert_by_cursor e ys
insert_by_cursor-append e [] ys h = refl
insert_by_cursor-append e (x ∷ xs) ys (h, hs) = elim (Bool-cases (precedes e x)) [
  | inl before ↦
      let back = IsUpTo-version (event_cursor e) (event_cursor x) (precedes-IsUpTo e x before) in
      absurd (omega arith)
  | inr behind ↦ rw behind (ap (λ l. x ∷ l) (insert_by_cursor-append e xs ys hs))
]

sort_by_cursor_from-behind :
    (xs sorted ys : List ProtocolEvent)
    → All (λ y. All (λ x. IsEarlier x y) xs) ys
    → sort_by_cursor_from (xs ++ sorted) ys ≡ xs ++ sort_by_cursor_from sorted ys
unfolding sort_by_cursor_from
sort_by_cursor_from-behind xs sorted [] h = refl
sort_by_cursor_from-behind xs sorted (y ∷ ys) (h, hs) =
    ap (λ l. sort_by_cursor_from l ys) (insert_by_cursor-append y xs sorted h)
    ∙ sort_by_cursor_from-behind xs (insert_by_cursor y sorted) ys hs

sort_by_cursor_from-append :
    (sorted xs ys : List ProtocolEvent)
    → sort_by_cursor_from sorted (xs ++ ys) ≡ sort_by_cursor_from (sort_by_cursor_from sorted xs) ys
unfolding sort_by_cursor_from
sort_by_cursor_from-append sorted [] ys = refl
sort_by_cursor_from-append sorted (x ∷ xs) ys =
    sort_by_cursor_from-append (insert_by_cursor x sorted) xs ys

pub sort_by_cursor-append :
    (xs ys : List ProtocolEvent)
    → Before xs ys
    → sort_by_cursor (xs ++ ys) ≡ sort_by_cursor xs ++ sort_by_cursor ys
unfolding sort_by_cursor
sort_by_cursor-append xs ys h =
    let sorted = sort_by_cursor_from [] xs in
    sort_by_cursor_from-append [] xs ys
    ∙ ap (λ l. sort_by_cursor_from l ys) (sym (append-nil sorted))
    ∙ sort_by_cursor_from-behind sorted [] ys (
        All-map _ (λ y. All (λ x. IsEarlier x y) sorted) ys
          (λ y k. All-sort_from (λ x. IsEarlier x y) [] xs tt k) (Before-swap xs ys h))

pub skip_passed-append :
    (cursor : Option EventCursor) (xs ys : List ProtocolEvent)
    → (skip_passed cursor (xs ++ ys)).1 ≡ (skip_passed cursor xs).1 ++ (skip_passed cursor ys).1
unfolding skip_passed
skip_passed-append cursor [] ys = refl
skip_passed-append cursor (x ∷ xs) ys = elim (Bool-cases (is_passed cursor x)) [
  | inl passed ↦ rw passed (skip_passed-append cursor xs ys)
  | inr fresh ↦ rw fresh (ap (λ l. x ∷ l) (skip_passed-append cursor xs ys))
]

is_apart : (x y : ProtocolEvent) → IsEarlier x y → (x.ledger_version == y.ledger_version) ≡ false
is_apart x y h = elim (Bool-cases (x.ledger_version == y.ledger_version)) [
  | inl met ↦
      let same = (ℤ_eq.beq_iff x.ledger_version y.ledger_version).0 met in
      absurd (omega (arith, parts_of_eq same))
  | inr apart ↦ apart
]

group_from-append :
    (g : EventGroup) (xs ys : List ProtocolEvent)
    → All (IsEarlier g.first) ys
    → Before xs ys
    → group_from g (xs ++ ys) ≡ group_from g xs ++ group_events ys
unfolding group_from group_events
group_from-append g [] [] h k = refl
group_from-append g [] (y ∷ ys) (h, hs) k = rw (group_from, is_apart g.first y h) refl
group_from-append g (x ∷ xs) ys h (k, ks) =
    elim (Bool-cases (g.first.ledger_version == x.ledger_version)) [
      | inl joined ↦
          rw (group_from, joined)
            (group_from-append (record g { others = g.others ++ x ∷ [] }) xs ys h ks)
      | inr apart ↦
          rw (group_from, apart)
            (ap (λ l. g ∷ l) (group_from-append (record { first = x; others = [] }) xs ys k ks))
    ]

pub group_events-append :
    (xs ys : List ProtocolEvent)
    → Before xs ys
    → group_events (xs ++ ys) ≡ group_events xs ++ group_events ys
unfolding group_events
group_events-append [] ys h = refl
group_events-append (x ∷ xs) ys (h, hs) =
    group_from-append (record { first = x; others = [] }) xs ys h hs

abbrev pub alerts_of : Option Progress → Option (List CriticalAlert)
alerts_of none = none
alerts_of (some t) = some t.alerts

alerts_of-added :
    (f : Progress → ℕ) (o : Option Progress)
    → alerts_of (o >>= λ t. some (record t { processed = f t })) ≡ alerts_of o
alerts_of-added f none = refl
alerts_of-added f (some t) = refl

-- Where the groups of a page are cut in two and the first part raises no alert, the loop over all of
-- them ends as that over the second part, from the state that the first ends in.
pub process_groups-append :
    (s : IndexerState) (gs hs : List EventGroup) (p : Progress)
    → (process_groups s gs).1 ≡ some p
    → p.alerts ≡ []
    → ((process_groups s (gs ++ hs)).0 ≡ (process_groups (process_groups s gs).0 hs).0)
      × (alerts_of (process_groups s (gs ++ hs)).1
          ≡ alerts_of (process_groups (process_groups s gs).0 hs).1)
unfolding process_groups
process_groups-append s [] hs p h clean = (refl, refl)
process_groups-append s (g ∷ gs) hs p h clean =
    let a = process_groups-Advances s g gs p h clean in
    let next = set_projection a.projection (some (event_cursor (last_of g))) s in
    let (ends, alerted) = process_groups-append next gs hs a.progress a.counts a.clean in
    (
      ap (λ o. (after_group s g (rest_of s g (gs ++ hs)) o).0) a.on
          ∙ ends
          ∙ ap (λ x. (process_groups x hs).0) (sym a.ends),
      ap (λ o. alerts_of (after_group s g (rest_of s g (gs ++ hs)) o).1) a.on
          ∙ alerts_of-added (λ t. length (events_of g) + t.processed)
              (rest_of s g (gs ++ hs) a.projection).1
          ∙ alerted
          ∙ ap (λ x. alerts_of (process_groups x hs).1) (sym a.ends),
    )
