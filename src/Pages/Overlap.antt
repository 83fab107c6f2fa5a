-- ===== src/Pages/Overlap.antt =====
-- On the loop over two pages that overlap (`processOwned` of
-- packages/indexer/src/event-indexer.ts).
use cedra_reflect.Base.{
  All, Bool-cases, List, Option, [], arith, ap, inl, inr, nat_eq, none, refl, some, sym, true, ◌++◌,
  ◌∙◌, ◌∷◌, ◌≡◌,
}
use cedra_reflect.Indexer.Cursor.{
  event_cursor, group_events, is_passed, last_from, skip_passed, sort_by_cursor,
}
use cedra_reflect.Indexer.Operation.{IndexerState}
use cedra_reflect.Indexer.Process.{Progress, process_groups}
use cedra_reflect.Pages.Again.{skip_passed-process_groups}
use cedra_reflect.Pages.Append.{
  All-map, All-of_sort, All-skip, All-sort, Before, IsEarlier, alerts_of, group_events-append,
  process_groups-append, skip_passed-append, sort_by_cursor-append,
}
use cedra_reflect.Pages.Last.{process_groups-last}
use cedra_reflect.Pages.Order.{IsUpTo-trans}
use cedra_reflect.Pages.Replayed.{page_loop}
use cedra_reflect.Pages.Transactions.{IsNew, IsUpTo-version, fresh_of_IsNew, skip_passed-Splits}
use cedra_reflect.Types.Common.{EventCursor}
use cedra_reflect.Types.Event.{ProtocolEvent}

All-append-left :
    (P : ProtocolEvent → Type 0) (xs ys : List ProtocolEvent) → All P (xs ++ ys) → All P xs
All-append-left P [] ys h = tt
All-append-left P (x ∷ xs) ys (h, hs) = (h, All-append-left P xs ys hs)

All-append-right :
    (P : ProtocolEvent → Type 0) (xs ys : List ProtocolEvent) → All P (xs ++ ys) → All P ys
All-append-right P [] ys h = h
All-append-right P (x ∷ xs) ys (_, h) = All-append-right P xs ys h

-- Nothing new means that all is passed, and the other way round.
passed_of_skip :
    (cursor : Option EventCursor) (es : List ProtocolEvent)
    → (skip_passed cursor es).1 ≡ []
    → All (λ e. is_passed cursor e ≡ true) es
unfolding skip_passed
passed_of_skip cursor [] h = tt
passed_of_skip cursor (e ∷ es) h = elim (Bool-cases (is_passed cursor e)) [
  | inl passed ↦ (passed, passed_of_skip cursor es (rw (skip_passed, passed) at h))
  | inr fresh ↦ cc (rw (skip_passed, fresh) at h)
]

nothing_new :
    (cursor : Option EventCursor) (es : List ProtocolEvent)
    → All (λ e. is_passed cursor e ≡ true) es
    → (skip_passed cursor es).1 ≡ []
unfolding skip_passed
nothing_new cursor [] h = refl
nothing_new cursor (e ∷ es) (h, hs) = rw h (nothing_new cursor es hs)

skip_of_IsNew :
    (cursor : Option EventCursor) (es : List ProtocolEvent)
    → All (IsNew cursor) es
    → (skip_passed cursor es).1 ≡ es
unfolding skip_passed
skip_of_IsNew cursor [] h = refl
skip_of_IsNew cursor (e ∷ es) (h, hs) =
    rw (fresh_of_IsNew cursor e h) (ap (λ l. e ∷ l) (skip_of_IsNew cursor es hs))

-- What is of a later ledger version than a cursor, or than an event that is new, is new.
later-IsNew : (x y : ProtocolEvent) → IsEarlier x y → IsNew (some (event_cursor x)) y
later-IsNew x y h =
    λ old. let back = IsUpTo-version (event_cursor y) (event_cursor x) old in absurd (omega arith)

still-IsNew :
    (cursor : Option EventCursor) (x y : ProtocolEvent)
    → IsNew cursor x
    → IsEarlier x y
    → IsNew cursor y
still-IsNew none x y new h = tt
still-IsNew (some c) x y new h =
    λ old. new (IsUpTo-trans (event_cursor x) (event_cursor y) c (inl h) old)

All-last_from :
    (P : ProtocolEvent → Type 0) (e : ProtocolEvent) (es : List ProtocolEvent)
    → P e
    → All P es
    → P (last_from e es)
All-last_from P e [] h k = h
All-last_from P e (x ∷ es) h (k, ks) = All-last_from P x es k ks

-- The first page changes nothing in what is new of later ledger versions.
same_new :
    (s : IndexerState) (fresh ys : List ProtocolEvent) (p : Progress)
    → All (IsNew s.cursor) fresh
    → Before fresh ys
    → (process_groups s (group_events fresh)).1 ≡ some p
    → p.alerts ≡ []
    → (skip_passed (process_groups s (group_events fresh)).0.cursor ys).1
      ≡ (skip_passed s.cursor ys).1
unfolding group_events process_groups
same_new s [] ys p new h ran clean = refl
same_new s (e ∷ es) ys p (new, news) (h, hs) ran clean =
    let last = last_from e es in
    let ends = process_groups-last s (record { first = e; others = [] }) es p ran clean in
    ap (λ t. (skip_passed t ys).1) ends
    ∙ skip_of_IsNew (some (event_cursor last)) ys (
        All-map _ (IsNew (some (event_cursor last))) ys (λ y k. later-IsNew last y k)
          (All-last_from (λ x. All (IsEarlier x) ys) e es h hs))
    ∙ sym (
        skip_of_IsNew s.cursor ys
          (All-map _ (IsNew s.cursor) ys (λ y k. still-IsNew s.cursor e y new k) h))

-- The loop over a page and then over one that overlaps it ends as that over the whole.
pub page_loop-append :
    (s : IndexerState) (ws zs ys : List ProtocolEvent) (p : Progress)
    → Before (ws ++ zs) ys
    → (page_loop s (ws ++ zs)).1 ≡ some p
    → p.alerts ≡ []
    → ((page_loop s ((ws ++ zs) ++ ys)).0 ≡ (page_loop (page_loop s (ws ++ zs)).0 (zs ++ ys)).0)
      × (alerts_of (page_loop s ((ws ++ zs) ++ ys)).1
          ≡ alerts_of (page_loop (page_loop s (ws ++ zs)).0 (zs ++ ys)).1)
page_loop-append s ws zs ys p before ran clean =
    let xs = ws ++ zs in
    let fresh = (skip_passed s.cursor (sort_by_cursor xs)).1 in
    let rest = (skip_passed s.cursor (sort_by_cursor ys)).1 in
    let next = (page_loop s xs).0 in
    let sorted_before =
      All-sort (λ x. All (IsEarlier x) (sort_by_cursor ys)) xs
        (All-map _ _ xs (λ x k. All-sort (IsEarlier x) ys k) before) in
    let fresh_before =
      All-skip (λ x. All (IsEarlier x) (sort_by_cursor ys)) s.cursor (sort_by_cursor xs)
        sorted_before in
    let page =
      ap (λ l. (skip_passed s.cursor l).1) (sort_by_cursor-append xs ys before)
      ∙ skip_passed-append s.cursor (sort_by_cursor xs) (sort_by_cursor ys) in
    let groups =
      ap group_events page
      ∙ group_events-append fresh rest (
          All-map _ _ fresh (λ x k. All-skip (IsEarlier x) s.cursor (sort_by_cursor ys) k)
            fresh_before) in
    let overlap =
      All-of_sort (λ e. is_passed next.cursor e ≡ true) xs
        (passed_of_skip next.cursor (sort_by_cursor xs)
          (ap (λ r. r.1) (skip_passed-process_groups s xs p ran clean))) in
    let second =
      ap (λ l. (skip_passed next.cursor l).1)
        (sort_by_cursor-append zs ys (All-append-right _ ws zs before))
      ∙ skip_passed-append next.cursor (sort_by_cursor zs) (sort_by_cursor ys)
      ∙ ap (λ l. l ++ (skip_passed next.cursor (sort_by_cursor ys)).1)
          (nothing_new next.cursor (sort_by_cursor zs)
            (All-sort (λ e. is_passed next.cursor e ≡ true) zs (All-append-right _ ws zs overlap)))
      ∙ same_new s fresh (sort_by_cursor ys) p (skip_passed-Splits s.cursor (sort_by_cursor xs)).new
          fresh_before ran clean in
    let (ends, alerted) =
      process_groups-append s (group_events fresh) (group_events rest) p ran clean in
    (
      ap (λ l. (process_groups s l).0) groups
          ∙ ends
          ∙ ap (λ l. (process_groups next (group_events l)).0) (sym second),
      ap (λ l. alerts_of (process_groups s l).1) groups
          ∙ alerted
          ∙ ap (λ l. alerts_of (process_groups next (group_events l)).1) (sym second),
    )
