-- ===== src/Pages/Order.antt =====
-- On the order of cursors in packages/indexer/src/event-indexer.ts, and on the sort of a page.
use cedra_reflect.Base.{
  Bool-cases, List, [], arith, bool_eq, false, inl, inr, length, option_eq, refl, string_eq, suc,
  sym, true, ◌+◌, ◌==◌, ◌∙◌, ◌∷◌, ◌≡◌, ◌⊎◌,
}
use cedra_reflect.Int.{ -ℤ_parts, leb_ℤ, parts_of_eq, pos, ℤ_eq, ◌<ℤ◌, ◌≤ℤ◌}
use cedra_reflect.Indexer.Cursor.{
  compare_cursor, event_cursor, insert_by_cursor, precedes, sort_by_cursor, sort_by_cursor_from,
}
use cedra_reflect.Types.Common.{EventCursor, lifecycle_eq, status_eq}
use cedra_reflect.Types.Event.{ProtocolEvent}

-- A ledger version before the other, or the same one and an index up to the other.
abbrev pub IsUpTo : EventCursor → EventCursor → Type 0
IsUpTo c d =
    c.ledger_version <ℤ d.ledger_version
    ⊎ (c.ledger_version ≡ d.ledger_version) × (c.event_index ≤ℤ d.event_index)

pub compare_cursor-IsUpTo :
    (c d : EventCursor) → leb_ℤ (compare_cursor c d) (pos 0) ≡ true → IsUpTo c d
unfolding compare_cursor
compare_cursor-IsUpTo c d h = elim (Bool-cases (c.ledger_version == d.ledger_version)) [
  | inl same ↦ inr (
    (ℤ_eq.beq_iff c.ledger_version d.ledger_version).0 same,
    ground (arith, -ℤ_parts c.event_index d.event_index),
  )
  | inr other ↦ inl (ground arith)
]

pub IsUpTo-compare_cursor :
    (c d : EventCursor) → IsUpTo c d → leb_ℤ (compare_cursor c d) (pos 0) ≡ true
unfolding compare_cursor
IsUpTo-compare_cursor c d (inl before) = ground arith
IsUpTo-compare_cursor c d (inr (same, upto)) =
    ground (arith, -ℤ_parts c.event_index d.event_index, parts_of_eq same)

pub IsUpTo-refl : (c : EventCursor) → IsUpTo c c
IsUpTo-refl c = inr (refl, omega arith)

pub IsUpTo-trans : (a b c : EventCursor) → IsUpTo a b → IsUpTo b c → IsUpTo a c
IsUpTo-trans a b c (inl x) (inl y) = inl (omega arith)
IsUpTo-trans a b c (inl x) (inr (f, y)) = inl (omega (arith, parts_of_eq f))
IsUpTo-trans a b c (inr (e, x)) (inl y) = inl (omega (arith, parts_of_eq e))
IsUpTo-trans a b c (inr (e, x)) (inr (f, y)) = inr (e ∙ f, omega arith)

pub IsUpTo-total : (c d : EventCursor) → leb_ℤ (compare_cursor c d) (pos 0) ≡ false → IsUpTo d c
unfolding compare_cursor
IsUpTo-total c d h = elim (Bool-cases (c.ledger_version == d.ledger_version)) [
  | inl same ↦ inr (
    sym ((ℤ_eq.beq_iff c.ledger_version d.ledger_version).0 same),
    ground (arith, -ℤ_parts c.event_index d.event_index),
  )
  | inr other ↦ inl (ground arith)
]

-- Every event stands up to the cursor.
abbrev pub AllUpTo : EventCursor → List ProtocolEvent → Type 0
AllUpTo c [] = Unit
AllUpTo c (e ∷ es) = IsUpTo (event_cursor e) c × AllUpTo c es

-- Every event stands up to every later one.
abbrev pub AllFrom : EventCursor → List ProtocolEvent → Type 0
AllFrom c [] = Unit
AllFrom c (e ∷ es) = IsUpTo c (event_cursor e) × AllFrom c es

abbrev pub IsSorted : List ProtocolEvent → Type 0
IsSorted [] = Unit
IsSorted (e ∷ es) = AllFrom (event_cursor e) es × IsSorted es

AllFrom-trans :
    (c d : EventCursor) (es : List ProtocolEvent) → IsUpTo c d → AllFrom d es → AllFrom c es
AllFrom-trans c d [] h k = tt
AllFrom-trans c d (e ∷ es) h (k, ks) =
    (IsUpTo-trans c d (event_cursor e) h k, AllFrom-trans c d es h ks)

AllFrom-insert :
    (c : EventCursor) (e : ProtocolEvent) (xs : List ProtocolEvent)
    → IsUpTo c (event_cursor e)
    → AllFrom c xs
    → AllFrom c (insert_by_cursor e xs)
AllFrom-insert c e [] h k = (h, tt)
AllFrom-insert c e (x ∷ xs) h (k, ks) = elim (Bool-cases (precedes e x)) [
  | inl before ↦ rw before (h, (k, ks))
  | inr behind ↦ rw behind (k, AllFrom-insert c e xs h ks)
]

pub precedes-IsUpTo :
    (e x : ProtocolEvent) → precedes e x ≡ true → IsUpTo (event_cursor e) (event_cursor x)
unfolding precedes
precedes-IsUpTo e x h = compare_cursor-IsUpTo (event_cursor e) (event_cursor x) (ground arith)

precedes-not-IsUpTo :
    (e x : ProtocolEvent) → precedes e x ≡ false → IsUpTo (event_cursor x) (event_cursor e)
unfolding precedes compare_cursor
precedes-not-IsUpTo e x h = elim (Bool-cases (e.ledger_version == x.ledger_version)) [
  | inl same ↦ inr (
    sym ((ℤ_eq.beq_iff e.ledger_version x.ledger_version).0 same),
    ground (arith, -ℤ_parts e.event_index x.event_index),
  )
  | inr other ↦ inl (ground arith)
]

insert_by_cursor-IsSorted :
    (e : ProtocolEvent) (xs : List ProtocolEvent) → IsSorted xs → IsSorted (insert_by_cursor e xs)
insert_by_cursor-IsSorted e [] h = (tt, tt)
insert_by_cursor-IsSorted e (x ∷ xs) (h, hs) = elim (Bool-cases (precedes e x)) [
  | inl before ↦
      let first = precedes-IsUpTo e x before in
      rw before ((first, AllFrom-trans (event_cursor e) (event_cursor x) xs first h), (h, hs))
  | inr behind ↦ rw behind (
    AllFrom-insert (event_cursor x) e xs (precedes-not-IsUpTo e x behind) h,
    insert_by_cursor-IsSorted e xs hs,
  )
]

sort_by_cursor_from-IsSorted :
    (sorted es : List ProtocolEvent) → IsSorted sorted → IsSorted (sort_by_cursor_from sorted es)
unfolding sort_by_cursor_from
sort_by_cursor_from-IsSorted sorted [] h = h
sort_by_cursor_from-IsSorted sorted (e ∷ es) h =
    sort_by_cursor_from-IsSorted (insert_by_cursor e sorted) es
      (insert_by_cursor-IsSorted e sorted h)

pub sort_by_cursor-IsSorted : (es : List ProtocolEvent) → IsSorted (sort_by_cursor es)
unfolding sort_by_cursor
sort_by_cursor-IsSorted es = sort_by_cursor_from-IsSorted [] es tt

length-insert_by_cursor :
    (e : ProtocolEvent) (xs : List ProtocolEvent) → length (insert_by_cursor e xs) ≡ suc (length xs)
length-insert_by_cursor e [] = refl
length-insert_by_cursor e (x ∷ xs) = elim (Bool-cases (precedes e x)) [
  | inl before ↦ rw before refl
  | inr behind ↦ rw (behind, length-insert_by_cursor e xs) refl
]

length-sort_by_cursor_from :
    (sorted es : List ProtocolEvent)
    → length (sort_by_cursor_from sorted es) ≡ length sorted + length es
unfolding sort_by_cursor_from
length-sort_by_cursor_from sorted [] = omega arith
length-sort_by_cursor_from sorted (e ∷ es) = omega (
  arith,
  length-sort_by_cursor_from (insert_by_cursor e sorted) es,
  length-insert_by_cursor e sorted,
)

pub length-sort_by_cursor : (es : List ProtocolEvent) → length (sort_by_cursor es) ≡ length es
unfolding sort_by_cursor
length-sort_by_cursor es = omega (arith, length-sort_by_cursor_from [] es)
