-- ===== src/Pages/Transactions.antt =====
-- On the transactions that `processOwned` of packages/indexer/src/event-indexer.ts cuts a page into:
-- what is skipped, what is new, and its groups.
use mathlib.Core.List.{Perm, append-nil, perm_middle}
use mathlib.Core.List.Perm
use cedra_reflect.Base.{
  All, Bool-cases, List, Option, [], ap, append_assoc, arith, bool_eq, false, inl, inr, length,
  none, option_eq, refl, some, string_eq, subst, suc, sym, true, ◌++◌, ◌==◌, ◌∙◌, ◌∷◌, ◌≡◌,
}
use cedra_reflect.Int.{parts_of_eq, ℤ, ℤ_eq, ◌<ℤ◌, ◌≤ℤ◌}
use cedra_reflect.Indexer.Cursor.{
  EventGroup, event_cursor, events_of, group_events, group_from, insert_by_cursor, is_passed,
  precedes, skip_passed, sort_by_cursor, sort_by_cursor_from,
}
use cedra_reflect.Pages.Order.{
  AllFrom, IsSorted, IsUpTo, IsUpTo-compare_cursor, compare_cursor-IsUpTo,
}
use cedra_reflect.Types.Common.{EventCursor, lifecycle_eq, status_eq}
use cedra_reflect.Types.Event.{ProtocolEvent}

-- Up to the cursor, and beyond it.
abbrev pub IsOld : Option EventCursor → ProtocolEvent → Type 0
IsOld none e = ⊥
IsOld (some c) e = IsUpTo (event_cursor e) c

abbrev pub IsNew : Option EventCursor → ProtocolEvent → Type 0
IsNew none e = Unit
IsNew (some c) e = ¬ IsUpTo (event_cursor e) c

pub IsOld-of_passed :
    (cursor : Option EventCursor) (e : ProtocolEvent) → is_passed cursor e ≡ true → IsOld cursor e
unfolding is_passed
IsOld-of_passed none e h = cc
IsOld-of_passed (some c) e h = compare_cursor-IsUpTo (event_cursor e) c h

pub IsNew-of_fresh :
    (cursor : Option EventCursor) (e : ProtocolEvent) → is_passed cursor e ≡ false → IsNew cursor e
unfolding is_passed
IsNew-of_fresh none e h = tt
IsNew-of_fresh (some c) e h = λ old. cc (IsUpTo-compare_cursor (event_cursor e) c old)

pub fresh_of_IsNew :
    (cursor : Option EventCursor) (e : ProtocolEvent) → IsNew cursor e → is_passed cursor e ≡ false
unfolding is_passed
fresh_of_IsNew none e h = refl
fresh_of_IsNew (some c) e h = elim (Bool-cases (is_passed (some c) e)) [
  | inl passed ↦ absurd (h (compare_cursor-IsUpTo (event_cursor e) c passed))
  | inr fresh ↦ fresh
]

pub IsUpTo-version : (c d : EventCursor) → IsUpTo c d → c.ledger_version ≤ℤ d.ledger_version
IsUpTo-version c d (inl before) = omega arith
IsUpTo-version c d (inr (same, _)) = omega (arith, parts_of_eq same)

-- The events of groups, in order.
abbrev pub flat : List EventGroup → List ProtocolEvent
flat [] = []
flat (g ∷ gs) = events_of g ++ flat gs

abbrev pub IsAfter : ℤ → List EventGroup → Type 0
IsAfter version gs = All (λ h. version <ℤ h.first.ledger_version) gs

abbrev pub IsTransaction : EventGroup → Type 0
IsTransaction g = All (λ e. e.ledger_version ≡ g.first.ledger_version) g.others

-- Each group is of one ledger version, and all that follow are of later ones.
abbrev pub AreTransactions : List EventGroup → Type 0
AreTransactions [] = Unit
AreTransactions (g ∷ gs) = IsTransaction g × IsAfter g.first.ledger_version gs × AreTransactions gs

pub flat-group_from :
    (g : EventGroup) (es : List ProtocolEvent) → flat (group_from g es) ≡ events_of g ++ es
unfolding group_from
flat-group_from g [] = refl
flat-group_from g (e ∷ es) = elim (Bool-cases (g.first.ledger_version == e.ledger_version)) [
  | inl joined ↦
      rw (group_from, joined)
        (flat-group_from (record g { others = g.others ++ e ∷ [] }) es
          ∙ ap (λ l. g.first ∷ l) (append_assoc g.others (e ∷ []) es))
  | inr apart ↦
      rw (group_from, apart)
        (ap (λ l. events_of g ++ l) (flat-group_from (record { first = e; others = [] }) es))
]

pub flat-group_events : (es : List ProtocolEvent) → flat (group_events es) ≡ es
unfolding group_events
flat-group_events [] = refl
flat-group_events (e ∷ es) = flat-group_from (record { first = e; others = [] }) es

group_from-IsAfter :
    (version : ℤ) (g : EventGroup) (es : List ProtocolEvent)
    → version <ℤ g.first.ledger_version
    → AllFrom (event_cursor g.first) es
    → IsSorted es
    → IsAfter version (group_from g es)
unfolding group_from
group_from-IsAfter version g [] h k sorted = (h, tt)
group_from-IsAfter version g (e ∷ es) h (k, ks) (first, sorted) =
    elim (Bool-cases (g.first.ledger_version == e.ledger_version)) [
      | inl joined ↦
          rw (group_from, joined)
            (group_from-IsAfter version (record g { others = g.others ++ e ∷ [] }) es h ks sorted)
      | inr apart ↦
          rw (group_from, apart)
            (
              h,
              group_from-IsAfter version (record { first = e; others = [] }) es
                  (omega (arith, IsUpTo-version (event_cursor g.first) (event_cursor e) k)) first
                  sorted,
            )
    ]

All-append_one :
    (P : ProtocolEvent → Type 0) (es : List ProtocolEvent) (e : ProtocolEvent)
    → All P es
    → P e
    → All P (es ++ e ∷ [])
All-append_one P [] e h k = (k, tt)
All-append_one P (x ∷ es) e (h, hs) k = (h, All-append_one P es e hs k)

version_rises :
    (g e : ProtocolEvent)
    → IsUpTo (event_cursor g) (event_cursor e)
    → (g.ledger_version == e.ledger_version) ≡ false
    → g.ledger_version <ℤ e.ledger_version
version_rises g e (inl before) apart = before
version_rises g e (inr (same, _)) apart =
    let met = (ℤ_eq.beq_iff g.ledger_version e.ledger_version).1 same in cc

group_from-AreTransactions :
    (g : EventGroup) (es : List ProtocolEvent)
    → IsTransaction g
    → AllFrom (event_cursor g.first) es
    → IsSorted es
    → AreTransactions (group_from g es)
unfolding group_from
group_from-AreTransactions g [] t k sorted = (t, tt, tt)
group_from-AreTransactions g (e ∷ es) t (k, ks) (first, sorted) =
    elim (Bool-cases (g.first.ledger_version == e.ledger_version)) [
      | inl joined ↦
          rw (group_from, joined)
            (group_from-AreTransactions (record g { others = g.others ++ e ∷ [] }) es
              (All-append_one _ g.others e t
                (sym ((ℤ_eq.beq_iff g.first.ledger_version e.ledger_version).0 joined)))
              ks sorted)
      | inr apart ↦
          let next : EventGroup = record { first = e; others = [] } in
          rw (group_from, apart)
            (
              t,
              group_from-IsAfter g.first.ledger_version next es (version_rises g.first e k apart)
                  first sorted,
              group_from-AreTransactions next es tt first sorted,
            )
    ]

pub group_events-AreTransactions :
    (es : List ProtocolEvent) → IsSorted es → AreTransactions (group_events es)
unfolding group_events
group_events-AreTransactions [] h = tt
group_events-AreTransactions (e ∷ es) (h, hs) =
    group_from-AreTransactions (record { first = e; others = [] }) es tt h hs

-- What a page is split into at a cursor.
pub record Splits (cursor : Option EventCursor) (es : List ProtocolEvent) : Type 0 where
  pub passed : List ProtocolEvent
  pub counts : (skip_passed cursor es).0 ≡ length passed
  pub whole : Perm es (passed ++ (skip_passed cursor es).1)
  pub old : All (IsOld cursor) passed
  pub new : All (IsNew cursor) (skip_passed cursor es).1

pub skip_passed-Splits : (cursor : Option EventCursor) (es : List ProtocolEvent) → Splits cursor es
unfolding skip_passed
skip_passed-Splits cursor [] = record {
  passed = [];
  counts = refl;
  whole = Perm.nil;
  old = tt;
  new = tt;
}
skip_passed-Splits cursor (e ∷ es) =
    let rest = skip_passed-Splits cursor es in
    elim (Bool-cases (is_passed cursor e)) [
      | inl passed ↦ record {
        passed = e ∷ rest.passed;
        counts = rw (skip_passed, passed) (ap suc rest.counts);
        whole = rw (skip_passed, passed) (Perm.cons e rest.whole);
        old = (IsOld-of_passed cursor e passed, rest.old);
        new = rw (skip_passed, passed) rest.new;
      }
      | inr fresh ↦ record {
        passed = rest.passed;
        counts = rw (skip_passed, fresh) rest.counts;
        whole =
            rw (skip_passed, fresh)
              (Perm.trans (Perm.cons e rest.whole)
                (Perm.symm (perm_middle rest.passed (skip_passed cursor es).1)));
        old = rest.old;
        new = rw (skip_passed, fresh) (IsNew-of_fresh cursor e fresh, rest.new);
      }
    ]

insert_by_cursor-perm :
    (e : ProtocolEvent) (xs : List ProtocolEvent) → Perm (e ∷ xs) (insert_by_cursor e xs)
insert_by_cursor-perm e [] = Perm.refl (e ∷ [])
insert_by_cursor-perm e (x ∷ xs) = elim (Bool-cases (precedes e x)) [
  | inl before ↦ rw before (Perm.refl (e ∷ x ∷ xs))
  | inr behind ↦
      rw behind (Perm.trans (Perm.swap x e xs) (Perm.cons x (insert_by_cursor-perm e xs)))
]

sort_by_cursor_from-perm :
    (sorted es : List ProtocolEvent) → Perm (sorted ++ es) (sort_by_cursor_from sorted es)
unfolding sort_by_cursor_from
sort_by_cursor_from-perm sorted [] =
    subst (λ l. Perm l sorted) (sym (append-nil sorted)) (Perm.refl sorted)
sort_by_cursor_from-perm sorted (e ∷ es) = Perm.trans (perm_middle sorted es) (
    Perm.trans (Perm.append_right es (insert_by_cursor-perm e sorted))
      (sort_by_cursor_from-perm (insert_by_cursor e sorted) es))

-- The sort loses nothing and adds nothing.
pub sort_by_cursor-perm : (es : List ProtocolEvent) → Perm es (sort_by_cursor es)
unfolding sort_by_cursor
sort_by_cursor-perm es = sort_by_cursor_from-perm [] es
