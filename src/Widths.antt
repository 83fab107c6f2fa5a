-- ===== src/Widths.antt =====
-- On the Move widths of the projection that `reduceEventGroup` of packages/indexer/src/reducer.ts
-- returns.
use cedra_reflect.Base.{
  >>=-eq-some, All, Bool, Bool-cases, Equality, List, String, [], and_true, any, ap, arith,
  eq_of_some, every, false, if◌then◌else◌, inl, inr, not, refl, some, string_eq, subst, true, ◌&&◌,
  ◌==◌, ◌∷◌, ◌≡◌,
}
use cedra_reflect.Int.{negsuc, ℤ_eq}
use cedra_reflect.Dict.{Dict, all_entries, insert}
use cedra_reflect.Domains.Event.{fits_base, fits_event}
use cedra_reflect.Domains.Projection.{fits_cursor, fits_projection}
use cedra_reflect.Reducer.Audit.{audit}
use cedra_reflect.Reducer.Group.{Group, group_of}
use cedra_reflect.Reducer.LiquidityCheck.{check_liquidity}
use cedra_reflect.Reducer.Monad.{Action, Context, Outcome, done, threw, throw_if, ◌▹◌}
use cedra_reflect.Reducer.Reduce.{
  ReduceResult, cursor_of, finish, reduce_event_group, reduce_group, reduce_sorted, replay_group,
  see_events,
}
use cedra_reflect.Reducer.Screen.{is_event_data, screen, sort_events}
use cedra_reflect.Screening.{not-eq-false, push_nonempty}
use cedra_reflect.Totality.Transactions.{screen_from-fits}
use cedra_reflect.Types.Common.{CriticalAlert, EventCursor}
use cedra_reflect.Types.Event.{ProtocolEvent}
use cedra_reflect.Types.State.{ProtocolProjection}

module _ {K V : Type 0} ⦃eq : Equality K⦄ where
  all_entries-insert :
      (p : V → Bool) (k : K) (v : V) (d : Dict K V)
      → all_entries (λ _ q. p q) d ≡ true
      → p v ≡ true
      → all_entries (λ _ q. p q) (insert k v d) ≡ true
  all_entries-insert p k v [] h e = rw e refl
  all_entries-insert p k v ((j, w) ∷ d) h e =
      let (here, rest) = and_true (p w) _ h in
      elim (Bool-cases (j == k)) [
        | inl hit ↦ rw hit (rw (e, rest) refl)
        | inr miss ↦ rw miss (rw (here, all_entries-insert p k v d rest e) refl)
      ]

-- The last conjunct is the one on the identifiers seen.
fits_projection-split :
    (p : ProtocolProjection)
    → fits_projection p ≡ true
    → all_entries (λ _ q. fits_cursor q) p.seen_event_ids ≡ true
unfolding fits_projection
fits_projection-split p h = (and_true _ _ h).1

both : (a b : Bool) → a ≡ true → b ≡ true → (a && b) ≡ true
both true b h k = k
both false b h k = cc

fits_projection_with_seen :
    (p : ProtocolProjection) (seen : Dict String EventCursor)
    → fits_projection p ≡ true
    → all_entries (λ _ q. fits_cursor q) seen ≡ true
    → fits_projection (record p { seen_event_ids = seen }) ≡ true
unfolding fits_projection
fits_projection_with_seen p seen h k = both _ _ (and_true _ _ h).0 k

fits_event-fits_cursor :
    (e : ProtocolEvent) → fits_event e ≡ true → fits_cursor (cursor_of e.base) ≡ true
unfolding fits_event fits_base fits_cursor
fits_event-fits_cursor e h = ground arith

see_events_fits :
    (es : List ProtocolEvent) (p : ProtocolProjection)
    → All (λ e. fits_event e ≡ true) es
    → fits_projection p ≡ true
    → fits_projection (see_events es p) ≡ true
see_events_fits [] p h k = k
see_events_fits (e ∷ es) p (h, rest) k = see_events_fits es _ rest (
    fits_projection_with_seen p (insert e.id (cursor_of e.base) p.seen_event_ids) k (
      all_entries-insert fits_cursor e.id (cursor_of e.base) p.seen_event_ids
        (fits_projection-split p k) (fits_event-fits_cursor e h)))

-- What ends an action that is done.
▹-eq-done :
    (a b : Action) (c c' : Context) → (a ▹ b) c ≡ done c' → (c1 : Context) × (b c1 ≡ done c')
unfolding ◌▹◌
▹-eq-done a b c c' h = ended (a c) h
  where
    ended :
        (o : Outcome)
        → (elim o [ done c1 ↦ b c1 | threw alerts ↦ threw alerts ]) ≡ done c'
        → (c1 : Context) × (b c1 ≡ done c')
    ended (done c1) k = (c1, k)
    ended (threw alerts) k = cc

abbrev context_or : Context → Outcome → Context
context_or c (done c') = c'
context_or c (threw _) = c

throw_if-eq-done :
    (test : ProtocolProjection → Bool) (c c' : Context)
    → throw_if test c ≡ done c'
    → test c'.next ≡ false
unfolding throw_if
throw_if-eq-done test c c' h = elim (Bool-cases (test c.next)) [
  | inl bad ↦ cc (rw bad at h)
  | inr good ↦ subst (λ x. test x.next ≡ false) (ap (context_or c) (rw good at h)) good
]

replay_group-eq-done_fits :
    (g : Group) (c c' : Context) → replay_group g c ≡ done c' → fits_projection c'.next ≡ true
unfolding replay_group audit
replay_group-eq-done_fits g c c' h =
    let (c1, h1) = ▹-eq-done _ _ c c' h in
    let (c2, h2) = ▹-eq-done _ _ c1 c' h1 in
    not-eq-false _ (throw_if-eq-done (λ p. not (fits_projection p)) c2 c' h2)

finish_fits :
    (g : Group) (c : Context)
    → All (λ e. fits_event e ≡ true) g.events
    → fits_projection g.prior ≡ true
    → fits_projection (finish g (replay_group g c)).projection ≡ true
unfolding finish
finish_fits g c h k = ended (replay_group g c) refl
  where
    ended : (o : Outcome) → replay_group g c ≡ o → fits_projection (finish g o).projection ≡ true
    ended (done c') e = see_events_fits g.events c'.next h (replay_group-eq-done_fits g c c' e)
    ended (threw a) e = see_events_fits g.events g.prior h k

reduce_sorted_fits :
    (prior : ProtocolProjection) (es : List ProtocolEvent) (r : ReduceResult)
    → reduce_sorted prior es ≡ some r
    → fits_projection prior ≡ true
    → fits_projection r.projection ≡ true
unfolding reduce_sorted reduce_group screen
reduce_sorted_fits prior [] r h k =
    subst (λ t. fits_projection t.projection ≡ true) (eq_of_some h) k
reduce_sorted_fits prior (e ∷ es) r h k = screened_cases (rw k at h)
  where
    screened : List CriticalAlert
    screened = screen prior e.base (e ∷ es)

    screened_cases :
        (if any is_event_data screened
            then some (record { projection = prior; alerts = screened })
            else reduce_group (group_of prior e.base (e ∷ es)) screened)
          ≡ some r
        → fits_projection r.projection ≡ true
    screened_cases h = elim (Bool-cases (any is_event_data screened)) [
      | inl bad ↦ subst (λ t. fits_projection t.projection ≡ true) (eq_of_some (rw bad at h)) k
      | inr good ↦
          let (found, _, h1) =
            >>=-eq-some (check_liquidity (group_of prior e.base (e ∷ es))) _ (rw good at h) in
          subst (λ t. fits_projection t.projection ≡ true) (eq_of_some h1)
            (finish_fits (group_of prior e.base (e ∷ es)) _
              (screen_from-fits prior e.base (negsuc 0) [] (e ∷ es) good) k)
    ]

-- Where every number of a projection has its Move width, so has every number of the projection that
-- `reduceEventGroup` returns, whatever the transaction, and whether it is accepted, raises alerts or
-- throws.
pub reduce_event_group_keeps_widths :
    (prior : ProtocolProjection) (events : List ProtocolEvent) (r : ReduceResult)
    → reduce_event_group prior events ≡ some r
    → fits_projection prior ≡ true
    → fits_projection r.projection ≡ true
unfolding reduce_event_group
reduce_event_group_keeps_widths prior events r h = reduce_sorted_fits prior (sort_events events) r h

every-All :
    (es : List ProtocolEvent) → All (λ e. fits_event e ≡ true) es → every fits_event es ≡ true
every-All [] h = refl
every-All (e ∷ es) (h, k) = both _ _ h (every-All es k)

-- How a transaction that is turned away leaves the projection.
abbrev pub TurnsAway : ProtocolProjection → ReduceResult → Type 0
TurnsAway prior r = (r.projection ≡ prior) × ¬ (r.alerts ≡ [])

reduce_sorted-TurnsAway :
    (prior : ProtocolProjection) (es : List ProtocolEvent) (r : ReduceResult)
    → every fits_event es ≡ false
    → reduce_sorted prior es ≡ some r
    → TurnsAway prior r
unfolding reduce_sorted screen
reduce_sorted-TurnsAway prior [] r misfit h = cc
reduce_sorted-TurnsAway prior (e ∷ es) r misfit h = elim (Bool-cases (fits_projection prior)) [
  | inr unfit ↦ subst (TurnsAway prior) (eq_of_some (rw unfit at h)) (refl, push_nonempty [] _)
  | inl fit ↦ screened_cases (rw fit at h)
]
  where
    screened : List CriticalAlert
    screened = screen prior e.base (e ∷ es)

    screened_cases :
        (if any is_event_data screened
            then some (record { projection = prior; alerts = screened })
            else reduce_group (group_of prior e.base (e ∷ es)) screened)
          ≡ some r
        → TurnsAway prior r
    screened_cases h = elim (Bool-cases (any is_event_data screened)) [
      | inl bad ↦
          subst (TurnsAway prior) (eq_of_some (rw bad at h))
            (refl, λ nothing. cc (rw nothing at bad))
      | inr good ↦
          let fine =
            every-All (e ∷ es) (screen_from-fits prior e.base (negsuc 0) [] (e ∷ es) good) in
          cc (fine, misfit)
    ]

-- A transaction with an event in which a number exceeds its Move width, whose base fields are out of
-- their bounds, or whose type is unsupported is turned away: it raises an alert, and the projection
-- is the one before, without even the identifiers of the events.
pub reduce_event_group-TurnsAway :
    (prior : ProtocolProjection) (events : List ProtocolEvent) (r : ReduceResult)
    → every fits_event (sort_events events) ≡ false
    → reduce_event_group prior events ≡ some r
    → TurnsAway prior r
unfolding reduce_event_group
reduce_event_group-TurnsAway prior events r misfit h =
    reduce_sorted-TurnsAway prior (sort_events events) r misfit h
