-- ===== src/Conservation/Authority.antt =====
-- On the three events that set the version or an administrator (packages/indexer/src/reducer.ts).
use cedra_reflect.Base.{
  Bool, List, Option, [], append-eq-nil, false, if◌then◌else◌, none, not, refl, same_iff, some,
  string_eq, subst, sym, true, ◌++◌, ◌==◌, ◌∷◌, ◌≡◌,
}
use cedra_reflect.Int.{ℤ_eq}
use cedra_reflect.Conservation.Balance.{IsConserved}
use cedra_reflect.Conservation.Rules.{
  Ends, Extending, alert-Extending, check-Extending, ▹-Extending,
}
use cedra_reflect.Reducer.Authority.{AdminScope, hand_off, on_operational_admin_changed, scope_of}
use cedra_reflect.Reducer.Lifecycle.{is_v02, on_protocol_initialized, on_token_created, v02}
use cedra_reflect.Reducer.Monad.{
  Action, Context, Outcome, alert, check, done, modify, problem, threw, ◌▹◌,
}
use cedra_reflect.Types.Admin.{OperationalAdminChangedEvent}
use cedra_reflect.Types.Common.{AlertCode, CriticalAlert, EventBase}
use cedra_reflect.Types.Setup.{ProtocolInitializedEvent, TokenCreatedEvent}
use cedra_reflect.Types.State.{ProtocolProjection}

abbrev pub GuardEnds : Context → Outcome → Type 0
GuardEnds c (done c') =
    (c'.next ≡ c.next)
    × (is_v02 c.next ≡ true → c'.alerts ≡ [] → ⊥)
    × (c'.alerts ≡ [] → c.alerts ≡ [])
GuardEnds c (threw _) = Unit

pub record Guarding (m : Action) : Type 0 where
  pub apply : (c : Context) → GuardEnds c (m c)

push_nonempty : (xs : List CriticalAlert) (a : CriticalAlert) → xs ++ a ∷ [] ≡ [] → ⊥
push_nonempty xs a h = cc ((append-eq-nil xs (a ∷ []) h).1)

GuardEnds-check :
    (t : Bool) (b : EventBase) (code : AlertCode) (c : Context)
    → (is_v02 c.next ≡ true → t ≡ true)
    → GuardEnds c (if t then alert b code c else done c)
unfolding alert
GuardEnds-check true b code c k =
    (refl, λ _ e. push_nonempty c.alerts (problem b code) e, λ e. (append-eq-nil c.alerts _ e).0)
GuardEnds-check false b code c k = (refl, λ v _. cc (k v), λ e. e)

pub check-Guarding :
    (test : ProtocolProjection → Bool) (b : EventBase) (code : AlertCode)
    → ((p : ProtocolProjection) → is_v02 p ≡ true → test p ≡ true)
    → Guarding (check test b code)
unfolding check
check-Guarding test b code k = record {
  apply = λ c. GuardEnds-check (test c.next) b code c (k c.next);
}

GuardEnds-then :
    (test : ProtocolProjection → Bool) (b : EventBase) (code : AlertCode) (c : Context)
    (r : Outcome)
    → GuardEnds c r
    → GuardEnds c (elim r [ done c' ↦ check test b code c' | threw alerts ↦ threw alerts ])
unfolding check alert
GuardEnds-then test b code c (done c') g = pushed (test c'.next)
  where
    pushed : (t : Bool) → GuardEnds c (if t then alert b code c' else done c')
    pushed true = (
      g.0,
      λ _ e. push_nonempty c'.alerts (problem b code) e,
      λ e. g.2 (append-eq-nil c'.alerts _ e).0,
    )
    pushed false = g
GuardEnds-then test b code c (threw _) g = tt

pub check_after-Guarding :
    {m : Action} (test : ProtocolProjection → Bool) (b : EventBase) (code : AlertCode)
    → Guarding m
    → Guarding (m ▹ check test b code)
unfolding ◌▹◌
check_after-Guarding {m} test b code g = record {
  apply = λ c. GuardEnds-then test b code c (m c) (g.apply c);
}

Ends-guarded :
    (H : Type 0) (f : ProtocolProjection → ProtocolProjection) (c : Context) (r : Outcome)
    → ((p : ProtocolProjection) → IsConserved p → IsConserved (f p))
    → GuardEnds c r
    → Ends H c (elim r [ done c' ↦ modify f c' | threw alerts ↦ threw alerts ])
unfolding modify
Ends-guarded H f c (done c') k g = record {
  conserves = λ _ h. k c'.next (subst IsConserved (sym g.0) h);
  keeps_alerts = g.2;
  keeps_authority = λ e v. absurd (g.1 v e);
}
Ends-guarded H f c (threw _) k g = tt

-- What stands behind the guard may set any field that the ledger does not read.
pub guarded-Extending :
    {H : Type 0} {m : Action} (f : ProtocolProjection → ProtocolProjection)
    → Guarding m
    → ((p : ProtocolProjection) → IsConserved p → IsConserved (f p))
    → Extending H (m ▹ modify f)
unfolding ◌▹◌
guarded-Extending {H} {m} f g k = record { apply = λ c. Ends-guarded H f c (m c) k (g.apply c) }

-- A v0.2 projection is not uninitialized.
v02_initialized :
    (p : ProtocolProjection) → is_v02 p ≡ true → not (p.package_version == "uninitialized") ≡ true
v02_initialized p v =
    subst (λ s. not (s == "uninitialized") ≡ true) (sym ((same_iff p.package_version v02).0 v)) refl

module _ {H : Type 0} where
  pub on_protocol_initialized-Extending :
      (b : EventBase) (e : ProtocolInitializedEvent) → Extending H (on_protocol_initialized b e)
  unfolding on_protocol_initialized
  on_protocol_initialized-Extending b e =
      guarded-Extending _
        (check_after-Guarding _ b _
          (check_after-Guarding _ b _ (check-Guarding _ b _ v02_initialized)))
        (λ p k. k)

  pub on_token_created-Extending :
      (b : EventBase) (e : TokenCreatedEvent) → Extending H (on_token_created b e)
  unfolding on_token_created
  on_token_created-Extending b e =
      guarded-Extending _ (check_after-Guarding _ b _ (check-Guarding _ b _ v02_initialized))
        (λ p k. k)

  hand_off-Extending :
      (b : EventBase) (e : OperationalAdminChangedEvent) (o : Option AdminScope)
      → Extending H (hand_off b e o)
  unfolding hand_off
  hand_off-Extending b e none = ▹-Extending (check-Extending _ b _) (alert-Extending b _)
  hand_off-Extending b e (some key) =
      guarded-Extending _ (check_after-Guarding _ b _ (check-Guarding is_v02 b _ (λ _ v. v)))
        (λ p k. k)

  pub on_operational_admin_changed-Extending :
      (b : EventBase) (e : OperationalAdminChangedEvent)
      → Extending H (on_operational_admin_changed b e)
  unfolding on_operational_admin_changed
  on_operational_admin_changed-Extending b e = hand_off-Extending b e (scope_of e.scope)
