-- ===== src/Conservation/Rules.antt =====
-- How an action may change the context, and a rule for each combinator of the replay.
-- From `c` to `c'`: the ledger stays balanced (given `H`), alerts are only added, and without an
-- alert a v0.2 projection keeps its version and its administrators.
use cedra_reflect.Base.{
  Bool, List, Option, String, [], append-eq-nil, false, if◌then◌else◌, none, refl, some, string_eq,
  subst, sym, true, ◌==◌, ◌∙◌, ◌≡◌,
}
use cedra_reflect.Int.{ℤ, ℤ_eq}
use cedra_reflect.Conservation.Balance.{IsBalanced, IsConserved}
use cedra_reflect.Dict.{Values-insert, Values-lookup, lookup}
use cedra_reflect.Reducer.Lifecycle.{is_v02, v02}
use cedra_reflect.Reducer.Monad.{
  Action, Context, Outcome, PendingCoreFee, alert, check, check_checked, done, modify, needing,
  set_epoch, skip, threw, throw_if, unless, update, with_epoch, ◌▹◌,
}
use cedra_reflect.Types.Common.{AlertCode, EventBase}
use cedra_reflect.Types.State.{IndexedLpEpoch, ProtocolProjection}

pub record Extends (H : Type 0) (c c' : Context) : Type 0 where
  pub conserves : H → IsConserved c.next → IsConserved c'.next
  pub keeps_alerts : c'.alerts ≡ [] → c.alerts ≡ []
  pub keeps_authority :
      c'.alerts ≡ []
      → is_v02 c.next ≡ true
      → (c'.next.package_version ≡ c.next.package_version)
        × (c'.next.operational_admins ≡ c.next.operational_admins)

abbrev pub Ends : Type 0 → Context → Outcome → Type 0
Ends H c (done c') = Extends H c c'
Ends H c (threw _) = Unit

pub record Extending (H : Type 0) (m : Action) : Type 0 where
  pub apply : (c : Context) → Ends H c (m c)

-- The same of a change of the projection alone.
abbrev pub Mild : Type 0 → ProtocolProjection → ProtocolProjection → Type 0
Mild H p p' =
    (H → IsConserved p → IsConserved p')
    × (p'.package_version ≡ p.package_version)
    × (p'.operational_admins ≡ p.operational_admins)

module _ {H : Type 0} where
  pub Extends-refl : (c : Context) → Extends H c c
  Extends-refl c = record {
    conserves = λ _ h. h;
    keeps_alerts = λ e. e;
    keeps_authority = λ _ _. (refl, refl);
  }

  pub Extends-trans : (a b c : Context) → Extends H a b → Extends H b c → Extends H a c
  Extends-trans a b c f g = record {
    conserves = λ h k. g.conserves h (f.conserves h k);
    keeps_alerts = λ e. f.keeps_alerts (g.keeps_alerts e);
    keeps_authority = λ e v.
        let first = f.keeps_authority (g.keeps_alerts e) v in
        let second = g.keeps_authority e (subst (λ s. (s == v02) ≡ true) (sym first.0) v) in
        (second.0 ∙ first.0, second.1 ∙ first.1);
  }

module _ {H : Type 0} where
  -- The three variables of the loop are neither alerts nor part of the projection.
  pub Extends-quiet :
      (c : Context) (fees : List PendingCoreFee) (routes : List String) (debited : Bool)
      → Extends H c (record c {
        pending_core_fees = fees;
        consumed_routes = routes;
        sell_wallet_debited = debited;
      })
  Extends-quiet c fees routes debited = record {
    conserves = λ _ h. h;
    keeps_alerts = λ e. e;
    keeps_authority = λ _ _. (refl, refl);
  }

module _ (H : Type 0) where
  pub Ends-after : (a b : Context) (r : Outcome) → Extends H a b → Ends H b r → Ends H a r
  Ends-after a b (done c) f h = Extends-trans a b c f h
  Ends-after a b (threw _) f h = tt

  Ends-then :
      (a : Context) (r : Outcome) (n : Action)
      → Ends H a r
      → Extending H n
      → Ends H a (elim r [ done c' ↦ n c' | threw alerts ↦ threw alerts ])
  Ends-then a (done b) n f g = Ends-after a b (n b) f (g.apply b)
  Ends-then a (threw _) n f g = tt

  pub Ends-if :
      (t : Bool) (c : Context) (m n : Outcome)
      → Ends H c m
      → Ends H c n
      → Ends H c (if t then m else n)
  Ends-if true c m n f g = f
  Ends-if false c m n f g = g

  pub Ends-alert : (b : EventBase) (code : AlertCode) (c : Context) → Ends H c (alert b code c)
  unfolding alert
  Ends-alert b code c = record {
    conserves = λ _ h. h;
    keeps_alerts = λ e. (append-eq-nil c.alerts _ e).0;
    keeps_authority = λ _ _. (refl, refl);
  }

  Ends-check :
      (t : Bool) (b : EventBase) (code : AlertCode) (c : Context)
      → Ends H c (if t then alert b code c else done c)
  unfolding alert
  Ends-check true b code c = Ends-alert b code c
  Ends-check false b code c = Extends-refl c

  Ends-checked :
      (o : Option Bool) (b : EventBase) (code : AlertCode) (c : Context)
      → Ends H c (elim o [ none ↦ threw c.alerts | some t ↦ if t then alert b code c else done c ])
  Ends-checked none b code c = tt
  Ends-checked (some t) b code c = Ends-check t b code c

  Ends-update :
      (c : Context) (o : Option ProtocolProjection)
      → ((p : ProtocolProjection) → o ≡ some p → Mild H c.next p)
      → Ends H c (elim o [ none ↦ threw c.alerts | some p ↦ done (record c { next = p }) ])
  Ends-update c none k = tt
  Ends-update c (some p) k = record {
    conserves = (k p refl).0;
    keeps_alerts = λ e. e;
    keeps_authority = λ _ _. ((k p refl).1, (k p refl).2);
  }

  Ends-needing :
      {A : Type 0} (o : Option A) (k : A → Action) (c : Context)
      → ((a : A) → o ≡ some a → Extending H (k a))
      → Ends H c (needing o k c)
  unfolding needing
  Ends-needing none k c f = tt
  Ends-needing (some a) k c f = (f a refl).apply c

module _ {H : Type 0} where
  pub ▹-Extending : {m n : Action} → Extending H m → Extending H n → Extending H (m ▹ n)
  unfolding ◌▹◌
  ▹-Extending {m} {n} f g = record { apply = λ c. Ends-then H c (m c) n (f.apply c) g }

  pub skip-Extending : Extending H skip
  unfolding skip
  skip-Extending = record { apply = λ c. Extends-refl c }

  pub alert-Extending : (b : EventBase) (code : AlertCode) → Extending H (alert b code)
  alert-Extending b code = record { apply = Ends-alert H b code }

  pub if-Extending :
      (t : Bool) {m n : Action} → Extending H m → Extending H n → Extending H (if t then m else n)
  if-Extending true f g = f
  if-Extending false f g = g

  pub check-Extending :
      (test : ProtocolProjection → Bool) (b : EventBase) (code : AlertCode)
      → Extending H (check test b code)
  unfolding check
  check-Extending test b code = record { apply = λ c. Ends-check H (test c.next) b code c }

  pub check_checked-Extending :
      (test : ProtocolProjection → Option Bool) (b : EventBase) (code : AlertCode)
      → Extending H (check_checked test b code)
  unfolding check_checked
  check_checked-Extending test b code = record {
    apply = λ c. Ends-checked H (test c.next) b code c;
  }

  pub throw_if-Extending : (test : ProtocolProjection → Bool) → Extending H (throw_if test)
  unfolding throw_if
  throw_if-Extending test = record {
    apply = λ c. Ends-if H (test c.next) c (threw c.alerts) (done c) tt (Extends-refl c);
  }

  pub unless-Extending :
      (test : ProtocolProjection → Bool) (b : EventBase) (code : AlertCode) {rest : Action}
      → Extending H rest
      → Extending H (unless test b code rest)
  unfolding unless
  unless-Extending test b code {rest} f = record {
    apply = λ c.
        Ends-if H (test c.next) c (alert b code c) (rest c) (Ends-alert H b code c) (f.apply c);
  }

  -- The same where the test reads no state: the rest knows that it failed.
  pub unless_known-Extending :
      (t : Bool) (b : EventBase) (code : AlertCode) {rest : Action}
      → (t ≡ false → Extending H rest)
      → Extending H (unless (λ _. t) b code rest)
  unfolding unless
  unless_known-Extending true b code f = record { apply = Ends-alert H b code }
  unless_known-Extending false b code f = record { apply = λ c. (f refl).apply c }

  pub modify-Extending :
      (f : ProtocolProjection → ProtocolProjection)
      → ((p : ProtocolProjection) → Mild H p (f p))
      → Extending H (modify f)
  unfolding modify
  modify-Extending f m = record {
    apply = λ c. record {
      conserves = (m c.next).0;
      keeps_alerts = λ e. e;
      keeps_authority = λ _ _. ((m c.next).1, (m c.next).2);
    };
  }

  pub update-Extending :
      (f : ProtocolProjection → Option ProtocolProjection)
      → ((p p' : ProtocolProjection) → f p ≡ some p' → Mild H p p')
      → Extending H (update f)
  unfolding update
  update-Extending f m = record { apply = λ c. Ends-update H c (f c.next) (m c.next) }

  pub needing-Extending :
      {A : Type 0} (o : Option A) (k : A → Action)
      → ((a : A) → o ≡ some a → Extending H (k a))
      → Extending H (needing o k)
  needing-Extending o k f = record { apply = λ c. Ends-needing H o k c f }

Ends-discharge :
    (id : ℤ) (epoch : IndexedLpEpoch) (c : Context) (r : Outcome)
    → lookup id c.next.lp_epochs ≡ some epoch
    → Ends (IsBalanced epoch) c r
    → Ends (Unit {0}) c r
Ends-discharge id epoch c (done c') e h = record {
  conserves = λ _ k. h.conserves (Values-lookup IsBalanced id epoch c.next.lp_epochs k.2 e) k;
  keeps_alerts = h.keeps_alerts;
  keeps_authority = h.keeps_authority;
}
Ends-discharge id epoch c (threw _) e h = tt

Ends-with_epoch :
    (b : EventBase) (id : ℤ) (k : IndexedLpEpoch → Action) (c : Context) (o : Option IndexedLpEpoch)
    → lookup id c.next.lp_epochs ≡ o
    → ((epoch : IndexedLpEpoch) → Extending (IsBalanced epoch) (k epoch))
    → Ends
        (Unit {0})
        c
        (elim o [ none ↦ alert b AlertCode.lp_accounting c | some epoch ↦ k epoch c ])
Ends-with_epoch b id k c none e f = Ends-alert (Unit {0}) b AlertCode.lp_accounting c
Ends-with_epoch b id k c (some epoch) e f =
    Ends-discharge id epoch c (k epoch c) e ((f epoch).apply c)

-- Inside, the epoch that was read is balanced.
pub with_epoch-Extending :
    (b : EventBase) (id : ℤ) (k : IndexedLpEpoch → Action)
    → ((epoch : IndexedLpEpoch) → Extending (IsBalanced epoch) (k epoch))
    → Extending (Unit {0}) (with_epoch b id k)
unfolding with_epoch
with_epoch-Extending b id k f = record {
  apply = λ c. Ends-with_epoch b id k c (lookup id c.next.lp_epochs) refl f;
}

-- A balanced epoch may be written.
pub set_epoch-Mild :
    {H : Type 0} (epoch : IndexedLpEpoch) (p : ProtocolProjection)
    → (H → IsBalanced epoch)
    → Mild H p (set_epoch epoch p)
set_epoch-Mild epoch p b = (
  λ h k. (k.0, k.1, Values-insert IsBalanced epoch.epoch epoch p.lp_epochs (b h) k.2),
  refl,
  refl,
)
