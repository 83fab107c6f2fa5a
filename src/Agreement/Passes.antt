-- ===== src/Agreement/Passes.antt =====
-- On checks that raise nothing.
use cedra_reflect.Base.{
  Bool, Equality, Option, [], ap, bool_eq, false, is_value, none, not, option_eq, or_false, refl,
  some, string_eq, true, ◌==◌, ◌||◌, ◌≡◌,
}
use cedra_reflect.Int.{ℤ_eq}
use cedra_reflect.Reconciler.Site.{Site, raise}
use cedra_reflect.Screening.{not-eq-false}
use cedra_reflect.Types.Common.{AlertCode, ViewScope, lifecycle_eq, status_eq}

pub raise-eq-nil :
    (s : Site) (test : Bool) (code : AlertCode) (scope : ViewScope)
    → raise s test code scope ≡ []
    → test ≡ false
raise-eq-nil s true code scope h = cc
raise-eq-nil s false code scope h = refl

-- A test `a !== b` that fails.
pub eq_of_pass {ℓ} : {A : Type ℓ} ⦃e : Equality A⦄ (a b : A) → not (a == b) ≡ false → a ≡ b
eq_of_pass ⦃e⦄ a b h = (e.beq_iff a b).0 (not-eq-false (a == b) h)

pub is_value_of_pass {ℓ} :
    {A : Type ℓ} ⦃e : Equality A⦄ (o : Option A) (b : A) → not (is_value o b) ≡ false → o ≡ some b
is_value_of_pass ⦃e⦄ none b h = cc
is_value_of_pass ⦃e⦄ (some a) b h = ap (λ t. some t) (eq_of_pass a b h)

-- `if (a !== b || c !== d)`, and three of them.
pub eqs_of_pass {ℓ} :
    {A : Type ℓ} ⦃e : Equality A⦄ (a b c d : A)
    → (not (a == b) || not (c == d)) ≡ false
    → (a ≡ b) × (c ≡ d)
eqs_of_pass ⦃e⦄ a b c d h =
    let (x, y) = or_false (not (a == b)) _ h in (eq_of_pass a b x, eq_of_pass c d y)
