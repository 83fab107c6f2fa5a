-- ===== src/Base/Eq.antt =====
-- `===` on the types that the program compares, as an interface with its law.
use cedra_reflect.Base.Tests.{nat_beq, nat_beq_iff}
use mathlib.Core.Bool.{Bool, true, false, not, ◌||◌, ◌&&◌}
use mathlib.Core.List.{List, [], ◌∷◌, ◌++◌}
use cedra_reflect.Base.Tests.{if◌then◌else◌}
use mathlib.Core.Logic.{◌↔◌}
use mathlib.Core.Option.{Option, none, some}
use mathlib.Core.Path.{◌≡◌, refl, ap}
use native.Mathlib.Omega.{arith}
use text.Mathlib.Text.{◌==◌ as text_beq}
use text.Mathlib.TextEquality.{eq_iff}
use Prim.Native.Nat.{ℕ}
use Prim.Native.String.{String}

pub record Equality {ℓ} (A : Type ℓ) : Type ℓ where
  pub beq : A → A → Bool
  pub beq_iff : (x y : A) → (beq x y ≡ true) ↔ (x ≡ y)

instance abbrev pub string_eq : Equality String
string_eq = record { beq_iff = eq_iff; beq = text_beq }

module _ {ℓ} {A : Type ℓ} ⦃e : Equality A⦄ where
  infix 50 ◌==◌
  abbrev pub ◌==◌ : A → A → Bool
  x == y = e.beq x y

  -- A nullable field compared with another one.
  abbrev pub same : Option A → Option A → Bool
  same none none = true
  same (some a) (some b) = a == b
  same _ _ = false

  -- A nullable field compared with a value.
  abbrev pub is_value : Option A → A → Bool
  is_value none b = false
  is_value (some a) b = a == b

  abbrev pub includes : A → List A → Bool
  includes x [] = false
  includes x (y ∷ ys) = y == x || includes x ys

  -- `[...new Set(xs)]`, behind what the set holds already.
  abbrev pub set_from : List A → List A → List A
  set_from held [] = held
  set_from held (x ∷ xs) =
      if includes x held then set_from held xs else set_from (held ++ x ∷ []) xs

  -- `new Set(xs).size === xs.length`
  abbrev pub has_unique : List A → Bool
  has_unique [] = true
  has_unique (x ∷ xs) = not (includes x xs) && has_unique xs

  pub same_iff : (a b : A) → ((a == b) ≡ true) ↔ (a ≡ b)
  same_iff a b = e.beq_iff a b

instance abbrev pub nat_eq : Equality ℕ
nat_eq = record { beq_iff = nat_beq_iff; beq = nat_beq }

abbrev pub bool_beq : Bool → Bool → Bool
bool_beq true y = y
bool_beq false y = not y

pub bool_beq_iff : (x y : Bool) → (bool_beq x y ≡ true) ↔ (x ≡ y)
bool_beq_iff x y = ground arith

instance abbrev pub bool_eq : Equality Bool
bool_eq = record { beq_iff = bool_beq_iff; beq = bool_beq }

-- Nullable values; `null` equals itself only.
module _ {ℓ} {A : Type ℓ} ⦃e : Equality A⦄ where
  pub same_option_iff : (x y : Option A) → (same x y ≡ true) ↔ (x ≡ y)
  same_option_iff none none = ((λ h. refl), (λ h. refl))
  same_option_iff none (some b) = ((λ h. cc), (λ h. cc))
  same_option_iff (some a) none = ((λ h. cc), (λ h. cc))
  same_option_iff (some a) (some b) =
      ((λ h. ap (λ t. some t) ((e.beq_iff a b).0 h)), (λ h. (e.beq_iff a b).1 (cc)))

  instance abbrev pub option_eq : Equality (Option A)
  option_eq = record { beq_iff = same_option_iff; beq = same }
