-- ===== src/Agreement/Entries.antt =====
-- On a replayed map and an observed one that are compared entry by entry, each entry of the replayed
-- map taking its key out of the observed one.
use cedra_reflect.Base.{
  Bool, Bool-cases, Equality, Option, [], ap, bool_eq, false, inl, inr, none, option_eq, some,
  string_eq, subst, ◌==◌, ◌∷◌, ◌≡◌,
}
use cedra_reflect.Int.{ℤ_eq}
use cedra_reflect.Dict.{Dict, delete, lookup, lookup-delete}
use cedra_reflect.Types.Common.{lifecycle_eq, status_eq}

module _ {K V W : Type 0} ⦃e : Equality K⦄ where
  -- What is left of the observed entries.
  abbrev pub left_over : Dict K V → Dict K W → Dict K W
  left_over [] rest = rest
  left_over ((k, v) ∷ d) rest = left_over d (delete k rest)

  -- Every entry finds one that it does not differ from.
  abbrev pub NoneDiffers : (V → Option W → Bool) → Dict K V → Dict K W → Type 0
  NoneDiffers differs [] rest = Unit
  NoneDiffers differs ((k, v) ∷ d) rest =
      (differs v (lookup k rest) ≡ false) × NoneDiffers differs d (delete k rest)

-- At one key: no entry on either side, or two that do not differ.
abbrev pub Agree : {V W : Type 0} → (V → Option W → Bool) → Option V → Option W → Type 0
Agree differs none o = o ≡ none
Agree differs (some v) o = differs v o ≡ false

module _ {K V W : Type 0} ⦃e : Equality K⦄ (differs : V → Option W → Bool) where
  pub NoneDiffers-Agree :
      (d : Dict K V) (rest : Dict K W)
      → NoneDiffers differs d rest
      → left_over d rest ≡ []
      → (j : K) → Agree differs (lookup j d) (lookup j rest)
  NoneDiffers-Agree [] rest h empty j = ap (lookup j) empty
  NoneDiffers-Agree ((k, v) ∷ d) rest (here, h) empty j = elim (Bool-cases (k == j)) [
    | inl hit ↦ rw hit (subst (λ i. differs v (lookup i rest) ≡ false) ((e.beq_iff k j).0 hit) here)
    | inr miss ↦ rw miss (
        subst (Agree differs (lookup j d)) (lookup-delete k j rest miss)
          (NoneDiffers-Agree d (delete k rest) h empty j))
  ]
