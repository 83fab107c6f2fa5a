-- ===== src/Rewards/Index.antt =====
use cedra_reflect.Base.{
  >>=-eq-some, ap, arith, eq_of_some, some, subst, suc, sym, ℕ, ◌%◌, ◌/◌, ◌∙◌, ◌≡◌,
}
use cedra_reflect.Int.{
  *ℤ_parts, div, int_laws, mod_by, negsuc, parts_of_eq, pos, ℤ, ◌*ℤ◌, ◌+ℤ◌, ◌-ℤ◌, ◌<ℤ◌, ◌≤ℤ◌,
}
use cedra_reflect.Accounting.{reflection_magnitude}
use cedra_reflect.Domains.Checked.{checked_add, checked_multiply}
use cedra_reflect.Domains.Laws.{checked_add-eq-some, checked_add_nonneg, checked_multiply-eq-some}
use cedra_reflect.Reducer.Core.{advance_index}
use native.Mathlib.Omega.{div_fact, mod_fact}

-- The reward index of packages/indexer/src/reducer.ts, as `ReflectionIndexAdvanced` and
-- `LpRewardIndexAdvanced` recompute it.

pub div_pos : (a n : ℕ) → div (pos a) (pos (suc n)) ≡ some (pos (a / suc n))
unfolding div
div_pos a n = ground arith

mod_by_pos : (a n : ℕ) → mod_by (pos a) (pos (suc n)) ≡ some (pos (a % suc n))
unfolding mod_by
mod_by_pos a n = ground arith

division_exact :
    (numerator : ℤ) (n : ℕ) {quotient rest : ℤ}
    → pos 0 ≤ℤ numerator
    → div numerator (pos (suc n)) ≡ some quotient
    → mod_by numerator (pos (suc n)) ≡ some rest
    → (numerator ≡ quotient *ℤ pos (suc n) +ℤ rest)
      × (pos 0 ≤ℤ quotient)
      × (pos 0 ≤ℤ rest)
      × (rest <ℤ pos (suc n))
division_exact (negsuc a) n h f g =
    (omega (int_laws, h), omega (arith, h), omega (arith, h), omega (arith, h))
division_exact (pos a) n {quotient} {rest} h f g =
    subst (Divides quotient) (eq_of_some (sym (mod_by_pos a n) ∙ g)) (
      subst (λ q. Divides q (pos (a % suc n))) (eq_of_some (sym (div_pos a n) ∙ f))
        (
          omega (int_laws, *ℤ_parts (pos (a / suc n)) (pos (suc n)), div_fact a n),
          omega arith,
          omega arith,
          omega (arith, mod_fact a n),
        ))
  where
    Divides : ℤ → ℤ → Type 0
    Divides q r = (pos a ≡ q *ℤ pos (suc n) +ℤ r) × (pos 0 ≤ℤ q) × (pos 0 ≤ℤ r) × (r <ℤ pos (suc n))

advance_index-eq-some :
    (amount index remainder shares : ℤ) {index' remainder' : ℤ}
    → advance_index amount index remainder shares ≡ some (index', remainder')
    → (numerator : ℤ) × (step : ℤ) × (numerator ≡ amount *ℤ reflection_magnitude +ℤ remainder)
      × (pos 0 ≤ℤ numerator)
      × (div numerator shares ≡ some step)
      × (mod_by numerator shares ≡ some remainder')
      × (index' ≡ index +ℤ step)
unfolding advance_index
advance_index-eq-some amount index remainder shares h =
    let (magnified, hm, h1) = >>=-eq-some (checked_multiply amount reflection_magnitude) _ h in
    let (numerator, hn, h2) = >>=-eq-some (checked_add magnified remainder) _ h1 in
    let (step, hs, h3) = >>=-eq-some (div numerator shares) _ h2 in
    let (new_index, hi, h4) = >>=-eq-some (checked_add index step) _ h3 in
    let (new_remainder, hr, h5) = >>=-eq-some (mod_by numerator shares) _ h4 in
    (
      numerator,
      step,
      checked_add-eq-some magnified remainder hn
          ∙ ap (λ t. t +ℤ remainder) (checked_multiply-eq-some amount reflection_magnitude hm).0,
      checked_add_nonneg magnified remainder hn,
      hs,
      hr ∙ ap (λ r. some r) (ap (λ t. t.1) (eq_of_some h5)),
      sym (ap (λ t. t.0) (eq_of_some h5)) ∙ checked_add-eq-some index step hi,
    )

-- An advance over positive shares loses nothing: the amount, magnified, and the old remainder are
-- the rise of the index times the shares and the new remainder, which is below the shares; the index
-- does not fall.
pub advance_index-exact :
    (amount index remainder : ℤ) (n : ℕ) (index' remainder' : ℤ)
    → advance_index amount index remainder (pos (suc n)) ≡ some (index', remainder')
    → (amount *ℤ reflection_magnitude +ℤ remainder ≡ (index' -ℤ index) *ℤ pos (suc n) +ℤ remainder')
      × (index ≤ℤ index')
      × (pos 0 ≤ℤ remainder')
      × (remainder' <ℤ pos (suc n))
advance_index-exact amount index remainder n index' remainder' h =
    let (numerator, step, e, nonneg, f, g, rise) =
      advance_index-eq-some amount index remainder (pos (suc n)) h in
    let divides = division_exact numerator n nonneg f g in
    let slope : index' -ℤ index ≡ step = omega (int_laws, parts_of_eq rise) in
    (
      sym e ∙ divides.0 ∙ ap (λ t. t *ℤ pos (suc n) +ℤ remainder') (sym slope),
      omega (int_laws, parts_of_eq rise, divides.1),
      divides.2,
      divides.3,
    )
