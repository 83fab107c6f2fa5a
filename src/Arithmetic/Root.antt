-- ===== src/Arithmetic/Root.antt =====
-- On `integerSqrt` of packages/indexer/src/reducer.ts.
use cedra_reflect.Base.{
  Bool-cases, ap, arith, false, inl, inr, leb, ltb, refl, some, string_eq, subst, suc, sym, zero, ℕ,
  ◌*◌, ◌+◌, ◌-◌, ◌/◌, ◌<◌, ◌≡◌, ◌≤◌,
}
use cedra_reflect.Int.{pos, ℤ_eq}
use cedra_reflect.Reducer.Arith.{integer_sqrt, nat_sqrt, newton}
use native.Mathlib.Omega.{div_fact, mod_fact}

-- With their mean t, a number below it and one above it lie equally far from t.
spread : (a d b e : ℕ) → b + e ≡ a + 2 * d → a * b ≤ (a + d) * (a + d)
spread a d b e h = omega (arith, ap (λ (t : ℕ). t * a) h)

lower-product-le : (a b t : ℕ) → a ≤ t → a + b ≤ 2 * t → a * b ≤ t * t
lower-product-le a b t low h =
    let split : a + (t - a) ≡ t = omega arith in
    subst (λ s. a * b ≤ s * s) split (spread a (t - a) b (a + 2 * (t - a) - b) (omega arith))

-- The product of two numbers is at most the square of a number that reaches their mean.
product-le-square : (a b t : ℕ) → a + b ≤ 2 * t → a * b ≤ t * t
product-le-square a b t h = elim (Bool-cases (leb a t)) [
  | inl low ↦ lower-product-le a b t (ground arith) h
  | inr high ↦
      let low : b ≤ t = ground arith in
      let other : b + a ≤ 2 * t = omega arith in omega (arith, lower-product-le b a t low other)
]

abbrev step : ℕ → ℕ → ℕ
step n k = (suc k + n / suc k) / 2

-- A step of the iteration never falls below the root.
step_above : (n k : ℕ) → n < suc (step n k) * suc (step n k)
step_above n k =
    let bound : suc k + suc (n / suc k) ≤ 2 * suc (step n k) = omega arith in
    omega (
      arith,
      div_fact n k,
      mod_fact n k,
      product-le-square (suc k) (suc (n / suc k)) (suc (step n k)) bound,
    )

step_positive : (n k : ℕ) → 2 ≤ n → 0 < step n k
step_positive n zero h = omega (arith, div_fact n 0, mod_fact n 0)
step_positive n (suc k) h = omega arith

-- Where a step does not fall, the guess is below the root.
guess_below : (n k : ℕ) → suc k ≤ step n k → suc k * suc k ≤ n
guess_below n k h =
    let q = n / suc k in
    let split : q ≡ suc k + (q - suc k) = omega arith in
    omega (arith, div_fact n k, ap (λ (t : ℕ). suc k * t) split)

abbrev IsRoot : ℕ → ℕ → Type 0
IsRoot n r = (r * r ≤ n) × (n < suc r * suc r)

newton-IsRoot :
    (rounds n k : ℕ)
    → k < rounds
    → 2 ≤ n
    → n < suc (suc k) * suc (suc k)
    → (r : ℕ) × (newton rounds n (suc k) (step n k) ≡ some r) × IsRoot n r
unfolding newton
newton-IsRoot (suc rounds) n k enough h above = elim (Bool-cases (ltb (step n k) (suc k))) [
  | inl falls ↦
      let j = step n k - 1 in
      let same : step n k ≡ suc j = omega (arith, step_positive n k h) in
      let (r, found, root) =
        subst (λ m. (r : ℕ) × (newton rounds n m ((m + n / m) / 2) ≡ some r) × IsRoot n r)
          (sym same)
          (newton-IsRoot rounds n j (ground arith) h
            (subst (λ m. n < suc m * suc m) same (step_above n k))) in
      (r, rw falls found, root)
  | inr stays ↦ (suc k, rw stays refl, (guess_below n k (ground arith), above))
]
newton-IsRoot zero n k enough h above = let bad : ⊥ = omega (arith, enough) in elim bad [ ]

-- `integerSqrt` of a number that is not negative never throws and ends, within as many rounds as its
-- first guess: it returns the greatest number whose square is at most the given one.
pub integer_sqrt-root :
    (n : ℕ) → (r : ℕ) × (integer_sqrt (pos n) ≡ some (pos r)) × (r * r ≤ n) × (n < suc r * suc r)
unfolding integer_sqrt nat_sqrt
integer_sqrt-root zero = (0, refl, omega arith, omega arith)
integer_sqrt-root (suc zero) = (1, refl, omega arith, omega arith)
integer_sqrt-root (suc (suc m)) =
    let n = suc (suc m) in
    let large : ltb n 2 ≡ false = ground arith in
    let guess : n / 2 + 1 ≡ suc (n / 2) = omega arith in
    let (r, found, root) =
      newton-IsRoot (suc (suc (n / 2))) n (n / 2) (omega arith) (omega arith) (omega arith) in
    (r, rw large (rw guess (rw found refl)), root.0, root.1)
