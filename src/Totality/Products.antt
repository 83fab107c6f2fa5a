-- ===== src/Totality/Products.antt =====
-- On the checked multiplication of packages/indexer/src/move-domains.ts at numbers of 128 bits.
use cedra_reflect.Base.{
  Option, ap, arith, refl, some, subst, sym, true, ℕ, ◌&&◌, ◌*◌, ◌+◌, ◌-◌, ◌>>=◌, ◌^◌, ◌≡◌, ◌≤◌,
}
use cedra_reflect.Int.{*ℤ_parts, int_laws, leb_ℤ, negsuc, pos, ℤ, ◌*ℤ◌}
use cedra_reflect.Domains.Checked.{checked_multiply, fits}

abbrev pub Returns {ℓ} : {A : Type ℓ} → Option A → Type ℓ
Returns {A} o = (a : A) × (o ≡ some a)

pub Returns-bind {ℓ κ} :
    {A : Type ℓ} {B : Type κ} (m : Option A) (f : A → Option B)
    → Returns m
    → ((a : A) → Returns (f a))
    → Returns (m >>= f)
Returns-bind m f (a, e) k = subst (λ o. Returns (o >>= f)) (sym e) (k a)

pub fits-pos : (bits : ℕ) (v : ℤ) → fits bits v ≡ true → (n : ℕ) × (v ≡ pos n) × (n ≤ 2 ^ bits - 1)
unfolding fits
fits-pos bits (pos n) h = (n, refl, ground arith)
fits-pos bits (negsuc n) h = elim (absurd h) [ ]
  where
    absurd : (leb_ℤ (pos 0) (negsuc n) && leb_ℤ (negsuc n) (pos (2 ^ bits - 1))) ≡ true → ⊥
    absurd h = ground arith

pub fits_64-128 : (v : ℤ) → fits 64 v ≡ true → fits 128 v ≡ true
unfolding fits
fits_64-128 v h = ground arith

product_bound : (a b m : ℕ) → a ≤ m → b ≤ m → a * b ≤ m * m
product_bound a b m h k =
    let split_a : a + (m - a) ≡ m = omega arith in
    let split_b : b + (m - b) ≡ m = omega arith in
    omega (arith, ap (λ (t : ℕ). t * b) split_a, ap (λ (t : ℕ). m * t) split_b)

fits-fill : (n : ℕ) → n ≤ 2 ^ 256 - 1 → fits 256 (pos n) ≡ true
unfolding fits
fits-fill n h = ground arith

pub product_pos : (a b : ℕ) → pos a *ℤ pos b ≡ pos (a * b)
product_pos a b = omega (int_laws, *ℤ_parts (pos a) (pos b))

multiply_pos :
    (a b : ℕ)
    → a ≤ 2 ^ 128 - 1
    → b ≤ 2 ^ 128 - 1
    → checked_multiply (pos a) (pos b) ≡ some (pos (a * b))
unfolding checked_multiply
multiply_pos a b h k = rw (product_pos a b) (
    rw
      (
        fits-fill a (omega (arith, h)),
        fits-fill b (omega (arith, k)),
        fits-fill (a * b) (omega (arith, product_bound a b (2 ^ 128 - 1) h k)),
      )
      refl)

-- The product of two numbers of 128 bits is not refused.
pub checked_multiply-Returns :
    (a b : ℤ)
    → fits 128 a ≡ true
    → fits 128 b ≡ true
    → (n : ℕ) × (checked_multiply a b ≡ some (pos n))
checked_multiply-Returns a b h k =
    let (m, e, bound) = fits-pos 128 a h in
    let (n, f, limit) = fits-pos 128 b k in (m * n, rw (e, f) (multiply_pos m n bound limit))
