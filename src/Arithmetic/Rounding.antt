-- ===== src/Arithmetic/Rounding.antt =====
-- On `ceilDiv` of packages/indexer/src/reducer.ts.
use cedra_reflect.Base.{arith, some, suc, zero, ℕ, ◌*◌, ◌+◌, ◌/◌, ◌<◌, ◌≡◌, ◌≤◌}
use cedra_reflect.Int.{div, pos, ◌+ℤ◌, ◌-ℤ◌}
use cedra_reflect.Reducer.Arith.{ceil_div}
use native.Mathlib.Omega.{div_fact, mod_fact}

-- `ceilDiv` of packages/indexer/src/reducer.ts rounds up.
quotient_bounds : (n d : ℕ) → (n / suc d * suc d ≤ n) × (n < n / suc d * suc d + suc d)
quotient_bounds n d =
    (omega (arith, div_fact n d, mod_fact n d), omega (arith, div_fact n d, mod_fact n d))

-- `ceilDiv` of a number that is not negative by a positive one never throws, and returns the least
-- quotient whose product with the denominator reaches the numerator.
pub ceil_div-least :
    (n d : ℕ)
    → (q : ℕ) × (ceil_div (pos n) (pos (suc d)) ≡ some (pos q))
      × (n ≤ q * suc d)
      × (q * suc d < n + suc d)
unfolding ceil_div div ◌+ℤ◌ ◌-ℤ◌
ceil_div-least zero d = (0, ground arith, omega arith, omega arith)
ceil_div-least (suc n) d = (
  n / suc d + 1,
  ground arith,
  omega (arith, quotient_bounds n d),
  omega (arith, quotient_bounds n d),
)
