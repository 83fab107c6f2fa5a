-- ===== src/Rewards/Solvency.antt =====
-- On the buckets of the core vault, as the audit of packages/indexer/src/reducer.ts computes them.
use cedra_reflect.Base.{>>=-eq-some, eq_of_some, some, subst, ◌>>=◌, ◌≡◌}
use cedra_reflect.Int.{int_laws, parts_of_eq, pos, ℤ, ◌+ℤ◌, ◌≤ℤ◌}
use cedra_reflect.Accounting.{core_indexed_liability, expected_core_vault_balance}
use cedra_reflect.Domains.Checked.{checked_subtract}
use cedra_reflect.Domains.Laws.{checked_subtract-eq-some}
use cedra_reflect.Reducer.Arith.{checked_vault_remainder}
use cedra_reflect.Reducer.Audit.{core_rounding, set_core_rounding}
use cedra_reflect.Types.State.{ProtocolProjection}

-- The fees of a projection, split into buckets of which the last three are not negative.
abbrev pub CoversFees : ProtocolProjection → Type 0
CoversFees p =
    (liability : ℤ) × (core_indexed_liability p ≡ some liability)
    × (p.lifetime_swap_fees
        ≡ p.lifetime_materialized +ℤ p.lifetime_custody_routed +ℤ liability +ℤ p.unallocated_fees
          +ℤ p.rounding_reserve)
    × (pos 0 ≤ℤ liability)
    × (pos 0 ≤ℤ p.unallocated_fees)
    × (pos 0 ≤ℤ p.rounding_reserve)

checked_vault_remainder-eq-some :
    (balance liability unallocated : ℤ) {rest : ℤ}
    → checked_vault_remainder balance liability unallocated ≡ some rest
    → (balance ≡ liability +ℤ unallocated +ℤ rest)
      × (pos 0 ≤ℤ liability)
      × (pos 0 ≤ℤ unallocated)
      × (pos 0 ≤ℤ rest)
unfolding checked_vault_remainder
checked_vault_remainder-eq-some balance liability unallocated {rest} h =
    let (middle, f, g) =
      >>=-eq-some (checked_subtract balance liability) (λ rest. checked_subtract rest unallocated)
        h in
    let first = checked_subtract-eq-some balance liability f in
    let second = checked_subtract-eq-some middle unallocated g in
    (
      omega (int_laws, parts_of_eq first.0, parts_of_eq second.0),
      first.2,
      second.2,
      omega (int_laws, parts_of_eq second.0, second.1),
    )

expected_core_vault_balance-eq-some :
    (p : ProtocolProjection) {balance : ℤ}
    → expected_core_vault_balance p ≡ some balance
    → p.lifetime_swap_fees ≡ p.lifetime_materialized +ℤ p.lifetime_custody_routed +ℤ balance
unfolding expected_core_vault_balance
expected_core_vault_balance-eq-some p {balance} h =
    let (kept, f, g) =
      >>=-eq-some (checked_subtract p.lifetime_swap_fees p.lifetime_materialized)
        (λ kept. checked_subtract kept p.lifetime_custody_routed) h in
    omega (
      int_laws,
      parts_of_eq (checked_subtract-eq-some p.lifetime_swap_fees p.lifetime_materialized f).0,
      parts_of_eq (checked_subtract-eq-some kept p.lifetime_custody_routed g).0,
    )

-- Where the audit finds a rounding reserve, the swap fees taken over the whole life are, to the
-- unit, what has been materialized and routed to custody, what the indexed shares are still owed,
-- the unallocated fees and the rounding reserve, and none of the last three is negative.
pub set_core_rounding-CoversFees :
    (p p' : ProtocolProjection) → set_core_rounding p ≡ some p' → CoversFees p'
unfolding set_core_rounding core_rounding core_indexed_liability
set_core_rounding-CoversFees p p' h =
    let (rounding, h0, e) =
      >>=-eq-some (core_rounding p) (λ r. some (record p { rounding_reserve = r })) h in
    let (balance, hb, h1) =
      >>=-eq-some (expected_core_vault_balance p)
        (λ balance. core_indexed_liability p >>= λ liability.
          checked_vault_remainder balance liability p.unallocated_fees)
        h0 in
    let (liability, hl, h2) =
      >>=-eq-some (core_indexed_liability p)
        (λ liability. checked_vault_remainder balance liability p.unallocated_fees) h1 in
    let split = checked_vault_remainder-eq-some balance liability p.unallocated_fees h2 in
    subst CoversFees (eq_of_some e) (
      liability,
      hl,
      omega (int_laws, parts_of_eq split.0, parts_of_eq (expected_core_vault_balance-eq-some p hb)),
      split.1,
      split.2,
      split.3,
    )
