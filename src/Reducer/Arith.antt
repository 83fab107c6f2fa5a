-- ===== src/Reducer/Arith.antt =====
-- The arithmetic helpers of packages/indexer/src/reducer.ts.
use cedra_reflect.Base.{Option, if◌then◌else◌, ltb, none, some, suc, zero, ℕ, ◌+◌, ◌/◌, ◌>>=◌}
use cedra_reflect.Int.{div, leb_ℤ, negsuc, pos, ℤ, ℤ_beq, ◌+ℤ◌, ◌-ℤ◌}
use cedra_reflect.Domains.Checked.{checked_subtract}

unfoldable pub ceil_div : ℤ → ℤ → Option ℤ
ceil_div numerator denominator =
    if leb_ℤ denominator (pos 0)
    then none
    else (if ℤ_beq numerator (pos 0)
        then some (pos 0)
        else (div (numerator -ℤ pos 1) denominator >>= λ q. some (q +ℤ pos 1)))

-- The `while` loop of `integerSqrt`, on the rounds left; `none` means that they ran out.
unfoldable pub newton : ℕ → ℕ → ℕ → ℕ → Option ℕ
newton zero n current next = none
newton (suc rounds) n current next =
    let rest = newton rounds n next ((next + n / next) / 2) in
    if ltb next current then rest else some current

unfoldable pub nat_sqrt : ℕ → Option ℕ
unfolding newton
nat_sqrt n =
    if ltb n 2
    then some n
    else (let current = n / 2 + 1 in newton (suc current) n current ((current + n / current) / 2))

unfoldable pub integer_sqrt : ℤ → Option ℤ
unfolding nat_sqrt
integer_sqrt (pos n) = nat_sqrt n >>= λ r. some (pos r)
integer_sqrt (negsuc n) = none

unfoldable pub checked_vault_remainder : ℤ → ℤ → ℤ → Option ℤ
checked_vault_remainder vault_balance liability unallocated =
    checked_subtract vault_balance liability >>= λ rest. checked_subtract rest unallocated
