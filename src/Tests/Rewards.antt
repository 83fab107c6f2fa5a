-- ===== src/Tests/Rewards.antt =====
-- Runs of the accounting of packages/indexer/src/reducer.ts, and the theorems at concrete inputs.
use cedra_reflect.Base.{[], false, none, refl, some, suc, ℕ, ◌*◌, ◌+◌, ◌<◌, ◌∷◌, ◌≡◌, ◌≤◌}
use cedra_reflect.Int.{div, mod_by, neg, negsuc, pos, ℤ, ◌*ℤ◌, ◌+ℤ◌, ◌-ℤ◌, ◌<ℤ◌, ◌≤ℤ◌}
use cedra_reflect.Accounting.{
  core_indexed_liability, expected_core_vault_balance, magnified_entitlement, reflection_magnitude,
  require_non_negative,
}
use cedra_reflect.Arithmetic.Root.{integer_sqrt-root}
use cedra_reflect.Arithmetic.Rounding.{ceil_div-least}
use cedra_reflect.Domains.Checked.{
  apply_signed, checked_add, checked_multiply, checked_subtract, fits, fits_signed,
  signed_add_unsigned,
}
use cedra_reflect.Reducer.Arith.{ceil_div, checked_vault_remainder, integer_sqrt}
use cedra_reflect.Reducer.Audit.{set_core_rounding}
use cedra_reflect.Reducer.Core.{advance_index}
use cedra_reflect.Reducer.Lifecycle.{v02}
use cedra_reflect.Reducer.Lp.{move_lp_shares}
use cedra_reflect.Reducer.Wallet.{adjust_wallet_asset}
use cedra_reflect.Rewards.Accrual.{Moves, adjust_wallet_asset-Moves}
use cedra_reflect.Rewards.Index.{advance_index-exact}
use cedra_reflect.Rewards.LpAccrual.{MovesShares, move_lp_shares-MovesShares}
use cedra_reflect.Rewards.Solvency.{CoversFees, set_core_rounding-CoversFees}
use cedra_reflect.Tests.{first_result, granted_position}
use cedra_reflect.Types.Common.{LpEpochStatus, trfl}
use cedra_reflect.Types.Lp.{LpSharesChangedEvent}
use cedra_reflect.Types.State.{IndexedLpEpoch, ProtocolProjection}

-- The index has risen to 7 before the account pays 200.
abbrev risen : ProtocolProjection
risen = record (first_result v02).projection { current_index = pos 7; aggregate_correction = pos 0 }

abbrev paid : ProtocolProjection
paid = record risen {
  positions = ("0xa1", record granted_position { raw_trfl = pos 300; correction = pos 1400 }) ∷ [];
  eligible_supply = pos 300;
  aggregate_correction = pos 1400;
}

payment : adjust_wallet_asset "0xa1" trfl (negsuc 199) risen ≡ some paid
unfolding adjust_wallet_asset checked_multiply fits neg ◌*ℤ◌ ◌+ℤ◌ signed_add_unsigned fits_signed
payment = refl

adjust_wallet_asset-Moves_example : Moves "0xa1" (negsuc 199) risen paid
adjust_wallet_asset-Moves_example = adjust_wallet_asset-Moves "0xa1" (negsuc 199) risen paid payment

-- Of ten units of fees two were materialized, three are owed and one is unallocated.
abbrev audited : ℤ → ProtocolProjection
audited rounding = record (first_result v02).projection {
  current_index = pos 10_000_000_000_000_000_000_000;
  lifetime_swap_fees = pos 10;
  lifetime_materialized = pos 2;
  unallocated_fees = pos 1;
  rounding_reserve = rounding;
}

auditing : set_core_rounding (audited (pos 0)) ≡ some (audited (pos 4))
unfolding set_core_rounding expected_core_vault_balance core_indexed_liability magnified_entitlement
    require_non_negative checked_multiply checked_subtract checked_add apply_signed fits fits_signed
    neg div checked_vault_remainder ◌*ℤ◌ ◌+ℤ◌ ◌-ℤ◌
auditing = refl

set_core_rounding-CoversFees_example : CoversFees (audited (pos 4))
set_core_rounding-CoversFees_example =
    set_core_rounding-CoversFees (audited (pos 0)) (audited (pos 4)) auditing

advance :
    advance_index (pos 3) (pos 5) (pos 1) (pos 7)
    ≡ some (pos 428_571_428_571_428_571_428_576, pos 4)
unfolding advance_index checked_multiply checked_add fits div mod_by ◌*ℤ◌ ◌+ℤ◌
advance = refl

advance_index-exact_example :
    (pos 3 *ℤ reflection_magnitude +ℤ pos 1
      ≡ (pos 428_571_428_571_428_571_428_576 -ℤ pos 5) *ℤ pos 7 +ℤ pos 4)
    × (pos 5 ≤ℤ pos 428_571_428_571_428_571_428_576)
    × (pos 0 ≤ℤ pos 4)
    × (pos 4 <ℤ pos 7)
advance_index-exact_example =
    advance_index-exact (pos 3) (pos 5) (pos 1) 6 (pos 428_571_428_571_428_571_428_576) (pos 4)
      advance

ceil_div-least_example :
    (q : ℕ) × (ceil_div (pos 7) (pos 2) ≡ some (pos q)) × (7 ≤ q * 2) × (q * 2 < 7 + 2)
ceil_div-least_example = ceil_div-least 7 1

integer_sqrt-root_example :
    (r : ℕ) × (integer_sqrt (pos 10) ≡ some (pos r)) × (r * r ≤ 10) × (10 < suc r * suc r)
integer_sqrt-root_example = integer_sqrt-root 10

-- An epoch whose index is 7, before and after one owner gives up 200 of 500 shares.
abbrev shared : ℤ → ℤ → IndexedLpEpoch
shared shares correction = record {
  epoch = pos 1;
  state_id = "0xe1";
  status = LpEpochStatus.active;
  reward_vault = "0xe2";
  index = pos 7;
  index_remainder = pos 0;
  total_shares = shares;
  aggregate_correction = correction;
  unallocated_rewards = pos 0;
  rounding_reserve = pos 0;
  retired_residue_magnified = pos 0;
  terminal_rounding_base_units = none;
  lifetime_received = pos 0;
  lifetime_claimed = pos 0;
  quarantined = false;
  positions =
      ("0xa1", record { owner = "0xa1"; shares = shares; correction = correction; claimed = pos 0 })
      ∷ [];
}

abbrev share_exit : LpSharesChangedEvent
share_exit = record {
  added = false;
  epoch = pos 1;
  owner = "0xa1";
  amount = pos 200;
  owner_shares = pos 300;
  total_shares = pos 300;
}

share_run :
    move_lp_shares share_exit (shared (pos 500) (pos 0)) ≡ some (shared (pos 300) (pos 1400))
unfolding move_lp_shares checked_multiply fits neg ◌*ℤ◌ ◌+ℤ◌ signed_add_unsigned fits_signed
share_run = refl

move_lp_shares-MovesShares_example :
    MovesShares share_exit (shared (pos 500) (pos 0)) (shared (pos 300) (pos 1400))
move_lp_shares-MovesShares_example =
    move_lp_shares-MovesShares share_exit (shared (pos 500) (pos 0)) (shared (pos 300) (pos 1400))
      share_run
