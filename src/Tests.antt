-- ===== src/Tests.antt =====
-- Runs of the replay of packages/indexer/src/reducer.ts, and the theorems at concrete inputs.
mod Rewards
mod Views
mod Checkpoints
mod Cycles
mod Pages
mod Files
use cedra_reflect.Base.{List, String, [], arith, every, false, refl, some, true, ℕ, ◌^◌, ◌∷◌, ◌≡◌}
use cedra_reflect.Int.{div, int_laws, neg, pos, ◌*ℤ◌, ◌+ℤ◌, ◌-ℤ◌}
use cedra_reflect.Accounting.{
  core_indexed_liability, expected_core_vault_balance, magnified_entitlement, require_non_negative,
  sum_wallet_shares,
}
use cedra_reflect.Conservation.Balance.{IsConserved}
use cedra_reflect.Conservation.Reachability.{Agrees, Reachable-Agrees, initial, reduced}
use cedra_reflect.Conservation.Transactions.{
  reduce_event_group-IsConserved, reduce_event_group_keeps_authority,
}
use cedra_reflect.Dict.{Values}
use cedra_reflect.Domains.Checked.{
  apply_signed, checked_add, checked_multiply, checked_subtract, fits, fits_nullable, fits_signed,
  signed_add, signed_add_unsigned, signed_subtract_unsigned,
}
use cedra_reflect.Domains.Event.{fits_event}
use cedra_reflect.Domains.Projection.{fits_projection}
use cedra_reflect.Reducer.Arith.{checked_vault_remainder}
use cedra_reflect.Reducer.Audit.{audit, check_unconsumed, set_core_rounding, settle_fees}
use cedra_reflect.Reducer.Authority.{on_wallet_registered}
use cedra_reflect.Reducer.Core.{on_wallet_transfer}
use cedra_reflect.Reducer.Dispatch.{apply_event, apply_events}
use cedra_reflect.Reducer.Empty.{create_empty_projection}
use cedra_reflect.Reducer.Lifecycle.{v02}
use cedra_reflect.Reducer.LiquidityCheck.{check_liquidity}
use cedra_reflect.Reducer.Monad.{check, check_checked, modify, skip, throw_if, update, ◌▹◌}
use cedra_reflect.Reducer.Pairing.{
  check_claims, check_custody, check_openings, check_pool_receipts, check_registrations,
  check_residues, check_routes, check_terminals,
}
use cedra_reflect.Reducer.Reduce.{ReduceResult, reduce_event_group}
use cedra_reflect.Reducer.Screen.{screen, sort_events}
use cedra_reflect.Reducer.Wallet.{adjust_wallet_asset, on_faucet_grant}
use cedra_reflect.Screening.{InOrderFrom, reduce_event_group-InOrder}
use cedra_reflect.Screening.Replay.{reduce_event_group_refuses_again}
use cedra_reflect.Totality.Transactions.{reduce_event_group-Returns}
use cedra_reflect.Types.Common.{EventBase, EventSource, trfl}
use cedra_reflect.Types.Event.{ProtocolEvent, faucet_grant, liquidity, wallet_registered}
use cedra_reflect.Types.Lp.{LiquidityKind}
use cedra_reflect.Types.State.{IndexedPosition, ProtocolProjection}
use cedra_reflect.Widths.{TurnsAway, reduce_event_group-TurnsAway, reduce_event_group_keeps_widths}

abbrev pub base_at : String → ℕ → EventBase
base_at id index = record {
  id = id;
  tx_hash = "0xt1";
  ledger_version = pos 7;
  event_index = pos index;
  timestamp_unix_milliseconds = pos 1000;
  source = EventSource.chain;
}

abbrev pub registration : ProtocolEvent
registration = record {
  base = base_at "e0" 0;
  payload =
      wallet_registered
        (record { account = "0xa1"; primary_store = "0xb1"; registered_wallet_count = pos 1 });
}

abbrev pub grant : ProtocolEvent
grant = record {
  base = base_at "e1" 1;
  payload = faucet_grant (record { account = "0xa1"; asset = trfl; amount = pos 500 });
}

-- The grant comes first here; the replay sorts it behind the registration.
abbrev pub first_transaction : List ProtocolEvent
first_transaction = grant ∷ registration ∷ []

abbrev pub granted_position : IndexedPosition
granted_position = record {
  account = "0xa1";
  raw_trfl = pos 500;
  raw_tusd = pos 0;
  correction = pos 0;
  claimed = pos 0;
  lifetime_claimed = pos 0;
  lifetime_materialized = pos 0;
}

abbrev initialized : String → ProtocolProjection
initialized version = record create_empty_projection { package_version = version }

abbrev pub first_result : String → ReduceResult
first_result version = record {
  projection = record (initialized version) {
    registered_wallets = ("0xa1", "0xb1") ∷ [];
    registered_wallet_count = pos 1;
    eligible_supply = pos 500;
    positions = ("0xa1", granted_position) ∷ [];
    seen_event_ids =
        ("e0", record { ledger_version = pos 7; event_index = pos 0 })
        ∷ ("e1", record { ledger_version = pos 7; event_index = pos 1 })
        ∷ [];
  };
  alerts = [];
}

pub first_run :
    (version : String)
    → reduce_event_group (initialized version) first_transaction ≡ some (first_result version)
unfolding reduce_event_group sort_events fits_projection fits fits_signed neg fits_nullable screen
    fits_event check_liquidity ◌▹◌ apply_events apply_event on_wallet_registered on_faucet_grant
    check modify throw_if update adjust_wallet_asset checked_multiply checked_add checked_subtract
    signed_subtract_unsigned signed_add_unsigned signed_add audit skip ◌+ℤ◌ ◌-ℤ◌ ◌*ℤ◌ div
    check_checked check_unconsumed sum_wallet_shares set_core_rounding expected_core_vault_balance
    core_indexed_liability magnified_entitlement require_non_negative apply_signed
    checked_vault_remainder on_wallet_transfer settle_fees check_registrations check_pool_receipts
    check_custody check_routes check_openings check_terminals check_residues check_claims
first_run version = refl

reduce_event_group-IsConserved_example : IsConserved (first_result v02).projection
reduce_event_group-IsConserved_example =
    reduce_event_group-IsConserved (initialized v02) first_transaction (first_result v02)
      (first_run v02) (omega int_laws, omega int_laws, tt)

reduce_event_group_keeps_authority_example :
    ((first_result v02).projection.package_version ≡ v02)
    × ((first_result v02).projection.operational_admins ≡ (initialized v02).operational_admins)
reduce_event_group_keeps_authority_example =
    reduce_event_group_keeps_authority (initialized v02) first_transaction (first_result v02)
      (first_run v02) refl refl

Reachable-Agrees_example :
    (sum_wallet_shares (first_result "uninitialized").projection.positions +ℤ pos 0 ≡ pos 500)
    × Values Agrees (first_result "uninitialized").projection.lp_epochs
Reachable-Agrees_example = Reachable-Agrees (first_result "uninitialized").projection (
    reduced create_empty_projection first_transaction (first_result "uninitialized") initial
      (first_run "uninitialized"))

-- A liquidity receipt whose checks take a square root: √(400 · 900) = 600.
abbrev seeding : ProtocolEvent
seeding = record {
  base = base_at "e0" 0;
  payload = liquidity (record {
    kind = LiquidityKind.seeded;
    provider = "0xa1";
    epoch = pos 1;
    trfl_amount = pos 400;
    tusd_amount = pos 900;
    lp_shares = pos 600;
    trfl_reserve_after = pos 400;
    tusd_reserve_after = pos 900;
  });
}

reduce_event_group-Returns_example :
    (r : ReduceResult) × (reduce_event_group (initialized v02) (seeding ∷ []) ≡ some r)
reduce_event_group-Returns_example = reduce_event_group-Returns (initialized v02) (seeding ∷ [])

reduce_event_group-InOrder_example : InOrderFrom (initialized v02) (sort_events first_transaction)
reduce_event_group-InOrder_example =
    reduce_event_group-InOrder (initialized v02) first_transaction (first_result v02)
      (first_run v02) refl

abbrev second_result : ReduceResult
second_result = (reduce_event_group-Returns (first_result v02).projection first_transaction).0

second_run : reduce_event_group (first_result v02).projection first_transaction ≡ some second_result
second_run = (reduce_event_group-Returns (first_result v02).projection first_transaction).1

reduce_event_group_refuses_again_example : ¬ (second_result.alerts ≡ [])
reduce_event_group_refuses_again_example =
    reduce_event_group_refuses_again (initialized v02) first_transaction (first_result v02)
      second_result (omega arith) (first_run v02) refl second_run

initialized_fits : fits_projection (initialized v02) ≡ true
unfolding fits_projection fits fits_signed neg fits_nullable
initialized_fits = refl

reduce_event_group_keeps_widths_example : fits_projection (first_result v02).projection ≡ true
reduce_event_group_keeps_widths_example =
    reduce_event_group_keeps_widths (initialized v02) first_transaction (first_result v02)
      (first_run v02) initialized_fits

-- A grant above the 64 bits of a balance.
abbrev excessive_grant : ProtocolEvent
excessive_grant = record {
  base = base_at "e0" 0;
  payload = faucet_grant (record { account = "0xa1"; asset = trfl; amount = pos (2 ^ 64) });
}

excessive_grant_misfits : every fits_event (sort_events (excessive_grant ∷ [])) ≡ false
unfolding sort_events fits_event fits
excessive_grant_misfits = refl

abbrev excessive_result : ReduceResult
excessive_result = (reduce_event_group-Returns (initialized v02) (excessive_grant ∷ [])).0

excessive_run : reduce_event_group (initialized v02) (excessive_grant ∷ []) ≡ some excessive_result
excessive_run = (reduce_event_group-Returns (initialized v02) (excessive_grant ∷ [])).1

reduce_event_group-TurnsAway_example : TurnsAway (initialized v02) excessive_result
reduce_event_group-TurnsAway_example =
    reduce_event_group-TurnsAway (initialized v02) (excessive_grant ∷ []) excessive_result
      excessive_grant_misfits excessive_run
