-- ===== src/Tests/Checkpoints.antt =====
-- Reconciliation and checkpoints (packages/indexer/src/reconciler.ts, packages/indexer/src/snapshot.ts)
-- at a concrete deployment.
use cedra_reflect.Base.{String, [], refl, some, true, ◌∷◌, ◌≡◌}
use cedra_reflect.Int.{div, neg, pos, ◌*ℤ◌, ◌+ℤ◌, ◌-ℤ◌}
use cedra_reflect.Accounting.{
  core_indexed_liability, custody_pending, expected_core_vault_balance, expected_lp_vault_balance,
  lp_indexed_liability, magnified_entitlement, require_non_negative, sum_wallet_shares,
}
use cedra_reflect.Agreement.Views.{Matches, reconcile-Matches}
use cedra_reflect.Checkpoints.RoundTrip.{decode_snapshot-encode_snapshot}
use cedra_reflect.Domains.Checked.{
  apply_signed, checked_add, checked_multiply, checked_subtract, fits, fits_nullable, fits_signed,
}
use cedra_reflect.Reconciler.Core.{
  check_authority, check_core_vault, check_identity, check_index, check_registered_wallets,
}
use cedra_reflect.Reconciler.Epochs.{
  check_epoch_positions, check_lp_rest, check_observed_owners, compare_epochs, compare_known_epoch,
  compare_lp_positions,
}
use cedra_reflect.Reconciler.Pool.{
  check_configuration, check_custody_views, check_limits, check_reserves,
}
use cedra_reflect.Reconciler.Reconcile.{
  check_epoch_set, check_missing_epochs, check_rest, check_wallets, compare_positions,
  compare_views, expectation, reconcile,
}
use cedra_reflect.Reducer.Authority.{authorities_complete}
use cedra_reflect.Snapshot.Codec.{Codec, decode_snapshot, encode_snapshot, is_digest, take_snapshot}
use cedra_reflect.Snapshot.Projection.{is_projection}
use cedra_reflect.Snapshot.Serial.{SerializableSnapshot, serialise_projection}
use cedra_reflect.Tests.Views.{live, live_cursor, live_views}
use cedra_reflect.Types.Observed.{IndexerSnapshot, ReconciliationReport}

abbrev pub clean_report : ReconciliationReport
clean_report = record {
  ledger_version = pos 7;
  expected_reward_vault_balance = pos 0;
  calculated_reflection_liability = pos 0;
  backing_surplus = pos 0;
  lp_epochs =
      record {
        epoch = pos 1;
        expected_vault_balance = pos 0;
        calculated_liability = pos 0;
        backing_surplus = pos 0;
      }
      ∷ [];
  alerts = [];
  reconciled = true;
}

pub clean_run : reconcile (pos 0) live live_views (some live_cursor) ≡ some clean_report
unfolding reconcile expected_core_vault_balance checked_subtract fits ◌-ℤ◌ core_indexed_liability
    magnified_entitlement require_non_negative checked_multiply ◌*ℤ◌ apply_signed fits_signed neg
    checked_add ◌+ℤ◌ div custody_pending compare_epochs expected_lp_vault_balance
    lp_indexed_liability sum_wallet_shares check_authority check_core_vault check_identity
    check_index check_registered_wallets check_epoch_positions check_lp_rest check_observed_owners
    compare_known_epoch compare_lp_positions check_configuration check_custody_views check_limits
    check_reserves check_epoch_set check_missing_epochs check_rest check_wallets compare_positions
    compare_views expectation authorities_complete
clean_run = refl

reconcile-Matches_example : Matches live live_views (some live_cursor)
reconcile-Matches_example =
    reconcile-Matches (pos 0) live live_views (some live_cursor) clean_report clean_run refl

live-is_projection : is_projection (serialise_projection live) ≡ true
unfolding is_projection fits_signed neg fits_nullable
live-is_projection = refl

-- A text that is the plain snapshot itself, all with one digest.
abbrev pub one_digest : String
one_digest = "0000000000000000000000000000000000000000000000000000000000000000"

pub one_digest-is_digest : is_digest one_digest ≡ true
unfolding is_digest
one_digest-is_digest = refl

abbrev pub plain_codec : Codec
plain_codec = record {
  Text = SerializableSnapshot;
  encode = λ s. s;
  parse = λ s. some s;
  digest = λ s. one_digest;
  parse-encode = λ s h. refl;
  is_digest_digest = λ s. one_digest-is_digest;
}

abbrev pub live_snapshot : IndexerSnapshot
live_snapshot = record {
  id = "snapshot-0000000000000000000000000000000000000000000000000000000000000000";
  taken_at_unix_milliseconds = pos 5;
  cursor = some live_cursor;
  projection = live;
}

pub live_taken : take_snapshot plain_codec live (some live_cursor) (pos 5) ≡ some live_snapshot
unfolding take_snapshot is_projection fits_signed neg fits_nullable
live_taken = refl

decode_snapshot-encode_snapshot_example :
    decode_snapshot plain_codec (encode_snapshot plain_codec live_snapshot) ≡ some live_snapshot
decode_snapshot-encode_snapshot_example =
    decode_snapshot-encode_snapshot plain_codec live (some live_cursor) (pos 5) live_snapshot
      (record { positions = (refl, tt); lp_epochs = (refl, tt); lp_positions = ((refl, tt), tt) })
      live_taken
