-- ===== src/Snapshot/Projection.antt =====
-- `isProjection` of packages/indexer/src/snapshot.ts.
use cedra_reflect.Base.{
  Bool, List, Option, [], bool_eq, every, false, has_unique, if◌then◌else◌, is_empty, is_none,
  is_value, leb, length, ltb, map, nat_beq, none, not, option_eq, some, string_eq, ◌&&◌, ◌==◌, ◌||◌,
  ◌∷◌,
}
use cedra_reflect.Int.{leb_ℤ, pos, ℤ, ℤ_eq}
use cedra_reflect.Dict.{all_entries, contains, has_value, lookup}
use cedra_reflect.Domains.Checked.{fits}
use cedra_reflect.Domains.Event.{is_identifier, utf16_length}
use cedra_reflect.Domains.Projection.{fits_custody, fits_pool, fits_scalars}
use cedra_reflect.Reducer.Authority.{authorities_complete}
use cedra_reflect.Reducer.Group.{is_claim_only}
use cedra_reflect.Reducer.Lifecycle.{in_lifecycle, is_v02}
use cedra_reflect.Snapshot.Serial.{SerializableLpEpoch, SerializableProjection}
use cedra_reflect.Snapshot.Valid.{
  is_address_entries, is_address_epoch_entries, is_lp_epoch, is_optional_address,
  is_seen_event_entries, is_wallet_position,
}
use cedra_reflect.Types.Common.{ProtocolLifecycle, lifecycle_eq, status_eq}
use cedra_reflect.Types.State.{ProtocolProjection}

-- Registered wallets are bound to accounts and stores that are not zero and not excluded.
unfoldable pub has_valid_bindings : ProtocolProjection → Bool
has_valid_bindings p =
    all_entries (λ account store. not (account == "0x0") && not (store == "0x0"))
      p.protocol_excluded_stores
    && all_entries
        (λ account store.
          not (account == "0x0")
          && not (store == "0x0")
          && not (contains account p.protocol_excluded_stores)
          && not (has_value store p.protocol_excluded_stores))
        p.registered_wallets

-- Each vault and each state object leads to its epoch.
unfoldable pub is_indexed : ProtocolProjection → List SerializableLpEpoch → Bool
is_indexed p epochs =
    nat_beq (length p.reward_vault_to_epoch) (length epochs)
    && nat_beq (length p.state_id_to_epoch) (length epochs)
    && every
        (λ s.
          is_value (lookup s.spread.reward_vault p.reward_vault_to_epoch) s.spread.epoch
          && is_value (lookup s.spread.state_id p.state_id_to_epoch) s.spread.epoch)
        epochs

abbrev active_epochs : List SerializableLpEpoch → List ℤ
active_epochs [] = []
active_epochs (s ∷ ss) =
    if is_claim_only s.spread.status then active_epochs ss else s.spread.epoch ∷ active_epochs ss

-- One epoch is active, the one that the projection names; or none is.
unfoldable pub has_one_active : Option ℤ → List SerializableLpEpoch → Bool
unfolding fits
has_one_active none epochs = is_empty (active_epochs epochs)
has_one_active (some id) epochs =
    fits 64 id
    && not (id == pos 0)
    && elim (active_epochs epochs) [ [] ↦ false | a ∷ rest ↦ is_empty rest && a == id ]

-- Positions belong to registered wallets.
unfoldable pub is_registered : SerializableProjection → Bool
is_registered s =
    let wallets = s.spread.registered_wallets in
    s.spread.registered_wallet_count == pos (length wallets)
    && every (λ q. contains q.account wallets) s.positions
    && every (λ e. every (λ q. q.shares == pos 0 || contains q.owner wallets) e.positions)
        s.lp_epochs

-- Version, lifecycle and readiness go together.
unfoldable pub has_consistent_version : ProtocolProjection → Bool
unfolding authorities_complete
has_consistent_version p =
    ltb 0 (utf16_length p.package_version)
    && leb (utf16_length p.package_version) 128
    && (if is_v02 p
        then not (is_none p.lifecycle)
          && p.automatic_materialization
          && p.deployment_ready == not (in_lifecycle ProtocolLifecycle.configuring p)
          && leb_ℤ p.fee_bps (pos 500)
        else is_none p.lifecycle
          && p.deployment_ready == authorities_complete p.operational_admins
          && leb_ℤ p.fee_bps (pos 100))

unfoldable pub has_addresses : ProtocolProjection → Bool
unfolding is_optional_address
has_addresses p =
    is_optional_address p.token_metadata
    && is_optional_address p.reward_vault
    && is_optional_address p.distribution_vault
    && is_optional_address p.mock_usd_pool_reserve
    && is_optional_address p.operational_admins.reflection_core
    && is_optional_address p.operational_admins.test_assets
    && is_optional_address p.operational_admins.test_amm
    && is_optional_address p.custody.reserve_store
    && is_optional_address p.custody.active_lp_reward_vault

-- The arrays and the entries, each by itself.
unfoldable pub has_valid_entries : SerializableProjection → Bool
unfolding is_wallet_position is_lp_epoch is_address_epoch_entries is_address_entries
    is_seen_event_entries
has_valid_entries s =
    every is_wallet_position s.positions
    && has_unique (map (λ q. q.account) s.positions)
    && every is_lp_epoch s.lp_epochs
    && has_unique (map (λ e. e.spread.epoch) s.lp_epochs)
    && has_unique (map (λ e. e.spread.reward_vault) s.lp_epochs)
    && has_unique (map (λ e. e.spread.state_id) s.lp_epochs)
    && is_address_epoch_entries s.spread.reward_vault_to_epoch
    && is_address_epoch_entries s.spread.state_id_to_epoch
    && is_seen_event_entries s.spread.seen_event_ids
    && is_address_entries s.spread.protocol_excluded_stores
    && is_address_entries s.spread.registered_wallets

unfoldable pub is_projection : SerializableProjection → Bool
unfolding has_valid_entries has_valid_bindings is_indexed has_one_active is_registered
    has_consistent_version has_addresses fits_scalars fits_pool fits_custody
is_projection s =
    let p = s.spread in
    has_valid_entries s
    && has_valid_bindings p
    && is_indexed p s.lp_epochs
    && has_one_active p.active_lp_epoch s.lp_epochs
    && is_identifier p.deployment_id
    && (p.network_label == "uninitialized" || p.network_label == "cedra-testnet")
    && p.chain_id == pos 2
    && is_registered s
    && has_consistent_version p
    && has_addresses p
    && fits_scalars p
    && fits_pool p.pool
    && fits_custody p.custody
