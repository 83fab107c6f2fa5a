-- ===== src/Reconciler/Core.antt =====
-- The checks of `reconcile` in packages/indexer/src/reconciler.ts on identity, registrations,
-- authority, the core vault and the index.
use cedra_reflect.Base.{
  Bool, List, Option, String, [], bool_eq, if◌then◌else◌, includes, is_value, length, nat_beq, none,
  not, option_eq, set_from, some, string_eq, true, ◌&&◌, ◌++◌, ◌==◌, ◌||◌, ◌∷◌,
}
use cedra_reflect.Int.{pos, ℤ, ℤ_eq}
use cedra_reflect.Dict.{Dict}
use cedra_reflect.Reconciler.Site.{Site, raise, view_alert}
use cedra_reflect.Reducer.Authority.{authorities_complete}
use cedra_reflect.Reducer.Empty.{cedra_testnet_chain_id}
use cedra_reflect.Reducer.Lifecycle.{in_lifecycle, is_v02}
use cedra_reflect.Types.Common.{
  Address, AlertCode, CriticalAlert, ProtocolLifecycle, global_scope, lifecycle_eq, named_scope,
  status_eq,
}
use cedra_reflect.Types.Observed.{ObservedAccountingSnapshot}
use cedra_reflect.Types.State.{ProtocolProjection}

unfoldable pub check_identity :
    Site → ProtocolProjection → ObservedAccountingSnapshot → List CriticalAlert
check_identity s p o =
    raise s
      (not (p.chain_id == cedra_testnet_chain_id)
        || not (o.chain_id == p.chain_id)
        || not (o.deployment_id == p.deployment_id)
        || not (o.network_label == p.network_label)
        || not (is_value p.token_metadata o.token_metadata)
        || not (o.protocol_exclusions_remaining == p.protocol_exclusions_remaining))
      AlertCode.deployment_identity global_scope

abbrev pub is_registered_in : List Address → Dict Address Address → Bool
is_registered_in observed [] = true
is_registered_in observed ((account, _) ∷ d) =
    includes account observed && is_registered_in observed d

abbrev pub registrations_match : ProtocolProjection → ObservedAccountingSnapshot → Bool
registrations_match p o =
    let observed = set_from [] o.registered_wallet_accounts in
    nat_beq (length o.registered_wallet_accounts) (length observed)
    && p.registered_wallet_count == pos (length p.registered_wallets)
    && o.registered_wallet_count == p.registered_wallet_count
    && nat_beq (length observed) (length p.registered_wallets)
    && is_registered_in observed p.registered_wallets

unfoldable pub check_registered_wallets :
    Site → ProtocolProjection → ObservedAccountingSnapshot → List CriticalAlert
check_registered_wallets s p o =
    raise s (not (registrations_match p o)) AlertCode.wallet_registration
      (named_scope "registered-wallets")

-- An administrator that replay knows, against the one that the chain shows.
abbrev pub check_admin : Site → Option Address → Option Address → String → List CriticalAlert
check_admin s none observed key = view_alert s AlertCode.operational_admin (named_scope key) ∷ []
check_admin s (some expected) observed key =
    raise s (not (is_value observed expected)) AlertCode.operational_admin (named_scope key)

unfoldable pub check_authority :
    Site → ProtocolProjection → ObservedAccountingSnapshot → List CriticalAlert
unfolding authorities_complete
check_authority s p o =
    if not (is_v02 p)
    then check_admin s p.operational_admins.reflection_core o.core_operational_admin
        "reflectionCore"
      ++ check_admin s p.operational_admins.test_assets o.faucet_operational_admin "testAssets"
      ++ check_admin s p.operational_admins.test_amm o.amm_operational_admin "testAmm"
      ++ raise s
          (not (p.deployment_ready == authorities_complete p.operational_admins)
            || not p.deployment_ready)
          AlertCode.operational_admin (named_scope "deployment-readiness")
    else raise s (not p.deployment_ready || in_lifecycle ProtocolLifecycle.configuring p)
        AlertCode.event_data (named_scope "deployment-readiness")

-- The vault of the core, given what replay expects it to hold and to owe.
unfoldable pub check_core_vault :
    Site → ProtocolProjection → ObservedAccountingSnapshot → ℤ → ℤ → ℤ → List CriticalAlert
check_core_vault s p o balance liability buckets =
    raise s (not (is_value p.reward_vault o.reward_vault)) AlertCode.vault_binding
      (named_scope "core")
    ++ raise s (not (o.reward_vault_balance == balance)) AlertCode.vault_backing
        (named_scope "core")
    ++ raise s (not (o.reflection_liability == liability)) AlertCode.reflection_liability
        (named_scope "core")
    ++ raise s (not (o.reward_vault_balance == buckets)) AlertCode.vault_backing
        (named_scope "core-buckets")

unfoldable pub check_index :
    Site → ProtocolProjection → ObservedAccountingSnapshot → List CriticalAlert
check_index s p o =
    raise s
      (not (o.current_index == p.current_index) || not (o.index_remainder == p.index_remainder))
      AlertCode.global_index global_scope
    ++ raise s (not (o.eligible_supply == p.eligible_supply)) AlertCode.eligible_supply global_scope
    ++ raise s
        (not (o.aggregate_correction == p.aggregate_correction)
          || not (o.unallocated_fees == p.unallocated_fees)
          || not (o.rounding_reserve == p.rounding_reserve))
        AlertCode.core_accounting global_scope
    ++ raise s
        (not (o.lifetime_swap_fees == p.lifetime_swap_fees)
          || not (o.lifetime_materialized == p.lifetime_materialized)
          || not (o.lifetime_custody_routed == p.lifetime_custody_routed))
        AlertCode.lifetime_total global_scope
