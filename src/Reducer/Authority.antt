-- ===== src/Reducer/Authority.antt =====
-- Primary-store exclusions, wallet registration and operational administrators in
-- packages/indexer/src/reducer.ts.
-- An account or a store that is zero, or that is already classified.
use cedra_reflect.Base.{
  Bool, Option, String, false, if◌then◌else◌, is_none, is_value, none, not, some, string_eq, true,
  ◌&&◌, ◌-◌, ◌==◌, ◌^◌, ◌||◌,
}
use cedra_reflect.Int.{leb_ℤ, ltb_ℤ, pos, ℤ_eq, ◌+ℤ◌, ◌-ℤ◌}
use cedra_reflect.Dict.{contains, has_value, insert}
use cedra_reflect.Reducer.Group.{is_zero_address}
use cedra_reflect.Reducer.Lifecycle.{is_v02}
use cedra_reflect.Reducer.Monad.{Action, alert, check, modify, ◌▹◌}
use cedra_reflect.Types.Admin.{OperationalAdminChangedEvent}
use cedra_reflect.Types.Common.{Address, AlertCode, EventBase}
use cedra_reflect.Types.Setup.{
  OperationalPrimaryStoreExcludedEvent, ProtocolPrimaryStoreExcludedEvent, WalletRegisteredEvent,
}
use cedra_reflect.Types.State.{OperationalAdmins, ProtocolProjection}

abbrev pub is_classified : Address → Address → ProtocolProjection → Bool
is_classified account store p =
    contains account p.protocol_excluded_stores
    || has_value store p.protocol_excluded_stores
    || contains account p.registered_wallets
    || has_value store p.registered_wallets

unfoldable pub on_protocol_primary_store_excluded :
    EventBase → ProtocolPrimaryStoreExcludedEvent → Action
on_protocol_primary_store_excluded b e =
    check
      (λ p.
        is_zero_address e.account
        || is_zero_address e.store
        || leb_ℤ p.protocol_exclusions_remaining (pos 0)
        || not (e.remaining_slots == p.protocol_exclusions_remaining -ℤ pos 1)
        || is_classified e.account e.store p)
      b AlertCode.identifier_reuse
    ▹ modify (λ p. record p {
      protocol_exclusions_remaining = e.remaining_slots;
      protocol_excluded_stores = insert e.account e.store p.protocol_excluded_stores;
    })

unfoldable pub on_operational_primary_store_excluded :
    EventBase → OperationalPrimaryStoreExcludedEvent → Action
on_operational_primary_store_excluded b e =
    check
      (λ p.
        is_zero_address e.account || is_zero_address e.store || is_classified e.account e.store p)
      b AlertCode.identifier_reuse
    ▹ modify (λ p. record p {
      protocol_excluded_stores = insert e.account e.store p.protocol_excluded_stores;
    })

unfoldable pub on_wallet_registered : EventBase → WalletRegisteredEvent → Action
on_wallet_registered b e =
    check
      (λ p.
        is_zero_address e.account
        || is_zero_address e.primary_store
        || leb_ℤ e.registered_wallet_count (pos 0)
        || ltb_ℤ (pos (2 ^ 64 - 1)) e.registered_wallet_count
        || not (e.registered_wallet_count == p.registered_wallet_count +ℤ pos 1)
        || is_classified e.account e.primary_store p)
      b AlertCode.wallet_registration
    ▹ modify (λ p. record p {
      registered_wallets = insert e.account e.primary_store p.registered_wallets;
      registered_wallet_count = e.registered_wallet_count;
    })

-- The three authorities, by the names that `operationalAdmins` gives them.
pub data AdminScope : Type 0 where
  core_scope assets_scope amm_scope : AdminScope

abbrev pub scope_of : String → Option AdminScope
scope_of s =
    if s == "reflection-core"
    then some core_scope
    else (if s == "test-assets"
        then some assets_scope
        else (if s == "test-amm" then some amm_scope else none))

abbrev pub admin_of : AdminScope → OperationalAdmins → Option Address
admin_of core_scope a = a.reflection_core
admin_of assets_scope a = a.test_assets
admin_of amm_scope a = a.test_amm

abbrev pub set_admin : AdminScope → Address → OperationalAdmins → OperationalAdmins
set_admin core_scope x a = record a { reflection_core = some x }
set_admin assets_scope x a = record a { test_assets = some x }
set_admin amm_scope x a = record a { test_amm = some x }

abbrev pub is_core_scope : AdminScope → Bool
is_core_scope core_scope = true
is_core_scope _ = false

unfoldable pub authorities_complete : OperationalAdmins → Bool
authorities_complete a =
    not (is_none a.reflection_core) && not (is_none a.test_assets) && not (is_none a.test_amm)

abbrev pub is_initializing : AdminScope → OperationalAdminChangedEvent → ProtocolProjection → Bool
is_initializing key e p =
    is_none (admin_of key p.operational_admins) && is_zero_address e.old_operational_admin

-- The first appointment starts from zero; a later one starts from the administrator in office.
abbrev pub continues_authority :
    AdminScope → OperationalAdminChangedEvent → ProtocolProjection → Bool
continues_authority key e p =
    is_initializing key e p || is_value (admin_of key p.operational_admins) e.old_operational_admin

abbrev pub breaks_handoff : AdminScope → OperationalAdminChangedEvent → ProtocolProjection → Bool
breaks_handoff key e p =
    not (continues_authority key e p)
    || is_zero_address e.new_operational_admin
    || (not (is_initializing key e p)
        && (not (contains e.new_operational_admin p.protocol_excluded_stores)
            || not (
                is_core_scope key
                || is_value p.operational_admins.reflection_core e.new_operational_admin)))

abbrev pub appoint : AdminScope → Address → ProtocolProjection → ProtocolProjection
appoint key admin p =
    let admins = set_admin key admin p.operational_admins in
    record p { operational_admins = admins; deployment_ready = authorities_complete admins }

-- An unknown scope is never read as one of the three.
unfoldable pub hand_off : EventBase → OperationalAdminChangedEvent → Option AdminScope → Action
hand_off b e none = check is_v02 b AlertCode.event_data ▹ alert b AlertCode.operational_admin
hand_off b e (some key) =
    check is_v02 b AlertCode.event_data
    ▹ check (breaks_handoff key e) b AlertCode.operational_admin
    ▹ modify (appoint key e.new_operational_admin)

unfoldable pub on_operational_admin_changed : EventBase → OperationalAdminChangedEvent → Action
unfolding hand_off authorities_complete
on_operational_admin_changed b e = hand_off b e (scope_of e.scope)
