-- ===== src/Types/Common.antt =====
-- The scalar types of types.ts, an event's base fields, and alerts.
use cedra_reflect.Base.{Bool, Equality, Option, String, arith, false, true, ◌↔◌, ◌≡◌}
use cedra_reflect.Int.{ℤ}

-- `0x…` texts, of which the program reads only equality and whether all digits are zero.
abbrev pub Address : Type 0
Address = String

pub data EventSource : Type 0 where
  chain replay fixture invalid_source : EventSource

pub data LpEpochStatus : Type 0 where
  active claim_only : LpEpochStatus

pub data ProtocolLifecycle : Type 0 where
  configuring live closed : ProtocolLifecycle

abbrev pub status_beq : LpEpochStatus → LpEpochStatus → Bool
status_beq active active = true
status_beq claim_only claim_only = true
status_beq _ _ = false

pub status_beq_iff : (x y : LpEpochStatus) → (status_beq x y ≡ true) ↔ (x ≡ y)
status_beq_iff x y = ground arith

instance abbrev pub status_eq : Equality LpEpochStatus
status_eq = record { beq_iff = status_beq_iff; beq = status_beq }

abbrev pub lifecycle_beq : ProtocolLifecycle → ProtocolLifecycle → Bool
lifecycle_beq configuring configuring = true
lifecycle_beq live live = true
lifecycle_beq closed closed = true
lifecycle_beq _ _ = false

pub lifecycle_beq_iff : (x y : ProtocolLifecycle) → (lifecycle_beq x y ≡ true) ↔ (x ≡ y)
lifecycle_beq_iff x y = ground arith

instance abbrev pub lifecycle_eq : Equality ProtocolLifecycle
lifecycle_eq = record { beq_iff = lifecycle_beq_iff; beq = lifecycle_beq }

pub data SwapDirection : Type 0 where
  buy sell : SwapDirection

pub data Asset : Type 0 where
  trfl tusd : Asset

pub record EventCursor : Type 0 where
  pub ledger_version : ℤ
  pub event_index : ℤ

pub record EventBase : Type 0 where
  pub id : String
  pub tx_hash : String
  pub ledger_version : ℤ
  pub event_index : ℤ
  pub timestamp_unix_milliseconds : ℤ
  pub source : EventSource

-- The codes that replay, the indexer and the reconciliation raise.
pub data AlertCode : Type 0 where
  event_order event_data transaction_group identifier_reuse double_counting fee_formula : AlertCode
  vault_backing reflection_liability core_accounting global_index eligible_supply : AlertCode
  lifetime_total pool_reserves pool_limits faucet_config reserve_custody : AlertCode
  custody_accounting route_pair old_epoch_route lp_accounting lp_vault_backing : AlertCode
  vault_binding position_accounting wallet_registration package_version pause_state : AlertCode
  operational_admin deployment_identity ledger_version : AlertCode

-- What a reconciliation alert is about: the scopes that reconciler.ts writes as texts.
pub data ViewScope : Type 0 where
  global_scope : ViewScope
  named_scope : String → ViewScope
  epoch_scope : ℤ → ViewScope
  owner_scope : ℤ → Address → ViewScope
  replayed_owner_scope : ℤ → Address → ViewScope
  observed_owner_scope : ℤ → Address → ViewScope
  wallet_scope : Address → ViewScope

pub data AlertSubject : Type 0 where
  about_event : String → AlertSubject
  about_view : ViewScope → AlertSubject

-- The alert's identifier is `event:<event id>:<code>` or `reconcile:<code>:<scope>:<cursor>`, kept
-- as the subject, the code and the cursor. Severity is always critical; the message and the two
-- diagnostic texts are not kept.
pub record CriticalAlert : Type 0 where
  pub subject : AlertSubject
  pub code : AlertCode
  pub detected_at_unix_milliseconds : ℤ
  pub cursor : Option EventCursor
