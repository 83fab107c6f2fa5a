-- ===== src/Reducer/Monad.antt =====
-- Replay of packages/indexer/src/reducer.ts as an action on the mutable context: alerts are pushed,
-- `context.next` is replaced, and a throw loses the projection but keeps the alerts.
use cedra_reflect.Base.{
  Bool, List, Option, String, [], if◌then◌else◌, none, some, string_eq, ◌++◌, ◌∷◌,
}
use cedra_reflect.Int.{ℤ, ℤ_eq}
use cedra_reflect.Dict.{insert, lookup}
use cedra_reflect.Types.Common.{AlertCode, CriticalAlert, EventBase, about_event}
use cedra_reflect.Types.State.{IndexedLpEpoch, ProtocolProjection}

pub record PendingCoreFee : Type 0 where
  pub base : EventBase
  pub fee_amount : ℤ
  pub shares_at_collection : ℤ

-- `MutableContext`, with the three variables that the loop over the events also keeps.
pub record Context : Type 0 where
  pub next : ProtocolProjection
  pub alerts : List CriticalAlert
  pub pending_core_fees : List PendingCoreFee
  pub consumed_routes : List String
  pub sell_wallet_debited : Bool

pub data Outcome : Type 0 where
  done : Context → Outcome
  threw : List CriticalAlert → Outcome

abbrev pub Action : Type 0
Action = Context → Outcome

unfoldable pub problem : EventBase → AlertCode → CriticalAlert
problem e code = record {
  subject = about_event e.id;
  code = code;
  detected_at_unix_milliseconds = e.timestamp_unix_milliseconds;
  cursor = some (record { ledger_version = e.ledger_version; event_index = e.event_index });
}

infixl 5 ◌▹◌
unfoldable pub ◌▹◌ : Action → Action → Action
◌▹◌ a b c = elim (a c) [ done c' ↦ b c' | threw alerts ↦ threw alerts ]

unfoldable pub skip : Action
skip c = done c

unfoldable pub throw : Action
throw c = threw c.alerts

-- `context.alerts.push(problem(event, code, …))`
unfoldable pub alert : EventBase → AlertCode → Action
alert e code c = done (record c { alerts = c.alerts ++ problem e code ∷ [] })

-- `if (test) { context.alerts.push(…); }`, on the current projection.
unfoldable pub check : (ProtocolProjection → Bool) → EventBase → AlertCode → Action
unfolding alert
check test e code c = if test c.next then alert e code c else done c

-- The same where evaluating the test may throw.
unfoldable pub check_checked : (ProtocolProjection → Option Bool) → EventBase → AlertCode → Action
unfolding alert
check_checked test e code c = elim (test c.next) [
  | none ↦ threw c.alerts
  | some b ↦ if b then alert e code c else done c
]

-- `if (test) throw …`
unfoldable pub throw_if : (ProtocolProjection → Bool) → Action
throw_if test c = if test c.next then threw c.alerts else done c

-- `if (test) { …push(…); break; }`: the rest runs only where the test fails.
unfoldable pub unless : (ProtocolProjection → Bool) → EventBase → AlertCode → Action → Action
unfolding alert
unless test e code rest c = if test c.next then alert e code c else rest c

-- `context.next = { …context.next, … }`
unfoldable pub modify : (ProtocolProjection → ProtocolProjection) → Action
modify f c = done (record c { next = f c.next })

-- The same where computing the new fields may throw.
unfoldable pub update : (ProtocolProjection → Option ProtocolProjection) → Action
update f c = elim (f c.next) [ none ↦ threw c.alerts | some p ↦ done (record c { next = p }) ]

-- `requireEpoch`, and `if (epoch === null) break;`
unfoldable pub with_epoch : EventBase → ℤ → (IndexedLpEpoch → Action) → Action
unfolding alert
with_epoch e id k c = elim (lookup id c.next.lp_epochs) [
  | none ↦ alert e AlertCode.lp_accounting c
  | some epoch ↦ k epoch c
]

abbrev pub set_epoch : IndexedLpEpoch → ProtocolProjection → ProtocolProjection
set_epoch epoch p = record p { lp_epochs = insert epoch.epoch epoch p.lp_epochs }

-- A computation whose throw ends the replay.
unfoldable pub needing {ℓ} : {A : Type ℓ} → Option A → (A → Action) → Action
needing none k c = threw c.alerts
needing (some a) k c = k a c
