-- ===== src/Reconciler/Site.antt =====
-- The alerts of packages/indexer/src/reconciler.ts. The clock that it reads for each of them is a
-- parameter, and stands for all of them.
use cedra_reflect.Base.{Bool, List, Option, [], if◌then◌else◌, ◌∷◌}
use cedra_reflect.Int.{ℤ}
use cedra_reflect.Types.Common.{AlertCode, CriticalAlert, EventCursor, ViewScope, about_view}

-- Where an alert is raised: at what time, and at which cursor.
pub record Site : Type 0 where
  pub now : ℤ
  pub cursor : Option EventCursor

-- `alert`
abbrev pub view_alert : Site → AlertCode → ViewScope → CriticalAlert
view_alert s code scope = record {
  subject = about_view scope;
  code = code;
  detected_at_unix_milliseconds = s.now;
  cursor = s.cursor;
}

-- `if (test) alerts.push(alert(code, …, scope))`
abbrev pub raise : Site → Bool → AlertCode → ViewScope → List CriticalAlert
raise s test code scope = if test then view_alert s code scope ∷ [] else []
