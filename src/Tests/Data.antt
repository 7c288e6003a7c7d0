-- ===== src/Tests/Data.antt =====
-- Test data: tables in memory, a payload format, settings, and functions behind the actions that do
-- nothing.
use text.Mathlib.TextLemmas.{cons≢nil}
use tachy_cognitive_ai_agent.Common.{
  ◌≡◌, refl, inl, inr, Bool-cases, eq_iff, true, false, String, none, some, List, [], str_eq,
}
use tachy_cognitive_ai_agent.Database.{TableOps}
use tachy_cognitive_ai_agent.Database.Memory.{memory}
use tachy_cognitive_ai_agent.Safety.Policy.{high}
use tachy_cognitive_ai_agent.Safety.Gate.{Settings}
use tachy_cognitive_ai_agent.Safety.World.{Status, Approval, World, M, returned}
use tachy_cognitive_ai_agent.ActionEngine.{Call, Json, Loaded, corrupt, object}
use tachy_cognitive_ai_agent.ActionEngine.Claimed.{IsContained}

abbrev pub table : TableOps Approval
table = memory Approval

abbrev pub settings : Settings
settings = record { safety_enforce = true; high_risk_require_approval = true }

-- An opening brace and the action's name, with no parameters.
abbrev loads : String → Loaded (Unit {0})
loads String.[] = corrupt
loads (String.◌∷◌ c s) = object s tt

pub dumps_nonempty : (action : String) → str_eq (String.◌∷◌ "{" action) "" ≡ false
dumps_nonempty action = elim (Bool-cases (str_eq (String.◌∷◌ "{" action) "")) [
  | inl e ↦ absurd (cons≢nil ((eq_iff (String.◌∷◌ "{" action) "").0 e))
  | inr e ↦ e
]

abbrev pub json : Json (Unit {0})
json = record {
  dumps = λ action params. String.◌∷◌ "{" action;
  loads = loads;
  dumps_nonempty = λ action params. dumps_nonempty action;
  loads-dumps = λ action params. refl;
}

abbrev pub handler : String → Unit {0} → M table (Call (Unit {0})) (Unit {0})
handler name params w = (returned tt, w)

pub handler-IsContained : IsContained handler
handler-IsContained = record { keeps = λ name params w j r h. h; calls = λ name params w. refl }

abbrev pub row : Status → Approval
row status = record {
  action = "brain_action";
  payload = some "{tody_post";
  risk_tier = high;
  status = status;
  requested_at = 1;
  decided_at = none;
  execution_started_at = none;
  execution_completed_at = none;
}

abbrev pub world : List Approval → World table (Call (Unit {0}))
world rows = record {
  approvals = rows;
  audit = [];
  audit_file = [];
  memories = [];
  calls = [];
  faults = [];
  clock = 5;
}
