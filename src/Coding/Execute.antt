-- ===== src/Coding/Execute.antt =====
-- app/coding/agent.py: the run that `execute` fills in, and what one tool result adds to it.
use tachy_cognitive_ai_agent.Common.{
  ℕ, ◌+◌, Bool, true, false, ◌&&◌, not, Option, none, some, List, [], ◌∷◌, ◌++◌, length, leb, ltb,
  if◌then◌else◌,
}
use tachy_cognitive_ai_agent.Common.Int.{ℤ, pos, negsuc}
use tachy_cognitive_ai_agent.Common.Text.{text_eq, has}
use tachy_cognitive_ai_agent.Safety.Policy.{RiskTier, low, medium, high, forbidden}
use tachy_cognitive_ai_agent.Coding.{
  Text, Tool, Given, Severity, ToolResult, Message, Trace, Codec, Obj,
}
use tachy_cognitive_ai_agent.Coding.Risk.{is_edit_tool}

pub record Turn : Type 0 where
  pub tool : Tool
  pub args : Given
  pub observation : Text
  pub ok : Bool

pub data Alert : Type 0 where
  secret : ℕ → Tool → Alert
  injection : Tool → Alert
  scope_drift : Text → Alert
  audit_unavailable : Alert
  low_confidence : ℤ → Alert
  over_engineering : ℕ → ℕ → Alert
  unplanned_engineering : ℕ → Alert

pub data RunError : Type 0 where
  llm_error verification_kept_failing hit_step_limit : RunError

pub record AgentRun : Type 0 where
  pub turns : List Turn
  pub changed_files : List Text
  pub done : Bool
  pub verified : Bool
  pub verification : Text
  pub review_note : Text
  pub review_confidence : Option ℤ
  pub stuck : Bool
  pub summary : Text
  pub error : Option RunError
  pub steps : ℕ
  pub alerts : List Alert
  pub max_tier : RiskTier
  pub secrets_blocked : ℕ
  pub injections_blocked : ℕ
  pub drifted : List Text

-- What the call of `execute` and the settings fix; `test_command` is `none` where it is empty, and
-- `plan_files` has no path twice.
pub record Config : Type 0 where
  pub autonomy : Text
  pub approver : Option (Trace → Text → Bool)
  pub max_steps : ℕ
  pub verify : Bool
  pub test_command : Option Text
  pub plan_files : List Text
  pub codec : Codec

-- The run and the variables of the loop.
pub record Loop : Type 0 where
  pub run : AgentRun
  pub transcript : List Message
  pub fail_streak : ℕ
  pub recent_sigs : List Text
  pub reviewed : Bool
  pub audit_warned : Bool

abbrev pub tier_rank : RiskTier → ℕ
tier_rank low = 0
tier_rank medium = 1
tier_rank high = 2
tier_rank forbidden = 3

abbrev is_injected : Severity → Bool
is_injected Severity.high = true
is_injected _ = false

abbrev unless_seen : Option Text → List Text → List Text
unless_seen none files = []
unless_seen (some []) files = []
unless_seen (some (c ∷ path)) files = if has (c ∷ path) files then [] else (c ∷ path) ∷ []

abbrev is_empty : {A : Type 0} → List A → Bool
is_empty [] = true
is_empty (x ∷ xs) = false

-- The file that an edit has changed outside the plan, if any.
abbrev drift : Tool → List Text → Option Text → List Text
drift tool plan changed =
    if is_edit_tool tool && not (is_empty plan) then unless_seen changed plan else []

abbrev drift_alerts : List Text → List Alert
drift_alerts [] = []
drift_alerts (path ∷ paths) = scope_drift path ∷ drift_alerts paths

-- The turn and the changed file, which come before the arguments are read again.
unfoldable pub with_turn : Tool → Given → ToolResult → AgentRun → AgentRun
unfolding has
with_turn tool args res run = record run {
  changed_files = run.changed_files ++ unless_seen res.changed_path run.changed_files;
  turns =
      run.turns ++ record { tool = tool; args = args; observation = res.output; ok = res.ok } ∷ [];
}

-- The guardrail counters and alerts.
unfoldable pub with_guardrails : List Text → Tool → ToolResult → AgentRun → AgentRun
unfolding has
with_guardrails plan tool res run =
    let drifting = drift tool plan res.changed_path in
    record run {
      secrets_blocked = run.secrets_blocked + res.secrets_found;
      injections_blocked = run.injections_blocked + (if is_injected res.injection then 1 else 0);
      drifted = run.drifted ++ drifting;
      max_tier =
          if ltb (tier_rank run.max_tier) (tier_rank res.risk_tier)
          then res.risk_tier
          else run.max_tier;
      alerts =
          run.alerts
          ++ (if leb 1 res.secrets_found then secret res.secrets_found tool ∷ [] else [])
          ++ (if is_injected res.injection then injection tool ∷ [] else [])
          ++ drift_alerts drifting;
    }

-- `recent_sigs.count(sig)`
unfoldable pub count : Text → List Text → ℕ
unfolding text_eq
count sig [] = 0
count sig (x ∷ xs) = (if text_eq sig x then 1 else 0) + count sig xs

-- The alert on a change set that is out of proportion.
abbrev pub disproportion : List Text → List Text → List Alert
disproportion plan changed =
    if not (is_empty plan) && ltb (length plan + 2) (length changed) && leb 4 (length changed)
    then over_engineering (length changed) (length plan) ∷ []
    else if is_empty plan && leb 6 (length changed)
    then unplanned_engineering (length changed) ∷ []
    else []

abbrev pub is_unsure : Option ℤ → List Alert
is_unsure none = []
is_unsure (some (pos n)) = if ltb n 60 then low_confidence (pos n) ∷ [] else []
is_unsure (some (negsuc n)) = low_confidence (negsuc n) ∷ []

-- `if not obj` also holds of an object without fields.
abbrev pub or_nothing : Option Obj → Option Obj
or_nothing none = none
or_nothing (some obj) = if obj.empty then none else some obj
