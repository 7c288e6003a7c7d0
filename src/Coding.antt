-- ===== src/Coding.antt =====
-- app/coding/agent.py: the agent that writes code with tools, as a program over a trace of what it
-- has done. The sandbox's file and shell work, the language model, the approver, JSON and the regular
-- expressions are parameters. Texts are lists of code points.
pub mod Json
pub mod Risk
pub mod Malformed
pub mod Transcript
pub mod Dispatch
pub mod Plan
pub mod Execute
pub mod Ensures
pub mod Guarded
pub mod Rounds
pub mod Outcomes
pub mod Answered
pub mod Finished
pub mod Runs
use tachy_cognitive_ai_agent.Common.{
  ℕ, ◌≡◌, Bool, true, false, Option, none, some, List, [], ◌∷◌, String,
}
use tachy_cognitive_ai_agent.Common.Int.{ℤ}
use tachy_cognitive_ai_agent.Safety.Policy.{RiskTier}

abbrev pub Text : Type 0
Text = List ℕ

pub data Tool : Type 0 where
  read_file list_dir glob grep write_file edit_file run_bash run_tests : Tool
  -- Another name, or another value with what `str` makes of it: one that a set can be asked for, or
  -- a list or an object, which raises there.
  other unhashable : Text → Tool

-- A value of an argument: a text, or another value, with whether it is true and what `str` makes of
-- it.
pub data Value : Type 0 where
  text : Text → Value
  non_text : Bool → Text → Value

-- The arguments of a tool call, each of which may be missing.
pub record Args : Type 0 where
  pub path : Option Value
  pub pattern : Option Value
  pub command : Option Value
  pub content : Option Value
  pub old : Option Value
  pub new : Option Value

-- What stands under `args`: an object, or another value, with whether it is true. A missing key is
-- an object without fields.
pub data Given : Type 0 where
  given : Args → Given
  no_object : Bool → Given

-- What stands under `issues`: nothing, what `join` makes one text of, or what it raises on.
pub data Issues : Type 0 where
  no_issues not_joinable : Issues
  issue_texts : List Text → Issues

pub data Error : Type 0 where
  attribute_error type_error permission_error value_error overflow_error : Error

-- What stands under `confidence`: no number, a number, cut to an integer, or one that `int` raises on.
pub data Confidence : Type 0 where
  no_confidence : Confidence
  confident : ℤ → Confidence
  not_finite : Error → Confidence

pub record PlanDoc : Type 0 where
  pub steps : ℕ
  pub files_to_touch : List Text

-- The object of a reply, with what the agent reads of it. `plan`
-- is `none` without the key and `some none` where it is null, and `empty` says that the object has no
-- field at all.
pub record Obj : Type 0 where
  pub empty : Bool
  pub stuck : Bool
  pub done : Bool
  pub summary : Option Text
  pub plan : Option (Option PlanDoc)
  pub tool : Tool
  pub args : Given
  pub disapproved : Bool
  pub note : Option Text
  pub issues : Issues
  pub confidence : Confidence

pub data Severity : Type 0 where
  clean low medium high : Severity

pub record ToolResult : Type 0 where
  pub ok : Bool
  pub output : Text
  pub changed_path : Option Text
  pub secrets_found : ℕ
  pub injection : Severity
  pub risk_tier : RiskTier

-- What the agent asks of its sandbox.
pub data Op : Type 0 where
  op_read_file op_list_dir op_glob : Value → Op
  op_grep : Value → Value → Op
  op_write_file : Value → Value → Op
  op_edit_file : Value → Value → Value → Op
  op_run_bash : Value → Op

pub data Prompt : Type 0 where
  intro plan_please json_only json_or_plan : Prompt
  verification_failed : Text → Prompt
  review_issues : List Text → Prompt
  tool_result : Tool → Bool → Text → Prompt
  review_diff : Text → Prompt
  elided : ℕ → List Text → Prompt

pub data Message : Type 0 where
  assistant : Text → Message
  user : Prompt → Message

pub data System : Type 0 where
  coding planning reviewing : System

pub data LogEvent : Type 0 where
  coding_action_blocked coding_action_denied : Tool → LogEvent
  coding_plan_made coding_run : LogEvent
  coding_tool_call : Tool → Bool → RiskTier → LogEvent

-- What the agent does, in the order in which it does it.
pub data Event : Type 0 where
  ran : Tool → Args → Event
  asked_model : System → Event
  asked_approver : Text → Bool → Event
  logged : LogEvent → Event
  read_diff : Event
  collapsed : Event

-- The newest event stands first.
abbrev pub Trace : Type 0
Trace = List Event

pub data Outcome {ℓ} (A : Type ℓ) : Type ℓ where
  returned : A → Outcome A
  raised : Error → Outcome A

-- What stands outside: answers may depend on all that was done before. `sandbox` may raise, `model`
-- gives `none` where the call raises, and `audit` says whether the audit log took an entry.
pub record Services : Type 0 where
  pub sandbox : Trace → Op → Outcome ToolResult
  pub diff : Trace → Text
  pub model : Trace → System → List Message → Option Text
  pub audit : Trace → Bool

-- The regular expressions of app/safety/risk_classifier.py, as tests.
pub record Patterns : Type 0 where
  pub critical_path : Text → Bool
  pub secrets_path : Text → Bool
  pub forbidden_cmd : Text → Bool
  pub high_cmd : Text → Bool
  pub db_modify : Text → Bool
  pub network_egress : Text → Bool

-- `json`, the pattern that strips code fences, and the signature of a call, its `json.dumps` cut.
pub record Codec : Type 0 where
  pub unfence : Text → Text
  pub loads : Text → Option Obj
  pub dumps : Obj → Text
  pub signature : Tool → Args → Bool → Text

abbrev pub M : Type 0 → Type 0
M A = Trace → Outcome A × Trace

abbrev pub continue : {A B : Type 0} → (A → M B) → Outcome A × Trace → Outcome B × Trace
continue f (returned a, t) = f a t
continue f (raised e, t) = (raised e, t)

infixl 5 ◌>>=◌ ◌>>◌
abbrev pub ◌>>=◌ : {A B : Type 0} → M A → (A → M B) → M B
◌>>=◌ m f t = continue f (m t)

abbrev pub ◌>>◌ : {A B : Type 0} → M A → M B → M B
m >> k = m >>= λ _. k

abbrev pub pure : {A : Type 0} → A → M A
pure a t = (returned a, t)

abbrev pub raise : {A : Type 0} → Error → M A
raise e t = (raised e, t)

abbrev pub note : Event → M (Unit {0})
note e t = (returned tt, e ∷ t)
