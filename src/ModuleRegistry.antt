-- ===== src/ModuleRegistry.antt =====
-- app/brain/module_registry.py: the registry of child modules, with the envelope of what each may do
-- and the log of its changes. Texts are lists of code points; each table is the list of its rows.
-- Hashes, creation times and metadata are left out.
pub mod Operations
pub mod Safe
pub mod Logged
use mathlib.Core.Option
use tachy_cognitive_ai_agent.Common.{
  ℕ, ◌≤◌, Bool, true, false, not, ◌&&◌, ◌||◌, String, Option, none, some, List, [], ◌∷◌, ◌++◌, leb,
  ◌==◌, length, if◌then◌else◌,
}
use tachy_cognitive_ai_agent.Common.Text.{codes, lower, text_eq, one_of}
use tachy_cognitive_ai_agent.Capabilities.{
  Issue, Verdict, authority_modules, raised_levels, validate_capabilities, is_valid,
}
use tachy_cognitive_ai_agent.Capabilities
use tachy_cognitive_ai_agent.ModuleLifecycle.{
  Stage, inactive, shadow, canary_5, canary_25, active, failed, rollback, disabled,
}

pub record SelfModule : Type 0 where
  pub module_key : List ℕ
  pub module_name : List ℕ
  pub module_type : List ℕ
  pub version : List ℕ
  pub active_version : Option (List ℕ)
  pub status : Stage
  pub sandbox_path : List ℕ
  pub allowed_actions : List (List ℕ)
  pub blocked_actions : List (List ℕ)
  pub fallback_module_key : Option (List ℕ)
  pub created_by : List ℕ

pub record Envelope : Type 0 where
  pub module_key : List ℕ
  pub version : List ℕ
  pub risk_level : List ℕ
  pub allowed_actions : List (List ℕ)
  pub blocked_actions : List (List ℕ)
  pub requires_approval : Bool
  pub filesystem_scope : List (List ℕ)
  pub network_scope : List (List ℕ)
  pub data_scope : List (List ℕ)
  pub created_by : List ℕ

pub data LogAction : Type 0 where
  registered status_changed activated : LogAction

pub record ControlLog : Type 0 where
  pub module_key : List ℕ
  pub version : List ℕ
  pub action : LogAction
  pub old_status : Option Stage
  pub new_status : Stage
  pub reason : List ℕ
  pub approved_by : Option (List ℕ)

pub record Tables : Type 0 where
  pub modules : List SelfModule
  pub envelopes : List Envelope
  pub logs : List ControlLog

-- `faults` says of each coming transaction whether it fails.
pub record World : Type 0 where
  pub tables : Tables
  pub faults : List Bool

-- The texts of `ValueError`, and a failure of the database.
pub data Error : Type 0 where
  bad_key bad_type bad_status authority fallback_required already_registered not_found
        approver_required db_error :
      Error
  invalid_capabilities : List Issue → Error

pub data Outcome (A : Type 0) : Type 0 where
  returned : A → Outcome A
  raised : Error → Outcome A

abbrev pub next_fault : List Bool → Bool × List Bool
next_fault [] = (false, [])
next_fault (f ∷ fs) = (f, fs)

abbrev pub commit : {A : Type 0} → World → Outcome A × Tables → Outcome A × World
commit w (returned a, t) = (returned a, record w { tables = t })
commit w (raised e, t) = (raised e, w)

-- `with session_scope() as db:` around a body that may raise, and then nothing is written.
unfoldable pub session : {A : Type 0} → (Tables → Outcome A × Tables) → World → Outcome A × World
session f w =
    let (broken, fs) = next_fault w.faults in
    let w' = record w { faults = fs } in
    elim broken [ true ↦ (raised db_error, w') | false ↦ commit w' (f w.tables) ]

abbrev pub module_types : List String
module_types =
    "emotion" ∷ "memory" ∷ "reasoning" ∷ "speech" ∷ "tool" ∷ "agent" ∷ "evaluator" ∷ "safety_helper"
    ∷ "business" ∷ "erp" ∷ "tody" ∷ "curriculum" ∷ "self_model" ∷ "other" ∷ []

-- `status in STATUSES`
unfoldable pub stage_of : List ℕ → Option Stage
unfolding text_eq
stage_of s =
    if text_eq s (codes "inactive")
    then some inactive
    else if text_eq s (codes "shadow")
    then some shadow
    else if text_eq s (codes "canary_5")
    then some canary_5
    else if text_eq s (codes "canary_25")
    then some canary_25
    else if text_eq s (codes "active")
    then some active
    else if text_eq s (codes "failed")
    then some failed
    else if text_eq s (codes "rollback")
    then some rollback
    else if text_eq s (codes "disabled")
    then some disabled
    else none

abbrev is_lower : ℕ → Bool
is_lower c = leb b'a' c && leb c b'z'

abbrev is_digit : ℕ → Bool
is_digit c = leb b'0' c && leb c b'9'

-- The rest of `_KEY`; the flag says that an underscore has just been read.
unfoldable pub snake_rest : Bool → List ℕ → Bool
snake_rest after_line [] = not after_line
snake_rest after_line (c ∷ s) =
    let next = snake_rest true s in
    let more = snake_rest false s in
    if c == b'_' then not after_line && next else (is_lower c || is_digit c) && more

-- `_KEY.fullmatch(module_key)`
unfoldable pub is_key : List ℕ → Bool
unfolding snake_rest
is_key [] = false
is_key (c ∷ s) = is_lower c && snake_rest false s

-- `none` where the identity is accepted.
unfoldable pub validate_module_identity : List ℕ → List ℕ → Option Error
unfolding is_key one_of
validate_module_identity key kind =
    if not (is_key key && leb (length key) 120)
    then some bad_key
    else if not (one_of module_types kind)
    then some bad_type
    else if one_of authority_modules key
    then some authority
    else none
