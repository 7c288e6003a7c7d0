-- ===== src/Capabilities.antt =====
-- app/brain/capability_registry.py: the capabilities that a child module may ask for. Texts are lists
-- of code points, and a set of texts is the sorted list that the source stores.
pub mod Granted
pub mod Limits
use tachy_cognitive_ai_agent.Common.{
  ℕ, ◌≡◌, Bool, true, false, not, ◌&&◌, ◌||◌, String, List, [], ◌∷◌, ◌++◌, map, any_of, ◌==◌, ltb,
  if◌then◌else◌,
}
use tachy_cognitive_ai_agent.Common.Text.{
  codes, lower, strip, drop_while, text_eq, one_of, is_prefix, text_lt, insert_text, to_set, has,
}
use tachy_cognitive_ai_agent.Safety.Policy.{forbidden_actions, high_risk_actions}

abbrev pub protected_paths : List String
protected_paths =
    "app/safety/" ∷ "app/brain/identity_core.py" ∷ "app/brain/cognitive_loop.py" ∷ "app/config.py"
    ∷ ".env" ∷ "deployment/" ∷ "systemd/" ∷ "migrations/" ∷ "approval_gate.py" ∷ "policy.py"
    ∷ "secrets/" ∷ "production/" ∷ []

abbrev pub self_escalation : List String
self_escalation =
    "change_allowed_actions" ∷ "change_blocked_actions" ∷ "disable_approval"
    ∷ "alter_approval_requirement" ∷ "self_permission_escalation" ∷ []

-- `HIGH_RISK`, with the two names that the union adds.
abbrev pub high_risk : List String
high_risk = "alter_user_permissions" ∷ "production_deploy" ∷ high_risk_actions

abbrev pub shell_actions : List String
shell_actions = "run_shell_command" ∷ "subprocess" ∷ "os.system" ∷ []

abbrev pub secret_actions : List String
secret_actions = "access_secrets" ∷ "disable_security" ∷ []

abbrev pub authority_modules : List String
authority_modules = "parent_brain" ∷ "core_kernel" ∷ "safety_policy" ∷ "approval_gate" ∷ []

abbrev pub risk_levels : List String
risk_levels = "low" ∷ "medium" ∷ "high" ∷ "critical" ∷ []

abbrev pub raised_levels : List String
raised_levels = "medium" ∷ "high" ∷ "critical" ∷ []

abbrev slash : ℕ → ℕ
slash c = if c == b'\\' then b'/' else c

-- `path.replace("\\", "/").lstrip("./").lower()`
unfoldable pub normal_path : List ℕ → List ℕ
unfolding lower drop_while
normal_path path = lower (drop_while (λ c. c == b'.' || c == b'/') (map slash path))

abbrev pub guards : List ℕ → String → Bool
guards path p = text_eq path (codes p) || is_prefix (codes p) path

unfoldable pub matches_protected : List ℕ → Bool
unfolding normal_path text_eq is_prefix
matches_protected path = any_of (guards (normal_path path)) protected_paths

-- `Path(item).is_absolute()`
abbrev pub is_absolute : List ℕ → Bool
is_absolute [] = false
is_absolute (c ∷ s) = c == b'/'

pub data Issue : Type 0 where
  invalid_risk missing_forbidden forbidden_requested escalation_requested secret_access
        high_risk_under_low shell_execution authority_module :
      Issue
  protected_scope unapproved_network : List ℕ → Issue

pub record Request : Type 0 where
  pub module_key : List ℕ
  pub allowed_actions : List (List ℕ)
  pub blocked_actions : List (List ℕ)
  pub risk_level : List ℕ
  pub filesystem_scope : List (List ℕ)
  pub network_scope : List (List ℕ)

pub record Verdict : Type 0 where
  pub risk_level : List ℕ
  pub issues : List Issue
  pub requires_approval : Bool
  pub allowed_actions : List (List ℕ)
  pub blocked_actions : List (List ℕ)

abbrev pub issue_if : Bool → Issue → List Issue
issue_if true issue = issue ∷ []
issue_if false issue = []

-- `any(a in xs for a in names)`
unfoldable pub has_any : List String → List (List ℕ) → Bool
unfolding has
has_any names xs = any_of (λ a. has (codes a) xs) names

-- `not (names - xs)`
unfoldable pub has_all : List String → List (List ℕ) → Bool
unfolding has
has_all [] xs = true
has_all (a ∷ names) xs = has (codes a) xs && has_all names xs

unfoldable pub filesystem_issues : List (List ℕ) → List Issue
unfolding matches_protected
filesystem_issues [] = []
filesystem_issues (item ∷ items) =
    issue_if (matches_protected item || is_absolute item) (protected_scope item)
    ++ filesystem_issues items

unfoldable pub network_issues : List (List ℕ) → List Issue
unfolding one_of strip
network_issues [] = []
network_issues (item ∷ items) =
    issue_if (not (one_of ("none" ∷ "approved_provider" ∷ []) (strip item)))
      (unapproved_network item)
    ++ network_issues items

-- `{str(a).strip().lower() for a in actions}`
unfoldable pub action_set : List (List ℕ) → List (List ℕ)
unfolding lower strip to_set
action_set actions = to_set (map (λ a. lower (strip a)) actions)

unfoldable pub issues_of : Request → List ℕ → List (List ℕ) → List (List ℕ) → List Issue
unfolding has_any has_all filesystem_issues network_issues one_of text_eq
issues_of r risk allowed blocked =
    issue_if (not (one_of risk_levels risk)) invalid_risk
    ++ (issue_if (not (has_all forbidden_actions blocked)) missing_forbidden
        ++ (issue_if (has_any forbidden_actions allowed) forbidden_requested
            ++ (issue_if (has_any self_escalation allowed) escalation_requested
                ++ (issue_if (has_any secret_actions allowed) secret_access
                    ++ (issue_if (has_any high_risk allowed && text_eq risk (codes "low"))
                          high_risk_under_low
                        ++ (filesystem_issues r.filesystem_scope
                            ++ (network_issues r.network_scope
                                ++ (issue_if (has_any shell_actions allowed) shell_execution
                                    ++ issue_if (one_of authority_modules r.module_key)
                                        authority_module))))))))

unfoldable pub validate_capabilities : Request → Verdict
unfolding issues_of action_set lower to_set
validate_capabilities r =
    let allowed = action_set r.allowed_actions in
    let blocked = action_set r.blocked_actions in
    let risk = lower r.risk_level in
    record {
      risk_level = risk;
      issues = issues_of r risk allowed blocked;
      requires_approval = one_of raised_levels risk || has_any high_risk allowed;
      allowed_actions = allowed;
      blocked_actions = to_set (blocked ++ map codes forbidden_actions);
    }

-- `not issues`
abbrev pub is_valid : Verdict → Bool
is_valid v = elim v.issues [ [] ↦ true | issue ∷ issues ↦ false ]
