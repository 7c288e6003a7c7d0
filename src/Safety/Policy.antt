-- ===== src/Safety/Policy.antt =====
-- app/safety/policy.py: the risk tiers, and the tier of an action name.
use tachy_cognitive_ai_agent.Common.{ℕ, String, List, [], ◌∷◌, if◌then◌else◌}
use tachy_cognitive_ai_agent.Common.Text.{lower, strip, one_of}

pub data RiskTier : Type 0 where
  low medium high forbidden : RiskTier

abbrev pub medium_risk_actions : List String
medium_risk_actions =
    "code_change" ∷ "config_suggestion" ∷ "db_migration_suggestion" ∷ "security_recommendation" ∷ []

abbrev pub high_risk_actions : List String
high_risk_actions =
    "production_deploy" ∷ "db_modify" ∷ "delete_files" ∷ "send_email" ∷ "send_message"
    ∷ "access_secrets" ∷ "change_payment_or_fees" ∷ "disable_security" ∷ "run_shell_command"
    ∷ "create_post" ∷ "tody_create_task" ∷ "tody_task_comment" ∷ "tody_task_status" ∷ []

abbrev pub forbidden_actions : List String
forbidden_actions =
    "malware" ∷ "credential_theft" ∷ "hack_third_party" ∷ "bypass_auth" ∷ "destructive_action"
    ∷ "data_exfiltration" ∷ "illegal_cyber_activity" ∷ []

unfoldable pub classify : List ℕ → RiskTier
unfolding one_of lower strip
classify action =
    let a = lower (strip action) in
    if one_of forbidden_actions a
    then forbidden
    else if one_of high_risk_actions a
    then high
    else if one_of medium_risk_actions a
    then medium
    else low
