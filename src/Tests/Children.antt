-- ===== src/Tests/Children.antt =====
-- The registry of child modules at concrete inputs.
use tachy_cognitive_ai_agent.Common.{◌≡◌, refl, true, false, none, List, [], ◌∷◌, map}
use tachy_cognitive_ai_agent.Common.Text.{
  codes, strip, strip_by, drop_while, is_space, lower, text_eq, one_of, to_set, insert_text,
  text_lt, has,
}
use tachy_cognitive_ai_agent.Safety.Policy.{forbidden_actions}
use tachy_cognitive_ai_agent.Capabilities.{
  Request, validate_capabilities, is_valid, normal_path, guards, matches_protected, has_any,
  has_all,
}
use tachy_cognitive_ai_agent.Capabilities.Granted.{IsHarmless, validate_capabilities-IsHarmless}
use tachy_cognitive_ai_agent.Capabilities.Limits.{env_is_unguarded}
use tachy_cognitive_ai_agent.ModuleRegistry.{World}
use tachy_cognitive_ai_agent.ModuleRegistry.Operations.{
  Proposal, Op, register, set_status, set_version, run_ops, find,
}
use tachy_cognitive_ai_agent.ModuleRegistry.Safe.{IsSound, run_ops-IsSound}
use tachy_cognitive_ai_agent.ModuleRegistry.Logged.{IsLogged, last_status, run_ops-IsLogged}

abbrev request : Request
request = record {
  module_key = codes "speech_helper";
  allowed_actions = codes "Explain" ∷ [];
  blocked_actions = map codes forbidden_actions;
  risk_level = codes "low";
  filesystem_scope = codes "notes/today.txt" ∷ [];
  network_scope = codes "none" ∷ [];
}

grantable : is_valid (validate_capabilities request) ≡ true
unfolding validate_capabilities strip strip_by drop_while is_space lower text_eq one_of to_set
    insert_text text_lt has matches_protected has_any has_all
grantable = refl

validate_capabilities-IsHarmless_example : IsHarmless request (validate_capabilities request)
validate_capabilities-IsHarmless_example = validate_capabilities-IsHarmless request grantable

env_is_unguarded_example : guards (normal_path (codes ".env")) ".env" ≡ false
env_is_unguarded_example = env_is_unguarded (codes ".env")

abbrev proposal : Proposal
proposal = record {
  module_key = codes "speech_helper";
  module_name = codes "Speech helper";
  module_type = codes "speech";
  risk_level = codes "low";
  version = codes "0.1.0";
  sandbox_path = codes "app/sandbox";
  allowed_actions = codes "Explain" ∷ [];
  blocked_actions = map codes forbidden_actions;
  fallback_module_key = none;
  filesystem_scope = [];
  network_scope = [];
  data_scope = [];
}

abbrev empty : World
empty = record { tables = record { modules = []; envelopes = []; logs = [] }; faults = [] }

abbrev history : List Op
history =
    register proposal (codes "rohit")
    ∷ set_status (codes "speech_helper") (codes "shadow") (codes "validated") none
    ∷ set_version (codes "speech_helper") (codes "0.1.0") (codes "rohit")
    ∷ []

run_ops-IsSound_example : IsSound (run_ops history empty).tables
run_ops-IsSound_example = run_ops-IsSound history empty (tt, tt)

empty-IsLogged : IsLogged empty.tables
unfolding find last_status
empty-IsLogged key = refl

run_ops-IsLogged_example : IsLogged (run_ops history empty).tables
run_ops-IsLogged_example = run_ops-IsLogged history empty empty-IsLogged
