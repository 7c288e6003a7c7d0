-- ===== src/ModuleRegistry/Operations.antt =====
-- The operations of app/brain/module_registry.py that write.
use tachy_cognitive_ai_agent.Common.{
  ℕ, Bool, true, false, not, ◌&&◌, Option, none, some, List, [], ◌∷◌, ◌++◌, if◌then◌else◌,
}
use tachy_cognitive_ai_agent.Common.Text.{codes, lower, text_eq, one_of}
use tachy_cognitive_ai_agent.Capabilities.{
  Issue, Verdict, authority_modules, raised_levels, validate_capabilities, is_valid,
}
use tachy_cognitive_ai_agent.Capabilities
use tachy_cognitive_ai_agent.ModuleLifecycle.{Stage, inactive, active}
use tachy_cognitive_ai_agent.ModuleRegistry.{
  SelfModule, Envelope, ControlLog, Tables, World, Outcome, session, stage_of,
  validate_module_identity, registered, status_changed, activated, bad_status, fallback_required,
  already_registered, not_found, approver_required, invalid_capabilities, returned, raised,
}

pub record Proposal : Type 0 where
  pub module_key : List ℕ
  pub module_name : List ℕ
  pub module_type : List ℕ
  pub risk_level : List ℕ
  pub version : List ℕ
  pub sandbox_path : List ℕ
  pub allowed_actions : List (List ℕ)
  pub blocked_actions : List (List ℕ)
  pub fallback_module_key : Option (List ℕ)
  pub filesystem_scope : List (List ℕ)
  pub network_scope : List (List ℕ)
  pub data_scope : List (List ℕ)

-- `SelfModule.module_key == key`, and the first such row.
unfoldable pub find : List ℕ → List SelfModule → Option SelfModule
unfolding text_eq
find key [] = none
find key (m ∷ ms) = if text_eq m.module_key key then some m else find key ms

-- Attributes of the first row under a key, written by the commit.
unfoldable pub update_first : List ℕ → (SelfModule → SelfModule) → List SelfModule → List SelfModule
unfolding text_eq
update_first key f [] = []
update_first key f (m ∷ ms) =
    let rest = update_first key f ms in if text_eq m.module_key key then f m ∷ ms else m ∷ rest

abbrev pub has_fallback : Option (List ℕ) → Bool
has_fallback none = false
has_fallback (some []) = false
has_fallback (some (c ∷ s)) = true

abbrev pub request_of : Proposal → Capabilities.Request
request_of p = record {
  module_key = lower p.module_key;
  allowed_actions = p.allowed_actions;
  blocked_actions = p.blocked_actions;
  risk_level = p.risk_level;
  filesystem_scope = p.filesystem_scope;
  network_scope = p.network_scope;
}

abbrev pub new_module : Proposal → List ℕ → Verdict → SelfModule
new_module p created_by v = record {
  module_key = lower p.module_key;
  module_name = p.module_name;
  module_type = p.module_type;
  version = p.version;
  active_version = none;
  status = inactive;
  sandbox_path = p.sandbox_path;
  allowed_actions = v.allowed_actions;
  blocked_actions = v.blocked_actions;
  fallback_module_key = p.fallback_module_key;
  created_by = created_by;
}

abbrev pub new_envelope : Proposal → List ℕ → Verdict → Envelope
new_envelope p created_by v = record {
  module_key = lower p.module_key;
  version = p.version;
  risk_level = p.risk_level;
  allowed_actions = v.allowed_actions;
  blocked_actions = v.blocked_actions;
  requires_approval = v.requires_approval;
  filesystem_scope = p.filesystem_scope;
  network_scope = p.network_scope;
  data_scope = p.data_scope;
  created_by = created_by;
}

abbrev pub new_log : Proposal → List ℕ → ControlLog
new_log p created_by = record {
  module_key = lower p.module_key;
  version = p.version;
  action = registered;
  old_status = none;
  new_status = inactive;
  reason = codes "registered";
  approved_by = some created_by;
}

-- The body of the transaction, for what the query found.
unfoldable pub store_module :
    Proposal → List ℕ → Verdict → Option SelfModule → Tables → Outcome (Unit {0}) × Tables
store_module p created_by v (some m) t = (raised already_registered, t)
store_module p created_by v none t = (
  returned tt,
  record t {
    modules = t.modules ++ new_module p created_by v ∷ [];
    envelopes = t.envelopes ++ new_envelope p created_by v ∷ [];
    logs = t.logs ++ new_log p created_by ∷ [];
  },
)

unfoldable pub register_checked : Proposal → List ℕ → Verdict → World → Outcome (Unit {0}) × World
unfolding session store_module find one_of lower
register_checked p created_by v w =
    if one_of raised_levels p.risk_level && not (has_fallback p.fallback_module_key)
    then (raised fallback_required, w)
    else session (λ t. store_module p created_by v (find (lower p.module_key) t.modules) t) w

unfoldable pub register_identified :
    Proposal → List ℕ → Verdict → Bool → World → Outcome (Unit {0}) × World
unfolding register_checked
register_identified p created_by v false w = (raised (invalid_capabilities v.issues), w)
register_identified p created_by v true w = register_checked p created_by v w

unfoldable pub register_module : Proposal → List ℕ → World → Outcome (Unit {0}) × World
unfolding register_identified validate_module_identity validate_capabilities lower
register_module p created_by w =
    elim (validate_module_identity (lower p.module_key) p.module_type) [
      | some e ↦ (raised e, w)
      | none ↦
          let v = validate_capabilities (request_of p) in
          register_identified p created_by v (is_valid v) w
    ]

abbrev pub or_version : Option (List ℕ) → List ℕ → List ℕ
or_version none v = v
or_version (some []) v = v
or_version (some (c ∷ s)) v = c ∷ s

unfoldable pub change_status :
    List ℕ
    → Stage
    → List ℕ
    → Option (List ℕ)
    → Option SelfModule
    → Tables
    → Outcome (Unit {0}) × Tables
unfolding update_first
change_status key stage reason approved_by none t = (raised not_found, t)
change_status key stage reason approved_by (some m) t = (
  returned tt,
  record t {
    modules = update_first key (λ r. record r { status = stage }) t.modules;
    logs =
        t.logs
        ++ record {
          module_key = key;
          version = or_version m.active_version m.version;
          action = status_changed;
          old_status = some m.status;
          new_status = stage;
          reason = reason;
          approved_by = approved_by;
        }
          ∷ [];
  },
)

unfoldable pub update_module_status :
    List ℕ → List ℕ → List ℕ → Option (List ℕ) → World → Outcome (Unit {0}) × World
unfolding stage_of session change_status find
update_module_status key status reason approved_by w = elim (stage_of status) [
  | none ↦ (raised bad_status, w)
  | some stage ↦ session (λ t. change_status key stage reason approved_by (find key t.modules) t) w
]

abbrev pub status_before : Option (List ℕ) → Stage
status_before none = inactive
status_before (some []) = inactive
status_before (some (c ∷ s)) = active

unfoldable pub activate :
    List ℕ → List ℕ → List ℕ → Option SelfModule → Tables → Outcome (Unit {0}) × Tables
unfolding update_first
activate key version approved_by none t = (raised not_found, t)
activate key version approved_by (some m) t = (
  returned tt,
  record t {
    modules =
        update_first key (λ r. record r { active_version = some version; status = active })
          t.modules;
    logs =
        t.logs
        ++ record {
          module_key = key;
          version = version;
          action = activated;
          old_status = some (status_before m.active_version);
          new_status = active;
          reason = codes "approved activation";
          approved_by = some approved_by;
        }
          ∷ [];
  },
)

unfoldable pub set_active_version : List ℕ → List ℕ → List ℕ → World → Outcome (Unit {0}) × World
unfolding session activate find
set_active_version key version [] w = (raised approver_required, w)
set_active_version key version (c ∷ by) w =
    session (λ t. activate key version (c ∷ by) (find key t.modules) t) w

-- The operations that write to the registry.
pub data Op : Type 0 where
  register : Proposal → List ℕ → Op
  set_status : List ℕ → List ℕ → List ℕ → Option (List ℕ) → Op
  set_version : List ℕ → List ℕ → List ℕ → Op

unfoldable pub run_op : Op → World → World
unfolding register_module update_module_status set_active_version
run_op (register p created_by) w = (register_module p created_by w).1
run_op (set_status key status reason approved_by) w =
    (update_module_status key status reason approved_by w).1
run_op (set_version key version approved_by) w = (set_active_version key version approved_by w).1

unfoldable pub run_ops : List Op → World → World
unfolding run_op
run_ops [] w = w
run_ops (op ∷ ops) w = run_ops ops (run_op op w)
