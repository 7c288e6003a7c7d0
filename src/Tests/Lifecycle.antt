-- ===== src/Tests/Lifecycle.antt =====
-- The lifecycle of a child module at concrete inputs.
use Prim.Native.Nat.{ℕ}
use tachy_cognitive_ai_agent.Common.{
  ◌≤◌, length, ◌≡◌, refl, Bool, true, false, none, some, List, [], ◌∷◌, arith,
}
use tachy_cognitive_ai_agent.ModuleLifecycle.{
  Stage, shadow, canary_5, failed, Risk, low, medium, high, Settings, Module, Probe, finished,
  may_activate, health, is_red, totals, run_shadow, promote, gates, advance, advance_all, approve,
  active, set_status,
}
use tachy_cognitive_ai_agent.ModuleLifecycle.Growth.{
  IsEarned, grown-IsEarned, high_risk_never_grows, approved_high_risk_is_stuck,
}

abbrev defaults : Settings
defaults = record {
  autonomous_activation = true;
  max_autonomous_risk = some medium;
  min_score_low = 85;
  min_score_medium = 92;
  min_score_high = 97;
  canary_min_samples = 5;
}

abbrev child : Stage → Risk → ℕ → Module
child stage risk score = record {
  status = stage;
  version = "0.2.0";
  active_version = none;
  last_eval_score = some score;
  envelope =
      some (record { risk_level = risk; approval_request_id = some 5; requires_approval = true });
  samples = [];
  log = [];
  reports = 0;
}

-- A quick run that ends well.
abbrev fine : Bool × Probe
fine = (false, finished true 2500)

abbrev ticks : List (Bool × Probe)
ticks = fine ∷ fine ∷ fine ∷ fine ∷ fine ∷ fine ∷ []

-- Six good runs bring a module of low risk from shadow to active.
grown : (advance_all defaults ticks (child shadow low 9000)).status ≡ active
unfolding advance_all advance may_activate run_shadow gates health totals is_red promote set_status
grown = refl

grown-IsEarned_example :
    IsEarned defaults (child shadow low 9000) (advance_all defaults ticks (child shadow low 9000))
    × (3 ≤ length ticks)
grown-IsEarned_example = grown-IsEarned defaults ticks (child shadow low 9000) refl grown

high_risk_never_grows_example :
    (advance_all defaults ticks (child shadow high 9900)).status ≡ shadow
high_risk_never_grows_example =
    high_risk_never_grows defaults ticks (child shadow high 9900) (omega arith) (omega arith)

approved_high_risk_is_stuck_example :
    (advance_all defaults ticks (approve "rohit" (child failed high 9900))).status ≡ canary_5
approved_high_risk_is_stuck_example =
    approved_high_risk_is_stuck defaults "rohit" ticks (child failed high 9900) (omega arith)
      (omega arith)
