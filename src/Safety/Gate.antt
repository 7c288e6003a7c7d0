-- ===== src/Safety/Gate.antt =====
-- app/safety/approval_gate.py: whether an action may run, and whether it waits for the guardian.
use tachy_cognitive_ai_agent.Common.{ℕ, Bool, true, false, not, ◌&&◌, String, List, if◌then◌else◌}
use tachy_cognitive_ai_agent.Safety.Policy.{RiskTier, low, medium, high, forbidden, classify}

-- The settings of app/config.py that the gate reads.
pub record Settings : Type 0 where
  pub safety_enforce : Bool
  pub high_risk_require_approval : Bool

pub record GateResult : Type 0 where
  pub allowed : Bool
  pub tier : RiskTier
  pub requires_approval : Bool
  pub reason : String

unfoldable pub evaluate_tier : Settings → RiskTier → GateResult
evaluate_tier settings forbidden = record {
  allowed = false;
  tier = forbidden;
  requires_approval = false;
  reason = "Action is forbidden by policy.";
}
evaluate_tier settings high =
    let needs = settings.safety_enforce && settings.high_risk_require_approval in
    record {
      allowed = not needs;
      tier = high;
      requires_approval = needs;
      reason =
          if needs
          then "High-risk action requires the guardian's explicit approval."
          else "High-risk action allowed (enforcement off).";
    }
evaluate_tier settings medium = record {
  allowed = true;
  tier = medium;
  requires_approval = false;
  reason = "Medium-risk: proceed with a warning.";
}
evaluate_tier settings low = record {
  allowed = true;
  tier = low;
  requires_approval = false;
  reason = "Low-risk: auto-allowed.";
}

unfoldable pub evaluate : Settings → List ℕ → GateResult
unfolding evaluate_tier classify
evaluate settings action = evaluate_tier settings (classify action)
