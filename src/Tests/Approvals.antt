-- ===== src/Tests/Approvals.antt =====
-- The approval store at concrete inputs.
use tachy_cognitive_ai_agent.Common.{opt_str_eq, ◌≤◌, ◌≡◌, refl, true, some, List, [], ◌∷◌, any_of}
use tachy_cognitive_ai_agent.Database.Memory.{memory-IsLawful, update_at}
use tachy_cognitive_ai_agent.Safety.World.{
  pending, rejected, Approval, session, log_event, log_event_safe,
}
use tachy_cognitive_ai_agent.Safety.Approvals.{claim_execution, respond, complete_execution}
use tachy_cognitive_ai_agent.Safety.Approvals.Rows.{Op, answer, claim, complete, wait, perform, run}
use tachy_cognitive_ai_agent.Safety.Approvals.History.{Evolves, run-Evolves, run_final}
use tachy_cognitive_ai_agent.Safety.Approvals.Claims.{
  claims, consents, claims-le-one, claim_needs_consent,
}
use tachy_cognitive_ai_agent.Tests.Data.{table, row, world}

abbrev lifecycle : List Op
lifecycle =
    claim 0 "brain_action" (some "{tody_post")
    ∷ answer 0 true
    ∷ wait 3
    ∷ claim 0 "brain_action" (some "{tody_post")
    ∷ claim 0 "brain_action" (some "{tody_post")
    ∷ complete 0 true
    ∷ []

run-Evolves_example :
    (r' : Approval) × (table.get (run lifecycle (world (row pending ∷ []))).approvals 0 ≡ some r')
    × Evolves (row pending) r'
run-Evolves_example =
    run-Evolves (memory-IsLawful Approval) lifecycle (world (row pending ∷ [])) 0 (row pending) refl

run_final_example :
    table.get (run lifecycle (world (row rejected ∷ []))).approvals 0 ≡ some (row rejected)
run_final_example =
    run_final (memory-IsLawful Approval) lifecycle (world (row rejected ∷ [])) 0 (row rejected) refl
      refl

claims-le-one_example : claims 0 lifecycle (world (row pending ∷ [])) ≤ 1
claims-le-one_example =
    claims-le-one (memory-IsLawful Approval) lifecycle (world (row pending ∷ [])) 0

claimed_once : claims 0 lifecycle (world (row pending ∷ [])) ≡ 1
unfolding claims claim_execution respond session log_event log_event_safe update_at
    complete_execution perform opt_str_eq
claimed_once = refl

claim_needs_consent_example : any_of (consents 0) lifecycle ≡ true
claim_needs_consent_example =
    claim_needs_consent (memory-IsLawful Approval) lifecycle (world (row pending ∷ [])) 0 refl
      claimed_once
