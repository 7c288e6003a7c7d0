-- ===== src/Tests/Engine.antt =====
-- The action engine at concrete inputs.
use tachy_cognitive_ai_agent.Common.{opt_str_eq, ◌≡◌, ◌⊎◌, refl, true, some, [], ◌∷◌, ◌++◌}
use tachy_cognitive_ai_agent.Database.Memory.{memory-IsLawful, update_at}
use tachy_cognitive_ai_agent.Safety.Policy.{high, low}
use tachy_cognitive_ai_agent.Safety.World.{
  approved, Approval, World, returned, session, log_event, log_event_safe, remember,
}
use tachy_cognitive_ai_agent.Safety.Approvals.{
  Request, claim_execution, request_approval, complete_execution, get_approval,
}
use tachy_cognitive_ai_agent.Safety.Approvals.Rows.{answer, run}
use tachy_cognitive_ai_agent.Safety.Gate.{evaluate}
use tachy_cognitive_ai_agent.ActionEngine.{
  Call, registry, ActionSpec, awaiting, propose, execute_approved, find_spec, execute,
}
use tachy_cognitive_ai_agent.ActionEngine.Runs.{Runs, execute_approved-Runs}
use tachy_cognitive_ai_agent.ActionEngine.Once.{
  Performed, execute_approved-Performed, executes_once,
}
use tachy_cognitive_ai_agent.ActionEngine.Proposals.{
  Waits, propose_gated, propose-Waits, executes_as_proposed,
}
use tachy_cognitive_ai_agent.Tests.Data.{
  table, json, settings, handler, handler-IsContained, row, world,
}

abbrev ready : World table (Call (Unit {0}))
ready = world (row approved ∷ [])

execute_approved-Performed_example :
    Performed json 0 ready (execute_approved json settings handler 0 ready).1
execute_approved-Performed_example =
    execute_approved-Performed (memory-IsLawful Approval) json settings handler handler-IsContained
      0 ready

calls_post : (execute_approved json settings handler 0 ready).1.calls ≡ ("tody_post", tt) ∷ []
unfolding execute_approved execute get_approval claim_execution complete_execution session
    log_event_safe log_event remember update_at find_spec opt_str_eq
calls_post = refl

executes_once_example :
    let v = run (answer 0 true ∷ []) (execute_approved json settings handler 0 ready).1 in
    (execute_approved json settings handler 0 v).1.calls ≡ v.calls
executes_once_example =
    executes_once (memory-IsLawful Approval) json settings handler handler-IsContained 0 ready
      (answer 0 true ∷ []) (λ e. cc (calls_post, e))

abbrev post : ActionSpec
post = record { name = "tody_post"; risk_tier = high }

found : find_spec registry "tody_post" ≡ some post
unfolding find_spec
found = refl

propose_gated_example : (propose json settings handler "tody_post" tt (world [])).1.calls ≡ []
propose_gated_example =
    propose_gated (memory-IsLawful Approval) json settings handler "tody_post" tt post (world [])
      found refl

abbrev req : Request
req = record { id = 0; action = "brain_action"; risk_tier = low }

waits : (propose json settings handler "tody_post" tt (world [])).0 ≡ returned (awaiting req)
unfolding propose find_spec request_approval session log_event evaluate
waits = refl

propose-Waits_example :
    Waits json "tody_post" tt req (propose json settings handler "tody_post" tt (world [])).1
propose-Waits_example =
    propose-Waits (memory-IsLawful Approval) json settings handler "tody_post" tt post (world [])
      req found refl waits

executes_as_proposed_example :
    let v = run (answer 0 true ∷ []) (propose json settings handler "tody_post" tt (world [])).1 in
    let x = (execute_approved json settings handler 0 v).1 in
    (x.calls ≡ v.calls) ⊎ (x.calls ≡ v.calls ++ ("tody_post", tt) ∷ [])
executes_as_proposed_example =
    executes_as_proposed (memory-IsLawful Approval) json settings handler handler-IsContained
      "tody_post" tt post (world []) req (answer 0 true ∷ []) found refl waits

execute_approved-Runs_example :
    let (o, x) = execute_approved json settings handler 0 ready in Runs 0 post tt true ready o x
execute_approved-Runs_example =
    execute_approved-Runs (memory-IsLawful Approval) json settings handler handler-IsContained 0
      (λ name params u f. f) ready (row approved) "tody_post" tt post refl refl refl refl refl found
