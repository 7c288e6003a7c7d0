-- ===== src/Tests/Send.antt =====
-- Sending on TODY at concrete inputs.
use tachy_cognitive_ai_agent.Common.{
  opt_str_eq, ◌≡◌, ◌⊎◌, refl, true, none, some, [], ◌∷◌, ◌++◌, List,
}
use tachy_cognitive_ai_agent.Database.Memory.{memory-IsLawful, update_at}
use tachy_cognitive_ai_agent.Safety.Gate.{evaluate}
use tachy_cognitive_ai_agent.Safety.Policy.{high}
use tachy_cognitive_ai_agent.Safety.World.{
  approved, Approval, World, returned, session, log_event, log_event_safe,
}
use tachy_cognitive_ai_agent.Safety.Approvals.{
  Request, claim_execution, request_approval, complete_execution, get_approval,
}
use tachy_cognitive_ai_agent.Safety.Approvals.Rows.{answer, run}
use tachy_cognitive_ai_agent.TodySend.{Message, send_payload, Services, request_send, execute_send}
use tachy_cognitive_ai_agent.TodySend.Claimed.{IsContained}
use tachy_cognitive_ai_agent.TodySend.Once.{Sent, execute_send-Sent, sends_once, sends_as_queued}
use tachy_cognitive_ai_agent.Tests.Data.{table, settings}
use tachy_cognitive_ai_agent.Tests.Payloads.{payloads}

abbrev pub services : Services table
services = record {
  send_message = λ m w. (returned 77, w);
  note_sent = λ m id w. (returned tt, w);
  note_failed = λ m w. (returned tt, w);
}

services-IsContained : IsContained services
services-IsContained = record {
  send_keeps = λ m w j r h. h;
  send_calls = λ m w. refl;
  sent_keeps = λ m id w j r h. h;
  sent_calls = λ m id w. refl;
  failed_keeps = λ m w j r h. h;
  failed_calls = λ m w. refl;
}

abbrev pub greeting : Message
greeting = record { conversation_id = 3; body = "namaste"; reply_to_message_id = none }

abbrev bound_row : Approval
bound_row = record {
  action = "send_message";
  payload = some (send_payload payloads greeting);
  risk_tier = high;
  status = approved;
  requested_at = 1;
  decided_at = none;
  execution_started_at = none;
  execution_completed_at = none;
}

abbrev pub world_of : List Approval → World table Message
world_of rows = record {
  approvals = rows;
  audit = [];
  audit_file = [];
  memories = [];
  calls = [];
  faults = [];
  clock = 5;
}

abbrev approved_world : World table Message
approved_world = world_of (bound_row ∷ [])

execute_send-Sent_example :
    Sent payloads 0 greeting approved_world
      (execute_send payloads services 0 greeting approved_world).1
execute_send-Sent_example =
    execute_send-Sent (memory-IsLawful Approval) payloads services services-IsContained 0 greeting
      approved_world

calls_greeting : (execute_send payloads services 0 greeting approved_world).1.calls ≡ greeting ∷ []
unfolding execute_send get_approval claim_execution complete_execution session log_event_safe
    log_event update_at opt_str_eq send_payload
calls_greeting = refl

sends_once_example :
    let v = run (answer 0 true ∷ []) (execute_send payloads services 0 greeting approved_world).1 in
    (execute_send payloads services 0 greeting v).1.calls ≡ v.calls
sends_once_example =
    sends_once (memory-IsLawful Approval) payloads services services-IsContained 0 approved_world
      greeting greeting (answer 0 true ∷ []) (λ e. cc (calls_greeting, e))

abbrev queued_request : Request
queued_request = record { id = 0; action = "send_message"; risk_tier = high }

is_queued : (request_send payloads settings greeting (world_of [])).0 ≡ returned queued_request
unfolding request_send request_approval session log_event evaluate
is_queued = refl

-- The same words to another conversation.
abbrev elsewhere : Message
elsewhere = record { conversation_id = 4; body = "namaste"; reply_to_message_id = none }

sends_as_queued_example :
    let v = run (answer 0 true ∷ []) (request_send payloads settings greeting (world_of [])).1 in
    let x = (execute_send payloads services 0 elsewhere v).1 in
    (x.calls ≡ v.calls) ⊎ ((elsewhere ≡ greeting) × (x.calls ≡ v.calls ++ greeting ∷ []))
sends_as_queued_example =
    sends_as_queued (memory-IsLawful Approval) payloads settings services services-IsContained
      greeting elsewhere (world_of []) queued_request (answer 0 true ∷ []) is_queued
