-- ===== src/TodySend.antt =====
-- Sending a message on TODY, in app/agents/tody_agent.py: `request_send`, `request_reply` and
-- `execute_send`. The TODY client, the event log, the dialogue
-- memory and `json` are parameters.
pub mod Claimed
pub mod Once
use tachy_cognitive_ai_agent.Common.{
  ℕ, ◌≡◌, Bool, true, false, ◌&&◌, String, Option, none, some, List, [], ◌∷◌, ◌++◌, str_eq,
  opt_str_eq,
}
use tachy_cognitive_ai_agent.Database.{TableOps}
use tachy_cognitive_ai_agent.Safety.Gate.{Settings}
use tachy_cognitive_ai_agent.Safety.World.{
  Status, Approval, World, M, Outcome, returned, raised, pure, log_event, approval_payload_mismatch,
  tody_send_executed, tody_send_failed, ◌>>=◌, ◌>>◌,
}
use tachy_cognitive_ai_agent.Safety.Approvals.{
  Request, Change, is_pending, is_approved, request_approval, claim_execution, complete_execution,
  get_approval,
}

pub record Message : Type 0 where
  pub conversation_id : ℕ
  pub body : String
  pub reply_to_message_id : Option ℕ

-- A payload's dictionary, by the entries that the agent puts into one; `none` where a key is missing.
pub record Fields : Type 0 where
  pub conversation_id : Option ℕ
  pub body : Option String
  pub reply_to_message_id : Option ℕ

-- `json.dumps` with sorted keys, ASCII and no spaces, and `json.loads`, which reads what is dumped.
pub record Payloads : Type 0 where
  pub dumps : Fields → String
  pub loads : String → Option Fields
  pub loads-dumps : (fields : Fields) → loads (dumps fields) ≡ some fields

abbrev pub canonical_payload : Payloads → Fields → String
canonical_payload P fields = P.dumps fields

-- The entry of the parent message is there only where there is one.
abbrev pub send_fields : Message → Fields
send_fields m = record {
  conversation_id = some m.conversation_id;
  body = some m.body;
  reply_to_message_id = m.reply_to_message_id;
}

-- `_send_payload`
unfoldable pub send_payload : Payloads → Message → String
send_payload P m = canonical_payload P (send_fields m)

-- The client's `send_message`, which gives the id of the message sent; what `dialogue_memory` and
-- `tody_event_log` note of a message sent, and of one that failed. Each may raise.
pub record Services (T : TableOps Approval) : Type 0 where
  pub send_message : Message → M T Message ℕ
  pub note_sent : Message → ℕ → M T Message (Unit {0})
  pub note_failed : Message → M T Message (Unit {0})

pub data Refusal : Type 0 where
  not_found still_pending not_approved payload_mismatch : Refusal
  approval_is : Option Status → Refusal

pub data Reply : Type 0 where
  refused : Refusal → Reply
  sent : Option Status → Reply
  send_error : Option Status → Reply

abbrev pub send_action : String
send_action = "send_message"

module _ {T : TableOps Approval} (P : Payloads) where
  -- `request_send`, and `request_reply` where the message has a parent.
  unfoldable pub request_send : Settings → Message → M T Message Request
  request_send settings m = request_approval settings send_action (some (send_payload P m))

module _ {T : TableOps Approval} (P : Payloads) (S : Services T) where
  attempt : {A : Type 0} → M T Message A → M T Message (Outcome A)
  attempt m w = let (o, w') = m w in (returned o, w')

  call_client : Message → M T Message ℕ
  call_client m w = S.send_message m (record w { calls = w.calls ++ m ∷ [] })

  -- The body of the `try`.
  deliver : ℕ → Message → M T Message (Option Status)
  unfolding call_client
  deliver approval_id m = do
    sent_id ← call_client m
    S.note_sent m sent_id
    log_event (tody_send_executed approval_id m.conversation_id sent_id)
    completion ← complete_execution approval_id true
    pure completion.status

  -- Both `except` branches: a claimed approval fails closed.
  settle : ℕ → Message → Outcome (Option Status) → M T Message Reply
  settle approval_id m (returned status) = pure (sent status)
  settle approval_id m (raised e) = do
    completion ← complete_execution approval_id false
    S.note_failed m
    log_event (tody_send_failed approval_id)
    pure (send_error completion.status)

  pub send_claimed : ℕ → Message → M T Message Reply
  unfolding attempt deliver settle
  send_claimed approval_id m = do
    outcome ← attempt (deliver approval_id m)
    settle approval_id m outcome

  after_claim : ℕ → Message → Change → M T Message Reply
  unfolding send_claimed
  after_claim approval_id m claim = elim claim.changed [
    | false ↦ pure (refused (approval_is claim.status))
    | true ↦ send_claimed approval_id m
  ]

  -- An approved `send_message` row: its payload must be that of the message.
  send_bound : ℕ → Message → Approval → M T Message Reply
  unfolding after_claim
  send_bound approval_id m row = elim (opt_str_eq row.payload (some (send_payload P m))) [
    | false ↦ (do
      log_event (approval_payload_mismatch approval_id send_action)
      pure (refused payload_mismatch))
    | true ↦ (do
      claim ← claim_execution approval_id send_action (some (send_payload P m))
      after_claim approval_id m claim)
  ]

  send_row : ℕ → Message → Option Approval → M T Message Reply
  unfolding send_bound
  send_row approval_id m none = pure (refused not_found)
  send_row approval_id m (some row) = elim (is_pending row.status) [
    | true ↦ pure (refused still_pending)
    | false ↦ elim (is_approved row.status && str_eq row.action send_action) [
      | false ↦ pure (refused not_approved)
      | true ↦ send_bound approval_id m row
    ]
  ]

  unfoldable pub execute_send : ℕ → Message → M T Message Reply
  unfolding send_row
  execute_send approval_id m = do row ← get_approval approval_id; send_row approval_id m row
