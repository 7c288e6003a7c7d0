-- ===== src/ProspectiveMemory/Sending.antt =====
-- The sending of reminders that are due: `fire_due`, `_mark` and `cancel` of
-- app/brain/prospective_memory.py.
pub mod Fired
use tachy_cognitive_ai_agent.Common.{
  ℕ, ◌+◌, ◌*◌, ◌≡◌, Bool, true, false, not, ◌&&◌, ◌||◌, String, Option, none, some, List, [], ◌∷◌,
  ltb, leb, length, take, if◌then◌else◌,
}
use tachy_cognitive_ai_agent.Common.Text.{strip, lower, contains_any}
use tachy_cognitive_ai_agent.Database.{TableOps, save}
use tachy_cognitive_ai_agent.Safety.Gate.{Settings}
use tachy_cognitive_ai_agent.Safety.World.{
  Approval, AuditEvent, World, Error, db_error, value_error, Outcome, returned, raised, next_fault,
  log_event, prospective_memory_created, prospective_memory_extract_error,
  prospective_memory_db_error, prospective_memory_fired, prospective_memory_fire_error,
  prospective_memory_cancelled,
}
use tachy_cognitive_ai_agent.Safety.Approvals.{respond}
use tachy_cognitive_ai_agent.TodySend.{
  Message, Payloads, Services, Reply, refused, sent, send_error, request_send, execute_send,
}
use tachy_cognitive_ai_agent.WallClock.{minute, one_day}
use tachy_cognitive_ai_agent.ProspectiveMemory.Parse.{Patterns, max_days, deterministic_parse}
use tachy_cognitive_ai_agent.ProspectiveMemory.{
  ActionStatus, pending, fired, failed, pending_approval, cancelled, ScheduledAction, Memory, N,
  ◌>>=◌, ◌>>◌, pure, utcnow, lift, attempt, session,
}

pub data Fire : Type 0 where
  fire_result : ActionStatus → ℕ → Fire
  fire_error : Fire

abbrev pub is_sent : Reply → Bool
is_sent (sent s) = true
is_sent _ = false

-- The status after an attempt, by `tody_supervised_auto_reply`.
abbrev pub status_after : Bool → Bool → ActionStatus
status_after auto_reply true = fired
status_after false false = pending_approval
status_after true false = failed

abbrev pub stamp : ActionStatus → ℕ → Option ℕ → Option ℕ
stamp fired now old = some now
stamp failed now old = some now
stamp _ now old = old

abbrev pub is_pending : ActionStatus → Bool
is_pending pending = true
is_pending _ = false

module _ (R : TableOps ScheduledAction) where
  mark_row : ℕ → ℕ → ActionStatus → Option ℕ → R.Table → Option ScheduledAction → Unit {0} × R.Table
  mark_row i now status approval_id t none = (tt, t)
  mark_row i now status approval_id t (some row) = (
    tt,
    save R i
        (record row {
          status = status;
          approval_id = elim approval_id [ none ↦ row.approval_id | some a ↦ some a ];
          fired_at = stamp status now row.fired_at;
        })
        t,
  )

module _ {R : TableOps ScheduledAction} {T : TableOps Approval} where
  -- `_mark`
  unfoldable pub mark : ℕ → ActionStatus → Option ℕ → N R T (Unit {0})
  unfolding mark_row
  mark i status approval_id = do
    now ← utcnow
    session (λ t. mark_row R i now status approval_id t (R.get t i))

  cancel_row : ℕ → Option ScheduledAction → N R T Bool
  cancel_row i none = session (λ t. (false, t))
  cancel_row i (some row) = elim (is_pending row.status) [
    | false ↦ session (λ t. (false, t))
    | true ↦ (do
      lift (log_event (prospective_memory_cancelled i))
      session (λ t. (true, save R i (record row { status = cancelled }) t)))
  ]

  unfoldable pub cancel : ℕ → N R T Bool
  unfolding cancel_row
  cancel i s = cancel_row i (R.get s.actions i) s

module _ {R : TableOps ScheduledAction} {T : TableOps Approval} (P : Payloads) (S : Services T)
    (settings : Settings) (auto_reply : Bool) where
  -- With supervised auto-reply the approval is answered and used at once.
  send_queued : ℕ → Message → N R T Bool
  send_queued approval_id m = elim auto_reply [
    | false ↦ pure false
    | true ↦ (do
      lift (respond approval_id true)
      reply ← lift (execute_send P S approval_id m)
      pure (is_sent reply))
  ]

  -- The body of the `try`.
  fire_try : ℕ → Message → N R T Fire
  unfolding send_queued mark
  fire_try i m = do
    queued ← lift (request_send P settings m)
    is_ok ← send_queued queued.id m
    mark i (status_after auto_reply is_ok) (some queued.id)
    lift (log_event (prospective_memory_fired i m.conversation_id queued.id is_ok))
    pure (fire_result (status_after auto_reply is_ok) queued.id)

  after_try : ℕ → Outcome Fire → N R T Fire
  unfolding mark
  after_try i (returned r) = pure r
  after_try i (raised e) = do
    mark i failed none
    lift (log_event (prospective_memory_fire_error i))
    pure fire_error

  -- One round of the loop of `fire_due`.
  unfoldable pub fire_one : ℕ → Message → N R T Fire
  unfolding fire_try after_try
  fire_one i m = do outcome ← attempt (fire_try i m); after_try i outcome

  unfoldable pub fire_items : List (ℕ × Message) → N R T (List (ℕ × Fire))
  unfolding fire_one
  fire_items [] = pure []
  fire_items ((i, m) ∷ items) = do r ← fire_one i m; rest ← fire_items items; pure ((i, r) ∷ rest)

  -- `fire_due`; `list_due` is the query for the pending rows whose time has come.
  unfoldable pub fire_due : (ℕ → R.Table → List (ℕ × Message)) → Bool → N R T (List (ℕ × Fire))
  unfolding fire_items
  fire_due list_due enabled = elim enabled [
    | false ↦ pure []
    | true ↦ (do now ← utcnow; due ← session (λ t. (list_due now t, t)); fire_items due)
  ]
