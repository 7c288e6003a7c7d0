-- ===== src/ActionEngine/Settled.antt =====
-- The part of app/brain/action_engine.py after a claim: from the claim on the approval is spent, and
-- the engine calls at most the one function.
use tachy_cognitive_ai_agent.Common.{
  ℕ, ◌≡◌, ◌∙◌, Bool, true, false, some, List, arith, if◌then◌else◌,
}
use tachy_cognitive_ai_agent.Database.{TableOps, IsLawful}
use tachy_cognitive_ai_agent.Safety.World.{
  Status, executing, succeeded, failed, Approval, World, AuditEvent, DecisionMemory, log_event,
  remember, session, log_event_safe,
}
use tachy_cognitive_ai_agent.Safety.Keeps.{Leads}
use tachy_cognitive_ai_agent.Safety.Approvals.{complete_execution}
use tachy_cognitive_ai_agent.Safety.Approvals.Rows.{
  complete, row_after, is_broken, perform, perform-get,
}

-- The statuses of an approval that has been claimed.
abbrev pub is_spent : Status → Bool
is_spent executing = true
is_spent succeeded = true
is_spent failed = true
is_spent _ = false

-- The approval `i` is spent, and `cs` are the calls so far.
pub record Settled {T : TableOps Approval} {C : Type 0} (i : ℕ) (cs : List C) (w : World T C)
    : Type 0 where
  pub calls : w.calls ≡ cs
  pub row : Approval
  pub at : T.get w.approvals i ≡ some row
  pub spent : is_spent row.status ≡ true

module _ {T : TableOps Approval} (L : IsLawful T) {C : Type 0} (i : ℕ) (cs : List C) where
  pub Settled-log_event :
      (e : AuditEvent) → Leads (Settled i cs) (log_event {T = T} {Call = C} e) (Settled i cs)
  unfolding log_event
  Settled-log_event e = record {
    at = λ w s. record {
      calls = ground (arith, s.calls);
      row = s.row;
      at = ground (arith, s.at);
      spent = s.spent;
    };
  }

  pub Settled-remember :
      (m : DecisionMemory) → Leads (Settled i cs) (remember {T = T} {Call = C} m) (Settled i cs)
  unfolding remember
  Settled-remember m = record {
    at = λ w s. record {
      calls = ground (arith, s.calls);
      row = s.row;
      at = ground (arith, s.at);
      spent = s.spent;
    };
  }

  pub calls-complete_execution :
      (b : Bool) (w : World T C) → (complete_execution i b w).1.calls ≡ w.calls
  unfolding complete_execution session log_event_safe
  calls-complete_execution b w = ground arith

  pub Settled-complete_execution :
      (b : Bool) → Leads (Settled i cs) (complete_execution {T = T} {Call = C} i b) (Settled i cs)
  unfolding perform row_after
  Settled-complete_execution b = record {
    at = λ w s. record {
      calls = calls-complete_execution b w ∙ s.calls;
      row = if is_broken w then s.row else row_after (complete i b) w.clock i s.row;
      at = perform-get L (complete i b) w i s.row s.at;
      spent = ground (arith, s.spent);
    };
  }
