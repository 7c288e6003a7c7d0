-- ===== src/Safety/Approvals.antt =====
-- app/safety/approvals.py: the approval store. Each operation is a call in `Safety.World`.
pub mod Rows
pub mod Claims
pub mod History
use mathlib.Core.Option
use tachy_cognitive_ai_agent.Common.{
  ℕ, Bool, true, false, ◌&&◌, ◌||◌, String, Option, none, some, ◌==◌, str_eq, opt_str_eq,
  if◌then◌else◌,
}
use tachy_cognitive_ai_agent.Common.Text.{codes}
use tachy_cognitive_ai_agent.Database.{TableOps, save}
use tachy_cognitive_ai_agent.Safety.Policy.{RiskTier, high}
use tachy_cognitive_ai_agent.Safety.Gate.{Settings, evaluate}
use tachy_cognitive_ai_agent.Safety.World.{
  Status, pending, approved, rejected, executing, succeeded, failed, superseded, Approval,
  AuditEvent, approval_requested, approval_decided, approval_execution_claimed,
  approval_execution_completed, approval_superseded, M, pure, gets, session, log_event,
  log_event_safe, ◌>>=◌, ◌>>◌,
}

abbrev pub is_pending : Status → Bool
is_pending pending = true
is_pending _ = false

abbrev pub is_approved : Status → Bool
is_approved approved = true
is_approved _ = false

abbrev pub is_executing : Status → Bool
is_executing executing = true
is_executing _ = false

pub record Request : Type 0 where
  pub id : ℕ
  pub action : String
  pub risk_tier : RiskTier

pub data Decision : Type 0 where
  not_found : Decision
  already_decided : Status → Decision
  decided : Status → String → RiskTier → Decision

-- The outcome dictionaries of the three conditional updates; `changed` is `claimed`, `completed` or
-- `superseded`, and a missing row has no status.
pub record Change : Type 0 where
  pub changed : Bool
  pub status : Option Status
  pub risk_tier : Option RiskTier

abbrev missing : Change
missing = record { changed = false; status = none; risk_tier = none }

-- The predicates of the `WHERE` clauses.
abbrev pub claimable : String → Option String → Approval → Bool
claimable action payload r =
    is_approved r.status && (str_eq r.action action && opt_str_eq r.payload payload)

abbrev pub supersedable : String → Option String → Approval → Bool
supersedable action payload r =
    (is_pending r.status || is_approved r.status)
    && (str_eq r.action action && opt_str_eq r.payload payload)

-- The read after a conditional update, with the outcome that it yields.
report : Status → ℕ → Option Approval → Change
report new n none = missing
report new n (some row) = record {
  changed = n == 1;
  status = some (if n == 1 then new else row.status);
  risk_tier = some row.risk_tier;
}

module _ (T : TableOps Approval) where
  change_where : ℕ → (Approval → Bool) → (Approval → Approval) → Status → T.Table → Change × T.Table
  unfolding report
  change_where i p f new t = let (n, t') = T.update_where i p f t in (report new n (T.get t' i), t')

  -- The body of the session of `respond`.
  decide_row : ℕ → ℕ → Bool → T.Table → Option Approval → Decision × T.Table
  decide_row now i is_yes t none = (not_found, t)
  decide_row now i is_yes t (some row) =
      let status = if is_yes then approved else rejected in
      if is_pending row.status
      then (
        decided status row.action row.risk_tier,
        save T i (record row { status = status; decided_at = some now }) t,
      )
      else (already_decided row.status, t)

module _ {T : TableOps Approval} {Call : Type 0} where
  unfoldable pub request_approval : Settings → String → Option String → M T Call Request
  request_approval settings action payload = do
    let gate = evaluate settings (codes action)
    now ← gets (λ w. w.clock)
    approval_id ← session (
        T.insert (record {
          action = action;
          payload = payload;
          risk_tier = gate.tier;
          status = pending;
          requested_at = now;
          decided_at = none;
          execution_started_at = none;
          execution_completed_at = none;
        }))
    log_event (approval_requested approval_id action payload gate.tier)
    pure (record { id = approval_id; action = action; risk_tier = gate.tier })

  log_decision : ℕ → Decision → M T Call (Unit {0})
  log_decision i (decided status action tier) = log_event (approval_decided i action status tier)
  log_decision i _ = pure tt

  unfoldable pub respond : ℕ → Bool → M T Call Decision
  unfolding decide_row log_decision
  respond approval_id is_yes = do
    now ← gets (λ w. w.clock)
    answer ← session (λ t. decide_row T now approval_id is_yes t (T.get t approval_id))
    log_decision approval_id answer
    pure answer

  -- `if outcome["…"]: log_event_safe(…)`, the tier defaulting to `high`.
  log_change : Change → (RiskTier → AuditEvent) → M T Call (Unit {0})
  log_change outcome event =
      if outcome.changed
      then log_event_safe (event (Option.get_or outcome.risk_tier high))
      else pure tt

  unfoldable pub claim_execution : ℕ → String → Option String → M T Call Change
  unfolding change_where log_change
  claim_execution approval_id expected_action expected_payload = do
    now ← gets (λ w. w.clock)
    outcome ← session (
        change_where T approval_id (claimable expected_action expected_payload)
          (λ r. record r { status = executing; execution_started_at = some now }) executing)
    log_change outcome (approval_execution_claimed approval_id expected_action)
    pure outcome

  unfoldable pub complete_execution : ℕ → Bool → M T Call Change
  unfolding change_where log_change
  complete_execution approval_id is_success = do
    let final_status = if is_success then succeeded else failed
    now ← gets (λ w. w.clock)
    outcome ← session (
        change_where T approval_id (λ r. is_executing r.status)
          (λ r. record r { status = final_status; execution_completed_at = some now }) final_status)
    log_change outcome (approval_execution_completed approval_id final_status)
    pure outcome

  unfoldable pub supersede : ℕ → String → Option String → M T Call Change
  unfolding change_where log_change
  supersede approval_id expected_action expected_payload = do
    now ← gets (λ w. w.clock)
    outcome ← session (
        change_where T approval_id (supersedable expected_action expected_payload)
          (λ r. record r {
            status = superseded;
            decided_at = some now;
            execution_completed_at = some now;
          })
          superseded)
    log_change outcome (approval_superseded approval_id expected_action)
    pure outcome

  unfoldable pub get_approval : ℕ → M T Call (Option Approval)
  get_approval approval_id = session (λ t. (T.get t approval_id, t))
