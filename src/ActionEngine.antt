-- ===== src/ActionEngine.antt =====
-- app/brain/action_engine.py: the whitelist of actions, proposals, and the execution of approved
-- actions. The functions behind the actions are a parameter.
pub mod Settled
pub mod Proposals
pub mod Once
pub mod Claimed
pub mod Runs
use tachy_cognitive_ai_agent.Common.{
  ℕ, ◌≡◌, refl, Bool, true, false, String, Option, none, some, List, [], ◌∷◌, ◌++◌, str_eq,
  if◌then◌else◌,
}
use tachy_cognitive_ai_agent.Database.{TableOps}
use tachy_cognitive_ai_agent.Safety.Policy.{RiskTier, low, medium, high}
use tachy_cognitive_ai_agent.Safety.Gate.{Settings}
use tachy_cognitive_ai_agent.Safety.World.{
  Status, approved, failed, Approval, World, M, Outcome, returned, raised, attribute_error, pure,
  raise, log_event, remember, action_rejected, action_proposed, action_executed,
  action_execution_failed, ◌>>=◌, ◌>>◌,
}
use tachy_cognitive_ai_agent.Safety.Approvals.{
  Request, Change, is_approved, request_approval, claim_execution, complete_execution, get_approval,
}

abbrev pub brain_action : String
brain_action = "brain_action"

pub record ActionSpec : Type 0 where
  pub name : String
  pub risk_tier : RiskTier

abbrev spec : String → RiskTier → ActionSpec
spec name tier = record { name = name; risk_tier = tier }

abbrev pub registry : List ActionSpec
registry =
    spec "learn_topic" low
    ∷ spec "assign_homework" low
    ∷ spec "create_goal" low
    ∷ spec "daily_reflection" low
    ∷ spec "consolidate_memory" medium
    ∷ spec "send_tody_message" high
    ∷ spec "send_direct_message" high
    ∷ spec "tody_react" medium
    ∷ spec "tody_reply" high
    ∷ spec "tody_post" high
    ∷ spec "tody_create_task" high
    ∷ spec "tody_task_comment" high
    ∷ spec "tody_task_status" high
    ∷ []

-- `REGISTRY.get(action)`
unfoldable pub find_spec : List ActionSpec → String → Option ActionSpec
find_spec [] action = none
find_spec (s ∷ specs) action = if str_eq s.name action then some s else find_spec specs action

-- What `json.loads` makes of a payload: no JSON, JSON that is no object, or an object with
-- `str(payload.get("action"))` and `payload.get("params") or {}`.
pub data Loaded (Params : Type 0) : Type 0 where
  corrupt : Loaded Params
  not_object : Loaded Params
  object : String → Params → Loaded Params

pub record Json (Params : Type 0) : Type 0 where
  -- `json.dumps({"action": action, "params": params}, …)`
  pub dumps : String → Params → String
  pub loads : String → Loaded Params
  -- What is dumped is an object's text, and loads again.
  pub dumps_nonempty : (action : String) (params : Params) → str_eq (dumps action params) "" ≡ false
  pub loads-dumps :
      (action : String) (params : Params) → loads (dumps action params) ≡ object action params

abbrev pub Call : Type 0 → Type 0
Call Params = String × Params

pub data Reason : Type 0 where
  unknown_action approval_not_found corrupt_payload no_longer_registered : Reason
  approval_is : Option Status → Reason
  not_brain_action : String → Reason

pub data Reply : Type 0 where
  -- `executed: False` with a reason and, after a claim, the approval's status.
  blocked : Reason → Option Status → Reply
  awaiting : Request → Reply
  -- `accepted: True` with `executed`, and the approval's status where there is an approval.
  ran : ActionSpec → Bool → Option Status → Reply

abbrev pub succeeds : {A : Type 0} → Outcome A → Bool
succeeds (returned a) = true
succeeds (raised e) = false

abbrev pub is_low : RiskTier → Bool
is_low low = true
is_low _ = false

-- `row["payload"] or "{}"`
abbrev pub payload_text : Option String → String
payload_text none = "{}"
payload_text (some s) = if str_eq s "" then "{}" else s

module _ {T : TableOps Approval} {Params Result : Type 0} (J : Json Params) (settings : Settings)
    (handler : String → Params → M T (Call Params) Result) where
  -- `spec.run(params)` inside `try … except Exception`: whether it returned.
  try_run : ActionSpec → Params → M T (Call Params) Bool
  try_run s params w =
      let (o, w') = handler s.name params (record w { calls = w.calls ++ (s.name, params) ∷ [] }) in
      (returned (succeeds o), w')

  unfoldable pub execute : ActionSpec → Params → Option ℕ → M T (Call Params) Bool
  unfolding try_run
  execute s params approval_id = do
    is_ok ← try_run s params
    log_event (action_executed s.name is_ok approval_id s.risk_tier)
    remember (record { action = s.name; done = is_ok; importance_score = if is_ok then 6 else 8 })
    pure is_ok

  pub propose_spec : String → Params → Option ActionSpec → M T (Call Params) Reply
  unfolding execute
  propose_spec action params none = do
    log_event (action_rejected action)
    pure (blocked unknown_action none)
  propose_spec action params (some s) = elim (is_low s.risk_tier) [
    | true ↦ (do is_ok ← execute s params none; pure (ran s is_ok none))
    | false ↦ (do
      appr ← request_approval settings brain_action (some (J.dumps action params))
      log_event (action_proposed action appr.id s.risk_tier)
      pure (awaiting appr))
  ]

  unfoldable pub propose : String → Params → M T (Call Params) Reply
  unfolding propose_spec
  propose action params = propose_spec action params (find_spec registry action)

  -- `except Exception` of a claimed execution: fail closed.
  close_failed : ActionSpec → ℕ → M T (Call Params) Reply
  close_failed s approval_id = do
    complete_execution approval_id false
    log_event (action_execution_failed s.name approval_id s.risk_tier)
    pure (ran s false (some failed))

  close : ActionSpec → ℕ → Outcome Bool → M T (Call Params) Reply
  unfolding close_failed
  close s approval_id (returned is_ok) = do
    completion ← complete_execution approval_id is_ok
    pure (ran s is_ok completion.status)
  close s approval_id (raised e) = close_failed s approval_id

  -- `try: … except Exception`: the outcome as a value.
  attempt : {A : Type 0} → M T (Call Params) A → M T (Call Params) (Outcome A)
  attempt m w = let (o, w') = m w in (returned o, w')

  run_claimed : ℕ → Params → Option ActionSpec → M T (Call Params) Reply
  unfolding close execute attempt
  run_claimed approval_id params none = do
    complete_execution approval_id false
    pure (blocked no_longer_registered (some failed))
  run_claimed approval_id params (some s) = do
    outcome ← attempt (execute s params (some approval_id))
    close s approval_id outcome

  -- After the claim: what the payload loads to. `.get` on what is no object raises.
  pub run_loaded : ℕ → Loaded Params → M T (Call Params) Reply
  unfolding run_claimed
  run_loaded approval_id corrupt = do
    complete_execution approval_id false
    pure (blocked corrupt_payload (some failed))
  run_loaded approval_id not_object = raise attribute_error
  run_loaded approval_id (object action params) =
      run_claimed approval_id params (find_spec registry action)

  pub after_claim : ℕ → Option String → Change → M T (Call Params) Reply
  after_claim approval_id payload claim = elim claim.changed [
    | false ↦ pure (blocked (approval_is claim.status) none)
    | true ↦ run_loaded approval_id (J.loads (payload_text payload))
  ]

  pub execute_row : ℕ → Option Approval → M T (Call Params) Reply
  unfolding run_loaded after_claim
  execute_row approval_id none = pure (blocked approval_not_found none)
  execute_row approval_id (some row) = elim (is_approved row.status) [
    | false ↦ pure (blocked (approval_is (some row.status)) none)
    | true ↦ elim (str_eq row.action brain_action) [
      | false ↦ pure (blocked (not_brain_action row.action) none)
      | true ↦ (do
        claim ← claim_execution approval_id brain_action row.payload
        after_claim approval_id row.payload claim)
    ]
  ]

  unfoldable pub execute_approved : ℕ → M T (Call Params) Reply
  unfolding execute_row
  execute_approved approval_id = do row ← get_approval approval_id; execute_row approval_id row
