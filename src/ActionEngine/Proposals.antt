-- ===== src/ActionEngine/Proposals.antt =====
-- `propose` of app/brain/action_engine.py: a gated action only waits, and what is executed in the end
-- is what was proposed.
use tachy_cognitive_ai_agent.Common.{
  ◌≡◌, refl, ap, ◌∙◌, ◌⊎◌, inl, inr, false, String, Option, none, some, List, [], ◌∷◌, ◌++◌, arith,
  eq_iff,
}
use tachy_cognitive_ai_agent.Common.Text.{codes}
use tachy_cognitive_ai_agent.Database.{TableOps, IsLawful}
use tachy_cognitive_ai_agent.Safety.Policy.{low}
use tachy_cognitive_ai_agent.Safety.Gate.{Settings, evaluate}
use tachy_cognitive_ai_agent.Safety.World.{
  pending, Approval, World, M, returned, session, log_event,
}
use tachy_cognitive_ai_agent.Safety.Approvals.{Request, request_approval}
use tachy_cognitive_ai_agent.Safety.Approvals.Rows.{Op, run}
use tachy_cognitive_ai_agent.Safety.Approvals.History.{Evolves, run-Evolves}
use tachy_cognitive_ai_agent.ActionEngine.{
  Call, ActionSpec, Json, awaiting, brain_action, is_low, registry, find_spec, payload_text,
  propose, propose_spec, execute_approved,
}
use tachy_cognitive_ai_agent.ActionEngine.Claimed.{IsContained, called}
use tachy_cognitive_ai_agent.ActionEngine.Once.{
  Performed, nothing, authorised, execute_approved-Performed,
}

find_spec-name :
    (specs : List ActionSpec) (action : String) (s : ActionSpec)
    → find_spec specs action ≡ some s
    → s.name ≡ action
unfolding find_spec
find_spec-name [] action s h = cc
find_spec-name (t ∷ specs) action s h =
    ground (arith, eq_iff t.name action, find_spec-name specs action s)

-- The policy knows no action of the name `brain_action`.
brain_action-low : (settings : Settings) → (evaluate settings (codes brain_action)).tier ≡ low
unfolding evaluate
brain_action-low settings = refl

module _ {T : TableOps Approval} {Params : Type 0} (J : Json Params) where
  -- The new row of a proposal that waits.
  pub record Waits (action : String) (params : Params) (req : Request) (w : World T (Call Params))
      : Type 0 where
    pub row : Approval
    pub at : T.get w.approvals req.id ≡ some row
    pub status : row.status ≡ pending
    pub bound_action : row.action ≡ brain_action
    pub bound_payload : row.payload ≡ some (J.dumps action params)
    pub tier : row.risk_tier ≡ low

module _ {T : TableOps Approval} (L : IsLawful T) {Params Result : Type 0} (J : Json Params)
    (settings : Settings) (handler : String → Params → M T (Call Params) Result) where
  calls-propose_spec :
      (action : String) (params : Params) (s : ActionSpec) (w : World T (Call Params))
      → is_low s.risk_tier ≡ false
      → (propose_spec J settings handler action params (some s) w).1.calls ≡ w.calls
  unfolding propose_spec request_approval session log_event
  calls-propose_spec action params s w l = ground arith

  Waits-propose_spec :
      (action : String) (params : Params) (s : ActionSpec) (w : World T (Call Params))
      (req : Request)
      → is_low s.risk_tier ≡ false
      → (propose_spec J settings handler action params (some s) w).0 ≡ returned (awaiting req)
      → Waits J action params req (propose_spec J settings handler action params (some s) w).1
  unfolding propose_spec request_approval session log_event
  Waits-propose_spec action params s w req l h =
      let row : Approval = record {
        action = brain_action;
        payload = some (J.dumps action params);
        risk_tier = (evaluate settings (codes brain_action)).tier;
        status = pending;
        requested_at = w.clock;
        decided_at = none;
        execution_started_at = none;
        execution_completed_at = none;
      } in
      record {
        row = row;
        at = ground (arith, L.get-insert row w.approvals req.id);
        status = refl;
        bound_action = refl;
        bound_payload = refl;
        tier = brain_action-low settings;
      }

  -- On a lawful table the proposal of a registered action that is not low-risk calls no action's
  -- function, whatever fails.
  pub propose_gated :
      (action : String) (params : Params) (s : ActionSpec) (w : World T (Call Params))
      → find_spec registry action ≡ some s
      → is_low s.risk_tier ≡ false
      → (propose J settings handler action params w).1.calls ≡ w.calls
  unfolding propose
  propose_gated action params s w f l = rw (f, propose) (calls-propose_spec action params s w l)

  -- On a lawful table, where the proposal of a registered action that is not low-risk returns that
  -- it waits for an approval, that approval is a pending `brain_action` in the table, with the
  -- proposed action and parameters as its payload. Its tier is recorded as low, whatever the
  -- action's own tier.
  pub propose-Waits :
      (action : String) (params : Params) (s : ActionSpec) (w : World T (Call Params))
      (req : Request)
      → find_spec registry action ≡ some s
      → is_low s.risk_tier ≡ false
      → (propose J settings handler action params w).0 ≡ returned (awaiting req)
      → Waits J action params req (propose J settings handler action params w).1
  unfolding propose
  propose-Waits action params s w req f l =
      rw (f, propose) (Waits-propose_spec action params s w req l)

called-dumps :
    {Params : Type 0} (J : Json Params) (action : String) (params : Params) (s : ActionSpec)
    → find_spec registry action ≡ some s
    → called (J.loads (payload_text (some (J.dumps action params)))) ≡ (action, params) ∷ []
called-dumps J action params s f = rw (J.dumps_nonempty action params) (
    rw (J.loads-dumps action params)
      (rw f (ap (λ n. (n, params) ∷ []) (find_spec-name registry action s f))))

module _ {T : TableOps Approval} (L : IsLawful T) {Params Result : Type 0} (J : Json Params)
    (settings : Settings) (handler : String → Params → M T (Call Params) Result)
    (H : IsContained handler) where
  as_waiting :
      (action : String) (params : Params) (s : ActionSpec) (req : Request)
      (u v x : World T (Call Params)) (r : Approval)
      → find_spec registry action ≡ some s
      → (wait : Waits J action params req u) → Evolves wait.row r
      → T.get v.approvals req.id ≡ some r
      → Performed J req.id v x
      → (x.calls ≡ v.calls) ⊎ (x.calls ≡ v.calls ++ (action, params) ∷ [])
  as_waiting action params s req u v x r f wait e h (nothing c) = inl c
  as_waiting action params s req u v x r f wait e h (authorised row g a b settled) =
      let same : row.payload ≡ some (J.dumps action params) =
        ground (arith, e.payload, wait.bound_payload) in
      inr (
        settled.calls
        ∙ ap (λ (p : Option String). v.calls ++ called (J.loads (payload_text p))) same
        ∙ ap (λ (l : List (Call Params)). v.calls ++ l) (called-dumps J action params s f))

  -- What is executed is what was proposed, on a lawful table and with contained functions behind
  -- the actions: after a proposal that waits, and whatever operations of the store follow, an
  -- execution of its approval calls nothing or exactly the proposed action with the proposed
  -- parameters.
  pub executes_as_proposed :
      (action : String) (params : Params) (s : ActionSpec) (w : World T (Call Params))
      (req : Request) (ops : List Op)
      → find_spec registry action ≡ some s
      → is_low s.risk_tier ≡ false
      → (propose J settings handler action params w).0 ≡ returned (awaiting req)
      → let v = run ops (propose J settings handler action params w).1 in
        let x = (execute_approved J settings handler req.id v).1 in
        (x.calls ≡ v.calls) ⊎ (x.calls ≡ v.calls ++ (action, params) ∷ [])
  executes_as_proposed action params s w req ops f l h =
      let u = (propose J settings handler action params w).1 in
      let wait = propose-Waits L J settings handler action params s w req f l h in
      let (r, g, e) = run-Evolves L ops u req.id wait.row wait.at in
      as_waiting action params s req u (run ops u) _ r f wait e g
        (execute_approved-Performed L J settings handler H req.id (run ops u))
