-- ===== src/ActionEngine/Runs.antt =====
-- That an approved action runs: `execute_approved` of app/brain/action_engine.py where no write
-- fails.
use tachy_cognitive_ai_agent.Common.{
  ℕ, ◌≡◌, refl, ◌∙◌, Bool, true, String, some, [], ◌∷◌, ◌++◌, arith, opt_str_eq, Option-cases, inl,
  inr, eq_iff, if◌then◌else◌,
}
use tachy_cognitive_ai_agent.Database.{TableOps, IsLawful}
use tachy_cognitive_ai_agent.Safety.Gate.{Settings}
use tachy_cognitive_ai_agent.Safety.World.{
  approved, executing, succeeded, failed, Approval, World, M, Outcome, returned, ◌>>=◌, session,
  log_event, log_event_safe, remember,
}
use tachy_cognitive_ai_agent.Safety.Approvals.{
  is_executing, claimable, claim_execution, complete_execution, get_approval,
}
use tachy_cognitive_ai_agent.ActionEngine.Claimed.{IsContained}
use tachy_cognitive_ai_agent.ActionEngine.Once.{calls-claim_execution}
use tachy_cognitive_ai_agent.ActionEngine.{
  Reply, ActionSpec, Json, Call, ran, succeeds, execute, attempt, close, run_claimed, run_loaded,
  after_claim, execute_row, execute_approved, registry, find_spec, object, payload_text,
  brain_action,
}

module _ {T : TableOps Approval} (L : IsLawful T) {C : Type 0} (i : ℕ) where
  claim-runs :
      (action : String) (w : World T C) (r : Approval)
      → T.get w.approvals i ≡ some r
      → claimable action r.payload r ≡ true
      → w.faults ≡ []
      → let (o, v) = claim_execution i action r.payload w in
        (o
          ≡ returned
              (record { changed = true; status = some executing; risk_tier = some r.risk_tier }))
        × (v.faults ≡ [])
        × (T.get v.approvals i
            ≡ some (record r { status = executing; execution_started_at = some w.clock }))
  unfolding claim_execution session log_event_safe log_event
  claim-runs action w r h c f = ground (
    arith,
    L.count-update_where i (claimable action r.payload)
        (λ r. record r { status = executing; execution_started_at = some w.clock }) w.approvals,
    L.get-update_where i (claimable action r.payload)
        (λ r. record r { status = executing; execution_started_at = some w.clock }) w.approvals i,
  )

  complete-runs :
      (is_success : Bool) (w : World T C) (r : Approval)
      → T.get w.approvals i ≡ some r
      → r.status ≡ executing
      → w.faults ≡ []
      → let (o, v) = complete_execution i is_success w in
        let final_status = if is_success then succeeded else failed in
        (o
          ≡ returned
              (record { changed = true; status = some final_status; risk_tier = some r.risk_tier }))
        × (v.calls ≡ w.calls)
        × (T.get v.approvals i
            ≡ some (record r { status = final_status; execution_completed_at = some w.clock }))
  unfolding complete_execution session log_event_safe log_event
  complete-runs is_success w r h c f =
      let final_status = if is_success then succeeded else failed in
      ground (
        arith,
        L.count-update_where i (λ r. is_executing r.status)
            (λ r. record r { status = final_status; execution_completed_at = some w.clock })
            w.approvals,
        L.get-update_where i (λ r. is_executing r.status)
            (λ r. record r { status = final_status; execution_completed_at = some w.clock })
            w.approvals i,
      )

module _ {T : TableOps Approval} {Params Result : Type 0} (J : Json Params) (settings : Settings)
    (handler : String → Params → M T (Call Params) Result) (H : IsContained handler) (i : ℕ) where
  -- Whether the function behind the action ends well, called in the state `w`.
  abbrev pub ends_well : ActionSpec → Params → World T (Call Params) → Bool
  ends_well s params w =
      succeeds (handler s.name params (record w { calls = w.calls ++ (s.name, params) ∷ [] })).0

  execute-runs :
      (s : ActionSpec) (params : Params) (w : World T (Call Params)) (r : Approval)
      → ((u : World T (Call Params)) → u.faults ≡ [] → (handler s.name params u).1.faults ≡ [])
      → T.get w.approvals i ≡ some r
      → w.faults ≡ []
      → let (o, v) = execute J settings handler s params (some i) w in
        (o ≡ returned (ends_well s params w))
        × (v.faults ≡ [])
        × (v.calls ≡ w.calls ++ (s.name, params) ∷ [])
        × (T.get v.approvals i ≡ some r)
  unfolding execute log_event remember
  execute-runs s params w r hf h f =
      let u = record w { calls = w.calls ++ (s.name, params) ∷ [] } in
      (
        ground (arith, hf u f),
        ground (arith, hf u f),
        ground (arith, hf u f, H.calls s.name params u),
        ground (arith, hf u f, H.keeps s.name params u i r h),
      )

claimable_own :
    (r : Approval)
    → r.status ≡ approved
    → r.action ≡ brain_action
    → claimable brain_action r.payload r ≡ true
unfolding opt_str_eq
claimable_own r a b = elim (Option-cases r.payload) [
  | inl n ↦ rw n (ground (arith, eq_iff r.action brain_action))
  | inr (p, e) ↦ rw e (ground (arith, eq_iff r.action brain_action, eq_iff p p))
]

module _ {T : TableOps Approval} {Params : Type 0} (i : ℕ) where
  -- An execution that calls the action `s` once, replies whether it ended well, and leaves the
  -- approval with the status that says so.
  pub record Runs (s : ActionSpec) (params : Params) (is_ok : Bool) (w : World T (Call Params))
      (o : Outcome Reply) (x : World T (Call Params)) : Type 0 where
    pub reply : o ≡ returned (ran s is_ok (some (if is_ok then succeeded else failed)))
    pub calls : x.calls ≡ w.calls ++ (s.name, params) ∷ []
    pub row : Approval
    pub at : T.get x.approvals i ≡ some row
    pub status : row.status ≡ (if is_ok then succeeded else failed)

module _ {T : TableOps Approval} (L : IsLawful T) {Params Result : Type 0} (J : Json Params)
    (settings : Settings) (handler : String → Params → M T (Call Params) Result)
    (H : IsContained handler) (i : ℕ)
    (hf : (name : String) (params : Params) (u : World T (Call Params))
      → u.faults ≡ []
      → (handler name params u).1.faults ≡ []) where
  run_claimed-Runs :
      (s : ActionSpec) (params : Params) (w : World T (Call Params)) (r : Approval)
      → T.get w.approvals i ≡ some r
      → r.status ≡ executing
      → w.faults ≡ []
      → let (o, x) = run_claimed J settings handler i params (some s) w in
        Runs i s params (ends_well J settings handler H i s params w) w o x
  unfolding run_claimed attempt close
  run_claimed-Runs s params w r h x f =
      let is_ok = ends_well J settings handler H i s params w in
      let (e, f', c, g) = execute-runs J settings handler H i s params w r (hf s.name params) h f in
      let v = (execute J settings handler s params (some i) w).1 in
      let (d, k, a) = complete-runs L i is_ok v r g x f' in
      record {
        reply = rw (e, ◌>>=◌) (rw (d, ◌>>=◌) refl);
        calls = rw (e, ◌>>=◌) (rw (d, ◌>>=◌) (k ∙ c));
        row = record r {
          status = if is_ok then succeeded else failed;
          execution_completed_at = some v.clock;
        };
        at = rw (e, ◌>>=◌) (rw (d, ◌>>=◌) a);
        status = refl;
      }

  -- The state in which the function behind the action is called: the approval is claimed.
  abbrev pub claimed_world : Approval → World T (Call Params) → World T (Call Params)
  claimed_world row w = (claim_execution i brain_action row.payload (get_approval i w).1).1

  -- An approved action does run: on a lawful table, where no write fails and the functions behind
  -- the actions are contained and make none fail, an execution of an approved `brain_action` whose
  -- payload is an object with a registered action calls the function behind that action once, with
  -- the payload's parameters. The reply says whether that call ended well, and the approval is
  -- succeeded where it did and failed where it raised.
  pub execute_approved-Runs :
      (w : World T (Call Params)) (row : Approval) (action : String) (params : Params)
      (s : ActionSpec)
      → T.get w.approvals i ≡ some row
      → row.status ≡ approved
      → row.action ≡ brain_action
      → w.faults ≡ []
      → J.loads (payload_text row.payload) ≡ object action params
      → find_spec registry action ≡ some s
      → let (o, x) = execute_approved J settings handler i w in
        Runs i s params (ends_well J settings handler H i s params (claimed_world row w)) w o x
  unfolding execute_approved execute_row after_claim run_loaded get_approval session
  execute_approved-Runs w row action params s h a b f l k =
      let u = (get_approval i w).1 in
      let (c, f', g) =
        claim-runs L i brain_action u row (ground (arith, h, f)) (claimable_own row a b)
          (ground (arith, f)) in
      let v = (claim_execution i brain_action row.payload u).1 in
      let q = calls-claim_execution L i brain_action row.payload u in
      let e =
        run_claimed-Runs s params v
          (record row { status = executing; execution_started_at = some u.clock }) g refl f' in
      record {
        reply = ground (arith, eq_iff row.action brain_action, c, e.reply, l, k);
        calls = ground (arith, eq_iff row.action brain_action, c, e.calls, q, l, k);
        row = e.row;
        at = ground (arith, eq_iff row.action brain_action, c, e.at, l, k);
        status = e.status;
      }
