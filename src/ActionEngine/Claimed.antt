-- ===== src/ActionEngine/Claimed.antt =====
-- The part of app/brain/action_engine.py after a claim: the engine calls exactly the function that
-- the payload names, and the approval stays spent.
use mathlib.Core.List.{append-nil}
use tachy_cognitive_ai_agent.Common.{
  ℕ, ◌≡◌, ap, ◌∙◌, Bool, false, String, Option, none, some, List, [], ◌∷◌, ◌++◌, if◌then◌else◌,
}
use tachy_cognitive_ai_agent.Database.{TableOps, IsLawful}
use tachy_cognitive_ai_agent.Safety.Gate.{Settings}
use tachy_cognitive_ai_agent.Safety.World.{
  Approval, World, M, Outcome, returned, raised, action_executed,
}
use tachy_cognitive_ai_agent.Safety.Keeps.{Leads, Leads-bind, Leads-pure, Leads-raise}
use tachy_cognitive_ai_agent.ActionEngine.{
  Call, ActionSpec, Json, Loaded, corrupt, not_object, object, registry, find_spec, try_run,
  execute, run_claimed, run_loaded, close, close_failed, attempt,
}
use tachy_cognitive_ai_agent.ActionEngine.Settled.{
  Settled, Settled-log_event, Settled-remember, Settled-complete_execution,
}

-- What the functions behind the actions may do to the store: they may add approvals of their own
-- (sending a message requests one) but change none that is there, and their calls are not the
-- engine's.
pub record IsContained {T : TableOps Approval} {Params Result : Type 0}
    (handler : String → Params → M T (Call Params) Result) : Type 0 where
  pub keeps :
      (name : String) (params : Params) (w : World T (Call Params)) (j : ℕ) (r : Approval)
      → T.get w.approvals j ≡ some r
      → T.get (handler name params w).1.approvals j ≡ some r
  pub calls :
      (name : String) (params : Params) (w : World T (Call Params))
      → (handler name params w).1.calls ≡ w.calls

-- The call that a loaded payload stands for, if its action is registered.
abbrev pub call_of : {Params : Type 0} → Params → Option ActionSpec → List (Call Params)
call_of params none = []
call_of params (some s) = (s.name, params) ∷ []

abbrev pub called : {Params : Type 0} → Loaded Params → List (Call Params)
called (object action params) = call_of params (find_spec registry action)
called _ = []

module _ {T : TableOps Approval} (L : IsLawful T) {Params Result : Type 0} (J : Json Params)
    (settings : Settings) (handler : String → Params → M T (Call Params) Result)
    (H : IsContained handler) (i : ℕ) (cs : List (Call Params)) where
  Settled-try_run :
      (s : ActionSpec) (params : Params)
      → Leads
          (Settled i cs)
          (try_run J settings handler s params)
          (Settled i (cs ++ (s.name, params) ∷ []))
  unfolding try_run
  Settled-try_run s params = record {
    at = λ w e.
        let w' = record w { calls = w.calls ++ (s.name, params) ∷ [] } in
        record {
          calls =
              H.calls s.name params w'
              ∙ ap (λ (l : List (Call Params)). l ++ (s.name, params) ∷ []) e.calls;
          row = e.row;
          at = H.keeps s.name params w' i e.row e.at;
          spent = e.spent;
        };
  }

  Settled-execute :
      (s : ActionSpec) (params : Params) (approval_id : Option ℕ)
      → Leads
          (Settled i cs)
          (execute J settings handler s params approval_id)
          (Settled i (cs ++ (s.name, params) ∷ []))
  unfolding execute
  Settled-execute s params approval_id = Leads-bind _ _ (Settled-try_run s params) λ is_ok.
      Leads-bind _ _
        (Settled-log_event L i _ (action_executed s.name is_ok approval_id s.risk_tier))
        λ _.
          Leads-bind _ _
            (Settled-remember L i _
              (record { action = s.name; done = is_ok; importance_score = if is_ok then 6 else 8 }))
            λ _. Leads-pure is_ok

module _ {T : TableOps Approval} {Params Result : Type 0} (J : Json Params) (settings : Settings)
    (handler : String → Params → M T (Call Params) Result) where
  Leads-attempt :
      {A : Type 0} {P Q : World T (Call Params) → Type 0} (m : M T (Call Params) A)
      → Leads P m Q
      → Leads P (attempt J settings handler m) Q
  unfolding attempt
  Leads-attempt m k = record { at = k.at }

module _ {T : TableOps Approval} (L : IsLawful T) {Params Result : Type 0} (J : Json Params)
    (settings : Settings) (handler : String → Params → M T (Call Params) Result) (i : ℕ)
    (cs : List (Call Params)) where
  Settled-close :
      (s : ActionSpec) (o : Outcome Bool)
      → Leads (Settled i cs) (close J settings handler s i o) (Settled i cs)
  unfolding close close_failed
  Settled-close s (returned is_ok) =
      Leads-bind _ _ (Settled-complete_execution L i cs is_ok) λ _. Leads-pure _
  Settled-close s (raised e) =
      Leads-bind _ _ (Settled-complete_execution L i cs false)
        λ _. Leads-bind _ _ (Settled-log_event L i cs _) λ _. Leads-pure _

module _ {T : TableOps Approval} (L : IsLawful T) {Params Result : Type 0} (J : Json Params)
    (settings : Settings) (handler : String → Params → M T (Call Params) Result)
    (H : IsContained handler) (i : ℕ) (cs : List (Call Params)) where
  Settled-run_claimed :
      (params : Params) (o : Option ActionSpec)
      → Leads
          (Settled i cs)
          (run_claimed J settings handler i params o)
          (Settled i (cs ++ call_of params o))
  unfolding run_claimed
  Settled-run_claimed params none =
      rw append-nil (Leads-bind _ _ (Settled-complete_execution L i cs false) λ _. Leads-pure _)
  Settled-run_claimed params (some s) =
      Leads-bind _ _
        (Leads-attempt J settings handler _
          (Settled-execute L J settings handler H i cs s params (some i)))
        λ o. Settled-close L J settings handler i _ s o

  -- From the claim on the engine makes exactly the call that the payload names.
  pub Settled-run_loaded :
      (l : Loaded Params)
      → Leads (Settled i cs) (run_loaded J settings handler i l) (Settled i (cs ++ called l))
  unfolding run_loaded
  Settled-run_loaded corrupt =
      rw append-nil (Leads-bind _ _ (Settled-complete_execution L i cs false) λ _. Leads-pure _)
  Settled-run_loaded not_object = rw append-nil (Leads-raise _)
  Settled-run_loaded (object action params) = Settled-run_claimed params (find_spec registry action)
