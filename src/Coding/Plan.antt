-- ===== src/Coding/Plan.antt =====
-- app/coding/agent.py: `make_plan`, which may only read, and ends with a plan or an error.
use tachy_cognitive_ai_agent.Common.{ℕ, zero, suc, true, Option, none, some, List, [], ◌∷◌, ◌++◌}
use tachy_cognitive_ai_agent.Common.Text.{codes}
use tachy_cognitive_ai_agent.Coding.{
  Text, PlanDoc, Obj, Message, assistant, user, plan_please, json_or_plan, tool_result, planning,
  coding_plan_made, asked_model, logged, Services, Patterns, Codec, M, ◌>>=◌, ◌>>◌, pure, note,
}
use tachy_cognitive_ai_agent.Coding.Json.{extract_json}
use tachy_cognitive_ai_agent.Coding.Dispatch.{dispatch}
use tachy_cognitive_ai_agent.Coding.Execute.{Turn, or_nothing}

pub data PlanError : Type 0 where
  llm_error no_convergence : PlanError

-- What `make_plan` fills in of its run.
pub record PlanRun : Type 0 where
  pub plan : Option PlanDoc
  pub turns : List Turn
  pub error : Option PlanError

module _ (P : Patterns) (S : Services) (codec : Codec) where
  -- The plan of the object, or a call of a tool and the next step.
  abbrev pub planned :
      (List Message → PlanRun → M PlanRun)
      → Obj
      → Option (Option PlanDoc)
      → List Message
      → PlanRun
      → M PlanRun
  planned next obj (some plan) transcript run =
      note (logged coding_plan_made) >> pure (record run { plan = plan })
  planned next obj none transcript run =
      dispatch P S (codes "plan_first") true none obj.tool obj.args >>= λ res.
      next
        (transcript
          ++ assistant (codec.dumps obj) ∷ user (tool_result obj.tool res.ok res.output) ∷ [])
        (record run {
          turns =
              run.turns
              ++ record { tool = obj.tool; args = obj.args; observation = res.output; ok = res.ok }
                ∷ [];
        })

  abbrev pub read :
      (List Message → PlanRun → M PlanRun) → Text → Option Obj → List Message → PlanRun → M PlanRun
  read next raw none transcript run =
      next (transcript ++ assistant raw ∷ user json_or_plan ∷ []) run
  read next raw (some obj) transcript run = planned next obj obj.plan transcript run

  abbrev pub replied :
      (List Message → PlanRun → M PlanRun) → Option Text → List Message → PlanRun → M PlanRun
  replied next none transcript run = pure (record run { error = some llm_error })
  replied next (some raw) transcript run =
      read next raw (or_nothing (extract_json codec.loads codec.unfence raw)) transcript run

  unfoldable pub plan_steps : ℕ → List Message → PlanRun → M PlanRun
  unfolding extract_json dispatch
  plan_steps zero transcript run = pure (record run { error = some no_convergence })
  plan_steps (suc n) transcript run =
      let next = plan_steps n in
      note (asked_model planning) >> λ t.
      replied next (S.model t planning transcript) transcript run t

  unfoldable pub make_plan : ℕ → M PlanRun
  unfolding plan_steps
  make_plan max_read_steps =
      plan_steps max_read_steps (user plan_please ∷ [])
        (record { plan = none; turns = []; error = none })
