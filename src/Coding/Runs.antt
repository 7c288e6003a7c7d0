-- ===== src/Coding/Runs.antt =====
-- app/coding/agent.py: what holds of every run of `make_plan` and of `execute`.
use tachy_cognitive_ai_agent.Common.{
  ℕ, zero, suc, ◌≡◌, refl, Bool, true, false, ◌&&◌, not, Option, none, some, List, [], ◌∷◌,
}
use tachy_cognitive_ai_agent.Common.Text.{codes}
use tachy_cognitive_ai_agent.Coding.{
  Text, PlanDoc, Obj, Message, planning, asked_model, Services, Patterns, Codec, Trace, Outcome,
  returned, raised, Error, Event, M,
}
use tachy_cognitive_ai_agent.Coding.Risk.{is_read_tool}
use tachy_cognitive_ai_agent.Coding.Json.{extract_json}
use tachy_cognitive_ai_agent.Coding.Ensures.{Post, Ensures, Ensures-bind}
use tachy_cognitive_ai_agent.Coding.Execute.{Config, or_nothing}
use tachy_cognitive_ai_agent.Coding.Guarded.{any_tool, Cleared, Guarded, dispatch-Guarded}
use tachy_cognitive_ai_agent.Coding.Plan.{PlanRun, planned, read, replied, plan_steps, make_plan}
use tachy_cognitive_ai_agent.Coding.Rounds.{execute}
use tachy_cognitive_ai_agent.Coding.Outcomes.{Fault, Finished}
use tachy_cognitive_ai_agent.Coding.Finished.{execute-Finished}

-- The trace of a result of any kind keeps the invariant.
Post-trace :
    {A : Type 0} (I : Trace → Type 0) (F : Error → Trace → Type 0) (Q : A → Type 0)
    (r : Outcome A × Trace)
    → Post I F Q r
    → I r.1
Post-trace I F Q (returned a, t) p = p.0
Post-trace I F Q (raised e, t) p = p.0

module _ (P : Patterns) (S : Services) (codec : Codec) where
  abbrev Reads : Trace → Type 0
  Reads = Guarded P (codes "plan_first") is_read_tool

  abbrev Whatever : Error → Trace → Type 0
  Whatever e t = Unit

  Reads-keeps :
      (e : Event) (t : Trace)
      → Cleared P (codes "plan_first") is_read_tool e t
      → Reads t
      → Reads (e ∷ t)
  Reads-keeps e t c i = (c, i)

  abbrev Any : PlanRun → Type 0
  Any run = Unit

  abbrev Next : (List Message → PlanRun → M PlanRun) → Type 0
  Next next =
      (transcript : List Message) (run : PlanRun) → Ensures Reads Whatever (next transcript run) Any

  allowed : (b : Bool) → (true && not b) ≡ false → b ≡ true
  allowed true h = refl
  allowed false h = cc

  planned-Reads :
      (next : List Message → PlanRun → M PlanRun) (obj : Obj) (plan : Option (Option PlanDoc))
      → Next next
      → Next (planned P S codec next obj plan)
  planned-Reads next obj (some plan) h transcript run = record { at = λ t i. ((tt, i), tt) }
  planned-Reads next obj none h transcript run =
      Ensures-bind Reads Whatever (λ r. Unit {0}) Any _ _
        (dispatch-Guarded P (codes "plan_first") is_read_tool S Reads Reads-keeps Whatever
          (λ t op e x. tt) true none obj.tool (allowed (is_read_tool obj.tool)) obj.args
          (λ x e t i. tt))
        (λ res x. h _ _)

  read-Reads :
      (next : List Message → PlanRun → M PlanRun) (raw : Text) (obj : Option Obj)
      → Next next
      → Next (read P S codec next raw obj)
  read-Reads next raw none h transcript run = h _ run
  read-Reads next raw (some obj) h transcript run = planned-Reads next obj obj.plan h transcript run

  replied-Reads :
      (next : List Message → PlanRun → M PlanRun) (answer : Option Text)
      → Next next
      → Next (replied P S codec next answer)
  replied-Reads next none h transcript run = record { at = λ t i. (i, tt) }
  replied-Reads next (some raw) h transcript run =
      read-Reads next raw (or_nothing (extract_json codec.loads codec.unfence raw)) h transcript run

  plan_steps-Reads : (n : ℕ) → Next (plan_steps P S codec n)
  unfolding plan_steps
  plan_steps-Reads zero transcript run = record { at = λ t i. (i, tt) }
  plan_steps-Reads (suc n) transcript run = record {
    at = λ t i.
        let t' = asked_model planning ∷ t in
        (replied-Reads (plan_steps P S codec n) (S.model t' planning transcript)
            (plan_steps-Reads n) transcript run).at
          t' (tt, i);
  }

-- Planning runs read-only tools alone, whatever the model replies and however the planning ends:
-- no forbidden call, and none that needs an approval without the approver's yes directly before it.
pub make_plan-Guarded :
    (P : Patterns) (S : Services) (codec : Codec) (max_read_steps : ℕ)
    → Guarded P (codes "plan_first") is_read_tool (make_plan P S codec max_read_steps []).1
unfolding make_plan
make_plan-Guarded P S codec max_read_steps =
    Post-trace (Reads P S codec) (Whatever P S codec) (Any P S codec) _
      ((plan_steps-Reads P S codec max_read_steps _ _).at [] tt)

-- Whatever the model, the sandbox and the approver answer, and also where the run raises: every tool
-- call that `execute` runs, those of the verification included, is not forbidden by its arguments,
-- and where its tier is high, or it is a shell call under `plan_first`, it comes directly after the
-- approver's yes to the question made from that call.
pub execute-Guarded :
    (P : Patterns) (S : Services) (cfg : Config)
    → Guarded P cfg.autonomy any_tool (execute P S cfg []).1
execute-Guarded P S cfg =
    Post-trace (Guarded P cfg.autonomy any_tool) (Fault P S cfg) (Finished P S cfg)
      (execute P S cfg []) ((execute-Finished P S cfg).at [] tt)
