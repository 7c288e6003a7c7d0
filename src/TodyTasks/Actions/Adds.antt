-- ===== src/TodyTasks/Actions/Adds.antt =====
-- Calls of app/agents/tody_task_actions.py that add to what was sent only calls with a property.
use tachy_cognitive_ai_agent.Common.{◌≡◌, List, [], ◌∷◌, ◌++◌, arith, All}
use tachy_cognitive_ai_agent.Safety.World.{Outcome, returned, raised, Error}
use tachy_cognitive_ai_agent.TodyTasks.{
  Call, Event, World, M, log_event, ask, ◌>>=◌, pure, raise, Answer,
}

-- The rest of a call, as `>>=` runs it.
abbrev continue : {A B : Type 0} → Outcome A → (A → M B) → World → Outcome B × World
continue o f w = elim o [ returned a ↦ f a w | raised e ↦ (raised e, w) ]

-- The calls made before stay, and those that come have `P`.
pub record Adds (P : Call → Type 0) {A : Type 0} (m : M A) : Type 0 where
  pub at : (w : World) → All P w.calls → All P (m w).1.calls

module _ (P : Call → Type 0) where
  All-add_last : (cs : List Call) (c : Call) → All P cs → P c → All P (cs ++ c ∷ [])
  All-add_last [] c h p = (p, tt)
  All-add_last (d ∷ cs) c h p = (h.0, All-add_last cs c h.1 p)

  pub Adds-pure : {A : Type 0} (a : A) → Adds P (pure a)
  Adds-pure a = record { at = λ w h. h }

  pub Adds-raise : {A : Type 0} (e : Error) → Adds P (raise {A = A} e)
  Adds-raise e = record { at = λ w h. h }

  pub Adds-log_event : (e : Event) → Adds P (log_event e)
  unfolding log_event
  Adds-log_event e = record {
    at = λ w h. let k : (log_event e w).1.calls ≡ w.calls = ground arith in rw k h;
  }

  pub Adds-ask :
      {A : Type 0} (c : Call) (answer : List Call → Answer A) → P c → Adds P (ask c answer)
  unfolding ask
  Adds-ask c answer p = record { at = λ w h. All-add_last w.calls c h p }

  pub Adds-continue :
      {A B : Type 0} (o : Outcome A) (f : A → M B) (w : World)
      → ((a : A) → Adds P (f a))
      → All P w.calls
      → All P (continue o f w).1.calls
  Adds-continue (returned a) f w b h = (b a).at w h
  Adds-continue (raised e) f w b h = h

  pub Adds-bind :
      {A B : Type 0} (m : M A) (f : A → M B)
      → Adds P m
      → ((a : A) → Adds P (f a))
      → Adds P (m >>= f)
  Adds-bind m f a b = record { at = λ w h. let (o, w') = m w in Adds-continue o f w' b (a.at w h) }
