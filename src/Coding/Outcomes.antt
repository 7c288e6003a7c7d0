-- ===== src/Coding/Outcomes.antt =====
-- app/coding/agent.py: how a run of `execute` may end, and the steps that end it or let it go on.
use tachy_cognitive_ai_agent.Common.{
  suc, ◌≤◌, ◌≡◌, refl, Bool, true, false, ◌&&◌, not, some, List, [], ◌∷◌, ◌++◌, if◌then◌else◌, ◌⊎◌,
  inl, inr, leb, Bool-cases,
}
use tachy_cognitive_ai_agent.Coding.{
  Text, Args, Obj, ToolResult, Services, Patterns, Op, Error, raised, Trace, Event, type_error,
  asked_model, coding, reviewing, Message, not_joinable, not_finite,
}
use tachy_cognitive_ai_agent.Coding.Malformed.{is_malformed}
use tachy_cognitive_ai_agent.Coding.Execute.{Loop, AgentRun, Config, RunError, count}
use tachy_cognitive_ai_agent.Coding.Transcript.{last}
use tachy_cognitive_ai_agent.Coding.Guarded.{any_tool, Guarded}
use tachy_cognitive_ai_agent.Coding.Rounds.{Step, again, stop, unparsed, finish, after_tool, parsed}

pub ready : (v w : Bool) → (v && not w) ≡ false → (v ≡ false) ⊎ (w ≡ true)
ready false w e = inl refl
ready true true e = inr refl
ready true false e = cc

module _ (P : Patterns) (S : Services) (cfg : Config) where
  -- Why a run may have raised the error `e`, with the trace `t` behind it: the sandbox did at this
  -- very point; or the model, asked for the next action in this run, gave a call that is malformed; or
  -- the model, just asked for the review, gave a confidence that is not finite, or issues that cannot
  -- be joined.
  pub data Fault (e : Error) (t : Trace) : Type 0 where
    sandbox_raised : (op : Op) → S.sandbox t op ≡ raised e → Fault e t
    bad_call :
        (before : Trace) (later : List Event) (transcript : List Message) (raw : Text) (obj : Obj)
        → t ≡ later ++ asked_model coding ∷ before
        → S.model (asked_model coding ∷ before) coding transcript ≡ some raw
        → parsed P S cfg raw ≡ some obj
        → is_malformed obj.tool obj.args ≡ true
        → Fault e t
    bad_review :
        (before : Trace) (diff : List Message) (raw : Text) (obj : Obj)
        → t ≡ asked_model reviewing ∷ before
        → S.model t reviewing diff ≡ some raw
        → parsed P S cfg raw ≡ some obj
        → (obj.confidence ≡ not_finite e) ⊎ ((obj.issues ≡ not_joinable) × (e ≡ type_error))
        → Fault e t

  pub sandbox-Fault : (t : Trace) (op : Op) (e : Error) → S.sandbox t op ≡ raised e → Fault e t
  sandbox-Fault t op e h = sandbox_raised op h

  abbrev pub G : Trace → Type 0
  G = Guarded P cfg.autonomy any_tool

  -- The run says how it ended.
  abbrev pub Decided : AgentRun → Type 0
  Decided run = (run.done ≡ true) ⊎ ((run.stuck ≡ true) ⊎ ((e : RunError) × (run.error ≡ some e)))

  -- A run that is done has passed the verification, where that is on.
  abbrev pub Backed : AgentRun → Type 0
  Backed run = (run.done ≡ false) ⊎ ((cfg.verify ≡ false) ⊎ (run.verified ≡ true))

  abbrev pub Finished : AgentRun → Type 0
  Finished run = Decided run × Backed run × (run.steps ≤ cfg.max_steps)

  abbrev pub Open : Loop → Type 0
  Open l = (l.run.done ≡ false) × (l.run.steps ≤ cfg.max_steps)

  abbrev pub Ready : Loop → Type 0
  Ready l = (cfg.verify ≡ false) ⊎ (l.run.verified ≡ true)

  abbrev pub Sound : Step → Type 0
  Sound (again l) = Open l
  Sound (stop l) = Finished l.run

  pub unparsed-Sound : (raw : Text) (l : Loop) → Open l → Sound (unparsed P S cfg raw l)
  unfolding unparsed
  unparsed-Sound raw l (d, b) = elim (Bool-cases (leb 4 (suc l.fail_streak))) [
    | inl e ↦ rw e (inr (inl refl), inl d, b)
    | inr e ↦ rw e (d, b)
  ]

  pub finish-Sound : (obj : Obj) (l : Loop) → Ready l → Open l → Sound (finish P S cfg obj l)
  unfolding finish
  finish-Sound obj l r (d, b) = (inl refl, inr r, b)

  pub after_tool-Sound :
      (obj : Obj) (args : Args) (res : ToolResult) (l : Loop)
      → Open l
      → Sound (after_tool P S cfg obj args res l)
  unfolding after_tool
  after_tool-Sound obj args res l (d, b) =
      let sig = cfg.codec.signature obj.tool args res.ok in
      let sigs = last 6 (l.recent_sigs ++ sig ∷ []) in
      let streak = if res.ok then 0 else suc l.fail_streak in
      elim (Bool-cases (leb 3 (count sig sigs) && not res.ok)) [
        | inl e ↦ rw e (inr (inl refl), inl d, b)
        | inr e ↦ elim (Bool-cases (leb 8 streak)) [
          | inl f ↦ rw (e, f) (inr (inl refl), inl d, b)
          | inr f ↦ rw (e, f) (d, b)
        ]
      ]
