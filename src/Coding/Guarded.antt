-- ===== src/Coding/Guarded.antt =====
-- app/coding/agent.py: no tool call runs without what its risk tier asks for.
use tachy_cognitive_ai_agent.Common.{
  ◌≡◌, refl, Bool, true, false, ◌&&◌, not, Option, none, some, [], ◌∷◌, ◌⊎◌, inl, inr,
}
use tachy_cognitive_ai_agent.Safety.Policy.{RiskTier}
use tachy_cognitive_ai_agent.Coding.{
  Text, Tool, Args, Given, given, no_object, Op, ToolResult, Event, ran, asked_approver, Trace,
  Services, Patterns, pure, M, raised, attribute_error, type_error, Error, logged,
  coding_action_denied, coding_action_blocked,
}
use tachy_cognitive_ai_agent.Coding.Risk.{classify_tool, is_read_tool}
use tachy_cognitive_ai_agent.Coding.Malformed.{is_malformed, classify_tool-none}
use tachy_cognitive_ai_agent.Coding.Dispatch.{
  op_of, is_forbidden, needs_approval, question, dispatch, dispatch_args, routed, answered, gated,
  permitted, in_phase, classified, is_read, badly_called, no_args,
}
use tachy_cognitive_ai_agent.Coding.Ensures.{
  Post, Ensures, Ensures-pure, Ensures-raise, Post-any, Post-continue,
}

abbrev pub any_tool : Tool → Bool
any_tool tool = true

-- `allowed` says which tools may run in the phase of the agent.
module _ (P : Patterns) (autonomy : Text) (allowed : Tool → Bool) where
  -- A call that runs is of an allowed tool, and of a tier that is not forbidden, and it needs no
  -- approval or comes right after the approver's yes to it.
  abbrev pub Cleared : Event → Trace → Type 0
  Cleared (ran tool args) t =
      (tier : RiskTier) × (classify_tool P tool args ≡ some tier)
      × (allowed tool ≡ true)
      × (is_forbidden tier ≡ false)
      × ((needs_approval autonomy tool tier ≡ false)
          ⊎ ((before : Trace) × (t ≡ asked_approver (question tool args) true ∷ before)))
  Cleared e t = Unit

  abbrev pub Guarded : Trace → Type 0
  Guarded [] = Unit
  Guarded (e ∷ t) = Cleared e t × Guarded t

  -- An invariant that every cleared event keeps, and the causes of an error.
  module _ (S : Services) (I : Trace → Type 0)
      (keeps : (e : Event) (t : Trace) → Cleared e t → I t → I (e ∷ t)) (F : Error → Trace → Type 0)
      (faults : (t : Trace) (op : Op) (e : Error) → S.sandbox t op ≡ raised e → F e t) where
    abbrev Anything : ToolResult → Type 0
    Anything r = Unit

    routed-Guarded :
        (tool : Tool) (args : Args) (tier : RiskTier) (op : Option Op) (t : Trace)
        → Cleared (ran tool args) t
        → I t
        → Post I F Anything (routed P S autonomy tool args tier op t)
    routed-Guarded tool args tier none t c i = (i, tt)
    routed-Guarded tool args tier (some op) t c i =
        let t' = ran tool args ∷ t in
        Post-continue I F Anything Anything (λ res. pure (record res { risk_tier = tier }))
          (λ res q. Ensures-pure I F Anything (record res { risk_tier = tier }) tt)
          (S.sandbox t' op, t')
          (Post-any I F (S.sandbox t' op) t' (faults t' op) (keeps (ran tool args) t c i))

    answered-Guarded :
        (tool : Tool) (args : Args) (tier : RiskTier) (yes : Bool) (t : Trace)
        → classify_tool P tool args ≡ some tier
        → allowed tool ≡ true
        → is_forbidden tier ≡ false
        → I t
        → Post I F Anything
            (answered P S autonomy yes tool args tier (asked_approver (question tool args) yes ∷ t))
    answered-Guarded tool args tier false t known w f i =
        let asked = asked_approver (question tool args) false in
        (keeps (logged (coding_action_denied tool)) (asked ∷ t) tt (keeps asked t tt i), tt)
    answered-Guarded tool args tier true t known w f i =
        let asked = asked_approver (question tool args) true in
        routed-Guarded tool args tier (op_of tool args) (asked ∷ t)
          (tier, known, w, f, inr (t, refl)) (keeps asked t tt i)

    gated-Guarded :
        (tool : Tool) (args : Args) (tier : RiskTier) (needs : Bool)
        (approver : Option (Trace → Text → Bool)) (t : Trace)
        → classify_tool P tool args ≡ some tier
        → allowed tool ≡ true
        → needs_approval autonomy tool tier ≡ needs
        → is_forbidden tier ≡ false
        → I t
        → Post I F Anything (gated P S autonomy needs approver tool args tier t)
    gated-Guarded tool args tier false approver t known w n f i =
        routed-Guarded tool args tier (op_of tool args) t (tier, known, w, f, inl n) i
    gated-Guarded tool args tier true none t known w n f i =
        (keeps (logged (coding_action_denied tool)) t tt i, tt)
    gated-Guarded tool args tier true (some approver) t known w n f i =
        answered-Guarded tool args tier (approver t (question tool args)) t known w f i

    permitted-Guarded :
        (tool : Tool) (args : Args) (tier : RiskTier) (no : Bool)
        (approver : Option (Trace → Text → Bool)) (t : Trace)
        → classify_tool P tool args ≡ some tier
        → allowed tool ≡ true
        → is_forbidden tier ≡ no
        → I t
        → Post I F Anything (permitted P S autonomy no approver tool args tier t)
    permitted-Guarded tool args tier true approver t known w f i =
        (keeps (logged (coding_action_blocked tool)) t tt i, tt)
    permitted-Guarded tool args tier false approver t known w f i =
        gated-Guarded tool args tier (needs_approval autonomy tool tier) approver t known w refl f i

    in_phase-Guarded :
        (tool : Tool) (args : Args) (tier : RiskTier) (wrong : Bool)
        (approver : Option (Trace → Text → Bool)) (t : Trace)
        → classify_tool P tool args ≡ some tier
        → (wrong ≡ false → allowed tool ≡ true)
        → I t
        → Post I F Anything (in_phase P S autonomy wrong approver tool args tier t)
    in_phase-Guarded tool args tier true approver t known w i = (i, tt)
    in_phase-Guarded tool args tier false approver t known w i =
        permitted-Guarded tool args tier (is_forbidden tier) approver t known (w refl) refl i

    badly_called-Guarded :
        (known : Bool) (rest : M ToolResult)
        → ((t : Trace) → I t → F attribute_error t)
        → Ensures I F rest Anything
        → Ensures I F (badly_called P S autonomy known rest) Anything
    badly_called-Guarded true rest f h = Ensures-raise I F Anything attribute_error f
    badly_called-Guarded false rest f h = h

    module _ (read_only : Bool) (approver : Option (Trace → Text → Bool)) (tool : Tool)
        (w : (read_only && not (is_read_tool tool)) ≡ false → allowed tool ≡ true) where
      classified-Guarded :
          (args : Args) (tier : Option RiskTier) (t : Trace)
          → classify_tool P tool args ≡ tier
          → (tier ≡ none → F type_error t)
          → I t
          → Post I F Anything (classified P S autonomy tier read_only approver tool args t)
      classified-Guarded args none t known f i = (i, f refl)
      classified-Guarded args (some tier) t known f i =
          in_phase-Guarded tool args tier (read_only && not (is_read_tool tool)) approver t known w
            i

      dispatch_args-Guarded :
          (args : Args)
          → (classify_tool P tool args ≡ none → (t : Trace) → I t → F type_error t)
          → Ensures I F (dispatch_args P S autonomy read_only approver tool args) Anything
      unfolding dispatch_args
      dispatch_args-Guarded args f = record {
        at = λ t i. classified-Guarded args (classify_tool P tool args) t refl (λ h. f h t i) i;
      }

      pub dispatch-Guarded :
          (args : Given)
          → (is_malformed tool args ≡ true → (e : Error) (t : Trace) → I t → F e t)
          → Ensures I F (dispatch P S autonomy read_only approver tool args) Anything
      unfolding dispatch
      dispatch-Guarded (given args) f =
          dispatch_args-Guarded args (λ h. f (classify_tool-none P tool args h) type_error)
      dispatch-Guarded (no_object truth) f =
          badly_called-Guarded (is_read P S autonomy truth read_only tool)
            (dispatch_args P S autonomy read_only approver tool (no_args P S autonomy))
            (f refl attribute_error)
            (dispatch_args-Guarded (no_args P S autonomy) (λ h. f refl type_error))
