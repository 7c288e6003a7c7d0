-- ===== src/Coding/Answered.antt =====
-- app/coding/agent.py: what comes of one reply of the model in `execute`.
use tachy_cognitive_ai_agent.Common.{
  suc, ◌≡◌, refl, Bool, true, false, ◌&&◌, not, Option, none, some, List, [], ◌∷◌, inl, inr, leb,
  take, Bool-cases,
}
use tachy_cognitive_ai_agent.Common.Int.{ℤ}
use tachy_cognitive_ai_agent.Coding.{
  Text, Given, given, no_object, run_bash, Obj, ToolResult, Services, Patterns, Error, M, Trace,
  Event, attribute_error, type_error, asked_model, reviewing, read_diff, logged, coding_tool_call,
  Message, user, review_diff, Issues, no_issues, not_joinable, issue_texts, Confidence,
  no_confidence, confident, not_finite, continue,
}
use tachy_cognitive_ai_agent.Coding.Malformed.{is_malformed}
use tachy_cognitive_ai_agent.Coding.Dispatch.{dispatch}
use tachy_cognitive_ai_agent.Coding.Ensures.{
  Post, Ensures, Ensures-pure, Ensures-raise, Ensures-bind,
}
use tachy_cognitive_ai_agent.Coding.Execute.{Loop, Config, with_guardrails, with_turn}
use tachy_cognitive_ai_agent.Coding.Guarded.{any_tool, Cleared, dispatch-Guarded}
use tachy_cognitive_ai_agent.Coding.Rounds.{
  Step, Checked, Review, unparsed, verified_by, self_review, finish, after_review, judged, rated,
  review_of, read_review, sent_back, review_gate, after_verification, on_done, warned, observed,
  on_object, on_reply, on_answer, parsed,
}
use tachy_cognitive_ai_agent.Coding.Outcomes.{
  ready, Fault, bad_review, sandbox-Fault, Open, Ready, Sound, unparsed-Sound, finish-Sound,
  after_tool-Sound,
}

module _ (P : Patterns) (S : Services) (cfg : Config) where
  -- An invariant that every cleared event keeps.
  module _ (I : Trace → Type 0)
      (keeps : (e : Event) (t : Trace)
        → Cleared P cfg.autonomy any_tool e t
        → I t
        → I (e ∷ t)) where
    sent_back-Sound :
        (issues : Issues) (obj : Obj) (l : Loop) (t : Trace)
        → (issues ≡ not_joinable → Fault P S cfg type_error t)
        → Open P S cfg l
        → I t
        → Post I (Fault P S cfg) (Sound P S cfg) (sent_back P S cfg obj l issues t)
    sent_back-Sound no_issues obj l t f o i = (i, o)
    sent_back-Sound (issue_texts issues) obj l t f o i = (i, o)
    sent_back-Sound not_joinable obj l t f o i = (i, f refl)

    judged-Sound :
        (r : Obj) (c : Option ℤ) (obj : Obj) (l : Loop) (t : Trace)
        → (r.issues ≡ not_joinable → Fault P S cfg type_error t)
        → Ready P S cfg l
        → Open P S cfg l
        → I t
        → Post I
            (Fault P S cfg)
            (Sound P S cfg)
            (after_review P S cfg (judged r c).approved obj l (judged r c) t)
    judged-Sound r c obj l t f d o i = elim (Bool-cases r.disapproved) [
      | inl e ↦ rw e (sent_back-Sound r.issues obj l t f o i)
      | inr e ↦ rw e (i, finish-Sound P S cfg obj _ d o)
    ]

    abbrev reviewing_on : Obj → Loop → Review → M Step
    reviewing_on obj l review = after_review P S cfg review.approved obj l review

    rated-Sound :
        (r : Obj) (c : Confidence) (obj : Obj) (l : Loop) (t : Trace)
        → ((e : Error) → c ≡ not_finite e → Fault P S cfg e t)
        → (r.issues ≡ not_joinable → Fault P S cfg type_error t)
        → Ready P S cfg l
        → Open P S cfg l
        → I t
        → Post I (Fault P S cfg) (Sound P S cfg) (continue (reviewing_on obj l) (rated r c, t))
    rated-Sound r no_confidence obj l t k f d o i = judged-Sound r none obj l t f d o i
    rated-Sound r (confident z) obj l t k f d o i = judged-Sound r (some z) obj l t f d o i
    rated-Sound r (not_finite e) obj l t k f d o i = (i, k e refl)

    review_of-Sound :
        (o : Option Obj) (obj : Obj) (l : Loop) (t : Trace)
        → ((r : Obj) → o ≡ some r → (e : Error) → r.confidence ≡ not_finite e → Fault P S cfg e t)
        → ((r : Obj) → o ≡ some r → r.issues ≡ not_joinable → Fault P S cfg type_error t)
        → Ready P S cfg l
        → Open P S cfg l
        → I t
        → Post I (Fault P S cfg) (Sound P S cfg) (continue (reviewing_on obj l) (review_of o, t))
    review_of-Sound none obj l t k f d o i = (i, finish-Sound P S cfg obj _ d o)
    review_of-Sound (some r) obj l t k f d o i =
        rated-Sound r r.confidence obj l t (k r refl) (f r refl) d o i

    read_review-Sound :
        (before : Trace) (diff : List Message) (answer : Option Text) (obj : Obj) (l : Loop)
        → S.model (asked_model reviewing ∷ before) reviewing diff ≡ answer
        → Ready P S cfg l
        → Open P S cfg l
        → I (asked_model reviewing ∷ before)
        → Post I (Fault P S cfg) (Sound P S cfg) (
            continue
              (reviewing_on obj l)
              (read_review P S cfg answer, asked_model reviewing ∷ before))
    read_review-Sound before diff none obj l a d o i = (i, finish-Sound P S cfg obj _ d o)
    read_review-Sound before diff (some raw) obj l a d o i =
        review_of-Sound (parsed P S cfg raw) obj l (asked_model reviewing ∷ before)
          (λ r p e c. bad_review before diff raw r refl a p (inl c))
          (λ r p c. bad_review before diff raw r refl a p (inr (c, refl))) d o i

    review_gate-Sound :
        (reviewed : Bool) (obj : Obj) (l : Loop)
        → Ready P S cfg l
        → Open P S cfg l
        → Ensures I (Fault P S cfg) (review_gate P S cfg reviewed obj l) (Sound P S cfg)
    unfolding self_review
    review_gate-Sound true obj l r o =
        Ensures-pure I (Fault P S cfg) (Sound P S cfg) (finish P S cfg obj l)
          (finish-Sound P S cfg obj l r o)
    review_gate-Sound false obj l r o = record {
      at = λ t i.
          let t' = read_diff ∷ t in
          read_review-Sound t' (user (review_diff (take 6000 (S.diff t'))) ∷ []) _ obj
            (record l { reviewed = true }) refl r o
            (keeps (asked_model reviewing) t' tt (keeps read_diff t tt i));
    }

    after_verification-Sound :
        (passed : Bool) (obj : Obj) (out : Text) (l : Loop)
        → Open P S cfg l
        → Ensures I (Fault P S cfg) (after_verification P S cfg passed obj out l) (Sound P S cfg)
    after_verification-Sound true obj out l o =
        review_gate-Sound l.reviewed obj
          (record l { run = record l.run { verification = out; verified = true } }) (inr refl) o
    after_verification-Sound false obj out l (d, b) = record {
      at = λ t i. elim (Bool-cases (leb 6 (suc l.fail_streak))) [
        | inl e ↦ rw e (i, (inr (inr (_, refl)), inl d, b))
        | inr e ↦ rw e (i, (d, b))
      ];
    }

    verified_by-Open :
        (test_command : Option Text) (l : Loop)
        → Open P S cfg l
        → Ensures I (Fault P S cfg) (verified_by P S cfg test_command l) (λ c. Open P S cfg c.loop)
    verified_by-Open none l o = record { at = λ t i. (i, o) }
    verified_by-Open (some test_command) l o =
        Ensures-bind I (Fault P S cfg) (λ r. Unit {0}) (λ (c : Checked). Open P S cfg c.loop) _ _
          (dispatch-Guarded P cfg.autonomy any_tool S I keeps (Fault P S cfg)
            (sandbox-Fault P S cfg) false cfg.approver run_bash (λ w. refl) _ (λ h. cc))
          (λ res x. record { at = λ t i. (i, o) })

    on_done-Sound :
        (needed : Bool) (obj : Obj) (l : Loop)
        → (cfg.verify && not l.run.verified) ≡ needed
        → Open P S cfg l
        → Ensures I (Fault P S cfg) (on_done P S cfg needed obj l) (Sound P S cfg)
    on_done-Sound false obj l e o =
        review_gate-Sound l.reviewed obj l (ready cfg.verify l.run.verified e) o
    on_done-Sound true obj l e o =
        Ensures-bind I (Fault P S cfg) (λ (c : Checked). Open P S cfg c.loop) (Sound P S cfg)
          (verified_by P S cfg cfg.test_command l)
          (λ c. after_verification P S cfg c.passed obj c.out c.loop)
          (verified_by-Open cfg.test_command l o)
          (λ c k. after_verification-Sound c.passed obj c.out c.loop k)

    observed-Sound :
        (args : Given) (obj : Obj) (l : Loop) (res : ToolResult)
        → (is_malformed obj.tool args ≡ true → (e : Error) (t : Trace) → I t → Fault P S cfg e t)
        → Open P S cfg l
        → Ensures I (Fault P S cfg) (observed P S cfg args obj l res) (Sound P S cfg)
    unfolding warned with_guardrails with_turn
    observed-Sound (no_object truth) obj l res f o =
        Ensures-raise I (Fault P S cfg) (Sound P S cfg) attribute_error (f refl attribute_error)
    observed-Sound (given args) obj l res f o = record {
      at = λ t i. (
        keeps (logged (coding_tool_call obj.tool res.ok res.risk_tier)) t tt i,
        after_tool-Sound P S cfg obj args res _ o,
      );
    }

    on_object-Sound :
        (stuck done : Bool) (obj : Obj) (l : Loop)
        → (is_malformed obj.tool obj.args ≡ true
            → (e : Error) (t : Trace) → I t
            → Fault P S cfg e t)
        → Open P S cfg l
        → Ensures I (Fault P S cfg) (on_object P S cfg stuck done obj l) (Sound P S cfg)
    on_object-Sound true done obj l f (d, b) = record {
      at = λ t i. (i, (inr (inl refl), inl d, b));
    }
    on_object-Sound false true obj l f o =
        on_done-Sound (cfg.verify && not l.run.verified) obj l refl o
    on_object-Sound false false obj l f o =
        Ensures-bind I (Fault P S cfg) (λ r. Unit {0}) (Sound P S cfg)
          (dispatch P S cfg.autonomy false cfg.approver obj.tool obj.args)
          (observed P S cfg obj.args obj l)
          (dispatch-Guarded P cfg.autonomy any_tool S I keeps (Fault P S cfg)
            (sandbox-Fault P S cfg) false cfg.approver obj.tool (λ w. refl) obj.args f)
          (λ res x. observed-Sound obj.args obj l res f o)

    on_reply-Sound :
        (raw : Text) (obj : Option Obj) (l : Loop)
        → ((r : Obj)
            → obj ≡ some r
            → is_malformed r.tool r.args ≡ true
            → (e : Error) (t : Trace) → I t
            → Fault P S cfg e t)
        → Open P S cfg l
        → Ensures I (Fault P S cfg) (on_reply P S cfg raw obj l) (Sound P S cfg)
    on_reply-Sound raw none l f o =
        Ensures-pure I (Fault P S cfg) (Sound P S cfg) (unparsed P S cfg raw l)
          (unparsed-Sound P S cfg raw l o)
    on_reply-Sound raw (some obj) l f o = on_object-Sound obj.stuck obj.done obj l (f obj refl) o

    pub on_answer-Sound :
        (answer : Option Text) (l : Loop)
        → ((raw : Text) (r : Obj)
            → answer ≡ some raw
            → parsed P S cfg raw ≡ some r
            → is_malformed r.tool r.args ≡ true
            → (e : Error) (t : Trace) → I t
            → Fault P S cfg e t)
        → Open P S cfg l
        → Ensures I (Fault P S cfg) (on_answer P S cfg answer l) (Sound P S cfg)
    on_answer-Sound none l f (d, b) = record { at = λ t i. (i, (inr (inr (_, refl)), inl d, b)) }
    on_answer-Sound (some raw) l f o =
        on_reply-Sound raw (parsed P S cfg raw) l (λ r. f raw r refl) o
