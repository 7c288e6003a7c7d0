-- ===== src/Coding/Rounds.antt =====
-- app/coding/agent.py: `execute`, a bounded loop of model replies and tool calls.
use tachy_cognitive_ai_agent.Common.{
  ℕ, zero, suc, Bool, true, false, ◌&&◌, ◌||◌, not, Option, none, some, List, [], ◌∷◌, ◌++◌, take,
  leb, if◌then◌else◌,
}
use tachy_cognitive_ai_agent.Common.Int.{ℤ}
use tachy_cognitive_ai_agent.Common.Text.{codes}
use tachy_cognitive_ai_agent.Safety.Policy.{low}
use tachy_cognitive_ai_agent.Coding.{
  Text, run_bash, run_tests, Args, Given, given, no_object, text, Issues, no_issues, not_joinable,
  issue_texts, Confidence, no_confidence, confident, not_finite, Outcome, Obj, ToolResult,
  assistant, user, Prompt, intro, json_only, verification_failed, review_issues, tool_result,
  review_diff, coding, reviewing, coding_run, returned, raised, type_error, coding_tool_call,
  asked_model, logged, read_diff, collapsed, attribute_error, Services, Patterns, M, ◌>>=◌, ◌>>◌,
  pure, raise, note,
}
use tachy_cognitive_ai_agent.Coding.Risk.{or_default, tool_name}
use tachy_cognitive_ai_agent.Coding.Json.{extract_json}
use tachy_cognitive_ai_agent.Coding.Transcript.{compact, last}
use tachy_cognitive_ai_agent.Coding.Dispatch.{dispatch}
use tachy_cognitive_ai_agent.Coding.Execute.{
  Loop, AgentRun, Config, RunError, llm_error, verification_kept_failing, hit_step_limit,
  audit_unavailable, with_turn, with_guardrails, count, disproportion, is_unsure, or_nothing,
}

-- After a round the loop goes on or is left by `break`.
pub data Step : Type 0 where
  again stop : Loop → Step

pub record Checked : Type 0 where
  pub passed : Bool
  pub out : Text
  pub loop : Loop

pub record Review : Type 0 where
  pub approved : Bool
  pub note : Text
  pub issues : Issues
  pub confidence : Option ℤ

abbrev pub got_stuck : Text → Loop → Loop
got_stuck why l = record l { run = record l.run { stuck = true; summary = why } }

abbrev pub judged : Obj → Option ℤ → Review
judged obj confidence =
    if obj.disapproved
    then record { approved = false; note = []; issues = obj.issues; confidence = confidence }
    else record {
      approved = true;
      note = or_default obj.note (codes "reviewed");
      issues = no_issues;
      confidence = confidence;
    }

-- `int(confidence)` raises on a NaN and on an infinity.
abbrev pub rated : Obj → Confidence → Outcome Review
rated obj no_confidence = returned (judged obj none)
rated obj (confident z) = returned (judged obj (some z))
rated obj (not_finite e) = raised e

abbrev approved_with : Text → Review
approved_with note = record { approved = true; note = note; issues = no_issues; confidence = none }

abbrev pub review_of : Option Obj → Outcome Review
review_of none = returned (approved_with (codes "reviewed"))
review_of (some obj) = rated obj obj.confidence

-- `run.error or …`
abbrev pub or_limit : Option RunError → Option RunError
or_limit none = some hit_step_limit
or_limit (some e) = some e

module _ (P : Patterns) (S : Services) (cfg : Config) where
  unfoldable pub parsed : Text → Option Obj
  unfolding extract_json
  parsed raw = or_nothing (extract_json cfg.codec.loads cfg.codec.unfence raw)

  -- The transcript, with the object that was read and what is said to it.
  abbrev pub told : Obj → Prompt → Loop → Loop
  told obj prompt l = record l {
    transcript = l.transcript ++ assistant (cfg.codec.dumps obj) ∷ user prompt ∷ [];
  }

  -- A reply that is no object. The fourth failure in a row ends the run.
  unfoldable pub unparsed : Text → Loop → Step
  unparsed raw l =
      let l' = record l { fail_streak = suc l.fail_streak } in
      if leb 4 (suc l.fail_streak)
      then stop (got_stuck (codes "Kept producing unparseable replies; stopping.") l')
      else again (record l' { transcript = l.transcript ++ assistant raw ∷ user json_only ∷ [] })

  abbrev pub verified_by : Option Text → Loop → M Checked
  verified_by none l = pure (record {
    passed = true;
    out = codes "no test command detected — skipped automated verification";
    loop = l;
  })
  verified_by (some test_command) l =
      let args = given (record {
        path = none;
        pattern = none;
        command = some (text test_command);
        content = none;
        old = none;
        new = none;
      }) in
      dispatch P S cfg.autonomy false cfg.approver run_bash args >>= λ res. pure (record {
        passed = res.ok;
        out = last 1500 res.output;
        loop = record l {
          run = record l.run {
            turns =
                l.run.turns
                ++ record { tool = run_tests; args = args; observation = res.output; ok = res.ok }
                  ∷ [];
          };
        };
      })

  abbrev pub read_review : Option Text → Outcome Review
  read_review none = returned (approved_with (codes "review skipped (LLM error)"))
  read_review (some raw) = review_of (parsed raw)

  -- `_self_review`
  unfoldable pub self_review : M Review
  unfolding parsed
  self_review = note read_diff >> λ t.
      let diff = take 6000 (S.diff t) in
      let t' = asked_model reviewing ∷ t in
      (read_review (S.model t' reviewing (user (review_diff diff) ∷ [])), t')

  unfoldable pub finish : Obj → Loop → Step
  finish obj l =
      stop (record l { run = record l.run { done = true; summary = or_default obj.summary [] } })

  -- `"\n- ".join(issues)` raises on what is no list of texts.
  abbrev pub sent_back : Obj → Loop → Issues → M Step
  sent_back obj l no_issues =
      pure (again (told obj (review_issues (codes "unspecified review issue" ∷ [])) l))
  sent_back obj l (issue_texts issues) = pure (again (told obj (review_issues issues) l))
  sent_back obj l not_joinable = raise type_error

  abbrev pub after_review : Bool → Obj → Loop → Review → M Step
  after_review false obj l review = sent_back obj l review.issues
  after_review true obj l review = pure (
      finish obj (record l {
        run = record l.run {
          review_note = review.note;
          review_confidence = review.confidence;
          alerts = l.run.alerts ++ is_unsure review.confidence;
        };
      }))

  -- The self-review happens at most once in a run.
  abbrev pub review_gate : Bool → Obj → Loop → M Step
  review_gate true obj l = pure (finish obj l)
  review_gate false obj l = self_review >>= λ review.
      after_review review.approved obj (record l { reviewed = true }) review

  abbrev pub after_verification : Bool → Obj → Text → Loop → M Step
  after_verification false obj out l =
      let l' = record l {
        run = record l.run { verification = out };
        fail_streak = suc l.fail_streak;
      } in
      pure (
        if leb 6 (suc l.fail_streak)
        then stop (record l' {
          run = record l.run { verification = out; error = some verification_kept_failing };
        })
        else again (told obj (verification_failed out) l'))
  after_verification true obj out l =
      review_gate l.reviewed obj
        (record l { run = record l.run { verification = out; verified = true } })

  abbrev pub on_done : Bool → Obj → Loop → M Step
  on_done false obj l = review_gate l.reviewed obj l
  on_done true obj l =
      verified_by cfg.test_command l >>= λ c. after_verification c.passed obj c.out c.loop

  -- The same failing call three times in the last six, or eight failures in a row, end the run.
  unfoldable pub after_tool : Obj → Args → ToolResult → Loop → Step
  unfolding count tool_name
  after_tool obj args res l =
      let sig = cfg.codec.signature obj.tool args res.ok in
      let sigs = last 6 (l.recent_sigs ++ sig ∷ []) in
      let streak = if res.ok then 0 else suc l.fail_streak in
      let l' = record l { recent_sigs = sigs; fail_streak = streak } in
      if leb 3 (count sig sigs) && not res.ok
      then stop (
          got_stuck
            (codes "Repeating the same failing step ("
              ++ tool_name obj.tool
              ++ codes ") — stopping instead of thrashing. Last error:\n"
              ++ take 400 res.output)
            l')
      else if leb 8 streak
      then stop (got_stuck (codes "Too many consecutive tool failures; stopping.") l')
      else again (told obj (tool_result obj.tool res.ok res.output) l')

  -- The audit log is warned of once.
  unfoldable pub warned : Bool → Loop → Loop
  warned logged_it l = record l {
    run = record l.run {
      alerts =
          l.run.alerts
          ++ (if not logged_it && not l.audit_warned then audit_unavailable ∷ [] else []);
    };
    audit_warned = l.audit_warned || not logged_it;
  }

  abbrev pub observed : Given → Obj → Loop → ToolResult → M Step
  observed (no_object truth) obj l res = raise attribute_error
  observed (given args) obj l res =
      let run =
        with_guardrails cfg.plan_files obj.tool res (with_turn obj.tool (given args) res l.run) in
      note (logged (coding_tool_call obj.tool res.ok res.risk_tier)) >> λ t.
      pure (after_tool obj args res (warned (S.audit t) (record l { run = run }))) t

  abbrev pub on_tool : Obj → Loop → M Step
  on_tool obj l =
      dispatch P S cfg.autonomy false cfg.approver obj.tool obj.args >>= observed obj.args obj l

  abbrev pub on_object : Bool → Bool → Obj → Loop → M Step
  on_object true done obj l =
      pure (stop (got_stuck (or_default obj.summary (codes "I got stuck and need your input.")) l))
  on_object false true obj l = on_done (cfg.verify && not l.run.verified) obj l
  on_object false false obj l = on_tool obj l

  abbrev pub on_reply : Text → Option Obj → Loop → M Step
  on_reply raw none l = pure (unparsed raw l)
  on_reply raw (some obj) l = on_object obj.stuck obj.done obj l

  abbrev pub on_answer : Option Text → Loop → M Step
  on_answer none l = pure (stop (record l { run = record l.run { error = some llm_error } }))
  on_answer (some raw) l = on_reply raw (parsed raw) l

  unfoldable pub round : ℕ → Loop → M Step
  unfolding parsed unparsed self_review finish after_tool warned compact dispatch extract_json
      with_guardrails with_turn
  round step l =
      let transcript = compact 12 l.transcript in
      let l' = record l { run = record l.run { steps = suc step }; transcript = transcript } in
      note (asked_model coding) >> λ t. on_answer (S.model t coding transcript) l' t

  abbrev pub go_on : (Loop → M Loop) → Step → M Loop
  go_on next (again l) = next l
  go_on next (stop l) = pure l

  -- `for step in range(max_steps)`, with its `else`.
  unfoldable pub rounds : ℕ → ℕ → Loop → M Loop
  unfolding round
  rounds zero step l = pure (record l { run = record l.run { error = or_limit l.run.error } })
  rounds (suc n) step l = round step l >>= go_on (rounds n (suc step))

  abbrev pub finalized : AgentRun → M AgentRun
  finalized run = note (logged coding_run) >> pure run

  -- Only a run that has changed files is collapsed into one diff.
  abbrev pub collapsing : List Text → AgentRun → M AgentRun
  collapsing [] run = finalized run
  collapsing (path ∷ paths) run = note collapsed >> finalized run

  unfoldable pub finalize : Loop → M AgentRun
  finalize l =
      collapsing l.run.changed_files
        (record l.run { alerts = l.run.alerts ++ disproportion cfg.plan_files l.run.changed_files })

  abbrev new_run : AgentRun
  new_run = record {
    turns = [];
    changed_files = [];
    done = false;
    verified = false;
    verification = [];
    review_note = [];
    review_confidence = none;
    stuck = false;
    summary = [];
    error = none;
    steps = 0;
    alerts = [];
    max_tier = low;
    secrets_blocked = 0;
    injections_blocked = 0;
    drifted = [];
  }

  abbrev pub start : Loop
  start = record {
    run = new_run;
    transcript = user intro ∷ [];
    fail_streak = 0;
    recent_sigs = [];
    reviewed = false;
    audit_warned = false;
  }

  unfoldable pub execute : M AgentRun
  unfolding rounds finalize
  execute = rounds cfg.max_steps 0 start >>= finalize
