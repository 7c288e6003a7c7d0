-- ===== src/Tests/Coder.antt =====
-- The coding agent at concrete inputs: a shell call that the approver allows, then a reply of `done`.
use tachy_cognitive_ai_agent.Common.{
  ℕ, zero, suc, ◌≡◌, refl, Bool, true, false, Option, none, some, List, [], ◌∷◌, ◌≤◌, length, take,
  arith, if◌then◌else◌,
}
use tachy_cognitive_ai_agent.Common.Text.{codes, text_eq}
use tachy_cognitive_ai_agent.Safety.Policy.{low}
use tachy_cognitive_ai_agent.Coding.{
  Text, Tool, given, text, no_issues, no_confidence, run_bash, read_file, Obj, Message, assistant,
  clean, Trace, returned, Services, Patterns, Codec, System,
}
use tachy_cognitive_ai_agent.Coding.Risk.{is_read_tool}
use tachy_cognitive_ai_agent.Coding.Json.{extract_json, extract_json-surrounded, is_inner}
use tachy_cognitive_ai_agent.Coding.Transcript.{compact, compact_bounds, last}
use tachy_cognitive_ai_agent.Coding.Execute.{Config}
use tachy_cognitive_ai_agent.Coding.Guarded.{any_tool, Guarded}
use tachy_cognitive_ai_agent.Coding.Plan.{make_plan}
use tachy_cognitive_ai_agent.Coding.Rounds.{execute}
use tachy_cognitive_ai_agent.Coding.Runs.{make_plan-Guarded, execute-Guarded}

abbrev patterns : Patterns
patterns = record {
  critical_path = text_eq (codes "/etc/passwd");
  secrets_path = text_eq (codes ".env");
  forbidden_cmd = text_eq (codes "rm -rf /");
  high_cmd = text_eq (codes "git push --force");
  db_modify = text_eq (codes "dropdb app");
  network_egress = text_eq (codes "curl x.example");
}

abbrev call : Tool → Bool → Obj
call tool done = record {
  empty = false;
  stuck = false;
  done = done;
  summary = some (codes "ready");
  plan = none;
  tool = tool;
  args = given (record {
    path = some (text (codes "app.py"));
    pattern = none;
    command = some (text (codes "pytest"));
    content = none;
    old = none;
    new = none;
  });
  disapproved = false;
  note = none;
  issues = no_issues;
  confidence = no_confidence;
}

abbrev loads : Text → Option Obj
loads reply =
    if text_eq reply (codes "{r}")
    then some (call run_bash false)
    else if text_eq reply (codes "{f}")
    then some (call read_file false)
    else if text_eq reply (codes "{d}")
    then some (call run_bash true)
    else none

abbrev codec : Codec
codec = record {
  unfence = λ reply. reply;
  loads = loads;
  dumps = λ obj. codes "{r}";
  signature = λ tool args ok. codes "r";
}

-- The first reply calls a tool, and the later ones say `done`.
abbrev replies : Trace → System → List Message → Option Text
replies [] system transcript = none
replies (e ∷ []) System.planning transcript = some (codes "I read {f}")
replies (e ∷ []) system transcript = some (codes "I run {r}")
replies (e ∷ f ∷ t) system transcript = some (codes "I am {d}")

abbrev services : Services
services = record {
  sandbox = λ t op. returned (record {
    ok = true;
    output = codes "3 passed";
    changed_path = none;
    secrets_found = 0;
    injection = clean;
    risk_tier = low;
  });
  diff = λ t. codes "diff";
  model = replies;
  audit = λ t. true;
}

abbrev settings : Config
settings = record {
  autonomy = codes "plan_first";
  approver = some (λ t question. true);
  max_steps = 40;
  verify = true;
  test_command = some (codes "pytest");
  plan_files = [];
  codec = codec;
}

make_plan-Guarded_example :
    Guarded patterns (codes "plan_first") is_read_tool (make_plan patterns services codec 8 []).1
make_plan-Guarded_example = make_plan-Guarded patterns services codec 8

execute-Guarded_example :
    Guarded patterns (codes "plan_first") any_tool (execute patterns services settings []).1
execute-Guarded_example = execute-Guarded patterns services settings

abbrev said : ℕ → List Message
said zero = []
said (suc n) = assistant (codes "{r}") ∷ said n

compact_bounds_example :
    (length (compact 2 (said 9)) ≤ 5)
    × (take 1 (compact 2 (said 9)) ≡ take 1 (said 9))
    × (last 2 (compact 2 (said 9)) ≡ last 2 (said 9))
    × (9 ≤ 5 → compact 2 (said 9) ≡ said 9)
compact_bounds_example = compact_bounds 2 (said 9) (omega arith)

abbrev reads_nested : Text → Option ℕ
reads_nested reply = if text_eq reply (codes "{a{b}}") then some 7 else none

extract_json-surrounded_example :
    extract_json reads_nested (λ reply. reply) (codes "see {a{b}} then {c}") ≡ some 7
unfolding text_eq is_inner
extract_json-surrounded_example =
    extract_json-surrounded reads_nested (λ reply. reply) (codes "see {a{b}} then {c}")
      (codes "see ") (codes "a{b}") (codes " then {c}") 7 refl
      (refl, refl, (refl, refl, (refl, refl, (refl, refl, tt)))) refl refl
