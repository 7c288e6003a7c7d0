-- ===== src/Coding/Dispatch.antt =====
-- `_route` and `_dispatch` of app/coding/agent.py: one tool call behind the risk and approval gate.
use tachy_cognitive_ai_agent.Common.{
  Bool, true, false, ◌&&◌, ◌||◌, not, if◌then◌else◌, Option, none, some, [], ◌∷◌, ◌++◌,
}
use tachy_cognitive_ai_agent.Common.Text.{codes, text_eq}
use tachy_cognitive_ai_agent.Safety.Policy.{RiskTier, high, forbidden}
use tachy_cognitive_ai_agent.Coding.Risk.{
  classify_tool, is_read_tool, is_edit_tool, is_shell_tool, or_default, reason, tool_name,
}
use tachy_cognitive_ai_agent.Coding.{
  Text, Tool, read_file, list_dir, glob, grep, write_file, edit_file, run_bash, run_tests, other,
  unhashable, Value, text, non_text, Given, given, no_object, Args, Op, op_read_file, op_list_dir,
  op_glob, op_grep, op_write_file, op_edit_file, op_run_bash, ToolResult, clean, Trace, ran,
  asked_approver, logged, coding_action_blocked, coding_action_denied, attribute_error, type_error,
  Services, Patterns, M, ◌>>=◌, ◌>>◌, pure, raise, note,
}

-- What `_route` asks of the sandbox; `none` where it knows no such tool.
abbrev pub op_of : Tool → Args → Option Op
op_of read_file args = some (op_read_file (or_default args.path (text [])))
op_of list_dir args = some (op_list_dir (or_default args.path (text (codes "."))))
op_of glob args = some (op_glob (or_default args.pattern (text (codes "*"))))
op_of grep args =
    some (op_grep (or_default args.pattern (text [])) (or_default args.path (text (codes "."))))
op_of write_file args =
    some (op_write_file (or_default args.path (text [])) (or_default args.content (text [])))
op_of edit_file args = some (
    op_edit_file (or_default args.path (text [])) (or_default args.old (text []))
      (or_default args.new (text [])))
op_of run_bash args = some (op_run_bash (or_default args.command (text [])))
op_of run_tests args = some (op_run_bash (or_default args.command (text [])))
op_of (other name) args = none
op_of (unhashable name) args = none

abbrev pub blocked : Text → RiskTier → ToolResult
blocked msg tier = record {
  ok = false;
  output = msg;
  changed_path = none;
  secrets_found = 0;
  injection = clean;
  risk_tier = tier;
}

abbrev pub shown_as : Value → Text
shown_as (text s) = s
shown_as (non_text truth shown) = shown

-- What the approver is shown.
abbrev pub question : Tool → Args → Text
question tool args =
    if is_shell_tool tool
    then codes "run: " ++ shown_as (or_default args.command (text []))
    else tool_name tool ++ codes ": " ++ shown_as (or_default args.path (text []))

abbrev pub is_forbidden : RiskTier → Bool
is_forbidden forbidden = true
is_forbidden _ = false

abbrev is_forbidden_call : Option RiskTier → Bool
is_forbidden_call none = false
is_forbidden_call (some tier) = is_forbidden tier

abbrev is_high : RiskTier → Bool
is_high high = true
is_high _ = false

-- The text of `coding_autonomy` decides only whether it is `plan_first`.
abbrev pub needs_approval : Text → Tool → RiskTier → Bool
needs_approval autonomy tool tier =
    is_high tier || (is_shell_tool tool && text_eq autonomy (codes "plan_first"))

module _ (P : Patterns) (S : Services) (autonomy : Text) where
  abbrev pub routed : Tool → Args → RiskTier → Option Op → M ToolResult
  routed tool args tier none = pure (blocked (codes "unknown tool: " ++ tool_name tool) tier)
  routed tool args tier (some op) = note (ran tool args) >> (λ t. (S.sandbox t op, t)) >>= λ res.
      pure (record res { risk_tier = tier })

  abbrev pub denied : Tool → RiskTier → M ToolResult
  denied tool tier =
      note (logged (coding_action_denied tool))
      >> pure (blocked (reason tool tier ++ codes " (denied / no approver)") tier)

  abbrev pub answered : Bool → Tool → Args → RiskTier → M ToolResult
  answered true tool args tier = routed tool args tier (op_of tool args)
  answered false tool args tier = denied tool tier

  abbrev pub asked : Option (Trace → Text → Bool) → Tool → Args → RiskTier → M ToolResult
  asked none tool args tier = denied tool tier
  asked (some approver) tool args tier = λ t.
      let yes = approver t (question tool args) in
      answered yes tool args tier (asked_approver (question tool args) yes ∷ t)

  abbrev pub gated : Bool → Option (Trace → Text → Bool) → Tool → Args → RiskTier → M ToolResult
  gated true approver tool args tier = asked approver tool args tier
  gated false approver tool args tier = routed tool args tier (op_of tool args)

  abbrev pub permitted : Bool → Option (Trace → Text → Bool) → Tool → Args → RiskTier → M ToolResult
  permitted true approver tool args tier =
      note (logged (coding_action_blocked tool)) >> pure (blocked (reason tool tier) tier)
  permitted false approver tool args tier =
      gated (needs_approval autonomy tool tier) approver tool args tier

  abbrev pub in_phase : Bool → Option (Trace → Text → Bool) → Tool → Args → RiskTier → M ToolResult
  in_phase true approver tool args tier =
      pure
        (blocked (codes "tool '" ++ tool_name tool ++ codes "' not allowed during planning") tier)
  in_phase false approver tool args tier = permitted (is_forbidden tier) approver tool args tier

  abbrev pub classified :
      Option RiskTier → Bool → Option (Trace → Text → Bool) → Tool → Args → M ToolResult
  classified none read_only approver tool args = raise type_error
  classified (some tier) read_only approver tool args =
      in_phase (read_only && not (is_read_tool tool)) approver tool args tier

  -- With the arguments a dictionary; the approver is an argument, since planning passes none.
  unfoldable pub dispatch_args : Bool → Option (Trace → Text → Bool) → Tool → Args → M ToolResult
  unfolding reason tool_name classify_tool text_eq
  dispatch_args read_only approver tool args =
      classified (classify_tool P tool args) read_only approver tool args

  abbrev pub is_known : Tool → Bool
  is_known tool = is_read_tool tool || is_edit_tool tool || is_shell_tool tool

  abbrev pub no_args : Args
  no_args = record {
    path = none;
    pattern = none;
    command = none;
    content = none;
    old = none;
    new = none;
  }

  abbrev pub badly_called : Bool → M ToolResult → M ToolResult
  badly_called true rest = raise attribute_error
  badly_called false rest = rest

  -- Arguments that are no dictionary and false, such as null: `classify_tool` takes them for an empty
  -- dictionary, and the first part of the call that reads them after that raises, unless the call is
  -- blocked before or nothing reads them.
  abbrev pub is_read_later : Bool → Tool → Bool
  is_read_later read_only tool =
      is_known tool
      && not (read_only && not (is_read_tool tool))
      && not (is_forbidden_call (classify_tool P tool no_args))

  -- Of those that are true the classifier reads, if it knows the tool.
  abbrev pub is_read : Bool → Bool → Tool → Bool
  is_read true read_only tool = is_known tool
  is_read false read_only tool = is_read_later read_only tool

  unfoldable pub dispatch : Bool → Option (Trace → Text → Bool) → Tool → Given → M ToolResult
  unfolding dispatch_args classify_tool
  dispatch read_only approver tool (given args) = dispatch_args read_only approver tool args
  dispatch read_only approver tool (no_object truth) =
      badly_called (is_read truth read_only tool) (dispatch_args read_only approver tool no_args)
