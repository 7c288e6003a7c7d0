-- ===== src/Coding/Risk.antt =====
-- app/safety/risk_classifier.py: the tier of a tool call, by its arguments.
use tachy_cognitive_ai_agent.Common.{
  Bool, true, false, ◌&&◌, ◌||◌, not, Option, none, some, [], ◌∷◌, ◌++◌, if◌then◌else◌,
}
use tachy_cognitive_ai_agent.Common.Text.{codes, text_eq}
use tachy_cognitive_ai_agent.Safety.Policy.{RiskTier, low, medium, high, forbidden}
use tachy_cognitive_ai_agent.Coding.{
  Text, Tool, read_file, list_dir, glob, grep, write_file, edit_file, run_bash, run_tests, other,
  unhashable, Value, text, non_text, Args, Patterns,
}

-- `args.get(key, default)`
abbrev pub or_default : {A : Type 0} → Option A → A → A
or_default none d = d
or_default (some s) d = s

-- `a or b`
abbrev pub or_else : Value → Value → Value
or_else (text []) v = v
or_else (text (c ∷ s)) v = text (c ∷ s)
or_else (non_text true shown) v = non_text true shown
or_else (non_text false shown) v = v

abbrev pub is_unhashable : Tool → Bool
is_unhashable (unhashable name) = true
is_unhashable _ = false

abbrev pub is_read_tool : Tool → Bool
is_read_tool read_file = true
is_read_tool list_dir = true
is_read_tool glob = true
is_read_tool grep = true
is_read_tool _ = false

abbrev pub is_edit_tool : Tool → Bool
is_edit_tool write_file = true
is_edit_tool edit_file = true
is_edit_tool _ = false

abbrev pub is_shell_tool : Tool → Bool
is_shell_tool run_bash = true
is_shell_tool run_tests = true
is_shell_tool _ = false

-- `not path or path == "."`
abbrev pub is_root : Text → Bool
is_root path = text_eq path [] || text_eq path (codes ".")

module _ (P : Patterns) where
  unfoldable pub is_secret_path : Text → Bool
  unfolding text_eq
  is_secret_path path = not (is_root path) && P.secrets_path path

  unfoldable pub is_critical_or_secret_path : Text → Bool
  unfolding is_secret_path text_eq
  is_critical_or_secret_path path =
      not (is_root path) && (P.critical_path path || is_secret_path path)

  unfoldable pub classify_command : Text → RiskTier
  classify_command cmd =
      if P.forbidden_cmd cmd
      then forbidden
      else if P.high_cmd cmd
      then high
      else if P.db_modify cmd
      then high
      else if P.network_egress cmd
      then high
      else low

  abbrev read_tier : Text → RiskTier
  read_tier path =
      if P.critical_path path then high else if is_secret_path path then medium else low

  -- A search in what is no text raises `TypeError`, which is `none`.
  abbrev pub read_value : Value → Option RiskTier
  read_value (text path) = some (read_tier path)
  read_value (non_text truth shown) = none

  abbrev edit_tier : Text → RiskTier
  edit_tier path = if is_critical_or_secret_path path then high else medium

  abbrev pub edit_value : Value → Option RiskTier
  edit_value (text path) = some (edit_tier path)
  edit_value (non_text true shown) = none
  edit_value (non_text false shown) = some medium

  abbrev pub command_value : Value → Option RiskTier
  command_value (text cmd) = some (classify_command cmd)
  command_value (non_text true shown) = none
  command_value (non_text false shown) = some (classify_command [])

  -- `none`: `TypeError`, from a search in what is no text, or from asking a set for what it cannot
  -- hold.
  unfoldable pub classify_tool : Tool → Args → Option RiskTier
  unfolding is_secret_path is_critical_or_secret_path classify_command
  classify_tool tool args =
      if is_unhashable tool
      then none
      else if is_read_tool tool
      then read_value (
          or_else (or_default args.path (text []))
            (or_else (or_default args.pattern (text [])) (text (codes "."))))
      else if is_edit_tool tool
      then edit_value (or_default args.path (text []))
      else if is_shell_tool tool
      then command_value (or_default args.command (text []))
      else some medium

unfoldable pub tool_name : Tool → Text
tool_name read_file = codes "read_file"
tool_name list_dir = codes "list_dir"
tool_name glob = codes "glob"
tool_name grep = codes "grep"
tool_name write_file = codes "write_file"
tool_name edit_file = codes "edit_file"
tool_name run_bash = codes "run_bash"
tool_name run_tests = codes "run_tests"
tool_name (other name) = name
tool_name (unhashable name) = name

unfoldable pub reason : Tool → RiskTier → Text
unfolding tool_name
reason tool forbidden =
    tool_name tool ++ codes ": forbidden command (destructive/exfiltrating) — blocked."
reason tool high =
    tool_name tool
    ++ codes ": high-risk (secrets/critical path/destructive/network) — needs Rohit's approval."
reason tool medium =
    tool_name tool ++ codes ": medium-risk (code/config change) — proceeding with warning."
reason tool low = tool_name tool ++ codes ": low-risk — allowed."
