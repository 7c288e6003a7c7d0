-- ===== src/Coding/Malformed.antt =====
-- The tool calls on which app/safety/risk_classifier.py and app/coding/agent.py raise.
use tachy_cognitive_ai_agent.Common.{
  Bool, true, false, ◌||◌, Option, none, some, [], ◌∷◌, ◌≡◌, refl,
}
use tachy_cognitive_ai_agent.Common.Text.{codes}
use tachy_cognitive_ai_agent.Coding.{
  Tool, read_file, list_dir, glob, grep, write_file, edit_file, run_bash, run_tests, other,
  unhashable, Value, text, non_text, Given, given, no_object, Args, Patterns,
}
use tachy_cognitive_ai_agent.Coding.Risk.{
  or_default, or_else, is_unhashable, read_value, edit_value, command_value, classify_tool,
}

-- A true value that is no text.
abbrev pub is_odd : Option Value → Bool
is_odd none = false
is_odd (some (text s)) = false
is_odd (some (non_text truth shown)) = truth

-- A tool that no set can hold, arguments that are no object, or a path, a pattern or a command that
-- is true and no text.
abbrev pub is_malformed : Tool → Given → Bool
is_malformed tool (no_object truth) = true
is_malformed tool (given args) =
    is_unhashable tool || is_odd args.path || is_odd args.pattern || is_odd args.command

read_odd :
    (P : Patterns) (path pattern : Option Value)
    → read_value P (
        or_else
          (or_default path (text []))
          (or_else (or_default pattern (text [])) (text (codes "."))))
      ≡ none
    → (is_odd path || is_odd pattern) ≡ true
read_odd P none none h = cc
read_odd P none (some (text [])) h = cc
read_odd P none (some (text (c ∷ s))) h = cc
read_odd P none (some (non_text true shown)) h = refl
read_odd P none (some (non_text false shown)) h = cc
read_odd P (some (text [])) none h = cc
read_odd P (some (text [])) (some (text [])) h = cc
read_odd P (some (text [])) (some (text (c ∷ s))) h = cc
read_odd P (some (text [])) (some (non_text true shown)) h = refl
read_odd P (some (text [])) (some (non_text false shown)) h = cc
read_odd P (some (text (c ∷ s))) pattern h = cc
read_odd P (some (non_text true shown)) pattern h = refl
read_odd P (some (non_text false shown)) none h = cc
read_odd P (some (non_text false shown)) (some (text [])) h = cc
read_odd P (some (non_text false shown)) (some (text (c ∷ s))) h = cc
read_odd P (some (non_text false shown)) (some (non_text true other_shown)) h = refl
read_odd P (some (non_text false shown)) (some (non_text false other_shown)) h = cc

edit_odd :
    (P : Patterns) (path : Option Value)
    → edit_value P (or_default path (text [])) ≡ none
    → is_odd path ≡ true
edit_odd P none h = cc
edit_odd P (some (text s)) h = cc
edit_odd P (some (non_text true shown)) h = refl
edit_odd P (some (non_text false shown)) h = cc

command_odd :
    (P : Patterns) (command : Option Value)
    → command_value P (or_default command (text [])) ≡ none
    → is_odd command ≡ true
command_odd P none h = cc
command_odd P (some (text s)) h = cc
command_odd P (some (non_text true shown)) h = refl
command_odd P (some (non_text false shown)) h = cc

or-first : (a b c : Bool) → (a || b) ≡ true → (a || b || c) ≡ true
or-first true b c h = refl
or-first false true c h = refl
or-first false false c h = cc

or-last : (a b c : Bool) → c ≡ true → (a || b || c) ≡ true
or-last true b c h = refl
or-last false true c h = refl
or-last false false c h = h

or-left : (a b c : Bool) → a ≡ true → (a || b || c) ≡ true
or-left a b c h = rw h refl

-- The classifier raises only on what is malformed.
pub classify_tool-none :
    (P : Patterns) (tool : Tool) (args : Args)
    → classify_tool P tool args ≡ none
    → is_malformed tool (given args) ≡ true
unfolding classify_tool
classify_tool-none P read_file args h =
    or-first (is_odd args.path) (is_odd args.pattern) (is_odd args.command)
      (read_odd P args.path args.pattern h)
classify_tool-none P list_dir args h =
    or-first (is_odd args.path) (is_odd args.pattern) (is_odd args.command)
      (read_odd P args.path args.pattern h)
classify_tool-none P glob args h =
    or-first (is_odd args.path) (is_odd args.pattern) (is_odd args.command)
      (read_odd P args.path args.pattern h)
classify_tool-none P grep args h =
    or-first (is_odd args.path) (is_odd args.pattern) (is_odd args.command)
      (read_odd P args.path args.pattern h)
classify_tool-none P write_file args h =
    or-left (is_odd args.path) (is_odd args.pattern) (is_odd args.command) (edit_odd P args.path h)
classify_tool-none P edit_file args h =
    or-left (is_odd args.path) (is_odd args.pattern) (is_odd args.command) (edit_odd P args.path h)
classify_tool-none P run_bash args h =
    or-last (is_odd args.path) (is_odd args.pattern) (is_odd args.command)
      (command_odd P args.command h)
classify_tool-none P run_tests args h =
    or-last (is_odd args.path) (is_odd args.pattern) (is_odd args.command)
      (command_odd P args.command h)
classify_tool-none P (other name) args h = cc
classify_tool-none P (unhashable name) args h = refl
