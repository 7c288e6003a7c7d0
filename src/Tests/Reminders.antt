-- ===== src/Tests/Reminders.antt =====
-- Reminders at concrete inputs.
use tachy_cognitive_ai_agent.Common.{
  ℕ, ◌+◌, ◌*◌, ◌≤◌, ◌<◌, ◌≡◌, refl, true, false, none, some, List, [], ◌∷◌,
}
use tachy_cognitive_ai_agent.Common.Text.{
  codes, lower, strip, strip_by, drop_while, is_space, contains, contains_any, is_prefix,
}
use tachy_cognitive_ai_agent.Database.{TableOps}
use tachy_cognitive_ai_agent.Database.Memory.{memory, memory-IsLawful}
use tachy_cognitive_ai_agent.Safety.World.{returned, log_event}
use tachy_cognitive_ai_agent.WallClock.{minute, ist_date, Shows}
use tachy_cognitive_ai_agent.ProspectiveMemory.Parse.{
  Patterns, deterministic_parse, minutes_of, InWindow, deterministic_parse-InWindow, mk_due,
  mk_due-Shows,
}
use tachy_cognitive_ai_agent.ProspectiveMemory.{
  ScheduledAction, Memory, LightReply, no_due, Inbound, created, extract, has_future_cue, session,
}
use tachy_cognitive_ai_agent.ProspectiveMemory.Kept.{Kept, extract-Kept, parsed_is_created}
use tachy_cognitive_ai_agent.ProspectiveMemory.Sending.{fire_due}
use tachy_cognitive_ai_agent.ProspectiveMemory.Sending.Fired.{fire_due-calls}
use tachy_cognitive_ai_agent.Tests.Data.{table, settings}
use tachy_cognitive_ai_agent.Tests.Payloads.{payloads}
use tachy_cognitive_ai_agent.Tests.Send.{services, greeting, world_of}

abbrev actions : TableOps ScheduledAction
actions = memory ScheduledAction

-- "10 minute baad"
abbrev patterns : Patterns
patterns = record {
  relative = λ low. some (10, codes "minute");
  soft = λ low. false;
  clock = λ low. none;
  intent = λ low. false;
}

abbrev light : List ℕ → LightReply
light msg = no_due

abbrev whole : List ℕ → List ℕ
whole msg = msg

abbrev inbound : Inbound
inbound = record {
  message = codes "10 minute baad";
  conversation_id = 3;
  person = none;
  is_guardian = true;
}

abbrev memory_of : Memory actions table
memory_of = record { actions = []; world = world_of [] }

in_ten : deterministic_parse patterns (codes "10 minute baad") 5 ≡ some (5 + 10 * minute)
unfolding deterministic_parse minutes_of lower is_prefix
in_ten = refl

deterministic_parse-InWindow_example : InWindow 5 (5 + 10 * minute)
deterministic_parse-InWindow_example =
    deterministic_parse-InWindow patterns (codes "10 minute baad") 5 (5 + 10 * minute) in_ten

-- 08:15 of the next day, asked for at 05:30 local time.
abbrev morning : ℕ
morning = 96300000000

tomorrow : mk_due 8 15 5 1 ≡ some morning
unfolding mk_due
tomorrow = refl

mk_due-Shows_example :
    Shows 8 15 morning
    × (0 < 1 → ist_date morning ≡ ist_date 5 + 1)
    × (◌≡◌ {A = ℕ} 1 0 → (5 < morning) × ((t : ℕ) → 5 < t → Shows 8 15 t → morning ≤ t))
mk_due-Shows_example = mk_due-Shows 8 15 5 1 morning tomorrow

parsed_is_created_example :
    let (o, s') = extract patterns whole light true inbound memory_of in
    (id : ℕ) × (o ≡ returned (created id (5 + 10 * minute) (codes "10 minute baad")))
    × Kept inbound 5 id (5 + 10 * minute) (codes "10 minute baad") s'
unfolding strip strip_by drop_while is_space has_future_cue contains_any contains is_prefix lower
    deterministic_parse minutes_of
parsed_is_created_example =
    parsed_is_created (memory-IsLawful ScheduledAction) patterns whole light inbound memory_of
      (5 + 10 * minute) refl refl refl refl

extract-Kept_example :
    (true ≡ true)
    × (true ≡ true)
    × Kept inbound 5 0
        (5 + 10 * minute)
        (codes "10 minute baad")
        (extract patterns whole light true inbound memory_of).1
unfolding extract strip strip_by drop_while is_space has_future_cue contains_any contains is_prefix
    lower deterministic_parse minutes_of session log_event
extract-Kept_example =
    extract-Kept (memory-IsLawful ScheduledAction) patterns whole light true inbound memory_of 0
      (5 + 10 * minute) (codes "10 minute baad") refl

fire_due-calls_example :
    (fire_due payloads services settings false
      (λ now t. (0, greeting) ∷ [])
      true
      memory_of).1.world.calls
    ≡ []
fire_due-calls_example =
    fire_due-calls payloads services settings (λ now t. (0, greeting) ∷ []) true memory_of
