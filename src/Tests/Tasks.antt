-- ===== src/Tests/Tasks.antt =====
-- Recurring tasks at concrete inputs.
use tachy_cognitive_ai_agent.Common.{
  ℕ, ◌+◌, ◌*◌, ◌<◌, ◌≤◌, ◌≡◌, refl, true, Bool, String, none, some, List, [], ◌∷◌, length, arith,
}
use tachy_cognitive_ai_agent.Common.Int.{pos, negsuc}
use tachy_cognitive_ai_agent.Common.Digits.{decimal, split_on, parse_int}
use tachy_cognitive_ai_agent.Common.Text.{codes, strip, strip_by, drop_while, is_space}
use tachy_cognitive_ai_agent.Database.{TableOps}
use tachy_cognitive_ai_agent.Database.Memory.{memory, memory-IsLawful, update_at}
use tachy_cognitive_ai_agent.WallClock.{minute, Shows}
use tachy_cognitive_ai_agent.AutonomousTasks.{
  Task, TaskStatus, active, paused, ParamsJson, World, Registration, is_allowed, session, log_event,
  finish, reset_daily_cap,
}
use tachy_cognitive_ai_agent.AutonomousTasks.Schedule.{
  min_interval, max_interval, compute_next_run, wall_time, compute_next_run_bounds,
  compute_next_run_first,
}
use tachy_cognitive_ai_agent.AutonomousTasks.Worker.{register, run_one, load_params}
use tachy_cognitive_ai_agent.AutonomousTasks.Worker.Caps.{IsQuiet, run_many, daily_cap}
use tachy_cognitive_ai_agent.AutonomousTasks.Worker.Status.{Changes, run_reactivates, register_lem}

abbrev table : TableOps Task
table = memory Task

abbrev json : ParamsJson (Unit {0})
json = record { dumps = λ p. "{}"; loads = λ s. some tt; empty = tt }

abbrev routine : TaskStatus → Task
routine status = record {
  name = codes "errors";
  handler = "study";
  intent = none;
  params = none;
  interval_minutes = 60;
  at_time_hhmm = none;
  next_run_at = 0;
  last_run_at = none;
  runs_today = 0;
  run_date = none;
  total_runs = 0;
  status = status;
  created_by = "rohit";
  last_error = none;
}

abbrev world : List Task → World table
world rows = record { tasks = rows; audit = []; calls = []; faults = []; clock = 7 }

compute_next_run_bounds_example :
    (7 < compute_next_run (negsuc 3) none 7)
    × (compute_next_run (negsuc 3) none 7 ≤ 7 + max_interval * minute)
compute_next_run_bounds_example = compute_next_run_bounds (negsuc 3) none 7

eight : wall_time (some (codes "08:15")) ≡ some (8, 15)
unfolding wall_time decimal strip strip_by drop_while is_space split_on parse_int
eight = refl

compute_next_run_first_example :
    (7 < compute_next_run (pos 60) (some (codes "08:15")) 7)
    × Shows 8 15 (compute_next_run (pos 60) (some (codes "08:15")) 7)
    × ((t : ℕ) → 7 < t → Shows 8 15 t → compute_next_run (pos 60) (some (codes "08:15")) 7 ≤ t)
compute_next_run_first_example = compute_next_run_first (pos 60) (some (codes "08:15")) 7 8 15 eight

abbrev quick : String → Unit {0} → World table → Bool × World table
quick name p w = (true, w)

quick-IsQuiet : IsQuiet quick
quick-IsQuiet = record {
  tasks = λ name p w. refl;
  calls = λ name p w. refl;
  faults = λ name p w. refl;
  day = λ name p w. refl;
}

daily_cap_example :
    length (run_many json 2 quick 5 0 "study" (world (routine active ∷ []))).calls ≤ 0 + 2
daily_cap_example =
    daily_cap (memory-IsLawful Task) json 2 quick quick-IsQuiet 0 5 "study"
      (world (routine active ∷ [])) (routine active) refl refl

-- The cap is reached.
two_calls : length (run_many json 2 quick 5 0 "study" (world (routine active ∷ []))).calls ≡ 2
unfolding run_many session finish reset_daily_cap update_at compute_next_run wall_time load_params
    log_event run_one
two_calls = refl

-- The guardian pauses the task while its handler runs.
abbrev pausing : String → Unit {0} → World table → Bool × World table
pausing name p w = (true, record w { tasks = routine paused ∷ [] })

pausing-Changes : Changes pausing 0 (routine paused)
pausing-Changes = record {
  ends = λ name p w. refl;
  faults = λ name p w. refl;
  row = λ name p w. refl;
}

run_reactivates_example :
    (row' : Task) × (table.get
        (run_one json 2 pausing 0 "study" (world (routine active ∷ []))).1.tasks
        0
      ≡ some row')
    × (row'.status ≡ active)
unfolding reset_daily_cap load_params
run_reactivates_example =
    run_reactivates (memory-IsLawful Task) json 2 pausing 0 (routine paused) pausing-Changes "study"
      tt (world (routine active ∷ [])) (routine active) refl refl refl refl (omega arith) refl

abbrev request : Registration (Unit {0})
request = record {
  name = codes "errors";
  handler = "study";
  interval_minutes = negsuc 0;
  intent = [];
  params = none;
  at_time_hhmm = none;
  created_by = "rohit";
}

register_lem_example :
    (row : Task) × (table.get (register json request (world [])).1.tasks 0 ≡ some row)
    × (is_allowed row.handler ≡ true)
    × (min_interval ≤ row.interval_minutes)
    × (row.interval_minutes ≤ max_interval)
    × (7 < row.next_run_at)
    × (row.next_run_at ≤ 7 + max_interval * minute)
    × (row.status ≡ active)
unfolding register session log_event compute_next_run wall_time
register_lem_example =
    register_lem (memory-IsLawful Task) json request (world []) 0 (7 + 5 * minute) refl
