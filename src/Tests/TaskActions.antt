-- ===== src/Tests/TaskActions.antt =====
-- Task actions on TODY at concrete inputs.
use tachy_cognitive_ai_agent.Common.{◌≡◌, refl, true, some, none, [], ◌∷◌, All, arith}
use tachy_cognitive_ai_agent.Common.Int.{pos}
use tachy_cognitive_ai_agent.Common.Digits.{parse_int, decimal}
use tachy_cognitive_ai_agent.Common.Text.{
  codes, strip, strip_by, drop_while, is_space, lower, text_eq, one_of, squeeze, split_runs,
}
use tachy_cognitive_ai_agent.TodyTasks.{
  Settings, TaskParams, no_int, ids_text, Payload, as_assignee, prepare_create_payload, Client,
  answered, task_dict, create_task, World,
}
use tachy_cognitive_ai_agent.TodyTasks.Actions.{new_task, do_create_task}
use tachy_cognitive_ai_agent.TodyTasks.Actions.Prepared.{do_create_task-prepared}
use tachy_cognitive_ai_agent.TodyTasks.Actions.Sent.{
  create, comment, update, run_ops, IsProper, run_ops-IsProper,
}

abbrev settings : Settings
settings = record {
  tasks_enabled = true;
  default_group_id = pos 3;
  rohit_user_id = pos 7;
  force_rohit_watcher = true;
  guardian_username = codes "@rohit";
}

abbrev client : Client
client = record {
  create = λ calls t. answered (task_dict (some 11));
  list = λ calls. answered true;
  comment = λ calls. answered true;
  update = λ calls. answered true;
  search = λ calls name. answered no_int;
}

abbrev world : World
world = record { calls = []; audit = []; faults = [] }

abbrev params : TaskParams
params = record {
  title = codes " Fix  login ";
  description = [];
  deadline = [];
  priority = codes " High";
  group_id = no_int;
  assignee_ids = ids_text (codes "5, 5,x 9");
}

abbrev prepared : Payload
prepared = record {
  title = codes "Fix login";
  description = none;
  deadline = none;
  priority = codes "high";
  group_id = some 3;
  assignee_ids = 5 ∷ 9 ∷ 7 ∷ [];
  watcher_mode = as_assignee;
  watcher_warning = none;
}

prepares : prepare_create_payload settings params ≡ some prepared
unfolding prepare_create_payload parse_int decimal strip strip_by drop_while is_space lower text_eq
    one_of squeeze split_runs
prepares = refl

do_create_task-prepared_example :
    (do_create_task client settings params world).1.calls ≡ create_task (new_task prepared) ∷ []
do_create_task-prepared_example =
    do_create_task-prepared client settings params prepared world (omega arith) refl prepares

run_ops-IsProper_example :
    All
      (IsProper 7)
      (run_ops client settings
        (create params
          ∷ comment (pos 4) (codes "done?")
          ∷ update (pos 4) (codes "Canceled") none
          ∷ [])
        world).calls
run_ops-IsProper_example =
    run_ops-IsProper client settings refl (omega arith)
      (create params
        ∷ comment (pos 4) (codes "done?")
        ∷ update (pos 4) (codes "Canceled") none
        ∷ [])
      world tt
