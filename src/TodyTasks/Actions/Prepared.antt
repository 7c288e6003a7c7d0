-- ===== src/TodyTasks/Actions/Prepared.antt =====
-- What `do_create_task` of app/agents/tody_task_actions.py sends, against what
-- `prepare_create_payload` shows.
use tachy_cognitive_ai_agent.Common.{◌<◌, ◌≡◌, refl, true, some, [], ◌∷◌, ◌++◌, arith}
use tachy_cognitive_ai_agent.Common.Int.{pos_part}
use tachy_cognitive_ai_agent.TodyTasks.{
  Settings, TaskParams, Payload, prepare_create_payload, Client, World, Answer, answered,
  tody_error, other_error, Created, task_dict, plain_dict, no_dict, create_task, log_event, ask,
}
use tachy_cognitive_ai_agent.TodyTasks.Preview.{enforce-prepare}
use tachy_cognitive_ai_agent.TodyTasks.Actions.{
  created_id, after_create, send_task, create_prepared, do_create_task, new_task,
}

module _ (C : Client) (s : Settings) where
  after_create-calls :
      (p : Payload) (a : Answer Created) (w : World) → (after_create C p a w).1.calls ≡ w.calls
  unfolding after_create created_id log_event
  after_create-calls p (answered (task_dict id)) w = ground arith
  after_create-calls p (answered (plain_dict id)) w = ground arith
  after_create-calls p (answered no_dict) w = refl
  after_create-calls p tody_error w = refl
  after_create-calls p other_error w = refl

  send_task-calls :
      (p : Payload) (w : World)
      → (send_task C p w).1.calls ≡ w.calls ++ create_task (new_task p) ∷ []
  unfolding send_task ask
  send_task-calls p w = after_create-calls p (C.create w.calls (new_task p)) _

  -- Where tasks are enabled and the guardian's id is configured, `do_create_task` on parameters that
  -- are prepared to a payload makes one call of the client, whatever it answers and whatever fails:
  -- the creation of the task of exactly that payload. No search for the guardian comes before it.
  pub do_create_task-prepared :
      (params : TaskParams) (p : Payload) (w : World)
      → 0 < pos_part s.rohit_user_id
      → s.tasks_enabled ≡ true
      → prepare_create_payload s params ≡ some p
      → (do_create_task C s params w).1.calls ≡ w.calls ++ create_task (new_task p) ∷ []
  unfolding do_create_task create_prepared
  do_create_task-prepared params p w known on h =
      rw (on, do_create_task)
        (rw (h, create_prepared)
          (ground (arith, enforce-prepare C s known params p w h, send_task-calls p w)))
