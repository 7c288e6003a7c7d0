-- ===== src/TodyTasks/Actions.antt =====
-- The operations of app/agents/tody_task_actions.py that reach the TODY client.
pub mod Adds
pub mod Prepared
pub mod Sent
use tachy_cognitive_ai_agent.Common.{
  ℕ, Bool, true, false, Option, none, some, List, [], ◌∷◌, if◌then◌else◌,
}
use tachy_cognitive_ai_agent.Common.Int.{ℤ, pos_part}
use tachy_cognitive_ai_agent.Common.Text.{codes, strip, lower, text_eq, one_of, drop_while}
use tachy_cognitive_ai_agent.Common.{◌==◌, map}
use tachy_cognitive_ai_agent.Safety.World.{value_error, attribute_error, handler_error}
use tachy_cognitive_ai_agent.TodyTasks.{
  Settings, IntArg, TaskParams, id_unresolved, Payload, statuses, clean_text, parse_id, positive,
  add_guardian, prepare_create_payload, NewTask, Call, create_task, my_tasks, comment_task,
  update_task_status, search_username, tody_task_created, tody_task_commented,
  tody_task_status_updated, Answer, answered, tody_error, other_error, Created, task_dict,
  plain_dict, no_dict, Client, M, ◌>>=◌, ◌>>◌, pure, raise, log_event, ask,
}

pub data Reply : Type 0 where
  disabled tody_failed empty_comment invalid_status : Reply
  created : Payload → Reply
  listed : Reply
  commented : List ℕ → Reply
  updated : List ℕ → Reply

-- `normalized.replace(" ", "_")`
abbrev underscore : ℕ → ℕ
underscore c = if c == b' ' then b'_' else c

unfoldable pub normalize_status : List ℕ → List ℕ
unfolding lower strip text_eq
normalize_status status =
    let normalized = map underscore (lower (strip status)) in
    if text_eq normalized (codes "canceled") then codes "cancelled" else normalized

pub new_task : Payload → NewTask
new_task p = record {
  title = p.title;
  description = p.description;
  deadline = p.deadline;
  priority = p.priority;
  group_id = p.group_id;
  assignee_ids = p.assignee_ids;
}

abbrev pub guardian_username : Settings → List ℕ
guardian_username s = drop_while (λ c. c == b'@') (strip s.guardian_username)

module _ (C : Client) where
  found_user : Answer IntArg → M (Option ℕ)
  unfolding parse_id
  found_user (answered id) = pure (parse_id id)
  found_user tody_error = pure none
  found_user other_error = raise handler_error

  search_guardian : List ℕ → M (Option ℕ)
  unfolding found_user ask
  search_guardian [] = pure none
  search_guardian (c ∷ name) = do
    user ← ask (search_username (c ∷ name)) (λ calls. C.search calls (c ∷ name))
    found_user user

  configured : Settings → Option ℕ → M (Option ℕ)
  unfolding search_guardian drop_while strip
  configured s (some id) = pure (some id)
  configured s none = search_guardian (guardian_username s)

  unfoldable pub resolve_guardian_user_id : Settings → M (Option ℕ)
  unfolding configured positive
  resolve_guardian_user_id s = configured s (positive (some s.rohit_user_id))

  with_guardian : Payload → Option ℕ → Payload
  unfolding add_guardian
  with_guardian p none = record p { watcher_warning = some id_unresolved }
  with_guardian p (some id) = add_guardian id p

  enforce_group : Settings → Payload → Option ℕ → M Payload
  unfolding with_guardian resolve_guardian_user_id
  enforce_group s p none = pure p
  enforce_group s p (some group) = do id ← resolve_guardian_user_id s; pure (with_guardian p id)

  unfoldable pub enforce_guardian_participant : Settings → Payload → M Payload
  unfolding enforce_group
  enforce_guardian_participant s p = elim s.force_rohit_watcher [
    | false ↦ pure p
    | true ↦ enforce_group s p p.group_id
  ]

  -- `created` that is no dictionary has no `get`.
  created_id : Created → M (Option ℕ)
  created_id (task_dict id) = pure id
  created_id (plain_dict id) = pure id
  created_id no_dict = raise attribute_error

  after_create : Payload → Answer Created → M Reply
  unfolding created_id log_event
  after_create p (answered body) = do
    id ← created_id body
    log_event (tody_task_created id p)
    pure (created p)
  after_create p tody_error = pure tody_failed
  after_create p other_error = raise handler_error

  send_task : Payload → M Reply
  unfolding ask new_task after_create
  send_task p = do
    answer ← ask (create_task (new_task p)) (λ calls. C.create calls (new_task p))
    after_create p answer

  create_prepared : Settings → Option Payload → M Reply
  unfolding enforce_guardian_participant send_task
  create_prepared s none = raise value_error
  create_prepared s (some p) = do payload ← enforce_guardian_participant s p; send_task payload

  unfoldable pub do_create_task : Settings → TaskParams → M Reply
  unfolding create_prepared prepare_create_payload
  do_create_task s params = elim s.tasks_enabled [
    | false ↦ pure disabled
    | true ↦ create_prepared s (prepare_create_payload s params)
  ]

  -- `data.get(…)`
  has_fields : Bool → Reply → M Reply
  has_fields true reply = pure reply
  has_fields false reply = raise attribute_error

  after_list : Answer Bool → M Reply
  unfolding has_fields
  after_list (answered is_dict) = has_fields is_dict listed
  after_list tody_error = pure tody_failed
  after_list other_error = raise handler_error

  unfoldable pub do_list_tasks : Settings → Option ℤ → M Reply
  unfolding ask after_list
  do_list_tasks s group_id = elim s.tasks_enabled [
    | false ↦ pure disabled
    | true ↦ (do answer ← ask (my_tasks group_id) C.list; after_list answer)
  ]

  after_comment : ℤ → List ℕ → Answer Bool → M Reply
  unfolding has_fields log_event
  after_comment task_id text (answered is_dict) = do
    log_event (tody_task_commented task_id)
    has_fields is_dict (commented text)
  after_comment task_id text tody_error = pure tody_failed
  after_comment task_id text other_error = raise handler_error

  comment_text : ℤ → List ℕ → M Reply
  unfolding ask after_comment
  comment_text task_id [] = pure empty_comment
  comment_text task_id (c ∷ text) = do
    answer ← ask (comment_task task_id (c ∷ text)) C.comment
    after_comment task_id (c ∷ text) answer

  unfoldable pub do_comment_task : Settings → ℤ → List ℕ → M Reply
  unfolding comment_text clean_text
  do_comment_task s task_id body = elim s.tasks_enabled [
    | false ↦ pure disabled
    | true ↦ comment_text task_id (clean_text body 1000)
  ]

  after_update : ℤ → List ℕ → Answer Bool → M Reply
  unfolding has_fields log_event
  after_update task_id status (answered is_dict) = do
    log_event (tody_task_status_updated task_id status)
    has_fields is_dict (updated status)
  after_update task_id status tody_error = pure tody_failed
  after_update task_id status other_error = raise handler_error

  update_to : ℤ → Option (List ℕ) → List ℕ → M Reply
  unfolding ask after_update one_of
  update_to task_id notes status = elim (one_of statuses status) [
    | false ↦ pure invalid_status
    | true ↦ (do
      answer ← ask (update_task_status task_id status notes) C.update
      after_update task_id status answer)
  ]

  unfoldable pub do_update_status : Settings → ℤ → List ℕ → Option (List ℕ) → M Reply
  unfolding update_to normalize_status
  do_update_status s task_id status notes = elim s.tasks_enabled [
    | false ↦ pure disabled
    | true ↦ update_to task_id notes (normalize_status status)
  ]
