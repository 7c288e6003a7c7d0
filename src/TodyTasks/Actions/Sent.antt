-- ===== src/TodyTasks/Actions/Sent.antt =====
-- What the operations of app/agents/tody_task_actions.py send to the TODY client.
use mathlib.Core.Option.{some-injective}
use tachy_cognitive_ai_agent.Common.{
  ℕ, ◌≤◌, ◌<◌, ◌≡◌, refl, Bool, true, false, Option, none, some, List, [], ◌∷◌, arith,
  if◌then◌else◌, length, length-take, All, Bool-cases, Option-cases, ◌⊎◌, inl, inr,
}
use tachy_cognitive_ai_agent.Common.Int.{ℤ, pos_part}
use tachy_cognitive_ai_agent.Common.Text.{codes, one_of, text_eq, lower, strip, squeeze}
use tachy_cognitive_ai_agent.Safety.World.{returned, attribute_error, handler_error}
use tachy_cognitive_ai_agent.TodyTasks.{
  Settings, TaskParams, Payload, personal_task, priorities, statuses, is_in, clean_text, or_text,
  add_guardian, watch_group, watch, new_payload, titled, prepare_create_payload, priority_of,
  NewTask, Call, create_task, my_tasks, comment_task, update_task_status, search_username, Client,
  World, M, Answer, answered, tody_error, other_error, tody_task_created, tody_task_commented,
  tody_task_status_updated, Created, task_dict, plain_dict, no_dict,
}
use tachy_cognitive_ai_agent.TodyTasks.Ids.{IsClean, add_id-IsClean, parse_ids_lem, is_in-add_id}
use tachy_cognitive_ai_agent.TodyTasks.Preview.{enforce-prepare}
use tachy_cognitive_ai_agent.TodyTasks.Actions.{
  Reply, disabled, tody_failed, empty_comment, invalid_status, created, listed, commented, updated,
  created_id, after_create, send_task, create_prepared, do_create_task, has_fields, after_list,
  do_list_tasks, after_comment, comment_text, do_comment_task, after_update, update_to,
  do_update_status, normalize_status, new_task,
}
use tachy_cognitive_ai_agent.TodyTasks.Actions.Adds.{
  Adds, Adds-pure, Adds-raise, Adds-log_event, Adds-ask, Adds-bind,
}

-- What the agent may ask of TODY: a new task has a title of at most 180 characters, one of the four
-- priorities and distinct, positive assignees, of whom the guardian is one if it is a group's; a
-- comment has from 1 to 1000 characters; a status is one of the five.
pub record IsSound (guardian : ℕ) (t : NewTask) : Type 0 where
  pub title_bounds : (1 ≤ length t.title) × (length t.title ≤ 180)
  pub priority : one_of priorities t.priority ≡ true
  pub assignees : IsClean t.assignee_ids
  pub watched : (t.group_id ≡ none) ⊎ (is_in guardian t.assignee_ids ≡ true)

abbrev pub IsProper : ℕ → Call → Type 0
IsProper guardian (create_task t) = IsSound guardian t
IsProper guardian (my_tasks group_id) = Unit
IsProper guardian (comment_task task_id text) = (1 ≤ length text) × (length text ≤ 1000)
IsProper guardian (update_task_status task_id status notes) = one_of statuses status ≡ true
IsProper guardian (search_username name) = Unit

clean_text-le : (value : List ℕ) (n : ℕ) → length (clean_text value n) ≤ n
unfolding clean_text
clean_text-le value n = omega (arith, length-take {0} n (strip (squeeze value)))

medium_is_one : one_of priorities (codes "medium") ≡ true
unfolding one_of text_eq
medium_is_one = refl

test_or_default :
    (b : Bool) (x y : List ℕ)
    → one_of priorities x ≡ b
    → one_of priorities y ≡ true
    → one_of priorities (if b then x else y) ≡ true
test_or_default true x y h k = h
test_or_default false x y h k = k

priority_of_lem : (value : List ℕ) → one_of priorities (priority_of value) ≡ true
unfolding priority_of
priority_of_lem value =
    let priority = lower (strip (or_text value (codes "medium"))) in
    test_or_default (one_of priorities priority) priority (codes "medium") refl medium_is_one

module _ (s : Settings) (forced : s.force_rohit_watcher ≡ true)
    (known : 0 < pos_part s.rohit_user_id) where
  watch_lem :
      (b : Payload)
      → ((watch s b ≡ record b { watcher_warning = some personal_task }) × (b.group_id ≡ none))
        ⊎ (watch s b ≡ add_guardian (pos_part s.rohit_user_id) b)
  unfolding watch watch_group
  watch_lem b = elim (Option-cases b.group_id) [
    | inl none' ↦ inl (ground (arith, forced, none'), none')
    | inr (group, g) ↦ inr (ground (arith, forced, known, g))
  ]

  prepared-IsSound :
      (p : TaskParams) (c : ℕ) (t : List ℕ)
      → length (c ∷ t) ≤ 180
      → IsSound (pos_part s.rohit_user_id) (new_task (watch s (new_payload s p (c ∷ t))))
  unfolding add_guardian new_payload new_task
  prepared-IsSound p c t h =
      let b = new_payload s p (c ∷ t) in
      let (d, ps, _) = parse_ids_lem p.assignee_ids in
      elim (watch_lem b) [
        | inl (e, none') ↦ rw e (record {
          title_bounds = omega arith;
          priority = priority_of_lem p.priority;
          assignees = (d, ps);
          watched = inl none';
        })
        | inr e ↦ rw e (record {
          title_bounds = omega arith;
          priority = priority_of_lem p.priority;
          assignees =
              add_id-IsClean (some (pos_part s.rohit_user_id)) _
                (λ n q. rw (← some-injective _ _ q) known) (d, ps);
          watched = inr (is_in-add_id (pos_part s.rohit_user_id) b.assignee_ids);
        })
      ]

pub data Op : Type 0 where
  create : TaskParams → Op
  list : Option ℤ → Op
  comment : ℤ → List ℕ → Op
  update : ℤ → List ℕ → Option (List ℕ) → Op

module _ (C : Client) (s : Settings) where
  unfoldable pub run_op : Op → M Reply
  run_op (create params) = do_create_task C s params
  run_op (list group_id) = do_list_tasks C s group_id
  run_op (comment task_id body) = do_comment_task C s task_id body
  run_op (update task_id status notes) = do_update_status C s task_id status notes

  -- One operation after the other, whatever each comes to.
  unfoldable pub run_ops : List Op → World → World
  run_ops [] w = w
  run_ops (op ∷ ops) w = run_ops ops (run_op op w).1

module _ (C : Client) (P : Call → Type 0) where
  Adds-has_fields : (b : Bool) (r : Reply) → Adds P (has_fields C b r)
  unfolding has_fields
  Adds-has_fields true r = Adds-pure P r
  Adds-has_fields false r = Adds-raise P attribute_error

  Adds-created_id : (b : Created) → Adds P (created_id C b)
  unfolding created_id
  Adds-created_id (task_dict id) = Adds-pure P id
  Adds-created_id (plain_dict id) = Adds-pure P id
  Adds-created_id no_dict = Adds-raise P attribute_error

  Adds-after_create : (p : Payload) (a : Answer Created) → Adds P (after_create C p a)
  unfolding after_create
  Adds-after_create p (answered b) =
      Adds-bind P _ _ (Adds-created_id b) λ id.
        Adds-bind P _ _ (Adds-log_event P (tody_task_created id p)) λ _. Adds-pure P (created p)
  Adds-after_create p tody_error = Adds-pure P tody_failed
  Adds-after_create p other_error = Adds-raise P handler_error

  Adds-after_list : (a : Answer Bool) → Adds P (after_list C a)
  unfolding after_list
  Adds-after_list (answered b) = Adds-has_fields b listed
  Adds-after_list tody_error = Adds-pure P tody_failed
  Adds-after_list other_error = Adds-raise P handler_error

  Adds-after_comment : (i : ℤ) (text : List ℕ) (a : Answer Bool) → Adds P (after_comment C i text a)
  unfolding after_comment
  Adds-after_comment i text (answered b) =
      Adds-bind P _ _ (Adds-log_event P (tody_task_commented i))
        λ _. Adds-has_fields b (commented text)
  Adds-after_comment i text tody_error = Adds-pure P tody_failed
  Adds-after_comment i text other_error = Adds-raise P handler_error

  Adds-after_update :
      (i : ℤ) (status : List ℕ) (a : Answer Bool) → Adds P (after_update C i status a)
  unfolding after_update
  Adds-after_update i status (answered b) =
      Adds-bind P _ _ (Adds-log_event P (tody_task_status_updated i status))
        λ _. Adds-has_fields b (updated status)
  Adds-after_update i status tody_error = Adds-pure P tody_failed
  Adds-after_update i status other_error = Adds-raise P handler_error

module _ (C : Client) (guardian : ℕ) where
  Adds-comment_text :
      (i : ℤ) (text : List ℕ)
      → length text ≤ 1000
      → Adds (IsProper guardian) (comment_text C i text)
  unfolding comment_text
  Adds-comment_text i [] h = Adds-pure (IsProper guardian) empty_comment
  Adds-comment_text i (c ∷ text) h =
      Adds-bind (IsProper guardian) _ _
        (Adds-ask (IsProper guardian) (comment_task i (c ∷ text)) C.comment (omega arith, h))
        λ a. Adds-after_comment C (IsProper guardian) i (c ∷ text) a

  Adds-update_to :
      (i : ℤ) (notes : Option (List ℕ)) (status : List ℕ)
      → Adds (IsProper guardian) (update_to C i notes status)
  unfolding update_to
  Adds-update_to i notes status = elim (Bool-cases (one_of statuses status)) [
    | inl e ↦
        rw (e, update_to)
          (Adds-bind (IsProper guardian) _ _
            (Adds-ask (IsProper guardian) (update_task_status i status notes) C.update e)
            λ a. Adds-after_update C (IsProper guardian) i status a)
    | inr e ↦ rw (e, update_to) (Adds-pure (IsProper guardian) invalid_status)
  ]

  Adds-send_task :
      (p : Payload) → IsSound guardian (new_task p) → Adds (IsProper guardian) (send_task C p)
  unfolding send_task
  Adds-send_task p h =
      Adds-bind (IsProper guardian) _ _
        (Adds-ask (IsProper guardian) (create_task (new_task p)) (λ cs. C.create cs (new_task p)) h)
        λ a. Adds-after_create C (IsProper guardian) p a

module _ (C : Client) (s : Settings) (forced : s.force_rohit_watcher ≡ true)
    (known : 0 < pos_part s.rohit_user_id) where
  create_prepared_lem :
      (params : TaskParams) (p : Payload) (w : World)
      → prepare_create_payload s params ≡ some p
      → create_prepared C s (some p) w ≡ send_task C p w
  unfolding create_prepared
  create_prepared_lem params p w e = ground (arith, enforce-prepare C s known params p w e)

  create_prepared_at :
      (params : TaskParams) (o : Option Payload) (w : World)
      → prepare_create_payload s params ≡ o
      → ((p : Payload) → o ≡ some p → IsSound (pos_part s.rohit_user_id) (new_task p))
      → All (IsProper (pos_part s.rohit_user_id)) w.calls
      → All (IsProper (pos_part s.rohit_user_id)) (create_prepared C s o w).1.calls
  unfolding create_prepared
  create_prepared_at params none w e sound h = h
  create_prepared_at params (some p) w e sound h =
      rw (create_prepared_lem params p w e)
        ((Adds-send_task C (pos_part s.rohit_user_id) p (sound p refl)).at w h)

  prepare-IsSound :
      (params : TaskParams) (title : List ℕ)
      → length title ≤ 180
      → (p : Payload) → titled s params title ≡ some p
      → IsSound (pos_part s.rohit_user_id) (new_task p)
  unfolding titled
  prepare-IsSound params [] b p h = absurd (cc h)
  prepare-IsSound params (c ∷ t) b p h =
      rw (← some-injective _ _ h) (prepared-IsSound s forced known params c t b)

  Adds-do_create_task :
      (params : TaskParams) → Adds (IsProper (pos_part s.rohit_user_id)) (do_create_task C s params)
  unfolding do_create_task prepare_create_payload
  Adds-do_create_task params = record {
    at = λ w h. elim (Bool-cases s.tasks_enabled) [
      | inl e ↦
          let k : do_create_task C s params w
              ≡ create_prepared C s (prepare_create_payload s params) w =
            ground (arith, e) in
          rw k (
            create_prepared_at params (prepare_create_payload s params) w refl
              (prepare-IsSound params (clean_text params.title 180)
                (clean_text-le params.title 180))
              h)
      | inr e ↦
          let k : do_create_task C s params w ≡ (returned disabled, w) = ground (arith, e) in rw k h
    ];
  }

  Adds-run_op : (op : Op) → Adds (IsProper (pos_part s.rohit_user_id)) (run_op C s op)
  unfolding run_op do_list_tasks do_comment_task do_update_status
  Adds-run_op (create params) = Adds-do_create_task params
  Adds-run_op (list group_id) = elim (Bool-cases s.tasks_enabled) [
    | inl e ↦
        rw (e, do_list_tasks)
          (Adds-bind _ _ _
            (Adds-ask (IsProper (pos_part s.rohit_user_id)) (my_tasks group_id) C.list tt)
            (Adds-after_list C (IsProper (pos_part s.rohit_user_id))))
    | inr e ↦ rw (e, do_list_tasks) (Adds-pure _ disabled)
  ]
  Adds-run_op (comment task_id body) = elim (Bool-cases s.tasks_enabled) [
    | inl e ↦
        rw (e, do_comment_task)
          (Adds-comment_text C (pos_part s.rohit_user_id) task_id (clean_text body 1000)
            (clean_text-le body 1000))
    | inr e ↦ rw (e, do_comment_task) (Adds-pure _ disabled)
  ]
  Adds-run_op (update task_id status notes) = elim (Bool-cases s.tasks_enabled) [
    | inl e ↦
        rw (e, do_update_status)
          (Adds-update_to C (pos_part s.rohit_user_id) task_id notes (normalize_status status))
    | inr e ↦ rw (e, do_update_status) (Adds-pure _ disabled)
  ]

  -- Where the guardian is to watch every task and his id is configured, the agent asks TODY for
  -- nothing but what is proper, whatever operations are called with whatever arguments, and whatever
  -- the client answers.
  pub run_ops-IsProper :
      (ops : List Op) (w : World)
      → All (IsProper (pos_part s.rohit_user_id)) w.calls
      → All (IsProper (pos_part s.rohit_user_id)) (run_ops C s ops w).calls
  unfolding run_ops
  run_ops-IsProper [] w h = h
  run_ops-IsProper (op ∷ ops) w h = run_ops-IsProper ops _ ((Adds-run_op op).at w h)

disabled_op :
    (C : Client) (s : Settings) (op : Op) (w : World)
    → s.tasks_enabled ≡ false
    → (run_op C s op w).1 ≡ w
unfolding run_op do_create_task do_list_tasks do_comment_task do_update_status
disabled_op C s (create params) w h = ground (arith, h)
disabled_op C s (list group_id) w h = ground (arith, h)
disabled_op C s (comment task_id body) w h = ground (arith, h)
disabled_op C s (update task_id status notes) w h = ground (arith, h)

-- Where task actions are switched off, no operation reaches the client or the audit log: nothing
-- happens at all.
pub disabled_is_silent :
    (C : Client) (s : Settings) (ops : List Op) (w : World)
    → s.tasks_enabled ≡ false
    → run_ops C s ops w ≡ w
unfolding run_ops
disabled_is_silent C s [] w h = refl
disabled_is_silent C s (op ∷ ops) w h =
    let k : (run_op C s op w).1 ≡ w = disabled_op C s op w h in
    rw k (disabled_is_silent C s ops w h)
