-- ===== src/TodyTasks.antt =====
-- app/agents/tody_task_actions.py: tasks on TODY, as the agent prepares and sends them. The TODY
-- client is a parameter. Texts are lists of code points.
pub mod Ids
pub mod Actions
pub mod Preview
use mathlib.Core.Option
use tachy_cognitive_ai_agent.Common.{
  ℕ, ◌≡◌, Bool, true, false, not, ◌&&◌, ◌||◌, String, Option, none, some, List, [], ◌∷◌, ◌++◌, map,
  ltb, ◌==◌, take, any_of, if◌then◌else◌,
}
use tachy_cognitive_ai_agent.Common.Int.{ℤ, pos_part}
use tachy_cognitive_ai_agent.Common.Digits.{parse_int}
use tachy_cognitive_ai_agent.Common.Text.{
  codes, is_space, strip, lower, drop_while, text_eq, one_of, squeeze, split_runs,
}
use tachy_cognitive_ai_agent.Safety.World.{
  Error, db_error, value_error, attribute_error, handler_error, Outcome, returned, raised,
  next_fault,
}

-- The settings of app/config.py that the actions read.
pub record Settings : Type 0 where
  pub tasks_enabled : Bool
  pub default_group_id : ℤ
  pub rohit_user_id : ℤ
  pub force_rohit_watcher : Bool
  pub guardian_username : List ℕ

-- What `_parse_int` and `_parse_ids` take.
pub data IntArg : Type 0 where
  no_int : IntArg
  int_text : List ℕ → IntArg
  int_number : ℤ → IntArg

pub data IdsArg : Type 0 where
  no_ids : IdsArg
  ids_text : List ℕ → IdsArg
  ids_list : List IntArg → IdsArg

pub record TaskParams : Type 0 where
  pub title : List ℕ
  pub description : List ℕ
  pub deadline : List ℕ
  pub priority : List ℕ
  pub group_id : IntArg
  pub assignee_ids : IdsArg

pub data WatcherMode : Type 0 where
  unwatched as_assignee : WatcherMode

pub data Warning : Type 0 where
  id_not_configured personal_task id_unresolved : Warning

pub record Payload : Type 0 where
  pub title : List ℕ
  pub description : Option (List ℕ)
  pub deadline : Option (List ℕ)
  pub priority : List ℕ
  pub group_id : Option ℕ
  pub assignee_ids : List ℕ
  pub watcher_mode : WatcherMode
  pub watcher_warning : Option Warning

abbrev pub priorities : List String
priorities = "low" ∷ "medium" ∷ "high" ∷ "urgent" ∷ []

abbrev pub statuses : List String
statuses = "open" ∷ "in_progress" ∷ "done" ∷ "blocked" ∷ "cancelled" ∷ []

-- `re.sub(r"\s+", " ", str(value or "")).strip()[:max_len]`
unfoldable pub clean_text : List ℕ → ℕ → List ℕ
unfolding squeeze strip
clean_text value max_len = take max_len (strip (squeeze value))

abbrev pub non_empty : List ℕ → Option (List ℕ)
non_empty [] = none
non_empty (c ∷ s) = some (c ∷ s)

-- `out if out > 0 else None`
unfoldable pub positive : Option ℤ → Option ℕ
positive none = none
positive (some z) = if ltb 0 (pos_part z) then some (pos_part z) else none

unfoldable pub parse_id : IntArg → Option ℕ
unfolding positive parse_int strip
parse_id no_int = none
parse_id (int_text s) = positive (parse_int (strip s))
parse_id (int_number z) = positive (some z)

-- `n in ids`
abbrev pub is_in : ℕ → List ℕ → Bool
is_in n ids = any_of (λ m. m == n) ids

unfoldable pub add_id : Option ℕ → List ℕ → List ℕ
add_id none ids = ids
add_id (some n) ids = if is_in n ids then ids else ids ++ n ∷ []

unfoldable pub collect_ids : List IntArg → List ℕ → List ℕ
unfolding add_id parse_id
collect_ids [] ids = ids
collect_ids (x ∷ xs) ids = collect_ids xs (add_id (parse_id x) ids)

abbrev is_separator : ℕ → Bool
is_separator c = c == b',' || c == b' '

-- `re.split(r"[, ]+", str(value or ""))` where the value is no list.
unfoldable pub id_items : IdsArg → List IntArg
unfolding split_runs
id_items no_ids = int_text [] ∷ []
id_items (ids_text s) = map int_text (split_runs is_separator false s)
id_items (ids_list xs) = xs

unfoldable pub parse_ids : IdsArg → List ℕ
unfolding collect_ids id_items
parse_ids value = take 50 (collect_ids (id_items value) [])

abbrev or_text : List ℕ → List ℕ → List ℕ
or_text [] t = t
or_text (c ∷ s) t = c ∷ s

unfoldable pub priority_of : List ℕ → List ℕ
unfolding lower strip one_of
priority_of value =
    let priority = lower (strip (or_text value (codes "medium"))) in
    if one_of priorities priority then priority else codes "medium"

abbrev or_id : Option ℕ → Option ℕ → Option ℕ
or_id none j = j
or_id (some i) j = some i

-- The guardian joins a group task as an assignee.
unfoldable pub add_guardian : ℕ → Payload → Payload
unfolding add_id
add_guardian id p = record p {
  assignee_ids = add_id (some id) p.assignee_ids;
  watcher_mode = as_assignee;
  watcher_warning = none;
}

unfoldable pub watch_group : ℕ → Payload → Payload
unfolding add_guardian
watch_group id p =
    if ltb 0 id then add_guardian id p else record p { watcher_warning = some id_not_configured }

unfoldable pub watch : Settings → Payload → Payload
unfolding watch_group
watch s p = elim s.force_rohit_watcher [
  | false ↦ p
  | true ↦ elim p.group_id [
    | none ↦ record p { watcher_warning = some personal_task }
    | some group ↦ watch_group (pos_part s.rohit_user_id) p
  ]
]

-- The payload before the guardian is added, for a title that is not empty.
unfoldable pub new_payload : Settings → TaskParams → List ℕ → Payload
unfolding clean_text priority_of parse_id parse_ids positive
new_payload s p title = record {
  title = title;
  description = non_empty (clean_text p.description 1000);
  deadline = non_empty (clean_text p.deadline 80);
  priority = priority_of p.priority;
  group_id = or_id (parse_id p.group_id) (positive (some s.default_group_id));
  assignee_ids = parse_ids p.assignee_ids;
  watcher_mode = unwatched;
  watcher_warning = none;
}

unfoldable pub titled : Settings → TaskParams → List ℕ → Option Payload
unfolding watch new_payload
titled s p [] = none
titled s p (c ∷ t) = some (watch s (new_payload s p (c ∷ t)))

-- `none` is `ValueError`.
unfoldable pub prepare_create_payload : Settings → TaskParams → Option Payload
unfolding titled clean_text
prepare_create_payload s p = titled s p (clean_text p.title 180)

-- What goes to the client.
pub record NewTask : Type 0 where
  pub title : List ℕ
  pub description : Option (List ℕ)
  pub deadline : Option (List ℕ)
  pub priority : List ℕ
  pub group_id : Option ℕ
  pub assignee_ids : List ℕ

pub data Call : Type 0 where
  create_task : NewTask → Call
  my_tasks : Option ℤ → Call
  comment_task : ℤ → List ℕ → Call
  update_task_status : ℤ → List ℕ → Option (List ℕ) → Call
  search_username : List ℕ → Call

pub data Event : Type 0 where
  tody_task_created : Option ℕ → Payload → Event
  tody_task_commented : ℤ → Event
  tody_task_status_updated : ℤ → List ℕ → Event

-- What a call of the client comes to: an answer, `TodyError`, or another exception.
pub data Answer (A : Type 0) : Type 0 where
  answered : A → Answer A
  tody_error other_error : Answer A

-- The body of an answer: the new task's id inside `task` or beside it, or no dictionary.
pub data Created : Type 0 where
  task_dict plain_dict : Option ℕ → Created
  no_dict : Created

-- The TODY client. An answer may depend on the calls before; of those to `my_tasks`, `comment_task`
-- and `update_task_status` it says whether they are dictionaries.
pub record Client : Type 0 where
  pub create : List Call → NewTask → Answer Created
  pub list : List Call → Answer Bool
  pub comment : List Call → Answer Bool
  pub update : List Call → Answer Bool
  pub search : List Call → List ℕ → Answer IntArg

pub record World : Type 0 where
  pub calls : List Call
  pub audit : List Event
  pub faults : List Bool

abbrev pub M : Type 0 → Type 0
M A = World → Outcome A × World

infixl 5 ◌>>=◌ ◌>>◌
abbrev pub ◌>>=◌ : {A B : Type 0} → M A → (A → M B) → M B
◌>>=◌ m f w = let (o, w') = m w in elim o [ returned a ↦ f a w' | raised e ↦ (raised e, w') ]

abbrev pub ◌>>◌ : {A B : Type 0} → M A → M B → M B
m >> k = m >>= λ _. k

abbrev pub pure : {A : Type 0} → A → M A
pure a w = (returned a, w)

abbrev pub raise : {A : Type 0} → Error → M A
raise e w = (raised e, w)

unfoldable pub log_event : Event → M (Unit {0})
log_event e w =
    let (broken, fs) = next_fault w.faults in
    elim broken [
      | true ↦ (raised db_error, record w { faults = fs })
      | false ↦ (returned tt, record w { audit = w.audit ++ e ∷ []; faults = fs })
    ]

-- A call of the client is made, and answered.
unfoldable pub ask : {A : Type 0} → Call → (List Call → Answer A) → M (Answer A)
ask c answer w = (returned (answer w.calls), record w { calls = w.calls ++ c ∷ [] })
