-- ===== src/AutonomousTasks.antt =====
-- app/brain/autonomous_tasks.py: recurring tasks that the agent registers and runs on her own
-- clock. The table, the handlers' work and JSON are parameters. Moments are microseconds in UTC.
pub mod Schedule
pub mod Worker
pub mod Due
use mathlib.Core.Option
use tachy_cognitive_ai_agent.Common.{
  ℕ, zero, suc, ◌+◌, ◌≤◌, ◌≡◌, Bool, true, false, not, ◌&&◌, ◌||◌, String, Option, none, some, List,
  [], ◌∷◌, ◌++◌, str_eq, ltb, leb, ◌==◌, length, take, any_of, if◌then◌else◌,
}
use tachy_cognitive_ai_agent.Common.Int.{ℤ, pos}
use tachy_cognitive_ai_agent.Database.{TableOps, save}
use tachy_cognitive_ai_agent.Safety.Policy.{RiskTier, low, medium}
use tachy_cognitive_ai_agent.Safety.World.{
  Error, db_error, value_error, Outcome, returned, raised, next_fault,
}
use tachy_cognitive_ai_agent.WallClock.{ist_date}
use tachy_cognitive_ai_agent.AutonomousTasks.Schedule.{clamp_interval, compute_next_run}

pub data TaskStatus : Type 0 where
  active paused error done : TaskStatus

-- `last_error`: the daily cap, or what the handler raised.
pub data LastError : Type 0 where
  cap_reached : ℕ → LastError
  handler_raised : LastError

pub record Task : Type 0 where
  pub name : List ℕ
  pub handler : String
  pub intent : Option (List ℕ)
  pub params : Option String
  pub interval_minutes : ℕ
  pub at_time_hhmm : Option (List ℕ)
  pub next_run_at : ℕ
  pub last_run_at : Option ℕ
  pub runs_today : ℕ
  pub run_date : Option ℕ
  pub total_runs : ℕ
  pub status : TaskStatus
  pub created_by : String
  pub last_error : Option LastError

pub data Event : Type 0 where
  task_register_error : String → Event
  task_registered : ℕ → String → ℕ → String → RiskTier → Event
  task_error : ℕ → String → Event
  task_paused task_resumed task_deleted : ℕ → Event

-- The keys of `_HANDLERS`.
abbrev pub handlers : List String
handlers =
    "study" ∷ "self_test" ∷ "learn_topic" ∷ "reflect" ∷ "review_tody_errors" ∷ "follow_up_promises"
    ∷ "summarize_to_papa" ∷ "message_papa" ∷ []

abbrev pub outbound : List String
outbound = "review_tody_errors" ∷ "follow_up_promises" ∷ "summarize_to_papa" ∷ "message_papa" ∷ []

abbrev pub is_allowed : String → Bool
is_allowed h = any_of (str_eq h) handlers

abbrev pub is_active : TaskStatus → Bool
is_active active = true
is_active _ = false

-- `json`, and `{}`; `loads` gives `none` for `ValueError`.
pub record ParamsJson (Params : Type 0) : Type 0 where
  pub dumps : Params → String
  pub loads : String → Option Params
  pub empty : Params

-- `calls` records which task called which handler; `faults` says of each coming transaction whether
-- it fails.
pub record World (T : TableOps Task) : Type 0 where
  pub tasks : T.Table
  pub audit : List Event
  pub calls : List (ℕ × String)
  pub faults : List Bool
  pub clock : ℕ

abbrev pub M : TableOps Task → Type 0 → Type 0
M T A = World T → Outcome A × World T

infixl 5 ◌>>=◌ ◌>>◌
abbrev pub ◌>>=◌ : {T : TableOps Task} {A B : Type 0} → M T A → (A → M T B) → M T B
◌>>=◌ m f w = let (o, w') = m w in elim o [ returned a ↦ f a w' | raised e ↦ (raised e, w') ]

abbrev pub ◌>>◌ : {T : TableOps Task} {A B : Type 0} → M T A → M T B → M T B
m >> k = m >>= λ _. k

module _ {T : TableOps Task} where
  abbrev pub pure : {A : Type 0} → A → M T A
  pure a w = (returned a, w)

  abbrev pub raise : {A : Type 0} → Error → M T A
  raise e w = (raised e, w)

  -- `_utcnow_naive`
  abbrev pub utcnow : M T ℕ
  utcnow w = (returned w.clock, w)

  -- `with session_scope() as sess:` around the body `f`.
  unfoldable pub session : {A : Type 0} → (T.Table → A × T.Table) → M T A
  session f w =
      let (broken, fs) = next_fault w.faults in
      let (a, t) = f w.tasks in
      elim broken [
        | true ↦ (raised db_error, record w { faults = fs })
        | false ↦ (returned a, record w { tasks = t; faults = fs })
      ]

  unfoldable pub log_event : Event → M T (Unit {0})
  log_event e w =
      let (broken, fs) = next_fault w.faults in
      elim broken [
        | true ↦ (raised db_error, record w { faults = fs })
        | false ↦ (returned tt, record w { audit = w.audit ++ e ∷ []; faults = fs })
      ]

  abbrev pub attempt : {A : Type 0} → M T A → M T (Outcome A)
  attempt m w = let (o, w') = m w in (returned o, w')

-- The arguments of `register`; `params` only where they are given and not empty.
pub record Registration (Params : Type 0) : Type 0 where
  pub name : List ℕ
  pub handler : String
  pub interval_minutes : ℤ
  pub intent : List ℕ
  pub params : Option Params
  pub at_time_hhmm : Option (List ℕ)
  pub created_by : String

pub data Registered : Type 0 where
  unknown_handler store_failed : Registered
  made : ℕ → ℕ → Registered

abbrev pub given : List ℕ → Option (List ℕ)
given [] = none
given (c ∷ s) = some (take 500 (c ∷ s))

-- What `run_due` reports of a task.
pub data Ran : Type 0 where
  ran_well ran_badly crashed : Ran

-- How the first session of a run ends: the task is left for now, or its parameters are loaded.
pub data Opened (Params : Type 0) : Type 0 where
  skipped : Opened Params
  corrupt : Opened Params
  ready : Params → Opened Params

-- `_reset_daily_cap_if_new_day`
unfoldable pub reset_daily_cap : ℕ → Task → Task
reset_daily_cap now row = elim row.run_date [
  | none ↦ record row { run_date = some (ist_date now); runs_today = 0 }
  | some d ↦
      if d == ist_date now
      then row
      else record row { run_date = some (ist_date now); runs_today = 0 }
]

abbrev pub next_run : ℕ → Task → ℕ
next_run now row = compute_next_run (pos row.interval_minutes) row.at_time_hhmm now

-- The second session of a run: what becomes of the row after its handler.
unfoldable pub finish : Bool → ℕ → Task → Task
finish true now row = record row {
  last_run_at = some now;
  total_runs = row.total_runs + 1;
  runs_today = row.runs_today + 1;
  last_error = none;
  status = active;
  next_run_at = next_run now row;
}
finish false now row = record row {
  last_run_at = some now;
  total_runs = row.total_runs + 1;
  runs_today = row.runs_today + 1;
  last_error = some handler_raised;
  status = error;
}
