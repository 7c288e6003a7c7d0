-- ===== src/AutonomousTasks/Worker.antt =====
-- The operations of app/brain/autonomous_tasks.py: registering, listing, running and managing tasks.
pub mod Caps
pub mod Status
use tachy_cognitive_ai_agent.Common.{
  ℕ, ◌+◌, ◌≡◌, Bool, true, false, ◌&&◌, String, Option, none, some, List, [], ◌∷◌, ◌++◌, leb, take,
  any_of, str_eq, if◌then◌else◌,
}
use tachy_cognitive_ai_agent.Common.Int.{pos}
use tachy_cognitive_ai_agent.Database.{TableOps, save}
use tachy_cognitive_ai_agent.Safety.Policy.{RiskTier, low, medium}
use tachy_cognitive_ai_agent.Safety.World.{Outcome, returned, raised, value_error}
use tachy_cognitive_ai_agent.AutonomousTasks.Schedule.{clamp_interval, compute_next_run}
use tachy_cognitive_ai_agent.AutonomousTasks.{
  Task, TaskStatus, active, paused, done, cap_reached, handler_raised, task_register_error,
  task_registered, task_error, task_paused, task_resumed, task_deleted, Event, handlers, outbound,
  is_allowed, is_active, ParamsJson, World, M, ◌>>=◌, ◌>>◌, pure, raise, utcnow, session, log_event,
  attempt, Registration, Registered, unknown_handler, store_failed, made, given, Ran, ran_well,
  ran_badly, crashed, Opened, skipped, corrupt, ready, reset_daily_cap, next_run, finish,
}

abbrev risk_of : String → RiskTier
risk_of h = if any_of (str_eq h) outbound then medium else low

module _ {Params : Type 0} (J : ParamsJson Params) where
  abbrev new_task : Registration Params → ℕ → ℕ → Task
  new_task r interval next = record {
    name = take 255 r.name;
    handler = r.handler;
    intent = given r.intent;
    params = elim r.params [ none ↦ none | some p ↦ some (J.dumps p) ];
    interval_minutes = interval;
    at_time_hhmm = r.at_time_hhmm;
    next_run_at = next;
    last_run_at = none;
    runs_today = 0;
    run_date = none;
    total_runs = 0;
    status = active;
    created_by = r.created_by;
    last_error = none;
  }

module _ {T : TableOps Task} {Params : Type 0} (J : ParamsJson Params) where
  -- The `try` of `register` and what follows it.
  log_registered : Registration Params → ℕ → ℕ → Outcome ℕ → M T Registered
  log_registered r interval next (raised e) = do
    log_event (task_register_error r.handler)
    pure store_failed
  log_registered r interval next (returned id) = do
    log_event (task_registered id r.handler interval r.created_by (risk_of r.handler))
    pure (made id next)

  store_task : Registration Params → M T Registered
  unfolding log_registered
  store_task r = do
    let interval = clamp_interval r.interval_minutes
    at ← utcnow
    let next = compute_next_run (pos interval) r.at_time_hhmm at
    stored ← attempt (session (T.insert (new_task J r interval next)))
    log_registered r interval next stored

  unfoldable pub register : Registration Params → M T Registered
  unfolding store_task
  register r = elim (is_allowed r.handler) [ false ↦ pure unknown_handler | true ↦ store_task r ]

module _ {T : TableOps Task} where
  -- `pause`, `resume` and `delete_task`: whether the task is there. The event is logged before the
  -- session commits.
  change_row : ℕ → Event → (Task → Task) → Option Task → M T Bool
  change_row i e f none = session (λ t. (false, t))
  change_row i e f (some row) = do log_event e; session (λ t. (true, save T i (f row) t))

  change : ℕ → Event → (Task → Task) → M T Bool
  unfolding change_row
  change i e f w = change_row i e f (T.get w.tasks i) w

  unfoldable pub pause : ℕ → M T Bool
  unfolding change
  pause i = change i (task_paused i) (λ row. record row { status = paused })

  unfoldable pub resume : ℕ → M T Bool
  unfolding change
  resume i = do
    at ← utcnow
    change i (task_resumed i) (λ row. record row { status = active; next_run_at = next_run at row })

  unfoldable pub delete_task : ℕ → M T Bool
  unfolding change
  delete_task i = change i (task_deleted i) (λ row. record row { status = done })

module _ {T : TableOps Task} {Params : Type 0} (J : ParamsJson Params) (cap : ℕ)
    (handler : String → Params → World T → Bool × World T) where
  -- `json.loads(row.params) if row.params else {}`
  unfoldable pub load_params : Option String → Option Params
  load_params none = some J.empty
  load_params (some s) = if str_eq s "" then some J.empty else J.loads s

  -- The first session of a run. Corrupt parameters raise, which rolls back.
  unfoldable pub open_row : ℕ → ℕ → T.Table → Option Task → Opened Params × T.Table
  unfolding load_params reset_daily_cap
  open_row i now t none = (skipped, t)
  open_row i now t (some row) =
      let row' = reset_daily_cap now row in
      elim (is_active row.status) [
        | false ↦ (skipped, t)
        | true ↦ elim (leb cap row'.runs_today) [
          | true ↦ (
            skipped,
            save T i
                (record row' {
                  next_run_at = next_run now row';
                  last_error = some (cap_reached cap);
                })
                t,
          )
          | false ↦ elim (load_params row'.params) [
            | none ↦ (corrupt, t)
            | some p ↦ (ready p, save T i row' t)
          ]
        ]
      ]

  -- `_HANDLERS[handler](params)` inside its `try`: whether it returned.
  call_handler : ℕ → String → Params → M T Bool
  call_handler i name params w = elim (is_allowed name) [
    | false ↦ (returned false, w)
    | true ↦
        let (is_ok, w') = handler name params (record w { calls = w.calls ++ (i, name) ∷ [] }) in
        (returned is_ok, w')
  ]

  -- The second session; the failure is logged before it commits. `false`: the row is gone.
  close_row : ℕ → String → Bool → Option Task → M T Bool
  unfolding finish
  close_row i name is_ok none = session (λ t. (false, t))
  close_row i name true (some row) = do
    at ← utcnow
    session (λ t. (true, save T i (finish true at row) t))
  close_row i name false (some row) = do
    at ← utcnow
    log_event (task_error i name)
    session (λ t. (true, save T i (finish false at row) t))

  close : ℕ → String → Bool → M T Bool
  unfolding close_row
  close i name is_ok w = close_row i name is_ok (T.get w.tasks i) w

  run_ready : ℕ → String → Params → M T (Option Ran)
  unfolding call_handler close
  run_ready i name params = do
    is_ok ← call_handler i name params
    found ← close i name is_ok
    pure (if found then some (if is_ok then ran_well else ran_badly) else none)

  run_opened : ℕ → String → Opened Params → M T (Option Ran)
  unfolding run_ready
  run_opened i name skipped = pure none
  run_opened i name corrupt = raise value_error
  run_opened i name (ready params) = run_ready i name params

  -- The body of the loop of `run_due`, inside its `try`.
  unfoldable pub run_task : ℕ → String → M T (Option Ran)
  unfolding run_opened open_row
  run_task i name = do
    at ← utcnow
    opened ← session (λ t. open_row i at t (T.get t i))
    run_opened i name opened

  caught : Outcome (Option Ran) → Option Ran
  caught (returned r) = r
  caught (raised e) = some crashed

  -- With its `except`: a task that raises is reported, and never stops the rest.
  unfoldable pub run_one : ℕ → String → World T → Option Ran × World T
  unfolding run_task caught
  run_one i name w = let (o, w') = run_task i name w in (caught o, w')

  abbrev reported : ℕ → Option Ran → List (ℕ × Ran) → List (ℕ × Ran)
  reported i none rest = rest
  reported i (some r) rest = (i, r) ∷ rest

  unfoldable pub run_items : List (ℕ × String) → World T → List (ℕ × Ran) × World T
  unfolding run_one
  run_items [] w = ([], w)
  run_items ((i, name) ∷ items) w =
      let (r, w1) = run_one i name w in
      let (rest, w2) = run_items items w1 in (reported i r rest, w2)
