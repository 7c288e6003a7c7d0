-- ===== src/AutonomousTasks/Worker/Status.antt =====
-- Which tasks run at all, and what a run makes of a task's status: app/brain/autonomous_tasks.py.
use tachy_cognitive_ai_agent.Common.{
  ℕ, zero, suc, ◌+◌, ◌*◌, ◌≤◌, ◌<◌, ◌≡◌, refl, ap, ◌∙◌, Bool, true, false, String, some, [], ◌∷◌,
  ◌++◌, arith,
}
use tachy_cognitive_ai_agent.Database.{TableOps, IsLawful}
use tachy_cognitive_ai_agent.Safety.World.{returned}
use tachy_cognitive_ai_agent.WallClock.{minute}
use tachy_cognitive_ai_agent.AutonomousTasks.Schedule.{
  min_interval, max_interval, clamp_interval, compute_next_run, compute_next_run_bounds,
}
use tachy_cognitive_ai_agent.Common.Int.{pos}
use tachy_cognitive_ai_agent.AutonomousTasks.{
  Task, active, is_active, is_allowed, ParamsJson, World, session, log_event, reset_daily_cap,
  finish, Registration, made,
}
use tachy_cognitive_ai_agent.AutonomousTasks.Worker.{
  load_params, open_row, call_handler, close, run_ready, run_opened, run_task, run_one, register,
  new_task,
}
use tachy_cognitive_ai_agent.AutonomousTasks.Worker.Caps.{run_many}

module _ {T : TableOps Task} {Params : Type 0} (J : ParamsJson Params) (cap : ℕ)
    (handler : String → Params → World T → Bool × World T) (i : ℕ) where
  rests :
      (name : String) (w : World T) (r : Task)
      → T.get w.tasks i ≡ some r
      → is_active r.status ≡ false
      → ((run_one J cap handler i name w).1.tasks ≡ w.tasks)
        × ((run_one J cap handler i name w).1.calls ≡ w.calls)
  unfolding run_one run_task run_opened open_row session
  rests name w r h a = (ground (arith, h, a), ground (arith, h, a))

  -- A task that is paused, deleted or in error does not run: however often it is tried, and whatever
  -- fails, no handler is called and the table stays as it is.
  pub inactive_rests :
      (n : ℕ) (name : String) (w : World T) (r : Task)
      → T.get w.tasks i ≡ some r
      → is_active r.status ≡ false
      → ((run_many J cap handler n i name w).tasks ≡ w.tasks)
        × ((run_many J cap handler n i name w).calls ≡ w.calls)
  unfolding run_many
  inactive_rests zero name w r h a = (refl, refl)
  inactive_rests (suc n) name w r h a =
      let (t, c) = rests name w r h a in
      let (t', c') =
        inactive_rests n name (run_one J cap handler i name w).1 r (ap (λ t. T.get t i) t ∙ h) a in
      (t' ∙ t, c' ∙ c)

module _ {T : TableOps Task} {Params : Type 0} where
  -- A handler that ends well, whatever it meets, while meantime the row of the task `i` becomes `r`:
  -- so it is where the guardian pauses or deletes the task during the run.
  pub record Changes (handler : String → Params → World T → Bool × World T) (i : ℕ) (r : Task)
      : Type 0 where
    pub ends : (name : String) (p : Params) (w : World T) → (handler name p w).0 ≡ true
    pub faults : (name : String) (p : Params) (w : World T) → (handler name p w).1.faults ≡ w.faults
    pub row :
        (name : String) (p : Params) (w : World T) → T.get (handler name p w).1.tasks i ≡ some r

module _ {T : TableOps Task} (L : IsLawful T) {Params : Type 0} (J : ParamsJson Params) (cap : ℕ)
    (handler : String → Params → World T → Bool × World T) (i : ℕ) where
  finished :
      (name : String) (w : World T) (r : Task)
      → w.faults ≡ []
      → T.get w.tasks i ≡ some r
      → T.get (close J cap handler i name true w).1.tasks i ≡ some (finish true w.clock r)
  unfolding close session
  finished name w r f h =
      ground (arith, L.get-update_where i (λ _. true) (λ _. finish true w.clock r) w.tasks i)

  ready_reactivates :
      (r : Task) (C : Changes handler i r) (name : String) (p : Params) (w : World T)
      → w.faults ≡ []
      → is_allowed name ≡ true
      → (row : Task) × (T.get (run_ready J cap handler i name p w).1.tasks i ≡ some row)
        × (row.status ≡ active)
  unfolding run_ready call_handler finish
  ready_reactivates r C name p w f a =
      let u = record w { calls = w.calls ++ (i, name) ∷ [] } in
      let v = (handler name p u).1 in
      let e = finished name v r (C.faults name p u ∙ f) (C.row name p u) in
      (finish true v.clock r, ground (arith, a, C.ends name p u, e), refl)

  -- A pause or a deletion that arrives while the task's handler runs is lost: on a lawful table,
  -- where no transaction fails, a run of an active task below its cap that calls its handler, and
  -- whose handler ends well, leaves the task active, whatever became of its row during the call.
  pub run_reactivates :
      (r : Task) (C : Changes handler i r) (name : String) (p : Params) (w : World T) (row : Task)
      → w.faults ≡ []
      → is_allowed name ≡ true
      → T.get w.tasks i ≡ some row
      → row.status ≡ active
      → (reset_daily_cap w.clock row).runs_today < cap
      → load_params J cap handler (reset_daily_cap w.clock row).params ≡ some p
      → (row' : Task) × (T.get (run_one J cap handler i name w).1.tasks i ≡ some row')
        × (row'.status ≡ active)
  unfolding run_one run_task run_opened open_row session
  run_reactivates r C name p w row f a h s c l =
      let u = record w {
        tasks = (open_row J cap handler i w.clock w.tasks (some row)).1;
        faults = [];
      } in
      let (row', e, t) = ready_reactivates r C name p u refl a in
      (row', ground (arith, e, f, h, s, c, l), t)

module _ {T : TableOps Task} (L : IsLawful T) {Params : Type 0} (J : ParamsJson Params) where
  -- What `register` has made is an active task in the table whose handler is in the allowlist, whose
  -- interval is between five minutes and fourteen days, and which first runs later than now and
  -- within fourteen days, whatever the caller asked for.
  pub register_lem :
      (r : Registration Params) (w : World T) (id next : ℕ)
      → (register J r w).0 ≡ returned (made id next)
      → (row : Task) × (T.get (register J r w).1.tasks id ≡ some row)
        × (is_allowed row.handler ≡ true)
        × (min_interval ≤ row.interval_minutes)
        × (row.interval_minutes ≤ max_interval)
        × (w.clock < row.next_run_at)
        × (row.next_run_at ≤ w.clock + max_interval * minute)
        × (row.status ≡ active)
  unfolding register session log_event
  register_lem r w id next h =
      let interval = clamp_interval r.interval_minutes in
      let at = compute_next_run (pos interval) r.at_time_hhmm w.clock in
      let b = compute_next_run_bounds (pos interval) r.at_time_hhmm w.clock in
      let row = new_task J r interval at in
      let g = L.get-insert row w.tasks (T.insert row w.tasks).0 in
      (
        row,
        ground (arith, g),
        ground arith,
        omega arith,
        omega arith,
        omega (arith, b),
        omega (arith, b),
        refl,
      )
