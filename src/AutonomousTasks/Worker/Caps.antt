-- ===== src/AutonomousTasks/Worker/Caps.antt =====
-- How often the handler of a recurring task is called: `run_due` of app/brain/autonomous_tasks.py.
use mathlib.Core.Path.{subst}
use tachy_cognitive_ai_agent.Common.{
  ℕ, zero, suc, ◌+◌, ◌-◌, ◌≤◌, ◌<◌, ◌≡◌, refl, ap, ◌∙◌, inl, inr, Bool, true, false, Bool-cases,
  String, Option, none, some, [], ◌∷◌, ◌++◌, leb, ◌==◌, length, length-append, arith, if◌then◌else◌,
}
use tachy_cognitive_ai_agent.Database.{TableOps, IsLawful}
use tachy_cognitive_ai_agent.WallClock.{ist_date}
use tachy_cognitive_ai_agent.AutonomousTasks.{
  Task, is_active, is_allowed, ParamsJson, World, session, log_event, Opened, skipped, corrupt,
  ready, reset_daily_cap, next_run, cap_reached, finish,
}
use tachy_cognitive_ai_agent.AutonomousTasks.Worker.{
  load_params, open_row, call_handler, close, run_ready, run_opened, run_task, run_one,
}

-- What is left of the cap on the day `d`.
abbrev pub left_today : ℕ → ℕ → Option Task → ℕ
left_today cap d none = 0
left_today cap d (some row) = elim row.run_date [
  | none ↦ cap
  | some e ↦ if e == d then cap - row.runs_today else cap
]

module _ {T : TableOps Task} {Params : Type 0} where
  -- A handler that leaves the tasks alone and ends on the day on which it began.
  pub record IsQuiet (handler : String → Params → World T → Bool × World T) : Type 0 where
    pub tasks : (name : String) (p : Params) (w : World T) → (handler name p w).1.tasks ≡ w.tasks
    pub calls : (name : String) (p : Params) (w : World T) → (handler name p w).1.calls ≡ w.calls
    pub faults : (name : String) (p : Params) (w : World T) → (handler name p w).1.faults ≡ w.faults
    pub day :
        (name : String) (p : Params) (w : World T)
        → ist_date (handler name p w).1.clock ≡ ist_date w.clock

module _ {T : TableOps Task} (L : IsLawful T) {Params : Type 0} (J : ParamsJson Params) (cap : ℕ)
    (handler : String → Params → World T → Bool × World T) where
  close_lem :
      (i : ℕ) (name : String) (is_ok : Bool) (w : World T) (row : Task)
      → w.faults ≡ []
      → T.get w.tasks i ≡ some row
      → ((close J cap handler i name is_ok w).1.faults ≡ [])
        × ((close J cap handler i name is_ok w).1.calls ≡ w.calls)
        × ((close J cap handler i name is_ok w).1.clock ≡ w.clock)
        × (T.get (close J cap handler i name is_ok w).1.tasks i ≡ some (finish is_ok w.clock row))
  unfolding close session log_event
  close_lem i name true w row f h =
      ground (arith, L.get-update_where i (λ _. true) (λ _. finish true w.clock row) w.tasks i)
  close_lem i name false w row f h =
      ground (arith, L.get-update_where i (λ _. true) (λ _. finish false w.clock row) w.tasks i)

  -- The row as the first session of a run leaves it.
  opened_row : ℕ → Task → Task
  opened_row now row =
      let row' = reset_daily_cap now row in
      elim (is_active row.status) [
        | false ↦ row
        | true ↦ elim (leb cap row'.runs_today) [
          | true ↦ record row' {
            next_run_at = next_run now row';
            last_error = some (cap_reached cap);
          }
          | false ↦ elim (load_params J cap handler row'.params) [ none ↦ row | some p ↦ row' ]
        ]
      ]

  get-open_row :
      (i now : ℕ) (t : T.Table) (row : Task)
      → T.get t i ≡ some row
      → T.get (open_row J cap handler i now t (some row)).1 i ≡ some (opened_row now row)
  unfolding open_row opened_row
  get-open_row i now t row h =
      ground (arith, L.get-update_where i (λ _. true) (λ _. opened_row now row) t i)

  left-opened_row :
      (now : ℕ) (row : Task)
      → left_today cap (ist_date now) (some (opened_row now row))
        ≡ left_today cap (ist_date now) (some row)
  unfolding opened_row reset_daily_cap
  left-opened_row now row = ground arith

  ready_lem :
      (i now : ℕ) (t : T.Table) (row : Task) (p : Params)
      → (open_row J cap handler i now t (some row)).0 ≡ ready p
      → ((opened_row now row).run_date ≡ some (ist_date now))
        × ((opened_row now row).runs_today < cap)
  unfolding open_row opened_row reset_daily_cap
  ready_lem i now t row p h = ground arith

left-finish :
    (cap d now : ℕ) (is_ok : Bool) (r : Task)
    → r.run_date ≡ some d
    → r.runs_today < cap
    → left_today cap d (some (finish is_ok now r)) + 1 ≡ left_today cap d (some r)
unfolding finish
left-finish cap d now true r h l = ground arith
left-finish cap d now false r h l = ground arith

module _ {T : TableOps Task} (cap i d : ℕ) where
  -- From the world `w` to the world `v` the calls and what is left of the cap have not grown together.
  record Spends (w v : World T) (r : Task) : Type 0 where
    faults : v.faults ≡ []
    day : ist_date v.clock ≡ ist_date w.clock
    row : Task
    at : T.get v.tasks i ≡ some row
    spent :
        length v.calls + left_today cap d (some row) ≤ length w.calls + left_today cap d (some r)

module _ {T : TableOps Task} (L : IsLawful T) {Params : Type 0} (J : ParamsJson Params) (cap : ℕ)
    (handler : String → Params → World T → Bool × World T) (Q : IsQuiet handler) (i d : ℕ) where
  Spends-run_ready :
      (name : String) (p : Params) (w : World T) (r : Task)
      → w.faults ≡ []
      → T.get w.tasks i ≡ some r
      → r.run_date ≡ some d
      → r.runs_today < cap
      → Spends cap i d w (run_ready J cap handler i name p w).1 r
  unfolding run_ready call_handler
  Spends-run_ready name p w r f h e l = elim (Bool-cases (is_allowed name)) [
    | inl y ↦
        let u = record w { calls = w.calls ++ (i, name) ∷ [] } in
        let (is_ok, v) = handler name p u in
        let c =
          close_lem L J cap handler i name is_ok v r (Q.faults name p u ∙ f)
            (ap (λ t. T.get t i) (Q.tasks name p u) ∙ h) in
        record {
          faults = ground (arith, y, c);
          day = ground (arith, y, c, Q.day name p u);
          row = finish is_ok v.clock r;
          at = ground (arith, y, c);
          spent = ground (
            arith,
            y,
            c,
            Q.calls name p u,
            length-append w.calls ((i, name) ∷ []),
            left-finish cap d v.clock is_ok r,
          );
        }
    | inr n ↦
        let c = close_lem L J cap handler i name false w r f h in
        record {
          faults = ground (arith, n, c);
          day = ground (arith, n, c);
          row = finish false w.clock r;
          at = ground (arith, n, c);
          spent = ground (arith, n, c, left-finish cap d w.clock false r);
        }
  ]

  Spends-run_opened :
      (name : String) (o : Opened Params) (w : World T) (r : Task)
      → w.faults ≡ []
      → T.get w.tasks i ≡ some r
      → ((p : Params) → o ≡ ready p → (r.run_date ≡ some d) × (r.runs_today < cap))
      → Spends cap i d w (run_opened J cap handler i name o w).1 r
  unfolding run_opened
  Spends-run_opened name skipped w r f h l = record {
    faults = f;
    day = refl;
    row = r;
    at = h;
    spent = omega arith;
  }
  Spends-run_opened name corrupt w r f h l = record {
    faults = f;
    day = refl;
    row = r;
    at = h;
    spent = omega arith;
  }
  Spends-run_opened name (ready p) w r f h l =
      Spends-run_ready name p w r f h (l p refl).0 (l p refl).1

  opened_world : World T → Task → World T
  opened_world w r = record w {
    tasks = (open_row J cap handler i w.clock w.tasks (some r)).1;
    faults = [];
  }

  run_one-opened :
      (name : String) (w : World T) (r : Task)
      → w.faults ≡ []
      → T.get w.tasks i ≡ some r
      → (run_one J cap handler i name w).1
        ≡ (run_opened J cap handler i name
            (open_row J cap handler i w.clock w.tasks (some r)).0
            (opened_world w r)).1
  unfolding run_one run_task session opened_world
  run_one-opened name w r f h = ground (arith, f, h)

  Spends-run_one :
      (name : String) (w : World T) (r : Task)
      → w.faults ≡ []
      → ist_date w.clock ≡ d
      → T.get w.tasks i ≡ some r
      → Spends cap i d w (run_one J cap handler i name w).1 r
  unfolding opened_world
  Spends-run_one name w r f e h =
      let o = (open_row J cap handler i w.clock w.tasks (some r)).0 in
      let r' = opened_row L J cap handler w.clock r in
      let s =
        Spends-run_opened name o (opened_world w r) r' refl
          (get-open_row L J cap handler i w.clock w.tasks r h)
          (λ p q.
            let (x, y) = ready_lem L J cap handler i w.clock w.tasks r p q in (x ∙ ap some e, y)) in
      let same : left_today cap d (some r') ≡ left_today cap d (some r) =
        subst (λ k. left_today cap k (some r') ≡ left_today cap k (some r)) e
          (left-opened_row L J cap handler w.clock r) in
      rw (run_one-opened name w r f h) (record {
        faults = s.faults;
        day = s.day;
        row = s.row;
        at = s.at;
        spent = omega (arith, s.spent, same);
      })

module _ {T : TableOps Task} {Params : Type 0} (J : ParamsJson Params) (cap : ℕ)
    (handler : String → Params → World T → Bool × World T) where
  -- The task `i` run time and again, as ticks and listings in whatever order may do.
  unfoldable pub run_many : ℕ → ℕ → String → World T → World T
  unfolding run_one
  run_many zero i name w = w
  run_many (suc n) i name w = run_many n i name (run_one J cap handler i name w).1

left-le-cap : (cap d : ℕ) (row : Task) → left_today cap d (some row) ≤ cap
left-le-cap cap d row = ground arith

module _ {T : TableOps Task} (L : IsLawful T) {Params : Type 0} (J : ParamsJson Params) (cap : ℕ)
    (handler : String → Params → World T → Bool × World T) (Q : IsQuiet handler) (i : ℕ) where
  run_many-left :
      (n : ℕ) (name : String) (w : World T) (d : ℕ) (r : Task)
      → w.faults ≡ []
      → ist_date w.clock ≡ d
      → T.get w.tasks i ≡ some r
      → length (run_many J cap handler n i name w).calls
        ≤ length w.calls + left_today cap d (some r)
  unfolding run_many
  run_many-left zero name w d r f e h = omega arith
  run_many-left (suc n) name w d r f e h =
      let s = Spends-run_one L J cap handler Q i d name w r f e h in
      let v = (run_one J cap handler i name w).1 in
      omega (arith, s.spent, run_many-left n name v d s.row s.faults (s.day ∙ e) s.at)

  -- The daily cap: on a lawful table, where no transaction fails and the handlers leave the tasks
  -- alone and end on the day on which they began, a task that is run however often within a day of
  -- the guardian's calendar has its handler called at most `cap` times.
  pub daily_cap :
      (n : ℕ) (name : String) (w : World T) (r : Task)
      → w.faults ≡ []
      → T.get w.tasks i ≡ some r
      → length (run_many J cap handler n i name w).calls ≤ length w.calls + cap
  daily_cap n name w r f h = omega (
    arith,
    run_many-left n name w (ist_date w.clock) r f refl h,
    left-le-cap cap (ist_date w.clock) r,
  )
