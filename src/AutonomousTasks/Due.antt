-- ===== src/AutonomousTasks/Due.antt =====
-- Which tasks are due, and the worker's tick: `list_due` and `run_due` of
-- app/brain/autonomous_tasks.py.
use tachy_cognitive_ai_agent.Common.{
  ℕ, zero, suc, ◌≤◌, ◌≡◌, Bool, true, false, ◌&&◌, String, List, [], ◌∷◌, leb, take, All, length,
  length-take, arith, if◌then◌else◌,
}
use tachy_cognitive_ai_agent.Database.{TableOps}
use tachy_cognitive_ai_agent.Safety.World.{returned}
use tachy_cognitive_ai_agent.AutonomousTasks.{
  Task, active, is_active, ParamsJson, World, M, ◌>>=◌, pure, utcnow, session, Ran,
}
use tachy_cognitive_ai_agent.AutonomousTasks.Worker.{run_items}

abbrev pub is_due : ℕ → Task → Bool
is_due now row = is_active row.status && leb row.next_run_at now

unfoldable pub due_rows : ℕ → List (ℕ × Task) → List (ℕ × Task)
due_rows now [] = []
due_rows now ((i, row) ∷ rest) =
    let others = due_rows now rest in if is_due now row then (i, row) ∷ others else others

unfoldable pub insert_by_time : ℕ × Task → List (ℕ × Task) → List (ℕ × Task)
insert_by_time x [] = x ∷ []
insert_by_time x (y ∷ ys) =
    let later = insert_by_time x ys in
    if leb x.1.next_run_at y.1.next_run_at then x ∷ y ∷ ys else y ∷ later

-- `ORDER BY next_run_at`
unfoldable pub by_time : List (ℕ × Task) → List (ℕ × Task)
unfolding insert_by_time
by_time [] = []
by_time (x ∷ xs) = insert_by_time x (by_time xs)

-- The query of `list_due`, on the rows of the table.
unfoldable pub list_due : ℕ → ℕ → List (ℕ × Task) → List (ℕ × Task)
unfolding due_rows by_time
list_due now limit rows = take limit (by_time (due_rows now rows))

abbrev item : ℕ × Task → ℕ × String
item (i, row) = (i, row.handler)

unfoldable pub items : List (ℕ × Task) → List (ℕ × String)
items [] = []
items (x ∷ xs) = item x ∷ items xs

-- `rows` reads all rows of the table.
module _ {T : TableOps Task} (rows : T.Table → List (ℕ × Task)) {Params : Type 0}
    (J : ParamsJson Params) (handler : String → Params → World T → Bool × World T) where
  abbrev fire : ℕ → List (ℕ × Task) → M T (List (ℕ × Ran))
  fire cap due w = let (ran, w') = run_items J cap handler (items due) w in (returned ran, w')

  -- `run_due`; the session of `list_due` is outside every `try`.
  unfoldable pub run_due : Bool → ℕ → ℕ → M T (List (ℕ × Ran))
  unfolding list_due items run_items
  run_due enabled cap limit = elim enabled [
    | false ↦ pure []
    | true ↦ (do at ← utcnow; due ← session (λ t. (list_due at limit (rows t), t)); fire cap due)
  ]

abbrev pub IsDue : ℕ → ℕ × Task → Type 0
IsDue now x = (x.1.status ≡ active) × (x.1.next_run_at ≤ now)

abbrev pub FirstIsLeast : ℕ × Task → List (ℕ × Task) → Type 0
FirstIsLeast x [] = Unit
FirstIsLeast x (y ∷ ys) = x.1.next_run_at ≤ y.1.next_run_at

-- Each row stands before those whose time is later.
abbrev pub IsSorted : List (ℕ × Task) → Type 0
IsSorted [] = Unit
IsSorted (x ∷ xs) = FirstIsLeast x xs × IsSorted xs

All-due_rows : (now : ℕ) (rows : List (ℕ × Task)) → All (IsDue now) (due_rows now rows)
unfolding due_rows
All-due_rows now [] = tt
All-due_rows now ((i, row) ∷ rest) = ground (arith, All-due_rows now rest)

All-insert_by_time :
    (now : ℕ) (x : ℕ × Task) (ys : List (ℕ × Task))
    → IsDue now x
    → All (IsDue now) ys
    → All (IsDue now) (insert_by_time x ys)
unfolding insert_by_time
All-insert_by_time now x [] d a = ground arith
All-insert_by_time now x (y ∷ ys) d (e, a) = ground (arith, All-insert_by_time now x ys d a)

All-by_time : (now : ℕ) (xs : List (ℕ × Task)) → All (IsDue now) xs → All (IsDue now) (by_time xs)
unfolding by_time
All-by_time now [] a = tt
All-by_time now (x ∷ xs) (d, a) = All-insert_by_time now x (by_time xs) d (All-by_time now xs a)

All-take :
    (now limit : ℕ) (xs : List (ℕ × Task)) → All (IsDue now) xs → All (IsDue now) (take limit xs)
All-take now zero xs a = tt
All-take now (suc n) [] a = tt
All-take now (suc n) (x ∷ xs) (d, a) = (d, All-take now n xs a)

insert_by_time-head :
    (y x : ℕ × Task) (ys : List (ℕ × Task))
    → y.1.next_run_at ≤ x.1.next_run_at
    → FirstIsLeast y ys
    → FirstIsLeast y (insert_by_time x ys)
unfolding insert_by_time
insert_by_time-head y x [] l f = l
insert_by_time-head y x (z ∷ zs) l f = ground arith

insert_by_time-IsSorted :
    (x : ℕ × Task) (ys : List (ℕ × Task)) → IsSorted ys → IsSorted (insert_by_time x ys)
unfolding insert_by_time
insert_by_time-IsSorted x [] s = ground arith
insert_by_time-IsSorted x (y ∷ ys) (f, s) =
    ground (arith, insert_by_time-IsSorted x ys s, insert_by_time-head y x ys)

by_time-IsSorted : (xs : List (ℕ × Task)) → IsSorted (by_time xs)
unfolding by_time
by_time-IsSorted [] = tt
by_time-IsSorted (x ∷ xs) = insert_by_time-IsSorted x (by_time xs) (by_time-IsSorted xs)

take-head :
    (x : ℕ × Task) (n : ℕ) (xs : List (ℕ × Task)) → FirstIsLeast x xs → FirstIsLeast x (take n xs)
take-head x zero xs f = tt
take-head x (suc n) [] f = tt
take-head x (suc n) (y ∷ ys) f = f

take-IsSorted : (n : ℕ) (xs : List (ℕ × Task)) → IsSorted xs → IsSorted (take n xs)
take-IsSorted zero xs s = tt
take-IsSorted (suc n) [] s = tt
take-IsSorted (suc n) (x ∷ xs) (f, s) = (take-head x n xs f, take-IsSorted n xs s)

-- What the tick is to run: only active tasks whose time has come, the earliest first, and no more
-- than the limit.
pub list_due_lem :
    (now limit : ℕ) (rows : List (ℕ × Task))
    → All (IsDue now) (list_due now limit rows)
      × IsSorted (list_due now limit rows)
      × (length (list_due now limit rows) ≤ limit)
unfolding list_due
list_due_lem now limit rows = (
  All-take now limit _ (All-by_time now _ (All-due_rows now rows)),
  take-IsSorted limit _ (by_time-IsSorted (due_rows now rows)),
  omega (arith, length-take limit (by_time (due_rows now rows))),
)
