-- ===== src/ModuleRegistry/Safe.antt =====
-- What stays true of every row of the registry of app/brain/module_registry.py.
use tachy_cognitive_ai_agent.Common.{
  ℕ, ◌≡◌, refl, Bool, true, false, Option, none, some, List, [], ◌∷◌, ◌++◌, arith, All, Bool-cases,
  not, ◌&&◌, Option-cases, inl, inr,
}
use tachy_cognitive_ai_agent.Common.Text.{text_eq, text_eq→eq, one_of, lower, text_eq_refl}
use tachy_cognitive_ai_agent.Capabilities.{
  Verdict, authority_modules, validate_capabilities, is_valid, raised_levels,
}
use tachy_cognitive_ai_agent.Capabilities.Limits.{IsBounded, validate_capabilities-Granted}
use tachy_cognitive_ai_agent.ModuleLifecycle.{Stage}
use tachy_cognitive_ai_agent.ModuleRegistry.{
  SelfModule, Tables, World, Outcome, returned, raised, commit, session, stage_of,
  validate_module_identity,
}
use tachy_cognitive_ai_agent.ModuleRegistry.Operations.{
  Proposal, find, update_first, request_of, new_module, store_module, register_checked,
  register_identified, register_module, change_status, update_module_status, activate,
  set_active_version, Op, register, has_fallback, set_status, set_version, run_op, run_ops,
}

module _ (P : Tables → Type 0) where
  pub commit_keeps :
      {A : Type 0} (w : World) (r : Outcome A × Tables)
      → P r.1
      → P w.tables
      → P (commit w r).1.tables
  commit_keeps w (returned a, t) h k = h
  commit_keeps w (raised e, t) h k = k

  session_from :
      {A : Type 0} (f : Tables → Outcome A × Tables) (t : Tables) (fs : List Bool)
      → (P t → P (f t).1)
      → P t
      → P (session f (record { tables = t; faults = fs })).1.tables
  unfolding session
  session_from f t [] h k = commit_keeps (record { tables = t; faults = [] }) (f t) (h k) k
  session_from f t (true ∷ fs) h k = k
  session_from f t (false ∷ fs) h k =
      commit_keeps (record { tables = t; faults = fs }) (f t) (h k) k

  -- A transaction keeps what its body keeps, whether it commits or not.
  pub session_keeps :
      {A : Type 0} (f : Tables → Outcome A × Tables) (w : World)
      → (P w.tables → P (f w.tables).1)
      → P w.tables
      → P (session f w).1.tables
  unfolding session
  session_keeps f w h k = session_from f w.tables w.faults h k

-- A child module's actions are bounded, and it is none of the authority modules.
abbrev pub IsSafe : SelfModule → Type 0
IsSafe m =
    IsBounded m.allowed_actions m.blocked_actions × (one_of authority_modules m.module_key ≡ false)

-- No two rows have one key.
abbrev pub HasUniqueKeys : List SelfModule → Type 0
HasUniqueKeys [] = Unit
HasUniqueKeys (m ∷ ms) = (find m.module_key ms ≡ none) × HasUniqueKeys ms

abbrev pub IsSound : Tables → Type 0
IsSound t = All IsSafe t.modules × HasUniqueKeys t.modules

IsSafe-add_last :
    (ms : List SelfModule) (m : SelfModule) → All IsSafe ms → IsSafe m → All IsSafe (ms ++ m ∷ [])
IsSafe-add_last [] m h k = (k, tt)
IsSafe-add_last (n ∷ ms) m h k = (h.0, IsSafe-add_last ms m h.1 k)

text_eq_sym : (s t : List ℕ) → text_eq s t ≡ false → text_eq t s ≡ false
text_eq_sym s t h = elim (Bool-cases (text_eq t s)) [
  | inl e ↦ absurd (cc (h, text_eq→eq t s e, text_eq_refl s))
  | inr e ↦ e
]

find-add_last :
    (k : List ℕ) (ms : List SelfModule) (m : SelfModule)
    → find k ms ≡ none
    → text_eq m.module_key k ≡ false
    → find k (ms ++ m ∷ []) ≡ none
unfolding find
find-add_last k [] m h d = rw d
find-add_last k (n ∷ ms) m h d = ground (arith, h, d, find-add_last k ms m)

HasUniqueKeys-add_last :
    (ms : List SelfModule) (m : SelfModule)
    → HasUniqueKeys ms
    → find m.module_key ms ≡ none
    → HasUniqueKeys (ms ++ m ∷ [])
unfolding find
HasUniqueKeys-add_last [] m u h = (refl, tt)
HasUniqueKeys-add_last (n ∷ ms) m u h = elim (Bool-cases (text_eq n.module_key m.module_key)) [
  | inl e ↦ absurd (cc (rw (e, find) at h))
  | inr e ↦ (
    find-add_last n.module_key ms m u.0 (text_eq_sym n.module_key m.module_key e),
    HasUniqueKeys-add_last ms m u.1 (rw (e, find) at h),
  )
]

-- A rewriting of a row that leaves its key and its actions alone.
pub record IsMild (f : SelfModule → SelfModule) : Type 0 where
  pub key : (m : SelfModule) → (f m).module_key ≡ m.module_key
  pub allowed : (m : SelfModule) → (f m).allowed_actions ≡ m.allowed_actions
  pub blocked : (m : SelfModule) → (f m).blocked_actions ≡ m.blocked_actions

module _ (key : List ℕ) (f : SelfModule → SelfModule) (mild : IsMild f) where
  IsSafe-mild : (m : SelfModule) → IsSafe m → IsSafe (f m)
  IsSafe-mild m h = rw (mild.allowed m, mild.blocked m, mild.key m) h

  IsSafe-update_first : (ms : List SelfModule) → All IsSafe ms → All IsSafe (update_first key f ms)
  unfolding update_first
  IsSafe-update_first [] h = tt
  IsSafe-update_first (m ∷ ms) h = elim (Bool-cases (text_eq m.module_key key)) [
    | inl e ↦ rw e (IsSafe-mild m h.0, h.1)
    | inr e ↦ rw e (h.0, IsSafe-update_first ms h.1)
  ]

  find-update_first :
      (k : List ℕ) (ms : List SelfModule) → find k ms ≡ none → find k (update_first key f ms) ≡ none
  unfolding find update_first
  find-update_first k [] h = refl
  find-update_first k (m ∷ ms) h = ground (arith, h, mild.key m, find-update_first k ms)

  HasUniqueKeys-update_first :
      (ms : List SelfModule) → HasUniqueKeys ms → HasUniqueKeys (update_first key f ms)
  unfolding update_first
  HasUniqueKeys-update_first [] u = tt
  HasUniqueKeys-update_first (m ∷ ms) u = elim (Bool-cases (text_eq m.module_key key)) [
    | inl e ↦ rw e (rw (mild.key m) u.0, u.1)
    | inr e ↦ rw e (find-update_first m.module_key ms u.0, HasUniqueKeys-update_first ms u.1)
  ]

set_status-IsMild : (stage : Stage) → IsMild (λ r. record r { status = stage })
set_status-IsMild stage = record { key = λ m. refl; allowed = λ m. refl; blocked = λ m. refl }

set_version-IsMild :
    (version : Option (List ℕ)) (stage : Stage)
    → IsMild (λ r. record r { active_version = version; status = stage })
set_version-IsMild version stage = record {
  key = λ m. refl;
  allowed = λ m. refl;
  blocked = λ m. refl;
}

change_status-IsSound :
    (key : List ℕ) (stage : Stage) (reason : List ℕ) (by : Option (List ℕ)) (o : Option SelfModule)
    (t : Tables)
    → IsSound t
    → IsSound (change_status key stage reason by o t).1
unfolding change_status
change_status-IsSound key stage reason by none t h = h
change_status-IsSound key stage reason by (some m) t h =
    let f = λ (r : SelfModule). record r { status = stage } in
    (
      IsSafe-update_first key f (set_status-IsMild stage) t.modules h.0,
      HasUniqueKeys-update_first key f (set_status-IsMild stage) t.modules h.1,
    )

activate-IsSound :
    (key version by : List ℕ) (o : Option SelfModule) (t : Tables)
    → IsSound t
    → IsSound (activate key version by o t).1
unfolding activate
activate-IsSound key version by none t h = h
activate-IsSound key version by (some m) t h =
    let f = λ (r : SelfModule). record r { active_version = some version; status = Stage.active } in
    (
      IsSafe-update_first key f (set_version-IsMild (some version) Stage.active) t.modules h.0,
      HasUniqueKeys-update_first key f (set_version-IsMild (some version) Stage.active) t.modules
          h.1,
    )

store_module-IsSound :
    (p : Proposal) (by : List ℕ) (v : Verdict) (o : Option SelfModule) (t : Tables)
    → find (lower p.module_key) t.modules ≡ o
    → IsSafe (new_module p by v)
    → IsSound t
    → IsSound (store_module p by v o t).1
unfolding store_module
store_module-IsSound p by v (some m) t e s h = h
store_module-IsSound p by v none t e s h = (
  IsSafe-add_last t.modules (new_module p by v) h.0 s,
  HasUniqueKeys-add_last t.modules (new_module p by v) h.1 e,
)

register_checked-IsSound :
    (p : Proposal) (by : List ℕ) (v : Verdict) (w : World)
    → IsSafe (new_module p by v)
    → IsSound w.tables
    → IsSound (register_checked p by v w).1.tables
unfolding register_checked
register_checked-IsSound p by v w s h =
    elim (Bool-cases
      (one_of raised_levels p.risk_level && not (has_fallback p.fallback_module_key))) [
        | inl e ↦ rw e h
        | inr e ↦ rw e (
            session_keeps IsSound (λ t. store_module p by v (find (lower p.module_key) t.modules) t)
              w (store_module-IsSound p by v _ w.tables refl s) h)
      ]

register_identified-IsSound :
    (p : Proposal) (by : List ℕ) (b : Bool) (w : World)
    → is_valid (validate_capabilities (request_of p)) ≡ b
    → IsSound w.tables
    → IsSound (register_identified p by (validate_capabilities (request_of p)) b w).1.tables
unfolding register_identified
register_identified-IsSound p by false w e h = h
register_identified-IsSound p by true w e h =
    let g = validate_capabilities-Granted (request_of p) e in
    register_checked-IsSound p by (validate_capabilities (request_of p)) w
      (g.bounded, g.no_authority) h

register_module-IsSound :
    (p : Proposal) (by : List ℕ) (w : World)
    → IsSound w.tables
    → IsSound (register_module p by w).1.tables
unfolding register_module
register_module-IsSound p by w h =
    elim (Option-cases (validate_module_identity (lower p.module_key) p.module_type)) [
      | inl e ↦
          rw (e, register_module)
            (register_identified-IsSound p by (is_valid (validate_capabilities (request_of p))) w
              refl h)
      | inr (x, e) ↦ rw (e, register_module) h
    ]

update_module_status-IsSound :
    (key status reason : List ℕ) (by : Option (List ℕ)) (w : World)
    → IsSound w.tables
    → IsSound (update_module_status key status reason by w).1.tables
unfolding update_module_status
update_module_status-IsSound key status reason by w h = elim (Option-cases (stage_of status)) [
  | inl e ↦ rw (e, update_module_status) h
  | inr (stage, e) ↦
      rw (e, update_module_status)
        (session_keeps IsSound (λ t. change_status key stage reason by (find key t.modules) t) w
          (change_status-IsSound key stage reason by (find key w.tables.modules) w.tables) h)
]

set_active_version-IsSound :
    (key version by : List ℕ) (w : World)
    → IsSound w.tables
    → IsSound (set_active_version key version by w).1.tables
unfolding set_active_version
set_active_version-IsSound key version [] w h = h
set_active_version-IsSound key version (c ∷ by) w h =
    session_keeps IsSound (λ t. activate key version (c ∷ by) (find key t.modules) t) w
      (activate-IsSound key version (c ∷ by) (find key w.tables.modules) w.tables) h

run_op-IsSound : (op : Op) (w : World) → IsSound w.tables → IsSound (run_op op w).tables
unfolding run_op
run_op-IsSound (register p by) w h = register_module-IsSound p by w h
run_op-IsSound (set_status key status reason by) w h =
    update_module_status-IsSound key status reason by w h
run_op-IsSound (set_version key version by) w h = set_active_version-IsSound key version by w h

-- Whatever is asked of the registry, in whatever order and whatever transactions fail: if it was so
-- before, every module in it holds only bounded actions with all forbidden ones blocked, none is an
-- authority module, and no two have one key.
pub run_ops-IsSound :
    (ops : List Op) (w : World) → IsSound w.tables → IsSound (run_ops ops w).tables
unfolding run_ops
run_ops-IsSound [] w h = h
run_ops-IsSound (op ∷ ops) w h = run_ops-IsSound ops (run_op op w) (run_op-IsSound op w h)
