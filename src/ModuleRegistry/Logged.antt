-- ===== src/ModuleRegistry/Logged.antt =====
-- The control log of app/brain/module_registry.py as the history of every module's status.
use mathlib.Core.Path.{subst}
use tachy_cognitive_ai_agent.Common.{
  ℕ, ◌≡◌, refl, sym, ◌∙◌, Bool, true, false, not, ◌&&◌, Option, none, some, List, [], ◌∷◌, ◌++◌,
  arith, Bool-cases, Option-cases, inl, inr, if◌then◌else◌,
}
use tachy_cognitive_ai_agent.Common.Text.{text_eq, text_eq→eq, one_of, lower, text_eq_refl}
use tachy_cognitive_ai_agent.Capabilities.{Verdict, validate_capabilities, is_valid, raised_levels}
use tachy_cognitive_ai_agent.ModuleLifecycle.{Stage, active}
use tachy_cognitive_ai_agent.ModuleRegistry.{
  SelfModule, ControlLog, Tables, Outcome, raised, bad_status, session, World, stage_of,
  validate_module_identity,
}
use tachy_cognitive_ai_agent.ModuleRegistry.Operations.{
  Proposal, find, update_first, request_of, new_module, new_log, store_module, register_checked,
  register_identified, register_module, change_status, update_module_status, activate,
  set_active_version, Op, register, has_fallback, set_status, set_version, run_op, run_ops,
}
use tachy_cognitive_ai_agent.ModuleRegistry.Safe.{session_keeps}

abbrev pub status_of : List ℕ → List SelfModule → Option Stage
status_of key ms = elim (find key ms) [ none ↦ none | some m ↦ some m.status ]

-- The new status in the last entry under a key.
unfoldable pub last_status : List ℕ → List ControlLog → Option Stage
last_status key [] = none
last_status key (l ∷ ls) = elim (last_status key ls) [
  | some s ↦ some s
  | none ↦ if text_eq l.module_key key then some l.new_status else none
]

abbrev pub IsLogged : Tables → Type 0
IsLogged t = (key : List ℕ) → status_of key t.modules ≡ last_status key t.logs

last_status-add_last :
    (key : List ℕ) (ls : List ControlLog) (l : ControlLog)
    → last_status key (ls ++ l ∷ [])
      ≡ (if text_eq l.module_key key then some l.new_status else last_status key ls)
unfolding last_status
last_status-add_last key [] l = refl
last_status-add_last key (k ∷ ls) l = ground (arith, last_status-add_last key ls l)

status_of-add_last :
    (key : List ℕ) (ms : List SelfModule) (m : SelfModule)
    → find m.module_key ms ≡ none
    → status_of key (ms ++ m ∷ [])
      ≡ (if text_eq m.module_key key then some m.status else status_of key ms)
unfolding find
status_of-add_last key [] m h = ground arith
status_of-add_last key (n ∷ ms) m h = elim (Bool-cases (text_eq n.module_key key)) [
  | inr e ↦ ground (arith, e, h, status_of-add_last key ms m)
  | inl e ↦ elim (Bool-cases (text_eq m.module_key key)) [
    | inr d ↦ ground (arith, e, d)
    | inl d ↦
        let same = text_eq→eq n.module_key key e ∙ sym (text_eq→eq m.module_key key d) in
        ground (arith, h, same, text_eq_refl m.module_key)
  ]
]

module _ (key : List ℕ) (f : SelfModule → SelfModule) (s : Stage)
    (keeps : (m : SelfModule) → (f m).module_key ≡ m.module_key)
    (sets : (m : SelfModule) → (f m).status ≡ s) where
  status_of-update_same :
      (ms : List SelfModule) (m : SelfModule)
      → find key ms ≡ some m
      → status_of key (update_first key f ms) ≡ some s
  unfolding find update_first
  status_of-update_same [] m h = cc
  status_of-update_same (n ∷ ms) m h = elim (Bool-cases (text_eq n.module_key key)) [
    | inl e ↦ ground (arith, e, keeps n, sets n)
    | inr e ↦ ground (arith, e, h, status_of-update_same ms m)
  ]

  status_of-update_other :
      (k : List ℕ) (ms : List SelfModule)
      → text_eq key k ≡ false
      → status_of k (update_first key f ms) ≡ status_of k ms
  unfolding find update_first
  status_of-update_other k [] d = refl
  status_of-update_other k (n ∷ ms) d = elim (Bool-cases (text_eq n.module_key key)) [
    | inl e ↦ ground (arith, e, keeps n, text_eq→eq n.module_key key e, d)
    | inr e ↦ ground (arith, e, status_of-update_other k ms d)
  ]

IsLogged-change :
    (key : List ℕ) (f : SelfModule → SelfModule) (s : Stage) (m : SelfModule) (l : ControlLog)
    (t : Tables)
    → ((r : SelfModule) → (f r).module_key ≡ r.module_key)
    → ((r : SelfModule) → (f r).status ≡ s)
    → find key t.modules ≡ some m
    → (l.module_key ≡ key) × (l.new_status ≡ s)
    → IsLogged t
    → (k : List ℕ) → status_of k (update_first key f t.modules) ≡ last_status k (t.logs ++ l ∷ [])
IsLogged-change key f s m l t keeps sets found (lk, ls) h k = elim (Bool-cases (text_eq key k)) [
  | inl e ↦
      let u = status_of-update_same key f s keeps sets t.modules m found in
      ground (arith, e, u, text_eq→eq key k e, lk, ls, last_status-add_last k t.logs l)
  | inr e ↦
      let u = status_of-update_other key f s keeps sets k t.modules e in
      ground (arith, e, u, lk, h k, last_status-add_last k t.logs l)
]

change_status-IsLogged :
    (key : List ℕ) (stage : Stage) (reason : List ℕ) (by : Option (List ℕ)) (o : Option SelfModule)
    (t : Tables)
    → find key t.modules ≡ o
    → IsLogged t
    → IsLogged (change_status key stage reason by o t).1
unfolding change_status
change_status-IsLogged key stage reason by none t e h = h
change_status-IsLogged key stage reason by (some m) t e h =
    IsLogged-change key (λ r. record r { status = stage }) stage m _ t (λ r. refl) (λ r. refl) e
      (refl, refl) h

activate-IsLogged :
    (key version by : List ℕ) (o : Option SelfModule) (t : Tables)
    → find key t.modules ≡ o
    → IsLogged t
    → IsLogged (activate key version by o t).1
unfolding activate
activate-IsLogged key version by none t e h = h
activate-IsLogged key version by (some m) t e h =
    IsLogged-change key (λ r. record r { active_version = some version; status = active }) active m
      _ t (λ r. refl) (λ r. refl) e (refl, refl) h

store_module-IsLogged :
    (p : Proposal) (by : List ℕ) (v : Verdict) (o : Option SelfModule) (t : Tables)
    → find (lower p.module_key) t.modules ≡ o
    → IsLogged t
    → IsLogged (store_module p by v o t).1
unfolding store_module
store_module-IsLogged p by v (some m) t e h = h
store_module-IsLogged p by v none t e h = λ k.
    status_of-add_last k t.modules (new_module p by v) e
    ∙ (rw (h k) (sym (last_status-add_last k t.logs (new_log p by))))

register_checked-IsLogged :
    (p : Proposal) (by : List ℕ) (v : Verdict) (w : World)
    → IsLogged w.tables
    → IsLogged (register_checked p by v w).1.tables
unfolding register_checked
register_checked-IsLogged p by v w h =
    elim (Bool-cases
      (one_of raised_levels p.risk_level && not (has_fallback p.fallback_module_key))) [
        | inl e ↦ rw e h
        | inr e ↦ rw e (
            session_keeps IsLogged
              (λ t. store_module p by v (find (lower p.module_key) t.modules) t) w
              (store_module-IsLogged p by v (find (lower p.module_key) w.tables.modules) w.tables
                refl)
              h)
      ]

register_identified-IsLogged :
    (p : Proposal) (by : List ℕ) (v : Verdict) (b : Bool) (w : World)
    → IsLogged w.tables
    → IsLogged (register_identified p by v b w).1.tables
unfolding register_identified
register_identified-IsLogged p by v false w h = h
register_identified-IsLogged p by v true w h = register_checked-IsLogged p by v w h

register_module-IsLogged :
    (p : Proposal) (by : List ℕ) (w : World)
    → IsLogged w.tables
    → IsLogged (register_module p by w).1.tables
unfolding register_module
register_module-IsLogged p by w h =
    elim (Option-cases (validate_module_identity (lower p.module_key) p.module_type)) [
      | inl e ↦
          let v = validate_capabilities (request_of p) in
          let k : register_module p by w ≡ register_identified p by v (is_valid v) w =
            rw (e, register_module) in
          subst (λ (r : Outcome (Unit {0}) × World). IsLogged r.1.tables) (sym k)
            (register_identified-IsLogged p by v (is_valid v) w h)
      | inr (x, e) ↦
          let k : register_module p by w ≡ (raised x, w) = rw (e, register_module) in
          subst (λ (r : Outcome (Unit {0}) × World). IsLogged r.1.tables) (sym k) h
    ]

update_module_status-IsLogged :
    (key status reason : List ℕ) (by : Option (List ℕ)) (w : World)
    → IsLogged w.tables
    → IsLogged (update_module_status key status reason by w).1.tables
unfolding update_module_status
update_module_status-IsLogged key status reason by w h = elim (Option-cases (stage_of status)) [
  | inl e ↦
      let k : update_module_status key status reason by w ≡ (raised bad_status, w) =
        rw (e, update_module_status) in
      subst (λ (r : Outcome (Unit {0}) × World). IsLogged r.1.tables) (sym k) h
  | inr (stage, e) ↦
      let body = λ (t : Tables). change_status key stage reason by (find key t.modules) t in
      let k : update_module_status key status reason by w ≡ session body w =
        rw (e, update_module_status) in
      subst (λ (r : Outcome (Unit {0}) × World). IsLogged r.1.tables) (sym k)
        (session_keeps IsLogged body w
          (change_status-IsLogged key stage reason by (find key w.tables.modules) w.tables refl) h)
]

run_op-IsLogged : (op : Op) (w : World) → IsLogged w.tables → IsLogged (run_op op w).tables
unfolding run_op set_active_version
run_op-IsLogged (register p by) w h = register_module-IsLogged p by w h
run_op-IsLogged (set_status key status reason by) w h =
    update_module_status-IsLogged key status reason by w h
run_op-IsLogged (set_version key version []) w h = h
run_op-IsLogged (set_version key version (c ∷ by)) w h =
    session_keeps IsLogged (λ t. activate key version (c ∷ by) (find key t.modules) t) w
      (activate-IsLogged key version (c ∷ by) (find key w.tables.modules) w.tables refl) h

-- The control log tells every status: if it was so before, then after any operations, in any order
-- and whatever transactions fail, the status of each module is the new status in the last log entry
-- under its key, and keys without a module have no entry.
pub run_ops-IsLogged :
    (ops : List Op) (w : World) → IsLogged w.tables → IsLogged (run_ops ops w).tables
unfolding run_ops
run_ops-IsLogged [] w h = h
run_ops-IsLogged (op ∷ ops) w h = run_ops-IsLogged ops (run_op op w) (run_op-IsLogged op w h)
