-- ===== src/Safety/Approvals/History.antt =====
-- Histories of one approval under any sequence of the operations of app/safety/approvals.py, with
-- any failing sessions: the life cycle, what stays fixed, and what is final.
use tachy_cognitive_ai_agent.Common.{
  ℕ, ◌≡◌, refl, ◌∙◌, Bool, true, false, some, List, [], ◌∷◌, arith, if◌then◌else◌,
}
use tachy_cognitive_ai_agent.Database.{TableOps, IsLawful}
use tachy_cognitive_ai_agent.Safety.World.{
  Status, pending, approved, rejected, executing, succeeded, failed, superseded, Approval, World,
}
use tachy_cognitive_ai_agent.Safety.Approvals.Rows.{
  Op, answer, claim, complete, retire, row_after, is_broken, perform, run, perform-get,
}

-- The life cycle: what the docstrings of the operations promise.
infix 40 ◌⟶◌
pub data ◌⟶◌ : Status → Status → Type 0 where
  stay : {s : Status} → s ⟶ s
  approve : pending ⟶ approved
  reject : pending ⟶ rejected
  start : approved ⟶ executing
  succeed : executing ⟶ succeeded
  fail : executing ⟶ failed
  drop_pending : pending ⟶ superseded
  drop_approved : approved ⟶ superseded

pub data ◌⟶*◌ (s : Status) : Status → Type 0 where
  here : s ⟶* s
  next : {t u : Status} → s ⟶* t → t ⟶ u → s ⟶* u

infix 40 ◌⟶*◌
-- A row and what became of it: the bound action, payload, tier and time of request are the same.
pub record Evolves (r r' : Approval) : Type 0 where
  pub action : r'.action ≡ r.action
  pub payload : r'.payload ≡ r.payload
  pub risk_tier : r'.risk_tier ≡ r.risk_tier
  pub requested_at : r'.requested_at ≡ r.requested_at
  pub path : r.status ⟶* r'.status

ruleset edges = (stay, approve, reject, start, succeed, fail, drop_pending, drop_approved)

row_after-edge : (op : Op) (now j : ℕ) (r : Approval) → r.status ⟶ (row_after op now j r).status
unfolding row_after
row_after-edge (answer i is_yes) now j r = grind (arith, edges)
row_after-edge (claim i action payload) now j r = grind (arith, edges)
row_after-edge (complete i is_success) now j r = grind (arith, edges)
row_after-edge (retire i action payload) now j r = grind (arith, edges)
row_after-edge _ now j r = stay

row_after-bound :
    (op : Op) (now j : ℕ) (r : Approval)
    → let r' = row_after op now j r in
      (r'.action ≡ r.action)
      × (r'.payload ≡ r.payload)
      × (r'.risk_tier ≡ r.risk_tier)
      × (r'.requested_at ≡ r.requested_at)
unfolding row_after
row_after-bound (answer i is_yes) now j r = ground arith
row_after-bound (claim i action payload) now j r = ground arith
row_after-bound (complete i is_success) now j r = ground arith
row_after-bound (retire i action payload) now j r = ground arith
row_after-bound _ now j r = (refl, refl, refl, refl)

abbrev pub is_final : Status → Bool
is_final rejected = true
is_final succeeded = true
is_final failed = true
is_final superseded = true
is_final _ = false

row_after-final :
    (op : Op) (now j : ℕ) (r : Approval) → is_final r.status ≡ true → row_after op now j r ≡ r
unfolding row_after
row_after-final (answer i is_yes) now j r h = ground arith
row_after-final (claim i action payload) now j r h = ground arith
row_after-final (complete i is_success) now j r h = ground arith
row_after-final (retire i action payload) now j r h = ground arith
row_after-final _ now j r h = refl

Evolves-row_after :
    (op : Op) (broken : Bool) (now j : ℕ) (r₀ r : Approval)
    → Evolves r₀ r
    → Evolves r₀ (if broken then r else row_after op now j r)
Evolves-row_after op true now j r₀ r e = e
Evolves-row_after op false now j r₀ r e =
    let (action, payload, risk_tier, requested_at) = row_after-bound op now j r in
    record {
      action = action ∙ e.action;
      payload = payload ∙ e.payload;
      risk_tier = risk_tier ∙ e.risk_tier;
      requested_at = requested_at ∙ e.requested_at;
      path = next e.path (row_after-edge op now j r);
    }

module _ {T : TableOps Approval} (L : IsLawful T) {Call : Type 0} where
  run-Evolves_from :
      (ops : List Op) (w : World T Call) (j : ℕ) (r₀ r : Approval)
      → Evolves r₀ r
      → T.get w.approvals j ≡ some r
      → (r' : Approval) × (T.get (run ops w).approvals j ≡ some r') × Evolves r₀ r'
  unfolding run
  run-Evolves_from [] w j r₀ r e h = (r, h, e)
  run-Evolves_from (op ∷ ops) w j r₀ r e h =
      run-Evolves_from ops (perform op w) j r₀ (if is_broken w then r else row_after op w.clock j r)
        (Evolves-row_after op (is_broken w) w.clock j r₀ r e) (perform-get L op w j r h)

  -- On a lawful table, under any sequence of operations and any failing sessions, a row that is in
  -- the table stays in it, its action, payload, tier and time of request never change, and its
  -- status moves along the edges of the life cycle.
  pub run-Evolves :
      (ops : List Op) (w : World T Call) (j : ℕ) (r : Approval)
      → T.get w.approvals j ≡ some r
      → (r' : Approval) × (T.get (run ops w).approvals j ≡ some r') × Evolves r r'
  run-Evolves ops w j r h =
      run-Evolves_from ops w j r r
        (record {
          action = refl;
          payload = refl;
          risk_tier = refl;
          requested_at = refl;
          path = here;
        })
        h

  -- On a lawful table a rejected, succeeded, failed or superseded row is final: no sequence of
  -- operations changes any of its columns.
  pub run_final :
      (ops : List Op) (w : World T Call) (j : ℕ) (r : Approval)
      → T.get w.approvals j ≡ some r
      → is_final r.status ≡ true
      → T.get (run ops w).approvals j ≡ some r
  unfolding run
  run_final [] w j r h f = h
  run_final (op ∷ ops) w j r h f =
      run_final ops (perform op w) j r
        (perform-get L op w j r h ∙ ground (arith, row_after-final op w.clock j r f)) f
