-- ===== src/Safety/Approvals/Claims.antt =====
-- The compare-and-set of `claim_execution` in app/safety/approvals.py: who may claim an approval,
-- and how often it can be claimed.
use tachy_cognitive_ai_agent.Common.{
  ℕ, ◌+◌, ◌≤◌, ◌≡◌, refl, ◌⊎◌, inl, inr, Bool, true, false, ◌&&◌, String, Option, none, some,
  Option-cases, List, [], any_of, ◌∷◌, arith, ◌==◌, if◌then◌else◌,
}
use tachy_cognitive_ai_agent.Common.Text.{codes}
use tachy_cognitive_ai_agent.Database.{TableOps, IsLawful}
use tachy_cognitive_ai_agent.Safety.Gate.{evaluate}
use tachy_cognitive_ai_agent.Safety.World.{
  pending, approved, rejected, executing, succeeded, failed, superseded, Approval, World, Outcome,
  returned, raised, session, log_event, log_event_safe,
}
use tachy_cognitive_ai_agent.Safety.Approvals.{
  is_pending, is_executing, supersedable, Change, claimable, claim_execution, request_approval,
  decide_row, respond, complete_execution, supersede, get_approval,
}
use tachy_cognitive_ai_agent.Safety.Approvals.Rows.{
  Op, request, answer, claim, complete, retire, read, wait, row_after, is_broken, perform,
  perform-get,
}

abbrev pub is_claimed : Outcome Change → Bool
is_claimed (returned c) = c.changed
is_claimed (raised e) = false

abbrev pub can_claim : String → Option String → Option Approval → Bool
can_claim action payload none = false
can_claim action payload (some r) = claimable action payload r

-- Whether an operation claims the approval `j`.
abbrev pub claims_now : {T : TableOps Approval} {Call : Type 0} → ℕ → Op → World T Call → Bool
claims_now j (claim i action payload) w =
    i == j && is_claimed (claim_execution i action payload w).0
claims_now j _ w = false

abbrev to_ℕ : Bool → ℕ
to_ℕ true = 1
to_ℕ false = 0

unfoldable pub claims : {T : TableOps Approval} {Call : Type 0} → ℕ → List Op → World T Call → ℕ
claims j [] w = 0
claims j (op ∷ ops) w = to_ℕ (claims_now j op w) + claims j ops (perform op w)

-- How often a row can still be claimed; a row that is not there yet comes as pending.
abbrev budget : Option Approval → ℕ
budget none = 1
budget (some r) = elim r.status [ pending ↦ 1 | approved ↦ 1 | _ ↦ 0 ]

budget-le-one : (o : Option Approval) → budget o ≤ 1
budget-le-one none = omega arith
budget-le-one (some r) = ground arith

abbrev pub needs_consent : Option Approval → Bool
needs_consent none = true
needs_consent (some r) = elim r.status [ approved ↦ false | _ ↦ true ]

-- An affirmative answer to the approval `j`.
abbrev pub consents : ℕ → Op → Bool
consents j (answer i is_yes) = i == j && is_yes
consents j _ = false

-- No row, or a pending one.
abbrev is_new : Option Approval → Bool
is_new none = true
is_new (some r) = is_pending r.status

is_new_lem : (o : Option Approval) → is_new o ≡ true → (budget o ≡ 1) × (needs_consent o ≡ true)
is_new_lem none h = (refl, refl)
is_new_lem (some r) h = ground arith

module _ {T : TableOps Approval} (L : IsLawful T) where
  decide_row-none :
      (now i : ℕ) (is_yes : Bool) (t : T.Table) (o : Option Approval) (j : ℕ)
      → T.get t i ≡ o
      → T.get t j ≡ none
      → T.get (decide_row T now i is_yes t o).1 j ≡ none
  unfolding decide_row
  decide_row-none now i is_yes t none j e h = h
  decide_row-none now i is_yes t (some x) j e h =
      let status = if is_yes then approved else rejected in
      ground (
        arith,
        L.get-update_where i (λ _. true) (λ _. record x { status = status; decided_at = some now })
            t j,
      )

module _ {T : TableOps Approval} (L : IsLawful T) {Call : Type 0} where
  -- On a lawful table a claim succeeds exactly when its session does not fail and the row is there,
  -- is approved, and has the expected action and payload.
  pub is_claimed-claim_execution :
      (i : ℕ) (action : String) (payload : Option String) (w : World T Call)
      → is_claimed (claim_execution i action payload w).0
        ≡ (if is_broken w then false else can_claim action payload (T.get w.approvals i))
  unfolding claim_execution session log_event_safe
  is_claimed-claim_execution i action payload w =
      let f : Approval → Approval =
        λ r. record r { status = executing; execution_started_at = some w.clock } in
      ground (
        arith,
        L.get-update_where i (claimable action payload) f w.approvals i,
        L.count-update_where i (claimable action payload) f w.approvals,
      )

  -- An operation leaves a key that has no row without one, or gives it a pending row.
  perform-none :
      (op : Op) (w : World T Call) (j : ℕ)
      → T.get w.approvals j ≡ none
      → is_new (T.get (perform op w).approvals j) ≡ true
  unfolding perform request_approval respond claim_execution complete_execution supersede
      get_approval session log_event log_event_safe
  perform-none (request settings action payload) w j h =
      let gate = evaluate settings (codes action) in
      let row : Approval = record {
        action = action;
        payload = payload;
        risk_tier = gate.tier;
        status = pending;
        requested_at = w.clock;
        decided_at = none;
        execution_started_at = none;
        execution_completed_at = none;
      } in
      ground (arith, L.get-insert row w.approvals j)
  perform-none (answer i is_yes) w j h =
      let t = w.approvals in
      ground (arith, decide_row-none L w.clock i is_yes t (T.get t i) j refl h)
  perform-none (claim i action payload) w j h = ground (
    arith,
    L.get-update_where i (claimable action payload)
        (λ r. record r { status = executing; execution_started_at = some w.clock }) w.approvals j,
  )
  perform-none (complete i is_success) w j h =
      let final_status = if is_success then succeeded else failed in
      ground (
        arith,
        L.get-update_where i (λ r. is_executing r.status)
            (λ r. record r { status = final_status; execution_completed_at = some w.clock })
            w.approvals j,
      )
  perform-none (retire i action payload) w j h = ground (
    arith,
    L.get-update_where i (supersedable action payload)
        (λ r. record r {
          status = superseded;
          decided_at = some w.clock;
          execution_completed_at = some w.clock;
        })
        w.approvals j,
  )
  perform-none (read i) w j h = ground arith
  perform-none (wait n) w j h = rw h

  absent_step :
      (op : Op) (w : World T Call) (j : ℕ)
      → T.get w.approvals j ≡ none
      → to_ℕ (claims_now j op w) + budget (T.get (perform op w).approvals j) ≤ 1
  absent_step (claim i action payload) w j h = ground (
    arith,
    is_new_lem _ (perform-none (claim i action payload) w j h),
    is_claimed-claim_execution i action payload w,
  )
  absent_step op w j h = omega (arith, is_new_lem _ (perform-none op w j h))

  present_step :
      (op : Op) (w : World T Call) (j : ℕ) (r : Approval)
      → T.get w.approvals j ≡ some r
      → to_ℕ (claims_now j op w) + budget (T.get (perform op w).approvals j) ≤ budget (some r)
  unfolding row_after
  present_step (claim i action payload) w j r h = ground (
    arith,
    perform-get L (claim i action payload) w j r h,
    is_claimed-claim_execution i action payload w,
  )
  present_step (answer i is_yes) w j r h = ground (arith, perform-get L (answer i is_yes) w j r h)
  present_step (complete i is_success) w j r h =
      ground (arith, perform-get L (complete i is_success) w j r h)
  present_step (retire i action payload) w j r h =
      ground (arith, perform-get L (retire i action payload) w j r h)
  present_step op w j r h = ground (arith, perform-get L op w j r h)

  budget_step :
      (op : Op) (w : World T Call) (j : ℕ)
      → to_ℕ (claims_now j op w) + budget (T.get (perform op w).approvals j)
        ≤ budget (T.get w.approvals j)
  budget_step op w j = elim (Option-cases (T.get w.approvals j)) [
    | inl h ↦ rw h (absent_step op w j h)
    | inr (r, h) ↦ rw h (present_step op w j r h)
  ]

  claims-le-budget :
      (ops : List Op) (w : World T Call) (j : ℕ) → claims j ops w ≤ budget (T.get w.approvals j)
  unfolding claims
  claims-le-budget [] w j = omega arith
  claims-le-budget (op ∷ ops) w j =
      omega (arith, budget_step op w j, claims-le-budget ops (perform op w) j)

  -- On a lawful table, under any sequence of operations and any failing sessions, an approval is
  -- claimed at most once, whether it is in the table at the start or is requested on the way.
  pub claims-le-one : (ops : List Op) (w : World T Call) (j : ℕ) → claims j ops w ≤ 1
  claims-le-one ops w j =
      omega (arith, claims-le-budget ops w j, budget-le-one (T.get w.approvals j))

  consent-step_some :
      (op : Op) (w : World T Call) (j : ℕ) (r : Approval)
      → T.get w.approvals j ≡ some r
      → needs_consent (some r) ≡ true
      → (claims_now j op w ≡ false)
        × ((consents j op ≡ true) ⊎ (needs_consent (T.get (perform op w).approvals j) ≡ true))
  unfolding row_after
  consent-step_some (claim i action payload) w j r h n = ground (
    arith,
    perform-get L (claim i action payload) w j r h,
    is_claimed-claim_execution i action payload w,
  )
  consent-step_some (answer i is_yes) w j r h n =
      ground (arith, perform-get L (answer i is_yes) w j r h)
  consent-step_some (complete i is_success) w j r h n =
      ground (arith, perform-get L (complete i is_success) w j r h)
  consent-step_some (retire i action payload) w j r h n =
      ground (arith, perform-get L (retire i action payload) w j r h)
  consent-step_some op w j r h n = ground (arith, perform-get L op w j r h)

  consent-step_none :
      (op : Op) (w : World T Call) (j : ℕ) → T.get w.approvals j ≡ none → claims_now j op w ≡ false
  consent-step_none (claim i action payload) w j h =
      ground (arith, is_claimed-claim_execution i action payload w)
  consent-step_none op w j h = refl

  consent-step :
      (op : Op) (w : World T Call) (j : ℕ)
      → needs_consent (T.get w.approvals j) ≡ true
      → (claims_now j op w ≡ false)
        × ((consents j op ≡ true) ⊎ (needs_consent (T.get (perform op w).approvals j) ≡ true))
  consent-step op w j n = elim (Option-cases (T.get w.approvals j)) [
    | inl h ↦ (consent-step_none op w j h, inr (is_new_lem _ (perform-none op w j h)).1)
    | inr (r, h) ↦ consent-step_some op w j r h (rw h at n)
  ]

  -- A claim needs the guardian's consent: on a lawful table, an approval that is pending, or not
  -- there yet, is claimed only if the sequence of operations has an affirmative answer to it.
  pub claim_needs_consent :
      (ops : List Op) (w : World T Call) (j : ℕ)
      → needs_consent (T.get w.approvals j) ≡ true
      → claims j ops w ≡ 1
      → any_of (consents j) ops ≡ true
  unfolding claims
  claim_needs_consent [] w j n c = absurd (omega arith)
  claim_needs_consent (op ∷ ops) w j n c =
      ground (arith, consent-step op w j n, claim_needs_consent ops (perform op w) j)
