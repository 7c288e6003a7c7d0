-- ===== src/ActionEngine/Once.antt =====
-- `execute_approved` of app/brain/action_engine.py: every call of an action's function is authorised
-- by an approved row, and an approval authorises at most one.
use mathlib.Core.Path.{subst}
use tachy_cognitive_ai_agent.Common.{
  ℕ, ◌≡◌, ◌≢◌, refl, ◌∙◌, inl, inr, Bool, true, Bool-cases, String, Option, none, some, List, [],
  ◌∷◌, ◌++◌, arith, eq_iff, str_eq, if◌then◌else◌,
}
use tachy_cognitive_ai_agent.Database.{TableOps, IsLawful}
use tachy_cognitive_ai_agent.Safety.Gate.{Settings}
use tachy_cognitive_ai_agent.Safety.World.{
  approved, Approval, World, M, Outcome, returned, raised, session, log_event_safe, ◌>>=◌,
}
use tachy_cognitive_ai_agent.Safety.Keeps.{continue}
use tachy_cognitive_ai_agent.Safety.Approvals.{Change, is_approved, claim_execution, get_approval}
use tachy_cognitive_ai_agent.Safety.Approvals.Rows.{
  Op, answer, claim, complete, retire, row_after, is_broken, perform, perform-get, run,
}
use tachy_cognitive_ai_agent.Safety.Approvals.Claims.{is_claimed, is_claimed-claim_execution}
use tachy_cognitive_ai_agent.ActionEngine.{
  Call, Json, brain_action, payload_text, after_claim, execute_row, execute_approved,
}
use tachy_cognitive_ai_agent.ActionEngine.Settled.{Settled, is_spent}
use tachy_cognitive_ai_agent.ActionEngine.Claimed.{IsContained, called, Settled-run_loaded}

spent-row_after :
    (op : Op) (now i : ℕ) (r : Approval) (broken : Bool)
    → is_spent r.status ≡ true
    → is_spent (if broken then r else row_after op now i r).status ≡ true
unfolding row_after
spent-row_after (answer j is_yes) now i r broken s = ground arith
spent-row_after (claim j action payload) now i r broken s = ground arith
spent-row_after (complete j is_success) now i r broken s = ground arith
spent-row_after (retire j action payload) now i r broken s = ground arith
spent-row_after op now i r broken s = ground arith

module _ {T : TableOps Approval} (L : IsLawful T) {C : Type 0} (i : ℕ) where
  pub calls-claim_execution :
      (action : String) (payload : Option String) (w : World T C)
      → (claim_execution i action payload w).1.calls ≡ w.calls
  unfolding claim_execution session log_event_safe
  calls-claim_execution action payload w = ground arith

  -- A successful claim spends the approval.
  pub claim-Settled :
      (action : String) (payload : Option String) (w : World T C) (r : Approval)
      → T.get w.approvals i ≡ some r
      → is_claimed (claim_execution i action payload w).0 ≡ true
      → Settled i w.calls (claim_execution i action payload w).1
  unfolding perform row_after
  claim-Settled action payload w r h c = record {
    calls = calls-claim_execution action payload w;
    row = if is_broken w then r else row_after (claim i action payload) w.clock i r;
    at = perform-get L (claim i action payload) w i r h;
    spent = ground (arith, is_claimed-claim_execution L i action payload w);
  }

module _ {T : TableOps Approval} {Params : Type 0} (J : Json Params) (i : ℕ) where
  -- What a run of `execute_approved` did: no call, or the call that the payload of the approved row
  -- names, after which the approval is spent.
  pub data Performed (w w' : World T (Call Params)) : Type 0 where
    nothing : w'.calls ≡ w.calls → Performed w w'
    authorised :
        (row : Approval)
        → T.get w.approvals i ≡ some row
        → row.status ≡ approved
        → row.action ≡ brain_action
        → Settled i (w.calls ++ called (J.loads (payload_text row.payload))) w'
        → Performed w w'

  Performed-from :
      (w w' : World T (Call Params)) {v : World T (Call Params)}
      → w'.approvals ≡ w.approvals
      → w'.calls ≡ w.calls
      → Performed w' v
      → Performed w v
  Performed-from w w' a c (nothing n) = nothing (n ∙ c)
  Performed-from w w' {v} a c (authorised row h s b e) = authorised row (rw (← a) h) s b (
      subst
        (λ (l : List (Call Params)). Settled i (l ++ called (J.loads (payload_text row.payload))) v)
        c e)

module _ {T : TableOps Approval} (L : IsLawful T) {Params Result : Type 0} (J : Json Params)
    (settings : Settings) (handler : String → Params → M T (Call Params) Result)
    (H : IsContained handler) (i : ℕ) where
  Performed-after_claim :
      (row : Approval) (w w' : World T (Call Params)) (o : Outcome Change)
      → T.get w.approvals i ≡ some row
      → row.status ≡ approved
      → row.action ≡ brain_action
      → w'.calls ≡ w.calls
      → (is_claimed o ≡ true → Settled i w.calls w')
      → Performed J i w (continue o (after_claim J settings handler i row.payload) w').1
  unfolding after_claim
  Performed-after_claim row w w' (raised e) h s a c k = nothing c
  Performed-after_claim row w w' (returned x) h s a c k = elim (Bool-cases x.changed) [
    | inl e ↦ rw e (
        authorised row h s a (
          (Settled-run_loaded L J settings handler H i w.calls
              (J.loads (payload_text row.payload))).at
            w' (k e)))
    | inr e ↦ rw e (nothing c)
  ]

  Performed-execute_row :
      (w : World T (Call Params)) (o : Option Approval)
      → T.get w.approvals i ≡ o
      → Performed J i w (execute_row J settings handler i o w).1
  unfolding execute_row
  Performed-execute_row w none h = nothing refl
  Performed-execute_row w (some row) h = elim (Bool-cases (is_approved row.status)) [
    | inr e ↦ rw (e, execute_row) (nothing refl)
    | inl e ↦ elim (Bool-cases (str_eq row.action brain_action)) [
      | inr f ↦ rw (e, execute_row) (rw f (nothing refl))
      | inl f ↦
          let (o, w') = claim_execution i brain_action row.payload w in
          rw (e, execute_row)
            (rw f (
              Performed-after_claim row w w' o h (ground (arith, e))
                ((eq_iff row.action brain_action).0 f)
                (calls-claim_execution L i brain_action row.payload w)
                (claim-Settled L i brain_action row.payload w row h)))
    ]
  ]

  -- On a lawful table, with functions behind the actions that are contained (`IsContained`),
  -- whatever fails on the way: a run of `execute_approved` on the approval `i` calls no action's
  -- function, or exactly the one registered for the action in the payload of row `i`, with the
  -- parameters in it, where that row is approved and a `brain_action`; and then the approval is
  -- spent.
  pub execute_approved-Performed :
      (w : World T (Call Params)) → Performed J i w (execute_approved J settings handler i w).1
  unfolding execute_approved get_approval session
  execute_approved-Performed w = elim (Bool-cases (is_broken w)) [
    | inl e ↦ rw (e, ◌>>=◌) (nothing (ground (arith, e)))
    | inr e ↦
        rw (e, ◌>>=◌)
          (let w' = (get_approval i w).1 in
            Performed-from J i w w' (ground (arith, e)) (ground (arith, e))
              (Performed-execute_row w' (T.get w.approvals i) (ground (arith, e))))
  ]

-- `ops` may run between two calls of the engine.
module _ {T : TableOps Approval} (L : IsLawful T) {C : Type 0} (i : ℕ) where
  -- A claimed approval is never approved again.
  pub run_spent :
      (ops : List Op) (w : World T C) (r : Approval)
      → T.get w.approvals i ≡ some r
      → is_spent r.status ≡ true
      → (r' : Approval) × (T.get (run ops w).approvals i ≡ some r') × (is_spent r'.status ≡ true)
  unfolding run
  run_spent [] w r h s = (r, h, s)
  run_spent (op ∷ ops) w r h s =
      run_spent ops (perform op w) (if is_broken w then r else row_after op w.clock i r)
        (perform-get L op w i r h) (spent-row_after op w.clock i r (is_broken w) s)

module _ {T : TableOps Approval} (L : IsLawful T) {Params Result : Type 0} (J : Json Params)
    (settings : Settings) (handler : String → Params → M T (Call Params) Result)
    (H : IsContained handler) (i : ℕ) where
  calls_of_spent :
      (w v : World T (Call Params)) (r : Approval)
      → Performed J i w v
      → T.get w.approvals i ≡ some r
      → is_spent r.status ≡ true
      → v.calls ≡ w.calls
  calls_of_spent w v r (nothing c) h s = c
  calls_of_spent w v r (authorised row g a b e) h s = absurd (ground arith)

  calls_again :
      (w v : World T (Call Params)) (ops : List Op)
      → Performed J i w v
      → v.calls ≢ w.calls
      → let u = run ops v in (execute_approved J settings handler i u).1.calls ≡ u.calls
  calls_again w v ops (nothing c) n = absurd (n c)
  calls_again w v ops (authorised row g a b e) n =
      let u = run ops v in
      let (r, h, s) = run_spent L i ops v e.row e.at e.spent in
      calls_of_spent u _ r (execute_approved-Performed L J settings handler H i u) h s

  -- An approval authorises one call, on a lawful table and with contained functions behind the
  -- actions: once a run of `execute_approved` on it has called a function, and whatever operations
  -- of the store follow, a second run on it calls none.
  pub executes_once :
      (w : World T (Call Params)) (ops : List Op)
      → (execute_approved J settings handler i w).1.calls ≢ w.calls
      → let v = run ops (execute_approved J settings handler i w).1 in
        (execute_approved J settings handler i v).1.calls ≡ v.calls
  executes_once w ops n =
      calls_again w _ ops (execute_approved-Performed L J settings handler H i w) n
