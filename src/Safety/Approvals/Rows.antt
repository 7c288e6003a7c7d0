-- ===== src/Safety/Approvals/Rows.antt =====
-- What each operation of app/safety/approvals.py does to one row that is in the table: a pure
-- function of the row, so that histories of the store are histories of its rows.
use tachy_cognitive_ai_agent.Common.{
  ℕ, ◌+◌, ◌≡◌, refl, ◌∙◌, Bool, true, String, Option, none, some, List, [], ◌∷◌, arith, ◌==◌,
  if◌then◌else◌,
}
use tachy_cognitive_ai_agent.Common.Text.{codes}
use tachy_cognitive_ai_agent.Database.{TableOps, IsLawful}
use tachy_cognitive_ai_agent.Safety.Gate.{Settings, evaluate}
use tachy_cognitive_ai_agent.Safety.World.{
  pending, approved, rejected, executing, succeeded, failed, superseded, Approval, World,
  next_fault, session, log_event, log_event_safe,
}
use tachy_cognitive_ai_agent.Safety.Approvals.{
  is_pending, is_executing, claimable, supersedable, request_approval, respond, claim_execution,
  complete_execution, supersede, get_approval, decide_row,
}

-- A call of the store, or the passing of time between calls.
pub data Op : Type 0 where
  request : Settings → String → Option String → Op
  answer : ℕ → Bool → Op
  claim : ℕ → String → Option String → Op
  complete : ℕ → Bool → Op
  retire : ℕ → String → Option String → Op
  read : ℕ → Op
  wait : ℕ → Op

unfoldable pub row_after : Op → ℕ → ℕ → Approval → Approval
row_after (answer i is_yes) now j r =
    if j == i
    then if is_pending r.status
      then record r { status = if is_yes then approved else rejected; decided_at = some now }
      else r
    else r
row_after (claim i action payload) now j r =
    if j == i
    then if claimable action payload r
      then record r { status = executing; execution_started_at = some now }
      else r
    else r
row_after (complete i is_success) now j r =
    if j == i
    then if is_executing r.status
      then record r {
        status = if is_success then succeeded else failed;
        execution_completed_at = some now;
      }
      else r
    else r
row_after (retire i action payload) now j r =
    if j == i
    then if supersedable action payload r
      then record r {
        status = superseded;
        decided_at = some now;
        execution_completed_at = some now;
      }
      else r
    else r
row_after _ now j r = r

abbrev pub is_broken : {T : TableOps Approval} {Call : Type 0} → World T Call → Bool
is_broken w = (next_fault w.faults).0

module _ {T : TableOps Approval} {Call : Type 0} where
  -- The world that an operation leaves, whether it returns or raises.
  unfoldable pub perform : Op → World T Call → World T Call
  perform (request settings action payload) w = (request_approval settings action payload w).1
  perform (answer i is_yes) w = (respond i is_yes w).1
  perform (claim i action payload) w = (claim_execution i action payload w).1
  perform (complete i is_success) w = (complete_execution i is_success w).1
  perform (retire i action payload) w = (supersede i action payload w).1
  perform (read i) w = (get_approval i w).1
  perform (wait n) w = record w { clock = w.clock + n }

  unfoldable pub run : List Op → World T Call → World T Call
  run [] w = w
  run (op ∷ ops) w = run ops (perform op w)

module _ {T : TableOps Approval} (L : IsLawful T) where
  decide_row-get :
      (now i : ℕ) (is_yes : Bool) (t : T.Table) (o : Option Approval) (j : ℕ) (r : Approval)
      → T.get t i ≡ o
      → T.get t j ≡ some r
      → T.get (decide_row T now i is_yes t o).1 j ≡ some (row_after (answer i is_yes) now j r)
  unfolding decide_row row_after
  decide_row-get now i is_yes t none j r e h = ground arith
  decide_row-get now i is_yes t (some x) j r e h =
      let status = if is_yes then approved else rejected in
      ground (
        arith,
        L.get-update_where i (λ _. true) (λ _. record x { status = status; decided_at = some now })
            t j,
      )

module _ {T : TableOps Approval} (L : IsLawful T) {Call : Type 0} where
  request-get :
      (settings : Settings) (action : String) (payload : Option String) (w : World T Call) (j : ℕ)
      (r : Approval)
      → T.get w.approvals j ≡ some r
      → T.get (request_approval settings action payload w).1.approvals j ≡ some r
  unfolding request_approval session log_event
  request-get settings action payload w j r h =
      let gate = evaluate settings (codes action) in
      let row : Approval = record {
        action = action;
        payload = payload;
        risk_tier = gate.tier;
        status = pending;
        requested_at = w.clock;
        decided_at = none;
        execution_started_at = none;
        execution_completed_at = none;
      } in
      ground (arith, L.get-insert row w.approvals j, L.insert_fresh row w.approvals)

  answer-get :
      (i : ℕ) (is_yes : Bool) (w : World T Call) (j : ℕ) (r : Approval)
      → T.get w.approvals j ≡ some r
      → T.get (respond i is_yes w).1.approvals j
        ≡ some (if is_broken w then r else row_after (answer i is_yes) w.clock j r)
  unfolding respond session log_event
  answer-get i is_yes w j r h =
      let t = w.approvals in
      ground (arith, decide_row-get L w.clock i is_yes t (T.get t i) j r refl h)

  claim-get :
      (i : ℕ) (action : String) (payload : Option String) (w : World T Call) (j : ℕ) (r : Approval)
      → T.get w.approvals j ≡ some r
      → T.get (claim_execution i action payload w).1.approvals j
        ≡ some (if is_broken w then r else row_after (claim i action payload) w.clock j r)
  unfolding claim_execution session log_event_safe row_after
  claim-get i action payload w j r h = ground (
    arith,
    L.get-update_where i (claimable action payload)
        (λ r. record r { status = executing; execution_started_at = some w.clock }) w.approvals j,
  )

  complete-get :
      (i : ℕ) (is_success : Bool) (w : World T Call) (j : ℕ) (r : Approval)
      → T.get w.approvals j ≡ some r
      → T.get (complete_execution i is_success w).1.approvals j
        ≡ some (if is_broken w then r else row_after (complete i is_success) w.clock j r)
  unfolding complete_execution session log_event_safe row_after
  complete-get i is_success w j r h =
      let final_status = if is_success then succeeded else failed in
      ground (
        arith,
        L.get-update_where i (λ r. is_executing r.status)
            (λ r. record r { status = final_status; execution_completed_at = some w.clock })
            w.approvals j,
      )

  retire-get :
      (i : ℕ) (action : String) (payload : Option String) (w : World T Call) (j : ℕ) (r : Approval)
      → T.get w.approvals j ≡ some r
      → T.get (supersede i action payload w).1.approvals j
        ≡ some (if is_broken w then r else row_after (retire i action payload) w.clock j r)
  unfolding supersede session log_event_safe row_after
  retire-get i action payload w j r h = ground (
    arith,
    L.get-update_where i (supersedable action payload)
        (λ r. record r {
          status = superseded;
          decided_at = some w.clock;
          execution_completed_at = some w.clock;
        })
        w.approvals j,
  )

  -- Whatever the operation, and whether or not its session fails, a row that is in the table is
  -- afterwards the row or `row_after` of it.
  pub perform-get :
      (op : Op) (w : World T Call) (j : ℕ) (r : Approval)
      → T.get w.approvals j ≡ some r
      → T.get (perform op w).approvals j
        ≡ some (if is_broken w then r else row_after op w.clock j r)
  unfolding perform row_after get_approval session
  perform-get (request settings action payload) w j r h =
      request-get settings action payload w j r h ∙ ground arith
  perform-get (answer i is_yes) w j r h = answer-get i is_yes w j r h
  perform-get (claim i action payload) w j r h = claim-get i action payload w j r h
  perform-get (complete i is_success) w j r h = complete-get i is_success w j r h
  perform-get (retire i action payload) w j r h = retire-get i action payload w j r h
  perform-get (read i) w j r h = ground arith
  perform-get (wait n) w j r h = ground arith
