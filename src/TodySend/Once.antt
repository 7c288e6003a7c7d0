-- ===== src/TodySend/Once.antt =====
-- What `execute_send` of app/agents/tody_agent.py sends, and how often.
use tachy_cognitive_ai_agent.Common.{
  ℕ, ◌≡◌, ◌≢◌, refl, ap, sym, ◌∙◌, ◌⊎◌, inl, inr, true, Bool-cases, ◌&&◌, Option, none, some, List,
  [], ◌∷◌, ◌++◌, arith, eq_iff, str_eq, opt_str_eq, opt_str_eq_iff,
}
use mathlib.Core.Option.{some-injective}
use tachy_cognitive_ai_agent.Common.Text.{codes}
use tachy_cognitive_ai_agent.Database.{TableOps, IsLawful}
use tachy_cognitive_ai_agent.Safety.Gate.{Settings, evaluate}
use tachy_cognitive_ai_agent.Safety.World.{
  pending, approved, Approval, World, Outcome, returned, raised, session, log_event, ◌>>=◌,
}
use tachy_cognitive_ai_agent.Safety.Keeps.{continue}
use tachy_cognitive_ai_agent.Safety.Approvals.{
  Request, Change, is_pending, is_approved, claim_execution, get_approval, request_approval,
}
use tachy_cognitive_ai_agent.Safety.Approvals.Rows.{Op, is_broken, run}
use tachy_cognitive_ai_agent.Safety.Approvals.Claims.{is_claimed}
use tachy_cognitive_ai_agent.Safety.Approvals.History.{Evolves, run-Evolves}
use tachy_cognitive_ai_agent.ActionEngine.Settled.{Settled, is_spent}
use tachy_cognitive_ai_agent.ActionEngine.Once.{calls-claim_execution, claim-Settled, run_spent}
use tachy_cognitive_ai_agent.TodySend.{
  Message, Payloads, send_fields, send_payload, Services, send_action, after_claim, send_bound,
  send_row, execute_send, request_send,
}
use tachy_cognitive_ai_agent.TodySend.Claimed.{IsContained, Settled-send_claimed}

-- The payload tells the message.
send_payload_inj : (P : Payloads) (n m : Message) → send_payload P n ≡ send_payload P m → n ≡ m
unfolding send_payload
send_payload_inj P n m h =
    let same =
      some-injective (send_fields n) (send_fields m)
        (sym (P.loads-dumps (send_fields n)) ∙ ap P.loads h ∙ P.loads-dumps (send_fields m)) in
    ground (arith, same)

module _ {T : TableOps Approval} (P : Payloads) (i : ℕ) (m : Message) where
  -- What a run of `execute_send` did: it handed no message to the client, or exactly `m`, where the
  -- approval was an approved one that binds `m`, and is now spent.
  pub data Sent (w w' : World T Message) : Type 0 where
    nothing : w'.calls ≡ w.calls → Sent w w'
    authorised :
        (row : Approval)
        → T.get w.approvals i ≡ some row
        → row.status ≡ approved
        → row.action ≡ send_action
        → row.payload ≡ some (send_payload P m)
        → Settled i (w.calls ++ m ∷ []) w'
        → Sent w w'

module _ {T : TableOps Approval} (L : IsLawful T) (P : Payloads) (S : Services T)
    (H : IsContained S) (i : ℕ) (m : Message) where
  Sent-after_claim :
      (row : Approval) (w w' : World T Message) (o : Outcome Change)
      → T.get w.approvals i ≡ some row
      → row.status ≡ approved
      → row.action ≡ send_action
      → row.payload ≡ some (send_payload P m)
      → w'.calls ≡ w.calls
      → (is_claimed o ≡ true → Settled i w.calls w')
      → Sent P i m w (continue o (after_claim P S i m) w').1
  unfolding after_claim
  Sent-after_claim row w w' (raised e) h s a p c k = nothing c
  Sent-after_claim row w w' (returned x) h s a p c k = elim (Bool-cases x.changed) [
    | inl e ↦ rw e (authorised row h s a p ((Settled-send_claimed L P S H i w.calls m).at w' (k e)))
    | inr e ↦ rw e (nothing c)
  ]

  Sent-send_bound :
      (row : Approval) (w : World T Message)
      → T.get w.approvals i ≡ some row
      → row.status ≡ approved
      → row.action ≡ send_action
      → Sent P i m w (send_bound P S i m row w).1
  unfolding send_bound log_event
  Sent-send_bound row w h s a =
      elim (Bool-cases (opt_str_eq row.payload (some (send_payload P m)))) [
        | inr e ↦ rw (e, send_bound) (nothing (ground arith))
        | inl e ↦
            let p = (opt_str_eq_iff row.payload (some (send_payload P m))).0 e in
            let (o, w') = claim_execution i send_action (some (send_payload P m)) w in
            rw (e, send_bound)
              (Sent-after_claim row w w' o h s a p
                (calls-claim_execution L i send_action (some (send_payload P m)) w)
                (claim-Settled L i send_action (some (send_payload P m)) w row h))
      ]

  Sent-send_row :
      (w : World T Message) (o : Option Approval)
      → T.get w.approvals i ≡ o
      → Sent P i m w (send_row P S i m o w).1
  unfolding send_row
  Sent-send_row w none h = nothing refl
  Sent-send_row w (some row) h = elim (Bool-cases (is_pending row.status)) [
    | inl e ↦ rw (e, send_row) (nothing refl)
    | inr e ↦ elim (Bool-cases (is_approved row.status && str_eq row.action send_action)) [
      | inr f ↦ rw (e, send_row) (rw f (nothing refl))
      | inl f ↦
          rw (e, send_row)
            (rw f (
              Sent-send_bound row w h (ground (arith, f))
                (ground (arith, f, eq_iff row.action send_action))))
    ]
  ]

  Sent-from :
      (w w' v : World T Message)
      → w'.approvals ≡ w.approvals
      → w'.calls ≡ w.calls
      → Sent P i m w' v
      → Sent P i m w v
  Sent-from w w' v a c (nothing n) = nothing (n ∙ c)
  Sent-from w w' v a c (authorised row h s b p e) =
      authorised row (ap (λ t. T.get t i) (sym a) ∙ h) s b p (record {
        calls = e.calls ∙ ap (λ (l : List Message). l ++ m ∷ []) c;
        row = e.row;
        at = e.at;
        spent = e.spent;
      })

  -- On a lawful table, with services that are contained (`IsContained`), whatever fails on the way:
  -- a run of `execute_send` hands no message to the client, or exactly the one that it is given,
  -- where the approval is an approved `send_message` with the payload of that message; and then the
  -- approval is spent.
  pub execute_send-Sent : (w : World T Message) → Sent P i m w (execute_send P S i m w).1
  unfolding execute_send get_approval session
  execute_send-Sent w = elim (Bool-cases (is_broken w)) [
    | inl e ↦ rw (e, ◌>>=◌) (nothing (ground (arith, e)))
    | inr e ↦
        rw (e, ◌>>=◌)
          (let w' = (get_approval i w).1 in
            Sent-from w w' _ (ground (arith, e)) (ground (arith, e))
              (Sent-send_row w' (T.get w.approvals i) (ground (arith, e))))
  ]

module _ {T : TableOps Approval} (L : IsLawful T) (P : Payloads) (S : Services T)
    (H : IsContained S) (i : ℕ) where
  unsent :
      (m : Message) (w v : World T Message) (r : Approval)
      → Sent P i m w v
      → T.get w.approvals i ≡ some r
      → is_spent r.status ≡ true
      → v.calls ≡ w.calls
  unsent m w v r (nothing c) h s = c
  unsent m w v r (authorised row g a b p e) h s = absurd (ground arith)

  unsent_again :
      (m n : Message) (w v : World T Message) (ops : List Op)
      → Sent P i m w v
      → v.calls ≢ w.calls
      → let u = run ops v in (execute_send P S i n u).1.calls ≡ u.calls
  unsent_again m n w v ops (nothing c) d = absurd (d c)
  unsent_again m n w v ops (authorised row g a b p e) d =
      let u = run ops v in
      let (r, h, s) = run_spent L i ops v e.row e.at e.spent in
      unsent n u _ r (execute_send-Sent L P S H i n u) h s

  -- An approval sends one message, on a lawful table and with contained services: once a run of
  -- `execute_send` on it has handed a message to the client, and whatever operations of the store
  -- follow, a second run on it hands none, be it the same message or another.
  pub sends_once :
      (w : World T Message) (m n : Message) (ops : List Op)
      → (execute_send P S i m w).1.calls ≢ w.calls
      → let v = run ops (execute_send P S i m w).1 in (execute_send P S i n v).1.calls ≡ v.calls
  sends_once w m n ops d = unsent_again m n w _ ops (execute_send-Sent L P S H i m w) d

module _ {T : TableOps Approval} (L : IsLawful T) (P : Payloads) (settings : Settings) where
  abbrev new_row : Message → World T Message → Approval
  new_row m w = record {
    action = send_action;
    payload = some (send_payload P m);
    risk_tier = (evaluate settings (codes send_action)).tier;
    status = pending;
    requested_at = w.clock;
    decided_at = none;
    execution_started_at = none;
    execution_completed_at = none;
  }

  queued :
      (m : Message) (w : World T Message) (req : Request)
      → (request_send P settings m w).0 ≡ returned req
      → T.get (request_send P settings m w).1.approvals req.id ≡ some (new_row m w)
  unfolding request_send request_approval session log_event
  queued m w req h =
      let row = new_row m w in
      ground (arith, L.get-insert row w.approvals (T.insert row w.approvals).0)

module _ {T : TableOps Approval} (L : IsLawful T) (P : Payloads) (settings : Settings)
    (S : Services T) (H : IsContained S) where
  as_queued :
      (m n : Message) (req : Request) (u v x : World T Message) (r r' : Approval)
      → r.payload ≡ some (send_payload P m)
      → Evolves r r'
      → T.get v.approvals req.id ≡ some r'
      → Sent P req.id n v x
      → (x.calls ≡ v.calls) ⊎ ((n ≡ m) × (x.calls ≡ v.calls ++ m ∷ []))
  as_queued m n req u v x r r' p e h (nothing c) = inl c
  as_queued m n req u v x r r' p e h (authorised row g a b q settled) =
      let same =
        some-injective (send_payload P n) (send_payload P m) (ground (arith, e.payload, p, q)) in
      let same_message = send_payload_inj P n m same in
      inr (same_message, settled.calls ∙ ap (λ (k : Message). v.calls ++ k ∷ []) same_message)

  -- What is sent is what was queued for approval, on a lawful table and with contained services:
  -- after a message has been queued, and whatever operations of the store follow, a run of
  -- `execute_send` on its approval hands nothing to the client, or exactly the queued message, and
  -- this only if it was asked to send that very message: to the same conversation, with the same
  -- body and parent.
  pub sends_as_queued :
      (m n : Message) (w : World T Message) (req : Request) (ops : List Op)
      → (request_send P settings m w).0 ≡ returned req
      → let v = run ops (request_send P settings m w).1 in
        let x = (execute_send P S req.id n v).1 in
        (x.calls ≡ v.calls) ⊎ ((n ≡ m) × (x.calls ≡ v.calls ++ m ∷ []))
  sends_as_queued m n w req ops h =
      let u = (request_send P settings m w).1 in
      let row = new_row L P settings m w in
      let (r, g, e) = run-Evolves L ops u req.id row (queued L P settings m w req h) in
      as_queued m n req u (run ops u) _ row r refl e g
        (execute_send-Sent L P S H req.id n (run ops u))
