-- ===== src/TodySend/Claimed.antt =====
-- `execute_send` of app/agents/tody_agent.py after its claim: the approval is spent, and the message
-- is handed to the client once.
use tachy_cognitive_ai_agent.Common.{
  ℕ, ◌≡◌, ap, ◌∙◌, true, false, Option, some, List, [], ◌∷◌, ◌++◌,
}
use tachy_cognitive_ai_agent.Database.{TableOps, IsLawful}
use tachy_cognitive_ai_agent.Safety.World.{
  Status, Approval, World, M, Outcome, returned, raised, tody_send_executed, tody_send_failed,
}
use tachy_cognitive_ai_agent.Safety.Keeps.{Leads, Leads-bind, Leads-pure}
use tachy_cognitive_ai_agent.ActionEngine.Settled.{
  Settled, Settled-log_event, Settled-complete_execution,
}
use tachy_cognitive_ai_agent.TodySend.{
  Message, Payloads, Services, attempt, call_client, deliver, settle, send_claimed,
}

-- What the services may do to the store: they may add approvals but change none that is there, and
-- send nothing besides.
pub record IsContained {T : TableOps Approval} (S : Services T) : Type 0 where
  pub send_keeps :
      (m : Message) (w : World T Message) (j : ℕ) (r : Approval)
      → T.get w.approvals j ≡ some r
      → T.get (S.send_message m w).1.approvals j ≡ some r
  pub send_calls : (m : Message) (w : World T Message) → (S.send_message m w).1.calls ≡ w.calls
  pub sent_keeps :
      (m : Message) (id : ℕ) (w : World T Message) (j : ℕ) (r : Approval)
      → T.get w.approvals j ≡ some r
      → T.get (S.note_sent m id w).1.approvals j ≡ some r
  pub sent_calls :
      (m : Message) (id : ℕ) (w : World T Message) → (S.note_sent m id w).1.calls ≡ w.calls
  pub failed_keeps :
      (m : Message) (w : World T Message) (j : ℕ) (r : Approval)
      → T.get w.approvals j ≡ some r
      → T.get (S.note_failed m w).1.approvals j ≡ some r
  pub failed_calls : (m : Message) (w : World T Message) → (S.note_failed m w).1.calls ≡ w.calls

module _ {T : TableOps Approval} (L : IsLawful T) (P : Payloads) (S : Services T)
    (H : IsContained S) (i : ℕ) (cs : List Message) where
  Settled-call_client :
      (m : Message) → Leads (Settled i cs) (call_client P S m) (Settled i (cs ++ m ∷ []))
  unfolding call_client
  Settled-call_client m = record {
    at = λ w e.
        let u = record w { calls = w.calls ++ m ∷ [] } in
        record {
          calls = H.send_calls m u ∙ ap (λ (l : List Message). l ++ m ∷ []) e.calls;
          row = e.row;
          at = H.send_keeps m u i e.row e.at;
          spent = e.spent;
        };
  }

  Settled-note_sent :
      (m : Message) (id : ℕ) → Leads (Settled i cs) (S.note_sent m id) (Settled i cs)
  Settled-note_sent m id = record {
    at = λ w e. record {
      calls = H.sent_calls m id w ∙ e.calls;
      row = e.row;
      at = H.sent_keeps m id w i e.row e.at;
      spent = e.spent;
    };
  }

  Settled-note_failed : (m : Message) → Leads (Settled i cs) (S.note_failed m) (Settled i cs)
  Settled-note_failed m = record {
    at = λ w e. record {
      calls = H.failed_calls m w ∙ e.calls;
      row = e.row;
      at = H.failed_keeps m w i e.row e.at;
      spent = e.spent;
    };
  }

module _ {T : TableOps Approval} (L : IsLawful T) (P : Payloads) (S : Services T)
    (H : IsContained S) (i : ℕ) (cs : List Message) where
  Settled-deliver :
      (m : Message) → Leads (Settled i cs) (deliver P S i m) (Settled i (cs ++ m ∷ []))
  unfolding deliver
  Settled-deliver m =
      let ds = cs ++ m ∷ [] in
      Leads-bind _ _ (Settled-call_client L P S H i cs m) λ id.
        Leads-bind _ _ (Settled-note_sent L P S H i ds m id) λ _.
          Leads-bind _ _ (Settled-log_event L i ds (tody_send_executed i m.conversation_id id))
            λ _. Leads-bind _ _ (Settled-complete_execution L i ds true) λ c. Leads-pure c.status

  Settled-settle :
      (m : Message) (o : Outcome (Option Status))
      → Leads (Settled i cs) (settle P S i m o) (Settled i cs)
  unfolding settle
  Settled-settle m (returned status) = Leads-pure _
  Settled-settle m (raised e) = Leads-bind _ _ (Settled-complete_execution L i cs false) λ _.
      Leads-bind _ _ (Settled-note_failed L P S H i cs m)
        λ _. Leads-bind _ _ (Settled-log_event L i cs (tody_send_failed i)) λ _. Leads-pure _

  Leads-attempt :
      {A : Type 0} {X Y : World T Message → Type 0} (m : M T Message A)
      → Leads X m Y
      → Leads X (attempt P S m) Y
  unfolding attempt
  Leads-attempt m k = record { at = k.at }

module _ {T : TableOps Approval} (L : IsLawful T) (P : Payloads) (S : Services T)
    (H : IsContained S) (i : ℕ) (cs : List Message) where
  pub Settled-send_claimed :
      (m : Message) → Leads (Settled i cs) (send_claimed P S i m) (Settled i (cs ++ m ∷ []))
  unfolding send_claimed
  Settled-send_claimed m =
      Leads-bind _ _ (Leads-attempt L P S H i cs _ (Settled-deliver L P S H i cs m))
        λ o. Settled-settle L P S H i (cs ++ m ∷ []) m o
