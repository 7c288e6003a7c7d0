-- ===== src/ProspectiveMemory/Sending/Fired.antt =====
-- What `fire_due` of app/brain/prospective_memory.py sends.
use tachy_cognitive_ai_agent.Common.{
  ℕ, ◌≡◌, refl, ◌∙◌, Bool, true, false, Option, none, some, List, [], ◌∷◌, arith,
}
use tachy_cognitive_ai_agent.Database.{TableOps}
use tachy_cognitive_ai_agent.Safety.Gate.{Settings}
use tachy_cognitive_ai_agent.Safety.World as World
use tachy_cognitive_ai_agent.Safety.World.{
  Approval, Outcome, returned, raised, log_event, AuditEvent, prospective_memory_fired,
  prospective_memory_fire_error,
}
use tachy_cognitive_ai_agent.Safety.Approvals.{request_approval}
use tachy_cognitive_ai_agent.TodySend.{Message, Payloads, Services, request_send}
use tachy_cognitive_ai_agent.ProspectiveMemory.{
  ScheduledAction, ActionStatus, Memory, N, pure, lift, attempt, failed, session, ◌>>=◌,
}
use tachy_cognitive_ai_agent.ProspectiveMemory.Sending.{
  Fire, fire_error, fire_result, status_after, mark, send_queued, fire_try, after_try, fire_one,
  fire_items, fire_due,
}

-- A call that hands no message to the TODY client.
record IsSilent {R : TableOps ScheduledAction} {T : TableOps Approval} {A : Type 0} (m : N R T A)
    : Type 0 where
  at : (s : Memory R T) → (m s).1.world.calls ≡ s.world.calls

module _ {R : TableOps ScheduledAction} {T : TableOps Approval} {A B : Type 0} where
  rest :
      (o : Outcome A) (f : A → N R T B) (s : Memory R T)
      → ((a : A) → IsSilent (f a))
      → (let r : Outcome B × Memory R T = elim o [
        | returned a ↦ f a s
        | raised e ↦ (raised e, s)
      ] in
          r.1.world.calls)
        ≡ s.world.calls
  rest (returned a) f s k = (k a).at s
  rest (raised e) f s k = refl

  bind-IsSilent :
      (m : N R T A) (f : A → N R T B) → IsSilent m → ((a : A) → IsSilent (f a)) → IsSilent (m >>= f)
  bind-IsSilent m f q k = record { at = λ s. let (o, s') = m s in rest o f s' k ∙ q.at s }

module _ {R : TableOps ScheduledAction} {T : TableOps Approval} where
  mark-IsSilent :
      (i : ℕ) (status : ActionStatus) (approval_id : Option ℕ)
      → IsSilent (mark {R = R} {T = T} i status approval_id)
  unfolding mark session
  mark-IsSilent i status approval_id = record { at = λ s. ground arith }

  session-IsSilent : {A : Type 0} (f : R.Table → A × R.Table) → IsSilent (session {R = R} {T = T} f)
  unfolding session
  session-IsSilent f = record { at = λ s. ground arith }

  log-IsSilent : (e : AuditEvent) → IsSilent (lift {R = R} {T = T} (log_event e))
  unfolding log_event
  log-IsSilent e = record { at = λ s. ground arith }

  pure-IsSilent : {A : Type 0} (a : A) → IsSilent (pure {R = R} {T = T} a)
  pure-IsSilent a = record { at = λ s. refl }

  attempt-IsSilent : {A : Type 0} (m : N R T A) → IsSilent m → IsSilent (attempt m)
  attempt-IsSilent m q = record { at = q.at }

module _ {R : TableOps ScheduledAction} {T : TableOps Approval} (P : Payloads)
    (settings : Settings) where
  request-IsSilent : (m : Message) → IsSilent (lift {R = R} {T = T} (request_send P settings m))
  unfolding request_send request_approval World.session log_event
  request-IsSilent m = record { at = λ s. ground arith }

module _ {R : TableOps ScheduledAction} {T : TableOps Approval} (P : Payloads) (S : Services T)
    (settings : Settings) where
  fire_try-IsSilent : (i : ℕ) (m : Message) → IsSilent (fire_try {R = R} P S settings false i m)
  unfolding fire_try send_queued
  fire_try-IsSilent i m = bind-IsSilent _ _ (request-IsSilent P settings m) λ q.
      bind-IsSilent _ _ (pure-IsSilent false) λ is_ok.
        bind-IsSilent _ _ (mark-IsSilent i (status_after false is_ok) (some q.id)) λ _.
          bind-IsSilent _ _ (log-IsSilent (prospective_memory_fired i m.conversation_id q.id is_ok))
            λ _. pure-IsSilent (fire_result (status_after false is_ok) q.id)

  after_try-IsSilent :
      (i : ℕ) (o : Outcome Fire) → IsSilent (after_try {R = R} P S settings false i o)
  unfolding after_try
  after_try-IsSilent i (returned r) = pure-IsSilent r
  after_try-IsSilent i (raised e) = bind-IsSilent _ _ (mark-IsSilent i failed none) λ _.
      bind-IsSilent _ _ (log-IsSilent (prospective_memory_fire_error i))
        λ _. pure-IsSilent fire_error

  fire_items-IsSilent :
      (items : List (ℕ × Message)) → IsSilent (fire_items {R = R} P S settings false items)
  unfolding fire_items fire_one
  fire_items-IsSilent [] = pure-IsSilent []
  fire_items-IsSilent ((i, m) ∷ items) =
      bind-IsSilent _ _
        (bind-IsSilent _ _ (attempt-IsSilent _ (fire_try-IsSilent i m)) λ o. after_try-IsSilent i o)
        λ r. bind-IsSilent _ _ (fire_items-IsSilent items) λ rs. pure-IsSilent ((i, r) ∷ rs)

  -- Without supervised auto-reply `fire_due` sends nothing by itself, whatever is due and whatever
  -- fails: no message is handed to the TODY client.
  pub fire_due-calls :
      (list_due : ℕ → R.Table → List (ℕ × Message)) (enabled : Bool) (s : Memory R T)
      → (fire_due P S settings false list_due enabled s).1.world.calls ≡ s.world.calls
  unfolding fire_due
  fire_due-calls list_due false s = refl
  fire_due-calls list_due true s =
      (bind-IsSilent _ _ (session-IsSilent (λ t. (list_due s.world.clock t, t)))
          λ due. fire_items-IsSilent due).at
        s
