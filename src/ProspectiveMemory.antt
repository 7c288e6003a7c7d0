-- ===== src/ProspectiveMemory.antt =====
-- app/brain/prospective_memory.py: reminders that are taken from messages of the guardian and sent
-- when they are due. The light model's answer and the regular expressions are parameters.
pub mod Parse
pub mod Kept
pub mod Sending
use tachy_cognitive_ai_agent.Common.{
  ℕ, ◌+◌, ◌*◌, ◌≡◌, Bool, true, false, not, ◌&&◌, ◌||◌, String, Option, none, some, List, [], ◌∷◌,
  ltb, leb, length, take, if◌then◌else◌,
}
use tachy_cognitive_ai_agent.Common.Text.{strip, lower, contains_any}
use tachy_cognitive_ai_agent.Database.{TableOps, save}
use tachy_cognitive_ai_agent.Safety.Gate.{Settings}
use tachy_cognitive_ai_agent.Safety.World.{
  Approval, AuditEvent, World, Error, db_error, value_error, Outcome, returned, raised, next_fault,
  log_event, prospective_memory_created, prospective_memory_extract_error,
  prospective_memory_db_error, prospective_memory_fired, prospective_memory_fire_error,
  prospective_memory_cancelled,
}
use tachy_cognitive_ai_agent.Safety.Approvals.{respond}
use tachy_cognitive_ai_agent.TodySend.{
  Message, Payloads, Services, Reply, refused, sent, send_error, request_send, execute_send,
}
use tachy_cognitive_ai_agent.WallClock.{minute, one_day}
use tachy_cognitive_ai_agent.ProspectiveMemory.Parse.{Patterns, max_days, deterministic_parse}

pub data ActionStatus : Type 0 where
  pending fired failed pending_approval cancelled : ActionStatus

pub data Actor : Type 0 where
  deterministic gemma_intent : Actor

pub record ScheduledAction : Type 0 where
  pub conversation_id : ℕ
  pub text : List ℕ
  pub due_at : ℕ
  pub source_text : List ℕ
  pub person : Option String
  pub status : ActionStatus
  pub actor : Actor
  pub approval_id : Option ℕ
  pub fired_at : Option ℕ

-- The scheduled actions, beside what the approvals are kept in. A fault of the latter's list falls to
-- the next transaction of either.
pub record Memory (R : TableOps ScheduledAction) (T : TableOps Approval) : Type 0 where
  pub actions : R.Table
  pub world : World T Message

abbrev pub N : TableOps ScheduledAction → TableOps Approval → Type 0 → Type 0
N R T A = Memory R T → Outcome A × Memory R T

infixl 5 ◌>>=◌ ◌>>◌
abbrev pub ◌>>=◌ :
    {R : TableOps ScheduledAction} {T : TableOps Approval} {A B : Type 0}
    → N R T A
    → (A → N R T B)
    → N R T B
◌>>=◌ m f s = let (o, s') = m s in elim o [ returned a ↦ f a s' | raised e ↦ (raised e, s') ]

abbrev pub ◌>>◌ :
    {R : TableOps ScheduledAction} {T : TableOps Approval} {A B : Type 0}
    → N R T A
    → N R T B
    → N R T B
m >> k = m >>= λ _. k

module _ {R : TableOps ScheduledAction} {T : TableOps Approval} where
  abbrev pub pure : {A : Type 0} → A → N R T A
  pure a s = (returned a, s)

  abbrev pub raise : {A : Type 0} → Error → N R T A
  raise e s = (raised e, s)

  abbrev pub utcnow : N R T ℕ
  utcnow s = (returned s.world.clock, s)

  -- A call of the approval store, the audit log or the TODY agent.
  abbrev pub lift : {A : Type 0} → (World T Message → Outcome A × World T Message) → N R T A
  lift m s = let (o, w) = m s.world in (o, record s { world = w })

  abbrev pub attempt : {A : Type 0} → N R T A → N R T (Outcome A)
  attempt m s = let (o, s') = m s in (returned o, s')

  -- `with session_scope() as sess:` on the scheduled actions.
  unfoldable pub session : {A : Type 0} → (R.Table → A × R.Table) → N R T A
  session f s =
      let (broken, fs) = next_fault s.world.faults in
      let (a, t) = f s.actions in
      elim broken [
        | true ↦ (raised db_error, record s { world = record s.world { faults = fs } })
        | false ↦ (returned a, record s { actions = t; world = record s.world { faults = fs } })
      ]

-- The light model's `confidence`: at least 0.5, less, or no number.
pub data Confidence : Type 0 where
  sure unsure unreadable : Confidence

-- The light model's reply: its call raised, there is no `due_at` in it, or there is one (`none`: not
-- in a known format), with a confidence and a text.
pub data LightReply : Type 0 where
  light_error no_due : LightReply
  answered : Confidence → Option ℕ → Option (List ℕ) → LightReply

pub data NotCreated : Type 0 where
  disabled non_guardian no_future_cue light_model_error no_commitment low_confidence : NotCreated
  bad_due_at due_in_past due_too_far store_failed : NotCreated

pub data Extracted : Type 0 where
  not_created : NotCreated → Extracted
  created : ℕ → ℕ → List ℕ → Extracted

pub record Inbound : Type 0 where
  pub message : List ℕ
  pub conversation_id : ℕ
  pub person : Option String
  pub is_guardian : Bool

abbrev pub future_cues : List String
future_cues =
    "remind" ∷ "reminder" ∷ "in " ∷ "at " ∷ "tomorrow" ∷ "kal" ∷ "parson" ∷ "shaam" ∷ "subah"
    ∷ "dopahar" ∷ "raat" ∷ "baje" ∷ "pm" ∷ "am" ∷ "tonight" ∷ "morning" ∷ "evening" ∷ "after "
    ∷ "later" ∷ "baad mein" ∷ "thodi der" ∷ "ghante" ∷ "minute" ∷ "hours" ∷ "schedule" ∷ "set a"
    ∷ "wake me" ∷ "ping me" ∷ "let me know at" ∷ []

unfoldable pub has_future_cue : List ℕ → Bool
unfolding lower contains_any
has_future_cue message = contains_any future_cues (lower message)

abbrev pub is_empty : List ℕ → Bool
is_empty [] = true
is_empty (c ∷ s) = false

abbrev pub or_text : List ℕ → List ℕ → List ℕ
or_text [] t = t
or_text (c ∷ s) t = c ∷ s

abbrev pub new_action : Inbound → List ℕ → List ℕ → ℕ → Actor → ScheduledAction
new_action m msg text due actor = record {
  conversation_id = m.conversation_id;
  text = text;
  due_at = due;
  source_text = take 400 msg;
  person = m.person;
  status = pending;
  actor = actor;
  approval_id = none;
  fired_at = none;
}

module _ {R : TableOps ScheduledAction} {T : TableOps Approval} (X : Patterns)
    (reminder_text : List ℕ → List ℕ) (light : List ℕ → LightReply) where
  log_stored : ℕ → ℕ → List ℕ → Outcome ℕ → N R T Extracted
  log_stored conv due text (raised e) = do
    lift (log_event (prospective_memory_db_error conv))
    pure (not_created store_failed)
  log_stored conv due text (returned id) = do
    lift (log_event (prospective_memory_created id conv due))
    pure (created id due text)

  store_row : Inbound → List ℕ → ℕ → List ℕ → Actor → N R T Extracted
  unfolding log_stored
  store_row m msg due text actor = do
    stored ← attempt (session (R.insert (new_action m msg text due actor)))
    log_stored m.conversation_id due text stored

  -- The horizon, the row and the audit event.
  store : Inbound → List ℕ → ℕ → ℕ → List ℕ → Actor → N R T Extracted
  unfolding store_row strip
  store m msg now due text actor =
      if ltb (due + 5 * minute) now
      then pure (not_created due_in_past)
      else if ltb (now + max_days * one_day) due
      then pure (not_created due_too_far)
      else store_row m msg due (take 600 (strip (or_text text (take 160 msg)))) actor

  -- The fallback on the light model. A confidence that is no number raises outside every `try`.
  by_light : Inbound → List ℕ → ℕ → LightReply → N R T Extracted
  unfolding store strip
  by_light m msg now light_error = do
    lift (log_event (prospective_memory_extract_error m.conversation_id))
    pure (not_created light_model_error)
  by_light m msg now no_due = pure (not_created no_commitment)
  by_light m msg now (answered unreadable due text) = raise value_error
  by_light m msg now (answered unsure due text) = pure (not_created low_confidence)
  by_light m msg now (answered sure none text) = pure (not_created bad_due_at)
  by_light m msg now (answered sure (some due) none) =
      store m msg now due (take 600 (strip (take 160 msg))) gemma_intent
  by_light m msg now (answered sure (some due) (some text)) =
      store m msg now due (take 600 (strip (or_text text (take 160 msg)))) gemma_intent

  by_parse : Inbound → List ℕ → ℕ → Option ℕ → N R T Extracted
  unfolding by_light store
  by_parse m msg now none = by_light m msg now (light msg)
  by_parse m msg now (some due) = store m msg now due (reminder_text msg) deterministic

  read_message : Inbound → List ℕ → N R T Extracted
  unfolding by_parse has_future_cue
  read_message m msg =
      if is_empty msg || ltb 1000 (length msg) || not (has_future_cue msg)
      then pure (not_created no_future_cue)
      else (do now ← utcnow; by_parse m msg now (deterministic_parse X msg now))

  by_sender : Bool → Inbound → N R T Extracted
  unfolding read_message strip
  by_sender false m = pure (not_created non_guardian)
  by_sender true m = read_message m (strip m.message)

  unfoldable pub extract : Bool → Inbound → N R T Extracted
  unfolding by_sender
  extract enabled m = elim enabled [
    | false ↦ pure (not_created disabled)
    | true ↦ by_sender m.is_guardian m
  ]
