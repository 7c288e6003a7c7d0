-- ===== src/ProspectiveMemory/Kept.antt =====
-- What `extract` of app/brain/prospective_memory.py keeps.
use tachy_cognitive_ai_agent.Common.{
  ℕ, ◌+◌, ◌*◌, ◌≤◌, ◌≡◌, refl, sym, inl, inr, Bool, true, false, Bool-cases, not, ◌||◌, Option,
  none, some, List, [], ltb, length, take, arith,
}
use tachy_cognitive_ai_agent.Common.Text.{strip}
use tachy_cognitive_ai_agent.Database.{TableOps, IsLawful}
use tachy_cognitive_ai_agent.Safety.World.{Approval, returned, log_event}
use tachy_cognitive_ai_agent.WallClock.{minute, one_day}
use tachy_cognitive_ai_agent.ProspectiveMemory.Parse.{
  Patterns, InWindow, max_days, deterministic_parse, deterministic_parse-InWindow,
}
use tachy_cognitive_ai_agent.ProspectiveMemory.{
  ScheduledAction, pending, Actor, Memory, LightReply, light_error, no_due, answered, sure, unsure,
  unreadable, created, Inbound, has_future_cue, is_empty, or_text, deterministic, gemma_intent,
  new_action, session, log_stored, store_row, store, by_light, by_parse, read_message, by_sender,
  extract,
}

module _ {R : TableOps ScheduledAction} {T : TableOps Approval} where
  -- A pending reminder of the message's conversation is kept under `id`.
  pub record Kept (m : Inbound) (now id due : ℕ) (text : List ℕ) (s : Memory R T) : Type 0 where
    pub row : ScheduledAction
    pub at : R.get s.actions id ≡ some row
    pub status : row.status ≡ pending
    pub conversation : row.conversation_id ≡ m.conversation_id
    pub due_is : row.due_at ≡ due
    pub text_is : row.text ≡ text
    pub not_past : now ≤ due + 5 * minute
    pub not_far : due ≤ now + max_days * one_day

-- What is to be reminded of: what the rule takes from the message, or else the message's start.
abbrev pub kept_text : (List ℕ → List ℕ) → List ℕ → List ℕ
kept_text reminder_text msg = take 600 (strip (or_text (reminder_text msg) (take 160 msg)))

module _ {R : TableOps ScheduledAction} (L : IsLawful R) {T : TableOps Approval} (X : Patterns)
    (reminder_text : List ℕ → List ℕ) (light : List ℕ → LightReply) where
  store_row_lem :
      (m : Inbound) (msg : List ℕ) (due : ℕ) (text : List ℕ) (actor : Actor) (s : Memory R T)
      (id d : ℕ) (t : List ℕ)
      → (store_row X reminder_text light m msg due text actor s).0 ≡ returned (created id d t)
      → (d ≡ due)
        × (t ≡ text)
        × (R.get (store_row X reminder_text light m msg due text actor s).1.actions id
            ≡ some (new_action m msg text due actor))
  unfolding store_row log_stored session log_event
  store_row_lem m msg due text actor s id d t h =
      let row = new_action m msg text due actor in
      (
        ground arith,
        ground arith,
        ground (arith, L.get-insert row s.actions (R.insert row s.actions).0),
      )

  Kept-store_row :
      (m : Inbound) (msg : List ℕ) (now due : ℕ) (text : List ℕ) (actor : Actor) (s : Memory R T)
      (id d : ℕ) (t : List ℕ)
      → now ≤ due + 5 * minute
      → due ≤ now + max_days * one_day
      → (store_row X reminder_text light m msg due text actor s).0 ≡ returned (created id d t)
      → Kept m now id d t (store_row X reminder_text light m msg due text actor s).1
  Kept-store_row m msg now due text actor s id d t p q h =
      let (e, f, g) = store_row_lem m msg due text actor s id d t h in
      record {
        row = new_action m msg text due actor;
        at = g;
        status = refl;
        conversation = refl;
        due_is = sym e;
        text_is = sym f;
        not_past = omega arith;
        not_far = omega arith;
      }

  Kept-store :
      (m : Inbound) (msg : List ℕ) (now due : ℕ) (text : List ℕ) (actor : Actor) (s : Memory R T)
      (id d : ℕ) (t : List ℕ)
      → (store X reminder_text light m msg now due text actor s).0 ≡ returned (created id d t)
      → Kept m now id d t (store X reminder_text light m msg now due text actor s).1
  unfolding store
  Kept-store m msg now due text actor s id d t h = elim (Bool-cases (ltb (due + 5 * minute) now)) [
    | inl past ↦ absurd (cc (rw past at h))
    | inr p ↦ elim (Bool-cases (ltb (now + max_days * one_day) due)) [
      | inl far ↦ absurd (cc (rw far at (rw p at h)))
      | inr q ↦ rw p (
          rw q (
            Kept-store_row m msg now due (take 600 (strip (or_text text (take 160 msg)))) actor s id
              d t (ground (arith, p)) (ground (arith, q)) (rw q at (rw p at h))))
    ]
  ]

  Kept-by_light :
      (m : Inbound) (msg : List ℕ) (now : ℕ) (a : LightReply) (s : Memory R T) (id d : ℕ)
      (t : List ℕ)
      → (by_light X reminder_text light m msg now a s).0 ≡ returned (created id d t)
      → Kept m now id d t (by_light X reminder_text light m msg now a s).1
  unfolding by_light log_event
  Kept-by_light m msg now light_error s id d t h = absurd (ground arith)
  Kept-by_light m msg now no_due s id d t h = cc
  Kept-by_light m msg now (answered unreadable due text) s id d t h = cc
  Kept-by_light m msg now (answered unsure due text) s id d t h = cc
  Kept-by_light m msg now (answered sure none text) s id d t h = cc
  Kept-by_light m msg now (answered sure (some due) none) s id d t h =
      Kept-store m msg now due (take 600 (strip (take 160 msg))) gemma_intent s id d t h
  Kept-by_light m msg now (answered sure (some due) (some text)) s id d t h =
      Kept-store m msg now due (take 600 (strip (or_text text (take 160 msg)))) gemma_intent s id d
        t h

  Kept-by_parse :
      (m : Inbound) (msg : List ℕ) (now : ℕ) (o : Option ℕ) (s : Memory R T) (id d : ℕ) (t : List ℕ)
      → (by_parse X reminder_text light m msg now o s).0 ≡ returned (created id d t)
      → Kept m now id d t (by_parse X reminder_text light m msg now o s).1
  unfolding by_parse
  Kept-by_parse m msg now none s id d t h = Kept-by_light m msg now (light msg) s id d t h
  Kept-by_parse m msg now (some due) s id d t h =
      Kept-store m msg now due (reminder_text msg) deterministic s id d t h

  Kept-read_message :
      (m : Inbound) (msg : List ℕ) (s : Memory R T) (id d : ℕ) (t : List ℕ)
      → (read_message X reminder_text light m msg s).0 ≡ returned (created id d t)
      → Kept m s.world.clock id d t (read_message X reminder_text light m msg s).1
  unfolding read_message
  Kept-read_message m msg s id d t h =
      elim (Bool-cases (is_empty msg || ltb 1000 (length msg) || not (has_future_cue msg))) [
        | inl e ↦ absurd (cc (rw (e, read_message) at h))
        | inr e ↦
            rw (e, read_message)
              (Kept-by_parse m msg s.world.clock _ s id d t (rw (e, read_message) at h))
      ]

  Kept-by_sender :
      (is_guardian : Bool) (m : Inbound) (s : Memory R T) (id d : ℕ) (t : List ℕ)
      → (by_sender X reminder_text light is_guardian m s).0 ≡ returned (created id d t)
      → (is_guardian ≡ true)
        × Kept m s.world.clock id d t (by_sender X reminder_text light is_guardian m s).1
  unfolding by_sender
  Kept-by_sender false m s id d t h = absurd (cc)
  Kept-by_sender true m s id d t h = (refl, Kept-read_message m (strip m.message) s id d t h)

  -- The honesty rule: on a lawful table, `extract` reports a reminder as created only if it is
  -- enabled, the message is the guardian's, and a pending row with the reported time and text is in
  -- the table under the reported id, due no earlier than five minutes ago and within sixty days.
  pub extract-Kept :
      (enabled : Bool) (m : Inbound) (s : Memory R T) (id due : ℕ) (text : List ℕ)
      → (extract X reminder_text light enabled m s).0 ≡ returned (created id due text)
      → (enabled ≡ true)
        × (m.is_guardian ≡ true)
        × Kept m s.world.clock id due text (extract X reminder_text light enabled m s).1
  unfolding extract
  extract-Kept false m s id due text h = absurd (cc)
  extract-Kept true m s id due text h =
      let (g, k) = Kept-by_sender m.is_guardian m s id due text h in (refl, g, k)

  store_row_created :
      (m : Inbound) (msg : List ℕ) (due : ℕ) (text : List ℕ) (actor : Actor) (s : Memory R T)
      → s.world.faults ≡ []
      → (store_row X reminder_text light m msg due text actor s).0
        ≡ returned (created (R.insert (new_action m msg text due actor) s.actions).0 due text)
  unfolding store_row log_stored session log_event
  store_row_created m msg due text actor s f = ground (arith, f)

  parse_created :
      (m : Inbound) (msg : List ℕ) (now due : ℕ) (o : Option ℕ) (s : Memory R T)
      → s.world.faults ≡ []
      → o ≡ some due
      → InWindow now due
      → (id : ℕ) × ((by_parse X reminder_text light m msg now o s).0
          ≡ returned (created id due (kept_text reminder_text msg)))
  unfolding by_parse store
  parse_created m msg now due none s f e w = absurd (cc)
  parse_created m msg now due (some d) s f e w =
      let row = new_action m msg (kept_text reminder_text msg) due deterministic in
      let same_due : d ≡ due = ground arith in
      let past : ltb (due + 5 * minute) now ≡ false = ground arith in
      let far : ltb (now + max_days * one_day) due ≡ false = ground arith in
      (
        (R.insert row s.actions).0,
        rw same_due (
            rw past (
              rw far
                (store_row_created m msg due (kept_text reminder_text msg) deterministic s f))),
      )

  sender_created :
      (is_guardian : Bool) (m : Inbound) (s : Memory R T) (due : ℕ)
      → s.world.faults ≡ []
      → is_guardian ≡ true
      → (is_empty (strip m.message)
          || ltb 1000 (length (strip m.message))
          || not (has_future_cue (strip m.message)))
        ≡ false
      → deterministic_parse X (strip m.message) s.world.clock ≡ some due
      → (id : ℕ) × ((by_sender X reminder_text light is_guardian m s).0
          ≡ returned (created id due (kept_text reminder_text (strip m.message))))
  unfolding by_sender read_message
  sender_created false m s due f g c p = absurd (cc)
  sender_created true m s due f g c p =
      let msg = strip m.message in
      let w = deterministic_parse-InWindow X msg s.world.clock due p in
      rw (c, read_message)
        (parse_created m msg s.world.clock due (deterministic_parse X msg s.world.clock) s f p w)

  -- A reminder whose time the parser finds is kept: on a lawful table, where no transaction fails, a
  -- guardian's message of one to a thousand characters with a cue of the future, in which the parser
  -- finds a time, is reported as a created reminder for exactly that time, with the text that the
  -- reminder's rule takes from the message, whatever the light model would answer; and under the
  -- reported id a pending row of that conversation, time and text is in the table.
  pub parsed_is_created :
      (m : Inbound) (s : Memory R T) (due : ℕ)
      → s.world.faults ≡ []
      → m.is_guardian ≡ true
      → (is_empty (strip m.message)
          || ltb 1000 (length (strip m.message))
          || not (has_future_cue (strip m.message)))
        ≡ false
      → deterministic_parse X (strip m.message) s.world.clock ≡ some due
      → let (o, s') = extract X reminder_text light true m s in
        (id : ℕ) × (o ≡ returned (created id due (kept_text reminder_text (strip m.message))))
        × Kept m s.world.clock id due (kept_text reminder_text (strip m.message)) s'
  unfolding extract
  parsed_is_created m s due f g c p =
      let (id, e) = sender_created m.is_guardian m s due f g c p in
      (id, e, (extract-Kept true m s id due (kept_text reminder_text (strip m.message)) e).2)
