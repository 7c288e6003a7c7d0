-- ===== src/Safety/World.antt =====
-- What the approval store and the action engine share: a row of `cognitive_approvals`
-- (app/db/models.py), the audit log (app/safety/audit_logger.py), database sessions that may fail
-- and roll back (`session_scope` of app/db/models.py), and the monad of calls that may raise.
use tachy_cognitive_ai_agent.Common.{ℕ, Bool, true, false, String, Option, List, [], ◌∷◌, ◌++◌}
use tachy_cognitive_ai_agent.Database.{TableOps}
use tachy_cognitive_ai_agent.Safety.Policy.{RiskTier}

pub data Status : Type 0 where
  pending approved rejected executing succeeded failed superseded : Status

-- Times are in microseconds. A row's key is the table's.
pub record Approval : Type 0 where
  pub action : String
  pub payload : Option String
  pub risk_tier : RiskTier
  pub status : Status
  pub requested_at : ℕ
  pub decided_at : Option ℕ
  pub execution_started_at : Option ℕ
  pub execution_completed_at : Option ℕ

-- The events, with the values that the source formats into `detail`.
pub data AuditEvent : Type 0 where
  approval_requested : ℕ → String → Option String → RiskTier → AuditEvent
  approval_decided : ℕ → String → Status → RiskTier → AuditEvent
  approval_execution_claimed : ℕ → String → RiskTier → AuditEvent
  approval_execution_completed : ℕ → Status → RiskTier → AuditEvent
  approval_superseded : ℕ → String → RiskTier → AuditEvent
  action_rejected : String → AuditEvent
  action_proposed : String → ℕ → RiskTier → AuditEvent
  action_executed : String → Bool → Option ℕ → RiskTier → AuditEvent
  action_execution_failed : String → ℕ → RiskTier → AuditEvent
  approval_payload_mismatch : ℕ → String → AuditEvent
  tody_send_executed : ℕ → ℕ → ℕ → AuditEvent
  tody_send_failed : ℕ → AuditEvent
  prospective_memory_created : ℕ → ℕ → ℕ → AuditEvent
  prospective_memory_extract_error prospective_memory_db_error : ℕ → AuditEvent
  prospective_memory_fired : ℕ → ℕ → ℕ → Bool → AuditEvent
  prospective_memory_fire_error prospective_memory_cancelled : ℕ → AuditEvent

-- `memory_type="decision"` memories of the action engine: title, and `importance_score`.
pub record DecisionMemory : Type 0 where
  pub action : String
  pub done : Bool
  pub importance_score : ℕ

-- `faults` says of each coming write whether it fails; after its end none does. `calls` records the
-- calls of `ActionSpec.run`, which reach outside.
pub record World (T : TableOps Approval) (Call : Type 0) : Type 0 where
  pub approvals : T.Table
  pub audit : List AuditEvent
  pub audit_file : List AuditEvent
  pub memories : List DecisionMemory
  pub calls : List Call
  pub faults : List Bool
  pub clock : ℕ

pub data Error : Type 0 where
  db_error handler_error attribute_error value_error : Error

pub data Outcome {ℓ} (A : Type ℓ) : Type ℓ where
  returned : A → Outcome A
  raised : Error → Outcome A

-- A call returns or raises, and what was written stays written.
abbrev pub M : TableOps Approval → Type 0 → Type 0 → Type 0
M T Call A = World T Call → Outcome A × World T Call

abbrev pub next_fault : List Bool → Bool × List Bool
next_fault [] = (false, [])
next_fault (f ∷ fs) = (f, fs)

module _ {T : TableOps Approval} {Call : Type 0} where
  abbrev pub pure : {A : Type 0} → A → M T Call A
  pure a w = (returned a, w)

  abbrev pub raise : {A : Type 0} → Error → M T Call A
  raise e w = (raised e, w)

  abbrev pub gets : {A : Type 0} → (World T Call → A) → M T Call A
  gets f w = (returned (f w), w)

  -- `with session_scope() as s:` around the body `f`: committed whole, or rolled back and raised.
  unfoldable pub session : {A : Type 0} → (T.Table → A × T.Table) → M T Call A
  session f w =
      let (broken, fs) = next_fault w.faults in
      let (a, t) = f w.approvals in
      elim broken [
        | true ↦ (raised db_error, record w { faults = fs })
        | false ↦ (returned a, record w { approvals = t; faults = fs })
      ]

  unfoldable pub log_event : AuditEvent → M T Call (Unit {0})
  log_event e w =
      let (broken, fs) = next_fault w.faults in
      elim broken [
        | true ↦ (raised db_error, record w { faults = fs })
        | false ↦ (returned tt, record w { audit = w.audit ++ e ∷ []; faults = fs })
      ]

  -- The fallback file, whose own failure is swallowed.
  append_file : AuditEvent → M T Call (Unit {0})
  append_file e w =
      let (broken, fs) = next_fault w.faults in
      elim broken [
        | true ↦ (returned tt, record w { faults = fs })
        | false ↦ (returned tt, record w { audit_file = w.audit_file ++ e ∷ []; faults = fs })
      ]

  unfoldable pub log_event_safe : AuditEvent → M T Call (Unit {0})
  unfolding log_event append_file
  log_event_safe e w =
      let (o, w') = log_event e w in
      elim o [ returned _ ↦ (returned tt, w') | raised _ ↦ append_file e w' ]

  -- `base_memory.add` as the action engine calls it.
  unfoldable pub remember : DecisionMemory → M T Call (Unit {0})
  remember m w =
      let (broken, fs) = next_fault w.faults in
      elim broken [
        | true ↦ (raised db_error, record w { faults = fs })
        | false ↦ (returned tt, record w { memories = w.memories ++ m ∷ []; faults = fs })
      ]

infixl 5 ◌>>=◌ ◌>>◌
abbrev pub ◌>>=◌ :
    {T : TableOps Approval} {Call A B : Type 0} → M T Call A → (A → M T Call B) → M T Call B
◌>>=◌ m f w = let (o, w') = m w in elim o [ returned a ↦ f a w' | raised e ↦ (raised e, w') ]

abbrev pub ◌>>◌ : {T : TableOps Approval} {Call A B : Type 0} → M T Call A → M T Call B → M T Call B
m >> k = m >>= λ _. k
