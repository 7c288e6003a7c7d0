-- ===== src/ModuleLifecycle.antt =====
-- app/brain/module_lifecycle.py, with the health of app/brain/module_runtime.py and the rollback test
-- of app/brain/canary_controller.py, for one child module. Scores are in hundredths and error rates
-- in ten-thousandths, as their columns hold them, and means are compared without rounding.
pub mod Growth
use tachy_cognitive_ai_agent.Common.{
  ℕ, zero, suc, ◌+◌, ◌*◌, ◌/◌, Bool, true, false, not, ◌&&◌, ◌||◌, String, Option, none, some, List,
  [], ◌∷◌, ◌++◌, ltb, leb, ◌==◌, length, take, if◌then◌else◌,
}

pub data Stage : Type 0 where
  inactive shadow canary_5 canary_25 active failed rollback disabled : Stage

pub data Risk : Type 0 where
  low medium high critical : Risk

pub record Settings : Type 0 where
  pub autonomous_activation : Bool
  -- `none`: a text that is no risk level.
  pub max_autonomous_risk : Option Risk
  pub min_score_low : ℕ
  pub min_score_medium : ℕ
  pub min_score_high : ℕ
  pub canary_min_samples : ℕ

pub record Envelope : Type 0 where
  pub risk_level : Risk
  pub approval_request_id : Option ℕ
  pub requires_approval : Bool

pub record Sample : Type 0 where
  pub health_score : ℕ
  pub error_rate : ℕ
  -- Milliseconds.
  pub latency : ℕ
  pub violations : ℕ
  pub leak : Bool

pub record ControlLog : Type 0 where
  pub version : String
  pub old_status : Stage
  pub new_status : Stage
  pub approved_by : Option String

-- The rows of one module in the tables, the newest sample first and the newest log last, and the
-- guardian reports sent about it.
pub record Module : Type 0 where
  pub status : Stage
  pub version : String
  pub active_version : Option String
  pub last_eval_score : Option ℕ
  pub envelope : Option Envelope
  pub samples : List Sample
  pub log : List ControlLog
  pub reports : ℕ

-- What running the module's code gives: it does not load, or it ends, well or not, after so many
-- microseconds.
pub data Probe : Type 0 where
  load_failed : Probe
  finished : Bool → ℕ → Probe

abbrev pub next_stage : Stage → Option Stage
next_stage shadow = some canary_5
next_stage canary_5 = some canary_25
next_stage canary_25 = some active
next_stage _ = none

abbrev pub risk_order : Risk → ℕ
risk_order low = 1
risk_order medium = 2
risk_order high = 3
risk_order critical = 4

-- `_RISK_ORDER.get(s.self_module_max_autonomous_risk, 2)`
abbrev pub ceiling : Option Risk → ℕ
ceiling none = 2
ceiling (some r) = risk_order r

abbrev pub score_threshold : Settings → Risk → ℕ
score_threshold s low = s.min_score_low
score_threshold s medium = s.min_score_medium
score_threshold s high = s.min_score_high
score_threshold s critical = 101

unfoldable pub may_activate : Settings → Risk → Bool
may_activate s risk =
    s.autonomous_activation && leb (risk_order risk) (ceiling s.max_autonomous_risk)

-- `_record_sample`
abbrev sample_of : Bool → ℕ → Sample
sample_of is_ok latency = record {
  health_score = if not is_ok then 4000 else if ltb 1500000 latency then 7500 else 10000;
  error_rate = if is_ok then 0 else 10000;
  latency = latency / 1000;
  violations = 0;
  leak = false;
}

abbrev probe_sample : Probe → Sample
probe_sample load_failed = sample_of false 0
probe_sample (finished is_ok latency) = sample_of is_ok latency

-- `run_shadow`: the output is discarded; the sample is lost where its session fails.
unfoldable pub run_shadow : Bool → Probe → Module → Module
run_shadow broken p m = if broken then m else record m { samples = probe_sample p ∷ m.samples }

pub record Health : Type 0 where
  pub samples : ℕ
  pub score_sum : ℕ
  pub error_sum : ℕ
  pub violations : ℕ
  pub leak : Bool

abbrev add_sample : Sample → Health → Health
add_sample x h = record {
  samples = suc h.samples;
  score_sum = x.health_score + h.score_sum;
  error_sum = x.error_rate + h.error_sum;
  violations = x.violations + h.violations;
  leak = x.leak || h.leak;
}

unfoldable pub totals : List Sample → Health
totals [] = record { samples = 0; score_sum = 0; error_sum = 0; violations = 0; leak = false }
totals (x ∷ xs) = add_sample x (totals xs)

-- `health`, over the newest ten samples.
unfoldable pub health : Module → Health
unfolding totals
health m = totals (take 10 m.samples)

-- `auto_rollback_if_needed`: a violation, a leak, a mean error rate above 0.02, or a mean score
-- below 80. Without samples the score counts as 100 and the rate as 0.
unfoldable pub is_red : Health → Bool
is_red h =
    ltb 0 h.violations
    || h.leak
    || ltb (200 * h.samples) h.error_sum
    || ltb h.score_sum (8000 * h.samples)

unfoldable pub set_status : Stage → Option String → Option String → Module → Module
set_status new active_version approved_by m = record m {
  status = new;
  active_version = elim active_version [ none ↦ m.active_version | some v ↦ some v ];
  log =
      m.log
      ++ record {
        version = m.version;
        old_status = m.status;
        new_status = new;
        approved_by = approved_by;
      }
        ∷ [];
}

pub data Action : Type 0 where
  missing terminal needs_rohit hold rolled_back gathering promoted : Action

abbrev report : Module → Module
report m = record m { reports = m.reports + 1 }

-- The function `rollback`.
unfoldable pub roll_back : Module → Module
unfolding set_status
roll_back m = report (set_status rollback none none m)

-- `_request_rohit_if_needed` reports unless an approval has been requested.
abbrev request_rohit : Module → Module
request_rohit m = elim m.envelope [
  | none ↦ report m
  | some e ↦ elim e.approval_request_id [
    | none ↦ report m
    | some zero ↦ report m
    | some (suc i) ↦ m
  ]
]

abbrev pub risk_of : Option Envelope → Risk
risk_of none = low
risk_of (some e) = e.risk_level

abbrev pub score_of : Module → ℕ
score_of m = elim m.last_eval_score [ none ↦ 0 | some s ↦ s ]

abbrev pub is_shadow : Stage → Bool
is_shadow shadow = true
is_shadow _ = false

abbrev pub is_active : Stage → Bool
is_active active = true
is_active _ = false

unfoldable pub promote : Stage → Module → Module
unfolding set_status
promote next m =
    let version = if is_active next then some m.version else none in
    let m' = set_status next version (some "shree") m in if is_active next then report m' else m'

-- The gates after the shadow run.
unfoldable pub gates : Settings → Stage → Module → Action × Module
unfolding health is_red roll_back promote
gates s next m =
    if ltb (score_of m) (100 * score_threshold s (risk_of m.envelope))
    then (hold, m)
    else if is_red (health m)
    then (rolled_back, roll_back m)
    else if ltb (health m).samples s.canary_min_samples && not (is_shadow m.status)
    then (gathering, m)
    else (promoted, promote next m)

unfoldable pub advance : Settings → Bool → Probe → Module → Action × Module
unfolding may_activate run_shadow gates
advance s broken p m = elim (next_stage m.status) [
  | none ↦ (terminal, m)
  | some next ↦
      if may_activate s (risk_of m.envelope)
      then gates s next (run_shadow broken p m)
      else (needs_rohit, request_rohit m)
]

-- Several worker ticks, each with what its probe gave.
unfoldable pub advance_all : Settings → List (Bool × Probe) → Module → Module
advance_all s [] m = m
advance_all s ((broken, p) ∷ ps) m = advance_all s ps (advance s broken p m).1

-- The guardian's approval.
unfoldable pub approve : String → Module → Module
unfolding set_status
approve approved_by m =
    let cleared = record m {
      envelope = elim m.envelope [
        | none ↦ none
        | some e ↦ some (record e { approval_request_id = none; requires_approval = false })
      ];
    } in
    set_status canary_5 none (some approved_by) cleared
