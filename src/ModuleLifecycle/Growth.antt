-- ===== src/ModuleLifecycle/Growth.antt =====
-- How far a child module can grow without the guardian: app/brain/module_lifecycle.py over any
-- number of worker ticks.
use tachy_cognitive_ai_agent.Common.{
  ℕ, zero, suc, ◌+◌, ◌*◌, ◌≤◌, ◌<◌, ◌≡◌, refl, ap, ◌∙◌, Bool, true, false, String, Option, none,
  some, List, [], ◌∷◌, arith, length, take, Bool-cases, inl, inr,
}
use tachy_cognitive_ai_agent.ModuleLifecycle.{
  Stage, shadow, canary_5, canary_25, active, Settings, Envelope, Module, Probe, hold, rolled_back,
  next_stage, risk_order, ceiling, score_threshold, may_activate, run_shadow, health, is_red,
  roll_back, risk_of, score_of, advance, advance_all, approve, Sample, totals, gates, promote,
  set_status, is_active,
}

not_permitted :
    (s : Settings) (broken : Bool) (p : Probe) (m : Module)
    → may_activate s (risk_of m.envelope) ≡ false
    → ((advance s broken p m).1.status ≡ m.status)
      × ((advance s broken p m).1.envelope ≡ m.envelope)
unfolding advance
not_permitted s broken p m h = ground arith

-- Stages count down to `active`.
abbrev steps_left : Stage → ℕ
steps_left shadow = 3
steps_left canary_5 = 2
steps_left canary_25 = 1
steps_left active = 0
steps_left _ = 4

steps_left-advance :
    (s : Settings) (broken : Bool) (p : Probe) (m : Module)
    → steps_left m.status ≤ steps_left (advance s broken p m).1.status + 1
unfolding advance
steps_left-advance s broken p m = ground arith

stays :
    (s : Settings) (broken : Bool) (p : Probe) (m : Module)
    → next_stage m.status ≡ none
    → (advance s broken p m).1 ≡ m
unfolding advance
stays s broken p m h = ground arith

steps_left-advance_all :
    (s : Settings) (ps : List (Bool × Probe)) (m : Module)
    → steps_left m.status ≤ steps_left (advance_all s ps m).status + length ps
unfolding advance_all
steps_left-advance_all s [] m = omega arith
steps_left-advance_all s ((broken, p) ∷ ps) m =
    omega
      (arith, steps_left-advance s broken p m, steps_left-advance_all s ps (advance s broken p m).1)

-- Growth is slow: a module in shadow is active only after three ticks at least, whatever its probes
-- give.
pub active_needs_three_ticks :
    (s : Settings) (ps : List (Bool × Probe)) (m : Module)
    → m.status ≡ shadow
    → (advance_all s ps m).status ≡ active
    → 3 ≤ length ps
active_needs_three_ticks s ps m h a = ground (arith, steps_left-advance_all s ps m)

-- A module outside the pipeline (inactive, active, failed, rolled back or disabled) is left exactly
-- as it is by any number of ticks.
pub advance_all-stays :
    (s : Settings) (ps : List (Bool × Probe)) (m : Module)
    → next_stage m.status ≡ none
    → advance_all s ps m ≡ m
unfolding advance_all
advance_all-stays s [] m h = refl
advance_all-stays s ((broken, p) ∷ ps) m h =
    ap (advance_all s ps) (stays s broken p m h) ∙ advance_all-stays s ps m h

length-take : {A : Type 0} (n : ℕ) (xs : List A) → length (take n xs) ≤ length xs
length-take zero xs = omega arith
length-take (suc n) [] = omega arith
length-take (suc n) (x ∷ xs) = omega (arith, length-take n xs)

samples-totals : (xs : List Sample) → (totals xs).samples ≡ length xs
unfolding totals
samples-totals [] = refl
samples-totals (x ∷ xs) = omega (arith, samples-totals xs)

samples-health : (m : Module) → (health m).samples ≤ length m.samples
unfolding health
samples-health m = omega (arith, samples-totals (take 10 m.samples), length-take 10 m.samples)

-- What a module in the pipeline has when a tick makes it active.
pub record IsEarned (s : Settings) (m m' : Module) : Type 0 where
  pub switched_on : s.autonomous_activation ≡ true
  pub within : risk_order (risk_of m.envelope) ≤ ceiling s.max_autonomous_risk
  pub scored : 100 * score_threshold s (risk_of m.envelope) ≤ score_of m
  pub sampled : s.canary_min_samples ≤ length m'.samples

advance-IsEarned :
    (s : Settings) (broken : Bool) (p : Probe) (m : Module)
    → is_active m.status ≡ false
    → (advance s broken p m).1.status ≡ active
    → IsEarned s m (advance s broken p m).1
unfolding advance may_activate run_shadow gates promote set_status roll_back
advance-IsEarned s broken p m n a = ground (arith, samples-health (run_shadow broken p m))

is_active-eq : (m : Module) → is_active m.status ≡ true → m.status ≡ active
is_active-eq m h = ground arith

ended : (m : Module) → is_active m.status ≡ true → next_stage m.status ≡ none
ended m h = ground arith

advance-same :
    (s : Settings) (broken : Bool) (p : Probe) (m : Module)
    → ((advance s broken p m).1.envelope ≡ m.envelope)
      × ((advance s broken p m).1.last_eval_score ≡ m.last_eval_score)
unfolding advance run_shadow gates promote set_status roll_back
advance-same s broken p m = ground arith

advance_all-IsEarned :
    (s : Settings) (ps : List (Bool × Probe)) (m : Module)
    → is_active m.status ≡ false
    → (advance_all s ps m).status ≡ active
    → IsEarned s m (advance_all s ps m)
unfolding advance_all
advance_all-IsEarned s [] m n a = absurd (ground (arith, n, a))
advance_all-IsEarned s ((broken, p) ∷ ps) m n a =
    let m' = (advance s broken p m).1 in
    let (env, score) = advance-same s broken p m in
    elim (Bool-cases (is_active m'.status)) [
      | inl yes_active ↦
          let same = advance_all-stays s ps m' (ended m' yes_active) in
          rw same (advance-IsEarned s broken p m n (is_active-eq m' yes_active))
      | inr not_yet ↦
          let e = advance_all-IsEarned s ps m' not_yet a in
          record {
            switched_on = e.switched_on;
            within = ground (arith, e.within, env);
            scored = ground (arith, e.scored, env, score);
            sampled = e.sampled;
          }
    ]

-- Growth is earned: a module that is in shadow and after any number of ticks is active got there
-- with autonomous activation on, a risk within the configured ceiling, a score that reaches the
-- threshold of its risk, at least the configured number of health samples, and at least three ticks,
-- whatever its probes gave and whichever sessions failed.
pub grown-IsEarned :
    (s : Settings) (ps : List (Bool × Probe)) (m : Module)
    → m.status ≡ shadow
    → (advance_all s ps m).status ≡ active
    → IsEarned s m (advance_all s ps m) × (3 ≤ length ps)
grown-IsEarned s ps m h a =
    (advance_all-IsEarned s ps m (rw h refl) a, active_needs_three_ticks s ps m h a)

not_permitted_all :
    (s : Settings) (ps : List (Bool × Probe)) (m : Module)
    → may_activate s (risk_of m.envelope) ≡ false
    → (advance_all s ps m).status ≡ m.status
unfolding advance_all
not_permitted_all s [] m h = refl
not_permitted_all s ((broken, p) ∷ ps) m h =
    let (same, env) = not_permitted s broken p m h in
    not_permitted_all s ps (advance s broken p m).1 (ap (λ e. may_activate s (risk_of e)) env ∙ h)
    ∙ same

beyond_ceiling :
    (s : Settings) (e : Option Envelope)
    → ceiling s.max_autonomous_risk ≤ 2
    → 3 ≤ risk_order (risk_of e)
    → may_activate s (risk_of e) ≡ false
unfolding may_activate
beyond_ceiling s e c r = ground arith

-- Where the configured ceiling is low, medium or no risk level, no number of ticks changes the stage
-- of a module of high or critical risk.
pub high_risk_never_grows :
    (s : Settings) (ps : List (Bool × Probe)) (m : Module)
    → ceiling s.max_autonomous_risk ≤ 2
    → 3 ≤ risk_order (risk_of m.envelope)
    → (advance_all s ps m).status ≡ m.status
high_risk_never_grows s ps m c r = not_permitted_all s ps m (beyond_ceiling s m.envelope c r)

approve_lem :
    (approved_by : String) (m : Module)
    → ((approve approved_by m).status ≡ canary_5)
      × (risk_of (approve approved_by m).envelope ≡ risk_of m.envelope)
unfolding approve
approve_lem approved_by m = ground arith

-- The guardian's approval of a module of high or critical risk puts it into the first canary stage,
-- and under such a ceiling it stays there however many ticks follow.
pub approved_high_risk_is_stuck :
    (s : Settings) (approved_by : String) (ps : List (Bool × Probe)) (m : Module)
    → ceiling s.max_autonomous_risk ≤ 2
    → 3 ≤ risk_order (risk_of m.envelope)
    → (advance_all s ps (approve approved_by m)).status ≡ canary_5
approved_high_risk_is_stuck s approved_by ps m c r =
    let (stage, risk) = approve_lem approved_by m in
    high_risk_never_grows s ps (approve approved_by m) c (rw risk r) ∙ stage

-- Red health ends a module's growth in one tick, if the module is within the autonomous ceiling and
-- its score reaches the threshold: it is rolled back, and logged so.
pub red_rolls_back :
    (s : Settings) (broken : Bool) (p : Probe) (m : Module) (next : Stage)
    → next_stage m.status ≡ some next
    → may_activate s (risk_of m.envelope) ≡ true
    → 100 * score_threshold s (risk_of m.envelope) ≤ score_of m
    → is_red (health (run_shadow broken p m)) ≡ true
    → advance s broken p m ≡ (rolled_back, roll_back (run_shadow broken p m))
unfolding advance
red_rolls_back s broken p m next n may score red = ground arith

-- A module whose score is below the threshold keeps its stage in a tick, and is not rolled back
-- however red its health.
pub low_score_holds :
    (s : Settings) (broken : Bool) (p : Probe) (m : Module) (next : Stage)
    → next_stage m.status ≡ some next
    → may_activate s (risk_of m.envelope) ≡ true
    → score_of m < 100 * score_threshold s (risk_of m.envelope)
    → advance s broken p m ≡ (hold, run_shadow broken p m)
unfolding advance
low_score_holds s broken p m next n may score = ground arith
