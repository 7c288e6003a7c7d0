-- ===== src/Tests/Repair.antt =====
-- The repair queue at concrete inputs.
use Prim.Native.Nat.{ℕ}
use tachy_cognitive_ai_agent.Common.{
  ◌≡◌, if◌then◌else◌, refl, true, false, String, Option, none, some, List, [], ◌∷◌,
}
use tachy_cognitive_ai_agent.Common.Int.{ℤ, pos}
use tachy_cognitive_ai_agent.Common.Text.{codes, text_eq}
use tachy_cognitive_ai_agent.RepairQueue.{
  observing, fixed, escalated, Intention, Note, QueueOps, slug, note_failure, mark,
}
use tachy_cognitive_ai_agent.RepairQueue.Tiers.{
  status_of, note_all, fixed_escalates, IsComplaint, stranger_only_observes,
}
use tachy_cognitive_ai_agent.RepairQueue.Queue.{mark-note_failure}

abbrev note : ℤ → String → Note
note tier person = record {
  tier = tier;
  source = codes "conversation";
  sample = codes "itna lamba";
  conversation_id = some 7;
  person = some person;
  guardian = false;
  fix_class = "directive";
}

abbrev fixed_row : Intention
fixed_row = record {
  evidence_tier = 2;
  fix_class = "directive";
  recurrence = 3;
  guardian_involved = false;
  people = "asha" ∷ "ravi" ∷ [];
  sample = [];
  source = [];
  conversation_id = none;
  status = fixed;
  last_seen = 4;
  repaired_at = some 4;
  repair_note = none;
}

fixed_escalates_example :
    status_of
      (note_all ((9, note (pos 1) "asha") ∷ (10, note (pos 1) "ravi") ∷ []) (some fixed_row))
    ≡ some escalated
fixed_escalates_example =
    fixed_escalates 9 (note (pos 1) "asha") ((10, note (pos 1) "ravi") ∷ []) fixed_row refl

complaint : (p : String) (now : ℕ) → IsComplaint p (now, note (pos 2) p)
complaint p now = record { tier = refl; stranger = refl; person = refl }

stranger_only_observes_example :
    status_of (note_all ((9, note (pos 2) "asha") ∷ (10, note (pos 2) "asha") ∷ []) none)
    ≡ some observing
stranger_only_observes_example =
    stranger_only_observes "asha" 9 (note (pos 2) "asha") ((10, note (pos 2) "asha") ∷ [])
      (complaint "asha" 9, (complaint "asha" 10, tt))

-- A queue that is a function of the signature.
abbrev queue : QueueOps
queue = record {
  Table = List ℕ → Option Intention;
  get = λ t k. t k;
  put = λ k r t j. if text_eq j k then some r else t j;
  get-put = λ k r t j. refl;
}

mark-note_failure_example :
    let t' =
      (mark queue false 9 (codes "Reply too long") (some fixed) [] (λ k. some fixed_row)).1 in
    status_of (
      queue.get
        (note_failure queue true false 10 (codes "Reply too long") (note (pos 2) "asha") t').1
        (slug (codes "Reply too long")))
    ≡ some escalated
mark-note_failure_example =
    mark-note_failure queue 9 10 (codes "Reply too long") [] (note (pos 2) "asha")
      (λ k. some fixed_row) fixed_row refl
