-- ===== src/RepairQueue/Queue.antt =====
-- The queue of app/brain/repair_queue.py as a table: `note_failure` and `mark` on it.
use mathlib.Core.Option.{some-injective}
use tachy_cognitive_ai_agent.Common.{
  ℕ, ◌≡◌, ap, ◌∙◌, Bool, true, false, not, ◌&&◌, Option, none, some, List, [], arith, if◌then◌else◌,
}
use tachy_cognitive_ai_agent.Common.Text.{text_eq, text_eq_refl}
use tachy_cognitive_ai_agent.RepairQueue.{
  RepairStatus, fixed, escalated, Intention, Note, QueueOps, slug, note_row, note_failure, mark,
  mark_row,
}
use tachy_cognitive_ai_agent.RepairQueue.Tiers.{status_of, note_all, fixed_escalates}

noted :
    (now : ℕ) (n : Note) (o : Option Intention)
    → status_of o ≡ some fixed
    → status_of (some (note_row now n o)) ≡ some escalated
unfolding note_all
noted now n none h = cc
noted now n (some row) h = fixed_escalates now n [] row (some-injective _ _ h)

module _ (Q : QueueOps) where
  -- `note_failure` writes what one occurrence makes of the row of the signature's slug, and no
  -- other row; disabled, or when its session fails, it writes nothing.
  note_failure-get :
      (enabled broken : Bool) (now : ℕ) (signature : List ℕ) (n : Note) (t : Q.Table) (j : List ℕ)
      → Q.get (note_failure Q enabled broken now signature n t).1 j ≡ (
          if (enabled && not broken) && text_eq j (slug signature)
          then some (note_row now n (Q.get t (slug signature)))
          else Q.get t j)
  unfolding note_failure
  note_failure-get enabled broken now signature n t j =
      let sig = slug signature in ground (arith, Q.get-put sig (note_row now n (Q.get t sig)) t j)

  mark_row-status :
      (now : ℕ) (sig : List ℕ) (status : RepairStatus) (note : List ℕ) (o : Option Intention)
      (t : Q.Table) (row : Intention)
      → o ≡ some row
      → status_of (Q.get (mark_row Q now sig status note o t).1 sig) ≡ some status
  unfolding mark_row
  mark_row-status now sig status note none t row h = cc
  mark_row-status now sig status note (some r) t row h = rw Q.get-put (rw (text_eq_refl sig))

  -- Self-repair does not oscillate: once a known signature has been marked as fixed, the next
  -- occurrence that is noted under the same signature, with no session failing, leaves its row
  -- escalated.
  pub mark-note_failure :
      (now later : ℕ) (signature note : List ℕ) (n : Note) (t : Q.Table) (row : Intention)
      → Q.get t (slug signature) ≡ some row
      → let t' = (mark Q false now signature (some fixed) note t).1 in
        status_of (Q.get (note_failure Q true false later signature n t').1 (slug signature))
        ≡ some escalated
  unfolding mark
  mark-note_failure now later signature note n t row h =
      let sig = slug signature in
      let t' = (mark Q false now signature (some fixed) note t).1 in
      ap status_of (note_failure-get true false later signature n t' sig)
      ∙ rw (text_eq_refl sig)
          (noted later n (Q.get t' sig) (mark_row-status now sig fixed note (Q.get t sig) t row h))
