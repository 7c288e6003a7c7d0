-- ===== src/RepairQueue/Tiers.antt =====
-- What evidence can do in app/brain/repair_queue.py: sequences of occurrences of one signature.
use native.Mathlib.Nat.{add-zero}
use tachy_cognitive_ai_agent.Common.{
  ℕ, ◌+◌, ◌≤◌, ◌≡◌, ◌≢◌, ap, ◌∙◌, refl, ◌⊎◌, Bool, true, false, String, Option, none, some, List,
  [], ◌∷◌, arith, eq_iff, str_eq, length, length-append, All, if◌then◌else◌,
}
use tachy_cognitive_ai_agent.RepairQueue.{
  RepairStatus, observing, ready, fixed, escalated, Intention, Note, clamp_tier, tier_of, merge,
  settle, note_row, add_person,
}

-- The occurrences of one signature, each with the time at which it is noted.
unfoldable pub note_all : List (ℕ × Note) → Option Intention → Option Intention
note_all [] o = o
note_all ((now, n) ∷ ns) o = note_all ns (some (note_row now n o))

abbrev pub status_of : Option Intention → Option RepairStatus
status_of none = none
status_of (some r) = some r.status

-- A row that no longer waits for evidence.
abbrev is_settled : RepairStatus → Bool
is_settled fixed = false
is_settled observing = false
is_settled _ = true

note_row-settled :
    (now : ℕ) (n : Note) (row : Intention)
    → is_settled row.status ≡ true
    → (note_row now n (some row)).status ≡ row.status
unfolding note_row
note_row-settled now n row h = ground arith

note_row-fixed :
    (now : ℕ) (n : Note) (row : Intention)
    → row.status ≡ fixed
    → (note_row now n (some row)).status ≡ escalated
unfolding note_row
note_row-fixed now n row h = ground arith

-- No evidence of tier 4 alone makes a row ready.
abbrev IsCritique : ℕ × Note → Type 0
IsCritique (now, n) = clamp_tier n.tier ≡ 4

critique_step :
    (now : ℕ) (n : Note) (row : Intention)
    → clamp_tier n.tier ≡ 4
    → row.status ≡ observing
    → tier_of row ≡ 4
    → ((note_row now n (some row)).status ≡ observing) × (tier_of (note_row now n (some row)) ≡ 4)
unfolding note_row
critique_step now n row c s t = ground arith

note_all-settled :
    (ns : List (ℕ × Note)) (row : Intention)
    → is_settled row.status ≡ true
    → status_of (note_all ns (some row)) ≡ some row.status
unfolding note_all
note_all-settled [] row h = refl
note_all-settled ((now, n) ∷ ns) row h =
    let e = note_row-settled now n row h in
    note_all-settled ns (note_row now n (some row)) (ground (arith, e)) ∙ ap some e

-- A signature that recurs after its fix is escalated to the guardian, and stays so: no evidence, of
-- any tier and however often, makes it ready for a repair again.
pub fixed_escalates :
    (now : ℕ) (n : Note) (ns : List (ℕ × Note)) (row : Intention)
    → row.status ≡ fixed
    → status_of (note_all ((now, n) ∷ ns) (some row)) ≡ some escalated
unfolding note_all
fixed_escalates now n ns row h =
    let e = note_row-fixed now n row h in
    note_all-settled ns (note_row now n (some row)) (ground (arith, e)) ∙ ap some e

critique_first :
    (now : ℕ) (n : Note)
    → clamp_tier n.tier ≡ 4
    → ((note_row now n none).status ≡ observing) × (tier_of (note_row now n none) ≡ 4)
unfolding note_row
critique_first now n c = ground arith

critiques :
    (ns : List (ℕ × Note)) (row : Intention)
    → All IsCritique ns
    → row.status ≡ observing
    → tier_of row ≡ 4
    → status_of (note_all ns (some row)) ≡ some observing
unfolding note_all
critiques [] row a s t = ap some s
critiques ((now, n) ∷ ns) row (c, a) s t =
    let (s', t') = critique_step now n row c s t in critiques ns (note_row now n (some row)) a s' t'

-- Self-critique (tier 4, after clamping) never makes a new signature ready by itself, however often
-- it recurs: the signature stays under observation.
pub critique_only_observes :
    (now : ℕ) (n : Note) (ns : List (ℕ × Note))
    → All IsCritique ((now, n) ∷ ns)
    → status_of (note_all ((now, n) ∷ ns) none) ≡ some observing
unfolding note_all
critique_only_observes now n ns (c, a) =
    let (s, t) = critique_first now n c in critiques ns (note_row now n none) a s t

-- A complaint (tier 2, after clamping) of the stranger `p`.
pub record IsComplaint (p : String) (x : ℕ × Note) : Type 0 where
  pub tier : clamp_tier x.1.tier ≡ 2
  pub stranger : x.1.guardian ≡ false
  pub person : x.1.person ≡ some p

-- What the complaints of one stranger have led to.
record OneComplains (p : String) (row : Intention) : Type 0 where
  status : row.status ≡ observing
  tier : row.evidence_tier ≡ 2
  stranger : row.guardian_involved ≡ false
  people : row.people ≡ (if str_eq p "" then [] else p ∷ [])

complaint-first :
    (p : String) (now : ℕ) (n : Note)
    → IsComplaint p (now, n)
    → OneComplains p (note_row now n none)
unfolding note_row
complaint-first p now n c = ground arith

complaint-step :
    (p : String) (now : ℕ) (n : Note) (row : Intention)
    → IsComplaint p (now, n)
    → OneComplains p row
    → OneComplains p (note_row now n (some row))
unfolding note_row
complaint-step p now n row c o = ground (arith, eq_iff p p)

complaints :
    (p : String) (ns : List (ℕ × Note)) (row : Intention)
    → All (IsComplaint p) ns
    → OneComplains p row
    → status_of (note_all ns (some row)) ≡ some observing
unfolding note_all
complaints p [] row a o = ap some o.status
complaints p ((now, n) ∷ ns) row (c, a) o =
    complaints p ns (note_row now n (some row)) a (complaint-step p now n row c o)

-- One stranger cannot steer a repair: the complaints of one person who is not the guardian, however
-- many, leave a new signature under observation.
pub stranger_only_observes :
    (p : String) (now : ℕ) (n : Note) (ns : List (ℕ × Note))
    → All (IsComplaint p) ((now, n) ∷ ns)
    → status_of (note_all ((now, n) ∷ ns) none) ≡ some observing
unfolding note_all
stranger_only_observes p now n ns (c, a) =
    complaints p ns (note_row now n none) a (complaint-first p now n c)

-- The same complaint of two different persons makes a new signature ready at the second.
pub two_strangers_ready :
    (p q : String) (now later : ℕ) (n m : Note)
    → IsComplaint p (now, n)
    → IsComplaint q (later, m)
    → p ≢ q
    → p ≢ ""
    → q ≢ ""
    → status_of (note_all ((now, n) ∷ (later, m) ∷ []) none) ≡ some ready
unfolding note_all note_row
two_strangers_ready p q now later n m c d pq p' q' =
    ground (arith, eq_iff p "", eq_iff q "", eq_iff q p)

-- A correction by the guardian (tier 1, after clamping) makes a new or observed signature ready at
-- once.
pub correction_ready :
    (now : ℕ) (n : Note) (o : Option Intention)
    → clamp_tier n.tier ≡ 1
    → (o ≡ none) ⊎ (status_of o ≡ some observing)
    → status_of (note_all ((now, n) ∷ []) o) ≡ some ready
unfolding note_all note_row
correction_ready now n none c h = ground arith
correction_ready now n (some row) c h = ground arith

-- After `k` occurrences of a new signature its row counts `k`, and tracks at most 20 people.
pub record Counts (k : ℕ) (row : Intention) : Type 0 where
  pub recurrence : row.recurrence ≡ k
  pub people : length row.people ≤ 20

Counts-first : (now : ℕ) (n : Note) → Counts 1 (note_row now n none)
unfolding note_row
Counts-first now n = ground arith

length-add_person :
    (new people : List String) → length people ≤ 20 → length (add_person new people) ≤ 20
length-add_person [] people h = h
length-add_person (p ∷ _) people h = ground (arith, length-append people (p ∷ []))

settle-unchanged :
    (row : Intention)
    → ((settle row).recurrence ≡ row.recurrence) × ((settle row).people ≡ row.people)
unfolding settle
settle-unchanged row = ground arith

Counts-step :
    (k now : ℕ) (n : Note) (row : Intention)
    → Counts k row
    → Counts (k + 1) (note_row now n (some row))
unfolding note_row merge
Counts-step k now n row c =
    let same = settle-unchanged (merge now n row) in
    record {
      recurrence = ground (arith, same, c.recurrence);
      people = rw (same.1) (length-add_person _ row.people c.people);
    }

note_all-Counts_from :
    (k : ℕ) (ns : List (ℕ × Note)) (row : Intention)
    → Counts k row
    → (r : Intention) × (note_all ns (some row) ≡ some r) × Counts (k + length ns) r
unfolding note_all
note_all-Counts_from k [] row c = (row, refl, rw add-zero c)
note_all-Counts_from k ((now, n) ∷ ns) row c =
    let (r, e, d) =
      note_all-Counts_from (k + 1) ns (note_row now n (some row)) (Counts-step k now n row c) in
    (r, e, record { recurrence = omega (arith, d.recurrence); people = d.people })

-- The row of a new signature counts every occurrence of it, and tracks at most 20 people.
pub note_all-Counts :
    (now : ℕ) (n : Note) (ns : List (ℕ × Note))
    → (r : Intention) × (note_all ((now, n) ∷ ns) none ≡ some r) × Counts (1 + length ns) r
unfolding note_all
note_all-Counts now n ns = note_all-Counts_from 1 ns (note_row now n none) (Counts-first now n)
