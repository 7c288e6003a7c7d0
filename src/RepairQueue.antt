-- ===== src/RepairQueue.antt =====
-- app/brain/repair_queue.py: the evidence-tiered memory of failures. A row is what one signature has
-- gathered; the table of rows by signature is a parameter.
pub mod Tiers
pub mod Queue
use tachy_cognitive_ai_agent.Common.{
  ℕ, suc, ◌+◌, min, max, ◌≡◌, Bool, true, false, not, ◌&&◌, ◌||◌, String, Option, none, some, List,
  [], ◌∷◌, ◌++◌, str_eq, ltb, leb, ◌==◌, length, take, any_of, if◌then◌else◌,
}
use tachy_cognitive_ai_agent.Common.Int.{ℤ, pos_part}
use tachy_cognitive_ai_agent.Common.Text.{codes, lower, strip, strip_by, text_eq}

pub data RepairStatus : Type 0 where
  observing ready repairing fixed escalated dismissed : RepairStatus

-- A row of `cognitive_repair_intentions` (app/db/models.py). Texts that are cut are code points.
pub record Intention : Type 0 where
  pub evidence_tier : ℕ
  pub fix_class : String
  pub recurrence : ℕ
  pub guardian_involved : Bool
  pub people : List String
  pub sample : List ℕ
  pub source : List ℕ
  pub conversation_id : Option ℕ
  pub status : RepairStatus
  pub last_seen : ℕ
  pub repaired_at : Option ℕ
  pub repair_note : Option (List ℕ)

-- The arguments of `note_failure` but for the signature.
pub record Note : Type 0 where
  pub tier : ℤ
  pub source : List ℕ
  pub sample : List ℕ
  pub conversation_id : Option ℕ
  pub person : Option String
  pub guardian : Bool
  pub fix_class : String

-- The table: one row for each signature (the column is unique).
pub record QueueOps : Type 1 where
  pub Table : Type 0
  pub get : Table → List ℕ → Option Intention
  pub put : List ℕ → Intention → Table → Table
  pub get-put :
      (k : List ℕ) (r : Intention) (t : Table) (j : List ℕ)
      → get (put k r t) j ≡ (if text_eq j k then some r else get t j)

-- `[a-z0-9:+-]`
unfoldable pub is_slug_code : ℕ → Bool
is_slug_code c =
    (leb b'a' c && leb c b'z') || (leb b'0' c && leb c b'9') || c == b':' || c == b'+' || c == b'-'

-- `re.sub(r"[^a-z0-9:+-]+", "-", s)`; the flag says that the last code was replaced.
unfoldable pub replace_runs : Bool → List ℕ → List ℕ
unfolding is_slug_code
replace_runs inside [] = []
replace_runs inside (c ∷ s) =
    let kept = replace_runs false s in
    let gone = replace_runs true s in
    if is_slug_code c then c ∷ kept else if inside then gone else b'-' ∷ gone

abbrev is_dash : ℕ → Bool
is_dash c = c == b'-'

abbrev or_unknown : List ℕ → List ℕ
or_unknown [] = codes "unknown"
or_unknown (c ∷ s) = c ∷ s

unfoldable pub slug : List ℕ → List ℕ
unfolding replace_runs strip_by lower strip
slug text = or_unknown (take 160 (strip_by is_dash (replace_runs false (lower (strip text)))))

abbrev pub valid_fix : List String
valid_fix =
    "memory" ∷ "directive" ∷ "config" ∷ "code" ∷ "capability" ∷ "environment" ∷ "unknown" ∷ []

abbrev pub max_people_tracked : ℕ
max_people_tracked = 20

abbrev pub clamp_tier : ℤ → ℕ
clamp_tier tier = min (max (pos_part tier) 1) 4

abbrev pub valid_fix_class : String → String
valid_fix_class c = if any_of (str_eq c) valid_fix then c else "unknown"

-- `_READY_AT.get(tier)`; tier 4 is not in it.
abbrev pub ready_at : ℕ → Option ℕ
ready_at tier = if tier == 1 then some 1 else if tier == 2 || tier == 3 then some 2 else none

-- `int(row.evidence_tier or 4)`
abbrev pub tier_of : Intention → ℕ
tier_of row = if row.evidence_tier == 0 then 4 else row.evidence_tier

unfoldable pub is_ready : Intention → Bool
is_ready row = elim (ready_at (tier_of row)) [
  | none ↦ false
  | some n ↦
      if ltb row.recurrence n
      then false
      else if tier_of row == 2 && not row.guardian_involved
      then leb 2 (length row.people)
      else true
]

-- `[person] if (person and not guardian) else []`
abbrev named : Option String → Bool → List String
named none guardian = []
named (some p) guardian = if str_eq p "" || guardian then [] else p ∷ []

unfoldable pub first_row : ℕ → Note → Intention
first_row now n = record {
  evidence_tier = clamp_tier n.tier;
  fix_class = valid_fix_class n.fix_class;
  recurrence = 1;
  guardian_involved = n.guardian;
  people = named n.person n.guardian;
  sample = take 400 n.sample;
  source = take 64 n.source;
  conversation_id = n.conversation_id;
  status = observing;
  last_seen = now;
  repaired_at = none;
  repair_note = none;
}

abbrev pub add_person : List String → List String → List String
add_person [] people = people
add_person (p ∷ _) people =
    if not (any_of (str_eq p) people) && ltb (length people) max_people_tracked
    then people ++ p ∷ []
    else people

abbrev keep_if_empty : List ℕ → List ℕ → List ℕ
keep_if_empty [] old = old
keep_if_empty (c ∷ s) old = c ∷ s

abbrev new_note : List ℕ → Option (List ℕ) → Option (List ℕ)
new_note [] old = old
new_note (c ∷ s) old = some (c ∷ s)

abbrev or_else : Option ℕ → Option ℕ → Option ℕ
or_else none old = old
or_else (some c) old = some c

unfoldable pub merge : ℕ → Note → Intention → Intention
merge now n row =
    let fix = valid_fix_class n.fix_class in
    record row {
      recurrence = row.recurrence + 1;
      evidence_tier = min (tier_of row) (clamp_tier n.tier);
      guardian_involved = row.guardian_involved || n.guardian;
      sample = keep_if_empty (take 400 n.sample) row.sample;
      source = keep_if_empty (take 64 n.source) row.source;
      conversation_id = or_else n.conversation_id row.conversation_id;
      fix_class =
          if not (str_eq fix "unknown") && str_eq row.fix_class "unknown"
          then fix
          else row.fix_class;
      people = add_person (named n.person n.guardian) row.people;
      last_seen = now;
    }

-- fixed, and it recurs: escalated. observing, and there is evidence enough: ready.
unfoldable pub settle : Intention → Intention
unfolding is_ready
settle row = elim row.status [
  | fixed ↦ record row { status = escalated }
  | observing ↦ if is_ready row then record row { status = ready } else row
  | _ ↦ row
]

-- What one occurrence makes of the row of its signature.
unfoldable pub note_row : ℕ → Note → Option Intention → Intention
unfolding settle first_row merge
note_row now n none = settle (first_row now n)
note_row now n (some row) = settle (merge now n row)

module _ (Q : QueueOps) where
  -- `note_failure`: a failing session is rolled back and the exception swallowed. The result says
  -- whether the failure was noted.
  unfoldable pub note_failure : Bool → Bool → ℕ → List ℕ → Note → Q.Table → Bool × Q.Table
  unfolding note_row slug
  note_failure enabled broken now signature n t =
      if enabled && not broken
      then (true, Q.put (slug signature) (note_row now n (Q.get t (slug signature))) t)
      else (false, t)

  mark_row : ℕ → List ℕ → RepairStatus → List ℕ → Option Intention → Q.Table → Bool × Q.Table
  mark_row now sig status note none t = (false, t)
  mark_row now sig status note (some row) t = (
    true,
    Q.put sig
        (record row {
          status = status;
          repair_note = new_note (take 400 note) row.repair_note;
          repaired_at = elim status [ fixed ↦ some now | _ ↦ row.repaired_at ];
        })
        t,
  )

  -- `mark`, for one of the six statuses; any other text is refused before the table is read.
  unfoldable pub mark : Bool → ℕ → List ℕ → Option RepairStatus → List ℕ → Q.Table → Bool × Q.Table
  unfolding mark_row slug
  mark broken now signature none note t = (false, t)
  mark broken now signature (some status) note t =
      let sig = slug signature in
      if broken then (false, t) else mark_row now sig status note (Q.get t sig) t
