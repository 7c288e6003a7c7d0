-- ===== src/ProspectiveMemory/Parse.antt =====
-- The time that a reminder asks for: `_mk_due` and `_deterministic_parse` of
-- app/brain/prospective_memory.py. What the regular expressions find is a parameter.
use tachy_cognitive_ai_agent.Common.{
  ℕ, ◌+◌, ◌-◌, ◌*◌, ◌≤◌, ◌<◌, ◌≡◌, inl, inr, Bool, ◌&&◌, ◌||◌, Bool-cases, String, Option, none,
  some, List, [], ◌∷◌, arith, ltb, leb, ◌==◌, if◌then◌else◌,
}
use tachy_cognitive_ai_agent.Common.Text.{codes, lower, is_prefix, contains, contains_any, one_of}
use tachy_cognitive_ai_agent.WallClock.{minute, one_day, ist_offset, ist_date, at_wall, Shows}

-- What the patterns find in a lower-case message: `_RX_REL` a quantity and a unit, `_RX_REL_SOFT`
-- whether it occurs, `_RX_CLOCK` hour, minute and meridiem, `_REMINDER_INTENT` whether it occurs.
pub record Patterns : Type 0 where
  pub relative : List ℕ → Option (ℕ × List ℕ)
  pub soft : List ℕ → Bool
  pub clock : List ℕ → Option (ℕ × Option ℕ × Option (List ℕ))
  pub intent : List ℕ → Bool

abbrev pub max_days : ℕ
max_days = 60

abbrev parts : List (String × ℕ)
parts =
    ("subah", 8)
    ∷ ("morning", 8)
    ∷ ("savere", 8)
    ∷ ("tadke", 6)
    ∷ ("dopahar", 13)
    ∷ ("din", 13)
    ∷ ("noon", 12)
    ∷ ("afternoon", 15)
    ∷ ("shaam", 17)
    ∷ ("sham", 17)
    ∷ ("evening", 18)
    ∷ ("raat", 21)
    ∷ ("night", 21)
    ∷ ("tonight", 21)
    ∷ []

-- The hour of the first part of the day that the message names.
unfoldable pub first_part : List (String × ℕ) → List ℕ → Option ℕ
unfolding contains
first_part [] low = none
first_part ((w, h) ∷ ws) low = if contains (codes w) low then some h else first_part ws low

-- `_mk_due`, from a moment in UTC.
unfoldable pub mk_due : ℕ → ℕ → ℕ → ℕ → Option ℕ
mk_due hh mm now day_offset =
    let local = now + ist_offset in
    let due = at_wall hh mm local + day_offset * one_day in
    if ltb hh 24 && ltb mm 60
    then some ((if leb due local && day_offset == 0 then due + one_day else due) - ist_offset)
    else none

unfoldable pub day_offset_of : List ℕ → ℕ
unfolding contains contains_any
day_offset_of low =
    if contains (codes "parson") low
    then 2
    else if contains_any ("kal" ∷ "tomorrow" ∷ []) low
    then 1
    else 0

-- The minutes of a quantity in its unit.
unfoldable pub minutes_of : ℕ → List ℕ → ℕ
unfolding is_prefix
minutes_of quantity unit =
    if is_prefix (codes "gh") unit || is_prefix (codes "h") unit then quantity * 60 else quantity

unfoldable pub without_dots : List ℕ → List ℕ
without_dots [] = []
without_dots (c ∷ s) = let rest = without_dots s in if c == b'.' then rest else c ∷ rest

-- `(m.group(3) or "").replace(".", "").lower()`
abbrev meridiem : Option (List ℕ) → List ℕ
meridiem none = []
meridiem (some s) = lower (without_dots s)

-- "5 baje" is in the half of the day that the message names.
abbrev by_part : Option ℕ → ℕ → ℕ
by_part none hh = hh
by_part (some part) hh = if leb 12 part && ltb hh 12 then hh + 12 else hh

unfoldable pub hour_of : List ℕ → List ℕ → ℕ → ℕ
unfolding first_part one_of
hour_of low mer hh =
    if one_of ("pm" ∷ []) mer && ltb hh 12
    then hh + 12
    else if one_of ("am" ∷ []) mer && hh == 12
    then 0
    else if one_of ("baje" ∷ "bje" ∷ []) mer && leb hh 12
    then by_part (first_part parts low) hh
    else hh

abbrev minute_of : Option ℕ → ℕ
minute_of none = 0
minute_of (some mm) = mm

abbrev or_else : Option ℕ → Option ℕ → Option ℕ
or_else none o = o
or_else (some t) o = some t

module _ (X : Patterns) where
  -- Step 1: an offset from now.
  from_relative : List ℕ → ℕ → Option (ℕ × List ℕ) → Option ℕ
  unfolding minutes_of
  from_relative low now none = if X.soft low then some (now + 15 * minute) else none
  from_relative low now (some (quantity, unit)) =
      let minutes = minutes_of quantity unit in
      if leb 1 minutes && leb minutes (max_days * 24 * 60)
      then some (now + minutes * minute)
      else if X.soft low
      then some (now + 15 * minute)
      else none

  -- Step 2: a time on the clock.
  from_clock : List ℕ → ℕ → Option (ℕ × Option ℕ × Option (List ℕ)) → Option ℕ
  unfolding hour_of without_dots lower mk_due day_offset_of
  from_clock low now none = none
  from_clock low now (some (hh, mm, mer)) =
      mk_due (hour_of low (meridiem mer) hh) (minute_of mm) now (day_offset_of low)

  -- Step 3: a part of the day, where the message asks for a reminder in so many words.
  from_part : List ℕ → ℕ → Option ℕ → Option ℕ
  unfolding mk_due day_offset_of
  from_part low now none = none
  from_part low now (some part) =
      if X.intent low then mk_due part 0 now (day_offset_of low) else none

  unfoldable pub deterministic_parse : List ℕ → ℕ → Option ℕ
  unfolding from_relative from_clock from_part first_part lower
  deterministic_parse message now =
      let low = lower message in
      or_else (from_relative low now (X.relative low))
        (or_else (from_clock low now (X.clock low)) (from_part low now (first_part parts low)))

-- A time of day that is asked for falls where it should: the guardian's wall clock shows it at the
-- moment found; with a day given, that is on the date so many days after today; and without one it
-- is the first moment after now that shows the time.
pub mk_due-Shows :
    (hh mm now day_offset due : ℕ)
    → mk_due hh mm now day_offset ≡ some due
    → Shows hh mm due
      × (0 < day_offset → ist_date due ≡ ist_date now + day_offset)
      × (day_offset ≡ 0 → (now < due) × ((t : ℕ) → now < t → Shows hh mm t → due ≤ t))
unfolding mk_due
mk_due-Shows hh mm now day_offset due e =
    (ground arith, λ d. ground arith, λ z. (ground arith, λ t a s. ground arith))

-- Due later than `now`, and within sixty days.
abbrev pub InWindow : ℕ → ℕ → Type 0
InWindow now due = (now < due) × (due ≤ now + max_days * one_day)

abbrev AllInWindow : ℕ → Option ℕ → Type 0
AllInWindow now o = (due : ℕ) → o ≡ some due → InWindow now due

mk_due_lem :
    (hh mm now day_offset : ℕ) → day_offset ≤ 2 → AllInWindow now (mk_due hh mm now day_offset)
unfolding mk_due
mk_due_lem hh mm now day_offset d due e = ground arith

day_offset_of-le : (low : List ℕ) → day_offset_of low ≤ 2
unfolding day_offset_of
day_offset_of-le low = ground arith

or_else_lem :
    (now : ℕ) (o p : Option ℕ)
    → AllInWindow now o
    → AllInWindow now p
    → AllInWindow now (or_else o p)
or_else_lem now none p a b = b
or_else_lem now (some t) p a b = a

module _ (X : Patterns) where
  from_relative_lem :
      (low : List ℕ) (now : ℕ) (o : Option (ℕ × List ℕ))
      → AllInWindow now (from_relative X low now o)
  unfolding from_relative
  from_relative_lem low now none due e = ground arith
  from_relative_lem low now (some (quantity, unit)) due e = ground arith

  from_clock_lem :
      (low : List ℕ) (now : ℕ) (o : Option (ℕ × Option ℕ × Option (List ℕ)))
      → AllInWindow now (from_clock X low now o)
  unfolding from_clock
  from_clock_lem low now none due e = cc
  from_clock_lem low now (some (hh, mm, mer)) due e =
      mk_due_lem (hour_of low (meridiem mer) hh) (minute_of mm) now (day_offset_of low)
        (day_offset_of-le low) due e

  from_part_lem : (low : List ℕ) (now : ℕ) (o : Option ℕ) → AllInWindow now (from_part X low now o)
  unfolding from_part
  from_part_lem low now none due e = cc
  from_part_lem low now (some part) due e = elim (Bool-cases (X.intent low)) [
    | inl y ↦ mk_due_lem part 0 now (day_offset_of low) (day_offset_of-le low) due (rw y at e)
    | inr n ↦ cc (n, e)
  ]

  -- A time that is parsed from a message is in the future and within sixty days, whatever the
  -- regular expressions find in the message.
  pub deterministic_parse-InWindow :
      (message : List ℕ) (now due : ℕ)
      → deterministic_parse X message now ≡ some due
      → InWindow now due
  unfolding deterministic_parse
  deterministic_parse-InWindow message now due e =
      let low = lower message in
      or_else_lem now (from_relative X low now (X.relative low)) _
        (from_relative_lem low now (X.relative low))
        (or_else_lem now (from_clock X low now (X.clock low)) _
          (from_clock_lem low now (X.clock low)) (from_part_lem low now (first_part parts low)))
        due e
