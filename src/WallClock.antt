-- ===== src/WallClock.antt =====
-- Wall-clock times of the guardian's zone, five and a half hours ahead of UTC without daylight
-- saving, as app/brain/autonomous_tasks.py and app/brain/prospective_memory.py reckon with them.
-- A moment is the number of microseconds since a midnight in UTC.
use tachy_cognitive_ai_agent.Common.{
  ℕ, ◌+◌, ◌-◌, ◌*◌, ◌/◌, ◌%◌, ◌≤◌, ◌<◌, ◌≡◌, arith, leb, if◌then◌else◌,
}

abbrev pub minute : ℕ
minute = 60000000

abbrev pub one_day : ℕ
one_day = 86400000000

abbrev pub ist_offset : ℕ
ist_offset = 19800000000

-- The date in the zone, as a number of days.
abbrev pub ist_date : ℕ → ℕ
ist_date t = (t + ist_offset) / one_day

-- `now.replace(hour=hh, minute=mm, second=0, microsecond=0)`, of a local time.
abbrev pub at_wall : ℕ → ℕ → ℕ → ℕ
at_wall hh mm now = now - now % one_day + (hh * 60 + mm) * minute

-- The next moment after `after` at which the wall shows the time.
unfoldable pub next_wall : ℕ → ℕ → ℕ → ℕ
next_wall hh mm after =
    let now = after + ist_offset in
    let at = at_wall hh mm now in (if leb at now then at + one_day else at) - ist_offset

-- At the moment `t` the wall shows hh:mm sharp.
abbrev pub Shows : ℕ → ℕ → ℕ → Type 0
Shows hh mm t = (t + ist_offset) % one_day ≡ (hh * 60 + mm) * minute

-- The moment found is later, by a day at most, shows the time, and is the first one to do so.
pub next_wall_lem :
    (hh mm after : ℕ)
    → hh < 24
    → mm < 60
    → (after < next_wall hh mm after)
      × (next_wall hh mm after ≤ after + one_day)
      × Shows hh mm (next_wall hh mm after)
unfolding next_wall
next_wall_lem hh mm after h m = (ground arith, ground arith, ground arith)

pub next_wall_first :
    (hh mm after t : ℕ) → hh < 24 → mm < 60 → after < t → Shows hh mm t → next_wall hh mm after ≤ t
unfolding next_wall
next_wall_first hh mm after t h m a s = ground arith
