-- ===== src/AutonomousTasks/Schedule.antt =====
-- The schedule of a recurring task: `_compute_next_run` of app/brain/autonomous_tasks.py.
use tachy_cognitive_ai_agent.Common.{
  ℕ, ◌+◌, ◌*◌, ◌≤◌, ◌<◌, ◌≡◌, refl, min, max, ◌&&◌, Option, none, some, List, [], ◌∷◌, arith, ltb,
  if◌then◌else◌,
}
use tachy_cognitive_ai_agent.Common.Int.{ℤ, pos, negsuc, pos_part}
use tachy_cognitive_ai_agent.Common.Digits.{parse_int, split_on}
use tachy_cognitive_ai_agent.WallClock.{minute, next_wall, next_wall_lem, next_wall_first, Shows}

abbrev pub min_interval : ℕ
min_interval = 5

-- Fourteen days.
abbrev pub max_interval : ℕ
max_interval = 20160

-- `max(_MIN_INTERVAL, min(interval_minutes, _MAX_INTERVAL))`
abbrev pub clamp_interval : ℤ → ℕ
clamp_interval i = max min_interval (min (pos_part i) max_interval)

abbrev in_day : Option ℤ → Option ℤ → Option (ℕ × ℕ)
in_day (some (pos hh)) (some (pos mm)) = if ltb hh 24 && ltb mm 60 then some (hh, mm) else none
in_day _ _ = none

abbrev two_parts : List (List ℕ) → Option (ℕ × ℕ)
two_parts (hh ∷ mm ∷ []) = in_day (parse_int hh) (parse_int mm)
two_parts _ = none

-- The hour and the minute of a text "HH:MM"; `none` where it has another form or is out of range.
unfoldable pub wall_time : Option (List ℕ) → Option (ℕ × ℕ)
unfolding parse_int split_on
wall_time none = none
wall_time (some []) = none
wall_time (some (c ∷ s)) = two_parts (split_on b':' (c ∷ s))

unfoldable pub compute_next_run : ℤ → Option (List ℕ) → ℕ → ℕ
unfolding wall_time next_wall
compute_next_run interval at_time after = elim (wall_time at_time) [
  | some (hh, mm) ↦ next_wall hh mm after
  | none ↦ after + clamp_interval interval * minute
]

in_day_lem : (h m : Option ℤ) (hh mm : ℕ) → in_day h m ≡ some (hh, mm) → (hh < 24) × (mm < 60)
in_day_lem none m hh mm e = cc
in_day_lem (some (negsuc h)) m hh mm e = cc
in_day_lem (some (pos h)) none hh mm e = cc
in_day_lem (some (pos h)) (some (negsuc m)) hh mm e = cc
in_day_lem (some (pos h)) (some (pos m)) hh mm e = ground arith

two_parts_lem :
    (ws : List (List ℕ)) (hh mm : ℕ) → two_parts ws ≡ some (hh, mm) → (hh < 24) × (mm < 60)
two_parts_lem [] hh mm e = cc
two_parts_lem (a ∷ []) hh mm e = cc
two_parts_lem (a ∷ b ∷ []) hh mm e = in_day_lem (parse_int a) (parse_int b) hh mm e
two_parts_lem (a ∷ b ∷ c ∷ ws) hh mm e = cc

wall_time_lem :
    (at_time : Option (List ℕ)) (hh mm : ℕ)
    → wall_time at_time ≡ some (hh, mm)
    → (hh < 24) × (mm < 60)
unfolding wall_time
wall_time_lem none hh mm e = cc
wall_time_lem (some []) hh mm e = cc
wall_time_lem (some (c ∷ s)) hh mm e = two_parts_lem (split_on b':' (c ∷ s)) hh mm e

bounds_of :
    (interval : ℤ) (after : ℕ) (at_time : Option (List ℕ)) (o : Option (ℕ × ℕ))
    → wall_time at_time ≡ o
    → (after < compute_next_run interval at_time after)
      × (compute_next_run interval at_time after ≤ after + max_interval * minute)
unfolding compute_next_run
bounds_of interval after at_time none e = rw (e, compute_next_run) (ground arith)
bounds_of interval after at_time (some (hh, mm)) e =
    let (h, m) = wall_time_lem at_time hh mm e in
    rw (e, compute_next_run) (omega (arith, next_wall_lem hh mm after h m))

-- The next run of a task is always in the future and at most fourteen days ahead, whatever the
-- interval, negative ones included, and whatever the text for the time of day.
pub compute_next_run_bounds :
    (interval : ℤ) (at_time : Option (List ℕ)) (after : ℕ)
    → (after < compute_next_run interval at_time after)
      × (compute_next_run interval at_time after ≤ after + max_interval * minute)
compute_next_run_bounds interval at_time after = bounds_of interval after at_time _ refl

-- Where the time of day is a text "HH:MM" that is in range, the task next runs at the first moment
-- after now at which the guardian's wall clock shows it, and the interval does not count.
pub compute_next_run_first :
    (interval : ℤ) (at_time : Option (List ℕ)) (after hh mm : ℕ)
    → wall_time at_time ≡ some (hh, mm)
    → (after < compute_next_run interval at_time after)
      × Shows hh mm (compute_next_run interval at_time after)
      × ((t : ℕ) → after < t → Shows hh mm t → compute_next_run interval at_time after ≤ t)
unfolding compute_next_run
compute_next_run_first interval at_time after hh mm e =
    let (h, m) = wall_time_lem at_time hh mm e in
    let (later, day, shows) = next_wall_lem hh mm after h m in
    rw (e, compute_next_run) (later, shows, λ t a s. next_wall_first hh mm after t h m a s)
