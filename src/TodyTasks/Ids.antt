-- ===== src/TodyTasks/Ids.antt =====
-- The ids of assignees: `_parse_ids` of app/agents/tody_task_actions.py, and the guardian's among
-- them.
use tachy_cognitive_ai_agent.Common.{
  ℕ, zero, suc, ◌≤◌, ◌<◌, ◌≡◌, refl, true, false, Option, none, some, List, [], ◌∷◌, ◌++◌, arith,
  Bool-cases, inl, inr, take, length, length-take, All,
}
use tachy_cognitive_ai_agent.Common.Int.{ℤ}
use tachy_cognitive_ai_agent.Common.Digits.{parse_int}
use tachy_cognitive_ai_agent.Common.Text.{strip}
use tachy_cognitive_ai_agent.TodyTasks.{
  IntArg, no_int, int_text, int_number, IdsArg, parse_id, positive, is_in, add_id, collect_ids,
  id_items, parse_ids,
}

abbrev pub Distinct : List ℕ → Type 0
Distinct [] = Unit
Distinct (n ∷ ids) = (is_in n ids ≡ false) × Distinct ids

abbrev pub Positive : ℕ → Type 0
Positive n = 0 < n

positive-Positive : (o : Option ℤ) (n : ℕ) → positive o ≡ some n → Positive n
unfolding positive
positive-Positive none n h = cc
positive-Positive (some z) n h = ground arith

pub parse_id-Positive : (x : IntArg) (n : ℕ) → parse_id x ≡ some n → Positive n
unfolding parse_id
parse_id-Positive no_int n h = cc
parse_id-Positive (int_text s) n h = positive-Positive (parse_int (strip s)) n h
parse_id-Positive (int_number z) n h = positive-Positive (some z) n h

pub is_in-add_last : (n : ℕ) (ids : List ℕ) → is_in n (ids ++ n ∷ []) ≡ true
is_in-add_last n [] = ground arith
is_in-add_last n (m ∷ ids) = ground (arith, is_in-add_last n ids)

not_in-add_last :
    (m n : ℕ) (ids : List ℕ) → is_in m ids ≡ false → (n ≡ m → ⊥) → is_in m (ids ++ n ∷ []) ≡ false
not_in-add_last m n [] h d = ground arith
not_in-add_last m n (k ∷ ids) h d = ground (arith, not_in-add_last m n ids)

Distinct-add_last :
    (n : ℕ) (ids : List ℕ) → is_in n ids ≡ false → Distinct ids → Distinct (ids ++ n ∷ [])
Distinct-add_last n [] h d = ground arith
Distinct-add_last n (m ∷ ids) h d =
    (not_in-add_last m n ids d.0 (ground arith), Distinct-add_last n ids (ground arith) d.1)

Positive-add_last :
    (n : ℕ) (ids : List ℕ) → Positive n → All Positive ids → All Positive (ids ++ n ∷ [])
Positive-add_last n [] h p = (h, tt)
Positive-add_last n (m ∷ ids) h p = (p.0, Positive-add_last n ids h p.1)

abbrev pub IsClean : List ℕ → Type 0
IsClean ids = Distinct ids × All Positive ids

pub add_id-IsClean :
    (o : Option ℕ) (ids : List ℕ)
    → ((n : ℕ) → o ≡ some n → Positive n)
    → IsClean ids
    → IsClean (add_id o ids)
unfolding add_id
add_id-IsClean none ids p c = c
add_id-IsClean (some n) ids p c = elim (Bool-cases (is_in n ids)) [
  | inl old ↦ rw old c
  | inr new ↦ rw new (Distinct-add_last n ids new c.0, Positive-add_last n ids (p n refl) c.1)
]

collect_ids-IsClean : (xs : List IntArg) (ids : List ℕ) → IsClean ids → IsClean (collect_ids xs ids)
unfolding collect_ids
collect_ids-IsClean [] ids c = c
collect_ids-IsClean (x ∷ xs) ids c =
    collect_ids-IsClean xs _ (add_id-IsClean (parse_id x) ids (parse_id-Positive x) c)

not_in-take : (k n : ℕ) (ids : List ℕ) → is_in n ids ≡ false → is_in n (take k ids) ≡ false
not_in-take zero n ids h = refl
not_in-take (suc k) n [] h = refl
not_in-take (suc k) n (m ∷ ids) h = ground (arith, not_in-take k n ids)

take-IsClean : (k : ℕ) (ids : List ℕ) → IsClean ids → IsClean (take k ids)
take-IsClean zero ids c = (tt, tt)
take-IsClean (suc k) [] c = (tt, tt)
take-IsClean (suc k) (n ∷ ids) (d, p) =
    let (d', p') = take-IsClean k ids (d.1, p.1) in ((not_in-take k n ids d.0, d'), (p.0, p'))

-- Whatever list or text of assignees is given, the ids read from it are positive and distinct, and
-- there are at most fifty.
pub parse_ids_lem :
    (value : IdsArg)
    → Distinct (parse_ids value) × All Positive (parse_ids value) × (length (parse_ids value) ≤ 50)
unfolding parse_ids
parse_ids_lem value =
    let ids = collect_ids (id_items value) [] in
    let (d, p) = take-IsClean 50 ids (collect_ids-IsClean (id_items value) [] (tt, tt)) in
    (d, p, omega (arith, length-take {0} 50 ids))

pub is_in-add_id : (n : ℕ) (ids : List ℕ) → is_in n (add_id (some n) ids) ≡ true
unfolding add_id
is_in-add_id n ids = elim (Bool-cases (is_in n ids)) [
  | inl old ↦ rw (old, old)
  | inr new ↦ rw new (is_in-add_last n ids)
]
