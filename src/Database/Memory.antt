-- ===== src/Database/Memory.antt =====
-- A table that meets the laws: a list of rows, the key of a row being its position.
use tachy_cognitive_ai_agent.Common.{
  ℕ, zero, suc, ◌≡◌, refl, Bool, some, List, [], ◌∷◌, ◌++◌, arith, if◌then◌else◌, ◌==◌, length,
  get_elem?, get_elem?-length,
}
use tachy_cognitive_ai_agent.Database.{TableOps, IsLawful, count_matches, rewritten}

module _ {Row : Type 0} where
  unfoldable pub update_at : ℕ → (Row → Bool) → (Row → Row) → List Row → ℕ × List Row
  update_at i p f [] = (0, [])
  update_at zero p f (r ∷ rs) = if p r then (1, f r ∷ rs) else (0, r ∷ rs)
  update_at (suc i) p f (r ∷ rs) = let (n, rest) = update_at i p f rs in (n, r ∷ rest)

  get_elem?-append_one :
      (rs : List Row) (r : Row) (j : ℕ)
      → get_elem? (rs ++ r ∷ []) j ≡ (if j == length rs then some r else get_elem? rs j)
  get_elem?-append_one [] r zero = refl
  get_elem?-append_one [] r (suc j) = ground arith
  get_elem?-append_one (_ ∷ rs) r zero = ground arith
  get_elem?-append_one (_ ∷ rs) r (suc j) = ground (arith, get_elem?-append_one rs r j)

  get-update_at :
      (i : ℕ) (p : Row → Bool) (f : Row → Row) (rs : List Row) (j : ℕ)
      → get_elem? (update_at i p f rs).1 j
        ≡ (if j == i then rewritten p f (get_elem? rs j) else get_elem? rs j)
  unfolding update_at
  get-update_at i p f [] j = ground arith
  get-update_at zero p f (r ∷ rs) zero = ground arith
  get-update_at zero p f (r ∷ rs) (suc j) = ground arith
  get-update_at (suc i) p f (r ∷ rs) zero = ground arith
  get-update_at (suc i) p f (r ∷ rs) (suc j) = ground (arith, get-update_at i p f rs j)

  count-update_at :
      (i : ℕ) (p : Row → Bool) (f : Row → Row) (rs : List Row)
      → (update_at i p f rs).0 ≡ count_matches p (get_elem? rs i)
  unfolding update_at
  count-update_at i p f [] = refl
  count-update_at zero p f (r ∷ rs) = ground arith
  count-update_at (suc i) p f (r ∷ rs) = count-update_at i p f rs

-- Unfolds in tests with `update_at`.
abbrev pub memory : (Row : Type 0) → TableOps Row
memory Row = record {
  Table = List Row;
  get = get_elem?;
  insert = λ r rs. (length rs, rs ++ r ∷ []);
  update_where = update_at;
}

pub memory-IsLawful : (Row : Type 0) → IsLawful (memory Row)
memory-IsLawful Row = record {
  get-insert = λ r rs j. get_elem?-append_one rs r j;
  insert_fresh = λ r rs. get_elem?-length rs;
  get-update_where = get-update_at;
  count-update_where = count-update_at;
}
