-- ===== src/Database.antt =====
-- One SQL table as the program uses it through SQLAlchemy: rows under an automatic key, read by
-- `Session.get`, written by `add` and `flush`, and by `UPDATE … WHERE id = i AND p`. No table of
-- the program that is modelled this way loses rows.
pub mod Memory
use mathlib.Core.Option
use tachy_cognitive_ai_agent.Common.{ℕ, ◌≡◌, Bool, true, Option, none, some, if◌then◌else◌, ◌==◌}

pub record TableOps (Row : Type 0) : Type 1 where
  pub Table : Type 0
  pub get : Table → ℕ → Option Row
  -- The new row's key, and the table with it.
  pub insert : Row → Table → ℕ × Table
  -- The number of rows that matched, and the table with those rewritten.
  pub update_where : ℕ → (Row → Bool) → (Row → Row) → Table → ℕ × Table

module _ {Row : Type 0} where
  abbrev pub count_matches : (Row → Bool) → Option Row → ℕ
  count_matches p none = 0
  count_matches p (some r) = if p r then 1 else 0

  abbrev pub rewritten : (Row → Bool) → (Row → Row) → Option Row → Option Row
  rewritten p f none = none
  rewritten p f (some r) = some (if p r then f r else r)

  -- What the program relies on.
  pub record IsLawful (T : TableOps Row) : Type 0 where
    pub get-insert :
        (r : Row) (t : T.Table) (j : ℕ)
        → T.get (T.insert r t).1 j ≡ (if j == (T.insert r t).0 then some r else T.get t j)
    pub insert_fresh : (r : Row) (t : T.Table) → T.get t (T.insert r t).0 ≡ none
    pub get-update_where :
        (i : ℕ) (p : Row → Bool) (f : Row → Row) (t : T.Table) (j : ℕ)
        → T.get (T.update_where i p f t).1 j
          ≡ (if j == i then rewritten p f (T.get t j) else T.get t j)
    pub count-update_where :
        (i : ℕ) (p : Row → Bool) (f : Row → Row) (t : T.Table)
        → (T.update_where i p f t).0 ≡ count_matches p (T.get t i)

  -- Attributes of a loaded row, written back by the commit: `UPDATE … WHERE id = i`.
  abbrev pub save : (T : TableOps Row) → ℕ → Row → T.Table → T.Table
  save T i r t = (T.update_where i (λ _. true) (λ _. r) t).1
