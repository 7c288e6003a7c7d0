-- ===== src/Coding/Ensures.antt =====
-- What a step of the coding agent keeps of its trace, and what it promises of the value it returns.
use tachy_cognitive_ai_agent.Common.{◌∷◌, ◌≡◌, refl}
use tachy_cognitive_ai_agent.Coding.{
  Event, Trace, Error, Outcome, returned, raised, M, continue, ◌>>=◌, ◌>>◌, pure, raise, note,
}

-- The invariant holds after the step; a returned value has the property, and an error a cause in the
-- trace that it leaves.
abbrev pub Post :
    {A : Type 0}
    → (Trace → Type 0)
    → (Error → Trace → Type 0)
    → (A → Type 0)
    → Outcome A × Trace
    → Type 0
Post I F Q (returned a, t) = I t × Q a
Post I F Q (raised e, t) = I t × F e t

pub record Ensures (I : Trace → Type 0) (F : Error → Trace → Type 0) {A : Type 0} (m : M A)
    (Q : A → Type 0) : Type 0 where
  pub at : (t : Trace) → I t → Post I F Q (m t)

module _ (I : Trace → Type 0) (F : Error → Trace → Type 0) where
  pub Ensures-pure : {A : Type 0} (Q : A → Type 0) (a : A) → Q a → Ensures I F (pure a) Q
  Ensures-pure Q a q = record { at = λ t i. (i, q) }

  pub Ensures-raise :
      {A : Type 0} (Q : A → Type 0) (e : Error)
      → ((t : Trace) → I t → F e t)
      → Ensures I F (raise e) Q
  Ensures-raise Q e f = record { at = λ t i. (i, f t i) }

  -- A step that only adds an event that the invariant allows.
  pub Ensures-note :
      {A : Type 0} (Q : A → Type 0) (e : Event) (k : M A)
      → ((t : Trace) → I t → I (e ∷ t))
      → Ensures I F k Q
      → Ensures I F (note e >> k) Q
  Ensures-note Q e k keeps h = record { at = λ t i. h.at (e ∷ t) (keeps t i) }

  pub Post-any :
      {A : Type 0} (o : Outcome A) (t : Trace)
      → ((e : Error) → o ≡ raised e → F e t)
      → I t
      → Post I F (λ a. Unit {0}) (o, t)
  Post-any (returned a) t f i = (i, tt)
  Post-any (raised e) t f i = (i, f e refl)

  pub Post-continue :
      {A B : Type 0} (Q : A → Type 0) (R : B → Type 0) (f : A → M B)
      → ((a : A) → Q a → Ensures I F (f a) R)
      → (r : Outcome A × Trace) → Post I F Q r
      → Post I F R (continue f r)
  Post-continue Q R f h (returned a, t) p = (h a p.1).at t p.0
  Post-continue Q R f h (raised e, t) p = p

  pub Ensures-bind :
      {A B : Type 0} (Q : A → Type 0) (R : B → Type 0) (m : M A) (f : A → M B)
      → Ensures I F m Q
      → ((a : A) → Q a → Ensures I F (f a) R)
      → Ensures I F (m >>= f) R
  Ensures-bind Q R m f h k = record { at = λ t i. Post-continue Q R f k (m t) (h.at t i) }
