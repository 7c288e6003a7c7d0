-- ===== src/Safety/Keeps.antt =====
-- What calls of the store and of the action engine lead to, whether they return or raise: one rule
-- for each way to build a call.
use tachy_cognitive_ai_agent.Database.{TableOps}
use tachy_cognitive_ai_agent.Safety.World.{
  Approval, World, M, Outcome, returned, raised, Error, pure, raise, ◌>>=◌,
}

-- From a world with `P` the call leads to one with `Q`.
pub record Leads {T : TableOps Approval} {Call A : Type 0} (P : World T Call → Type 0)
    (m : M T Call A) (Q : World T Call → Type 0) : Type 0 where
  pub at : (w : World T Call) → P w → Q (m w).1

module _ {T : TableOps Approval} {Call : Type 0} {A B : Type 0} where
  -- The rest of a call, as `>>=` runs it.
  abbrev pub continue : Outcome A → (A → M T Call B) → World T Call → Outcome B × World T Call
  continue o f w = elim o [ returned a ↦ f a w | raised e ↦ (raised e, w) ]

  Leads-continue :
      {Q : World T Call → Type 0} (o : Outcome A) (f : A → M T Call B) (w : World T Call)
      → ((a : A) → Leads Q (f a) Q)
      → Q w
      → Q (continue o f w).1
  Leads-continue (returned a) f w kf q = (kf a).at w q
  Leads-continue (raised e) f w kf q = q

  pub Leads-bind :
      {P Q : World T Call → Type 0} (m : M T Call A) (f : A → M T Call B)
      → Leads P m Q
      → ((a : A) → Leads Q (f a) Q)
      → Leads P (m >>= f) Q
  Leads-bind m f km kf = record {
    at = λ w p. let (o, w') = m w in Leads-continue o f w' kf (km.at w p);
  }

module _ {T : TableOps Approval} {Call A : Type 0} {P : World T Call → Type 0} where
  pub Leads-pure : (a : A) → Leads P (pure a) P
  Leads-pure a = record { at = λ w p. p }

  pub Leads-raise : (e : Error) → Leads P (raise {A = A} e) P
  Leads-raise e = record { at = λ w p. p }
