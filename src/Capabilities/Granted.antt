-- ===== src/Capabilities/Granted.antt =====
-- What a request that app/brain/capability_registry.py finds valid asks for, in terms of the texts in
-- it.
use tachy_cognitive_ai_agent.Common.{
  ◌≡◌, ◌≢◌, refl, sym, ap, ◌∙◌, true, false, String, List, [], ◌∷◌, ◌++◌, map, any_of, All, ◌⊎◌,
  inl, inr, arith, ℕ,
}
use mathlib.Core.Bool.{false≢true}
use tachy_cognitive_ai_agent.Common.Text.{
  codes, text_eq, text_eq_refl, one_of, is_prefix, has, has-to_set, lower, strip,
}
use tachy_cognitive_ai_agent.Safety.Policy.{forbidden_actions}
use tachy_cognitive_ai_agent.Capabilities.{
  self_escalation, secret_actions, shell_actions, authority_modules, high_risk, Request, Verdict,
  has_any, has_all, action_set, validate_capabilities, is_valid, matches_protected, is_absolute,
  normal_path, guards, protected_paths,
}
use tachy_cognitive_ai_agent.Capabilities.Limits.{IsOpen, or-false, validate_capabilities-Granted}

-- No action that is asked for is one of the names, in whatever case and with whatever space round it.
abbrev pub AsksNone : List String → List (List ℕ) → Type 0
AsksNone names actions = All (λ f. All (λ a. lower (strip a) ≢ codes f) actions) names

apart : (s t : List ℕ) → text_eq s t ≡ false → t ≢ s
apart s t h e = false≢true (sym h ∙ ap (text_eq s) e ∙ text_eq_refl s)

has-false :
    (f : List ℕ) (actions : List (List ℕ))
    → has f (map (λ a. lower (strip a)) actions) ≡ false
    → All (λ a. lower (strip a) ≢ f) actions
unfolding has
has-false f [] h = tt
has-false f (a ∷ actions) h =
    let (p, q) = or-false _ _ h in (apart f (lower (strip a)) p, has-false f actions q)

has_any-AsksNone :
    (names : List String) (actions : List (List ℕ))
    → has_any names (action_set actions) ≡ false
    → AsksNone names actions
unfolding has_any action_set
has_any-AsksNone [] actions h = tt
has_any-AsksNone (f ∷ names) actions h =
    let (p, q) = or-false _ _ h in
    (
      has-false (codes f) actions
          (sym (has-to_set (codes f) (map (λ a. lower (strip a)) actions)) ∙ p),
      has_any-AsksNone names actions q,
    )

one_of-false :
    (names : List String) (s : List ℕ) → one_of names s ≡ false → All (λ k. codes k ≢ s) names
unfolding one_of
one_of-false [] s h = tt
one_of-false (k ∷ names) s h =
    let (p, q) = or-false _ _ h in (apart s (codes k) p, one_of-false names s q)

is_prefix-append : (s t : List ℕ) → is_prefix s (s ++ t) ≡ true
unfolding is_prefix
is_prefix-append [] t = refl
is_prefix-append (c ∷ s) t = ground (arith, is_prefix-append s t)

unguarded :
    (path : List ℕ) (p : String) → guards path p ≡ false → (rest : List ℕ) → path ≢ codes p ++ rest
unguarded path p h rest e =
    let q = (or-false _ _ h).1 in
    false≢true (sym q ∙ ap (is_prefix (codes p)) e ∙ is_prefix-append (codes p) rest)

any_of-guards :
    (path : List ℕ) (ps : List String)
    → any_of (guards path) ps ≡ false
    → All (λ p. (rest : List ℕ) → path ≢ codes p ++ rest) ps
any_of-guards path [] h = tt
any_of-guards path (p ∷ ps) h =
    let (a, b) = or-false _ _ h in (unguarded path p a, any_of-guards path ps b)

-- A path that is relative, and that begins with no protected path once backslashes are turned, its
-- leading dots and slashes are taken off, and it is in lower case.
abbrev pub IsOutside : List ℕ → Type 0
IsOutside item =
    ((rest : List ℕ) → item ≢ b'/' ∷ rest)
    × All (λ p. (rest : List ℕ) → normal_path item ≢ codes p ++ rest) protected_paths

relative : (item : List ℕ) → is_absolute item ≡ false → (rest : List ℕ) → item ≢ b'/' ∷ rest
relative item h rest e = false≢true (sym h ∙ ap is_absolute e)

All-IsOutside : (items : List (List ℕ)) → All IsOpen items → All IsOutside items
unfolding matches_protected
All-IsOutside [] h = tt
All-IsOutside (item ∷ items) ((a, b), h) =
    ((relative item b, any_of-guards (normal_path item) protected_paths a), All-IsOutside items h)

-- What a valid request asks for, and what is stored for it.
pub record IsHarmless (r : Request) (v : Verdict) : Type 0 where
  pub no_forbidden : AsksNone forbidden_actions r.allowed_actions
  pub no_escalation : AsksNone self_escalation r.allowed_actions
  pub no_secrets : AsksNone secret_actions r.allowed_actions
  pub no_shell : AsksNone shell_actions r.allowed_actions
  pub blocks_forbidden : has_all forbidden_actions v.blocked_actions ≡ true
  pub no_authority : All (λ k. codes k ≢ r.module_key) authority_modules
  pub high_is_approved :
      AsksNone high_risk r.allowed_actions
      ⊎ ((v.requires_approval ≡ true) × (v.risk_level ≢ codes "low"))
  pub outside : All IsOutside r.filesystem_scope

high_or_none :
    (r : Request)
    → (has_any high_risk (validate_capabilities r).allowed_actions ≡ false)
      ⊎ (((validate_capabilities r).requires_approval ≡ true)
          × (text_eq (validate_capabilities r).risk_level (codes "low") ≡ false))
    → AsksNone high_risk r.allowed_actions
      ⊎ (((validate_capabilities r).requires_approval ≡ true)
          × ((validate_capabilities r).risk_level ≢ codes "low"))
unfolding validate_capabilities
high_or_none r (inl h) = inl (has_any-AsksNone high_risk r.allowed_actions h)
high_or_none r (inr (a, h)) = inr (a, λ e. apart _ _ h (sym e))

-- A request that is found valid asks for no forbidden, escalating, secret or shell action, in
-- whatever case and with whatever space round its name; every forbidden action is stored as blocked;
-- it names no authority module; no path in its filesystem scope is absolute, or begins with a
-- protected path once its leading dots and slashes are taken off and it is in lower case; and where
-- it asks for a high-risk action, its risk is not low and it needs approval.
pub validate_capabilities-IsHarmless :
    (r : Request)
    → is_valid (validate_capabilities r) ≡ true
    → IsHarmless r (validate_capabilities r)
unfolding validate_capabilities
validate_capabilities-IsHarmless r h =
    let g = validate_capabilities-Granted r h in
    record {
      no_forbidden = has_any-AsksNone forbidden_actions r.allowed_actions g.bounded.no_forbidden;
      no_escalation = has_any-AsksNone self_escalation r.allowed_actions g.bounded.no_escalation;
      no_secrets = has_any-AsksNone secret_actions r.allowed_actions g.bounded.no_secrets;
      no_shell = has_any-AsksNone shell_actions r.allowed_actions g.bounded.no_shell;
      blocks_forbidden = g.bounded.blocks_forbidden;
      no_authority = one_of-false authority_modules r.module_key g.no_authority;
      high_is_approved = high_or_none r g.high_is_approved;
      outside = All-IsOutside r.filesystem_scope g.open_scope;
    }
