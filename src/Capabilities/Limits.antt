-- ===== src/Capabilities/Limits.antt =====
-- What app/brain/capability_registry.py guarantees of the requests that it finds valid.
use tachy_cognitive_ai_agent.Common.{
  ℕ, ◌≡◌, refl, ◌∙◌, Bool, true, false, not, ◌&&◌, ◌||◌, String, List, [], ◌∷◌, ◌++◌, map, arith,
  leb, All, ◌==◌, ◌⊎◌, Bool-cases, inl, inr,
}
use tachy_cognitive_ai_agent.Common.Text.{
  codes, text_eq, one_of, is_prefix, to_set, has, has-to_set, lower, lower_code, drop_while,
}
use tachy_cognitive_ai_agent.Safety.Policy.{forbidden_actions}
use tachy_cognitive_ai_agent.Capabilities.{
  self_escalation, secret_actions, shell_actions, authority_modules, risk_levels, raised_levels,
  high_risk, Issue, Request, Verdict, issue_if, has_any, has_all, filesystem_issues, action_set,
  issues_of, validate_capabilities, is_valid, matches_protected, is_absolute, normal_path, guards,
  slash, protected_scope,
}

-- What a child module may hold: none of the forbidden, escalating, secret or shell actions, and all
-- forbidden actions blocked.
pub record IsBounded (allowed blocked : List (List ℕ)) : Type 0 where
  pub no_forbidden : has_any forbidden_actions allowed ≡ false
  pub no_escalation : has_any self_escalation allowed ≡ false
  pub no_secrets : has_any secret_actions allowed ≡ false
  pub no_shell : has_any shell_actions allowed ≡ false
  pub blocks_forbidden : has_all forbidden_actions blocked ≡ true

issue_if-nil :
    (b : Bool) (i : Issue) (rest : List Issue)
    → issue_if b i ++ rest ≡ []
    → (b ≡ false) × (rest ≡ [])
issue_if-nil true i rest h = absurd (cc h)
issue_if-nil false i rest h = (refl, h)

append-nil_parts : (xs ys : List Issue) → xs ++ ys ≡ [] → (xs ≡ []) × (ys ≡ [])
append-nil_parts [] ys h = (refl, h)
append-nil_parts (x ∷ xs) ys h = absurd (cc h)

issue_if-last : (b : Bool) (i : Issue) → issue_if b i ≡ [] → b ≡ false
issue_if-last true i h = absurd (cc h)
issue_if-last false i h = refl

not-false : (b : Bool) → not b ≡ false → b ≡ true
not-false true h = refl
not-false false h = cc

has-append : (a : List ℕ) (xs ys : List (List ℕ)) → has a (xs ++ ys) ≡ (has a xs || has a ys)
unfolding has
has-append a [] ys = refl
has-append a (x ∷ xs) ys = ground (arith, has-append a xs ys)

or-true : (p q : Bool) → p ≡ true → (p || q) ≡ true
or-true true q h = refl
or-true false q h = cc

has_all-to_set :
    (names : List String) (xs ys : List (List ℕ))
    → has_all names xs ≡ true
    → has_all names (to_set (xs ++ ys)) ≡ true
unfolding has_all
has_all-to_set [] xs ys h = refl
has_all-to_set (a ∷ names) xs ys h =
    let e = has-to_set (codes a) (xs ++ ys) ∙ has-append (codes a) xs ys in
    ground (arith, h, e, has_all-to_set names xs ys)

pub or-false : (p q : Bool) → (p || q) ≡ false → (p ≡ false) × (q ≡ false)
or-false true q h = absurd (cc h)
or-false false q h = (refl, h)

-- A path that lies inside the sandbox and matches no protected one.
abbrev pub IsOpen : List ℕ → Type 0
IsOpen item = (matches_protected item ≡ false) × (is_absolute item ≡ false)

filesystem_issues-IsOpen : (items : List (List ℕ)) → filesystem_issues items ≡ [] → All IsOpen items
unfolding filesystem_issues
filesystem_issues-IsOpen [] h = tt
filesystem_issues-IsOpen (item ∷ items) h =
    let (a, b) =
      issue_if-nil (matches_protected item || is_absolute item) (protected_scope item) _ h in
    (or-false _ _ a, filesystem_issues-IsOpen items b)

-- What holds of a request that is valid, and of what is stored for it.
pub record Granted (r : Request) (v : Verdict) : Type 0 where
  pub bounded : IsBounded v.allowed_actions v.blocked_actions
  pub no_authority : one_of authority_modules r.module_key ≡ false
  pub known_risk : one_of risk_levels v.risk_level ≡ true
  pub high_is_approved :
      (has_any high_risk v.allowed_actions ≡ false)
      ⊎ ((v.requires_approval ≡ true) × (text_eq v.risk_level (codes "low") ≡ false))
  pub open_scope : All IsOpen r.filesystem_scope

valid-nil : (v : Verdict) (xs : List Issue) → v.issues ≡ xs → is_valid v ≡ true → xs ≡ []
valid-nil v [] e h = refl
valid-nil v (x ∷ xs) e h = absurd (cc (rw e at h))

or-true_right : (p q : Bool) → q ≡ true → (p || q) ≡ true
or-true_right true q h = refl
or-true_right false q h = h

approved_if_high :
    (high raised is_low : Bool)
    → (high && is_low) ≡ false
    → (high ≡ false) ⊎ (((raised || high) ≡ true) × (is_low ≡ false))
approved_if_high true raised is_low h = inr (or-true_right raised true refl, h)
approved_if_high false raised is_low h = inl refl

-- What the tests of the code say of a request that is found valid.
pub validate_capabilities-Granted :
    (r : Request) → is_valid (validate_capabilities r) ≡ true → Granted r (validate_capabilities r)
unfolding validate_capabilities issues_of
validate_capabilities-Granted r h =
    let allowed = action_set r.allowed_actions in
    let blocked = action_set r.blocked_actions in
    let risk = lower r.risk_level in
    let n = valid-nil (validate_capabilities r) (issues_of r risk allowed blocked) refl h in
    let (a1, n1) = issue_if-nil _ _ _ n in
    let (a2, n2) = issue_if-nil _ _ _ n1 in
    let (a3, n3) = issue_if-nil _ _ _ n2 in
    let (a4, n4) = issue_if-nil _ _ _ n3 in
    let (a5, n5) = issue_if-nil _ _ _ n4 in
    let (a6, n6) = issue_if-nil _ _ _ n5 in
    let (a7, n7) = append-nil_parts _ _ n6 in
    let (a8, n8) = append-nil_parts _ _ n7 in
    let (a9, n9) = issue_if-nil _ _ _ n8 in
    record {
      bounded = record {
        no_forbidden = a3;
        no_escalation = a4;
        no_secrets = a5;
        no_shell = a9;
        blocks_forbidden =
            has_all-to_set forbidden_actions blocked (map codes forbidden_actions) (not-false _ a2);
      };
      no_authority = issue_if-last _ _ n9;
      known_risk = not-false _ a1;
      high_is_approved =
          approved_if_high (has_any high_risk allowed) (one_of raised_levels risk)
            (text_eq risk (codes "low")) a6;
      open_scope = filesystem_issues-IsOpen r.filesystem_scope a7;
    }

-- No text that begins with a dot is a prefix.
abbrev IsDotless : List ℕ → Type 0
IsDotless [] = Unit
IsDotless (c ∷ s) = (c == b'.') ≡ false

lower_code-IsDotless : (c : ℕ) (s : List ℕ) → (c == b'.') ≡ false → IsDotless (lower_code c ++ s)
unfolding lower_code
lower_code-IsDotless c s h = elim (Bool-cases (leb b'A' c && leb c b'Z')) [
  | inl upper ↦ rw upper (ground (arith, upper))
  | inr other ↦ elim (Bool-cases (c == 0x212a)) [
    | inl kelvin ↦ rw (other, kelvin)
    | inr rest ↦ elim (Bool-cases (c == 0x130)) [
      | inl dotted ↦ rw (other, rest, dotted)
      | inr plain ↦ rw (other, rest, plain) h
    ]
  ]
]

lower-IsDotless : (s : List ℕ) → IsDotless s → IsDotless (lower s)
unfolding lower
lower-IsDotless [] h = tt
lower-IsDotless (c ∷ s) h = lower_code-IsDotless c (lower s) h

strip-IsDotless : (s : List ℕ) → IsDotless (drop_while (λ c. c == b'.' || c == b'/') s)
unfolding drop_while
strip-IsDotless [] = tt
strip-IsDotless (c ∷ s) = elim (Bool-cases (c == b'.' || c == b'/')) [
  | inl skipped ↦ rw skipped (strip-IsDotless s)
  | inr kept ↦ rw kept (or-false _ _ kept).0
]

dotless_unguarded :
    (s t : List ℕ) → IsDotless s → (text_eq s (b'.' ∷ t) || is_prefix (b'.' ∷ t) s) ≡ false
unfolding text_eq is_prefix
dotless_unguarded [] t h = refl
dotless_unguarded (c ∷ s) t h = let h' : (b'.' == c) ≡ false = ground (arith, h) in rw (h, h')

-- The entry `.env` of the protected paths guards no path at all, `.env` itself included, since the
-- leading dots are stripped before the comparison.
pub env_is_unguarded : (path : List ℕ) → guards (normal_path path) ".env" ≡ false
unfolding normal_path
env_is_unguarded path =
    let slashed = map slash path in
    let s = drop_while (λ c. c == b'.' || c == b'/') slashed in
    dotless_unguarded (lower s) (codes "env") (lower-IsDotless s (strip-IsDotless slashed))
