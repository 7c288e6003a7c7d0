-- ===== src/Common/Text.antt =====
-- Python texts as lists of code points, for the functions that look inside a text.
use Prim.Native.Char.{code}
use Prim.Native.Nat.{ℕ, ◌+◌}
use Prim.Native.String.{String}
use mathlib.Core.Path.{◌≡◌, refl, ap, ◌∙◌}
use mathlib.Core.Logic.{inl, inr}
use native.Mathlib.Omega.{arith}
use mathlib.Core.Bool.{Bool, true, false, ◌&&◌, ◌||◌}
use mathlib.Core.List.{List, [], ◌∷◌, ◌++◌, reverse}
use tachy_cognitive_ai_agent.Common.Tests.{Bool-cases, ltb, leb, ◌==◌, if◌then◌else◌}

abbrev pub codes : String → List ℕ
codes String.[] = []
codes (String.◌∷◌ c s) = code c ∷ codes s

-- `str.isspace` of one code point.
unfoldable pub is_space : ℕ → Bool
is_space c =
    (leb 0x09 c && leb c 0x0d)
    || (leb 0x1c c && leb c 0x20)
    || c == 0x85
    || c == 0xa0
    || c == 0x1680
    || (leb 0x2000 c && leb c 0x200a)
    || c == 0x2028
    || c == 0x2029
    || c == 0x202f
    || c == 0x205f
    || c == 0x3000

-- `str.lower` of one code point, as far as an ASCII letter can come out of it. The two letters
-- beyond ASCII with that property are the Kelvin sign and the dotted capital I.
unfoldable pub lower_code : ℕ → List ℕ
lower_code c =
    if leb b'A' c && leb c b'Z'
    then (c + 32) ∷ []
    else if c == 0x212a
    then b'k' ∷ []
    else if c == 0x130
    then b'i' ∷ 0x307 ∷ []
    else c ∷ []

unfoldable pub lower : List ℕ → List ℕ
unfolding lower_code
lower [] = []
lower (c ∷ s) = lower_code c ++ lower s

unfoldable pub drop_while : (ℕ → Bool) → List ℕ → List ℕ
drop_while p [] = []
drop_while p (c ∷ s) = let rest = drop_while p s in if p c then rest else c ∷ s

-- `s.strip(chars)` for the set of code points that `p` tests.
unfoldable pub strip_by : (ℕ → Bool) → List ℕ → List ℕ
unfolding drop_while
strip_by p s = reverse (drop_while p (reverse (drop_while p s)))

unfoldable pub strip : List ℕ → List ℕ
unfolding strip_by is_space
strip s = strip_by is_space s

unfoldable pub text_eq : List ℕ → List ℕ → Bool
text_eq [] [] = true
text_eq [] (d ∷ t) = false
text_eq (c ∷ s) [] = false
text_eq (c ∷ s) (d ∷ t) = c == d && text_eq s t

-- `s in {"a", "b", …}`
unfoldable pub one_of : List String → List ℕ → Bool
unfolding text_eq
one_of [] s = false
one_of (w ∷ ws) s = text_eq s (codes w) || one_of ws s

pub text_eq_refl : (s : List ℕ) → text_eq s s ≡ true
unfolding text_eq
text_eq_refl [] = refl
text_eq_refl (c ∷ s) = ground (arith, text_eq_refl s)

pub text_eq→eq : (s t : List ℕ) → text_eq s t ≡ true → s ≡ t
unfolding text_eq
text_eq→eq [] [] h = refl
text_eq→eq [] (d ∷ t) h = cc
text_eq→eq (c ∷ s) [] h = cc
text_eq→eq (c ∷ s) (d ∷ t) h = ground (arith, text_eq→eq s t)

unfoldable pub is_prefix : List ℕ → List ℕ → Bool
is_prefix [] t = true
is_prefix (c ∷ s) [] = false
is_prefix (c ∷ s) (d ∷ t) = c == d && is_prefix s t

-- `s in t`
unfoldable pub contains : List ℕ → List ℕ → Bool
unfolding is_prefix
contains s [] = is_prefix s []
contains s (d ∷ t) = is_prefix s (d ∷ t) || contains s t

-- `any(w in t for w in (…))`
unfoldable pub contains_any : List String → List ℕ → Bool
unfolding contains
contains_any [] t = false
contains_any (w ∷ ws) t = contains (codes w) t || contains_any ws t

-- `re.sub(r"\s+", " ", s)`; the flag says that a run of white space has begun.
unfoldable pub squeeze_from : Bool → List ℕ → List ℕ
unfolding is_space
squeeze_from in_run [] = []
squeeze_from in_run (c ∷ s) =
    let rest = squeeze_from (is_space c) s in
    if is_space c then if in_run then rest else b' ' ∷ rest else c ∷ rest

unfoldable pub squeeze : List ℕ → List ℕ
unfolding squeeze_from
squeeze s = squeeze_from false s

abbrev pub cons_head : ℕ → List (List ℕ) → List (List ℕ)
cons_head c [] = (c ∷ []) ∷ []
cons_head c (w ∷ ws) = (c ∷ w) ∷ ws

-- `re.split` at runs of the code points that `p` tests; the flag says that a run has begun.
unfoldable pub split_runs : (ℕ → Bool) → Bool → List ℕ → List (List ℕ)
split_runs p in_run [] = [] ∷ []
split_runs p in_run (c ∷ s) =
    let rest = split_runs p (p c) s in
    if p c then if in_run then rest else [] ∷ rest else cons_head c rest

-- `s < t`
unfoldable pub text_lt : List ℕ → List ℕ → Bool
text_lt s [] = false
text_lt [] (d ∷ t) = true
text_lt (c ∷ s) (d ∷ t) = ltb c d || (c == d && text_lt s t)

-- `a in xs`
unfoldable pub has : List ℕ → List (List ℕ) → Bool
unfolding text_eq
has a [] = false
has a (x ∷ xs) = text_eq a x || has a xs

unfoldable pub insert_text : List ℕ → List (List ℕ) → List (List ℕ)
unfolding text_eq text_lt
insert_text a [] = a ∷ []
insert_text a (x ∷ xs) =
    let rest = insert_text a xs in
    if text_eq a x then x ∷ xs else if text_lt a x then a ∷ x ∷ xs else x ∷ rest

-- `sorted(set(xs))`
unfoldable pub to_set : List (List ℕ) → List (List ℕ)
unfolding insert_text
to_set [] = []
to_set (x ∷ xs) = insert_text x (to_set xs)

or_same : (p q : Bool) → (p || q) ≡ (p || (p || q))
or_same true q = refl
or_same false q = refl

or_swap : (p q r : Bool) → (p || (q || r)) ≡ (q || (p || r))
or_swap true true r = refl
or_swap true false r = refl
or_swap false q r = refl

pub has-insert_text :
    (b a : List ℕ) (xs : List (List ℕ)) → has b (insert_text a xs) ≡ (text_eq b a || has b xs)
unfolding has insert_text
has-insert_text b a [] = refl
has-insert_text b a (x ∷ xs) = elim (Bool-cases (text_eq a x)) [
  | inl same ↦ rw (same, text_eq→eq a x same) (or_same (text_eq b x) (has b xs))
  | inr other ↦ elim (Bool-cases (text_lt a x)) [
    | inl before ↦ rw (other, before)
    | inr after ↦
        rw (other, after, has-insert_text b a xs) (or_swap (text_eq b x) (text_eq b a) (has b xs))
  ]
]

pub has-to_set : (b : List ℕ) (xs : List (List ℕ)) → has b (to_set xs) ≡ has b xs
unfolding has to_set
has-to_set b [] = refl
has-to_set b (x ∷ xs) =
    has-insert_text b x (to_set xs) ∙ ap (λ h. text_eq b x || h) (has-to_set b xs)
