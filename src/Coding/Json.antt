-- ===== src/Coding/Json.antt =====
-- `_extract_json` of app/coding/agent.py, and of app/agents/chat_tool_loop.py, which is the same.
use tachy_cognitive_ai_agent.Common.{
  ℕ, zero, suc, ◌≡◌, refl, Bool, true, false, Option, none, some, List, [], ◌∷◌, ◌++◌, ◌==◌,
  if◌then◌else◌, Bool-cases, sym, ap, ◌∙◌, inl, inr,
}
use mathlib.Core.List.{reverse, reverse-cons, reverse-reverse, append_assoc}
use mathlib.Core.Bool.{false≢true}
use tachy_cognitive_ai_agent.Common.Int.{ℤ, pos, negsuc}

abbrev next : ℤ → ℤ
next (pos n) = pos (suc n)
next (negsuc zero) = pos 0
next (negsuc (suc n)) = negsuc n

abbrev previous : ℤ → ℤ
previous (pos zero) = negsuc 0
previous (pos (suc n)) = pos n
previous (negsuc n) = negsuc (suc n)

abbrev is_zero : ℤ → Bool
is_zero (pos zero) = true
is_zero (pos (suc n)) = false
is_zero (negsuc n) = false

-- The text since the last start, in reverse; `none` where `start` is `None`.
abbrev push : ℕ → Option (List ℕ) → Option (List ℕ)
push c none = none
push c (some seen) = some (c ∷ seen)

abbrev opened : ℕ → ℤ → Option (List ℕ) → Option (List ℕ)
opened c depth start = if is_zero depth then some (c ∷ []) else push c start

-- The text that ends here, where it is to be read.
abbrev closed : ℕ → ℤ → Option (List ℕ) → Option (List ℕ)
closed c depth none = none
closed c depth (some seen) = if is_zero depth then some (reverse (c ∷ seen)) else none

module _ {A : Type 0} (loads : List ℕ → Option A) where
  -- The rest of the loop, after an object has been read, and after one could not be.
  abbrev found : Option A → Option A → Option A
  found (some obj) rest = some obj
  found none rest = rest

  unfoldable pub scan : ℤ → Option (List ℕ) → List ℕ → Option A
  scan depth start [] = none
  scan depth start (c ∷ s) =
      let deeper = scan (next depth) (opened c depth start) s in
      let along = scan (previous depth) (push c start) s in
      let again = scan (previous depth) none s in
      let on = scan depth (push c start) s in
      if c == b'{'
      then deeper
      else if c == b'}'
      then elim (closed c (previous depth) start) [
        | none ↦ along
        | some text ↦ found (loads text) again
      ]
      else on

  -- `unfence` strips code fences by a regular expression.
  unfoldable pub extract_json : (List ℕ → List ℕ) → List ℕ → Option A
  unfolding scan
  extract_json unfence text = scan (pos 0) none (unfence text)

-- No brace at all.
abbrev pub IsPlain : List ℕ → Type 0
IsPlain [] = Unit
IsPlain (c ∷ s) = ((c == b'{') ≡ false) × ((c == b'}') ≡ false) × IsPlain s

-- The text between the outer braces: it closes no brace that it has not opened.
unfoldable pub is_inner : ℕ → List ℕ → Bool
is_inner depth [] = is_zero (pos depth)
is_inner depth (c ∷ s) =
    let deeper = is_inner (suc depth) s in
    let out : Bool = elim depth [ zero ↦ false | suc d ↦ is_inner d s ] in
    let on = is_inner depth s in if c == b'{' then deeper else if c == b'}' then out else on

scan-plain :
    {A : Type 0} (loads : List ℕ → Option A) (noise s : List ℕ)
    → IsPlain noise
    → scan loads (pos 0) none (noise ++ s) ≡ scan loads (pos 0) none s
unfolding scan
scan-plain loads [] s h = refl
scan-plain loads (c ∷ noise) s (o, e, h) = rw (o, e) (scan-plain loads noise s h)

-- A character that is passed moves from the text ahead to the text behind.
passed :
    (c : ℕ) (inside seen : List ℕ) → reverse inside ++ (c ∷ seen) ≡ reverse (c ∷ inside) ++ seen
passed c inside seen = rw (reverse-cons c inside, append_assoc (reverse inside) (c ∷ []) seen) refl

-- What the loop gives where the outer brace closes after the text `seen`.
abbrev ended : {A : Type 0} → (List ℕ → Option A) → List ℕ → List ℕ → Option A
ended loads rest seen = found loads (loads (reverse (b'}' ∷ seen))) (scan loads (pos 0) none rest)

scan_inner :
    {A : Type 0} (loads : List ℕ → Option A) (depth : ℕ) (inside seen rest : List ℕ)
    → is_inner depth inside ≡ true
    → scan loads (pos (suc depth)) (some seen) (inside ++ b'}' ∷ rest)
      ≡ ended loads rest (reverse inside ++ seen)
unfolding scan is_inner
scan_inner loads zero [] seen rest h = refl
scan_inner loads (suc depth) [] seen rest h = absurd (false≢true h)
scan_inner loads zero (c ∷ inside) seen rest h =
    let onward = ap (ended loads rest) (passed c inside seen) in
    elim (Bool-cases (c == b'{')) [
      | inl o ↦ rw o (scan_inner loads 1 inside (c ∷ seen) rest (cc (rw o at h)) ∙ onward)
      | inr o ↦ elim (Bool-cases (c == b'}')) [
        | inl e ↦ absurd (false≢true (cc (rw (o, e) at h)))
        | inr e ↦
            rw (o, e) (scan_inner loads 0 inside (c ∷ seen) rest (cc (rw (o, e) at h)) ∙ onward)
      ]
    ]
scan_inner loads (suc depth) (c ∷ inside) seen rest h =
    let onward = ap (ended loads rest) (passed c inside seen) in
    elim (Bool-cases (c == b'{')) [
      | inl o ↦
          rw o (scan_inner loads (suc (suc depth)) inside (c ∷ seen) rest (cc (rw o at h)) ∙ onward)
      | inr o ↦ elim (Bool-cases (c == b'}')) [
        | inl e ↦
            rw (o, e) (scan_inner loads depth inside (c ∷ seen) rest (cc (rw (o, e) at h)) ∙ onward)
        | inr e ↦
            rw (o, e)
              (scan_inner loads (suc depth) inside (c ∷ seen) rest (cc (rw (o, e) at h)) ∙ onward)
      ]
    ]

-- The outer braces and what stands between them, read back in order.
between :
    (inside : List ℕ)
    → reverse (b'}' ∷ (reverse inside ++ b'{' ∷ [])) ≡ b'{' ∷ (inside ++ b'}' ∷ [])
between inside =
    ap (λ w. reverse (b'}' ∷ w)) (sym (reverse-cons b'{' inside))
    ∙ reverse-cons b'}' (reverse (b'{' ∷ inside))
    ∙ ap (λ w. w ++ b'}' ∷ []) (reverse-reverse (b'{' ∷ inside))

-- Where a reply without its fences is text without braces, an object between its outer braces that
-- JSON reads, and anything after it, `_extract_json` gives that object. The text between the outer
-- braces opens every brace that it closes and closes every brace that it opens, and nothing is
-- assumed of the strings in it.
pub extract_json-surrounded :
    {A : Type 0} (loads : List ℕ → Option A) (unfence : List ℕ → List ℕ)
    (reply noise inside rest : List ℕ) (obj : A)
    → unfence reply ≡ noise ++ b'{' ∷ (inside ++ b'}' ∷ rest)
    → IsPlain noise
    → is_inner 0 inside ≡ true
    → loads (b'{' ∷ (inside ++ b'}' ∷ [])) ≡ some obj
    → extract_json loads unfence reply ≡ some obj
unfolding extract_json scan
extract_json-surrounded loads unfence reply noise inside rest obj text plain inner reads =
    rw (text, scan-plain loads noise (b'{' ∷ (inside ++ b'}' ∷ rest)) plain)
      (scan_inner loads 0 inside (b'{' ∷ []) rest inner ∙ rw (between inside, reads) refl)
