-- ===== src/Coding/Transcript.antt =====
-- `_compact` of app/coding/agent.py, which keeps the conversation short.
use tachy_cognitive_ai_agent.Common.{
  ℕ, zero, suc, ◌+◌, ◌-◌, ◌≤◌, ◌<◌, ◌≡◌, refl, true, List, [], ◌∷◌, ◌++◌, length, take, leb,
  if◌then◌else◌, Bool-cases, arith, inl, inr,
}
use tachy_cognitive_ai_agent.Coding.{Text, Message, assistant, user, elided}

abbrev pub drop {ℓ} : {A : Type ℓ} → ℕ → List A → List A
drop zero xs = xs
drop (suc n) [] = []
drop (suc n) (x ∷ xs) = drop n xs

-- `l[-n:]`; `l[-0:]` is the whole list.
abbrev pub last {ℓ} : {A : Type ℓ} → ℕ → List A → List A
last zero xs = xs
last (suc n) xs = drop (length xs - suc n) xs

-- The first forty characters of what the assistant wrote.
abbrev actions : List Message → List Text
actions [] = []
actions (assistant text ∷ ms) = take 40 text ∷ actions ms
actions (user p ∷ ms) = actions ms

abbrev synopsis : List Message → Message
synopsis middle = user (elided (length middle) (last 12 (actions middle)))

-- `transcript[1:-keep_recent]`; `transcript[1:-0]` is empty.
abbrev middle_of : ℕ → List Message → List Message
middle_of zero transcript = []
middle_of (suc keep) transcript = drop 1 (take (length transcript - suc keep) transcript)

unfoldable pub compact : ℕ → List Message → List Message
compact keep transcript =
    if leb (length transcript) (keep + 3)
    then transcript
    else take 1 transcript ++ synopsis (middle_of keep transcript) ∷ last keep transcript

length-drop {ℓ} : {A : Type ℓ} (n : ℕ) (xs : List A) → length (drop n xs) ≡ length xs - n
length-drop zero xs = omega arith
length-drop (suc n) [] = omega arith
length-drop (suc n) (x ∷ xs) = omega (arith, length-drop n xs)

length-last {ℓ} :
    {A : Type ℓ} (n : ℕ) (xs : List A) → suc n ≤ length xs → length (last (suc n) xs) ≡ suc n
length-last n xs h = omega (arith, h, length-drop (length xs - suc n) xs)

-- A kept transcript ends as the transcript does, the first message and the synopsis taken off.
drop_two {ℓ} :
    {A : Type ℓ} (a b : A) (n : ℕ) (xs : List A)
    → length xs ≡ suc n
    → last (suc n) (a ∷ b ∷ xs) ≡ xs
drop_two a b n xs h = let two : suc (suc (length xs)) - suc n ≡ 2 = omega (arith, h) in rw two refl

-- For a positive `keep`, a compacted transcript has at most `keep + 3` messages, and keeps the first
-- message and the last `keep`; a shorter transcript than that is left as it is.
pub compact_bounds :
    (keep : ℕ) (transcript : List Message)
    → 0 < keep
    → (length (compact keep transcript) ≤ keep + 3)
      × (take 1 (compact keep transcript) ≡ take 1 transcript)
      × (last keep (compact keep transcript) ≡ last keep transcript)
      × (length transcript ≤ keep + 3 → compact keep transcript ≡ transcript)
unfolding compact
compact_bounds zero transcript p = absurd (omega arith)
compact_bounds (suc n) [] p =
    let e : leb 0 (suc n + 3) ≡ true = ground arith in rw e (omega arith, refl, refl, λ _. refl)
compact_bounds (suc n) (m ∷ ms) p =
    let kept = length-last n (m ∷ ms) in
    elim (Bool-cases (leb (length (m ∷ ms)) (suc n + 3))) [
      | inl e ↦ rw e (ground (arith, e), refl, refl, λ _. refl)
      | inr e ↦ rw e (
        ground (arith, e, kept),
        refl,
        drop_two m (synopsis (middle_of (suc n) (m ∷ ms))) n (last (suc n) (m ∷ ms))
            (kept (ground (arith, e))),
        λ short. absurd (ground (arith, e, short)),
      )
    ]
