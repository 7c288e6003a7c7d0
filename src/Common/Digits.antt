-- ===== src/Common/Digits.antt =====
-- Python's `int` of a text, and `str.split` at one character. Digits are the ASCII ones.
use Prim.Native.Nat.{ℕ, zero, suc, ◌+◌, ◌-◌, ◌*◌}
use mathlib.Core.Bool.{Bool, true, false, ◌&&◌}
use mathlib.Core.List.{List, [], ◌∷◌}
use mathlib.Core.Option.{Option, none, some}
use tachy_cognitive_ai_agent.Common.Tests.{leb, ◌==◌, if◌then◌else◌}
use tachy_cognitive_ai_agent.Common.Int.{ℤ, pos, negsuc}
use tachy_cognitive_ai_agent.Common.Text.{strip, cons_head}

abbrev is_digit : ℕ → Bool
is_digit c = leb b'0' c && leb c b'9'

-- Digits with single underscores between them.
unfoldable pub decimal : Bool → ℕ → List ℕ → Option ℕ
decimal after_digit acc [] = if after_digit then some acc else none
decimal after_digit acc (c ∷ s) =
    let next = decimal true (acc * 10 + (c - b'0')) s in
    let skip = decimal false acc s in
    if is_digit c then next else if c == b'_' && after_digit then skip else none

abbrev negate : ℕ → ℤ
negate zero = pos 0
negate (suc n) = negsuc n

abbrev signed : List ℕ → Option ℤ
signed [] = none
signed (c ∷ s) =
    if c == b'+'
    then elim (decimal false 0 s) [ none ↦ none | some n ↦ some (pos n) ]
    else if c == b'-'
    then elim (decimal false 0 s) [ none ↦ none | some n ↦ some (negate n) ]
    else elim (decimal false 0 (c ∷ s)) [ none ↦ none | some n ↦ some (pos n) ]

-- `int(s)`; `none` is `ValueError`.
unfoldable pub parse_int : List ℕ → Option ℤ
unfolding decimal strip
parse_int s = signed (strip s)

-- `s.split(sep)`
unfoldable pub split_on : ℕ → List ℕ → List (List ℕ)
split_on sep [] = [] ∷ []
split_on sep (c ∷ s) = let rest = split_on sep s in if c == sep then [] ∷ rest else cons_head c rest
