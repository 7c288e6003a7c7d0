-- ===== src/Tests/Payloads.antt =====
-- A payload format that can be read back: numbers by strokes, then the body.
use Prim.Native.Char.{code}
use tachy_cognitive_ai_agent.Common.{
  ℕ, zero, suc, ◌+◌, ◌≡◌, refl, String, Option, none, some, ◌==◌, if◌then◌else◌, arith, ◌∙◌, ap,
}
use tachy_cognitive_ai_agent.TodySend.{Fields, Payloads}

abbrev strokes : ℕ → String → String
strokes zero rest = String.◌∷◌ "." rest
strokes (suc n) rest = String.◌∷◌ "x" (strokes n rest)

-- The number of strokes, and what follows the dot.
abbrev count_strokes : ℕ → String → ℕ × String
count_strokes n String.[] = (n, String.[])
count_strokes n (String.◌∷◌ c s) =
    let more = count_strokes (suc n) s in if code c == b'x' then more else (n, s)

count_strokes-strokes : (n k : ℕ) (rest : String) → count_strokes k (strokes n rest) ≡ (n + k, rest)
count_strokes-strokes zero k rest = ap (λ (j : ℕ). (j, rest)) (omega arith)
count_strokes-strokes (suc n) k rest =
    count_strokes-strokes n (suc k) rest ∙ ap (λ (j : ℕ). (j, rest)) (omega arith)

abbrev to_number : Option ℕ → ℕ
to_number none = 0
to_number (some n) = suc n

abbrev from_number : ℕ → Option ℕ
from_number zero = none
from_number (suc n) = some n

from-to : (o : Option ℕ) → from_number (to_number o) ≡ o
from-to none = refl
from-to (some n) = refl

abbrev write_body : Option String → String
write_body none = String.[]
write_body (some s) = String.◌∷◌ "b" s

abbrev read_body : String → Option String
read_body String.[] = none
read_body (String.◌∷◌ c s) = some s

read-write : (o : Option String) → read_body (write_body o) ≡ o
read-write none = refl
read-write (some s) = refl

abbrev dumps : Fields → String
dumps f =
    strokes (to_number f.conversation_id)
      (strokes (to_number f.reply_to_message_id) (write_body f.body))

abbrev fields_of : ℕ → ℕ → String → Fields
fields_of conversation reply text = record {
  conversation_id = from_number conversation;
  body = read_body text;
  reply_to_message_id = from_number reply;
}

abbrev second_number : ℕ → ℕ × String → Fields
second_number conversation r = fields_of conversation r.0 r.1

abbrev first_number : ℕ × String → Fields
first_number r = second_number r.0 (count_strokes 0 r.1)

abbrev loads : String → Option Fields
loads s = some (first_number (count_strokes 0 s))

plus_zero : (n : ℕ) → n + 0 ≡ n
plus_zero n = omega arith

pub loads-dumps : (f : Fields) → loads (dumps f) ≡ some f
loads-dumps f =
    let c = to_number f.conversation_id in
    let r = to_number f.reply_to_message_id in
    let tail = write_body f.body in
    rw
      (
        count_strokes-strokes c 0 (strokes r tail),
        count_strokes-strokes r 0 tail,
        plus_zero c,
        plus_zero r,
        from-to f.conversation_id,
        from-to f.reply_to_message_id,
        read-write f.body,
      )
      refl

abbrev pub payloads : Payloads
payloads = record { dumps = dumps; loads = loads; loads-dumps = loads-dumps }
