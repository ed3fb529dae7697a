-- ===== src/Gateway/Openai/Honest.antt =====
-- What the error of a stream says of what its writer has accepted.
use subport.Prelude.{◌≡◌, true, false, not, Option, none, some, List, [], ◌∷◌, ◌++◌, leb}
use subport.Prelude.Text.{Text, is_empty}
use subport.Gateway.Errors.{GoError, relay}
use subport.Gateway.Openai.{Exchange, unreachable, answered, Body, Tally, Streamed}

-- firstByte says whether the writer has a byte.
abbrev IsMarked : Tally → Type 0
IsMarked t = t.first_byte ≡ not (is_empty t.got)

abbrev pub joined : List Text → Text
joined [] = []
joined (line ∷ lines) = line ++ joined lines

-- No error: the whole body has been delivered, its end was a clean one, and the end marker was seen. An error:
-- a RelayError whose FirstByteSent says whether the writer has a byte.
abbrev pub IsHonest : Text → Option Text → Option GoError → Tally → Type 0
IsHonest whole failure none t = (failure ≡ none) × (t.saw_done ≡ true) × (t.got ≡ whole)
IsHonest whole failure (some e) t = (x : GoError) × (e ≡ relay x (not (is_empty t.got)))

abbrev Honest : Text → Option Text → Streamed → Type 0
Honest whole failure s = IsHonest whole failure s.error s.tally

-- The whole body, and how it ended, where there was one that was streamed.
abbrev pub IsDelivered : Exchange Body → Streamed → Type 0
IsDelivered (unreachable e) s = ⊥
IsDelivered (answered status detail body) s =
    (leb 300 status ≡ false)
    × (body.failure ≡ none)
    × (s.tally.saw_done ≡ true)
    × (s.tally.got ≡ joined body.lines ++ body.rest)
