-- ===== src/Examples/Streams.antt =====
-- Streams: the openai adapter and the client's events of internal/gateway.
use subport.Prelude.{◌≡◌, refl, true, false, Option, none, some, List, [], ◌∷◌, ◌++◌}
use subport.Prelude.Text.{Text, codes}
use subport.Prelude.Json.{Fields, str}
use subport.Gateway.Openai.{Body, Frame}
use subport.Gateway.Events.{anthropic, responses, Writer, new_writer, write, object}
use subport.Gateway.Events.Chunks.{write-append}
use subport.Gateway.Events.Received.{write_all, joined, write_all-transcript}
use subport.Gateway.Events.Transcript.{transcript, signals}

-- A stand-in for the JSON decoder: every payload is a delta of two bytes, and reports no usage.
abbrev frame_of : Text → Option Frame
frame_of payload = some (record { contents = codes "hi" ∷ []; usage = none })

abbrev newline : Text
newline = 10 ∷ []

abbrev body : Body
body = record {
  lines = (codes "data: {}" ++ newline) ∷ (codes "data: [DONE]" ++ newline) ∷ [];
  rest = [];
  failure = none;
}

abbrev decode : Text → Option Fields
decode payload = some (object (("choices", str payload) ∷ []))

abbrev chunks : List Text
chunks = codes "data: [DO" ∷ (codes "NE]" ++ newline) ∷ (codes "data: more" ++ newline) ∷ []

write_all-transcript_example :
    let (fine, w) = write_all decode chunks (new_writer anthropic (codes "m") []) in
    (fine ≡ true)
    × (w.sent ≡ transcript anthropic (codes "m") (signals decode [] (joined decode chunks)))
write_all-transcript_example = write_all-transcript decode anthropic (codes "m") chunks

-- The client refuses the second frame.
abbrev writer : Writer
writer = new_writer responses (codes "m") (false ∷ true ∷ [])

write-append_example :
    write decode (codes "data: [DO" ++ (codes "NE]" ++ newline)) writer
    ≡ write decode (codes "NE]" ++ newline) (write decode (codes "data: [DO") writer).1
unfolding write
write-append_example =
    write-append decode (codes "data: [DO") (codes "NE]" ++ newline) writer tt refl
