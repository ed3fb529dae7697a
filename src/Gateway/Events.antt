-- ===== src/Gateway/Events.antt =====
-- internal/gateway/sse_protocol.go: the writer that turns the chat-completions stream of a provider
-- into the events of another protocol. The client may refuse any write; the schedule of its faults is
-- part of the state. HTTP headers and flushes are left out, and so is what reaches the client of a
-- write that it refuses. `decode` is json.Unmarshal into a map, none where it fails; an event holds
-- the payload that json.Marshal prints.
pub mod Chunks
pub mod Received
pub mod Transcript
use subport.Prelude.{
  ℕ, zero, suc, ◌+◌, ◌-◌, ◌*◌, ◌/◌, ◌%◌, ◌^◌, ◌≤◌, ◌<◌, String, ◌≡◌, refl, sym, ap, ◌∙◌, ◌≢◌, ◌↔◌,
  ◌⊎◌, inl, inr, Bool, true, false, ◌&&◌, ◌||◌, not, Option, none, some, List, [], ◌∷◌, ◌++◌, map,
  arith, str_eq, eq_iff, eq_refl, ltb, leb, ◌==◌, if◌then◌else◌, Bool-cases, if_rule, Option-cases,
  ltb→lt, lt→ltb, leb→le, ==_iff, tests, length, get_elem?, length-append, All, All-append,
  get_elem?-All, keep,
}
use subport.Prelude.Int.{
  ℤ, pos, negsuc, pos_part, neg_part, sub_ℕ, ◌+ℤ◌, ◌-ℤ◌, ◌*ℤ◌, ◌≤ℤ◌, ltb_ℤ, +ℤ_parts, -ℤ_parts,
  eq_of_parts, int_laws,
}
use subport.Prelude.Text.{Text, codes, text_eq, trim_space, has_prefix, is_empty}
use subport.Prelude.Json.{
  Json, null, number, str, arr, obj, Items, nil, cons, Fields, end, field, get_field, member,
  text_of,
}

pub data Format : Type 0 where
  anthropic responses : Format

pub record Event : Type 0 where
  pub name : Text
  pub payload : Json

-- `sent` is what the client has, and `faults` says of each write to come whether it fails.
pub record Writer : Type 0 where
  pub format : Format
  pub model : Text
  pub buf : Text
  pub started : Bool
  pub closed : Bool
  pub text_len : ℕ
  pub sent : List Event
  pub faults : List Bool

abbrev pub new_writer : Format → Text → List Bool → Writer
new_writer format model faults = record {
  format = format;
  model = model;
  buf = [];
  started = false;
  closed = false;
  text_len = 0;
  sent = [];
  faults = faults;
}

-- A literal of map[string]any.
abbrev pub object : List (String × Json) → Fields
object [] = end
object ((k, v) ∷ rest) = field (codes k) v (object rest)

abbrev pub word : String → Json
word s = str (codes s)

abbrev pub event : String → List (String × Json) → Event
event name fields = record {
  name = codes name;
  payload = obj (object (("type", word name) ∷ fields));
}

abbrev pub no_usage : Json
no_usage = obj (object (("input_tokens", number (pos 0)) ∷ ("output_tokens", number (pos 0)) ∷ []))

abbrev pub resp_id : Json
resp_id = word "resp_subport"

-- What ensureStarted writes.
unfoldable pub opening : Format → Text → List Event
opening anthropic model =
    event "message_start" (
      (
        "message",
        obj (
            object (
              ("id", word "msg_subport")
              ∷ ("type", word "message")
              ∷ ("role", word "assistant")
              ∷ ("model", str model)
              ∷ ("content", arr nil)
              ∷ ("stop_reason", null)
              ∷ ("stop_sequence", null)
              ∷ ("usage", no_usage)
              ∷ [])),
      )
      ∷ [])
    ∷ event "content_block_start" (
        ("index", number (pos 0))
        ∷ ("content_block", obj (object (("type", word "text") ∷ ("text", word "") ∷ [])))
        ∷ [])
    ∷ []
opening responses model =
    event "response.created" (
      (
        "response",
        obj (
            object (
              ("id", resp_id)
              ∷ ("object", word "response")
              ∷ ("model", str model)
              ∷ ("status", word "in_progress")
              ∷ [])),
      )
      ∷ [])
    ∷ []

-- What writeDelta writes.
unfoldable pub delta_event : Format → Text → Event
delta_event anthropic content = event "content_block_delta" (
    ("index", number (pos 0))
    ∷ ("delta", obj (object (("type", word "text_delta") ∷ ("text", str content) ∷ [])))
    ∷ [])
delta_event responses content = event "response.output_text.delta" (("delta", str content) ∷ [])

-- What writeDone writes.
unfoldable pub closing : Format → Text → ℕ → List Event
closing anthropic model text_len =
    event "content_block_stop" (("index", number (pos 0)) ∷ [])
    ∷ event "message_delta" (
        ("delta", obj (object (("stop_reason", word "end_turn") ∷ ("stop_sequence", null) ∷ [])))
        ∷ ("usage", obj (object (("output_tokens", number (pos text_len)) ∷ [])))
        ∷ [])
    ∷ event "message_stop" []
    ∷ []
closing responses model text_len =
    event "response.completed" (
      (
        "response",
        obj (
            object (
              ("id", resp_id)
              ∷ ("object", word "response")
              ∷ ("model", str model)
              ∷ ("status", word "completed")
              ∷ ("usage", obj (object (("total_tokens", number (pos text_len)) ∷ [])))
              ∷ [])),
      )
      ∷ [])
    ∷ []

abbrev pub error_type : Fields → Text
error_type e =
    let typ = text_of (get_field (codes "type") e) in
    if is_empty typ then codes "stream_broken" else typ

-- What writeBroken writes, in either format.
unfoldable pub error_event : Fields → Event
unfolding get_field is_empty
error_event e = event "error" (
    (
      "error",
      obj (
          object (
            ("type", str (error_type e))
            ∷ ("message", str (text_of (get_field (codes "message") e)))
            ∷ [])),
    )
    ∷ [])

-- No error, and the writer; or the error of the client.
abbrev pub Written : Type 0
Written = Bool × Writer

abbrev pub if_fine : Written → (Writer → Written) → Written
if_fine (true, w) k = k w
if_fine (false, w) k = (false, w)

abbrev pub emit_under : List Bool → Event → Writer → Written
emit_under [] e w = (true, record w { sent = w.sent ++ e ∷ [] })
emit_under (true ∷ faults) e w = (false, record w { faults = faults })
emit_under (false ∷ faults) e w = (true, record w { sent = w.sent ++ e ∷ []; faults = faults })

-- writeAnthropicEvent, writeResponsesEvent: one frame.
unfoldable pub emit : Event → Writer → Written
emit e w = emit_under w.faults e w

-- Frames until one fails.
unfoldable pub emit_all : List Event → Writer → Written
unfolding emit
emit_all [] w = (true, w)
emit_all (e ∷ rest) w = if_fine (emit e w) (emit_all rest)

unfoldable pub ensure_started : Writer → Written
unfolding emit_all opening
ensure_started w =
    if w.started
    then (true, w)
    else emit_all (opening w.format w.model) (record w { started = true })

unfoldable pub write_delta : Text → Writer → Written
unfolding ensure_started emit_all delta_event
write_delta content w = if_fine (ensure_started w) (λ w'.
    emit_all (delta_event w'.format content ∷ [])
      (record w' { text_len = w'.text_len + length content }))

unfoldable pub write_done : Writer → Written
unfolding ensure_started emit_all closing
write_done w =
    if w.closed
    then (true, w)
    else if_fine (ensure_started w)
        (λ w'. emit_all (closing w'.format w'.model w'.text_len) (record w' { closed = true }))

unfoldable pub write_broken : Fields → Writer → Written
unfolding emit_all error_event
write_broken e w = emit_all (error_event e ∷ []) (record w { started = true; closed = true })

-- delta["content"] of one choice.
abbrev pub choice_content : Json → Text
choice_content c = text_of (member "content" (member "delta" c))

unfoldable pub choices_content : Items → Text
unfolding member
choices_content nil = []
choices_content (cons c rest) = choice_content c ++ choices_content rest

abbrev pub items_of : Json → Items
items_of (arr l) = l
items_of _ = nil

unfoldable pub extract_chat_delta_content : Fields → Text
unfolding choices_content get_field
extract_chat_delta_content frame = choices_content (items_of (get_field (codes "choices") frame))

abbrev pub write_content : Text → Writer → Written
write_content content w = if is_empty content then (true, w) else write_delta content w

abbrev pub on_frame : Fields → Json → Writer → Written
on_frame frame (obj e) w = write_broken e w
on_frame frame _ w = write_content (extract_chat_delta_content frame) w

abbrev pub on_decoded : Option Fields → Writer → Written
on_decoded none w = (true, w)
on_decoded (some frame) w = on_frame frame (get_field (codes "error") frame) w

-- strings.TrimRight(line, "\r")
unfoldable pub trim_returns : Text → Text
trim_returns [] = []
trim_returns (c ∷ s) = elim (trim_returns s) [
  | [] ↦ if c == 13 then [] else c ∷ []
  | d ∷ r ↦ c ∷ d ∷ r
]

abbrev pub drop {ℓ} : {A : Type ℓ} → ℕ → List A → List A
drop zero l = l
drop (suc n) [] = []
drop (suc n) (_ ∷ l) = drop n l

module _ (decode : Text → Option Fields) where
  abbrev pub on_data : Text → Writer → Written
  on_data payload w =
      if text_eq payload (codes "[DONE]")
      then write_done w
      else if is_empty payload
      then (true, w)
      else on_decoded (decode payload) w

  unfoldable pub handle_line : Text → Writer → Written
  unfolding write_done write_delta write_broken extract_chat_delta_content get_field has_prefix
      trim_space text_eq is_empty
  handle_line line w =
      if is_empty line || w.closed
      then (true, w)
      else if not (has_prefix line (codes "data:"))
      then (true, w)
      else on_data (trim_space (drop 5 line)) w

  -- After a line: go on, or keep the bytes that are left for the next Write.
  abbrev pub after_line : Text → (Writer → Written) → Written → Written
  after_line rest k (true, w) = k w
  after_line rest k (false, w) = (false, record w { buf = rest })

  -- The loop over the buffer, with the bytes of the line so far in `buf`.
  unfoldable pub scan : Text → Writer → Written
  unfolding handle_line trim_returns
  scan [] w = (true, w)
  scan (c ∷ rest) w = elim (c == 10) [
    | true ↦ after_line rest (scan rest) (handle_line (trim_returns w.buf) (record w { buf = [] }))
    | false ↦ scan rest (record w { buf = w.buf ++ c ∷ [] })
  ]

  unfoldable pub write : Text → Writer → Written
  unfolding scan
  write [] w = (true, w)
  write (c ∷ b) w = scan (w.buf ++ c ∷ b) (record w { buf = [] })
