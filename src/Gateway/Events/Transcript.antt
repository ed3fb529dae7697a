-- ===== src/Gateway/Events/Transcript.antt =====
-- What a client that refuses nothing receives, as a function of the upstream's lines alone.
use subport.Prelude.{
  ℕ, ◌+◌, ◌≡◌, refl, sym, ap, ◌∙◌, inl, inr, true, false, ◌||◌, not, Option, none, some, List, [],
  ◌∷◌, ◌++◌, map, arith, ◌==◌, if◌then◌else◌, Bool-cases, length,
}
use mathlib.Core.List.{append-nil, append_assoc}
use subport.Prelude.Text.{Text, codes, text_eq, trim_space, has_prefix, is_empty}
use subport.Prelude.Json.{Json, Fields, null, bool, number, str, arr, obj, get_field}
use subport.Gateway.Events.{
  Format, Event, Writer, Written, opening, delta_event, closing, error_event, emit, emit_all,
  ensure_started, write_delta, write_done, write_broken, write_content, extract_chat_delta_content,
  on_frame, on_decoded, on_data, drop, trim_returns, handle_line,
}

-- What a line says.
pub data Signal : Type 0 where
  delta : Text → Signal
  done : Signal
  broke : Fields → Signal

abbrev pub delta_signal : Text → Option Signal
delta_signal content = if is_empty content then none else some (delta content)

abbrev pub frame_signal : Fields → Json → Option Signal
frame_signal frame (obj e) = some (broke e)
frame_signal frame _ = delta_signal (extract_chat_delta_content frame)

abbrev pub decoded_signal : Option Fields → Option Signal
decoded_signal none = none
decoded_signal (some frame) = frame_signal frame (get_field (codes "error") frame)

abbrev pub said : List Signal → List Text
said (delta t ∷ rest) = t ∷ said rest
said _ = []

abbrev pub total : List Text → ℕ
total [] = 0
total (t ∷ rest) = length t + total rest

-- The opening stands before the first delta, and before an end that had none.
abbrev pub greeting : List Event → List Signal → List Event
greeting first [] = []
greeting first (delta t ∷ rest) = first
greeting first (done ∷ rest) = first
greeting first (broke e ∷ rest) = []

-- What follows the first the end marker or error is not heard.
abbrev pub farewell : Format → Text → ℕ → List Signal → List Event
farewell format model n [] = []
farewell format model n (delta t ∷ rest) = farewell format model n rest
farewell format model n (done ∷ rest) = closing format model n
farewell format model n (broke e ∷ rest) = error_event e ∷ []

abbrev pub resumed : Format → Text → List Event → ℕ → List Signal → List Event
resumed format model first n signals =
    greeting first signals
    ++ map (delta_event format) (said signals)
    ++ farewell format model (n + total (said signals)) signals

abbrev pub transcript : Format → Text → List Signal → List Event
transcript format model signals = resumed format model (opening format model) 0 signals

-- A client that refuses nothing.
abbrev pub quiet : Writer → Writer
quiet w = record w { faults = [] }

-- A writer that has not ended.
abbrev pub live : Writer → Writer
live w = record w { closed = false }

abbrev pub first_of : Writer → List Event
first_of w = if w.started then [] else opening w.format w.model

emit_all_quiet :
    (es : List Event) (w : Writer)
    → emit_all es (quiet w) ≡ (true, quiet (record w { sent = w.sent ++ es }))
unfolding emit_all emit
emit_all_quiet [] w = rw (append-nil w.sent) refl
emit_all_quiet (e ∷ es) w =
    emit_all_quiet es (record w { sent = w.sent ++ e ∷ [] })
    ∙ rw (append_assoc w.sent (e ∷ []) es) refl

ensure_started_quiet :
    (w : Writer)
    → ensure_started (quiet w)
      ≡ (true, quiet (record w { started = true; sent = w.sent ++ first_of w }))
unfolding ensure_started
ensure_started_quiet w = elim (Bool-cases w.started) [
  | inl y ↦ rw (y, append-nil w.sent) refl
  | inr n ↦ rw n (emit_all_quiet (opening w.format w.model) (record w { started = true }))
]

-- The writer after a signal.
abbrev pub heard : Signal → Writer → Writer
heard (delta t) w = record w {
  started = true;
  sent = w.sent ++ first_of w ++ delta_event w.format t ∷ [];
  text_len = w.text_len + length t;
}
heard done w = record w {
  started = true;
  closed = true;
  sent = w.sent ++ first_of w ++ closing w.format w.model w.text_len;
}
heard (broke e) w = record w { started = true; closed = true; sent = w.sent ++ error_event e ∷ [] }

abbrev pub heard? : Option Signal → Writer → Writer
heard? none w = w
heard? (some x) w = heard x w

write_delta_quiet :
    (t : Text) (w : Writer) → write_delta t (quiet w) ≡ (true, quiet (heard (delta t) w))
unfolding write_delta
write_delta_quiet t w = rw (ensure_started_quiet w) (
    emit_all_quiet (delta_event w.format t ∷ [])
      (record w { started = true; sent = w.sent ++ first_of w; text_len = w.text_len + length t }))

write_done_quiet : (w : Writer) → write_done (quiet (live w)) ≡ (true, quiet (heard done (live w)))
unfolding write_done
write_done_quiet w = rw (ensure_started_quiet (live w)) (
    emit_all_quiet (closing w.format w.model w.text_len)
      (record w { started = true; closed = true; sent = w.sent ++ first_of w }))

write_broken_quiet :
    (e : Fields) (w : Writer) → write_broken e (quiet w) ≡ (true, quiet (heard (broke e) w))
unfolding write_broken
write_broken_quiet e w =
    emit_all_quiet (error_event e ∷ []) (record w { started = true; closed = true })

-- An update of the writer for a line, once the writer is not closed.
abbrev pub Hears : Written → Option Signal → Writer → Type 0
Hears x signal w = x ≡ (true, quiet (heard? signal w))

write_content_quiet : (t : Text) (w : Writer) → Hears (write_content t (quiet w)) (delta_signal t) w
write_content_quiet t w = elim (Bool-cases (is_empty t)) [
  | inl y ↦ rw y refl
  | inr n ↦ rw n (write_delta_quiet t w)
]

on_frame_quiet :
    (frame : Fields) (e : Json) (w : Writer)
    → Hears (on_frame frame e (quiet w)) (frame_signal frame e) w
on_frame_quiet frame (obj e) w = write_broken_quiet e w
on_frame_quiet frame null w = write_content_quiet (extract_chat_delta_content frame) w
on_frame_quiet frame (bool _) w = write_content_quiet (extract_chat_delta_content frame) w
on_frame_quiet frame (number _) w = write_content_quiet (extract_chat_delta_content frame) w
on_frame_quiet frame (str _) w = write_content_quiet (extract_chat_delta_content frame) w
on_frame_quiet frame (arr _) w = write_content_quiet (extract_chat_delta_content frame) w

on_decoded_quiet :
    (frame : Option Fields) (w : Writer)
    → Hears (on_decoded frame (quiet w)) (decoded_signal frame) w
on_decoded_quiet none w = refl
on_decoded_quiet (some frame) w = on_frame_quiet frame (get_field (codes "error") frame) w

module _ (decode : Text → Option Fields) where
  abbrev pub payload_signal : Text → Option Signal
  payload_signal payload =
      if text_eq payload (codes "[DONE]")
      then some done
      else if is_empty payload
      then none
      else decoded_signal (decode payload)

  -- A line that is no data line says nothing.
  abbrev pub signal_of : Text → Option Signal
  signal_of line =
      if is_empty line || not (has_prefix line (codes "data:"))
      then none
      else payload_signal (trim_space (drop 5 line))

  abbrev pub with_signal : Option Signal → List Signal → List Signal
  with_signal none rest = rest
  with_signal (some x) rest = x ∷ rest

  -- The signals of the whole lines of `b`, with `start` the bytes before it.
  unfoldable pub signals : Text → Text → List Signal
  signals start [] = []
  signals start (c ∷ b) = elim (c == 10) [
    | true ↦ with_signal (signal_of (trim_returns start)) (signals [] b)
    | false ↦ signals (start ++ c ∷ []) b
  ]

  on_data_quiet :
      (payload : Text) (w : Writer)
      → Hears (on_data decode payload (quiet (live w))) (payload_signal payload) (live w)
  on_data_quiet payload w = elim (Bool-cases (text_eq payload (codes "[DONE]"))) [
    | inl y ↦ rw y (write_done_quiet w)
    | inr n ↦ elim (Bool-cases (is_empty payload)) [
      | inl y ↦ rw (n, y) refl
      | inr m ↦ rw (n, m) (on_decoded_quiet (decode payload) (live w))
    ]
  ]

  pub handle_line_quiet :
      (line : Text) (w : Writer)
      → Hears (handle_line decode line (quiet (live w))) (signal_of line) (live w)
  unfolding handle_line
  handle_line_quiet line w = elim (Bool-cases (is_empty line)) [
    | inl y ↦ rw y refl
    | inr n ↦ elim (Bool-cases (has_prefix line (codes "data:"))) [
      | inl y ↦ rw (n, y) (on_data_quiet (trim_space (drop 5 line)) w)
      | inr m ↦ rw (n, m) refl
    ]
  ]

  -- A line that is heard by a writer that has ended changes nothing.
  pub handle_line_ended :
      (line : Text) (w : Writer)
      → handle_line decode line (record w { closed = true }) ≡ (true, record w { closed = true })
  unfolding handle_line
  handle_line_ended line w = elim (Bool-cases (is_empty line)) [
    | inl y ↦ rw y refl
    | inr n ↦ rw n refl
  ]

-- What a writer will have sent after more signals.
abbrev pub outlook : Writer → List Signal → List Event
outlook w signals =
    if w.closed then w.sent else w.sent ++ resumed w.format w.model (first_of w) w.text_len signals

greeting_none : (signals : List Signal) → greeting [] signals ≡ []
greeting_none [] = refl
greeting_none (delta t ∷ rest) = refl
greeting_none (done ∷ rest) = refl
greeting_none (broke e ∷ rest) = refl

regroup :
    {A : Type 0} (a b : List A) (d : A) (m f : List A)
    → a ++ b ++ d ∷ [] ++ (m ++ f) ≡ a ++ (b ++ d ∷ m ++ f)
regroup a b d m f =
    append_assoc (a ++ b) (d ∷ []) (m ++ f)
    ∙ append_assoc a b (d ∷ (m ++ f))
    ∙ ap (λ x. a ++ x) (sym (append_assoc b (d ∷ m) f))

-- Hearing a signal is what the transcript says of it.
pub heard-outlook :
    (decode : Text → Option Fields) (x : Option Signal) (w : Writer) (rest : List Signal)
    → outlook (heard? x (live w)) rest ≡ outlook (live w) (with_signal decode x rest)
heard-outlook decode none w rest = refl
heard-outlook decode (some (delta t)) w rest =
    let all : w.text_len + length t + total (said rest)
        ≡ w.text_len + (length t + total (said rest)) =
      omega arith in
    rw (greeting_none rest, all)
      (regroup w.sent (first_of (live w)) (delta_event w.format t)
        (map (delta_event w.format) (said rest))
        (farewell w.format w.model (w.text_len + (length t + total (said rest))) rest))
heard-outlook decode (some done) w rest =
    let none_more : w.text_len + 0 ≡ w.text_len = omega arith in
    rw (none_more, append-nil (first_of (live w)))
      (append_assoc w.sent (first_of (live w)) (closing w.format w.model w.text_len))
heard-outlook decode (some (broke e)) w rest = refl
