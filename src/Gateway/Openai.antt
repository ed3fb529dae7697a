-- ===== src/Gateway/Openai.antt =====
-- The openai adapter: Call of internal/gateway/provider.go, and Stream and billableTokens of
-- internal/gateway/stream.go. HTTP and JSON are other code: an exchange is what the HTTP client
-- returns, a `decode` what json.Unmarshal makes of a text, none where it fails. A request that cannot
-- be built reads as one that got no response.
pub mod Honest
use subport.Prelude.{
  ℕ, zero, suc, ◌+◌, ◌-◌, ◌*◌, ◌/◌, ◌%◌, ◌^◌, ◌≤◌, ◌<◌, String, ◌≡◌, refl, sym, ap, ◌∙◌, ◌≢◌, ◌↔◌,
  ◌⊎◌, inl, inr, Bool, true, false, ◌&&◌, ◌||◌, not, Option, none, some, List, [], ◌∷◌, ◌++◌, map,
  arith, str_eq, eq_iff, eq_refl, ltb, leb, ◌==◌, if◌then◌else◌, Bool-cases, if_rule, Option-cases,
  ltb→lt, lt→ltb, leb→le, ==_iff, tests, length, get_elem?, length-append, All, All-append,
  get_elem?-All, keep,
}
use subport.Prelude.Int.{
  ℤ, pos, negsuc, pos_part, neg_part, sub_ℕ, ◌+ℤ◌, ◌-ℤ◌, ◌*ℤ◌, ◌≤ℤ◌, ltb_ℤ, +ℤ_parts, -ℤ_parts,
  eq_of_parts, int_laws,
}
use subport.Prelude.Text.{Text, codes, text_eq, trim_space, has_prefix, is_empty}
use subport.Prelude.Int64.{is_positive}
use subport.Gateway.Errors.{GoError, plain, relay, message}
use subport.Gateway.Relay.{Answer, reply, failed}
use subport.Gateway.Events.{drop}

-- strings.ReplaceAll: the matches from the left, with `skip` bytes of the last one to pass over.
unfoldable pub replace_from : ℕ → Text → Text → Text → Text
unfolding has_prefix
replace_from skip old new [] = []
replace_from (suc skip) old new (c ∷ s) = replace_from skip old new s
replace_from zero old new (c ∷ s) = elim (has_prefix (c ∷ s) old) [
  | true ↦ new ++ replace_from (length old - 1) old new s
  | false ↦ c ∷ replace_from zero old new s
]

-- `bearer` replaces what bearerPattern matches.
unfoldable pub redact_secrets : (Text → Text) → Text → Text → Text
unfolding replace_from is_empty
redact_secrets bearer msg credential =
    bearer (if is_empty credential then msg else replace_from 0 credential (codes "[REDACTED]") msg)

-- The decimal digits of a status.
abbrev pub digits_on : ℕ → ℕ → Text
digits_on zero n = []
digits_on (suc fuel) n =
    let more = digits_on fuel (n / 10) in (if ltb n 10 then [] else more) ++ ((48 + n % 10) ∷ [])

abbrev pub decimal : ℕ → Text
decimal n = digits_on (suc n) n

-- The body of an answer, with the text of `error.message` where it has one.
abbrev pub status_error : (Text → Text) → Text → ℕ → Text → Text
status_error bearer key status detail =
    let msg : Text = codes "upstream status " ++ decimal status in
    if is_empty detail then msg else msg ++ codes ": " ++ redact_secrets bearer detail key

-- No response, or a status and a body.
pub data Exchange (B : Type 0) : Type 0 where
  unreachable : GoError → Exchange B
  answered : ℕ → Text → B → Exchange B

-- The decoded body of a call; `failure` is the text of the decode error.
pub record Completion : Type 0 where
  pub failure : Option Text
  pub choices : List Text
  pub total_tokens : ℤ

abbrev pub completion_answer : (Text → Text) → Text → Completion → Answer
completion_answer bearer key c = elim c.failure [
  | some e ↦ failed (relay (plain (codes "stream truncated: " ++ redact_secrets bearer e key)) true)
  | none ↦ elim c.choices [
    | [] ↦ failed (relay (plain (codes "upstream returned no choices")) false)
    | content ∷ _ ↦ reply content c.total_tokens
  ]
]

unfoldable pub openai_call : (Text → Text) → Text → Exchange Completion → Answer
unfolding redact_secrets
openai_call bearer key (unreachable e) = failed (relay e false)
openai_call bearer key (answered status detail c) =
    if leb 300 status
    then failed (relay (plain (status_error bearer key status detail)) false)
    else completion_answer bearer key c

unfoldable pub billable_tokens : ℤ → ℕ → ℤ
billable_tokens usage content_len =
    if is_positive usage then usage else if ltb 0 content_len then pos content_len else pos 0

-- The frame of a data line: the contents of its deltas, and the count of its usage.
pub record Frame : Type 0 where
  pub contents : List Text
  pub usage : Option ℤ

-- What the reader returns: whole lines, then the bytes after the last of them with the end of the
-- body, or the error that cut it.
pub record Body : Type 0 where
  pub lines : List Text
  pub rest : Text
  pub failure : Option Text

-- The variables of the loop, and what the writer has and will take: `writes` says of each write to
-- come whether it fails, after how many bytes and with which error.
pub record Tally : Type 0 where
  pub tokens : ℤ
  pub content_len : ℕ
  pub first_byte : Bool
  pub saw_done : Bool
  pub got : Text
  pub writes : List (Option (ℕ × GoError))

abbrev pub new_tally : List (Option (ℕ × GoError)) → Tally
new_tally writes = record {
  tokens = pos 0;
  content_len = 0;
  first_byte = false;
  saw_done = false;
  got = [];
  writes = writes;
}

abbrev pub take {ℓ} : {A : Type ℓ} → ℕ → List A → List A
take zero l = []
take (suc n) [] = []
take (suc n) (a ∷ l) = a ∷ take n l

-- The writer accepts `n` bytes, and firstByte is set where there are any. It may be the writer of
-- sse_protocol.go, which accepts bytes that the client does not get.
abbrev pub sent : Text → List (Option (ℕ × GoError)) → Tally → Tally
sent bytes writes t = record t {
  first_byte = t.first_byte || ltb 0 (length bytes);
  got = t.got ++ bytes;
  writes = writes;
}

-- io.WriteString, with its error.
abbrev pub write_under : List (Option (ℕ × GoError)) → Text → Tally → Option GoError × Tally
write_under [] line t = (none, sent line [] t)
write_under (none ∷ writes) line t = (none, sent line writes t)
write_under (some (n, e) ∷ writes) line t = (some e, sent (take n line) writes t)

abbrev pub write_line : Text → Tally → Option GoError × Tally
write_line line t = write_under t.writes line t

abbrev pub lengths : List Text → ℕ
lengths [] = 0
lengths (s ∷ rest) = length s + lengths rest

abbrev pub note_usage : Option ℤ → ℤ → ℤ
note_usage none tokens = tokens
note_usage (some u) tokens = if is_positive u then u else tokens

abbrev pub note_frame : Option Frame → Tally → Tally
note_frame none t = t
note_frame (some frame) t = record t {
  tokens = note_usage frame.usage t.tokens;
  content_len = t.content_len + lengths frame.contents;
}

-- strings.TrimRight(line, "\r\n")
unfoldable pub trim_line_end : Text → Text
trim_line_end [] = []
trim_line_end (c ∷ s) = elim (trim_line_end s) [
  | [] ↦ if c == 10 || c == 13 then [] else c ∷ []
  | d ∷ r ↦ c ∷ d ∷ r
]

-- The tokens, the error, and the state at the end.
pub record Streamed : Type 0 where
  pub tokens : ℤ
  pub error : Option GoError
  pub tally : Tally

module _ (bearer : Text → Text) (key : Text) (decode : Text → Option Frame) where
  abbrev pub note_payload : Text → Tally → Tally
  note_payload payload t =
      if text_eq payload (codes "[DONE]")
      then record t { saw_done = true }
      else if is_empty payload
      then t
      else note_frame (decode payload) t

  unfoldable pub note_line : Text → Tally → Tally
  unfolding has_prefix trim_line_end trim_space text_eq is_empty
  note_line line t =
      let trimmed = trim_line_end line in
      if has_prefix trimmed (codes "data:") then note_payload (trim_space (drop 5 trimmed)) t else t

  -- A return from the loop.
  abbrev pub stopped : Option GoError → Tally → Streamed
  stopped e t = record { tokens = billable_tokens t.tokens t.content_len; error = e; tally = t }

  abbrev pub at_end : Option Text → Tally → Streamed
  at_end (some e) t =
      stopped
        (some
          (relay (plain (codes "stream truncated: " ++ redact_secrets bearer e key)) t.first_byte))
        t
  at_end none t =
      if not t.first_byte
      then record {
        tokens = pos 0;
        error = some (relay (plain (codes "upstream closed before any byte")) false);
        tally = t;
      }
      else if not t.saw_done
      then stopped (some (relay (plain (codes "stream ended without [DONE]")) true)) t
      else stopped none t

  abbrev pub after_write : Text → (Tally → Streamed) → Option GoError × Tally → Streamed
  after_write line k (some e, t) = stopped (some (relay e t.first_byte)) t
  after_write line k (none, t) = k (note_line line t)

  -- One turn of the loop.
  abbrev pub on_line : Text → (Tally → Streamed) → Tally → Streamed
  on_line line k t = if is_empty line then k t else after_write line k (write_line line t)

  unfoldable pub read_lines : List Text → Text → Option Text → Tally → Streamed
  unfolding note_line billable_tokens redact_secrets is_empty
  read_lines [] rest failure t = on_line rest (at_end failure) t
  read_lines (line ∷ lines) rest failure t = on_line line (read_lines lines rest failure) t

  abbrev pub unsent : List (Option (ℕ × GoError)) → GoError → Streamed
  unsent writes e = record {
    tokens = pos 0;
    error = some (relay e false);
    tally = new_tally writes;
  }

  unfoldable pub openai_stream : Exchange Body → List (Option (ℕ × GoError)) → Streamed
  unfolding read_lines redact_secrets is_empty
  openai_stream (unreachable e) writes = unsent writes e
  openai_stream (answered status detail body) writes =
      if leb 300 status
      then unsent writes (plain (status_error bearer key status detail))
      else read_lines body.lines body.rest body.failure (new_tally writes)
