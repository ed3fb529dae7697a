-- ===== src/Gateway/Relay/Trace.antt =====
-- What the calls of one request look like, whatever the upstreams and the other requests do.
use subport.Prelude.{
  ℕ, zero, suc, ◌+◌, ◌≡◌, refl, sym, ap, ◌∙◌, Bool, true, false, Option, none, some, List, [], ◌∷◌,
  if_rule, length, All,
}
use mathlib.Core.Bool.{true≢false}
use subport.Prelude.Text.{Text}
use subport.Gateway.Account.{Account}
use subport.Gateway.Errors.{
  GoError, plain, timed_out, relay, wrapped, first_byte_sent, is_broken_relay, message,
  is_retryable_upstream_status,
}
use subport.Gateway.Health.{Scheduler}
use subport.Gateway.Scheduler.{pick}
use subport.Gateway.Alias.{model_attempt_chain}
use subport.Gateway.Relay.{
  Answer, reply, failed, World, Setting, Call, Walk, Outcome, served, broken, gave_up, Progress,
  returned, exhausted, call_upstream, on_progress, on_pick, on_answer, relay_attempts, relay_models,
  relay_with, relay_buffered, relay_stream, error_frames, no_account, final_err, start,
  max_attempts,
}

-- The error of an answer.
abbrev pub error_of : Answer → Option GoError
error_of (reply text tokens) = none
error_of (failed e) = some e

-- A call that failed while a retry was still allowed.
abbrev pub FailedQuietly : (GoError → Bool) → Call → Type 0
FailedQuietly breaks c = (e : GoError) × (c.answer ≡ failed e) × (breaks e ≡ false)

-- How a walk may end, in terms of its calls, the newest first: with the answer of the newest call,
-- with its break, or with no call left to make; every earlier call failed while a retry was allowed.
abbrev pub Ends : (GoError → Bool) → Outcome → List Call → Type 0
Ends breaks (served r) [] = ⊥
Ends breaks (served r) (c ∷ older) =
    (c.answer ≡ reply r.text r.tokens)
    × (r.account ≡ c.account)
    × (r.attempts ≡ length (c ∷ older))
    × All (FailedQuietly breaks) older
Ends breaks (broken a n e) [] = ⊥
Ends breaks (broken a n e) (c ∷ older) =
    (c.answer ≡ failed e)
    × (breaks e ≡ true)
    × (a ≡ c.account)
    × (n ≡ length (c ∷ older))
    × All (FailedQuietly breaks) older
Ends breaks (gave_up e) [] = e ≡ no_account
Ends breaks (gave_up e) (c ∷ older) = (c.answer ≡ failed e) × All (FailedQuietly breaks) (c ∷ older)

-- The walk between two calls.
record IsOpen (breaks : GoError → Bool) (k : Walk) : Type 0 where
  quiet : All (FailedQuietly breaks) k.calls
  last : k.last_err ≡ elim k.calls [ [] ↦ none | c ∷ older ↦ error_of c.answer ]

module _ (set : Setting) (w : World) (breaks : GoError → Bool) where
  abbrev Goes : Progress → Type 0
  Goes (returned o k) = Ends breaks o k.calls
  Goes (exhausted k) = IsOpen breaks k

  on_answer-Goes :
      (model : Text) (a : Account) (sched : Scheduler) (ans : Answer) (k : Walk)
      (next : Walk → Progress)
      → IsOpen breaks k
      → ((k' : Walk) → IsOpen breaks k' → Goes (next k'))
      → Goes (on_answer set w breaks model a sched ans k next)
  on_answer-Goes model a sched (reply text tokens) k next h ih = (refl, refl, refl, h.quiet)
  on_answer-Goes model a sched (failed e) k next h ih =
      if_rule Goes (breaks e) _ _ (λ broke. (refl, broke, refl, refl, h.quiet))
        (λ quiet. ih _ (record { quiet = ((e, refl, quiet), h.quiet); last = refl }))

  on_pick-Goes :
      (model : Text) (sched : Scheduler) (picked : Option Account) (k : Walk)
      (next : Walk → Progress)
      → IsOpen breaks k
      → ((k' : Walk) → IsOpen breaks k' → Goes (next k'))
      → Goes (on_pick set w breaks model sched picked k next)
  on_pick-Goes model sched none k next h ih = ih _ (record { quiet = h.quiet; last = h.last })
  on_pick-Goes model sched (some a) k next h ih =
      on_answer-Goes model a sched (call_upstream set w k.picks a model) k next h ih

  relay_attempts-Goes :
      (left attempt : ℕ) (model : Text) (k : Walk)
      → IsOpen breaks k
      → Goes (relay_attempts set w breaks left attempt model k)
  unfolding relay_attempts
  relay_attempts-Goes zero attempt model k h = h
  relay_attempts-Goes (suc left) attempt model k h =
      on_pick-Goes model (w.meanwhile k.picks k.sched)
        (pick set.matches attempt model (w.clock k.picks) (w.meanwhile k.picks k.sched)) k
        (relay_attempts set w breaks left (attempt + 1) model) h
        (λ k' h'. relay_attempts-Goes left (attempt + 1) model k' h')

  gave_up-Ends : (k : Walk) → IsOpen breaks k → Ends breaks (gave_up (final_err k.last_err)) k.calls
  gave_up-Ends k h = go k.calls h.quiet h.last
    where
      go :
          (calls : List Call)
          → All (FailedQuietly breaks) calls
          → k.last_err ≡ elim calls [ [] ↦ none | c ∷ older ↦ error_of c.answer ]
          → Ends breaks (gave_up (final_err k.last_err)) calls
      go [] q l = rw l refl
      go (c ∷ older) q l =
          let (e, is_failed, quiet) = q.0 in
          (is_failed ∙ ap failed (sym (ap final_err (l ∙ ap error_of is_failed))), q)

  relay_models-Ends :
      (models : List Text) (k : Walk)
      → IsOpen breaks k
      → let r = relay_models set w breaks models k in Ends breaks r.0 r.1.calls
  unfolding relay_models
  relay_models-Ends [] k h = gave_up-Ends k h
  relay_models-Ends (model ∷ rest) k h =
      go (relay_attempts set w breaks max_attempts 0 model k)
        (relay_attempts-Goes max_attempts 0 model k h) (λ k' h'. relay_models-Ends rest k' h')
    where
      go :
          (p : Progress)
          → Goes p
          → ((k' : Walk)
              → IsOpen breaks k'
              → let r = relay_models set w breaks rest k' in Ends breaks r.0 r.1.calls)
          → let r = on_progress set w breaks p (relay_models set w breaks rest) in
            Ends breaks r.0 r.1.calls
      go (returned o k') g ih = g
      go (exhausted k') g ih =
          if_rule (λ (r : Outcome × Walk). Ends breaks r.0 r.1.calls)
            (is_retryable_upstream_status set.reader k'.last_err (w.clock k'.picks)) _ _
            (λ _. ih k' g) (λ _. gave_up-Ends k' g)

  start-Ends :
      (requested : Text) (s : Scheduler)
      → let r = relay_with set w breaks requested s in Ends breaks r.0 r.1.calls
  unfolding relay_with
  start-Ends requested s =
      relay_models-Ends (model_attempt_chain set.aliases requested) (start set w breaks s)
        (record { quiet = tt; last = refl })

-- A buffered request is never replayed after a first byte: in every world every call but the newest
-- failed before any byte. It is served with the newest call's answer, account and the number of the
-- calls; or stops at the newest call's break; or gives up with the newest call's error, or with
-- "no healthy account" when no call was made.
pub relay_buffered-Ends :
    (set : Setting) (w : World) (requested : Text) (s : Scheduler)
    → let r = relay_buffered set w requested s in Ends first_byte_sent r.0 r.1.calls
unfolding relay_buffered
relay_buffered-Ends set w requested s = start-Ends set w first_byte_sent requested s

-- The error that ends a stream: itself a RelayError whose adapter has set FirstByteSent. One that
-- another error wraps is none.
abbrev pub IsBreak : GoError → Type 0
IsBreak e = (x : GoError) × (e ≡ relay x true)

-- A call whose error is no such break.
abbrev pub IsRetried : Call → Type 0
IsRetried c = (e : GoError) × (c.answer ≡ failed e) × ¬ IsBreak e

-- How a stream may end, in terms of its calls, the newest first.
abbrev pub StreamEnds : Outcome → List Call → Type 0
StreamEnds (served r) [] = ⊥
StreamEnds (served r) (c ∷ older) =
    (c.answer ≡ reply r.text r.tokens)
    × (r.account ≡ c.account)
    × (r.attempts ≡ length (c ∷ older))
    × All IsRetried older
StreamEnds (broken a n e) [] = ⊥
StreamEnds (broken a n e) (c ∷ older) =
    (c.answer ≡ failed e)
    × IsBreak e
    × (a ≡ c.account)
    × (n ≡ length (c ∷ older))
    × All IsRetried older
StreamEnds (gave_up e) [] = e ≡ no_account
StreamEnds (gave_up e) (c ∷ older) = (c.answer ≡ failed e) × All IsRetried (c ∷ older)

-- One frame for a break, and no other.
abbrev pub IsFramed : Outcome → List Text → Type 0
IsFramed (served r) frames = frames ≡ []
IsFramed (broken a n e) frames = frames ≡ message e ∷ []
IsFramed (gave_up e) frames = frames ≡ []

framed : (o : Outcome) → IsFramed o (error_frames o)
framed (served r) = refl
framed (broken a n e) = refl
framed (gave_up e) = refl

broken-IsBreak : (e : GoError) → is_broken_relay e ≡ true → IsBreak e
unfolding is_broken_relay
broken-IsBreak (plain s) h = cc
broken-IsBreak (timed_out s) h = cc
broken-IsBreak (relay x sent) h = (x, ap (relay x) h)
broken-IsBreak (wrapped prefix e) h = cc

still_retries : (e : GoError) → is_broken_relay e ≡ false → ¬ IsBreak e
unfolding is_broken_relay
still_retries e h (x, same) = absurd (true≢false (sym (ap is_broken_relay same) ∙ h))

retried : (calls : List Call) → All (FailedQuietly is_broken_relay) calls → All IsRetried calls
retried [] h = tt
retried (c ∷ calls) ((e, is_failed, quiet), h) =
    ((e, is_failed, still_retries e quiet), retried calls h)

stream_end : (o : Outcome) (calls : List Call) → Ends is_broken_relay o calls → StreamEnds o calls
stream_end (served r) [] h = h
stream_end (served r) (c ∷ older) (a, b, d, h) = (a, b, d, retried older h)
stream_end (broken a n e) [] h = h
stream_end (broken a n e) (c ∷ older) (x, y, z, t, h) =
    (x, broken-IsBreak e y, z, t, retried older h)
stream_end (gave_up e) [] h = h
stream_end (gave_up e) (c ∷ older) (x, h) = (x, retried (c ∷ older) h)

-- A streamed request is never replayed after an error that is itself a RelayError with FirstByteSent:
-- in every world every call but the newest failed with another error. It is served with the newest
-- call's answer, account and the number of the calls; or stops at the newest call's error, which is
-- such a break; or gives up with the newest call's error, which is none, or with "no healthy account"
-- when no call was made. Where it broke, the client gets one error frame, with the message of that
-- error, and else none.
pub relay_stream-Ends :
    (set : Setting) (w : World) (requested : Text) (s : Scheduler)
    → let ((o, k), frames) = relay_stream set w requested s in
      StreamEnds o k.calls × IsFramed o frames
unfolding relay_stream
relay_stream-Ends set w requested s =
    let r = relay_with set w is_broken_relay requested s in
    (stream_end r.0 r.1.calls (start-Ends set w is_broken_relay requested s), framed r.0)
