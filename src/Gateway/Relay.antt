-- ===== src/Gateway/Relay.antt =====
-- Relay of internal/gateway/gateway.go and RelayStream of internal/gateway/stream.go: the failover
-- walk over the models of a request and the accounts of each.
-- What the program does not decide is a `World`: the clock, the upstreams' answers, and what other
-- requests and the reaper do to the shared scheduler before a pick. The counters of a world count
-- the picks of this request. Log lines are left out.
pub mod Trace
pub mod Bounds
pub mod Skipped
use subport.Prelude.{
  ℕ, zero, suc, ◌+◌, ◌-◌, ◌*◌, ◌/◌, ◌%◌, ◌^◌, ◌≤◌, ◌<◌, String, ◌≡◌, refl, sym, ap, ◌∙◌, ◌≢◌, ◌↔◌,
  ◌⊎◌, inl, inr, Bool, true, false, ◌&&◌, ◌||◌, not, Option, none, some, List, [], ◌∷◌, ◌++◌, map,
  arith, str_eq, eq_iff, eq_refl, ltb, leb, ◌==◌, if◌then◌else◌, Bool-cases, if_rule, Option-cases,
  ltb→lt, lt→ltb, leb→le, ==_iff, tests, length, get_elem?, length-append, All, All-append,
  get_elem?-All, keep,
}
use subport.Prelude.Int.{
  ℤ, pos, negsuc, pos_part, neg_part, sub_ℕ, ◌+ℤ◌, ◌-ℤ◌, ◌*ℤ◌, ◌≤ℤ◌, ltb_ℤ, +ℤ_parts, -ℤ_parts,
  eq_of_parts, int_laws,
}
use subport.Prelude.Text.{Text, codes, to_lower, trim_space}
use subport.Gateway.Account.{Account}
use subport.Gateway.Errors.{
  GoError, plain, relay, first_byte_sent, is_broken_relay, ErrorReader,
  is_retryable_upstream_status, message,
}
use subport.Gateway.Health.{Scheduler, ModelRoute, note_upstream_result}
use subport.Gateway.Scheduler.{pick}
use subport.Gateway.Alias.{ModelAliasConfig, model_attempt_chain}

abbrev pub max_attempts : ℕ
max_attempts = 3

-- What an adapter returns; `tokens` is 0 where the provider reports no usage.
pub data Answer : Type 0 where
  reply : Text → ℤ → Answer
  failed : GoError → Answer

-- What happens around a request: the time of each pick and of the end of its call, what the adapters
-- answer, and what other requests do to the scheduler before each pick.
pub record World : Type 0 where
  pub clock : ℕ → ℕ
  pub ended : ℕ → ℕ
  pub answer : ℕ → Account → Text → Answer
  pub meanwhile : ℕ → Scheduler → Scheduler

-- The code that other files and libraries hold: the adapters' names, the regular expressions and the
-- reading of error texts; and the alias table.
pub record Setting : Type 0 where
  pub has_adapter : Text → Bool
  pub matches : Text → Text → Option Bool
  pub reader : ErrorReader
  pub aliases : ModelAliasConfig

-- One upstream call, with the routing table that it was picked under.
pub record Call : Type 0 where
  pub model : Text
  pub account : Account
  pub routes : List ModelRoute
  pub answer : Answer

-- The scheduler, the calls made so far, the newest first, the picks made and the last error.
pub record Walk : Type 0 where
  pub sched : Scheduler
  pub calls : List Call
  pub picks : ℕ
  pub last_err : Option GoError

pub record RelayResult : Type 0 where
  pub account : Account
  pub text : Text
  pub tokens : ℤ
  pub attempts : ℕ

pub data Outcome : Type 0 where
  served : RelayResult → Outcome
  broken : Account → ℕ → GoError → Outcome
  gave_up : GoError → Outcome

-- Whether the loop over the attempts has returned from the function.
pub data Progress : Type 0 where
  returned : Outcome → Walk → Progress
  exhausted : Walk → Progress

abbrev pub no_account : GoError
no_account = plain (codes "no healthy account")

abbrev pub final_err : Option GoError → GoError
final_err none = no_account
final_err (some e) = e

-- The error frame that a broken stream ends with; a clean end writes none here.
abbrev pub error_frames : Outcome → List Text
error_frames (broken a attempts e) = message e ∷ []
error_frames (served r) = []
error_frames (gave_up e) = []

-- The %q of a provider name with nothing to escape.
abbrev pub quote_byte : ℕ
quote_byte = 34

module _ (set : Setting) (w : World) where
  -- CallUpstream, StreamUpstream: an unknown provider is a RelayError before any byte.
  unfoldable pub call_upstream : ℕ → Account → Text → Answer
  call_upstream n a model =
      if set.has_adapter (to_lower (trim_space a.provider))
      then w.answer n a model
      else failed (
          relay
            (plain
              (codes "no adapter for provider " ++ (quote_byte ∷ a.provider ++ quote_byte ∷ [])))
            false)

  -- After the call: the health of the account, and the walk with this call on it.
  abbrev pub after_call : Text → Account → Scheduler → Option GoError → Answer → Walk → Walk
  after_call model a sched result ans k = record {
    sched = note_upstream_result set.reader a.id result (w.ended k.picks) sched;
    calls = record { model = model; account = a; routes = sched.routes; answer = ans } ∷ k.calls;
    picks = k.picks + 1;
    last_err = elim result [ none ↦ k.last_err | some e ↦ some e ];
  }

  module _ (breaks : GoError → Bool) where
    -- The answer to one call: return, or go on with `next`.
    abbrev pub on_answer : Text → Account → Scheduler → Answer → Walk → (Walk → Progress) → Progress
    on_answer model a sched (reply text tokens) k next =
        let k' = after_call model a sched none (reply text tokens) k in
        returned
          (served
            (record { account = a; text = text; tokens = tokens; attempts = length k'.calls }))
          k'
    on_answer model a sched (failed e) k next =
        let k' = after_call model a sched (some e) (failed e) k in
        let more = next k' in if breaks e then returned (broken a (length k'.calls) e) k' else more

    abbrev pub on_pick : Text → Scheduler → Option Account → Walk → (Walk → Progress) → Progress
    on_pick model sched none k next = next (record k { sched = sched; picks = k.picks + 1 })
    on_pick model sched (some a) k next =
        on_answer model a sched (call_upstream k.picks a model) k next

    -- for attempt := 0; attempt < MaxAttempts; attempt++, with the attempts left.
    unfoldable pub relay_attempts : ℕ → ℕ → Text → Walk → Progress
    relay_attempts zero attempt model k = exhausted k
    relay_attempts (suc left) attempt model k =
        let sched = w.meanwhile k.picks k.sched in
        on_pick model sched (pick set.matches attempt model (w.clock k.picks) sched) k
          (relay_attempts left (attempt + 1) model)

    -- After the attempts for one model: return, or the next model after a retryable error.
    abbrev pub on_progress : Progress → (Walk → Outcome × Walk) → Outcome × Walk
    on_progress (returned o k) next = (o, k)
    on_progress (exhausted k) next =
        let fallback = next k in
        if is_retryable_upstream_status set.reader k.last_err (w.clock k.picks)
        then fallback
        else (gave_up (final_err k.last_err), k)

    -- for mi, modelName := range models
    unfoldable pub relay_models : List Text → Walk → Outcome × Walk
    relay_models [] k = (gave_up (final_err k.last_err), k)
    relay_models (model ∷ rest) k =
        on_progress (relay_attempts max_attempts 0 model k) (relay_models rest)

    abbrev pub start : Scheduler → Walk
    start s = record { sched = s; calls = []; picks = 0; last_err = none }

    unfoldable pub relay_with : Text → Scheduler → Outcome × Walk
    relay_with requested s = relay_models (model_attempt_chain set.aliases requested) (start s)

  -- The buffered walk stops at any RelayError in the chain of an error.
  unfoldable pub relay_buffered : Text → Scheduler → Outcome × Walk
  relay_buffered = relay_with first_byte_sent

  -- The streaming walk looks at the error itself, and writes the frame.
  unfoldable pub relay_stream : Text → Scheduler → (Outcome × Walk) × List Text
  relay_stream requested s = let r = relay_with is_broken_relay requested s in (r, error_frames r.0)
