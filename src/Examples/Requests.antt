-- ===== src/Examples/Requests.antt =====
-- Requests: Relay and RelayStream of internal/gateway.
use subport.Prelude.{
  ℕ, zero, suc, ◌+◌, ◌*◌, ◌≤◌, ap, length, String, ◌≡◌, refl, true, false, none, some, [], ◌∷◌,
  arith, get_elem?,
}
use subport.Prelude.Int.{pos}
use subport.Prelude.Text.{Text, codes}
use subport.Gateway.Account.{Account, Stamp, absent, blank, at, padded, garbled, second}
use subport.Gateway.Errors.{
  GoError, plain, relay, message, first_byte_sent, is_broken_relay, classify_upstream_error,
  ErrorReader,
}
use subport.Gateway.Health.{Scheduler, account_schedulable}
use subport.Gateway.Alias.{ModelAliasConfig, model_attempt_chain, max_extra}
use subport.Gateway.Relay.{
  Answer, reply, failed, World, Setting, Call, Walk, Outcome, broken, exhausted, call_upstream,
  relay_attempts, relay_with, relay_buffered, relay_stream, start, max_attempts,
}
use subport.Gateway.Relay.Trace.{Ends, StreamEnds, IsFramed, relay_buffered-Ends, relay_stream-Ends}
use subport.Gateway.Relay.Bounds.{IsWithin, relay_with-IsWithin}
use subport.Gateway.Relay.Skipped.{IsRateLimited, pair_of, relay_attempts-skips}

abbrev pub account : String → Account
account id = record {
  id = id;
  name = id;
  provider = codes "openai";
  base_url = [];
  priority = 1;
  healthy = true;
  cooldown_until = absent;
  last_error = [];
  consecutive_timeouts = 0;
  consecutive_403 = 0;
  consecutive_429 = 0;
}

abbrev pub setting : Setting
setting = record {
  has_adapter = λ p. true;
  matches = λ p name. some true;
  reader = record { redact_secrets = λ s. s; parse_resets_at = λ s now. none };
  aliases = record { aliases = []; fallbacks = []; max_fallback_tries = pos 2 };
}

abbrev too_many : GoError
too_many = relay (plain (codes "upstream status 429")) false

abbrev pub cut_off : GoError
cut_off = relay (plain (codes "connection reset")) true

-- The first call is rate limited, the second breaks after a byte.
abbrev answers : ℕ → Answer
answers zero = failed too_many
answers (suc n) = failed cut_off

-- The first call takes a second.
abbrev ticks : ℕ → ℕ
ticks zero = second
ticks (suc n) = 3 * second

abbrev pub world : World
world = record {
  clock = ticks;
  ended = λ n. 2 * second;
  answer = λ n a model. answers n;
  meanwhile = λ n s. s;
}

abbrev instant_of : Stamp → ℕ
instant_of (at t) = t
instant_of absent = 0
instant_of blank = 0
instant_of (padded t) = 0
instant_of garbled = 0

ticks_bound : (n : ℕ) → ticks n ≤ 3 * second
ticks_bound zero = omega arith
ticks_bound (suc n) = omega arith

ready_at : (n : ℕ) → account_schedulable (account "a2") (ticks n) ≡ true
unfolding account_schedulable
ready_at n = refl

abbrev pub pool : Scheduler
pool = record {
  accounts = account "a1" ∷ account "a2" ∷ account "a3" ∷ [];
  routes = [];
  has_health_store = false;
  health_writes = [];
}

abbrev gpt : Text
gpt = codes "gpt-4"

relay_buffered-Ends_example :
    let r = relay_buffered setting world gpt pool in Ends first_byte_sent r.0 r.1.calls
relay_buffered-Ends_example = relay_buffered-Ends setting world gpt pool

relay_stream-Ends_example :
    let ((o, k), frames) = relay_stream setting world gpt pool in
    StreamEnds o k.calls × IsFramed o frames
relay_stream-Ends_example = relay_stream-Ends setting world gpt pool

-- The rate limit takes the first account out of the list, so attempt 1 is the third account.
skips_one : (relay_buffered setting world gpt pool).0 ≡ broken (account "a3") 2 cut_off
unfolding relay_buffered relay_with subport.Gateway.Relay.relay_models
    subport.Gateway.Alias.model_attempt_chain relay_attempts subport.Gateway.Scheduler.pick
    call_upstream first_byte_sent subport.Gateway.Health.note_upstream_result
    subport.Store.Table.find_row subport.Gateway.Health.persist_health
    subport.Store.Table.update_row subport.Gateway.Health.note_failure classify_upstream_error
    subport.Gateway.Errors.cooldown_duration_for_error
skips_one = refl

relay_with-IsWithin_example :
    IsWithin setting world first_byte_sent
      (3 * length (model_attempt_chain setting.aliases gpt))
      (relay_with setting world first_byte_sent gpt pool).1
    × (3 * length (model_attempt_chain setting.aliases gpt) ≤ 3 * (1 + max_extra setting.aliases))
relay_with-IsWithin_example = relay_with-IsWithin setting world first_byte_sent gpt pool

limited : IsRateLimited setting world first_byte_sent gpt (account "a1") (account "a2") too_many
unfolding call_upstream classify_upstream_error first_byte_sent account_schedulable
    subport.Gateway.Health.note_failure subport.Gateway.Errors.cooldown_duration_for_error
limited = record {
  soon =
      λ n t p e. let is_t : 62 * second ≡ t = ap instant_of e in omega (arith, ticks_bound n, is_t);
  alone = λ n s. refl;
  answers = refl;
  limited = refl;
  quiet = refl;
  named = refl;
  a_ready = refl;
  b_ready = ready_at;
  ordered = omega arith;
}

relay_attempts-skips_example :
    (k : Walk) × (relay_attempts setting world first_byte_sent max_attempts 0 gpt
        (start setting world first_byte_sent (pair_of (account "a1") (account "a2") pool))
      ≡ exhausted k)
    × (k.calls
        ≡ record { model = gpt; account = account "a1"; routes = []; answer = failed too_many }
          ∷ [])
    × (k.last_err ≡ some too_many)
    × (get_elem? k.sched.accounts 1 ≡ some (account "a2"))
relay_attempts-skips_example =
    relay_attempts-skips setting world first_byte_sent gpt (account "a1") (account "a2") too_many
      limited pool
