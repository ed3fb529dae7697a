-- ===== src/Http/Serve.antt =====
-- handleChat of internal/httpapi/server.go and handleResponses, handleMessages and settleFailed of
-- internal/httpapi/protocols.go: one request over the store and the relay. A request is opened (its
-- key, its hold), relayed, and closed (its log row, its charge, the end of its hold). While the
-- upstream works other requests change the store: `elsewhere`.
pub mod Balanced
pub mod Closed
pub mod Refused
use subport.Prelude.{
  ℕ, zero, suc, ◌+◌, ◌-◌, ◌*◌, ◌/◌, ◌%◌, ◌^◌, ◌≤◌, ◌<◌, String, ◌≡◌, refl, sym, ap, ◌∙◌, ◌≢◌, ◌↔◌,
  ◌⊎◌, inl, inr, Bool, true, false, ◌&&◌, ◌||◌, not, Option, none, some, List, [], ◌∷◌, ◌++◌, map,
  arith, str_eq, eq_iff, eq_refl, ltb, leb, ◌==◌, if◌then◌else◌, Bool-cases, if_rule, Option-cases,
  ltb→lt, lt→ltb, leb→le, ==_iff, tests, length, get_elem?, length-append, All, All-append,
  get_elem?-All, keep,
}
use subport.Prelude.Int.{
  ℤ, pos, negsuc, pos_part, neg_part, sub_ℕ, ◌+ℤ◌, ◌-ℤ◌, ◌*ℤ◌, ◌≤ℤ◌, ltb_ℤ, +ℤ_parts, -ℤ_parts,
  eq_of_parts, int_laws,
}
use mathlib.Core.Option
use subport.Prelude.Text.{Text, codes}
use subport.Pricing.{TokenCounts, BilledRate}
use subport.Gateway.Account.{Account}
use subport.Gateway.Errors.{GoError, message, is_broken_relay}
use subport.Gateway.Health.{Scheduler}
use subport.Gateway.Relay.{
  World, Setting, RelayResult, Outcome, served, broken, gave_up, Walk, relay_buffered, relay_stream,
}
use subport.Store.Rows.{User, ApiKey, UsageLog, Db}
use subport.Store.Sql.{Error, Result, ok, err, Conn, Sql, pure, ignoring, ◌>>=◌, ◌>>◌}
use subport.Store.Quota.{settle_usage, is_positive}
use subport.Store.Keys.{touch_key, key_by_secret}
use subport.Store.Billing.{price_call}
use subport.Store.Compensation.{CompensationConfig, compensate_broken_streams}
use subport.Http.Admission.{ChatRequest, admit, is_quota_exhausted}
use subport.Http.Messages.{
  ResponsesInput, MessagesInput, responses_request, messages_request, with_default_model,
}

-- What the client is told; a stream has been written by the relay already.
pub data Reply : Type 0 where
  unauthorized bad_request payment_required internal_error unavailable streamed : Reply
  bad_gateway : Text → Reply
  completed : String → Text → ℤ → Reply

-- What one request depends on besides the store and the scheduler: the digest, the upstreams, the
-- configuration, the text of a time, the cap of the environment, the new id and the clock of its log row and of the key's
-- last use, and what happens to the store during the relay.
pub record Site : Type 0 where
  pub hash : String → String
  pub setting : Setting
  pub world : World
  pub comp_cfg : CompensationConfig
  pub format_time : ℕ → Text
  pub cap : Option ℤ
  pub log_id : String
  pub log_time : ℕ
  pub used_at : String
  pub elsewhere : Conn → Conn

abbrev pub no_parts : TokenCounts
no_parts = record {
  input = pos 0;
  output = pos 0;
  cache_read = pos 0;
  cache_write = pos 0;
  total = pos 0;
}

abbrev pub no_rate : BilledRate
no_rate = record {
  input = pos 0;
  output = pos 0;
  cache_read = pos 0;
  cache_write = pos 0;
  ratio = pos 0;
}

-- A call that failed; one that broke is billed at a nominal 50 units.
abbrev pub failed_log : User → ApiKey → ChatRequest → String → ℕ → Bool → UsageLog
failed_log owner key req account attempts is_broken = record {
  id = "";
  user_id = owner.id;
  key_id = key.id;
  model = codes req.model;
  account_id = account;
  tokens = pos 0;
  token_parts = no_parts;
  billed_at = no_rate;
  cost = if is_broken then pos 50 else pos 0;
  status = if is_broken then "stream_broken" else "failed";
  stream_broken = is_broken;
  compensated = false;
  attempts = attempts;
  created_at = 0;
}

-- The relay keeps no text of a stream.
abbrev pub text_of : ChatRequest → RelayResult → Text
text_of req r = if req.stream then [] else r.text

-- The provider's count, or else the length of the text.
abbrev pub tokens_of : ChatRequest → RelayResult → ℤ
tokens_of req r = if is_positive r.tokens then r.tokens else pos (length (text_of req r))

abbrev pub counts_of : ℤ → TokenCounts
counts_of tokens = record no_parts { total = tokens }

abbrev pub success_log : User → ApiKey → ChatRequest → RelayResult → ℤ → BilledRate → UsageLog
success_log owner key req r cost rate = record {
  id = "";
  user_id = owner.id;
  key_id = key.id;
  model = codes req.model;
  account_id = r.account.id;
  tokens = tokens_of req r;
  token_parts = counts_of (tokens_of req r);
  billed_at = rate;
  cost = cost;
  status = "success";
  stream_broken = false;
  compensated = false;
  attempts = r.attempts;
  created_at = 0;
}

-- The reply, the connection, and the relay's walk where there was one.
abbrev pub Served : Type 0
Served = Reply × Conn × Option Walk

abbrev pub replied : Walk → Result Reply × Conn → Served
replied walk (ok reply, c) = (reply, c, some walk)
replied walk (err e, c) = (internal_error, c, some walk)

module _ (site : Site) where
  abbrev pub settle_failed : User → ApiKey → ChatRequest → ℕ → String → ℕ → GoError → Sql Reply
  settle_failed owner key req held account attempts e = do
    ignoring (
        settle_usage site.log_id site.log_time
          (failed_log owner key req account attempts (is_broken_relay e)) (pos held))
    if is_broken_relay e
        then (do
          ignoring (compensate_broken_streams site.format_time owner.id site.comp_cfg)
          pure (if req.stream then streamed else bad_gateway (message e)))
        else pure unavailable

  abbrev pub settle_served : User → ApiKey → ChatRequest → ℕ → RelayResult → Sql Reply
  settle_served owner key req held r = do
    priced ← price_call owner.id req.model (counts_of (tokens_of req r))
    ignoring (
        settle_usage site.log_id site.log_time (success_log owner key req r priced.0 priced.1)
          (pos held))
    pure (if req.stream then streamed else completed req.model (text_of req r) (tokens_of req r))

  abbrev pub settle_outcome : User → ApiKey → ChatRequest → ℕ → Outcome → Sql Reply
  settle_outcome owner key req held (served r) = settle_served owner key req held r
  settle_outcome owner key req held (broken a n e) = settle_failed owner key req held a.id n e
  settle_outcome owner key req held (gave_up e) = settle_failed owner key req held "" 0 e

  -- After the relay.
  unfoldable pub close_request : User → ApiKey → ChatRequest → ℕ → Outcome → Sql Reply
  unfolding touch_key settle_usage compensate_broken_streams price_call is_broken_relay message
  close_request owner key req held outcome = do
    touch_key key.id site.used_at
    settle_outcome owner key req held outcome

  unfoldable pub relay_request : ChatRequest → Scheduler → Outcome × Walk
  unfolding relay_buffered relay_stream
  relay_request req sched =
      if req.stream
      then (relay_stream site.setting site.world (codes req.model) sched).0
      else relay_buffered site.setting site.world (codes req.model) sched

  abbrev pub after_relay : User → ApiKey → ChatRequest → ℕ → Conn → Outcome × Walk → Served
  after_relay owner key req held c (outcome, walk) =
      replied walk (close_request owner key req held outcome (site.elsewhere c))

  abbrev pub after_admission : User → ApiKey → ChatRequest → Scheduler → Result ℕ × Conn → Served
  after_admission owner key req sched (ok held, c) =
      after_relay owner key req held c (relay_request req sched)
  after_admission owner key req sched (err e, c) =
      (if is_quota_exhausted e then payment_required else internal_error, c, none)

  -- A request that is decoded.
  abbrev pub admitted : User → ApiKey → ChatRequest → Scheduler → Conn → Served
  admitted owner key req sched c =
      after_admission owner key req sched (admit site.cap owner.id req c)

  -- A request with a message, or none where it is refused.
  abbrev pub with_messages : User → ApiKey → ChatRequest → Scheduler → Conn → Served
  with_messages owner key req sched c = elim req.messages [
    | [] ↦ (bad_request, c, none)
    | _ ∷ _ ↦ admitted owner key req sched c
  ]

  -- The key first: KeyBySecret, or 401.
  abbrev pub authenticated :
      (ApiKey × User → Conn → Served) → Result (ApiKey × User) × Conn → Served
  authenticated serve (ok opened, c) = serve opened c
  authenticated serve (err e, c) = (unauthorized, c, none)

  -- A body that does not decode leaves what was decoded: handle_chat ignores the error.
  unfoldable pub handle_chat : String → ChatRequest → Scheduler → Conn → Served
  unfolding key_by_secret admit close_request relay_request
  handle_chat secret req sched c =
      authenticated (λ opened. admitted opened.1 opened.0 (with_default_model req) sched)
        (key_by_secret site.hash secret c)

  abbrev pub decoded : Option ChatRequest → User → ApiKey → Scheduler → Conn → Served
  decoded none owner key sched c = (bad_request, c, none)
  decoded (some req) owner key sched c = with_messages owner key req sched c

  unfoldable pub handle_responses : String → Option ResponsesInput → Scheduler → Conn → Served
  unfolding key_by_secret admit close_request relay_request responses_request
  handle_responses secret body sched c =
      authenticated (λ opened. decoded (Option.map responses_request body) opened.1 opened.0 sched)
        (key_by_secret site.hash secret c)

  unfoldable pub handle_messages : String → Option MessagesInput → Scheduler → Conn → Served
  unfolding key_by_secret admit close_request relay_request messages_request
  handle_messages secret body sched c =
      authenticated (λ opened. decoded (Option.map messages_request body) opened.1 opened.0 sched)
        (key_by_secret site.hash secret c)
