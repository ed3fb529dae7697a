-- ===== src/Examples/Pools.antt =====
-- Accounts, routes and aliases: internal/gateway/health.go, routing.go, gateway.go, model_alias.go.
use subport.Prelude.{
  ℕ, zero, suc, ◌+◌, ◌-◌, ◌*◌, ◌/◌, ◌%◌, ◌^◌, ◌≤◌, ◌<◌, String, ◌≡◌, refl, sym, ap, ◌∙◌, ◌≢◌, ◌↔◌,
  ◌⊎◌, inl, inr, Bool, true, false, ◌&&◌, ◌||◌, not, Option, none, some, List, [], ◌∷◌, ◌++◌, map,
  arith, str_eq, eq_iff, eq_refl, ltb, leb, ◌==◌, if◌then◌else◌, Bool-cases, if_rule, Option-cases,
  ltb→lt, lt→ltb, leb→le, ==_iff, tests, length, get_elem?, length-append, All, All-append,
  get_elem?-All, keep,
}
use subport.Prelude.Int.{pos}
use subport.Prelude.Text.{Text, codes, trim_space}
use subport.Gateway.Account.{Account, Stamp, absent, at, second, minute}
use subport.Gateway.Errors.{
  GoError, plain, timed_out, failure_timeout, classify_upstream_error, ErrorReader,
}
use subport.Gateway.Health.{
  ModelRoute, Scheduler, note_success, note_class, note_failure, account_schedulable,
  reap_cooldowns,
}
use subport.Gateway.Health.Invariant.{
  IsPaced, HealthEvent, noted, reaped, health_run, health_run-IsPaced,
}
use subport.Gateway.Health.Thresholds.{note_failure_cools}
use subport.Gateway.Health.Cooling.{
  reap_one, IsReaped, renewed, reap_cooldowns_lem, stale_cooldown_reaped,
}
use subport.Gateway.Routing.{collect_hits, providers_for_model}
use subport.Gateway.Routing.Best.{RoutesTo, providers_for_model_lem}
use subport.Gateway.Scheduler.{cooldown_expiry, pick}
use subport.Gateway.Scheduler.Picked.{
  IsTierOrder, live_of, spare_of, by_any, pick-IsTierOrder, note_success_strands,
}
use subport.Prelude.Sorting.{sort_by}
use subport.Gateway.Alias.{ModelAliasConfig, model_attempt_chain, max_extra}
use subport.Gateway.Alias.Chain.{AllFresh, model_attempt_chain-AllFresh}

abbrev account : String → ℕ → Bool → Stamp → Account
account id priority healthy until = record {
  id = id;
  name = id;
  provider = codes "openai";
  base_url = [];
  priority = priority;
  healthy = healthy;
  cooldown_until = until;
  last_error = [];
  consecutive_timeouts = 0;
  consecutive_403 = 0;
  consecutive_429 = 0;
}

-- A reader that redacts nothing and finds no reset time.
abbrev reader : ErrorReader
reader = record { redact_secrets = λ s. s; parse_resets_at = λ s now. none }

-- An engine for which every pattern compiles and matches.
abbrev matches : Text → Text → Option Bool
matches p name = some true

abbrev routes : List ModelRoute
routes =
    record { pattern = codes "gpt"; provider = codes "OpenAI"; priority = 1; enabled = true }
    ∷ record { pattern = codes "gpt"; provider = codes "other"; priority = 2; enabled = true }
    ∷ []

abbrev first : Account
first = account "a1" 1 true absent

abbrev backup : Account
backup = account "a2" 2 true absent

abbrev paused : Account
paused = account "a3" 1 false (at (10 * second))

abbrev pool : Scheduler
pool = record {
  accounts = backup ∷ paused ∷ first ∷ [];
  routes = routes;
  has_health_store = true;
  health_writes = [];
}

abbrev gpt : Text
gpt = codes "gpt-4"

abbrev too_many : GoError
too_many = plain (codes "upstream status 429")

abbrev events : List HealthEvent
events =
    noted "a1" (some too_many) second
    ∷ noted "a1" (some (timed_out (codes "timeout"))) (2 * second)
    ∷ reaped (20 * second)
    ∷ noted "a1" none (30 * second)
    ∷ []

health_run-IsPaced_example : All IsPaced (health_run reader pool events).accounts
health_run-IsPaced_example = health_run-IsPaced reader pool events (omega arith)

note_failure_cools_example :
    (t : ℕ) × ((note_failure reader too_many second first).cooldown_until ≡ at t)
    × (second < t)
    × (t < second + 24 * 60 * minute)
    × (account_schedulable (note_failure reader too_many second first) second ≡ false)
unfolding classify_upstream_error
note_failure_cools_example = note_failure_cools reader too_many second first refl

reap_cooldowns_lem_example :
    let (s', n) = reap_cooldowns (20 * second) pool in
    IsReaped (20 * second) pool.accounts s'.accounts n
    × ((reap_cooldowns (20 * second) s').1 ≡ 0)
    × ((reap_cooldowns (20 * second) s').0.accounts ≡ s'.accounts)
reap_cooldowns_lem_example = reap_cooldowns_lem (20 * second) pool

abbrev worn : Account
worn = record first { cooldown_until = at second; consecutive_timeouts = 2 }

stale_cooldown_reaped_example :
    let b = note_class failure_timeout 0 (2 * second) worn in
    let after =
      (reap_cooldowns (2 * second) (record pool { accounts = b ∷ pool.accounts })).0.accounts in
    (b.healthy ≡ false)
    × (b.cooldown_until ≡ at second)
    × (get_elem? after 0 ≡ some (renewed b))
    × (account_schedulable (renewed b) (2 * second) ≡ true)
stale_cooldown_reaped_example =
    stale_cooldown_reaped failure_timeout 0 (2 * second) second worn pool.accounts pool refl
      (omega arith) (inl (refl, omega arith))

providers_for_model_lem_example :
    RoutesTo (collect_hits matches (trim_space gpt) routes) (providers_for_model matches routes gpt)
providers_for_model_lem_example = providers_for_model_lem matches routes gpt

pick-IsTierOrder_example :
    (order : List Account) × IsTierOrder (live_of matches gpt second pool) order
    × ((attempt : ℕ)
        → pick matches attempt gpt second pool
          ≡ by_any
              (live_of matches gpt second pool)
              (get_elem? order attempt)
              (get_elem? (sort_by cooldown_expiry (spare_of matches gpt second pool)) attempt))
pick-IsTierOrder_example = pick-IsTierOrder matches gpt second pool

picked_backup : pick matches 1 gpt second pool ≡ some backup
unfolding pick subport.Prelude.Text.is_empty trim_space subport.Prelude.Text.to_lower
picked_backup = refl

note_success_strands_example :
    ((now : ℕ) → reap_one now (note_success paused) ≡ note_success paused)
    × ((matches : Text → Text → Option Bool) (attempt : ℕ) (name : Text) (now : ℕ) (s : Scheduler)
        → pick matches attempt name now s ≢ some (note_success paused))
note_success_strands_example = note_success_strands paused refl

abbrev aliases : ModelAliasConfig
aliases = record {
  aliases = (codes "fast", codes "gpt-4") ∷ [];
  fallbacks = (codes "gpt-4", codes "GPT-4" ∷ codes "gpt-3" ∷ codes "o1" ∷ codes "o3" ∷ []) ∷ [];
  max_fallback_tries = pos 2;
}

model_attempt_chain-AllFresh_example :
    AllFresh [] (model_attempt_chain aliases (codes "FAST"))
    × (length (model_attempt_chain aliases (codes "FAST")) ≤ 1 + max_extra aliases)
model_attempt_chain-AllFresh_example = model_attempt_chain-AllFresh aliases (codes "FAST")

fast_chain :
    model_attempt_chain aliases (codes "FAST") ≡ codes "gpt-4" ∷ codes "gpt-3" ∷ codes "o1" ∷ []
unfolding model_attempt_chain
fast_chain = refl
