-- ===== src/Gateway/Health/Invariant.antt =====
-- No healthy account stands at a threshold, whatever calls and reaper rounds happen.
use subport.Prelude.{
  ℕ, ◌<◌, String, ◌≡◌, refl, ◌∙◌, inl, inr, true, Option, none, some, List, [], ◌∷◌, arith, str_eq,
  Bool-cases, All,
}
use subport.Store.Table.{find_row, update_row}
use subport.Gateway.Account.{Account, account_key}
use subport.Gateway.Errors.{
  GoError, FailureClass, classify_upstream_error, ErrorReader, cooldown_duration_for_error,
}
use subport.Gateway.Health.{
  note_class, note_failure, note_success, note_result, is_reapable, reap_accounts, Scheduler,
  persist_health, persist_all, note_found, note_upstream_result, reap_cooldowns, last_error_of,
}

-- A healthy account is below every threshold.
pub record IsPaced (a : Account) : Type 0 where
  pub timeouts : a.healthy ≡ true → a.consecutive_timeouts < 3
  pub forbidden : a.healthy ≡ true → a.consecutive_403 < 2
  pub rate_limits : a.healthy ≡ true → a.consecutive_429 < 3

note_class-IsPaced :
    (k : FailureClass) (cd now : ℕ) (a : Account) → IsPaced a → IsPaced (note_class k cd now a)
unfolding note_class
note_class-IsPaced k cd now a v = ground arith

note_result-IsPaced :
    (reader : ErrorReader) (result : Option GoError) (now : ℕ) (a : Account)
    → IsPaced a
    → IsPaced (note_result reader result now a)
unfolding note_success note_failure
note_result-IsPaced reader none now a v = omega arith
note_result-IsPaced reader (some e) now a v =
    note_class-IsPaced (classify_upstream_error (some e))
      (cooldown_duration_for_error reader (some e) now) now
      (record a { last_error = last_error_of e })
      (record { timeouts = v.timeouts; forbidden = v.forbidden; rate_limits = v.rate_limits })

update_row-All {ℓ} :
    {A : Type 0} (P : A → Type ℓ) (key : A → String) (k : String) (f : A → A) (rows : List A)
    → ((a : A) → P a → P (f a))
    → All P rows
    → All P (update_row key k f rows)
unfolding update_row
update_row-All P key k f [] hf h = h
update_row-All P key k f (a ∷ rows) hf h = elim (Bool-cases (str_eq (key a) k)) [
  | inl e ↦ rw e (hf a h.0, h.1)
  | inr e ↦ rw e (h.0, update_row-All P key k f rows hf h.1)
]

find_row-All {ℓ} :
    {A : Type 0} (P : A → Type ℓ) (key : A → String) (k : String) (rows : List A) {a : A}
    → All P rows
    → find_row key k rows ≡ some a
    → P a
unfolding find_row
find_row-All P key k [] h e = cc
find_row-All P key k (b ∷ rows) h e = elim (Bool-cases (str_eq (key b) k)) [
  | inl p ↦ ground (arith, h.0)
  | inr p ↦ find_row-All P key k rows h.1 (rw p at e)
]

reap_accounts-IsPaced :
    (now : ℕ) (accounts : List Account)
    → All IsPaced accounts
    → All IsPaced (reap_accounts now accounts).0
unfolding reap_accounts
reap_accounts-IsPaced now [] h = h
reap_accounts-IsPaced now (a ∷ rest) h = elim (Bool-cases (is_reapable a now)) [
  | inl e ↦ rw e (omega arith, reap_accounts-IsPaced now rest h.1)
  | inr e ↦ rw e (h.0, reap_accounts-IsPaced now rest h.1)
]

accounts-persist_health : (a : Account) (s : Scheduler) → (persist_health a s).accounts ≡ s.accounts
unfolding persist_health
accounts-persist_health a s = ground arith

note_found-IsPaced :
    (reader : ErrorReader) (id : String) (result : Option GoError) (now : ℕ) (s : Scheduler)
    (found : Option Account)
    → ((a : Account) → found ≡ some a → IsPaced a)
    → All IsPaced s.accounts
    → All IsPaced (note_found reader id result now s found).accounts
note_found-IsPaced reader id result now s none p h = h
note_found-IsPaced reader id result now s (some a) p h = rw accounts-persist_health (
    update_row-All IsPaced account_key id _ s.accounts
      (λ b _. note_result-IsPaced reader result now a (p a refl)) h)

note_upstream_result-IsPaced :
    (reader : ErrorReader) (id : String) (result : Option GoError) (now : ℕ) (s : Scheduler)
    → All IsPaced s.accounts
    → All IsPaced (note_upstream_result reader id result now s).accounts
unfolding note_upstream_result
note_upstream_result-IsPaced reader id result now s h = elim (Bool-cases (str_eq id "")) [
  | inl e ↦ rw e h
  | inr e ↦ rw e (
      note_found-IsPaced reader id result now s (find_row account_key id s.accounts)
        (λ a found. find_row-All IsPaced account_key id s.accounts h found) h)
]

accounts-persist_all :
    (reaped : List Account) (s : Scheduler) → (persist_all reaped s).accounts ≡ s.accounts
accounts-persist_all [] s = refl
accounts-persist_all (a ∷ rest) s =
    accounts-persist_all rest (persist_health a s) ∙ accounts-persist_health a s

pub accounts-reap_cooldowns :
    (now : ℕ) (s : Scheduler) → (reap_cooldowns now s).0.accounts ≡ (reap_accounts now s.accounts).0
unfolding reap_cooldowns
accounts-reap_cooldowns now s =
    accounts-persist_all (reap_accounts now s.accounts).1
      (record s { accounts = (reap_accounts now s.accounts).0 })

-- What happens to a scheduler: the outcome of a call, or a round of the reaper.
pub data HealthEvent : Type 0 where
  noted : String → Option GoError → ℕ → HealthEvent
  reaped : ℕ → HealthEvent

unfoldable pub health_run : ErrorReader → Scheduler → List HealthEvent → Scheduler
health_run reader s [] = s
health_run reader s (noted id result now ∷ events) =
    health_run reader (note_upstream_result reader id result now s) events
health_run reader s (reaped now ∷ events) = health_run reader (reap_cooldowns now s).0 events

-- Where every account that is healthy has fewer than 3 timeouts, 2 refusals and 3 rate limits in a
-- row, the same holds after every sequence of call outcomes and reaper rounds: an account that
-- reaches a threshold is paused in the same step.
pub health_run-IsPaced :
    (reader : ErrorReader) (s : Scheduler) (events : List HealthEvent)
    → All IsPaced s.accounts
    → All IsPaced (health_run reader s events).accounts
unfolding health_run
health_run-IsPaced reader s [] h = h
health_run-IsPaced reader s (noted id result now ∷ events) h =
    health_run-IsPaced reader (note_upstream_result reader id result now s) events
      (note_upstream_result-IsPaced reader id result now s h)
health_run-IsPaced reader s (reaped now ∷ events) h =
    health_run-IsPaced reader (reap_cooldowns now s).0 events
      (rw accounts-reap_cooldowns (reap_accounts-IsPaced now s.accounts h))
