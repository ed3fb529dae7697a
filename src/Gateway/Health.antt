-- ===== src/Gateway/Health.antt =====
-- internal/gateway/health.go: the counters of consecutive failures, the pauses and their end.
-- A scheduler is its account list, its routes and the writes that it has handed to the store.
pub mod Invariant
pub mod Thresholds
pub mod Cooling
use subport.Prelude.{
  ℕ, zero, suc, ◌+◌, ◌-◌, ◌*◌, ◌/◌, ◌%◌, ◌^◌, ◌≤◌, ◌<◌, String, ◌≡◌, refl, sym, ap, ◌∙◌, ◌≢◌, ◌↔◌,
  ◌⊎◌, inl, inr, Bool, true, false, ◌&&◌, ◌||◌, not, Option, none, some, List, [], ◌∷◌, ◌++◌, map,
  arith, str_eq, eq_iff, eq_refl, ltb, leb, ◌==◌, if◌then◌else◌, Bool-cases, Option-cases, ltb→lt,
  lt→ltb, leb→le, ==_iff, tests, length, get_elem?, length-append, All, All-append, get_elem?-All,
  keep,
}
use subport.Prelude.Int.{
  ℤ, pos, negsuc, pos_part, neg_part, sub_ℕ, ◌+ℤ◌, ◌-ℤ◌, ◌*ℤ◌, ◌≤ℤ◌, ltb_ℤ, +ℤ_parts, -ℤ_parts,
  eq_of_parts, int_laws,
}
use subport.Prelude.Text.{Text}
use subport.Store.Table.{find_row, update_row}
use subport.Gateway.Account.{
  Account, account_key, Stamp, absent, blank, at, padded, garbled, format, second, minute,
}
use subport.Gateway.Errors.{
  GoError, message, FailureClass, failure_none, failure_timeout, failure_forbidden,
  failure_rate_limit, failure_other, classify_upstream_error, ErrorReader,
  cooldown_duration_for_error, take_bytes,
}

abbrev pub timeout_pause_threshold : ℕ
timeout_pause_threshold = 3

abbrev pub forbidden_pause_threshold : ℕ
forbidden_pause_threshold = 2

abbrev pub rate_limit_pause_threshold : ℕ
rate_limit_pause_threshold = 3

abbrev pub timeout_cooldown : ℕ
timeout_cooldown = 5 * minute

abbrev pub forbidden_cooldown : ℕ
forbidden_cooldown = 15 * minute

abbrev pub rate_limit_cooldown : ℕ
rate_limit_cooldown = 60 * second

pub record ModelRoute : Type 0 where
  pub pattern : Text
  pub provider : Text
  pub priority : ℕ
  pub enabled : Bool

pub record Scheduler : Type 0 where
  pub accounts : List Account
  pub routes : List ModelRoute
  pub has_health_store : Bool
  pub health_writes : List Account

-- ApplyAccountHealth, started for a copy of the account.
unfoldable pub persist_health : Account → Scheduler → Scheduler
persist_health a s =
    if s.has_health_store then record s { health_writes = s.health_writes ++ a ∷ [] } else s

-- a.Healthy = false, and a cooldown where none is set.
abbrev pub pause : ℕ → ℕ → Account → Account
pause now cooldown a = record a {
  healthy = false;
  cooldown_until = elim a.cooldown_until [ absent ↦ format (now + cooldown) | other ↦ other ];
}

abbrev pub pause_if : Bool → ℕ → ℕ → Account → Account
pause_if paused now cooldown a = if paused then pause now cooldown a else a

abbrev pub last_error_of : GoError → Text
last_error_of e =
    let msg = message e in
    if ltb 240 (length msg) then take_bytes 240 msg ++ b'.' ∷ b'.' ∷ b'.' ∷ [] else msg

-- callErr == nil
unfoldable pub note_success : Account → Account
note_success a = record a {
  consecutive_timeouts = 0;
  consecutive_403 = 0;
  consecutive_429 = 0;
  last_error = [];
  cooldown_until = absent;
}

-- The switch on the failure class; `cd` is CooldownDurationForError at this instant.
unfoldable pub note_class : FailureClass → ℕ → ℕ → Account → Account
unfolding format
note_class failure_timeout cd now a =
    let b = record a { consecutive_timeouts = a.consecutive_timeouts + 1 } in
    pause_if (leb timeout_pause_threshold b.consecutive_timeouts) now timeout_cooldown b
note_class failure_forbidden cd now a =
    let b = record a { consecutive_403 = a.consecutive_403 + 1 } in
    pause_if (leb forbidden_pause_threshold b.consecutive_403) now forbidden_cooldown b
note_class failure_rate_limit cd now a =
    let cooldown : ℕ = if cd == 0 then rate_limit_cooldown else cd in
    let b = record a {
      consecutive_429 = a.consecutive_429 + 1;
      cooldown_until = format (now + cooldown);
    } in
    pause_if (leb rate_limit_pause_threshold b.consecutive_429) now
      (if ltb cooldown rate_limit_cooldown then rate_limit_cooldown else cooldown) b
note_class failure_none cd now a = a
note_class failure_other cd now a = a

-- `a.healthy` and the trimmed text of `a.cooldown_until`.
unfoldable pub account_schedulable : Account → ℕ → Bool
account_schedulable a now = a.healthy && elim a.cooldown_until [
  | absent ↦ true
  | blank ↦ true
  | at t ↦ leb t now
  | padded t ↦ leb t now
  | garbled ↦ true
]

-- A paused account whose timestamp, read as it stands, has passed.
unfoldable pub is_reapable : Account → ℕ → Bool
is_reapable a now = not a.healthy && elim a.cooldown_until [
  | at t ↦ leb t now
  | absent ↦ false
  | blank ↦ false
  | padded t ↦ false
  | garbled ↦ false
]

abbrev pub reenable : Account → Account
reenable a = record a {
  healthy = true;
  cooldown_until = absent;
  consecutive_timeouts = 0;
  consecutive_403 = 0;
  consecutive_429 = 0;
  last_error = [];
}

-- The loop: the accounts after it, those that were re-enabled, in order.
unfoldable pub reap_accounts : ℕ → List Account → List Account × List Account
unfolding is_reapable
reap_accounts now [] = ([], [])
reap_accounts now (a ∷ rest) =
    let (after, reaped) = reap_accounts now rest in
    if is_reapable a now then (reenable a ∷ after, reenable a ∷ reaped) else (a ∷ after, reaped)

abbrev pub persist_all : List Account → Scheduler → Scheduler
persist_all [] s = s
persist_all (a ∷ rest) s = persist_all rest (persist_health a s)

-- The scheduler after ReapCooldowns, and how many accounts it re-enabled.
unfoldable pub reap_cooldowns : ℕ → Scheduler → Scheduler × ℕ
unfolding reap_accounts persist_health
reap_cooldowns now s =
    let (after, reaped) = reap_accounts now s.accounts in
    (persist_all reaped (record s { accounts = after }), length reaped)

module _ (reader : ErrorReader) where
  unfoldable pub note_failure : GoError → ℕ → Account → Account
  unfolding note_class message
  note_failure e now a =
      note_class (classify_upstream_error (some e))
        (cooldown_duration_for_error reader (some e) now) now
        (record a { last_error = last_error_of e })

  abbrev pub note_result : Option GoError → ℕ → Account → Account
  note_result none now a = note_success a
  note_result (some e) now a = note_failure e now a

  -- After the search for the account: its new state goes into the list and to the store.
  abbrev pub note_found : String → Option GoError → ℕ → Scheduler → Option Account → Scheduler
  note_found id result now s none = s
  note_found id result now s (some a) =
      let b = note_result result now a in
      persist_health b (record s { accounts = update_row account_key id (λ _. b) s.accounts })

  unfoldable pub note_upstream_result : String → Option GoError → ℕ → Scheduler → Scheduler
  note_upstream_result id result now s =
      if str_eq id "" then s else note_found id result now s (find_row account_key id s.accounts)
