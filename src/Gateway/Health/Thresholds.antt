-- ===== src/Gateway/Health/Thresholds.antt =====
-- When an account is paused or cooled, and for how long.
use subport.Prelude.{
  ℕ, ◌+◌, ◌*◌, ◌/◌, ◌<◌, ◌≡◌, ◌⊎◌, true, false, some, List, [], ◌∷◌, arith, ◌==◌, if◌then◌else◌,
}
use subport.Gateway.Account.{Account, absent, at, format, second, minute}
use subport.Gateway.Errors.{
  GoError, failure_timeout, failure_rate_limit, classify_upstream_error, ErrorReader,
  cooldown_duration_for_error, cooldown_by_kind,
}
use subport.Gateway.Health.{
  note_class, note_failure, account_schedulable, rate_limit_cooldown, timeout_cooldown,
  last_error_of,
}

-- One timeout after another, at the given instants.
unfoldable pub timeouts_at : List ℕ → Account → Account
timeouts_at [] a = a
timeouts_at (now ∷ nows) a = timeouts_at nows (note_class failure_timeout 0 now a)

paused_stays :
    (nows : List ℕ) (a : Account) (t : ℕ)
    → a.healthy ≡ false
    → a.cooldown_until ≡ at t
    → ((timeouts_at nows a).healthy ≡ false) × ((timeouts_at nows a).cooldown_until ≡ at t)
unfolding timeouts_at
paused_stays [] a t h c = (h, c)
paused_stays (now ∷ nows) a t h c =
    let (h', c') = one_more now a t h c in
    paused_stays nows (note_class failure_timeout 0 now a) t h' c'
  where
    one_more :
        (now : ℕ) (a : Account) (t : ℕ)
        → a.healthy ≡ false
        → a.cooldown_until ≡ at t
        → ((note_class failure_timeout 0 now a).healthy ≡ false)
          × ((note_class failure_timeout 0 now a).cooldown_until ≡ at t)
    one_more now a t h c = unfold note_class in ground arith

-- An account with a clean record stays schedulable through two timeouts in a row; the third pauses
-- it until five minutes after that one (in whole seconds), however many more follow.
pub timeouts_at-pause :
    (a : Account) (t₁ t₂ t₃ : ℕ) (more : List ℕ)
    → a.healthy ≡ true
    → a.consecutive_timeouts ≡ 0
    → a.cooldown_until ≡ absent
    → (account_schedulable (timeouts_at (t₁ ∷ t₂ ∷ []) a) t₂ ≡ true)
      × ((timeouts_at (t₁ ∷ t₂ ∷ t₃ ∷ more) a).healthy ≡ false)
      × ((timeouts_at (t₁ ∷ t₂ ∷ t₃ ∷ more) a).cooldown_until ≡ format (t₃ + timeout_cooldown))
unfolding timeouts_at note_class account_schedulable format
timeouts_at-pause a t₁ t₂ t₃ more h z c =
    let third : Account = timeouts_at (t₁ ∷ t₂ ∷ t₃ ∷ []) a in
    let (paused, until) =
      paused_stays more third ((t₃ + timeout_cooldown) / second * second) (ground arith)
        (ground arith) in
    (ground arith, paused, until)

-- CooldownDurationForError is 0, or between a second and a day.
cooldown_bounds :
    (reader : ErrorReader) (e : GoError) (now : ℕ)
    → let cd = cooldown_duration_for_error reader (some e) now in
      (cd ≡ 0) ⊎ ((second < cd) × (cd < 24 * 60 * minute))
unfolding cooldown_duration_for_error cooldown_by_kind
cooldown_bounds reader e now = ground arith

rate_limit_cools :
    (cd now : ℕ) (a : Account)
    → (cd ≡ 0) ⊎ ((second < cd) × (cd < 24 * 60 * minute))
    → let cooldown : ℕ = if cd == 0 then rate_limit_cooldown else cd in
      let t : ℕ = (now + cooldown) / second * second in
      ((note_class failure_rate_limit cd now a).cooldown_until ≡ at t)
      × (now < t)
      × (t < now + 24 * 60 * minute)
unfolding note_class
rate_limit_cools cd now a h = (ground arith, ground arith, ground arith)

not_schedulable :
    (a : Account) (t now : ℕ)
    → a.cooldown_until ≡ at t
    → now < t
    → account_schedulable a now ≡ false
unfolding account_schedulable
not_schedulable a t now e h = ground arith

-- A rate limit cools the account at once, whatever its state: at the instant of the call it is
-- not schedulable, and its cooldown ends later than that and within a day.
pub note_failure_cools :
    (reader : ErrorReader) (e : GoError) (now : ℕ) (a : Account)
    → classify_upstream_error (some e) ≡ failure_rate_limit
    → (t : ℕ) × ((note_failure reader e now a).cooldown_until ≡ at t)
      × (now < t)
      × (t < now + 24 * 60 * minute)
      × (account_schedulable (note_failure reader e now a) now ≡ false)
unfolding note_failure
note_failure_cools reader e now a k =
    let b : Account = record a { last_error = last_error_of e } in
    let cd : ℕ = cooldown_duration_for_error reader (some e) now in
    let (is_at, later, soon) = rate_limit_cools cd now b (cooldown_bounds reader e now) in
    let t : ℕ = (now + (if cd == 0 then rate_limit_cooldown else cd)) / second * second in
    rw k (
      t,
      is_at,
      later,
      soon,
      not_schedulable (note_class failure_rate_limit cd now b) t now is_at later,
    )
