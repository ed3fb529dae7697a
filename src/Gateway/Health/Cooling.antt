-- ===== src/Gateway/Health/Cooling.antt =====
-- What the reaper does, and pauses that do not last.
use subport.Prelude.{
  ℕ, suc, ◌+◌, ◌≤◌, ◌≡◌, refl, sym, ◌∙◌, ◌⊎◌, inl, inr, true, false, some, List, [], ◌∷◌, map,
  arith, if◌then◌else◌, length, Bool-cases, get_elem?,
}
use mathlib.Core.Bool.{true≢false}
use subport.Gateway.Account.{Account, Stamp, absent, blank, at, padded, garbled}
use subport.Gateway.Errors.{FailureClass, failure_timeout, failure_forbidden}
use subport.Gateway.Health.{
  Scheduler, note_class, reenable, is_reapable, reap_accounts, reap_cooldowns, account_schedulable,
}
use subport.Gateway.Health.Invariant.{accounts-reap_cooldowns}

-- What one round does to one account.
abbrev pub reap_one : ℕ → Account → Account
reap_one now a = if is_reapable a now then reenable a else a

abbrev count_reapable : ℕ → List Account → ℕ
count_reapable now [] = 0
count_reapable now (a ∷ rest) =
    let n = count_reapable now rest in if is_reapable a now then n + 1 else n

reap_accounts_lem :
    (now : ℕ) (l : List Account)
    → ((reap_accounts now l).0 ≡ map (reap_one now) l)
      × (length (reap_accounts now l).1 ≡ count_reapable now l)
unfolding reap_accounts
reap_accounts_lem now [] = (refl, refl)
reap_accounts_lem now (a ∷ rest) = let (p, q) = reap_accounts_lem now rest in ground arith

reap_twice : (now : ℕ) (l : List Account) → count_reapable now (map (reap_one now) l) ≡ 0
unfolding is_reapable
reap_twice now [] = refl
reap_twice now (a ∷ rest) = ground (arith, reap_twice now rest)

reap_again :
    (now : ℕ) (l : List Account) → map (reap_one now) (map (reap_one now) l) ≡ map (reap_one now) l
unfolding is_reapable
reap_again now [] = refl
reap_again now (a ∷ rest) = ground (arith, reap_again now rest)

-- A paused account whose cooldown_until is an instant that has passed.
abbrev pub IsOver : ℕ → Account → Type 0
IsOver now a = (a.healthy ≡ false) × ((t : ℕ) × (a.cooldown_until ≡ at t) × (t ≤ now))

-- The account at work again: healthy, with no cooldown, no failures in a row and no last error.
abbrev pub renewed : Account → Account
renewed a = record a {
  healthy = true;
  cooldown_until = absent;
  consecutive_timeouts = 0;
  consecutive_403 = 0;
  consecutive_429 = 0;
  last_error = [];
}

-- The accounts before and after a round, and how many of them it has renewed.
pub data IsReaped (now : ℕ) : List Account → List Account → ℕ → Type 0 where
  done : IsReaped now [] [] 0
  over :
      (a : Account) (rest after : List Account) (n : ℕ)
      → IsOver now a
      → IsReaped now rest after n
      → IsReaped now (a ∷ rest) (renewed a ∷ after) (suc n)
  kept :
      (a : Account) (rest after : List Account) (n : ℕ)
      → ¬ IsOver now a
      → IsReaped now rest after n
      → IsReaped now (a ∷ rest) (a ∷ after) n

is_reapable-IsOver : (now : ℕ) (a : Account) → is_reapable a now ≡ true → IsOver now a
unfolding is_reapable
is_reapable-IsOver now a h = go a.cooldown_until refl
  where
    go : (c : Stamp) → a.cooldown_until ≡ c → IsOver now a
    go absent e = absurd (ground arith)
    go blank e = absurd (ground arith)
    go (at t) e = (ground arith, (t, e, ground arith))
    go (padded t) e = absurd (ground arith)
    go garbled e = absurd (ground arith)

IsOver-is_reapable : (now : ℕ) (a : Account) → IsOver now a → is_reapable a now ≡ true
unfolding is_reapable
IsOver-is_reapable now a (paused, (t, e, le)) = ground arith

reap_accounts-IsReaped :
    (now : ℕ) (l : List Account)
    → IsReaped now l (reap_accounts now l).0 (length (reap_accounts now l).1)
unfolding reap_accounts
reap_accounts-IsReaped now [] = done
reap_accounts-IsReaped now (a ∷ rest) = elim (Bool-cases (is_reapable a now)) [
  | inl y ↦ rw y (over a rest _ _ (is_reapable-IsOver now a y) (reap_accounts-IsReaped now rest))
  | inr n ↦ rw n (
      kept a rest _ _ (λ o. absurd (true≢false (sym (IsOver-is_reapable now a o) ∙ n)))
        (reap_accounts-IsReaped now rest))
]

first_renewed :
    (now : ℕ) (b : Account) (rest : List Account) (s : Scheduler)
    → IsOver now b
    → get_elem? (reap_cooldowns now (record s { accounts = b ∷ rest })).0.accounts 0
      ≡ some (renewed b)
unfolding reap_accounts
first_renewed now b rest s o =
    rw (accounts-reap_cooldowns now (record s { accounts = b ∷ rest }))
      (rw (IsOver-is_reapable now b o) refl)

-- A round of the reaper renews exactly the paused accounts whose cooldown_until is an instant that has
-- passed, with their failures forgotten, leaves every other account alone and counts them; and a
-- second round at that instant finds none and changes none.
pub reap_cooldowns_lem :
    (now : ℕ) (s : Scheduler)
    → let (s', n) = reap_cooldowns now s in
      IsReaped now s.accounts s'.accounts n
      × ((reap_cooldowns now s').1 ≡ 0)
      × ((reap_cooldowns now s').0.accounts ≡ s'.accounts)
reap_cooldowns_lem now s =
    let first : (reap_cooldowns now s).0.accounts ≡ map (reap_one now) s.accounts =
      accounts-reap_cooldowns now s ∙ (reap_accounts_lem now s.accounts).0 in
    (
      rw (accounts-reap_cooldowns now s, length_reaped now s)
          (reap_accounts-IsReaped now s.accounts),
      reap_count now (reap_cooldowns now s).0 ∙ rw first (reap_twice now s.accounts),
      accounts-reap_cooldowns now (reap_cooldowns now s).0
          ∙ (reap_accounts_lem now (reap_cooldowns now s).0.accounts).0
          ∙ rw first (reap_again now s.accounts),
    )
  where
    length_reaped :
        (now : ℕ) (s : Scheduler)
        → (reap_cooldowns now s).1 ≡ length (reap_accounts now s.accounts).1
    length_reaped now s = unfold reap_cooldowns in refl

    reap_count :
        (now : ℕ) (s : Scheduler) → (reap_cooldowns now s).1 ≡ count_reapable now s.accounts
    reap_count now s = unfold reap_cooldowns in (reap_accounts_lem now s.accounts).1

-- The pause of an account whose cooldown_until still holds an instant that has passed is no pause:
-- the third timeout (or the second refusal) pauses it and keeps the old instant, and a round of the
-- reaper at that very moment, whatever the other accounts, makes it healthy and schedulable again.
pub stale_cooldown_reaped :
    (k : FailureClass) (cd now t : ℕ) (a : Account) (rest : List Account) (s : Scheduler)
    → a.cooldown_until ≡ at t
    → t ≤ now
    → ((k ≡ failure_timeout) × (2 ≤ a.consecutive_timeouts))
      ⊎ ((k ≡ failure_forbidden) × (1 ≤ a.consecutive_403))
    → let b = note_class k cd now a in
      let after = (reap_cooldowns now (record s { accounts = b ∷ rest })).0.accounts in
      (b.healthy ≡ false)
      × (b.cooldown_until ≡ at t)
      × (get_elem? after 0 ≡ some (renewed b))
      × (account_schedulable (renewed b) now ≡ true)
unfolding note_class account_schedulable
stale_cooldown_reaped k cd now t a rest s c le h =
    let b = note_class k cd now a in
    let paused : b.healthy ≡ false = ground arith in
    let until : b.cooldown_until ≡ at t = ground arith in
    (paused, until, first_renewed now b rest s (paused, (t, until, le)), refl)
