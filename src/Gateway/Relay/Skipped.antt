-- ===== src/Gateway/Relay/Skipped.antt =====
-- The walk indexes a pool that shrinks under it: after a rate limit a healthy peer is skipped.
use subport.Prelude.{
  ℕ, zero, suc, ◌+◌, ◌≤◌, ◌<◌, ◌≡◌, refl, ap, ◌∙◌, inl, inr, Bool, true, false, Option, none, some,
  [], ◌∷◌, arith, str_eq, eq_refl, Bool-cases, get_elem?,
}
use subport.Prelude.Text.{Text}
use subport.Store.Table.{find_row, update_row}
use subport.Gateway.Account.{Account, account_key, at}
use subport.Gateway.Errors.{GoError, classify_upstream_error, failure_rate_limit}
use subport.Gateway.Health.{
  Scheduler, account_schedulable, note_failure, note_upstream_result, persist_health,
}
use subport.Gateway.Health.Thresholds.{note_failure_cools}
use subport.Gateway.Scheduler.{pick}
use subport.Gateway.Relay.{
  failed, World, Setting, Walk, exhausted, call_upstream, after_call, relay_attempts, start,
  max_attempts,
}

-- A scheduler with two accounts and no routing table.
abbrev pub pair_of : Account → Account → Scheduler → Scheduler
pair_of a b s = record s { accounts = a ∷ b ∷ []; routes = [] }

module _ (matches : Text → Text → Option Bool) (name : Text) (now : ℕ) (s : Scheduler)
    (a b : Account) where
  -- Of two schedulable accounts in order the first is attempt 0.
  pick_first :
      account_schedulable a now ≡ true
      → account_schedulable b now ≡ true
      → a.priority ≤ b.priority
      → pick matches 0 name now (pair_of a b s) ≡ some a
  unfolding pick
  pick_first ha hb le = rw (ha, hb) (ground arith)

  -- When only the second is left, it is attempt 0, and no later attempt reaches it.
  pick_gone :
      (n : ℕ)
      → 0 < n
      → account_schedulable a now ≡ false
      → account_schedulable b now ≡ true
      → pick matches n name now (pair_of a b s) ≡ none
  unfolding pick
  pick_gone zero p ha hb = absurd (omega arith)
  pick_gone (suc n) p ha hb = rw (ha, hb) (ground arith)

-- No other request interferes, the first account answers with a rate limit before any byte, and the
-- later attempts come before its cooldown, noted when the call has ended, is over. The second account
-- is ready at every attempt.
pub record IsRateLimited (set : Setting) (w : World) (breaks : GoError → Bool) (model : Text)
    (a b : Account) (e : GoError) : Type 0 where
  pub soon :
      (n t : ℕ)
      → 0 < n
      → (note_failure set.reader e (w.ended 0) a).cooldown_until ≡ at t
      → w.clock n < t
  pub alone : (n : ℕ) (s : Scheduler) → w.meanwhile n s ≡ s
  pub answers : call_upstream set w 0 a model ≡ failed e
  pub limited : classify_upstream_error (some e) ≡ failure_rate_limit
  pub quiet : breaks e ≡ false
  pub named : str_eq a.id "" ≡ false
  pub a_ready : account_schedulable a (w.clock 0) ≡ true
  pub b_ready : (n : ℕ) → account_schedulable b (w.clock n) ≡ true
  pub ordered : a.priority ≤ b.priority

module _ (set : Setting) (w : World) (breaks : GoError → Bool) (model : Text) (a b : Account)
    (e : GoError) (h : IsRateLimited set w breaks model a b e) where
  abbrev noted : Scheduler → Scheduler
  noted s = note_upstream_result set.reader a.id (some e) (w.ended 0) (pair_of a b s)

  x : Account
  x = note_failure set.reader e (w.ended 0) a

  found_first : find_row account_key a.id (a ∷ b ∷ []) ≡ some a
  unfolding find_row
  found_first = rw (eq_refl a.id)

  updated_first : update_row account_key a.id (λ _. x) (a ∷ b ∷ []) ≡ x ∷ b ∷ []
  unfolding update_row
  updated_first = rw (eq_refl a.id)

  persisted :
      (s : Scheduler)
      → persist_health x (pair_of x b s) ≡ pair_of x b (persist_health x (pair_of x b s))
  unfolding persist_health
  persisted s = elim (Bool-cases s.has_health_store) [ inl q ↦ rw q | inr q ↦ rw q ]

  noted_as : (s : Scheduler) → noted s ≡ persist_health x (pair_of x b s)
  unfolding note_upstream_result x
  noted_as s = rw (h.named, found_first, updated_first)

  noted_lem : (s : Scheduler) → noted s ≡ pair_of x b (noted s)
  noted_lem s = rw (noted_as s) (persisted s)

  x_waits : (n : ℕ) → 0 < n → account_schedulable x (w.clock n) ≡ false
  unfolding x account_schedulable
  x_waits n p =
      let (t, is_at, later, day, waits) = note_failure_cools set.reader e (w.ended 0) a h.limited in
      let early = h.soon n t p is_at in rw is_at (ground arith)

  -- The walk with nobody left to pick.
  nobody :
      (left n : ℕ) (s : Scheduler) (k : Walk)
      → 0 < n
      → 0 < k.picks
      → k.sched ≡ pair_of x b s
      → (k' : Walk) × (relay_attempts set w breaks left n model k ≡ exhausted k')
        × (k'.calls ≡ k.calls)
        × (k'.last_err ≡ k.last_err)
        × (k'.sched ≡ k.sched)
  unfolding relay_attempts
  nobody zero n s k pn kp p = (k, refl, refl, refl, refl)
  nobody (suc left) n s k pn kp p =
      let gone : pick set.matches n model (w.clock k.picks) k.sched ≡ none = rw p (
        pick_gone set.matches model (w.clock k.picks) s x b n pn (x_waits k.picks kp)
          (h.b_ready k.picks)) in
      rw (h.alone k.picks k.sched) (
        rw gone
          (nobody left (n + 1) s (record k { picks = k.picks + 1 }) (omega arith) (omega arith) p))

  -- With two ready accounts and an empty routing table, the first account in order rate limited before
  -- any byte, its cooldown not over at the later attempts, the second ready at all of them and no other
  -- request at work: the three attempts for the model call the first account alone. The second is
  -- never called and stays as it was, though the attempts are used up.
  pub relay_attempts-skips :
      (s : Scheduler)
      → (k : Walk) × (relay_attempts set w breaks max_attempts 0 model
            (start set w breaks (pair_of a b s))
          ≡ exhausted k)
        × (k.calls ≡ record { model = model; account = a; routes = []; answer = failed e } ∷ [])
        × (k.last_err ≡ some e)
        × (get_elem? k.sched.accounts 1 ≡ some b)
  unfolding relay_attempts
  relay_attempts-skips s =
      let k : Walk = start set w breaks (pair_of a b s) in
      let k₁ : Walk = after_call set w model a (pair_of a b s) (some e) (failed e) k in
      let p : k₁.sched ≡ pair_of x b (noted s) = noted_lem s in
      let (k', ends, calls, last, sched) = nobody 2 1 (noted s) k₁ (omega arith) (omega arith) p in
      rw (h.alone 0 (pair_of a b s)) (
        rw
          (
            pick_first set.matches model (w.clock 0) s a b h.a_ready (h.b_ready 0) h.ordered,
            h.answers,
          )
          (rw h.quiet
            (k', ends, calls, last, ap (λ (t : Scheduler). get_elem? t.accounts 1) (sched ∙ p))))
