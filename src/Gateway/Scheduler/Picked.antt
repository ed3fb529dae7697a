-- ===== src/Gateway/Scheduler/Picked.antt =====
-- What Pick returns: the order of the attempts, and which accounts they can reach.
use subport.Prelude.{
  ℕ, ◌≡◌, refl, sym, ap, ◌∙◌, ◌≢◌, ◌⊎◌, inl, inr, Bool, true, false, Option, some, List, [], ◌∷◌,
  arith, ◌==◌, Bool-cases, ==_iff, get_elem?, All, get_elem?-All, keep,
}
use subport.Prelude.Sorting.{sort_by, IsSortedBy, sort_by-All}
use subport.Prelude.Text.{Text}
use subport.Gateway.Account.{Account}
use subport.Gateway.Health.{Scheduler, ModelRoute, account_schedulable, note_success, is_reapable}
use subport.Gateway.Health.Cooling.{reap_one}
use subport.Gateway.Routing.{account_eligible_for_model}
use subport.Gateway.Scheduler.{
  no_tiers, is_absent, is_cooling, cooldown_expiry, walk, pick_at, gather, pick,
}
use subport.Gateway.Scheduler.Order.{
  tier_rank, tier, is_live, is_spare, gather_lem, no_tiers-HoldsAll, walk-tier, walk-IsSortedBy,
}

-- A list of the same accounts tier by tier, best tier first.
pub record IsTierOrder (live order : List Account) : Type 0 where
  pub sorted : IsSortedBy tier_rank order
  pub tiers : (r : ℕ) → tier r order ≡ tier r live

empty_of_tiers : (order : List Account) → ((r : ℕ) → tier r order ≡ []) → order ≡ []
empty_of_tiers [] h = refl
empty_of_tiers (a ∷ order) h = ground (arith, h a.priority)

keep-All {ℓ} : {A : Type ℓ} (p : A → Bool) (l : List A) → All (λ a. p a ≡ true) (keep p l)
keep-All p [] = tt
keep-All p (a ∷ l) = elim (Bool-cases (p a)) [
  | inl e ↦ rw e (e, keep-All p l)
  | inr e ↦ rw e (keep-All p l)
]

-- The first value while the list has an element.
abbrev pub by_any {ℓ} : {A : Type ℓ} → List Account → A → A → A
by_any [] x y = y
by_any (_ ∷ _) x y = x

cons_ne_nil : {a : Account} {l : List Account} → a ∷ l ≢ []
cons_ne_nil = ground arith

module _ (matches : Text → Text → Option Bool) (name : Text) (now : ℕ) (s : Scheduler) where
  abbrev pub live_of : List Account
  live_of = keep (is_live matches s.routes name now) s.accounts

  abbrev pub spare_of : List Account
  spare_of = keep (is_spare matches s.routes name now) s.accounts

  abbrev order_of : List Account
  order_of = walk (gather matches s.routes name now s.accounts no_tiers []).0

  pick_as_at : (attempt : ℕ) → pick matches attempt name now s ≡ pick_at attempt order_of spare_of
  unfolding pick
  pick_as_at attempt =
      ap (pick_at attempt order_of)
        (gather_lem matches s.routes name now s.accounts [] no_tiers [] no_tiers-HoldsAll).1

  order-IsTierOrder : IsTierOrder live_of order_of
  order-IsTierOrder =
      let h =
        (gather_lem matches s.routes name now s.accounts [] no_tiers [] no_tiers-HoldsAll).0 in
      record { sorted = walk-IsSortedBy _ live_of h; tiers = walk-tier _ live_of h }

  pick_at_order :
      (live order : List Account) (attempt : ℕ)
      → IsTierOrder live order
      → pick_at attempt order spare_of
        ≡ by_any live
            (get_elem? order attempt)
            (get_elem? (sort_by cooldown_expiry spare_of) attempt)
  pick_at_order [] [] attempt h = refl
  pick_at_order [] (a ∷ order) attempt h = absurd (cons_ne_nil (empty_of_tiers (a ∷ order) h.tiers))
  pick_at_order (b ∷ live) [] attempt h =
      absurd (cons_ne_nil (empty_of_tiers (b ∷ live) (λ r. sym (h.tiers r))))
  pick_at_order (b ∷ live) (a ∷ order) attempt h = refl

  -- While an eligible account is schedulable, the attempts 0, 1, 2, … walk exactly the schedulable
  -- eligible accounts, all of a better tier before any of a worse one and each tier in the order of
  -- the configuration; otherwise they walk the eligible cooling accounts by the end of their cooldown.
  pub pick-IsTierOrder :
      (order : List Account) × IsTierOrder live_of order
      × ((attempt : ℕ)
          → pick matches attempt name now s
            ≡ by_any live_of
                (get_elem? order attempt)
                (get_elem? (sort_by cooldown_expiry spare_of) attempt))
  pick-IsTierOrder = (
    order_of,
    order-IsTierOrder,
    λ attempt. pick_as_at attempt ∙ pick_at_order live_of order_of attempt order-IsTierOrder,
  )

-- An account that an attempt can reach at all.
abbrev pub IsReachable : (Text → Text → Option Bool) → List ModelRoute → Text → Account → Type 0
IsReachable matches routes name a =
    (account_eligible_for_model matches routes a.provider name ≡ true)
    × ((a.healthy ≡ true) ⊎ (is_absent a.cooldown_until ≡ false))

All-keep_and :
    (P : Account → Type 0) (p : Account → Bool) (l : List Account)
    → ((a : Account) → p a ≡ true → P a)
    → All P (keep p l)
All-keep_and P p [] h = tt
All-keep_and P p (a ∷ l) h = elim (Bool-cases (p a)) [
  | inl e ↦ rw e (h a e, All-keep_and P p l h)
  | inr e ↦ rw e (All-keep_and P p l h)
]

All-tier : (P : Account → Type 0) (r : ℕ) (l : List Account) → All P l → All P (tier r l)
All-tier P r [] h = tt
All-tier P r (a ∷ l) h = elim (Bool-cases (a.priority == r)) [
  | inl e ↦ rw e (h.0, All-tier P r l h.1)
  | inr e ↦ rw e (All-tier P r l h.1)
]

All-of_tiers : (P : Account → Type 0) (l : List Account) → ((r : ℕ) → All P (tier r l)) → All P l
All-of_tiers P [] h = tt
All-of_tiers P (a ∷ l) h = (head, All-of_tiers P l rest)
  where
    head : P a
    head =
        let e : (a.priority == a.priority) ≡ true = (==_iff a.priority a.priority).1 refl in
        let t : All P (tier a.priority (a ∷ l)) = h a.priority in
        let t' : P a × All P (tier a.priority l) = rw e at t in t'.0

    rest : (r : ℕ) → All P (tier r l)
    rest r = elim (Bool-cases (a.priority == r)) [
      | inl e ↦ let t' : P a × All P (tier r l) = rw e at (h r) in t'.1
      | inr e ↦ rw e at (h r)
    ]

pub pick-IsReachable :
    (matches : Text → Text → Option Bool) (attempt : ℕ) (name : Text) (now : ℕ) (s : Scheduler)
    {a : Account}
    → pick matches attempt name now s ≡ some a
    → IsReachable matches s.routes name a
pick-IsReachable matches attempt name now s {a} e =
    let (order, is_order, on) = pick-IsTierOrder matches name now s in
    go (live_of matches name now s) order is_order live_ok (sym (on attempt) ∙ e)
  where
    P : Account → Type 0
    P = IsReachable matches s.routes name

    live_ok : All P (live_of matches name now s)
    live_ok =
        All-keep_and P (is_live matches s.routes name now) s.accounts
          (λ b h. unfold account_schedulable in ground arith)

    spare_ok : All P (spare_of matches name now s)
    spare_ok =
        All-keep_and P (is_spare matches s.routes name now) s.accounts
          (λ b h. unfold is_cooling in ground arith)

    go :
        (live order : List Account)
        → IsTierOrder live order
        → All P live
        → by_any live
            (get_elem? order attempt)
            (get_elem? (sort_by cooldown_expiry (spare_of matches name now s)) attempt)
          ≡ some a
        → P a
    go [] order h ok e = get_elem?-All P _ attempt (sort_by-All cooldown_expiry P _ spare_ok) e
    go (b ∷ live) order h ok e =
        get_elem?-All P order attempt
          (All-of_tiers P order (λ r. rw (h.tiers r) (All-tier P r (b ∷ live) ok))) e

-- A paused account whose call succeeds (the last resort of an empty pool, or a call begun before the
-- pause) is stranded: it stays paused, its cooldown is cleared, no later reaper round changes it, and
-- no attempt of any request returns it.
pub note_success_strands :
    (a : Account)
    → a.healthy ≡ false
    → ((now : ℕ) → reap_one now (note_success a) ≡ note_success a)
      × ((matches : Text → Text → Option Bool) (attempt : ℕ) (name : Text) (now : ℕ) (s : Scheduler)
          → pick matches attempt name now s ≢ some (note_success a))
unfolding note_success is_reapable
note_success_strands a h = (
  λ now. ground arith,
  λ matches attempt name now s e. elim (pick-IsReachable matches attempt name now s e).1 [
    | inl up ↦ cc
    | inr set ↦ cc
  ],
)
