-- ===== src/Gateway/Scheduler/Order.antt =====
-- The map of tiers and its sorted keys walk the live accounts tier by tier, each tier in order.
use subport.Prelude.{
  ℕ, ◌≤◌, ◌≡◌, refl, sym, ap, ◌∙◌, ◌≢◌, inl, inr, Bool, true, false, ◌&&◌, not, Option, List, [],
  ◌∷◌, ◌++◌, arith, ◌==◌, if◌then◌else◌, Bool-cases, ==_iff, All, All-append, keep,
}
use mathlib.Core.List.{append-nil, append_assoc}
use subport.Prelude.Sorting.{sort_by, IsSortedBy, has_rank, sort_by-IsSortedBy, keep-sort_by}
use subport.Prelude.Text.{Text}
use subport.Gateway.Account.{Account}
use subport.Gateway.Health.{ModelRoute, account_schedulable}
use subport.Gateway.Routing.{account_eligible_for_model}
use subport.Gateway.Scheduler.{
  Tiers, no_tiers, mem_nat, add_tier, is_cooling, flat_map, walk, gather,
}

abbrev pub tier_rank : Account → ℕ
tier_rank a = a.priority

abbrev key_rank : ℕ → ℕ
key_rank p = p

-- The accounts of one tier.
abbrev pub tier : ℕ → List Account → List Account
tier r l = keep (has_rank tier_rank r) l

abbrev once : ℕ → List Account → List ℕ
once r [] = []
once r (_ ∷ _) = r ∷ []

keep-append {ℓ} :
    {A : Type ℓ} (p : A → Bool) (xs ys : List A) → keep p (xs ++ ys) ≡ keep p xs ++ keep p ys
keep-append p [] ys = refl
keep-append p (x ∷ xs) ys = ground (arith, keep-append p xs ys)

pub record HoldsAll (t : Tiers) (l : List Account) : Type 0 where
  lists : (r : ℕ) → t.at_key r ≡ tier r l
  keys : (r : ℕ) → keep (has_rank key_rank r) t.keys ≡ once r (tier r l)

mem_nat_lem : (r : ℕ) (ks : List ℕ) → mem_nat r ks ≡ false → keep (has_rank key_rank r) ks ≡ []
mem_nat_lem r [] h = refl
mem_nat_lem r (k ∷ ks) h = ground (arith, mem_nat_lem r ks)

not-mem_nat : (r : ℕ) (ks : List ℕ) → mem_nat r ks ≡ true → keep (has_rank key_rank r) ks ≢ []
not-mem_nat r [] h = cc
not-mem_nat r (k ∷ ks) h = ground (arith, not-mem_nat r ks)

add_tier_lists :
    (a : Account) (t : Tiers) (l : List Account) (r : ℕ)
    → t.at_key r ≡ tier r l
    → (add_tier a t).at_key r ≡ tier r (l ++ a ∷ [])
unfolding add_tier
add_tier_lists a t l r h =
    ground (arith, keep-append (has_rank tier_rank r) l (a ∷ []), append-nil (tier r l))

once_append : (r : ℕ) (l : List Account) (a : Account) → once r (l ++ a ∷ []) ≡ r ∷ []
once_append r [] a = refl
once_append r (b ∷ l) a = refl

add_tier_keys :
    (a : Account) (t : Tiers) (l : List Account) (r : ℕ)
    → keep (has_rank key_rank r) t.keys ≡ once r (tier r l)
    → keep (has_rank key_rank r) (add_tier a t).keys ≡ once r (tier r (l ++ a ∷ []))
unfolding add_tier
add_tier_keys a t l r h = ground (
  arith,
  keep-append (has_rank tier_rank r) l (a ∷ []),
  append-nil (tier r l),
  keep-append (has_rank key_rank r) t.keys (a.priority ∷ []),
  once_append r (tier r l) a,
  mem_nat_lem a.priority t.keys,
  not-mem_nat a.priority t.keys,
)

add_tier-HoldsAll :
    (a : Account) (t : Tiers) (l : List Account)
    → HoldsAll t l
    → HoldsAll (add_tier a t) (l ++ a ∷ [])
add_tier-HoldsAll a t l h = record {
  lists = λ r. add_tier_lists a t l r (h.lists r);
  keys = λ r. add_tier_keys a t l r (h.keys r);
}

pub no_tiers-HoldsAll : HoldsAll no_tiers []
no_tiers-HoldsAll = record { lists = λ r. refl; keys = λ r. refl }

module _ (matches : Text → Text → Option Bool) (routes : List ModelRoute) (name : Text)
    (now : ℕ) where
  -- Eligible and schedulable.
  abbrev pub is_live : Account → Bool
  is_live a = account_eligible_for_model matches routes a.provider name && account_schedulable a now

  -- Eligible, and only a last resort.
  abbrev pub is_spare : Account → Bool
  is_spare a =
      account_eligible_for_model matches routes a.provider name
      && not (account_schedulable a now)
      && is_cooling a

  pub gather_lem :
      (l seen : List Account) (t : Tiers) (cooling : List Account)
      → HoldsAll t seen
      → HoldsAll (gather matches routes name now l t cooling).0 (seen ++ keep is_live l)
        × ((gather matches routes name now l t cooling).1 ≡ cooling ++ keep is_spare l)
  unfolding gather
  gather_lem [] seen t cooling h = (rw append-nil h, sym (append-nil cooling))
  gather_lem (a ∷ rest) seen t cooling h =
      go (is_live a) (is_spare a) (λ s u c. gather_lem rest s u c)
    where
      go :
          (live spare : Bool)
          → ((s : List Account) (u : Tiers) (c : List Account)
              → HoldsAll u s
              → HoldsAll (gather matches routes name now rest u c).0 (s ++ keep is_live rest)
                × ((gather matches routes name now rest u c).1 ≡ c ++ keep is_spare rest))
          → HoldsAll
              (gather matches routes name now rest
                (if live then add_tier a t else t)
                (if spare then cooling ++ a ∷ [] else cooling)).0
              (seen ++ (if live then a ∷ keep is_live rest else keep is_live rest))
            × ((gather matches routes name now rest
                  (if live then add_tier a t else t)
                  (if spare then cooling ++ a ∷ [] else cooling)).1
                ≡ cooling ++ (if spare then a ∷ keep is_spare rest else keep is_spare rest))
      go true true ih =
          rw
            (
              ← append_assoc seen (a ∷ []) (keep is_live rest),
              ← append_assoc cooling (a ∷ []) (keep is_spare rest),
            )
            (ih (seen ++ a ∷ []) (add_tier a t) (cooling ++ a ∷ []) (add_tier-HoldsAll a t seen h))
      go true false ih =
          rw (← append_assoc seen (a ∷ []) (keep is_live rest))
            (ih (seen ++ a ∷ []) (add_tier a t) cooling (add_tier-HoldsAll a t seen h))
      go false true ih =
          rw (← append_assoc cooling (a ∷ []) (keep is_spare rest))
            (ih seen t (cooling ++ a ∷ []) h)
      go false false ih = ih seen t cooling h

tier-tier : (r k : ℕ) (l : List Account) → tier r (tier k l) ≡ (if k == r then tier k l else [])
tier-tier r k [] = ground arith
tier-tier r k (a ∷ l) = ground (arith, tier-tier r k l)

-- A walk over sorted keys, each with its tier.
keep_walk :
    (f : ℕ → List Account) (l : List Account) (r : ℕ) (ks : List ℕ)
    → ((p : ℕ) → f p ≡ tier p l)
    → tier r (flat_map f ks) ≡ flat_map f (keep (has_rank key_rank r) ks)
keep_walk f l r [] h = refl
keep_walk f l r (k ∷ ks) h = ground (
  arith,
  h k,
  keep-append (has_rank tier_rank r) (f k) (flat_map f ks),
  tier-tier r k l,
  keep_walk f l r ks h,
)

flat_map-once :
    (f : ℕ → List Account) (r : ℕ) (l : List Account) → f r ≡ l → flat_map f (once r l) ≡ l
flat_map-once f r [] h = refl
flat_map-once f r (a ∷ l) h = rw h (append-nil (a ∷ l))

-- Each tier of the walk is the tier of the live accounts, in their order.
pub walk-tier : (t : Tiers) (l : List Account) → HoldsAll t l → (r : ℕ) → tier r (walk t) ≡ tier r l
unfolding walk
walk-tier t l h r =
    keep_walk t.at_key l r (sort_by key_rank t.keys) h.lists
    ∙ ap (flat_map t.at_key) (keep-sort_by key_rank r t.keys ∙ h.keys r)
    ∙ flat_map-once t.at_key r (tier r l) (h.lists r)

tier-All : (p : ℕ) (l : List Account) → All (λ a. tier_rank a ≡ p) (tier p l)
tier-All p [] = tt
tier-All p (a ∷ l) = elim (Bool-cases (a.priority == p)) [
  | inl e ↦ rw e ((==_iff _ _).0 e, tier-All p l)
  | inr e ↦ rw e (tier-All p l)
]

All-above :
    (p q : ℕ) (xs : List Account)
    → p ≤ q
    → All (λ a. tier_rank a ≡ q) xs
    → All (λ a. p ≤ tier_rank a) xs
All-above p q [] le h = tt
All-above p q (x ∷ xs) le h = (omega (arith, h.0), All-above p q xs le h.1)

above_flat_map :
    (f : ℕ → List Account) (p : ℕ) (ks : List ℕ)
    → All (λ k. p ≤ key_rank k) ks
    → ((k : ℕ) → All (λ a. tier_rank a ≡ k) (f k))
    → All (λ a. p ≤ tier_rank a) (flat_map f ks)
above_flat_map f p [] h c = tt
above_flat_map f p (k ∷ ks) h c =
    All-append (λ a. p ≤ tier_rank a) (f k) (flat_map f ks) (All-above p k (f k) h.0 (c k))
      (above_flat_map f p ks h.1 c)

sorted_append :
    (p : ℕ) (xs ys : List Account)
    → All (λ a. tier_rank a ≡ p) xs
    → All (λ a. p ≤ tier_rank a) ys
    → IsSortedBy tier_rank ys
    → IsSortedBy tier_rank (xs ++ ys)
sorted_append p [] ys hx hy s = s
sorted_append p (x ∷ xs) ys hx hy s = (
  rw hx.0 (All-append (λ a. p ≤ tier_rank a) xs ys (All-above p p xs (omega arith) hx.1) hy),
  sorted_append p xs ys hx.1 hy s,
)

sorted_tiers :
    (f : ℕ → List Account) (ks : List ℕ)
    → IsSortedBy key_rank ks
    → ((k : ℕ) → All (λ a. tier_rank a ≡ k) (f k))
    → IsSortedBy tier_rank (flat_map f ks)
sorted_tiers f [] s c = tt
sorted_tiers f (k ∷ ks) s c =
    sorted_append k (f k) (flat_map f ks) (c k) (above_flat_map f k ks s.0 c)
      (sorted_tiers f ks s.1 c)

-- The walk never climbs back to a better tier.
pub walk-IsSortedBy : (t : Tiers) (l : List Account) → HoldsAll t l → IsSortedBy tier_rank (walk t)
unfolding walk
walk-IsSortedBy t l h =
    sorted_tiers t.at_key (sort_by key_rank t.keys) (sort_by-IsSortedBy key_rank t.keys)
      (λ p. rw (h.lists p) (tier-All p l))
