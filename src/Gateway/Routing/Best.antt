-- ===== src/Gateway/Routing/Best.antt =====
-- Sorting the hits and scanning to the first other priority finds the routes of the best priority.
use subport.Prelude.{
  ℕ, ◌≤◌, ◌<◌, ◌≡◌, refl, sym, ap, ◌∙◌, ◌≢◌, ◌⊎◌, inl, inr, Bool, true, false, Option, List, [],
  ◌∷◌, map, arith, length, All, keep,
}
use mathlib.Core.Path.{subst}
use subport.Prelude.Sorting.{
  All-sort_by, sort_by, IsSortedBy, has_rank, sort_by-IsSortedBy, keep-sort_by, length-sort_by,
}
use subport.Prelude.Text.{Text, trim_space}
use subport.Gateway.Health.{ModelRoute}
use subport.Gateway.Routing.{Hit, hit_rank, take_best, collect_hits, best_of, providers_for_model}

-- The providers of the hits of one priority, in the order of the routes.
abbrev pub providers_at : ℕ → List Hit → List Text
providers_at best hits = map (λ (h : Hit). h.provider) (keep (has_rank hit_rank best) hits)

take_best_none :
    (best b : ℕ) (hits : List Hit)
    → best < b
    → All (λ h. b ≤ hit_rank h) hits
    → providers_at best hits ≡ []
take_best_none best b [] lt h = refl
take_best_none best b (x ∷ rest) lt h = ground (arith, take_best_none best b rest lt h.1)

take_best_lem :
    (best : ℕ) (hits : List Hit)
    → IsSortedBy hit_rank hits
    → All (λ h. best ≤ hit_rank h) hits
    → take_best best hits ≡ providers_at best hits
unfolding take_best
take_best_lem best [] s h = refl
take_best_lem best (x ∷ rest) s h = ground (
  arith,
  take_best_lem best rest s.1 h.1,
  λ (lt : best < x.priority). take_best_none best x.priority rest lt s.0,
)

-- What a routing table says of a model: no hit, or the providers of every hit whose priority is the
-- least among the hits.
abbrev pub RoutesTo : List Hit → List Text × Bool → Type 0
RoutesTo hits (allowed, matched) =
    ((hits ≡ []) × (allowed ≡ []) × (matched ≡ false))
    ⊎ ((best : ℕ) × All (λ h. best ≤ hit_rank h) hits
        × (allowed ≡ providers_at best hits)
        × (allowed ≢ [])
        × (matched ≡ true))

no_hits : (hits : List Hit) → sort_by hit_rank hits ≡ [] → hits ≡ []
no_hits [] e = refl
no_hits (h ∷ rest) e =
    absurd (omega (arith, length-sort_by hit_rank (h ∷ rest), ap (length {A = Hit}) e))

take_best_head : (h : Hit) (rest : List Hit) → take_best h.priority (h ∷ rest) ≢ []
unfolding take_best
take_best_head h rest = ground arith

best_of-RoutesTo :
    (hits sorted : List Hit) → sort_by hit_rank hits ≡ sorted → RoutesTo hits (best_of sorted)
best_of-RoutesTo hits [] e = inl (no_hits hits e, refl, refl)
best_of-RoutesTo hits (h ∷ rest) e =
    let s : IsSortedBy hit_rank (h ∷ rest) =
      subst (IsSortedBy hit_rank) e (sort_by-IsSortedBy hit_rank hits) in
    let least : All (λ x. h.priority ≤ hit_rank x) (h ∷ rest) = (omega arith, s.0) in
    let same : take_best h.priority (h ∷ rest) ≡ providers_at h.priority hits =
      take_best_lem h.priority (h ∷ rest) s least
      ∙ ap (map (λ (x : Hit). x.provider)) (
          ap (keep (has_rank hit_rank h.priority)) (sym e)
          ∙ keep-sort_by hit_rank h.priority hits) in
    inr (
      h.priority,
      All-sort_by hit_rank (λ x. h.priority ≤ hit_rank x) hits
          (subst (All (λ x. h.priority ≤ hit_rank x)) (sym e) least),
      same,
      take_best_head h rest,
      refl,
    )

-- The allowed providers of a model are those of all enabled routes that match it at the best
-- priority among the matching routes, in the order of the table; none are allowed, and the table
-- does not apply, exactly when no route matches.
pub providers_for_model_lem :
    (matches : Text → Text → Option Bool) (routes : List ModelRoute) (name : Text)
    → RoutesTo
        (collect_hits matches (trim_space name) routes)
        (providers_for_model matches routes name)
unfolding providers_for_model
providers_for_model_lem matches routes name =
    best_of-RoutesTo (collect_hits matches (trim_space name) routes)
      (sort_by hit_rank (collect_hits matches (trim_space name) routes)) refl
