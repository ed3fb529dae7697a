-- ===== src/Gateway/Routing.antt =====
-- internal/gateway/routing.go. The regular expression engine is a parameter: `matches p name` is
-- none where regexp.Compile refuses p, and else MatchString.
pub mod Best
use subport.Prelude.{
  ℕ, zero, suc, ◌+◌, ◌-◌, ◌*◌, ◌/◌, ◌%◌, ◌^◌, ◌≤◌, ◌<◌, String, ◌≡◌, refl, sym, ap, ◌∙◌, ◌≢◌, ◌↔◌,
  ◌⊎◌, inl, inr, Bool, true, false, ◌&&◌, ◌||◌, not, Option, none, some, List, [], ◌∷◌, ◌++◌, map,
  arith, str_eq, eq_iff, eq_refl, ltb, leb, ◌==◌, if◌then◌else◌, Bool-cases, Option-cases, ltb→lt,
  lt→ltb, leb→le, ==_iff, tests, length, get_elem?, length-append, All, All-append, get_elem?-All,
  keep,
}
use subport.Prelude.Int.{
  ℤ, pos, negsuc, pos_part, neg_part, sub_ℕ, ◌+ℤ◌, ◌-ℤ◌, ◌*ℤ◌, ◌≤ℤ◌, ltb_ℤ, +ℤ_parts, -ℤ_parts,
  eq_of_parts, int_laws,
}
use subport.Prelude.Sorting.{sort_by}
use subport.Prelude.Text.{Text, codes, trim_space, to_lower, text_eq, is_empty}
use subport.Gateway.Health.{ModelRoute}

pub record Hit : Type 0 where
  pub priority : ℕ
  pub provider : Text

abbrev pub hit_rank : Hit → ℕ
hit_rank h = h.priority

-- The loop over the sorted hits: those of the best priority.
unfoldable pub take_best : ℕ → List Hit → List Text
take_best best [] = []
take_best best (h ∷ rest) =
    let more = take_best best rest in if h.priority == best then h.provider ∷ more else []

unfoldable pub provider_in : Text → List Text → Bool
unfolding text_eq
provider_in p [] = false
provider_in p (q ∷ rest) = text_eq p q || provider_in p rest

-- The allowed providers, and whether any route matched.
abbrev pub best_of : List Hit → List Text × Bool
best_of [] = ([], false)
best_of (h ∷ rest) = (take_best h.priority (h ∷ rest), true)

module _ (matches : Text → Text → Option Bool) where
  -- The guards of the loop body.
  abbrev pub is_hit : Text → ModelRoute → Bool
  is_hit name r =
      if not r.enabled || is_empty (trim_space r.pattern) || is_empty (trim_space r.provider)
      then false
      else elim (matches (codes "(?i)" ++ r.pattern) name) [ none ↦ false | some b ↦ b ]

  unfoldable pub collect_hits : Text → List ModelRoute → List Hit
  collect_hits name [] = []
  collect_hits name (r ∷ rest) =
      let hits = collect_hits name rest in
      if is_hit name r
      then record { priority = r.priority; provider = to_lower (trim_space r.provider) } ∷ hits
      else hits

  unfoldable pub providers_for_model : List ModelRoute → Text → List Text × Bool
  unfolding collect_hits sort_by take_best
  providers_for_model routes model_name =
      best_of (sort_by hit_rank (collect_hits (trim_space model_name) routes))

  unfoldable pub account_eligible_for_model : List ModelRoute → Text → Text → Bool
  unfolding providers_for_model provider_in
  account_eligible_for_model routes provider model_name =
      let (allowed, matched) = providers_for_model routes model_name in
      let p = to_lower (trim_space provider) in
      if not matched then true else if provider_in p allowed then true else text_eq p (codes "mock")
