-- ===== src/Gateway/Alias.antt =====
-- internal/gateway/model_alias.go: alias lookup and the chain of models that a request may try.
-- A map is the list of its entries in the order in which `range` visits them.
pub mod Chain
use subport.Prelude.{
  ℕ, zero, suc, ◌+◌, ◌-◌, ◌*◌, ◌/◌, ◌%◌, ◌^◌, ◌≤◌, ◌<◌, String, ◌≡◌, refl, sym, ap, ◌∙◌, ◌≢◌, ◌↔◌,
  ◌⊎◌, inl, inr, Bool, true, false, ◌&&◌, ◌||◌, not, Option, none, some, List, [], ◌∷◌, ◌++◌, map,
  arith, str_eq, eq_iff, eq_refl, ltb, leb, ◌==◌, if◌then◌else◌, Bool-cases, Option-cases, ltb→lt,
  lt→ltb, leb→le, ==_iff, tests, length, get_elem?, length-append, All, All-append, get_elem?-All,
  keep,
}
use subport.Prelude.Int.{
  ℤ, pos, negsuc, pos_part, neg_part, sub_ℕ, ◌+ℤ◌, ◌-ℤ◌, ◌*ℤ◌, ◌≤ℤ◌, ltb_ℤ, +ℤ_parts, -ℤ_parts,
  eq_of_parts, int_laws,
}
use subport.Prelude.Int64.{is_positive}
use subport.Prelude.Text.{Text, to_lower, trim_space, text_eq, is_empty}

pub record ModelAliasConfig : Type 0 where
  pub aliases : List (Text × Text)
  pub fallbacks : List (Text × List Text)
  pub max_fallback_tries : ℤ

-- The nil maps of a config are empty lists here.
unfoldable pub normalize_model_alias_config : ModelAliasConfig → ModelAliasConfig
normalize_model_alias_config cfg = record cfg {
  max_fallback_tries = if is_positive cfg.max_fallback_tries then cfg.max_fallback_tries else pos 2;
}

-- m[k]
unfoldable pub map_get {ℓ} : {A : Type ℓ} → Text → List (Text × A) → Option A
unfolding text_eq
map_get k [] = none
map_get k ((j, v) ∷ m) = if text_eq j k then some v else map_get k m

-- An alias whose target is not blank.
abbrev pub target_of : Option Text → Option Text
target_of none = none
target_of (some v) = if is_empty (trim_space v) then none else some (trim_space v)

abbrev pub or_else {ℓ} : {A : Type ℓ} → Option A → Option A → Option A
or_else none y = y
or_else (some x) y = some x

-- The case-insensitive pass; strings.EqualFold is equality of the lower case on ASCII.
unfoldable pub fold_lookup : Text → List (Text × Text) → Option Text
unfolding to_lower trim_space text_eq is_empty
fold_lookup low [] = none
fold_lookup low ((k, v) ∷ m) =
    let rest = fold_lookup low m in
    if text_eq (to_lower k) low then or_else (target_of (some v)) rest else rest

unfoldable pub resolve_model_alias : ModelAliasConfig → Text → Text
unfolding map_get fold_lookup
resolve_model_alias cfg requested =
    let name = trim_space requested in
    if is_empty name
    then name
    else elim (or_else (target_of (map_get name cfg.aliases))
        (fold_lookup (to_lower name) cfg.aliases)) [ none ↦ name | some v ↦ v ]

unfoldable pub seen_key : Text → List Text → Bool
unfolding text_eq
seen_key k [] = false
seen_key k (j ∷ js) = text_eq j k || seen_key k js

-- A fallback after one nested alias step.
unfoldable pub nested : ModelAliasConfig → Text → Text
unfolding map_get
nested cfg m = elim (target_of (map_get m cfg.aliases)) [ none ↦ m | some v ↦ v ]

-- The loop over the fallbacks: the keys seen, how many more fit, and what is appended.
unfoldable pub chain_rest : ModelAliasConfig → List Text → ℕ → List Text → List Text
unfolding nested seen_key to_lower trim_space
chain_rest cfg seen room [] = []
chain_rest cfg seen room (raw ∷ rest) =
    let skip = chain_rest cfg seen room rest in
    let m2 = nested cfg (trim_space raw) in
    let next = chain_rest cfg (to_lower m2 ∷ seen) (room - 1) rest in
    if is_empty (trim_space raw)
    then skip
    else if seen_key (to_lower m2) seen
    then skip
    else if leb room 1
    then m2 ∷ []
    else m2 ∷ next

abbrev pub max_extra : ModelAliasConfig → ℕ
max_extra cfg = if is_positive cfg.max_fallback_tries then pos_part cfg.max_fallback_tries else 2

abbrev or_empty : Option (List Text) → List Text
or_empty none = []
or_empty (some l) = l

abbrev pub by_any {ℓ} : {A : Type ℓ} → List A → List A → List A
by_any [] y = y
by_any (x ∷ xs) y = x ∷ xs

-- The fallbacks of the canonical name, else of the name as it was requested.
unfoldable pub fallbacks_of : ModelAliasConfig → Text → Text → List Text
unfolding map_get
fallbacks_of cfg canonical requested =
    by_any (or_empty (map_get canonical cfg.fallbacks)) (or_empty (map_get requested cfg.fallbacks))

unfoldable pub model_attempt_chain : ModelAliasConfig → Text → List Text
unfolding resolve_model_alias chain_rest fallbacks_of
model_attempt_chain cfg requested =
    let canonical = resolve_model_alias cfg requested in
    canonical
    ∷ chain_rest cfg (to_lower canonical ∷ []) (max_extra cfg)
        (fallbacks_of cfg canonical requested)
