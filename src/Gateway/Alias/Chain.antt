-- ===== src/Gateway/Alias/Chain.antt =====
-- The chain of models is bounded and tries no model twice.
use subport.Prelude.{
  ℕ, ◌+◌, ◌-◌, ◌≤◌, ◌<◌, ◌≡◌, refl, false, List, [], ◌∷◌, arith, leb, if_rule, length,
}
use subport.Prelude.Text.{Text, to_lower, trim_space, is_empty}
use subport.Gateway.Alias.{
  ModelAliasConfig, resolve_model_alias, seen_key, nested, chain_rest, max_extra, fallbacks_of,
  model_attempt_chain,
}

length-chain_rest :
    (cfg : ModelAliasConfig) (seen : List Text) (room : ℕ) (fb : List Text)
    → 0 < room
    → length (chain_rest cfg seen room fb) ≤ room
unfolding chain_rest
length-chain_rest cfg seen room [] h = omega arith
length-chain_rest cfg seen room (raw ∷ rest) h = ground (
  arith,
  length-chain_rest cfg seen room rest h,
  length-chain_rest cfg (to_lower (nested cfg (trim_space raw)) ∷ seen) (room - 1) rest,
)

-- No name of the list has a key in `seen`, nor the key of an earlier one.
abbrev pub AllFresh : List Text → List Text → Type 0
AllFresh seen [] = Unit
AllFresh seen (m ∷ ms) = (seen_key (to_lower m) seen ≡ false) × AllFresh (to_lower m ∷ seen) ms

chain_rest-AllFresh :
    (cfg : ModelAliasConfig) (seen : List Text) (room : ℕ) (fb : List Text)
    → AllFresh seen (chain_rest cfg seen room fb)
unfolding chain_rest
chain_rest-AllFresh cfg seen room [] = tt
chain_rest-AllFresh cfg seen room (raw ∷ rest) =
    let m : Text = nested cfg (trim_space raw) in
    let skip : AllFresh seen (chain_rest cfg seen room rest) =
      chain_rest-AllFresh cfg seen room rest in
    let next : AllFresh (to_lower m ∷ seen) (chain_rest cfg (to_lower m ∷ seen) (room - 1) rest) =
      chain_rest-AllFresh cfg (to_lower m ∷ seen) (room - 1) rest in
    if_rule (AllFresh seen) (is_empty (trim_space raw)) _ _ (λ _. skip)
      (λ _.
        if_rule (AllFresh seen) (seen_key (to_lower m) seen) _ _ (λ _. skip)
          (λ new. if_rule (AllFresh seen) (leb room 1) _ _ (λ _. (new, tt)) (λ _. (new, next))))

max_extra_pos : (cfg : ModelAliasConfig) → 0 < max_extra cfg
max_extra_pos cfg = ground arith

-- The models that a request may try are its canonical model and at most `max_extra` fallbacks, and
-- no two of them are the same up to case.
pub model_attempt_chain-AllFresh :
    (cfg : ModelAliasConfig) (requested : Text)
    → AllFresh [] (model_attempt_chain cfg requested)
      × (length (model_attempt_chain cfg requested) ≤ 1 + max_extra cfg)
unfolding model_attempt_chain
model_attempt_chain-AllFresh cfg requested =
    let canonical = resolve_model_alias cfg requested in
    let fb = fallbacks_of cfg canonical requested in
    (
      (refl, chain_rest-AllFresh cfg (to_lower canonical ∷ []) (max_extra cfg) fb),
      omega (
        arith,
        length-chain_rest cfg (to_lower canonical ∷ []) (max_extra cfg) fb (max_extra_pos cfg),
      ),
    )
