-- ===== src/Gateway/Credentials/Refresh/Renewed.antt =====
-- What a refresh of internal/gateway/token_refresh.go leaves in the credential cache.
use subport.Prelude.{
  ◌≡◌, refl, ap, ◌∙◌, ◌⊎◌, inl, inr, false, Option, none, some, List, [], ◌∷◌, arith, Bool-cases,
  Option-cases,
}
use subport.Prelude.Int.{ℤ}
use subport.Prelude.Text.{Text, text_eq, eq_of_text_eq, trim_space}
-- ' ', \t, \n, \r
use subport.Gateway.Credentials.{
  TokenPair, Vault, find_pair, put_pair, set_account_credential, pair_for, trim_blank,
  cached_refresh_token, claude_set_runtime, codex_set_runtime, antigravity_set_runtime,
}
use subport.Gateway.Openai.{Exchange}
use subport.Gateway.Credentials.Tokens.{
  TokenResponse, Outside, hydrate_runtime_from_account, claude_refresh_with_token,
  codex_refresh_with_token,
}
use subport.Gateway.Credentials.Refresh.{
  Persister, Save, TokenRefreshResult, Work, refresh_provider_token, refresh_account,
  force_refresh_account, refreshable, keep_tokens, failed_with, result_of,
}

-- An account reads what was put for it last, and any other account what it read before.
pub find_pair-put_pair :
    (id j : Text) (p : TokenPair) (l : List (Text × TokenPair))
    → text_eq id j ≡ false
    → find_pair j (put_pair id p l) ≡ find_pair j l
unfolding find_pair put_pair
find_pair-put_pair id j p [] other = rw other refl
find_pair-put_pair id j p ((k, q) ∷ rest) other =
    let later : find_pair j (put_pair id p rest) ≡ find_pair j rest =
      find_pair-put_pair id j p rest other in
    elim (Bool-cases (text_eq k id)) [
      | inl is_k ↦
          let apart : text_eq k j ≡ false =
            ap (λ x. text_eq x j) (eq_of_text_eq k id is_k) ∙ other in
          rw (is_k, apart) refl
      | inr not_k ↦ rw (not_k, later) refl
    ]

-- The runtime of a provider is not the cache.
hydrate-creds :
    (out : Outside) (now : ℤ) (id provider : Text) (v : Vault)
    → (hydrate_runtime_from_account out now id provider v).creds ≡ v.creds
unfolding hydrate_runtime_from_account claude_set_runtime codex_set_runtime antigravity_set_runtime
hydrate-creds out now id provider v = ground arith

provider_token-creds :
    (out : Outside) (now : ℤ) (provider rt : Text) (x : Exchange TokenResponse) (v : Vault)
    → (refresh_provider_token out now provider rt x v).1.creds ≡ v.creds
unfolding refresh_provider_token claude_refresh_with_token codex_refresh_with_token
    claude_set_runtime codex_set_runtime
provider_token-creds out now provider rt x v = ground arith

set_account_credential-other :
    (id j : Text) (p : TokenPair) (v : Vault)
    → text_eq (trim_blank id) j ≡ false
    → find_pair j (set_account_credential id p v).creds ≡ find_pair j v.creds
unfolding set_account_credential
set_account_credential-other id j p v other =
    ground (arith, find_pair-put_pair (trim_blank id) j p v.creds other)

keep_tokens-other :
    (out : Outside) (now : ℤ) (persist : Persister) (id provider extra j : Text) (t : TokenResponse)
    (w : Work)
    → text_eq (trim_blank id) j ≡ false
    → find_pair j (keep_tokens out now persist id provider extra t w).1.vault.creds
      ≡ find_pair j w.vault.creds
keep_tokens-other out now persist id provider extra j t w other =
    ap (find_pair j) (hydrate-creds out now id provider _)
    ∙ set_account_credential-other id j _ w.vault other

-- What refresh_account does with the answer of the provider.
abbrev after_provider :
    Outside
    → ℤ
    → Persister
    → Text
    → Text
    → Text
    → List Save
    → Text ⊎ TokenResponse
    → Vault
    → TokenRefreshResult × Work
after_provider out now persist id provider extra saves r v = elim r [
  | inl e ↦ (failed_with out id provider e, record { vault = v; saves = saves })
  | inr t ↦
      let kept =
        keep_tokens out now persist id provider extra t (record { vault = v; saves = saves }) in
      (result_of out id provider kept.0, kept.1)
]

after_provider-other :
    (out : Outside) (now : ℤ) (persist : Persister) (id provider extra j : Text) (saves : List Save)
    (r : Text ⊎ TokenResponse) (v : Vault)
    → text_eq (trim_blank id) j ≡ false
    → find_pair j (after_provider out now persist id provider extra saves r v).1.vault.creds
      ≡ find_pair j v.creds
after_provider-other out now persist id provider extra j saves (inl e) v other = refl
after_provider-other out now persist id provider extra j saves (inr t) v other =
    keep_tokens-other out now persist id provider extra j t (record { vault = v; saves = saves })
      other

-- A refresh writes the entry of its account and no other, whatever the provider and the store answer.
pub refresh_account-other :
    (out : Outside) (now : ℤ) (persist : Persister) (id provider rt extra j : Text) (w : Work)
    → text_eq (trim_blank id) j ≡ false
    → find_pair j (refresh_account out now persist id provider rt extra w).1.vault.creds
      ≡ find_pair j w.vault.creds
unfolding refresh_account
refresh_account-other out now persist id provider rt extra j w other =
    let x : (Text ⊎ TokenResponse) × Vault =
      refresh_provider_token out now provider rt (out.exchange id) w.vault in
    after_provider-other out now persist id provider extra j w.saves x.0 x.1 other
    ∙ ap (find_pair j) (provider_token-creds out now provider rt (out.exchange id) w.vault)

-- A forced refresh of an account leaves the tokens of every other account, on every branch.
pub force_refresh_account-other :
    (out : Outside) (now : ℤ) (persist : Option Persister) (id j : Text) (w : Work)
    → text_eq (trim_blank (trim_space id)) j ≡ false
    → find_pair j (force_refresh_account out now persist id w).1.vault.creds
      ≡ find_pair j w.vault.creds
unfolding force_refresh_account
force_refresh_account-other out now none id j w other = refl
force_refresh_account-other out now (some persist) id j w other =
    elim (Option-cases (refreshable out persist (trim_space id))) [
      | inl is_none ↦ rw (is_none, force_refresh_account) refl
      | inr (provider, is_some) ↦
          let one =
            refresh_account-other out now persist (trim_space id) provider
              (cached_refresh_token (trim_space id) w.vault)
              (pair_for (trim_space id) w.vault).extra_json j w other in
          rw (is_some, force_refresh_account) ground (arith, one)
    ]
