-- ===== src/Gateway/Credentials/Tokens.antt =====
-- The exchanges of internal/gateway/token_refresh.go with the providers, with what they call of
-- account_creds.go, codex_oauth.go and antigravity_oauth.go. An exchange is what the HTTP client
-- returns; a request that cannot be built reads as one that got no response.
use subport.Prelude.{
  ℕ, ◌*◌, String, ◌⊎◌, inl, inr, Bool, true, ◌&&◌, not, Option, none, some, List, [], ◌∷◌, ◌++◌,
  leb, if◌then◌else◌,
}
use subport.Prelude.Int.{ℤ, pos, ◌+ℤ◌, ltb_ℤ}
use subport.Prelude.Text.{Text, codes, text_eq, trim_space, is_empty}
use subport.Prelude.Json.{Json, member}
use subport.Gateway.Account.{second}
-- ' ', \t, \n, \r
use subport.Gateway.Credentials.{
  TokenPair, Vault, find_pair, unless_empty, claude_set_runtime, codex_set_runtime,
  antigravity_set_runtime,
}
use subport.Gateway.Errors.{message, shorten}
use subport.Gateway.Openai.{Exchange, unreachable, answered, decimal}

-- v.(string), with its ok
abbrev pub string_in : Json → Option Text
string_in (Json.str s) = some s
string_in _ = none

abbrev pub first_string : Json → List String → Text
first_string j [] = []
first_string j (k ∷ ks) =
    let later = first_string j ks in elim (string_in (member k j)) [ none ↦ later | some s ↦ s ]

abbrev pub first_named : Json → List String → Text
first_named j [] = []
first_named j (k ∷ ks) =
    let later = first_named j ks in
    elim (string_in (member k j)) [
      | none ↦ later
      | some s ↦ if is_empty (trim_space s) then later else trim_space s
    ]

-- What json.Unmarshal makes of the body of a token response; `failure` is the text of its error.
pub record TokenResponse : Type 0 where
  pub failure : Option Text
  pub access : Text
  pub renewed : Text
  pub expires_in : ℤ

-- What the process reads: the JSON and time parsers, fmt's %q, the environment and the files of codex,
-- and the answer to the refresh of an account. The file's account id is none where it cannot be read.
pub record Outside : Type 0 where
  pub decode : Text → Option Json
  pub parse_rfc3339 : Text → Option ℤ
  pub parse_rfc3339_nano : Text → Option ℤ
  pub format_rfc3339 : ℤ → Text
  pub env_codex_account : Text
  pub file_codex_account : Option Text
  pub auth_codex_account : Text
  pub quoted : Text → Text
  pub exchange : Text → Exchange TokenResponse

abbrev pub refresh_before_expiry : ℕ
refresh_before_expiry = 30 * (60 * second)

abbrev pub token_of : Text → Exchange TokenResponse → Text ⊎ TokenResponse
token_of label (unreachable e) = inl (message e)
token_of label (answered status raw body) =
    if leb 300 status
    then inl (label ++ decimal status ++ codes ": " ++ shorten 200 (0xe2 ∷ 0x80 ∷ 0xa6 ∷ []) raw)
    else elim body.failure [ some e ↦ inl e | none ↦ inr body ]

abbrev pub renew : Text → TokenResponse → TokenResponse
renew rt t = record t { renewed = unless_empty t.renewed rt }

module _ (out : Outside) where
  unfoldable pub chatgpt_account_id_from_extra : Text → Text
  chatgpt_account_id_from_extra extra = if is_empty extra then [] else elim (out.decode extra) [
    | none ↦ []
    | some j ↦ first_string j ("chatgpt_account_id" ∷ "account_id" ∷ "chatgptAccountId" ∷ [])
  ]

  unfoldable pub antigravity_project_id_from_extra : Text → Text
  antigravity_project_id_from_extra extra = if is_empty extra then [] else elim (out.decode extra) [
    | none ↦ []
    | some j ↦ first_named j ("project_id" ∷ "antigravity_project_id" ∷ "projectId" ∷ [])
  ]

  -- HydrateRuntimeFromAccount for a cached pair that has a token.
  abbrev pub hydrate_with : ℤ → Text → TokenPair → Vault → Vault
  hydrate_with now provider p v =
      if text_eq provider (codes "claude")
      then claude_set_runtime now p.access_token p.refresh_token (pos 0) v
      else if text_eq provider (codes "codex")
      then codex_set_runtime now p.access_token p.refresh_token
          (chatgpt_account_id_from_extra p.extra_json) (pos 0) v
      else if text_eq provider (codes "antigravity")
      then antigravity_set_runtime now p.access_token p.refresh_token
          (antigravity_project_id_from_extra p.extra_json) (pos 0) v
      else v

  unfoldable pub hydrate_runtime_from_account : ℤ → Text → Text → Vault → Vault
  hydrate_runtime_from_account now id provider v = elim (find_pair id v.creds) [
    | none ↦ v
    | some p ↦
        if is_empty p.access_token && is_empty p.refresh_token
        then v
        else hydrate_with now provider p v
  ]

  unfoldable pub load_codex_account_id : Vault → Text
  load_codex_account_id v =
      let file : Text = elim out.file_codex_account [ none ↦ [] | some s ↦ trim_space s ] in
      if not (is_empty (trim_space out.env_codex_account))
      then trim_space out.env_codex_account
      else if not (is_empty file)
      then file
      else unless_empty v.codex.owner out.auth_codex_account

  unfoldable pub needs_refresh : Text → ℤ → Bool
  needs_refresh expires_at now =
      let s = trim_space expires_at in
      let in_time : ℤ → Bool = λ t. not (ltb_ℤ (now +ℤ pos refresh_before_expiry) t) in
      if is_empty s then true else elim (out.parse_rfc3339 s) [
        | some t ↦ in_time t
        | none ↦ elim (out.parse_rfc3339_nano s) [ none ↦ true | some t ↦ in_time t ]
      ]

  unfoldable pub claude_refresh_with_token :
      ℤ → Text → Exchange TokenResponse → Vault → (Text ⊎ TokenResponse) × Vault
  claude_refresh_with_token now rt x v = elim (token_of (codes "refresh failed: status ") x) [
    | inl e ↦ (inl e, v)
    | inr t ↦
        if is_empty t.access
        then (inl (codes "refresh returned empty access_token"), v)
        else (inr (renew rt t), claude_set_runtime now t.access (renew rt t).renewed t.expires_in v)
  ]

  unfoldable pub codex_refresh_with_token :
      ℤ → Text → Exchange TokenResponse → Vault → (Text ⊎ TokenResponse) × Vault
  codex_refresh_with_token now rt x v = elim (token_of (codes "codex token refresh status ") x) [
    | inl e ↦ (inl e, v)
    | inr t ↦
        if is_empty (trim_space t.access)
        then (inl (codes "codex token refresh returned empty access_token"), v)
        else (
          inr (renew rt t),
          codex_set_runtime now t.access (renew rt t).renewed (load_codex_account_id v) t.expires_in
              v,
        )
  ]

  unfoldable pub antigravity_refresh_with_token :
      Text → Exchange TokenResponse → Text ⊎ TokenResponse
  antigravity_refresh_with_token rt x =
      elim (token_of (codes "antigravity token refresh status ") x) [
        | inl e ↦ inl e
        | inr t ↦
            if is_empty (trim_space t.access)
            then inl (codes "antigravity token refresh returned empty access_token")
            else inr (renew rt t)
      ]
