-- ===== src/Examples/Tokens.antt =====
-- Token refreshes: internal/gateway/token_refresh.go.
use subport.Prelude.{String, ◌≡◌, refl, true, false, none, some, [], ◌∷◌, if◌then◌else◌}
use subport.Prelude.Int.{pos, ◌+ℤ◌, ◌*ℤ◌}
use subport.Prelude.Text.{codes, text_eq, trim_left, trim_right, is_space, trim_space, is_empty}
use subport.Prelude.Int64.{wrap64}
-- ' ', \t, \n, \r
use subport.Gateway.Errors.{plain, message}
use subport.Gateway.Openai.{unreachable, answered}
use subport.Gateway.Credentials.{
  TokenPair, Runtime, Vault, credential_presence_for, set_account_credential, pair_for, find_pair,
  put_pair, trim_blank, cut_left, cut_right, claude_set_runtime,
}
use subport.Gateway.Credentials.Tokens.{
  TokenResponse, Outside, claude_refresh_with_token, hydrate_runtime_from_account,
}
use subport.Gateway.Credentials.Refresh.{
  Persister, TokenRefreshResult, Work, force_refresh_account, refreshable, refresh_account,
  refresh_provider_token,
}

abbrev idle : Runtime
idle = record { access = []; refresh = []; owner = []; expires = none }

abbrev pair : String → TokenPair
pair rt = record {
  access_token = codes "old";
  refresh_token = codes rt;
  extra_json = [];
  expires_at = codes "soon";
}

-- `a` is answered, `b` is not; both are accounts of claude.
abbrev work : Work
work = record {
  vault = record {
    creds = (codes "a", pair "r") ∷ (codes "b", pair "r") ∷ (codes "c", pair " ") ∷ [];
    claude = idle;
    codex = idle;
    antigravity = idle;
  };
  saves = [];
}

abbrev fresh_tokens : TokenResponse
fresh_tokens = record { failure = none; access = codes "new"; renewed = []; expires_in = pos 3600 }

abbrev outside : Outside
outside = record {
  decode = λ _. none;
  parse_rfc3339 = λ s. if text_eq s (codes "soon") then some (pos 5) else none;
  parse_rfc3339_nano = λ _. none;
  format_rfc3339 = λ _. codes "later";
  env_codex_account = [];
  file_codex_account = none;
  auth_codex_account = [];
  quoted = λ s. s;
  exchange = λ id.
      if text_eq id (codes "a")
      then answered 200 [] fresh_tokens
      else unreachable (plain (codes "down"));
}

abbrev bridge : Persister
bridge = record {
  account_provider = λ _. some (codes "claude");
  persist_refreshed_tokens = λ _ _ _ _. none;
}

abbrev forced : String → TokenRefreshResult × Work
forced id = force_refresh_account outside (pos 0) (some bridge) (codes id) work

-- The account that is answered is refreshed, and keeps its refresh token.
force_refreshed :
    ((forced "a").0.refreshed ≡ true)
    × ((pair_for (codes "a") (forced "a").1.vault).refresh_token ≡ codes "r")
unfolding force_refresh_account refreshable refresh_account refresh_provider_token is_empty
    trim_space text_eq pair_for find_pair claude_refresh_with_token hydrate_runtime_from_account
    claude_set_runtime set_account_credential put_pair trim_blank cut_left cut_right trim_left
    trim_right is_space wrap64 ◌+ℤ◌ ◌*ℤ◌ message
force_refreshed = (refl, refl)

force_down : ((forced "b").0.failure ≡ codes "down") × ((forced "b").1.saves ≡ [])
unfolding force_refresh_account refreshable refresh_account refresh_provider_token is_empty
    trim_space text_eq pair_for find_pair claude_refresh_with_token hydrate_runtime_from_account
    claude_set_runtime set_account_credential put_pair trim_blank cut_left cut_right trim_left
    trim_right is_space wrap64 ◌+ℤ◌ ◌*ℤ◌ message
force_down = (refl, refl)

-- An account that has blanks for tokens reads as one without.
blank_presence : (credential_presence_for (codes " c ") work.vault).has_refresh ≡ false
unfolding credential_presence_for is_empty subport.Gateway.Credentials.trim_blank
    subport.Gateway.Credentials.cut_right subport.Gateway.Credentials.cut_left
    subport.Gateway.Credentials.find_pair text_eq
blank_presence = refl
