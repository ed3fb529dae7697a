-- ===== src/Gateway/Credentials/Refresh.antt =====
-- internal/gateway/token_refresh.go: the pass of the background loop and the refresh of one account.
-- The order of a pass is that of the cache, with one `now` for all of it. The persister is the
-- store's; the calls that it gets are part of the state. The ticker and the log lines are left out.
pub mod Renewed
use subport.Prelude.{
  ℕ, zero, suc, ◌+◌, ◌-◌, ◌*◌, ◌/◌, ◌%◌, ◌^◌, ◌≤◌, ◌<◌, String, ◌≡◌, refl, sym, ap, ◌∙◌, ◌≢◌, ◌↔◌,
  ◌⊎◌, inl, inr, Bool, true, false, ◌&&◌, ◌||◌, not, Option, none, some, List, [], ◌∷◌, ◌++◌, map,
  arith, str_eq, eq_iff, eq_refl, ltb, leb, ◌==◌, if◌then◌else◌, Bool-cases, if_rule, Option-cases,
  ltb→lt, lt→ltb, leb→le, ==_iff, tests, length, get_elem?, length-append, All, All-append,
  get_elem?-All, keep,
}
use subport.Prelude.Int.{
  ℤ, pos, negsuc, pos_part, neg_part, sub_ℕ, ◌+ℤ◌, ◌-ℤ◌, ◌*ℤ◌, ◌≤ℤ◌, ltb_ℤ, +ℤ_parts, -ℤ_parts,
  eq_of_parts, int_laws,
}
use subport.Prelude.Text.{
  Text, codes, text_eq, text_eq_refl, eq_of_text_eq, trim_space, has_prefix, is_empty,
}
use subport.Prelude.Json.{Json, text_of, member}
use subport.Prelude.Int64.{is_positive, wrap64}
use subport.Gateway.Account.{second}
-- ' ', \t, \n, \r
use subport.Gateway.Credentials.{
  TokenPair, no_tokens, Runtime, Vault, find_pair, put_pair, set_account_credential, pair_for,
  cached_refresh_token, Snapshot, snapshots_of, unless_empty, after_seconds,
}
use subport.Gateway.Openai.{Exchange}
use subport.Gateway.Credentials.Tokens.{
  TokenResponse, Outside, hydrate_runtime_from_account, needs_refresh, claude_refresh_with_token,
  codex_refresh_with_token, antigravity_refresh_with_token,
}

-- CredentialPersister
pub record Persister : Type 0 where
  pub account_provider : Text → Option Text
  pub persist_refreshed_tokens : Text → Text → Text → Text → Option Text

-- A call of PersistRefreshedTokens.
pub record Save : Type 0 where
  pub account_id : Text
  pub access : Text
  pub refresh : Text
  pub expires_at : Text

pub record TokenRefreshResult : Type 0 where
  pub account : Text
  pub provider : Text
  pub refreshed : Bool
  pub skipped : Bool
  pub failure : Text

pub record Work : Type 0 where
  pub vault : Vault
  pub saves : List Save

module _ (out : Outside) where
  unfoldable pub refresh_provider_token :
      ℤ → Text → Text → Exchange TokenResponse → Vault → (Text ⊎ TokenResponse) × Vault
  refresh_provider_token now provider rt x v =
      if text_eq provider (codes "claude")
      then claude_refresh_with_token out now rt x v
      else if text_eq provider (codes "codex")
      then codex_refresh_with_token out now rt x v
      else if text_eq provider (codes "antigravity")
      then (antigravity_refresh_with_token out rt x, v)
      else (inl (codes "unsupported provider " ++ out.quoted provider), v)

  -- The cache, the runtime and the store after a refresh that has brought tokens, and the text of the
  -- store's error.
  abbrev pub keep_tokens :
      ℤ → Persister → Text → Text → Text → TokenResponse → Work → Option Text × Work
  keep_tokens now persist id provider extra t w =
      let expires_at : Text =
        if is_positive t.expires_in
        then out.format_rfc3339 (after_seconds now t.expires_in)
        else [] in
      let pair : TokenPair = record {
        access_token = t.access;
        refresh_token = t.renewed;
        extra_json = extra;
        expires_at = expires_at;
      } in
      (
        persist.persist_refreshed_tokens id t.access t.renewed expires_at,
        record {
          vault =
              hydrate_runtime_from_account out now id provider
                (set_account_credential id pair w.vault);
          saves =
              w.saves
              ++ record {
                account_id = id;
                access = t.access;
                refresh = t.renewed;
                expires_at = expires_at;
              }
                ∷ [];
        },
      )

  abbrev pub failed_with : Text → Text → Text → TokenRefreshResult
  failed_with id provider e = record {
    account = id;
    provider = provider;
    refreshed = false;
    skipped = false;
    failure = e;
  }

  abbrev pub skip_of : Text → Text → TokenRefreshResult
  skip_of id provider = record {
    account = id;
    provider = provider;
    refreshed = false;
    skipped = true;
    failure = [];
  }

  abbrev pub result_of : Text → Text → Option Text → TokenRefreshResult
  result_of id provider (some e) = failed_with id provider e
  result_of id provider none = record {
    account = id;
    provider = provider;
    refreshed = true;
    skipped = false;
    failure = [];
  }

  -- The refresh of an account whose provider and refresh token are known.
  unfoldable pub refresh_account :
      ℤ → Persister → Text → Text → Text → Text → Work → TokenRefreshResult × Work
  refresh_account now persist id provider rt extra w =
      let x = refresh_provider_token now provider rt (out.exchange id) w.vault in
      elim x.0 [
        | inl e ↦ (failed_with id provider e, record w { vault = x.1 })
        | inr t ↦
            let kept = keep_tokens now persist id provider extra t (record w { vault = x.1 }) in
            (result_of id provider kept.0, kept.1)
      ]

  -- The provider of an account, where it is one whose tokens are refreshed.
  unfoldable pub refreshable : Persister → Text → Option Text
  refreshable persist id = elim (persist.account_provider id) [
    | none ↦ none
    | some p ↦
        if text_eq p (codes "claude")
          || text_eq p (codes "codex")
          || text_eq p (codes "antigravity")
        then some p
        else none
  ]

  unfoldable pub force_refresh_account :
      ℤ → Option Persister → Text → Work → TokenRefreshResult × Work
  force_refresh_account now none id w = (
    failed_with (trim_space id) [] (codes "unsupported or unknown account provider for refresh"),
    w,
  )
  force_refresh_account now (some persist) id w = elim (refreshable persist (trim_space id)) [
    | none ↦ (
      failed_with (trim_space id) [] (codes "unsupported or unknown account provider for refresh"),
      w,
    )
    | some provider ↦
        if is_empty (cached_refresh_token (trim_space id) w.vault)
        then (failed_with (trim_space id) provider (codes "no refresh token cached for account"), w)
        else refresh_account now persist (trim_space id) provider
            (cached_refresh_token (trim_space id) w.vault)
            (pair_for (trim_space id) w.vault).extra_json w
  ]

  -- A turn of the loop for an account of a provider that is refreshed.
  unfoldable pub refresh_snapshot :
      ℤ → Persister → Text → Snapshot → Work → TokenRefreshResult × Work
  refresh_snapshot now persist provider snap w =
      if not (needs_refresh out snap.expires_at now)
      then (skip_of snap.account_id provider, w)
      else if is_empty (cached_refresh_token snap.account_id w.vault)
      then (skip_of snap.account_id provider, w)
      else refresh_account now persist snap.account_id provider
          (cached_refresh_token snap.account_id w.vault) snap.extra_json w

  unfoldable pub refresh_all : ℤ → Persister → List Snapshot → Work → List TokenRefreshResult × Work
  refresh_all now persist [] w = ([], w)
  refresh_all now persist (snap ∷ snaps) w =
      let skipped = refresh_all now persist snaps w in
      elim (refreshable persist snap.account_id) [
        | none ↦ skipped
        | some provider ↦
            let r = refresh_snapshot now persist provider snap w in
            let rest = refresh_all now persist snaps r.1 in (r.0 ∷ rest.0, rest.1)
      ]

  unfoldable pub refresh_account_tokens :
      ℤ → Option Persister → Work → List TokenRefreshResult × Work
  refresh_account_tokens now none w = ([], w)
  refresh_account_tokens now (some persist) w =
      refresh_all now persist (snapshots_of w.vault.creds) w

pub record TokenRefreshStatus : Type 0 where
  pub last_run_at : Option ℤ
  pub renewals : ℕ
  pub skips : ℕ
  pub errors : ℕ
  pub results : List TokenRefreshResult

abbrev pub count_result : TokenRefreshResult → TokenRefreshStatus → TokenRefreshStatus
count_result r st =
    if not (is_empty r.failure)
    then record st { errors = st.errors + 1 }
    else if r.refreshed
    then record st { renewals = st.renewals + 1 }
    else if r.skipped
    then record st { skips = st.skips + 1 }
    else st

abbrev pub count_results : List TokenRefreshResult → TokenRefreshStatus → TokenRefreshStatus
count_results [] st = st
count_results (r ∷ rs) st = count_results rs (count_result r st)

-- The status that the pass leaves; the one before it is forgotten.
unfoldable pub record_token_refresh_results : ℤ → List TokenRefreshResult → TokenRefreshStatus
record_token_refresh_results now results =
    count_results results
      (record { last_run_at = some now; renewals = 0; skips = 0; errors = 0; results = results })
