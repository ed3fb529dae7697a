-- ===== src/Gateway/Credentials.antt =====
-- internal/gateway/account_creds.go, and the runtime tokens of claude_oauth.go, codex_oauth.go and
-- antigravity_oauth.go: the credentials an account has in the process. The cache is a Go map; the
-- order of the list is the order in which a range over it meets the entries. An instant is in
-- nanoseconds, `decode` is json.Unmarshal into a map, none where it fails.
pub mod Tokens
pub mod Refresh
use subport.Prelude.{
  ℕ, zero, suc, ◌+◌, ◌-◌, ◌*◌, ◌/◌, ◌%◌, ◌^◌, ◌≤◌, ◌<◌, String, ◌≡◌, refl, sym, ap, ◌∙◌, ◌≢◌, ◌↔◌,
  ◌⊎◌, inl, inr, Bool, true, false, ◌&&◌, ◌||◌, not, Option, none, some, List, [], ◌∷◌, ◌++◌, map,
  arith, str_eq, eq_iff, eq_refl, ltb, leb, ◌==◌, if◌then◌else◌, Bool-cases, if_rule, Option-cases,
  ltb→lt, lt→ltb, leb→le, ==_iff, tests, length, get_elem?, length-append, All, All-append,
  get_elem?-All, keep,
}
use subport.Prelude.Int.{
  ℤ, pos, negsuc, pos_part, neg_part, sub_ℕ, ◌+ℤ◌, ◌-ℤ◌, ◌*ℤ◌, ◌≤ℤ◌, ltb_ℤ, +ℤ_parts, -ℤ_parts,
  eq_of_parts, int_laws,
}
use subport.Prelude.Text.{
  Text, codes, text_eq, text_eq_refl, eq_of_text_eq, trim_space, has_prefix, is_empty,
}
use subport.Prelude.Json.{Json, text_of, member}
use subport.Prelude.Int64.{is_positive, wrap64}
use subport.Gateway.Account.{second}

-- ' ', \t, \n, \r
abbrev pub is_blank : ℕ → Bool
is_blank c = c == 32 || c == 9 || c == 10 || c == 13

unfoldable pub cut_left : Text → Text
cut_left [] = []
cut_left (c ∷ s) = let rest = cut_left s in if is_blank c then rest else c ∷ s

unfoldable pub cut_right : Text → Text
cut_right [] = []
cut_right (c ∷ s) = elim (cut_right s) [
  | [] ↦ if is_blank c then [] else c ∷ []
  | d ∷ r ↦ c ∷ d ∷ r
]

-- trimSpace of the package, which knows fewer blanks than strings.TrimSpace.
unfoldable pub trim_blank : Text → Text
trim_blank s = cut_right (cut_left s)

pub record TokenPair : Type 0 where
  pub access_token : Text
  pub refresh_token : Text
  pub extra_json : Text
  pub expires_at : Text

-- The value of a map at a missing key.
abbrev pub no_tokens : TokenPair
no_tokens = record { access_token = []; refresh_token = []; extra_json = []; expires_at = [] }

-- A provider's runtime tokens; `owner` is the AccountID of codex and the ProjectID of antigravity, and
-- claude has none.
pub record Runtime : Type 0 where
  pub access : Text
  pub refresh : Text
  pub owner : Text
  pub expires : Option ℤ

pub record Vault : Type 0 where
  pub creds : List (Text × TokenPair)
  pub claude : Runtime
  pub codex : Runtime
  pub antigravity : Runtime

unfoldable pub find_pair : Text → List (Text × TokenPair) → Option TokenPair
find_pair id [] = none
find_pair id ((j, p) ∷ rest) =
    let later = find_pair id rest in if text_eq j id then some p else later

unfoldable pub put_pair : Text → TokenPair → List (Text × TokenPair) → List (Text × TokenPair)
put_pair id p [] = (id, p) ∷ []
put_pair id p ((j, q) ∷ rest) =
    let later = put_pair id p rest in if text_eq j id then (j, p) ∷ rest else (j, q) ∷ later

unfoldable pub drop_pair : Text → List (Text × TokenPair) → List (Text × TokenPair)
drop_pair id [] = []
drop_pair id ((j, q) ∷ rest) =
    let later = drop_pair id rest in if text_eq j id then later else (j, q) ∷ later

unfoldable pub set_account_credential : Text → TokenPair → Vault → Vault
set_account_credential id p v =
    if is_empty (trim_blank id) then v else record v { creds = put_pair (trim_blank id) p v.creds }

unfoldable pub clear_account_credential : Text → Vault → Vault
clear_account_credential id v = record v { creds = drop_pair id v.creds }

unfoldable pub pair_for : Text → Vault → TokenPair
pair_for id v = elim (find_pair id v.creds) [ none ↦ no_tokens | some p ↦ p ]

abbrev pub cached_refresh_token : Text → Vault → Text
cached_refresh_token id v = (pair_for id v).refresh_token

pub record Snapshot : Type 0 where
  pub account_id : Text
  pub has_access_token : Bool
  pub expires_at : Text
  pub extra_json : Text

unfoldable pub snapshots_of : List (Text × TokenPair) → List Snapshot
snapshots_of [] = []
snapshots_of ((id, p) ∷ rest) =
    let later = snapshots_of rest in
    if is_empty (trim_blank p.refresh_token)
    then later
    else record {
      account_id = id;
      has_access_token = not (is_empty (trim_blank p.access_token));
      expires_at = p.expires_at;
      extra_json = p.extra_json;
    }
      ∷ later

pub record CredentialPresence : Type 0 where
  pub has_access : Bool
  pub has_refresh : Bool
  pub until : Text

abbrev pub absence : CredentialPresence
absence = record { has_access = false; has_refresh = false; until = [] }

unfoldable pub credential_presence_for : Text → Vault → CredentialPresence
credential_presence_for id v =
    if is_empty (trim_blank id) then absence else elim (find_pair (trim_blank id) v.creds) [
      | none ↦ absence
      | some p ↦ record {
        has_access = not (is_empty (trim_blank p.access_token));
        has_refresh = not (is_empty (trim_blank p.refresh_token));
        until = p.expires_at;
      }
    ]

abbrev pub has_account_access_token : Text → Vault → Bool
has_account_access_token id v =
    not (is_empty (trim_blank (pair_for (trim_blank id) v).access_token))

abbrev pub unless_empty : Text → Text → Text
unless_empty new old = if is_empty new then old else new

-- time.Now().Add(time.Duration(expiresIn) * time.Second)
abbrev pub after_seconds : ℤ → ℤ → ℤ
after_seconds now n = now +ℤ wrap64 (n *ℤ pos second)

abbrev pub expiry_after : ℤ → ℤ → Option ℤ → Option ℤ
expiry_after now n old = if is_positive n then some (after_seconds now n) else old

unfoldable pub claude_set_runtime : ℤ → Text → Text → ℤ → Vault → Vault
claude_set_runtime now access refresh n v = record v {
  claude = record {
    access = access;
    refresh = unless_empty refresh v.claude.refresh;
    owner = v.claude.owner;
    expires = expiry_after now n v.claude.expires;
  };
}

-- What codexSetRuntime and antigravitySetRuntime do to the tokens of their provider.
abbrev pub with_tokens : ℤ → Text → Text → Text → ℤ → Runtime → Runtime
with_tokens now access refresh owner n r = record {
  access = unless_empty access r.access;
  refresh = unless_empty refresh r.refresh;
  owner = unless_empty owner r.owner;
  expires = expiry_after now n r.expires;
}

unfoldable pub codex_set_runtime : ℤ → Text → Text → Text → ℤ → Vault → Vault
codex_set_runtime now access refresh owner n v = record v {
  codex = with_tokens now access refresh owner n v.codex;
}

unfoldable pub antigravity_set_runtime : ℤ → Text → Text → Text → ℤ → Vault → Vault
antigravity_set_runtime now access refresh owner n v = record v {
  antigravity = with_tokens now access refresh owner n v.antigravity;
}
