-- ===== src/Store/Keys.antt =====
-- API keys and sessions: internal/store/sqlite_keys.go, the session statements of sqlite_auth.go and
-- the methods of internal/store/store.go and store_ext.go that call them. `hash` is
-- HashWithSalt(secret, ""), a SHA-256 digest.
pub mod Owned
pub mod Presented
use subport.Prelude.{
  ℕ, zero, suc, ◌+◌, ◌-◌, ◌*◌, ◌/◌, ◌%◌, ◌^◌, ◌≤◌, ◌<◌, String, ◌≡◌, refl, sym, ap, ◌∙◌, ◌≢◌, ◌↔◌,
  ◌⊎◌, inl, inr, Bool, true, false, ◌&&◌, ◌||◌, not, Option, none, some, List, [], ◌∷◌, ◌++◌, map,
  arith, str_eq, eq_iff, eq_refl, ltb, leb, ◌==◌, if◌then◌else◌, Bool-cases, if_rule, Option-cases,
  ltb→lt, lt→ltb, leb→le, ==_iff, tests, length, get_elem?, length-append, All, All-append,
  get_elem?-All, keep,
}
use subport.Prelude.Int.{
  ℤ, pos, negsuc, pos_part, neg_part, sub_ℕ, ◌+ℤ◌, ◌-ℤ◌, ◌*ℤ◌, ◌≤ℤ◌, ltb_ℤ, +ℤ_parts, -ℤ_parts,
  eq_of_parts, int_laws,
}
use subport.Store.Table.{find_where, count_where, update_where, delete_where}
use subport.Store.Rows.{User, ApiKey, Session, Db}
use subport.Store.Sql.{
  Error, not_found, constraint, Result, ok, err, Sql, pure, raise, or_err, statement, select, exec,
  ignoring, ◌>>=◌, ◌>>◌,
}
use subport.Store.Quota.{user_of}

-- WHERE id=? AND user_id=?
unfoldable pub is_owned : String → String → ApiKey → Bool
is_owned user id k = str_eq k.id id && str_eq k.user_id user

abbrev pub has_id : String → ApiKey → Bool
has_id id k = str_eq k.id id

abbrev pub has_hash : String → ApiKey → Bool
has_hash sum k = str_eq k.secret_sha sum

-- RowsAffected() == 0 is ErrNotFound.
abbrev pub found_rows : ℕ → Db → Result (Unit {0}) × Db
found_rows n db = if n == 0 then (err not_found, db) else (ok tt, db)

unfoldable pub update_keys : (ApiKey → Bool) → (ApiKey → ApiKey) → Db → Result (Unit {0}) × Db
unfolding count_where update_where
update_keys p f db =
    found_rows (count_where p db.keys) (record db { keys = update_where p f db.keys })

unfoldable pub delete_keys : (ApiKey → Bool) → Db → Result (Unit {0}) × Db
unfolding count_where delete_where
delete_keys p db = found_rows (count_where p db.keys) (record db { keys = delete_where p db.keys })

abbrev pub set_enabled : Bool → ApiKey → ApiKey
set_enabled enabled k = record k { enabled = enabled }

-- `id` is the primary key, secret_hash is UNIQUE.
unfoldable pub insert_key : ApiKey → Db → Result (Unit {0}) × Db
unfolding find_where
insert_key k db = elim (find_where (λ j. has_id k.id j || has_hash k.secret_sha j) db.keys) [
  | some _ ↦ (err constraint, db)
  | none ↦ (ok tt, record db { keys = db.keys ++ k ∷ [] })
]

-- A lookup whose every error the caller turns into ErrNotFound.
unfoldable pub as_not_found : {A : Type 0} → Sql A → Sql A
as_not_found m c = let (r, c') = m c in (elim r [ ok a ↦ ok a | err _ ↦ err not_found ], c')

unfoldable pub key_by_id : String → String → Sql ApiKey
unfolding select is_owned find_where as_not_found
key_by_id user id =
    as_not_found (do k ← select (λ db. find_where (is_owned user id) db.keys); or_err k not_found)

unfoldable pub key_by_id_only : String → Sql ApiKey
unfolding select find_where as_not_found
key_by_id_only id =
    as_not_found (do k ← select (λ db. find_where (has_id id) db.keys); or_err k not_found)

unfoldable pub set_key_enabled : String → String → Bool → Sql (Unit {0})
unfolding statement update_keys is_owned
set_key_enabled user id enabled = statement (update_keys (is_owned user id) (set_enabled enabled))

unfoldable pub delete_key : String → String → Sql (Unit {0})
unfolding statement delete_keys is_owned
delete_key user id = statement (delete_keys (is_owned user id))

unfoldable pub admin_set_key_enabled : String → Bool → Sql (Unit {0})
unfolding statement update_keys
admin_set_key_enabled id enabled = statement (update_keys (has_id id) (set_enabled enabled))

unfoldable pub admin_delete_key : String → Sql (Unit {0})
unfolding statement delete_keys
admin_delete_key id = statement (delete_keys (has_id id))

-- The error of the UPDATE is dropped.
unfoldable pub touch_key : String → String → Sql (Unit {0})
unfolding exec update_where
touch_key id when = ignoring (
    exec (λ db. record db {
      keys = update_where (has_id id) (λ k. record k { last_used = when }) db.keys;
    }))

unfoldable pub user_by_id : String → Sql User
unfolding select as_not_found
user_by_id id = as_not_found (do u ← select (λ db. user_of db id); or_err u not_found)

abbrev pub session_row : String → Db → Option Session
session_row token db = find_where (λ (s : Session). str_eq s.token token) db.sessions

unfoldable pub drop_session : String → Sql (Unit {0})
unfolding exec delete_where
drop_session token = exec (λ db. record db {
  sessions = delete_where (λ (s : Session). str_eq s.token token) db.sessions;
})

-- `now` is the clock after the row is read.
unfoldable pub session_user : ℕ → String → Sql User
unfolding select as_not_found user_by_id
session_user now token = if str_eq token "" then raise not_found else (do
  row ← as_not_found (select (session_row token))
  s ← or_err row not_found
  if ltb s.expires_at now then raise not_found else user_by_id s.user_id)

module _ (hash : String → String) where
  -- The secret and its prefix come from NewSecret; the secret is returned and not stored.
  unfoldable pub create_key : String → String → String → ℕ → String → String → Sql (ApiKey × String)
  unfolding statement insert_key
  create_key id secret prefix now user name =
      let k : ApiKey = record {
        id = id;
        user_id = user;
        name = name;
        prefix = prefix;
        secret_sha = hash secret;
        enabled = true;
        created_at = now;
        last_used = "never";
      } in
      (do statement (insert_key k); pure (k, secret))

  abbrev pub owner_of : ApiKey → Sql (ApiKey × User)
  owner_of k = do u ← user_by_id k.user_id; pure (k, u)

  unfoldable pub key_by_secret : String → Sql (ApiKey × User)
  unfolding select find_where as_not_found user_by_id
  key_by_secret secret =
      if str_eq secret ""
      then raise not_found
      else as_not_found (do
        row ← select (λ db. find_where (has_hash (hash secret)) db.keys)
        k ← or_err row not_found
        if not k.enabled then raise not_found else owner_of k)
