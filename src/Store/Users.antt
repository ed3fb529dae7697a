-- ===== src/Store/Users.antt =====
-- internal/store/sqlite_auth.go, the users and sessions of internal/store/store.go, and SetRole and
-- CountAdmins of internal/store/store_ext.go. New ids, salts, tokens and the clock are arguments, and
-- `hash` is HashWithSalt of a secret and a salt.
pub mod Roles
pub mod Login
use subport.Prelude.{
  ℕ, zero, suc, ◌+◌, ◌-◌, ◌*◌, ◌/◌, ◌%◌, ◌^◌, ◌≤◌, ◌<◌, String, ◌≡◌, refl, sym, ap, ◌∙◌, ◌≢◌, ◌↔◌,
  ◌⊎◌, inl, inr, Bool, true, false, ◌&&◌, ◌||◌, not, Option, none, some, List, [], ◌∷◌, ◌++◌, map,
  arith, str_eq, eq_iff, eq_refl, ltb, leb, ◌==◌, if◌then◌else◌, Bool-cases, if_rule, Option-cases,
  ltb→lt, lt→ltb, leb→le, ==_iff, tests, length, get_elem?, length-append, All, All-append,
  get_elem?-All, keep,
}
use subport.Prelude.Int.{
  ℤ, pos, negsuc, pos_part, neg_part, sub_ℕ, ◌+ℤ◌, ◌-ℤ◌, ◌*ℤ◌, ◌≤ℤ◌, ltb_ℤ, +ℤ_parts, -ℤ_parts,
  eq_of_parts, int_laws,
}
use subport.Prelude.Text.{Text, text_eq, to_lower, trim_space, is_empty}
use subport.Store.Table.{find_row, find_where, count_where}
use subport.Store.Rows.{User, Session, Db}
use subport.Store.Sql.{
  Error, not_found, constraint, refused, Result, ok, err, Sql, pure, raise, or_err, statement,
  select, ◌>>=◌, ◌>>◌,
}
use subport.Store.Quota.{user_of, update_user}
use subport.Store.Keys.{as_not_found, session_row}

abbrev pub role_admin : String
role_admin = "admin"

abbrev pub role_user : String
role_user = "user"

unfoldable pub norm_username : Text → Text
unfolding to_lower trim_space
norm_username s = to_lower (trim_space s)

abbrev pub has_name : Text → User → Bool
has_name name u = text_eq u.username name

abbrev pub is_taken : User → User → Bool
is_taken u v = str_eq v.id u.id || has_name u.username v

-- `id` is the primary key and username is UNIQUE.
unfoldable pub insert_user : User → Db → Result (Unit {0}) × Db
unfolding find_where text_eq
insert_user u db = elim (find_where (is_taken u) db.users) [
  | some _ ↦ (err constraint, db)
  | none ↦ (ok tt, record db { users = db.users ++ u ∷ [] })
]

abbrev pub new_user : String → String → String → ℕ → Text → String → User
new_user id salt digest now name role = record {
  id = id;
  username = name;
  password_hash = digest;
  salt = salt;
  role = role;
  quota_total = pos 1000000;
  quota_used = pos 0;
  quota_reserved = pos 0;
  created_at = now;
  billing_group = "";
  ratio_override = pos 0;
}

unfoldable pub username_taken : Text → Sql Bool
unfolding select count_where text_eq
username_taken name = select (λ db. ltb 0 (count_where (has_name name) db.users))

unfoldable pub user_by_name : Text → Sql User
unfolding select find_where text_eq
user_by_name name = do u ← select (λ db. find_where (has_name name) db.users); or_err u not_found

module _ (hash : Text → String → String) where
  unfoldable pub create_user : String → String → ℕ → Text → Text → String → Sql User
  unfolding norm_username username_taken insert_user statement is_empty
  create_user id salt now username password role =
      let name = norm_username username in
      let u = new_user id salt (hash password salt) now name role in
      if is_empty name then raise (refused "username is required") else (do
        taken ← username_taken name
        if taken
            then raise (refused "username already taken")
            else (do statement (insert_user u); pure u))

  unfoldable pub authenticate : Text → Text → Sql User
  unfolding norm_username user_by_name as_not_found
  authenticate username password = do
    u ← as_not_found (user_by_name (norm_username username))
    if not (str_eq u.password_hash (hash password u.salt)) then raise not_found else pure u

-- `token` is the primary key.
unfoldable pub insert_session : Session → Db → Result (Unit {0}) × Db
unfolding find_where
insert_session s db = elim (session_row s.token db) [
  | some _ ↦ (err constraint, db)
  | none ↦ (ok tt, record db { sessions = db.sessions ++ s ∷ [] })
]

-- 7 * 24 * time.Hour, in nanoseconds.
abbrev pub session_life : ℕ
session_life = 604800000000000

unfoldable pub new_session : String → ℕ → String → Sql Session
unfolding insert_session statement
new_session token now user =
    let s : Session = record { token = token; user_id = user; expires_at = now + session_life } in
    (do statement (insert_session s); pure s)

abbrev pub has_role : String → User → Bool
has_role role u = str_eq u.role role

abbrev pub admins_of : Db → ℕ
admins_of db = count_where (has_role role_admin) db.users

-- An error counts as no admin.
unfoldable pub count_admins : Sql ℕ
unfolding select count_where
count_admins c = let (r, c') = select admins_of c in (ok (elim r [ ok n ↦ n | err _ ↦ 0 ]), c')

abbrev pub with_role : String → User → User
with_role role u = record u { role = role }

unfoldable pub set_role : String → String → Sql (Unit {0})
unfolding statement update_user
set_role id role = statement (λ db. elim (user_of db id) [
  | none ↦ (err not_found, db)
  | some _ ↦ (ok tt, update_user id (with_role role) db)
])
