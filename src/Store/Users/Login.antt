-- ===== src/Store/Users/Login.antt =====
-- What a new user and a new session read back as.
use subport.Prelude.{
  ℕ, ◌+◌, String, ◌≡◌, refl, Bool, true, false, none, some, List, [], ◌∷◌, ◌++◌, arith, str_eq,
  eq_refl, ltb, if◌then◌else◌,
}
use subport.Prelude.Text.{Text, text_eq_refl}
use subport.Store.Table.{find_row, find_where}
use subport.Store.Rows.{User, Session, Db}
use subport.Store.Sql.{ok, err, healthy, not_found}
use subport.Store.Quota.{user_of}
use subport.Store.Keys.{session_row, session_user}
use subport.Store.Users.{
  norm_username, has_name, is_taken, new_user, create_user, authenticate, new_session, session_life,
}

module _ {A : Type 0} where
  find_where-none :
      (p q : A → Bool) (rows : List A)
      → ((a : A) → q a ≡ true → p a ≡ true)
      → find_where p rows ≡ none
      → find_where q rows ≡ none
  unfolding find_where
  find_where-none p q [] h e = refl
  find_where-none p q (a ∷ rows) h e = ground (arith, h a, find_where-none p q rows h)

  find_row-none :
      (p : A → Bool) (key : A → String) (k : String) (rows : List A)
      → ((a : A) → str_eq (key a) k ≡ true → p a ≡ true)
      → find_where p rows ≡ none
      → find_row key k rows ≡ none
  unfolding find_where find_row
  find_row-none p key k [] h e = refl
  find_row-none p key k (a ∷ rows) h e = ground (arith, h a, find_row-none p key k rows h)

  find_where-append :
      (q : A → Bool) (rows : List A) (a : A)
      → find_where q rows ≡ none
      → q a ≡ true
      → find_where q (rows ++ a ∷ []) ≡ some a
  unfolding find_where
  find_where-append q [] a e h = rw h refl
  find_where-append q (b ∷ rows) a e h = ground (arith, find_where-append q rows a)

module _ (hash : Text → String → String) (id salt : String) (now : ℕ) (username password : Text)
    (role : String) where
  abbrev pub registered : User
  registered = new_user id salt (hash password salt) now (norm_username username) role

  -- A user that was created stands at the end of the table, with an id and a name that were free.
  created :
      (db : Db) (v : User)
      → (create_user hash id salt now username password role (healthy db)).0 ≡ ok v
      → ((create_user hash id salt now username password role (healthy db)).1
          ≡ healthy (record db { users = db.users ++ registered ∷ [] }))
        × (v ≡ registered)
        × (find_where (is_taken registered) db.users ≡ none)
  unfolding create_user
  created db v h = ground arith

  free_name :
      (db : Db)
      → find_where (is_taken registered) db.users ≡ none
      → find_where (has_name (norm_username username)) db.users ≡ none
  free_name db free =
      find_where-none (is_taken registered) (has_name (norm_username username)) db.users
        (λ a h. ground arith) free

  named : has_name (norm_username username) registered ≡ true
  named = text_eq_refl (norm_username username)

name_read :
    (hash : Text → String → String) (n p : Text) (db : Db) (u : User)
    → find_where (has_name (norm_username n)) db.users ≡ some u
    → (authenticate hash n p (healthy db)).0
      ≡ (if str_eq u.password_hash (hash p u.salt) then ok u else err not_found)
unfolding authenticate
name_read hash n p db u h = ground arith

session_read :
    (later : ℕ) (token : String) (db : Db) (s : Session) (u : User)
    → str_eq token "" ≡ false
    → session_row token db ≡ some s
    → user_of db s.user_id ≡ some u
    → (session_user later token (healthy db)).0
      ≡ (if ltb s.expires_at later then err not_found else ok u)
unfolding session_user
session_read later token db s u real h row = rw real (ground arith)

abbrev opened : String → ℕ → String → Session
opened token now user = record { token = token; user_id = user; expires_at = now + session_life }

new_session_lem :
    (token user : String) (now : ℕ) (db : Db) (s : Session)
    → (new_session token now user (healthy db)).0 ≡ ok s
    → ((new_session token now user (healthy db)).1
        ≡ healthy (record db { sessions = db.sessions ++ opened token now user ∷ [] }))
      × (session_row token db ≡ none)
unfolding new_session
new_session_lem token user now db s h = ground arith

-- A new user logs in: with no fault, after a CreateUser that succeeds, Authenticate with any spelling
-- of the name that normalises alike returns that very user exactly when the password has the digest
-- that was stored, and ErrNotFound otherwise.
pub authenticate-create_user :
    (hash : Text → String → String) (id salt : String) (now : ℕ) (username password : Text)
    (role : String) (db : Db) (v : User) (name p : Text)
    → (create_user hash id salt now username password role (healthy db)).0 ≡ ok v
    → norm_username name ≡ norm_username username
    → (authenticate hash name p
        (create_user hash id salt now username password role (healthy db)).1).0
      ≡ (if str_eq (hash password salt) (hash p salt) then ok v else err not_found)
unfolding authenticate
authenticate-create_user hash id salt now username password role db v name p h same =
    let (run, is_new, free) = created hash id salt now username password role db v h in
    let u = registered hash id salt now username password role in
    let db' = record db { users = db.users ++ u ∷ [] } in
    let by_name : find_where (has_name (norm_username name)) db'.users ≡ some u = rw same (
      find_where-append (has_name (norm_username username)) db.users u
        (free_name hash id salt now username password role db free)
        (named hash id salt now username password role)) in
    rw (run, is_new) (name_read hash name p db' u by_name)

-- A new session opens for its user for seven days: with no fault, after a NewSession that succeeds,
-- the token reads as the user's row, and as ErrNotFound once the seven days are over.
pub session_user-new_session :
    (token user : String) (now later : ℕ) (db : Db) (s : Session) (u : User)
    → (new_session token now user (healthy db)).0 ≡ ok s
    → str_eq token "" ≡ false
    → user_of db user ≡ some u
    → (session_user later token (new_session token now user (healthy db)).1).0
      ≡ (if ltb (now + session_life) later then err not_found else ok u)
unfolding session_user
session_user-new_session token user now later db s u h real row =
    let (run, free) = new_session_lem token user now db s h in
    let s' = opened token now user in
    let db' = record db { sessions = db.sessions ++ s' ∷ [] } in
    let by_token : session_row token db' ≡ some s' =
      find_where-append (λ (t : Session). str_eq t.token token) db.sessions s' free
        (eq_refl token) in
    rw run (session_read later token db' s' u real by_token row)
