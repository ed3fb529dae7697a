-- ===== src/Http/Users/Admins.antt =====
-- The guard against removing the last admin: what it keeps, and what two requests at once do to it.
use subport.Prelude.{
  ℕ, ◌<◌, String, ◌≡◌, refl, ap, ◌∙◌, ◌⊎◌, inl, inr, Bool, true, false, ◌&&◌, not, Option, none,
  some, List, [], ◌∷◌, arith, str_eq, leb, if◌then◌else◌, if_rule,
}
use subport.Prelude.Int.{ℤ}
use subport.Store.Rows.{User, Db}
use subport.Store.Sql.{not_found, Result, ok, err, Conn, healthy, Sql, pure, continue, ◌>>=◌}
use subport.Store.Quota.{user_of, user_key, update_user, set_quota_total}
use subport.Store.Keys.{user_by_id}
use subport.Store.Keys.Presented.{user_by_id-IsOpen, IsOwner, IsOpen}
use subport.Store.Billing.{recover}
use subport.Store.Preserved.{
  Preserves, pure-Preserves, statement-Preserves, select-Preserves, if-Preserves, bind-Preserves,
  recover-Preserves, user_by_id-Preserves, session_user-Preserves,
}
use subport.Store.Users.{role_admin, has_role, admins_of, count_admins, set_role, with_role}
use subport.Store.Users.Roles.{count_same, count_where-update_row, count_kept}
use subport.Http.Users.{
  UserReply, bad_request, shown, missing, UserPatch, current, to_option, is_demotion, is_role,
  is_self, last_admin, check_role, write_role, change_role, change_quota, as_reply, after_role,
  patch_found, patch_user, show_user,
}

-- An administrator is there.
abbrev pub HasAdmin : Db → Type 0
HasAdmin db = 0 < admins_of db

module _ (P : Db → Type 0) where
  current-Preserves : (now : ℕ) (token : String) → Preserves P (current now token)
  unfolding current
  current-Preserves now token = if-Preserves P (str_eq token "") _ _ (pure-Preserves P _) (
      recover-Preserves P _ _ (session_user-Preserves P now token)
        (λ r. pure-Preserves P (to_option r)))

  -- A change of a quota total is no change of a role.
  module _
      (h : (id : String) (total : ℤ) (db : Db)
        → P db
        → P (update_user id (λ u. record u { quota_total = total }) db)) where
    total_set :
        (id : String) (total : ℤ) (db : Db) (x : Option User)
        → P db
        → P
            (elim x as (λ _. Result (Unit {0}) × Db) [
              | none ↦ (err not_found, db)
              | some _ ↦ (ok tt, update_user id (λ u. record u { quota_total = total }) db)
            ]).1
    total_set id total db none p = p
    total_set id total db (some _) p = h id total db p

    set_quota_total-Preserves : (id : String) (total : ℤ) → Preserves P (set_quota_total id total)
    unfolding set_quota_total
    set_quota_total-Preserves id total =
        statement-Preserves P _ (λ db p. total_set id total db (user_of db id) p)

    change_quota-Preserves : (id : String) (total : Option ℤ) → Preserves P (change_quota id total)
    change_quota-Preserves id none = pure-Preserves P none
    change_quota-Preserves id (some total) =
        recover-Preserves P _ _ (set_quota_total-Preserves id total)
          (λ r. pure-Preserves P (as_reply r))

-- A count that is let through: the change takes no admin role, or two admins are there.
abbrev Allowed : User → String → Db → Type 0
Allowed u role db = (is_demotion u role ≡ false) ⊎ (1 < admins_of db)

last_admin-Allowed :
    (u : User) (role : String) (c : Conn) → (last_admin u role c).0 ≡ ok false → Allowed u role c.db
unfolding count_admins
last_admin-Allowed u role c h = ground arith

check_role-Allowed :
    (me : Option User) (id : String) (u : User) (role : String) (c : Conn)
    → (check_role me id u role c).0 ≡ ok none
    → Allowed u role c.db
unfolding check_role
check_role-Allowed me id u role c h =
    if_rule (λ (m : Sql (Option UserReply)). (m c).0 ≡ ok none → Allowed u role c.db)
      (not (is_role role)) _ _ (λ _ k. cc)
      (λ _.
        if_rule (λ (m : Sql (Option UserReply)). (m c).0 ≡ ok none → Allowed u role c.db)
          (is_self id me && is_demotion u role) _ _ (λ _ k. cc)
          (λ _ k. last_admin-Allowed u role c (ground arith)))
      h

set_role-HasAdmin :
    (id role : String) (u : User) (db : Db)
    → user_of db id ≡ some u
    → Allowed u role db
    → HasAdmin db
    → HasAdmin (update_user id (with_role role) db)
unfolding update_user
set_role-HasAdmin id role u db row (inl n) h =
    let stays : has_role role_admin u ≡ true → has_role role_admin (with_role role u) ≡ true =
      λ y. ground arith in
    omega
      (arith, count_kept user_key id (with_role role) (has_role role_admin) db.users u row stays)
set_role-HasAdmin id role u db row (inr two) h =
    omega
      (arith, count_where-update_row user_key id (with_role role) (has_role role_admin) db.users)

role_written :
    (id role : String) (u : User) (db : Db) (x : Option User)
    → x ≡ some u
    → HasAdmin (update_user id (with_role role) db)
    → HasAdmin
        (elim x as (λ _. Result (Unit {0}) × Db) [
          | none ↦ (err not_found, db)
          | some _ ↦ (ok tt, update_user id (with_role role) db)
        ]).1
role_written id role u db none e h = cc
role_written id role u db (some _) e h = h

set_role_at :
    (id role : String) (u : User) (c : Conn)
    → user_of c.db id ≡ some u
    → Allowed u role c.db
    → HasAdmin c.db
    → HasAdmin (set_role id role c).1.db
unfolding set_role
set_role_at id role u c = go c.faults c.db
  where
    go :
        (fs : List Bool) (db : Db)
        → user_of db id ≡ some u
        → Allowed u role db
        → HasAdmin db
        → HasAdmin (set_role id role (record { db = db; faults = fs })).1.db
    go [] db row allowed h =
        role_written id role u db (user_of db id) row (set_role-HasAdmin id role u db row allowed h)
    go (true ∷ fs) db row allowed h = h
    go (false ∷ fs) db row allowed h =
        role_written id role u db (user_of db id) row (set_role-HasAdmin id role u db row allowed h)

count_admins-Preserves : (P : Db → Type 0) → Preserves P count_admins
unfolding count_admins
count_admins-Preserves P = record { at = (select-Preserves P admins_of).at }

last_admin-Preserves :
    (P : Db → Type 0) (u : User) (role : String) → Preserves P (last_admin u role)
last_admin-Preserves P u role =
    if-Preserves P (is_demotion u role) _ _
      (bind-Preserves P _ _ (count_admins-Preserves P) (λ n. pure-Preserves P (leb n 1)))
      (pure-Preserves P false)

check_role-Preserves :
    (P : Db → Type 0) (me : Option User) (id : String) (u : User) (role : String)
    → Preserves P (check_role me id u role)
unfolding check_role
check_role-Preserves P me id u role =
    if-Preserves P (not (is_role role)) _ _ (pure-Preserves P (some bad_request)) (
      if-Preserves P (is_self id me && is_demotion u role) _ _ (pure-Preserves P (some bad_request))
        (bind-Preserves P _ _ (last_admin-Preserves P u role)
          (λ last. pure-Preserves P (if last then some bad_request else none))))

quota_keeps :
    (id : String) (total : ℤ) (db : Db)
    → HasAdmin db
    → HasAdmin (update_user id (λ u. record u { quota_total = total }) db)
unfolding update_user
quota_keeps id total db h =
    rw
      (count_same user_key id (λ u. record u { quota_total = total }) (has_role role_admin) db.users
        (λ u. refl))
      h

show_user-Preserves :
    (P : Db → Type 0) (zero_user : User) (id : String) → Preserves P (show_user zero_user id)
show_user-Preserves P zero_user id =
    recover-Preserves P _ _ (user_by_id-Preserves P id)
      (λ r. pure-Preserves P (shown (elim r [ ok u ↦ u | err _ ↦ zero_user ])))

module _ (meanwhile elsewhere : Conn → Conn) (calm : (c : Conn) → meanwhile c ≡ c)
    (quiet : (c : Conn) → elsewhere c ≡ c) where
  after_check :
      (id role : String) (u : User) (c : Conn) (m : Result (Option UserReply) × Conn)
      → m.1.db ≡ c.db
      → (m.0 ≡ ok none → Allowed u role c.db)
      → user_of c.db id ≡ some u
      → HasAdmin c.db
      → HasAdmin (continue m.0 (write_role elsewhere id role) m.1).1.db
  after_check id role u c (err e, c') same allowed row h = rw same h
  after_check id role u c (ok (some refusal), c') same allowed row h = rw same h
  after_check id role u c (ok none, c') same allowed row h =
      rw (quiet c') (set_role_at id role u c' (rw same row) (rw same (allowed refl)) (rw same h))

  change_role-HasAdmin :
      (me : Option User) (id : String) (u : User) (role : Option String) (c : Conn)
      → user_of c.db id ≡ some u
      → HasAdmin c.db
      → HasAdmin (change_role elsewhere me id u role c).1.db
  change_role-HasAdmin me id u none c row h = h
  change_role-HasAdmin me id u (some role) c row h =
      after_check id role u c (check_role me id u role c)
        ((check_role-Preserves (λ d. d ≡ c.db) me id u role).at c refl)
        (check_role-Allowed me id u role c) row h

  after_quota :
      (zero_user : User) (id : String) (failed : Option UserReply)
      → Preserves HasAdmin
          (elim failed [ some refusal ↦ pure refusal | none ↦ show_user zero_user id ])
  after_quota zero_user id (some refusal) = pure-Preserves HasAdmin refusal
  after_quota zero_user id none = show_user-Preserves HasAdmin zero_user id

  after_role-HasAdmin :
      (zero_user : User) (id : String) (patch : UserPatch) (refused : Option UserReply)
      → Preserves HasAdmin (after_role meanwhile elsewhere zero_user id patch refused)
  after_role-HasAdmin zero_user id patch (some refusal) = pure-Preserves HasAdmin refusal
  after_role-HasAdmin zero_user id patch none =
      bind-Preserves HasAdmin _ _ (change_quota-Preserves HasAdmin quota_keeps id patch.quota_total)
        (λ failed. after_quota zero_user id failed)

  after_change :
      (zero_user : User) (id : String) (patch : UserPatch) (m : Result (Option UserReply) × Conn)
      → HasAdmin m.1.db
      → HasAdmin (continue m.0 (after_role meanwhile elsewhere zero_user id patch) m.1).1.db
  after_change zero_user id patch (err e, c) h = h
  after_change zero_user id patch (ok refused, c) h =
      (after_role-HasAdmin zero_user id patch refused).at c h

  after_current :
      (zero_user : User) (id : String) (patch : UserPatch) (u : User) (db : Db)
      (m : Result (Option User) × Conn)
      → m.1.db ≡ db
      → user_of db id ≡ some u
      → HasAdmin db
      → HasAdmin
          (continue m.0
            (λ me. do
              refused ← change_role elsewhere me id u patch.role
              after_role meanwhile elsewhere zero_user id patch refused)
            m.1).1.db
  after_current zero_user id patch u db (err e, c) same row h = rw same h
  after_current zero_user id patch u db (ok me, c) same row h =
      after_change zero_user id patch (change_role elsewhere me id u patch.role c)
        (change_role-HasAdmin me id u patch.role c (rw same row) (rw same h))

  patch_found-HasAdmin :
      (zero_user : User) (now : ℕ) (token id : String) (patch : UserPatch) (u : User) (c : Conn)
      → user_of c.db id ≡ some u
      → HasAdmin c.db
      → HasAdmin (patch_found meanwhile elsewhere zero_user now token id patch u c).1.db
  patch_found-HasAdmin zero_user now token id patch u c row h = rw (calm c) (
      after_current zero_user id patch u c.db (current now token c)
        ((current-Preserves (λ d. d ≡ c.db) now token).at c refl) row h)

  after_user :
      (zero_user : User) (now : ℕ) (token id : String) (patch : UserPatch) (db : Db)
      (m : Result User × Conn)
      → IsOpen (IsOwner id db) db m
      → HasAdmin db
      → HasAdmin
          (recover
            (λ _. m)
            (λ r. elim r [
              | err e ↦ pure missing
              | ok u ↦ patch_found meanwhile elsewhere zero_user now token id patch u
            ])
            (healthy db)).1.db
  after_user zero_user now token id patch db (err e, c) (same, _) h = rw same h
  after_user zero_user now token id patch db (ok u, c) (same, inl gone) h = cc
  after_user zero_user now token id patch db (ok u, c) (same, inr (v, is_ok, (row, _))) h =
      let e : v ≡ u = cc in
      patch_found-HasAdmin zero_user now token id patch u c (rw same (row ∙ ap some e)) (rw same h)

-- Some user is an admin after every PATCH of a user where one was before: whoever asks for whatever
-- role and quota, and whatever statement the driver refuses, the count of admins that fails included,
-- as long as no other request changes the store between the first read of the user and the count of
-- admins, or between the count and the UPDATE.
pub patch_user-HasAdmin :
    (meanwhile elsewhere : Conn → Conn) (zero_user : User) (now : ℕ) (token id : String)
    (patch : Option UserPatch) (c : Conn)
    → ((c' : Conn) → meanwhile c' ≡ c')
    → ((c' : Conn) → elsewhere c' ≡ c')
    → HasAdmin c.db
    → HasAdmin (patch_user meanwhile elsewhere zero_user now token id patch c).1.db
unfolding patch_user
patch_user-HasAdmin meanwhile elsewhere zero_user now token id none c calm quiet h = h
patch_user-HasAdmin meanwhile elsewhere zero_user now token id (some patch) c calm quiet h =
    after_user meanwhile elsewhere calm quiet zero_user now token id patch c.db (user_by_id id c)
      (user_by_id-IsOpen id c) h
