-- ===== src/Examples/Accounts.antt =====
-- Users: internal/store/sqlite_auth.go, internal/httpapi/auth.go and recharge.go.
use subport.Prelude.{
  ◌+◌, String, ◌≡◌, refl, true, false, Option, none, some, [], ◌∷◌, arith, str_eq, ltb,
  if◌then◌else◌,
}
use subport.Prelude.Text.{Text, codes}
use subport.Store.Table.{find_row, count_where}
use subport.Store.Rows.{User, Session, Db, empty_db}
use subport.Store.Sql.{ok, err, Conn, healthy, not_found}
use subport.Store.Quota.{user_of}
use subport.Store.Keys.{session_user}
use subport.Store.Users.{
  create_user, authenticate, new_session, session_life, norm_username, admins_of,
}
use subport.Store.Users.Login.{registered, authenticate-create_user, session_user-new_session}
use subport.Http.Users.{UserPatch, patch_user}
use subport.Http.Users.Admins.{HasAdmin, patch_user-HasAdmin}
use subport.Examples.Access.{carol}

-- A stand-in for the salted digest.
abbrev digest : Text → String → String
digest password salt = salt

abbrev erin : User
erin = registered digest "u1" "s1" 5 (codes " Erin") (codes "password") "user"

created :
    (create_user digest "u1" "s1" 5 (codes " Erin") (codes "password") "user" (healthy empty_db)).0
    ≡ ok erin
unfolding create_user
created = refl

one_name : norm_username (codes "ERIN ") ≡ norm_username (codes " Erin")
unfolding norm_username
one_name = refl

authenticate-create_user_example :
    (authenticate digest
      (codes "ERIN ")
      (codes "password")
      (create_user digest "u1" "s1" 5
        (codes " Erin")
        (codes "password")
        "user"
        (healthy empty_db)).1).0
    ≡ (if str_eq (digest (codes "password") "s1") (digest (codes "password") "s1")
        then ok erin
        else err not_found)
authenticate-create_user_example =
    authenticate-create_user digest "u1" "s1" 5 (codes " Erin") (codes "password") "user" empty_db
      erin (codes "ERIN ") (codes "password") created one_name

abbrev house : Db
house = record empty_db { users = carol ∷ [] }

abbrev opened : Session
opened = record { token = "t1"; user_id = "carol"; expires_at = 9 + session_life }

starts : (new_session "t1" 9 "carol" (healthy house)).0 ≡ ok opened
unfolding new_session
starts = refl

carol_row : user_of house "carol" ≡ some carol
unfolding find_row
carol_row = refl

session_user-new_session_example :
    (session_user 10 "t1" (new_session "t1" 9 "carol" (healthy house)).1).0
    ≡ (if ltb (9 + session_life) 10 then err not_found else ok carol)
session_user-new_session_example =
    session_user-new_session "t1" "carol" 9 10 house opened carol starts refl carol_row

abbrev admin : String → User
admin name = record carol { id = name; role = "admin" }

-- Two admins, each with a session.
abbrev office : Db
office = record empty_db {
  users = admin "ann" ∷ admin "bob" ∷ [];
  sessions =
      record { token = "ta"; user_id = "ann"; expires_at = 99 }
      ∷ record { token = "tb"; user_id = "bob"; expires_at = 99 }
      ∷ [];
}

abbrev demote : Option UserPatch
demote = some (record { role = some "user"; quota_total = none })

has_admin : HasAdmin office
unfolding count_where
has_admin = omega arith

-- The driver refuses the count of the admins.
abbrev faulty : Conn
faulty = record { db = office; faults = false ∷ false ∷ false ∷ true ∷ [] }

patch_user-HasAdmin_example :
    HasAdmin (patch_user (λ c. c) (λ c. c) carol 9 "ta" "bob" demote faulty).1.db
patch_user-HasAdmin_example =
    patch_user-HasAdmin (λ c. c) (λ c. c) carol 9 "ta" "bob" demote faulty (λ c. refl) (λ c. refl)
      has_admin

-- Two admins who demote each other at once: each check counts two, and no admin is left.
crossed :
    admins_of
      (patch_user
        (λ c. c)
        (λ c. (patch_user (λ c'. c') (λ c'. c') carol 9 "tb" "ann" demote c).1)
        carol
        9
        "ta"
        "bob"
        demote
        (healthy office)).1.db
    ≡ 0
unfolding patch_user find_row subport.Store.Table.find_where subport.Store.Table.update_row
crossed = refl
