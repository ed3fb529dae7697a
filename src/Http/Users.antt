-- ===== src/Http/Users.antt =====
-- internal/httpapi/auth.go (current, requireAdmin, register, login, logout), and the user routes of
-- adminRechargeRoutes in internal/httpapi/recharge.go. A token is what `bearer` reads of the request;
-- a body is what it decodes to, none where it does not. Between the first read of a user and the checks
-- of a role change other requests may change the store (`meanwhile`), and so they may between those
-- checks and the UPDATE (`elsewhere`).
pub mod Admins
use subport.Prelude.{
  ℕ, zero, suc, ◌+◌, ◌-◌, ◌*◌, ◌/◌, ◌%◌, ◌^◌, ◌≤◌, ◌<◌, String, ◌≡◌, refl, sym, ap, ◌∙◌, ◌≢◌, ◌↔◌,
  ◌⊎◌, inl, inr, Bool, true, false, ◌&&◌, ◌||◌, not, Option, none, some, List, [], ◌∷◌, ◌++◌, map,
  arith, str_eq, eq_iff, eq_refl, ltb, leb, ◌==◌, if◌then◌else◌, Bool-cases, if_rule, Option-cases,
  ltb→lt, lt→ltb, leb→le, ==_iff, tests, length, get_elem?, length-append, All, All-append,
  get_elem?-All, keep,
}
use subport.Prelude.Int.{
  ℤ, pos, negsuc, pos_part, neg_part, sub_ℕ, ◌+ℤ◌, ◌-ℤ◌, ◌*ℤ◌, ◌≤ℤ◌, ltb_ℤ, +ℤ_parts, -ℤ_parts,
  eq_of_parts, int_laws,
}
use subport.Prelude.Text.{Text, trim_space, is_empty}
use subport.Store.Rows.{User, Session}
use subport.Store.Sql.{Error, not_found, Result, ok, err, Conn, Sql, pure, ignoring, ◌>>=◌, ◌>>◌}
use subport.Store.Quota.{set_quota_total}
use subport.Store.Keys.{user_by_id, session_user, drop_session}
use subport.Store.Billing.{recover}
use subport.Store.Users.{
  role_admin, role_user, create_user, authenticate, new_session, count_admins, set_role,
}

pub data UserReply : Type 0 where
  bad_request unauthorized forbidden missing internal_error no_content : UserReply
  conflict : Error → UserReply
  signed_in : String → User → UserReply
  shown : User → UserReply

abbrev pub to_option : {A : Type 0} → Result A → Option A
to_option (ok a) = some a
to_option (err e) = none

-- The user of the session, if there is one.
unfoldable pub current : ℕ → String → Sql (Option User)
unfolding session_user
current now token =
    if str_eq token ""
    then pure none
    else recover (session_user now token) (λ r. pure (to_option r))

abbrev pub admin_or_refused : Option User → Option UserReply
admin_or_refused none = some unauthorized
admin_or_refused (some me) = if str_eq me.role role_admin then none else some forbidden

-- none lets the request in.
unfoldable pub require_admin : ℕ → String → Sql (Option UserReply)
unfolding current
require_admin now token = do me ← current now token; pure (admin_or_refused me)

pub record RegisterInput : Type 0 where
  pub username : Text
  pub password : Text
  pub invite_code_snake : String
  pub invite_code_camel : String

abbrev pub invite : RegisterInput → String
invite i = if not (str_eq i.invite_code_snake "") then i.invite_code_snake else i.invite_code_camel

-- What the random source and the clock give one request.
pub record Fresh : Type 0 where
  pub id : String
  pub salt : String
  pub token : String
  pub now : ℕ

abbrev pub start_session : Fresh → User → Sql UserReply
start_session fresh u =
    recover (new_session fresh.token fresh.now u.id)
      (λ r. pure (elim r [ ok s ↦ signed_in s.token u | err _ ↦ internal_error ]))

module _ (hash : Text → String → String) where
  abbrev pub register : Fresh → String → RegisterInput → Sql UserReply
  register fresh invite_code i =
      if ltb (length (trim_space i.username)) 3 || ltb (length i.password) 8
      then pure bad_request
      else if not (str_eq invite_code "") && not (str_eq (invite i) invite_code)
      then pure forbidden
      else recover (create_user hash fresh.id fresh.salt fresh.now i.username i.password role_user)
          (λ r. elim r [ err e ↦ pure (conflict e) | ok u ↦ start_session fresh u ])

  unfoldable pub handle_register : Fresh → String → Option RegisterInput → Sql UserReply
  unfolding create_user new_session trim_space
  handle_register fresh invite_code none = pure bad_request
  handle_register fresh invite_code (some i) = register fresh invite_code i

  unfoldable pub handle_login : Fresh → Option (Text × Text) → Sql UserReply
  unfolding authenticate new_session
  handle_login fresh none = pure bad_request
  handle_login fresh (some (username, password)) =
      recover (authenticate hash username password)
        (λ r. elim r [ err e ↦ pure unauthorized | ok u ↦ start_session fresh u ])

unfoldable pub handle_logout : String → Sql UserReply
unfolding drop_session
handle_logout token = do
  if str_eq token "" then pure tt else ignoring (drop_session token)
  pure no_content

-- The body of PATCH /api/users/{id}; its note is read and dropped.
pub record UserPatch : Type 0 where
  pub role : Option String
  pub quota_total : Option ℤ

abbrev pub is_role : String → Bool
is_role role = str_eq role role_admin || str_eq role role_user

abbrev pub is_self : String → Option User → Bool
is_self id none = false
is_self id (some me) = str_eq me.id id

-- Taking the admin role from a user who has it.
abbrev pub is_demotion : User → String → Bool
is_demotion u role = str_eq u.role role_admin && not (str_eq role role_admin)

-- The last check counts the admins, and only for a demotion.
abbrev pub last_admin : User → String → Sql Bool
last_admin u role = if is_demotion u role then (do n ← count_admins; pure (leb n 1)) else pure false

-- none lets the change through.
unfoldable pub check_role : Option User → String → User → String → Sql (Option UserReply)
unfolding count_admins
check_role me id u role =
    if not (is_role role)
    then pure (some bad_request)
    else if is_self id me && is_demotion u role
    then pure (some bad_request)
    else (do last ← last_admin u role; pure (if last then some bad_request else none))

abbrev pub as_reply : Result (Unit {0}) → Option UserReply
as_reply (ok _) = none
as_reply (err _) = some internal_error

module _ (elsewhere : Conn → Conn) where
  abbrev pub write_role : String → String → Option UserReply → Sql (Option UserReply)
  write_role id role (some refusal) c = (ok (some refusal), c)
  write_role id role none c = recover (set_role id role) (λ r. pure (as_reply r)) (elsewhere c)

  abbrev pub change_role : Option User → String → User → Option String → Sql (Option UserReply)
  change_role me id u none = pure none
  change_role me id u (some role) = do checked ← check_role me id u role; write_role id role checked

abbrev pub change_quota : String → Option ℤ → Sql (Option UserReply)
change_quota id none = pure none
change_quota id (some total) = recover (set_quota_total id total) (λ r. pure (as_reply r))

-- The error of the last read is dropped, and the user is then the zero value of the code.
abbrev pub show_user : User → String → Sql UserReply
show_user zero_user id =
    recover (user_by_id id) (λ r. pure (shown (elim r [ ok u ↦ u | err _ ↦ zero_user ])))

module _ (meanwhile elsewhere : Conn → Conn) (zero_user : User) where
  abbrev pub after_role : String → UserPatch → Option UserReply → Sql UserReply
  after_role id patch (some refusal) = pure refusal
  after_role id patch none = do
    failed ← change_quota id patch.quota_total
    elim failed [ some refusal ↦ pure refusal | none ↦ show_user zero_user id ]

  abbrev pub patch_found : ℕ → String → String → UserPatch → User → Sql UserReply
  patch_found now token id patch u c =
      (do
        me ← current now token
        refused ← change_role elsewhere me id u patch.role
        after_role id patch refused)
        (meanwhile c)

  -- PATCH /api/users/{id}
  unfoldable pub patch_user : ℕ → String → String → Option UserPatch → Sql UserReply
  unfolding user_by_id current check_role set_role set_quota_total
  patch_user now token id none = pure bad_request
  patch_user now token id (some patch) =
      recover (user_by_id id)
        (λ r. elim r [ err e ↦ pure missing | ok u ↦ patch_found now token id patch u ])
