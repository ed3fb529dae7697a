-- ===== src/Store/Quota.antt =====
-- internal/store/sqlite_quota.go and the quota methods of internal/store/store.go: admission holds
-- an amount in one conditional UPDATE, settlement charges the cost and drops the hold in one
-- transaction.
pub mod Admission
pub mod Settlement
pub mod Outcomes
pub mod Interleaving
use subport.Prelude.{
  ℕ, zero, suc, ◌+◌, ◌-◌, ◌*◌, ◌/◌, ◌%◌, ◌^◌, ◌≤◌, ◌<◌, String, ◌≡◌, refl, sym, ap, ◌∙◌, ◌≢◌, ◌↔◌,
  ◌⊎◌, inl, inr, Bool, true, false, ◌&&◌, ◌||◌, not, Option, none, some, List, [], ◌∷◌, ◌++◌, map,
  arith, str_eq, eq_iff, eq_refl, ltb, leb, ◌==◌, if◌then◌else◌, Bool-cases, Option-cases, ltb→lt,
  lt→ltb, leb→le, ==_iff, tests, length, get_elem?, length-append, All, All-append, get_elem?-All,
  keep,
}
use subport.Prelude.Int.{
  ℤ, pos, negsuc, pos_part, neg_part, sub_ℕ, ◌+ℤ◌, ◌-ℤ◌, ◌*ℤ◌, ◌≤ℤ◌, ltb_ℤ, +ℤ_parts, -ℤ_parts,
  eq_of_parts, int_laws,
}
use subport.Store.Table.{find_row, update_row}
use subport.Store.Rows.{User, UsageLog, Db}
use subport.Store.Sql.{
  Error, not_found, constraint, quota_exhausted, Result, ok, err, Sql, pure, raise, statement,
  select, exec, transaction, ◌>>=◌, ◌>>◌,
}
pub use subport.Prelude.Int64.{is_positive}

abbrev pub user_key : User → String
user_key u = u.id

abbrev pub user_of : Db → String → Option User
user_of db id = find_row user_key id db.users

-- UPDATE users SET … WHERE id = …
unfoldable pub update_user : String → (User → User) → Db → Db
update_user id f db = record db { users = update_row user_key id f db.users }

-- quota_total <= 0 OR quota_used + quota_reserved + amount <= quota_total
unfoldable pub admits : User → ℤ → Bool
admits u amount =
    not (is_positive u.quota_total)
    || not (ltb_ℤ u.quota_total (u.quota_used +ℤ u.quota_reserved +ℤ amount))

abbrev pub hold : ℤ → User → User
hold amount u = record u { quota_reserved = u.quota_reserved +ℤ amount }

-- The conditional UPDATE, with its RowsAffected.
unfoldable pub hold_where : String → ℤ → Db → ℕ × Db
unfolding admits update_user
hold_where id amount db = elim (user_of db id) [
  | none ↦ (0, db)
  | some u ↦ if admits u amount then (1, update_user id (hold amount) db) else (0, db)
]

-- SELECT COUNT(*) FROM users WHERE id = …
abbrev pub count_user : String → Db → ℕ
count_user id db = elim (user_of db id) [ none ↦ 0 | some _ ↦ 1 ]

unfoldable pub sqlite_reserve_quota : String → ℤ → Sql (Unit {0})
unfolding hold_where statement select
sqlite_reserve_quota id amount = do
  n ← statement (λ db. let (n, db') = hold_where id amount db in (ok n, db'))
  if n == 1 then pure tt else do
    exists ← select (count_user id)
    if exists == 0 then raise not_found else raise quota_exhausted

-- CASE WHEN quota_reserved > amount THEN quota_reserved - amount ELSE 0 END
unfoldable pub drop_hold : ℤ → User → User
drop_hold amount u = record u {
  quota_reserved = if ltb_ℤ amount u.quota_reserved then u.quota_reserved -ℤ amount else pos 0;
}

unfoldable pub sqlite_release_quota : String → ℤ → Sql (Unit {0})
unfolding exec update_user drop_hold
sqlite_release_quota id amount = exec (update_user id (drop_hold amount))

abbrev pub charge : ℤ → User → User
charge cost u = record u { quota_used = u.quota_used +ℤ cost }

abbrev pub usage_key : UsageLog → String
usage_key l = l.id

-- INSERT INTO usage_logs, whose id is the primary key.
unfoldable pub insert_usage : UsageLog → Db → Result (Unit {0}) × Db
insert_usage l db = elim (find_row usage_key l.id db.usage) [
  | some _ ↦ (err constraint, db)
  | none ↦ (ok tt, record db { usage = db.usage ++ l ∷ [] })
]

unfoldable pub settle_body : UsageLog → ℤ → Sql (Unit {0})
unfolding exec statement
settle_body l reserved = do
  statement (insert_usage l)
  exec (update_user l.user_id (charge l.cost))
  if is_positive reserved then exec (update_user l.user_id (drop_hold reserved)) else pure tt

unfoldable pub sqlite_settle_usage : UsageLog → ℤ → Sql (Unit {0})
unfolding transaction settle_body
sqlite_settle_usage l reserved = transaction (settle_body l reserved)

unfoldable pub reserve_quota : String → ℤ → Sql (Unit {0})
unfolding sqlite_reserve_quota
reserve_quota id amount = if is_positive amount then sqlite_reserve_quota id amount else pure tt

unfoldable pub release_quota : String → ℤ → Sql (Unit {0})
unfolding sqlite_release_quota
release_quota id amount = if is_positive amount then sqlite_release_quota id amount else pure tt

-- `id` and `now` are what NewID and the clock return.
unfoldable pub settle_usage : String → ℕ → UsageLog → ℤ → Sql (Unit {0})
unfolding sqlite_settle_usage
settle_usage id now l reserved =
    sqlite_settle_usage (record l { id = id; created_at = now }) reserved

unfoldable pub add_usage : String → ℕ → UsageLog → Sql (Unit {0})
unfolding settle_usage
add_usage id now l = settle_usage id now l (pos 0)

-- UPDATE users SET quota_total = … WHERE id = …, and no row is ErrNotFound.
unfoldable pub set_quota_total : String → ℤ → Sql (Unit {0})
unfolding statement update_user
set_quota_total id total = statement (λ db. elim (user_of db id) [
  | none ↦ (err not_found, db)
  | some _ ↦ (ok tt, update_user id (λ u. record u { quota_total = total }) db)
])
