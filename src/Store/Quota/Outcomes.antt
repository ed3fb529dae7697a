-- ===== src/Store/Quota/Outcomes.antt =====
-- The row of a user after a quota operation that has succeeded, whatever faults the driver has.
use subport.Prelude.{ℕ, String, ◌≡◌, refl, sym, ◌∙◌, inl, inr, true, some, arith, eq_refl}
use subport.Prelude.Int.{ℤ}
use subport.Store.Table.{update_row, find_row-update_row}
use subport.Store.Rows.{User, UsageLog, Db}
use subport.Store.Sql.{ok, Conn}
use subport.Store.Quota.{
  user_key, user_of, update_user, admits, hold, drop_hold, reserve_quota, release_quota,
  settle_usage, is_positive,
}
use subport.Store.Quota.Admission.{reserve_quota-reservation, reserve_quota-IsFaithful}
use subport.Store.Quota.Settlement.{stamped, close_out, settlement, settle_usage_atomic}

-- The row of a user after an update of that user.
pub user_of-update_user :
    (id : String) (f : User → User) (u : User) (db : Db)
    → ((v : User) → user_key (f v) ≡ user_key v)
    → user_of db id ≡ some u
    → user_of (update_user id f db) id ≡ some (f u)
unfolding update_user
user_of-update_user id f u db same_key e =
    find_row-update_row user_key id id f db.users same_key ∙ rw (eq_refl id, e) refl

pub reserve_ok :
    (id : String) (amount : ℤ) (u : User) (c : Conn)
    → is_positive amount ≡ true
    → user_of c.db id ≡ some u
    → (reserve_quota id amount c).0 ≡ ok tt
    → (admits u amount ≡ true)
      × (user_of (reserve_quota id amount c).1.db id ≡ some (hold amount u))
reserve_ok id amount u c p e h = ground (
  arith,
  (reserve_quota-IsFaithful id amount).at c,
  reserve_quota-reservation id amount c.db p,
  user_of-update_user id (hold amount) u c.db (λ v. refl) e,
)

pub release_ok :
    (id : String) (amount : ℤ) (u : User) (c : Conn)
    → is_positive amount ≡ true
    → user_of c.db id ≡ some u
    → (release_quota id amount c).0 ≡ ok tt
    → user_of (release_quota id amount c).1.db id ≡ some (drop_hold amount u)
unfolding release_quota
release_ok id amount u c p e h =
    ground (arith, user_of-update_user id (drop_hold amount) u c.db (λ v. refl) e)

close_out-key : (cost amount : ℤ) (v : User) → user_key (close_out cost amount v) ≡ user_key v
unfolding drop_hold
close_out-key cost amount v = ground arith

settlement_users :
    (l : UsageLog) (amount : ℤ) (db : Db)
    → (settlement l amount db).0 ≡ ok tt
    → (settlement l amount db).1.users
      ≡ update_row user_key l.user_id (close_out l.cost amount) db.users
settlement_users l amount db h = ground arith

pub settle_ok :
    (id : String) (now : ℕ) (l : UsageLog) (amount : ℤ) (u : User) (c : Conn)
    → user_of c.db l.user_id ≡ some u
    → (settle_usage id now l amount c).0 ≡ ok tt
    → user_of (settle_usage id now l amount c).1.db l.user_id ≡ some (close_out l.cost amount u)
settle_ok id now l amount u c e h = elim (settle_usage_atomic id now l amount c) [
  | inl fault ↦ cc
  | inr same ↦
      rw (same.1, settlement_users (stamped id now l) amount c.db (sym same.0 ∙ h))
        (find_row-update_row user_key l.user_id l.user_id (close_out l.cost amount) c.db.users
            (close_out-key l.cost amount)
          ∙ rw (eq_refl l.user_id, e) refl)
]
