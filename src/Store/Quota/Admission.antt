-- ===== src/Store/Quota/Admission.antt =====
-- What admission does on every branch, and wherever a fault strikes.
use subport.Prelude.{
  String, ◌≡◌, refl, ◌∙◌, ◌⊎◌, inl, inr, true, false, Option, none, some, arith, eq_refl,
  if◌then◌else◌, Bool-cases,
}
use subport.Prelude.Int.{ℤ, pos, ◌+ℤ◌, ◌≤ℤ◌}
use subport.Store.Table.{find_row-update_row}
use subport.Store.Rows.{User, Db}
use subport.Store.Sql.{not_found, quota_exhausted, Result, ok, err, healthy}
use subport.Store.Sql.Faults.{FailsClean, IsFaithful, faithful_rules}
use subport.Store.Quota.{user_key, user_of, update_user, admits, hold, reserve_quota, is_positive}

-- What a reservation does, in the words of the code.
abbrev pub reservation_at : String → ℤ → Db → Option User → Result (Unit {0}) × Db
reservation_at id amount db none = (err not_found, db)
reservation_at id amount db (some u) =
    if admits u amount then (ok tt, update_user id (hold amount) db) else (err quota_exhausted, db)

abbrev pub reservation : String → ℤ → Db → Result (Unit {0}) × Db
reservation id amount db = reservation_at id amount db (user_of db id)

pub reserve_quota-reservation :
    (id : String) (amount : ℤ) (db : Db)
    → is_positive amount ≡ true
    → let (r, c) = reserve_quota id amount (healthy db) in
      (r ≡ (reservation id amount db).0) × (c.db ≡ (reservation id amount db).1)
unfolding reserve_quota
reserve_quota-reservation id amount db h = ground arith

-- The amount fits what the user has used and holds, or the user has no limit.
abbrev pub Fits : ℤ → User → Type 0
Fits amount u =
    (u.quota_total ≤ℤ pos 0) ⊎ (u.quota_used +ℤ u.quota_reserved +ℤ amount ≤ℤ u.quota_total)

-- What a reservation promises for the user's row.
abbrev pub Promises : String → ℤ → Db → Option User → Result (Unit {0}) × Db → Type 0
Promises id amount db none (r, db') = (r ≡ err not_found) × (db' ≡ db)
Promises id amount db (some u) (r, db') =
    (Fits amount u
      × (r ≡ ok tt)
      × (db' ≡ update_user id (λ v. record v { quota_reserved = v.quota_reserved +ℤ amount }) db)
      × (user_of db' id ≡ some (record u { quota_reserved = u.quota_reserved +ℤ amount })))
    ⊎ (¬ Fits amount u × (r ≡ err quota_exhausted) × (db' ≡ db))

admits-Fits : (u : User) (amount : ℤ) → admits u amount ≡ true → Fits amount u
unfolding admits
admits-Fits u amount h = ground arith

refuses-Fits : (u : User) (amount : ℤ) → admits u amount ≡ false → ¬ Fits amount u
unfolding admits
refuses-Fits u amount h (inl free) = ground arith
refuses-Fits u amount h (inr fits) = ground arith

user_of-hold :
    (id : String) (amount : ℤ) (u : User) (db : Db)
    → user_of db id ≡ some u
    → user_of (update_user id (hold amount) db) id ≡ some (hold amount u)
unfolding update_user
user_of-hold id amount u db e =
    find_row-update_row user_key id id (hold amount) db.users (λ v. refl) ∙ rw (eq_refl id, e) refl

reservation-Promises :
    (id : String) (amount : ℤ) (db : Db) (x : Option User)
    → user_of db id ≡ x
    → Promises id amount db x (reservation_at id amount db x)
reservation-Promises id amount db none e = (refl, refl)
reservation-Promises id amount db (some u) e = elim (Bool-cases (admits u amount)) [
  | inl y ↦ rw y (inl (admits-Fits u amount y, refl, refl, user_of-hold id amount u db e))
  | inr n ↦ rw n (inr (refuses-Fits u amount n, refl, refl))
]

-- With no fault a positive reservation has three outcomes. An unknown user is ErrNotFound, with the
-- database unchanged. Where the user has no limit, or what is used, held and asked for is within the
-- total, it succeeds and the user's hold is higher by exactly the amount. Where that is more than the
-- total it is ErrQuotaExhausted, with the database unchanged.
pub reserve_quota_lem :
    (id : String) (amount : ℤ) (db : Db)
    → is_positive amount ≡ true
    → let (r, c) = reserve_quota id amount (healthy db) in
      Promises id amount db (user_of db id) (r, c.db)
reserve_quota_lem id amount db h =
    let (r, d) = reserve_quota-reservation id amount db h in
    rw (r, d) (reservation-Promises id amount db (user_of db id) refl)

-- A reservation that returns an error has held nothing, whichever statement the driver refuses.
pub reserve_quota-FailsClean : (id : String) (amount : ℤ) → FailsClean (reserve_quota id amount)
unfolding reserve_quota
reserve_quota-FailsClean id amount = record { at = λ c e h. ground arith }

pub reserve_quota-IsFaithful : (id : String) (amount : ℤ) → IsFaithful (reserve_quota id amount)
unfolding reserve_quota
reserve_quota-IsFaithful id amount = search faithful_rules depth 9
