-- ===== src/Store/Quota/Settlement.antt =====
-- Settlement: one transaction, the cost and the hold apart from each other.
use subport.Prelude.{
  ℕ, String, ◌≡◌, refl, sym, ap, ◌∙◌, ◌⊎◌, inl, inr, Bool, true, false, none, some, List, [], ◌∷◌,
  ◌++◌, arith, if◌then◌else◌, Option-cases,
}
use subport.Prelude.Int.{ℤ}
use subport.Store.Table.{find_row, update_row, update_row_twice}
use subport.Store.Rows.{User, UsageLog, Db}
use subport.Store.Sql.{
  statement, constraint, driver_fault, Result, ok, err, Conn, healthy, exec, pure, finish, ◌>>◌,
}
use subport.Store.Sql.Faults.{FailsClean, IsFaithful, faithful_rules, transaction-FailsClean}
use subport.Store.Quota.{
  user_key, usage_key, update_user, charge, drop_hold, settle_body, settle_usage, insert_usage,
  is_positive,
}

-- The row that a settlement writes.
abbrev pub stamped : String → ℕ → UsageLog → UsageLog
stamped id now l = record l { id = id; created_at = now }

-- The charge in full, and the hold in full.
abbrev pub close_out : ℤ → ℤ → User → User
close_out cost reserved u =
    if is_positive reserved then drop_hold reserved (charge cost u) else charge cost u

-- What a settlement promises: the log row, the charge and the release, or nothing of them.
abbrev pub settlement : UsageLog → ℤ → Db → Result (Unit {0}) × Db
settlement l reserved db = elim (find_row usage_key l.id db.usage) [
  | some _ ↦ (err constraint, db)
  | none ↦ (
    ok tt,
    record db {
      users = update_row user_key l.user_id (close_out l.cost reserved) db.users;
      usage = db.usage ++ l ∷ [];
    },
  )
]

insert_taken :
    (l x : UsageLog) (db : Db)
    → find_row usage_key l.id db.usage ≡ some x
    → insert_usage l db ≡ (err constraint, db)
unfolding insert_usage
insert_taken l x db e = ground arith

insert_fresh :
    (l : UsageLog) (db : Db)
    → find_row usage_key l.id db.usage ≡ none
    → insert_usage l db ≡ (ok tt, record db { usage = db.usage ++ l ∷ [] })
unfolding insert_usage
insert_fresh l db e = ground arith

settlement_taken :
    (l x : UsageLog) (reserved : ℤ) (db : Db)
    → find_row usage_key l.id db.usage ≡ some x
    → settlement l reserved db ≡ (err constraint, db)
settlement_taken l x reserved db e = ground arith

-- The two updates of one user, or the one.
settle_users : (l : UsageLog) (reserved : ℤ) (positive : Bool) (users : List User) → List User
settle_users l reserved positive users =
    let charged = update_row user_key l.user_id (charge l.cost) users in
    if positive then update_row user_key l.user_id (drop_hold reserved) charged else charged

settle_users_lem :
    (l : UsageLog) (reserved : ℤ) (positive : Bool) (users : List User)
    → settle_users l reserved positive users
      ≡ update_row user_key l.user_id
          (λ u. if positive then drop_hold reserved (charge l.cost u) else charge l.cost u)
          users
unfolding settle_users drop_hold
settle_users_lem l reserved true users =
    update_row_twice user_key l.user_id (charge l.cost) (drop_hold reserved) users (λ u. refl)
settle_users_lem l reserved false users = refl

-- The database after the three statements.
abbrev settled : UsageLog → ℤ → Bool → Db → Db
settled l reserved positive db = record db {
  users = settle_users l reserved positive db.users;
  usage = db.usage ++ l ∷ [];
}

settlement_fresh :
    (l : UsageLog) (reserved : ℤ) (db : Db)
    → find_row usage_key l.id db.usage ≡ none
    → settlement l reserved db ≡ (ok tt, settled l reserved (is_positive reserved) db)
settlement_fresh l reserved db e =
    rw (settle_users_lem l reserved (is_positive reserved) db.users) (ground arith)

-- The statements after the INSERT.
after_fresh : (l : UsageLog) (reserved : ℤ) (positive : Bool) (db : Db) → Result (Unit {0}) × Conn
after_fresh l reserved positive db =
    (exec (update_user l.user_id (charge l.cost))
        >> (if positive then exec (update_user l.user_id (drop_hold reserved)) else pure tt))
      (healthy (record db { usage = db.usage ++ l ∷ [] }))

after_fresh_lem :
    (l : UsageLog) (reserved : ℤ) (positive : Bool) (db : Db)
    → after_fresh l reserved positive db ≡ (ok tt, healthy (settled l reserved positive db))
unfolding after_fresh exec update_user settle_users
after_fresh_lem l reserved true db = refl
after_fresh_lem l reserved false db = refl

abbrev pub outcome : Result (Unit {0}) × Conn → Result (Unit {0}) × Db
outcome x = (x.0, x.1.db)

finish_fresh :
    (l : UsageLog) (reserved : ℤ) (positive : Bool) (db : Db)
    → let m = after_fresh l reserved positive db in
      outcome (finish db m.0 m.1) ≡ (ok tt, settled l reserved positive db)
unfolding statement
finish_fresh l reserved positive db = rw (after_fresh_lem l reserved positive db) refl

pub settle_healthy :
    (id : String) (now : ℕ) (l : UsageLog) (reserved : ℤ) (db : Db)
    → outcome (settle_usage id now l reserved (healthy db))
      ≡ settlement (stamped id now l) reserved db
unfolding settle_usage after_fresh
settle_healthy id now l reserved db = elim (Option-cases (find_row usage_key id db.usage)) [
  | inr (x, e) ↦
      rw (insert_taken (stamped id now l) x db e)
        (sym (settlement_taken (stamped id now l) x reserved db e))
  | inl e ↦
      rw (insert_fresh (stamped id now l) db e, settlement_fresh (stamped id now l) reserved db e)
        (finish_fresh (stamped id now l) reserved (is_positive reserved) db)
]

settle_usage-IsFaithful :
    (id : String) (now : ℕ) (l : UsageLog) (reserved : ℤ)
    → IsFaithful (settle_usage id now l reserved)
unfolding settle_usage
settle_usage-IsFaithful id now l reserved = search faithful_rules

-- Wherever a fault strikes, begin and Commit included, a settlement is all or nothing: it reports
-- the fault and has changed nothing, or it has the outcome of `settlement` (the row, the whole
-- charge and the whole release together, or a constraint error and no change).
pub settle_usage_atomic :
    (id : String) (now : ℕ) (l : UsageLog) (reserved : ℤ) (c : Conn)
    → let (r, c') = settle_usage id now l reserved c in
      ((r ≡ err driver_fault) × (c'.db ≡ c.db))
      ⊎ ((r ≡ (settlement (stamped id now l) reserved c.db).0)
          × (c'.db ≡ (settlement (stamped id now l) reserved c.db).1))
settle_usage_atomic id now l reserved c = elim ((settle_usage-IsFaithful id now l reserved).at c) [
  | inl fault ↦ inl (fault, settle_clean.at c driver_fault fault)
  | inr same ↦
      let spec = settle_healthy id now l reserved c.db in
      inr (same.0 ∙ ap (λ x. x.0) spec, same.1 ∙ ap (λ x. x.1) spec)
]
  where
    settle_clean : FailsClean (settle_usage id now l reserved)
    settle_clean =
        unfold settle_usage in transaction-FailsClean (settle_body (stamped id now l) reserved)
