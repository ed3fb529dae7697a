-- ===== src/Store/Sql.antt =====
-- internal/store/dialect.go (exec, query, begin, Commit, Rollback): statements against the
-- database. The driver may refuse any statement; the schedule of its faults is part of the
-- connection, so that every theorem holds wherever a fault strikes. A refused statement has
-- changed nothing.
pub mod Faults
use subport.Prelude.{
  ℕ, zero, suc, ◌+◌, ◌-◌, ◌*◌, ◌/◌, ◌%◌, ◌^◌, ◌≤◌, ◌<◌, String, ◌≡◌, refl, sym, ap, ◌∙◌, ◌≢◌, ◌↔◌,
  ◌⊎◌, inl, inr, Bool, true, false, ◌&&◌, ◌||◌, not, Option, none, some, List, [], ◌∷◌, ◌++◌, map,
  arith, str_eq, eq_iff, eq_refl, ltb, leb, ◌==◌, if◌then◌else◌, Bool-cases, Option-cases, ltb→lt,
  lt→ltb, leb→le, ==_iff, tests, length, get_elem?, length-append, All, All-append, get_elem?-All,
  keep,
}
use subport.Prelude.Int.{
  ℤ, pos, negsuc, pos_part, neg_part, sub_ℕ, ◌+ℤ◌, ◌-ℤ◌, ◌*ℤ◌, ◌≤ℤ◌, ltb_ℤ, +ℤ_parts, -ℤ_parts,
  eq_of_parts, int_laws,
}
use subport.Store.Rows.{Db}

pub data Error : Type 0 where
  not_found : Error
  quota_exhausted : Error
  driver_fault : Error
  constraint : Error
  refused : String → Error

pub data Result {ℓ} (A : Type ℓ) : Type ℓ where
  ok : A → Result A
  err : Error → Result A

-- `faults` says of each statement to come whether the driver refuses it; past its end none is.
pub record Conn : Type 0 where
  pub db : Db
  pub faults : List Bool

abbrev pub healthy : Db → Conn
healthy db = record { db = db; faults = [] }

abbrev pub Sql : Type 0 → Type 0
Sql A = Conn → Result A × Conn

module _ {A : Type 0} where
  abbrev pub pure : A → Sql A
  pure a c = (ok a, c)

  abbrev pub raise : Error → Sql A
  raise e c = (err e, c)

  abbrev pub run_statement : List Bool → (Db → Result A × Db) → Db → Result A × Conn
  run_statement [] f db = let (r, db') = f db in (r, record { db = db'; faults = [] })
  run_statement (true ∷ fs) f db = (err driver_fault, record { db = db; faults = fs })
  run_statement (false ∷ fs) f db = let (r, db') = f db in (r, record { db = db'; faults = fs })

  -- One statement, which may break a constraint.
  unfoldable pub statement : (Db → Result A × Db) → Sql A
  statement f c = run_statement c.faults f c.db

  -- SELECT
  unfoldable pub select : (Db → A) → Sql A
  unfolding statement
  select f = statement (λ db. (ok (f db), db))

  abbrev pub or_err : Option A → Error → Sql A
  or_err none e = raise e
  or_err (some a) e = pure a

-- INSERT, UPDATE or DELETE
unfoldable pub exec : (Db → Db) → Sql (Unit {0})
unfolding statement
exec f = statement (λ db. (ok tt, f db))

module _ {A B : Type 0} where
  abbrev pub continue : Result A → (A → Sql B) → Sql B
  continue (ok a) f c = f a c
  continue (err e) f c = (err e, c)

  infixl 10 ◌>>=◌ ◌>>◌
  abbrev pub ◌>>=◌ : Sql A → (A → Sql B) → Sql B
  ◌>>=◌ m f c = let (r, c') = m c in continue r f c'

  abbrev pub ◌>>◌ : Sql A → Sql B → Sql B
  m >> n = m >>= λ _. n

module _ {A : Type 0} where
  -- The deferred Rollback: an error, or a refused Commit, puts the database back.
  abbrev pub finish : Db → Result A → Conn → Result A × Conn
  finish before (err e) c = (err e, record c { db = before })
  finish before (ok a) c =
      let (committed, c') = statement (λ db. (ok tt, db)) c in
      elim committed [ ok _ ↦ (ok a, c') | err e ↦ (err e, record c' { db = before }) ]

  -- begin … Commit
  unfoldable pub transaction : Sql A → Sql A
  unfolding statement
  transaction body c =
      let (begun, c₁) = statement (λ db. (ok tt, db)) c in
      elim begun [ err e ↦ (err e, c₁) | ok _ ↦ let (r, c₂) = body c₁ in finish c₁.db r c₂ ]

  -- An `if err != nil { return err }` that is dropped: `_ = m` or `_, _ = m`.
  abbrev pub ignoring : Sql A → Sql (Unit {0})
  ignoring m c = (ok tt, (m c).1)

-- How a body leaves its transaction when it reports no error: by Commit, or by a return that leaves
-- the deferred Rollback to run.
pub data Ending (A : Type 0) : Type 0 where
  commit : A → Ending A
  rollback : A → Ending A

module _ {A : Type 0} where
  abbrev pub finish_ending : Db → Result (Ending A) → Conn → Result A × Conn
  finish_ending before (err e) c = (err e, record c { db = before })
  finish_ending before (ok (rollback a)) c = (ok a, record c { db = before })
  finish_ending before (ok (commit a)) c = finish before (ok a) c

  unfoldable pub transact : Sql (Ending A) → Sql A
  unfolding statement
  transact body c =
      let (begun, c₁) = statement (λ db. (ok tt, db)) c in
      elim begun [ err e ↦ (err e, c₁) | ok _ ↦ let (r, c₂) = body c₁ in finish_ending c₁.db r c₂ ]
