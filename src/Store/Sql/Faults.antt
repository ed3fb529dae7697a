-- ===== src/Store/Sql/Faults.antt =====
-- What the faults of the driver can do to a run of statements.
use subport.Prelude.{
  ◌≡◌, refl, sym, ap, ◌∙◌, ◌⊎◌, inl, inr, Bool, true, false, List, [], ◌∷◌, arith, if◌then◌else◌,
}
use subport.Store.Rows.{Db}
use subport.Store.Sql.{
  Error, driver_fault, Result, ok, err, Conn, healthy, Sql, pure, raise, continue, finish,
  statement, select, exec, transaction, ◌>>=◌, Ending, commit, rollback, finish_ending, transact,
}

-- A run that returns an error has left the database as it was.
pub record FailsClean {A : Type 0} (m : Sql A) : Type 0 where
  pub at : (c : Conn) (e : Error) → (m c).0 ≡ err e → (m c).1.db ≡ c.db

-- A run reports a fault of the driver, or it does what it does with no fault at all.
pub record IsFaithful {A : Type 0} (m : Sql A) : Type 0 where
  pub at :
      (c : Conn)
      → ((m c).0 ≡ err driver_fault)
        ⊎ (((m c).0 ≡ (m (healthy c.db)).0) × ((m c).1.db ≡ (m (healthy c.db)).1.db))
  pub stays : (db : Db) → (m (healthy db)).1.faults ≡ []

module _ {A : Type 0} where
  pub transaction-FailsClean : (body : Sql A) → FailsClean (transaction body)
  unfolding transaction
  transaction-FailsClean body = record { at = λ c e h. ground arith }

  pub statement-IsFaithful : (f : Db → Result A × Db) → IsFaithful (statement f)
  unfolding statement
  statement-IsFaithful f = record { at = λ c. ground arith; stays = λ db. refl }

  pub select-IsFaithful : (f : Db → A) → IsFaithful (select f)
  unfolding select
  select-IsFaithful f = record { at = λ c. ground arith; stays = λ db. refl }

  pub pure-IsFaithful : (a : A) → IsFaithful (pure a)
  pure-IsFaithful a = record { at = λ c. inr (refl, refl); stays = λ db. refl }

  pub raise-IsFaithful : (e : Error) → IsFaithful (raise {A = A} e)
  raise-IsFaithful e = record { at = λ c. inr (refl, refl); stays = λ db. refl }

  pub if-IsFaithful :
      (b : Bool) (m n : Sql A) → IsFaithful m → IsFaithful n → IsFaithful (if b then m else n)
  if-IsFaithful true m n hm hn = hm
  if-IsFaithful false m n hm hn = hn

pub exec-IsFaithful : (f : Db → Db) → IsFaithful (exec f)
unfolding exec
exec-IsFaithful f = record { at = λ c. ground arith; stays = λ db. refl }

-- A connection with no fault left is determined by its database.
healthy_of : (c : Conn) → c.faults ≡ [] → c ≡ healthy c.db
healthy_of c h = ground arith

-- The first run reports a fault, or both have one outcome.
abbrev Agree : {A : Type 0} → Result A × Conn → Result A × Conn → Type 0
Agree x y = (x.0 ≡ err driver_fault) ⊎ ((x.0 ≡ y.0) × (x.1.db ≡ y.1.db))

module _ {A B : Type 0} (m : Sql A) (k : A → Sql B) (hk : (a : A) → IsFaithful (k a)) where
  continue-Agree : (r : Result A) (c : Conn) → Agree (continue r k c) (continue r k (healthy c.db))
  continue-Agree (ok a) c = (hk a).at c
  continue-Agree (err e) c = inr (refl, refl)

  continue-stays : (r : Result A) (db : Db) → (continue r k (healthy db)).1.faults ≡ []
  continue-stays (ok a) db = (hk a).stays db
  continue-stays (err e) db = refl

  pub bind-IsFaithful : IsFaithful m → IsFaithful (m >>= k)
  bind-IsFaithful hm = record {
    at = λ c. elim (hm.at c) [
      | inl fault ↦ inl (rw fault)
      | inr same ↦
          let q : (m (healthy c.db)).1 ≡ healthy (m c).1.db =
            healthy_of _ (hm.stays c.db) ∙ ap healthy (sym same.1) in
          rw (sym same.0, q) (continue-Agree (m c).0 (m c).1)
    ];
    stays = λ db.
        rw (healthy_of (m (healthy db)).1 (hm.stays db))
          (continue-stays (m (healthy db)).0 (m (healthy db)).1.db);
  }

-- The Commit at the end, and what begin adds in front.
module _ {A : Type 0} where
  finish-Agree :
      (before : Db) (r : Result A) (c : Conn)
      → Agree (finish before r c) (finish before r (healthy c.db))
  unfolding statement
  finish-Agree before (ok a) c = ground arith
  finish-Agree before (err e) c = inr (refl, refl)

  finish-stays :
      (before : Db) (r : Result A) (db : Db) → (finish before r (healthy db)).1.faults ≡ []
  unfolding statement
  finish-stays before (ok a) db = refl
  finish-stays before (err e) db = refl

  begun-Agree :
      (body : Sql A)
      → IsFaithful body
      → (db : Db) (fs : List Bool)
      → Agree (transaction body (record { db = db; faults = fs })) (transaction body (healthy db))
  unfolding transaction
  begun-Agree body hb db [] = inr (refl, refl)
  begun-Agree body hb db (true ∷ fs) = inl refl
  begun-Agree body hb db (false ∷ fs) =
      let c : Conn = record { db = db; faults = fs } in
      elim (hb.at c) [
        | inl fault ↦ inl (rw fault)
        | inr same ↦
            let q : (body (healthy db)).1 ≡ healthy (body c).1.db =
              healthy_of _ (hb.stays db) ∙ ap healthy (sym same.1) in
            rw (sym same.0, q) (finish-Agree db (body c).0 (body c).1)
      ]

  pub transaction-IsFaithful : (body : Sql A) → IsFaithful body → IsFaithful (transaction body)
  unfolding transaction
  transaction-IsFaithful body hb = record {
    at = λ c. begun-Agree body hb c.db c.faults;
    stays = λ db.
        rw (healthy_of (body (healthy db)).1 (hb.stays db))
          (finish-stays db (body (healthy db)).0 (body (healthy db)).1.db);
  }

module _ {A : Type 0} where
  pub transact-FailsClean : (body : Sql (Ending A)) → FailsClean (transact body)
  unfolding transact
  transact-FailsClean body = record { at = λ c e h. ground arith }

  ending-Agree :
      (before : Db) (r : Result (Ending A)) (c : Conn)
      → Agree (finish_ending before r c) (finish_ending before r (healthy c.db))
  ending-Agree before (ok (commit a)) c = finish-Agree before (ok a) c
  ending-Agree before (ok (rollback a)) c = inr (refl, refl)
  ending-Agree before (err e) c = inr (refl, refl)

  ending-stays :
      (before : Db) (r : Result (Ending A)) (db : Db)
      → (finish_ending before r (healthy db)).1.faults ≡ []
  ending-stays before (ok (commit a)) db = finish-stays before (ok a) db
  ending-stays before (ok (rollback a)) db = refl
  ending-stays before (err e) db = refl

  transact-Agree :
      (body : Sql (Ending A))
      → IsFaithful body
      → (db : Db) (fs : List Bool)
      → Agree (transact body (record { db = db; faults = fs })) (transact body (healthy db))
  unfolding transact
  transact-Agree body hb db [] = inr (refl, refl)
  transact-Agree body hb db (true ∷ fs) = inl refl
  transact-Agree body hb db (false ∷ fs) =
      let c : Conn = record { db = db; faults = fs } in
      elim (hb.at c) [
        | inl fault ↦ inl (rw fault)
        | inr same ↦
            let q : (body (healthy db)).1 ≡ healthy (body c).1.db =
              healthy_of _ (hb.stays db) ∙ ap healthy (sym same.1) in
            rw (sym same.0, q) (ending-Agree db (body c).0 (body c).1)
      ]

  pub transact-IsFaithful : (body : Sql (Ending A)) → IsFaithful body → IsFaithful (transact body)
  unfolding transact
  transact-IsFaithful body hb = record {
    at = λ c. transact-Agree body hb c.db c.faults;
    stays = λ db.
        rw (healthy_of (body (healthy db)).1 (hb.stays db))
          (ending-stays db (body (healthy db)).0 (body (healthy db)).1.db);
  }

pub ruleset faithful_rules = (
  statement-IsFaithful, select-IsFaithful, exec-IsFaithful, pure-IsFaithful, raise-IsFaithful,
  if-IsFaithful, bind-IsFaithful, transaction-IsFaithful, transact-IsFaithful,
)
