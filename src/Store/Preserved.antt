-- ===== src/Store/Preserved.antt =====
-- What a run of statements keeps of the database, whatever the driver refuses. A run that keeps every
-- predicate only reads.
use subport.Prelude.{
  ℕ, String, Bool, true, false, Option, none, some, List, [], ◌∷◌, str_eq, ltb, if◌then◌else◌,
}
use subport.Store.Rows.{Db}
use subport.Store.Sql.{
  Error, Result, ok, err, Conn, Sql, pure, raise, or_err, continue, statement, select, ◌>>=◌,
}
use subport.Store.Keys.{as_not_found, user_by_id, session_user}
use subport.Store.Billing.{recover}

pub record Preserves {A : Type 0} (P : Db → Type 0) (m : Sql A) : Type 0 where
  pub at : (c : Conn) → P c.db → P (m c).1.db

module _ (P : Db → Type 0) where
  module _ {A : Type 0} where
    pub pure-Preserves : (a : A) → Preserves P (pure a)
    pure-Preserves a = record { at = λ c h. h }

    pub raise-Preserves : (e : Error) → Preserves P (raise {A = A} e)
    raise-Preserves e = record { at = λ c h. h }

    pub or_err-Preserves : (x : Option A) (e : Error) → Preserves P (or_err x e)
    or_err-Preserves none e = raise-Preserves e
    or_err-Preserves (some a) e = pure-Preserves a

    -- A statement whose outcome keeps the predicate keeps it under any faults.
    pub statement-Preserves :
        (f : Db → Result A × Db) → ((db : Db) → P db → P (f db).1) → Preserves P (statement f)
    unfolding statement
    statement-Preserves f h = record { at = λ c. go c.faults c.db }
      where
        go :
            (fs : List Bool) (db : Db)
            → P db
            → P (statement f (record { db = db; faults = fs })).1.db
        go [] db = h db
        go (true ∷ fs) db = λ p. p
        go (false ∷ fs) db = h db

    pub select-Preserves : (f : Db → A) → Preserves P (select f)
    unfolding select
    select-Preserves f = statement-Preserves _ (λ db p. p)

    pub if-Preserves :
        (b : Bool) (m n : Sql A) → Preserves P m → Preserves P n → Preserves P (if b then m else n)
    if-Preserves true m n hm hn = hm
    if-Preserves false m n hm hn = hn

    pub as_not_found-Preserves : (m : Sql A) → Preserves P m → Preserves P (as_not_found m)
    unfolding as_not_found
    as_not_found-Preserves m h = record { at = h.at }

  module _ {A B : Type 0} where
    continue-Preserves :
        (k : A → Sql B)
        → ((a : A) → Preserves P (k a))
        → (r : Result A) → Preserves P (λ c. continue r k c)
    continue-Preserves k hk (ok a) = hk a
    continue-Preserves k hk (err e) = raise-Preserves e

    pub bind-Preserves :
        (m : Sql A) (k : A → Sql B)
        → Preserves P m
        → ((a : A) → Preserves P (k a))
        → Preserves P (m >>= k)
    bind-Preserves m k hm hk = record {
      at = λ c h. (continue-Preserves k hk (m c).0).at (m c).1 (hm.at c h);
    }

    pub recover-Preserves :
        (m : Sql A) (k : Result A → Sql B)
        → Preserves P m
        → ((r : Result A) → Preserves P (k r))
        → Preserves P (recover m k)
    recover-Preserves m k hm hk = record { at = λ c h. (hk (m c).0).at (m c).1 (hm.at c h) }

  pub user_by_id-Preserves : (id : String) → Preserves P (user_by_id id)
  unfolding user_by_id
  user_by_id-Preserves id =
      as_not_found-Preserves _ (bind-Preserves _ _ (select-Preserves _) (λ u. or_err-Preserves u _))

  pub session_user-Preserves : (now : ℕ) (token : String) → Preserves P (session_user now token)
  unfolding session_user
  session_user-Preserves now token = if-Preserves (str_eq token "") _ _ (raise-Preserves _) (
      bind-Preserves _ _ (as_not_found-Preserves _ (select-Preserves _)) (λ row.
        bind-Preserves _ _ (or_err-Preserves row _) (λ s.
          if-Preserves (ltb s.expires_at now) _ _ (raise-Preserves _)
            (user_by_id-Preserves s.user_id))))
