-- ===== src/Store/Kept.antt =====
-- What a run of statements keeps of a user's row, whatever the driver refuses.
use subport.Prelude.Text.{Text}
use subport.Prelude.{
  ℕ, String, ◌≡◌, refl, ◌∙◌, inl, inr, Bool, true, false, Option, none, some, List, [], ◌∷◌, arith,
  str_eq, if◌then◌else◌, Bool-cases,
}
use subport.Prelude.Int.{ℤ}
use subport.Pricing.{cost, rate_for}
use subport.Store.Table.{find_row-update_row}
use subport.Pricing.{TokenCounts}
use subport.Store.Rows.{User, UsageLog, Db}
use subport.Store.Sql.{
  Error, Result, ok, err, Conn, Sql, pure, raise, or_err, continue, select, exec, ignoring, ◌>>=◌,
}
use subport.Store.Quota.{is_positive, user_of, update_user, user_key}
use subport.Store.Keys.{touch_key}
use subport.Store.Billing.{
  default_ratio, user_billing, group_ratio, model_price, ratio_of_user, ratio_of_group,
  effective_ratio, price_call, recover, card_or_flat,
}
use subport.Store.Compensation.{
  CompensationConfig, compensate_broken_streams, compensate_recent, mark_usage_compensated,
  credit_quota, refund,
}

-- The user `id` has a row before and after, and `view` reads the same of both.
abbrev SameView : {B : Type 0} → (User → B) → String → Db → Db → Type 0
SameView view id db db' =
    (u : User) → user_of db id ≡ some u → (v : User) × (user_of db' id ≡ some v) × (view v ≡ view u)

pub record Keeps {A B : Type 0} (view : User → B) (m : Sql A) : Type 0 where
  pub at : (id : String) (c : Conn) → SameView view id c.db (m c).1.db

module _ {B : Type 0} (view : User → B) where
  same_users : (id : String) (db db' : Db) → db'.users ≡ db.users → SameView view id db db'
  same_users id db db' e u h = (u, rw e h, refl)

  module _ {A : Type 0} where
    pub pure-Keeps : (a : A) → Keeps view (pure a)
    pure-Keeps a = record { at = λ id c u h. (u, h, refl) }

    pub raise-Keeps : (e : Error) → Keeps view (raise {A = A} e)
    raise-Keeps e = record { at = λ id c u h. (u, h, refl) }

    pub or_err-Keeps : (x : Option A) (e : Error) → Keeps view (or_err x e)
    or_err-Keeps none e = raise-Keeps e
    or_err-Keeps (some a) e = pure-Keeps a

    pub select-Keeps : (f : Db → A) → Keeps view (select f)
    unfolding select
    select-Keeps f = record { at = λ id c u h. (u, ground arith, refl) }

    pub if-Keeps :
        (b : Bool) (m n : Sql A) → Keeps view m → Keeps view n → Keeps view (if b then m else n)
    if-Keeps true m n hm hn = hm
    if-Keeps false m n hm hn = hn

    pub ignoring-Keeps : (m : Sql A) → Keeps view m → Keeps view (ignoring m)
    ignoring-Keeps m h = record { at = h.at }

  exec_view :
      (f : Db → Db) → ((id : String) (db : Db) → SameView view id db (f db)) → Keeps view (exec f)
  unfolding exec
  exec_view f h = record { at = λ id c. go id c.faults c.db }
    where
      go :
          (id : String) (fs : List Bool) (db : Db)
          → SameView view id db (exec f (record { db = db; faults = fs })).1.db
      go id [] db = h id db
      go id (true ∷ fs) db = λ u e. (u, e, refl)
      go id (false ∷ fs) db = h id db

  -- A write that keeps the table of the users.
  exec-Keeps : (f : Db → Db) → ((db : Db) → (f db).users ≡ db.users) → Keeps view (exec f)
  unfolding exec
  exec-Keeps f h = record { at = λ id c u e. (u, ground (arith, h c.db), refl) }

  then_view :
      (id : String) (before between after : Db)
      → SameView view id before between
      → SameView view id between after
      → SameView view id before after
  then_view id before between after first second u h =
      let (v, hv, same) = first u h in let (w, hw, same') = second v hv in (w, hw, same' ∙ same)

  module _ {A C : Type 0} where
    continue-Keeps :
        (k : A → Sql C)
        → ((a : A) → Keeps view (k a))
        → (r : Result A) → Keeps view (λ c. continue r k c)
    continue-Keeps k hk (ok a) = hk a
    continue-Keeps k hk (err e) = raise-Keeps e

    pub bind-Keeps :
        (m : Sql A) (k : A → Sql C)
        → Keeps view m
        → ((a : A) → Keeps view (k a))
        → Keeps view (m >>= k)
    bind-Keeps m k hm hk = record {
      at = λ id c.
          then_view id c.db (m c).1.db ((m >>= k) c).1.db (hm.at id c)
            ((continue-Keeps k hk (m c).0).at id (m c).1);
    }

    pub recover-Keeps :
        (m : Sql A) (k : Result A → Sql C)
        → Keeps view m
        → ((r : Result A) → Keeps view (k r))
        → Keeps view (recover m k)
    recover-Keeps m k hm hk = record {
      at = λ id c.
          then_view id c.db (m c).1.db (recover m k c).1.db (hm.at id c)
            ((hk (m c).0).at id (m c).1);
    }

  pub touch_key-Keeps : (id when : String) → Keeps view (touch_key id when)
  unfolding touch_key
  touch_key-Keeps id when = ignoring-Keeps _ (exec-Keeps _ (λ db. refl))

  ratio_of_user-Keeps : (r : Result User) → Keeps view (ratio_of_user r)
  ratio_of_user-Keeps (err e) = pure-Keeps _
  ratio_of_user-Keeps (ok u) =
      if-Keeps (is_positive u.ratio_override) _ _ (pure-Keeps u.ratio_override) (
        if-Keeps (str_eq u.billing_group "") _ _ (pure-Keeps default_ratio) (
          recover-Keeps (group_ratio u.billing_group) (λ g. pure (ratio_of_group g))
            (bind-Keeps _ _ (select-Keeps _) (λ g. or_err-Keeps g _)) (λ g. pure-Keeps _)))

  effective_ratio-Keeps : (user : String) → Keeps view (effective_ratio user)
  unfolding effective_ratio
  effective_ratio-Keeps user =
      recover-Keeps (user_billing user) ratio_of_user
        (bind-Keeps _ _ (select-Keeps _) (λ u. or_err-Keeps u _)) ratio_of_user-Keeps

  pub price_call-Keeps :
      (user name : String) (counts : TokenCounts) → Keeps view (price_call user name counts)
  unfolding price_call
  price_call-Keeps user name counts =
      recover-Keeps (model_price name) _ (bind-Keeps _ _ (select-Keeps _) (λ p. or_err-Keeps p _))
        (λ card. bind-Keeps (effective_ratio user) _ (effective_ratio-Keeps user) (λ ratio.
          pure-Keeps (
            cost counts (rate_for (card_or_flat name card) ratio),
            rate_for (card_or_flat name card) ratio,
          )))

  mark_usage_compensated-Keeps : (ids : List String) → Keeps view (mark_usage_compensated ids)
  unfolding mark_usage_compensated
  mark_usage_compensated-Keeps [] = pure-Keeps tt
  mark_usage_compensated-Keeps (id ∷ ids) =
      bind-Keeps _ _ (exec-Keeps _ (λ db. refl)) (λ _. mark_usage_compensated-Keeps ids)

-- A refund lowers what a user has used and nothing else.
module _ {B : Type 0} (view : User → B)
    (blind : (u : User) (credit : ℤ) → view (refund credit u) ≡ view u) where
  refunded-SameView :
      (user id : String) (credit : ℤ) (db : Db)
      → SameView view id db (update_user user (refund credit) db)
  unfolding update_user
  refunded-SameView user id credit db u h = elim (Bool-cases (str_eq user id)) [
    | inl y ↦ (
      refund credit u,
      find_row-update_row user_key user id (refund credit) db.users (λ v. refl) ∙ rw (y, h) refl,
      blind u credit,
    )
    | inr n ↦ (
      u,
      find_row-update_row user_key user id (refund credit) db.users (λ v. refl) ∙ rw (n, h) refl,
      refl,
    )
  ]

  credit_quota-Keeps : (user : String) (credit : ℤ) → Keeps view (credit_quota user credit)
  unfolding credit_quota
  credit_quota-Keeps user credit = exec_view view _ (λ id db. refunded-SameView user id credit db)

  compensate_recent-Keeps :
      (user : String) (cfg : CompensationConfig) (recent : List UsageLog)
      → Keeps view (compensate_recent user cfg recent)
  compensate_recent-Keeps user cfg recent = if-Keeps view _ _ _ (pure-Keeps view _) (
      bind-Keeps view _ _ (mark_usage_compensated-Keeps view _)
        (λ _. bind-Keeps view _ _ (credit_quota-Keeps user _) (λ _. pure-Keeps view _)))

  pub compensate_broken_streams-Keeps :
      (fmt : ℕ → Text) (user : String) (cfg : CompensationConfig)
      → Keeps view (compensate_broken_streams fmt user cfg)
  unfolding compensate_broken_streams
  compensate_broken_streams-Keeps fmt user cfg =
      bind-Keeps view _ _ (select-Keeps view _) (compensate_recent-Keeps user cfg)
