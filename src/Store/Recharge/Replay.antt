-- ===== src/Store/Recharge/Replay.antt =====
-- internal/store/recharge.go, MarkOrderPaidAndCredit: the notifications of one order, in sequence.
use subport.Prelude.{
  String, ◌≡◌, refl, sym, ap, ◌∙◌, inl, inr, Bool, true, false, not, Option, none, some, List, [],
  ◌∷◌, arith, str_eq, eq_refl, if◌then◌else◌,
}
use mathlib.Core.Bool.{true≢false}
use subport.Prelude.{eq_iff, ◌⊎◌}
use mathlib.Core.Path.{subst}
use subport.Prelude.Int.{◌+ℤ◌}
use subport.Store.Table.{find_row, update_row, find_row-update_row}
use subport.Store.Rows.{User, PaymentOrder, QuotaTopup, Db, order_pending, order_paid}
use subport.Store.Sql.{Result, ok, err, Conn, Sql, refused}
use subport.Store.Quota.{user_key, update_user}
use subport.Store.Recharge.{
  order_key, topup_order, order_of, insert_topup, Receipt, paid_now, trade_of,
}
use subport.Store.Recharge.Once.{
  mark, topup_of, with_paid, after_topup, payment_of, mark_order_paid_and_credit_atomic,
}

-- One call: the new id of its top-up, its clock, and what the notification says.
pub record Notification : Type 0 where
  pub top_id : String
  pub now : String
  pub trade : String
  pub source : String
  pub operator : String
  pub note : String

abbrev pub notified : String → Notification → Sql Receipt
notified id n = mark n.top_id n.now id n.trade n.source n.operator n.note

abbrev has_paid_status : Option PaymentOrder → Bool
has_paid_status none = false
has_paid_status (some o) = str_eq o.status order_paid

abbrev pub is_paid : String → Db → Bool
is_paid id db = has_paid_status (order_of id db)

insert_topup-orders : (t : QuotaTopup) (db : Db) → (insert_topup t db).1.orders ≡ db.orders
unfolding insert_topup
insert_topup-orders t db = ground arith

module _ (top_id now id trade source operator note : String) where
  abbrev spec : Option PaymentOrder → Db → Result Receipt × Db
  spec = payment_of top_id now id trade source operator note

  with_paid-paid :
      (o : PaymentOrder) (db db' : Db)
      → order_of id db ≡ some o
      → db'.orders ≡ (with_paid top_id now id trade source operator note o db).orders
      → is_paid id db' ≡ true
  with_paid-paid o db db' e s =
      rw
        (
          s,
          find_row-update_row order_key id id (paid_now (trade_of trade o) now) db.orders
              (λ a. refl),
          eq_refl id,
          e,
        )
        refl

  abbrev step : PaymentOrder → Db → Bool → Bool → Result Receipt × Db
  step o db is_settled is_open =
      if is_settled
      then (ok (o, find_row topup_order id db.topups, false), db)
      else if not is_open
      then (err (refused "order not pending"), db)
      else after_topup top_id now id trade source operator note o db (
          insert_topup (topup_of top_id now id trade source operator note o)
            (with_paid top_id now id trade source operator note o db))

-- The users once the credit of an order has been added to its user's total.
abbrev pub credited_users : PaymentOrder → List User → List User
credited_users o users =
    update_row user_key o.user_id (λ u. record u { quota_total = u.quota_total +ℤ o.quota_credit })
      users

-- The connection after a sequence of calls.
unfoldable pub notify_all : String → List Notification → Conn → Conn
notify_all id [] c = c
notify_all id (n ∷ rest) c = notify_all id rest (notified id n c).1

insert_topup-users : (t : QuotaTopup) (db : Db) → (insert_topup t db).1.users ≡ db.users
unfolding insert_topup
insert_topup-users t db = ground arith

-- What calls may do to the order, as it was before, and to the users: nothing to either; or the order
-- was pending, is paid now, and its credit has been added once.
abbrev pub IsCreditedOnce : String → Option PaymentOrder → Db → Db → Type 0
IsCreditedOnce id none db db' = (db'.users ≡ db.users) × (order_of id db' ≡ none)
IsCreditedOnce id (some o) db db' =
    ((db'.users ≡ db.users) × (order_of id db' ≡ some o))
    ⊎ ((o.status ≡ order_pending)
        × (is_paid id db' ≡ true)
        × (db'.users ≡ credited_users o db.users))

module _ (top_id now id trade source operator note : String) where
  topup_moves :
      (o : PaymentOrder) (before : Db) (x : Result (Unit {0}) × Db)
      → order_of id before ≡ some o
      → o.status ≡ order_pending
      → is_paid id x.1 ≡ true
      → x.1.users ≡ before.users
      → IsCreditedOnce id
          (some o)
          before
          (after_topup top_id now id trade source operator note o before x).1
  unfolding update_user
  topup_moves o before (ok _, db) e p paid same = inr (p, paid, rw same refl)
  topup_moves o before (err _, db) e p paid same = inl (refl, e)

  call_moves :
      (db : Db) (x : Option PaymentOrder)
      → order_of id db ≡ x
      → IsCreditedOnce id x db (spec top_id now id trade source operator note x db).1
  call_moves db none e = (refl, e)
  call_moves db (some o) e =
      elim (str_eq o.status order_paid)
        as (λ b.
          IsCreditedOnce id (some o) db
            (step top_id now id trade source operator note o db b
              (str_eq o.status order_pending)).1) [
                | true ↦ inl (refl, e)
                | false ↦ pending_moves db o e (str_eq o.status order_pending) refl
              ]
    where
      pending_moves :
          (db : Db) (o : PaymentOrder)
          → order_of id db ≡ some o
          → (b : Bool) → str_eq o.status order_pending ≡ b
          → IsCreditedOnce id
              (some o)
              db
              (step top_id now id trade source operator note o db false b).1
      pending_moves db o e false q = inl (refl, e)
      pending_moves db o e true q =
          let t = topup_of top_id now id trade source operator note o in
          let before = with_paid top_id now id trade source operator note o db in
          topup_moves o db (insert_topup t before) e ((eq_iff o.status order_pending).0 q)
            (with_paid-paid top_id now id trade source operator note o db (insert_topup t before).1
              e (insert_topup-orders t before))
            (insert_topup-users t before)

  mark_moves :
      (c : Conn)
      → IsCreditedOnce id
          (order_of id c.db)
          c.db
          (mark top_id now id trade source operator note c).1.db
  mark_moves c =
      elim (mark_order_paid_and_credit_atomic top_id now id trade source operator note c) [
        | inl (fault, same) ↦ rw same (stays c.db (order_of id c.db) refl)
        | inr (r, d) ↦ rw d (call_moves c.db (order_of id c.db) refl)
      ]
    where
      stays : (db : Db) (x : Option PaymentOrder) → order_of id db ≡ x → IsCreditedOnce id x db db
      stays db none e = (refl, e)
      stays db (some o) e = inl (refl, e)

moves_paid :
    (id : String) (x : Option PaymentOrder) (db db' : Db)
    → order_of id db ≡ x
    → has_paid_status x ≡ true
    → IsCreditedOnce id x db db'
    → (db'.users ≡ db.users) × (is_paid id db' ≡ true)
moves_paid id none db db' e h m = absurd (true≢false (sym h))
moves_paid id (some o) db db' e h (inl (same, still)) = (same, ap has_paid_status still ∙ h)
moves_paid id (some o) db db' e h (inr (p, paid, users)) =
    absurd (true≢false (sym h ∙ ap (λ s. str_eq s order_paid) p))

notify_all-paid :
    (id : String) (ns : List Notification) (c : Conn)
    → is_paid id c.db ≡ true
    → let d = (notify_all id ns c).db in (d.users ≡ c.db.users) × (is_paid id d ≡ true)
unfolding notify_all
notify_all-paid id [] c h = (refl, h)
notify_all-paid id (n ∷ rest) c h =
    let (same, paid) =
      moves_paid id (order_of id c.db) c.db (notified id n c).1.db refl h
        (mark_moves n.top_id n.now id n.trade n.source n.operator n.note c) in
    let later = notify_all-paid id rest (notified id n c).1 paid in (later.0 ∙ same, later.1)

once_more :
    (id : String) (x : Option PaymentOrder) (db db' last : Db)
    → IsCreditedOnce id x db db'
    → IsCreditedOnce id (order_of id db') db' last
    → (is_paid id db' ≡ true → (last.users ≡ db'.users) × (is_paid id last ≡ true))
    → IsCreditedOnce id x db last
once_more id none db db' last (same, gone) later paid_later =
    let (same', gone') = subst (λ x. IsCreditedOnce id x db' last) gone later in
    (same' ∙ same, gone')
once_more id (some o) db db' last (inl (same, still)) later paid_later =
    elim (subst (λ x. IsCreditedOnce id x db' last) still later) [
      | inl (same', still') ↦ inl (same' ∙ same, still')
      | inr (p, paid, once) ↦ inr (p, paid, once ∙ ap (credited_users o) same)
    ]
once_more id (some o) db db' last (inr (p, paid, once)) later paid_later =
    let (same', paid') = paid_later paid in inr (p, paid', same' ∙ once)

-- However often the payment of an order is notified, with whatever trade numbers, sources and
-- clocks, and wherever the driver fails, the database ends with the order and all users as they were;
-- or, only where the order was pending before the first call, with the order paid and its credit added
-- exactly once to the total of the user that the order names, and no other change of a user.
pub credits_given_once :
    (id : String) (ns : List Notification) (c : Conn)
    → IsCreditedOnce id (order_of id c.db) c.db (notify_all id ns c).db
unfolding notify_all
credits_given_once id [] c = unchanged (order_of id c.db) refl
  where
    unchanged : (x : Option PaymentOrder) → order_of id c.db ≡ x → IsCreditedOnce id x c.db c.db
    unchanged none e = (refl, e)
    unchanged (some o) e = inl (refl, e)
credits_given_once id (n ∷ rest) c =
    once_more id (order_of id c.db) c.db (notified id n c).1.db
      (notify_all id rest (notified id n c).1).db
      (mark_moves n.top_id n.now id n.trade n.source n.operator n.note c)
      (credits_given_once id rest (notified id n c).1) (notify_all-paid id rest (notified id n c).1)
