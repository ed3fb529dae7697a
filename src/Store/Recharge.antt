-- ===== src/Store/Recharge.antt =====
-- internal/store/recharge.go and the order statements of internal/store/sqlite_recharge.go.
-- New ids and the text of the clock are arguments.
pub mod Manual
pub mod Once
pub mod Replay
use subport.Prelude.{
  ℕ, zero, suc, ◌+◌, ◌-◌, ◌*◌, ◌/◌, ◌%◌, ◌^◌, ◌≤◌, ◌<◌, String, ◌≡◌, refl, sym, ap, ◌∙◌, ◌≢◌, ◌↔◌,
  ◌⊎◌, inl, inr, Bool, true, false, ◌&&◌, ◌||◌, not, Option, none, some, List, [], ◌∷◌, ◌++◌, map,
  arith, str_eq, eq_iff, eq_refl, ltb, leb, ◌==◌, if◌then◌else◌, Bool-cases, if_rule, Option-cases,
  ltb→lt, lt→ltb, leb→le, ==_iff, tests, length, get_elem?, length-append, All, All-append,
  get_elem?-All, keep,
}
use subport.Prelude.Int.{
  ℤ, pos, negsuc, pos_part, neg_part, sub_ℕ, ◌+ℤ◌, ◌-ℤ◌, ◌*ℤ◌, ◌≤ℤ◌, ltb_ℤ, +ℤ_parts, -ℤ_parts,
  eq_of_parts, int_laws,
}
use subport.Store.Table.{find_row, update_row}
use subport.Store.Rows.{
  User, PaymentOrder, QuotaTopup, Db, order_pending, order_paid, provider_admin_manual,
  topup_source_alipay, topup_source_admin,
}
use subport.Store.Sql.{
  Error, not_found, constraint, refused, Result, ok, err, Sql, pure, raise, or_err, statement,
  select, exec, Ending, commit, rollback, transact, ◌>>=◌, ◌>>◌,
}
use subport.Store.Quota.{user_of, update_user, is_positive}

abbrev pub order_key : PaymentOrder → String
order_key o = o.id

abbrev pub topup_key : QuotaTopup → String
topup_key t = t.id

abbrev pub topup_order : QuotaTopup → String
topup_order t = t.order_id

abbrev pub order_of : String → Db → Option PaymentOrder
order_of id db = find_row order_key id db.orders

-- SELECT … WHERE user_id=? AND idempotency_key=?
unfoldable pub find_idem : String → String → List PaymentOrder → Option PaymentOrder
find_idem user key [] = none
find_idem user key (o ∷ rest) =
    if str_eq o.user_id user && str_eq o.idempotency_key key
    then some o
    else find_idem user key rest

-- The primary key, and the unique index on (user_id, idempotency_key) where the key is not ''.
unfoldable pub insert_order : PaymentOrder → Db → Result (Unit {0}) × Db
unfolding find_row find_idem
insert_order o db = elim (order_of o.id db) [
  | some _ ↦ (err constraint, db)
  | none ↦
      elim (if str_eq o.idempotency_key ""
        then none
        else find_idem o.user_id o.idempotency_key db.orders) [
          | some _ ↦ (err constraint, db)
          | none ↦ (ok tt, record db { orders = db.orders ++ o ∷ [] })
        ]
]

-- The primary key, and the unique index on order_id where it is not ''.
unfoldable pub insert_topup : QuotaTopup → Db → Result (Unit {0}) × Db
unfolding find_row
insert_topup t db = elim (find_row topup_key t.id db.topups) [
  | some _ ↦ (err constraint, db)
  | none ↦ elim (if str_eq t.order_id "" then none else find_row topup_order t.order_id db.topups) [
    | some _ ↦ (err constraint, db)
    | none ↦ (ok tt, record db { topups = db.topups ++ t ∷ [] })
  ]
]

abbrev pub raise_total : ℤ → User → User
raise_total credit u = record u { quota_total = u.quota_total +ℤ credit }

-- UPDATE users …, with no row as ErrNotFound.
unfoldable pub add_credit : String → ℤ → Db → Result (Unit {0}) × Db
unfolding update_user
add_credit user credit db = elim (user_of db user) [
  | none ↦ (err not_found, db)
  | some _ ↦ (ok tt, update_user user (raise_total credit) db)
]

-- The new totals.
unfoldable pub sqlite_add_quota_credit : String → ℤ → Sql (ℤ × ℤ)
unfolding statement select add_credit
sqlite_add_quota_credit user credit = do
  statement (add_credit user credit)
  u ← select (λ db. user_of db user)
  v ← or_err u not_found
  pure (v.quota_total, v.quota_used)

unfoldable pub add_quota_credit : String → ℤ → Sql (ℤ × ℤ)
unfolding sqlite_add_quota_credit
add_quota_credit user credit =
    if is_positive credit
    then sqlite_add_quota_credit user credit
    else raise (refused "credit must be positive")

-- The defaults of CreatePaymentOrder.
abbrev pub with_defaults : String → String → PaymentOrder → PaymentOrder
with_defaults id now o = record o {
  id = if str_eq o.id "" then id else o.id;
  status = if str_eq o.status "" then order_pending else o.status;
  created_at = if str_eq o.created_at "" then now else o.created_at;
}

abbrev pub create_new : PaymentOrder → Sql PaymentOrder
create_new o = do statement (insert_order o); pure o

abbrev pub return_or_create : Option PaymentOrder → PaymentOrder → Sql PaymentOrder
return_or_create (some existing) o = pure existing
return_or_create none o = create_new o

unfoldable pub create_payment_order : String → String → PaymentOrder → Sql PaymentOrder
unfolding statement select find_idem
create_payment_order id now o =
    if str_eq o.idempotency_key "" then create_new (with_defaults id now o) else do
      existing ← select (λ db. find_idem o.user_id o.idempotency_key db.orders)
      return_or_create existing (with_defaults id now o)

-- An order, its top-up if there is one, and whether this call has applied the credit.
abbrev pub Receipt : Type 0
Receipt = PaymentOrder × Option QuotaTopup × Bool

abbrev pub paid_now : String → String → PaymentOrder → PaymentOrder
paid_now trade now o = record o { status = order_paid; provider_trade_no = trade; paid_at = now }

-- UPDATE payment_orders SET … WHERE id=? AND status='pending', with its RowsAffected.
unfoldable pub pay_order : String → String → String → Db → Result ℕ × Db
unfolding find_row update_row
pay_order id trade now db = elim (order_of id db) [
  | none ↦ (ok 0, db)
  | some o ↦
      if str_eq o.status order_pending
      then (ok 1, record db { orders = update_row order_key id (paid_now trade now) db.orders })
      else (ok 0, db)
]

abbrev pub topup_for : String → String → String → String → String → PaymentOrder → QuotaTopup
topup_for id now source operator note o = record {
  id = id;
  user_id = o.user_id;
  order_id = o.id;
  credit = o.quota_credit;
  source = source;
  operator_id = operator;
  note = note;
  created_at = now;
}

-- After the UPDATE of a pending order.
abbrev pub credit_order : String → PaymentOrder → QuotaTopup → ℕ → Sql (Ending Receipt)
credit_order id o top n =
    if n == 0
    then (do
      again ← select (order_of id)
      o2 ← or_err again not_found
      pure (rollback (o2, none, false)))
    else (do
      statement (insert_topup top)
      exec (update_user o.user_id (raise_total o.quota_credit))
      pure (commit (paid_now o.provider_trade_no top.created_at o, some top, true)))

-- `trade` is the number of the notification, or the order's own where that is ''.
abbrev pub trade_of : String → PaymentOrder → String
trade_of trade o = if str_eq trade "" then o.provider_trade_no else trade

abbrev pub settle_order :
    String
    → String
    → String
    → String
    → String
    → String
    → String
    → Option PaymentOrder
    → Sql (Ending Receipt)
settle_order top_id now id trade source operator note none = raise not_found
settle_order top_id now id trade source operator note (some o) =
    if str_eq o.status order_paid
    then (do t ← select (λ db. find_row topup_order id db.topups); pure (rollback (o, t, false)))
    else if not (str_eq o.status order_pending)
    then raise (refused "order not pending")
    else (do
      n ← statement (pay_order id (trade_of trade o) now)
      credit_order id (record o { provider_trade_no = trade_of trade o })
          (topup_for top_id now source operator note o) n)

unfoldable pub mark_order_paid_and_credit :
    String → String → String → String → String → String → String → Sql Receipt
unfolding transact statement select exec
mark_order_paid_and_credit top_id now id trade source operator note = transact (do
  o ← select (order_of id)
  settle_order top_id now id trade (if str_eq source "" then topup_source_alipay else source)
      operator note o)
