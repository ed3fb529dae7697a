-- ===== src/Store/Recharge/Once.antt =====
-- internal/store/recharge.go, MarkOrderPaidAndCredit: an order is credited once, however often its payment is notified.
use subport.Prelude.{
  ℕ, String, ◌≡◌, refl, ap, ◌∙◌, ◌⊎◌, inl, inr, true, false, not, Option, none, some, arith, str_eq,
  if◌then◌else◌, Bool-cases,
}
use subport.Store.Table.{find_row, update_row}
use subport.Store.Rows.{
  PaymentOrder, QuotaTopup, Db, order_pending, order_paid, topup_source_alipay,
}
use subport.Store.Sql.{
  Error, not_found, driver_fault, refused, Result, ok, err, Conn, healthy, Sql, pure, or_err,
  statement, select, exec, continue, Ending, commit, finish_ending, transact, ◌>>=◌, ◌>>◌,
}
use subport.Store.Sql.Faults.{
  select-IsFaithful, pure-IsFaithful, raise-IsFaithful, bind-IsFaithful, FailsClean, IsFaithful,
  faithful_rules, transact-FailsClean, transact-IsFaithful,
}
use subport.Store.Quota.{update_user}
use subport.Store.Recharge.{
  order_key, topup_order, order_of, insert_topup, raise_total, Receipt, paid_now, pay_order,
  topup_for, credit_order, trade_of, settle_order, mark_order_paid_and_credit,
}

abbrev pub outcome {ℓ} : {A : Type ℓ} → Result A × Conn → Result A × Db
outcome x = (x.0, x.1.db)

module _ (top_id now id trade source operator note : String) where
  abbrev source_of : String
  source_of = if str_eq source "" then topup_source_alipay else source

  abbrev pub mark : Sql Receipt
  mark = mark_order_paid_and_credit top_id now id trade source operator note

  -- The order after its payment, and the top-up that goes with it.
  abbrev pub paid : PaymentOrder → PaymentOrder
  paid o = paid_now (trade_of trade o) now o

  abbrev pub topup_of : PaymentOrder → QuotaTopup
  topup_of o =
      topup_for top_id now source_of operator note
        (record o { provider_trade_no = trade_of trade o })

  -- The database with the order paid.
  abbrev pub with_paid : PaymentOrder → Db → Db
  with_paid o db = record db {
    orders = update_row order_key id (paid_now (trade_of trade o) now) db.orders;
  }

  abbrev pub after_topup : PaymentOrder → Db → Result (Unit {0}) × Db → Result Receipt × Db
  after_topup o before (err e, db) = (err e, before)
  after_topup o before (ok _, db) =
      (ok (paid o, some (topup_of o), true), update_user o.user_id (raise_total o.quota_credit) db)

  -- What marking an order as paid promises.
  abbrev pub payment_of : Option PaymentOrder → Db → Result Receipt × Db
  payment_of none db = (err not_found, db)
  payment_of (some o) db =
      if str_eq o.status order_paid
      then (ok (o, find_row topup_order id db.topups, false), db)
      else if not (str_eq o.status order_pending)
      then (err (refused "order not pending"), db)
      else after_topup o db (insert_topup (topup_of o) (with_paid o db))

  pay_order_pending :
      (o : PaymentOrder) (db : Db)
      → order_of id db ≡ some o
      → str_eq o.status order_pending ≡ true
      → pay_order id (trade_of trade o) now db ≡ (ok 1, with_paid o db)
  unfolding pay_order
  pay_order_pending o db e p = ground arith

  or_err-IsFaithful : (x : Option PaymentOrder) (e : Error) → IsFaithful (or_err x e)
  or_err-IsFaithful none e = raise-IsFaithful e
  or_err-IsFaithful (some a) e = pure-IsFaithful a

  credit_order-IsFaithful :
      (o : PaymentOrder) (t : QuotaTopup) (n : ℕ) → IsFaithful (credit_order id o t n)
  credit_order-IsFaithful o t n = search (faithful_rules, or_err-IsFaithful) depth 9

  settle_order-IsFaithful :
      (x : Option PaymentOrder)
      → IsFaithful (settle_order top_id now id trade source_of operator note x)
  settle_order-IsFaithful none = raise-IsFaithful _
  settle_order-IsFaithful (some o) = search (faithful_rules, credit_order-IsFaithful) depth 9

  mark-IsFaithful : IsFaithful mark
  unfolding mark_order_paid_and_credit
  mark-IsFaithful =
      transact-IsFaithful _ (bind-IsFaithful _ _ settle_order-IsFaithful (select-IsFaithful _))

  -- From the UPDATE of the order to the end of the transaction.
  credited_end :
      (o : PaymentOrder) (before : Db) (x : Result (Unit {0}) × Db)
      → let y =
          continue {B = Ending Receipt} x.0
            (λ _. do
              exec (update_user o.user_id (raise_total o.quota_credit))
              pure (commit (paid o, some (topup_of o), true)))
            (healthy x.1) in
        outcome (finish_ending before y.0 y.1) ≡ after_topup o before x
  unfolding exec statement
  credited_end o before (ok _, db) = refl
  credited_end o before (err e, db) = refl

  settled_end :
      (db : Db) (x : Option PaymentOrder)
      → order_of id db ≡ x
      → let y = settle_order top_id now id trade source_of operator note x (healthy db) in
        outcome (finish_ending db y.0 y.1) ≡ payment_of x db
  unfolding statement select
  settled_end db none e = refl
  settled_end db (some o) e = elim (Bool-cases (str_eq o.status order_paid)) [
    | inl y ↦ rw y refl
    | inr n ↦ elim (Bool-cases (str_eq o.status order_pending)) [
      | inl p ↦
          rw (n, p, pay_order_pending o db e p)
            (credited_end o db (insert_topup (topup_of o) (with_paid o db)))
      | inr q ↦ rw (n, q) refl
    ]
  ]

  mark_healthy : (db : Db) → outcome (mark (healthy db)) ≡ payment_of (order_of id db) db
  unfolding mark_order_paid_and_credit transact statement select
  mark_healthy db = settled_end db (order_of id db) refl

  pub mark-FailsClean : FailsClean mark
  unfolding mark_order_paid_and_credit
  mark-FailsClean =
      transact-FailsClean
        (select (order_of id) >>= settle_order top_id now id trade source_of operator note)

  -- Wherever a fault strikes, begin and Commit included, a notification of a payment is all or
  -- nothing: it reports the fault and has changed nothing, or it has the outcome of `payment_of`.
  -- There an order that is paid already gives no credit and changes nothing; an order that is not
  -- pending, or not there, is an error and changes nothing; a pending order becomes paid, with one
  -- top-up row and the whole credit on its user, or a constraint error and no change.
  pub mark_order_paid_and_credit_atomic :
      (c : Conn)
      → let (r, c') = mark c in
        let spec = payment_of (order_of id c.db) c.db in
        ((r ≡ err driver_fault) × (c'.db ≡ c.db)) ⊎ ((r ≡ spec.0) × (c'.db ≡ spec.1))
  mark_order_paid_and_credit_atomic c = elim (mark-IsFaithful.at c) [
    | inl fault ↦ inl (fault, mark-FailsClean.at c driver_fault fault)
    | inr same ↦
        let spec = mark_healthy c.db in
        inr (same.0 ∙ ap (λ x. x.0) spec, same.1 ∙ ap (λ x. x.1) spec)
  ]
