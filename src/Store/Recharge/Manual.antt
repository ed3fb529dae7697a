-- ===== src/Store/Recharge/Manual.antt =====
-- internal/store/recharge.go, AdminManualTopup and SetPaymentOrderPayURL. The credit, the order and
-- the top-up row are separate statements with no transaction around them.
use subport.Prelude.{
  String, ◌≡◌, refl, Bool, true, not, Option, none, some, [], ◌∷◌, ◌++◌, arith, if◌then◌else◌,
}
use subport.Prelude.Int.{ℤ, pos}
use subport.Store.Table.{find_row, update_row}
use subport.Store.Rows.{
  PaymentOrder, QuotaTopup, Db, order_paid, provider_admin_manual, topup_source_admin,
}
use subport.Store.Sql.{
  not_found, refused, ok, err, healthy, Sql, pure, raise, statement, exec, ◌>>◌,
}
use subport.Store.Quota.{user_of, is_positive}
use subport.Store.Recharge.{
  order_key, order_of, insert_order, insert_topup, sqlite_add_quota_credit,
}

unfoldable pub set_payment_order_pay_url : String → String → Sql (Unit {0})
unfolding exec update_row
set_payment_order_pay_url id url = exec (λ db. record db {
  orders = update_row order_key id (λ o. record o { pay_url = url }) db.orders;
})

module _ (now user : String) (credit : ℤ) where
  abbrev pub manual_order : String → PaymentOrder
  manual_order id = record {
    id = id;
    user_id = user;
    provider = provider_admin_manual;
    package_id = "admin";
    amount_fiat_cents = pos 0;
    currency = "CNY";
    quota_credit = credit;
    status = order_paid;
    provider_trade_no = "";
    pay_url = "";
    idempotency_key = "";
    created_at = now;
    paid_at = now;
    expires_at = "";
  }

  abbrev pub manual_topup : String → String → String → String → QuotaTopup
  manual_topup id order operator note = record {
    id = id;
    user_id = user;
    order_id = order;
    credit = credit;
    source = topup_source_admin;
    operator_id = operator;
    note = note;
    created_at = now;
  }

  -- The credit and the audit row, after the order if there is one.
  abbrev pub credit_manually :
      Option PaymentOrder → QuotaTopup → Sql (QuotaTopup × Option PaymentOrder)
  credit_manually order top = do
    sqlite_add_quota_credit user credit
    statement (insert_topup top)
    pure (top, order)

  unfoldable pub admin_manual_topup :
      String → String → String → String → Bool → Sql (QuotaTopup × Option PaymentOrder)
  unfolding statement insert_order insert_topup sqlite_add_quota_credit
  admin_manual_topup order_id top_id operator note with_order =
      if not (is_positive credit)
      then raise (refused "credit must be positive")
      else if with_order
      then (do
        statement (insert_order (manual_order order_id))
        credit_manually (some (manual_order order_id)) (manual_topup top_id order_id operator note))
      else credit_manually none (manual_topup top_id "" operator note)

  insert_order_fresh :
      (order_id : String) (db : Db)
      → order_of order_id db ≡ none
      → insert_order (manual_order order_id) db
        ≡ (ok tt, record db { orders = db.orders ++ manual_order order_id ∷ [] })
  unfolding insert_order
  insert_order_fresh order_id db e = ground arith

  add_quota_credit_unknown :
      (db : Db)
      → user_of db user ≡ none
      → sqlite_add_quota_credit user credit (healthy db) ≡ (err not_found, healthy db)
  unfolding sqlite_add_quota_credit find_row
  add_quota_credit_unknown db e = rw e refl

  -- A manual top-up with an order for a user who is not there, with no fault and a fresh order id,
  -- reports ErrNotFound, and it leaves behind an order that reads as paid.
  pub admin_manual_topup_unknown :
      (order_id top_id operator note : String) (db : Db)
      → is_positive credit ≡ true
      → user_of db user ≡ none
      → order_of order_id db ≡ none
      → admin_manual_topup order_id top_id operator note true (healthy db)
        ≡ (err not_found, healthy (record db { orders = db.orders ++ manual_order order_id ∷ [] }))
  unfolding admin_manual_topup
  admin_manual_topup_unknown order_id top_id operator note db p u o =
      rw (p, insert_order_fresh order_id db o)
        (rw
          (add_quota_credit_unknown (record db { orders = db.orders ++ manual_order order_id ∷ [] })
            u)
          refl)
