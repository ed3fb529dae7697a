-- ===== src/Examples/Payments.antt =====
-- Orders and their payments: internal/store/recharge.go.
use subport.Prelude.{◌++◌, if◌then◌else◌, ◌≤◌, String, ◌≡◌, refl, ◌⊎◌, true, false, List, [], ◌∷◌}
use subport.Prelude.Int.{pos}
use subport.Store.Rows.{User, PaymentOrder, Db, empty_db, order_pending}
use subport.Store.Table.{find_row}
use subport.Store.Recharge.Manual.{manual_order, admin_manual_topup, admin_manual_topup_unknown}
use subport.Store.Sql.{not_found, driver_fault, err, Conn, healthy}
use subport.Store.Recharge.{order_of, Receipt}
use subport.Store.Recharge.Once.{mark, payment_of, mark_order_paid_and_credit_atomic}
use subport.Store.Recharge.Replay.{Notification, IsCreditedOnce, notify_all, credits_given_once}

abbrev bob : User
bob = record {
  id = "bob";
  username = [];
  password_hash = "";
  salt = "";
  role = "user";
  quota_total = pos 0;
  quota_used = pos 0;
  quota_reserved = pos 0;
  created_at = 0;
  billing_group = "";
  ratio_override = pos 0;
}

abbrev pending : PaymentOrder
pending = record {
  id = "o1";
  user_id = "bob";
  provider = "alipay";
  package_id = "p1";
  amount_fiat_cents = pos 1000;
  currency = "CNY";
  quota_credit = pos 5000;
  status = order_pending;
  provider_trade_no = "";
  pay_url = "";
  idempotency_key = "";
  created_at = "t0";
  paid_at = "";
  expires_at = "";
}

abbrev shop : Db
shop = record empty_db { users = bob ∷ []; orders = pending ∷ [] }

abbrev notice : String → Notification
notice top_id = record {
  top_id = top_id;
  now = "t1";
  trade = "2026";
  source = "";
  operator = "";
  note = "";
}

-- The Commit of the first call is refused.
abbrev flaky : Conn
flaky = record { db = shop; faults = false ∷ false ∷ false ∷ false ∷ false ∷ true ∷ [] }

abbrev three : List Notification
three = notice "t1" ∷ notice "t2" ∷ notice "t3" ∷ []

mark_order_paid_and_credit_atomic_example :
    let (r, c') = mark "t1" "now" "o1" "2026" "" "" "" (healthy shop) in
    let spec = payment_of "t1" "now" "o1" "2026" "" "" "" (order_of "o1" shop) shop in
    ((r ≡ err driver_fault) × (c'.db ≡ shop)) ⊎ ((r ≡ spec.0) × (c'.db ≡ spec.1))
mark_order_paid_and_credit_atomic_example =
    mark_order_paid_and_credit_atomic "t1" "now" "o1" "2026" "" "" "" (healthy shop)

credits_given_once_example :
    IsCreditedOnce "o1" (order_of "o1" shop) shop (notify_all "o1" three flaky).db
credits_given_once_example = credits_given_once "o1" three flaky

-- The second call gives the credit; the third finds the order paid.
one_credit : (notify_all "o1" three flaky).db.users ≡ record bob { quota_total = pos 5000 } ∷ []
unfolding notify_all subport.Store.Table.find_row subport.Store.Recharge.pay_order
    subport.Store.Recharge.insert_topup subport.Store.Table.update_row
    subport.Store.Quota.update_user subport.Prelude.Int.◌+ℤ◌
    subport.Store.Recharge.mark_order_paid_and_credit
one_credit = refl

admin_manual_topup_unknown_example :
    admin_manual_topup "t1" "nobody" (pos 10) "o9" "t9" "root" "" true (healthy shop) ≡ (
      err not_found,
      healthy
          (record shop { orders = shop.orders ++ manual_order "t1" "nobody" (pos 10) "o9" ∷ [] }),
    )
unfolding find_row
admin_manual_topup_unknown_example =
    admin_manual_topup_unknown "t1" "nobody" (pos 10) "o9" "t9" "root" "" shop refl refl refl
