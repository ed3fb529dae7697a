-- ===== src/Http/Payments/Underpaid.antt =====
-- Two recharge requests with one idempotency key and two packages.
use subport.Prelude.{
  String, ◌≡◌, refl, ap, ◌∙◌, true, false, ◌&&◌, not, none, some, List, [], ◌∷◌, ◌++◌, arith,
  str_eq, eq_refl,
}
use subport.Store.Table.{find_row, update_row}
use subport.Prelude.Text.{Text}
use subport.Store.Rows.{PaymentOrder, Db}
use subport.Store.Sql.{Result, ok, err, Conn, healthy, Sql, pure}
use subport.Store.Recharge.{
  order_key, order_of, find_idem, create_payment_order, with_defaults, insert_order,
}
use subport.Store.Recharge.Manual.{set_payment_order_pay_url}
use subport.Payment.{ready_for_live}
use subport.Http.Payments.{
  RechargePackage, package_by_id, Desk, RechargeReply, internal_error, order_made, order_for,
  pay_url_of, with_url, recharge_package, handle_recharge,
}

find_idem-append :
    (user key : String) (rows : List PaymentOrder) (o : PaymentOrder)
    → find_idem user key rows ≡ none
    → str_eq o.user_id user ≡ true
    → str_eq o.idempotency_key key ≡ true
    → find_idem user key (rows ++ o ∷ []) ≡ some o
unfolding find_idem
find_idem-append user key [] o h u k = ground arith
find_idem-append user key (a ∷ rows) o h u k = ground (arith, find_idem-append user key rows o)

update_row-append :
    (id : String) (f : PaymentOrder → PaymentOrder) (rows : List PaymentOrder) (o : PaymentOrder)
    → find_row order_key id rows ≡ none
    → str_eq o.id id ≡ true
    → update_row order_key id f (rows ++ o ∷ []) ≡ rows ++ f o ∷ []
unfolding find_row update_row
update_row-append id f [] o h k = ground arith
update_row-append id f (a ∷ rows) o h k = ground (arith, update_row-append id f rows o)

-- The packages that may be bought.
abbrev pub IsOpen : Desk → Type 0
IsOpen desk = (desk.cfg.enabled ≡ true) × (ready_for_live desk.cfg ≡ true)

-- The order as it is inserted, and as it stands with its URL.
abbrev made : Desk → String → String → RechargePackage → PaymentOrder
made desk user key pkg = with_defaults desk.id desk.now (order_for user pkg key desk.expires)

abbrev stored : Desk → String → String → RechargePackage → Text → PaymentOrder
stored desk user key pkg url = record (made desk user key pkg) { pay_url = desk.name_of url }

abbrev with_order : PaymentOrder → Db → Db
with_order o db = record db { orders = db.orders ++ o ∷ [] }

create_new_lem :
    (desk : Desk) (user key : String) (pkg : RechargePackage) (db : Db)
    → str_eq key "" ≡ false
    → find_idem user key db.orders ≡ none
    → order_of desk.id db ≡ none
    → create_payment_order desk.id desk.now (order_for user pkg key desk.expires) (healthy db)
      ≡ (ok (made desk user key pkg), healthy (with_order (made desk user key pkg) db))
unfolding create_payment_order insert_order
create_new_lem desk user key pkg db k fresh free = ground arith

create_existing_lem :
    (desk : Desk) (user key : String) (pkg : RechargePackage) (db : Db) (o : PaymentOrder)
    → str_eq key "" ≡ false
    → find_idem user key db.orders ≡ some o
    → create_payment_order desk.id desk.now (order_for user pkg key desk.expires) (healthy db)
      ≡ (ok o, healthy db)
unfolding create_payment_order
create_existing_lem desk user key pkg db o k found = ground arith

url_set :
    (desk : Desk) (user key : String) (pkg : RechargePackage) (url : Text) (db : Db)
    → order_of desk.id db ≡ none
    → (set_payment_order_pay_url desk.id
        (desk.name_of url)
        (healthy (with_order (made desk user key pkg) db))).1
      ≡ healthy (with_order (stored desk user key pkg url) db)
unfolding set_payment_order_pay_url
url_set desk user key pkg url db free =
    rw
      (update_row-append desk.id (λ o. record o { pay_url = desk.name_of url }) db.orders
        (made desk user key pkg) free (eq_refl desk.id))
      refl

-- What handle_recharge does with the order, or with its error.
abbrev after_order : Desk → RechargePackage → Result PaymentOrder → Sql RechargeReply
after_order desk pkg r = elim r [
  | err _ ↦ pure internal_error
  | ok order ↦ with_url desk order (pay_url_of desk order.id pkg)
]

recharge_open :
    (desk : Desk) (user key : String) (pkg : RechargePackage) (o : PaymentOrder) (url : Text)
    (c c' : Conn)
    → IsOpen desk
    → create_payment_order desk.id desk.now (order_for user pkg key desk.expires) c ≡ (ok o, c')
    → pay_url_of desk o.id pkg ≡ some url
    → recharge_package desk user key pkg c ≡ with_url desk o (some url) c'
recharge_open desk user key pkg o url c c' sells created priced =
    let enabled : not desk.cfg.mock && not desk.cfg.enabled ≡ false = ground arith in
    let ready : not desk.cfg.mock && not (ready_for_live desk.cfg) ≡ false = ground arith in
    rw (enabled, ready) refl ∙ ap (λ x. after_order desk pkg x.0 x.1) created ∙ rw priced refl

-- The same key buys a large package at the price of a small one. Live payments are enabled with their
-- credentials at both moments, and no statement fails: where a first request with a new key
-- has made an order for one package, a second request with that key, for any other package and from
-- any later moment, is given a payment URL for the other package's price, and the order that is to be
-- paid there is the first one, with the first one's credit.
pub handle_recharge_underpaid :
    (desk later : Desk) (user key : String) (i j : String) (p q : RechargePackage) (db : Db)
    (url url' : Text)
    → IsOpen desk
    → IsOpen later
    → str_eq key "" ≡ false
    → package_by_id i desk.packages ≡ some p
    → package_by_id j later.packages ≡ some q
    → find_idem user key db.orders ≡ none
    → order_of desk.id db ≡ none
    → pay_url_of desk desk.id p ≡ some url
    → pay_url_of later desk.id q ≡ some url'
    → let first =
        handle_recharge desk user
          (some (record { package_id = i; idempotency_key = key }))
          (healthy db) in
      let second =
        handle_recharge later user
          (some (record { package_id = j; idempotency_key = key }))
          first.1 in
      (o : PaymentOrder) × (second.0 ≡ ok (order_made o url'))
      × (o.id ≡ desk.id)
      × (o.quota_credit ≡ p.quota_credit)
unfolding handle_recharge
handle_recharge_underpaid desk later user key i j p q db url url' sells sells' k is_p is_q fresh
      free priced priced' =
    let o = stored desk user key p url in
    let db1 = with_order o db in
    let first : recharge_package desk user key p (healthy db)
        ≡ (ok (order_made o url), healthy db1) =
      recharge_open desk user key p (made desk user key p) url (healthy db)
        (healthy (with_order (made desk user key p) db)) sells
        (create_new_lem desk user key p db k fresh free) priced
      ∙ ap (λ c. (ok (order_made o url), c)) (url_set desk user key p url db free) in
    let found = find_idem-append user key db.orders o fresh (eq_refl user) (eq_refl key) in
    let second =
      recharge_open later user key q o url' (healthy db1) (healthy db1) sells'
        (create_existing_lem later user key q db1 o k found) priced' in
    (record o { pay_url = later.name_of url' }, rw (is_p, is_q, first, second) refl, refl, refl)
