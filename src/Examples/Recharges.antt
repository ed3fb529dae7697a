-- ===== src/Examples/Recharges.antt =====
-- Recharges over HTTP: internal/httpapi/recharge.go and internal/payment.
use subport.Prelude.{String, ◌≡◌, refl, ◌⊎◌, Bool, true, false, some, [], ◌∷◌, if◌then◌else◌}
use subport.Prelude.Int.{pos}
use subport.Prelude.Text.{Text, codes, text_eq, is_empty}
use subport.Store.Table.{find_row}
use subport.Store.Rows.{PaymentOrder}
use subport.Store.Sql.{ok, Conn, healthy}
use subport.Payment.{Config, Params, ready_for_live}
use subport.Http.Payments.{
  NotifyRequest, handle_alipay_notify, values, Desk, RechargePackage, package_of, package_by_id,
  default_recharge_packages, handle_recharge, order_made, pay_url_of,
}
use subport.Http.Payments.Verified.{IsAuthentic, IsSettled, handle_alipay_notify-IsAuthentic}
use subport.Http.Payments.Underpaid.{IsOpen, handle_recharge_underpaid}
use subport.Examples.Access.{house}

abbrev cfg : Config
cfg = record {
  enabled = true;
  mock = false;
  mode = codes "page";
  app_id = codes "app";
  private_key = codes "private";
  public_key = codes "public";
  public_base = codes "https://x";
  gateway = codes "https://g";
}

-- A stand-in for the signature check: the signature is the text itself.
abbrev verify : Text → Text → Text → Bool
verify public_key content sign = text_eq content sign

-- A stand-in for the spelling of an id.
abbrev name_of : Text → String
name_of t = if is_empty t then "" else "o1"

abbrev notice : NotifyRequest
notice = record {
  form =
      (codes "sign", codes "out_trade_no=o1&trade_no=t1")
      ∷ (codes "trade_no", codes "t1")
      ∷ (codes "out_trade_no", codes "o1")
      ∷ [];
  is_json = false;
  json_body = [];
  mock_header = false;
}

abbrev flaky : Conn
flaky = record { db = house; faults = false ∷ false ∷ true ∷ [] }

handle_alipay_notify-IsAuthentic_example :
    let x = handle_alipay_notify name_of verify cfg "tp1" "now" notice flaky in
    (x.1.db ≡ house)
    ⊎ (IsAuthentic verify cfg notice × IsSettled name_of "tp1" "now" (values notice) flaky x)
handle_alipay_notify-IsAuthentic_example =
    handle_alipay_notify-IsAuthentic verify cfg name_of "tp1" "now" notice flaky

abbrev desk : String → Desk
desk id = record {
  cfg = cfg;
  packages = default_recharge_packages;
  sign = λ key content. some (codes "s");
  escape = λ t. t;
  encode = λ params. [];
  yuan = λ cents. codes "10.00";
  name_of = name_of;
  clock = codes "now";
  id = id;
  now = "now";
  expires = "later";
}

abbrev large : RechargePackage
large = package_of "p100" "100 CNY" 10000 2200000

abbrev small : RechargePackage
small = package_of "p10" "10 CNY" 1000 200000

sells : IsOpen (desk "o1")
unfolding ready_for_live
sells = (refl, refl)

large_known : package_by_id "p100" default_recharge_packages ≡ some large
unfolding package_by_id
large_known = refl

small_known : package_by_id "p10" default_recharge_packages ≡ some small
unfolding package_by_id
small_known = refl

abbrev url : Text
url = codes "https://g?"

large_priced : pay_url_of (desk "o1") "o1" large ≡ some url
unfolding subport.Payment.create_payment
large_priced = refl

small_priced : pay_url_of (desk "o2") "o1" small ≡ some url
unfolding subport.Payment.create_payment
small_priced = refl

handle_recharge_underpaid_example :
    let first =
      handle_recharge
        (desk "o1")
        "carol"
        (some (record { package_id = "p100"; idempotency_key = "k" }))
        (healthy house) in
    let second =
      handle_recharge
        (desk "o2")
        "carol"
        (some (record { package_id = "p10"; idempotency_key = "k" }))
        first.1 in
    (o : PaymentOrder) × (second.0 ≡ ok (order_made o url))
    × (o.id ≡ "o1")
    × (o.quota_credit ≡ pos 2200000)
unfolding find_row subport.Store.Recharge.find_idem
handle_recharge_underpaid_example =
    handle_recharge_underpaid (desk "o1") (desk "o2") "carol" "k" "p100" "p10" large small house url
      url sells sells refl large_known small_known refl refl large_priced small_priced
