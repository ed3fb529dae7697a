-- ===== src/Http/Payments.antt =====
-- internal/httpapi/recharge.go (the notification, the order and the mock payment of a recharge), with
-- the packages of internal/store/recharge.go. `name_of` is a text as an id: the code has one type for
-- both. `yuan` formats an amount of cents.
pub mod Verified
pub mod Underpaid
use subport.Prelude.{
  ℕ, zero, suc, ◌+◌, ◌-◌, ◌*◌, ◌/◌, ◌%◌, ◌^◌, ◌≤◌, ◌<◌, String, ◌≡◌, refl, sym, ap, ◌∙◌, ◌≢◌, ◌↔◌,
  ◌⊎◌, inl, inr, Bool, true, false, ◌&&◌, ◌||◌, not, Option, none, some, List, [], ◌∷◌, ◌++◌, map,
  arith, str_eq, eq_iff, eq_refl, ltb, leb, ◌==◌, if◌then◌else◌, Bool-cases, if_rule, Option-cases,
  ltb→lt, lt→ltb, leb→le, ==_iff, tests, length, get_elem?, length-append, All, All-append,
  get_elem?-All, keep,
}
use subport.Prelude.Int.{
  ℤ, pos, negsuc, pos_part, neg_part, sub_ℕ, ◌+ℤ◌, ◌-ℤ◌, ◌*ℤ◌, ◌≤ℤ◌, ltb_ℤ, +ℤ_parts, -ℤ_parts,
  eq_of_parts, int_laws,
}
use mathlib.Core.Option
use subport.Prelude.Text.{Text, codes, text_eq, is_empty}
use subport.Store.Rows.{User, PaymentOrder, QuotaTopup, order_pending, topup_source_alipay}
use subport.Store.Sql.{
  Error, not_found, Result, ok, err, Sql, pure, or_err, select, ignoring, ◌>>=◌, ◌>>◌,
}
use subport.Store.Billing.{recover}
use subport.Store.Recharge.{order_of, create_payment_order, mark_order_paid_and_credit, Receipt}
use subport.Store.Recharge.Manual.{set_payment_order_pay_url}
use subport.Payment.{Config, Params, value_of, ready_for_live, verify_notify, create_payment}

pub record RechargePackage : Type 0 where
  pub id : String
  pub label : Text
  pub amount_fiat_cents : ℤ
  pub currency : String
  pub quota_credit : ℤ

abbrev pub package_of : String → String → ℕ → ℕ → RechargePackage
package_of id label cents credit = record {
  id = id;
  label = codes label;
  amount_fiat_cents = pos cents;
  currency = "CNY";
  quota_credit = pos credit;
}

abbrev pub default_recharge_packages : List RechargePackage
default_recharge_packages =
    package_of "p10" "10 CNY" 1000 200000
    ∷ package_of "p50" "50 CNY" 5000 1000000
    ∷ package_of "p100" "100 CNY" 10000 2200000
    ∷ []

-- `configured` is what json.Unmarshal makes of the setting, none where it is empty or does not parse.
abbrev pub load_recharge_packages : Option (List RechargePackage) → List RechargePackage
load_recharge_packages none = default_recharge_packages
load_recharge_packages (some []) = default_recharge_packages
load_recharge_packages (some (p ∷ rest)) = p ∷ rest

unfoldable pub package_by_id : String → List RechargePackage → Option RechargePackage
package_by_id id [] = none
package_by_id id (p ∷ rest) = if str_eq p.id id then some p else package_by_id id rest

-- What ParseForm, the header and the JSON body of a notification hold.
pub record NotifyRequest : Type 0 where
  pub form : Params
  pub is_json : Bool
  pub json_body : Params
  pub mock_header : Bool

pub data NotifyReply : Type 0 where
  success forbidden unavailable invalid_signature missing_order order_error : NotifyReply

abbrev pub values : NotifyRequest → Params
values r = elim r.form [ [] ↦ if r.is_json then r.json_body else [] | p ∷ rest ↦ p ∷ rest ]

abbrev pub is_value : String → String → Params → Bool
is_value k v vals = text_eq (value_of (codes k) vals) (codes v)

-- none lets the notification in.
unfoldable pub check_notify :
    (Text → Text → Text → Bool) → Config → NotifyRequest → Option NotifyReply
unfolding verify_notify ready_for_live value_of text_eq
check_notify verify cfg r =
    if cfg.mock
    then if not r.mock_header && not (is_value "mock" "1" (values r)) then some forbidden else none
    else if not (ready_for_live cfg)
    then some unavailable
    else if not (verify_notify verify cfg (values r))
    then some invalid_signature
    else none

abbrev pub is_paid_status : Params → Bool
is_paid_status vals =
    is_empty (value_of (codes "trade_status") vals)
    || is_value "trade_status" "TRADE_SUCCESS" vals
    || is_value "trade_status" "TRADE_FINISHED" vals

module _ (name_of : Text → String) where
  abbrev pub mark_notified : String → String → Params → Sql Receipt
  mark_notified top_id now vals =
      mark_order_paid_and_credit top_id now (name_of (value_of (codes "out_trade_no") vals))
        (name_of (value_of (codes "trade_no") vals)) topup_source_alipay "" "alipay notify"

  -- Another status is acknowledged and credits nothing.
  abbrev pub settle_notify : String → String → Params → Sql NotifyReply
  settle_notify top_id now vals =
      if is_empty (value_of (codes "out_trade_no") vals)
      then pure missing_order
      else if not (is_paid_status vals)
      then pure success
      else recover (mark_notified top_id now vals)
          (λ r. pure (elim r [ ok _ ↦ success | err _ ↦ order_error ]))

  unfoldable pub handle_alipay_notify :
      (Text → Text → Text → Bool) → Config → String → String → NotifyRequest → Sql NotifyReply
  unfolding check_notify mark_order_paid_and_credit value_of text_eq is_empty
  handle_alipay_notify verify cfg top_id now r = elim (check_notify verify cfg r) [
    | some refusal ↦ pure refusal
    | none ↦ settle_notify top_id now (values r)
  ]

pub record RechargeInput : Type 0 where
  pub package_id : String
  pub idempotency_key : String

pub data RechargeReply : Type 0 where
  bad_request unknown_package not_configured missing_credentials internal_error payment_error :
      RechargeReply
  order_made : PaymentOrder → Text → RechargeReply

abbrev pub provider_alipay : String
provider_alipay = "alipay"

abbrev pub order_for : String → RechargePackage → String → String → PaymentOrder
order_for user pkg key expires = record {
  id = "";
  user_id = user;
  provider = provider_alipay;
  package_id = pkg.id;
  amount_fiat_cents = pkg.amount_fiat_cents;
  currency = pkg.currency;
  quota_credit = pkg.quota_credit;
  status = order_pending;
  provider_trade_no = "";
  pay_url = "";
  idempotency_key = key;
  created_at = "";
  paid_at = "";
  expires_at = expires;
}

-- What a request has of the clock, the random source and the code of others.
pub record Desk : Type 0 where
  pub cfg : Config
  pub packages : List RechargePackage
  pub sign : Text → Text → Option Text
  pub escape : Text → Text
  pub encode : Params → Text
  pub yuan : ℤ → Text
  pub name_of : Text → String
  pub clock : Text
  pub id : String
  pub now : String
  pub expires : String

module _ (desk : Desk) where
  abbrev pub pay_url_of : String → RechargePackage → Option Text
  pay_url_of order pkg =
      create_payment desk.sign desk.escape desk.encode desk.cfg desk.clock (codes order)
        (codes "Subport " ++ pkg.label) (desk.yuan pkg.amount_fiat_cents)

  abbrev pub with_url : PaymentOrder → Option Text → Sql RechargeReply
  with_url order none = pure payment_error
  with_url order (some url) = do
    ignoring (set_payment_order_pay_url order.id (desk.name_of url))
    pure (order_made (record order { pay_url = desk.name_of url }) url)

  abbrev pub recharge_package : String → String → RechargePackage → Sql RechargeReply
  recharge_package user key pkg =
      if not desk.cfg.mock && not desk.cfg.enabled
      then pure not_configured
      else if not desk.cfg.mock && not (ready_for_live desk.cfg)
      then pure missing_credentials
      else recover (create_payment_order desk.id desk.now (order_for user pkg key desk.expires))
          (λ r. elim r [
            | err _ ↦ pure internal_error
            | ok order ↦ with_url order (pay_url_of order.id pkg)
          ])

  abbrev pub recharge_found : String → String → Option RechargePackage → Sql RechargeReply
  recharge_found user key none = pure unknown_package
  recharge_found user key (some pkg) = recharge_package user key pkg

  -- POST /api/console/recharge
  unfoldable pub handle_recharge : String → Option RechargeInput → Sql RechargeReply
  unfolding package_by_id create_payment_order create_payment ready_for_live
      set_payment_order_pay_url
  handle_recharge user none = pure bad_request
  handle_recharge user (some i) =
      recharge_found user i.idempotency_key (package_by_id i.package_id desk.packages)
