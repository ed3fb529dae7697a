-- ===== src/Store/Rows.antt =====
-- internal/model/model.go, pricing.go and recharge.go: the rows of the tables. A column that the
-- Go struct leaves out and the table has (billing_group, ratio_override) stands in the row.
-- A time that SQL orders by is its instant in nanoseconds; one that is only copied is a text.
use subport.Prelude.{ℕ, String, Bool, List, []}
use subport.Prelude.Int.{ℤ}
use subport.Prelude.Text.{Text}
use subport.Pricing.{TokenCounts, BilledRate, ModelPrice}

pub record User : Type 0 where
  pub id : String
  pub username : Text
  pub password_hash : String
  pub salt : String
  pub role : String
  pub quota_total : ℤ
  pub quota_used : ℤ
  pub quota_reserved : ℤ
  pub created_at : ℕ
  pub billing_group : String
  pub ratio_override : ℤ

pub record ApiKey : Type 0 where
  pub id : String
  pub user_id : String
  pub name : String
  pub prefix : String
  pub secret_sha : String
  pub enabled : Bool
  pub created_at : ℕ
  pub last_used : String

pub record UsageLog : Type 0 where
  pub id : String
  pub user_id : String
  pub key_id : String
  pub model : Text
  pub account_id : String
  pub tokens : ℤ
  pub token_parts : TokenCounts
  pub billed_at : BilledRate
  pub cost : ℤ
  pub status : String
  pub stream_broken : Bool
  pub compensated : Bool
  pub attempts : ℕ
  pub created_at : ℕ

pub record Session : Type 0 where
  pub token : String
  pub user_id : String
  pub expires_at : ℕ

pub record PaymentOrder : Type 0 where
  pub id : String
  pub user_id : String
  pub provider : String
  pub package_id : String
  pub amount_fiat_cents : ℤ
  pub currency : String
  pub quota_credit : ℤ
  pub status : String
  pub provider_trade_no : String
  pub pay_url : String
  pub idempotency_key : String
  pub created_at : String
  pub paid_at : String
  pub expires_at : String

abbrev pub order_pending : String
order_pending = "pending"

abbrev pub order_paid : String
order_paid = "paid"

abbrev pub provider_admin_manual : String
provider_admin_manual = "admin_manual"

abbrev pub topup_source_alipay : String
topup_source_alipay = "alipay"

abbrev pub topup_source_admin : String
topup_source_admin = "admin"

pub record QuotaTopup : Type 0 where
  pub id : String
  pub user_id : String
  pub order_id : String
  pub credit : ℤ
  pub source : String
  pub operator_id : String
  pub note : String
  pub created_at : String

-- A row of billing_groups.
pub record BillingGroup : Type 0 where
  pub name : String
  pub ratio : ℤ

-- The database that a store holds.
pub record Db : Type 0 where
  pub users : List User
  pub keys : List ApiKey
  pub usage : List UsageLog
  pub sessions : List Session
  pub prices : List ModelPrice
  pub groups : List BillingGroup
  pub orders : List PaymentOrder
  pub topups : List QuotaTopup

abbrev pub empty_db : Db
empty_db = record {
  users = [];
  keys = [];
  usage = [];
  sessions = [];
  prices = [];
  groups = [];
  orders = [];
  topups = [];
}
