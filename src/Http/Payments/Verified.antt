-- ===== src/Http/Payments/Verified.antt =====
-- What a notification of the payment provider may do.
use subport.Prelude.{
  String, ◌≡◌, refl, sym, ap, ◌∙◌, ◌⊎◌, inl, inr, Bool, true, false, not, Option, none, some, arith,
  if_rule, keep,
}
use subport.Prelude.Text.{Text, codes, is_empty}
use subport.Store.Rows.{topup_source_alipay}
use subport.Store.Sql.{Result, ok, err, Conn, Sql, pure}
use subport.Store.Sql.Faults.{FailsClean}
use subport.Store.Billing.{recover}
use subport.Store.Recharge.Once.{mark-FailsClean}
use subport.Store.Recharge.{Receipt}
use subport.Payment.{
  Config, Params, value_of, ready_for_live, verify_notify, sorted_query, is_signed,
}
use subport.Http.Payments.{
  NotifyRequest, NotifyReply, success, order_error, values, is_value, check_notify, is_paid_status,
  mark_notified, settle_notify, handle_alipay_notify,
}

-- A notification that may be believed: signed with the provider's key over its sorted fields, or, in
-- mock mode alone, flagged as a mock.
abbrev pub IsAuthentic : (Text → Text → Text → Bool) → Config → NotifyRequest → Type 0
IsAuthentic verify cfg r =
    ((cfg.mock ≡ true) × ((r.mock_header ≡ true) ⊎ (is_value "mock" "1" (values r) ≡ true)))
    ⊎ ((cfg.mock ≡ false)
        × (ready_for_live cfg ≡ true)
        × (verify cfg.public_key (sorted_query (keep is_signed (values r)))
              (value_of (codes "sign") (values r))
            ≡ true))

check_notify-IsAuthentic :
    (verify : Text → Text → Text → Bool) (cfg : Config) (r : NotifyRequest)
    → check_notify verify cfg r ≡ none
    → IsAuthentic verify cfg r
unfolding check_notify verify_notify
check_notify-IsAuthentic verify cfg r h = ground arith

mark_notified-FailsClean :
    (name_of : Text → String) (top_id now : String) (vals : Params)
    → FailsClean (mark_notified name_of top_id now vals)
mark_notified-FailsClean name_of top_id now vals =
    mark-FailsClean top_id now (name_of (value_of (codes "out_trade_no") vals))
      (name_of (value_of (codes "trade_no") vals)) topup_source_alipay "" "alipay notify"

-- The one way in which a notification changes the store.
abbrev pub IsSettled :
    (Text → String) → String → String → Params → Conn → Result NotifyReply × Conn → Type 0
IsSettled name_of top_id now vals c (r, c') =
    (r ≡ ok success)
    × (is_paid_status vals ≡ true)
    × (c'.db ≡ (mark_notified name_of top_id now vals c).1.db)

marked :
    (name_of : Text → String) (top_id now : String) (vals : Params) (c : Conn)
    (m : Result Receipt × Conn)
    → m ≡ mark_notified name_of top_id now vals c
    → is_paid_status vals ≡ true
    → let x = recover (λ _. m) (λ r. pure (elim r [ ok _ ↦ success | err _ ↦ order_error ])) c in
      (x.1.db ≡ c.db) ⊎ IsSettled name_of top_id now vals c x
marked name_of top_id now vals c (ok receipt, c') same paid =
    inr (refl, paid, ap (λ x. x.1.db) same)
marked name_of top_id now vals c (err e, c') same paid = inl (
    ap (λ x. x.1.db) same
    ∙ (mark_notified-FailsClean name_of top_id now vals).at c e (ap (λ x. x.0) (sym same)))

settle_notify-IsSettled :
    (name_of : Text → String) (top_id now : String) (vals : Params) (c : Conn)
    → let x = settle_notify name_of top_id now vals c in
      (x.1.db ≡ c.db) ⊎ IsSettled name_of top_id now vals c x
settle_notify-IsSettled name_of top_id now vals c =
    let Fine =
      λ (m : Sql NotifyReply). ((m c).1.db ≡ c.db) ⊎ IsSettled name_of top_id now vals c (m c) in
    if_rule Fine (is_empty (value_of (codes "out_trade_no") vals)) _ _ (λ _. inl refl)
      (λ _.
        if_rule Fine (not (is_paid_status vals)) _ _ (λ _. inl refl)
          (λ paid.
            marked name_of top_id now vals c (mark_notified name_of top_id now vals c) refl
              (ground arith)))

checked :
    (verify : Text → Text → Text → Bool) (cfg : Config) (name_of : Text → String)
    (top_id now : String) (r : NotifyRequest) (c : Conn) (x : Option NotifyReply)
    → check_notify verify cfg r ≡ x
    → let y =
        (elim x as (λ _. Sql NotifyReply) [
          | some refusal ↦ pure refusal
          | none ↦ settle_notify name_of top_id now (values r)
        ])
          c in
      (y.1.db ≡ c.db) ⊎ (IsAuthentic verify cfg r × IsSettled name_of top_id now (values r) c y)
checked verify cfg name_of top_id now r c (some refusal) h = inl refl
checked verify cfg name_of top_id now r c none h =
    elim (settle_notify-IsSettled name_of top_id now (values r) c) [
      | inl same ↦ inl same
      | inr settled ↦ inr (check_notify-IsAuthentic verify cfg r h, settled)
    ]

-- No notification changes the store unless it may be believed and its trade_status is TRADE_SUCCESS,
-- TRADE_FINISHED or missing: in live mode its signature verifies under the provider's key over its own sorted fields and the credentials are set,
-- in mock mode alone it is flagged as a mock. It then does what MarkOrderPaidAndCredit does for the
-- order it names, and nothing else, and is answered with success; any other answer, the refusal of a
-- statement by the driver included, leaves the database as it was.
pub handle_alipay_notify-IsAuthentic :
    (verify : Text → Text → Text → Bool) (cfg : Config) (name_of : Text → String)
    (top_id now : String) (r : NotifyRequest) (c : Conn)
    → let x = handle_alipay_notify name_of verify cfg top_id now r c in
      (x.1.db ≡ c.db) ⊎ (IsAuthentic verify cfg r × IsSettled name_of top_id now (values r) c x)
unfolding handle_alipay_notify
handle_alipay_notify-IsAuthentic verify cfg name_of top_id now r c =
    checked verify cfg name_of top_id now r c (check_notify verify cfg r) refl
