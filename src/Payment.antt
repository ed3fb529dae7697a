-- ===== src/Payment.antt =====
-- internal/payment/alipay.go. A map is the list of its entries, with distinct keys, in an order of
-- iteration. `env` is the environment; the RSA signature, with the parsing of its keys, and the
-- escaping of net/url are other code: `sign`, `verify`, `escape`.
use subport.Prelude.{
  ℕ, String, Bool, true, false, ◌&&◌, ◌||◌, not, Option, none, some, List, [], ◌∷◌, ◌++◌, ltb, ◌==◌,
  if◌then◌else◌, keep,
}
use subport.Prelude.Text.{Text, codes, text_eq, to_lower, trim_space, is_empty}

pub record Config : Type 0 where
  pub enabled : Bool
  pub mock : Bool
  pub mode : Text
  pub app_id : Text
  pub private_key : Text
  pub public_key : Text
  pub public_base : Text
  pub gateway : Text

-- strings.TrimRight(s, "/")
unfoldable pub trim_slashes : Text → Text
trim_slashes [] = []
trim_slashes (c ∷ s) = elim (trim_slashes s) [
  | [] ↦ if c == 47 then [] else c ∷ []
  | d ∷ r ↦ c ∷ d ∷ r
]

unfoldable pub first_non_empty : List Text → Text
unfolding trim_space is_empty
first_non_empty [] = []
first_non_empty (v ∷ rest) =
    let later = first_non_empty rest in if is_empty (trim_space v) then later else trim_space v

module _ (env : String → Text) where
  unfoldable pub env_truthy : String → Bool
  unfolding to_lower trim_space text_eq
  env_truthy k =
      let v = to_lower (trim_space (env k)) in
      text_eq v (codes "1")
      || text_eq v (codes "true")
      || text_eq v (codes "yes")
      || text_eq v (codes "on")

  unfoldable pub load_config : Config
  unfolding env_truthy first_non_empty trim_slashes
  load_config = record {
    enabled = env_truthy "SUBPORT_ALIPAY_ENABLED" || env_truthy "SUBPORT_ALIPAY_MOCK";
    mock = env_truthy "SUBPORT_ALIPAY_MOCK";
    mode = first_non_empty (env "SUBPORT_ALIPAY_MODE" ∷ codes "page" ∷ []);
    app_id = first_non_empty (env "SUBPORT_ALIPAY_APP_ID" ∷ env "SUBPORT_ALIPAY_CLIENT_ID" ∷ []);
    private_key = env "SUBPORT_ALIPAY_MERCHANT_PRIVATE_KEY";
    public_key = env "SUBPORT_ALIPAY_PUBLIC_KEY";
    public_base = trim_slashes (env "SUBPORT_PUBLIC_BASE_URL");
    gateway =
        first_non_empty
          (env "SUBPORT_ALIPAY_GATEWAY" ∷ codes "https://openapi.alipay.com/gateway.do" ∷ []);
  }

unfoldable pub ready_for_live : Config → Bool
unfolding is_empty
ready_for_live c =
    not (is_empty c.app_id)
    && not (is_empty c.private_key)
    && not (is_empty c.public_key)
    && not (is_empty c.public_base)

abbrev pub Params : Type 0
Params = List (Text × Text)

-- vals[k], '' where it is not there.
unfoldable pub value_of : Text → Params → Text
unfolding text_eq
value_of k [] = []
value_of k ((j, v) ∷ rest) = if text_eq j k then v else value_of k rest

-- The order of sort.Strings, byte by byte.
unfoldable pub text_leb : Text → Text → Bool
text_leb [] t = true
text_leb (x ∷ s) [] = false
text_leb (x ∷ s) (y ∷ t) = ltb x y || (x == y && text_leb s t)

unfoldable pub insert_param : Text × Text → Params → Params
unfolding text_leb
insert_param p [] = p ∷ []
insert_param p (q ∷ rest) =
    let later = insert_param p rest in if text_leb p.0 q.0 then p ∷ q ∷ rest else q ∷ later

unfoldable pub sort_params : Params → Params
unfolding insert_param
sort_params [] = []
sort_params (p ∷ rest) = insert_param p (sort_params rest)

abbrev pub has_value : Text × Text → Bool
has_value p = not (is_empty p.1)

abbrev pub pair_text : Text × Text → Text
pair_text p = p.0 ++ 61 ∷ p.1

-- strings.Join(parts, "&")
unfoldable pub join_pairs : Params → Text
join_pairs [] = []
join_pairs (p ∷ rest) = elim rest [
  | [] ↦ pair_text p
  | q ∷ more ↦ pair_text p ++ 38 ∷ join_pairs rest
]

unfoldable pub sorted_query : Params → Text
unfolding sort_params join_pairs is_empty
sorted_query params = join_pairs (sort_params (keep has_value params))

-- \ and " get a backslash.
abbrev pub escape_byte : ℕ → Text
escape_byte c = if c == 92 || c == 34 then 92 ∷ c ∷ [] else c ∷ []

unfoldable pub escape_json : Text → Text
escape_json [] = []
escape_json (c ∷ s) = escape_byte c ++ escape_json s

-- The keys that a notification is not signed over.
abbrev pub is_signed : Text × Text → Bool
is_signed p = not (text_eq p.0 (codes "sign") || text_eq p.0 (codes "sign_type"))

-- strings.EqualFold on ASCII text.
abbrev pub equal_fold : Text → Text → Bool
equal_fold s t = text_eq (to_lower s) (to_lower t)

-- `verify key content sign` is whether the signature is good.
unfoldable pub verify_notify : (Text → Text → Text → Bool) → Config → Params → Bool
unfolding value_of sorted_query text_eq to_lower is_empty
verify_notify verify c vals =
    let sign = value_of (codes "sign") vals in
    let sign_type = value_of (codes "sign_type") vals in
    if c.mock
    then true
    else if is_empty sign
    then false
    else if not (is_empty sign_type) && not (equal_fold sign_type (codes "RSA2"))
    then false
    else verify c.public_key (sorted_query (keep is_signed vals)) sign

unfoldable pub notify_url : Config → Text
notify_url c = c.public_base ++ codes "/api/payments/alipay/notify"

unfoldable pub return_url : Config → Text
return_url c = c.public_base ++ codes "/api/payments/alipay/return"

abbrev pub quoted_field : String → Text → Text
quoted_field name value = codes name ++ escape_json value

unfoldable pub biz_content : Text → Text → Text → Text
unfolding escape_json
biz_content order subject amount =
    quoted_field "{\"out_trade_no\":\"" order
    ++ quoted_field "\",\"product_code\":\"FAST_INSTANT_TRADE_PAY\",\"total_amount\":\"" amount
    ++ quoted_field "\",\"subject\":\"" subject
    ++ codes "\"}"

module _ (sign : Text → Text → Option Text) (escape : Text → Text) (encode : Params → Text) where
  -- `now` is the formatted clock; `encode` is url.Values.Encode.
  abbrev pub page_params : Config → Text → Text → Params
  page_params c now biz =
      (codes "app_id", c.app_id)
      ∷ (codes "method", codes "alipay.trade.page.pay")
      ∷ (codes "format", codes "JSON")
      ∷ (codes "charset", codes "utf-8")
      ∷ (codes "sign_type", codes "RSA2")
      ∷ (codes "timestamp", now)
      ∷ (codes "version", codes "1.0")
      ∷ (codes "notify_url", notify_url c)
      ∷ (codes "return_url", return_url c)
      ∷ (codes "biz_content", biz)
      ∷ []

  unfoldable pub build_page_pay_url : Config → Text → Text → Text → Text → Option Text
  unfolding sorted_query notify_url return_url biz_content
  build_page_pay_url c now order subject amount =
      let params = page_params c now (biz_content order subject amount) in
      elim (sign c.private_key (sorted_query params)) [
        | none ↦ none
        | some s ↦ some (c.gateway ++ 63 ∷ encode ((codes "sign", s) ∷ params))
      ]

  abbrev pub mock_url : Config → Text → Text
  mock_url c order =
      (if is_empty c.public_base then codes "http://127.0.0.1:8080" else c.public_base)
      ++ codes "/api/payments/alipay/return?out_trade_no="
      ++ escape order
      ++ codes "&mock=1"

  -- none is an error.
  unfoldable pub create_payment : Config → Text → Text → Text → Text → Option Text
  unfolding build_page_pay_url ready_for_live is_empty
  create_payment c now order subject amount =
      if c.mock
      then some (mock_url c order)
      else if not c.enabled
      then none
      else if not (ready_for_live c)
      then none
      else build_page_pay_url c now order subject amount
