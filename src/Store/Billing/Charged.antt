-- ===== src/Store/Billing/Charged.antt =====
-- internal/store/store.go, PriceCall: what a call is charged at. Unpriced never means free.
use subport.Prelude.{
  String, ◌≡◌, refl, ◌⊎◌, inl, inr, Bool, true, false, not, Option, none, some, List, [], ◌∷◌,
  arith, str_eq, if◌then◌else◌, if_rule, eq_iff, sym, ◌∙◌, ◌≢◌, Bool-cases, Option-cases,
}
use mathlib.Core.Bool.{true≢false}
use subport.Prelude.Int.{ℤ, pos}
use subport.Pricing.{TokenCounts, ModelPrice, BilledRate, rate_scale, flat_price, rate_for, cost}
use subport.Store.Table.{find_row, find_row-upsert}
use subport.Store.Rows.{User, BillingGroup, Db}
use subport.Store.Sql.{
  not_found, Result, ok, err, Conn, healthy, Sql, continue, pure, or_err, select,
}
use subport.Store.Quota.{user_of, is_positive}
use subport.Store.Billing.{
  price_key, group_key, default_ratio, set_model_price, model_price, effective_ratio, price_call,
  ratio_of_group, ratio_of_user, card_or_flat, user_billing, group_ratio,
}

-- A positive ratio, whatever the database holds.
abbrev pub IsCharged : Result ℤ × Conn → Type 0
IsCharged (ok ratio, c) = is_positive ratio ≡ true
IsCharged (err e, c) = ⊥

ratio_of_group-positive : (g : Result BillingGroup) → is_positive (ratio_of_group g) ≡ true
ratio_of_group-positive (err e) = refl
ratio_of_group-positive (ok g) =
    if_rule (λ r. is_positive r ≡ true) (not (is_positive g.ratio)) _ _ (λ _. refl)
      (λ p. ground arith)

ratio_of_user-IsCharged : (u : Result User) (c : Conn) → IsCharged (ratio_of_user u c)
ratio_of_user-IsCharged (err e) c = refl
ratio_of_user-IsCharged (ok u) c =
    if_rule (λ (m : Sql ℤ). IsCharged (m c)) (is_positive u.ratio_override) _ _ (λ p. p)
      (λ _.
        if_rule (λ (m : Sql ℤ). IsCharged (m c)) (str_eq u.billing_group "") _ _ (λ _. refl)
          (λ _. ratio_of_group-positive (group_ratio u.billing_group c).0))

effective_ratio-IsCharged : (user : String) (c : Conn) → IsCharged (effective_ratio user c)
unfolding effective_ratio
effective_ratio-IsCharged user c =
    ratio_of_user-IsCharged (user_billing user c).0 (user_billing user c).1

-- The card of the model, or the flat list price: never a card of another model.
abbrev pub IsCardOf : Db → String → ModelPrice → Type 0
IsCardOf db name p =
    (find_row price_key name db.prices ≡ some p) ⊎ (p ≡ flat_price name (pos rate_scale))

-- A quote: the snapshot has a positive ratio and the card of the model, and the cost is the cost at
-- that snapshot.
abbrev pub IsQuote : Db → String → TokenCounts → Result (ℤ × BilledRate) × Conn → Type 0
IsQuote db name counts (err e, c) = ⊥
IsQuote db name counts (ok (amount, rate), c) =
    (amount ≡ cost counts rate)
    × (is_positive rate.ratio ≡ true)
    × ((p : ModelPrice) × IsCardOf db name p × (rate ≡ rate_for p rate.ratio))

read_card :
    (name : String) (c : Conn) (x : Option ModelPrice)
    → find_row price_key name c.db.prices ≡ x
    → IsCardOf c.db name (card_or_flat name (or_err x not_found c).0)
read_card name c none e = inr refl
read_card name c (some p) e = inl e

card_or_flat-IsCardOf :
    (name : String) (c : Conn) → IsCardOf c.db name (card_or_flat name (model_price name c).0)
unfolding model_price select
card_or_flat-IsCardOf name c = go c.faults c.db
  where
    go :
        (fs : List Bool) (db : Db)
        → IsCardOf db name
            (card_or_flat name (model_price name (record { db = db; faults = fs })).0)
    go [] db = read_card name (healthy db) (find_row price_key name db.prices) refl
    go (true ∷ fs) db = inr refl
    go (false ∷ fs) db =
        read_card name (record { db = db; faults = fs }) (find_row price_key name db.prices) refl

quoted :
    (db : Db) (name : String) (counts : TokenCounts) (p : ModelPrice) (m : Result ℤ × Conn)
    → IsCardOf db name p
    → IsCharged m
    → IsQuote db name counts
        (continue m.0 (λ ratio. pure (cost counts (rate_for p ratio), rate_for p ratio)) m.1)
unfolding rate_for
quoted db name counts p (ok ratio, c) card charged = (refl, charged, (p, card, refl))
quoted db name counts p (err e, c) card charged = elim charged [ ]

-- Whatever statements the driver refuses, pricing a call is no error, and the snapshot has a positive
-- ratio and the rates of the model's own card or of the flat list price.
pub price_call-IsQuote :
    (user name : String) (counts : TokenCounts) (c : Conn)
    → IsQuote c.db name counts (price_call user name counts c)
unfolding price_call
price_call-IsQuote user name counts c =
    quoted c.db name counts (card_or_flat name (model_price name c).0)
      (effective_ratio user (model_price name c).1) (card_or_flat-IsCardOf name c)
      (effective_ratio-IsCharged user (model_price name c).1)

-- With no fault a rate card reads back as it was written, and no other card has changed.
pub model_price-set_model_price :
    (p : ModelPrice) (name : String) (db : Db)
    → (model_price name (set_model_price p (healthy db)).1).0
      ≡ (if str_eq p.model name then ok p else (model_price name (healthy db)).0)
unfolding model_price set_model_price
model_price-set_model_price p name db =
    rw (find_row-upsert price_key name p db.prices) (ground arith)

-- The card that a model is priced by: its own, and the flat list price only where it has none.
abbrev pub IsOwnCard : Db → String → ModelPrice → Type 0
IsOwnCard db name p =
    (find_row price_key name db.prices ≡ some p)
    ⊎ ((find_row price_key name db.prices ≡ none) × (p ≡ flat_price name (pos 1000000)))

-- The ratio of a group: its own where that is positive, and 1 (10000) for any other group.
abbrev pub IsGroupRatio : Option BillingGroup → ℤ → Type 0
IsGroupRatio none q = q ≡ pos 10000
IsGroupRatio (some g) q =
    ((is_positive g.ratio ≡ true) × (q ≡ g.ratio))
    ⊎ ((is_positive g.ratio ≡ false) × (q ≡ pos 10000))

-- The ratio of a user: the override where it is positive, else that of the user's group where one is
-- set, else 1; and 1 for a user who is not there.
abbrev pub IsUserRatio : Db → Option User → ℤ → Type 0
IsUserRatio db none q = q ≡ pos 10000
IsUserRatio db (some u) q =
    ((is_positive u.ratio_override ≡ true) × (q ≡ u.ratio_override))
    ⊎ ((is_positive u.ratio_override ≡ false)
        × (((u.billing_group ≡ "") × (q ≡ pos 10000))
            ⊎ ((u.billing_group ≢ "")
                × IsGroupRatio (find_row group_key u.billing_group db.groups) q)))

-- The price of a call: its counts at the model's card and the user's ratio.
abbrev pub IsPriced : Db → String → String → TokenCounts → Result (ℤ × BilledRate) × Conn → Type 0
IsPriced db user name counts m =
    (p : ModelPrice) × (q : ℤ) × IsOwnCard db name p
    × IsUserRatio db (user_of db user) q
    × (m ≡ (ok (cost counts (rate_for p q), rate_for p q), healthy db))

group_ratio_of : (db : Db) (name : String) → Option BillingGroup → ℤ
group_ratio_of db name none = default_ratio
group_ratio_of db name (some g) = if not (is_positive g.ratio) then default_ratio else g.ratio

user_ratio_of : (db : Db) → Option User → ℤ
unfolding group_ratio_of
user_ratio_of db none = default_ratio
user_ratio_of db (some u) =
    if is_positive u.ratio_override
    then u.ratio_override
    else if str_eq u.billing_group ""
    then default_ratio
    else group_ratio_of db u.billing_group (find_row group_key u.billing_group db.groups)

by_group :
    (db : Db) (name : String) (x : Option BillingGroup) → IsGroupRatio x (group_ratio_of db name x)
unfolding group_ratio_of
by_group db name none = refl
by_group db name (some g) = elim (Bool-cases (is_positive g.ratio)) [
  | inl y ↦ rw y (inl (refl, refl))
  | inr n ↦ rw n (inr (refl, refl))
]

by_user : (db : Db) (x : Option User) → IsUserRatio db x (user_ratio_of db x)
unfolding user_ratio_of
by_user db none = refl
by_user db (some u) = elim (Bool-cases (is_positive u.ratio_override)) [
  | inl y ↦ rw y (inl (refl, refl))
  | inr n ↦ elim (Bool-cases (str_eq u.billing_group "")) [
    | inl e ↦ rw (n, e) (inr (refl, inl ((eq_iff u.billing_group "").0 e, refl)))
    | inr d ↦
        rw (n, d)
          (inr (
            refl,
            inr (
              λ e. absurd (true≢false (sym ((eq_iff u.billing_group "").1 e) ∙ d)),
              by_group db u.billing_group (find_row group_key u.billing_group db.groups),
            ),
          ))
  ]
]

effective_ratio_lem :
    (user : String) (db : Db)
    → effective_ratio user (healthy db) ≡ (ok (user_ratio_of db (user_of db user)), healthy db)
unfolding effective_ratio user_ratio_of group_ratio_of select
effective_ratio_lem user db = ground arith

-- With no fault a call is priced by its model's own rate card, or by the flat list price only where
-- the model has none, at the ratio of the user: the positive override, else the positive ratio of the
-- user's group, else 1. The cost is the cost of the counts at that snapshot, and nothing is written.
pub price_call-IsPriced :
    (user name : String) (counts : TokenCounts) (db : Db)
    → IsPriced db user name counts (price_call user name counts (healthy db))
unfolding price_call model_price select
price_call-IsPriced user name counts db =
    let q = user_ratio_of db (user_of db user) in
    let ratio_is = by_user db (user_of db user) in
    elim (Option-cases (find_row price_key name db.prices)) [
      | inl gone ↦ (
        flat_price name (pos rate_scale),
        q,
        inr (gone, refl),
        ratio_is,
        rw (gone, effective_ratio_lem user db) refl,
      )
      | inr (p, card) ↦ (p, q, inl card, ratio_is, rw (card, effective_ratio_lem user db) refl)
    ]
