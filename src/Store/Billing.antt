-- ===== src/Store/Billing.antt =====
-- internal/store/sqlite_pricing.go and the pricing methods of internal/store/store.go.
pub mod Charged
use subport.Prelude.{
  ℕ, zero, suc, ◌+◌, ◌-◌, ◌*◌, ◌/◌, ◌%◌, ◌^◌, ◌≤◌, ◌<◌, String, ◌≡◌, refl, sym, ap, ◌∙◌, ◌≢◌, ◌↔◌,
  ◌⊎◌, inl, inr, Bool, true, false, ◌&&◌, ◌||◌, not, Option, none, some, List, [], ◌∷◌, ◌++◌, map,
  arith, str_eq, eq_iff, eq_refl, ltb, leb, ◌==◌, if◌then◌else◌, Bool-cases, if_rule, Option-cases,
  ltb→lt, lt→ltb, leb→le, ==_iff, tests, length, get_elem?, length-append, All, All-append,
  get_elem?-All, keep,
}
use subport.Prelude.Int.{
  ℤ, pos, negsuc, pos_part, neg_part, sub_ℕ, ◌+ℤ◌, ◌-ℤ◌, ◌*ℤ◌, ◌≤ℤ◌, ltb_ℤ, +ℤ_parts, -ℤ_parts,
  eq_of_parts, int_laws,
}
use subport.Pricing.{
  TokenCounts, ModelPrice, BilledRate, rate_scale, ratio_scale, flat_price, rate_for, cost,
}
use subport.Store.Table.{find_row, upsert}
use subport.Store.Rows.{User, BillingGroup, Db}
use subport.Store.Sql.{
  Error, not_found, Result, ok, err, Conn, Sql, pure, or_err, statement, select, exec, ◌>>=◌,
}
use subport.Store.Quota.{user_of, update_user, is_positive}

abbrev pub default_ratio : ℤ
default_ratio = pos ratio_scale

abbrev pub price_key : ModelPrice → String
price_key p = p.model

abbrev pub group_key : BillingGroup → String
group_key g = g.name

unfoldable pub set_model_price : ModelPrice → Sql (Unit {0})
unfolding exec upsert
set_model_price p = exec (λ db. record db { prices = upsert price_key p db.prices })

unfoldable pub model_price : String → Sql ModelPrice
unfolding select find_row
model_price name = do p ← select (λ db. find_row price_key name db.prices); or_err p not_found

unfoldable pub set_group_ratio : String → ℤ → Sql (Unit {0})
unfolding exec upsert
set_group_ratio name ratio = exec (λ db. record db {
  groups = upsert group_key (record { name = name; ratio = ratio }) db.groups;
})

abbrev pub group_ratio : String → Sql BillingGroup
group_ratio name = do g ← select (λ db. find_row group_key name db.groups); or_err g not_found

unfoldable pub set_user_billing : String → String → ℤ → Sql (Unit {0})
unfolding statement update_user
set_user_billing user group override = statement (λ db. elim (user_of db user) [
  | none ↦ (err not_found, db)
  | some _ ↦ (
    ok tt,
    update_user user (λ u. record u { billing_group = group; ratio_override = override }) db,
  )
])

abbrev pub user_billing : String → Sql User
user_billing user = do u ← select (λ db. user_of db user); or_err u not_found

-- A method with no error: the error of `m` is a value here.
abbrev pub recover : {A B : Type 0} → Sql A → (Result A → Sql B) → Sql B
recover m f c = let (r, c') = m c in f r c'

abbrev pub ratio_of_group : Result BillingGroup → ℤ
ratio_of_group (err e) = default_ratio
ratio_of_group (ok g) = if not (is_positive g.ratio) then default_ratio else g.ratio

abbrev pub ratio_of_user : Result User → Sql ℤ
ratio_of_user (err e) = pure default_ratio
ratio_of_user (ok u) =
    if is_positive u.ratio_override
    then pure u.ratio_override
    else if str_eq u.billing_group ""
    then pure default_ratio
    else recover (group_ratio u.billing_group) (λ g. pure (ratio_of_group g))

unfoldable pub effective_ratio : String → Sql ℤ
unfolding select find_row
effective_ratio user = recover (user_billing user) ratio_of_user

abbrev pub card_or_flat : String → Result ModelPrice → ModelPrice
card_or_flat name (ok p) = p
card_or_flat name (err e) = flat_price name (pos rate_scale)

unfoldable pub price_call : String → String → TokenCounts → Sql (ℤ × BilledRate)
unfolding model_price effective_ratio flat_price rate_for cost
price_call user name counts = recover (model_price name) (λ card. do
  ratio ← effective_ratio user
  pure (
    cost counts (rate_for (card_or_flat name card) ratio),
    rate_for (card_or_flat name card) ratio,
  ))
