-- ===== src/Store/Compensation.antt =====
-- CompensateBrokenStreams of internal/store/store.go, and its statements in
-- internal/store/sqlite_keys.go. The threshold, a float64 in the code, is a fraction here, and the
-- rate is compared with it exactly; limits and counts of the configuration are natural numbers.
pub mod Marked
pub mod Refunded
pub mod Owed
use subport.Prelude.{
  ℕ, zero, suc, ◌+◌, ◌-◌, ◌*◌, ◌/◌, ◌%◌, ◌^◌, ◌≤◌, ◌<◌, String, ◌≡◌, refl, sym, ap, ◌∙◌, ◌≢◌, ◌↔◌,
  ◌⊎◌, inl, inr, Bool, true, false, ◌&&◌, ◌||◌, not, Option, none, some, List, [], ◌∷◌, ◌++◌, map,
  arith, str_eq, eq_iff, eq_refl, ltb, leb, ◌==◌, if◌then◌else◌, Bool-cases, if_rule, Option-cases,
  ltb→lt, lt→ltb, leb→le, ==_iff, tests, length, get_elem?, length-append, All, All-append,
  get_elem?-All, keep,
}
use subport.Prelude.Int.{
  ℤ, pos, negsuc, pos_part, neg_part, sub_ℕ, ◌+ℤ◌, ◌-ℤ◌, ◌*ℤ◌, ◌≤ℤ◌, ltb_ℤ, +ℤ_parts, -ℤ_parts,
  eq_of_parts, int_laws,
}
use subport.Prelude.Int64.{add64}
use subport.Prelude.Text.{Text, text_leb}
use subport.Store.Table.{update_where}
use subport.Store.Rows.{User, UsageLog, Db}
use subport.Store.Sql.{Error, Result, ok, err, Sql, pure, select, exec, ◌>>=◌, ◌>>◌}
use subport.Store.Quota.{update_user}

pub record CompensationConfig : Type 0 where
  pub threshold_part : ℕ
  pub threshold_whole : ℕ
  pub window_size : ℕ
  pub min_broken : ℕ

-- The Rate of the code is the quotient of the two counts.
pub record CompensationResult : Type 0 where
  pub triggered : Bool
  pub broken_count : ℕ
  pub total_count : ℕ
  pub credited : ℤ
  pub compensated_count : ℕ

-- ORDER BY created_at DESC, with equal times in the order of the table. The column holds the text of
-- the time, which `fmt` gives, and is ordered as a text.
unfoldable pub insert_newest : (ℕ → Text) → UsageLog → List UsageLog → List UsageLog
insert_newest fmt l [] = l ∷ []
insert_newest fmt l (m ∷ rest) =
    let later = insert_newest fmt l rest in
    if text_leb (fmt m.created_at) (fmt l.created_at) then l ∷ m ∷ rest else m ∷ later

unfoldable pub newest_first : (ℕ → Text) → List UsageLog → List UsageLog
unfolding insert_newest
newest_first fmt [] = []
newest_first fmt (l ∷ rest) = insert_newest fmt l (newest_first fmt rest)

-- LIMIT
abbrev pub take {ℓ} : {A : Type ℓ} → ℕ → List A → List A
take zero l = []
take (suc n) [] = []
take (suc n) (a ∷ l) = a ∷ take n l

abbrev pub is_of : String → UsageLog → Bool
is_of user l = str_eq l.user_id user

unfoldable pub usage_of : (ℕ → Text) → String → ℕ → List UsageLog → List UsageLog
unfolding newest_first
usage_of fmt user limit rows = take limit (newest_first fmt (keep (is_of user) rows))

abbrev pub is_broken : UsageLog → Bool
is_broken l = l.stream_broken

abbrev pub is_open : UsageLog → Bool
is_open l = l.stream_broken && not l.compensated

-- Added up as int64, in which the order of the sum makes no difference.
abbrev pub sum_costs : List UsageLog → ℤ
sum_costs [] = pos 0
sum_costs (l ∷ rest) = add64 l.cost (sum_costs rest)

-- UPDATE usage_logs SET compensated=1 WHERE id=?, for one id after another.
unfoldable pub mark_usage_compensated : List String → Sql (Unit {0})
unfolding exec update_where
mark_usage_compensated [] = pure tt
mark_usage_compensated (id ∷ ids) = do
  exec (λ db. record db {
    usage = update_where (λ l. str_eq l.id id) (λ l. record l { compensated = true }) db.usage;
  })
  mark_usage_compensated ids

-- CASE WHEN quota_used > credit THEN quota_used - credit ELSE 0 END
abbrev pub refund : ℤ → User → User
refund credit u = record u {
  quota_used = if ltb_ℤ credit u.quota_used then u.quota_used -ℤ credit else pos 0;
}

unfoldable pub credit_quota : String → ℤ → Sql (Unit {0})
unfolding exec update_user
credit_quota user credit = exec (update_user user (refund credit))

-- result.Rate < cfg.Threshold; the rate of no calls is 0.
abbrev pub is_rate_below : CompensationConfig → ℕ → ℕ → Bool
is_rate_below cfg broken total =
    if total == 0
    then ltb 0 cfg.threshold_part
    else ltb (broken * cfg.threshold_whole) (cfg.threshold_part * total)

abbrev pub is_quiet : CompensationConfig → List UsageLog → Bool
is_quiet cfg recent =
    let broken = length (keep is_broken recent) in
    ltb broken cfg.min_broken || is_rate_below cfg broken (length recent)

abbrev pub counted : List UsageLog → CompensationResult
counted recent = record {
  triggered = false;
  broken_count = length (keep is_broken recent);
  total_count = length recent;
  credited = pos 0;
  compensated_count = 0;
}

abbrev pub compensate_recent : String → CompensationConfig → List UsageLog → Sql CompensationResult
compensate_recent user cfg recent =
    let open_logs = keep is_open recent in
    let credit = sum_costs open_logs in
    if is_quiet cfg recent then pure (counted recent) else (do
      mark_usage_compensated (map (λ (l : UsageLog). l.id) open_logs)
      credit_quota user credit
      pure (record (counted recent) {
        triggered = true;
        credited = credit;
        compensated_count = length open_logs;
      }))

unfoldable pub compensate_broken_streams :
    (ℕ → Text) → String → CompensationConfig → Sql CompensationResult
unfolding select
compensate_broken_streams fmt user cfg = do
  recent ← select (λ db. usage_of fmt user cfg.window_size db.usage)
  compensate_recent user cfg recent
