-- ===== src/Examples/Ledger.antt =====
-- Quotas and prices: internal/store/sqlite_quota.go and internal/model/pricing.go.
use subport.Prelude.{
  ℕ, zero, suc, ◌+◌, ◌-◌, ◌*◌, ◌/◌, ◌%◌, ◌^◌, ◌≤◌, ◌<◌, String, ◌≡◌, refl, sym, ap, ◌∙◌, ◌≢◌, ◌↔◌,
  ◌⊎◌, inl, inr, Bool, true, false, ◌&&◌, ◌||◌, not, Option, none, some, List, [], ◌∷◌, ◌++◌, map,
  arith, str_eq, eq_iff, eq_refl, ltb, leb, ◌==◌, if◌then◌else◌, Bool-cases, if_rule, Option-cases,
  ltb→lt, lt→ltb, leb→le, ==_iff, tests, length, get_elem?, length-append, All, All-append,
  get_elem?-All, keep,
}
use subport.Prelude.Int.{pos, ◌+ℤ◌, ◌*ℤ◌}
use subport.Pricing.{
  TokenCounts, BilledRate, ModelPrice, rate_for, flat_price, numerator, billable, cost, denominator,
}
use subport.Pricing.Rounding.{
  Bill, counts_of, rate_of, exact_sum, IsNearest, total_only, cost-IsNearest,
}
use subport.Pricing.Wrapping.{cost_wraps_negative}
use subport.Prelude.Int64.{is_negative}
use subport.Store.Rows.{User, UsageLog, Db, empty_db}
use subport.Store.Sql.{quota_exhausted, driver_fault, err, Conn, healthy}
use subport.Store.Table.{find_row}
use subport.Store.Quota.{user_of, reserve_quota, release_quota, settle_usage}
use subport.Store.Quota.Admission.{reservation, Promises, reserve_quota_lem}
use subport.Store.Quota.Settlement.{settlement, stamped, settle_usage_atomic}
use subport.Store.Quota.Interleaving.{
  Desk, admit, turn_away, settle, Reach, here, next, IsCovered, Reach-IsCovered,
}

abbrev alice : User
alice = record {
  id = "alice";
  username = [];
  password_hash = "";
  salt = "";
  role = "user";
  quota_total = pos 100;
  quota_used = pos 10;
  quota_reserved = pos 0;
  created_at = 0;
  billing_group = "";
  ratio_override = pos 0;
}

abbrev ledger : Db
ledger = record empty_db { users = alice ∷ [] }

abbrev bill : Bill
bill = record {
  input = 1000;
  output = 200;
  cache_read = 3000;
  cache_write = 0;
  rate_input = 3000000;
  rate_output = 15000000;
  rate_cache_read = 300000;
  rate_cache_write = 3750000;
  ratio = 15000;
}

abbrev flat : BilledRate
flat = record {
  input = pos 1000000;
  output = pos 1000000;
  cache_read = pos 1000000;
  cache_write = pos 1000000;
  ratio = pos 10000;
}

abbrev call_log : UsageLog
call_log = record {
  id = "";
  user_id = "alice";
  key_id = "k1";
  model = [];
  account_id = "a1";
  tokens = pos 25;
  token_parts = total_only 25;
  billed_at = flat;
  cost = pos 25;
  status = "ok";
  stream_broken = false;
  compensated = false;
  attempts = 1;
  created_at = 0;
}

abbrev desk₀ : Desk
desk₀ = record { conn = healthy ledger; holds = [] }

abbrev desk₁ : Desk
desk₁ = record { conn = (reserve_quota "alice" (pos 40) desk₀.conn).1; holds = 40 ∷ [] }

abbrev desk₂ : Desk
desk₂ = record { conn = (reserve_quota "alice" (pos 60) desk₁.conn).1; holds = 40 ∷ [] }

abbrev desk₃ : Desk
desk₃ = record { conn = (settle_usage "u1" 7 call_log (pos 40) desk₂.conn).1; holds = [] }

-- A request is admitted, a second one does not fit, the first is settled for less than its hold.
day : Reach "alice" desk₀ desk₃
unfolding reserve_quota settle_usage find_row ◌+ℤ◌ subport.Store.Table.update_row
    subport.Store.Quota.insert_usage
day =
    next
      (next (next here (admit desk₀ 40 (omega arith) refl))
        (turn_away desk₁ 60 quota_exhausted refl))
      (settle desk₂ [] [] 40 25 "u1" 7 call_log refl (omega arith) refl refl (omega arith) refl)

abbrev desk₀_covered : IsCovered "alice" 100 desk₀
desk₀_covered = record {
  row = alice;
  used = 10;
  found = unfold find_row in refl;
  total_is = refl;
  used_is = refl;
  reserved_is = refl;
  fits = omega arith;
}

Reach-IsCovered_example : IsCovered "alice" 100 desk₃
Reach-IsCovered_example = Reach-IsCovered "alice" 100 (omega arith) day desk₀_covered

reserve_quota_lem_example :
    let (r, c) = reserve_quota "alice" (pos 91) (healthy ledger) in
    Promises "alice" (pos 91) ledger (user_of ledger "alice") (r, c.db)
reserve_quota_lem_example = reserve_quota_lem "alice" (pos 91) ledger refl

too_much : (reservation "alice" (pos 91) ledger).0 ≡ err quota_exhausted
unfolding reserve_quota find_row ◌+ℤ◌
too_much = refl

-- The fourth statement of the settlement, the release, is refused.
abbrev flaky : Conn
flaky = record { db = ledger; faults = false ∷ false ∷ false ∷ true ∷ [] }

settle_usage_atomic_example :
    let (r, c') = settle_usage "u1" 7 call_log (pos 40) flaky in
    ((r ≡ err driver_fault) × (c'.db ≡ ledger))
    ⊎ ((r ≡ (settlement (stamped "u1" 7 call_log) (pos 40) ledger).0)
        × (c'.db ≡ (settlement (stamped "u1" 7 call_log) (pos 40) ledger).1))
settle_usage_atomic_example = settle_usage_atomic "u1" 7 call_log (pos 40) flaky

cost-IsNearest_example :
    (q : ℕ) × (cost (counts_of bill 0) (rate_of bill) ≡ pos q)
    × IsNearest (exact_sum bill * bill.ratio) denominator q
unfolding cost subport.Pricing.has_breakdown
cost-IsNearest_example = cost-IsNearest bill 0 refl (omega arith, omega arith)

bill_cost : cost (counts_of bill 0) (rate_of bill) ≡ pos 10350
unfolding cost subport.Pricing.div_rounded subport.Prelude.Int64.quot64 subport.Prelude.Int64.add64
    subport.Prelude.Int64.wrap64 ◌+ℤ◌ subport.Prelude.Int64.mul64 ◌*ℤ◌ numerator billable
bill_cost = refl

cost_wraps_negative_example : is_negative (cost (total_only 1000000000) flat) ≡ true
cost_wraps_negative_example =
    cost_wraps_negative 1000000000 1000000 10000 flat refl refl (omega arith) (omega arith)
      (omega arith)
