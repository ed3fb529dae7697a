-- ===== src/Examples/Refunds.antt =====
-- Refunds of broken streams: CompensateBrokenStreams of internal/store/store.go.
use subport.Prelude.{ℕ, String, ◌≡◌, refl, Bool, true, false, some, [], ◌∷◌}
use subport.Prelude.Text.{Text}
use subport.Prelude.Int.{pos, ◌+ℤ◌, ◌-ℤ◌}
use subport.Pricing.Rounding.{total_only}
use subport.Store.Rows.{User, UsageLog, Db, empty_db}
use subport.Store.Sql.{err, healthy, driver_fault}
use subport.Store.Quota.{user_of}
use subport.Store.Compensation.{CompensationConfig, compensate_broken_streams}
use subport.Store.Compensation.Owed.{IsCompensated, compensate_broken_streams_owed}
use subport.Store.Compensation.Refunded.{
  IsIdle, IsNothing, cut_short, compensate_broken_streams_twice, compensate_broken_streams_lost,
}

abbrev erin : User
erin = record {
  id = "erin";
  username = [];
  password_hash = "";
  salt = "";
  role = "user";
  quota_total = pos 1000;
  quota_used = pos 90;
  quota_reserved = pos 0;
  created_at = 0;
  billing_group = "";
  ratio_override = pos 0;
}

abbrev call_log : String → ℕ → Bool → UsageLog
call_log id time is_cut = record {
  id = id;
  user_id = "erin";
  key_id = "k1";
  model = [];
  account_id = "a1";
  tokens = pos 30;
  token_parts = total_only 30;
  billed_at = record {
    input = pos 1000000;
    output = pos 1000000;
    cache_read = pos 1000000;
    cache_write = pos 1000000;
    ratio = pos 10000;
  };
  cost = pos 30;
  status = "ok";
  stream_broken = is_cut;
  compensated = false;
  attempts = 1;
  created_at = time;
}

abbrev month : Db
month = record empty_db {
  users = erin ∷ [];
  usage = call_log "u1" 1 true ∷ call_log "u2" 2 false ∷ call_log "u3" 3 true ∷ [];
}

-- A stand-in for the text of a time.
abbrev stamp : ℕ → Text
stamp n = n ∷ []

abbrev policy : CompensationConfig
policy = record { threshold_part = 3; threshold_whole = 10; window_size = 20; min_broken = 2 }

compensate_broken_streams_owed_example :
    IsCompensated stamp "erin" policy month
      (compensate_broken_streams stamp "erin" policy (healthy month))
compensate_broken_streams_owed_example = compensate_broken_streams_owed stamp "erin" policy month

compensate_broken_streams_twice_example :
    let c = (compensate_broken_streams stamp "erin" policy (healthy month)).1 in
    IsNothing stamp "erin" policy c.db (compensate_broken_streams stamp "erin" policy c)
compensate_broken_streams_twice_example = compensate_broken_streams_twice stamp "erin" policy month

refunded_both :
    user_of (compensate_broken_streams stamp "erin" policy (healthy month)).1.db "erin"
    ≡ some (record erin { quota_used = pos 30 })
unfolding compensate_broken_streams subport.Prelude.Text.text_leb subport.Store.Table.find_row
    subport.Store.Compensation.usage_of subport.Prelude.Int64.add64 subport.Prelude.Int64.wrap64
    subport.Store.Compensation.mark_usage_compensated subport.Store.Compensation.credit_quota
    subport.Store.Table.update_row ◌+ℤ◌ ◌-ℤ◌
refunded_both = refl

compensate_broken_streams_lost_example :
    let (r, c) =
      compensate_broken_streams stamp "erin" policy (cut_short stamp "erin" policy month) in
    (r ≡ err driver_fault)
    × (c.db.users ≡ month.users)
    × IsIdle stamp "erin" policy c.db (compensate_broken_streams stamp "erin" policy (healthy c.db))
unfolding compensate_broken_streams subport.Prelude.Text.text_leb
    subport.Store.Compensation.usage_of
compensate_broken_streams_lost_example =
    compensate_broken_streams_lost stamp "erin" policy month refl
