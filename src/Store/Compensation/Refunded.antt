-- ===== src/Store/Compensation/Refunded.antt =====
-- internal/store/store.go, CompensateBrokenStreams: a broken stream is refunded once.
use subport.Prelude.{
  ℕ, zero, suc, String, ◌≡◌, refl, sym, ap, ◌∙◌, inl, inr, Bool, true, false, List, [], ◌∷◌, map,
  arith, if◌then◌else◌, Bool-cases, if_rule, length, keep,
}
use subport.Prelude.Text.{Text}
use subport.Prelude.Int.{ℤ, pos, ◌-ℤ◌}
use mathlib.Core.Path.{subst, fun_ext}
use subport.Store.Table.{update_row, update_row_twice}
use subport.Store.Rows.{User, UsageLog, Db}
use subport.Store.Sql.{driver_fault, Result, ok, err, Conn, healthy, exec}
use subport.Store.Quota.{user_key, update_user}
use subport.Store.Compensation.{
  CompensationConfig, CompensationResult, usage_of, is_open, sum_costs, mark_usage_compensated,
  refund, credit_quota, is_quiet, counted, compensate_broken_streams,
}
use subport.Store.Compensation.Marked.{
  marked, marked-IsQuietChange, ids_of, usage_of-map, open-All, none_open, mark_one, mark_more,
  mark_none, mark_usage_compensated-healthy,
}

module _ (fmt : ℕ → Text) (user : String) (cfg : CompensationConfig) where
  abbrev recent_of : Db → List UsageLog
  recent_of db = usage_of fmt user cfg.window_size db.usage

  -- The database with the window's open rows marked and their costs refunded.
  abbrev pub refunded : Db → Db
  refunded db =
      let open_logs = keep is_open (recent_of db) in
      update_user user (refund (sum_costs open_logs))
        (record db { usage = map (marked (ids_of open_logs)) db.usage })

  -- What a run promises: nothing below the two guards, else one refund of every open row.
  abbrev pub compensation : Db → Result CompensationResult × Conn
  compensation db =
      let recent = recent_of db in
      if is_quiet cfg recent then (ok (counted recent), healthy db) else (
        ok (record (counted recent) {
          triggered = true;
          credited = sum_costs (keep is_open recent);
          compensated_count = length (keep is_open recent);
        }),
        healthy (refunded db),
      )

  -- With no fault a run reports and changes nothing when too few calls are broken or their rate is
  -- below the threshold; else it marks exactly the broken rows of the window that are not yet
  -- compensated and takes the sum of their costs, once, off what the user has used.
  pub compensate_broken_streams_lem :
      (db : Db) → compensate_broken_streams fmt user cfg (healthy db) ≡ compensation db
  unfolding compensate_broken_streams credit_quota
  compensate_broken_streams_lem db = elim (Bool-cases (is_quiet cfg (recent_of db))) [
    | inl y ↦ rw y refl
    | inr n ↦ rw (n, mark_usage_compensated-healthy (ids_of (keep is_open (recent_of db))) db) refl
  ]

  -- A report that refunds nothing.
  abbrev pub IsIdle : Db → Result CompensationResult × Conn → Type 0
  IsIdle db (err e, c) = ⊥
  IsIdle db (ok r, c) = (r.credited ≡ pos 0) × (r.compensated_count ≡ 0) × (c.db.usage ≡ db.usage)

  idle : (db : Db) → keep is_open (recent_of db) ≡ [] → IsIdle db (compensation db)
  unfolding update_user
  idle db none_left =
      if_rule (IsIdle db) (is_quiet cfg (recent_of db)) _ _ (λ _. (refl, refl, refl))
        (λ _. rw none_left (refl, refl, mark_none db.usage))

  refunded-none_open : (db : Db) → keep is_open (recent_of (refunded db)) ≡ []
  unfolding update_user
  refunded-none_open db =
      let ids = ids_of (keep is_open (recent_of db)) in
      ap (keep is_open)
        (usage_of-map fmt (marked ids) (marked-IsQuietChange ids) user cfg.window_size db.usage)
      ∙ none_open ids (recent_of db) (open-All (recent_of db))

  -- A run that has changed nothing, and reports no refund.
  abbrev pub IsNothing : Db → Result CompensationResult × Conn → Type 0
  IsNothing db (err e, c) = ⊥
  IsNothing db (ok r, c) =
      (r.credited ≡ pos 0)
      × (r.compensated_count ≡ 0)
      × (c.db.usage ≡ db.usage)
      × (c.db.users ≡ db.users)

  refund_again : (credit : ℤ) (u : User) → refund (pos 0) (refund credit u) ≡ refund credit u
  unfolding ◌-ℤ◌
  refund_again credit u = ground arith

  refund_settled :
      (credit : ℤ) (users : List User)
      → update_row user_key user (refund (pos 0)) (update_row user_key user (refund credit) users)
        ≡ update_row user_key user (refund credit) users
  refund_settled credit users =
      update_row_twice user_key user (refund credit) (refund (pos 0)) users (λ u. refl)
      ∙ ap (λ f. update_row user_key user f users) (fun_ext (λ u. refund_again credit u))

  rerun : (db : Db) → IsNothing (refunded db) (compensation (refunded db))
  unfolding update_user
  rerun db =
      if_rule (IsNothing (refunded db)) (is_quiet cfg (recent_of (refunded db))) _ _
        (λ _. (refl, refl, refl, refl))
        (λ _. rw (refunded-none_open db) (
          refl,
          refl,
          mark_none (refunded db).usage,
          refund_settled (sum_costs (keep is_open (recent_of db))) db.users,
        ))

  -- With no fault in either run, a second run refunds nothing and changes no row of the log and no
  -- user: where the first run was below the guards, and where it has refunded the window, the next one
  -- reports a credit of zero and no row.
  pub compensate_broken_streams_twice :
      (db : Db)
      → let c = (compensate_broken_streams fmt user cfg (healthy db)).1 in
        IsNothing c.db (compensate_broken_streams fmt user cfg c)
  compensate_broken_streams_twice db = subst Again (sym (compensate_broken_streams_lem db)) (
      if_rule Again (is_quiet cfg (recent_of db)) _ _
        (λ quiet.
          subst (IsNothing db) (sym (compensate_broken_streams_lem db))
            (rw quiet (refl, refl, refl, refl)))
        (λ _.
          subst (IsNothing (refunded db)) (sym (compensate_broken_streams_lem (refunded db)))
            (rerun db)))
    where
      Again : Result CompensationResult × Conn → Type 0
      Again m = IsNothing m.1.db (compensate_broken_streams fmt user cfg m.1)

  -- The last statement of a run that refunds is refused, and every earlier one passes.
  abbrev pub passes : ℕ → List Bool → List Bool
  passes zero fs = fs
  passes (suc n) fs = false ∷ passes n fs

  mark_usage_compensated-passes :
      (ids : List String) (fs : List Bool) (db : Db)
      → mark_usage_compensated ids (record { db = db; faults = passes (length ids) fs })
        ≡ (ok tt, record { db = record db { usage = map (marked ids) db.usage }; faults = fs })
  unfolding mark_usage_compensated exec
  mark_usage_compensated-passes [] fs db = rw (mark_none db.usage) refl
  mark_usage_compensated-passes (id ∷ ids) fs db = rw (mark_one id db.usage) (
      mark_usage_compensated-passes ids fs (record db { usage = map (marked (id ∷ [])) db.usage })
      ∙ rw (mark_more id ids db.usage) refl)

  abbrev pub cut_short : Db → Conn
  cut_short db = record {
    db = db;
    faults = false ∷ passes (length (ids_of (keep is_open (recent_of db)))) (true ∷ []);
  }

  abbrev marked_db : Db → Db
  marked_db db = record db { usage = map (marked (ids_of (keep is_open (recent_of db)))) db.usage }

  cut_short_lem :
      (db : Db)
      → is_quiet cfg (recent_of db) ≡ false
      → compensate_broken_streams fmt user cfg (cut_short db)
        ≡ (err driver_fault, healthy (marked_db db))
  unfolding compensate_broken_streams credit_quota
  cut_short_lem db loud =
      rw (loud, mark_usage_compensated-passes (ids_of (keep is_open (recent_of db))) (true ∷ []) db)
        refl

  -- A run that has lost its refund.
  abbrev IsLost : Db → Result CompensationResult × Conn → Type 0
  IsLost db (r, c) =
      (r ≡ err driver_fault)
      × (c.db.users ≡ db.users)
      × IsIdle c.db (compensate_broken_streams fmt user cfg (healthy c.db))

  -- A refund that is cut short is lost: when the driver refuses the last statement of a run past the
  -- guards, the run reports the fault and no user has been credited, but the rows are marked, so the
  -- next run finds nothing to refund.
  pub compensate_broken_streams_lost :
      (db : Db)
      → is_quiet cfg (recent_of db) ≡ false
      → let (r, c) = compensate_broken_streams fmt user cfg (cut_short db) in
        (r ≡ err driver_fault)
        × (c.db.users ≡ db.users)
        × IsIdle c.db (compensate_broken_streams fmt user cfg (healthy c.db))
  unfolding update_user
  compensate_broken_streams_lost db loud = subst (IsLost db) (sym (cut_short_lem db loud)) (
    refl,
    refl,
    subst (IsIdle (marked_db db)) (sym (compensate_broken_streams_lem (marked_db db)))
        (idle (marked_db db) (refunded-none_open db)),
  )
