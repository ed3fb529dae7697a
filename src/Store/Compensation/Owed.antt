-- ===== src/Store/Compensation/Owed.antt =====
-- internal/store/store.go, CompensateBrokenStreams: what a run does to the log and to the user.
use subport.Prelude.{
  ℕ, ◌+◌, ◌*◌, ◌<◌, String, ◌≡◌, refl, sym, ap, ◌∙◌, ◌⊎◌, inl, inr, Bool, true, false, ◌&&◌, ◌||◌,
  not, List, [], ◌∷◌, map, arith, str_eq, if◌then◌else◌, Bool-cases, length, keep,
}
use subport.Prelude.Int.{ℤ, pos, ◌-ℤ◌, ltb_ℤ}
use subport.Prelude.Int64.{add64}
use subport.Prelude.Text.{Text}
use mathlib.Core.Path.{subst, fun_ext}
use subport.Store.Table.{update_row}
use subport.Store.Rows.{User, UsageLog, Db}
use subport.Store.Sql.{Result, ok, err, Conn, healthy}
use subport.Store.Quota.{user_key, update_user}
use subport.Store.Compensation.{
  CompensationConfig, CompensationResult, usage_of, is_open, is_broken, sum_costs, refund, is_quiet,
  compensate_broken_streams,
}
use subport.Store.Compensation.Marked.{is_in, ids_of}
use subport.Store.Compensation.Refunded.{compensate_broken_streams_lem}

-- How many calls of a window broke.
abbrev pub count_broken : List UsageLog → ℕ
count_broken [] = 0
count_broken (l ∷ rest) = if l.stream_broken then count_broken rest + 1 else count_broken rest

-- The costs of the calls that broke and are not compensated, added up as int64.
abbrev pub owed_sum : List UsageLog → ℤ
owed_sum [] = pos 0
owed_sum (l ∷ rest) =
    if l.stream_broken && not l.compensated then add64 l.cost (owed_sum rest) else owed_sum rest

abbrev pub owed_count : List UsageLog → ℕ
owed_count [] = 0
owed_count (l ∷ rest) =
    if l.stream_broken && not l.compensated then owed_count rest + 1 else owed_count rest

-- Whether the id is that of a call of the window that broke and is not compensated.
abbrev pub is_owed : List UsageLog → String → Bool
is_owed [] id = false
is_owed (l ∷ rest) id = (l.stream_broken && not l.compensated && str_eq id l.id) || is_owed rest id

-- The user after a refund, which stops at 0.
abbrev pub repaid : ℤ → User → User
repaid credit u = record u {
  quota_used = if ltb_ℤ u.quota_used credit then pos 0 else u.quota_used -ℤ credit;
}

-- Too few calls of the window broke, or their share is below the threshold; with no calls the share
-- is 0.
abbrev pub IsBelow : CompensationConfig → List UsageLog → Type 0
IsBelow cfg recent =
    (count_broken recent < cfg.min_broken)
    ⊎ ((length recent ≡ 0) × (0 < cfg.threshold_part))
    ⊎ ((0 < length recent)
        × (count_broken recent * cfg.threshold_whole < cfg.threshold_part * length recent))

module _ (fmt : ℕ → Text) (user : String) (cfg : CompensationConfig) where
  -- The two outcomes of a run.
  abbrev pub IsCompensated : Db → Result CompensationResult × Conn → Type 0
  IsCompensated db (err e, c) = ⊥
  IsCompensated db (ok r, c) =
      let recent = usage_of fmt user cfg.window_size db.usage in
      (IsBelow cfg recent
        × (r.triggered ≡ false)
        × (r.credited ≡ pos 0)
        × (r.compensated_count ≡ 0)
        × (c ≡ healthy db))
      ⊎ (¬ IsBelow cfg recent
          × (r.triggered ≡ true)
          × (r.credited ≡ owed_sum recent)
          × (r.compensated_count ≡ owed_count recent)
          × (c.db.users ≡ update_row user_key user (repaid (owed_sum recent)) db.users)
          × (c.db.usage
              ≡ map
                  (λ (l : UsageLog).
                    if is_owed recent l.id then record l { compensated = true } else l)
                  db.usage))

count_broken_lem : (recent : List UsageLog) → length (keep is_broken recent) ≡ count_broken recent
count_broken_lem [] = refl
count_broken_lem (l ∷ rest) = ground (arith, count_broken_lem rest)

owed_sum_lem : (recent : List UsageLog) → sum_costs (keep is_open recent) ≡ owed_sum recent
owed_sum_lem [] = refl
owed_sum_lem (l ∷ rest) = ground (arith, owed_sum_lem rest)

owed_count_lem : (recent : List UsageLog) → length (keep is_open recent) ≡ owed_count recent
owed_count_lem [] = refl
owed_count_lem (l ∷ rest) = ground (arith, owed_count_lem rest)

is_owed_lem :
    (recent : List UsageLog) (id : String)
    → is_in (ids_of (keep is_open recent)) id ≡ is_owed recent id
is_owed_lem [] id = refl
is_owed_lem (l ∷ rest) id = ground (arith, is_owed_lem rest id)

repaid_lem : (credit : ℤ) (u : User) → refund credit u ≡ repaid credit u
unfolding ◌-ℤ◌
repaid_lem credit u = ground arith

quiet-IsBelow :
    (cfg : CompensationConfig) (recent : List UsageLog)
    → is_quiet cfg recent ≡ true
    → IsBelow cfg recent
quiet-IsBelow cfg recent h = ground (arith, count_broken_lem recent)

loud-IsBelow :
    (cfg : CompensationConfig) (recent : List UsageLog)
    → is_quiet cfg recent ≡ false
    → ¬ IsBelow cfg recent
loud-IsBelow cfg recent h (inl few) = ground (arith, count_broken_lem recent)
loud-IsBelow cfg recent h (inr (inl none_there)) = ground (arith, count_broken_lem recent)
loud-IsBelow cfg recent h (inr (inr below)) = ground (arith, count_broken_lem recent)

-- With no fault a run has one of two outcomes. Where too few calls of the user's newest window broke,
-- or their share is below the threshold, it reports no refund and changes nothing. Else it takes the
-- costs of the calls of the window that broke and are not compensated, added up as int64, once off
-- what the user has used, down to 0, marks the rows with their ids and no other, and reports it.
pub compensate_broken_streams_owed :
    (fmt : ℕ → Text) (user : String) (cfg : CompensationConfig) (db : Db)
    → IsCompensated fmt user cfg db (compensate_broken_streams fmt user cfg (healthy db))
unfolding update_user
compensate_broken_streams_owed fmt user cfg db =
    let recent : List UsageLog = usage_of fmt user cfg.window_size db.usage in
    subst (IsCompensated fmt user cfg db) (sym (compensate_broken_streams_lem fmt user cfg db))
      (elim (Bool-cases (is_quiet cfg recent)) [
        | inl y ↦ rw y (inl (quiet-IsBelow cfg recent y, refl, refl, refl, refl))
        | inr n ↦ rw n (
            inr (
              loud-IsBelow cfg recent n,
              refl,
              owed_sum_lem recent,
              owed_count_lem recent,
              ap (λ f. update_row user_key user f db.users)
                  (fun_ext (λ u.
                    repaid_lem (sum_costs (keep is_open recent)) u
                    ∙ ap (λ k. repaid k u) (owed_sum_lem recent))),
              ap (λ (f : UsageLog → UsageLog). map f db.usage)
                  (fun_ext (λ l.
                    ap (λ b. if b then record l { compensated = true } else l)
                      (is_owed_lem recent l.id))),
            ))
      ])
