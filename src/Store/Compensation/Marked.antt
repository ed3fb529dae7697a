-- ===== src/Store/Compensation/Marked.antt =====
-- internal/store/store.go, CompensateBrokenStreams: the rows of a window after some are marked.
use subport.Prelude.{
  ℕ, zero, suc, String, ◌≡◌, refl, ap, ◌∙◌, Bool, true, false, ◌||◌, List, [], ◌∷◌, map, arith,
  str_eq, eq_refl, if◌then◌else◌, if_rule, All, keep,
}
use subport.Prelude.Text.{Text}
use subport.Store.Table.{update_where}
use subport.Store.Rows.{UsageLog, Db}
use subport.Store.Sql.{ok, healthy, exec}
use subport.Store.Compensation.{
  insert_newest, newest_first, take, is_of, usage_of, is_open, mark_usage_compensated,
}

abbrev pub is_in : List String → String → Bool
is_in [] id = false
is_in (j ∷ ids) id = str_eq id j || is_in ids id

-- A log row after the ids have been marked.
abbrev pub marked : List String → UsageLog → UsageLog
marked ids l = if is_in ids l.id then record l { compensated = true } else l

-- A change of rows that keeps what the window is chosen by.
pub record IsQuietChange (f : UsageLog → UsageLog) : Type 0 where
  user : (l : UsageLog) → (f l).user_id ≡ l.user_id
  time : (l : UsageLog) → (f l).created_at ≡ l.created_at

pub marked-IsQuietChange : (ids : List String) → IsQuietChange (marked ids)
marked-IsQuietChange ids = record { user = λ l. ground arith; time = λ l. ground arith }

module _ (fmt : ℕ → Text) (f : UsageLog → UsageLog) (h : IsQuietChange f) where
  keep-map :
      (user : String) (rows : List UsageLog)
      → keep (is_of user) (map f rows) ≡ map f (keep (is_of user) rows)
  keep-map user [] = refl
  keep-map user (l ∷ rows) = ground (arith, h.user l, keep-map user rows)

  insert_newest-map :
      (l : UsageLog) (rows : List UsageLog)
      → insert_newest fmt (f l) (map f rows) ≡ map f (insert_newest fmt l rows)
  unfolding insert_newest
  insert_newest-map l [] = refl
  insert_newest-map l (m ∷ rows) = ground (arith, h.time l, h.time m, insert_newest-map l rows)

  newest_first-map :
      (rows : List UsageLog) → newest_first fmt (map f rows) ≡ map f (newest_first fmt rows)
  unfolding newest_first
  newest_first-map [] = refl
  newest_first-map (l ∷ rows) =
      ap (insert_newest fmt (f l)) (newest_first-map rows)
      ∙ insert_newest-map l (newest_first fmt rows)

  take-map : (n : ℕ) (rows : List UsageLog) → take n (map f rows) ≡ map f (take n rows)
  take-map zero rows = refl
  take-map (suc n) [] = refl
  take-map (suc n) (l ∷ rows) = ap (λ t. f l ∷ t) (take-map n rows)

  pub usage_of-map :
      (user : String) (n : ℕ) (rows : List UsageLog)
      → usage_of fmt user n (map f rows) ≡ map f (usage_of fmt user n rows)
  unfolding usage_of
  usage_of-map user n rows =
      ap (λ x. take n (newest_first fmt x)) (keep-map user rows)
      ∙ ap (take n) (newest_first-map (keep (is_of user) rows))
      ∙ take-map n (newest_first fmt (keep (is_of user) rows))

abbrev pub ids_of : List UsageLog → List String
ids_of rows = map (λ (l : UsageLog). l.id) rows

-- Every open row of the window is among the ids that the run marks.
All-weaken :
    (ids : List String) (j : String) (rows : List UsageLog)
    → All (λ l. is_open l ≡ true → is_in ids l.id ≡ true) rows
    → All (λ l. is_open l ≡ true → is_in (j ∷ ids) l.id ≡ true) rows
All-weaken ids j [] h = tt
All-weaken ids j (l ∷ rows) h = (λ o. ground (arith, h.0 o), All-weaken ids j rows h.1)

pub open-All :
    (rows : List UsageLog)
    → All (λ l. is_open l ≡ true → is_in (ids_of (keep is_open rows)) l.id ≡ true) rows
open-All [] = tt
open-All (l ∷ rows) =
    if_rule
      (λ ks.
        (is_open l ≡ true → is_in (ids_of ks) l.id ≡ true)
        × All (λ m. is_open m ≡ true → is_in (ids_of ks) m.id ≡ true) rows)
      (is_open l) _ _
      (λ y. (
        λ o. ground (arith, eq_refl l.id),
        All-weaken (ids_of (keep is_open rows)) l.id rows (open-All rows),
      ))
      (λ n. (λ o. cc, open-All rows))

pub none_open :
    (ids : List String) (rows : List UsageLog)
    → All (λ l. is_open l ≡ true → is_in ids l.id ≡ true) rows
    → keep is_open (map (marked ids) rows) ≡ []
none_open ids [] h = refl
none_open ids (l ∷ rows) h = ground (arith, h.0, none_open ids rows h.1)

pub mark_one :
    (id : String) (rows : List UsageLog)
    → update_where (λ l. str_eq l.id id) (λ l. record l { compensated = true }) rows
      ≡ map (marked (id ∷ [])) rows
unfolding update_where
mark_one id [] = refl
mark_one id (l ∷ rows) = ground (arith, mark_one id rows)

pub mark_more :
    (id : String) (ids : List String) (rows : List UsageLog)
    → map (marked ids) (map (marked (id ∷ [])) rows) ≡ map (marked (id ∷ ids)) rows
mark_more id ids [] = refl
mark_more id ids (l ∷ rows) = ground (arith, mark_more id ids rows)

pub mark_none : (rows : List UsageLog) → map (marked []) rows ≡ rows
mark_none [] = refl
mark_none (l ∷ rows) = ap (λ t. l ∷ t) (mark_none rows)

pub mark_usage_compensated-healthy :
    (ids : List String) (db : Db)
    → mark_usage_compensated ids (healthy db)
      ≡ (ok tt, healthy (record db { usage = map (marked ids) db.usage }))
unfolding mark_usage_compensated exec
mark_usage_compensated-healthy [] db = rw (mark_none db.usage) refl
mark_usage_compensated-healthy (id ∷ ids) db = rw (mark_one id db.usage) (
    mark_usage_compensated-healthy ids (record db { usage = map (marked (id ∷ [])) db.usage })
    ∙ rw (mark_more id ids db.usage) refl)
