-- ===== src/Store/Quota/Interleaving.antt =====
-- The requests of one user in any order: holds taken, settled and released while others are open.
use subport.Prelude.{
  ℕ, ◌+◌, ◌≤◌, ◌<◌, String, ◌≡◌, ap, ◌∙◌, true, some, List, [], ◌∷◌, ◌++◌, arith, lt→ltb,
}
use subport.Prelude.Int.{ℤ, pos, ◌+ℤ◌, ◌-ℤ◌}
use mathlib.Core.Path.{subst}
use subport.Store.Rows.{User, UsageLog, Db}
use subport.Store.Sql.{Error, ok, err, Conn}
use subport.Store.Quota.{
  user_of, admits, hold, drop_hold, reserve_quota, release_quota, settle_usage,
}
use subport.Store.Quota.Admission.{reserve_quota-FailsClean}
use subport.Store.Quota.Settlement.{close_out}
use subport.Store.Quota.Outcomes.{reserve_ok, release_ok, settle_ok}

abbrev pub sum : List ℕ → ℕ
sum [] = 0
sum (a ∷ rest) = a + sum rest

pub sum-append : (xs ys : List ℕ) → sum (xs ++ ys) ≡ sum xs + sum ys
sum-append [] ys = omega arith
sum-append (x ∷ xs) ys = omega (arith, sum-append xs ys)

-- The connection, and the holds of the user whose requests are open.
pub record Desk : Type 0 where
  pub conn : Conn
  pub holds : List ℕ

-- One event at the desk of a user: a request is admitted or turned away, an open one is settled at
-- a cost up to its hold, or given up.
pub data Step (id : String) : Desk → Desk → Type 0 where
  admit :
      (d : Desk) (a : ℕ)
      → 0 < a
      → (reserve_quota id (pos a) d.conn).0 ≡ ok tt
      → Step id d (record { conn = (reserve_quota id (pos a) d.conn).1; holds = a ∷ d.holds })
  turn_away :
      (d : Desk) (a : ℕ) (e : Error)
      → (reserve_quota id (pos a) d.conn).0 ≡ err e
      → Step id d (record d { conn = (reserve_quota id (pos a) d.conn).1 })
  settle :
      (d : Desk) (before after : List ℕ) (a k : ℕ) (row : String) (now : ℕ) (l : UsageLog)
      → d.holds ≡ before ++ a ∷ after
      → 0 < a
      → l.user_id ≡ id
      → l.cost ≡ pos k
      → k ≤ a
      → (settle_usage row now l (pos a) d.conn).0 ≡ ok tt
      → Step id d
          (record { conn = (settle_usage row now l (pos a) d.conn).1; holds = before ++ after })
  give_up :
      (d : Desk) (before after : List ℕ) (a : ℕ)
      → d.holds ≡ before ++ a ∷ after
      → 0 < a
      → (release_quota id (pos a) d.conn).0 ≡ ok tt
      → Step id d (record { conn = (release_quota id (pos a) d.conn).1; holds = before ++ after })

pub data Reach (id : String) (d : Desk) : Desk → Type 0 where
  here : Reach id d d
  next : {d' d'' : Desk} → Reach id d d' → Step id d' d'' → Reach id d d''

-- The user's row carries exactly the open holds, and with what was charged they fit the allowance.
pub record IsCovered (id : String) (total : ℕ) (d : Desk) : Type 0 where
  pub row : User
  pub used : ℕ
  pub found : user_of d.conn.db id ≡ some row
  pub total_is : row.quota_total ≡ pos total
  pub used_is : row.quota_used ≡ pos used
  pub reserved_is : row.quota_reserved ≡ pos (sum d.holds)
  pub fits : used + sum d.holds ≤ total

hold_fits :
    (u : User) (total used held a : ℕ)
    → 0 < total
    → u.quota_total ≡ pos total
    → u.quota_used ≡ pos used
    → u.quota_reserved ≡ pos held
    → admits u (pos a) ≡ true
    → used + (a + held) ≤ total
unfolding admits ◌+ℤ◌
hold_fits u total used held a h t q r room = ground arith

add_pos : (x : ℤ) (a b : ℕ) → x ≡ pos b → x +ℤ pos a ≡ pos (a + b)
unfolding ◌+ℤ◌
add_pos x a b e = ground arith

closed_row :
    (u : User) (cost : ℤ) (a b k used : ℕ)
    → 0 < a
    → cost ≡ pos k
    → u.quota_used ≡ pos used
    → u.quota_reserved ≡ pos (a + b)
    → ((close_out cost (pos a) u).quota_total ≡ u.quota_total)
      × ((close_out cost (pos a) u).quota_used ≡ pos (k + used))
      × ((close_out cost (pos a) u).quota_reserved ≡ pos b)
unfolding drop_hold ◌+ℤ◌ ◌-ℤ◌
closed_row u cost a b k used pa e f g = ground arith

drop_pos :
    (u : User) (a b : ℕ)
    → u.quota_reserved ≡ pos (a + b)
    → (drop_hold (pos a) u).quota_reserved ≡ pos b
unfolding drop_hold ◌-ℤ◌
drop_pos u a b e = ground arith

sum_split :
    (holds before after : List ℕ) (a : ℕ)
    → holds ≡ before ++ a ∷ after
    → sum holds ≡ a + sum (before ++ after)
sum_split holds before after a split =
    omega (arith, ap sum split, sum-append before (a ∷ after), sum-append before after)

Step-IsCovered :
    (id : String) (total : ℕ)
    → 0 < total
    → {d d' : Desk} → Step id d d'
    → IsCovered id total d
    → IsCovered id total d'
unfolding drop_hold
Step-IsCovered id total pt (admit d a pa h) v =
    let (fits, found) = reserve_ok id (pos a) v.row d.conn (lt→ltb 0 a pa) v.found h in
    record {
      row = hold (pos a) v.row;
      used = v.used;
      found = found;
      total_is = v.total_is;
      used_is = v.used_is;
      reserved_is = add_pos v.row.quota_reserved a (sum d.holds) v.reserved_is;
      fits =
          hold_fits v.row total v.used (sum d.holds) a pt v.total_is v.used_is v.reserved_is fits;
    }
Step-IsCovered id total pt (turn_away d a e h) v =
    let same = (reserve_quota-FailsClean id (pos a)).at d.conn e h in
    record {
      row = v.row;
      used = v.used;
      found = ap (λ (db : Db). user_of db id) same ∙ v.found;
      total_is = v.total_is;
      used_is = v.used_is;
      reserved_is = v.reserved_is;
      fits = v.fits;
    }
Step-IsCovered id total pt (settle d before after a k row now l split pa mine cost le h) v =
    let s : sum d.holds ≡ a + sum (before ++ after) = sum_split d.holds before after a split in
    let (total_is, used_is, reserved_is) =
      closed_row v.row l.cost a (sum (before ++ after)) k v.used pa cost v.used_is
        (v.reserved_is ∙ ap pos s) in
    record {
      row = close_out l.cost (pos a) v.row;
      used = k + v.used;
      found =
          subst
            (λ (u : String).
              user_of d.conn.db u ≡ some v.row
              → user_of (settle_usage row now l (pos a) d.conn).1.db u
                ≡ some (close_out l.cost (pos a) v.row))
            mine (λ e. settle_ok row now l (pos a) v.row d.conn e h) v.found;
      total_is = total_is ∙ v.total_is;
      used_is = used_is;
      reserved_is = reserved_is;
      fits = omega arith;
    }
Step-IsCovered id total pt (give_up d before after a split pa h) v =
    let s : sum d.holds ≡ a + sum (before ++ after) = sum_split d.holds before after a split in
    record {
      row = drop_hold (pos a) v.row;
      used = v.used;
      found = release_ok id (pos a) v.row d.conn (lt→ltb 0 a pa) v.found h;
      total_is = v.total_is;
      used_is = v.used_is;
      reserved_is = drop_pos v.row a (sum (before ++ after)) (v.reserved_is ∙ ap pos s);
      fits = omega arith;
    }

-- Admission never over-commits. From a desk whose open holds and past charges fit a positive
-- allowance, every order of admissions, refusals, settlements at a cost up to the hold and
-- releases, under any faults, ends at a desk where the user's row carries exactly the open holds
-- and the charges and open holds together still fit the allowance.
pub Reach-IsCovered :
    (id : String) (total : ℕ)
    → 0 < total
    → {d d' : Desk} → Reach id d d'
    → IsCovered id total d
    → IsCovered id total d'
Reach-IsCovered id total pt here v = v
Reach-IsCovered id total pt (next r s) v =
    Step-IsCovered id total pt s (Reach-IsCovered id total pt r v)
