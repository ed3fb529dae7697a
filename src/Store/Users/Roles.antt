-- ===== src/Store/Users/Roles.antt =====
-- How the number of admins moves.
use subport.Prelude.{◌+◌, ◌≤◌, String, ◌≡◌, refl, Bool, true, some, List, [], ◌∷◌, arith}
use subport.Store.Table.{find_row, update_row, count_where}

module _ {A : Type 0} (key : A → String) (k : String) (f : A → A) (p : A → Bool) where
  -- An update of one row loses one row of a count at most.
  pub count_where-update_row :
      (rows : List A) → count_where p rows ≤ count_where p (update_row key k f rows) + 1
  unfolding count_where update_row
  count_where-update_row [] = omega arith
  count_where-update_row (a ∷ rows) = ground (arith, count_where-update_row rows)

  -- And none where the row that it changes stays in the count.
  pub count_kept :
      (rows : List A) (a : A)
      → find_row key k rows ≡ some a
      → (p a ≡ true → p (f a) ≡ true)
      → count_where p rows ≤ count_where p (update_row key k f rows)
  unfolding count_where update_row find_row
  count_kept [] a e h = omega arith
  count_kept (b ∷ rows) a e h = ground (arith, count_kept rows a, h)

  pub count_same :
      (rows : List A)
      → ((a : A) → p (f a) ≡ p a)
      → count_where p (update_row key k f rows) ≡ count_where p rows
  unfolding count_where update_row
  count_same [] h = refl
  count_same (a ∷ rows) h = ground (arith, h a, count_same rows h)
