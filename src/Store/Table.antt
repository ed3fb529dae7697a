-- ===== src/Store/Table.antt =====
-- A table with a primary key, as the statements of the store use it. The key is declared
-- PRIMARY KEY in internal/store/sqlite_schema.go, so a WHERE clause on it selects one row at most:
-- the first that has the key.
use subport.Prelude.{
  All, keep, ℕ, Bool, true, false, ◌+◌, inl, inr, Bool-cases, String, ◌≡◌, refl, Option, none, some,
  List, [], ◌∷◌, ◌++◌, arith, str_eq, eq_iff, if◌then◌else◌,
}
use mathlib.Core.Option

module _ {ℓ} {A : Type ℓ} (key : A → String) where
  -- SELECT … WHERE key = k
  unfoldable pub find_row : String → List A → Option A
  find_row k [] = none
  find_row k (a ∷ rows) = if str_eq (key a) k then some a else find_row k rows

  -- UPDATE … SET … WHERE key = k
  unfoldable pub update_row : String → (A → A) → List A → List A
  update_row k f [] = []
  update_row k f (a ∷ rows) = if str_eq (key a) k then f a ∷ rows else a ∷ update_row k f rows

  -- DELETE … WHERE key = k
  unfoldable pub delete_row : String → List A → List A
  delete_row k [] = []
  delete_row k (a ∷ rows) = if str_eq (key a) k then rows else a ∷ delete_row k rows

  -- A row after an update: the row with the key is changed, any other key reads as before.
  pub find_row-update_row :
      (k j : String) (f : A → A) (rows : List A)
      → ((a : A) → key (f a) ≡ key a)
      → find_row j (update_row k f rows)
        ≡ (if str_eq k j then Option.map f (find_row j rows) else find_row j rows)
  unfolding find_row update_row
  find_row-update_row k j f [] same_key = ground arith
  find_row-update_row k j f (a ∷ rows) same_key = ground (
    arith,
    same_key a,
    eq_iff (key a) k,
    eq_iff (key a) j,
    eq_iff k j,
    eq_iff (key (f a)) j,
    find_row-update_row k j f rows same_key,
  )

  -- An INSERT appends a row.
  pub find_row-append :
      (j : String) (rows : List A) (a : A)
      → find_row j (rows ++ a ∷ []) ≡ elim (find_row j rows) [
        | some b ↦ some b
        | none ↦ if str_eq (key a) j then some a else none
      ]
  unfolding find_row
  find_row-append j [] a = ground arith
  find_row-append j (b ∷ rows) a = ground (arith, find_row-append j rows a)

  pub update_row_twice :
      (k : String) (f g : A → A) (rows : List A)
      → ((a : A) → key (f a) ≡ key a)
      → update_row k g (update_row k f rows) ≡ update_row k (λ a. g (f a)) rows
  unfolding update_row
  update_row_twice k f g [] same_key = refl
  update_row_twice k f g (a ∷ rows) same_key =
      ground (arith, same_key a, update_row_twice k f g rows same_key)

-- Statements whose WHERE clause is any test: SELECT of one row, UPDATE and DELETE of all that match.
module _ {ℓ} {A : Type ℓ} where
  unfoldable pub find_where : (A → Bool) → List A → Option A
  find_where p [] = none
  find_where p (a ∷ rows) = if p a then some a else find_where p rows

  -- RowsAffected
  unfoldable pub count_where : (A → Bool) → List A → ℕ
  count_where p [] = 0
  count_where p (a ∷ rows) = let n = count_where p rows in if p a then n + 1 else n

  unfoldable pub update_where : (A → Bool) → (A → A) → List A → List A
  update_where p f [] = []
  update_where p f (a ∷ rows) = (if p a then f a else a) ∷ update_where p f rows

  unfoldable pub delete_where : (A → Bool) → List A → List A
  delete_where p [] = []
  delete_where p (a ∷ rows) = let rest = delete_where p rows in if p a then rest else a ∷ rest

  pub find_where-All {κ} :
      (P : A → Type κ) (p : A → Bool) (rows : List A) (a : A)
      → All P rows
      → find_where p rows ≡ some a
      → P a × (p a ≡ true)
  unfolding find_where
  find_where-All P p [] a h e = cc
  find_where-All P p (b ∷ rows) a h e = elim (Bool-cases (p b)) [
    | inl y ↦ ground (arith, h.0)
    | inr n ↦ find_where-All P p rows a h.1 (rw n at e)
  ]

  -- Rows outside the clause are as before.
  pub keep-update_where :
      (p q : A → Bool) (f : A → A) (rows : List A)
      → ((a : A) → p a ≡ true → (q a ≡ false) × (q (f a) ≡ false))
      → keep q (update_where p f rows) ≡ keep q rows
  unfolding update_where
  keep-update_where p q f [] h = refl
  keep-update_where p q f (a ∷ rows) h = ground (arith, h a, keep-update_where p q f rows h)

  pub keep-delete_where :
      (p q : A → Bool) (rows : List A)
      → ((a : A) → p a ≡ true → q a ≡ false)
      → keep q (delete_where p rows) ≡ keep q rows
  unfolding delete_where
  keep-delete_where p q [] h = refl
  keep-delete_where p q (a ∷ rows) h = ground (arith, h a, keep-delete_where p q rows h)

-- INSERT … ON CONFLICT(key) DO UPDATE, which replaces the row.
module _ {ℓ} {A : Type ℓ} (key : A → String) where
  unfoldable pub upsert : A → List A → List A
  upsert a [] = a ∷ []
  upsert a (b ∷ rows) =
      let rest = upsert a rows in if str_eq (key b) (key a) then a ∷ rows else b ∷ rest

  pub find_row-upsert :
      (j : String) (a : A) (rows : List A)
      → find_row key j (upsert a rows) ≡ (if str_eq (key a) j then some a else find_row key j rows)
  unfolding find_row upsert
  find_row-upsert j a [] = ground arith
  find_row-upsert j a (b ∷ rows) =
      ground (
        arith,
        eq_iff (key b) (key a),
        eq_iff (key a) j,
        eq_iff (key b) j,
        find_row-upsert j a rows,
      )
