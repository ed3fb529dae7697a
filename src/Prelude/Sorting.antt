-- ===== src/Prelude/Sorting.antt =====
-- A stable sort by a number, as sort.SliceStable and sort.Ints give it, and its laws: the result is
-- in order, and the elements of each rank stand as they stood.
use subport.Prelude.{
  ℕ, suc, ◌≤◌, ◌≡◌, refl, ◌∙◌, inl, inr, Bool, List, [], ◌∷◌, arith, leb, ◌==◌, if◌then◌else◌,
  Bool-cases, leb→le, length, All, keep,
}

module _ {ℓ} {A : Type ℓ} (rank : A → ℕ) where
  pub insert_by : A → List A → List A
  insert_by x [] = x ∷ []
  insert_by x (y ∷ ys) = if leb (rank x) (rank y) then x ∷ y ∷ ys else y ∷ insert_by x ys

  unfoldable pub sort_by : List A → List A
  unfolding insert_by
  sort_by [] = []
  sort_by (x ∷ xs) = insert_by x (sort_by xs)

  abbrev pub IsSortedBy : List A → Type 0
  IsSortedBy [] = Unit
  IsSortedBy (x ∷ xs) = All (λ y. rank x ≤ rank y) xs × IsSortedBy xs

  abbrev pub has_rank : ℕ → A → Bool
  has_rank r a = rank a == r

module _ {ℓ κ} {A : Type ℓ} (rank : A → ℕ) (P : A → Type κ) where
  insert_by-All : (x : A) (ys : List A) → P x → All P ys → All P (insert_by rank x ys)
  unfolding insert_by
  insert_by-All x [] p h = (p, tt)
  insert_by-All x (y ∷ ys) p h = elim (Bool-cases (leb (rank x) (rank y))) [
    | inl e ↦ rw e (p, (h.0, h.1))
    | inr e ↦ rw e (h.0, insert_by-All x ys p h.1)
  ]

  pub sort_by-All : (xs : List A) → All P xs → All P (sort_by rank xs)
  unfolding sort_by
  sort_by-All [] h = h
  sort_by-All (x ∷ xs) h = insert_by-All x (sort_by rank xs) h.0 (sort_by-All xs h.1)

module _ {ℓ κ} {A : Type ℓ} (rank : A → ℕ) (P : A → Type κ) where
  All-insert_by : (x : A) (ys : List A) → All P (insert_by rank x ys) → P x × All P ys
  unfolding insert_by
  All-insert_by x [] h = h
  All-insert_by x (y ∷ ys) h = elim (Bool-cases (leb (rank x) (rank y))) [
    | inl e ↦ rw e at h
    | inr e ↦
        let h' : P y × All P (insert_by rank x ys) = rw e at h in
        let (p, q) = All-insert_by x ys h'.1 in (p, (h'.0, q))
  ]

  pub All-sort_by : (xs : List A) → All P (sort_by rank xs) → All P xs
  unfolding sort_by
  All-sort_by [] h = h
  All-sort_by (x ∷ xs) h = let (p, q) = All-insert_by x (sort_by rank xs) h in (p, All-sort_by xs q)

module _ {ℓ} {A : Type ℓ} (rank : A → ℕ) where
  All-le_trans :
      (a b : ℕ) (xs : List A) → a ≤ b → All (λ y. b ≤ rank y) xs → All (λ y. a ≤ rank y) xs
  All-le_trans a b [] le h = tt
  All-le_trans a b (x ∷ xs) le h = (omega arith, All-le_trans a b xs le h.1)

  insert_by-IsSortedBy :
      (x : A) (ys : List A) → IsSortedBy rank ys → IsSortedBy rank (insert_by rank x ys)
  unfolding insert_by
  insert_by-IsSortedBy x [] h = (tt, tt)
  insert_by-IsSortedBy x (y ∷ ys) h = elim (Bool-cases (leb (rank x) (rank y))) [
    | inl e ↦
        let le : rank x ≤ rank y = leb→le _ _ e in
        rw e ((le, All-le_trans (rank x) (rank y) ys le h.0), (h.0, h.1))
    | inr e ↦ rw e (
      insert_by-All rank (λ z. rank y ≤ rank z) x ys (ground arith) h.0,
      insert_by-IsSortedBy x ys h.1,
    )
  ]

  pub sort_by-IsSortedBy : (xs : List A) → IsSortedBy rank (sort_by rank xs)
  unfolding sort_by
  sort_by-IsSortedBy [] = tt
  sort_by-IsSortedBy (x ∷ xs) = insert_by-IsSortedBy x (sort_by rank xs) (sort_by-IsSortedBy xs)

  keep-insert_by :
      (r : ℕ) (x : A) (ys : List A)
      → keep (has_rank rank r) (insert_by rank x ys) ≡ keep (has_rank rank r) (x ∷ ys)
  unfolding insert_by
  keep-insert_by r x [] = refl
  keep-insert_by r x (y ∷ ys) = ground (arith, keep-insert_by r x ys)

  pub keep-sort_by :
      (r : ℕ) (xs : List A) → keep (has_rank rank r) (sort_by rank xs) ≡ keep (has_rank rank r) xs
  unfolding sort_by
  keep-sort_by r [] = refl
  keep-sort_by r (x ∷ xs) = keep-insert_by r x (sort_by rank xs) ∙ ground (arith, keep-sort_by r xs)

  pub length-sort_by : (xs : List A) → length (sort_by rank xs) ≡ length xs
  unfolding sort_by
  length-sort_by [] = refl
  length-sort_by (x ∷ xs) = omega (arith, length-insert_by x (sort_by rank xs), length-sort_by xs)
    where
      length-insert_by : (x : A) (ys : List A) → length (insert_by rank x ys) ≡ suc (length ys)
      length-insert_by x [] = unfold insert_by in refl
      length-insert_by x (y ∷ ys) = unfold insert_by in ground (arith, length-insert_by x ys)
